-- ===== src/Tests/Entities.antt =====
-- Derived sensors, time slots and the migration of an entry.
use hh_modbus.Base.{◌&&◌, ◌||◌, Bool}
use hh_modbus.Cache.{Text, text_eq}
use hh_modbus.Migration.Duplicates.{
  RegistryEntry, Registry, sort_entries, fix_matches, restore, remove_all, insert_entry, key_le,
}
use hh_modbus.Migration.Restored.{IsRegistry, OnlyUnder, kept_id, fix_matches_lem}
use hh_modbus.Base.{
  not, max, sym, ap, get_or, ◌⊎◌, ℕ, ◌≡◌, refl, arith, true, false, ◌&&◌, [], ◌∷◌, none, some,
  if◌then◌else◌,
}
use hh_modbus.Base.Int.{pos, sub_ℕ}
use hh_modbus.Sensors.{BaseSensor, dec, entry}
use hh_modbus.Sensors.Build.{declared_sensor}
use hh_modbus.Sensors.Values.{whole}
use hh_modbus.Sensors.Entity.{is_correct_controller}
use hh_modbus.Sensors.Derived.{convert_two, grid_power, grid_power_net}
use hh_modbus.Sensors.Flows.{IsWholePair, grid_flows}
use hh_modbus.TimeSlot.{Time, TimeUpdate, TimeState, is_time, handle_time_update, async_set_value}
use hh_modbus.TimeSlot.Service.{Slot, written, set_slot, set_first, service_set_time}
use hh_modbus.TimeSlot.Shown.{handle_time_update-async_set_value}
use hh_modbus.Profile.{EntryConfig, get_poll_profile}
use hh_modbus.Migration.{ConfigEntry, async_migrate_entry}
use hh_modbus.Migration.Kept.{waits, HasValidProfile, async_migrate_entry_lem}
use hh_modbus.Controller.{connect, execute_write_registers}
use hh_modbus.Controller.Writes.{cached}
use hh_modbus.Tests.Data.{owner, inverter, link}

abbrev grid_sensor : ℕ → BaseSensor
unfolding declared_sensor
grid_sensor flag =
    declared_sensor (record (entry "grid_power" 33263 (33264 ∷ flag ∷ [])) { multiplier = dec 0 0 })

grid_sensor-IsWholePair : (flag : ℕ) → IsWholePair (grid_sensor flag)
unfolding grid_sensor declared_sensor
grid_sensor-IsWholePair flag = record {
  second = 33264;
  others = flag ∷ [];
  more = refl;
  short = omega arith;
  untyped = refl;
  unscaled = refl;
}

grid_flows_example :
    (out : ℕ) × (into : ℕ) × (grid_power (grid_sensor 0) 0 65535 65036 ≡ whole (pos out))
    × (grid_power (grid_sensor 1) 1 65535 65036 ≡ whole (pos into))
    × (grid_power_net (convert_two (grid_sensor 0) 65535 65036) ≡ whole (sub_ℕ into out))
    × ((out ≡ 0) ⊎ (into ≡ 0))
grid_flows_example =
    grid_flows (grid_sensor 0) (grid_sensor 1) (grid_sensor 0) 65535 65036
      (grid_sensor-IsWholePair 0) (grid_sensor-IsWholePair 1) (grid_sensor-IsWholePair 0)

abbrev quarter_past : Time
quarter_past = record { hour = 6; minute = 30; second = 15 }

abbrev minute_update : TimeUpdate
minute_update = record { register = 43144; controller = "10.0.0.5"; slave = 1; value = some 30 }

abbrev no_time : TimeState
no_time = record { received = []; native_value = none; available = false }

written_and_acknowledged : (execute_write_registers inverter 43143 (6 ∷ 30 ∷ []) link).0 ≡ true
unfolding execute_write_registers connect
written_and_acknowledged = refl

handle_time_update-async_set_value_example :
    let ((start, words), set) = async_set_value 43143 quarter_past no_time in
    let (done, s') = execute_write_registers inverter start words link in
    let shown = handle_time_update owner 43143 (λ q. cached q s') minute_update set in
    (shown.native_value ≡ some (record quarter_past { second = 0 })) × (shown.available ≡ true)
unfolding is_time is_correct_controller async_set_value
handle_time_update-async_set_value_example =
    handle_time_update-async_set_value inverter link owner 43143 30 minute_update quarter_past
      no_time refl written_and_acknowledged refl refl refl

abbrev morning : Slot
morning = record { entity_id = 109 ∷ []; register = 43143; state = no_time }

abbrev evening : Slot
evening = record { entity_id = 101 ∷ []; register = 43145; state = no_time }

-- The second parser reads the text.
evening_is_set :
    service_set_time
      (λ text. none)
      (λ text. some quarter_past)
      (some (101 ∷ []))
      (some (54 ∷ 58 ∷ 51 ∷ 48 ∷ []))
      (morning ∷ evening ∷ [])
    ≡ written
        (43145, 6 ∷ 30 ∷ [])
        (morning
          ∷ record evening { state = record no_time { native_value = some quarter_past } }
          ∷ [])
unfolding service_set_time set_first set_slot async_set_value
evening_is_set = refl

abbrev legacy_keys : EntryConfig
legacy_keys = record {
  poll_profile = none;
  essential_only = some true;
  extreme_include_battery = none;
  extreme_include_smart_port = none;
  clock_sync = none;
}

abbrev old_entry : ConfigEntry
old_entry = record {
  version = 2;
  data_keys = legacy_keys;
  options = record legacy_keys { essential_only = none };
  is_solis = true;
  has_serial = true;
  done = [];
}

async_migrate_entry_lem_example :
    let (ok, f) = async_migrate_entry old_entry in
    (ok ≡ not (waits old_entry))
    × (f.version ≡ (
        if old_entry.is_solis && not (waits old_entry)
        then max old_entry.version 5
        else old_entry.version))
    × (HasValidProfile old_entry.data_keys old_entry.options
        → get_poll_profile f.data_keys f.options
          ≡ get_poll_profile old_entry.data_keys old_entry.options)
async_migrate_entry_lem_example = async_migrate_entry_lem old_entry

-- A registry as the set of its entity ids. The unique id "x" is in use.
abbrev ids : Registry (Text → Bool)
ids = record {
  has = λ x r. r x;
  remove = λ y r x. not (text_eq y x) && r x;
  update = λ y u moved r.
      let after : Text → Bool = elim moved [
        | none ↦ r
        | some z ↦ λ x. text_eq z x || not (text_eq y x) && r x
      ] in
      if text_eq u (b'x' ∷ []) then none else some after;
}

updated :
    (b : Bool) (x : Text) (after r' : Text → Bool)
    → (if b then none else some after) ≡ some r'
    → r' x ≡ after x
updated true x after r' h = absurd (ground arith)
updated false x after r' h = ap (λ o. get_or o after x) (sym h)

ids-IsRegistry : IsRegistry ids
ids-IsRegistry = record {
  has-remove = λ x y r. refl;
  has-move = λ x y u z r r' h k done.
      updated (text_eq u (b'x' ∷ [])) x (λ q. text_eq z q || not (text_eq y q) && r q) r' done;
}

abbrev older : RegistryEntry
older = record { entity_id = b'a' ∷ []; unique_id = b'u' ∷ []; created_at = some 1 }

abbrev newer : RegistryEntry
newer = record { entity_id = b'b' ∷ []; unique_id = b'v' ∷ []; created_at = some 2 }

abbrev both : Text → Bool
both x = text_eq (b'a' ∷ []) x || text_eq (b'b' ∷ []) x

fix_matches_lem_example :
    OnlyUnder ids
      (kept_id ids (b'w' ∷ []) (sort_entries (newer ∷ older ∷ [])) both)
      (newer ∷ older ∷ [])
      both
      (fix_matches ids (b'w' ∷ []) (newer ∷ older ∷ []) both)
fix_matches_lem_example =
    fix_matches_lem ids ids-IsRegistry (b'w' ∷ []) newer older [] both refl refl

-- The update raises after the older entity was removed.
older_is_lost : (fix_matches ids (b'x' ∷ []) (newer ∷ older ∷ []) both) (b'a' ∷ []) ≡ false
unfolding fix_matches restore remove_all sort_entries insert_entry key_le
older_is_lost = refl
