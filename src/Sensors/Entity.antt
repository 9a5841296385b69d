-- ===== src/Sensors/Entity.antt =====
-- sensors/solis_sensor.py: the sensor entity. Register updates arrive one at a time; the entity keeps
-- what it received until it has a value for each of its registers, shows the converted value, and
-- starts again. `received` is the dict, newest first; `cache` is `cache_get` of the entity's
-- controller. An exception of `convert_value` leaves the received values in place.
use Prim.Native.String.{String}
use text.Mathlib.Text.{◌==◌ as str_eq}
use hh_modbus.Base.{
  ℕ, ◌-◌, Bool, true, false, not, ◌&&◌, List, [], ◌∷◌, Option, none, some, if◌then◌else◌, ◌==◌, ltb,
  elem, all, is_some, map,
}
use hh_modbus.Base.Int.{pos}
use hh_modbus.Inverter.{InverterType, PollSpeed}
use hh_modbus.Sensors.{BaseSensor, registrars}
use hh_modbus.Sensors.Values.{Reading, absent, raises, whole, convert_raw_value}

-- The controller of an entity, as `is_correct_controller` compares it.
pub record Owner : Type 0 where
  pub host : String
  pub device_id : ℕ
  pub type : InverterType

-- The data of a dispatcher signal.
pub record Update : Type 0 where
  pub register : ℕ
  pub controller : String
  pub slave : ℕ
  pub value : ℕ

unfoldable pub is_correct_controller : Owner → String → ℕ → Bool
is_correct_controller o host slave = str_eq o.host host && o.device_id == slave

pub record SensorState : Type 0 where
  pub received : List (ℕ × ℕ)
  pub native_value : Reading
  pub available : Bool
  pub last_update : ℕ

abbrev pub find : ℕ → List (ℕ × ℕ) → Option ℕ
find r [] = none
find r (e ∷ es) = if e.0 == r then some e.1 else find r es

-- `all(reg in self._received_values for reg in self._register)`
unfoldable pub all_received : List ℕ → List (ℕ × ℕ) → Bool
all_received rs received = all (λ r. is_some (find r received)) rs

-- What is shown once every register has a value. `absent` leaves the value and the clock alone.
unfoldable pub show_reading : ℕ → Reading → SensorState → SensorState
show_reading now raises s = s
show_reading now absent s = record s { received = [] }
show_reading now r s = record s {
  received = [];
  native_value = r;
  available = true;
  last_update = now;
}

-- The end of the handler, once the update is recorded.
unfoldable pub publish_received : BaseSensor → ℕ → SensorState → SensorState
unfolding all_received show_reading convert_raw_value
publish_received b now s =
    if all_received (registrars b) s.received
    then show_reading now (convert_raw_value b (map (λ r. find r s.received) (registrars b))) s
    else s

abbrev is_grid : InverterType → Bool
is_grid InverterType.grid = true
is_grid _ = false

abbrev holds : Option ℕ → ℕ → Bool
holds none n = false
holds (some v) n = v == n

-- A grid inverter that waits (register 3043 is 2) shows 0 for register 3014.
unfoldable pub is_waiting : InverterType → (ℕ → Option ℕ) → ℕ → Bool
is_waiting t cache r = is_grid t && r == 3014 && holds (cache 3043) 2

unfoldable pub handle_modbus_update :
    Owner → BaseSensor → (ℕ → Option ℕ) → ℕ → Update → SensorState → SensorState
unfolding is_correct_controller is_waiting publish_received
handle_modbus_update o b cache now u s =
    if is_correct_controller o u.controller u.slave && b.enabled && elem u.register (registrars b)
    then (if is_waiting o.type cache u.register
        then record s { native_value = whole (pos 0); last_update = now }
        else publish_received b now (record s { received = (u.register, u.value) ∷ s.received }))
    else s

abbrev is_once : PollSpeed → Bool
is_once PollSpeed.once = true
is_once _ = false

-- `timeout` is the poll interval of the sensor's speed and ten minutes, in the clock's unit.
unfoldable pub async_update : PollSpeed → ℕ → ℕ → SensorState → SensorState
async_update speed timeout now s =
    if ltb timeout (now - s.last_update) && not (is_once speed)
    then record s { available = false }
    else s

-- A sequence of updates with the clock at each.
unfoldable pub handle_updates :
    Owner → BaseSensor → (ℕ → Option ℕ) → List (ℕ × Update) → SensorState → SensorState
unfolding handle_modbus_update
handle_updates o b cache [] s = s
handle_updates o b cache (e ∷ es) s =
    handle_updates o b cache es (handle_modbus_update o b cache e.0 e.1 s)
