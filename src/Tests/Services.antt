-- ===== src/Tests/Services.antt =====
-- The dispatch services and the switches.
use hh_modbus.Base.{
  All, ◌≢◌, not, arith, ℕ, ◌^◌, ◌≤◌, ◌<◌, ◌≡◌, refl, true, false, ◌&&◌, ◌||◌, List, [], ◌∷◌, ◌++◌,
  Option, none, some, is_some, get_or, elem, if◌then◌else◌, ◌==◌, map,
}
use hh_modbus.Words.{get_bit_bool, combine_u32, split_s32, combine_u32_le}
use hh_modbus.Base.Int.{negsuc}
use hh_modbus.Dispatch.Registers.{
  AsAsked, service_write_holding_register-AsAsked, service_write_holding_register, queued, no_slave,
  service_read_register, read_result, illegal_address, new_response, response, index_error,
  hex_digits,
}
use hh_modbus.Inverter.{InverterType}
use hh_modbus.Groups.{RegisterType}
use hh_modbus.Cache.{cache_get}
use hh_modbus.Controller.{Client, State, read_register, ok, read_with_exception, read_raw, connect}
use hh_modbus.Controller.Queue.{Request, multiple, single}
use hh_modbus.Dispatch.{
  Call, done, grid_import, pair, dispatch_function_value, is_hybrid, required_version,
}
use hh_modbus.Dispatch.Function.{field, dispatch_function_value_fields}
use hh_modbus.Dispatch.Service.{
  cached_or_read, check_dispatch, dispatch_reserve_words, service_dispatch, global_block, settings,
  ensure_dispatch_capable, ensure_dispatch_function_version, fetch_words,
}
use hh_modbus.Dispatch.Written.{check_dispatch_passes, dispatch_reserve_words_kept}
use hh_modbus.Dispatch.Blocks.{IsGlobal, IsRealtime, service_dispatch_written}
use hh_modbus.Dispatch.Resolve.{Target, found, resolve_controller, get_controller}
use hh_modbus.Switch.{Switch, Entity, new_bits, bool_xor, live_value, set_register_bit}
use hh_modbus.Switch.Bits.{is_stand_in, new_bits_lem}
use hh_modbus.Switch.Cached.{set_register_bit_lem}
use hh_modbus.Controller.Writes.{cached}
use hh_modbus.Tests.Data.{inverter, link, answering}

-- An inverter whose registers all read 43605, which is 0xAA55.
abbrev capable : Client
capable = record inverter {
  read = λ wire type start count unit. answering (ok (43605 ∷ 4000 ∷ []));
}

abbrev call : Call
call = record {
  mode = grid_import;
  power_watts = 2345;
  pv_shutdown = some false;
  allow_grid_charge = none;
  disable_discharge = none;
  soc_min = some 10;
  soc_max = none;
  battery_reserve_soc = none;
  pv_limit_raw = none;
  import_limit_watts = none;
  export_limit_watts = some 5000;
  failsafe_minutes = 30;
}

abbrev flush : State → Option State
flush s = some s

call_passes : (check_dispatch capable InverterType.hybrid call link).0 ≡ none
unfolding check_dispatch ensure_dispatch_capable ensure_dispatch_function_version cached_or_read
    read_register is_hybrid required_version cache_get
call_passes = refl

check_dispatch_passes_example :
    let (capability, s') = cached_or_read capable 34502 link in
    (is_hybrid InverterType.hybrid ≡ true)
    × (capability ≡ some 43605)
    × (2 ≤ required_version call
        → (v : ℕ) × ((cached_or_read capable 34503 s').0 ≡ some v)
          × (required_version call ≤ v)
          × (v ≤ 3))
check_dispatch_passes_example =
    check_dispatch_passes capable flush InverterType.hybrid call link call_passes

call_words : (dispatch_reserve_words capable flush 44111 call link).0 ≡ done (43605 ∷ 4000 ∷ [])
unfolding dispatch_reserve_words fetch_words read_register
call_words = refl

dispatch_reserve_words_kept_example :
    (reserve : ℕ) × (limit : ℕ) × ((43605 ∷ 4000 ∷ [])
      ≡ get_or call.battery_reserve_soc reserve ∷ get_or call.pv_limit_raw limit ∷ [])
    × ((is_some call.battery_reserve_soc && is_some call.pv_limit_raw) ≡ false
        → (s' : State) × (rest : List ℕ) × (flush link ≡ some s')
          × ((read_register capable RegisterType.holding 44111 2 s').0
              ≡ some (reserve ∷ limit ∷ rest)))
dispatch_reserve_words_kept_example =
    dispatch_reserve_words_kept capable flush InverterType.hybrid call link 44111
      (43605 ∷ 4000 ∷ []) call_words

abbrev call_writes : List Request
call_writes =
    multiple 44100 (global_block call) ∷ multiple 44105 (settings call ++ (43605 ∷ 4000 ∷ [])) ∷ []

call_done : (service_dispatch capable flush InverterType.hybrid call link).0 ≡ done call_writes
unfolding service_dispatch check_dispatch ensure_dispatch_capable ensure_dispatch_function_version
    cached_or_read read_register is_hybrid required_version cache_get dispatch_reserve_words
    fetch_words
call_done = refl

service_dispatch_written_example :
    let (err, s') = check_dispatch capable InverterType.hybrid call link in
    (err ≡ none)
    × ((reserve : ℕ) × (limit : ℕ) × (first : List ℕ) × (second : List ℕ) × ((dispatch_reserve_words
            capable flush 44111 call s').0
          ≡ done (reserve ∷ limit ∷ []))
        × (call_writes ≡ multiple 44100 first ∷ multiple 44105 second ∷ [])
        × IsGlobal call first
        × IsRealtime call (reserve ∷ limit ∷ []) second)
service_dispatch_written_example =
    service_dispatch_written capable flush InverterType.hybrid call link call_writes (omega arith)
      call_done

dispatch_function_value_fields_example :
    let w = dispatch_function_value (some true) none (some false) none (some true) in
    (field 0 w ≡ pair (some true) 2 1)
    × (field 4 w ≡ pair none 1 2)
    × (field 8 w ≡ pair none 2 1)
    × (field 10 w ≡ pair (some false) 2 1)
    × (field 14 w ≡ pair (some true) 2 1)
    × (field 2 w ≡ 0)
    × (field 6 w ≡ 0)
    × (field 12 w ≡ 0)
    × (w < 2 ^ 16)
dispatch_function_value_fields_example =
    dispatch_function_value_fields (some true) none (some false) none (some true)

abbrev first_target : Target
first_target = record { id = 1; host = 97 ∷ []; device_id = 1; is_solis = true }

abbrev targets : List Target
targets = first_target ∷ record first_target { id = 2; is_solis = false } ∷ []

host_resolves : resolve_controller (some (97 ∷ [])) none targets ≡ found first_target
unfolding resolve_controller get_controller
host_resolves = refl

-- Without a host or a slave, a write goes to every controller.
write_to_all :
    service_write_holding_register 43011 5 none none targets
    ≡ queued (map (λ t. (t, single 43011 5)) targets)
unfolding service_write_holding_register
write_to_all = refl

abbrev one_write : List (Target × Request)
one_write = (first_target, single 43011 5) ∷ []

service_write_holding_register-AsAsked_example :
    (one_write ≢ []) × All (AsAsked 43011 5 (some (97 ∷ [])) none) one_write
unfolding service_write_holding_register get_controller
service_write_holding_register-AsAsked_example =
    service_write_holding_register-AsAsked 43011 5 (some (97 ∷ [])) none targets one_write refl

write_to_none : service_write_holding_register 43011 5 none (some 2) targets ≡ no_slave
unfolding service_write_holding_register
write_to_none = refl

-- The inverter rejects register 33005; a pair is decoded.
read_rejected :
    (service_read_register inverter 33005 1 RegisterType.input link).0
    ≡ illegal_address RegisterType.holding
unfolding service_read_register read_result read_with_exception read_raw connect
read_rejected = refl

pair_decoded :
    new_response 33000 2 RegisterType.input (65535 ∷ 65214 ∷ [])
    ≡ response record {
      address = 33000;
      count = 2;
      register_type = RegisterType.input;
      values = 65535 ∷ 65214 ∷ [];
      hex = (15 ∷ 15 ∷ 15 ∷ 15 ∷ []) ∷ (15 ∷ 14 ∷ 11 ∷ 14 ∷ []) ∷ [];
      pair = some (4294966974, negsuc 321, 4273930239);
    }
unfolding new_response hex_digits combine_u32 split_s32 combine_u32_le
pair_decoded = refl

pair_missing : new_response 33000 2 RegisterType.input (7 ∷ []) ≡ index_error
unfolding new_response
pair_missing = refl

-- A switch of register 43110: bit 5, which needs bit 0 and excludes bit 1.
abbrev switch : Switch
switch = record {
  register = 43110;
  write_register = 43110;
  bit_position = some 5;
  conflicts_with = 1 ∷ [];
  requires = 0 ∷ [];
  requires_any = [];
  on_value = none;
  off_value = none;
  inverted = false;
  keep_alive = false;
  companion_writes = [];
}

new_bits_lem_example : get_bit_bool (new_bits switch 5 true 10) 1 ≡ (
    if 5 == 1
    then bool_xor switch.inverted true
    else if true && (is_stand_in switch.requires_any 10 1 || elem 1 switch.requires)
    then true
    else if true && elem 1 switch.conflicts_with
    then false
    else get_bit_bool 10 1)
new_bits_lem_example = new_bits_lem switch 5 true 10 1

abbrev entity : Entity
entity = record { link = link; is_on = none; available = false; sent = [] }

-- The register is read first, since the cache is empty.
read_first : (live_value inverter 43110 entity).0 ≡ some 0
unfolding live_value read_register cache_get
read_first = refl

set_register_bit_lem_example :
    let e' = set_register_bit inverter switch true false entity in
    (e'.is_on ≡ some true)
    × ((u : ℕ) × (rest : List (ℕ × ℕ)) × (cached 43110 e'.link ≡ some u)
        × (get_bit_bool u 5 ≡ bool_xor switch.inverted true)
        × (e'.sent ≡ [] ++ (if false || not (0 == u) then (43110, u) ∷ rest else [])))
unfolding live_value read_register cache_get
set_register_bit_lem_example =
    set_register_bit_lem inverter switch true false entity 5 0 refl refl read_first refl
