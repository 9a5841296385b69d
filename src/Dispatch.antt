-- ===== src/Dispatch.antt =====
-- __init__.py: the services that command the inverter. A service validates its call, reads what it
-- needs, and puts its writes on the controller's queue; here it returns those writes, oldest first,
-- or the error that it raises, and the controller's state after its reads.
--
-- A `ServiceCall` is a record of its optional fields, in the ranges that the schemas allow. Of
-- `pv_limit_percent`, a float, the record has the value of `_pv_limit_raw`, `round(percent * 100)`.
pub mod Function
pub mod Service
pub mod Written
pub mod Blocks
pub mod Resolve
pub mod Registers
use Prim.Native.Nat.{bit_or}
use hh_modbus.Base.{
  ℕ, ◌+◌, ◌-◌, ◌*◌, ◌/◌, ◌%◌, ◌^◌, min, Bool, true, false, not, ◌&&◌, ◌||◌, List, [], ◌∷◌, ◌++◌,
  Option, none, some, ltb, leb, ◌==◌, if◌then◌else◌, get_or, is_some, length,
}
use hh_modbus.Base.Int.{ℤ, pos, neg}
use hh_modbus.Words.{s32_words}
use hh_modbus.Inverter.{InverterType}
use hh_modbus.Groups.{RegisterType}
use hh_modbus.Cache.{cache_get}
use hh_modbus.Controller.{Client, State, read_register}
use hh_modbus.Controller.Queue.{Request, single, multiple}

pub data DispatchMode : Type 0 where
  battery_hold battery_charge battery_discharge grid_import grid_export : DispatchMode
  grid_port_import grid_port_export self_consumption feed_in_priority : DispatchMode

pub data Sign : Type 0 where
  minus zero_sign plus : Sign

-- `DISPATCH_MODES`
abbrev pub dispatch_modes : DispatchMode → ℕ × Sign
dispatch_modes battery_hold = (1, zero_sign)
dispatch_modes battery_charge = (2, plus)
dispatch_modes battery_discharge = (2, minus)
dispatch_modes grid_import = (3, minus)
dispatch_modes grid_export = (3, plus)
dispatch_modes grid_port_import = (4, minus)
dispatch_modes grid_port_export = (4, plus)
dispatch_modes self_consumption = (5, zero_sign)
dispatch_modes feed_in_priority = (6, zero_sign)

abbrev pub times_sign : Sign → ℕ → ℤ
times_sign minus n = neg (pos n)
times_sign zero_sign n = pos 0
times_sign plus n = pos n

-- Python's `round(n / 10)`: to the nearest, a tie to the even neighbour.
unfoldable pub round_tenth : ℕ → ℕ
round_tenth n =
    let q = n / 10 in if ltb (n % 10) 5 then q else if ltb 5 (n % 10) then q + 1 else q + q % 2

-- `pair`
unfoldable pub pair : Option Bool → ℕ → ℕ → ℕ
pair none true_code false_code = 0
pair (some true) true_code false_code = true_code
pair (some false) true_code false_code = false_code

-- `_dispatch_function_value`
unfoldable pub dispatch_function_value :
    Option Bool → Option Bool → Option Bool → Option Bool → Option Bool → ℕ
unfolding pair
dispatch_function_value pv_shutdown allow_grid_charge disable_discharge battery_reserve pv_limit =
    bit_or
      (bit_or
        (bit_or (bit_or (pair pv_shutdown 2 1) (pair allow_grid_charge 1 2 * 2 ^ 4))
          (pair battery_reserve 2 1 * 2 ^ 8))
        (pair disable_discharge 2 1 * 2 ^ 10))
      (pair pv_limit 2 1 * 2 ^ 14)

-- `_dispatch_system_limits`: the switches, the import limit and the export limit.
unfoldable pub dispatch_system_limits : Option ℕ → Option ℕ → ℕ × ℕ × ℕ
dispatch_system_limits import_limit export_limit =
    let raw : ℕ → ℕ = λ watts. (watts + 100 / 2) / 100 in
    (
      bit_or (if is_some import_limit then 1 else 0) (if is_some export_limit then 2 else 0),
      elim import_limit [ none ↦ 65535 | some w ↦ raw w ],
      elim export_limit [ none ↦ 65535 | some w ↦ raw w ],
    )

pub data DispatchError : Type 0 where
  not_hybrid not_capable version_unverified version_too_low invalid_time : DispatchError
  writes_pending unreadable : DispatchError

pub data Result (A : Type 0) : Type 0 where
  done : A → Result A
  failed : DispatchError → Result A

pub record Call : Type 0 where
  pub mode : DispatchMode
  pub power_watts : ℕ
  pub pv_shutdown : Option Bool
  pub allow_grid_charge : Option Bool
  pub disable_discharge : Option Bool
  pub soc_min : Option ℕ
  pub soc_max : Option ℕ
  pub battery_reserve_soc : Option ℕ
  pub pv_limit_raw : Option ℕ
  pub import_limit_watts : Option ℕ
  pub export_limit_watts : Option ℕ
  pub failsafe_minutes : ℕ

-- `_require_hybrid`
unfoldable pub is_hybrid : InverterType → Bool
is_hybrid InverterType.hybrid = true
is_hybrid InverterType.energy = true
is_hybrid _ = false

-- `_dispatch_function_from_call`
unfoldable pub dispatch_function_from_call : Call → ℕ
unfolding dispatch_function_value
dispatch_function_from_call c =
    dispatch_function_value c.pv_shutdown c.allow_grid_charge c.disable_discharge
      (if is_some c.battery_reserve_soc then some true else none)
      (if is_some c.pv_limit_raw then some true else none)

-- The version that `_ensure_dispatch_function_version` finds the call to need.
unfoldable pub required_version : Call → ℕ
required_version c =
    let newer_mode : Bool = elim c.mode [
      | self_consumption ↦ true
      | feed_in_priority ↦ true
      | _ ↦ false
    ] in
    if is_some c.pv_limit_raw
    then 3
    else if newer_mode || is_some c.battery_reserve_soc || is_some c.disable_discharge
    then 2
    else 1
