-- ===== src/Sensors.antt =====
-- sensors/solis_base_sensor.py: what one entry of a register table says (`Entry`) and the sensor that
-- `SolisBaseSensor.__init__` makes of it (`BaseSensor`; the steps are in Build). A Python number of a table,
-- an int or a decimal literal, is an `Amount`, its exact decimal value: the rounding of floats is not
-- modelled. Of the presentation (name, category, device class, state class) nothing is kept; of
-- `unit_of_measurement` what `get_step` and `_inverter_rating_max` compare it with.

pub mod Build
pub mod Values
pub mod Range
pub mod Entity
pub mod Received
pub mod Number
pub mod Exact
pub mod Setpoint
pub mod Clock
pub mod Derived
pub mod Flows
pub mod Streak
use Prim.Native.String.{String}
use text.Mathlib.Text.{◌==◌ as str_eq}
use hh_modbus.Base.{
  ℕ, ◌+◌, ◌*◌, ◌^◌, Bool, true, false, not, ◌&&◌, ◌||◌, List, [], ◌∷◌, Option, none, some,
  if◌then◌else◌, ◌==◌, get_or, elem, any, length, ltb,
}
use hh_modbus.Base.Int.{ℤ, pos, negsuc, sub_ℕ, pos_part, neg_part, ltb_ℤ}
use hh_modbus.Inverter.{DataType, InverterFeature, InverterConfig, has_feature}

-- mantissa / 10 ^ exponent
pub record Amount : Type 0 where
  pub mantissa : ℤ
  pub exponent : ℕ

abbrev pub int : ℤ → Amount
int n = record { mantissa = n; exponent = 0 }

-- n hundredths, and so on, of a table
abbrev pub dec : ℕ → ℕ → Amount
dec n e = record { mantissa = pos n; exponent = e }

unfoldable pub mul_ℤ : ℤ → ℤ → ℤ
mul_ℤ a b =
    sub_ℕ (pos_part a * pos_part b + neg_part a * neg_part b)
      (pos_part a * neg_part b + neg_part a * pos_part b)

unfoldable pub is_zero : Amount → Bool
is_zero a = pos_part a.mantissa == 0 && neg_part a.mantissa == 0

unfoldable pub is_one : Amount → Bool
is_one a = pos_part a.mantissa == 10 ^ a.exponent && neg_part a.mantissa == 0

-- `a < b` of two amounts, over the common denominator
unfoldable pub less : Amount → Amount → Bool
unfolding mul_ℤ
less a b =
    ltb_ℤ (mul_ℤ a.mantissa (pos (10 ^ b.exponent))) (mul_ℤ b.mantissa (pos (10 ^ a.exponent)))

-- An int times an amount
unfoldable pub times : ℤ → Amount → Amount
unfolding mul_ℤ
times n a = record { mantissa = mul_ℤ n a.mantissa; exponent = a.exponent }

pub data Measure : Type 0 where
  percentage watt kilo_watt other : Measure

pub data MaxSource : Type 0 where
  inverter_rating : MaxSource

-- An entry of a register table, with the defaults that `SolisSensorGroup.__init__` gives a key that is
-- missing: `entity.get("multiplier", 1)` and so on.
pub record Entry : Type 0 where
  pub unique : String
  pub register : ℕ
  pub more : List ℕ
  pub multiplier : Amount
  pub data_type : Option DataType
  pub unit : Option Measure
  pub min : Amount
  pub max : Option Amount
  pub max_source : Option MaxSource
  pub step : Option Amount
  pub default : Amount
  pub editable : Bool
  pub hidden : Bool
  pub registry_enabled : Bool
  pub registry_visible : Bool
  pub write_register : Option ℕ

-- An entry with its key and registers alone.
abbrev pub entry : String → ℕ → List ℕ → Entry
entry unique register more = record {
  unique = unique;
  register = register;
  more = more;
  multiplier = int (pos 1);
  data_type = none;
  unit = none;
  min = int (pos 0);
  max = none;
  max_source = none;
  step = none;
  default = int (pos 0);
  editable = false;
  hidden = false;
  registry_enabled = true;
  registry_visible = true;
  write_register = none;
}

-- `SolisBaseSensor`: the registers are `register ∷ more`.
pub record BaseSensor : Type 0 where
  pub unique : String
  pub register : ℕ
  pub more : List ℕ
  pub write_register : Option ℕ
  pub multiplier : Amount
  pub data_type : Option DataType
  pub unit : Option Measure
  pub default : Amount
  pub editable : Bool
  pub hidden : Bool
  pub enabled : Bool
  pub min_value : Amount
  pub max_value : Amount
  pub max_source : Option MaxSource
  pub step : Option Amount

abbrev pub registrars : BaseSensor → List ℕ
registrars s = s.register ∷ s.more

-- `DATA_TYPE_RAW_RANGES`: STRING is not in it.
unfoldable pub raw_range : DataType → Option (ℤ × ℤ)
raw_range DataType.u16 = some (pos 0, pos 65535)
raw_range DataType.s16 = some (negsuc 32767, pos 32767)
raw_range DataType.u32 = some (pos 0, pos 4294967295)
raw_range DataType.s32 = some (negsuc 2147483647, pos 2147483647)
raw_range DataType.u32_le = some (pos 0, pos 4294967295)
raw_range DataType.s32_le = some (negsuc 2147483647, pos 2147483647)
raw_range DataType.string = none

-- The range of a register that declares no type.
abbrev pub undeclared_range : List ℕ → ℤ × ℤ
undeclared_range more =
    if ltb 0 (length more) then (negsuc 2147483647, pos 2147483647) else (pos 0, pos 65535)

unfoldable pub protocol_raw_range : Option DataType → List ℕ → ℤ × ℤ
unfolding raw_range
protocol_raw_range none more = undeclared_range more
protocol_raw_range (some t) more = get_or (raw_range t) (undeclared_range more)

-- `self.multiplier or 1`
unfoldable pub or_one : Amount → Amount
unfolding is_zero
or_one m = if is_zero m then int (pos 1) else m

unfoldable pub protocol_max : Option DataType → List ℕ → Amount → Amount
unfolding protocol_raw_range times or_one
protocol_max t more m = times ((protocol_raw_range t more).1) (or_one m)

unfoldable pub protocol_min : Option DataType → List ℕ → Amount → Amount
unfolding protocol_raw_range times or_one
protocol_min t more m = times ((protocol_raw_range t more).0) (or_one m)

-- `adjust_max`: the bounds, minimum first.
unfoldable pub adjust_max :
    Option DataType → List ℕ → Amount → Amount → Option Amount → Amount × Amount
unfolding protocol_max protocol_min less
adjust_max t more m low (some declared) = (low, declared)
adjust_max t more m low none =
    (if less low (int (pos 0)) then protocol_min t more m else low, protocol_max t more m)

unfoldable pub get_step : Option Amount → Option Measure → Option Amount
get_step (some wanted) unit = some wanted
get_step none (some percentage) = some (int (pos 1))
get_step none (some kilo_watt) = some (dec 1 1)
get_step none (some watt) = some (int (pos 1))
get_step none _ = none
