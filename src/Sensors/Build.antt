-- ===== src/Sensors/Build.antt =====
-- sensors/solis_base_sensor.py: the sensor that `SolisSensorGroup.__init__` and
-- `SolisBaseSensor.__init__` make of an entry, with the adjustments for some models.
use text.Mathlib.Text.{◌==◌ as str_eq}
use hh_modbus.Base.{
  ℕ, Bool, true, false, not, ◌&&◌, ◌||◌, List, [], ◌∷◌, Option, none, some, if◌then◌else◌, elem,
  any,
}
use hh_modbus.Base.Int.{pos}
use hh_modbus.Inverter.{InverterFeature, InverterConfig, has_feature}
use hh_modbus.Sensors.{Amount, BaseSensor, Entry, registrars, int, dec, less, adjust_max, get_step}

-- `_any_in`
unfoldable pub any_in : List ℕ → List ℕ → Bool
any_in target collection = any (λ r. elem r collection) target

abbrev pub hv_battery_sensitive_regs : List ℕ
hv_battery_sensitive_regs = 33205 ∷ 33206 ∷ 33207 ∷ 43013 ∷ 43117 ∷ []

abbrev pub tou_cutoff_voltage_registers : List ℕ
tou_cutoff_voltage_registers =
    43710 ∷ 43717 ∷ 43724 ∷ 43731 ∷ 43738 ∷ 43745 ∷ 43752 ∷ 43759 ∷ 43766 ∷ 43773 ∷ 43780 ∷ 43787
    ∷ []

abbrev pub hv_battery_voltage_registers : List ℕ
hv_battery_voltage_registers = 43016 ∷ 43017 ∷ 43020 ∷ 43021 ∷ tou_cutoff_voltage_registers

abbrev pub s6_registers : List ℕ
s6_registers = 33142 ∷ 33161 ∷ 33162 ∷ 33163 ∷ 33164 ∷ 33165 ∷ 33166 ∷ 33167 ∷ 33168 ∷ []

-- `0.1 if self.step is None else min(self.step, 0.1)`
unfoldable pub finer_step : Option Amount → Option Amount
unfolding less
finer_step none = some (dec 1 1)
finer_step (some s) = if less (dec 1 1) s then some (dec 1 1) else some s

unfoldable pub with_fine_step : Bool → BaseSensor → BaseSensor
unfolding finer_step
with_fine_step true s = record s { min_value = int (pos 0); step = finer_step s.step }
with_fine_step false s = s

abbrev pub with_max : Bool → Amount → BaseSensor → BaseSensor
with_max true m s = record s { max_value = m }
with_max false m s = s

abbrev pub with_multiplier : Bool → Amount → BaseSensor → BaseSensor
with_multiplier true m s = record s { multiplier = m }
with_multiplier false m s = s

-- The adjustments of an inverter with a high-voltage battery.
unfoldable pub hv_adjust : Bool → BaseSensor → BaseSensor
unfolding any_in with_fine_step
hv_adjust hv s =
    with_max (hv && any_in (registrars s) hv_battery_voltage_registers) (int (pos 999))
      (with_fine_step (hv && any_in (registrars s) hv_battery_sensitive_regs) s)

-- The multipliers of some models; the second test is an `elif`.
unfoldable pub multiplier_adjust : Bool → Bool → BaseSensor → BaseSensor
unfolding any_in
multiplier_adjust rhi zonneplan s =
    let limit = rhi && elem 43074 (registrars s) in
    with_multiplier limit (int (pos 1))
      (with_multiplier (not limit && zonneplan && any_in (registrars s) s6_registers) (dec 1 2) s)

abbrev pub is_rhi : InverterConfig → Bool
is_rhi c = str_eq c.model "RHI-1P" || str_eq c.model "RHI-3P" || str_eq c.model "RAI-3K-48ES-5G"

abbrev pub is_zonneplan : InverterConfig → Bool
is_zonneplan c =
    str_eq c.model "S6-EH3P10K-H-ZP" || has_feature InverterFeature.zonneplan c.features

unfoldable pub dynamic_adjustments : InverterConfig → BaseSensor → BaseSensor
unfolding hv_adjust multiplier_adjust
dynamic_adjustments c s =
    multiplier_adjust (is_rhi c) (is_zonneplan c)
      (hv_adjust (has_feature InverterFeature.hv_battery c.features) s)

-- The fields that `SolisBaseSensor.__init__` sets before `dynamic_adjustments`: a sensor starts
-- enabled.
unfoldable pub declared_sensor : Entry → BaseSensor
unfolding adjust_max get_step
declared_sensor e =
    let bounds = adjust_max e.data_type e.more e.multiplier e.min e.max in
    record {
      unique = e.unique;
      register = e.register;
      more = e.more;
      write_register = e.write_register;
      multiplier = e.multiplier;
      data_type = e.data_type;
      unit = e.unit;
      default = e.default;
      editable = e.editable;
      hidden = e.hidden;
      enabled = true;
      min_value = bounds.0;
      max_value = bounds.1;
      max_source = e.max_source;
      step = get_step e.step e.unit;
    }

unfoldable pub new_sensor : InverterConfig → Entry → BaseSensor
unfolding declared_sensor dynamic_adjustments
new_sensor c e = dynamic_adjustments c (declared_sensor e)
