-- ===== src/Sensors/Derived.antt =====
-- sensors/solis_derived_sensor.py: values that `handle_modbus_update` computes from the registers of a
-- derived sensor, once it has received them all. `received` has a value for each register; the list of
-- registers ends with a flag, 0 or 1, where the table gives one. An absent or unreadable value stays.
use hh_modbus.Base.{ℕ, ◌+◌, ◌^◌, [], ◌∷◌, some, if◌then◌else◌, ◌==◌}
use hh_modbus.Base.Int.{pos, neg, sub_ℕ, ltb_ℤ}
use hh_modbus.Sensors.{BaseSensor, times, mul_ℤ, less, int}
use hh_modbus.Sensors.Values.{Reading, whole, scaled, convert_raw_value}
use hh_modbus.Sensors.Number.{round_ratio}

-- `convert_value` of two registers.
unfoldable pub convert_two : BaseSensor → ℕ → ℕ → Reading
unfolding convert_raw_value
convert_two b v0 v1 = convert_raw_value b (some v0 ∷ some v1 ∷ [])

-- `-value`
unfoldable pub negated : Reading → Reading
negated (whole n) = whole (neg n)
negated (scaled n m) = scaled (neg n) m
negated r = r

-- `max(value, 0)`
unfoldable pub at_least_zero : Reading → Reading
unfolding times less
at_least_zero (whole n) = if ltb_ℤ n (pos 0) then whole (pos 0) else whole n
at_least_zero (scaled n m) = if less (times n m) (int (pos 0)) then whole (pos 0) else scaled n m
at_least_zero r = r

-- 33263 with two registers: the meter's power, positive while importing.
unfoldable pub grid_power_net : Reading → Reading
unfolding negated
grid_power_net new_value = negated new_value

-- 33263 with three registers: the power of one direction, flag 0 for export and 1 for import.
unfoldable pub grid_power : BaseSensor → ℕ → ℕ → ℕ → Reading
unfolding negated at_least_zero convert_two
grid_power b flag v0 v1 =
    let meter_power = convert_two b v0 v1 in
    if flag == 0 then at_least_zero meter_power else at_least_zero (negated meter_power)

-- `round(value * 10)`
unfoldable pub round_tenfold : Reading → Reading
unfolding round_ratio times
round_tenfold (whole n) = whole (mul_ℤ n (pos 10))
round_tenfold (scaled n m) =
    whole (round_ratio (mul_ℤ (times n m).mantissa (pos 10)) (10 ^ (times n m).exponent))
round_tenfold r = r

-- 33135 with four registers: the power while the battery goes the wanted way, else 0.
unfoldable pub battery_power : BaseSensor → ℕ → ℕ → ℕ → ℕ → Reading
unfolding round_tenfold convert_two
battery_power b wanted v0 v1 direction =
    if direction == wanted then round_tenfold (convert_two b v0 v1) else whole (pos 0)

-- 33135 with three registers: 0 is charging, which counts as negative.
unfoldable pub battery_power_combined : BaseSensor → ℕ → ℕ → ℕ → Reading
unfolding round_tenfold negated convert_two
battery_power_combined b v0 v1 direction =
    if direction == 0
    then negated (round_tenfold (convert_two b v0 v1))
    else round_tenfold (convert_two b v0 v1)

-- 43292 and 43291: Flexible Export and its limit.
pub data FlexibleExport : Type 0 where
  off active blocked : FlexibleExport

unfoldable pub flexible_export : ℕ → ℕ → FlexibleExport
flexible_export switch_value export_limit =
    if switch_value == 0xAA then (if export_limit == 0 then blocked else active) else off

-- 33175 and 33171: the energies, each times the multiplier, as one multiple of it.
unfoldable pub net_grid_energy : BaseSensor → ℕ → ℕ → Reading
net_grid_energy b to_grid from_grid = scaled (sub_ℕ from_grid to_grid) b.multiplier

-- 33049 to 33056, 3021 to 3028: voltage times current, rounded.
unfoldable pub dc_power : BaseSensor → ℕ → ℕ → Reading
unfolding round_ratio times
dc_power b v0 v1 =
    let r1 = times (pos v0) b.multiplier in
    let r2 = times (pos v1) b.multiplier in
    whole (round_ratio (mul_ℤ r1.mantissa r2.mantissa) (10 ^ (r1.exponent + r2.exponent)))
