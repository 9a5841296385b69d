-- ===== src/Tests/Tables.antt =====
-- The register tables.
use hh_modbus.Base.{
  ℕ, ◌+◌, ◌≡◌, ◌≢◌, refl, arith, true, ◌&&◌, [], ◌∷◌, some, map, leb, ltb, elem, length,
}
use hh_modbus.Inverter.{InverterType, InverterConfig, default_options}
use hh_modbus.Sensors.{Entry, dec, entry, percentage, protocol_raw_range}
use hh_modbus.Sensors.Build.{new_sensor}
use hh_modbus.Sensors.Values.{convert_raw_value}
use hh_modbus.Sensors.Range.{RawWithin}
use hh_modbus.Sensors.Number.{division_by_zero, set_native_value}
use hh_modbus.Tables.{group_registers}
use hh_modbus.Tables.Brands.{solis, brand_sensors, solis_sensors}
use hh_modbus.Tables.Hybrid33000.{hybrid_33000, hybrid_33022}
use hh_modbus.Tables.Hybrid43019.{hybrid_43007}
use hh_modbus.Tables.Fit.{brand_reading-RawWithin, solis_set_native_value_divides}
use hh_modbus.Tables.Layout.{group_is_block, register_polled_once}
use hh_modbus.Tests.Data.{unset}

abbrev config : InverterConfig
config = record {
  model = "S6-EH3P10K-H-ZP";
  wattage = 10000 ∷ [];
  phases = 3;
  type = InverterType.hybrid;
  options = default_options;
  connection = "S2_WL_ST";
  intrinsic_features = [];
  wattage_chosen = 10000;
  features = [];
}

abbrev clock_entry : Entry
clock_entry = record (entry "solis_modbus_inverter_clock_month" 33023 []) { multiplier = dec 0 0 }

brand_reading-RawWithin_example :
    let s = new_sensor config clock_entry in
    RawWithin
      (protocol_raw_range s.data_type s.more)
      (convert_raw_value s (map (λ v. some v) (5 ∷ [])))
unfolding brand_sensors
brand_reading-RawWithin_example =
    brand_reading-RawWithin InverterType.hybrid config 2 1 hybrid_33022 clock_entry solis (5 ∷ [])
      refl refl (omega arith) refl (omega arith, tt)

group_is_block_example :
    elem 33007 (group_registers hybrid_33000)
    ≡ (leb 33000 33007 && ltb 33007 (33000 + length (group_registers hybrid_33000)))
unfolding brand_sensors
group_is_block_example = group_is_block solis InverterType.hybrid refl 0 hybrid_33000 refl 33007

register_polled_once_example : ◌≡◌ {A = ℕ} 2 2
unfolding brand_sensors
register_polled_once_example =
    register_polled_once solis InverterType.hybrid refl 2 hybrid_33022 refl 2 33023 hybrid_33022
      refl refl refl refl

abbrev overcharge_entry : Entry
overcharge_entry = record (entry "solis_modbus_inverter_overcharge_soc" 43010 []) {
  multiplier = dec 1 0;
  unit = some percentage;
  min = dec 70 0;
  max = some (dec 100 0);
  step = some (dec 1 0);
  default = dec 90 0;
  editable = true;
}

solis_set_native_value_divides_example :
    set_native_value (new_sensor config overcharge_entry) (dec 85 0) unset ≢ division_by_zero
unfolding solis_sensors
solis_set_native_value_divides_example =
    solis_set_native_value_divides InverterType.hybrid config 24 3 hybrid_43007 overcharge_entry
      (dec 85 0) unset refl refl refl
