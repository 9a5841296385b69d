-- ===== src/Tables/HybridDerived.antt =====
-- sensor_data/hybrid_sensors.py: sensors that are computed from registers, for hybrid inverters.
use hh_modbus.Base.{List, [], ◌∷◌, some}
use hh_modbus.Sensors.{Entry, entry, dec, watt, other}

abbrev pub hybrid_sensors_derived : List Entry
hybrid_sensors_derived =
    record (entry "solis_modbus_inverter_last_polled" 90006 []) { multiplier = dec 0 0 }
    ∷ record (entry "solis_modbus_inverter_clock_rectification" 90007
        (33022 ∷ 33023 ∷ 33024 ∷ 33025 ∷ 33026 ∷ 33027 ∷ [])) { multiplier = dec 0 0 }
    ∷ record (entry "solis_modbus_inverter_current_status_string" 33095 []) { multiplier = dec 0 0 }
    ∷ record (entry "solis_modbus_inverter_flexible_export_status" 43292 (43291 ∷ [])) {
      multiplier = dec 0 0;
    }
    ∷ record (entry "solis_modbus_inverter_dc_power_1" 33049 (33050 ∷ [])) {
      multiplier = dec 1 1;
      unit = some watt;
    }
    ∷ record (entry "solis_modbus_inverter_dc_power_2" 33051 (33052 ∷ [])) {
      multiplier = dec 1 1;
      unit = some watt;
    }
    ∷ record (entry "solis_modbus_inverter_dc_power_3" 33053 (33054 ∷ [])) {
      multiplier = dec 1 1;
      unit = some watt;
    }
    ∷ record (entry "solis_modbus_inverter_dc_power_4" 33055 (33056 ∷ [])) {
      multiplier = dec 1 1;
      unit = some watt;
    }
    ∷ record (entry "solis_modbus_inverter_power_factor" 33079 (33080 ∷ 33081 ∷ 33082 ∷ [])) {
      multiplier = dec 1 3;
    }
    ∷ record (entry "solis_modbus_inverter_battery_charge_power" 33149 (33150 ∷ 33135 ∷ 0 ∷ [])) {
      multiplier = dec 1 1;
      unit = some watt;
    }
    ∷ record (entry "solis_modbus_inverter_battery_discharge_power" 33149
        (33150 ∷ 33135 ∷ 1 ∷ [])) { multiplier = dec 1 1; unit = some watt }
    ∷ record (entry "solis_modbus_inverter_battery_power_combined" 33149 (33150 ∷ 33135 ∷ [])) {
      multiplier = dec 1 1;
      unit = some watt;
    }
    ∷ record (entry "solis_modbus_inverter_grid_power_net" 33263 (33264 ∷ [])) {
      multiplier = dec 0 0;
      unit = some watt;
    }
    ∷ record (entry "solis_modbus_inverter_grid_export_power" 33263 (33264 ∷ 0 ∷ [])) {
      multiplier = dec 0 0;
      unit = some watt;
    }
    ∷ record (entry "solis_modbus_inverter_grid_import_power" 33263 (33264 ∷ 1 ∷ [])) {
      multiplier = dec 0 0;
      unit = some watt;
    }
    ∷ record (entry "solis_modbus_inverter_today_net_grid_energy" 33175 (33171 ∷ [])) {
      multiplier = dec 1 1;
      unit = some other;
    }
    ∷ record (entry "solis_modbus_inverter_model_definition" 35000 []) { multiplier = dec 0 0 }
    ∷ []
