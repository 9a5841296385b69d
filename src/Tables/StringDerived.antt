-- ===== src/Tables/StringDerived.antt =====
-- sensor_data/string_sensors.py: sensors that are computed from registers, for string inverters.
use hh_modbus.Base.{List, [], ◌∷◌, some}
use hh_modbus.Sensors.{Entry, entry, dec, watt}

abbrev pub string_sensors_derived : List Entry
string_sensors_derived =
    record (entry "solis_modbus_dc_power_1" 3021 (3022 ∷ [])) {
      multiplier = dec 1 1;
      unit = some watt;
    }
    ∷ record (entry "solis_modbus_dc_power_2" 3023 (3024 ∷ [])) {
      multiplier = dec 1 1;
      unit = some watt;
    }
    ∷ record (entry "solis_modbus_dc_power_3" 3025 (3026 ∷ [])) {
      multiplier = dec 1 1;
      unit = some watt;
    }
    ∷ record (entry "solis_modbus_dc_power_4" 3027 (3028 ∷ [])) {
      multiplier = dec 1 1;
      unit = some watt;
    }
    ∷ []
