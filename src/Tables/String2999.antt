-- ===== src/Tables/String2999.antt =====
-- sensor_data/string_sensors.py: groups of the string and grid inverters.
use hh_modbus.Base.{List, [], ◌∷◌, ◌++◌, true, some}
use hh_modbus.Inverter.{DataType, PollSpeed}
use hh_modbus.Sensors.{Entry, entry, dec, percentage, watt, other}
use hh_modbus.Tables.{GroupTable, group}

abbrev pub string_entries_2999 : List Entry
string_entries_2999 =
    record (entry "solis_modbus_product_model" 2999 []) { multiplier = dec 1 0 }
    ∷ record (entry "solis_modbus_dsp_software_version" 3000 []) { multiplier = dec 1 0 }
    ∷ record (entry "solis_modbus_hmi_major_version" 3001 []) { multiplier = dec 1 0 }
    ∷ record (entry "solis_modbus_ac_output_type" 3002 []) { multiplier = dec 1 0 }
    ∷ record (entry "solis_modbus_dc_input_type" 3003 []) { multiplier = dec 1 0 }
    ∷ record (entry "solis_modbus_active_power" 3004 (3005 ∷ [])) {
      multiplier = dec 1 0;
      unit = some watt;
    }
    ∷ record (entry "solis_modbus_total_dc_output_power" 3006 (3007 ∷ [])) {
      multiplier = dec 1 0;
      unit = some watt;
    }
    ∷ record (entry "solis_modbus_total_energy" 3008 (3009 ∷ [])) {
      multiplier = dec 1 0;
      data_type = some DataType.u32;
      unit = some other;
    }
    ∷ record (entry "solis_modbus_energy_this_month" 3010 (3011 ∷ [])) {
      multiplier = dec 1 0;
      data_type = some DataType.u32;
      unit = some other;
    }
    ∷ record (entry "solis_modbus_energy_last_month" 3012 (3013 ∷ [])) {
      multiplier = dec 1 0;
      data_type = some DataType.u32;
      unit = some other;
    }
    ∷ record (entry "solis_modbus_energy_today" 3014 []) { multiplier = dec 1 1; unit = some other }
    ∷ record (entry "solis_modbus_energy_yesterday" 3015 []) {
      multiplier = dec 1 1;
      unit = some other;
    }
    ∷ record (entry "solis_modbus_energy_this_year" 3016 (3017 ∷ [])) {
      multiplier = dec 1 0;
      data_type = some DataType.u32;
      unit = some other;
    }
    ∷ record (entry "solis_modbus_energy_last_year" 3018 (3019 ∷ [])) {
      multiplier = dec 1 0;
      data_type = some DataType.u32;
      unit = some other;
    }
    ∷ entry "reserve" 3020 []
    ∷ record (entry "solis_modbus_dc_voltage_1" 3021 []) { multiplier = dec 1 1; unit = some other }
    ∷ record (entry "solis_modbus_dc_current_1" 3022 []) { multiplier = dec 1 1; unit = some other }
    ∷ []

abbrev pub string_entries_3023 : List Entry
string_entries_3023 =
    record (entry "solis_modbus_dc_voltage_2" 3023 []) { multiplier = dec 1 1; unit = some other }
    ∷ record (entry "solis_modbus_dc_current_2" 3024 []) { multiplier = dec 1 1; unit = some other }
    ∷ record (entry "solis_modbus_dc_voltage_3" 3025 []) { multiplier = dec 1 1; unit = some other }
    ∷ record (entry "solis_modbus_dc_current_3" 3026 []) { multiplier = dec 1 1; unit = some other }
    ∷ record (entry "solis_modbus_dc_voltage_4" 3027 []) { multiplier = dec 1 1; unit = some other }
    ∷ record (entry "solis_modbus_dc_current_4" 3028 []) { multiplier = dec 1 1; unit = some other }
    ∷ []

abbrev pub string_2999 : GroupTable
string_2999 = record (group 2999) {
  essential = true;
  poll_speed = some PollSpeed.fast;
  entities = string_entries_2999 ++ string_entries_3023;
}

abbrev pub string_3033 : GroupTable
string_3033 = record (group 3033) {
  essential = true;
  poll_speed = some PollSpeed.fast;
  entities =
      record (entry "solis_modbus_inverter_a_phase_voltage" 3033 []) {
        multiplier = dec 1 1;
        unit = some other;
      }
      ∷ record (entry "solis_modbus_inverter_b_phase_voltage" 3034 []) {
        multiplier = dec 1 1;
        unit = some other;
      }
      ∷ record (entry "solis_modbus_inverter_c_phase_voltage" 3035 []) {
        multiplier = dec 1 1;
        unit = some other;
      }
      ∷ record (entry "solis_modbus_inverter_a_phase_current" 3036 []) {
        multiplier = dec 1 1;
        unit = some other;
      }
      ∷ record (entry "solis_modbus_inverter_b_phase_current" 3037 []) {
        multiplier = dec 1 1;
        unit = some other;
      }
      ∷ record (entry "solis_modbus_inverter_c_phase_current" 3038 []) {
        multiplier = dec 1 1;
        unit = some other;
      }
      ∷ entry "reserve" 3039 []
      ∷ record (entry "solis_modbus_inverter_working_mode" 3040 []) { multiplier = dec 1 0 }
      ∷ record (entry "solis_modbus_inverter_temperature" 3041 []) {
        multiplier = dec 1 1;
        data_type = some DataType.s16;
        unit = some other;
      }
      ∷ record (entry "solis_modbus_grid_frequency" 3042 []) {
        multiplier = dec 1 2;
        unit = some other;
      }
      ∷ record (entry "solis_modbus_inverter_status" 3043 []) { multiplier = dec 1 0 }
      ∷ record (entry "solis_modbus_inverter_limited_active_power_output_value" 3044 (3045 ∷ [])) {
        multiplier = dec 1 0;
        unit = some watt;
      }
      ∷ record (entry "solis_modbus_inverter_reactive_power_regulation_rated_power_output_value"
          3046 (3047 ∷ [])) { multiplier = dec 1 0; unit = some other }
      ∷ entry "reserve" 3048 []
      ∷ record (entry "solis_modbus_inverter_actual_limited_active_power" 3049 []) {
        multiplier = dec 1 2;
        unit = some percentage;
        min = dec 0 0;
        max = some (dec 110 0);
        editable = true;
        write_register = some 3051;
      }
      ∷ record (entry "solis_modbus_inverter_actual_adjusted_power_factor" 3050 []) {
        multiplier = dec 1 2;
        unit = some percentage;
      }
      ∷ record (entry "solis_modbus_inverter_actual_power_factor_adjustment" 3051 []) {
        multiplier = dec 1 3;
      }
      ∷ [];
}

abbrev pub string_3089 : GroupTable
string_3089 = record (group 3089) {
  poll_speed = some PollSpeed.slow;
  entities =
      record (entry "solis_modbus_power_limitation_switch" 3089 []) {
        multiplier = dec 1 0;
        hidden = true;
      }
      ∷ [];
}

abbrev pub string_3179 : GroupTable
string_3179 = record (group 3179) {
  poll_speed = some PollSpeed.slow;
  entities =
      record (entry "solis_modbus_shading_mppt_scan_enable" 3179 []) {
        multiplier = dec 1 1;
        unit = some other;
      }
      ∷ record (entry "solis_modbus_shading_mppt_scan_interval" 3180 []) {
        multiplier = dec 1 0;
        unit = some other;
        min = dec 10 0;
        max = some (dec 180 0);
        editable = true;
      }
      ∷ [];
}
