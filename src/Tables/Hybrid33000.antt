-- ===== src/Tables/Hybrid33000.antt =====
-- sensor_data/hybrid_sensors.py: groups of the hybrid inverters.
use hh_modbus.Base.{[], ◌∷◌, true, some}
use hh_modbus.Inverter.{DataType, InverterFeature, PollSpeed}
use hh_modbus.Sensors.{entry, dec, watt, other}
use hh_modbus.Tables.{GroupTable, group}

abbrev pub hybrid_33000 : GroupTable
hybrid_33000 = record (group 33000) {
  essential = true;
  extreme = true;
  poll_speed = some PollSpeed.once;
  entities =
      record (entry "solis_modbus_inverter_model_no" 33000 []) { multiplier = dec 0 0 }
      ∷ record (entry "solis_modbus_inverter_dsp_version" 33001 []) { multiplier = dec 0 0 }
      ∷ record (entry "solis_modbus_inverter_hmi_version" 33002 []) { multiplier = dec 0 0 }
      ∷ record (entry "solis_modbus_inverter_protocol_version" 33003 []) { multiplier = dec 0 0 }
      ∷ record (entry "solis_modbus_inverter_serial_number" 33004 (
          33005 ∷ 33006 ∷ 33007 ∷ 33008 ∷ 33009 ∷ 33010 ∷ 33011 ∷ 33012 ∷ 33013 ∷ 33014 ∷ 33015
          ∷ 33016 ∷ 33017 ∷ 33018 ∷ 33019 ∷ [])) { multiplier = dec 0 0 }
      ∷ [];
}

abbrev pub hybrid_35000 : GroupTable
hybrid_35000 = record (group 35000) {
  essential = true;
  extreme = true;
  poll_speed = some PollSpeed.once;
  entities =
      record (entry "solis_modbus_inverter_type_definition" 35000 []) { multiplier = dec 0 0 } ∷ [];
}

abbrev pub hybrid_33022 : GroupTable
hybrid_33022 = record (group 33022) {
  essential = true;
  poll_speed = some PollSpeed.slow;
  entities =
      record (entry "solis_modbus_inverter_clock_year" 33022 []) { multiplier = dec 0 0 }
      ∷ record (entry "solis_modbus_inverter_clock_month" 33023 []) { multiplier = dec 0 0 }
      ∷ record (entry "solis_modbus_inverter_clock_day" 33024 []) { multiplier = dec 0 0 }
      ∷ record (entry "solis_modbus_inverter_clock_hours" 33025 []) {
        multiplier = dec 0 0;
        unit = some other;
      }
      ∷ record (entry "solis_modbus_inverter_clock_minutes" 33026 []) {
        multiplier = dec 0 0;
        unit = some other;
      }
      ∷ record (entry "solis_modbus_inverter_clock_seconds" 33027 []) {
        multiplier = dec 0 0;
        unit = some other;
      }
      ∷ [];
}

abbrev pub hybrid_33029 : GroupTable
hybrid_33029 = record (group 33029) {
  feature_requirement = InverterFeature.pv ∷ [];
  essential = true;
  poll_speed = some PollSpeed.slow;
  entities =
      record (entry "solis_modbus_inverter_pv_total_generation" 33029 (33030 ∷ [])) {
        multiplier = dec 0 0;
        data_type = some DataType.u32;
        unit = some other;
      }
      ∷ record (entry "solis_modbus_inverter_pv_current_month_generation" 33031 (33032 ∷ [])) {
        multiplier = dec 1 0;
        data_type = some DataType.u32;
        unit = some other;
      }
      ∷ record (entry "solis_modbus_inverter_pv_last_month_generation" 33033 (33034 ∷ [])) {
        multiplier = dec 1 0;
        data_type = some DataType.u32;
        unit = some other;
      }
      ∷ record (entry "solis_modbus_inverter_pv_today_generation" 33035 []) {
        multiplier = dec 1 1;
        unit = some other;
      }
      ∷ record (entry "solis_modbus_inverter_pv_yesterday_generation" 33036 []) {
        multiplier = dec 1 1;
        unit = some other;
      }
      ∷ record (entry "solis_modbus_inverter_pv_this_year_generation" 33037 (33038 ∷ [])) {
        multiplier = dec 1 0;
        data_type = some DataType.u32;
        unit = some other;
      }
      ∷ record (entry "solis_modbus_inverter_pv_last_year_generation" 33039 (33040 ∷ [])) {
        multiplier = dec 1 0;
        data_type = some DataType.u32;
        unit = some other;
      }
      ∷ [];
}

abbrev pub hybrid_33041 : GroupTable
hybrid_33041 = record (group 33041) {
  feature_requirement = InverterFeature.bms ∷ [];
  poll_speed = some PollSpeed.fast;
  entities =
      record (entry "solis_modbus_inverter_max_current" 33041 []) {
        multiplier = dec 1 1;
        unit = some other;
      }
      ∷ entry "reserve" 33042 []
      ∷ record (entry "solis_modbus_inverter_battery_temperature_bms" 33043 []) {
        multiplier = dec 1 1;
        data_type = some DataType.s16;
        unit = some other;
      }
      ∷ [];
}

abbrev pub hybrid_33049 : GroupTable
hybrid_33049 = record (group 33049) {
  feature_requirement = InverterFeature.pv ∷ [];
  essential = true;
  extreme = true;
  poll_speed = some PollSpeed.fast;
  entities =
      record (entry "solis_modbus_inverter_dc_voltage_1" 33049 []) {
        multiplier = dec 1 1;
        unit = some other;
      }
      ∷ record (entry "solis_modbus_inverter_dc_current_1" 33050 []) {
        multiplier = dec 1 1;
        unit = some other;
      }
      ∷ record (entry "solis_modbus_inverter_dc_voltage_2" 33051 []) {
        multiplier = dec 1 1;
        unit = some other;
      }
      ∷ record (entry "solis_modbus_inverter_dc_current_2" 33052 []) {
        multiplier = dec 1 1;
        unit = some other;
      }
      ∷ record (entry "solis_modbus_inverter_dc_voltage_3" 33053 []) {
        multiplier = dec 1 1;
        unit = some other;
      }
      ∷ record (entry "solis_modbus_inverter_dc_current_3" 33054 []) {
        multiplier = dec 1 1;
        unit = some other;
      }
      ∷ record (entry "solis_modbus_inverter_dc_voltage_4" 33055 []) {
        multiplier = dec 1 1;
        unit = some other;
      }
      ∷ record (entry "solis_modbus_inverter_dc_current_4" 33056 []) {
        multiplier = dec 1 1;
        unit = some other;
      }
      ∷ record (entry "solis_modbus_inverter_total_dc_output" 33057 (33058 ∷ [])) {
        multiplier = dec 0 0;
        unit = some watt;
      }
      ∷ [];
}
