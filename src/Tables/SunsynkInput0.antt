-- ===== src/Tables/SunsynkInput0.antt =====
-- sensor_data/sunsynk_single_phase.py: input registers of the Sunsynk inverters.
use hh_modbus.Base.{List, [], ◌∷◌, ◌++◌, true, some}
use hh_modbus.Base.Int.{negsuc}
use hh_modbus.Inverter.{PollSpeed}
use hh_modbus.Groups.{RegisterType}
use hh_modbus.Sensors.{Entry, entry, dec, other}
use hh_modbus.Tables.{GroupTable, group}

abbrev pub sunsynk_input_0 : GroupTable
sunsynk_input_0 = record (group 0) {
  poll_speed = some PollSpeed.once;
  register_type = some RegisterType.input;
  entities =
      record (entry "sunsynk_device_type" 0 []) { multiplier = dec 0 0 }
      ∷ record (entry "sunsynk_reserve_1" 1 []) { multiplier = dec 0 0; hidden = true }
      ∷ record (entry "sunsynk_protocol_version" 2 []) { multiplier = dec 0 0 }
      ∷ record (entry "sunsynk_serial_number" 3 (4 ∷ 5 ∷ 6 ∷ 7 ∷ [])) { multiplier = dec 0 0 }
      ∷ [];
}

abbrev pub sunsynk_input_entries_59 : List Entry
sunsynk_input_entries_59 =
    record (entry "sunsynk_overall_state" 59 []) { multiplier = dec 0 0 }
    ∷ record (entry "sunsynk_day_active_energy" 60 []) {
      multiplier = record { mantissa = negsuc 0; exponent = 1 };
      unit = some other;
    }
    ∷ record (entry "sunsynk_day_reactive_energy" 61 []) {
      multiplier = record { mantissa = negsuc 0; exponent = 1 };
      unit = some other;
    }
    ∷ record (entry "sunsynk_reserve_62" 62 []) { multiplier = dec 0 0; hidden = true }
    ∷ record (entry "sunsynk_total_active_energy" 63 (64 ∷ [])) {
      multiplier = dec 1 1;
      unit = some other;
    }
    ∷ record (entry "sunsynk_month_pv_energy" 65 []) { multiplier = dec 1 1; unit = some other }
    ∷ record (entry "sunsynk_month_load_energy" 66 []) { multiplier = dec 1 1; unit = some other }
    ∷ record (entry "sunsynk_month_grid_energy" 67 []) { multiplier = dec 1 1; unit = some other }
    ∷ record (entry "sunsynk_year_pv_energy" 68 (69 ∷ [])) {
      multiplier = dec 1 1;
      unit = some other;
    }
    ∷ record (entry "sunsynk_day_battery_charge" 70 []) { multiplier = dec 1 1; unit = some other }
    ∷ record (entry "sunsynk_day_battery_discharge" 71 []) {
      multiplier = dec 1 1;
      unit = some other;
    }
    ∷ record (entry "sunsynk_total_battery_charge" 72 (73 ∷ [])) {
      multiplier = dec 1 1;
      unit = some other;
    }
    ∷ record (entry "sunsynk_total_battery_discharge" 74 (75 ∷ [])) {
      multiplier = dec 1 1;
      unit = some other;
    }
    ∷ record (entry "sunsynk_day_grid_import" 76 []) { multiplier = dec 1 1; unit = some other }
    ∷ record (entry "sunsynk_day_grid_export" 77 []) { multiplier = dec 1 1; unit = some other }
    ∷ []

abbrev pub sunsynk_input_entries_78 : List Entry
sunsynk_input_entries_78 =
    record (entry "sunsynk_total_grid_import" 78 (80 ∷ [])) {
      multiplier = dec 1 1;
      unit = some other;
    }
    ∷ []

abbrev pub sunsynk_input_59 : GroupTable
sunsynk_input_59 = record (group 59) {
  poll_speed = some PollSpeed.normal;
  register_type = some RegisterType.input;
  entities = sunsynk_input_entries_59 ++ sunsynk_input_entries_78;
}

abbrev pub sunsynk_input_79 : GroupTable
sunsynk_input_79 = record (group 79) {
  poll_speed = some PollSpeed.fast;
  register_type = some RegisterType.input;
  entities =
      record (entry "sunsynk_grid_frequency" 79 []) { multiplier = dec 1 2; unit = some other }
      ∷ [];
}

abbrev pub sunsynk_input_entries_80 : List Entry
sunsynk_input_entries_80 =
    record (entry "sunsynk_total_grid_import_high" 80 []) {
      multiplier = dec 1 1;
      unit = some other;
      hidden = true;
    }
    ∷ record (entry "sunsynk_total_grid_export" 81 (82 ∷ [])) {
      multiplier = dec 1 1;
      unit = some other;
    }
    ∷ record (entry "sunsynk_reserve_83" 83 []) { multiplier = dec 0 0; hidden = true }
    ∷ record (entry "sunsynk_day_load_energy" 84 []) { multiplier = dec 1 1; unit = some other }
    ∷ record (entry "sunsynk_total_load_energy" 85 (86 ∷ [])) {
      multiplier = dec 1 1;
      unit = some other;
    }
    ∷ record (entry "sunsynk_year_load_energy" 87 (88 ∷ [])) {
      multiplier = dec 1 1;
      unit = some other;
    }
    ∷ record (entry "sunsynk_reserve_89" 89 []) { multiplier = dec 0 0; hidden = true }
    ∷ record (entry "sunsynk_dc_transformer_temperature" 90 []) {
      multiplier = dec 1 1;
      unit = some other;
    }
    ∷ record (entry "sunsynk_radiator_temperature" 91 []) {
      multiplier = dec 1 1;
      unit = some other;
    }
    ∷ record (entry "sunsynk_sd_status" 92 []) { multiplier = dec 0 0 }
    ∷ record (entry "sunsynk_reserve_93" 93 []) { multiplier = dec 0 0; hidden = true }
    ∷ record (entry "sunsynk_reserve_94" 94 []) { multiplier = dec 0 0; hidden = true }
    ∷ record (entry "sunsynk_environment_temperature" 95 []) {
      multiplier = dec 1 1;
      unit = some other;
    }
    ∷ record (entry "sunsynk_total_pv_energy" 96 (97 ∷ [])) {
      multiplier = dec 1 1;
      unit = some other;
    }
    ∷ record (entry "sunsynk_year_grid_export" 98 (99 ∷ [])) {
      multiplier = dec 1 1;
      unit = some other;
    }
    ∷ record (entry "sunsynk_reserve_100" 100 []) { multiplier = dec 0 0; hidden = true }
    ∷ record (entry "sunsynk_reserve_101" 101 []) { multiplier = dec 0 0; hidden = true }
    ∷ []

abbrev pub sunsynk_input_entries_102 : List Entry
sunsynk_input_entries_102 =
    record (entry "sunsynk_reserve_102" 102 []) { multiplier = dec 0 0; hidden = true }
    ∷ record (entry "sunsynk_fault_1" 103 []) { multiplier = dec 0 0 }
    ∷ record (entry "sunsynk_fault_2" 104 []) { multiplier = dec 0 0 }
    ∷ record (entry "sunsynk_fault_3" 105 []) { multiplier = dec 0 0 }
    ∷ record (entry "sunsynk_fault_4" 106 []) { multiplier = dec 0 0 }
    ∷ record (entry "sunsynk_reserve_107" 107 []) { multiplier = dec 0 0; hidden = true }
    ∷ record (entry "sunsynk_day_pv_energy" 108 []) { multiplier = dec 1 1; unit = some other }
    ∷ []

abbrev pub sunsynk_input_80 : GroupTable
sunsynk_input_80 = record (group 80) {
  poll_speed = some PollSpeed.slow;
  register_type = some RegisterType.input;
  entities = sunsynk_input_entries_80 ++ sunsynk_input_entries_102;
}

abbrev pub sunsynk_input_109 : GroupTable
sunsynk_input_109 = record (group 109) {
  poll_speed = some PollSpeed.fast;
  register_type = some RegisterType.input;
  entities =
      record (entry "sunsynk_pv1_voltage" 109 []) { multiplier = dec 1 1; unit = some other }
      ∷ record (entry "sunsynk_pv1_current" 110 []) { multiplier = dec 1 1; unit = some other }
      ∷ record (entry "sunsynk_pv2_voltage" 111 []) { multiplier = dec 1 1; unit = some other }
      ∷ record (entry "sunsynk_pv2_current" 112 []) { multiplier = dec 1 1; unit = some other }
      ∷ record (entry "sunsynk_pv3_voltage" 113 []) { multiplier = dec 1 1; unit = some other }
      ∷ record (entry "sunsynk_pv3_current" 114 []) { multiplier = dec 1 1; unit = some other }
      ∷ [];
}
