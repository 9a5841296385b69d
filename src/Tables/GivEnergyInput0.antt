-- ===== src/Tables/GivEnergyInput0.antt =====
-- sensor_data/givenergy_sensors.py: groups of the GivEnergy inverters.
use hh_modbus.Base.{List, [], ◌∷◌, ◌++◌, true, some}
use hh_modbus.Inverter.{DataType, PollSpeed}
use hh_modbus.Groups.{RegisterType}
use hh_modbus.Sensors.{Entry, entry, dec, percentage, watt, other}
use hh_modbus.Tables.{GroupTable, group}

abbrev pub givenergy_input_entries_0 : List Entry
givenergy_input_entries_0 =
    record (entry "givenergy_inverter_status" 0 []) { multiplier = dec 0 0 }
    ∷ record (entry "givenergy_pv1_voltage" 1 []) { multiplier = dec 1 1; unit = some other }
    ∷ record (entry "givenergy_pv2_voltage" 2 []) { multiplier = dec 1 1; unit = some other }
    ∷ record (entry "givenergy_dc_bus_positive" 3 []) {
      multiplier = dec 1 1;
      unit = some other;
      hidden = true;
    }
    ∷ record (entry "givenergy_dc_bus_negative" 4 []) {
      multiplier = dec 1 1;
      unit = some other;
      hidden = true;
    }
    ∷ record (entry "givenergy_ac_voltage" 5 []) { multiplier = dec 1 1; unit = some other }
    ∷ record (entry "givenergy_battery_throughput_total" 6 (7 ∷ [])) {
      multiplier = dec 1 1;
      unit = some other;
    }
    ∷ record (entry "givenergy_pv1_current" 8 []) { multiplier = dec 1 2; unit = some other }
    ∷ record (entry "givenergy_pv2_current" 9 []) { multiplier = dec 1 2; unit = some other }
    ∷ record (entry "givenergy_ac_current" 10 []) { multiplier = dec 1 2; unit = some other }
    ∷ record (entry "givenergy_pv_total_energy" 11 (12 ∷ [])) {
      multiplier = dec 1 1;
      unit = some other;
    }
    ∷ record (entry "givenergy_ac_frequency" 13 []) { multiplier = dec 1 2; unit = some other }
    ∷ record (entry "givenergy_reserve_14" 14 []) { multiplier = dec 0 0; hidden = true }
    ∷ record (entry "givenergy_reserve_15" 15 []) { multiplier = dec 0 0; hidden = true }
    ∷ record (entry "givenergy_reserve_16" 16 []) { multiplier = dec 0 0; hidden = true }
    ∷ []

abbrev pub givenergy_input_entries_17 : List Entry
givenergy_input_entries_17 =
    record (entry "givenergy_pv1_today_energy" 17 []) { multiplier = dec 1 1; unit = some other }
    ∷ record (entry "givenergy_pv1_power" 18 []) { multiplier = dec 1 0; unit = some watt }
    ∷ record (entry "givenergy_pv2_today_energy" 19 []) { multiplier = dec 1 1; unit = some other }
    ∷ record (entry "givenergy_pv2_power" 20 []) { multiplier = dec 1 0; unit = some watt }
    ∷ record (entry "givenergy_grid_export_total" 21 (22 ∷ [])) {
      multiplier = dec 1 1;
      unit = some other;
    }
    ∷ record (entry "givenergy_reserve_23" 23 []) { multiplier = dec 0 0; hidden = true }
    ∷ record (entry "givenergy_ac_output_power" 24 []) {
      multiplier = dec 1 0;
      data_type = some DataType.s16;
      unit = some watt;
    }
    ∷ record (entry "givenergy_grid_export_today" 25 []) { multiplier = dec 1 1; unit = some other }
    ∷ record (entry "givenergy_grid_import_today" 26 []) { multiplier = dec 1 1; unit = some other }
    ∷ record (entry "givenergy_inverter_in_total" 27 (28 ∷ [])) {
      multiplier = dec 1 1;
      unit = some other;
    }
    ∷ record (entry "givenergy_reserve_29" 29 []) { multiplier = dec 0 0; hidden = true }
    ∷ record (entry "givenergy_grid_power" 30 []) {
      multiplier = dec 1 0;
      data_type = some DataType.s16;
      unit = some watt;
    }
    ∷ record (entry "givenergy_eps_backup_power" 31 []) { multiplier = dec 1 0; unit = some watt }
    ∷ record (entry "givenergy_grid_import_total" 32 (33 ∷ [])) {
      multiplier = dec 1 1;
      unit = some other;
    }
    ∷ record (entry "givenergy_reserve_34" 34 []) { multiplier = dec 0 0; hidden = true }
    ∷ []

abbrev pub givenergy_input_entries_35 : List Entry
givenergy_input_entries_35 =
    record (entry "givenergy_inverter_in_today" 35 []) { multiplier = dec 1 1; unit = some other }
    ∷ record (entry "givenergy_battery_charge_today" 36 []) {
      multiplier = dec 1 1;
      unit = some other;
    }
    ∷ record (entry "givenergy_battery_discharge_today" 37 []) {
      multiplier = dec 1 1;
      unit = some other;
    }
    ∷ record (entry "givenergy_reserve_38" 38 []) { multiplier = dec 0 0; hidden = true }
    ∷ record (entry "givenergy_reserve_39" 39 []) { multiplier = dec 0 0; hidden = true }
    ∷ record (entry "givenergy_reserve_40" 40 []) { multiplier = dec 0 0; hidden = true }
    ∷ record (entry "givenergy_heatsink_temp" 41 []) { multiplier = dec 1 1; unit = some other }
    ∷ record (entry "givenergy_load_demand" 42 []) { multiplier = dec 1 0; unit = some watt }
    ∷ record (entry "givenergy_reserve_43" 43 []) { multiplier = dec 0 0; hidden = true }
    ∷ record (entry "givenergy_inverter_out_today" 44 []) {
      multiplier = dec 1 1;
      unit = some other;
    }
    ∷ record (entry "givenergy_inverter_out_total" 45 (46 ∷ [])) {
      multiplier = dec 1 1;
      unit = some other;
    }
    ∷ record (entry "givenergy_reserve_47" 47 []) { multiplier = dec 0 0; hidden = true }
    ∷ record (entry "givenergy_reserve_48" 48 []) { multiplier = dec 0 0; hidden = true }
    ∷ record (entry "givenergy_system_mode" 49 []) { multiplier = dec 0 0 }
    ∷ record (entry "givenergy_battery_voltage" 50 []) { multiplier = dec 1 2; unit = some other }
    ∷ record (entry "givenergy_battery_current" 51 []) {
      multiplier = dec 1 2;
      data_type = some DataType.s16;
      unit = some other;
    }
    ∷ []

abbrev pub givenergy_input_entries_52 : List Entry
givenergy_input_entries_52 =
    record (entry "givenergy_battery_power" 52 []) {
      multiplier = dec 1 0;
      data_type = some DataType.s16;
      unit = some watt;
    }
    ∷ record (entry "givenergy_eps_voltage" 53 []) { multiplier = dec 1 1; unit = some other }
    ∷ record (entry "givenergy_eps_frequency" 54 []) { multiplier = dec 1 2; unit = some other }
    ∷ record (entry "givenergy_charger_temp" 55 []) { multiplier = dec 1 1; unit = some other }
    ∷ record (entry "givenergy_battery_temp" 56 []) { multiplier = dec 1 1; unit = some other }
    ∷ record (entry "givenergy_reserve_57" 57 []) { multiplier = dec 0 0; hidden = true }
    ∷ record (entry "givenergy_grid_port_current" 58 []) { multiplier = dec 1 2; unit = some other }
    ∷ record (entry "givenergy_battery_soc" 59 []) { multiplier = dec 1 0; unit = some percentage }
    ∷ []

abbrev pub givenergy_input_0 : GroupTable
givenergy_input_0 = record (group 0) {
  poll_speed = some PollSpeed.fast;
  register_type = some RegisterType.input;
  entities =
      givenergy_input_entries_0 ++ givenergy_input_entries_17 ++ givenergy_input_entries_35
      ++ givenergy_input_entries_52;
}
