-- ===== src/Tables/SkylinePower4097.antt =====
-- sensor_data/skyline_sensors.py: groups of the Skyline inverters.
use hh_modbus.Base.{List, [], ◌∷◌, ◌++◌, true, some}
use hh_modbus.Inverter.{DataType, PollSpeed}
use hh_modbus.Groups.{RegisterType}
use hh_modbus.Sensors.{Entry, entry, dec, kilo_watt, other}
use hh_modbus.Tables.{GroupTable, group}

abbrev pub skyline_power_entries_4097 : List Entry
skyline_power_entries_4097 =
    record (entry "skyline_reserve_4097" 4097 []) { multiplier = dec 0 0; hidden = true }
    ∷ record (entry "skyline_reserve_4098" 4098 []) { multiplier = dec 0 0; hidden = true }
    ∷ record (entry "skyline_phase_a_inverter_load" 4099 (4100 ∷ [])) {
      multiplier = dec 1 4;
      data_type = some DataType.s32;
      unit = some kilo_watt;
    }
    ∷ record (entry "skyline_reserve_4101" 4101 []) { multiplier = dec 0 0; hidden = true }
    ∷ record (entry "skyline_reserve_4102" 4102 []) { multiplier = dec 0 0; hidden = true }
    ∷ record (entry "skyline_reserve_4103" 4103 []) { multiplier = dec 0 0; hidden = true }
    ∷ record (entry "skyline_phase_b_inverter_load" 4104 (4105 ∷ [])) {
      multiplier = dec 1 4;
      data_type = some DataType.s32;
      unit = some kilo_watt;
    }
    ∷ record (entry "skyline_reserve_4106" 4106 []) { multiplier = dec 0 0; hidden = true }
    ∷ record (entry "skyline_reserve_4107" 4107 []) { multiplier = dec 0 0; hidden = true }
    ∷ record (entry "skyline_reserve_4108" 4108 []) { multiplier = dec 0 0; hidden = true }
    ∷ record (entry "skyline_phase_c_inverter_load" 4109 (4110 ∷ [])) {
      multiplier = dec 1 4;
      data_type = some DataType.s32;
      unit = some kilo_watt;
    }
    ∷ record (entry "skyline_reserve_4111" 4111 []) { multiplier = dec 0 0; hidden = true }
    ∷ record (entry "skyline_mppt1_voltage" 4112 []) { multiplier = dec 1 1; unit = some other }
    ∷ record (entry "skyline_mppt1_current" 4113 []) { multiplier = dec 1 2; unit = some other }
    ∷ record (entry "skyline_mppt1_power" 4114 (4115 ∷ [])) {
      multiplier = dec 1 4;
      unit = some kilo_watt;
    }
    ∷ []

abbrev pub skyline_power_entries_4116 : List Entry
skyline_power_entries_4116 =
    record (entry "skyline_mppt2_voltage" 4116 []) { multiplier = dec 1 1; unit = some other }
    ∷ record (entry "skyline_mppt2_current" 4117 []) { multiplier = dec 1 2; unit = some other }
    ∷ record (entry "skyline_mppt2_power" 4118 (4119 ∷ [])) {
      multiplier = dec 1 4;
      unit = some kilo_watt;
    }
    ∷ record (entry "skyline_reserve_4120" 4120 []) { multiplier = dec 0 0; hidden = true }
    ∷ record (entry "skyline_reserve_4121" 4121 []) { multiplier = dec 0 0; hidden = true }
    ∷ record (entry "skyline_reserve_4122" 4122 []) { multiplier = dec 0 0; hidden = true }
    ∷ record (entry "skyline_reserve_4123" 4123 []) { multiplier = dec 0 0; hidden = true }
    ∷ record (entry "skyline_system_temp" 4124 []) {
      multiplier = dec 1 0;
      data_type = some DataType.s16;
      unit = some other;
    }
    ∷ record (entry "skyline_reserve_4125" 4125 []) { multiplier = dec 0 0; hidden = true }
    ∷ record (entry "skyline_reserve_4126" 4126 []) { multiplier = dec 0 0; hidden = true }
    ∷ record (entry "skyline_reserve_4127" 4127 []) { multiplier = dec 0 0; hidden = true }
    ∷ record (entry "skyline_reserve_4128" 4128 []) { multiplier = dec 0 0; hidden = true }
    ∷ record (entry "skyline_pv_energy_total" 4129 (4130 ∷ [])) {
      multiplier = dec 1 0;
      unit = some other;
    }
    ∷ record (entry "skyline_reserve_4131" 4131 []) { multiplier = dec 0 0; hidden = true }
    ∷ record (entry "skyline_reserve_4132" 4132 []) { multiplier = dec 0 0; hidden = true }
    ∷ record (entry "skyline_reserve_4133" 4133 []) { multiplier = dec 0 0; hidden = true }
    ∷ record (entry "skyline_reserve_4134" 4134 []) { multiplier = dec 0 0; hidden = true }
    ∷ []

abbrev pub skyline_power_entries_4135 : List Entry
skyline_power_entries_4135 =
    record (entry "skyline_pv_energy_today" 4135 (4136 ∷ [])) {
      multiplier = dec 1 3;
      unit = some other;
    }
    ∷ []

abbrev pub skyline_power_4097 : GroupTable
skyline_power_4097 = record (group 4097) {
  poll_speed = some PollSpeed.fast;
  register_type = some RegisterType.holding;
  entities = skyline_power_entries_4097 ++ skyline_power_entries_4116 ++ skyline_power_entries_4135;
}
