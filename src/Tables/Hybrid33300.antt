-- ===== src/Tables/Hybrid33300.antt =====
-- sensor_data/hybrid_sensors.py: groups of the hybrid inverters.
use hh_modbus.Base.{[], ◌∷◌, some}
use hh_modbus.Inverter.{DataType, InverterFeature, PollSpeed}
use hh_modbus.Sensors.{entry, dec, percentage, watt, other}
use hh_modbus.Tables.{GroupTable, group}

abbrev pub hybrid_33300 : GroupTable
hybrid_33300 = record (group 33300) {
  feature_requirement = InverterFeature.dual_meter ∷ [];
  poll_speed = some PollSpeed.fast;
  entities =
      record (entry "solis_modbus_inverter_meter1_type_location" 33300 []) { multiplier = dec 0 0 }
      ∷ record (entry "solis_modbus_inverter_meter2_type_location" 33301 []) {
        multiplier = dec 0 0;
      }
      ∷ record (entry "solis_modbus_inverter_meter2_ac_voltage_a" 33302 []) {
        multiplier = dec 1 1;
        unit = some other;
      }
      ∷ record (entry "solis_modbus_inverter_meter2_ac_current_a" 33303 []) {
        multiplier = dec 1 2;
        unit = some other;
      }
      ∷ record (entry "solis_modbus_inverter_meter2_ac_voltage_b" 33304 []) {
        multiplier = dec 1 1;
        unit = some other;
      }
      ∷ record (entry "solis_modbus_inverter_meter2_ac_current_b" 33305 []) {
        multiplier = dec 1 2;
        unit = some other;
      }
      ∷ record (entry "solis_modbus_inverter_meter2_ac_voltage_c" 33306 []) {
        multiplier = dec 1 1;
        unit = some other;
      }
      ∷ record (entry "solis_modbus_inverter_meter2_ac_current_c" 33307 []) {
        multiplier = dec 1 2;
        unit = some other;
      }
      ∷ record (entry "solis_modbus_inverter_meter2_active_power_a" 33308 (33309 ∷ [])) {
        multiplier = dec 0 0;
        unit = some watt;
      }
      ∷ record (entry "solis_modbus_inverter_meter2_active_power_b" 33310 (33311 ∷ [])) {
        multiplier = dec 0 0;
        unit = some watt;
      }
      ∷ record (entry "solis_modbus_inverter_meter2_active_power_c" 33312 (33313 ∷ [])) {
        multiplier = dec 0 0;
        unit = some watt;
      }
      ∷ record (entry "solis_modbus_inverter_meter2_total_active_power" 33314 (33315 ∷ [])) {
        multiplier = dec 0 0;
        unit = some watt;
      }
      ∷ [];
}

abbrev pub hybrid_33316 : GroupTable
hybrid_33316 = record (group 33316) {
  feature_requirement = InverterFeature.dual_meter ∷ [];
  poll_speed = some PollSpeed.slow;
  entities =
      record (entry "solis_modbus_inverter_meter2_reactive_power_a" 33316 (33317 ∷ [])) {
        multiplier = dec 0 0;
        unit = some other;
      }
      ∷ record (entry "solis_modbus_inverter_meter2_reactive_power_b" 33318 (33319 ∷ [])) {
        multiplier = dec 0 0;
        unit = some other;
      }
      ∷ record (entry "solis_modbus_inverter_meter2_reactive_power_c" 33320 (33321 ∷ [])) {
        multiplier = dec 0 0;
        unit = some other;
      }
      ∷ record (entry "solis_modbus_inverter_meter2_total_reactive_power" 33322 (33323 ∷ [])) {
        multiplier = dec 0 0;
        unit = some other;
      }
      ∷ record (entry "solis_modbus_inverter_meter2_apparent_power_a" 33324 (33325 ∷ [])) {
        multiplier = dec 0 0;
        unit = some other;
      }
      ∷ record (entry "solis_modbus_inverter_meter2_apparent_power_b" 33326 (33327 ∷ [])) {
        multiplier = dec 0 0;
        unit = some other;
      }
      ∷ record (entry "solis_modbus_inverter_meter2_apparent_power_c" 33328 (33329 ∷ [])) {
        multiplier = dec 0 0;
        unit = some other;
      }
      ∷ record (entry "solis_modbus_inverter_meter2_total_apparent_power" 33330 (33331 ∷ [])) {
        multiplier = dec 0 0;
        unit = some other;
      }
      ∷ record (entry "solis_modbus_inverter_meter2_power_factor" 33332 []) {
        multiplier = dec 1 2;
        data_type = some DataType.s16;
        unit = some percentage;
      }
      ∷ record (entry "solis_modbus_inverter_meter2_grid_frequency" 33333 []) {
        multiplier = dec 1 2;
        unit = some other;
      }
      ∷ record (entry "solis_modbus_inverter_meter2_total_active_energy_from_grid" 33334
          (33335 ∷ [])) { multiplier = dec 1 2; data_type = some DataType.u32; unit = some other }
      ∷ record (entry "solis_modbus_inverter_meter2_total_active_energy_to_grid" 33336
          (33337 ∷ [])) { multiplier = dec 1 2; data_type = some DataType.u32; unit = some other }
      ∷ [];
}

abbrev pub hybrid_33512 : GroupTable
hybrid_33512 = record (group 33512) {
  poll_speed = some PollSpeed.fast;
  entities =
      record (entry "solis_modbus_inverter_ac_grid_port_active_power_phase_a" 33512 []) {
        multiplier = dec 10 0;
        data_type = some DataType.s16;
        unit = some watt;
      }
      ∷ entry "reserve" 33513 (33514 ∷ [])
      ∷ record (entry "solis_modbus_inverter_ac_grid_port_active_power_phase_b" 33515 []) {
        multiplier = dec 10 0;
        data_type = some DataType.s16;
        unit = some watt;
      }
      ∷ entry "reserve" 33516 (33517 ∷ [])
      ∷ record (entry "solis_modbus_inverter_ac_grid_port_active_power_phase_c" 33518 []) {
        multiplier = dec 10 0;
        data_type = some DataType.s16;
        unit = some watt;
      }
      ∷ [];
}

abbrev pub hybrid_33530 : GroupTable
hybrid_33530 = record (group 33530) {
  feature_requirement = InverterFeature.generator ∷ [];
  poll_speed = some PollSpeed.fast;
  entities =
      record (entry "solis_modbus_inverter_generator_phase_a_active_power" 33530 []) {
        multiplier = dec 10 0;
        unit = some watt;
      }
      ∷ record (entry "solis_modbus_inverter_generator_today_energy" 33531 []) {
        multiplier = dec 1 1;
        unit = some other;
      }
      ∷ record (entry "solis_modbus_inverter_generator_total_energy" 33532 (33533 ∷ [])) {
        multiplier = dec 1 0;
        data_type = some DataType.u32;
        unit = some other;
      }
      ∷ record (entry "solis_modbus_inverter_generator_phase_b_active_power" 33534 []) {
        multiplier = dec 10 0;
        unit = some watt;
      }
      ∷ record (entry "solis_modbus_inverter_generator_phase_c_active_power" 33535 []) {
        multiplier = dec 10 0;
        unit = some watt;
      }
      ∷ [];
}
