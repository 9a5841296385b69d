-- ===== src/Tables/SolarEdge40071.antt =====
-- sensor_data/solaredge_sensors.py: groups of the SolarEdge inverters.
use hh_modbus.Base.{List, [], ◌∷◌, ◌++◌, true, some}
use hh_modbus.Inverter.{DataType, PollSpeed}
use hh_modbus.Groups.{RegisterType}
use hh_modbus.Sensors.{Entry, entry, dec, percentage, watt, other}
use hh_modbus.Tables.{GroupTable, group}

abbrev pub solaredge_entries_40071 : List Entry
solaredge_entries_40071 =
    record (entry "solaredge_ac_current" 40071 []) { multiplier = dec 1 1; unit = some other }
    ∷ record (entry "solaredge_phase_a_current" 40072 []) {
      multiplier = dec 1 1;
      unit = some other;
    }
    ∷ record (entry "solaredge_phase_b_current" 40073 []) {
      multiplier = dec 1 1;
      unit = some other;
    }
    ∷ record (entry "solaredge_phase_c_current" 40074 []) {
      multiplier = dec 1 1;
      unit = some other;
    }
    ∷ record (entry "solaredge_ac_current_sf" 40075 []) { multiplier = dec 0 0; hidden = true }
    ∷ record (entry "solaredge_voltage_ab" 40076 []) { multiplier = dec 1 1; unit = some other }
    ∷ record (entry "solaredge_voltage_bc" 40077 []) { multiplier = dec 1 1; unit = some other }
    ∷ record (entry "solaredge_voltage_ca" 40078 []) { multiplier = dec 1 1; unit = some other }
    ∷ record (entry "solaredge_phase_a_voltage" 40079 []) {
      multiplier = dec 1 1;
      unit = some other;
    }
    ∷ record (entry "solaredge_phase_b_voltage" 40080 []) {
      multiplier = dec 1 1;
      unit = some other;
    }
    ∷ record (entry "solaredge_phase_c_voltage" 40081 []) {
      multiplier = dec 1 1;
      unit = some other;
    }
    ∷ record (entry "solaredge_ac_voltage_sf" 40082 []) { multiplier = dec 0 0; hidden = true }
    ∷ record (entry "solaredge_ac_power" 40083 []) {
      multiplier = dec 1 0;
      data_type = some DataType.s16;
      unit = some watt;
    }
    ∷ record (entry "solaredge_ac_power_sf" 40084 []) { multiplier = dec 0 0; hidden = true }
    ∷ []

abbrev pub solaredge_entries_40085 : List Entry
solaredge_entries_40085 =
    record (entry "solaredge_ac_frequency" 40085 []) { multiplier = dec 1 2; unit = some other }
    ∷ record (entry "solaredge_ac_freq_sf" 40086 []) { multiplier = dec 0 0; hidden = true }
    ∷ record (entry "solaredge_apparent_power" 40087 []) {
      multiplier = dec 1 0;
      data_type = some DataType.s16;
      unit = some other;
    }
    ∷ record (entry "solaredge_apparent_power_sf" 40088 []) { multiplier = dec 0 0; hidden = true }
    ∷ record (entry "solaredge_reactive_power" 40089 []) {
      multiplier = dec 1 0;
      data_type = some DataType.s16;
    }
    ∷ record (entry "solaredge_reactive_power_sf" 40090 []) { multiplier = dec 0 0; hidden = true }
    ∷ record (entry "solaredge_power_factor" 40091 []) {
      multiplier = dec 1 2;
      data_type = some DataType.s16;
      unit = some percentage;
    }
    ∷ record (entry "solaredge_power_factor_sf" 40092 []) { multiplier = dec 0 0; hidden = true }
    ∷ record (entry "solaredge_ac_energy_total" 40093 (40094 ∷ [])) {
      multiplier = dec 1 3;
      unit = some other;
    }
    ∷ record (entry "solaredge_ac_energy_sf" 40095 []) { multiplier = dec 0 0; hidden = true }
    ∷ record (entry "solaredge_dc_current" 40096 []) { multiplier = dec 1 2; unit = some other }
    ∷ record (entry "solaredge_dc_current_sf" 40097 []) { multiplier = dec 0 0; hidden = true }
    ∷ record (entry "solaredge_dc_voltage" 40098 []) { multiplier = dec 1 1; unit = some other }
    ∷ record (entry "solaredge_dc_voltage_sf" 40099 []) { multiplier = dec 0 0; hidden = true }
    ∷ record (entry "solaredge_dc_power" 40100 []) {
      multiplier = dec 1 0;
      data_type = some DataType.s16;
      unit = some watt;
    }
    ∷ []

abbrev pub solaredge_entries_40101 : List Entry
solaredge_entries_40101 =
    record (entry "solaredge_dc_power_sf" 40101 []) { multiplier = dec 0 0; hidden = true }
    ∷ record (entry "solaredge_reserve_40102" 40102 []) { multiplier = dec 0 0; hidden = true }
    ∷ record (entry "solaredge_heatsink_temp" 40103 []) {
      multiplier = dec 1 2;
      data_type = some DataType.s16;
      unit = some other;
    }
    ∷ record (entry "solaredge_reserve_40104" 40104 []) { multiplier = dec 0 0; hidden = true }
    ∷ record (entry "solaredge_reserve_40105" 40105 []) { multiplier = dec 0 0; hidden = true }
    ∷ record (entry "solaredge_temp_sf" 40106 []) { multiplier = dec 0 0; hidden = true }
    ∷ record (entry "solaredge_inverter_status" 40107 []) { multiplier = dec 0 0 }
    ∷ record (entry "solaredge_vendor_status" 40108 []) { multiplier = dec 0 0; hidden = true }
    ∷ []

abbrev pub solaredge_40071 : GroupTable
solaredge_40071 = record (group 40071) {
  poll_speed = some PollSpeed.fast;
  register_type = some RegisterType.holding;
  entities = solaredge_entries_40071 ++ solaredge_entries_40085 ++ solaredge_entries_40101;
}
