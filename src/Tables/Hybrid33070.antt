-- ===== src/Tables/Hybrid33070.antt =====
-- sensor_data/hybrid_sensors.py: groups of the hybrid inverters.
use hh_modbus.Base.{List, [], ◌∷◌, ◌++◌, true, some}
use hh_modbus.Inverter.{DataType, PollSpeed}
use hh_modbus.Sensors.{Entry, entry, dec, percentage, watt, other}
use hh_modbus.Tables.{GroupTable, group}

abbrev pub hybrid_entries_33070 : List Entry
hybrid_entries_33070 =
    record (entry "solis_modbus_inverter_alarm_code_data" 33070 []) { multiplier = dec 1 0 }
    ∷ record (entry "solis_modbus_inverter_dc_bus_voltage" 33071 []) {
      multiplier = dec 1 1;
      unit = some other;
    }
    ∷ record (entry "solis_modbus_inverter_dc_bus_half_voltage" 33072 []) {
      multiplier = dec 1 1;
      unit = some other;
    }
    ∷ record (entry "solis_modbus_inverter_a_phase_voltage" 33073 []) {
      multiplier = dec 1 1;
      unit = some other;
    }
    ∷ record (entry "solis_modbus_inverter_b_phase_voltage" 33074 []) {
      multiplier = dec 1 1;
      unit = some other;
    }
    ∷ record (entry "solis_modbus_inverter_c_phase_voltage" 33075 []) {
      multiplier = dec 1 1;
      unit = some other;
    }
    ∷ record (entry "solis_modbus_inverter_a_phase_current" 33076 []) {
      multiplier = dec 1 1;
      unit = some other;
    }
    ∷ record (entry "solis_modbus_inverter_b_phase_current" 33077 []) {
      multiplier = dec 1 1;
      unit = some other;
    }
    ∷ record (entry "solis_modbus_inverter_c_phase_current" 33078 []) {
      multiplier = dec 1 1;
      unit = some other;
    }
    ∷ record (entry "solis_modbus_inverter_active_power" 33079 (33080 ∷ [])) {
      multiplier = dec 1 0;
      unit = some watt;
    }
    ∷ record (entry "solis_modbus_inverter_reactive_power" 33081 (33082 ∷ [])) {
      multiplier = dec 0 0;
      unit = some other;
    }
    ∷ record (entry "solis_modbus_inverter_apparent_power" 33083 (33084 ∷ [])) {
      multiplier = dec 0 0;
      unit = some other;
    }
    ∷ entry "reserve" 33085 (33086 ∷ 33087 ∷ 33088 ∷ 33089 ∷ 33090 ∷ 33091 ∷ 33092 ∷ [])
    ∷ record (entry "solis_modbus_inverter_temperature" 33093 []) {
      multiplier = dec 1 1;
      data_type = some DataType.s16;
      unit = some other;
    }
    ∷ record (entry "solis_modbus_inverter_grid_frequency" 33094 []) {
      multiplier = dec 1 2;
      unit = some other;
    }
    ∷ record (entry "solis_modbus_inverter_current_status" 33095 []) { multiplier = dec 0 0 }
    ∷ []

abbrev pub hybrid_entries_33096 : List Entry
hybrid_entries_33096 =
    record (entry "solis_modbus_inverter_lead_acid_temp" 33096 []) {
      multiplier = dec 1 1;
      data_type = some DataType.s16;
      unit = some other;
    }
    ∷ []

abbrev pub hybrid_33070 : GroupTable
hybrid_33070 = record (group 33070) {
  essential = true;
  poll_speed = some PollSpeed.fast;
  entities = hybrid_entries_33070 ++ hybrid_entries_33096;
}

abbrev pub hybrid_33116 : GroupTable
hybrid_33116 = record (group 33116) {
  poll_speed = some PollSpeed.fast;
  entities =
      record (entry "solis_modbus_inverter_grid_fault_status_bits" 33116 []) {
        multiplier = dec 0 0;
      }
      ∷ record (entry "solis_modbus_inverter_backup_fault_status_bits" 33117 []) {
        multiplier = dec 0 0;
      }
      ∷ record (entry "solis_modbus_inverter_battery_fault_status_bits_word" 33118 []) {
        multiplier = dec 0 0;
      }
      ∷ record (entry "solis_modbus_inverter_inverter_fault_status_bits_1" 33119 []) {
        multiplier = dec 0 0;
      }
      ∷ record (entry "solis_modbus_inverter_inverter_fault_status_bits_2" 33120 []) {
        multiplier = dec 0 0;
      }
      ∷ record (entry "solis_modbus_inverter_operating_status_bits" 33121 []) {
        multiplier = dec 0 0;
      }
      ∷ record (entry "solis_modbus_inverter_operating_mode" 33122 []) { multiplier = dec 0 0 }
      ∷ record (entry "solis_modbus_inverter_grid_standard_mode_bits" 33123 []) {
        multiplier = dec 0 0;
      }
      ∷ [];
}

abbrev pub hybrid_33126 : GroupTable
hybrid_33126 = record (group 33126) {
  extreme = true;
  poll_speed = some PollSpeed.fast;
  entities =
      record (entry "solis_modbus_inverter_meter_total_active_energy" 33126 (33127 ∷ [])) {
        multiplier = dec 1 3;
        data_type = some DataType.u32;
        unit = some other;
      }
      ∷ record (entry "solis_modbus_inverter_meter_voltage" 33128 []) {
        multiplier = dec 1 1;
        unit = some other;
      }
      ∷ record (entry "solis_modbus_inverter_meter_current" 33129 []) {
        multiplier = dec 1 2;
        unit = some other;
      }
      ∷ record (entry "solis_modbus_inverter_meter_active_power" 33130 (33131 ∷ [])) {
        multiplier = dec 0 0;
        unit = some watt;
      }
      ∷ [];
}

abbrev pub hybrid_entries_33132 : List Entry
hybrid_entries_33132 =
    record (entry "solis_modbus_inverter_storage_control_switching_value" 33132 []) {
      multiplier = dec 0 0;
    }
    ∷ record (entry "solis_modbus_inverter_battery_voltage" 33133 []) {
      multiplier = dec 1 1;
      unit = some other;
    }
    ∷ record (entry "solis_modbus_inverter_battery_current" 33134 []) {
      multiplier = dec 1 1;
      data_type = some DataType.s16;
      unit = some other;
    }
    ∷ record (entry "solis_modbus_inverter_battery_current_direction" 33135 []) {
      multiplier = dec 0 0;
    }
    ∷ record (entry "solis_modbus_inverter_llc_bus_voltage" 33136 []) {
      multiplier = dec 1 1;
      unit = some other;
    }
    ∷ record (entry "solis_modbus_inverter_backup_ac_voltage_phase_a" 33137 []) {
      multiplier = dec 1 1;
      unit = some other;
    }
    ∷ record (entry "solis_modbus_inverter_backup_ac_current_phase_a" 33138 []) {
      multiplier = dec 1 1;
      unit = some other;
    }
    ∷ record (entry "solis_modbus_inverter_battery_soc" 33139 []) {
      multiplier = dec 0 0;
      unit = some percentage;
    }
    ∷ record (entry "solis_modbus_inverter_battery_soh" 33140 []) {
      multiplier = dec 0 0;
      unit = some percentage;
    }
    ∷ record (entry "solis_modbus_inverter_battery_voltage_bms" 33141 []) {
      multiplier = dec 1 2;
      unit = some other;
    }
    ∷ record (entry "solis_modbus_inverter_battery_current_bms" 33142 []) {
      multiplier = dec 1 1;
      data_type = some DataType.s16;
      unit = some other;
    }
    ∷ record (entry "solis_modbus_inverter_battery_charge_current_limitation_bms" 33143 []) {
      multiplier = dec 1 1;
      unit = some other;
    }
    ∷ record (entry "solis_modbus_inverter_battery_discharge_current_limitation_bms" 33144 []) {
      multiplier = dec 1 1;
      unit = some other;
    }
    ∷ record (entry "solis_modbus_inverter_battery_fault_status_1_bms" 33145 []) {
      multiplier = dec 1 1;
    }
    ∷ record (entry "solis_modbus_inverter_battery_fault_status_2_bms" 33146 []) {
      multiplier = dec 1 1;
    }
    ∷ []
