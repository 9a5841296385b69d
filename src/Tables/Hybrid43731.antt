-- ===== src/Tables/Hybrid43731.antt =====
-- sensor_data/hybrid_sensors.py: groups of the hybrid inverters.
use hh_modbus.Base.{List, [], ◌∷◌, ◌++◌, true, some}
use hh_modbus.Tables.Hybrid43361.{hybrid_entries_43707, hybrid_entries_43719}
use hh_modbus.Inverter.{PollSpeed}
use hh_modbus.Sensors.{Entry, entry, dec, percentage, other}
use hh_modbus.Tables.{GroupTable, group}

abbrev pub hybrid_entries_43731 : List Entry
hybrid_entries_43731 =
    record (entry "solis_modbus_inverter_tou_charge_v2_cutoff_voltage_4" 43731 []) {
      multiplier = dec 1 1;
      unit = some other;
      min = dec 0 0;
      max = some (dec 300 0);
      step = some (dec 1 1);
      editable = true;
    }
    ∷ record (entry "solis_modbus_inverter_tou_charge_start_hour_4" 43732 []) {
      multiplier = dec 0 0;
      unit = some other;
    }
    ∷ record (entry "solis_modbus_inverter_tou_charge_start_minute_4" 43733 []) {
      multiplier = dec 0 0;
      unit = some other;
    }
    ∷ record (entry "solis_modbus_inverter_tou_charge_end_hour_4" 43734 []) {
      multiplier = dec 0 0;
      unit = some other;
    }
    ∷ record (entry "solis_modbus_inverter_tou_charge_end_minute_4" 43735 []) {
      multiplier = dec 0 0;
      unit = some other;
    }
    ∷ record (entry "solis_modbus_inverter_tou_charge_cutoff_charge_5" 43736 []) {
      multiplier = dec 1 0;
      unit = some percentage;
      min = dec 0 0;
      max = some (dec 100 0);
      editable = true;
    }
    ∷ record (entry "solis_modbus_inverter_tou_charge_v2_battery_current_5" 43737 []) {
      multiplier = dec 1 1;
      unit = some other;
      min = dec 0 0;
      step = some (dec 1 1);
      editable = true;
    }
    ∷ record (entry "solis_modbus_inverter_tou_charge_v2_cutoff_voltage_5" 43738 []) {
      multiplier = dec 1 1;
      unit = some other;
      min = dec 0 0;
      max = some (dec 300 0);
      step = some (dec 1 1);
      editable = true;
    }
    ∷ record (entry "solis_modbus_inverter_tou_charge_start_hour_5" 43739 []) {
      multiplier = dec 0 0;
      unit = some other;
    }
    ∷ record (entry "solis_modbus_inverter_tou_charge_start_minute_5" 43740 []) {
      multiplier = dec 0 0;
      unit = some other;
    }
    ∷ record (entry "solis_modbus_inverter_tou_charge_end_hour_5" 43741 []) {
      multiplier = dec 0 0;
      unit = some other;
    }
    ∷ record (entry "solis_modbus_inverter_tou_charge_end_minute_5" 43742 []) {
      multiplier = dec 0 0;
      unit = some other;
    }
    ∷ record (entry "solis_modbus_inverter_tou_charge_cutoff_charge_6" 43743 []) {
      multiplier = dec 1 0;
      unit = some percentage;
      min = dec 0 0;
      max = some (dec 100 0);
      editable = true;
    }
    ∷ []

abbrev pub hybrid_entries_43744 : List Entry
hybrid_entries_43744 =
    record (entry "solis_modbus_inverter_tou_charge_v2_battery_current_6" 43744 []) {
      multiplier = dec 1 1;
      unit = some other;
      min = dec 0 0;
      step = some (dec 1 1);
      editable = true;
    }
    ∷ record (entry "solis_modbus_inverter_tou_charge_v2_cutoff_voltage_6" 43745 []) {
      multiplier = dec 1 1;
      unit = some other;
      min = dec 0 0;
      max = some (dec 300 0);
      step = some (dec 1 1);
      editable = true;
    }
    ∷ record (entry "solis_modbus_inverter_tou_charge_start_hour_6" 43746 []) {
      multiplier = dec 0 0;
      unit = some other;
    }
    ∷ record (entry "solis_modbus_inverter_tou_charge_start_minute_6" 43747 []) {
      multiplier = dec 0 0;
      unit = some other;
    }
    ∷ record (entry "solis_modbus_inverter_tou_charge_end_hour_6" 43748 []) {
      multiplier = dec 0 0;
      unit = some other;
    }
    ∷ record (entry "solis_modbus_inverter_tou_charge_end_minute_6" 43749 []) {
      multiplier = dec 0 0;
      unit = some other;
    }
    ∷ []

abbrev pub hybrid_43707 : GroupTable
hybrid_43707 = record (group 43707) {
  poll_speed = some PollSpeed.slow;
  entities =
      hybrid_entries_43707 ++ hybrid_entries_43719 ++ hybrid_entries_43731 ++ hybrid_entries_43744;
}

abbrev pub hybrid_entries_43750 : List Entry
hybrid_entries_43750 =
    record (entry "solis_modbus_inverter_tou_charge_cutoff_discharge_1" 43750 []) {
      multiplier = dec 1 0;
      unit = some percentage;
      min = dec 0 0;
      max = some (dec 100 0);
      editable = true;
    }
    ∷ record (entry "solis_modbus_inverter_tou_discharge_v2_battery_current_1" 43751 []) {
      multiplier = dec 1 1;
      unit = some other;
      min = dec 0 0;
      step = some (dec 1 1);
      editable = true;
    }
    ∷ record (entry "solis_modbus_inverter_tou_discharge_v2_cutoff_voltage_1" 43752 []) {
      multiplier = dec 1 1;
      unit = some other;
      min = dec 0 0;
      max = some (dec 300 0);
      step = some (dec 1 1);
      editable = true;
    }
    ∷ record (entry "solis_modbus_inverter_tou_discharge_start_hour_1" 43753 []) {
      multiplier = dec 0 0;
      unit = some other;
    }
    ∷ record (entry "solis_modbus_inverter_tou_discharge_start_minute_1" 43754 []) {
      multiplier = dec 0 0;
      unit = some other;
    }
    ∷ record (entry "solis_modbus_inverter_tou_discharge_end_hour_1" 43755 []) {
      multiplier = dec 0 0;
      unit = some other;
    }
    ∷ record (entry "solis_modbus_inverter_tou_discharge_end_minute_1" 43756 []) {
      multiplier = dec 0 0;
      unit = some other;
    }
    ∷ record (entry "solis_modbus_inverter_tou_charge_cutoff_discharge_2" 43757 []) {
      multiplier = dec 1 0;
      unit = some percentage;
      min = dec 0 0;
      max = some (dec 100 0);
      editable = true;
    }
    ∷ record (entry "solis_modbus_inverter_tou_discharge_v2_battery_current_2" 43758 []) {
      multiplier = dec 1 1;
      unit = some other;
      min = dec 0 0;
      step = some (dec 1 1);
      editable = true;
    }
    ∷ record (entry "solis_modbus_inverter_tou_discharge_v2_cutoff_voltage_2" 43759 []) {
      multiplier = dec 1 1;
      unit = some other;
      min = dec 0 0;
      max = some (dec 300 0);
      step = some (dec 1 1);
      editable = true;
    }
    ∷ record (entry "solis_modbus_inverter_tou_discharge_start_hour_2" 43760 []) {
      multiplier = dec 0 0;
      unit = some other;
    }
    ∷ record (entry "solis_modbus_inverter_tou_discharge_start_minute_2" 43761 []) {
      multiplier = dec 0 0;
      unit = some other;
    }
    ∷ []
