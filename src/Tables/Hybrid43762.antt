-- ===== src/Tables/Hybrid43762.antt =====
-- sensor_data/hybrid_sensors.py: groups of the hybrid inverters.
use hh_modbus.Base.{List, [], ◌∷◌, ◌++◌, true, some}
use hh_modbus.Tables.Hybrid43731.{hybrid_entries_43750}
use hh_modbus.Inverter.{PollSpeed}
use hh_modbus.Sensors.{Entry, entry, dec, percentage, other}
use hh_modbus.Tables.{GroupTable, group}

abbrev pub hybrid_entries_43762 : List Entry
hybrid_entries_43762 =
    record (entry "solis_modbus_inverter_tou_discharge_end_hour_2" 43762 []) {
      multiplier = dec 0 0;
      unit = some other;
    }
    ∷ record (entry "solis_modbus_inverter_tou_discharge_end_minute_2" 43763 []) {
      multiplier = dec 0 0;
      unit = some other;
    }
    ∷ record (entry "solis_modbus_inverter_tou_charge_cutoff_discharge_3" 43764 []) {
      multiplier = dec 1 0;
      unit = some percentage;
      min = dec 0 0;
      max = some (dec 100 0);
      editable = true;
    }
    ∷ record (entry "solis_modbus_inverter_tou_discharge_v2_battery_current_3" 43765 []) {
      multiplier = dec 1 1;
      unit = some other;
      min = dec 0 0;
      step = some (dec 1 1);
      editable = true;
    }
    ∷ record (entry "solis_modbus_inverter_tou_discharge_v2_cutoff_voltage_3" 43766 []) {
      multiplier = dec 1 1;
      unit = some other;
      min = dec 0 0;
      max = some (dec 300 0);
      step = some (dec 1 1);
      editable = true;
    }
    ∷ record (entry "solis_modbus_inverter_tou_discharge_start_hour_3" 43767 []) {
      multiplier = dec 0 0;
      unit = some other;
    }
    ∷ record (entry "solis_modbus_inverter_tou_discharge_start_minute_3" 43768 []) {
      multiplier = dec 0 0;
      unit = some other;
    }
    ∷ record (entry "solis_modbus_inverter_tou_discharge_end_hour_3" 43769 []) {
      multiplier = dec 0 0;
      unit = some other;
    }
    ∷ record (entry "solis_modbus_inverter_tou_discharge_end_minute_3" 43770 []) {
      multiplier = dec 0 0;
      unit = some other;
    }
    ∷ record (entry "solis_modbus_inverter_tou_charge_cutoff_discharge_4" 43771 []) {
      multiplier = dec 1 0;
      unit = some percentage;
      min = dec 0 0;
      max = some (dec 100 0);
      editable = true;
    }
    ∷ record (entry "solis_modbus_inverter_tou_discharge_v2_battery_current_4" 43772 []) {
      multiplier = dec 1 1;
      unit = some other;
      min = dec 0 0;
      step = some (dec 1 1);
      editable = true;
    }
    ∷ record (entry "solis_modbus_inverter_tou_discharge_v2_cutoff_voltage_4" 43773 []) {
      multiplier = dec 1 1;
      unit = some other;
      min = dec 0 0;
      max = some (dec 300 0);
      step = some (dec 1 1);
      editable = true;
    }
    ∷ []

abbrev pub hybrid_entries_43774 : List Entry
hybrid_entries_43774 =
    record (entry "solis_modbus_inverter_tou_discharge_start_hour_4" 43774 []) {
      multiplier = dec 0 0;
      unit = some other;
    }
    ∷ record (entry "solis_modbus_inverter_tou_discharge_start_minute_4" 43775 []) {
      multiplier = dec 0 0;
      unit = some other;
    }
    ∷ record (entry "solis_modbus_inverter_tou_discharge_end_hour_4" 43776 []) {
      multiplier = dec 0 0;
      unit = some other;
    }
    ∷ record (entry "solis_modbus_inverter_tou_discharge_end_minute_4" 43777 []) {
      multiplier = dec 0 0;
      unit = some other;
    }
    ∷ record (entry "solis_modbus_inverter_tou_charge_cutoff_discharge_5" 43778 []) {
      multiplier = dec 1 0;
      unit = some percentage;
      min = dec 0 0;
      max = some (dec 100 0);
      editable = true;
    }
    ∷ record (entry "solis_modbus_inverter_tou_discharge_v2_battery_current_5" 43779 []) {
      multiplier = dec 1 1;
      unit = some other;
      min = dec 0 0;
      step = some (dec 1 1);
      editable = true;
    }
    ∷ record (entry "solis_modbus_inverter_tou_discharge_v2_cutoff_voltage_5" 43780 []) {
      multiplier = dec 1 1;
      unit = some other;
      min = dec 0 0;
      max = some (dec 300 0);
      step = some (dec 1 1);
      editable = true;
    }
    ∷ record (entry "solis_modbus_inverter_tou_discharge_start_hour_5" 43781 []) {
      multiplier = dec 0 0;
      unit = some other;
    }
    ∷ record (entry "solis_modbus_inverter_tou_discharge_start_minute_5" 43782 []) {
      multiplier = dec 0 0;
      unit = some other;
    }
    ∷ record (entry "solis_modbus_inverter_tou_discharge_end_hour_5" 43783 []) {
      multiplier = dec 0 0;
      unit = some other;
    }
    ∷ record (entry "solis_modbus_inverter_tou_discharge_end_minute_5" 43784 []) {
      multiplier = dec 0 0;
      unit = some other;
    }
    ∷ record (entry "solis_modbus_inverter_tou_charge_cutoff_discharge_6" 43785 []) {
      multiplier = dec 1 0;
      unit = some percentage;
      min = dec 0 0;
      max = some (dec 100 0);
      editable = true;
    }
    ∷ record (entry "solis_modbus_inverter_tou_discharge_v2_battery_current_6" 43786 []) {
      multiplier = dec 1 1;
      unit = some other;
      min = dec 0 0;
      step = some (dec 1 1);
      editable = true;
    }
    ∷ []

abbrev pub hybrid_entries_43787 : List Entry
hybrid_entries_43787 =
    record (entry "solis_modbus_inverter_tou_discharge_v2_cutoff_voltage_6" 43787 []) {
      multiplier = dec 1 1;
      unit = some other;
      min = dec 0 0;
      max = some (dec 300 0);
      step = some (dec 1 1);
      editable = true;
    }
    ∷ record (entry "solis_modbus_inverter_tou_discharge_start_hour_6" 43788 []) {
      multiplier = dec 0 0;
      unit = some other;
    }
    ∷ record (entry "solis_modbus_inverter_tou_discharge_start_minute_6" 43789 []) {
      multiplier = dec 0 0;
      unit = some other;
    }
    ∷ record (entry "solis_modbus_inverter_tou_discharge_end_hour_6" 43790 []) {
      multiplier = dec 0 0;
      unit = some other;
    }
    ∷ record (entry "solis_modbus_inverter_tou_discharge_end_minute_6" 43791 []) {
      multiplier = dec 0 0;
      unit = some other;
    }
    ∷ []

abbrev pub hybrid_43750 : GroupTable
hybrid_43750 = record (group 43750) {
  poll_speed = some PollSpeed.slow;
  entities =
      hybrid_entries_43750 ++ hybrid_entries_43762 ++ hybrid_entries_43774 ++ hybrid_entries_43787;
}

abbrev pub hybrid_43815 : GroupTable
hybrid_43815 = record (group 43815) {
  poll_speed = some PollSpeed.slow;
  entities =
      record (entry "solis_modbus_inverter_generator_chargin_switch" 43815 []) {
        multiplier = dec 1 0;
        hidden = true;
      }
      ∷ [];
}

abbrev pub hybrid_43340 : GroupTable
hybrid_43340 = record (group 43340) {
  entities =
      record (entry "solis_modbus_inverter_generator_enablement_switch" 43340 []) {
        multiplier = dec 1 0;
        hidden = true;
      }
      ∷ [];
}
