-- ===== src/Tables/Hybrid43019.antt =====
-- sensor_data/hybrid_sensors.py: groups of the hybrid inverters.
use hh_modbus.Base.{List, [], ◌∷◌, ◌++◌, true, false, some}
use hh_modbus.Tables.Hybrid33580.{hybrid_entries_43007}
use hh_modbus.Base.Int.{negsuc}
use hh_modbus.Inverter.{DataType, PollSpeed}
use hh_modbus.Sensors.{Entry, entry, dec, percentage, watt, other, inverter_rating}
use hh_modbus.Tables.{GroupTable, group}

abbrev pub hybrid_entries_43019 : List Entry
hybrid_entries_43019 =
    record (entry "solis_modbus_inverter_battery_rated_capacity" 43019 []) {
      multiplier = dec 1 0;
      unit = some other;
      min = dec 50 0;
      max = some (dec 9999 0);
      step = some (dec 1 0);
      default = dec 200 0;
      editable = true;
      registry_visible = false;
    }
    ∷ record (entry "solis_modbus_inverter_overdischarge_voltage" 43020 []) {
      multiplier = dec 1 1;
      unit = some other;
      min = dec 40 0;
      max = some (dec 60 0);
      step = some (dec 1 1);
      default = dec 56 0;
      editable = true;
      registry_visible = false;
    }
    ∷ record (entry "solis_modbus_inverter_forcecharge_voltage" 43021 []) {
      multiplier = dec 1 1;
      unit = some other;
      min = dec 40 0;
      max = some (dec 50 0);
      step = some (dec 1 1);
      default = dec 48 0;
      editable = true;
      registry_visible = false;
    }
    ∷ entry "reserve" 43022 (43023 ∷ [])
    ∷ record (entry "solis_modbus_inverter_backup_soc" 43024 []) {
      multiplier = dec 1 0;
      unit = some percentage;
      min = dec 0 0;
      max = some (dec 100 0);
      step = some (dec 1 0);
      default = dec 80 0;
      editable = true;
    }
    ∷ entry "reserve" 43025 (43026 ∷ [])
    ∷ record (entry "solis_modbus_inverter_battery_force_charge_limit" 43027 []) {
      multiplier = dec 10 0;
      unit = some watt;
      min = dec 0 0;
      max_source = some inverter_rating;
      default = dec 3000 0;
      editable = true;
    }
    ∷ record (entry "solis_modbus_inverter_battery_force_charge_source" 43028 []) {
      multiplier = dec 0 0;
    }
    ∷ []

abbrev pub hybrid_43007 : GroupTable
hybrid_43007 = record (group 43007) {
  poll_speed = some PollSpeed.normal;
  entities = hybrid_entries_43007 ++ hybrid_entries_43019;
}

abbrev pub hybrid_43073 : GroupTable
hybrid_43073 = record (group 43073) {
  poll_speed = some PollSpeed.slow;
  entities =
      record (entry "solis_modbus_inverter_grid_feed_in_switch_value" 43073 []) {
        multiplier = dec 1 0;
        hidden = true;
      }
      ∷ record (entry "solis_modbus_inverter_backflow_power" 43074 []) {
        multiplier = dec 100 0;
        unit = some watt;
        min = dec 0 0;
        max = some (dec 20000 0);
        step = some (dec 1 0);
        default = dec 0 0;
        editable = true;
      }
      ∷ [];
}

abbrev pub hybrid_43195 : GroupTable
hybrid_43195 = record (group 43195) {
  poll_speed = some PollSpeed.slow;
  entities =
      record (entry "solis_modbus_inverter_export_calibration" 43195 []) {
        multiplier = dec 1 0;
        data_type = some DataType.s16;
        unit = some watt;
        min = record { mantissa = negsuc 999; exponent = 0 };
        max = some (dec 1000 0);
        step = some (dec 1 0);
        default = dec 0 0;
        editable = true;
      }
      ∷ [];
}

abbrev pub hybrid_entries_43128 : List Entry
hybrid_entries_43128 =
    record (entry "solis_modbus_inverter_rc_inverter_ac_grid_active_power" 43128 []) {
      multiplier = dec 10 0;
      data_type = some DataType.s16;
      unit = some watt;
      min = record { mantissa = negsuc 9999; exponent = 0 };
      max_source = some inverter_rating;
      step = some (dec 10 0);
      default = dec 0 0;
      editable = true;
    }
    ∷ record (entry "solis_modbus_inverter_rc_force_discharge_power" 43129 []) {
      multiplier = dec 10 0;
      unit = some watt;
      min = dec 0 0;
      max_source = some inverter_rating;
      default = dec 1500 0;
      editable = true;
      registry_visible = false;
    }
    ∷ record (entry "solis_modbus_inverter_battery_charge_limit_power" 43130 []) {
      multiplier = dec 10 0;
      unit = some watt;
      min = dec 0 0;
      max_source = some inverter_rating;
      default = dec 1500 0;
      editable = true;
      registry_visible = false;
    }
    ∷ record (entry "solis_modbus_inverter_battery_discharge_limit_power" 43131 []) {
      multiplier = dec 10 0;
      unit = some watt;
      min = dec 0 0;
      max_source = some inverter_rating;
      default = dec 1500 0;
      editable = true;
      registry_visible = false;
    }
    ∷ record (entry "solis_modbus_inverter_rc_grid_adjustment" 43132 []) {
      multiplier = dec 1 0;
      hidden = true;
    }
    ∷ record (entry "solis_modbus_inverter_rc_grid_active_power" 43133 []) {
      multiplier = dec 10 0;
      data_type = some DataType.s16;
      unit = some watt;
      min = record { mantissa = negsuc 9999; exponent = 0 };
      max_source = some inverter_rating;
      step = some (dec 10 0);
      default = dec 0 0;
      editable = true;
    }
    ∷ record (entry "solis_modbus_inverter_rc_grid_reactive_power" 43134 []) {
      multiplier = dec 10 0;
      data_type = some DataType.s16;
      unit = some other;
      min = record { mantissa = negsuc 9999; exponent = 0 };
      max_source = some inverter_rating;
      step = some (dec 10 0);
      default = dec 0 0;
      editable = true;
    }
    ∷ record (entry "solis_modbus_inverter_rc_force_charge_discharge" 43135 []) {
      multiplier = dec 1 0;
      hidden = true;
    }
    ∷ []

abbrev pub hybrid_entries_43136 : List Entry
hybrid_entries_43136 =
    record (entry "solis_modbus_inverter_rc_force_charge_power" 43136 []) {
      multiplier = dec 10 0;
      unit = some watt;
      min = dec 0 0;
      max_source = some inverter_rating;
      default = dec 1500 0;
      editable = true;
      registry_visible = false;
    }
    ∷ record (entry "solis_modbus_inverter_overdischarge_offgrid_soc" 43137 []) {
      multiplier = dec 1 0;
      unit = some percentage;
      min = dec 10 0;
      max = some (dec 100 0);
      default = dec 10 0;
      editable = true;
    }
    ∷ []

abbrev pub hybrid_43128 : GroupTable
hybrid_43128 = record (group 43128) {
  poll_speed = some PollSpeed.slow;
  entities = hybrid_entries_43128 ++ hybrid_entries_43136;
}
