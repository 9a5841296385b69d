-- ===== src/Tables/Hybrid43361.antt =====
-- sensor_data/hybrid_sensors.py: groups of the hybrid inverters.
use hh_modbus.Base.{List, [], ◌∷◌, true, some}
use hh_modbus.Inverter.{PollSpeed}
use hh_modbus.Sensors.{Entry, entry, dec, percentage, kilo_watt, other}
use hh_modbus.Tables.{GroupTable, group}

abbrev pub hybrid_43361 : GroupTable
hybrid_43361 = record (group 43361) {
  poll_speed = some PollSpeed.slow;
  entities =
      record (entry "solis_modbus_inverter_mppt_scanning_interval" 43361 []) {
        multiplier = dec 1 0;
        unit = some other;
        min = dec 600 0;
        max = some (dec 10800 0);
        editable = true;
      }
      ∷ entry "reserve" 43362 []
      ∷ record (entry "solis_modbus_inverter_generator_forced_start" 43363 []) {
        multiplier = dec 1 0;
      }
      ∷ record (entry "solis_modbus_inverter_generator_rated_input_power" 43364 []) {
        multiplier = dec 1 1;
        unit = some kilo_watt;
        min = dec 0 0;
        max = some (dec 100 0);
        editable = true;
      }
      ∷ record (entry "solis_modbus_inverter_generator_setting_switch" 43365 []) {
        multiplier = dec 1 0;
      }
      ∷ record (entry "solis_modbus_inverter_generator_forced_stop" 43366 []) {
        multiplier = dec 1 0;
      }
      ∷ record (entry "solis_modbus_inverter_generator_allowed_percentage" 43367 []) {
        multiplier = dec 1 0;
        unit = some percentage;
        min = dec 1 2;
        max = some (dec 100 0);
        default = dec 100 0;
        editable = true;
      }
      ∷ record (entry "solis_modbus_inverter_generator_target_power" 43368 []) {
        multiplier = dec 1 1;
        unit = some kilo_watt;
        min = dec 0 0;
        max = some (dec 100 0);
        default = dec 90 0;
        editable = true;
      }
      ∷ record (entry "solis_modbus_inverter_generator_charging_power" 43369 []) {
        multiplier = dec 1 1;
        unit = some kilo_watt;
        min = dec 0 0;
        max = some (dec 100 0);
        editable = true;
      }
      ∷ [];
}

abbrev pub hybrid_entries_43707 : List Entry
hybrid_entries_43707 =
    entry "solis_modbus_inverter_tou_v2_switch" 43707 []
    ∷ record (entry "solis_modbus_inverter_tou_charge_cutoff_charge_1" 43708 []) {
      multiplier = dec 1 0;
      unit = some percentage;
      min = dec 0 0;
      max = some (dec 100 0);
      editable = true;
    }
    ∷ record (entry "solis_modbus_inverter_tou_charge_v2_battery_current_1" 43709 []) {
      multiplier = dec 1 1;
      unit = some other;
      min = dec 0 0;
      step = some (dec 1 1);
      editable = true;
    }
    ∷ record (entry "solis_modbus_inverter_tou_charge_v2_cutoff_voltage_1" 43710 []) {
      multiplier = dec 1 1;
      unit = some other;
      min = dec 0 0;
      max = some (dec 300 0);
      step = some (dec 1 1);
      editable = true;
    }
    ∷ record (entry "solis_modbus_inverter_tou_charge_start_hour_1" 43711 []) {
      multiplier = dec 0 0;
      unit = some other;
    }
    ∷ record (entry "solis_modbus_inverter_tou_charge_start_minute_1" 43712 []) {
      multiplier = dec 0 0;
      unit = some other;
    }
    ∷ record (entry "solis_modbus_inverter_tou_charge_end_hour_1" 43713 []) {
      multiplier = dec 0 0;
      unit = some other;
    }
    ∷ record (entry "solis_modbus_inverter_tou_charge_end_minute_1" 43714 []) {
      multiplier = dec 0 0;
      unit = some other;
    }
    ∷ record (entry "solis_modbus_inverter_tou_charge_cutoff_charge_2" 43715 []) {
      multiplier = dec 1 0;
      unit = some percentage;
      min = dec 0 0;
      max = some (dec 100 0);
      editable = true;
    }
    ∷ record (entry "solis_modbus_inverter_tou_charge_v2_battery_current_2" 43716 []) {
      multiplier = dec 1 1;
      unit = some other;
      min = dec 0 0;
      step = some (dec 1 1);
      editable = true;
    }
    ∷ record (entry "solis_modbus_inverter_tou_charge_v2_cutoff_voltage_2" 43717 []) {
      multiplier = dec 1 1;
      unit = some other;
      min = dec 0 0;
      max = some (dec 300 0);
      step = some (dec 1 1);
      editable = true;
    }
    ∷ record (entry "solis_modbus_inverter_tou_charge_start_hour_2" 43718 []) {
      multiplier = dec 0 0;
      unit = some other;
    }
    ∷ []

abbrev pub hybrid_entries_43719 : List Entry
hybrid_entries_43719 =
    record (entry "solis_modbus_inverter_tou_charge_start_minute_2" 43719 []) {
      multiplier = dec 0 0;
      unit = some other;
    }
    ∷ record (entry "solis_modbus_inverter_tou_charge_end_hour_2" 43720 []) {
      multiplier = dec 0 0;
      unit = some other;
    }
    ∷ record (entry "solis_modbus_inverter_tou_charge_end_minute_2" 43721 []) {
      multiplier = dec 0 0;
      unit = some other;
    }
    ∷ record (entry "solis_modbus_inverter_tou_charge_cutoff_charge_3" 43722 []) {
      multiplier = dec 1 0;
      unit = some percentage;
      min = dec 0 0;
      max = some (dec 100 0);
      editable = true;
    }
    ∷ record (entry "solis_modbus_inverter_tou_charge_v2_battery_current_3" 43723 []) {
      multiplier = dec 1 1;
      unit = some other;
      min = dec 0 0;
      step = some (dec 1 1);
      editable = true;
    }
    ∷ record (entry "solis_modbus_inverter_tou_charge_v2_cutoff_voltage_3" 43724 []) {
      multiplier = dec 1 1;
      unit = some other;
      min = dec 0 0;
      max = some (dec 300 0);
      step = some (dec 1 1);
      editable = true;
    }
    ∷ record (entry "solis_modbus_inverter_tou_charge_start_hour_3" 43725 []) {
      multiplier = dec 0 0;
      unit = some other;
    }
    ∷ record (entry "solis_modbus_inverter_tou_charge_start_minute_3" 43726 []) {
      multiplier = dec 0 0;
      unit = some other;
    }
    ∷ record (entry "solis_modbus_inverter_tou_charge_end_hour_3" 43727 []) {
      multiplier = dec 0 0;
      unit = some other;
    }
    ∷ record (entry "solis_modbus_inverter_tou_charge_end_minute_3" 43728 []) {
      multiplier = dec 0 0;
      unit = some other;
    }
    ∷ record (entry "solis_modbus_inverter_tou_charge_cutoff_charge_4" 43729 []) {
      multiplier = dec 1 0;
      unit = some percentage;
      min = dec 0 0;
      max = some (dec 100 0);
      editable = true;
    }
    ∷ record (entry "solis_modbus_inverter_tou_charge_v2_battery_current_4" 43730 []) {
      multiplier = dec 1 1;
      unit = some other;
      min = dec 0 0;
      step = some (dec 1 1);
      editable = true;
    }
    ∷ []
