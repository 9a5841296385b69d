-- ===== src/Tables/Hybrid33580.antt =====
-- sensor_data/hybrid_sensors.py: groups of the hybrid inverters.
use hh_modbus.Base.{List, [], ◌∷◌, true, some}
use hh_modbus.Inverter.{DataType, InverterFeature, PollSpeed}
use hh_modbus.Sensors.{Entry, entry, dec, percentage, watt, other}
use hh_modbus.Tables.{GroupTable, group}

abbrev pub hybrid_33580 : GroupTable
hybrid_33580 = record (group 33580) {
  poll_speed = some PollSpeed.slow;
  entities =
      record (entry "solis_modbus_inverter_household_total_energy" 33580 (33581 ∷ [])) {
        multiplier = dec 0 0;
        data_type = some DataType.u32;
        unit = some other;
      }
      ∷ record (entry "solis_modbus_inverter_household_year_energy" 33582 (33583 ∷ [])) {
        multiplier = dec 0 0;
        data_type = some DataType.u32;
        unit = some other;
      }
      ∷ record (entry "solis_modbus_inverter_household_month_energy" 33584 (33585 ∷ [])) {
        multiplier = dec 1 0;
        data_type = some DataType.u32;
        unit = some other;
      }
      ∷ record (entry "solis_modbus_inverter_household_today_energy" 33586 []) {
        multiplier = dec 1 1;
        unit = some other;
      }
      ∷ entry "reserve" 33587 (33588 ∷ 33589 ∷ [])
      ∷ record (entry "solis_modbus_inverter_backup_total_energy" 33590 (33591 ∷ [])) {
        multiplier = dec 0 0;
        data_type = some DataType.u32;
        unit = some other;
      }
      ∷ record (entry "solis_modbus_inverter_backup_year_energy" 33592 (33593 ∷ [])) {
        multiplier = dec 0 0;
        data_type = some DataType.u32;
        unit = some other;
      }
      ∷ record (entry "solis_modbus_inverter_backup_month_energy" 33594 (33595 ∷ [])) {
        multiplier = dec 1 0;
        data_type = some DataType.u32;
        unit = some other;
      }
      ∷ record (entry "solis_modbus_inverter_backup_today_energy" 33596 []) {
        multiplier = dec 1 1;
        unit = some other;
      }
      ∷ [];
}

abbrev pub hybrid_34445 : GroupTable
hybrid_34445 = record (group 34445) {
  feature_requirement = InverterFeature.ac_coupling ∷ [];
  poll_speed = some PollSpeed.slow;
  entities =
      record (entry "solis_modbus_inverter_ac_coupling_total_power_generation" 34445 (34446 ∷ [])) {
        multiplier = dec 1 0;
        data_type = some DataType.u32;
        unit = some other;
      }
      ∷ record (entry "solis_modbus_inverter_ac_coupling_year_power_generation" 34447
          (34448 ∷ [])) { multiplier = dec 1 0; data_type = some DataType.u32; unit = some other }
      ∷ record (entry "solis_modbus_inverter_ac_coupling_month_power_generation" 34449
          (34450 ∷ [])) { multiplier = dec 1 0; data_type = some DataType.u32; unit = some other }
      ∷ record (entry "solis_modbus_inverter_ac_coupling_today_power_generation" 34451 []) {
        multiplier = dec 1 1;
        unit = some other;
      }
      ∷ record (entry "solis_modbus_inverter_ac_coupling_yesterday_power_generation" 34452 []) {
        multiplier = dec 1 1;
        unit = some other;
      }
      ∷ [];
}

abbrev pub hybrid_34496 : GroupTable
hybrid_34496 = record (group 34496) {
  feature_requirement = InverterFeature.ac_coupling ∷ [];
  poll_speed = some PollSpeed.fast;
  entities =
      record (entry "solis_modbus_inverter_ac_coupling_total_active_power" 34496 (34497 ∷ [])) {
        multiplier = dec 1 0;
        unit = some watt;
      }
      ∷ [];
}

abbrev pub hybrid_entries_43007 : List Entry
hybrid_entries_43007 =
    entry "solis_modbus_inverter_power_state" 43007 []
    ∷ entry "reserve" 43008 []
    ∷ record (entry "solis_modbus_inverter_battery_model" 43009 []) {
      multiplier = dec 1 0;
      hidden = true;
    }
    ∷ record (entry "solis_modbus_inverter_overcharge_soc" 43010 []) {
      multiplier = dec 1 0;
      unit = some percentage;
      min = dec 70 0;
      max = some (dec 100 0);
      step = some (dec 1 0);
      default = dec 90 0;
      editable = true;
    }
    ∷ record (entry "solis_modbus_inverter_overdischarge_soc" 43011 []) {
      multiplier = dec 1 0;
      unit = some percentage;
      min = dec 5 0;
      max = some (dec 40 0);
      step = some (dec 1 0);
      default = dec 20 0;
      editable = true;
    }
    ∷ record (entry "solis_modbus_inverter_max_charge_current" 43012 []) {
      multiplier = dec 1 1;
      unit = some other;
      min = dec 0 0;
      step = some (dec 1 1);
      default = dec 20 0;
      editable = true;
    }
    ∷ record (entry "solis_modbus_inverter_max_discharge_current" 43013 []) {
      multiplier = dec 1 1;
      unit = some other;
      min = dec 0 0;
      step = some (dec 1 1);
      default = dec 20 0;
      editable = true;
    }
    ∷ entry "reserve" 43014 (43015 ∷ [])
    ∷ record (entry "solis_modbus_inverter_floating_charge_voltage" 43016 []) {
      multiplier = dec 1 1;
      unit = some other;
      min = dec 40 0;
      max = some (dec 60 0);
      step = some (dec 1 1);
      default = dec 535 1;
      editable = true;
    }
    ∷ record (entry "solis_modbus_inverter_equalizing_charge_voltage" 43017 []) {
      multiplier = dec 1 1;
      unit = some other;
      min = dec 40 0;
      max = some (dec 60 0);
      step = some (dec 1 1);
      default = dec 56 0;
      editable = true;
    }
    ∷ record (entry "solis_modbus_inverter_force_charge_soc" 43018 []) {
      multiplier = dec 1 0;
      unit = some percentage;
      min = dec 0 0;
      max = some (dec 100 0);
      step = some (dec 1 0);
      default = dec 10 0;
      editable = true;
    }
    ∷ []
