-- ===== src/Tables/Sigenergy30000.antt =====
-- sensor_data/sigenergy_sensors.py: groups of the Sigenergy plant.
use hh_modbus.Base.{List, [], ◌∷◌, ◌++◌, true, some}
use hh_modbus.Inverter.{DataType, PollSpeed}
use hh_modbus.Groups.{RegisterType}
use hh_modbus.Sensors.{Entry, entry, dec, percentage, kilo_watt, other}
use hh_modbus.Tables.{GroupTable, group}

abbrev pub sigenergy_30000 : GroupTable
sigenergy_30000 = record (group 30000) {
  poll_speed = some PollSpeed.normal;
  register_type = some RegisterType.holding;
  entities =
      record (entry "sigenergy_plant_system_time" 30000 (30001 ∷ [])) {
        multiplier = dec 1 0;
        unit = some other;
        hidden = true;
      }
      ∷ record (entry "sigenergy_plant_timezone_offset" 30002 []) {
        multiplier = dec 1 0;
        data_type = some DataType.s16;
        unit = some other;
        hidden = true;
      }
      ∷ record (entry "sigenergy_plant_ems_work_mode" 30003 []) { multiplier = dec 0 0 }
      ∷ record (entry "sigenergy_plant_grid_sensor_status" 30004 []) { multiplier = dec 0 0 }
      ∷ record (entry "sigenergy_plant_grid_active_power" 30005 (30006 ∷ [])) {
        multiplier = dec 1 3;
        data_type = some DataType.s32;
        unit = some kilo_watt;
      }
      ∷ record (entry "sigenergy_plant_grid_reactive_power" 30007 (30008 ∷ [])) {
        multiplier = dec 1 3;
        data_type = some DataType.s32;
        unit = some other;
        hidden = true;
      }
      ∷ record (entry "sigenergy_plant_on_off_grid_status" 30009 []) { multiplier = dec 0 0 }
      ∷ record (entry "sigenergy_plant_max_active_power" 30010 (30011 ∷ [])) {
        multiplier = dec 1 3;
        unit = some kilo_watt;
        hidden = true;
      }
      ∷ record (entry "sigenergy_plant_max_apparent_power" 30012 (30013 ∷ [])) {
        multiplier = dec 1 3;
        hidden = true;
      }
      ∷ record (entry "sigenergy_plant_ess_soc" 30014 []) {
        multiplier = dec 1 1;
        unit = some percentage;
      }
      ∷ [];
}

abbrev pub sigenergy_entries_30015 : List Entry
sigenergy_entries_30015 =
    record (entry "sigenergy_plant_phase_a_active_power" 30015 (30016 ∷ [])) {
      multiplier = dec 1 3;
      data_type = some DataType.s32;
      unit = some kilo_watt;
    }
    ∷ record (entry "sigenergy_plant_phase_b_active_power" 30017 (30018 ∷ [])) {
      multiplier = dec 1 3;
      data_type = some DataType.s32;
      unit = some kilo_watt;
    }
    ∷ record (entry "sigenergy_plant_phase_c_active_power" 30019 (30020 ∷ [])) {
      multiplier = dec 1 3;
      data_type = some DataType.s32;
      unit = some kilo_watt;
    }
    ∷ record (entry "sigenergy_plant_phase_a_reactive_power" 30021 (30022 ∷ [])) {
      multiplier = dec 1 3;
      data_type = some DataType.s32;
      unit = some other;
      hidden = true;
    }
    ∷ record (entry "sigenergy_plant_phase_b_reactive_power" 30023 (30024 ∷ [])) {
      multiplier = dec 1 3;
      data_type = some DataType.s32;
      unit = some other;
      hidden = true;
    }
    ∷ record (entry "sigenergy_plant_phase_c_reactive_power" 30025 (30026 ∷ [])) {
      multiplier = dec 1 3;
      data_type = some DataType.s32;
      unit = some other;
      hidden = true;
    }
    ∷ record (entry "sigenergy_plant_general_alarm_1" 30027 []) {
      multiplier = dec 0 0;
      hidden = true;
    }
    ∷ record (entry "sigenergy_plant_general_alarm_2" 30028 []) {
      multiplier = dec 0 0;
      hidden = true;
    }
    ∷ record (entry "sigenergy_plant_general_alarm_3" 30029 []) {
      multiplier = dec 0 0;
      hidden = true;
    }
    ∷ record (entry "sigenergy_plant_general_alarm_4" 30030 []) {
      multiplier = dec 0 0;
      hidden = true;
    }
    ∷ record (entry "sigenergy_plant_active_power" 30031 (30032 ∷ [])) {
      multiplier = dec 1 3;
      data_type = some DataType.s32;
      unit = some kilo_watt;
    }
    ∷ record (entry "sigenergy_plant_reactive_power" 30033 (30034 ∷ [])) {
      multiplier = dec 1 3;
      data_type = some DataType.s32;
      unit = some other;
      hidden = true;
    }
    ∷ record (entry "sigenergy_plant_pv_power" 30035 (30036 ∷ [])) {
      multiplier = dec 1 3;
      data_type = some DataType.s32;
      unit = some kilo_watt;
    }
    ∷ []

abbrev pub sigenergy_entries_30037 : List Entry
sigenergy_entries_30037 =
    record (entry "sigenergy_plant_ess_power" 30037 (30038 ∷ [])) {
      multiplier = dec 1 3;
      data_type = some DataType.s32;
      unit = some kilo_watt;
    }
    ∷ record (entry "sigenergy_plant_avail_max_active_power" 30039 (30040 ∷ [])) {
      multiplier = dec 1 3;
      unit = some kilo_watt;
      hidden = true;
    }
    ∷ record (entry "sigenergy_plant_avail_min_active_power" 30041 (30042 ∷ [])) {
      multiplier = dec 1 3;
      data_type = some DataType.s32;
      unit = some kilo_watt;
      hidden = true;
    }
    ∷ record (entry "sigenergy_reserve_30043" 30043 []) { multiplier = dec 0 0; hidden = true }
    ∷ record (entry "sigenergy_reserve_30044" 30044 []) { multiplier = dec 0 0; hidden = true }
    ∷ record (entry "sigenergy_reserve_30045" 30045 []) { multiplier = dec 0 0; hidden = true }
    ∷ record (entry "sigenergy_reserve_30046" 30046 []) { multiplier = dec 0 0; hidden = true }
    ∷ record (entry "sigenergy_plant_max_charging_power" 30047 (30048 ∷ [])) {
      multiplier = dec 1 3;
      unit = some kilo_watt;
    }
    ∷ record (entry "sigenergy_plant_max_discharging_power" 30049 (30050 ∷ [])) {
      multiplier = dec 1 3;
      unit = some kilo_watt;
    }
    ∷ record (entry "sigenergy_plant_running_state" 30051 []) { multiplier = dec 0 0 }
    ∷ []

abbrev pub sigenergy_30015 : GroupTable
sigenergy_30015 = record (group 30015) {
  poll_speed = some PollSpeed.normal;
  register_type = some RegisterType.holding;
  entities = sigenergy_entries_30015 ++ sigenergy_entries_30037;
}

abbrev pub sigenergy_entries_30064 : List Entry
sigenergy_entries_30064 =
    record (entry "sigenergy_plant_max_charging_capacity" 30064 (30065 ∷ [])) {
      multiplier = dec 1 2;
      unit = some other;
      hidden = true;
    }
    ∷ record (entry "sigenergy_plant_max_discharging_capacity" 30066 (30067 ∷ [])) {
      multiplier = dec 1 2;
      unit = some other;
      hidden = true;
    }
    ∷ record (entry "sigenergy_plant_rated_charging_power" 30068 (30069 ∷ [])) {
      multiplier = dec 1 3;
      unit = some kilo_watt;
      hidden = true;
    }
    ∷ record (entry "sigenergy_plant_rated_discharging_power" 30070 (30071 ∷ [])) {
      multiplier = dec 1 3;
      unit = some kilo_watt;
      hidden = true;
    }
    ∷ record (entry "sigenergy_reserve_30072" 30072 []) { multiplier = dec 0 0; hidden = true }
    ∷ record (entry "sigenergy_reserve_30073" 30073 []) { multiplier = dec 0 0; hidden = true }
    ∷ record (entry "sigenergy_reserve_30074" 30074 []) { multiplier = dec 0 0; hidden = true }
    ∷ record (entry "sigenergy_reserve_30075" 30075 []) { multiplier = dec 0 0; hidden = true }
    ∷ record (entry "sigenergy_reserve_30076" 30076 []) { multiplier = dec 0 0; hidden = true }
    ∷ record (entry "sigenergy_reserve_30077" 30077 []) { multiplier = dec 0 0; hidden = true }
    ∷ record (entry "sigenergy_reserve_30078" 30078 []) { multiplier = dec 0 0; hidden = true }
    ∷ record (entry "sigenergy_reserve_30079" 30079 []) { multiplier = dec 0 0; hidden = true }
    ∷ record (entry "sigenergy_reserve_30080" 30080 []) { multiplier = dec 0 0; hidden = true }
    ∷ record (entry "sigenergy_reserve_30081" 30081 []) { multiplier = dec 0 0; hidden = true }
    ∷ record (entry "sigenergy_reserve_30082" 30082 []) { multiplier = dec 0 0; hidden = true }
    ∷ record (entry "sigenergy_plant_rated_energy_capacity" 30083 (30084 ∷ [])) {
      multiplier = dec 1 2;
      unit = some other;
    }
    ∷ record (entry "sigenergy_plant_charge_cutoff_soc" 30085 []) {
      multiplier = dec 1 1;
      unit = some percentage;
    }
    ∷ []
