-- ===== src/Tables/Hybrid43141.antt =====
-- sensor_data/hybrid_sensors.py: groups of the hybrid inverters.
use hh_modbus.Base.{List, [], ◌∷◌, ◌++◌, true, some}
use hh_modbus.Inverter.{PollSpeed}
use hh_modbus.Sensors.{Entry, entry, dec, other}
use hh_modbus.Tables.{GroupTable, group}

abbrev pub hybrid_entries_43141 : List Entry
hybrid_entries_43141 =
    record (entry "solis_modbus_inverter_time_charging_charge_current" 43141 []) {
      multiplier = dec 1 1;
      unit = some other;
      min = dec 0 0;
      step = some (dec 1 1);
      default = dec 50 0;
      editable = true;
    }
    ∷ record (entry "solis_modbus_inverter_time_charging_discharge_current" 43142 []) {
      multiplier = dec 1 1;
      unit = some other;
      min = dec 0 0;
      step = some (dec 1 1);
      default = dec 50 0;
      editable = true;
    }
    ∷ record (entry "solis_modbus_inverter_time_charging_start_hour_slot1" 43143 []) {
      multiplier = dec 0 0;
      unit = some other;
    }
    ∷ record (entry "solis_modbus_inverter_time_charging_start_minute_slot1" 43144 []) {
      multiplier = dec 0 0;
      unit = some other;
    }
    ∷ record (entry "solis_modbus_inverter_time_charging_end_hour_slot1" 43145 []) {
      multiplier = dec 0 0;
      unit = some other;
    }
    ∷ record (entry "solis_modbus_inverter_time_charging_end_minute_slot1" 43146 []) {
      multiplier = dec 0 0;
      unit = some other;
    }
    ∷ record (entry "solis_modbus_inverter_time_discharge_start_hour_slot1" 43147 []) {
      multiplier = dec 0 0;
      unit = some other;
    }
    ∷ record (entry "solis_modbus_inverter_time_discharge_start_minute_slot1" 43148 []) {
      multiplier = dec 0 0;
      unit = some other;
    }
    ∷ record (entry "solis_modbus_inverter_time_discharge_end_hour_slot1" 43149 []) {
      multiplier = dec 0 0;
      unit = some other;
    }
    ∷ record (entry "solis_modbus_inverter_time_discharge_end_minute_slot1" 43150 []) {
      multiplier = dec 0 0;
      unit = some other;
    }
    ∷ entry "reserve" 43151 (43152 ∷ [])
    ∷ record (entry "solis_modbus_inverter_time_charging_start_hour_slot2" 43153 []) {
      multiplier = dec 0 0;
      unit = some other;
    }
    ∷ record (entry "solis_modbus_inverter_time_charging_start_minute_slot2" 43154 []) {
      multiplier = dec 0 0;
      unit = some other;
    }
    ∷ record (entry "solis_modbus_inverter_time_charging_end_hour_slot2" 43155 []) {
      multiplier = dec 0 0;
      unit = some other;
    }
    ∷ record (entry "solis_modbus_inverter_time_charging_end_minute_slot2" 43156 []) {
      multiplier = dec 0 0;
      unit = some other;
    }
    ∷ []

abbrev pub hybrid_entries_43157 : List Entry
hybrid_entries_43157 =
    record (entry "solis_modbus_inverter_time_discharge_start_hour_slot2" 43157 []) {
      multiplier = dec 0 0;
      unit = some other;
    }
    ∷ record (entry "solis_modbus_inverter_time_discharge_start_minute_slot2" 43158 []) {
      multiplier = dec 0 0;
      unit = some other;
    }
    ∷ record (entry "solis_modbus_inverter_time_discharge_end_hour_slot2" 43159 []) {
      multiplier = dec 0 0;
      unit = some other;
    }
    ∷ record (entry "solis_modbus_inverter_time_discharge_end_minute_slot2" 43160 []) {
      multiplier = dec 0 0;
      unit = some other;
    }
    ∷ entry "reserve" 43161 (43162 ∷ [])
    ∷ record (entry "solis_modbus_inverter_time_charging_start_hour_slot3" 43163 []) {
      multiplier = dec 0 0;
      unit = some other;
    }
    ∷ record (entry "solis_modbus_inverter_time_charging_start_minute_slot3" 43164 []) {
      multiplier = dec 0 0;
      unit = some other;
    }
    ∷ record (entry "solis_modbus_inverter_time_charging_end_hour_slot3" 43165 []) {
      multiplier = dec 0 0;
      unit = some other;
    }
    ∷ record (entry "solis_modbus_inverter_time_charging_end_minute_slot3" 43166 []) {
      multiplier = dec 0 0;
      unit = some other;
    }
    ∷ record (entry "solis_modbus_inverter_time_discharge_start_hour_slot3" 43167 []) {
      multiplier = dec 0 0;
      unit = some other;
    }
    ∷ record (entry "solis_modbus_inverter_time_discharge_start_minute_slot3" 43168 []) {
      multiplier = dec 0 0;
      unit = some other;
    }
    ∷ record (entry "solis_modbus_inverter_time_discharge_end_hour_slot3" 43169 []) {
      multiplier = dec 0 0;
      unit = some other;
    }
    ∷ record (entry "solis_modbus_inverter_time_discharge_end_minute_slot3" 43170 []) {
      multiplier = dec 0 0;
      unit = some other;
    }
    ∷ []

abbrev pub hybrid_43141 : GroupTable
hybrid_43141 = record (group 43141) {
  poll_speed = some PollSpeed.slow;
  entities = hybrid_entries_43141 ++ hybrid_entries_43157;
}

abbrev pub hybrid_entries_43173 : List Entry
hybrid_entries_43173 =
    record (entry "solis_modbus_inverter_time_charging_start_hour_slot4" 43173 []) {
      multiplier = dec 0 0;
      unit = some other;
    }
    ∷ record (entry "solis_modbus_inverter_time_charging_start_minute_slot4" 43174 []) {
      multiplier = dec 0 0;
      unit = some other;
    }
    ∷ record (entry "solis_modbus_inverter_time_charging_end_hour_slot4" 43175 []) {
      multiplier = dec 0 0;
      unit = some other;
    }
    ∷ record (entry "solis_modbus_inverter_time_charging_end_minute_slot4" 43176 []) {
      multiplier = dec 0 0;
      unit = some other;
    }
    ∷ record (entry "solis_modbus_inverter_time_discharge_start_hour_slot4" 43177 []) {
      multiplier = dec 0 0;
      unit = some other;
    }
    ∷ record (entry "solis_modbus_inverter_time_discharge_start_minute_slot4" 43178 []) {
      multiplier = dec 0 0;
      unit = some other;
    }
    ∷ record (entry "solis_modbus_inverter_time_discharge_end_hour_slot4" 43179 []) {
      multiplier = dec 0 0;
      unit = some other;
    }
    ∷ record (entry "solis_modbus_inverter_time_discharge_end_minute_slot4" 43180 []) {
      multiplier = dec 0 0;
      unit = some other;
    }
    ∷ entry "reserve" 43181 (43182 ∷ [])
    ∷ record (entry "solis_modbus_inverter_time_charging_start_hour_slot5" 43183 []) {
      multiplier = dec 0 0;
      unit = some other;
    }
    ∷ record (entry "solis_modbus_inverter_time_charging_start_minute_slot5" 43184 []) {
      multiplier = dec 0 0;
      unit = some other;
    }
    ∷ record (entry "solis_modbus_inverter_time_charging_end_hour_slot5" 43185 []) {
      multiplier = dec 0 0;
      unit = some other;
    }
    ∷ record (entry "solis_modbus_inverter_time_charging_end_minute_slot5" 43186 []) {
      multiplier = dec 0 0;
      unit = some other;
    }
    ∷ record (entry "solis_modbus_inverter_time_discharge_start_hour_slot5" 43187 []) {
      multiplier = dec 0 0;
      unit = some other;
    }
    ∷ record (entry "solis_modbus_inverter_time_discharge_start_minute_slot5" 43188 []) {
      multiplier = dec 0 0;
      unit = some other;
    }
    ∷ record (entry "solis_modbus_inverter_time_discharge_end_hour_slot5" 43189 []) {
      multiplier = dec 0 0;
      unit = some other;
    }
    ∷ record (entry "solis_modbus_inverter_time_discharge_end_minute_slot5" 43190 []) {
      multiplier = dec 0 0;
      unit = some other;
    }
    ∷ []

abbrev pub hybrid_43173 : GroupTable
hybrid_43173 = record (group 43173) {
  poll_speed = some PollSpeed.slow;
  entities = hybrid_entries_43173;
}
