-- ===== src/Tables/SunsynkHolding16.antt =====
-- sensor_data/sunsynk_single_phase.py: holding registers of the Sunsynk inverters.
use hh_modbus.Base.{List, [], ◌∷◌, ◌++◌, true, some}
use hh_modbus.Inverter.{PollSpeed}
use hh_modbus.Groups.{RegisterType}
use hh_modbus.Sensors.{Entry, entry, dec, percentage, watt, other}
use hh_modbus.Tables.{GroupTable, group}

abbrev pub sunsynk_holding_16 : GroupTable
sunsynk_holding_16 = record (group 16) {
  poll_speed = some PollSpeed.once;
  register_type = some RegisterType.holding;
  entities =
      record (entry "sunsynk_rated_power" 16 (17 ∷ [])) { multiplier = dec 1 1; unit = some watt }
      ∷ [];
}

abbrev pub sunsynk_holding_43 : GroupTable
sunsynk_holding_43 = record (group 43) {
  poll_speed = some PollSpeed.slow;
  register_type = some RegisterType.holding;
  entities =
      record (entry "sunsynk_inverter_enabled" 43 []) {
        multiplier = dec 0 0;
        min = dec 0 0;
        max = some (dec 1 0);
        editable = true;
      }
      ∷ [];
}

abbrev pub sunsynk_holding_53 : GroupTable
sunsynk_holding_53 = record (group 53) {
  poll_speed = some PollSpeed.slow;
  register_type = some RegisterType.holding;
  entities =
      record (entry "sunsynk_max_solar_power" 53 []) {
        multiplier = dec 1 0;
        unit = some watt;
        min = dec 0 0;
        max = some (dec 5000 0);
        editable = true;
      }
      ∷ [];
}

abbrev pub sunsynk_holding_200 : GroupTable
sunsynk_holding_200 = record (group 200) {
  poll_speed = some PollSpeed.slow;
  register_type = some RegisterType.holding;
  entities =
      record (entry "sunsynk_control_mode" 200 []) { multiplier = dec 0 0 }
      ∷ record (entry "sunsynk_battery_equalization_voltage" 201 []) {
        multiplier = dec 1 2;
        unit = some other;
        min = dec 41 0;
        max = some (dec 60 0);
        editable = true;
      }
      ∷ record (entry "sunsynk_battery_absorption_voltage" 202 []) {
        multiplier = dec 1 2;
        unit = some other;
        min = dec 41 0;
        max = some (dec 60 0);
        editable = true;
      }
      ∷ record (entry "sunsynk_battery_float_voltage" 203 []) {
        multiplier = dec 1 2;
        unit = some other;
        min = dec 41 0;
        max = some (dec 60 0);
        editable = true;
      }
      ∷ record (entry "sunsynk_reserve_204" 204 []) { multiplier = dec 0 0; hidden = true }
      ∷ record (entry "sunsynk_reserve_205" 205 []) { multiplier = dec 0 0; hidden = true }
      ∷ record (entry "sunsynk_reserve_206" 206 []) { multiplier = dec 0 0; hidden = true }
      ∷ record (entry "sunsynk_reserve_207" 207 []) { multiplier = dec 0 0; hidden = true }
      ∷ record (entry "sunsynk_reserve_208" 208 []) { multiplier = dec 0 0; hidden = true }
      ∷ record (entry "sunsynk_reserve_209" 209 []) { multiplier = dec 0 0; hidden = true }
      ∷ record (entry "sunsynk_battery_max_charge_current" 210 []) {
        multiplier = dec 1 0;
        unit = some other;
        min = dec 0 0;
        max = some (dec 185 0);
        editable = true;
      }
      ∷ record (entry "sunsynk_battery_max_discharge_current" 211 []) {
        multiplier = dec 1 0;
        unit = some other;
        min = dec 0 0;
        max = some (dec 185 0);
        editable = true;
      }
      ∷ [];
}

abbrev pub sunsynk_holding_entries_217 : List Entry
sunsynk_holding_entries_217 =
    record (entry "sunsynk_battery_shutdown_capacity" 217 []) {
      multiplier = dec 1 0;
      unit = some percentage;
      min = dec 0 0;
      max = some (dec 20 0);
      editable = true;
    }
    ∷ record (entry "sunsynk_battery_restart_capacity" 218 []) {
      multiplier = dec 1 0;
      unit = some percentage;
      min = dec 0 0;
      max = some (dec 50 0);
      editable = true;
    }
    ∷ record (entry "sunsynk_battery_low_capacity" 219 []) {
      multiplier = dec 1 0;
      unit = some percentage;
      min = dec 0 0;
      max = some (dec 50 0);
      editable = true;
    }
    ∷ record (entry "sunsynk_battery_shutdown_voltage" 220 []) {
      multiplier = dec 1 2;
      unit = some other;
      min = dec 41 0;
      max = some (dec 60 0);
      editable = true;
    }
    ∷ record (entry "sunsynk_battery_restart_voltage" 221 []) {
      multiplier = dec 1 2;
      unit = some other;
      min = dec 41 0;
      max = some (dec 60 0);
      editable = true;
    }
    ∷ record (entry "sunsynk_battery_low_voltage" 222 []) {
      multiplier = dec 1 2;
      unit = some other;
      min = dec 41 0;
      max = some (dec 60 0);
      editable = true;
    }
    ∷ record (entry "sunsynk_reserve_223" 223 []) { multiplier = dec 0 0; hidden = true }
    ∷ record (entry "sunsynk_reserve_224" 224 []) { multiplier = dec 0 0; hidden = true }
    ∷ record (entry "sunsynk_reserve_225" 225 []) { multiplier = dec 0 0; hidden = true }
    ∷ record (entry "sunsynk_reserve_226" 226 []) { multiplier = dec 0 0; hidden = true }
    ∷ record (entry "sunsynk_reserve_227" 227 []) { multiplier = dec 0 0; hidden = true }
    ∷ record (entry "sunsynk_reserve_228" 228 []) { multiplier = dec 0 0; hidden = true }
    ∷ record (entry "sunsynk_reserve_229" 229 []) { multiplier = dec 0 0; hidden = true }
    ∷ record (entry "sunsynk_grid_charge_battery_current" 230 []) {
      multiplier = dec 1 0;
      unit = some other;
      min = dec 0 0;
      max = some (dec 185 0);
      editable = true;
    }
    ∷ record (entry "sunsynk_reserve_231" 231 []) { multiplier = dec 0 0; hidden = true }
    ∷ record (entry "sunsynk_grid_charge_enabled" 232 []) {
      multiplier = dec 0 0;
      min = dec 0 0;
      max = some (dec 1 0);
      editable = true;
    }
    ∷ []

abbrev pub sunsynk_holding_entries_233 : List Entry
sunsynk_holding_entries_233 =
    record (entry "sunsynk_reserve_233" 233 []) { multiplier = dec 0 0; hidden = true }
    ∷ record (entry "sunsynk_reserve_234" 234 []) { multiplier = dec 0 0; hidden = true }
    ∷ record (entry "sunsynk_generator_input" 235 []) {
      multiplier = dec 0 0;
      min = dec 0 0;
      max = some (dec 2 0);
      editable = true;
    }
    ∷ []

abbrev pub sunsynk_holding_217 : GroupTable
sunsynk_holding_217 = record (group 217) {
  poll_speed = some PollSpeed.slow;
  register_type = some RegisterType.holding;
  entities = sunsynk_holding_entries_217 ++ sunsynk_holding_entries_233;
}
