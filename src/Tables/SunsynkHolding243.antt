-- ===== src/Tables/SunsynkHolding243.antt =====
-- sensor_data/sunsynk_single_phase.py: holding registers of the Sunsynk inverters.
use hh_modbus.Base.{[], ◌∷◌, true, some}
use hh_modbus.Inverter.{PollSpeed}
use hh_modbus.Groups.{RegisterType}
use hh_modbus.Sensors.{entry, dec, watt, other}
use hh_modbus.Tables.{GroupTable, group}

abbrev pub sunsynk_holding_243 : GroupTable
sunsynk_holding_243 = record (group 243) {
  poll_speed = some PollSpeed.slow;
  register_type = some RegisterType.holding;
  entities =
      record (entry "sunsynk_priority_load" 243 []) {
        multiplier = dec 0 0;
        min = dec 0 0;
        max = some (dec 1 0);
        editable = true;
      }
      ∷ record (entry "sunsynk_load_limit" 244 []) {
        multiplier = dec 0 0;
        min = dec 0 0;
        max = some (dec 2 0);
        editable = true;
      }
      ∷ record (entry "sunsynk_max_sell_power" 245 []) {
        multiplier = dec 1 0;
        unit = some watt;
        min = dec 0 0;
        max = some (dec 5000 0);
        editable = true;
      }
      ∷ record (entry "sunsynk_reserve_246" 246 []) { multiplier = dec 0 0; hidden = true }
      ∷ record (entry "sunsynk_solar_export" 247 []) {
        multiplier = dec 0 0;
        min = dec 0 0;
        max = some (dec 1 0);
        editable = true;
      }
      ∷ record (entry "sunsynk_use_timer" 248 []) {
        multiplier = dec 0 0;
        min = dec 0 0;
        max = some (dec 1 0);
        editable = true;
      }
      ∷ [];
}

abbrev pub sunsynk_holding_250 : GroupTable
sunsynk_holding_250 = record (group 250) {
  poll_speed = some PollSpeed.slow;
  register_type = some RegisterType.holding;
  entities =
      record (entry "sunsynk_prog1_time" 250 []) { multiplier = dec 0 0 }
      ∷ record (entry "sunsynk_prog2_time" 251 []) { multiplier = dec 0 0 }
      ∷ record (entry "sunsynk_prog3_time" 252 []) { multiplier = dec 0 0 }
      ∷ record (entry "sunsynk_prog4_time" 253 []) { multiplier = dec 0 0 }
      ∷ record (entry "sunsynk_prog5_time" 254 []) { multiplier = dec 0 0 }
      ∷ record (entry "sunsynk_prog6_time" 255 []) { multiplier = dec 0 0 }
      ∷ [];
}

abbrev pub sunsynk_holding_256 : GroupTable
sunsynk_holding_256 = record (group 256) {
  poll_speed = some PollSpeed.slow;
  register_type = some RegisterType.holding;
  entities =
      record (entry "sunsynk_prog1_power" 256 []) {
        multiplier = dec 1 0;
        unit = some watt;
        min = dec 0 0;
        max = some (dec 5000 0);
        editable = true;
      }
      ∷ record (entry "sunsynk_prog2_power" 257 []) {
        multiplier = dec 1 0;
        unit = some watt;
        min = dec 0 0;
        max = some (dec 5000 0);
        editable = true;
      }
      ∷ record (entry "sunsynk_prog3_power" 258 []) {
        multiplier = dec 1 0;
        unit = some watt;
        min = dec 0 0;
        max = some (dec 5000 0);
        editable = true;
      }
      ∷ record (entry "sunsynk_prog4_power" 259 []) {
        multiplier = dec 1 0;
        unit = some watt;
        min = dec 0 0;
        max = some (dec 5000 0);
        editable = true;
      }
      ∷ record (entry "sunsynk_prog5_power" 260 []) {
        multiplier = dec 1 0;
        unit = some watt;
        min = dec 0 0;
        max = some (dec 5000 0);
        editable = true;
      }
      ∷ record (entry "sunsynk_prog6_power" 261 []) {
        multiplier = dec 1 0;
        unit = some watt;
        min = dec 0 0;
        max = some (dec 5000 0);
        editable = true;
      }
      ∷ [];
}

abbrev pub sunsynk_holding_262 : GroupTable
sunsynk_holding_262 = record (group 262) {
  poll_speed = some PollSpeed.slow;
  register_type = some RegisterType.holding;
  entities =
      record (entry "sunsynk_prog1_voltage" 262 []) {
        multiplier = dec 1 2;
        unit = some other;
        min = dec 41 0;
        max = some (dec 60 0);
        editable = true;
      }
      ∷ record (entry "sunsynk_prog2_voltage" 263 []) {
        multiplier = dec 1 2;
        unit = some other;
        min = dec 41 0;
        max = some (dec 60 0);
        editable = true;
      }
      ∷ record (entry "sunsynk_prog3_voltage" 264 []) {
        multiplier = dec 1 2;
        unit = some other;
        min = dec 41 0;
        max = some (dec 60 0);
        editable = true;
      }
      ∷ record (entry "sunsynk_prog4_voltage" 265 []) {
        multiplier = dec 1 2;
        unit = some other;
        min = dec 41 0;
        max = some (dec 60 0);
        editable = true;
      }
      ∷ record (entry "sunsynk_prog5_voltage" 266 []) {
        multiplier = dec 1 2;
        unit = some other;
        min = dec 41 0;
        max = some (dec 60 0);
        editable = true;
      }
      ∷ record (entry "sunsynk_prog6_voltage" 267 []) {
        multiplier = dec 1 2;
        unit = some other;
        min = dec 41 0;
        max = some (dec 60 0);
        editable = true;
      }
      ∷ [];
}
