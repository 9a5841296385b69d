-- ===== src/Tables/SunsynkHolding268.antt =====
-- sensor_data/sunsynk_single_phase.py: holding registers of the Sunsynk inverters.
use hh_modbus.Base.{[], ◌∷◌, true, some}
use hh_modbus.Inverter.{PollSpeed}
use hh_modbus.Groups.{RegisterType}
use hh_modbus.Sensors.{entry, dec, percentage, other}
use hh_modbus.Tables.{GroupTable, group}

abbrev pub sunsynk_holding_268 : GroupTable
sunsynk_holding_268 = record (group 268) {
  poll_speed = some PollSpeed.slow;
  register_type = some RegisterType.holding;
  entities =
      record (entry "sunsynk_prog1_capacity" 268 []) {
        multiplier = dec 1 0;
        unit = some percentage;
        min = dec 0 0;
        max = some (dec 100 0);
        editable = true;
      }
      ∷ record (entry "sunsynk_prog2_capacity" 269 []) {
        multiplier = dec 1 0;
        unit = some percentage;
        min = dec 0 0;
        max = some (dec 100 0);
        editable = true;
      }
      ∷ record (entry "sunsynk_prog3_capacity" 270 []) {
        multiplier = dec 1 0;
        unit = some percentage;
        min = dec 0 0;
        max = some (dec 100 0);
        editable = true;
      }
      ∷ record (entry "sunsynk_prog4_capacity" 271 []) {
        multiplier = dec 1 0;
        unit = some percentage;
        min = dec 0 0;
        max = some (dec 100 0);
        editable = true;
      }
      ∷ record (entry "sunsynk_prog5_capacity" 272 []) {
        multiplier = dec 1 0;
        unit = some percentage;
        min = dec 0 0;
        max = some (dec 100 0);
        editable = true;
      }
      ∷ record (entry "sunsynk_prog6_capacity" 273 []) {
        multiplier = dec 1 0;
        unit = some percentage;
        min = dec 0 0;
        max = some (dec 100 0);
        editable = true;
      }
      ∷ record (entry "sunsynk_prog1_charge" 274 []) { multiplier = dec 0 0 }
      ∷ record (entry "sunsynk_prog2_charge" 275 []) { multiplier = dec 0 0 }
      ∷ record (entry "sunsynk_prog3_charge" 276 []) { multiplier = dec 0 0 }
      ∷ record (entry "sunsynk_prog4_charge" 277 []) { multiplier = dec 0 0 }
      ∷ record (entry "sunsynk_prog5_charge" 278 []) { multiplier = dec 0 0 }
      ∷ record (entry "sunsynk_prog6_charge" 279 []) { multiplier = dec 0 0 }
      ∷ [];
}

abbrev pub sunsynk_holding_312 : GroupTable
sunsynk_holding_312 = record (group 312) {
  poll_speed = some PollSpeed.slow;
  register_type = some RegisterType.holding;
  entities =
      record (entry "sunsynk_battery_charging_voltage" 312 []) {
        multiplier = dec 1 2;
        unit = some other;
      }
      ∷ [];
}

abbrev pub sunsynk_holding_325 : GroupTable
sunsynk_holding_325 = record (group 325) {
  poll_speed = some PollSpeed.slow;
  register_type = some RegisterType.holding;
  entities = record (entry "sunsynk_bms_protocol" 325 []) { multiplier = dec 0 0 } ∷ [];
}
