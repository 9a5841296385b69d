-- ===== src/Tables/GivEnergyHolding0.antt =====
-- sensor_data/givenergy_sensors.py: groups of the GivEnergy inverters.
use hh_modbus.Base.{[], ◌∷◌, true, some}
use hh_modbus.Inverter.{PollSpeed}
use hh_modbus.Groups.{RegisterType}
use hh_modbus.Sensors.{entry, dec}
use hh_modbus.Tables.{GroupTable, group}

abbrev pub givenergy_holding_0 : GroupTable
givenergy_holding_0 = record (group 0) {
  poll_speed = some PollSpeed.once;
  register_type = some RegisterType.holding;
  entities =
      record (entry "givenergy_device_type_code" 0 []) { multiplier = dec 0 0 }
      ∷ record (entry "givenergy_module_id" 1 (2 ∷ [])) { multiplier = dec 0 0; hidden = true }
      ∷ record (entry "givenergy_hr_reserve_3" 3 []) { multiplier = dec 0 0; hidden = true }
      ∷ record (entry "givenergy_hr_reserve_4" 4 []) { multiplier = dec 0 0; hidden = true }
      ∷ record (entry "givenergy_hr_reserve_5" 5 []) { multiplier = dec 0 0; hidden = true }
      ∷ record (entry "givenergy_hr_reserve_6" 6 []) { multiplier = dec 0 0; hidden = true }
      ∷ record (entry "givenergy_hr_reserve_7" 7 []) { multiplier = dec 0 0; hidden = true }
      ∷ record (entry "givenergy_battery_serial_number" 8 (9 ∷ 10 ∷ 11 ∷ 12 ∷ [])) {
        multiplier = dec 0 0;
      }
      ∷ record (entry "givenergy_serial_number" 13 (14 ∷ 15 ∷ 16 ∷ 17 ∷ [])) {
        multiplier = dec 0 0;
      }
      ∷ record (entry "givenergy_bms_firmware_version" 18 []) { multiplier = dec 0 0 }
      ∷ record (entry "givenergy_dsp_firmware_version" 19 []) { multiplier = dec 0 0 }
      ∷ record (entry "givenergy_hr_reserve_20" 20 []) { multiplier = dec 0 0; hidden = true }
      ∷ record (entry "givenergy_arm_firmware_version" 21 []) { multiplier = dec 0 0 }
      ∷ [];
}
