-- ===== src/Tables/SkylineIdentity6656.antt =====
-- sensor_data/skyline_sensors.py: groups of the Skyline inverters.
use hh_modbus.Base.{[], ◌∷◌, some}
use hh_modbus.Inverter.{PollSpeed}
use hh_modbus.Groups.{RegisterType}
use hh_modbus.Sensors.{entry, dec}
use hh_modbus.Tables.{GroupTable, group}

abbrev pub skyline_identity_6656 : GroupTable
skyline_identity_6656 = record (group 6656) {
  poll_speed = some PollSpeed.once;
  register_type = some RegisterType.holding;
  entities =
      record (entry "skyline_model_number" 6656
        (6657 ∷ 6658 ∷ 6659 ∷ 6660 ∷ 6661 ∷ 6662 ∷ 6663 ∷ [])) { multiplier = dec 0 0 }
      ∷ [];
}

abbrev pub skyline_identity_6672 : GroupTable
skyline_identity_6672 = record (group 6672) {
  poll_speed = some PollSpeed.once;
  register_type = some RegisterType.holding;
  entities =
      record (entry "skyline_serial_number" 6672
        (6673 ∷ 6674 ∷ 6675 ∷ 6676 ∷ 6677 ∷ 6678 ∷ 6679 ∷ [])) { multiplier = dec 0 0 }
      ∷ [];
}
