-- ===== src/Tables/SkylineVersion6694.antt =====
-- sensor_data/skyline_sensors.py: groups of the Skyline inverters.
use hh_modbus.Base.{[], ◌∷◌, some}
use hh_modbus.Inverter.{PollSpeed}
use hh_modbus.Groups.{RegisterType}
use hh_modbus.Sensors.{entry, dec}
use hh_modbus.Tables.{GroupTable, group}

abbrev pub skyline_version_6694 : GroupTable
skyline_version_6694 = record (group 6694) {
  poll_speed = some PollSpeed.once;
  register_type = some RegisterType.holding;
  entities =
      record (entry "skyline_master_software_version" 6694 (6695 ∷ 6696 ∷ [])) {
        multiplier = dec 0 0;
      }
      ∷ record (entry "skyline_slave_software_version" 6697 (6698 ∷ 6699 ∷ [])) {
        multiplier = dec 0 0;
      }
      ∷ [];
}

abbrev pub skyline_version_6752 : GroupTable
skyline_version_6752 = record (group 6752) {
  poll_speed = some PollSpeed.once;
  register_type = some RegisterType.holding;
  entities =
      record (entry "skyline_ems_software_version" 6752 (6753 ∷ 6754 ∷ [])) { multiplier = dec 0 0 }
      ∷ [];
}
