-- ===== src/Tables/SkylineDcdc6684.antt =====
-- sensor_data/skyline_sensors.py: groups of the Skyline inverters.
use hh_modbus.Base.{[], ◌∷◌, some}
use hh_modbus.Inverter.{PollSpeed}
use hh_modbus.Groups.{RegisterType}
use hh_modbus.Sensors.{entry, dec}
use hh_modbus.Tables.{GroupTable, group}

abbrev pub skyline_dcdc_6684 : GroupTable
skyline_dcdc_6684 = record (group 6684) {
  poll_speed = some PollSpeed.once;
  register_type = some RegisterType.holding;
  entities =
      record (entry "skyline_dcdc_software_version" 6684 (6685 ∷ 6686 ∷ [])) {
        multiplier = dec 0 0;
      }
      ∷ [];
}
