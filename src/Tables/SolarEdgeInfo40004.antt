-- ===== src/Tables/SolarEdgeInfo40004.antt =====
-- sensor_data/solaredge_sensors.py: groups of the SolarEdge inverters.
use hh_modbus.Base.{[], ◌∷◌, true, some}
use hh_modbus.Inverter.{PollSpeed}
use hh_modbus.Groups.{RegisterType}
use hh_modbus.Sensors.{entry, dec}
use hh_modbus.Tables.{GroupTable, group}

abbrev pub solaredge_info_40004 : GroupTable
solaredge_info_40004 = record (group 40004) {
  poll_speed = some PollSpeed.once;
  register_type = some RegisterType.holding;
  entities =
      record (entry "solaredge_manufacturer" 40004 (
        40005 ∷ 40006 ∷ 40007 ∷ 40008 ∷ 40009 ∷ 40010 ∷ 40011 ∷ 40012 ∷ 40013 ∷ 40014 ∷ 40015
        ∷ 40016 ∷ 40017 ∷ 40018 ∷ 40019 ∷ [])) { multiplier = dec 0 0 }
      ∷ record (entry "solaredge_model" 40020 (
          40021 ∷ 40022 ∷ 40023 ∷ 40024 ∷ 40025 ∷ 40026 ∷ 40027 ∷ 40028 ∷ 40029 ∷ 40030 ∷ 40031
          ∷ 40032 ∷ 40033 ∷ 40034 ∷ 40035 ∷ [])) { multiplier = dec 0 0 }
      ∷ record (entry "solaredge_firmware_version" 40036
          (40037 ∷ 40038 ∷ 40039 ∷ 40040 ∷ 40041 ∷ 40042 ∷ 40043 ∷ [])) {
            multiplier = dec 0 0;
            hidden = true;
          }
      ∷ record (entry "solaredge_serial_number" 40044 (
          40045 ∷ 40046 ∷ 40047 ∷ 40048 ∷ 40049 ∷ 40050 ∷ 40051 ∷ 40052 ∷ 40053 ∷ 40054 ∷ 40055
          ∷ 40056 ∷ 40057 ∷ 40058 ∷ 40059 ∷ [])) { multiplier = dec 0 0 }
      ∷ record (entry "solaredge_device_address" 40060 []) { multiplier = dec 0 0; hidden = true }
      ∷ [];
}
