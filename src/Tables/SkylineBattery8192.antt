-- ===== src/Tables/SkylineBattery8192.antt =====
-- sensor_data/skyline_sensors.py: groups of the Skyline inverters.
use hh_modbus.Base.{[], ◌∷◌, true, some}
use hh_modbus.Inverter.{DataType, PollSpeed}
use hh_modbus.Groups.{RegisterType}
use hh_modbus.Sensors.{entry, dec, percentage, kilo_watt, other}
use hh_modbus.Tables.{GroupTable, group}

abbrev pub skyline_battery_8192 : GroupTable
skyline_battery_8192 = record (group 8192) {
  poll_speed = some PollSpeed.fast;
  register_type = some RegisterType.holding;
  entities =
      record (entry "skyline_battery_soc" 8192 []) { multiplier = dec 1 0; unit = some percentage }
      ∷ record (entry "skyline_reserve_8193" 8193 []) { multiplier = dec 0 0; hidden = true }
      ∷ record (entry "skyline_reserve_8194" 8194 []) { multiplier = dec 0 0; hidden = true }
      ∷ record (entry "skyline_reserve_8195" 8195 []) { multiplier = dec 0 0; hidden = true }
      ∷ record (entry "skyline_reserve_8196" 8196 []) { multiplier = dec 0 0; hidden = true }
      ∷ record (entry "skyline_reserve_8197" 8197 []) { multiplier = dec 0 0; hidden = true }
      ∷ record (entry "skyline_battery_voltage" 8198 []) { multiplier = dec 1 1; unit = some other }
      ∷ record (entry "skyline_battery_current" 8199 (8200 ∷ [])) {
        multiplier = dec 1 2;
        data_type = some DataType.s32;
        unit = some other;
      }
      ∷ record (entry "skyline_battery_power" 8201 (8202 ∷ [])) {
        multiplier = dec 1 4;
        data_type = some DataType.s32;
        unit = some kilo_watt;
      }
      ∷ record (entry "skyline_battery_charge_today" 8203 (8204 ∷ [])) {
        multiplier = dec 1 2;
        unit = some other;
      }
      ∷ record (entry "skyline_battery_charge_total" 8205 (8206 ∷ [])) {
        multiplier = dec 1 2;
        unit = some other;
      }
      ∷ record (entry "skyline_battery_discharge_today" 8207 (8208 ∷ [])) {
        multiplier = dec 1 2;
        unit = some other;
      }
      ∷ record (entry "skyline_battery_discharge_total" 8209 (8210 ∷ [])) {
        multiplier = dec 1 2;
        unit = some other;
      }
      ∷ [];
}
