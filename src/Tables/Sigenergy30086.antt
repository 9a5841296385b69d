-- ===== src/Tables/Sigenergy30086.antt =====
-- sensor_data/sigenergy_sensors.py: groups of the Sigenergy plant.
use hh_modbus.Base.{List, [], ◌∷◌, ◌++◌, true, some}
use hh_modbus.Tables.Sigenergy30000.{sigenergy_entries_30064}
use hh_modbus.Inverter.{PollSpeed}
use hh_modbus.Groups.{RegisterType}
use hh_modbus.Sensors.{Entry, entry, dec, percentage, other}
use hh_modbus.Tables.{GroupTable, group}

abbrev pub sigenergy_entries_30086 : List Entry
sigenergy_entries_30086 =
    record (entry "sigenergy_plant_discharge_cutoff_soc" 30086 []) {
      multiplier = dec 1 1;
      unit = some percentage;
    }
    ∷ record (entry "sigenergy_plant_ess_soh" 30087 []) {
      multiplier = dec 1 1;
      unit = some percentage;
    }
    ∷ record (entry "sigenergy_plant_accumulated_pv_energy" 30088 (30089 ∷ [])) {
      multiplier = dec 1 2;
      unit = some other;
    }
    ∷ record (entry "sigenergy_reserve_30090" 30090 []) { multiplier = dec 0 0; hidden = true }
    ∷ record (entry "sigenergy_reserve_30091" 30091 []) { multiplier = dec 0 0; hidden = true }
    ∷ record (entry "sigenergy_plant_daily_consumed_energy" 30092 (30093 ∷ [])) {
      multiplier = dec 1 2;
      unit = some other;
    }
    ∷ []

abbrev pub sigenergy_30064 : GroupTable
sigenergy_30064 = record (group 30064) {
  poll_speed = some PollSpeed.slow;
  register_type = some RegisterType.holding;
  entities = sigenergy_entries_30064 ++ sigenergy_entries_30086;
}

abbrev pub sigenergy_entries_30200 : List Entry
sigenergy_entries_30200 =
    record (entry "sigenergy_plant_accumulated_battery_charge" 30200 (30201 ∷ [])) {
      multiplier = dec 1 2;
      unit = some other;
    }
    ∷ record (entry "sigenergy_reserve_30202" 30202 []) { multiplier = dec 0 0; hidden = true }
    ∷ record (entry "sigenergy_reserve_30203" 30203 []) { multiplier = dec 0 0; hidden = true }
    ∷ record (entry "sigenergy_plant_accumulated_battery_discharge" 30204 (30205 ∷ [])) {
      multiplier = dec 1 2;
      unit = some other;
    }
    ∷ record (entry "sigenergy_reserve_30206" 30206 []) { multiplier = dec 0 0; hidden = true }
    ∷ record (entry "sigenergy_reserve_30207" 30207 []) { multiplier = dec 0 0; hidden = true }
    ∷ record (entry "sigenergy_reserve_30208" 30208 []) { multiplier = dec 0 0; hidden = true }
    ∷ record (entry "sigenergy_reserve_30209" 30209 []) { multiplier = dec 0 0; hidden = true }
    ∷ record (entry "sigenergy_reserve_30210" 30210 []) { multiplier = dec 0 0; hidden = true }
    ∷ record (entry "sigenergy_reserve_30211" 30211 []) { multiplier = dec 0 0; hidden = true }
    ∷ record (entry "sigenergy_reserve_30212" 30212 []) { multiplier = dec 0 0; hidden = true }
    ∷ record (entry "sigenergy_reserve_30213" 30213 []) { multiplier = dec 0 0; hidden = true }
    ∷ record (entry "sigenergy_reserve_30214" 30214 []) { multiplier = dec 0 0; hidden = true }
    ∷ record (entry "sigenergy_reserve_30215" 30215 []) { multiplier = dec 0 0; hidden = true }
    ∷ record (entry "sigenergy_plant_accumulated_grid_import" 30216 (30217 ∷ [])) {
      multiplier = dec 1 2;
      unit = some other;
    }
    ∷ record (entry "sigenergy_reserve_30218" 30218 []) { multiplier = dec 0 0; hidden = true }
    ∷ record (entry "sigenergy_reserve_30219" 30219 []) { multiplier = dec 0 0; hidden = true }
    ∷ record (entry "sigenergy_plant_accumulated_grid_export" 30220 (30221 ∷ [])) {
      multiplier = dec 1 2;
      unit = some other;
    }
    ∷ []

abbrev pub sigenergy_entries_30222 : List Entry
sigenergy_entries_30222 =
    record (entry "sigenergy_reserve_30222" 30222 []) { multiplier = dec 0 0; hidden = true }
    ∷ record (entry "sigenergy_reserve_30223" 30223 []) { multiplier = dec 0 0; hidden = true }
    ∷ []

abbrev pub sigenergy_30200 : GroupTable
sigenergy_30200 = record (group 30200) {
  poll_speed = some PollSpeed.slow;
  register_type = some RegisterType.holding;
  entities = sigenergy_entries_30200 ++ sigenergy_entries_30222;
}
