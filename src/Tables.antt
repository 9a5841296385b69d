-- ===== src/Tables.antt =====
-- sensor_data: the register tables of the integration, one definition for each group of a table or,
-- where a group is long, for a part of its entities. A group is a Python dict; its keys that are
-- missing have the defaults with which __init__.py and `SolisSensorGroup.__init__` read them. Of an
-- entity the presentation is left out, and the keys that nothing reads of a group's entity (`type`,
-- `switch`, `on_value`, `off_value`, `enabled`).
pub mod Brands
pub mod Fit
pub mod GivEnergyHolding0
pub mod GivEnergyInput0
pub mod Hybrid33000
pub mod Hybrid33070
pub mod Hybrid33147
pub mod Hybrid33300
pub mod Hybrid33580
pub mod Hybrid34328
pub mod Hybrid34504
pub mod Hybrid43019
pub mod Hybrid43141
pub mod Hybrid43361
pub mod Hybrid43483
pub mod Hybrid43731
pub mod Hybrid43762
pub mod HybridDerived
pub mod Layout
pub mod Sigenergy30000
pub mod Sigenergy30086
pub mod SkylineBattery8192
pub mod SkylineDcdc6684
pub mod SkylineGrid4864
pub mod SkylineIdentity6656
pub mod SkylinePower4097
pub mod SkylineVersion6694
pub mod SolarEdge40071
pub mod SolarEdgeInfo40004
pub mod String2999
pub mod String3250
pub mod StringDerived
pub mod SunsynkHolding16
pub mod SunsynkHolding243
pub mod SunsynkHolding268
pub mod SunsynkInput0
pub mod SunsynkInput150
use hh_modbus.Base.{
  ℕ, Bool, false, List, [], ◌∷◌, ◌++◌, Option, none, map, get_or, ltb, if◌then◌else◌,
}
use hh_modbus.Inverter.{InverterFeature, InverterConfig, PollSpeed}
use hh_modbus.Groups.{RegisterType, default_type, min_from}
use hh_modbus.Profile.{EntityDef, GroupDef}
use hh_modbus.Sensors.{Entry, BaseSensor}
use hh_modbus.Sensors.Build.{new_sensor}

-- `start` is "register_start".
pub record GroupTable : Type 0 where
  pub start : ℕ
  pub feature_requirement : List InverterFeature
  pub essential : Bool
  pub extreme : Bool
  pub extreme_battery : Bool
  pub extreme_smart_port : Bool
  pub poll_speed : Option PollSpeed
  pub register_type : Option RegisterType
  pub entities : List Entry

-- A group with its first register alone.
abbrev pub group : ℕ → GroupTable
group start = record {
  start = start;
  feature_requirement = [];
  essential = false;
  extreme = false;
  extreme_battery = false;
  extreme_smart_port = false;
  poll_speed = none;
  register_type = none;
  entities = [];
}

abbrev pub entry_registers : Entry → List ℕ
entry_registers e = e.register ∷ e.more

abbrev pub entries_registers : List Entry → List ℕ
entries_registers [] = []
entries_registers (e ∷ es) = entry_registers e ++ entries_registers es

-- The registers of a group's sensors, in the order of the table; their number is `registrar_count`.
abbrev pub group_registers : GroupTable → List ℕ
group_registers g = entries_registers g.entities

-- `start_register`, the least register; `min` raises on a group without sensors, which no table has.
abbrev pub least_of : ℕ → List ℕ → ℕ
least_of start [] = start
least_of start (r ∷ rs) = min_from r rs

abbrev pub group_start : GroupTable → ℕ
group_start g = least_of g.start (group_registers g)

-- The register type of `SolisSensorGroup.__init__`.
unfoldable pub group_type : GroupTable → RegisterType
group_type g = get_or g.register_type (default_type (group_start g))

-- The poll speed of `SolisSensorGroup.__init__`.
unfoldable pub group_speed : GroupTable → PollSpeed
group_speed g =
    get_or g.poll_speed (if ltb (group_start g) 40000 then PollSpeed.normal else PollSpeed.slow)

-- What the selection by profile and features reads of a group.
unfoldable pub group_def : GroupTable → GroupDef
group_def g = record {
  feature_requirement = g.feature_requirement;
  essential = g.essential;
  extreme = g.extreme;
  extreme_battery = g.extreme_battery;
  extreme_smart_port = g.extreme_smart_port;
  entities = map (λ e. record { registers = entry_registers e }) g.entities;
}

-- The sensors of `SolisSensorGroup.__init__`.
unfoldable pub group_sensors : InverterConfig → GroupTable → List BaseSensor
unfolding new_sensor
group_sensors c g = map (λ e. new_sensor c e) g.entities
