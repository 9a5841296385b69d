-- ===== src/Groups.antt =====
-- sensors/solis_base_sensor.py: the sensors of a poll group, `SolisSensorGroup` and
-- `cluster_sensors_by_contiguous_registers`. A sensor names at least one register and a group has at
-- least one sensor: the group's constructor takes the `min` over all of them, which raises on none.
-- Python compares sensors and groups by identity, which is the field `id`.
pub mod Sorted
pub mod Clusters
pub mod Blocks
use hh_modbus.Base.{
  ℕ, ◌+◌, ◌-◌, min, max, Bool, true, false, not, ◌||◌, List, [], ◌∷◌, ◌++◌, Option, none, some, leb,
  ◌==◌, if◌then◌else◌, length, sum, map, elem, select, all,
}
use hh_modbus.Inverter.{PollSpeed}

pub record Sensor : Type 0 where
  pub id : ℕ
  pub register : ℕ
  pub more : List ℕ

-- `sensor.registrars`
abbrev pub registrars : Sensor → List ℕ
registrars s = s.register ∷ s.more

abbrev pub min_from : ℕ → List ℕ → ℕ
min_from m [] = m
min_from m (r ∷ rs) = min_from (min m r) rs

abbrev pub max_from : ℕ → List ℕ → ℕ
max_from m [] = m
max_from m (r ∷ rs) = max_from (max m r) rs

-- `min(s.registrars)` and `max(s.registrars)`
unfoldable pub low : Sensor → ℕ
low s = min_from s.register s.more

unfoldable pub high : Sensor → ℕ
high s = max_from s.register s.more

-- `register_type`
pub data RegisterType : Type 0 where
  input holding : RegisterType

pub record SensorGroup : Type 0 where
  pub id : ℕ
  pub first : Sensor
  pub others : List Sensor
  pub poll_speed : PollSpeed
  pub register_type : RegisterType

abbrev pub sensors : SensorGroup → List Sensor
sensors g = g.first ∷ g.others

abbrev pub counts : List Sensor → ℕ
counts [] = 0
counts (s ∷ ss) = length (registrars s) + counts ss

unfoldable pub registrar_count : SensorGroup → ℕ
registrar_count g = counts (sensors g)

abbrev pub min_low : ℕ → List Sensor → ℕ
min_low m [] = m
min_low m (s ∷ ss) = min_low (min m (low s)) ss

unfoldable pub start_register : SensorGroup → ℕ
start_register g = min_low (low g.first) g.others

-- Registers from 40000 are holding registers, unless the definition says otherwise.
abbrev pub default_type : ℕ → RegisterType
default_type start = if leb 40000 start then holding else input

-- `SolisSensorGroup.from_sensors`
unfoldable pub from_sensors :
    ℕ → Sensor × List Sensor → PollSpeed → Option RegisterType → SensorGroup
from_sensors id (s, ss) speed register_type = record {
  id = id;
  first = s;
  others = ss;
  poll_speed = speed;
  register_type = elim register_type [ none ↦ default_type (min_low (low s) ss) | some t ↦ t ];
}

-- `active.sort(key=lambda s: min(s.registrars))`, a stable sort.
abbrev pub insert : Sensor → List Sensor → List Sensor
insert s [] = s ∷ []
insert s (t ∷ ts) = if leb (low s) (low t) then s ∷ t ∷ ts else t ∷ insert s ts

unfoldable pub sort : List Sensor → List Sensor
sort [] = []
sort (s ∷ ss) = insert s (sort ss)

-- The loop over the sorted sensors: `first` and `rest` are `current`, `hi` is `cur_hi`.
unfoldable pub cluster_from : Sensor → List Sensor → ℕ → List Sensor → List (Sensor × List Sensor)
cluster_from first rest hi [] = (first, rest) ∷ []
cluster_from first rest hi (s ∷ ss) =
    let joined = cluster_from first (rest ++ s ∷ []) (max hi (high s)) ss in
    let cut = (first, rest) ∷ cluster_from s [] (high s) ss in
    if leb (low s) (hi + 1) then joined else cut

abbrev pub cluster_sorted : List Sensor → List (Sensor × List Sensor)
cluster_sorted [] = []
cluster_sorted (s ∷ ss) = cluster_from s [] (high s) ss

-- The enabled flag is a field of the shared sensor object: `enabled` reads it.
unfoldable pub cluster_sensors_by_contiguous_registers :
    (Sensor → Bool) → List Sensor → List (Sensor × List Sensor)
unfolding sort cluster_from
cluster_sensors_by_contiguous_registers enabled ss = cluster_sorted (sort (select enabled ss))
