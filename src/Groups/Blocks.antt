-- ===== src/Groups/Blocks.antt =====
-- sensors/solis_base_sensor.py: the block of registers that is read for a group.
use hh_modbus.Base.{
  ℕ, ◌+◌, ◌≤◌, ◌<◌, min, max, ◌≡◌, refl, arith, Bool, List, [], ◌∷◌, All, length, Option, elem,
  true, ◌==◌, ==_iff, Bool-cases, inl, inr, All-map, All-both, All-split, All-select, leb,
}
use hh_modbus.Inverter.{PollSpeed}
use hh_modbus.Groups.{
  Sensor, SensorGroup, RegisterType, low, high, registrars, counts, min_low, from_sensors,
  start_register, registrar_count, cluster_sensors_by_contiguous_registers, min_from, max_from,
  sensors, insert, sort,
}
use hh_modbus.Groups.Sorted.{Ascends}
use hh_modbus.Groups.Clusters.{
  IsRun, Linked, reach, clusters_are_maximal_runs, flat, flat-cluster_sorted,
}

-- The sensor's own registers fill the range from its lowest to its highest.
abbrev pub IsSolid : Sensor → Type 0
IsSolid s = high s + 1 ≤ low s + length (registrars s)

min_from-le : (m : ℕ) (rs : List ℕ) → min_from m rs ≤ m
min_from-le m [] = omega arith
min_from-le m (r ∷ rs) = omega (arith, min_from-le (min m r) rs)

le-max_from : (m : ℕ) (rs : List ℕ) → m ≤ max_from m rs
le-max_from m [] = omega arith
le-max_from m (r ∷ rs) = omega (arith, le-max_from (max m r) rs)

min_from-elem : (m r : ℕ) (rs : List ℕ) → elem r rs ≡ true → min_from m rs ≤ r
min_from-elem m r [] h = cc
min_from-elem m r (x ∷ rs) h = elim (Bool-cases (r == x)) [
  | inl e ↦ omega (arith, (==_iff r x).0 e, min_from-le (min m x) rs)
  | inr e ↦ min_from-elem (min m x) r rs (rw e at h)
]

elem-max_from : (m r : ℕ) (rs : List ℕ) → elem r rs ≡ true → r ≤ max_from m rs
elem-max_from m r [] h = cc
elem-max_from m r (x ∷ rs) h = elim (Bool-cases (r == x)) [
  | inl e ↦ omega (arith, (==_iff r x).0 e, le-max_from (max m x) rs)
  | inr e ↦ elem-max_from (max m x) r rs (rw e at h)
]

-- A sensor's registers lie between its lowest and its highest.
pub low-high : (s : Sensor) (r : ℕ) → elem r (registrars s) ≡ true → (low s ≤ r) × (r ≤ high s)
unfolding low high
low-high s r h = elim (Bool-cases (r == s.register)) [
  | inl e ↦
      let e' : r ≡ s.register = (==_iff r s.register).0 e in
      (
        omega (arith, e', min_from-le s.register s.more),
        omega (arith, e', le-max_from s.register s.more),
      )
  | inr e ↦
      (min_from-elem s.register r s.more (rw e at h), elem-max_from s.register r s.more (rw e at h))
]

Ascends-lower : (m k : ℕ) (ss : List Sensor) → k ≤ m → Ascends m ss → Ascends k ss
Ascends-lower m k [] h a = tt
Ascends-lower m k (s ∷ ss) h a = (omega (arith, a.0), a.1)

min_low-Ascends : (m : ℕ) (ss : List Sensor) → Ascends m ss → min_low m ss ≡ m
min_low-Ascends m [] h = refl
min_low-Ascends m (s ∷ ss) h =
    let e : min m (low s) ≡ m = omega (arith, h.0) in
    rw e (min_low-Ascends m ss (Ascends-lower (low s) m ss h.0 h.1))

Ascends-All : (m : ℕ) (ss : List Sensor) → Ascends m ss → All (λ s. m ≤ low s) ss
Ascends-All m [] h = tt
Ascends-All m (s ∷ ss) h = (h.0, Ascends-All m ss (Ascends-lower (low s) m ss h.0 h.1))

le-reach : (hi : ℕ) (ss : List Sensor) → hi ≤ reach hi ss
le-reach hi [] = omega arith
le-reach hi (s ∷ ss) = omega (arith, le-reach (max hi (high s)) ss)

high-le-reach : (hi : ℕ) (ss : List Sensor) → All (λ s. high s ≤ reach hi ss) ss
high-le-reach hi [] = tt
high-le-reach hi (s ∷ ss) =
    (omega (arith, le-reach (max hi (high s)) ss), high-le-reach (max hi (high s)) ss)

-- Solid sensors with no gap between them: the count of registers reaches the highest one.
reach-le-counts :
    (hi top : ℕ) (ss : List Sensor)
    → hi + 1 ≤ top
    → Linked hi ss
    → All IsSolid ss
    → reach hi ss + 1 ≤ top + counts ss
reach-le-counts hi top [] h l solid = omega arith
reach-le-counts hi top (s ∷ ss) h l solid = omega (
  arith,
  reach-le-counts (max hi (high s)) (top + length (registrars s)) ss (omega (arith, l.0, solid.0))
      l.1 solid.1,
)

-- Every register of every sensor lies in the block of `registrar_count` registers that is read
-- from `start_register` on.
abbrev pub Covers : SensorGroup → Type 0
Covers g =
    All
      (λ s.
        (r : ℕ)
        → elem r (registrars s) ≡ true
        → (start_register g ≤ r) × (r < start_register g + registrar_count g))
      (sensors g)

run-Covers :
    (id : ℕ) (f : Sensor) (rest : List Sensor) (speed : PollSpeed) (t : Option RegisterType)
    → IsRun (f, rest)
    → All IsSolid (f ∷ rest)
    → Covers (from_sensors id (f, rest) speed t)
unfolding from_sensors start_register registrar_count
run-Covers id f rest speed t (asc, linked) solid =
    let top =
      reach-le-counts (high f) (low f + length (registrars f)) rest solid.0 linked solid.1 in
    let start = min_low-Ascends (low f) rest asc in
    (
      λ r m. omega (arith, low-high f r m, le-reach (high f) rest, top, start),
      All-map _ _ rest (λ s b r m. omega (arith, low-high s r m, b.0, b.1, top, start))
          (All-both _ _ rest (Ascends-All (low f) rest asc) (high-le-reach (high f) rest)),
    )

All-insert :
    (P : Sensor → Type 0) (s : Sensor) (ts : List Sensor) → P s → All P ts → All P (insert s ts)
All-insert P s [] p h = (p, tt)
All-insert P s (t ∷ ts) p h = elim (Bool-cases (leb (low s) (low t))) [
  | inl e ↦ rw e (p, h)
  | inr e ↦ rw e (h.0, All-insert P s ts p h.1)
]

All-sort : (P : Sensor → Type 0) (ss : List Sensor) → All P ss → All P (sort ss)
unfolding sort
All-sort P [] h = tt
All-sort P (s ∷ ss) h = All-insert P s (sort ss) h.0 (All-sort P ss h.1)

All-flat :
    (P : Sensor → Type 0) (cs : List (Sensor × List Sensor))
    → All P (flat cs)
    → All (λ c. All P (c.0 ∷ c.1)) cs
All-flat P [] h = tt
All-flat P ((f, rest) ∷ cs) h =
    let (l, r) = All-split P rest (flat cs) h.1 in ((h.0, l), All-flat P cs r)

clusters-IsSolid :
    (enabled : Sensor → Bool) (ss : List Sensor)
    → All IsSolid ss
    → All (λ c. All IsSolid (c.0 ∷ c.1)) (cluster_sensors_by_contiguous_registers enabled ss)
unfolding cluster_sensors_by_contiguous_registers
clusters-IsSolid enabled ss h =
    All-flat IsSolid _
      (rw flat-cluster_sorted (All-sort IsSolid _ (All-select IsSolid enabled ss h)))

-- The block that is read for a group made of a cluster holds every register of each of its sensors,
-- if no sensor skips a register.
pub new_groups_cover :
    (enabled : Sensor → Bool) (ss : List Sensor) (speed : PollSpeed) (t : Option RegisterType)
    (id : ℕ)
    → All IsSolid ss
    → All
        (λ c. Covers (from_sensors id c speed t))
        (cluster_sensors_by_contiguous_registers enabled ss)
new_groups_cover enabled ss speed t id solid =
    All-map _ _ (cluster_sensors_by_contiguous_registers enabled ss)
      (λ c h. run-Covers id c.0 c.1 speed t h.0 h.1)
      (All-both _ _ (cluster_sensors_by_contiguous_registers enabled ss)
        (clusters_are_maximal_runs enabled ss).0 (clusters-IsSolid enabled ss solid))

-- Where no two sensors of a run share a register, the block is no longer than the registers it is
-- read for.
abbrev pub Tight : ℕ → List Sensor → Type 0
Tight hi [] = Unit
Tight hi (s ∷ ss) =
    (low s ≡ hi + 1) × (low s + length (registrars s) ≡ high s + 1) × Tight (high s) ss

counts-Tight :
    (hi top : ℕ) (ss : List Sensor) → top ≡ hi + 1 → Tight hi ss → top + counts ss ≡ reach hi ss + 1
counts-Tight hi top [] e h = omega arith
counts-Tight hi top (s ∷ ss) e h =
    let taller : max hi (high s) ≡ high s = omega (arith, h.0, h.1) in
    rw taller (
      omega (
        arith,
        counts-Tight (high s) (top + length (registrars s)) ss (omega (arith, h.0, h.1)) h.2,
      ))

pub registrar_count-Tight :
    (id : ℕ) (f : Sensor) (rest : List Sensor) (speed : PollSpeed) (t : Option RegisterType)
    → low f + length (registrars f) ≡ high f + 1
    → Tight (high f) rest
    → low f + registrar_count (from_sensors id (f, rest) speed t) ≡ reach (high f) rest + 1
unfolding from_sensors registrar_count
registrar_count-Tight id f rest speed t e h =
    omega (arith, counts-Tight (high f) (low f + length (registrars f)) rest e h)
