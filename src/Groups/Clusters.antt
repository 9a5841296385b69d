-- ===== src/Groups/Clusters.antt =====
-- sensors/solis_base_sensor.py: the clusters of `cluster_sensors_by_contiguous_registers`.
use mathlib.Core.List.{Perm, append_assoc}
use hh_modbus.Base.{
  ℕ, ◌+◌, ◌≤◌, ◌<◌, max, ◌≡◌, refl, arith, Bool, List, [], ◌∷◌, ◌++◌, leb, All, Bool-cases, inl,
  inr, select,
}
use hh_modbus.Groups.{
  Sensor, low, high, sort, cluster_from, cluster_sorted, cluster_sensors_by_contiguous_registers,
}
use hh_modbus.Groups.Sorted.{Ascends, sort-perm, sort-Ascends}

abbrev pub flat : List (Sensor × List Sensor) → List Sensor
flat [] = []
flat ((f, rest) ∷ cs) = (f ∷ rest) ++ flat cs

flat-cluster_from :
    (f : Sensor) (rest : List Sensor) (hi : ℕ) (ss : List Sensor)
    → flat (cluster_from f rest hi ss) ≡ f ∷ (rest ++ ss)
unfolding cluster_from
flat-cluster_from f rest hi [] = refl
flat-cluster_from f rest hi (s ∷ ss) = elim (Bool-cases (leb (low s) (hi + 1))) [
  | inl e ↦ rw (e, flat-cluster_from f (rest ++ s ∷ []) (max hi (high s)) ss, append_assoc) refl
  | inr e ↦ rw (e, flat-cluster_from s [] (high s) ss) refl
]

pub flat-cluster_sorted : (ss : List Sensor) → flat (cluster_sorted ss) ≡ ss
flat-cluster_sorted [] = refl
flat-cluster_sorted (s ∷ ss) = flat-cluster_from s [] (high s) ss

-- The sensors of the clusters are the enabled sensors, each as often as before.
pub clusters_perm :
    (enabled : Sensor → Bool) (ss : List Sensor)
    → Perm (flat (cluster_sensors_by_contiguous_registers enabled ss)) (select enabled ss)
unfolding cluster_sensors_by_contiguous_registers
clusters_perm enabled ss =
    rw (flat-cluster_sorted (sort (select enabled ss))) (sort-perm (select enabled ss))

-- The highest register so far.
abbrev pub reach : ℕ → List Sensor → ℕ
reach hi [] = hi
reach hi (s ∷ ss) = reach (max hi (high s)) ss

-- Each sensor begins at most one register after what came before it.
abbrev pub Linked : ℕ → List Sensor → Type 0
Linked hi [] = Unit
Linked hi (s ∷ ss) = (low s ≤ hi + 1) × Linked (max hi (high s)) ss

reach-append : (hi : ℕ) (ss ts : List Sensor) → reach hi (ss ++ ts) ≡ reach (reach hi ss) ts
reach-append hi [] ts = refl
reach-append hi (s ∷ ss) ts = reach-append (max hi (high s)) ss ts

Linked-append :
    (hi : ℕ) (ss ts : List Sensor) → Linked hi ss → Linked (reach hi ss) ts → Linked hi (ss ++ ts)
Linked-append hi [] ts h k = k
Linked-append hi (s ∷ ss) ts h k = (h.0, Linked-append (max hi (high s)) ss ts h.1 k)

Ascends-left : (m : ℕ) (ss ts : List Sensor) → Ascends m (ss ++ ts) → Ascends m ss
Ascends-left m [] ts h = tt
Ascends-left m (s ∷ ss) ts h = (h.0, Ascends-left (low s) ss ts h.1)

Ascends-right :
    (m : ℕ) (ss : List Sensor) (s : Sensor) (ts : List Sensor)
    → Ascends m (ss ++ s ∷ ts)
    → Ascends (low s) ts
Ascends-right m [] s ts h = h.1
Ascends-right m (t ∷ ss) s ts h = Ascends-right (low t) ss s ts h.1

-- A cluster is sorted and has no gap inside.
abbrev pub IsRun : Sensor × List Sensor → Type 0
IsRun (f, rest) = Ascends (low f) rest × Linked (high f) rest

-- Between `b` and the first cluster, and between neighbouring clusters, a register is missing.
abbrev pub After : ℕ → List (Sensor × List Sensor) → Type 0
After b [] = Unit
After b ((f, rest) ∷ cs) = (b + 1 < low f) × After (reach (high f) rest) cs

abbrev pub Apart : List (Sensor × List Sensor) → Type 0
Apart [] = Unit
Apart ((f, rest) ∷ cs) = After (reach (high f) rest) cs

All-IsRun_from :
    (f : Sensor) (rest : List Sensor) (ss : List Sensor)
    → Ascends (low f) (rest ++ ss)
    → Linked (high f) rest
    → All IsRun (cluster_from f rest (reach (high f) rest) ss)
unfolding cluster_from
All-IsRun_from f rest [] a l = ((Ascends-left (low f) rest [] a, l), tt)
All-IsRun_from f rest (s ∷ ss) a l = elim (Bool-cases (leb (low s) (reach (high f) rest + 1))) [
  | inl e ↦
      rw (e, ← reach-append (high f) rest (s ∷ []))
        (All-IsRun_from f (rest ++ s ∷ []) ss (rw append_assoc a)
          (Linked-append (high f) rest (s ∷ []) l (ground arith, tt)))
  | inr e ↦ rw e (
    (Ascends-left (low f) rest (s ∷ ss) a, l),
    All-IsRun_from s [] ss (Ascends-right (low f) rest s ss a) tt,
  )
]

After-from :
    (b : ℕ) (f : Sensor) (rest : List Sensor) (ss : List Sensor)
    → b + 1 < low f
    → After b (cluster_from f rest (reach (high f) rest) ss)
unfolding cluster_from
After-from b f rest [] h = (h, tt)
After-from b f rest (s ∷ ss) h = elim (Bool-cases (leb (low s) (reach (high f) rest + 1))) [
  | inl e ↦ rw (e, ← reach-append (high f) rest (s ∷ [])) (After-from b f (rest ++ s ∷ []) ss h)
  | inr e ↦ rw e (h, After-from (reach (high f) rest) s [] ss (ground arith))
]

Apart-from :
    (f : Sensor) (rest : List Sensor) (ss : List Sensor)
    → Apart (cluster_from f rest (reach (high f) rest) ss)
unfolding cluster_from
Apart-from f rest [] = tt
Apart-from f rest (s ∷ ss) = elim (Bool-cases (leb (low s) (reach (high f) rest + 1))) [
  | inl e ↦ rw (e, ← reach-append (high f) rest (s ∷ [])) (Apart-from f (rest ++ s ∷ []) ss)
  | inr e ↦ rw e (After-from (reach (high f) rest) s [] ss (ground arith))
]

runs_of_sorted : (ss : List Sensor) → Ascends 0 ss → All IsRun (cluster_sorted ss)
runs_of_sorted [] a = tt
runs_of_sorted (s ∷ ss) a = All-IsRun_from s [] ss a.1 tt

Apart-of_sorted : (ss : List Sensor) → Apart (cluster_sorted ss)
Apart-of_sorted [] = tt
Apart-of_sorted (s ∷ ss) = Apart-from s [] ss

-- Each cluster is sorted by lowest register and has no gap inside, and between two neighbouring
-- clusters there is a gap.
pub clusters_are_maximal_runs :
    (enabled : Sensor → Bool) (ss : List Sensor)
    → let cs = cluster_sensors_by_contiguous_registers enabled ss in All IsRun cs × Apart cs
unfolding cluster_sensors_by_contiguous_registers
clusters_are_maximal_runs enabled ss = (
  runs_of_sorted (sort (select enabled ss)) (sort-Ascends (select enabled ss)),
  Apart-of_sorted (sort (select enabled ss)),
)
