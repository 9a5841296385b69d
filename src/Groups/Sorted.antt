-- ===== src/Groups/Sorted.antt =====
-- sensors/solis_base_sensor.py: the sort of the sensors by their lowest register.
use mathlib.Core.List.{Perm}
use mathlib.Core.List.Perm
use hh_modbus.Base.{ℕ, ◌≤◌, arith, List, [], ◌∷◌, leb, Bool-cases, inl, inr}
use hh_modbus.Groups.{Sensor, low, insert, sort}

insert-perm : (s : Sensor) (ts : List Sensor) → Perm (insert s ts) (s ∷ ts)
insert-perm s [] = Perm.refl _
insert-perm s (t ∷ ts) = elim (Bool-cases (leb (low s) (low t))) [
  | inl e ↦ rw e (Perm.refl _)
  | inr e ↦ rw e (Perm.trans (Perm.cons t (insert-perm s ts)) (Perm.swap s t ts))
]

pub sort-perm : (ss : List Sensor) → Perm (sort ss) ss
unfolding sort
sort-perm [] = Perm.refl []
sort-perm (s ∷ ss) = Perm.trans (insert-perm s (sort ss)) (Perm.cons s (sort-perm ss))

-- Ascending from `m` by the lowest register.
abbrev pub Ascends : ℕ → List Sensor → Type 0
Ascends m [] = Unit
Ascends m (s ∷ ss) = (m ≤ low s) × Ascends (low s) ss

insert-Ascends :
    (m : ℕ) (s : Sensor) (ts : List Sensor) → m ≤ low s → Ascends m ts → Ascends m (insert s ts)
insert-Ascends m s [] h a = (h, tt)
insert-Ascends m s (t ∷ ts) h a = elim (Bool-cases (leb (low s) (low t))) [
  | inl e ↦ rw e (h, (ground arith, a.1))
  | inr e ↦ rw e (a.0, insert-Ascends (low t) s ts (ground arith) a.1)
]

pub sort-Ascends : (ss : List Sensor) → Ascends 0 (sort ss)
unfolding sort
sort-Ascends [] = tt
sort-Ascends (s ∷ ss) = insert-Ascends 0 s (sort ss) (omega arith) (sort-Ascends ss)
