-- ===== src/Retrieval/Bisect/Least.antt =====
-- data_retrieval.py: the bisection on an inverter whose register map has fixed holes.
use native.Mathlib.Nat.{add_assoc}
use hh_modbus.Base.{
  ℕ, zero, suc, ◌+◌, ◌-◌, ◌/◌, ◌≤◌, ◌<◌, ◌≡◌, refl, arith, Bool, true, false, not, ◌||◌, List, some,
  length, Bool-cases, inl, inr, ap, ◌∙◌, sym,
}
use hh_modbus.Groups.{RegisterType}
use hh_modbus.Controller.{Client, State, Frame, ok, error}
use hh_modbus.Retrieval.Bisect.{probe_quiet, isolate_one_bad_register}

-- Some register of the block is bad.
abbrev pub has_bad : (ℕ → Bool) → ℕ → ℕ → Bool
has_bad bad start zero = false
has_bad bad start (suc count) = bad start || has_bad bad (start + 1) count

has_bad_split :
    (bad : ℕ → Bool) (left right start : ℕ)
    → has_bad bad start (left + right)
      ≡ (has_bad bad start left || has_bad bad (start + left) right)
has_bad_split bad zero right start =
    let e : 0 + right ≡ right = omega arith in
    let e' : start + 0 ≡ start = omega arith in rw (e, e') refl
has_bad_split bad (suc left) right start =
    let e : suc left + right ≡ suc (left + right) = omega arith in
    let e' : start + suc left ≡ start + 1 + left = omega arith in
    rw (e, e', has_bad_split bad left right (start + 1)) (ground arith)

-- The documented behaviour of a Modbus server whose address map is fixed: a block with no hole is
-- answered in full, and a block with a hole is refused with exception 2, illegal data address.
pub record HasHoles (client : Client) (type : RegisterType) (bad : ℕ → Bool) : Type 0 where
  pub answered :
      (wire : List Frame) (start count unit : ℕ)
      → has_bad bad start count ≡ false
      → (values : List ℕ) × ((client.read wire type start count unit).reply ≡ ok values)
        × (length values ≡ count)
  pub refused :
      (wire : List Frame) (start count unit : ℕ)
      → has_bad bad start count ≡ true
      → (client.read wire type start count unit).reply ≡ error (some 2)

module _ (client : Client) (type : RegisterType) (bad : ℕ → Bool)
    (holes : HasHoles client type bad) where
  probe_quiet_holes :
      (start count : ℕ) (s : State)
      → 0 < count
      → (probe_quiet client type start count s).0 ≡ not (has_bad bad start count)
  unfolding probe_quiet
  probe_quiet_holes start count s h = elim (Bool-cases (has_bad bad start count)) [
    | inl e ↦ ground (arith, holes.refused s.wire start count s.unit.device_id e)
    | inr e ↦
        let (values, r, l) = holes.answered s.wire start count s.unit.device_id e in
        ground (arith, r, l)
  ]

  isolate_left :
      (fuel start count : ℕ) (s : State)
      → 1 < count
      → has_bad bad start (count / 2) ≡ true
      → (isolate_one_bad_register client (suc fuel) type start count s).0
        ≡ (isolate_one_bad_register client fuel type start
            (count / 2)
            (probe_quiet client type start (count / 2) s).1).0
  unfolding isolate_one_bad_register
  isolate_left fuel start count s h left =
      ground (arith, probe_quiet_holes start (count / 2) s (omega arith))

  isolate_right :
      (fuel start count : ℕ) (s : State)
      → 1 < count
      → has_bad bad start (count / 2) ≡ false
      → has_bad bad (start + count / 2) (count - count / 2) ≡ true
      → let s' = (probe_quiet client type start (count / 2) s).1 in
        (isolate_one_bad_register client (suc fuel) type start count s).0
        ≡ (isolate_one_bad_register client fuel type
            (start + count / 2)
            (count - count / 2)
            (probe_quiet client type (start + count / 2) (count - count / 2) s').1).0
  unfolding isolate_one_bad_register
  isolate_right fuel start count s h left right =
      let s' = (probe_quiet client type start (count / 2) s).1 in
      ground (
        arith,
        probe_quiet_holes start (count / 2) s (omega arith),
        probe_quiet_holes (start + count / 2) (count - count / 2) s' (omega arith),
      )

  -- The k-th register of the block is bad and none before it.
  abbrev pub IsLeast : ℕ → ℕ → ℕ → Type 0
  IsLeast start count k = (k < count) × (bad (start + k) ≡ true) × (has_bad bad start k ≡ false)

  IsLeast-right :
      (start n mid rest k : ℕ)
      → n ≡ mid + rest
      → has_bad bad start mid ≡ false
      → IsLeast (start + mid) rest k
      → IsLeast start n (mid + k)
  IsLeast-right start n mid rest k e left h = (
    omega (arith, h.0),
    rw (← add_assoc start mid k) (h.1),
    rw (has_bad_split bad mid k start, left) (h.2),
  )

  has_bad_right :
      (start n mid rest : ℕ)
      → n ≡ mid + rest
      → has_bad bad start n ≡ true
      → has_bad bad start mid ≡ false
      → has_bad bad (start + mid) rest ≡ true
  has_bad_right start n mid rest e h left = rw (e, has_bad_split bad mid rest start, left) at h

  -- A block of one register is not probed again.
  isolate_one :
      (fuel start : ℕ) (s : State)
      → (isolate_one_bad_register client (suc fuel) type start 1 s).0 ≡ some start
  unfolding isolate_one_bad_register
  isolate_one fuel start s = refl

  -- Against an inverter whose register map has fixed holes, the bisection of a block with some bad
  -- register ends with the lowest bad register of the block; the count of registers is enough fuel.
  pub isolate-IsLeast :
      (fuel start count : ℕ) (s : State)
      → count ≤ fuel
      → has_bad bad start count ≡ true
      → (k : ℕ) × ((isolate_one_bad_register client fuel type start count s).0 ≡ some (start + k))
        × IsLeast start count k
  isolate-IsLeast fuel start zero s enough h = cc
  isolate-IsLeast zero start (suc n) s enough h = absurd (omega arith)
  isolate-IsLeast (suc fuel) start (suc zero) s enough h =
      let same : start + 0 ≡ start = omega arith in
      (
        0,
        isolate_one fuel start s ∙ ap some (sym same),
        (omega arith, rw same (ground arith), refl),
      )
  isolate-IsLeast (suc fuel) start (suc (suc n)) s enough h =
      elim (Bool-cases (has_bad bad start mid)) [
        | inl left ↦
            let (k, e, least) =
              isolate-IsLeast fuel start mid (probe_quiet client type start mid s).1 (omega arith)
                left in
            (
              k,
              isolate_left fuel start count s (omega arith) left ∙ e,
              (omega (arith, least.0), least.1, least.2),
            )
        | inr left ↦
            let right : has_bad bad (start + mid) rest ≡ true =
              has_bad_right start count mid rest parts h left in
            let s' = (probe_quiet client type start mid s).1 in
            let (k, e, least) =
              isolate-IsLeast fuel (start + mid) rest
                (probe_quiet client type (start + mid) rest s').1 (omega arith) right in
            (
              mid + k,
              isolate_right fuel start count s (omega arith) left right
                  ∙ e
                  ∙ ap some (add_assoc start mid k),
              IsLeast-right start count mid rest k parts left least,
            )
      ]
    where
      count : ℕ
      count = suc (suc n)

      mid : ℕ
      mid = count / 2

      rest : ℕ
      rest = count - mid

      parts : count ≡ mid + rest
      parts = omega arith
