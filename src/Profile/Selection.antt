-- ===== src/Profile/Selection.antt =====
-- helpers.py and __init__.py: what a poll profile keeps.
use Prim.Native.String.{String}
use hh_modbus.Base.{
  ℕ, ◌≡◌, refl, arith, Bool, true, false, ◌||◌, ◌&&◌, not, List, [], ◌∷◌, ◌++◌, some, elem, all,
  any, select, Bool-cases, inl, inr, All, if◌then◌else◌, ◌==◌, ==_iff, ◌↔◌, get_or,
}
use hh_modbus.Inverter.{InverterFeature}
use hh_modbus.Profile.{
  PollProfile, full, essential, extreme, GroupDef, EntityDef, group_in_poll_profile, select_groups,
  registers_declared_by, derived_sensor_is_supported, EntryConfig, get_poll_profile, over,
  feature_allows, registers_of_entities, parse_profile,
}

elem-append : (a : ℕ) (xs ys : List ℕ) → elem a (xs ++ ys) ≡ (elem a xs || elem a ys)
elem-append a [] ys = refl
elem-append a (x ∷ xs) ys = ground (arith, elem-append a xs ys)

-- Some selected group declares the register.
abbrev pub declares : ℕ → GroupDef → Bool
declares r g = elem r (registers_of_entities g.entities)

pub elem-registers_declared_by :
    (r : ℕ) (gs : List GroupDef) → elem r (registers_declared_by gs) ≡ any (declares r) gs
unfolding registers_declared_by
elem-registers_declared_by r [] = refl
elem-registers_declared_by r (g ∷ gs) =
    rw
      (
        elem-append r (registers_of_entities g.entities) (registers_declared_by gs),
        elem-registers_declared_by r gs,
      )
      refl

all_elim : (p : ℕ → Bool) (r : ℕ) (rs : List ℕ) → all p rs ≡ true → elem r rs ≡ true → p r ≡ true
all_elim p r [] h m = cc
all_elim p r (x ∷ rs) h m = elim (Bool-cases (r == x)) [
  | inl same ↦ let e : r ≡ x = (==_iff r x).0 same in rw e (ground arith)
  | inr other ↦ all_elim p r rs (ground arith) (rw other at m)
]

all_intro :
    (p : ℕ → Bool) (rs : List ℕ) → ((r : ℕ) → elem r rs ≡ true → p r ≡ true) → all p rs ≡ true
all_intro p [] h = refl
all_intro p (x ∷ rs) h = rw (h x (ground arith), all_intro p rs (λ r m. h r (ground arith))) refl

-- A derived sensor is supported exactly when every register it reads that some group of the table
-- declares is also declared by a selected group.
pub derived_sensor_is_supported_iff :
    (selected sensors : List GroupDef) (e : EntityDef)
    → (derived_sensor_is_supported e
          (registers_declared_by selected)
          (registers_declared_by sensors)
        ≡ true)
      ↔ ((r : ℕ)
          → elem r e.registers ≡ true
          → any (declares r) sensors ≡ true
          → any (declares r) selected ≡ true)
unfolding derived_sensor_is_supported
derived_sensor_is_supported_iff selected sensors e = (
  λ h r m known. ground (
    arith,
    all_elim
        (λ x.
          not (elem x (registers_declared_by sensors)) || elem x (registers_declared_by selected))
        r e.registers h m,
    elem-registers_declared_by r sensors,
    elem-registers_declared_by r selected,
  ),
  λ h. all_intro _ e.registers λ r m.
      ground
        (arith, h r m, elem-registers_declared_by r sensors, elem-registers_declared_by r selected),
)

any-select {ℓ} :
    {A : Type ℓ} (q p : A → Bool) (xs : List A) → any q (select p xs) ≡ any (λ x. p x && q x) xs
any-select q p [] = refl
any-select q p (x ∷ xs) = ground (arith, any-select q p xs)

any_mono {ℓ} :
    {A : Type ℓ} (p q : A → Bool) (xs : List A)
    → ((x : A) → p x ≡ true → q x ≡ true)
    → any p xs ≡ true
    → any q xs ≡ true
any_mono p q [] h e = e
any_mono p q (x ∷ xs) h e = ground (arith, h x, any_mono p q xs h)

-- One selection polls what another polls, if it keeps every group that the other keeps.
polled_mono :
    (p q : GroupDef → Bool) (gs : List GroupDef) (r : ℕ)
    → ((g : GroupDef) → p g ≡ true → q g ≡ true)
    → elem r (registers_declared_by (select p gs)) ≡ true
    → elem r (registers_declared_by (select q gs)) ≡ true
polled_mono p q gs r h e =
    rw (elem-registers_declared_by r (select q gs), any-select (declares r) q gs)
      (any_mono (λ g. p g && declares r g) (λ g. q g && declares r g) gs
        (λ g k. ground (arith, h g))
        (rw (elem-registers_declared_by r (select p gs), any-select (declares r) p gs) at e))

kept : List InverterFeature → PollProfile → Bool → Bool → GroupDef → Bool
kept fs p b s g = feature_allows g.feature_requirement fs && group_in_poll_profile g p b s

kept_switches :
    (fs : List InverterFeature) (p : PollProfile) (b s : Bool) (g : GroupDef)
    → kept fs p b s g ≡ true
    → kept fs p true true g ≡ true
unfolding kept group_in_poll_profile
kept_switches fs full b s g h = h
kept_switches fs essential b s g h = h
kept_switches fs extreme b s g h = ground arith

kept_full :
    (fs : List InverterFeature) (p : PollProfile) (b s : Bool) (g : GroupDef)
    → kept fs p b s g ≡ true
    → kept fs full b s g ≡ true
unfolding kept group_in_poll_profile
kept_full fs full b s g h = h
kept_full fs essential b s g h = ground arith
kept_full fs extreme b s g h = ground arith

-- With the switches of the extreme profile turned on, and from any profile to the full one, no
-- register that was polled is lost.
pub select_groups_mono :
    (fs : List InverterFeature) (p : PollProfile) (b s : Bool) (gs : List GroupDef) (r : ℕ)
    → elem r (registers_declared_by (select_groups fs p b s gs)) ≡ true
    → (elem r (registers_declared_by (select_groups fs p true true gs)) ≡ true)
      × (elem r (registers_declared_by (select_groups fs full b s gs)) ≡ true)
unfolding select_groups kept
select_groups_mono fs p b s gs r h = (
  polled_mono (kept fs p b s) (kept fs p true true) gs r (kept_switches fs p b s) h,
  polled_mono (kept fs p b s) (kept fs full b s) gs r (kept_full fs p b s) h,
)

-- No group is polled for a feature that the inverter lacks.
pub select_groups_features :
    (fs : List InverterFeature) (p : PollProfile) (b s : Bool) (gs : List GroupDef)
    → All (λ g. feature_allows g.feature_requirement fs ≡ true) (select_groups fs p b s gs)
unfolding select_groups
select_groups_features fs p b s [] = tt
select_groups_features fs p b s (g ∷ gs) = ground (arith, select_groups_features fs p b s gs)

-- A half-migrated entry keeps the subset that its user chose: without a known profile name the old
-- boolean decides, and an option overrides the entry's data.
pub get_poll_profile_fallback :
    (d o : EntryConfig) (name : String)
    → o.poll_profile ≡ some name
    → get_poll_profile d o
      ≡ get_or
          (parse_profile name)
          (if get_or (over d.essential_only o.essential_only) false then essential else full)
unfolding get_poll_profile
get_poll_profile_fallback d o name h = rw h refl
