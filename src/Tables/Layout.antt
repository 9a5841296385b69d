-- ===== src/Tables/Layout.antt =====
-- sensor_data: how the groups of the tables lie in the inverter's registers. A group is read as one
-- block from its first register on, as many registers as its sensors name.
use mathlib.Core.Option.{some-injective}
use hh_modbus.Base.{
  ℕ, zero, suc, ◌+◌, ◌≤◌, min, ◌∙◌, ◌≡◌, refl, sym, ==_iff, arith, Bool, true, false, ◌&&◌, ◌||◌,
  not, List, [], ◌∷◌, some, length, all, ltb, leb, ◌==◌, get_elem?, elem,
}
use hh_modbus.Inverter.{InverterType}
use hh_modbus.Groups.{RegisterType, input, holding, min_from}
use hh_modbus.Tables.{GroupTable, group_registers, group_type, group_start, least_of}
use hh_modbus.Tables.Brands.{
  InverterBrand, solis, sunsynk, givenergy, sigenergy, solaredge, skyline, duracell, is_sunsynk,
  brand_sensors,
}
use hh_modbus.Tables.Fit.{all-get_elem?}

-- The registers are n, n + 1 and so on.
abbrev is_run : ℕ → List ℕ → Bool
is_run n [] = true
is_run n (r ∷ rs) = n == r && is_run (n + 1) rs

elem-run :
    (n r : ℕ) (rs : List ℕ) → is_run n rs ≡ true → elem r rs ≡ (leb n r && ltb r (n + length rs))
elem-run n r [] h = ground arith
elem-run n r (x ∷ xs) h = ground (arith, h, elem-run (n + 1) r xs)

min_from-run : (n m : ℕ) (rs : List ℕ) → is_run n rs ≡ true → m ≤ n → min_from m rs ≡ m
min_from-run n m [] h le = refl
min_from-run n m (x ∷ xs) h le =
    let first : n ≡ x = (==_iff n x).0 (ground (arith, h)) in
    let later : is_run (n + 1) xs ≡ true = ground (arith, h) in
    let least : min m x ≡ m = omega (arith, first, le) in
    rw least (min_from-run (n + 1) m xs later (omega arith))

least_of-run : (n : ℕ) (rs : List ℕ) → is_run n rs ≡ true → least_of n rs ≡ n
least_of-run n [] h = refl
least_of-run n (x ∷ xs) h =
    let first : n ≡ x = (==_iff n x).0 (ground (arith, h)) in
    let later : is_run (n + 1) xs ≡ true = ground (arith, h) in
    min_from-run (n + 1) x xs later (omega (arith, first)) ∙ sym first

abbrev solid : GroupTable → Bool
solid g = is_run g.start (group_registers g)

abbrev finish : GroupTable → ℕ
finish g = g.start + length (group_registers g)

abbrev same_type : RegisterType → RegisterType → Bool
same_type input input = true
same_type holding holding = true
same_type _ _ = false

abbrev apart : GroupTable → GroupTable → Bool
unfolding group_type
apart g h =
    not (same_type (group_type g) (group_type h))
    || leb (finish g) h.start
    || leb (finish h) g.start

abbrev all_apart : List GroupTable → Bool
all_apart [] = true
all_apart (g ∷ gs) = all (λ h. apart g h) gs && all_apart gs

laid_out :
    (b : InverterBrand) (t : InverterType)
    → is_sunsynk b ≡ false
    → (all (λ g. solid g) (brand_sensors b t) && all_apart (brand_sensors b t)) ≡ true
unfolding brand_sensors apart group_type
laid_out solis InverterType.hybrid h = refl
laid_out solis InverterType.string h = refl
laid_out solis InverterType.grid h = refl
laid_out solis InverterType.energy h = refl
laid_out solis InverterType.waveshare h = refl
laid_out sunsynk t h = absurd (cc)
laid_out givenergy t h = refl
laid_out sigenergy t h = refl
laid_out solaredge t h = refl
laid_out skyline t h = refl
laid_out duracell t h = refl

-- Two groups at different places are apart.
at_places :
    (gs : List GroupTable) (i j : ℕ) (g h : GroupTable)
    → all_apart gs ≡ true
    → get_elem? gs i ≡ some g
    → get_elem? gs j ≡ some h
    → (i == j || apart g h || apart h g) ≡ true
at_places [] i j g h ok at_g at_h = absurd (cc)
at_places (x ∷ xs) zero zero g h ok at_g at_h = refl
at_places (x ∷ xs) zero (suc j) g h ok at_g at_h =
    let later = all-get_elem? (λ k. apart x k) xs j h (ground (arith, ok)) at_h in
    let same : x ≡ g = some-injective x g at_g in
    let found : apart g h ≡ true = rw⁻¹ same later in rw found (ground arith)
at_places (x ∷ xs) (suc i) zero g h ok at_g at_h =
    let later = all-get_elem? (λ k. apart x k) xs i g (ground (arith, ok)) at_g in
    let same : x ≡ h = some-injective x h at_h in
    let found : apart h g ≡ true = rw⁻¹ same later in rw found (ground arith)
at_places (x ∷ xs) (suc i) (suc j) g h ok at_g at_h =
    let here : all_apart xs ≡ true = ground (arith, ok) in
    ground (arith, at_places xs i j g h here at_g at_h)

same_type_self : (t : RegisterType) → same_type t t ≡ true
same_type_self input = refl
same_type_self holding = refl

not_apart :
    (g h : GroupTable) (r : ℕ)
    → group_type g ≡ group_type h
    → solid g ≡ true
    → solid h ≡ true
    → elem r (group_registers g) ≡ true
    → elem r (group_registers h) ≡ true
    → apart g h ≡ false
unfolding apart
not_apart g h r types sg sh in_g in_h =
    let same : same_type (group_type g) (group_type h) ≡ true =
      rw types (same_type_self (group_type h)) in
    ground (
      arith,
      same,
      in_g,
      in_h,
      elem-run g.start r (group_registers g) sg,
      elem-run h.start r (group_registers h) sh,
    )

module _ (b : InverterBrand) (t : InverterType) (other : is_sunsynk b ≡ false) (i : ℕ)
    (g : GroupTable) (at_g : get_elem? (brand_sensors b t) i ≡ some g) where
  -- In the tables of every brand but Sunsynk, the block that is read for a group has no register
  -- but those of the group's sensors, and all of those.
  pub group_is_block :
      (r : ℕ)
      → elem r (group_registers g)
        ≡ (leb (group_start g) r && ltb r (group_start g + length (group_registers g)))
  group_is_block r =
      let run =
        all-get_elem? (λ g. solid g) (brand_sensors b t) i g (ground (arith, laid_out b t other))
          at_g in
      rw (least_of-run g.start (group_registers g) run) (elem-run g.start r (group_registers g) run)

  -- In the tables of every brand but Sunsynk no register of a type is named by two groups: a
  -- register is polled through one group.
  pub register_polled_once :
      (j r : ℕ) (h : GroupTable)
      → get_elem? (brand_sensors b t) j ≡ some h
      → group_type g ≡ group_type h
      → elem r (group_registers g) ≡ true
      → elem r (group_registers h) ≡ true
      → i ≡ j
  register_polled_once j r h at_h types in_g in_h =
      let all_solid : all (λ k. solid k) (brand_sensors b t) ≡ true =
        ground (arith, laid_out b t other) in
      let sg = all-get_elem? (λ k. solid k) (brand_sensors b t) i g all_solid at_g in
      let sh = all-get_elem? (λ k. solid k) (brand_sensors b t) j h all_solid at_h in
      let gh = not_apart g h r types sg sh in_g in_h in
      let hg = not_apart h g r (sym types) sh sg in_h in_g in
      let placed =
        at_places (brand_sensors b t) i j g h (ground (arith, laid_out b t other)) at_g at_h in
      (==_iff i j).0 (ground (arith, gh, hg, placed))
