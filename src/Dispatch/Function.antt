-- ===== src/Dispatch/Function.antt =====
-- __init__.py: the bits of the function word.
use hh_modbus.Base.{
  ℕ, ◌/◌, ◌%◌, ◌^◌, ◌<◌, ◌≡◌, refl, arith, Bool, true, false, List, [], ◌∷◌, Option, none, some,
  ◌==◌, ==_iff, all, All, Bool-cases, inl, inr,
}
use hh_modbus.Dispatch.{pair, dispatch_function_value}

-- The two bits of the word from `position` on.
abbrev pub field : ℕ → ℕ → ℕ
field position word = word / 2 ^ position % 4

abbrev settings : List (Option Bool)
settings = none ∷ some true ∷ some false ∷ []

all-settings : (P : Option Bool → Bool) → all P settings ≡ true → (o : Option Bool) → P o ≡ true
all-settings P h none = ground arith
all-settings P h (some true) = ground arith
all-settings P h (some false) = ground arith

-- The comparisons of a list hold.
all_equal : (ps : List (ℕ × ℕ)) → all (λ p. p.0 == p.1) ps ≡ true → All (λ p. p.0 ≡ p.1) ps
all_equal [] h = tt
all_equal (p ∷ ps) h = elim (Bool-cases (p.0 == p.1)) [
  | inl e ↦ ((==_iff p.0 p.1).0 e, all_equal ps (rw e at h))
  | inr e ↦ absurd (ground arith)
]

-- Where the word of five settings is, and where it should be.
abbrev places : Option Bool → Option Bool → Option Bool → Option Bool → Option Bool → List (ℕ × ℕ)
places a b c d e =
    let w = dispatch_function_value a b c d e in
    (field 0 w, pair a 2 1)
    ∷ (field 4 w, pair b 1 2)
    ∷ (field 8 w, pair d 2 1)
    ∷ (field 10 w, pair c 2 1)
    ∷ (field 14 w, pair e 2 1)
    ∷ (field 2 w, 0)
    ∷ (field 6 w, 0)
    ∷ (field 12 w, 0)
    ∷ (w / 2 ^ 16, 0)
    ∷ []

abbrev is_packed : Option Bool → Option Bool → Option Bool → Option Bool → Option Bool → Bool
is_packed a b c d e = all (λ p. p.0 == p.1) (places a b c d e)

every_word_is_packed :
    all
      (λ a.
        all
          (λ b. all (λ c. all (λ d. all (λ e. is_packed a b c d e) settings) settings) settings)
          settings)
      settings
    ≡ true
unfolding dispatch_function_value pair
every_word_is_packed = refl

small : (w : ℕ) → w / 2 ^ 16 ≡ 0 → w < 2 ^ 16
small w h = omega arith

-- Each of the five settings stands in its own two bits of the 16-bit function word, as its code, 0
-- where the call leaves it out; the other bits are 0.
pub dispatch_function_value_fields :
    (pv_shutdown allow_grid_charge disable_discharge battery_reserve pv_limit : Option Bool)
    → let w =
        dispatch_function_value pv_shutdown allow_grid_charge disable_discharge battery_reserve
          pv_limit in
      (field 0 w ≡ pair pv_shutdown 2 1)
      × (field 4 w ≡ pair allow_grid_charge 1 2)
      × (field 8 w ≡ pair battery_reserve 2 1)
      × (field 10 w ≡ pair disable_discharge 2 1)
      × (field 14 w ≡ pair pv_limit 2 1)
      × (field 2 w ≡ 0)
      × (field 6 w ≡ 0)
      × (field 12 w ≡ 0)
      × (w < 2 ^ 16)
dispatch_function_value_fields a b c d e =
    let for_a =
      all-settings
        (λ a.
          all (λ b. all (λ c. all (λ d. all (λ e. is_packed a b c d e) settings) settings) settings)
            settings)
        every_word_is_packed a in
    let for_b =
      all-settings
        (λ b. all (λ c. all (λ d. all (λ e. is_packed a b c d e) settings) settings) settings) for_a
        b in
    let for_c =
      all-settings (λ c. all (λ d. all (λ e. is_packed a b c d e) settings) settings) for_b c in
    let for_d = all-settings (λ d. all (λ e. is_packed a b c d e) settings) for_c d in
    let fits = all-settings (λ e. is_packed a b c d e) for_d e in
    let (f0, (f4, (f8, (f10, (f14, (f2, (f6, (f12, (high, _))))))))) =
      all_equal (places a b c d e) fits in
    (f0, f4, f8, f10, f14, f2, f6, f12, small _ high)
