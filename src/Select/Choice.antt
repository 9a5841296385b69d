-- ===== src/Select/Choice.antt =====
-- solis_select_entity.py: an option that was chosen, as `current_option` reads it.
use hh_modbus.Base.{
  ℕ, ◌≡◌, refl, arith, Bool, true, false, not, ◌||◌, List, [], ◌∷◌, ◌==◌, ==_iff, if◌then◌else◌,
  any, all, elem, select, Bool-cases, inl, inr,
}
use hh_modbus.Words.{get_bit_bool}
use hh_modbus.Words.Bits.{get_bit_bool-set_bit}
use hh_modbus.Switch.{set_bits}
use hh_modbus.Switch.Bits.{get_bit_bool-set_bits}
use hh_modbus.Select.{SelectOption, bit_matches, option_bits}

-- The bits of the value that is written.
get_bit_bool-option_bits :
    (e : SelectOption) (position v q : ℕ)
    → get_bit_bool (option_bits e position v) q ≡ (
        if position == q || elem q e.requires
        then true
        else if elem q e.conflicts_with
        then false
        else get_bit_bool v q)
unfolding option_bits
get_bit_bool-option_bits e position v q =
    let cleared = set_bits e.conflicts_with false v in
    rw
      (
        get_bit_bool-set_bit (set_bits e.requires true cleared) position q true,
        get_bit_bool-set_bits e.requires true cleared q,
        get_bit_bool-set_bits e.conflicts_with false v q,
      )
      (ground arith)

all-set : (p : ℕ → Bool) (rs : List ℕ) → ((q : ℕ) → elem q rs ≡ true → p q ≡ true) → all p rs ≡ true
all-set p [] h = refl
all-set p (r ∷ rs) h =
    let here : p r ≡ true = h r (ground (arith, ==_iff r r)) in
    rw (here, all-set p rs (λ q k. h q (ground (arith, k)))) refl

any-clear :
    (p out : ℕ → Bool) (cs : List ℕ)
    → ((q : ℕ) → elem q cs ≡ true → out q ≡ false → p q ≡ false)
    → any p (select (λ c. not (out c)) cs) ≡ false
any-clear p out [] h = refl
any-clear p out (c ∷ cs) h =
    let rest = any-clear p out cs (λ q k. h q (ground (arith, k))) in
    elim (Bool-cases (out c)) [
      | inl o ↦ rw o rest
      | inr o ↦ let here : p c ≡ false = h c (ground (arith, ==_iff c c)) o in rw (o, here) rest
    ]

-- What the choice of an option that is a bit writes is matched by that option, in the strict pass
-- and in the lenient one, whatever the register held.
pub bit_matches-option_bits :
    (e : SelectOption) (position v : ℕ) (strict : Bool)
    → bit_matches strict e position (option_bits e position v) ≡ true
unfolding bit_matches
bit_matches-option_bits e position v strict =
    let w = option_bits e position v in
    let own : get_bit_bool w position ≡ true =
      rw (get_bit_bool-option_bits e position v position)
        (ground (arith, ==_iff position position)) in
    let required : all (get_bit_bool w) e.requires ≡ true =
      all-set (get_bit_bool w) e.requires
        (λ q k. rw (get_bit_bool-option_bits e position v q) (ground (arith, k))) in
    let clear : any (get_bit_bool w)
          (select (λ c. not (elem c (position ∷ e.requires))) e.conflicts_with)
        ≡ false =
      any-clear (get_bit_bool w) (λ c. elem c (position ∷ e.requires)) e.conflicts_with
        (λ q k o.
          rw (get_bit_bool-option_bits e position v q)
            (ground (arith, k, o, ==_iff q position, ==_iff position q))) in
    rw (own, required, clear) (ground arith)
