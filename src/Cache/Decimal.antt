-- ===== src/Cache/Decimal.antt =====
-- helpers.py: the printed numbers of a cache key.
use hh_modbus.Base.{
  ℕ, zero, suc, ◌+◌, ◌-◌, ◌*◌, ◌/◌, ◌<◌, ◌≡◌, ◌≢◌, refl, arith, [], ◌∷◌, ◌++◌, ltb, All, All-append,
  Bool-cases, inl, inr, ap, sym, ◌∙◌,
}
use hh_modbus.Cache.{Text, decimal, decimal_fuel}

-- The number that a row of digits is read as.
value_from : ℕ → Text → ℕ
value_from n [] = n
value_from n (c ∷ s) = value_from (n * 10 + (c - b'0')) s

value_from-append :
    (n : ℕ) (s : Text) (c : ℕ) → value_from n (s ++ c ∷ []) ≡ value_from n s * 10 + (c - b'0')
unfolding value_from
value_from-append n [] c = refl
value_from-append n (d ∷ s) c = value_from-append (n * 10 + (d - b'0')) s c

value_from-decimal_fuel : (fuel n : ℕ) → n < fuel → value_from 0 (decimal_fuel fuel n) ≡ n
unfolding decimal_fuel value_from
value_from-decimal_fuel zero n h = absurd (omega arith)
value_from-decimal_fuel (suc fuel) n h = elim (Bool-cases (ltb n 10)) [
  | inl e ↦ rw e (omega arith)
  | inr e ↦
      rw (e, value_from-append)
        (let small : n / 10 < fuel = ground arith in
          omega (arith, value_from-decimal_fuel fuel (n / 10) small))
]

pub decimal_injective : (m n : ℕ) → decimal m ≡ decimal n → m ≡ n
unfolding decimal
decimal_injective m n e =
    sym (value_from-decimal_fuel (suc m) m (omega arith))
    ∙ ap (value_from 0) e
    ∙ value_from-decimal_fuel (suc n) n (omega arith)

abbrev pub NoBar : Text → Type 0
NoBar s = All (λ c. c ≢ b'|') s

decimal_fuel-NoBar : (fuel n : ℕ) → NoBar (decimal_fuel fuel n)
unfolding decimal_fuel
decimal_fuel-NoBar zero n = tt
decimal_fuel-NoBar (suc fuel) n = elim (Bool-cases (ltb n 10)) [
  | inl e ↦ rw e (ground arith, tt)
  | inr e ↦ rw e (
      All-append _ (decimal_fuel fuel (n / 10)) _ (decimal_fuel-NoBar fuel (n / 10))
        (omega arith, tt))
]

pub decimal-NoBar : (n : ℕ) → NoBar (decimal n)
unfolding decimal
decimal-NoBar n = decimal_fuel-NoBar (suc n) n
