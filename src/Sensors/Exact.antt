-- ===== src/Sensors/Exact.antt =====
-- sensors/solis_number_sensor.py: the exact quotient of a multiple of a multiplier.
use native.Mathlib.Nat.{mul-div_cancel, mul-mod_left, mul-pos, mul_assoc, pow-suc}
use hh_modbus.Base.{
  ℕ, zero, suc, ◌+◌, ◌-◌, ◌*◌, ◌^◌, ◌<◌, ◌≡◌, refl, ap, ◌∙◌, arith, false, some, ◌==◌,
}
use hh_modbus.Base.Int.{ℤ, pos, negsuc}
use hh_modbus.Sensors.{Amount, dec, times, mul_ℤ, is_zero}
use hh_modbus.Sensors.Number.{round_quotient, round_ratio, round_div}

round_quotient_exact : (k d : ℕ) → 0 < d → round_quotient (k * d) d ≡ k
unfolding round_quotient
round_quotient_exact k d h =
    let q = mul-div_cancel k h in let r = mul-mod_left k d in rw (q, r) (ground arith)

mul_pos : (n c : ℕ) → mul_ℤ (pos n) (pos c) ≡ pos (n * c)
unfolding mul_ℤ
mul_pos n c = ground arith

mul_negsuc : (n c : ℕ) → mul_ℤ (negsuc n) (pos (suc c)) ≡ negsuc (suc n * suc c - 1)
unfolding mul_ℤ
mul_negsuc n c = ground arith

pow_positive : (e : ℕ) → 0 < 10 ^ e
pow_positive zero = omega arith
pow_positive (suc e) = omega (arith, pow-suc 10 e, pow_positive e)

product_positive : (a b : ℕ) → 0 < a → 0 < b → 0 < a * b
product_positive a b h k = mul-pos h k

-- An exact multiple divides without a rest, whatever its sign.
round_ratio_exact :
    (k : ℤ) (c p : ℕ) → 0 < c → 0 < p → round_ratio (mul_ℤ (mul_ℤ k (pos c)) (pos p)) (c * p) ≡ k
unfolding round_ratio
round_ratio_exact (pos n) c p hc hp =
    rw
      (
        mul_pos n c,
        mul_pos (n * c) p,
        mul_assoc n c p,
        round_quotient_exact n (c * p) (mul-pos hc hp),
      )
      refl
round_ratio_exact (negsuc n) zero p hc hp = absurd (omega arith)
round_ratio_exact (negsuc n) (suc c) zero hc hp = absurd (omega arith)
round_ratio_exact (negsuc n) (suc c) (suc p) hc hp =
    let x = suc n * suc c - 1 in
    let ex : suc x ≡ suc n * suc c =
      omega (arith, product_positive (suc n) (suc c) (omega arith) (omega arith)) in
    let ey : suc x * suc p - 1 + 1 ≡ suc n * (suc c * suc p) =
      omega (arith, product_positive (suc x) (suc p) (omega arith) (omega arith))
      ∙ ap (λ y. y * suc p) ex
      ∙ mul_assoc (suc n) (suc c) (suc p) in
    rw
      (
        mul_negsuc n c,
        mul_negsuc x p,
        ey,
        round_quotient_exact (suc n) (suc c * suc p) (mul-pos hc hp),
      )
      (ground arith)

amount : ℤ → ℕ → Amount
amount n e = record { mantissa = n; exponent = e }

pub round_div_exact : (k : ℤ) (c e : ℕ) → 0 < c → round_div (times k (dec c e)) (dec c e) ≡ some k
unfolding round_div times is_zero
round_div_exact k c e h =
    let z : (c == 0) ≡ false = ground (arith, h) in
    let same : c + 0 ≡ c = omega arith in
    rw (z, same, round_ratio_exact k c (10 ^ e) h (pow_positive e)) refl
