-- ===== src/Words/Bits.antt =====
-- helpers.py: single bits of a register value. The native bit operations are taken one binary
-- digit at a time.
use Prim.Native.Nat.{bit_and, bit_or, digits, bit_and-bitwise, bit_or-bitwise}
use native.Mathlib.Nat.{pow-suc, div-div-eq-div-mul, mul_comm}
use hh_modbus.Base.{
  ℕ, zero, suc, ◌+◌, ◌-◌, ◌*◌, ◌/◌, ◌%◌, ◌^◌, ◌≤◌, ◌<◌, min, max, ◌≡◌, refl, arith, ◌==◌, Bool,
  some, if◌then◌else◌, true, false, ap, ◌∙◌,
}
use hh_modbus.Words.{set_bit, get_bit_bool}

-- All fuel from the first number upwards gives the same digits.
module _ (rest : ℕ → ℕ) (f : ℕ → ℕ → ℕ) where
  digits_enough : (n k a b : ℕ) → a ≤ n → a ≤ k → digits rest f n a b ≡ digits rest f k a b
  digits_enough zero zero zero b h h' = refl
  digits_enough zero (suc k) zero b h h' = refl
  digits_enough (suc n) zero zero b h h' = refl
  digits_enough (suc n) (suc k) zero b h h' = refl
  digits_enough zero k (suc a) b h h' = absurd (omega arith)
  digits_enough (suc n) zero (suc a) b h h' = absurd (omega arith)
  digits_enough (suc n) (suc k) (suc a) b h h' =
      ap (λ d. d * 2 + f (suc a % 2) (b % 2))
        (digits_enough n k (suc a / 2) (b / 2) (omega arith) (omega arith))

and_digit : (a b : ℕ) → bit_and a b ≡ bit_and (a / 2) (b / 2) * 2 + min (a % 2) (b % 2)
and_digit zero b = omega (arith, bit_and-bitwise 0 b, bit_and-bitwise 0 (b / 2))
and_digit (suc a) b = omega (
  arith,
  bit_and-bitwise (suc a) b,
  bit_and-bitwise (suc a / 2) (b / 2),
  digits_enough (λ _. zero) min a (suc a / 2) (suc a / 2) (b / 2) (omega arith) (omega arith),
)

or_digit : (a b : ℕ) → bit_or a b ≡ bit_or (a / 2) (b / 2) * 2 + max (a % 2) (b % 2)
or_digit zero b = omega (arith, bit_or-bitwise 0 b, bit_or-bitwise 0 (b / 2))
or_digit (suc a) b = omega (
  arith,
  bit_or-bitwise (suc a) b,
  bit_or-bitwise (suc a / 2) (b / 2),
  digits_enough (λ c. c) max a (suc a / 2) (suc a / 2) (b / 2) (omega arith) (omega arith),
)

bit_and-zero : (n a : ℕ) → a ≤ n → bit_and a 0 ≡ 0
bit_and-zero n zero h = omega (arith, bit_and-bitwise 0 0)
bit_and-zero zero (suc a) h = absurd (omega arith)
bit_and-zero (suc n) (suc a) h =
    omega (arith, and_digit (suc a) 0, bit_and-zero n (suc a / 2) (omega arith))

bit_or-zero : (n a : ℕ) → a ≤ n → bit_or a 0 ≡ a
bit_or-zero n zero h = omega (arith, bit_or-bitwise 0 0)
bit_or-zero zero (suc a) h = absurd (omega arith)
bit_or-zero (suc n) (suc a) h =
    omega (arith, or_digit (suc a) 0, bit_or-zero n (suc a / 2) (omega arith))

bit_or-one : (a : ℕ) → bit_or a 1 ≡ a / 2 * 2 + 1
bit_or-one a = omega (arith, or_digit a 1, bit_or-zero (a / 2) (a / 2) (omega arith))

-- A mask 2 ^ (p + 1) is the mask 2 ^ p on the other digits.
double_mask : (p : ℕ) → (2 ^ suc p / 2 ≡ 2 ^ p) × (2 ^ suc p % 2 ≡ 0)
double_mask p = omega (arith, pow-suc 2 p)

bit_and-mask_suc : (v p : ℕ) → bit_and v (2 ^ suc p) ≡ bit_and (v / 2) (2 ^ p) * 2
bit_and-mask_suc v p =
    let e = and_digit v (2 ^ suc p) in rw (e, (double_mask p).0, (double_mask p).1) (omega arith)

bit_or-mask_suc : (v p : ℕ) → bit_or v (2 ^ suc p) ≡ bit_or (v / 2) (2 ^ p) * 2 + v % 2
bit_or-mask_suc v p =
    let e = or_digit v (2 ^ suc p) in rw (e, (double_mask p).0, (double_mask p).1) (omega arith)

bit_and-mask-le : (p v : ℕ) → bit_and v (2 ^ p) ≤ v
bit_and-mask-le zero v = omega (arith, and_digit v 1, bit_and-zero (v / 2) (v / 2) (omega arith))
bit_and-mask-le (suc p) v = omega (arith, bit_and-mask_suc v p, bit_and-mask-le p (v / 2))

bit_and-one : (v : ℕ) → bit_and v 1 ≡ v % 2
bit_and-one v = omega (arith, and_digit v 1, bit_and-zero (v / 2) (v / 2) (omega arith))

cleared_half : (v p : ℕ) → (v - bit_and v (2 ^ suc p)) / 2 ≡ v / 2 - bit_and (v / 2) (2 ^ p)
cleared_half v p = omega (arith, bit_and-mask_suc v p)

cleared_mod : (v p : ℕ) → (v - bit_and v (2 ^ suc p)) % 2 ≡ v % 2
cleared_mod v p = omega (arith, bit_and-mask_suc v p, bit_and-mask-le (suc p) v)

halve : (v p : ℕ) → v / 2 ^ suc p ≡ v / 2 / 2 ^ p
halve v p = rw (pow-suc, mul_comm, div-div-eq-div-mul) refl

-- `set_bit` and `get_bit_bool`, one digit at a time.
abbrev bit_ℕ : Bool → ℕ
bit_ℕ b = if b then 1 else 0

half_of : (v : ℕ) (b : Bool) → (v / 2 * 2 + bit_ℕ b) / 2 ≡ v / 2
half_of v b = ground arith

pub set_bit_zero : (v : ℕ) (b : Bool) → set_bit (some v) 0 b ≡ v / 2 * 2 + bit_ℕ b
unfolding set_bit
set_bit_zero v true = omega (arith, bit_or-one (v - bit_and v 1), bit_and-one v)
set_bit_zero v false = omega (arith, bit_and-one v)

pub set_bit-suc :
    (v p : ℕ) (b : Bool) → set_bit (some v) (suc p) b ≡ set_bit (some (v / 2)) p b * 2 + v % 2
unfolding set_bit
set_bit-suc v p true = rw (bit_or-mask_suc, cleared_half v p) (omega (arith, cleared_mod v p))
set_bit-suc v p false =
    omega (arith, bit_and-mask_suc v p, bit_and-mask-le p (v / 2), bit_and-mask-le (suc p) v)

pub get_bit_bool_zero : (v : ℕ) → get_bit_bool v 0 ≡ (v % 2 == 1)
unfolding get_bit_bool
get_bit_bool_zero v = ground arith

pub get_bit_bool-suc : (v p : ℕ) → get_bit_bool v (suc p) ≡ get_bit_bool (v / 2) p
unfolding get_bit_bool
get_bit_bool-suc v p = rw (halve v p)

half_sum : (x v : ℕ) → (x * 2 + v % 2) / 2 ≡ x
half_sum x v = omega arith

-- Writing one bit writes that bit and leaves every other bit as it was.
pub get_bit_bool-set_bit :
    (v p q : ℕ) (b : Bool)
    → get_bit_bool (set_bit (some v) p b) q ≡ (if p == q then b else get_bit_bool v q)
get_bit_bool-set_bit v zero zero b = rw (set_bit_zero, get_bit_bool_zero) (ground arith)
get_bit_bool-set_bit v zero (suc q) b =
    rw (get_bit_bool-suc, get_bit_bool-suc, set_bit_zero, half_of v b) (ground arith)
get_bit_bool-set_bit v (suc p) zero b =
    rw (set_bit-suc, get_bit_bool_zero, get_bit_bool_zero) (ground arith)
get_bit_bool-set_bit v (suc p) (suc q) b =
    rw (get_bit_bool-suc, get_bit_bool-suc, set_bit-suc, half_sum (set_bit (some (v / 2)) p b) v)
      (get_bit_bool-set_bit (v / 2) p q b ∙ ground arith)

-- A register value stays a 16-bit word.
pub set_bit-lt : (w v p : ℕ) (b : Bool) → p < w → v < 2 ^ w → set_bit (some v) p b < 2 ^ w
set_bit-lt zero v p b h lt = absurd (omega arith)
set_bit-lt (suc w) v zero b h lt = ground (arith, pow-suc 2 w, set_bit_zero v b)
set_bit-lt (suc w) v (suc p) b h lt = omega (
  arith,
  pow-suc 2 w,
  set_bit-suc v p b,
  set_bit-lt w (v / 2) p b (omega arith) (omega (arith, pow-suc 2 w)),
)
