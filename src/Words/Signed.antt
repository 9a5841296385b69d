-- ===== src/Words/Signed.antt =====
-- helpers.py: pairs of registers as 32-bit numbers, in both word orders.
use hh_modbus.Base.{ℕ, ◌-◌, ◌/◌, ◌%◌, ◌^◌, ◌<◌, ◌≡◌, refl, arith, [], ◌∷◌, ltb, if◌then◌else◌}
use hh_modbus.Base.Int.{ℤ, pos, negsuc, ◌≤ℤ◌}
use hh_modbus.Words.{split_s32, split_s32_le, combine_u32, combine_u32_le, s32_words, low_s32}

-- The value of a signed 32-bit number that two register words carry.
abbrev pub s32_of_u32 : ℕ → ℤ
s32_of_u32 u = if ltb u (2 ^ 31) then pos u else negsuc (2 ^ 32 - 1 - u)

abbrev pub IsS32 : ℤ → Type 0
IsS32 v = (negsuc (2 ^ 31 - 1) ≤ℤ v) × (v ≤ℤ pos (2 ^ 31 - 1))

pub split_s32-eq-combine_u32 :
    (high low : ℕ)
    → high < 2 ^ 16
    → low < 2 ^ 16
    → split_s32 high low ≡ s32_of_u32 (combine_u32 high low)
unfolding split_s32 combine_u32
split_s32-eq-combine_u32 high low h l = ground arith

pub split_s32-IsS32 : (high low : ℕ) → high < 2 ^ 16 → low < 2 ^ 16 → IsS32 (split_s32 high low)
unfolding split_s32
split_s32-IsS32 high low h l = ground arith

-- What `_s32_words` makes of a signed 32-bit number is two words that `split_s32` reads back.
pub split_s32-s32_words :
    (v : ℤ)
    → IsS32 v
    → (high : ℕ) × (low : ℕ) × (s32_words v ≡ high ∷ low ∷ [])
      × (high < 2 ^ 16)
      × (low < 2 ^ 16)
      × (split_s32 high low ≡ v)
unfolding s32_words split_s32
split_s32-s32_words v h =
    (low_s32 v / 2 ^ 16 % 2 ^ 16, low_s32 v % 2 ^ 16, refl, omega arith, omega arith, ground arith)

-- The low-word-first readings are the others with the words exchanged.
pub le_order :
    (a b : ℕ) → (combine_u32_le a b ≡ combine_u32 b a) × (split_s32_le a b ≡ split_s32 b a)
unfolding combine_u32_le combine_u32 split_s32_le
le_order a b = (refl, refl)

pub combine_u32-lt : (a b : ℕ) → combine_u32 a b < 2 ^ 32
unfolding combine_u32
combine_u32-lt a b = omega arith
