-- ===== src/Words.antt =====
-- helpers.py: the word and bit helpers of the integration (`hex_to_ascii`, `split_s32`,
-- `combine_u32`, `combine_u32_le`, `split_s32_le`, `set_bit`, `get_bit_bool`) and, from
-- __init__.py, `_s32_words`. A Modbus register is a number below 2 ^ 16; Python's ints are
-- unbounded, so a result that may be negative is a ℤ. For a register value v that is not
-- negative, `v & ~mask` is `v - (v & mask)`, `v >> k` is `v / 2 ^ k`, and `v & 0xFFFF` is
-- `v % 2 ^ 16`; `(h << 16) | l` is `h * 2 ^ 16 + l` where l is below 2 ^ 16.
pub mod Bits
pub mod Signed
use Prim.Native.Nat.{bit_and, bit_or}
use hh_modbus.Base.{
  ℕ, ◌+◌, ◌-◌, ◌*◌, ◌/◌, ◌%◌, ◌^◌, Bool, List, [], ◌∷◌, Option, none, some, ◌==◌, if◌then◌else◌,
}
use hh_modbus.Base.Int.{ℤ, pos, negsuc, sub_ℕ, pos_part, neg_part}

abbrev pub word_mod : ℕ
word_mod = 2 ^ 16

-- The two character codes of `hex_to_ascii`.
unfoldable pub hex_to_ascii : ℕ → List ℕ
hex_to_ascii v = (v / 2 ^ 8 % 2 ^ 8) ∷ (v % 2 ^ 8) ∷ []

-- `w - (1 << 16) if w & (1 << 15) else w`
unfoldable pub signed_word : ℕ → ℤ
signed_word w = if w / 2 ^ 15 % 2 == 1 then sub_ℕ w word_mod else pos w

-- `(high << 16) | (low & 0xFFFF)` for a signed high word; `low & 0xFFFF` of a signed low word
-- that came from w is `w % 2 ^ 16`.
unfoldable pub join_words : ℤ → ℕ → ℤ
join_words high low = sub_ℕ (pos_part high * word_mod + low) (neg_part high * word_mod)

-- `x & 0xFFFF` of an integer: its residue.
unfoldable pub low_word : ℤ → ℕ
low_word (pos n) = n % word_mod
low_word (negsuc n) = word_mod - 1 - n % word_mod

unfoldable pub split_s32 : ℕ → ℕ → ℤ
unfolding signed_word join_words low_word
split_s32 high low = join_words (signed_word high) (low_word (signed_word low))

unfoldable pub combine_u32_le : ℕ → ℕ → ℕ
combine_u32_le v0 v1 = v1 % word_mod * word_mod + v0 % word_mod

unfoldable pub split_s32_le : ℕ → ℕ → ℤ
unfolding split_s32
split_s32_le v0 v1 = split_s32 v1 v0

unfoldable pub combine_u32 : ℕ → ℕ → ℕ
combine_u32 v0 v1 = v0 % word_mod * word_mod + v1 % word_mod

-- `value & 0xFFFFFFFF` of an integer.
unfoldable pub low_s32 : ℤ → ℕ
low_s32 (pos n) = n % 2 ^ 32
low_s32 (negsuc n) = 2 ^ 32 - 1 - n % 2 ^ 32

-- `_s32_words`: the high word, then the low word.
unfoldable pub s32_words : ℤ → List ℕ
unfolding low_s32
s32_words v = let raw = low_s32 v in (raw / word_mod % word_mod) ∷ (raw % word_mod) ∷ []

-- `value is None` counts as 0.
unfoldable pub set_bit : Option ℕ → ℕ → Bool → ℕ
set_bit value position new_value =
    let v : ℕ = elim value [ none ↦ 0 | some w ↦ w ] in
    let mask = 2 ^ position in
    let cleared = v - bit_and v mask in if new_value then bit_or cleared mask else cleared

unfoldable pub get_bit_bool : ℕ → ℕ → Bool
get_bit_bool v position = v / 2 ^ position % 2 == 1
