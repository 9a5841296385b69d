-- ===== src/Sensors/Range.antt =====
-- sensors/solis_base_sensor.py: what `_convert_raw_value` makes of register words stays within the
-- range that `protocol_raw_range` gives the sensor, on which the bounds of number entities stand.
use hh_modbus.Base.{
  ℕ, suc, ◌^◌, ◌<◌, ◌≡◌, refl, arith, Bool, true, false, List, [], ◌∷◌, Option, none, some, leb,
  map, length, All, ◌||◌, inl, inr, Bool-cases,
}
use hh_modbus.Base.Int.{ℤ, ◌≤ℤ◌}
use hh_modbus.Inverter.{DataType}
use hh_modbus.Words.{split_s32, split_s32_le, combine_u32, combine_u32_le}
use hh_modbus.Sensors.{Amount, BaseSensor, protocol_raw_range, raw_range, is_zero, is_one}
use hh_modbus.Sensors.Values.{
  Reading, whole, scaled, combine, single, apply_multiplier, convert_present, convert_raw_value,
  all_present,
}

-- A declared type fits the number of registers: one word for a 16-bit type, two for a 32-bit type.
unfoldable pub type_fits : Option DataType → ℕ → Bool
type_fits none n = true
type_fits (some DataType.u16) n = leb n 0
type_fits (some DataType.s16) n = leb n 0
type_fits (some DataType.string) n = true
type_fits (some _) n = leb 1 n

abbrev pub Within : ℤ × ℤ → ℤ → Type 0
Within range n = (range.0 ≤ℤ n) × (n ≤ℤ range.1)

-- A reading is a number whose raw value, before the multiplier, is in a range.
unfoldable pub RawWithin : ℤ × ℤ → Reading → Type 0
RawWithin range (whole n) = Within range n
RawWithin range (scaled n m) = Within range n
RawWithin range _ = ⊥

apply_multiplier-RawWithin :
    (m : Amount) (range : ℤ × ℤ) (n : ℤ) → Within range n → RawWithin range (apply_multiplier m n)
unfolding RawWithin apply_multiplier
apply_multiplier-RawWithin m range n h = elim (Bool-cases (is_zero m || is_one m)) [
  | inl e ↦ rw e h
  | inr e ↦ rw e h
]

combine-Within :
    (t : Option DataType) (r : ℕ) (rs : List ℕ) (v0 v1 : ℕ)
    → type_fits t (length (r ∷ rs)) ≡ true
    → v0 < 2 ^ 16
    → v1 < 2 ^ 16
    → Within (protocol_raw_range t (r ∷ rs)) (combine t v0 v1)
unfolding type_fits protocol_raw_range combine raw_range combine_u32 combine_u32_le split_s32
    split_s32_le
combine-Within none r rs v0 v1 fits h0 h1 = ground arith
combine-Within (some DataType.u16) r rs v0 v1 fits h0 h1 = ground arith
combine-Within (some DataType.s16) r rs v0 v1 fits h0 h1 = ground arith
combine-Within (some DataType.u32) r rs v0 v1 fits h0 h1 = ground arith
combine-Within (some DataType.s32) r rs v0 v1 fits h0 h1 = ground arith
combine-Within (some DataType.u32_le) r rs v0 v1 fits h0 h1 = ground arith
combine-Within (some DataType.s32_le) r rs v0 v1 fits h0 h1 = ground arith
combine-Within (some DataType.string) r rs v0 v1 fits h0 h1 = ground arith

single-Within :
    (t : Option DataType) (v : ℕ)
    → type_fits t 0 ≡ true
    → v < 2 ^ 16
    → Within (protocol_raw_range t []) (single t v)
unfolding type_fits protocol_raw_range single raw_range
single-Within none v fits h = ground arith
single-Within (some DataType.u16) v fits h = ground arith
single-Within (some DataType.s16) v fits h = ground arith
single-Within (some DataType.u32) v fits h = ground arith
single-Within (some DataType.s32) v fits h = ground arith
single-Within (some DataType.u32_le) v fits h = ground arith
single-Within (some DataType.s32_le) v fits h = ground arith
single-Within (some DataType.string) v fits h = ground arith

abbrev pub IsWord : ℕ → Type 0
IsWord v = v < 2 ^ 16

pub all_present-some : (vs : List ℕ) → all_present (map (λ v. some v) vs) ≡ some vs
unfolding all_present
all_present-some [] = refl
all_present-some (v ∷ vs) = rw (all_present-some vs) refl

convert_present-RawWithin :
    (t : Option DataType) (m : Amount) (more vs : List ℕ)
    → length more < 14
    → type_fits t (length more) ≡ true
    → length vs ≡ suc (length more)
    → All IsWord vs
    → RawWithin (protocol_raw_range t more) (convert_present t m more vs)
unfolding convert_present combine RawWithin protocol_raw_range
convert_present-RawWithin t m more [] short fits same words = absurd (omega arith)
convert_present-RawWithin t m [] (v ∷ vs) short fits same words =
    apply_multiplier-RawWithin m (protocol_raw_range t []) (single t v)
      (single-Within t v fits words.0)
convert_present-RawWithin t m (r ∷ rs) (v ∷ []) short fits same words = absurd (omega arith)
convert_present-RawWithin t m (r ∷ rs) (v ∷ w ∷ vs) short fits same words =
    let few : leb 13 (length rs) ≡ false = ground arith in
    rw few (
      apply_multiplier-RawWithin m (protocol_raw_range t (r ∷ rs)) (combine t v w)
        (combine-Within t r rs v w fits words.0 words.1.0))

-- A sensor of fewer than 15 registers whose declared type fits their number shows, for as many words
-- as it has registers, a number, and its raw value lies within `protocol_raw_range`.
pub convert_raw_value-RawWithin :
    (s : BaseSensor) (vs : List ℕ)
    → length s.more < 14
    → type_fits s.data_type (length s.more) ≡ true
    → length vs ≡ suc (length s.more)
    → All IsWord vs
    → RawWithin (protocol_raw_range s.data_type s.more) (convert_raw_value s (map (λ v. some v) vs))
unfolding convert_raw_value convert_present
convert_raw_value-RawWithin s vs short fits same words =
    rw (all_present-some vs)
      (convert_present-RawWithin s.data_type s.multiplier s.more vs short fits same words)
