-- ===== src/Sensors/Values.antt =====
-- sensors/solis_base_sensor.py: `_convert_raw_value`, and `extract_serial_number` of helpers.py. A
-- value of a register is a number; `struct.pack` refuses one above 65535, and indexing refuses a
-- list that is too short: both raise, which is `raises`.
use hh_modbus.Base.{
  ℕ, ◌%◌, ◌/◌, Bool, ◌||◌, List, [], ◌∷◌, Option, none, some, if◌then◌else◌, ltb, leb, elem, length,
  all,
}
use hh_modbus.Base.Int.{ℤ, pos, sub_ℕ}
use hh_modbus.Inverter.{DataType}
use hh_modbus.Words.{split_s32, split_s32_le, combine_u32, combine_u32_le}
use hh_modbus.Sensors.{Amount, BaseSensor, is_zero, is_one}

-- What a sensor shows: `absent` is None, `serial` a text by its character codes, `whole` an int and
-- `scaled` an int times a multiplier.
pub data Reading : Type 0 where
  absent raises : Reading
  serial : List ℕ → Reading
  whole : ℤ → Reading
  scaled : ℤ → Amount → Reading

-- The bytes of `struct.pack(">H…")` that `decode("ascii", errors="ignore")` keeps.
abbrev pub ascii_of : List ℕ → List ℕ
ascii_of [] = []
ascii_of (v ∷ vs) =
    let rest = ascii_of vs in
    let tail = if ltb (v % 256) 128 then v % 256 ∷ rest else rest in
    if ltb (v / 256) 128 then v / 256 ∷ tail else tail

-- `strip("\x00\r\n ")`
abbrev pub is_stripped : ℕ → Bool
is_stripped c = elem c (0 ∷ 13 ∷ 10 ∷ 32 ∷ [])

abbrev pub lstrip : List ℕ → List ℕ
lstrip [] = []
lstrip (c ∷ cs) = let rest = lstrip cs in if is_stripped c then rest else c ∷ cs

-- A character at the end goes when nothing is kept after it.
abbrev pub rstrip_before : ℕ → List ℕ → List ℕ
rstrip_before c [] = if is_stripped c then [] else c ∷ []
rstrip_before c (d ∷ ds) = c ∷ d ∷ ds

abbrev pub rstrip : List ℕ → List ℕ
rstrip [] = []
rstrip (c ∷ cs) = rstrip_before c (rstrip cs)

unfoldable pub extract_serial_number : List ℕ → Reading
extract_serial_number values =
    if all (λ v. ltb v 65536) values then serial (rstrip (lstrip (ascii_of values))) else raises

-- `round(n)` of an int, or the int times the multiplier.
unfoldable pub apply_multiplier : Amount → ℤ → Reading
unfolding is_zero is_one
apply_multiplier m n = if is_zero m || is_one m then whole n else scaled n m

-- The branches of a pair of registers.
unfoldable pub combine : Option DataType → ℕ → ℕ → ℤ
unfolding combine_u32 combine_u32_le split_s32_le split_s32
combine (some DataType.u32) v0 v1 = pos (combine_u32 v0 v1)
combine (some DataType.u32_le) v0 v1 = pos (combine_u32_le v0 v1)
combine (some DataType.s32_le) v0 v1 = split_s32_le v0 v1
combine _ v0 v1 = split_s32 v0 v1

-- A lone register.
unfoldable pub single : Option DataType → ℕ → ℤ
single (some DataType.s16) v = if ltb 32767 v then sub_ℕ v 65536 else pos v
single _ v = pos v

-- `[v for v in values]` when none of them is None.
unfoldable pub all_present : List (Option ℕ) → Option (List ℕ)
all_present [] = some []
all_present (none ∷ vs) = none
all_present (some v ∷ vs) = elim (all_present vs) [ none ↦ none | some ws ↦ some (v ∷ ws) ]

-- The values of a sensor with one register and `more`: 15 registers or more are a text.
abbrev pub convert_pair : Option DataType → Amount → List ℕ → Reading
unfolding combine apply_multiplier
convert_pair t m (v0 ∷ v1 ∷ vs) = apply_multiplier m (combine t v0 v1)
convert_pair t m _ = raises

unfoldable pub convert_present : Option DataType → Amount → List ℕ → List ℕ → Reading
unfolding extract_serial_number single apply_multiplier
convert_present t m more [] = absent
convert_present t m [] (v ∷ vs) = apply_multiplier m (single t v)
convert_present t m (r ∷ rs) (v ∷ vs) =
    if leb 13 (length rs) then extract_serial_number (v ∷ vs) else convert_pair t m (v ∷ vs)

abbrev pub convert_or_absent : BaseSensor → Option (List ℕ) → Reading
unfolding convert_present
convert_or_absent s none = absent
convert_or_absent s (some vs) = convert_present s.data_type s.multiplier s.more vs

unfoldable pub convert_raw_value : BaseSensor → List (Option ℕ) → Reading
unfolding all_present
convert_raw_value s values = convert_or_absent s (all_present values)
