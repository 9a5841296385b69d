-- ===== src/Sensors/Number.antt =====
-- sensors/solis_number_sensor.py: the number entity, a setpoint that the user changes and that the
-- inverter's register updates follow. `set_native_value` gives the request that it puts on the write
-- queue; the warning about `device_limit` is a log entry and not modelled. `value / multiplier` is the
-- exact quotient, and `round` rounds half to even.
use hh_modbus.Base.{
  ℕ, ◌+◌, ◌*◌, ◌/◌, ◌%◌, ◌^◌, Bool, false, ◌&&◌, List, [], ◌∷◌, Option, none, some, if◌then◌else◌,
  ltb, ◌==◌, elem,
}
use hh_modbus.Base.Int.{ℤ, pos, negsuc, neg, ltb_ℤ, pos_part, neg_part}
use hh_modbus.Inverter.{DataType}
use hh_modbus.Words.{low_word}
use hh_modbus.Sensors.{Amount, BaseSensor, registrars, int, times, mul_ℤ, is_zero}
use hh_modbus.Sensors.Values.{Reading, absent, raises, whole, scaled, convert_raw_value}
use hh_modbus.Sensors.Entity.{Owner, Update, is_correct_controller, all_received}

-- `round(n / d)` of natural numbers, d not 0
unfoldable pub round_quotient : ℕ → ℕ → ℕ
round_quotient n d =
    let q = n / d in
    let r = n % d in
    if ltb (2 * r) d
    then q
    else (if ltb d (2 * r) then q + 1 else (if q % 2 == 0 then q else q + 1))

unfoldable pub round_ratio : ℤ → ℕ → ℤ
unfolding round_quotient
round_ratio (pos n) d = pos (round_quotient n d)
round_ratio (negsuc n) d = neg (pos (round_quotient (n + 1) d))

abbrev pub signed_like : ℤ → ℤ → ℤ
signed_like (pos n) a = a
signed_like (negsuc n) a = neg a

abbrev pub abs : ℤ → ℕ
abs a = pos_part a + neg_part a

-- `round(value / multiplier)`; none is the ZeroDivisionError.
unfoldable pub round_div : Amount → Amount → Option ℤ
unfolding round_ratio is_zero mul_ℤ
round_div v m =
    let numerator = signed_like m.mantissa (mul_ℤ v.mantissa (pos (10 ^ m.exponent))) in
    if is_zero m then none else some (round_ratio numerator (abs m.mantissa * 10 ^ v.exponent))

-- What `_attr_native_value` holds: a default or a requested value, or a reading.
pub data Native : Type 0 where
  requested : Amount → Native
  read : Reading → Native

pub record NumberState : Type 0 where
  pub received : List (ℕ × ℕ)
  pub native_value : Native

abbrev pub same_ℤ : ℤ → ℤ → Bool
same_ℤ a b = pos_part a == pos_part b && neg_part a == neg_part b

-- `a == b` of two numbers
unfoldable pub same_amount : Amount → Amount → Bool
unfolding mul_ℤ
same_amount a b =
    same_ℤ (mul_ℤ a.mantissa (pos (10 ^ b.exponent))) (mul_ℤ b.mantissa (pos (10 ^ a.exponent)))

-- `self._attr_native_value == value`, of exact numbers: a text or None is no number. The floats of
-- Python can differ where the exact numbers are equal; then the value is written again.
unfoldable pub shows_value : Native → Amount → Bool
unfolding same_amount times
shows_value (requested a) v = same_amount a v
shows_value (read (whole n)) v = same_amount (int n) v
shows_value (read (scaled n m)) v = same_amount (times n m) v
shows_value (read _) v = false

-- The register that a number writes: the declared one, else its only one.
unfoldable pub write_register_of : BaseSensor → Option ℕ
write_register_of s = elim s.write_register [
  | some r ↦ some r
  | none ↦ elim s.more [ [] ↦ some s.register | _ ∷ _ ↦ none ]
]

-- `max(-32768, min(32767, n))`
unfoldable pub clamp_s16 : ℤ → ℤ
clamp_s16 n =
    let top : ℤ = if ltb_ℤ (pos 32767) n then pos 32767 else n in
    if ltb_ℤ top (negsuc 32767) then negsuc 32767 else top

-- The number that is written to the register.
unfoldable pub encode : Option DataType → ℤ → ℤ
unfolding clamp_s16 low_word
encode (some DataType.s16) n = pos (low_word (clamp_s16 n))
encode _ n = n

-- What `set_native_value` does: nothing, a ZeroDivisionError, or a write and the new value.
pub data SetResult : Type 0 where
  ignored division_by_zero : SetResult
  written : ℕ → ℤ → NumberState → SetResult

unfoldable pub set_written : Option DataType → Amount → NumberState → ℕ → Option ℤ → SetResult
unfolding encode
set_written t v s r none = division_by_zero
set_written t v s r (some n) = written r (encode t n) (record s { native_value = requested v })

unfoldable pub set_on : Option ℕ → BaseSensor → Amount → NumberState → SetResult
unfolding round_div set_written
set_on none b v s = ignored
set_on (some r) b v s = set_written b.data_type v s r (round_div v b.multiplier)

unfoldable pub set_native_value : BaseSensor → Amount → NumberState → SetResult
unfolding shows_value write_register_of set_on
set_native_value b v s =
    if shows_value s.native_value v then ignored else set_on (write_register_of b) b v s

-- `convert_value([updated_value])` and what follows. An exception leaves the received values.
unfoldable pub show_number : Reading → NumberState → NumberState
show_number raises s = s
show_number absent s = record s { received = [] }
show_number r s = record { received = []; native_value = read r }

unfoldable pub handle_number_update : Owner → BaseSensor → Update → NumberState → NumberState
unfolding is_correct_controller all_received show_number convert_raw_value
handle_number_update o b u s =
    let kept : NumberState = record s { received = (u.register, u.value) ∷ s.received } in
    if is_correct_controller o u.controller u.slave && b.enabled && elem u.register (registrars b)
    then (if all_received (registrars b) kept.received
        then show_number (convert_raw_value b (some u.value ∷ [])) kept
        else kept)
    else s
