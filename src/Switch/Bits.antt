-- ===== src/Switch/Bits.antt =====
-- sensors/solis_binary_sensor.py: the bits that `set_register_bit` changes, and when it writes.
use hh_modbus.Base.{
  ℕ, ◌*◌, ◌≤◌, ◌<◌, ◌≡◌, refl, arith, Bool, true, false, not, ◌&&◌, ◌||◌, List, [], ◌∷◌, some, ◌==◌,
  if◌then◌else◌, any, elem, Bool-cases, inl, inr,
}
use hh_modbus.Words.{set_bit, get_bit_bool}
use hh_modbus.Words.Bits.{get_bit_bool-set_bit}
use hh_modbus.Switch.{Switch, set_bits, set_any, bool_xor, new_bits, keep_alive_interval}

pub get_bit_bool-set_bits :
    (ks : List ℕ) (b : Bool) (v q : ℕ)
    → get_bit_bool (set_bits ks b v) q ≡ (if elem q ks then b else get_bit_bool v q)
get_bit_bool-set_bits [] b v q = refl
get_bit_bool-set_bits (k ∷ ks) b v q =
    ground
      (arith, get_bit_bool-set_bits ks b (set_bit (some v) k b) q, get_bit_bool-set_bit v k q b)

-- The bit that stands in for `requires_any`, where none of its bits is set.
abbrev pub is_stand_in : List ℕ → ℕ → ℕ → Bool
is_stand_in [] current q = false
is_stand_in (k ∷ ks) current q = not (any (get_bit_bool current) (k ∷ ks)) && k == q

get_bit_bool-set_any :
    (ks : List ℕ) (current v q : ℕ)
    → get_bit_bool (set_any ks current v) q
      ≡ (if is_stand_in ks current q then true else get_bit_bool v q)
get_bit_bool-set_any [] current v q = refl
get_bit_bool-set_any (k ∷ ks) current v q =
    elim (Bool-cases (any (get_bit_bool current) (k ∷ ks))) [
      | inl e ↦ rw e refl
      | inr e ↦ rw (e, get_bit_bool-set_bit v k q true) refl
    ]

-- The new value of a switch's register has the asked state in the switch's bit, inverted if the
-- definition says so; turning on sets the required bits and the stand-in for `requires_any` and
-- clears the conflicting ones; every bit besides, and when turning off every other bit, is as it
-- was.
pub new_bits_lem :
    (w : Switch) (position : ℕ) (value : Bool) (current q : ℕ)
    → get_bit_bool (new_bits w position value current) q ≡ (
        if position == q
        then bool_xor w.inverted value
        else if value && (is_stand_in w.requires_any current q || elem q w.requires)
        then true
        else if value && elem q w.conflicts_with
        then false
        else get_bit_bool current q)
unfolding new_bits
new_bits_lem w position false current q =
    rw (get_bit_bool-set_bit current position q (bool_xor w.inverted false)) refl
new_bits_lem w position true current q =
    let cleared = set_bits w.conflicts_with false current in
    let required = set_bits w.requires true cleared in
    rw
      (
        get_bit_bool-set_bit (set_any w.requires_any current required) position q
            (bool_xor w.inverted true),
        get_bit_bool-set_any w.requires_any current required q,
        get_bit_bool-set_bits w.requires true cleared q,
        get_bit_bool-set_bits w.conflicts_with false current q,
      )
      (ground arith)

-- The refresh of a switch that is kept on comes at least 30 seconds after the last one and before
-- the inverter's timeout runs out, for each timeout of a minute or more.
pub keep_alive_interval_in_time :
    (minutes : ℕ)
    → 1 ≤ minutes
    → (30 ≤ keep_alive_interval (some minutes))
      × (keep_alive_interval (some minutes) < minutes * 60)
unfolding keep_alive_interval
keep_alive_interval_in_time minutes h = ground arith
