-- ===== src/Select.antt =====
-- solis_select_entity.py: which option a register's bits stand for, and the bits that the choice of
-- an option writes. An option is a bit or a whole value of the register; the options here are those
-- of `_available_options_raw`, in the order of `sorted_options`. Not here: the V1 bit of the time of
-- use, the companions, and the read of an empty cache, which are as in Switch.
pub mod Choice
use hh_modbus.Base.{
  ℕ, Bool, true, false, not, ◌&&◌, ◌||◌, List, [], ◌∷◌, Option, none, some, ◌==◌, if◌then◌else◌,
  any, all, elem, select,
}
use hh_modbus.Words.{set_bit, get_bit_bool}
use hh_modbus.Switch.{set_bits}

pub record SelectOption : Type 0 where
  pub name : ℕ
  pub on_value : Option ℕ
  pub bit_position : Option ℕ
  pub conflicts_with : List ℕ
  pub requires : List ℕ

-- The test of one option that is a bit.
unfoldable pub bit_matches : Bool → SelectOption → ℕ → ℕ → Bool
unfolding get_bit_bool
bit_matches strict e position v =
    let conflicts = select (λ c. not (elem c (position ∷ e.requires))) e.conflicts_with in
    get_bit_bool v position
    && all (get_bit_bool v) e.requires
    && (not strict || not (any (get_bit_bool v) conflicts))

unfoldable pub option_matches : Bool → SelectOption → ℕ → Bool
unfolding bit_matches
option_matches strict e v = elim e.on_value [
  | some on ↦ v == on
  | none ↦ elim e.bit_position [ none ↦ false | some position ↦ bit_matches strict e position v ]
]

abbrev pub first_match : Bool → List SelectOption → ℕ → Option ℕ
first_match strict [] v = none
first_match strict (e ∷ es) v =
    if option_matches strict e v then some e.name else first_match strict es v

-- `current_option`, for the cached value: the strict pass, then the lenient one.
unfoldable pub current_option : List SelectOption → ℕ → Option ℕ
unfolding option_matches
current_option es v = elim (first_match true es v) [
  | some name ↦ some name
  | none ↦ first_match false es v
]

-- The value that `set_register_bit` writes for an option that is a bit.
unfoldable pub option_bits : SelectOption → ℕ → ℕ → ℕ
unfolding set_bit
option_bits e position v =
    set_bit (some (set_bits e.requires true (set_bits e.conflicts_with false v))) position true
