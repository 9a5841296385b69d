-- ===== src/Cache.antt =====
-- helpers.py: `register_cache_key`, `cache_save` and `cache_get`, the register cache that all
-- inverters share (`hass.data[DOMAIN][VALUES]`). A text is the list of its character codes. A key is
-- made of the connection id (a string for every controller), the unit and the register.
pub mod Decimal
pub mod Keys
pub mod Refinement
use hh_modbus.Base.{
  ℕ, zero, suc, ◌+◌, ◌/◌, ◌%◌, Bool, true, false, ◌&&◌, List, [], ◌∷◌, ◌++◌, Option, none, some,
  ltb, ◌==◌, if◌then◌else◌,
}

abbrev pub Text : Type 0
Text = List ℕ

-- `str(n)`: the last digit is printed behind the others.
decimal_fuel : ℕ → ℕ → Text
decimal_fuel zero n = []
decimal_fuel (suc fuel) n =
    let others = decimal_fuel fuel (n / 10) in
    if ltb n 10 then (b'0' + n) ∷ [] else others ++ (b'0' + n % 10) ∷ []

unfoldable pub decimal : ℕ → Text
unfolding decimal_fuel
decimal n = decimal_fuel (suc n) n

-- What a controller's entries are filed under.
pub record UnitId : Type 0 where
  pub connection_id : Text
  pub device_id : ℕ

-- `f"{conn}|{slave}|{register}"`
unfoldable pub register_cache_key : UnitId → ℕ → Text
unfolding decimal
register_cache_key u register =
    (u.connection_id ++ b'|' ∷ decimal u.device_id) ++ b'|' ∷ decimal register

abbrev pub text_eq : Text → Text → Bool
text_eq [] [] = true
text_eq [] (d ∷ t) = false
text_eq (c ∷ s) [] = false
text_eq (c ∷ s) (d ∷ t) = c == d && text_eq s t

abbrev pub Cache : Type 0
Cache = List (Text × ℕ)

abbrev pub lookup : Text → Cache → Option ℕ
lookup k [] = none
lookup k ((j, v) ∷ m) = if text_eq j k then some v else lookup k m

abbrev pub insert : Text → ℕ → Cache → Cache
insert k v [] = (k, v) ∷ []
insert k v ((j, w) ∷ m) = if text_eq j k then (j, v) ∷ m else (j, w) ∷ insert k v m

unfoldable pub cache_save : UnitId → ℕ → ℕ → Cache → Cache
cache_save u register value m = insert (register_cache_key u register) value m

unfoldable pub cache_get : UnitId → ℕ → Cache → Option ℕ
cache_get u register m = lookup (register_cache_key u register) m
