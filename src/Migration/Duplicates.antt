-- ===== src/Migration/Duplicates.antt =====
-- __init__.py: `async_migrate_dict_unique_ids`, for one key of a platform: of the registered entities
-- that carry the key, the oldest one's entity id is kept, for the newest entity, under the stable unique
-- id. The entity registry is Home Assistant's: it is a parameter, a state with the operations that are
-- called. An update may raise ValueError, say for a unique id in use, which is logged. A text is the list of its character codes.
use hh_modbus.Base.{
  ℕ, Bool, true, false, not, ◌&&◌, ◌||◌, List, [], ◌∷◌, ◌++◌, Option, none, some, if◌then◌else◌,
  ◌==◌, ltb, select, get_or,
}
use hh_modbus.Cache.{Text, text_eq}

pub record RegistryEntry : Type 0 where
  pub entity_id : Text
  pub unique_id : Text
  pub created_at : Option ℕ

-- The operations of the registry that are called, on its states R; an update of none has
-- raised ValueError.
pub record Registry (R : Type 0) : Type 0 where
  pub has : Text → R → Bool
  pub remove : Text → R → R
  pub update : Text → Text → Option Text → R → Option R

starts_with : Text → Text → Bool
starts_with [] t = true
starts_with (c ∷ s) [] = false
starts_with (c ∷ s) (d ∷ t) = c == d && starts_with s t

-- `needle in text`
unfoldable pub contains : Text → Text → Bool
unfolding starts_with
contains needle [] = starts_with needle []
contains needle (c ∷ t) = starts_with needle (c ∷ t) || contains needle t

abbrev quote : ℕ
quote = 39

-- The text 'unique': '
abbrev unique_prefix : Text
unique_prefix = quote ∷ b'u' ∷ b'n' ∷ b'i' ∷ b'q' ∷ b'u' ∷ b'e' ∷ quote ∷ b':' ∷ b' ' ∷ quote ∷ []

unfoldable pub broken_dict_unique_id_matches : Text → Text → Bool
unfolding contains
broken_dict_unique_id_matches unique_id key =
    contains (unique_prefix ++ key ++ quote ∷ []) unique_id

-- The text 'data_type'
abbrev data_type_text : Text
data_type_text = quote ∷ b'd' ∷ b'a' ∷ b't' ∷ b'a' ∷ b'_' ∷ b't' ∷ b'y' ∷ b'p' ∷ b'e' ∷ quote ∷ []

text_le : Text → Text → Bool
text_le [] t = true
text_le (c ∷ s) [] = false
text_le (c ∷ s) (d ∷ t) = if c == d then text_le s t else ltb c d

-- The last two members of the sort key.
name_le : RegistryEntry → RegistryEntry → Bool
unfolding contains text_le
name_le a b =
    let x = contains data_type_text a.unique_id in
    let y = contains data_type_text b.unique_id in
    if x && not y then false else (if y && not x then true else text_le a.entity_id b.entity_id)

-- By `_entity_sort_key`, a does not come behind b.
unfoldable pub key_le : RegistryEntry → RegistryEntry → Bool
unfolding name_le
key_le a b = elim a.created_at [
  | none ↦ elim b.created_at [ none ↦ name_le a b | some y ↦ false ]
  | some x ↦ elim b.created_at [ none ↦ true | some y ↦ if x == y then name_le a b else ltb x y ]
]

-- `sorted`, which is stable.
unfoldable pub insert_entry : RegistryEntry → List RegistryEntry → List RegistryEntry
unfolding key_le
insert_entry e [] = e ∷ []
insert_entry e (f ∷ fs) =
    let rest = insert_entry e fs in if key_le e f then e ∷ f ∷ fs else f ∷ rest

unfoldable pub sort_entries : List RegistryEntry → List RegistryEntry
unfolding insert_entry
sort_entries [] = []
sort_entries (e ∷ es) = insert_entry e (sort_entries es)

-- `matches_sorted[-1]` and `matches_sorted[:-1]` of the entries x ∷ xs.
abbrev pub last_of : RegistryEntry → List RegistryEntry → RegistryEntry
last_of x [] = x
last_of x (y ∷ ys) = last_of y ys

abbrev pub init_of : RegistryEntry → List RegistryEntry → List RegistryEntry
init_of x [] = []
init_of x (y ∷ ys) = x ∷ init_of y ys

module _ {R : Type 0} (registry : Registry R) where
  unfoldable pub remove_all : List RegistryEntry → R → R
  remove_all [] r = r
  remove_all (g ∷ gs) r = remove_all gs (registry.remove g.entity_id r)

  -- The entries, oldest first: all but the newest go, and then it moves to the oldest one's
  -- entity id, unless that raises.
  unfoldable pub restore : Text → List RegistryEntry → R → R
  unfolding remove_all
  restore correct_uid [] r = r
  restore correct_uid (oldest ∷ rest) r =
      let newest = (last_of oldest rest).entity_id in
      let moved = if text_eq newest oldest.entity_id then none else some oldest.entity_id in
      let removed = remove_all (init_of oldest rest) r in
      get_or (registry.update newest correct_uid moved removed) removed

  -- The branches by the number of matches.
  unfoldable pub fix_matches : Text → List RegistryEntry → R → R
  unfolding restore sort_entries
  fix_matches correct_uid [] r = r
  fix_matches correct_uid (sole ∷ []) r =
      if text_eq sole.unique_id correct_uid
      then r
      else get_or (registry.update sole.entity_id correct_uid none r) r
  fix_matches correct_uid (a ∷ b ∷ es) r = restore correct_uid (sort_entries (a ∷ b ∷ es)) r

  -- One turn of the loop over the keys.
  unfoldable pub fix_key : List RegistryEntry → Text → Text → R → R
  unfolding fix_matches broken_dict_unique_id_matches
  fix_key entries unique_key correct_uid r =
      let found =
        select
          (λ e.
            text_eq e.unique_id correct_uid || broken_dict_unique_id_matches e.unique_id unique_key)
          entries in
      fix_matches correct_uid (select (λ e. registry.has e.entity_id r) found) r
