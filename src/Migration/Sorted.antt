-- ===== src/Migration/Sorted.antt =====
-- __init__.py: the entity ids of registry entries when they are sorted.
use hh_modbus.Base.{
  suc, length, ◌≡◌, refl, ◌∙◌, arith, Bool, true, false, not, ◌&&◌, ◌||◌, List, [], ◌∷◌, any,
  Bool-cases, inl, inr,
}
use hh_modbus.Cache.{Text, text_eq}
use hh_modbus.Cache.Keys.{text_eq_iff}
use hh_modbus.Migration.Duplicates.{
  RegistryEntry, key_le, insert_entry, sort_entries, last_of, init_of,
}

abbrev pub id_in : Text → List RegistryEntry → Bool
id_in x es = any (λ e. text_eq e.entity_id x) es

abbrev pub distinct : List RegistryEntry → Bool
distinct [] = true
distinct (e ∷ es) = not (id_in e.entity_id es) && distinct es

pub text_eq_comm : (s t : Text) → text_eq s t ≡ text_eq t s
text_eq_comm s t = ground (arith, text_eq_iff s t, text_eq_iff t s)

id_in-insert_entry :
    (x : Text) (e : RegistryEntry) (es : List RegistryEntry)
    → id_in x (insert_entry e es) ≡ (text_eq e.entity_id x || id_in x es)
unfolding insert_entry
id_in-insert_entry x e [] = refl
id_in-insert_entry x e (f ∷ fs) = elim (Bool-cases (key_le e f)) [
  | inl le ↦ rw le refl
  | inr le ↦ rw (le, id_in-insert_entry x e fs) (ground arith)
]

distinct-insert_entry :
    (e : RegistryEntry) (es : List RegistryEntry)
    → distinct (insert_entry e es) ≡ (not (id_in e.entity_id es) && distinct es)
unfolding insert_entry
distinct-insert_entry e [] = refl
distinct-insert_entry e (f ∷ fs) = elim (Bool-cases (key_le e f)) [
  | inl le ↦ rw le refl
  | inr le ↦
      rw
        (
          le,
          id_in-insert_entry f.entity_id e fs,
          distinct-insert_entry e fs,
          text_eq_comm e.entity_id f.entity_id,
        )
        (ground arith)
]

pub id_in-sort_entries :
    (x : Text) (es : List RegistryEntry) → id_in x (sort_entries es) ≡ id_in x es
unfolding sort_entries
id_in-sort_entries x [] = refl
id_in-sort_entries x (e ∷ es) =
    rw (id_in-insert_entry x e (sort_entries es), id_in-sort_entries x es) refl

pub distinct-sort_entries : (es : List RegistryEntry) → distinct (sort_entries es) ≡ distinct es
unfolding sort_entries
distinct-sort_entries [] = refl
distinct-sort_entries (e ∷ es) =
    rw
      (
        distinct-insert_entry e (sort_entries es),
        id_in-sort_entries e.entity_id es,
        distinct-sort_entries es,
      )
      refl

pub id_in-split :
    (x : Text) (e : RegistryEntry) (es : List RegistryEntry)
    → id_in x (e ∷ es) ≡ (id_in x (init_of e es) || text_eq (last_of e es).entity_id x)
id_in-split x e [] = ground arith
id_in-split x e (f ∷ fs) = ground (arith, id_in-split x f fs)

pub last-distinct :
    (e : RegistryEntry) (es : List RegistryEntry)
    → distinct (e ∷ es) ≡ true
    → id_in (last_of e es).entity_id (init_of e es) ≡ false
last-distinct e [] h = refl
last-distinct e (f ∷ fs) h =
    let z = (last_of f fs).entity_id in
    let away : text_eq e.entity_id z ≡ false =
      text_eq_comm e.entity_id z ∙ ground (arith, h, id_in-split e.entity_id f fs) in
    ground (arith, away, last-distinct f fs (ground (arith, h)))

length-insert_entry :
    (e : RegistryEntry) (es : List RegistryEntry) → length (insert_entry e es) ≡ suc (length es)
unfolding insert_entry
length-insert_entry e [] = refl
length-insert_entry e (f ∷ fs) = elim (Bool-cases (key_le e f)) [
  | inl le ↦ rw le refl
  | inr le ↦ rw (le, length-insert_entry e fs) refl
]

pub length-sort_entries : (es : List RegistryEntry) → length (sort_entries es) ≡ length es
unfolding sort_entries
length-sort_entries [] = refl
length-sort_entries (e ∷ es) =
    rw (length-insert_entry e (sort_entries es), length-sort_entries es) refl

pub last-in :
    (e : RegistryEntry) (es : List RegistryEntry) → id_in (last_of e es).entity_id (e ∷ es) ≡ true
last-in e es =
    let self : text_eq (last_of e es).entity_id (last_of e es).entity_id ≡ true =
      (text_eq_iff (last_of e es).entity_id (last_of e es).entity_id).1 refl in
    ground (arith, id_in-split (last_of e es).entity_id e es, self)
