-- ===== src/Migration/Restored.antt =====
-- __init__.py: what the restoration of duplicates leaves in the registry.
use hh_modbus.Base.{
  ℕ, suc, length, all, ◌≡◌, refl, sym, ap, ◌∙◌, arith, true, false, not, ◌&&◌, ◌||◌, List, [], ◌∷◌,
  Option, none, some, is_some, get_or, if◌then◌else◌, Bool-cases, inl, inr,
}
use hh_modbus.Cache.{Text, text_eq}
use hh_modbus.Cache.Keys.{text_eq_iff}
use hh_modbus.Migration.Duplicates.{
  RegistryEntry, Registry, sort_entries, last_of, init_of, remove_all, restore, fix_matches,
}
use hh_modbus.Migration.Sorted.{
  id_in, distinct, text_eq_comm, id_in-sort_entries, distinct-sort_entries, id_in-split,
  last-distinct, length-sort_entries, last-in,
}

-- What Home Assistant documents of its registry: a removed entity is gone, and an entity that an
-- update, if it does not raise, moves to an entity id that is free has that id and its old one is free.
pub record IsRegistry {R : Type 0} (registry : Registry R) : Type 0 where
  pub has-remove :
      (x y : Text) (r : R)
      → registry.has x (registry.remove y r) ≡ (not (text_eq y x) && registry.has x r)
  pub has-move :
      (x y u z : Text) (r r' : R)
      → registry.has y r ≡ true
      → registry.has z r ≡ false
      → registry.update y u (some z) r ≡ some r'
      → registry.has x r' ≡ (text_eq z x || not (text_eq y x) && registry.has x r)

-- Of several entities only the one under z is registered, others as before.
abbrev pub OnlyUnder : {R : Type 0} → Registry R → Text → List RegistryEntry → R → R → Type 0
OnlyUnder registry z es r r' =
    (x : Text) → registry.has x r' ≡ (text_eq z x || not (id_in x es) && registry.has x r)

-- The entity id under which the newest entity is in the end: the oldest one's, or its own if the
-- update raises.
abbrev pub kept_id : {R : Type 0} → Registry R → Text → List RegistryEntry → R → Text
kept_id registry uid [] r = []
kept_id registry uid (oldest ∷ rest) r =
    let newest = (last_of oldest rest).entity_id in
    let removed = remove_all registry (init_of oldest rest) r in
    if is_some (registry.update newest uid (some oldest.entity_id) removed)
    then oldest.entity_id
    else newest

module _ {R : Type 0} (registry : Registry R) (laws : IsRegistry registry) where
  has-remove_all :
      (x : Text) (gs : List RegistryEntry) (r : R)
      → registry.has x (remove_all registry gs r) ≡ (not (id_in x gs) && registry.has x r)
  unfolding remove_all
  has-remove_all x [] r = refl
  has-remove_all x (g ∷ gs) r =
      rw (has-remove_all x gs (registry.remove g.entity_id r), laws.has-remove x g.entity_id r)
        (ground arith)

  -- The last step: the move, or the registry as it was if that raises.
  moved-OnlyUnder :
      (uid : Text) (e f : RegistryEntry) (es : List RegistryEntry) (r : R) (o : Option R)
      → distinct (e ∷ f ∷ es) ≡ true
      → registry.has (last_of f es).entity_id r ≡ true
      → let rr = remove_all registry (init_of e (f ∷ es)) r in
        registry.update (last_of f es).entity_id uid (some e.entity_id) rr ≡ o
        → OnlyUnder registry
            (if is_some o then e.entity_id else (last_of f es).entity_id)
            (e ∷ f ∷ es)
            r
            (get_or o rr)
  moved-OnlyUnder uid e f es r none h here raised x =
      let newest = (last_of f es).entity_id in
      elim (Bool-cases (text_eq newest x)) [
        | inl same ↦ rw (← (text_eq_iff newest x).0 same) (
            has-remove_all newest (init_of e (f ∷ es)) r
            ∙ ground (arith, last-distinct e (f ∷ es) h, here, text_eq_iff newest newest))
        | inr other ↦
            has-remove_all x (init_of e (f ∷ es)) r
            ∙ ground (arith, other, id_in-split x e (f ∷ es))
      ]
  moved-OnlyUnder uid e f es r (some r') h here done x =
      let ghosts = init_of e (f ∷ es) in
      let newest = (last_of f es).entity_id in
      let rr = remove_all registry ghosts r in
      let self : text_eq e.entity_id e.entity_id ≡ true =
        (text_eq_iff e.entity_id e.entity_id).1 refl in
      let there : registry.has newest rr ≡ true =
        has-remove_all newest ghosts r ∙ ground (arith, last-distinct e (f ∷ es) h, here) in
      let free : registry.has e.entity_id rr ≡ false =
        has-remove_all e.entity_id ghosts r ∙ ground (arith, self) in
      laws.has-move x newest uid e.entity_id rr r' there free done
      ∙ ground (arith, has-remove_all x ghosts r, id_in-split x e (f ∷ es))

  apart :
      (e f : RegistryEntry) (es : List RegistryEntry)
      → distinct (e ∷ f ∷ es) ≡ true
      → text_eq (last_of f es).entity_id e.entity_id ≡ false
  apart e f es h =
      text_eq_comm (last_of f es).entity_id e.entity_id ∙ ground (arith, last-distinct e (f ∷ es) h)

  restore-OnlyUnder :
      (uid : Text) (e f : RegistryEntry) (es : List RegistryEntry) (r : R)
      → distinct (e ∷ f ∷ es) ≡ true
      → registry.has (last_of f es).entity_id r ≡ true
      → OnlyUnder registry
          (kept_id registry uid (e ∷ f ∷ es) r)
          (e ∷ f ∷ es)
          r
          (restore registry uid (e ∷ f ∷ es) r)
  unfolding restore
  restore-OnlyUnder uid e f es r h here =
      rw (apart e f es h) (moved-OnlyUnder uid e f es r _ h here refl)

  present :
      (x : Text) (es : List RegistryEntry) (r : R)
      → all (λ e. registry.has e.entity_id r) es ≡ true
      → id_in x es ≡ true
      → registry.has x r ≡ true
  present x [] r h found = absurd (cc)
  present x (e ∷ es) r h found = elim (Bool-cases (text_eq e.entity_id x)) [
    | inl same ↦
        let here : registry.has e.entity_id r ≡ true = ground (arith, h) in
        rw ((text_eq_iff e.entity_id x).0 same) at here
    | inr other ↦ present x es r (ground (arith, h)) (ground (arith, found, other))
  ]

  sorted-OnlyUnder :
      (uid : Text) (n : ℕ) (ss : List RegistryEntry) (r : R)
      → length ss ≡ suc (suc n)
      → distinct ss ≡ true
      → ((y : Text) → id_in y ss ≡ true → registry.has y r ≡ true)
      → OnlyUnder registry (kept_id registry uid ss r) ss r (restore registry uid ss r)
  sorted-OnlyUnder uid n [] r two h here = absurd (omega arith)
  sorted-OnlyUnder uid n (e ∷ []) r two h here = absurd (omega arith)
  sorted-OnlyUnder uid n (e ∷ f ∷ es) r two h here =
      restore-OnlyUnder uid e f es r h (here (last_of f es).entity_id (last-in e (f ∷ es)))

  -- Several entities carry a key, all of them registered and under different entity ids. Afterwards
  -- one of their entity ids is registered, and none of the others: that of the oldest, or, if the
  -- update of the newest to it raised, that of the newest. Every other entity id is as it was.
  pub fix_matches_lem :
      (uid : Text) (a b : RegistryEntry) (es : List RegistryEntry) (r : R)
      → distinct (a ∷ b ∷ es) ≡ true
      → all (λ e. registry.has e.entity_id r) (a ∷ b ∷ es) ≡ true
      → OnlyUnder registry
          (kept_id registry uid (sort_entries (a ∷ b ∷ es)) r)
          (a ∷ b ∷ es)
          r
          (fix_matches registry uid (a ∷ b ∷ es) r)
  unfolding fix_matches
  fix_matches_lem uid a b es r h here x =
      let ms = a ∷ b ∷ es in
      let z = kept_id registry uid (sort_entries ms) r in
      sorted-OnlyUnder uid (length es) (sort_entries ms) r (length-sort_entries ms)
        (distinct-sort_entries ms ∙ h)
        (λ y found. present y ms r here (sym (id_in-sort_entries y ms) ∙ found)) x
      ∙ ap (λ v. text_eq z x || not v && registry.has x r) (id_in-sort_entries x ms)
