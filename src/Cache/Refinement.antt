-- ===== src/Cache/Refinement.antt =====
-- helpers.py: the register cache as what it stands for, a value or none for each register of each
-- unit, without keys and without an order.
use mathlib.Core.Path.{fun_ext}
use hh_modbus.Base.{
  ℕ, ◌≡◌, refl, ap, ◌∙◌, arith, Bool, true, ◌&&◌, List, [], ◌∷◌, Option, some, if◌then◌else◌, ◌==◌,
  ==_iff, Bool-cases, inl, inr,
}
use hh_modbus.Cache.{UnitId, Cache, register_cache_key, cache_save, cache_get, text_eq, lookup}
use hh_modbus.Cache.Keys.{lookup-insert, text_eq_iff, register_cache_key_injective}

abbrev pub unit_eq : UnitId → UnitId → Bool
unit_eq u w = text_eq u.connection_id w.connection_id && u.device_id == w.device_id

abbrev pub View : Type 0
View = UnitId → ℕ → Option ℕ

-- What a cache stands for.
unfoldable pub view : Cache → View
unfolding cache_get
view m = λ u r. cache_get u r m

-- A save, on what the cache stands for.
abbrev pub save_view : UnitId → ℕ → ℕ → View → View
save_view u r v f = λ w q. if unit_eq u w && r == q then some v else f w q

-- The saves of all controllers, in their order.
pub record Save : Type 0 where
  pub unit : UnitId
  pub register : ℕ
  pub value : ℕ

unfoldable pub save_all : List Save → Cache → Cache
unfolding cache_save
save_all [] m = m
save_all (s ∷ ss) m = save_all ss (cache_save s.unit s.register s.value m)

unfoldable pub save_all_view : List Save → View → View
save_all_view [] f = f
save_all_view (s ∷ ss) f = save_all_view ss (save_view s.unit s.register s.value f)

same_key :
    (u w : UnitId) (r q : ℕ)
    → (unit_eq u w && r == q) ≡ true
    → register_cache_key u r ≡ register_cache_key w q
unfolding register_cache_key
same_key u w r q h =
    let conn : u.connection_id ≡ w.connection_id = (text_eq_iff _ _).0 (ground (arith, h)) in
    let slave : u.device_id ≡ w.device_id = (==_iff _ _).0 (ground (arith, h)) in
    let reg : r ≡ q = (==_iff r q).0 (ground (arith, h)) in rw (conn, slave, reg) refl

key-eq :
    (u w : UnitId) (r q : ℕ)
    → text_eq (register_cache_key u r) (register_cache_key w q) ≡ (unit_eq u w && r == q)
key-eq u w r q = elim (Bool-cases (unit_eq u w && r == q)) [
  | inl e ↦
      rw e ((text_eq_iff (register_cache_key u r) (register_cache_key w q)).1 (same_key u w r q e))
  | inr e ↦ elim (Bool-cases (text_eq (register_cache_key u r) (register_cache_key w q))) [
    | inl k ↦
        let (conn, slave, reg) = register_cache_key_injective u w r q ((text_eq_iff _ _).0 k) in
        ground (
          arith,
          e,
          (text_eq_iff u.connection_id w.connection_id).1 conn,
          (==_iff _ _).1 slave,
          (==_iff _ _).1 reg,
        )
    | inr k ↦ rw (k, e) refl
  ]
]

view-cache_save :
    (u : UnitId) (r v : ℕ) (m : Cache) → view (cache_save u r v m) ≡ save_view u r v (view m)
unfolding view cache_save
view-cache_save u r v m = fun_ext (λ w. fun_ext (λ q.
    lookup-insert (register_cache_key u r) (register_cache_key w q) v m
    ∙ ap (λ b. if b then some v else lookup (register_cache_key w q) m) (key-eq u w r q)))

-- After any saves of any controllers a cache stands for what it stood for, changed at the register
-- of the unit of each save and nowhere else, in the order of the saves.
pub view-save_all : (ss : List Save) (m : Cache) → view (save_all ss m) ≡ save_all_view ss (view m)
unfolding save_all save_all_view
view-save_all [] m = refl
view-save_all (s ∷ ss) m =
    view-save_all ss (cache_save s.unit s.register s.value m)
    ∙ ap (save_all_view ss) (view-cache_save s.unit s.register s.value m)
