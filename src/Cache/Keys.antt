-- ===== src/Cache/Keys.antt =====
-- helpers.py: `register_cache_key`, and the cache under its keys.
use hh_modbus.Base.{
  ℕ, ◌≡◌, ◌≢◌, refl, arith, true, false, [], ◌∷◌, ◌++◌, some, All-split, Bool-cases, inl, inr, ◌==◌,
  ==_iff, ◌↔◌, if◌then◌else◌, ◌⊎◌,
}
use hh_modbus.Cache.{
  Text, UnitId, register_cache_key, text_eq, Cache, lookup, insert, cache_save, cache_get,
}
use hh_modbus.Cache.Decimal.{NoBar, decimal_injective, decimal-NoBar}

-- A text with a bar has one last bar.
pub last_bar :
    (xs ys ds es : Text)
    → NoBar ds
    → NoBar es
    → xs ++ b'|' ∷ ds ≡ ys ++ b'|' ∷ es
    → (xs ≡ ys) × (ds ≡ es)
last_bar [] [] ds es hd he e = (refl, cc)
last_bar [] (y ∷ ys) ds es hd he e = absurd (
    (All-split (λ c. c ≢ b'|') ys (b'|' ∷ es)
        (let tail : ds ≡ ys ++ b'|' ∷ es = cc in rw tail at hd)).1.0
      refl)
last_bar (x ∷ xs) [] ds es hd he e = absurd (
    (All-split (λ c. c ≢ b'|') xs (b'|' ∷ ds)
        (let tail : es ≡ xs ++ b'|' ∷ ds = cc in rw tail at he)).1.0
      refl)
last_bar (x ∷ xs) (y ∷ ys) ds es hd he e = let (p, q) = last_bar xs ys ds es hd he (cc) in (cc, q)

-- Two cache keys are equal only for the same connection, the same unit and the same register,
-- whatever characters the connection ids hold.
pub register_cache_key_injective :
    (u w : UnitId) (r q : ℕ)
    → register_cache_key u r ≡ register_cache_key w q
    → (u.connection_id ≡ w.connection_id) × (u.device_id ≡ w.device_id) × (r ≡ q)
unfolding register_cache_key
register_cache_key_injective u w r q e =
    let (front, back) = last_bar _ _ _ _ (decimal-NoBar r) (decimal-NoBar q) e in
    let (conn, slave) =
      last_bar _ _ _ _ (decimal-NoBar u.device_id) (decimal-NoBar w.device_id) front in
    (conn, decimal_injective _ _ slave, decimal_injective _ _ back)

pub text_eq_iff : (s t : Text) → (text_eq s t ≡ true) ↔ (s ≡ t)
text_eq_iff [] [] = (λ _. refl, λ _. refl)
text_eq_iff [] (d ∷ t) = (λ e. cc, λ e. cc)
text_eq_iff (c ∷ s) [] = (λ e. cc, λ e. cc)
text_eq_iff (c ∷ s) (d ∷ t) =
    (λ e. ground (arith, text_eq_iff s t), λ e. ground (arith, text_eq_iff s t))

pub lookup-insert :
    (k j : Text) (v : ℕ) (m : Cache)
    → lookup j (insert k v m) ≡ (if text_eq k j then some v else lookup j m)
lookup-insert k j v [] = refl
lookup-insert k j v ((i, w) ∷ m) =
    ground (arith, text_eq_iff k j, text_eq_iff i k, text_eq_iff i j, lookup-insert k j v m)

same_unit :
    (u : UnitId) (r q : ℕ) → text_eq (register_cache_key u r) (register_cache_key u q) ≡ (r == q)
same_unit u r q = elim (Bool-cases (r == q)) [
  | inl e ↦
      let same : r ≡ q = (==_iff r q).0 e in
      rw (e, same) ((text_eq_iff (register_cache_key u q) (register_cache_key u q)).1 refl)
  | inr e ↦ elim (Bool-cases (text_eq (register_cache_key u r) (register_cache_key u q))) [
    | inl k ↦
        let same : r ≡ q = (register_cache_key_injective u u r q ((text_eq_iff _ _).0 k)).2 in
        cc ((==_iff r q).1 same)
    | inr k ↦ rw (k, e) refl
  ]
]

other_unit :
    (u w : UnitId) (r q : ℕ)
    → (u.connection_id ≢ w.connection_id) ⊎ (u.device_id ≢ w.device_id)
    → text_eq (register_cache_key u r) (register_cache_key w q) ≡ false
other_unit u w r q h =
    elim (Bool-cases (text_eq (register_cache_key u r) (register_cache_key w q))) [
      | inl k ↦ absurd (refuted h (register_cache_key_injective u w r q ((text_eq_iff _ _).0 k)))
      | inr k ↦ k
    ]
  where
    refuted :
        (u.connection_id ≢ w.connection_id) ⊎ (u.device_id ≢ w.device_id)
        → (u.connection_id ≡ w.connection_id) × (u.device_id ≡ w.device_id) × (r ≡ q)
        → ⊥
    refuted (inl ne) e = ne e.0
    refuted (inr ne) e = ne e.1

-- What was saved for a register of a unit is read back for that register of that unit, and its
-- other registers are as they were.
pub cache_get-cache_save :
    (u : UnitId) (r q v : ℕ) (m : Cache)
    → cache_get u q (cache_save u r v m) ≡ (if r == q then some v else cache_get u q m)
unfolding cache_get cache_save
cache_get-cache_save u r q v m =
    rw (lookup-insert (register_cache_key u r) (register_cache_key u q) v m, same_unit u r q) refl

-- A save for one unit changes no register of any other unit, on the same link or on another.
pub cache_get-cache_save_other :
    (u w : UnitId) (r q v : ℕ) (m : Cache)
    → (u.connection_id ≢ w.connection_id) ⊎ (u.device_id ≢ w.device_id)
    → cache_get w q (cache_save u r v m) ≡ cache_get w q m
unfolding cache_get cache_save
cache_get-cache_save_other u w r q v m h =
    rw (lookup-insert (register_cache_key u r) (register_cache_key w q) v m, other_unit u w r q h)
      refl
