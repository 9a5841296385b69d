-- ===== src/Sensors/Received.antt =====
-- sensors/solis_sensor.py: what an entity shows after the updates of a poll, in any order and among
-- updates that are not for it.
use hh_modbus.Base.{
  ℕ, Bool, true, false, ◌&&◌, ◌||◌, ◌≡◌, refl, ap, ◌∙◌, ◌⊎◌, List, [], ◌∷◌, Option, some, ◌==◌,
  ==_iff, elem, any, All, All-map, is_some, map, Bool-cases, inl, inr, arith,
}
use hh_modbus.Sensors.{BaseSensor, registrars}
use hh_modbus.Sensors.Values.{Reading, absent, raises, serial, whole, scaled, convert_raw_value}
use hh_modbus.Sensors.Entity.{
  Owner, Update, SensorState, is_correct_controller, is_waiting, find, all_received, show_reading,
  publish_received, handle_modbus_update, handle_updates,
}

module _ (o : Owner) (b : BaseSensor) (cache : ℕ → Option ℕ) (f : ℕ → ℕ) where
  abbrev pub is_for : Update → Bool
  is_for u =
      is_correct_controller o u.controller u.slave && b.enabled && elem u.register (registrars b)

  -- An update that is for the entity carries what `f` has for its register.
  abbrev pub Agrees : ℕ × Update → Type 0
  Agrees e =
      is_for e.1 ≡ true
      → (e.1.value ≡ f e.1.register) × (is_waiting o.type cache e.1.register ≡ false)

  abbrev pub snapshot : Reading
  snapshot = convert_raw_value b (map (λ r. some (f r)) (registrars b))

  abbrev pub Agreed : List (ℕ × ℕ) → Type 0
  Agreed received = All (λ e. e.1 ≡ f e.0) received

  find-Agreed :
      (r : ℕ) (es : List (ℕ × ℕ)) → Agreed es → is_some (find r es) ≡ true → find r es ≡ some (f r)
  find-Agreed r [] h found = ground arith
  find-Agreed r (e ∷ es) h found = elim (Bool-cases (e.0 == r)) [
    | inl t ↦ rw t (ap (λ v. some v) (h.0 ∙ ap f ((==_iff e.0 r).0 t)))
    | inr t ↦
        let rest : is_some (find r es) ≡ true = ground (arith, t, found) in
        rw t (find-Agreed r es h.1 rest)
  ]

  found_all :
      (rs : List ℕ) (es : List (ℕ × ℕ))
      → Agreed es
      → all_received rs es ≡ true
      → map (λ r. find r es) rs ≡ map (λ r. some (f r)) rs
  unfolding all_received
  found_all [] es h found = refl
  found_all (r ∷ rs) es h found =
      let now : is_some (find r es) ≡ true = ground (arith, found) in
      let later : all_received rs es ≡ true = ground (arith, found) in
      rw (find-Agreed r es h now, found_all rs es h later) refl

  -- A reading that is shown.
  abbrev pub shows : Reading → Bool
  shows absent = false
  shows raises = false
  shows _ = true

  show_reading-shows :
      (now : ℕ) (r : Reading) (s : SensorState)
      → shows r ≡ true
      → (show_reading now r s).native_value ≡ r × (show_reading now r s).received ≡ []
  unfolding show_reading
  show_reading-shows now absent s h = absurd (ground arith)
  show_reading-shows now raises s h = absurd (ground arith)
  show_reading-shows now (serial cs) s h = (refl, refl)
  show_reading-shows now (whole n) s h = (refl, refl)
  show_reading-shows now (scaled n m) s h = (refl, refl)

  kept_or_shown :
      (now : ℕ) (s : SensorState)
      → Agreed s.received
      → shows snapshot ≡ true
      → let t = publish_received b now s in
        ((t.native_value ≡ snapshot) × (t.received ≡ []))
        ⊎ ((t ≡ s) × (all_received (registrars b) s.received ≡ false))
  unfolding publish_received
  kept_or_shown now s h shown = elim (Bool-cases (all_received (registrars b) s.received)) [
    | inl e ↦
        rw (e, found_all (registrars b) s.received h e)
          (inl (show_reading-shows now snapshot s shown))
    | inr e ↦ rw e (inr (refl, refl))
  ]

  abbrev pub record_update : ℕ × Update → SensorState → SensorState
  record_update e s = record s { received = (e.1.register, e.1.value) ∷ s.received }

  not_for :
      (e : ℕ × Update) (s : SensorState)
      → is_for e.1 ≡ false
      → handle_modbus_update o b cache e.0 e.1 s ≡ s
  unfolding handle_modbus_update
  not_for e s n = rw n refl

  for_it :
      (e : ℕ × Update) (s : SensorState)
      → is_for e.1 ≡ true
      → is_waiting o.type cache e.1.register ≡ false
      → handle_modbus_update o b cache e.0 e.1 s ≡ publish_received b e.0 (record_update e s)
  unfolding handle_modbus_update
  for_it e s y w = rw (y, w) refl

  -- Once the reading is shown, it stays.
  keeps :
      (es : List (ℕ × Update)) (s : SensorState)
      → Agreed s.received
      → s.native_value ≡ snapshot
      → shows snapshot ≡ true
      → All Agrees es
      → (handle_updates o b cache es s).native_value ≡ snapshot
  unfolding handle_updates
  keeps [] s h n shown a = n
  keeps (e ∷ es) s h n shown a = elim (Bool-cases (is_for e.1)) [
    | inr other ↦ rw (handle_updates, not_for e s other) (keeps es s h n shown a.1)
    | inl mine ↦
        let h' : Agreed (record_update e s).received = ((a.0 mine).0, h) in
        rw (handle_updates, for_it e s mine ((a.0 mine).1))
          (elim (kept_or_shown e.0 (record_update e s) h' shown) [
            | inl k ↦
                keeps es (publish_received b e.0 (record_update e s)) (rw (k.1) tt) (k.0) shown a.1
            | inr k ↦ rw (k.0) (keeps es (record_update e s) h' n shown a.1)
          ])
  ]

  -- The register has a value already or an update for it is still to come.
  abbrev heard : List (ℕ × Update) → ℕ → Bool
  heard es r = any (λ e. is_for e.1 && e.1.register == r) es

  abbrev Coming : List (ℕ × ℕ) → List (ℕ × Update) → ℕ → Type 0
  Coming received es r = (is_some (find r received) || heard es r) ≡ true

  none-Coming :
      (rs : List ℕ) (received : List (ℕ × ℕ))
      → All (Coming received []) rs
      → all_received rs received ≡ true
  unfolding all_received
  none-Coming [] received h = refl
  none-Coming (r ∷ rs) received h = ground (arith, h.0, none-Coming rs received h.1)

  reaches :
      (es : List (ℕ × Update)) (s : SensorState)
      → Agreed s.received
      → all_received (registrars b) s.received ≡ false
      → All (Coming s.received es) (registrars b)
      → shows snapshot ≡ true
      → All Agrees es
      → (handle_updates o b cache es s).native_value ≡ snapshot
  unfolding handle_updates
  reaches [] s h more c shown a =
      let done = none-Coming (registrars b) s.received c in absurd (ground (arith, done, more))
  reaches (e ∷ es) s h more c shown a = elim (Bool-cases (is_for e.1)) [
    | inr other ↦
        rw (handle_updates, not_for e s other)
          (reaches es s h more
            (All-map (Coming s.received (e ∷ es)) (Coming s.received es) (registrars b)
              (λ r k. ground (arith, other, k)) c)
            shown a.1)
    | inl mine ↦
        let h' : Agreed (record_update e s).received = ((a.0 mine).0, h) in
        rw (handle_updates, for_it e s mine ((a.0 mine).1))
          (elim (kept_or_shown e.0 (record_update e s) h' shown) [
            | inl k ↦
                keeps es (publish_received b e.0 (record_update e s)) (rw (k.1) tt) (k.0) shown a.1
            | inr k ↦ rw (k.0) (
                reaches es (record_update e s) h' (k.1)
                  (All-map (Coming s.received (e ∷ es)) (Coming (record_update e s).received es)
                    (registrars b) (λ r k'. ground (arith, k')) c)
                  shown a.1)
          ])
  ]

  -- A poll delivers updates for all registers of a sensor, in any order and mixed with any other
  -- updates; each update for the sensor carries what `f` has for its register. Then the entity,
  -- which had received nothing, shows the conversion of what `f` has for its registers, if that is
  -- a value. A grid inverter is not waiting.
  pub handle_updates-snapshot :
      (es : List (ℕ × Update)) (s : SensorState)
      → s.received ≡ []
      → All (λ r. heard es r ≡ true) (registrars b)
      → All Agrees es
      → shows snapshot ≡ true
      → (handle_updates o b cache es s).native_value ≡ snapshot
  unfolding all_received
  handle_updates-snapshot es s clean covered a shown =
      reaches es s (rw clean tt) (rw clean refl)
        (All-map (λ r. heard es r ≡ true) (Coming s.received es) (registrars b) (λ r k. rw clean k)
          covered)
        shown a
