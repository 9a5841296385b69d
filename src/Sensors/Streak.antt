-- ===== src/Sensors/Streak.antt =====
-- helpers.py: after any history of tests, when `clock_drift_test` sets the clock.
use hh_modbus.Base.{
  ℕ, ◌+◌, ◌<◌, min, ◌≢◌, ◌≡◌, refl, ap, ◌∙◌, arith, Bool, true, false, ◌&&◌, List, [], ◌∷◌, Option,
  none, some, if◌then◌else◌, ltb, leb, get_or, ◌==◌, ==_iff, Bool-cases, inl, inr,
}
use hh_modbus.Cache.{Text, UnitId, Cache, lookup, text_eq}
use hh_modbus.Cache.Keys.{lookup-insert, text_eq_iff, last_bar}
use hh_modbus.Cache.Refinement.{unit_eq}
use hh_modbus.Cache.Decimal.{NoBar, decimal_injective, decimal-NoBar}
use hh_modbus.Sensors.Clock.{
  DateTime, Test, drift_key, drifted, count_drift, clock_drift_test, run_tests, clock_words,
}

not_bar : (n : ℕ) → n < b'|' → n ≢ b'|'
not_bar n h = λ e. omega arith

drift-NoBar : NoBar (b'd' ∷ b'r' ∷ b'i' ∷ b'f' ∷ b't' ∷ [])
drift-NoBar = (
  not_bar _ (omega arith),
  (
    not_bar _ (omega arith),
    (not_bar _ (omega arith), (not_bar _ (omega arith), (not_bar _ (omega arith), tt))),
  ),
)

drift_key_injective :
    (u w : UnitId)
    → drift_key u ≡ drift_key w
    → (u.connection_id ≡ w.connection_id) × (u.device_id ≡ w.device_id)
unfolding drift_key
drift_key_injective u w e =
    let front = (last_bar _ _ _ _ drift-NoBar drift-NoBar e).0 in
    let (conn, slave) =
      last_bar _ _ _ _ (decimal-NoBar u.device_id) (decimal-NoBar w.device_id) front in
    (conn, decimal_injective _ _ slave)

drift_key-eq : (u w : UnitId) → text_eq (drift_key u) (drift_key w) ≡ unit_eq u w
drift_key-eq u w = elim (Bool-cases (unit_eq u w)) [
  | inl e ↦
      let conn : text_eq u.connection_id w.connection_id ≡ true = ground (arith, e) in
      let slave : (u.device_id == w.device_id) ≡ true = ground (arith, e) in
      rw e (keys_equal ((text_eq_iff _ _).0 conn) ((==_iff _ _).0 slave))
  | inr e ↦ elim (Bool-cases (text_eq (drift_key u) (drift_key w))) [
    | inl k ↦
        let (conn, slave) = drift_key_injective u w ((text_eq_iff _ _).0 k) in
        ground
          (arith, e, (text_eq_iff u.connection_id w.connection_id).1 conn, (==_iff _ _).1 slave)
    | inr k ↦ rw (k, e) refl
  ]
]
  where
    keys_equal :
        u.connection_id ≡ w.connection_id
        → u.device_id ≡ w.device_id
        → text_eq (drift_key u) (drift_key w) ≡ true
    keys_equal conn slave = (text_eq_iff (drift_key u) (drift_key w)).1 (rw (conn, slave) refl)

-- A test of one key, seen from any key: `c` is the count that the test found.
wrong-counts :
    (connected : Bool) (now : DateTime) (i j : Text) (c k : ℕ) (m : Cache)
    → get_or (lookup j m) 0 ≡ min 6 k
    → (text_eq i j ≡ true → c ≡ get_or (lookup j m) 0)
    → get_or (lookup j (count_drift true connected now i c m).counters) 0
      ≡ min 6 (if text_eq i j then k + 1 else k)
unfolding count_drift
wrong-counts connected now i j c k m h found = elim (Bool-cases (ltb 5 c)) [
  | inr low ↦ rw (low, lookup-insert i j (c + 1) m) (ground (arith, h, found, low))
  | inl top ↦
      let same : get_or (lookup j m) 0 ≡ min 6 (if text_eq i j then k + 1 else k) =
        ground (arith, h, found, top) in
      elim (Bool-cases connected) [ inl on ↦ rw (top, on) same | inr off ↦ rw (top, off) same ]
]

count_drift-counts :
    (d connected : Bool) (now : DateTime) (i j : Text) (k : ℕ) (m : Cache)
    → get_or (lookup j m) 0 ≡ min 6 k
    → get_or (lookup j (count_drift d connected now i (get_or (lookup i m) 0) m).counters) 0
      ≡ min 6 (if text_eq i j then (if d then k + 1 else 0) else k)
unfolding count_drift
count_drift-counts false connected now i j k m h = rw (lookup-insert i j 0 m) (ground (arith, h))
count_drift-counts true connected now i j k m h =
    wrong-counts connected now i j (get_or (lookup i m) 0) k m h
      (λ e. ap (λ key. get_or (lookup key m) 0) ((text_eq_iff i j).0 e))

module _ (datetime : DateTime → Option ℕ) where
  abbrev pub is_wrong : Test → Bool
  is_wrong t = drifted datetime t.now t.device

  -- How many tests of the unit in a row, the last ones, found its clock wrong; `k` before the first.
  unfoldable pub streak : UnitId → ℕ → List Test → ℕ
  streak u k [] = k
  streak u k (t ∷ ts) =
      streak u (if unit_eq t.unit u then (if is_wrong t then k + 1 else 0) else k) ts

  counter : UnitId → Cache → ℕ
  counter u m = get_or (lookup (drift_key u) m) 0

  counter-test :
      (t : Test) (u : UnitId) (k : ℕ) (m : Cache)
      → counter u m ≡ min 6 k
      → counter u (clock_drift_test datetime t.now t.connected t.unit t.device m).counters
        ≡ min 6 (if unit_eq t.unit u then (if is_wrong t then k + 1 else 0) else k)
  unfolding clock_drift_test counter
  counter-test t u k m h =
      count_drift-counts (is_wrong t) t.connected t.now.fields (drift_key t.unit) (drift_key u) k m
        h
      ∙ ap (λ b. min 6 (if b then (if is_wrong t then k + 1 else 0) else k)) (drift_key-eq t.unit u)

  counter-run :
      (ts : List Test) (u : UnitId) (k : ℕ) (m : Cache)
      → counter u m ≡ min 6 k
      → counter u (run_tests datetime ts m) ≡ min 6 (streak u k ts)
  unfolding run_tests streak
  counter-run [] u k m h = h
  counter-run (t ∷ ts) u k m h = counter-run ts u _ _ (counter-test t u k m h)

  adjusts :
      (d connected : Bool) (now : DateTime) (key : Text) (c k : ℕ) (m : Cache)
      → c ≡ min 6 k
      → let out = count_drift d connected now key c m in
        let set = d && leb 6 k && connected in
        (out.clock_adjusted ≡ set)
        × (out.request ≡ (if set then some (43000, clock_words now) else none))
  unfolding count_drift
  adjusts false connected now key c k m h = (refl, refl)
  adjusts true connected now key c k m h = elim (Bool-cases (ltb 5 c)) [
    | inl top ↦
        let six : leb 6 k ≡ true = ground (arith, h, top) in
        elim (Bool-cases connected) [
          | inl on ↦ rw (top, six, on) (refl, refl)
          | inr off ↦ rw (top, six, off) (refl, refl)
        ]
    | inr low ↦ let few : leb 6 k ≡ false = ground (arith, h, low) in rw (low, few) (refl, refl)
  ]

  -- After any history of tests of any inverters, from empty counters, a test sets the inverter's
  -- clock exactly when it finds the clock wrong, the last six tests of that inverter at least all
  -- did, and the link is connected; what it then asks to write is the present time.
  pub clock_drift_test-streak :
      (ts : List Test) (t : Test)
      → let out =
          clock_drift_test datetime t.now t.connected t.unit t.device (run_tests datetime ts []) in
        let set = is_wrong t && leb 6 (streak t.unit 0 ts) && t.connected in
        (out.clock_adjusted ≡ set)
        × (out.request ≡ (if set then some (43000, clock_words t.now.fields) else none))
  unfolding clock_drift_test counter
  clock_drift_test-streak ts t =
      adjusts (is_wrong t) t.connected t.now.fields (drift_key t.unit) _ (streak t.unit 0 ts)
        (run_tests datetime ts []) (counter-run ts t.unit 0 [] refl)
