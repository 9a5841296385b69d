-- ===== src/Retrieval/Recovery.antt =====
-- data_retrieval.py: `_recover_sensor_group_after_modbus_failure`.
pub mod Split
use hh_modbus.Base.{
  ℕ, zero, suc, ◌+◌, ◌-◌, ◌*◌, ◌/◌, max, Bool, true, false, not, ◌&&◌, ◌||◌, List, [], ◌∷◌, ◌++◌,
  Option, none, some, ltb, leb, ◌==◌, if◌then◌else◌, get_or, length, elem, select, any, all, map,
}
use hh_modbus.Inverter.{PollSpeed}
use hh_modbus.Groups.{
  Sensor, SensorGroup, RegisterType, sensors, registrars, registrar_count, start_register,
  from_sensors, cluster_sensors_by_contiguous_registers,
}
use hh_modbus.Cache.{cache_get}
use hh_modbus.Controller.{
  Client, State, publish, read_raw, read_with_exception, replace_sensor_group,
}
use hh_modbus.Retrieval.{Poller, can_poll, is_enabled, is_once, apply_register_read, read_block}
use hh_modbus.Retrieval.Bisect.{isolate_one_bad_register}

-- `exc in RECOVERABLE_REGISTER_READ_EXCEPTIONS`
abbrev pub is_recoverable : Option ℕ → Bool
is_recoverable none = false
is_recoverable (some code) = code == 2 || code == 3

-- `vals is not None and len(vals) == count`
abbrev pub has_length : ℕ → Option (List ℕ) → Bool
has_length count none = false
has_length count (some vs) = length vs == count

-- `_depth > _MAX_REGISTER_RECOVERY_DEPTH` stops the recursion: depths 0 to 24 run.
abbrev pub max_depth : ℕ
max_depth = 25

-- `SolisSensorGroup.from_sensors` for each cluster, each a new object.
abbrev pub make_groups :
    ℕ → PollSpeed → RegisterType → List (Sensor × List Sensor) → List SensorGroup
make_groups id speed type [] = []
make_groups id speed type (c ∷ cs) =
    from_sensors id c speed (some type) ∷ make_groups (id + 1) speed type cs

abbrev pub reads : ℕ → Sensor → Bool
reads bad s = elem bad (registrars s)

-- The bad register is known: its sensors are disabled, the others are clustered anew, and the new
-- groups replace the old one.
unfoldable pub split_group : ℕ → SensorGroup → Poller → List SensorGroup × Poller
unfolding replace_sensor_group
split_group bad g p =
    let p' = record p {
      disabled = p.disabled ++ map (λ s. s.id) (select (reads bad) (sensors g));
    } in
    let clusters =
      cluster_sensors_by_contiguous_registers (is_enabled p')
        (select (λ s. not (reads bad s)) (sensors g)) in
    let groups = make_groups p.next_id g.poll_speed g.register_type clusters in
    (
      groups,
      record p' {
        link = replace_sensor_group g groups p.link;
        next_id = p.next_id + length groups;
      },
    )

module _ (client : Client) where
  -- The loop over the replacement groups; `nested` is the recursive recovery.
  unfoldable pub read_new_groups :
      (SensorGroup → Poller → List (SensorGroup × List ℕ) × Poller)
      → RegisterType
      → List SensorGroup
      → Poller
      → List (SensorGroup × List ℕ) × Poller
  read_new_groups nested type [] p = ([], p)
  read_new_groups nested type (g ∷ gs) p =
      let ((values, code), p') = read_block client type (start_register g) (registrar_count g) p in
      let (found, p'') = nested g p' in
      let (others, q) = read_new_groups nested type gs p' in
      let (others', q') = read_new_groups nested type gs p'' in
      if has_length (registrar_count g) values
      then ((g, get_or values []) ∷ others, q)
      else if is_recoverable code
      then (found ++ others', q')
      else (others, q)

  -- What follows the bisection; None and the empty list both mean that nothing was recovered.
  unfoldable pub after_isolation :
      (SensorGroup → Poller → List (SensorGroup × List ℕ) × Poller)
      → RegisterType
      → SensorGroup
      → Option ℕ
      → Poller
      → List (SensorGroup × List ℕ) × Poller
  unfolding split_group
  after_isolation nested type g none p = ([], p)
  after_isolation nested type g (some bad) p =
      let (groups, p') = split_group bad g p in read_new_groups nested type groups p'

  -- `_recover_sensor_group_after_modbus_failure`; the fuel is the depth that is left.
  unfoldable pub recover :
      ℕ → RegisterType → SensorGroup → Poller → List (SensorGroup × List ℕ) × Poller
  recover zero type g p = ([], p)
  recover (suc depth) type g p =
      let (bad, s) =
        isolate_one_bad_register client (registrar_count g) type (start_register g)
          (registrar_count g) p.link in
      after_isolation (recover depth type) type g bad (record p { link = s })
