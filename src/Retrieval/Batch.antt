-- ===== src/Retrieval/Batch.antt =====
-- data_retrieval.py: `get_modbus_updates` and the updates of each speed.
pub mod Kept
pub mod Outcome
use hh_modbus.Base.{
  ℕ, zero, suc, ◌+◌, ◌-◌, ◌*◌, ◌/◌, max, Bool, true, false, not, ◌&&◌, ◌||◌, List, [], ◌∷◌, ◌++◌,
  Option, none, some, ltb, leb, ◌==◌, if◌then◌else◌, get_or, length, elem, select, any, all, map,
}
use hh_modbus.Inverter.{PollSpeed}
use hh_modbus.Groups.{
  Sensor, SensorGroup, RegisterType, sensors, registrars, registrar_count, start_register,
  from_sensors, cluster_sensors_by_contiguous_registers,
}
use hh_modbus.Cache.{cache_get}
use hh_modbus.Controller.{
  Client, State, publish, read_raw, read_with_exception, replace_sensor_group,
}
use hh_modbus.Retrieval.{Poller, can_poll, is_enabled, is_once, apply_register_read, read_block}
use hh_modbus.Retrieval.Recovery.{recover, is_recoverable, max_depth}

abbrev pub is_fast : PollSpeed → Bool
is_fast PollSpeed.fast = true
is_fast _ = false

abbrev pub is_normal : PollSpeed → Bool
is_normal PollSpeed.normal = true
is_normal _ = false

abbrev pub is_slow : PollSpeed → Bool
is_slow PollSpeed.slow = true
is_slow _ = false

-- The loop over what was recovered.
abbrev pub apply_recovered : List (SensorGroup × List ℕ) → List ℕ → Poller → List ℕ × Poller
apply_recovered [] marked p = (marked, p)
apply_recovered ((g, vs) ∷ found) marked p =
    let (marked', p') = apply_register_read g vs marked p in apply_recovered found marked' p'

abbrev pub start_registers : List SensorGroup → List ℕ
start_registers [] = []
start_registers (g ∷ gs) = start_register g ∷ start_registers gs

abbrev pub speed_index : PollSpeed → ℕ
speed_index PollSpeed.once = 0
speed_index PollSpeed.startup = 1
speed_index PollSpeed.fast = 2
speed_index PollSpeed.normal = 3
speed_index PollSpeed.slow = 4

-- The same speed and the same set of start registers.
abbrev pub same_batch : PollSpeed × List ℕ → PollSpeed × List ℕ → Bool
same_batch (v, rs) (w, qs) =
    speed_index v == speed_index w && (all (λ r. elem r qs) rs && all (λ q. elem q rs) qs)

abbrev pub remove_batch : PollSpeed × List ℕ → List (PollSpeed × List ℕ) → List (PollSpeed × List ℕ)
remove_batch b [] = []
remove_batch b (c ∷ cs) = if same_batch b c then cs else c ∷ remove_batch b cs

module _ (client : Client) where
  -- The answer to the read of a group was no block: the group is recovered, if the exception code
  -- allows it, and the batch goes on while the link is up.
  unfoldable pub poll_failed : SensorGroup → Option ℕ → List ℕ → Poller → Bool × List ℕ × Poller
  unfolding can_poll
  poll_failed g code marked p =
      let (found, q) = recover client max_depth g.register_type g p in
      let (marked', q') = apply_recovered found marked q in
      if is_recoverable code then (can_poll q', marked', q') else (can_poll p, marked, p)

  unfoldable pub after_read :
      SensorGroup → Option (List ℕ) × Option ℕ → List ℕ → Poller → Bool × List ℕ × Poller
  after_read g (none, code) marked p = poll_failed g code marked p
  after_read g (some vs, code) marked p =
      if length vs == registrar_count g
      then (let (marked', p') = apply_register_read g vs marked p in (true, marked', p'))
      else (true, marked, p)

  -- What a batch does with one group; the first result says that the batch goes on.
  unfoldable pub poll_group : SensorGroup → List ℕ → Poller → Bool × List ℕ × Poller
  poll_group g marked p =
      let (answer, p') =
        read_block client g.register_type (start_register g) (registrar_count g) p in
      after_read g answer marked p'

  unfoldable pub poll_groups : List SensorGroup → List ℕ → Poller → List ℕ × Poller
  poll_groups [] marked p = (marked, p)
  poll_groups (g ∷ gs) marked p =
      let (more, marked', p') = poll_group g marked p in
      let rest = poll_groups gs marked' p' in if more then rest else (marked', p')

  -- `get_modbus_updates`
  unfoldable pub get_modbus_updates : List SensorGroup → PollSpeed → Poller → Poller
  unfolding can_poll
  get_modbus_updates groups speed p =
      let batch : PollSpeed × List ℕ = (speed, start_registers groups) in
      let (marked, q) = poll_groups groups [] (record p { updating = batch ∷ p.updating }) in
      let kept = select (λ g. not (elem g.id marked)) q.link.groups in
      if not (can_poll p) then p else if any (same_batch batch) p.updating then p else record q {
        link = record q.link { groups = kept };
        updating = remove_batch batch q.updating;
      }

  unfoldable pub modbus_update_fast : Poller → Poller
  modbus_update_fast p =
      let q =
        get_modbus_updates (select (λ g. is_fast g.poll_speed) p.link.groups) PollSpeed.fast p in
      record q {
        link = record q.link {
          updates = q.link.updates ++ (90006, q.link.last_modbus_success) ∷ [];
        };
      }

  unfoldable pub modbus_update_normal : Poller → Poller
  modbus_update_normal p =
      get_modbus_updates
        (select (λ g. is_normal g.poll_speed || is_once g.poll_speed) p.link.groups)
        PollSpeed.normal p

  unfoldable pub modbus_update_slow : Poller → Poller
  modbus_update_slow p =
      get_modbus_updates (select (λ g. is_slow g.poll_speed) p.link.groups) PollSpeed.slow p

  unfoldable pub modbus_update_all : Poller → Poller
  modbus_update_all p = modbus_update_slow (modbus_update_normal (modbus_update_fast p))
