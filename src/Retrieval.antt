-- ===== src/Retrieval.antt =====
-- data_retrieval.py: polling of one inverter. `Poller` is the part of `DataRetrieval` that a poll
-- reads and writes, with the controller's state in `link`.
pub mod Spike
pub mod Apply
pub mod Bisect
pub mod Recovery
pub mod Batch
use hh_modbus.Base.{
  ℕ, zero, suc, ◌+◌, ◌-◌, ◌*◌, ◌/◌, max, Bool, true, false, not, ◌&&◌, ◌||◌, List, [], ◌∷◌, ◌++◌,
  Option, none, some, ltb, leb, ◌==◌, if◌then◌else◌, get_or, length, elem, select, any, all, map,
}
use hh_modbus.Inverter.{PollSpeed}
use hh_modbus.Groups.{
  Sensor, SensorGroup, RegisterType, sensors, registrars, registrar_count, start_register,
  from_sensors, cluster_sensors_by_contiguous_registers,
}
use hh_modbus.Cache.{cache_get}
use hh_modbus.Controller.{
  Client, State, publish, read_raw, read_with_exception, replace_sensor_group,
}

-- `_spike_counter`, a dict from registers to counts; a register that is missing is entered with 0.
abbrev pub Counters : Type 0
Counters = List (ℕ × ℕ)

abbrev pub count_of : ℕ → Counters → ℕ
count_of r [] = 0
count_of r ((q, n) ∷ cs) = if q == r then n else count_of r cs

abbrev pub set_count : ℕ → ℕ → Counters → Counters
set_count r n [] = (r, n) ∷ []
set_count r n ((q, m) ∷ cs) = if q == r then (q, n) ∷ cs else (q, m) ∷ set_count r n cs

abbrev pub battery_soc : ℕ
battery_soc = 33139

abbrev pub backup_load : ℕ
backup_load = 33148

-- The readings that `spike_filtering` holds back. `wattage` is the inverter's `wattage_chosen`.
unfoldable pub implausible : ℕ → ℕ → ℕ → Bool
implausible wattage register value =
    if register == battery_soc
    then value == 0 || value == 100
    else if register == backup_load
    then leb 65000 value || ltb (max 10000 (wattage * 2)) value
    else false

-- The two registers that are filtered at all.
abbrev pub is_noisy : ℕ → Bool
is_noisy register = register == battery_soc || register == backup_load

-- `spike_filtering`: the value to publish, and the counters.
unfoldable pub spike_filtering : ℕ → Option ℕ → ℕ → ℕ → Counters → ℕ × Counters
unfolding implausible
spike_filtering wattage cached register value counters =
    let counters = set_count register (count_of register counters) counters in
    let raised = count_of register counters + 1 in
    if not (is_noisy register)
    then (value, counters)
    else if not (implausible wattage register value)
    then (value, set_count register 0 counters)
    else if ltb raised 3
    then (get_or cached value, set_count register raised counters)
    else (value, set_count register 0 counters)

-- `disabled` holds the ids of the sensors whose `enabled` is false, `next_id` is the identity of the
-- next object that is made. `updating` holds the batches in flight, `poll_updating`;
-- `data_received` is the controller's `_data_received`.
pub record Poller : Type 0 where
  pub link : State
  pub wattage : ℕ
  pub stopping : Bool
  pub counters : Counters
  pub disabled : List ℕ
  pub next_id : ℕ
  pub updating : List (PollSpeed × List ℕ)
  pub data_received : Bool

abbrev pub is_enabled : Poller → Sensor → Bool
is_enabled p s = not (elem s.id p.disabled)

unfoldable pub can_poll : Poller → Bool
can_poll p = not p.stopping && p.link.enabled && p.link.connected

-- One round of the loop in `_apply_register_read_to_cache`.
unfoldable pub apply_value : ℕ → ℕ → Poller → Poller
unfolding spike_filtering publish
apply_value register value p =
    let (corrected, counters) =
      spike_filtering p.wattage (cache_get p.link.unit register p.link.values) register value
        p.counters in
    record p { link = publish register corrected p.link; counters = counters }

unfoldable pub apply_values : ℕ → List ℕ → Poller → Poller
apply_values register [] p = p
apply_values register (v ∷ vs) p = apply_values (register + 1) vs (apply_value register v p)

abbrev pub is_once : PollSpeed → Bool
is_once PollSpeed.once = true
is_once _ = false

-- `_apply_register_read_to_cache`; the second result is `marked_for_removal`, by identity.
unfoldable pub apply_register_read : SensorGroup → List ℕ → List ℕ → Poller → List ℕ × Poller
apply_register_read g values marked p = (
  if is_once g.poll_speed then marked ++ g.id ∷ [] else marked,
  record (apply_values (start_register g) values p) { data_received = true },
)

module _ (client : Client) where
  -- `_read_register_block_with_exception`
  unfoldable pub read_block : RegisterType → ℕ → ℕ → Poller → (Option (List ℕ) × Option ℕ) × Poller
  unfolding can_poll
  read_block type start count p =
      let (r, s) = read_with_exception client type start count p.link in
      if can_poll p then (r, record p { link = s }) else ((none, none), p)
