-- ===== src/Retrieval/Bisect.antt =====
-- data_retrieval.py: the quiet probe of a block and the bisection for a bad register.
pub mod Least
pub mod Enough
use hh_modbus.Base.{
  ℕ, zero, suc, ◌+◌, ◌-◌, ◌*◌, ◌/◌, max, Bool, true, false, not, ◌&&◌, ◌||◌, List, [], ◌∷◌, ◌++◌,
  Option, none, some, ltb, leb, ◌==◌, if◌then◌else◌, get_or, length, elem, select, any, all, map,
}
use hh_modbus.Inverter.{PollSpeed}
use hh_modbus.Groups.{
  Sensor, SensorGroup, RegisterType, sensors, registrars, registrar_count, start_register,
  from_sensors, cluster_sensors_by_contiguous_registers,
}
use hh_modbus.Cache.{cache_get}
use hh_modbus.Controller.{
  Client, State, publish, read_raw, read_with_exception, replace_sensor_group,
}

module _ (client : Client) where
  -- `_probe_register_block_quiet`
  unfoldable pub probe_quiet : RegisterType → ℕ → ℕ → State → Bool × State
  unfolding read_raw
  probe_quiet type start count s =
      let ((values, _), s') = read_raw client type start count s in
      if count == 0
      then (true, s)
      else (elim values [ none ↦ false | some vs ↦ length vs == count ], s')

  -- `for off in range(count)`: the first register that does not answer alone.
  unfoldable pub scan_single : RegisterType → ℕ → ℕ → State → Option ℕ × State
  scan_single type start zero s = (none, s)
  scan_single type start (suc left) s =
      let (fine, s') = probe_quiet type start 1 s in
      let rest = scan_single type (start + 1) left s' in if fine then rest else (some start, s')

  -- `_async_isolate_one_bad_register`; the count bounds the depth, so it is enough fuel.
  unfoldable pub isolate_one_bad_register : ℕ → RegisterType → ℕ → ℕ → State → Option ℕ × State
  isolate_one_bad_register zero type start count s = (none, s)
  isolate_one_bad_register (suc fuel) type start count s =
      let mid = count / 2 in
      let (left_ok, s') = probe_quiet type start mid s in
      let (right_ok, s'') = probe_quiet type (start + mid) (count - mid) s' in
      let left = isolate_one_bad_register fuel type start mid s' in
      let right = isolate_one_bad_register fuel type (start + mid) (count - mid) s'' in
      if count == 0
      then (none, s)
      else if count == 1
      then (some start, s)
      else if not left_ok
      then left
      else if not right_ok
      then right
      else scan_single type start count s''
