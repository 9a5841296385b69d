-- ===== src/Watchdog.antt =====
-- data_retrieval.py: `check_connection`, the watchdog of the link, with the repair issues that it
-- raises. `Watch` is the part of `DataRetrieval` that it reads and writes.
--
-- What the watchdog asks of Home Assistant and of the clock are arguments, in `Now`. While it sleeps,
-- other tasks run: `sleep` is what they do to the state, and may depend on the time slept, in
-- milliseconds.
pub mod Reconnect
use hh_modbus.Base.{
  ℕ, zero, suc, ◌+◌, ◌-◌, ◌*◌, min, max, Bool, true, false, not, ◌&&◌, ◌||◌, List, [], ◌∷◌, ◌++◌,
  Option, none, some, ltb, leb, ◌==◌, if◌then◌else◌,
}
use hh_modbus.Controller.{
  Client, State, ConnectionType, tcp, serial, connect, safe_close, unit_answers,
}
use hh_modbus.Retrieval.{Poller}
use hh_modbus.Retrieval.Batch.{modbus_update_all}

-- `unreachable` and `wrong_slave` say whether the two repair issues exist.
pub record Watch : Type 0 where
  pub poller : Poller
  pub connection_check : Bool
  pub first_poll : Bool
  pub has_entry : Bool
  pub issue_raised : Option Bool
  pub unreachable : Bool
  pub slave_id_checked : Bool
  pub slave_id_issue_raised : Bool
  pub wrong_slave : Bool

-- `night` is `_expected_offline_at_night`, `longest` the longest poll interval in seconds, `shared`
-- whether another controller on the bus is configured for unit 1, `settled` whether polling began at
-- least a minute ago, and `probe` the register that is probed. Times are in seconds.
pub record Now : Type 0 where
  pub time : ℕ
  pub night : Bool
  pub longest : ℕ
  pub shared : Bool
  pub settled : Bool
  pub probe : ℕ

-- `_link_is_stale`; the time of the last success starts with the controller, so it is never None.
unfoldable pub link_is_stale : Now → State → Bool
link_is_stale now s = ltb (max 120 (now.longest * 3)) (now.time - s.last_modbus_success)

abbrev pub is_false : Option Bool → Bool
is_false (some false) = true
is_false _ = false

-- `_update_connection_issue`
unfoldable pub update_connection_issue : Now → Bool → Watch → Watch
update_connection_issue now down w =
    if not w.has_entry
    then w
    else if not down
    then record w { issue_raised = some false; unreachable = false }
    else if now.night
    then (if is_false w.issue_raised
        then w
        else record w { issue_raised = some false; unreachable = false })
    else record w { issue_raised = some true; unreachable = true }

abbrev pub with_link : Watch → State → Watch
with_link w s = record w { poller = record w.poller { link = s } }

abbrev pub with_delay : ℕ → Option (List ℕ × Watch) → Option (List ℕ × Watch)
with_delay delay none = none
with_delay delay (some (slept, w)) = some (delay ∷ slept, w)

-- How `check_connection` ends: with the delays that it slept, with an exception, or, here, without fuel.
pub data Checked : Type 0 where
  ended : List ℕ → Watch → Checked
  raised : Watch → Checked
  out_of_fuel : Checked

-- The body of the `try`, which an exception may have left in some state.
abbrev pub body_exit : Option Watch → Option (List ℕ × Watch) → Checked
body_exit (some w) o = raised w
body_exit none (some (slept, w)) = ended slept w
body_exit none none = out_of_fuel

-- The `finally` clause.
abbrev pub released : Checked → Checked
released (ended slept w) = ended slept (record w { connection_check = false })
released (raised w) = raised (record w { connection_check = false })
released out_of_fuel = out_of_fuel

-- `async_stop`, without the listeners and tasks that it takes down.
unfoldable pub async_stop : Now → Watch → Watch
unfolding update_connection_issue
async_stop now w =
    let stopped =
      update_connection_issue now false
        (record w { poller = record w.poller { stopping = true } }) in
    record stopped {
      wrong_slave = if stopped.has_entry then false else stopped.wrong_slave;
      connection_check = false;
    }

abbrev pub is_serial : ConnectionType → Bool
is_serial serial = true
is_serial tcp = false

module _ (client : Client) where
  -- `_check_serial_slave_id`
  unfoldable pub check_serial_slave_id : Now → Watch → Watch
  check_serial_slave_id now w =
      let s = w.poller.link in
      let (answers, s') = unit_answers client now.probe 1 s in
      let probed = with_link w s' in
      if w.slave_id_checked || not w.has_entry
      then w
      else if not (is_serial s.connection_type) || s.unit.device_id == 1 || s.has_answered
      then record w { wrong_slave = false; slave_id_checked = true }
      else if now.shared
      then record w { wrong_slave = false; slave_id_issue_raised = false }
      else if w.slave_id_issue_raised || not now.settled
      then w
      else if answers
      then record probed { slave_id_issue_raised = true; wrong_slave = true }
      else probed

  -- An attempt that failed, with the report that follows it.
  unfoldable pub attempt : Now → Watch → Watch
  unfolding update_connection_issue
  attempt now w =
      let (_, s) = connect client w.poller.link in
      let tried = with_link w s in
      if leb 5 s.connect_failures then update_connection_issue now true tried else tried

  -- The retry loop, with the delays that it slept, oldest first; none when the fuel is used up.
  unfoldable pub reconnect : (ℕ → Watch → Watch) → Now → ℕ → ℕ → Watch → Option (List ℕ × Watch)
  reconnect sleep now zero delay w = none
  reconnect sleep now (suc fuel) delay w =
      let (up, s) = connect client w.poller.link in
      let tried = attempt now w in
      let rest = reconnect sleep now fuel (min (delay * 2) 30000) (sleep delay tried) in
      if w.poller.link.connected || w.poller.stopping
      then some ([], w)
      else if up
      then some ([], update_connection_issue now false (with_link w s))
      else if tried.poller.stopping
      then some ([], tried)
      else with_delay delay rest

  -- What the watchdog does to a link that claims to be connected; the first result says that it is
  -- done.
  unfoldable pub inspect : Now → Watch → Bool × Watch
  unfolding update_connection_issue link_is_stale
  inspect now w =
      let polled = record w { poller = modbus_update_all client w.poller; first_poll = false } in
      let w' = if w.first_poll then polled else w in
      let gone = update_connection_issue now true w' in
      if not w.poller.link.connected
      then (false, w)
      else if not (link_is_stale now w'.poller.link)
      then (true, update_connection_issue now false w')
      else (false, with_link gone (safe_close gone.poller.link))

  -- `check_connection`: `notify_register_update` of register 90005 comes with the enabled flag.
  -- `fault` is the state in which an exception left the body, if one did.
  unfoldable pub check_connection : (ℕ → Watch → Watch) → Now → ℕ → Option Watch → Watch → Checked
  unfolding check_serial_slave_id inspect reconnect
  check_connection sleep now fuel fault w =
      let begun = check_serial_slave_id now (record w { connection_check = true }) in
      let s = begun.poller.link in
      let flag = if s.enabled then 1 else 0 in
      let told = with_link begun (record s { updates = s.updates ++ (90005, flag) ∷ [] }) in
      let (finished, w') = inspect now told in
      if w.connection_check
      then ended [] w
      else released
          (body_exit fault (if finished then some ([], w') else reconnect sleep now fuel 500 w'))
