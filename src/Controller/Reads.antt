-- ===== src/Controller/Reads.antt =====
-- modbus_controller.py: connecting and reading.
use hh_modbus.Base.{ℕ, ◌+◌, ◌≡◌, arith, true, false, List, Option, none, some}
use hh_modbus.Groups.{RegisterType}
use hh_modbus.Controller.{
  Client, State, Reply, ok, error, raised, tcp, serial, ConnectionType, connect, read_raw,
  read_with_exception, unit_answers,
}

-- What a failed attempt adds to the count of failures.
abbrev pub attempt_cost : ConnectionType → Reply Unit → ℕ
attempt_cost serial (ok _) = 2
attempt_cost serial (error _) = 2
attempt_cost serial raised = 1
attempt_cost tcp r = 1

module _ (client : Client) (s : State) where
  -- `connect` reports a link exactly when the controller is open and its client is connected.
  pub connect_true :
      (connect client s).0 ≡ true
      → ((connect client s).1.connected ≡ true) × ((connect client s).1.closed ≡ false)
  unfolding connect
  connect_true h = ground arith

  -- A closed controller opens no link and reads nothing, and says so without a request.
  pub closed_sends_nothing :
      (type : RegisterType) (register count : ℕ)
      → s.closed ≡ true
      → (connect client s ≡ (false, s))
        × (read_with_exception client type register count s ≡ ((none, none), s))
  unfolding read_with_exception
  closed_sends_nothing type register count h = ground arith

  -- A failed attempt of a controller that is open and stays open, on a link that is down, leaves
  -- the link closed; over TCP it counts once, and over a serial line twice, unless the client
  -- raised.
  pub connect_failure :
      s.closed ≡ false
      → s.connected ≡ false
      → (client.connect s.wire).closed ≡ false
      → (connect client s).0 ≡ false
      → let s' = (connect client s).1 in
        (s'.connected ≡ false)
        × (s'.connect_failures
            ≡ s.connect_failures + attempt_cost s.connection_type (client.connect s.wire).reply)
  unfolding connect
  connect_failure opened down still h = ground arith

-- A read, whatever its end, leaves the cache, the dispatched updates and the groups alone; it marks
-- the inverter as having answered when it returns registers, and not otherwise.
abbrev pub ReadEffect : State → (Option (List ℕ) × Option ℕ) × State → Type 0
ReadEffect s ((some registers, code), s') =
    (code ≡ none)
    × (s'.has_answered ≡ true)
    × (s'.values ≡ s.values)
    × (s'.updates ≡ s.updates)
    × (s'.groups ≡ s.groups)
    × (s'.enabled ≡ s.enabled)
ReadEffect s ((none, code), s') =
    (s'.has_answered ≡ s.has_answered)
    × (s'.last_modbus_success ≡ s.last_modbus_success)
    × (s'.values ≡ s.values)
    × (s'.updates ≡ s.updates)
    × (s'.groups ≡ s.groups)
    × (s'.enabled ≡ s.enabled)

module _ (client : Client) (type : RegisterType) (register count : ℕ) (s : State) where
  pub read_raw-ReadEffect : ReadEffect s (read_raw client type register count s)
  unfolding read_raw
  read_raw-ReadEffect = ground arith

  -- A read leaves the cache, the dispatched updates and the groups alone whatever its end, and
  -- marks the inverter as having answered when it returns registers, and not otherwise.
  pub read_with_exception-ReadEffect :
      ReadEffect s (read_with_exception client type register count s)
  unfolding read_with_exception
  read_with_exception-ReadEffect = ground arith

  -- Probing another unit never counts as this inverter's answer.
  pub unit_answers_silent :
      (probe device_id : ℕ)
      → let s' = (unit_answers client probe device_id s).1 in
        (s'.has_answered ≡ s.has_answered) × (s'.last_modbus_success ≡ s.last_modbus_success)
  unfolding unit_answers
  unit_answers_silent probe device_id = ground arith
