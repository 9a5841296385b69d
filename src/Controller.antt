-- ===== src/Controller.antt =====
-- modbus_controller.py: the requests of one `ModbusController` on its link.
--
-- The pymodbus client is no code of the repository. It is the parameter `Client`: what it answers may
-- depend on everything that was sent before (`wire`), and an answer says with it what the link and
-- the other tasks have done by the time it comes: whether the client is connected, whether the
-- controller was closed meanwhile, whether the manager has dropped the client, and the time.
-- `close()` of the client leaves it disconnected. `inter_frame_wait` (see Manager) delays each
-- request and does nothing else to this state; the poll lock makes each operation one step.
pub mod Reads
pub mod Writes
pub mod Queue
pub mod Replace
use hh_modbus.Base.{
  ℕ, ◌+◌, Bool, true, false, not, ◌&&◌, ◌||◌, List, [], ◌∷◌, ◌++◌, Option, none, some, ⊤, ◌==◌,
  if◌then◌else◌,
}
use hh_modbus.Groups.{RegisterType, SensorGroup}
use hh_modbus.Cache.{UnitId, Cache, cache_save}

-- One call of the client.
pub data Frame : Type 0 where
  opening : Frame
  reading : RegisterType → ℕ → ℕ → ℕ → Frame
  writing_one : ℕ → ℕ → ℕ → Frame
  writing_many : ℕ → List ℕ → ℕ → Frame

-- How a call ends: with a response, with an error response (`isError()`) and the exception code that
-- it may carry, or with a Python exception.
pub data Reply (A : Type 0) : Type 0 where
  ok : A → Reply A
  error : Option ℕ → Reply A
  raised : Reply A

pub record Answer (A : Type 0) : Type 0 where
  pub reply : Reply A
  pub connected : Bool
  pub closed : Bool
  pub released : Bool
  pub now : ℕ

-- The arguments of a read are the register type, the address, the count and the unit.
pub record Client : Type 0 where
  pub connect : List Frame → Answer ⊤
  pub read : List Frame → RegisterType → ℕ → ℕ → ℕ → Answer (List ℕ)
  pub write_register : List Frame → ℕ → ℕ → ℕ → Answer (List ℕ)
  pub write_registers : List Frame → ℕ → List ℕ → ℕ → Answer ⊤

pub data ConnectionType : Type 0 where
  tcp serial : ConnectionType

-- `connected` is `client.connected`; `values` is the shared register cache; `updates` holds the
-- register updates that were dispatched, oldest first; `groups` is `_sensor_groups`.
pub record State : Type 0 where
  pub unit : UnitId
  pub connection_type : ConnectionType
  pub connected : Bool
  pub closed : Bool
  pub enabled : Bool
  pub connect_failures : ℕ
  pub last_modbus_success : ℕ
  pub has_answered : Bool
  pub wire : List Frame
  pub values : Cache
  pub updates : List (ℕ × ℕ)
  pub groups : List SensorGroup

-- `cache_save` and `notify_register_update`, which always follow each other.
unfoldable pub publish : ℕ → ℕ → State → State
publish register value s = record s {
  values = cache_save s.unit register value s.values;
  updates = s.updates ++ (register, value) ∷ [];
}

-- A frame goes out, and the answer's side effects arrive.
abbrev pub sent : {A : Type 0} → Frame → Answer A → State → State
sent f a s = record s {
  wire = s.wire ++ f ∷ [];
  connected = a.connected;
  closed = s.closed || a.closed;
}

-- `_safe_close`, and the close of `force_close`.
unfoldable pub safe_close : State → State
safe_close s = record s { connected = false }

-- A failed attempt. Its debug line names `self.port`, which a serial controller does not have: there
-- the exception handler counts the same attempt once more.
unfoldable pub count_failure : State → State
unfolding safe_close
count_failure s = elim s.connection_type [
  | tcp ↦ safe_close (record s { connect_failures = s.connect_failures + 1 })
  | serial ↦ safe_close (record s { connect_failures = s.connect_failures + 1 + 1 })
]

-- `_try_connect`, after `await self.client.connect()` has ended.
unfoldable pub after_connect : Answer ⊤ → State → Bool × State
unfolding safe_close count_failure
after_connect a s = elim a.reply [
  | raised ↦ (false, safe_close (record s { connect_failures = s.connect_failures + 1 }))
  | _ ↦
      if s.closed
      then (false, if a.released then safe_close s else s)
      else if s.connected
      then (true, record s { connect_failures = 0 })
      else (false, count_failure s)
]

-- What `_execute_write_holding_register` does with the response: it publishes the first register
-- that came back. An empty response raises and is caught.
unfoldable pub after_write : ℕ → Reply (List ℕ) → State → Bool × State
unfolding publish
after_write register (ok []) s = (false, s)
after_write register (ok (v ∷ vs)) s = (true, publish register v s)
after_write register (error _) s = (false, s)
after_write register raised s = (false, s)

-- The loop over the values that were written.
unfoldable pub publish_from : ℕ → List ℕ → State → State
unfolding publish
publish_from register [] s = s
publish_from register (v ∷ vs) s = publish_from (register + 1) vs (publish register v s)

-- What `_execute_write_holding_registers` does with the response.
unfoldable pub after_write_many : ℕ → List ℕ → Reply ⊤ → State → Bool × State
unfolding publish_from safe_close
after_write_many start values (ok _) s = (true, publish_from start values s)
after_write_many start values (error _) s = (false, s)
after_write_many start values raised s = (false, safe_close s)

module _ (client : Client) where
  -- `connect`: the test before the lock and the one behind it read the same state.
  unfoldable pub connect : State → Bool × State
  unfolding after_connect
  connect s =
      if s.closed
      then (false, s)
      else if s.connected
      then (true, s)
      else let a = client.connect s.wire in after_connect a (sent opening a s)

  -- `_async_read_input_register_raw_detailed` and `_async_read_holding_register_raw_detailed`.
  unfoldable pub read_raw : RegisterType → ℕ → ℕ → State → (Option (List ℕ) × Option ℕ) × State
  unfolding safe_close
  read_raw type register count s =
      let unit = s.unit.device_id in
      let a = client.read s.wire type register count unit in
      let s' = sent (reading type register count unit) a s in
      elim a.reply [
        | ok registers ↦
            ((some registers, none), record s' { last_modbus_success = a.now; has_answered = true })
        | error code ↦ ((none, code), s')
        | raised ↦ ((none, none), safe_close s')
      ]

  -- `async_read_input_registers_with_exception` and its holding twin.
  unfoldable pub read_with_exception :
      RegisterType → ℕ → ℕ → State → (Option (List ℕ) × Option ℕ) × State
  unfolding connect read_raw
  read_with_exception type register count s =
      let (up, s') = connect s in if up then read_raw type register count s' else ((none, none), s')

  -- `async_read_input_register` and `async_read_holding_register`.
  unfoldable pub read_register : RegisterType → ℕ → ℕ → State → Option (List ℕ) × State
  unfolding read_with_exception
  read_register type register count s =
      let ((values, _), s') = read_with_exception type register count s in (values, s')

  -- `async_unit_answers`: an answer counts for no one.
  unfoldable pub unit_answers : ℕ → ℕ → State → Bool × State
  unfolding connect safe_close
  unit_answers probe device_id s =
      let (up, s') = connect s in
      let a = client.read s'.wire RegisterType.input probe 1 device_id in
      let s'' = sent (reading RegisterType.input probe 1 device_id) a s' in
      if up
      then (elim a.reply [
        | ok _ ↦ (true, s'')
        | error _ ↦ (false, s'')
        | raised ↦ (false, safe_close s'')
      ])
      else (false, s')

  -- `_execute_write_holding_register`; the result of `connect` is not looked at.
  unfoldable pub execute_write_register : ℕ → ℕ → State → Bool × State
  unfolding after_write
  execute_write_register register value s =
      let (_, s') = connect s in
      let unit = s'.unit.device_id in
      let a = client.write_register s'.wire register value unit in
      after_write register a.reply (sent (writing_one register value unit) a s')

  -- `_execute_write_holding_registers`
  unfoldable pub execute_write_registers : ℕ → List ℕ → State → Bool × State
  unfolding after_write_many
  execute_write_registers start values s =
      let (_, s') = connect s in
      let unit = s'.unit.device_id in
      let a = client.write_registers s'.wire start values unit in
      after_write_many start values a.reply (sent (writing_many start values unit) a s')

-- `replace_sensor_group`: the new groups stand at the old one's place; identity is the `id`.
abbrev pub replace_at : ℕ → List SensorGroup → List SensorGroup → List SensorGroup
replace_at old new [] = []
replace_at old new (g ∷ gs) = if g.id == old then new ++ gs else g ∷ replace_at old new gs

unfoldable pub replace_sensor_group : SensorGroup → List SensorGroup → State → State
replace_sensor_group old new s = record s { groups = replace_at old.id new s.groups }
