-- ===== src/Tests/Link.antt =====
-- Connections, writes, the queue, the cache, shared clients and the watchdog.
use hh_modbus.Base.{
  List, ℕ, ◌+◌, ◌-◌, ◌≤◌, ◌≡◌, ◌≢◌, refl, arith, true, false, [], ◌∷◌, ◌++◌, none, some, is_some,
  if◌then◌else◌,
}
use hh_modbus.Groups.{RegisterType}
use hh_modbus.Cache.Refinement.{Save, view, save_all, save_all_view, view-save_all}
use hh_modbus.Cache.Keys.{register_cache_key_injective}
use hh_modbus.Controller.{connect, read_with_exception, execute_write_registers}
use hh_modbus.Controller.Reads.{
  ReadEffect, attempt_cost, connect_failure, read_with_exception-ReadEffect,
}
use hh_modbus.Controller.Writes.{
  cached, acknowledged, in_block, or_else, execute_write_registers_cache,
}
use hh_modbus.Controller.Queue.{single, Writer, get, run as run_step, idle}
use hh_modbus.Manager.{Entry, Manager, empty, find, release_client}
use hh_modbus.Manager.References.{
  get, release, run, holders, balance, IsCounted, run-holders, release_client-closes,
}
use hh_modbus.Manager.Spacing.{Frame, locked_waits, IsSpaced, locked_waits-IsSpaced}
use hh_modbus.Watchdog.{Watch, reconnect}
use hh_modbus.Watchdog.Reconnect.{AcceptsFrom, IsIdle, Ended, reconnect-Ended, reconnect_returns}
use hh_modbus.Tests.Data.{inverter, sleepy, unit, other_unit, link, down, watch, now}

asleep : (connect sleepy down).0 ≡ false
unfolding connect
asleep = refl

connect_failure_example :
    let s' = (connect sleepy down).1 in
    (s'.connected ≡ false)
    × (s'.connect_failures
        ≡ down.connect_failures
          + attempt_cost down.connection_type (sleepy.connect down.wire).reply)
connect_failure_example = connect_failure sleepy down refl refl refl asleep

abbrev register : ℕ
register = 33000

read_with_exception-ReadEffect_example :
    ReadEffect link (read_with_exception inverter RegisterType.input 33000 2 link)
read_with_exception-ReadEffect_example =
    read_with_exception-ReadEffect inverter RegisterType.input 33000 2 link

execute_write_registers_cache_example :
    let s' = (connect inverter link).1 in
    let r = (inverter.write_registers s'.wire 43143 (7 ∷ 30 ∷ []) s'.unit.device_id).reply in
    let (done, t) = execute_write_registers inverter 43143 (7 ∷ 30 ∷ []) link in
    (done ≡ acknowledged r)
    × (cached 43144 t ≡ (
        if acknowledged r
        then or_else (in_block 43144 43143 (7 ∷ 30 ∷ [])) (cached 43144 link)
        else cached 43144 link))
execute_write_registers_cache_example =
    execute_write_registers_cache inverter 43143 43144 (7 ∷ 30 ∷ []) link

abbrev after_put : Writer
after_put = record (idle link) { queue = single 1 2 ∷ [] }

abbrev after_get : Writer
after_get = record after_put { queue = []; current = some (single 1 2) }

register_cache_key_injective_example :
    (unit.connection_id ≡ unit.connection_id)
    × (unit.device_id ≡ unit.device_id)
    × (register ≡ register)
register_cache_key_injective_example = register_cache_key_injective unit unit register register refl

units_differ : unit.device_id ≢ other_unit.device_id
units_differ e = omega (arith, e)

empty-IsCounted : IsCounted empty
empty-IsCounted k e h = ground (arith, h)

run-holders_example :
    let calls = get (97 ∷ []) ∷ get (97 ∷ []) ∷ get (98 ∷ []) ∷ release (97 ∷ []) ∷ [] in
    (holders (97 ∷ []) (run calls empty) ≡ balance (97 ∷ []) (holders (97 ∷ []) empty) calls)
    × IsCounted (run calls empty)
run-holders_example =
    run-holders (get (97 ∷ []) ∷ get (97 ∷ []) ∷ get (98 ∷ []) ∷ release (97 ∷ []) ∷ []) empty
      (97 ∷ []) empty-IsCounted

abbrev held : Entry
held = record { client = 0; ref_count = 1; last_modbus_request = 0 }

abbrev holding_one : Manager
holding_one = record { clients = (97 ∷ [], held) ∷ []; made = 1; closed = [] }

release_client-closes_example :
    (held.ref_count ≡ 1
      → ((release_client (97 ∷ []) holding_one).closed ≡ [] ++ 0 ∷ [])
        × (find (97 ∷ []) (release_client (97 ∷ []) holding_one).clients ≡ none))
    × (2 ≤ held.ref_count
        → ((release_client (97 ∷ []) holding_one).closed ≡ [])
          × (find (97 ∷ []) (release_client (97 ∷ []) holding_one).clients
              ≡ some (record held { ref_count = held.ref_count - 1 })))
release_client-closes_example = release_client-closes (97 ∷ []) holding_one held refl

-- The second task asks for the lock while the first one holds it.
abbrev overlapping : List Frame
overlapping =
    record { asked = 1005; late = 2; held = 40000 }
    ∷ record { asked = 1005; late = 0; held = 7 }
    ∷ []

locked_waits-IsSpaced_example : IsSpaced 0 (locked_waits (97 ∷ []) 1000 overlapping holding_one)
locked_waits-IsSpaced_example =
    locked_waits-IsSpaced (97 ∷ []) 1000 overlapping holding_one held refl (omega arith)

sleepy-AcceptsFrom : AcceptsFrom sleepy 2
sleepy-AcceptsFrom = record {
  stays_open = λ wire. refl;
  accepts = λ wire h. (refl, ground (arith, h));
}

abbrev nothing : ℕ → Watch → Watch
nothing delay w = w

nothing-IsIdle : IsIdle nothing
nothing-IsIdle delay w = refl

reconnect_returns_example : is_some (reconnect sleepy nothing now 3 500 watch) ≡ true
reconnect_returns_example =
    reconnect_returns sleepy 2 sleepy-AcceptsFrom nothing nothing-IsIdle now 2 500 watch refl
      (omega arith)

reconnect-Ended_example : Ended 500 (reconnect sleepy nothing now 3 500 watch)
reconnect-Ended_example = reconnect-Ended sleepy nothing now 3 500 watch

abbrev saves : List Save
saves =
    record { unit = unit; register = 33000; value = 5 }
    ∷ record { unit = other_unit; register = 33000; value = 6 }
    ∷ record { unit = unit; register = 33000; value = 7 }
    ∷ []

view-save_all_example : view (save_all saves []) ≡ save_all_view saves (view [])
view-save_all_example = view-save_all saves []
