-- ===== src/Controller/Queue/Order.antt =====
-- modbus_controller.py: the order in which the write queue sends what is put on it.
use hh_modbus.Base.{◌≡◌, true, List, ◌++◌, Option}
use hh_modbus.Controller.{State}
use hh_modbus.Controller.Queue.{Request, Writer, written, pending}

-- The requests that were sent, the held one and those on the queue are those that were submitted. The
-- held one is the one that waits; of a task that was cancelled, the one that was lost.
abbrev pub IsOrdered : State → List Request → Writer → Type 0
IsOrdered s rs w =
    (held : Option Request) × (written w.link.wire ++ (pending held ++ w.queue)
      ≡ written s.wire ++ rs)
    × (w.running ≡ true → held ≡ w.current)
