-- ===== src/Controller/Queue.antt =====
-- modbus_controller.py: `async_write_holding_register(s)` and `process_write_queue`. Requests are put
-- on a queue by any task, and one task takes them off, waits for the link, and executes them.
pub mod Order
use hh_modbus.Base.{
  ⊤, ℕ, ◌+◌, ◌≡◌, refl, sym, ap, ◌∙◌, arith, Bool, by_if, true, false, List, [], ◌∷◌, ◌++◌, Option,
  none, some,
}
use mathlib.Core.List.{append_assoc, append-nil}
use hh_modbus.Controller.{
  Client, State, Frame, opening, reading, writing_one, writing_many, Reply, Answer, sent, ok, error,
  raised, connect, publish, publish_from, after_write, after_write_many, after_connect,
  count_failure, safe_close, execute_write_register, execute_write_registers,
}

pub data Request : Type 0 where
  single : ℕ → ℕ → Request
  multiple : ℕ → List ℕ → Request

unfoldable pub execute : Client → Request → State → State
unfolding execute_write_register execute_write_registers
execute client (single register value) s = (execute_write_register client register value s).1
execute client (multiple start values) s = (execute_write_registers client start values s).1

-- `current` is the request that was taken off the queue and waits for the link; the task is `running`
-- until it is cancelled.
pub record Writer : Type 0 where
  pub link : State
  pub queue : List Request
  pub current : Option Request
  pub running : Bool

-- The requests that were sent to the inverter, oldest first.
unfoldable pub written : List Frame → List Request
written [] = []
written (writing_one register value unit ∷ fs) = single register value ∷ written fs
written (writing_many start values unit ∷ fs) = multiple start values ∷ written fs
written (_ ∷ fs) = written fs

-- A step, with the requests that it submits. `task_done` follows an execution, whatever its outcome.
-- The cancellation of the task comes while it waits, for a request or for the link (`cancel`), or while
-- it executes one that was sent (`abort`), whose answer is then lost. Other tasks may change the link
-- in any way but send no writes.
pub data Step (client : Client) : Writer → List Request → Writer → Type 0 where
  put : (w : Writer) (r : Request) → Step client w (r ∷ []) (record w { queue = w.queue ++ r ∷ [] })
  get :
      (w : Writer) (r : Request) (rest : List Request)
      → w.running ≡ true
      → w.current ≡ none
      → w.queue ≡ r ∷ rest
      → Step client w [] (record w { queue = rest; current = some r })
  run :
      (w : Writer) (r : Request)
      → w.running ≡ true
      → w.current ≡ some r
      → w.link.connected ≡ true
      → Step client w [] (record w { link = execute client r w.link; current = none })
  cancel :
      (w : Writer)
      → w.running ≡ true
      → Step client w [] (record w { current = none; running = false })
  abort :
      (w : Writer) (r : Request) (s : State)
      → w.running ≡ true
      → w.current ≡ some r
      → w.link.connected ≡ true
      → written s.wire ≡ written (execute client r w.link).wire
      → Step client w [] (record w { link = s; current = none; running = false })
  other :
      (w : Writer) (s : State)
      → written s.wire ≡ written w.link.wire
      → Step client w [] (record w { link = s })

-- What is reached from the start, when `rs` were submitted, oldest first.
pub data Reach (client : Client) (w : Writer) : List Request → Writer → Type 0 where
  here : Reach client w [] w
  next :
      {u v : Writer} {rs qs : List Request}
      → Reach client w rs u
      → Step client u qs v
      → Reach client w (rs ++ qs) v

abbrev pub pending : Option Request → List Request
pending none = []
pending (some r) = r ∷ []

abbrev pub idle : State → Writer
idle s = record { link = s; queue = []; current = none; running = true }
