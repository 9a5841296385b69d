-- ===== src/Manager/Spacing.antt =====
-- client_manager.py: calls of `inter_frame_wait` under the poll lock of a link, as the reads and writes of
-- modbus_controller.py make them.
use hh_modbus.Base.{ℕ, max, ◌+◌, ◌≤◌, ◌≡◌, arith, List, [], ◌∷◌, some}
use hh_modbus.Cache.{Text}
use hh_modbus.Cache.Keys.{text_eq_iff}
use hh_modbus.Manager.{Entry, Manager, find, inter_frame_wait, wait_time}
use hh_modbus.Manager.References.{find-update}

-- A request of a link as its task makes it: it waits for the link's poll lock, calls
-- `inter_frame_wait` and holds the lock for some time after that.
pub record Frame : Type 0 where
  pub asked : ℕ
  pub late : ℕ
  pub held : ℕ

-- The times when the calls of `inter_frame_wait` return, for requests in the order in which they get
-- the lock, which is free from `free` on; the event loop is `late`.
unfoldable pub locked_waits : Text → ℕ → List Frame → Manager → List ℕ
locked_waits k free [] m = []
locked_waits k free (f ∷ fs) m =
    let (after, m') = inter_frame_wait k (max f.asked free) f.late m in
    after ∷ locked_waits k (after + f.held) fs m'

-- Each time is at least 310 ms after the one before, the first after `last`.
abbrev pub IsSpaced : ℕ → List ℕ → Type 0
IsSpaced last [] = Unit
IsSpaced last (t ∷ ts) = (last + 310000 ≤ t) × IsSpaced t ts

inter_frame_wait-find :
    (k : Text) (now late : ℕ) (m : Manager) (e : Entry)
    → find k m.clients ≡ some e
    → let (after, m') = inter_frame_wait k now late m in
      (after ≡ now + wait_time e.last_modbus_request now + late)
      × (find k m'.clients ≡ some (record e { last_modbus_request = after }))
unfolding inter_frame_wait
inter_frame_wait-find k now late m e found =
    let after = now + wait_time e.last_modbus_request now + late in
    ground (
      arith,
      found,
      text_eq_iff k k,
      find-update k k (record e { last_modbus_request = after }) m.clients,
    )

wait_time-lt : (last now : ℕ) → last ≤ now → last + 310000 ≤ now + wait_time last now
unfolding wait_time
wait_time-lt last now past = ground arith

-- While a link has its entry, whose last request is not in the future when the link's poll lock
-- becomes free, the calls of `inter_frame_wait` by tasks that hold this lock return at least 310 ms
-- apart, whatever the times at which the tasks ask for it and however late the event loop is.
pub locked_waits-IsSpaced :
    (k : Text) (free : ℕ) (frames : List Frame) (m : Manager) (e : Entry)
    → find k m.clients ≡ some e
    → e.last_modbus_request ≤ free
    → IsSpaced e.last_modbus_request (locked_waits k free frames m)
unfolding locked_waits
locked_waits-IsSpaced k free [] m e found past = tt
locked_waits-IsSpaced k free (f ∷ fs) m e found past =
    let start = max f.asked free in
    let (after, kept) = inter_frame_wait-find k start f.late m e found in
    let (t, m') = inter_frame_wait k start f.late m in
    let apart = wait_time-lt e.last_modbus_request start (omega arith) in
    (
      omega arith,
      locked_waits-IsSpaced k (t + f.held) fs m' (record e { last_modbus_request = t }) kept
          (omega arith),
    )
