-- ===== src/Retrieval/Batch/Outcome.antt =====
-- data_retrieval.py: `get_modbus_updates` as a whole.
use mathlib.Core.List.{append_assoc}
use hh_modbus.Base.{
  elem-append, ℕ, zero, suc, ◌+◌, ◌/◌, ◌-◌, ◌≡◌, refl, arith, true, false, List, [], ◌∷◌, ◌++◌,
  elem, any, all, ◌==◌, ==_iff, Bool-cases, inl, inr, ap, ◌∙◌,
}
use hh_modbus.Inverter.{PollSpeed}
use hh_modbus.Groups.{SensorGroup, RegisterType, start_register}
use hh_modbus.Controller.{
  Client, State, Frame, opening, reading, writing_one, writing_many, connect, read_raw,
  read_with_exception, publish,
}
use hh_modbus.Retrieval.{
  Poller, can_poll, apply_value, apply_values, apply_register_read, read_block,
}
use hh_modbus.Retrieval.Bisect.{probe_quiet, scan_single, isolate_one_bad_register}
use hh_modbus.Retrieval.Recovery.{split_group}
use hh_modbus.Retrieval.Batch.{
  same_batch, start_registers, poll_groups, get_modbus_updates, speed_index,
}
use hh_modbus.Retrieval.Batch.Kept.{kept-poll_groups}

-- How often a connection was opened.
abbrev pub openings : List Frame → ℕ
openings [] = 0
openings (opening ∷ fs) = 1 + openings fs
openings (reading t r n u ∷ fs) = openings fs
openings (writing_one r v u ∷ fs) = openings fs
openings (writing_many r vs u ∷ fs) = openings fs

openings-reading :
    (fs : List Frame) (t : RegisterType) (r n u : ℕ)
    → openings (fs ++ reading t r n u ∷ []) ≡ openings fs
openings-reading [] t r n u = refl
openings-reading (opening ∷ fs) t r n u = ground (arith, openings-reading fs t r n u)
openings-reading (reading t' r' n' u' ∷ fs) t r n u = openings-reading fs t r n u
openings-reading (writing_one r' v u' ∷ fs) t r n u = openings-reading fs t r n u
openings-reading (writing_many r' vs u' ∷ fs) t r n u = openings-reading fs t r n u

apply_values-updating :
    (r : ℕ) (vs : List ℕ) (p : Poller)
    → ((apply_values r vs p).updating ≡ p.updating)
      × ((apply_values r vs p).link.wire ≡ p.link.wire)
unfolding apply_values apply_value publish
apply_values-updating r [] p = (refl, refl)
apply_values-updating r (v ∷ vs) p = apply_values-updating (r + 1) vs (apply_value r v p)

module _ (client : Client) where
  read_raw-openings :
      (t : RegisterType) (r n : ℕ) (s : State)
      → openings (read_raw client t r n s).1.wire ≡ openings s.wire
  unfolding read_raw
  read_raw-openings t r n s = ground (arith, openings-reading s.wire t r n s.unit.device_id)

  probe_quiet-openings :
      (t : RegisterType) (r n : ℕ) (s : State)
      → openings (probe_quiet client t r n s).1.wire ≡ openings s.wire
  unfolding probe_quiet
  probe_quiet-openings t r n s = ground (arith, read_raw-openings t r n s)

  scan_single-openings :
      (t : RegisterType) (r n : ℕ) (s : State)
      → openings (scan_single client t r n s).1.wire ≡ openings s.wire
  unfolding scan_single
  scan_single-openings t r zero s = refl
  scan_single-openings t r (suc n) s =
      let s' = (probe_quiet client t r 1 s).1 in
      ground (arith, probe_quiet-openings t r 1 s, scan_single-openings t (r + 1) n s')

  isolate-openings :
      (fuel : ℕ) (t : RegisterType) (r n : ℕ) (s : State)
      → openings (isolate_one_bad_register client fuel t r n s).1.wire ≡ openings s.wire
  unfolding isolate_one_bad_register
  isolate-openings zero t r n s = refl
  isolate-openings (suc fuel) t r n s =
      let mid = n / 2 in
      let s' = (probe_quiet client t r mid s).1 in
      let s'' = (probe_quiet client t (r + mid) (n - mid) s').1 in
      ground (
        arith,
        probe_quiet-openings t r mid s,
        probe_quiet-openings t (r + mid) (n - mid) s',
        isolate-openings fuel t r mid s',
        isolate-openings fuel t (r + mid) (n - mid) s'',
        scan_single-openings t r n s'',
      )

  read_block-openings :
      (t : RegisterType) (r n : ℕ) (p : Poller)
      → openings (read_block client t r n p).1.link.wire ≡ openings p.link.wire
  unfolding read_block read_with_exception can_poll connect
  read_block-openings t r n p = ground (arith, read_raw-openings t r n p.link)

  read_block-updating :
      (t : RegisterType) (r n : ℕ) (p : Poller)
      → (read_block client t r n p).1.updating ≡ p.updating
  unfolding read_block
  read_block-updating t r n p = ground arith

  -- A batch never opens a connection, whatever goes wrong in it: a link that went down is left to
  -- `check_connection`.
  pub openings-poll_groups :
      (gs : List SensorGroup) (marked : List ℕ) (p : Poller)
      → openings (poll_groups client gs marked p).1.link.wire ≡ openings p.link.wire
  unfolding split_group apply_register_read
  openings-poll_groups gs marked p =
      kept-poll_groups client (λ q. openings q.link.wire) read_block-openings
        (λ fuel t r n q. isolate-openings fuel t r n q.link) (λ bad g q. refl)
        (λ g vs ms q. ap openings (apply_values-updating (start_register g) vs q).1) gs marked p

speed_index-same : (v : PollSpeed) → (speed_index v == speed_index v) ≡ true
speed_index-same v = ground (arith, ==_iff (speed_index v) (speed_index v))

elem-suffix : (xs ys : List ℕ) → all (λ r. elem r (xs ++ ys)) ys ≡ true
elem-suffix xs [] = refl
elem-suffix xs (y ∷ ys) =
    let further : all (λ r. elem r (xs ++ y ∷ ys)) ys ≡ true =
      rw append_assoc at (elem-suffix (xs ++ y ∷ []) ys) in
    let here : elem y (xs ++ y ∷ ys) ≡ true =
      elem-append y xs (y ∷ ys) ∙ ground (arith, ==_iff y y) in
    rw (here, further) refl

same_batch-same : (b : PollSpeed × List ℕ) → same_batch b b ≡ true
same_batch-same (v, rs) = rw (speed_index-same v, elem-suffix [] rs) refl

-- After `get_modbus_updates` the batches in flight are those that were in flight before it, and it
-- has opened no connection; while the poller cannot poll, or a batch of the same speed and groups
-- is in flight, it changes nothing.
pub get_modbus_updates_lem :
    (client : Client) (groups : List SensorGroup) (speed : PollSpeed) (p : Poller)
    → let p' = get_modbus_updates client groups speed p in
      (p'.updating ≡ p.updating)
      × (openings p'.link.wire ≡ openings p.link.wire)
      × (can_poll p ≡ false → p' ≡ p)
      × (any (same_batch (speed, start_registers groups)) p.updating ≡ true → p' ≡ p)
unfolding get_modbus_updates split_group apply_register_read
get_modbus_updates_lem client groups speed p =
    let batch : PollSpeed × List ℕ = (speed, start_registers groups) in
    let begun = record p { updating = batch ∷ p.updating } in
    let none_opened = openings-poll_groups client groups [] begun in
    let still : (poll_groups client groups [] begun).1.updating ≡ batch ∷ p.updating =
      kept-poll_groups client (λ q. q.updating) (read_block-updating client) (λ fuel t r n q. refl)
        (λ bad g q. refl) (λ g vs ms q. (apply_values-updating (start_register g) vs q).0) groups []
        begun in
    let mine = same_batch-same batch in
    elim (Bool-cases (can_poll p)) [
      | inl up ↦ elim (Bool-cases (any (same_batch batch) p.updating)) [
        | inl e ↦ rw (up, e) (refl, refl, λ h. refl, λ h. refl)
        | inr e ↦
            rw (up, e)
              (
                rw (still, mine) refl,
                none_opened,
                λ h. absurd (ground arith),
                λ h. absurd (ground arith),
              )
      ]
      | inr up ↦ rw up (refl, refl, λ h. refl, λ h. refl)
    ]
