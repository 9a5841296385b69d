-- ===== src/Watchdog/Reconnect.antt =====
-- data_retrieval.py: the retry loop of the watchdog.
use hh_modbus.Base.{
  ℕ, zero, suc, ◌+◌, ◌*◌, ◌≤◌, min, ◌≡◌, refl, arith, Bool, true, false, ◌||◌, List, [], ◌∷◌, ◌++◌,
  Option, none, some, is_some, length, ap, ◌∙◌, by_if,
}
use hh_modbus.Controller.{
  Client, State, Frame, opening, reading, writing_one, writing_many, ok, connect,
}
use hh_modbus.Controller.Reads.{connect_true}
use hh_modbus.Retrieval.Batch.Outcome.{openings}
use hh_modbus.Watchdog.{
  Watch, Now, update_connection_issue, with_link, with_delay, attempt, reconnect,
}

update_connection_issue-poller :
    (now : Now) (down : Bool) (w : Watch) → (update_connection_issue now down w).poller ≡ w.poller
unfolding update_connection_issue
update_connection_issue-poller now down w = ground arith

-- The delays: each is twice the one before, up to 30 seconds.
abbrev pub delays : ℕ → ℕ → List ℕ
delays delay zero = []
delays delay (suc n) = delay ∷ delays (min (delay * 2) 30000) n

attempt-poller :
    (client : Client) (now : Now) (w : Watch)
    → (attempt client now w).poller ≡ (with_link w (connect client w.poller.link).1).poller
unfolding attempt
attempt-poller client now w =
    ground (
      arith,
      update_connection_issue-poller now true (with_link w (connect client w.poller.link).1),
    )

-- What a run of the loop has done when it ends.
abbrev pub Ended : ℕ → Option (List ℕ × Watch) → Type 0
Ended delay none = Unit
Ended delay (some (slept, w)) =
    ((w.poller.link.connected || w.poller.stopping) ≡ true) × (slept ≡ delays delay (length slept))

Ended-with_delay :
    (delay : ℕ) (o : Option (List ℕ × Watch))
    → Ended (min (delay * 2) 30000) o
    → Ended delay (with_delay delay o)
Ended-with_delay delay none h = tt
Ended-with_delay delay (some (slept, w)) h = (h.0, ap (λ l. delay ∷ l) h.1)

module _ (client : Client) (sleep : ℕ → Watch → Watch) (now : Now) where
  -- The retry loop, if it ends, ends with a link or when the integration stops, and has slept, in
  -- order, the delays of the backoff, each twice the one before up to 30 seconds.
  pub reconnect-Ended :
      (fuel delay : ℕ) (w : Watch) → Ended delay (reconnect client sleep now fuel delay w)
  unfolding reconnect
  reconnect-Ended zero delay w = tt
  reconnect-Ended (suc fuel) delay w =
      let link = w.poller.link in
      let next = attempt client now w in
      let up = with_link w (connect client link).1 in
      by_if (Ended delay) (link.connected || w.poller.stopping) _ _ (λ e. (e, refl))
        (λ e.
          by_if (Ended delay) (connect client link).0 _ _
            (λ u. (
              ground
                  (arith, connect_true client link u, update_connection_issue-poller now false up),
              refl,
            ))
            (λ u.
              by_if (Ended delay) next.poller.stopping _ _ (λ z. (ground (arith, z), refl))
                (λ z.
                  Ended-with_delay delay _
                    (reconnect-Ended fuel (min (delay * 2) 30000) (sleep delay next)))))

-- A client that connects from its n-th attempt on, and whose controller stays open.
pub record AcceptsFrom (client : Client) (n : ℕ) : Type 0 where
  pub stays_open : (wire : List Frame) → (client.connect wire).closed ≡ false
  pub accepts :
      (wire : List Frame)
      → n ≤ openings wire
      → ((client.connect wire).reply ≡ ok tt) × ((client.connect wire).connected ≡ true)

openings-opening : (fs : List Frame) → openings (fs ++ opening ∷ []) ≡ openings fs + 1
openings-opening [] = refl
openings-opening (opening ∷ fs) = omega (arith, openings-opening fs)
openings-opening (reading t r c u ∷ fs) = openings-opening fs
openings-opening (writing_one r v u ∷ fs) = openings-opening fs
openings-opening (writing_many r vs u ∷ fs) = openings-opening fs

-- The other tasks leave the link alone while the watchdog sleeps.
abbrev pub IsIdle : (ℕ → Watch → Watch) → Type 0
IsIdle sleep = (delay : ℕ) (w : Watch) → (sleep delay w).poller.link ≡ w.poller.link

is_some-with_delay :
    (delay : ℕ) (o : Option (List ℕ × Watch))
    → is_some o ≡ true
    → is_some (with_delay delay o) ≡ true
is_some-with_delay delay none h = h
is_some-with_delay delay (some r) h = refl

module _ (client : Client) (n : ℕ) (accepting : AcceptsFrom client n) where
  connect_accepted :
      (s : State) → s.closed ≡ false → n ≤ openings s.wire → (connect client s).0 ≡ true
  unfolding connect
  connect_accepted s still enough =
      ground (arith, still, accepting.stays_open s.wire, accepting.accepts s.wire enough)

  connect_tries :
      (s : State)
      → s.closed ≡ false
      → s.connected ≡ false
      → (openings (connect client s).1.wire ≡ openings s.wire + 1)
        × ((connect client s).1.closed ≡ false)
  unfolding connect
  connect_tries s still down =
      ground (arith, still, down, accepting.stays_open s.wire, openings-opening s.wire)

  module _ (sleep : ℕ → Watch → Watch) (idle : IsIdle sleep) (now : Now) where
    -- A round returns if the rounds after it do.
    round_returns :
        (fuel delay : ℕ) (w : Watch)
        → ((w.poller.link.connected || w.poller.stopping) ≡ false
            → (connect client w.poller.link).0 ≡ false
            → is_some (
                reconnect client sleep now fuel
                  (min (delay * 2) 30000)
                  (sleep delay (attempt client now w)))
              ≡ true)
        → is_some (reconnect client sleep now (suc fuel) delay w) ≡ true
    unfolding reconnect
    round_returns fuel delay w again =
        let link = w.poller.link in
        let next = attempt client now w in
        let Returns : Option (List ℕ × Watch) → Type 0 = λ o. is_some o ≡ true in
        by_if Returns (link.connected || w.poller.stopping) _ _ (λ e. refl)
          (λ e.
            by_if Returns (connect client link).0 _ _ (λ u. refl)
              (λ u.
                by_if Returns next.poller.stopping _ _ (λ z. refl)
                  (λ z. is_some-with_delay delay _ (again e u))))

    -- Against a client that connects from its n-th attempt on, the retry loop returns: fuel for the
    -- attempts that are left and one more is enough, if the controller is open and the other tasks
    -- leave the link alone while the watchdog sleeps.
    pub reconnect_returns :
        (fuel delay : ℕ) (w : Watch)
        → w.poller.link.closed ≡ false
        → n ≤ openings w.poller.link.wire + fuel
        → is_some (reconnect client sleep now (suc fuel) delay w) ≡ true
    reconnect_returns zero delay w still enough = round_returns zero delay w (λ e u.
        let up = connect_accepted w.poller.link still (omega (arith, enough)) in
        absurd (ground (arith, up, u)))
    reconnect_returns (suc fuel) delay w still enough = round_returns (suc fuel) delay w (λ e u.
        let next = attempt client now w in
        let (tried, opened) = connect_tries w.poller.link still (ground (arith, e)) in
        let same = idle delay next ∙ ap (λ p. p.link) (attempt-poller client now w) in
        let wires = ap (λ s. openings s.wire) same in
        reconnect_returns fuel (min (delay * 2) 30000) (sleep delay next)
          (ap (λ s. s.closed) same ∙ opened) (omega (arith, wires, tried, enough)))
