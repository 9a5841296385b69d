-- ===== src/Retrieval/Apply.antt =====
-- data_retrieval.py: what a block that was read leaves in the cache.
use hh_modbus.Base.{
  ℕ, ◌+◌, ◌≡◌, refl, arith, false, List, [], ◌∷◌, ◌++◌, Option, some, if◌then◌else◌, ◌==◌, ==_iff,
  Bool-cases, inl, inr,
}
use hh_modbus.Groups.{SensorGroup, start_register}
use hh_modbus.Controller.Writes.{cached, cached-publish, in_block, in_block-before, or_else}
use hh_modbus.Retrieval.{
  Poller, is_noisy, spike_filtering, apply_value, apply_values, apply_register_read, is_once,
}
use hh_modbus.Retrieval.Spike.{spike_quiet}

-- What is in the cache for a register.
abbrev pub shown : ℕ → Poller → Option ℕ
shown q p = cached q p.link

shown-apply_value :
    (q r v : ℕ) (p : Poller)
    → is_noisy q ≡ false
    → shown q (apply_value r v p) ≡ (if r == q then some v else shown q p)
unfolding apply_value
shown-apply_value q r v p quiet =
    let out = spike_filtering p.wattage (cached r p.link) r v p.counters in
    let same = cached-publish q r out.0 p.link in
    elim (Bool-cases (r == q)) [
      | inl e ↦
          let r_quiet : is_noisy r ≡ false = rw ((==_iff r q).0 e) quiet in
          ground (arith, same, e, spike_quiet p.wattage (cached r p.link) r v p.counters r_quiet)
      | inr e ↦ ground (arith, same, e)
    ]

shown-apply_values :
    (q r : ℕ) (vs : List ℕ) (p : Poller)
    → is_noisy q ≡ false
    → shown q (apply_values r vs p) ≡ or_else (in_block q r vs) (shown q p)
unfolding apply_values
shown-apply_values q r [] p quiet = refl
shown-apply_values q r (v ∷ vs) p quiet =
    rw (shown-apply_values q (r + 1) vs (apply_value r v p) quiet, shown-apply_value q r v p quiet)
      (ground (arith, in_block-before q (r + 1) vs))

-- After a block was read, the cache has for each register of it that is not filtered the value that
-- was read, and for each other register that is not filtered what it had; the group is marked for
-- removal exactly when it is polled once.
pub apply_register_read_lem :
    (g : SensorGroup) (values marked : List ℕ) (p : Poller) (q : ℕ)
    → is_noisy q ≡ false
    → let (marked', p') = apply_register_read g values marked p in
      (shown q p' ≡ or_else (in_block q (start_register g) values) (shown q p))
      × (marked' ≡ (if is_once g.poll_speed then marked ++ g.id ∷ [] else marked))
unfolding apply_register_read
apply_register_read_lem g values marked p q quiet =
    (shown-apply_values q (start_register g) values p quiet, refl)
