-- ===== src/Retrieval/Batch/Kept.antt =====
-- data_retrieval.py: a measure of the poller, carried from single steps to a whole batch.
use hh_modbus.Base.{
  ℕ, zero, suc, ◌≡◌, refl, List, [], ◌∷◌, Option, none, some, length, ◌==◌, Bool-cases, inl, inr,
  ◌∙◌,
}
use hh_modbus.Groups.{SensorGroup, RegisterType, registrar_count, start_register}
use hh_modbus.Controller.{Client}
use hh_modbus.Retrieval.{Poller, apply_register_read, read_block}
use hh_modbus.Retrieval.Bisect.{isolate_one_bad_register}
use hh_modbus.Retrieval.Recovery.{
  has_length, is_recoverable, split_group, read_new_groups, recover, after_isolation, max_depth,
}
use hh_modbus.Retrieval.Batch.{apply_recovered, poll_failed, after_read, poll_group, poll_groups}

module _ {ℓ} {B : Type ℓ} (client : Client) (m : Poller → B)
    (read_keeps : (t : RegisterType) (start count : ℕ) (p : Poller)
      → m (read_block client t start count p).1 ≡ m p)
    (isolate_keeps : (fuel : ℕ) (t : RegisterType) (start count : ℕ) (p : Poller)
      → m (record p { link = (isolate_one_bad_register client fuel t start count p.link).1 }) ≡ m p)
    (split_keeps : (bad : ℕ) (g : SensorGroup) (p : Poller) → m (split_group bad g p).1 ≡ m p)
    (apply_keeps : (g : SensorGroup) (vs marked : List ℕ) (p : Poller)
      → m (apply_register_read g vs marked p).1 ≡ m p) where
  kept-apply_recovered :
      (found : List (SensorGroup × List ℕ)) (marked : List ℕ) (p : Poller)
      → m (apply_recovered found marked p).1 ≡ m p
  kept-apply_recovered [] marked p = refl
  kept-apply_recovered ((g, vs) ∷ found) marked p =
      let (marked', p') = apply_register_read g vs marked p in
      kept-apply_recovered found marked' p' ∙ apply_keeps g vs marked p

  kept-read_new_groups :
      (nested : SensorGroup → Poller → List (SensorGroup × List ℕ) × Poller)
      (inner : (g : SensorGroup) (p : Poller) → m (nested g p).1 ≡ m p) (t : RegisterType)
      (gs : List SensorGroup) (p : Poller)
      → m (read_new_groups client nested t gs p).1 ≡ m p
  unfolding read_new_groups
  kept-read_new_groups nested inner t [] p = refl
  kept-read_new_groups nested inner t (g ∷ gs) p =
      let n = registrar_count g in
      let (answer, p') = read_block client t (start_register g) n p in
      let read = read_keeps t (start_register g) n p in
      let skip = kept-read_new_groups nested inner t gs p' ∙ read in
      let deeper = kept-read_new_groups nested inner t gs (nested g p').1 ∙ inner g p' ∙ read in
      elim (Bool-cases (has_length n answer.0)) [
        | inl e ↦ rw e skip
        | inr e ↦ elim (Bool-cases (is_recoverable answer.1)) [
          | inl r ↦ rw (e, r) deeper
          | inr r ↦ rw (e, r) skip
        ]
      ]

  kept-after_isolation :
      (nested : SensorGroup → Poller → List (SensorGroup × List ℕ) × Poller)
      (inner : (g : SensorGroup) (p : Poller) → m (nested g p).1 ≡ m p) (t : RegisterType)
      (g : SensorGroup) (bad : Option ℕ) (p : Poller)
      → m (after_isolation client nested t g bad p).1 ≡ m p
  unfolding after_isolation
  kept-after_isolation nested inner t g none p = refl
  kept-after_isolation nested inner t g (some bad) p =
      kept-read_new_groups nested inner t (split_group bad g p).0 (split_group bad g p).1
      ∙ split_keeps bad g p

  pub kept-recover :
      (depth : ℕ) (t : RegisterType) (g : SensorGroup) (p : Poller)
      → m (recover client depth t g p).1 ≡ m p
  unfolding recover
  kept-recover zero t g p = refl
  kept-recover (suc depth) t g p =
      kept-after_isolation (recover client depth t) (kept-recover depth t) t g _ _
      ∙ isolate_keeps (registrar_count g) t (start_register g) (registrar_count g) p

  kept-poll_failed :
      (g : SensorGroup) (code : Option ℕ) (marked : List ℕ) (p : Poller)
      → m (poll_failed client g code marked p).2 ≡ m p
  unfolding poll_failed
  kept-poll_failed g code marked p =
      let (found, q) = recover client max_depth g.register_type g p in
      let repaired =
        kept-apply_recovered found marked q ∙ kept-recover max_depth g.register_type g p in
      elim (Bool-cases (is_recoverable code)) [ inl e ↦ rw e repaired | inr e ↦ rw e refl ]

  kept-after_read :
      (g : SensorGroup) (answer : Option (List ℕ) × Option ℕ) (marked : List ℕ) (p : Poller)
      → m (after_read client g answer marked p).2 ≡ m p
  unfolding after_read
  kept-after_read g (none, code) marked p = kept-poll_failed g code marked p
  kept-after_read g (some vs, code) marked p = elim (Bool-cases (length vs == registrar_count g)) [
    | inl e ↦ rw e (apply_keeps g vs marked p)
    | inr e ↦ rw e refl
  ]

  kept-poll_group :
      (g : SensorGroup) (marked : List ℕ) (p : Poller) → m (poll_group client g marked p).2 ≡ m p
  unfolding poll_group
  kept-poll_group g marked p =
      let n = registrar_count g in
      let (answer, p') = read_block client g.register_type (start_register g) n p in
      kept-after_read g answer marked p' ∙ read_keeps g.register_type (start_register g) n p

  pub kept-poll_groups :
      (gs : List SensorGroup) (marked : List ℕ) (p : Poller)
      → m (poll_groups client gs marked p).1 ≡ m p
  unfolding poll_groups
  kept-poll_groups [] marked p = refl
  kept-poll_groups (g ∷ gs) marked p =
      let (more, marked', p') = poll_group client g marked p in
      let one = kept-poll_group g marked p in
      elim (Bool-cases more) [
        | inl e ↦ rw e (kept-poll_groups gs marked' p' ∙ one)
        | inr e ↦ rw e one
      ]
