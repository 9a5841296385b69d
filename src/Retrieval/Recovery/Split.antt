-- ===== src/Retrieval/Recovery/Split.antt =====
-- data_retrieval.py: the changes that a recovery makes.
use mathlib.Core.List.{Perm}
use hh_modbus.Base.{
  ℕ, zero, suc, ◌+◌, ◌≡◌, ◌≢◌, refl, arith, Bool, true, false, not, List, [], ◌∷◌, ◌++◌, Option,
  none, some, get_or, length, elem, elem-append, select, All, All-append, All-map, map, ==_iff,
  Bool-cases, inl, inr,
}
use hh_modbus.Inverter.{PollSpeed}
use hh_modbus.Groups.{
  Sensor, SensorGroup, RegisterType, sensors, registrar_count, start_register, from_sensors,
  cluster_sensors_by_contiguous_registers,
}
use hh_modbus.Groups.Clusters.{flat, clusters_perm}
use hh_modbus.Controller.{Client}
use hh_modbus.Controller.Replace.{replace_sensor_group_lem}
use hh_modbus.Retrieval.{Poller, is_enabled, read_block}
use hh_modbus.Retrieval.Recovery.{
  has_length, is_recoverable, make_groups, reads, split_group, read_new_groups, recover,
  after_isolation,
}

-- The sensors of several groups.
abbrev pub sensors_of : List SensorGroup → List Sensor
sensors_of [] = []
sensors_of (g ∷ gs) = sensors g ++ sensors_of gs

sensors_of-make_groups :
    (id : ℕ) (v : PollSpeed) (t : RegisterType) (cs : List (Sensor × List Sensor))
    → sensors_of (make_groups id v t cs) ≡ flat cs
unfolding from_sensors
sensors_of-make_groups id v t [] = refl
sensors_of-make_groups id v t ((f, rest) ∷ cs) = rw (sensors_of-make_groups (id + 1) v t cs) refl

-- A new group is polled like the old one.
abbrev pub IsLike : PollSpeed → RegisterType → SensorGroup → Type 0
IsLike v t g = (g.poll_speed ≡ v) × (g.register_type ≡ t)

make_groups-IsLike :
    (id : ℕ) (v : PollSpeed) (t : RegisterType) (cs : List (Sensor × List Sensor))
    → All (IsLike v t) (make_groups id v t cs)
unfolding from_sensors
make_groups-IsLike id v t [] = tt
make_groups-IsLike id v t (c ∷ cs) = ((refl, refl), make_groups-IsLike (id + 1) v t cs)

-- Each selected element is on the list of the selected ones' ids.
selected_ids :
    (f : Sensor → Bool) (ss : List Sensor) (xs : List ℕ)
    → All (λ s. f s ≡ true → elem s.id (xs ++ map (λ s. s.id) (select f ss)) ≡ true) ss
selected_ids f [] xs = tt
selected_ids f (s ∷ ss) xs =
    let ids = map (λ (t : Sensor). t.id) (select f ss) in
    (
      λ e. rw (e, elem-append s.id xs (s.id ∷ ids)) (ground (arith, ==_iff s.id s.id)),
      All-map _ _ ss
          (λ t h e.
            rw (elem-append t.id xs (map (λ s. s.id) (select f (s ∷ ss))))
              (ground (arith, h e, elem-append t.id xs ids)))
          (selected_ids f ss xs),
    )

-- When the bad register of a group on the controller's list is known, and no group before it has
-- its id, the new groups take its place on the list and are polled like it, they hold each enabled
-- sensor of it that does not read the bad register once and nothing else, and the sensors that read
-- it are disabled.
pub split_group_lem :
    (bad : ℕ) (before after : List SensorGroup) (g : SensorGroup) (p : Poller)
    → All (λ o. o.id ≢ g.id) before
    → p.link.groups ≡ before ++ g ∷ after
    → let (groups, p') = split_group bad g p in
      (p'.link.groups ≡ before ++ groups ++ after)
      × All (IsLike g.poll_speed g.register_type) groups
      × Perm
          (sensors_of groups)
          (select (is_enabled p') (select (λ s. not (reads bad s)) (sensors g)))
      × All (λ s. reads bad s ≡ true → is_enabled p' s ≡ false) (sensors g)
unfolding split_group
split_group_lem bad before after g p h e =
    let p' = record p {
      disabled = p.disabled ++ map (λ s. s.id) (select (reads bad) (sensors g));
    } in
    let good = select (λ s. not (reads bad s)) (sensors g) in
    let cs = cluster_sensors_by_contiguous_registers (is_enabled p') good in
    let groups = make_groups p.next_id g.poll_speed g.register_type cs in
    (
      replace_sensor_group_lem before after groups g p.link h e,
      make_groups-IsLike p.next_id g.poll_speed g.register_type cs,
      rw (sensors_of-make_groups p.next_id g.poll_speed g.register_type cs)
          (clusters_perm (is_enabled p') good),
      All-map _ _ (sensors g) (λ s k r. ground (arith, k r))
          (selected_ids (reads bad) (sensors g) p.disabled),
    )

-- A recovered block has a value for each register that its group counts.
abbrev pub IsWhole : SensorGroup × List ℕ → Type 0
IsWhole (g, values) = length values ≡ registrar_count g

has_length-get_or :
    (n : ℕ) (values : Option (List ℕ)) → has_length n values ≡ true → length (get_or values []) ≡ n
has_length-get_or n none e = ground arith
has_length-get_or n (some vs) e = ground arith

module _ (client : Client) where
  read_new_groups-IsWhole :
      (nested : SensorGroup → Poller → List (SensorGroup × List ℕ) × Poller)
      (inner : (g : SensorGroup) (p : Poller) → All IsWhole (nested g p).0) (t : RegisterType)
      (gs : List SensorGroup) (p : Poller)
      → All IsWhole (read_new_groups client nested t gs p).0
  unfolding read_new_groups
  read_new_groups-IsWhole nested inner t [] p = tt
  read_new_groups-IsWhole nested inner t (g ∷ gs) p =
      let n = registrar_count g in
      let (answer, p') = read_block client t (start_register g) n p in
      let below = read_new_groups-IsWhole nested inner t gs p' in
      elim (Bool-cases (has_length n answer.0)) [
        | inl e ↦ rw e (has_length-get_or n answer.0 e, below)
        | inr e ↦ elim (Bool-cases (is_recoverable answer.1)) [
          | inl r ↦
              rw (e, r)
                (All-append IsWhole (nested g p').0 _ (inner g p')
                  (read_new_groups-IsWhole nested inner t gs (nested g p').1))
          | inr r ↦ rw (e, r) below
        ]
      ]

  after_isolation-IsWhole :
      (nested : SensorGroup → Poller → List (SensorGroup × List ℕ) × Poller)
      (inner : (g : SensorGroup) (p : Poller) → All IsWhole (nested g p).0) (t : RegisterType)
      (g : SensorGroup) (bad : Option ℕ) (p : Poller)
      → All IsWhole (after_isolation client nested t g bad p).0
  unfolding after_isolation
  after_isolation-IsWhole nested inner t g none p = tt
  after_isolation-IsWhole nested inner t g (some bad) p =
      read_new_groups-IsWhole nested inner t (split_group bad g p).0 (split_group bad g p).1

  -- Every block that a recovery gives back has a value for each register that its group counts,
  -- however deep the recovery went and whatever the inverter answered.
  pub recover-IsWhole :
      (depth : ℕ) (t : RegisterType) (g : SensorGroup) (p : Poller)
      → All IsWhole (recover client depth t g p).0
  unfolding recover
  recover-IsWhole zero t g p = tt
  recover-IsWhole (suc depth) t g p =
      after_isolation-IsWhole (recover client depth t) (recover-IsWhole depth t) t g _ _
