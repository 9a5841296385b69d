-- ===== src/Tests/Polling.antt =====
-- Reading, recovery and the split of groups.
use mathlib.Core.List.{Perm}
use hh_modbus.Base.{
  ℕ, ◌+◌, ◌≡◌, refl, arith, true, false, not, [], ◌∷◌, ◌++◌, some, All, select, if◌then◌else◌, any,
}
use hh_modbus.Inverter.{PollSpeed}
use hh_modbus.Groups.{
  RegisterType, sensors, start_register, from_sensors, cluster_sensors_by_contiguous_registers,
}
use hh_modbus.Groups.Clusters.{IsRun, Apart, clusters_are_maximal_runs}
use hh_modbus.Groups.Blocks.{IsSolid, Covers, new_groups_cover}
use hh_modbus.Controller.Writes.{in_block, or_else}
use hh_modbus.Retrieval.{can_poll, is_enabled, is_once, apply_register_read, implausible}
use hh_modbus.Retrieval.Apply.{shown, apply_register_read_lem}
use hh_modbus.Retrieval.Spike.{readings, last_plausible, IsCalm, spikes_hidden}
use hh_modbus.Retrieval.Bisect.{isolate_one_bad_register}
use hh_modbus.Retrieval.Bisect.Enough.{isolate_enough}
use hh_modbus.Retrieval.Bisect.Least.{IsLeast, isolate-IsLeast}
use hh_modbus.Retrieval.Recovery.{split_group, reads, recover}
use hh_modbus.Retrieval.Recovery.Split.{
  IsLike, IsWhole, sensors_of, split_group_lem, recover-IsWhole,
}
use hh_modbus.Retrieval.Batch.{get_modbus_updates, same_batch, start_registers}
use hh_modbus.Retrieval.Batch.Outcome.{openings, get_modbus_updates_lem}
use hh_modbus.Tests.Data.{inverter, inverter-HasHoles, bad, link, poller, group}

isolate-IsLeast_example :
    (k : ℕ) × ((isolate_one_bad_register inverter 4 RegisterType.input 33004 4 link).0
      ≡ some (33004 + k))
    × IsLeast inverter RegisterType.input bad inverter-HasHoles 33004 4 k
isolate-IsLeast_example =
    isolate-IsLeast inverter RegisterType.input bad inverter-HasHoles 4 33004 4 link (omega arith)
      refl

split_group_lem_example :
    let (groups, p') = split_group 33005 group poller in
    (p'.link.groups ≡ [] ++ groups ++ [])
    × All (IsLike PollSpeed.once RegisterType.input) groups
    × Perm
        (sensors_of groups)
        (select (is_enabled p') (select (λ s. not (reads 33005 s)) (sensors group)))
    × All (λ s. reads 33005 s ≡ true → is_enabled p' s ≡ false) (sensors group)
split_group_lem_example = split_group_lem 33005 [] [] group poller tt refl

recover-IsWhole_example : All IsWhole (recover inverter 25 RegisterType.input group poller).0
recover-IsWhole_example = recover-IsWhole inverter 25 RegisterType.input group poller

clusters_are_maximal_runs_example :
    let cs = cluster_sensors_by_contiguous_registers (is_enabled poller) (sensors group) in
    All IsRun cs × Apart cs
clusters_are_maximal_runs_example = clusters_are_maximal_runs (is_enabled poller) (sensors group)

group-IsSolid : All IsSolid (sensors group)
unfolding hh_modbus.Groups.low hh_modbus.Groups.high
group-IsSolid = (omega arith, (omega arith, (omega arith, tt)))

new_groups_cover_example :
    All
      (λ c. Covers (from_sensors 1 c PollSpeed.fast (some RegisterType.input)))
      (cluster_sensors_by_contiguous_registers (is_enabled poller) (sensors group))
new_groups_cover_example =
    new_groups_cover (is_enabled poller) (sensors group) PollSpeed.fast (some RegisterType.input) 1
      group-IsSolid

get_modbus_updates_lem_example :
    let p' = get_modbus_updates inverter (group ∷ []) PollSpeed.normal poller in
    (p'.updating ≡ poller.updating)
    × (openings p'.link.wire ≡ openings poller.link.wire)
    × (can_poll poller ≡ false → p' ≡ poller)
    × (any (same_batch (PollSpeed.normal, start_registers (group ∷ []))) poller.updating ≡ true
        → p' ≡ poller)
get_modbus_updates_lem_example =
    get_modbus_updates_lem inverter (group ∷ []) PollSpeed.normal poller

apply_register_read_lem_example :
    let (marked', p') = apply_register_read group (5 ∷ 6 ∷ 7 ∷ 8 ∷ []) [] poller in
    (shown 33006 p'
      ≡ or_else (in_block 33006 (start_register group) (5 ∷ 6 ∷ 7 ∷ 8 ∷ [])) (shown 33006 poller))
    × (marked' ≡ (if is_once group.poll_speed then [] ++ group.id ∷ [] else []))
apply_register_read_lem_example =
    apply_register_read_lem group (5 ∷ 6 ∷ 7 ∷ 8 ∷ []) [] poller 33006 refl

calm : IsCalm 6000 33139 0 (57 ∷ 0 ∷ 0 ∷ 58 ∷ 100 ∷ [])
unfolding implausible
calm = (
  λ e. absurd (ground arith),
  (λ e. omega arith, (λ e. omega arith, (λ e. absurd (ground arith), (λ e. omega arith, tt)))),
)

spikes_hidden_example :
    readings 6000 33139 (some 56) [] (57 ∷ 0 ∷ 0 ∷ 58 ∷ 100 ∷ [])
    ≡ last_plausible 6000 33139 56 (57 ∷ 0 ∷ 0 ∷ 58 ∷ 100 ∷ [])
spikes_hidden_example = spikes_hidden 6000 33139 56 [] (57 ∷ 0 ∷ 0 ∷ 58 ∷ 100 ∷ []) refl calm

no_load : implausible 6000 33139 100 ≡ true
unfolding implausible
no_load = refl

isolate_enough_example :
    isolate_one_bad_register inverter 4 RegisterType.input 33004 4 link
    ≡ isolate_one_bad_register inverter 9 RegisterType.input 33004 4 link
isolate_enough_example =
    isolate_enough inverter RegisterType.input 4 9 33004 4 link (omega arith) (omega arith)
