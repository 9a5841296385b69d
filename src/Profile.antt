-- ===== src/Profile.antt =====
-- helpers.py: which sensor groups and derived sensors a poll profile keeps, and the selection loop of
-- `_setup_solis_entry` in __init__.py. A group or entity definition is a Python dict; of its keys
-- the model has those that the selection reads. A key that is missing reads as its default.
pub mod Selection
use Prim.Native.String.{String}
use text.Mathlib.Text.{◌==◌ as str_eq}
use hh_modbus.Base.{
  ℕ, Bool, true, false, ◌||◌, ◌&&◌, not, List, [], ◌∷◌, ◌++◌, Option, none, some, if◌then◌else◌,
  get_or, any, all, elem, select,
}
use hh_modbus.Inverter.{InverterFeature, has_feature}

pub data PollProfile : Type 0 where
  full essential extreme : PollProfile

-- The members of `POLL_PROFILES`; any other text is no profile.
unfoldable pub parse_profile : String → Option PollProfile
parse_profile s =
    if str_eq s "full"
    then some full
    else if str_eq s "essential"
    then some essential
    else if str_eq s "extreme"
    then some extreme
    else none

-- A dict whose entries hold what the integration reads of `entry.data` and of `entry.options`.
pub record EntryConfig : Type 0 where
  pub poll_profile : Option String
  pub essential_only : Option Bool
  pub extreme_include_battery : Option Bool
  pub extreme_include_smart_port : Option Bool
  pub clock_sync : Option Bool

abbrev over {ℓ} : {A : Type ℓ} → Option A → Option A → Option A
over base none = base
over base (some a) = some a

-- `{**entry.data, **entry.options}`
unfoldable pub merge_config : EntryConfig → EntryConfig → EntryConfig
merge_config d o = record {
  poll_profile = over d.poll_profile o.poll_profile;
  essential_only = over d.essential_only o.essential_only;
  extreme_include_battery = over d.extreme_include_battery o.extreme_include_battery;
  extreme_include_smart_port = over d.extreme_include_smart_port o.extreme_include_smart_port;
  clock_sync = over d.clock_sync o.clock_sync;
}

abbrev profile_of : Option String → Option PollProfile
profile_of none = none
profile_of (some s) = parse_profile s

unfoldable pub get_poll_profile : EntryConfig → EntryConfig → PollProfile
unfolding merge_config
get_poll_profile d o =
    let config = merge_config d o in
    get_or (profile_of config.poll_profile)
      (if get_or config.essential_only false then essential else full)

abbrev is_full : PollProfile → Bool
is_full full = true
is_full _ = false

unfoldable pub is_essential_only : EntryConfig → EntryConfig → Bool
unfolding get_poll_profile
is_essential_only d o = not (is_full (get_poll_profile d o))

unfoldable pub extreme_includes_battery : EntryConfig → EntryConfig → Bool
unfolding merge_config
extreme_includes_battery d o = get_or (merge_config d o).extreme_include_battery false

unfoldable pub extreme_includes_smart_port : EntryConfig → EntryConfig → Bool
unfolding merge_config
extreme_includes_smart_port d o = get_or (merge_config d o).extreme_include_smart_port false

unfoldable pub clock_sync_enabled : EntryConfig → EntryConfig → Bool
unfolding merge_config
clock_sync_enabled d o = get_or (merge_config d o).clock_sync true

-- The registers of an entity, each `int(r)` of its "register" list.
pub record EntityDef : Type 0 where
  pub registers : List ℕ

pub record GroupDef : Type 0 where
  pub feature_requirement : List InverterFeature
  pub essential : Bool
  pub extreme : Bool
  pub extreme_battery : Bool
  pub extreme_smart_port : Bool
  pub entities : List EntityDef

-- "90007" in the entity's register list.
unfoldable pub is_clock_sync_sensor : EntityDef → Bool
is_clock_sync_sensor e = elem 90007 e.registers

unfoldable pub group_in_poll_profile : GroupDef → PollProfile → Bool → Bool → Bool
group_in_poll_profile g essential include_battery include_smart_port = g.essential
group_in_poll_profile g extreme include_battery include_smart_port =
    if g.extreme
    then true
    else if include_battery && g.extreme_battery
    then true
    else include_smart_port && g.extreme_smart_port
group_in_poll_profile g full include_battery include_smart_port = true

abbrev registers_of_entities : List EntityDef → List ℕ
registers_of_entities [] = []
registers_of_entities (e ∷ es) = e.registers ++ registers_of_entities es

-- The set, as a list that is only asked for membership.
unfoldable pub registers_declared_by : List GroupDef → List ℕ
registers_declared_by [] = []
registers_declared_by (g ∷ gs) = registers_of_entities g.entities ++ registers_declared_by gs

-- `sources <= polled_registers`, where the sources are the entity's registers that some group knows.
unfoldable pub derived_sensor_is_supported : EntityDef → List ℕ → List ℕ → Bool
derived_sensor_is_supported e polled known =
    all (λ r. not (elem r known) || elem r polled) e.registers

-- `not feature_requirement or any(feature in features ...)`: the group is not skipped.
unfoldable pub feature_allows : List InverterFeature → List InverterFeature → Bool
feature_allows [] features = true
feature_allows (f ∷ fs) features = any (λ r. has_feature r features) (f ∷ fs)

-- Extreme falls back to essential where no group of the inverter's table is marked extreme.
unfoldable pub effective_profile : PollProfile → List GroupDef → PollProfile
effective_profile extreme sensors = if any (λ g. g.extreme) sensors then extreme else essential
effective_profile p sensors = p

-- `selected_groups` of the loop.
unfoldable pub select_groups :
    List InverterFeature → PollProfile → Bool → Bool → List GroupDef → List GroupDef
unfolding feature_allows group_in_poll_profile
select_groups features profile battery smart_port sensors =
    select
      (λ g.
        feature_allows g.feature_requirement features
        && group_in_poll_profile g profile battery smart_port)
      sensors

-- The derived sensors that are set up for the selected groups.
unfoldable pub supported_derived : List GroupDef → List GroupDef → List EntityDef → List EntityDef
unfolding derived_sensor_is_supported registers_declared_by
supported_derived selected sensors derived =
    select
      (λ e.
        derived_sensor_is_supported e (registers_declared_by selected)
          (registers_declared_by sensors))
      derived
