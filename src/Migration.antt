-- ===== src/Migration.antt =====
-- __init__.py: `async_migrate_entry`, the versions of a config entry, and
-- `_migrate_essential_only_to_poll_profile`. The two migrations of the entity registry are recorded
-- as steps: they change neither the version nor the keys that are modelled. Of the entry the state has
-- its version, its data and options, whether it is a Solis entry (its brand key missing or "solis"),
-- and whether its data has a serial number.
pub mod Kept
pub mod Duplicates
pub mod Sorted
pub mod Restored
use Prim.Native.String.{String}
use hh_modbus.Base.{
  ℕ, Bool, true, false, ◌||◌, List, [], ◌∷◌, ◌++◌, Option, none, some, if◌then◌else◌, leb, ◌==◌,
  get_or, is_some,
}
use hh_modbus.Profile.{EntryConfig, merge_config}

-- `data` without the dead key and with the profile, and `options` without the dead key.
abbrev pub with_profile : String → EntryConfig → EntryConfig → EntryConfig × EntryConfig
with_profile p d o =
    (record d { poll_profile = some p; essential_only = none }, record o { essential_only = none })

-- What is done with the profile that the merged config has already, if any.
unfoldable pub fold_profile :
    Option String → Bool → Bool → EntryConfig → EntryConfig → EntryConfig × EntryConfig
fold_profile none legacy essential d o =
    with_profile (if essential then "essential" else "full") d o
fold_profile (some p) true essential d o = with_profile p d o
fold_profile (some p) false essential d o = (d, o)

unfoldable pub migrate_essential_only_to_poll_profile :
    EntryConfig → EntryConfig → EntryConfig × EntryConfig
unfolding merge_config fold_profile
migrate_essential_only_to_poll_profile d o =
    let merged = merge_config d o in
    let had_legacy_key = is_some d.essential_only || is_some o.essential_only in
    fold_profile merged.poll_profile had_legacy_key (get_or merged.essential_only false) d o

pub data MigrationStep : Type 0 where
  to_serial_ids dict_unique_ids essential_only_to_poll_profile : MigrationStep

pub record ConfigEntry : Type 0 where
  pub version : ℕ
  pub data_keys : EntryConfig
  pub options : EntryConfig
  pub is_solis : Bool
  pub has_serial : Bool
  pub done : List MigrationStep

abbrev pub migrated_to : ℕ → MigrationStep → ConfigEntry → ConfigEntry
migrated_to v step e = record e { version = v; done = e.done ++ step ∷ [] }

abbrev pub with_keys : EntryConfig × EntryConfig → ConfigEntry → ConfigEntry
with_keys keys e = record e { data_keys = keys.0; options = keys.1 }

-- The step from version 3, by the test of the version, and the step from version 4.
unfoldable pub from_3 : Bool → ConfigEntry → ConfigEntry
from_3 true e = migrated_to 4 dict_unique_ids e
from_3 false e = e

unfoldable pub from_4 : Bool → ConfigEntry → ConfigEntry
unfolding migrate_essential_only_to_poll_profile
from_4 true e =
    migrated_to 5 essential_only_to_poll_profile
      (with_keys (migrate_essential_only_to_poll_profile e.data_keys e.options) e)
from_4 false e = e

-- The steps behind the first one.
unfoldable pub later_steps : ConfigEntry → ConfigEntry
unfolding from_3 from_4
later_steps e = let f = from_3 (e.version == 3) e in from_4 (f.version == 4) f

-- The first step, of a Solis entry: by the test of the version and of the serial number.
unfoldable pub first_step : Bool → Bool → ConfigEntry → Bool × ConfigEntry
unfolding later_steps
first_step true true e = (true, later_steps (migrated_to 3 to_serial_ids e))
first_step true false e = (false, e)
first_step false serial e = (true, later_steps e)

-- An entry of another brand is left alone.
unfoldable pub migrate_if : Bool → ConfigEntry → Bool × ConfigEntry
unfolding first_step
migrate_if true e = first_step (leb e.version 2) e.has_serial e
migrate_if false e = (true, e)

-- The result, and the entry afterwards.
unfoldable pub async_migrate_entry : ConfigEntry → Bool × ConfigEntry
unfolding migrate_if
async_migrate_entry e = migrate_if e.is_solis e
