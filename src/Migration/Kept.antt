-- ===== src/Migration/Kept.antt =====
-- __init__.py: what the migrations keep.
use Prim.Native.String.{String}
use hh_modbus.Base.{
  max, ◌≡◌, refl, ◌∙◌, arith, Bool, true, false, not, ◌&&◌, none, some, if◌then◌else◌, leb, ◌==◌,
  get_or, Option-cases, inl, inr, ◌⊎◌,
}
use hh_modbus.Profile.{
  EntryConfig, PollProfile, essential, full, merge_config, parse_profile, get_poll_profile,
}
use hh_modbus.Migration.{
  with_profile, fold_profile, migrate_essential_only_to_poll_profile, ConfigEntry,
  async_migrate_entry, from_3, from_4, later_steps, first_step, migrate_if, migrated_to,
  to_serial_ids,
}

-- The merged config names no profile, or one that exists.
abbrev pub HasValidProfile : EntryConfig → EntryConfig → Type 0
HasValidProfile d o =
    ((merge_config d o).poll_profile ≡ none)
    ⊎ ((p : String) × (profile : PollProfile) × ((merge_config d o).poll_profile ≡ some p)
        × (parse_profile p ≡ some profile))

-- What the profile is once a config names one that exists.
named :
    (d o : EntryConfig) (p : String) (profile : PollProfile)
    → (merge_config d o).poll_profile ≡ some p
    → parse_profile p ≡ some profile
    → get_poll_profile d o ≡ profile
unfolding get_poll_profile
named d o p profile m h = rw (m, h) refl

unnamed :
    (d o : EntryConfig)
    → (merge_config d o).poll_profile ≡ none
    → get_poll_profile d o
      ≡ (if get_or (merge_config d o).essential_only false then essential else full)
unfolding get_poll_profile
unnamed d o m = rw m refl

-- The merged config after the profile was written: the options name none, or the same.
merged_after :
    (p : String) (d o : EntryConfig)
    → (o.poll_profile ≡ none) ⊎ (o.poll_profile ≡ some p)
    → (merge_config (with_profile p d o).0 (with_profile p d o).1).poll_profile ≡ some p
unfolding merge_config
merged_after p d o (inl e) = rw e refl
merged_after p d o (inr e) = rw e refl

options_name :
    (p : String) (d o : EntryConfig)
    → (merge_config d o).poll_profile ≡ some p
    → (o.poll_profile ≡ none) ⊎ (o.poll_profile ≡ some p)
unfolding merge_config
options_name p d o m = elim (Option-cases o.poll_profile) [
  | inl e ↦ inl e
  | inr (q, e) ↦ inr (e ∙ (rw e at m))
]

no_options : (d o : EntryConfig) → (merge_config d o).poll_profile ≡ none → o.poll_profile ≡ none
unfolding merge_config
no_options d o m = elim (Option-cases o.poll_profile) [
  | inl e ↦ e
  | inr (q, e) ↦ absurd (let k : some q ≡ none = rw e at m in cc)
]

fold_named :
    (legacy flag : Bool) (p : String) (profile : PollProfile) (d o : EntryConfig)
    → (merge_config d o).poll_profile ≡ some p
    → parse_profile p ≡ some profile
    → let (d', o') = fold_profile (some p) legacy flag d o in get_poll_profile d' o' ≡ profile
unfolding fold_profile
fold_named true flag p profile d o m h =
    named _ _ p profile (merged_after p d o (options_name p d o m)) h
fold_named false flag p profile d o m h = named d o p profile m h

fold_unnamed :
    (legacy flag : Bool) (d o : EntryConfig)
    → o.poll_profile ≡ none
    → let (d', o') = fold_profile none legacy flag d o in
      get_poll_profile d' o' ≡ (if flag then essential else full)
unfolding fold_profile parse_profile
fold_unnamed legacy true d o e =
    named _ _ "essential" essential (merged_after "essential" d o (inl e)) refl
fold_unnamed legacy false d o e = named _ _ "full" full (merged_after "full" d o (inl e)) refl

-- A config entry polls with the same profile after `essential_only` was folded into `poll_profile`, if
-- it names a profile that exists, or none.
pub get_poll_profile-migrate :
    (d o : EntryConfig)
    → HasValidProfile d o
    → let (d', o') = migrate_essential_only_to_poll_profile d o in
      get_poll_profile d' o' ≡ get_poll_profile d o
unfolding migrate_essential_only_to_poll_profile
get_poll_profile-migrate d o (inl m) =
    rw (m, unnamed d o m) (fold_unnamed false _ d o (no_options d o m))
get_poll_profile-migrate d o (inr (p, profile, m, h)) =
    rw (m, named d o p profile m h) (fold_named _ _ p profile d o m h)

from_3-same :
    (b : Bool) (e : ConfigEntry)
    → ((from_3 b e).version ≡ (if b then 4 else e.version))
      × ((from_3 b e).data_keys ≡ e.data_keys)
      × ((from_3 b e).options ≡ e.options)
unfolding from_3
from_3-same true e = (refl, refl, refl)
from_3-same false e = (refl, refl, refl)

from_4-same :
    (b : Bool) (e : ConfigEntry)
    → ((from_4 b e).version ≡ (if b then 5 else e.version))
      × (HasValidProfile e.data_keys e.options
          → get_poll_profile (from_4 b e).data_keys (from_4 b e).options
            ≡ get_poll_profile e.data_keys e.options)
unfolding from_4
from_4-same true e = (refl, λ h. get_poll_profile-migrate e.data_keys e.options h)
from_4-same false e = (refl, λ h. refl)

later_steps-same :
    (e : ConfigEntry)
    → ((later_steps e).version ≡ (if leb 3 e.version then max e.version 5 else e.version))
      × (HasValidProfile e.data_keys e.options
          → get_poll_profile (later_steps e).data_keys (later_steps e).options
            ≡ get_poll_profile e.data_keys e.options)
unfolding later_steps
later_steps-same e =
    let f = from_3 (e.version == 3) e in
    let (v, d, o) = from_3-same (e.version == 3) e in
    let (w, p) = from_4-same (f.version == 4) f in
    (ground (arith, v, w), λ h. p (rw (d, o) h) ∙ (rw (d, o) refl))

-- A Solis entry of version 2 or less without a serial number waits for one.
abbrev pub waits : ConfigEntry → Bool
waits e = e.is_solis && leb e.version 2 && not e.has_serial

first_step-same :
    (old serial : Bool) (e : ConfigEntry)
    → leb e.version 2 ≡ old
    → let (ok, f) = first_step old serial e in
      (ok ≡ not (old && not serial))
      × (f.version ≡ (if old && not serial then e.version else max e.version 5))
      × (HasValidProfile e.data_keys e.options
          → get_poll_profile f.data_keys f.options ≡ get_poll_profile e.data_keys e.options)
unfolding first_step
first_step-same true true e is_old =
    let (v, p) = later_steps-same (migrated_to 3 to_serial_ids e) in
    (refl, ground (arith, v, is_old), p)
first_step-same true false e is_old = (refl, refl, λ h. refl)
first_step-same false serial e is_old =
    let (v, p) = later_steps-same e in (refl, ground (arith, v, is_old), p)

migrate_if-same :
    (solis : Bool) (e : ConfigEntry)
    → let (ok, f) = migrate_if solis e in
      let wait = solis && leb e.version 2 && not e.has_serial in
      (ok ≡ not wait)
      × (f.version ≡ (if solis && not wait then max e.version 5 else e.version))
      × (HasValidProfile e.data_keys e.options
          → get_poll_profile f.data_keys f.options ≡ get_poll_profile e.data_keys e.options)
unfolding migrate_if
migrate_if-same false e = (refl, refl, λ h. refl)
migrate_if-same true e =
    let (ok, v, p) = first_step-same (leb e.version 2) e.has_serial e refl in
    (ok, ground (arith, v), p)

-- The migration of an entry fails exactly for a Solis entry of version 2 or less without a serial
-- number, whose version stays; every other Solis entry is at version 5 at least afterwards, and an
-- entry of another brand at its own. An entry that names a profile that exists, or none, polls with
-- the same profile as before.
pub async_migrate_entry_lem :
    (e : ConfigEntry)
    → let (ok, f) = async_migrate_entry e in
      (ok ≡ not (waits e))
      × (f.version ≡ (if e.is_solis && not (waits e) then max e.version 5 else e.version))
      × (HasValidProfile e.data_keys e.options
          → get_poll_profile f.data_keys f.options ≡ get_poll_profile e.data_keys e.options)
unfolding async_migrate_entry
async_migrate_entry_lem e = migrate_if-same e.is_solis e
