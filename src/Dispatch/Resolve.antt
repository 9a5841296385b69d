-- ===== src/Dispatch/Resolve.antt =====
-- __init__.py: `_resolve_controller` and the services that force the battery.
use hh_modbus.Base.{
  ℕ, min, ◌≡◌, refl, arith, Bool, true, false, ◌&&◌, List, [], ◌∷◌, ◌++◌, Option, none, some, ◌==◌,
  if◌then◌else◌, get_or, select, All, Bool-cases, inl, inr, ◌↔◌, ap,
}
use hh_modbus.Cache.{Text, text_eq}
use hh_modbus.Cache.Keys.{text_eq_iff}
use hh_modbus.Controller.Queue.{Request, single}
use hh_modbus.Dispatch.{round_tenth}

-- A controller as the services see it: `is_solis` says that its configuration is an
-- `InverterConfig`.
pub record Target : Type 0 where
  pub id : ℕ
  pub host : Text
  pub device_id : ℕ
  pub is_solis : Bool

-- `get_controller(hass, host, slave)`: the first controller with this host and unit.
unfoldable pub get_controller : Text → ℕ → List Target → Option Target
get_controller host slave [] = none
get_controller host slave (t ∷ ts) =
    if text_eq t.host host && t.device_id == slave then some t else get_controller host slave ts

pub data Resolved : Type 0 where
  found : Target → Resolved
  no_inverter no_match several : Resolved

abbrev pub matches : Option ℕ → Target → Bool
matches none t = true
matches (some slave) t = t.device_id == slave

abbrev pub the_only : List Target → Resolved
the_only [] = no_match
the_only (t ∷ []) = found t
the_only (t ∷ u ∷ ts) = several

abbrev pub solis_only : Option Target → Resolved
solis_only none = no_match
solis_only (some t) = if t.is_solis then found t else no_match

abbrev pub none_configured : List Target → Bool
none_configured [] = true
none_configured (t ∷ ts) = false

-- `_resolve_controller`; an empty host is no host.
unfoldable pub resolve_controller : Option Text → Option ℕ → List Target → Resolved
unfolding get_controller
resolve_controller (some (c ∷ host)) slave ts =
    solis_only (get_controller (c ∷ host) (get_or slave 1) ts)
resolve_controller _ slave ts =
    let controllers = select (λ t. t.is_solis) ts in
    if none_configured controllers
    then no_inverter
    else the_only (select (matches slave) controllers)

-- What `_force_battery` and the stop service put on the queue, for a hybrid inverter. `wattage` is
-- `wattage_chosen`, of which 0 counts as 60000.
unfoldable pub force_battery : ℕ → ℕ → ℕ → Option ℕ → Option ℕ → List Request
unfolding round_tenth
force_battery wattage mode power_register power_watts duration =
    let max_watts = if wattage == 0 then 60000 else wattage in
    let setpoint : List Request = elim power_watts [
      | none ↦ []
      | some w ↦ single power_register (round_tenth (min w max_watts)) ∷ []
    ] in
    let timeout : List Request = elim duration [ none ↦ [] | some d ↦ single 43282 d ∷ [] ] in
    single 43135 mode ∷ (setpoint ++ timeout)

select-select :
    (p q : Target → Bool) (ts : List Target) → select q (select p ts) ≡ select (λ t. p t && q t) ts
select-select p q [] = refl
select-select p q (t ∷ ts) = elim (Bool-cases (p t)) [
  | inl e ↦ rw (e, select-select p q ts) refl
  | inr e ↦ rw (e, select-select p q ts) refl
]

the_only_iff : (ts : List Target) (t : Target) → (the_only ts ≡ found t) ↔ (ts ≡ t ∷ [])
the_only_iff [] t = (λ h. absurd (ground arith), λ h. absurd (ground arith))
the_only_iff (u ∷ []) t = (λ h. ground arith, λ h. ground arith)
the_only_iff (u ∷ v ∷ ts) t = (λ h. absurd (ground arith), λ h. absurd (ground arith))

-- Without a host, a call reaches a controller exactly when it is the only Solis inverter, among
-- those of the call's slave if it names one.
pub resolve_controller_alone :
    (slave : Option ℕ) (ts : List Target) (t : Target)
    → (resolve_controller none slave ts ≡ found t)
      ↔ (select (λ u. u.is_solis && matches slave u) ts ≡ t ∷ [])
unfolding resolve_controller
resolve_controller_alone slave ts t =
    let same = select-select (λ (u : Target). u.is_solis) (matches slave) ts in
    rw (← same) (pass (select (λ u. u.is_solis) ts))
  where
    pass :
        (us : List Target)
        → ((if none_configured us then no_inverter else the_only (select (matches slave) us))
            ≡ found t)
          ↔ (select (matches slave) us ≡ t ∷ [])
    pass [] = (λ h. absurd (ground arith), λ h. absurd (ground arith))
    pass (u ∷ us) = the_only_iff (select (matches slave) (u ∷ us)) t

-- What the first of the services' checks lets through.
pub get_controller_found :
    (host : Text) (slave : ℕ) (ts : List Target) (t : Target)
    → get_controller host slave ts ≡ some t
    → (before : List Target) × (after : List Target) × (ts ≡ before ++ t ∷ after)
      × (t.host ≡ host)
      × (t.device_id ≡ slave)
      × All (λ u. (text_eq u.host host && u.device_id == slave) ≡ false) before
unfolding get_controller
get_controller_found host slave [] t h = absurd (ground arith)
get_controller_found host slave (u ∷ us) t h =
    elim (Bool-cases (text_eq u.host host && u.device_id == slave)) [
      | inl e ↦
          let same : u ≡ t = ground (arith, h) in
          (
            [],
            us,
            ground (arith, same),
            ground (arith, same, text_eq_iff u.host host),
            ground (arith, same),
            tt,
          )
      | inr e ↦
          let (before, after, place, named, unit, others) =
            get_controller_found host slave us t (ground (arith, h)) in
          (u ∷ before, after, ap (λ l. u ∷ l) place, named, unit, (e, others))
    ]

solis_only_found :
    (o : Option Target) (t : Target) → solis_only o ≡ found t → (o ≡ some t) × (t.is_solis ≡ true)
solis_only_found none t h = absurd (ground arith)
solis_only_found (some u) t h = ground arith

-- With a host, a call reaches the first controller with this host and the call's slave, or slave 1,
-- and only if that is a Solis inverter.
pub resolve_controller_host :
    (c : ℕ) (host : Text) (slave : Option ℕ) (ts : List Target) (t : Target)
    → resolve_controller (some (c ∷ host)) slave ts ≡ found t
    → (t.is_solis ≡ true)
      × ((before : List Target) × (after : List Target) × (ts ≡ before ++ t ∷ after)
          × (t.host ≡ c ∷ host)
          × (t.device_id ≡ get_or slave 1)
          × All (λ u. (text_eq u.host (c ∷ host) && u.device_id == get_or slave 1) ≡ false) before)
unfolding resolve_controller
resolve_controller_host c host slave ts t h =
    let (first, solis) = solis_only_found (get_controller (c ∷ host) (get_or slave 1) ts) t h in
    (solis, get_controller_found (c ∷ host) (get_or slave 1) ts t first)
