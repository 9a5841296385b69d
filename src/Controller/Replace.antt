-- ===== src/Controller/Replace.antt =====
-- modbus_controller.py: `replace_sensor_group` on the controller's list of groups.
use hh_modbus.Base.{◌≡◌, ◌≢◌, refl, arith, List, [], ◌∷◌, ◌++◌, All}
use hh_modbus.Groups.{SensorGroup}
use hh_modbus.Controller.{State, replace_at, replace_sensor_group}

at_place :
    (before after new : List SensorGroup) (old : SensorGroup)
    → All (λ g. g.id ≢ old.id) before
    → replace_at old.id new (before ++ old ∷ after) ≡ before ++ new ++ after
at_place [] after new old h = ground arith
at_place (g ∷ gs) after new old h = ground (arith, at_place gs after new old h.1)

missing :
    (gs new : List SensorGroup) (old : SensorGroup)
    → All (λ g. g.id ≢ old.id) gs
    → replace_at old.id new gs ≡ gs
missing [] new old h = refl
missing (g ∷ gs) new old h = ground (arith, missing gs new old h.1)

-- The replacement takes the old group's place, if no group before it has its id; the groups before
-- and behind it stay, in order.
pub replace_sensor_group_lem :
    (before after new : List SensorGroup) (old : SensorGroup) (s : State)
    → All (λ g. g.id ≢ old.id) before
    → s.groups ≡ before ++ old ∷ after
    → (replace_sensor_group old new s).groups ≡ before ++ new ++ after
unfolding replace_sensor_group
replace_sensor_group_lem before after new old s h e = rw e (at_place before after new old h)

-- A group that is not on the list replaces nothing.
pub replace_sensor_group_missing :
    (new : List SensorGroup) (old : SensorGroup) (s : State)
    → All (λ g. g.id ≢ old.id) s.groups
    → replace_sensor_group old new s ≡ s
unfolding replace_sensor_group
replace_sensor_group_missing new old s h = rw (missing s.groups new old h) refl
