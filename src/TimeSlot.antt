-- ===== src/TimeSlot.antt =====
-- time.py: the time entity, a slot's hour and minute in two registers. `cache` is `cache_get` of the
-- entity's controller at the update. The TIMESTAMP device class, which no time definition has, is left
-- out; `none` for a value is None.
pub mod Service
pub mod Shown
use Prim.Native.String.{String}
use hh_modbus.Base.{
  ℕ, ◌+◌, Bool, true, false, ◌&&◌, ◌||◌, List, [], ◌∷◌, Option, none, some, if◌then◌else◌, ◌==◌,
  leb,
}
use hh_modbus.Sensors.Entity.{Owner, is_correct_controller}

-- `datetime.time`, in whole seconds
pub record Time : Type 0 where
  pub hour : ℕ
  pub minute : ℕ
  pub second : ℕ

pub record TimeUpdate : Type 0 where
  pub register : ℕ
  pub controller : String
  pub slave : ℕ
  pub value : Option ℕ

pub record TimeState : Type 0 where
  pub received : List (ℕ × ℕ)
  pub native_value : Option Time
  pub available : Bool

-- `0 <= minute <= 59 and 0 <= hour <= 23`
unfoldable pub is_time : ℕ → ℕ → Bool
is_time hour minute = leb minute 59 && leb hour 23

-- What the two cached words show.
unfoldable pub show_time : Option ℕ → Option ℕ → TimeState → TimeState
unfolding is_time
show_time (some hour) (some minute) s =
    if is_time hour minute
    then record s {
      native_value = some (record { hour = hour; minute = minute; second = 0 });
      available = true;
    }
    else record s { available = false }
show_time _ _ s = record s { available = false }

unfoldable pub take_value : ℕ → (ℕ → Option ℕ) → ℕ → Option ℕ → TimeState → TimeState
unfolding show_time
take_value register cache r none s = s
take_value register cache r (some v) s =
    show_time (cache register) (cache (register + 1)) (record s { received = (r, v) ∷ s.received })

unfoldable pub handle_time_update : Owner → ℕ → (ℕ → Option ℕ) → TimeUpdate → TimeState → TimeState
unfolding is_correct_controller take_value
handle_time_update o register cache u s =
    if is_correct_controller o u.controller u.slave
      && (u.register == register || u.register == register + 1)
    then take_value register cache u.register u.value s
    else s

-- The request that is put on the write queue, which has no word for the seconds, and the state.
unfoldable pub async_set_value : ℕ → Time → TimeState → (ℕ × List ℕ) × TimeState
async_set_value register t s =
    ((register, t.hour ∷ t.minute ∷ []), record s { native_value = some t })
