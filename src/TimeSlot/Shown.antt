-- ===== src/TimeSlot/Shown.antt =====
-- time.py: what a time entity shows.
use hh_modbus.Base.{
  ℕ, ◌+◌, ◌≡◌, refl, arith, true, ◌&&◌, ◌||◌, [], ◌∷◌, Option, none, some, ◌==◌, Bool-cases, ⊤, inl,
  inr,
}
use hh_modbus.Controller.{Client, State, execute_write_registers}
use hh_modbus.Controller.Writes.{cached, execute_write_registers_cache}
use hh_modbus.Sensors.Entity.{Owner, is_correct_controller}
use hh_modbus.TimeSlot.{
  Time, TimeUpdate, TimeState, is_time, show_time, take_value, handle_time_update, async_set_value,
}

-- What is shown is a time of day.
abbrev pub IsShown : Option Time → Type 0
IsShown none = ⊤
IsShown (some t) = is_time t.hour t.minute ≡ true

show_time-IsShown :
    (hour minute : Option ℕ) (s : TimeState)
    → IsShown s.native_value
    → IsShown (show_time hour minute s).native_value
unfolding show_time
show_time-IsShown none minute s h = h
show_time-IsShown (some hour) none s h = h
show_time-IsShown (some hour) (some minute) s h = elim (Bool-cases (is_time hour minute)) [
  | inl e ↦ rw e e
  | inr e ↦ rw e h
]

take_value-IsShown :
    (register : ℕ) (cache : ℕ → Option ℕ) (r : ℕ) (v : Option ℕ) (s : TimeState)
    → IsShown s.native_value
    → IsShown (take_value register cache r v s).native_value
unfolding take_value
take_value-IsShown register cache r none s h = h
take_value-IsShown register cache r (some v) s h =
    show_time-IsShown (cache register) (cache (register + 1))
      (record s { received = (r, v) ∷ s.received }) h

-- An update leaves a time of day shown, whatever the cache has for the two registers.
pub handle_time_update-IsShown :
    (o : Owner) (register : ℕ) (cache : ℕ → Option ℕ) (u : TimeUpdate) (s : TimeState)
    → IsShown s.native_value
    → IsShown (handle_time_update o register cache u s).native_value
unfolding handle_time_update
handle_time_update-IsShown o register cache u s h =
    let mine =
      is_correct_controller o u.controller u.slave
      && (u.register == register || u.register == register + 1) in
    elim (Bool-cases mine) [
      | inl e ↦ rw e (take_value-IsShown register cache u.register u.value s h)
      | inr e ↦ rw e h
    ]

-- What the cache has for the two registers after the write of a time that was acknowledged.
cached-time :
    (client : Client) (s : State) (register hour minute : ℕ)
    → let (done, s') = execute_write_registers client register (hour ∷ minute ∷ []) s in
      done ≡ true → (cached register s' ≡ some hour) × (cached (register + 1) s' ≡ some minute)
cached-time client s register hour minute =
    let effect =
      λ (q : ℕ). execute_write_registers_cache client register q (hour ∷ minute ∷ []) s in
    λ acknowledged. (
      ground (arith, acknowledged, effect register),
      ground (arith, acknowledged, effect (register + 1)),
    )

-- A time is set, and the block write that this asks for is executed on the entity's controller and
-- acknowledged. Then an update of either of the slot's registers makes the entity show the hour and
-- the minute that were set, with no seconds, and it is available.
pub handle_time_update-async_set_value :
    (client : Client) (s : State) (o : Owner) (register v : ℕ) (u : TimeUpdate) (t : Time)
    (slot : TimeState)
    → is_time t.hour t.minute ≡ true
    → (let ((start, words), _) = async_set_value register t slot in
        (execute_write_registers client start words s).0 ≡ true)
    → is_correct_controller o u.controller u.slave ≡ true
    → (u.register == register || u.register == register + 1) ≡ true
    → u.value ≡ some v
    → let ((start, words), set) = async_set_value register t slot in
      let (done, s') = execute_write_registers client start words s in
      let shown = handle_time_update o register (λ q. cached q s') u set in
      (shown.native_value ≡ some (record t { second = 0 })) × (shown.available ≡ true)
unfolding handle_time_update async_set_value take_value show_time
handle_time_update-async_set_value client s o register v u t slot ok done mine its value =
    let (h, m) = cached-time client s register t.hour t.minute done in
    (rw (mine, its, value, h, m, ok) refl, rw (mine, its, value, h, m, ok) refl)
