-- ===== src/Switch.antt =====
-- solis_binary_sensor.py: `SolisBinaryEntity`, a switch that is a bit or a value of a register.
--
-- The controller's writes go to its queue (see Controller.Queue): `sent` holds those that the switch
-- puts there, oldest first. Not here: the virtual register 90005, which enables the connection, the
-- timer of the keep-alive, and the `available` property.
pub mod Bits
pub mod Cached
use hh_modbus.Base.{
  ℕ, ◌+◌, ◌-◌, ◌*◌, max, Bool, true, false, not, ◌&&◌, ◌||◌, List, [], ◌∷◌, ◌++◌, Option, none,
  some, ltb, ◌==◌, if◌then◌else◌, get_or, any,
}
use hh_modbus.Words.{set_bit, get_bit_bool}
use hh_modbus.Groups.{RegisterType}
use hh_modbus.Cache.{cache_get, cache_save}
use hh_modbus.Controller.{Client, State, read_register}

-- The fields that an entity definition sets; a missing list is empty, a missing flag false.
pub record Switch : Type 0 where
  pub register : ℕ
  pub write_register : ℕ
  pub bit_position : Option ℕ
  pub conflicts_with : List ℕ
  pub requires : List ℕ
  pub requires_any : List ℕ
  pub on_value : Option ℕ
  pub off_value : Option ℕ
  pub inverted : Bool
  pub keep_alive : Bool
  pub companion_writes : List ℕ

pub record Entity : Type 0 where
  pub link : State
  pub is_on : Option Bool
  pub available : Bool
  pub sent : List (ℕ × ℕ)

abbrev pub set_bits : List ℕ → Bool → ℕ → ℕ
set_bits [] b v = v
set_bits (k ∷ ks) b v = set_bits ks b (set_bit (some v) k b)

abbrev pub bool_xor : Bool → Bool → Bool
bool_xor true b = not b
bool_xor false b = b

-- The first of `requires_any` is set unless one of them is set already.
abbrev pub set_any : List ℕ → ℕ → ℕ → ℕ
set_any [] current v = v
set_any (k ∷ ks) current v =
    if any (get_bit_bool current) (k ∷ ks) then v else set_bit (some v) k true

-- The new value of a register of which the switch is the bit `position`.
unfoldable pub new_bits : Switch → ℕ → Bool → ℕ → ℕ
unfolding set_bit get_bit_bool
new_bits w position value current =
    let prepared =
      if value
      then set_any w.requires_any current
          (set_bits w.requires true (set_bits w.conflicts_with false current))
      else current in
    set_bit (some prepared) position (bool_xor w.inverted value)

-- The new value of a register of which the switch is the whole value.
unfoldable pub new_value : Switch → Bool → ℕ
new_value w true = get_or w.on_value 1
new_value w false = get_or w.off_value 0

-- `_write_companions`: the cached values are sent again.
unfoldable pub write_companions : List ℕ → Entity → Entity
write_companions [] e = e
write_companions (r ∷ rs) e = write_companions rs (elim (cache_get e.link.unit r e.link.values) [
  | none ↦ e
  | some v ↦ record e { sent = e.sent ++ (r, v) ∷ [] }
])

abbrev pub same_value : Option ℕ → ℕ → Bool
same_value none v = false
same_value (some u) v = u == v

-- The write of `set_register_bit` and what follows it, when the new value is known.
unfoldable pub write_value : Switch → Bool → Bool → Option ℕ → ℕ → Entity → Entity
unfolding write_companions
write_value w value force current new e =
    let target = w.write_register in
    let written = record e {
      sent = e.sent ++ (target, new) ∷ [];
      link = record e.link { values = cache_save e.link.unit target new e.link.values };
    } in
    let done =
      if (force || not (same_value current new)) && e.link.connected
      then (if value then write_companions w.companion_writes written else written)
      else e in
    record done { is_on = some value; available = true }

abbrev pub first_register : Option (List ℕ) → Option ℕ
first_register (some (v ∷ vs)) = some v
first_register _ = none

module _ (client : Client) where
  -- The value of a bit's register: from the cache, or else read from the inverter and cached.
  unfoldable pub live_value : ℕ → Entity → Option ℕ × Entity
  live_value register e =
      let (registers, s) = read_register client RegisterType.holding register 1 e.link in
      elim (cache_get e.link.unit register e.link.values) [
        | some v ↦ (some v, e)
        | none ↦ elim (first_register registers) [
          | none ↦ (none, record e { link = s })
          | some v ↦ (
            some v,
            record e { link = record s { values = cache_save s.unit register v s.values } },
          )
        ]
      ]

  -- A bit of a register that cannot be read is not written.
  unfoldable pub write_bit : Switch → ℕ → Bool → Bool → Option ℕ × Entity → Entity
  unfolding new_bits write_value
  write_bit w position value force (none, e) = e
  write_bit w position value force (some current, e) =
      write_value w value force (some current) (new_bits w position value current) e

  -- `set_register_bit`
  unfoldable pub set_register_bit : Switch → Bool → Bool → Entity → Entity
  unfolding live_value write_bit
  set_register_bit w value force e = elim w.bit_position [
    | some position ↦ write_bit w position value force (live_value w.register e)
    | none ↦
        write_value w value force (cache_get e.link.unit w.register e.link.values)
          (new_value w value) e
  ]

  -- `async_turn_on` and `async_turn_off`, but for the virtual register 90005 and the timer.
  unfoldable pub turn_on : Switch → Entity → Entity
  turn_on w e =
      let forced : Bool = elim w.companion_writes [ [] ↦ w.keep_alive | r ∷ rs ↦ true ] in
      set_register_bit w true forced e

  unfoldable pub turn_off : Switch → Entity → Entity
  turn_off w e = set_register_bit w false false e

-- `_keep_alive_interval`, in seconds, from the cached timeout, in minutes; 0 or none counts as 5.
unfoldable pub keep_alive_interval : Option ℕ → ℕ
keep_alive_interval timeout =
    let minutes = if get_or timeout 0 == 0 then 5 else get_or timeout 0 in
    max 30 (minutes * 60 - 60)

-- The state that `handle_modbus_update` shows for a value of the register.
unfoldable pub shown_state : Switch → ℕ → Option Bool → Option Bool
unfolding get_bit_bool
shown_state w v before =
    let by_bit : Option Bool = elim w.bit_position [
      | none ↦ before
      | some position ↦ some (bool_xor w.inverted (get_bit_bool v position))
    ] in
    elim w.on_value [ none ↦ by_bit | some on ↦ some (v == on) ]
