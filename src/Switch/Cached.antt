-- ===== src/Switch/Cached.antt =====
-- solis_binary_sensor.py: what `set_register_bit` leaves in the cache and puts on the queue.
use hh_modbus.Base.{
  ℕ, ◌≡◌, refl, sym, ap, ◌∙◌, arith, Bool, true, false, not, ◌&&◌, ◌||◌, List, [], ◌∷◌, ◌++◌,
  Option, none, some, ◌==◌, if◌then◌else◌, by_if,
}
use mathlib.Core.List.{append_assoc, append-nil}
use hh_modbus.Words.{get_bit_bool}
use hh_modbus.Groups.{RegisterType}
use hh_modbus.Cache.{cache_get, cache_save}
use hh_modbus.Cache.Keys.{cache_get-cache_save}
use hh_modbus.Controller.{Client, State, read_register}
use hh_modbus.Controller.Writes.{cached}
use hh_modbus.Switch.{
  Switch, Entity, bool_xor, new_bits, write_companions, write_value, first_register, live_value,
  set_register_bit, write_bit,
}
use hh_modbus.Switch.Bits.{new_bits_lem}

-- Companions leave the link alone and only append to what was sent.
abbrev pub Appends : Entity → Entity → Type 0
Appends e e' = (e'.link ≡ e.link) × ((rest : List (ℕ × ℕ)) × (e'.sent ≡ e.sent ++ rest))

after_companion-Appends :
    (r : ℕ) (e : Entity) (o : Option ℕ)
    → Appends e (elim o [ none ↦ e | some v ↦ record e { sent = e.sent ++ (r, v) ∷ [] } ])
after_companion-Appends r e none = (refl, ([], sym (append-nil e.sent)))
after_companion-Appends r e (some v) = (refl, ((r, v) ∷ [], refl))

Appends-trans : (a b c : Entity) → Appends a b → Appends b c → Appends a c
Appends-trans a b c (same, (xs, x)) (same', (ys, y)) =
    (same' ∙ same, (xs ++ ys, y ∙ ap (λ l. l ++ ys) x ∙ append_assoc a.sent xs ys))

write_companions-Appends : (rs : List ℕ) (e : Entity) → Appends e (write_companions rs e)
unfolding write_companions
write_companions-Appends [] e = (refl, ([], sym (append-nil e.sent)))
write_companions-Appends (r ∷ rs) e =
    let next : Entity = elim (cache_get e.link.unit r e.link.values) [
      | none ↦ e
      | some v ↦ record e { sent = e.sent ++ (r, v) ∷ [] }
    ] in
    Appends-trans e next (write_companions rs next)
      (after_companion-Appends r e (cache_get e.link.unit r e.link.values))
      (write_companions-Appends rs next)

-- What `set_register_bit` leaves: the value u in the cache, and its write, when one is needed.
abbrev pub IsStored : ℕ → Bool → ℕ → ℕ → Entity → Entity → Type 0
IsStored target force v u e e' =
    (cached target e'.link ≡ some u)
    × ((rest : List (ℕ × ℕ)) × (e'.sent
          ≡ e.sent ++ (if force || not (v == u) then (target, u) ∷ rest else [])))

-- The branches of `live_value`, for what the cache and the read give.
read_value-cached :
    (r v : ℕ) (e : Entity) (s : State) (o : Option ℕ)
    → let read : Option ℕ × Entity = elim o [
      | none ↦ (none, record e { link = s })
      | some u ↦ (some u, record e { link = record s { values = cache_save s.unit r u s.values } })
    ] in
      read.0 ≡ some v → cached r read.1.link ≡ some v
read_value-cached r v e s none h = absurd (ground arith)
read_value-cached r v e s (some u) h =
    let same : u ≡ v = ground (arith, h) in
    cache_get-cache_save s.unit r r u s.values ∙ ground (arith, same)

known_value-cached :
    (r v : ℕ) (e : Entity) (other : Option ℕ × Entity) (o : Option ℕ)
    → cached r e.link ≡ o
    → (other.0 ≡ some v → cached r other.1.link ≡ some v)
    → let known : Option ℕ × Entity = elim o [ some u ↦ (some u, e) | none ↦ other ] in
      known.0 ≡ some v → cached r known.1.link ≡ some v
known_value-cached r v e other none has read h = read h
known_value-cached r v e other (some u) has read h = has ∙ h

live_value-cached :
    (client : Client) (r v : ℕ) (e : Entity)
    → (live_value client r e).0 ≡ some v
    → cached r (live_value client r e).1.link ≡ some v
unfolding live_value
live_value-cached client r v e h =
    let (registers, s) = read_register client RegisterType.holding r 1 e.link in
    known_value-cached r v e _ (cache_get e.link.unit r e.link.values) refl
      (read_value-cached r v e s (first_register registers)) h

-- An entity that holds the write, and then what companions append.
written-IsStored :
    (target v u : ℕ) (force : Bool) (e e' : Entity)
    → (force || not (v == u)) ≡ true
    → Appends
        (record e {
          sent = e.sent ++ (target, u) ∷ [];
          link = record e.link { values = cache_save e.link.unit target u e.link.values };
        })
        e'
    → IsStored target force v u e e'
written-IsStored target v u force e e' needed (same, (rest, more)) =
    let self : (target == target) ≡ true = ground arith in
    let saved = cache_get-cache_save e.link.unit target target u e.link.values in
    (
      ap (λ s. cached target s) same ∙ ground (arith, saved, self),
      (rest, rw needed (more ∙ append_assoc e.sent ((target, u) ∷ []) rest)),
    )

kept-IsStored :
    (target v u : ℕ) (force : Bool) (e : Entity)
    → (force || not (v == u)) ≡ false
    → cached target e.link ≡ some v
    → IsStored target force v u e e
kept-IsStored target v u force e same_value_kept had =
    let same : v ≡ u = ground (arith, same_value_kept) in
    (had ∙ ap some same, ([], rw same_value_kept (sym (append-nil e.sent))))

write_value-IsStored :
    (w : Switch) (value force : Bool) (v u : ℕ) (e : Entity)
    → e.link.connected ≡ true
    → cached w.write_register e.link ≡ some v
    → let e' = write_value w value force (some v) u e in
      (e'.is_on ≡ some value) × IsStored w.write_register force v u e e'
unfolding write_value
write_value-IsStored w value force v u e up had =
    let written : Entity = record e {
      sent = e.sent ++ (w.write_register, u) ∷ [];
      link = record e.link { values = cache_save e.link.unit w.write_register u e.link.values };
    } in
    let followed : Entity =
      if value then write_companions w.companion_writes written else written in
    (
      refl,
      by_if (IsStored w.write_register force v u e) ((force || not (v == u)) && e.link.connected)
          followed e
          (λ h. written-IsStored w.write_register v u force e followed (ground (arith, h)) (
            by_if (Appends written) value (write_companions w.companion_writes written) written
              (λ _. write_companions-Appends w.companion_writes written)
              (λ _. (refl, ([], sym (append-nil written.sent))))))
          (λ h. kept-IsStored w.write_register v u force e (ground (arith, h, up)) had),
    )

-- The branches of `write_bit`.
write_bit-IsStored :
    (client : Client) (w : Switch) (position : ℕ) (value force : Bool) (v : ℕ) (o : Option ℕ)
    (e : Entity)
    → o ≡ some v
    → e.link.connected ≡ true
    → cached w.write_register e.link ≡ some v
    → let e' = write_bit client w position value force (o, e) in
      let u = new_bits w position value v in
      (e'.is_on ≡ some value) × IsStored w.write_register force v u e e'
unfolding write_bit
write_bit-IsStored client w position value force v none e known up had = absurd (ground arith)
write_bit-IsStored client w position value force v (some x) e known up had =
    let same : x ≡ v = ground (arith, known) in
    rw same (write_value-IsStored w value force v (new_bits w position value v) e up had)

live_value-sent : (client : Client) (r : ℕ) (e : Entity) → (live_value client r e).1.sent ≡ e.sent
unfolding live_value
live_value-sent client r e = ground arith

-- A switch that is a bit of the register that it writes, the value of which is in the cache or can
-- be read, while the link is up. Afterwards it shows the asked state, and so does its bit of the
-- value that the cache has for the register. This value was put on the queue, before any
-- companions, if it differs from the one before or the write is forced, and nothing otherwise.
pub set_register_bit_lem :
    (client : Client) (w : Switch) (value force : Bool) (e : Entity) (position v : ℕ)
    → w.bit_position ≡ some position
    → w.write_register ≡ w.register
    → (live_value client w.register e).0 ≡ some v
    → (live_value client w.register e).1.link.connected ≡ true
    → let e' = set_register_bit client w value force e in
      (e'.is_on ≡ some value)
      × ((u : ℕ) × (rest : List (ℕ × ℕ)) × (cached w.write_register e'.link ≡ some u)
          × (get_bit_bool u position ≡ bool_xor w.inverted value)
          × (e'.sent
              ≡ e.sent ++ (if force || not (v == u) then (w.write_register, u) ∷ rest else [])))
unfolding set_register_bit write_bit
set_register_bit_lem client w value force e position v bit target known up =
    let (current, e0) = live_value client w.register e in
    let had : cached w.write_register e0.link ≡ some v =
      ap (λ r. cached r e0.link) target ∙ live_value-cached client w.register v e known in
    let (shown, (stored, (rest, sent))) =
      write_bit-IsStored client w position value force v current e0 known up had in
    let u = new_bits w position value v in
    let own : (position == position) ≡ true = ground arith in
    rw bit (
      shown,
      (
        u,
        rest,
        stored,
        ground (arith, own, new_bits_lem w position value v position),
        sent
            ∙ ap (λ l. l ++ (if force || not (v == u) then (w.write_register, u) ∷ rest else []))
                (live_value-sent client w.register e),
      ),
    )
