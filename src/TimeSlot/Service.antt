-- ===== src/TimeSlot/Service.antt =====
-- __init__.py: the service that sets a time entity. The two parsers stand for `datetime.strptime` with
-- "%H:%M:%S" and with "%H:%M", where none is the ValueError.
use hh_modbus.Base.{
  ℕ, ◌≡◌, refl, sym, ◌∙◌, ap, arith, true, false, List, [], ◌∷◌, ◌++◌, Option, none, some,
  if◌then◌else◌, All, Bool-cases, inl, inr,
}
use hh_modbus.Cache.{Text, text_eq}
use hh_modbus.Cache.Keys.{text_eq_iff}
use hh_modbus.TimeSlot.{Time, TimeState, async_set_value}

-- A registered time entity; the slots are those that `iter_platform_entities` yields, in order.
pub record Slot : Type 0 where
  pub entity_id : Text
  pub register : ℕ
  pub state : TimeState

-- The request that is put on the write queue and the entities, the early return, or the validation
-- error.
pub data SetTime : Type 0 where
  written : ℕ × List ℕ → List Slot → SetTime
  ignored no_entity : SetTime

abbrev pub after_slot : Slot → SetTime → SetTime
after_slot s (written q slots) = written q (s ∷ slots)
after_slot s ignored = ignored
after_slot s no_entity = no_entity

unfoldable pub set_slot : Time → Slot → List Slot → SetTime
unfolding async_set_value
set_slot t s slots =
    let (request, state) = async_set_value s.register t s.state in
    written request (record s { state = state } ∷ slots)

unfoldable pub set_first : Text → Time → List Slot → SetTime
unfolding set_slot
set_first id t [] = no_entity
set_first id t (s ∷ slots) =
    let rest = set_first id t slots in
    if text_eq s.entity_id id then set_slot t s slots else after_slot s rest

abbrev pub parse_time : (Text → Option Time) → (Text → Option Time) → Text → Option Time
parse_time full short text = elim (full text) [ some t ↦ some t | none ↦ short text ]

unfoldable pub service_set_time :
    (Text → Option Time) → (Text → Option Time) → Option Text → Option Text → List Slot → SetTime
unfolding set_first
service_set_time full short (some (c ∷ id)) (some (d ∷ text)) slots =
    elim (parse_time full short (d ∷ text)) [ some t ↦ set_first (c ∷ id) t slots | none ↦ ignored ]
service_set_time full short _ _ slots = ignored

-- One slot of the id is set, the first: its request is queued and its entity shows the time.
abbrev pub IsWritten : Text → Time → List Slot → ℕ × List ℕ → List Slot → Type 0
IsWritten id t slots request slots' =
    (before : List Slot) × (s : Slot) × (after : List Slot) × (slots ≡ before ++ s ∷ after)
    × (slots' ≡ before ++ record s { state = record s.state { native_value = some t } } ∷ after)
    × (request ≡ (s.register, t.hour ∷ t.minute ∷ []))
    × (s.entity_id ≡ id)
    × All (λ u. text_eq u.entity_id id ≡ false) before

abbrev request_of : SetTime → ℕ × List ℕ
request_of (written q slots) = q
request_of _ = (0, [])

abbrev slots_of : SetTime → List Slot
slots_of (written q slots) = slots
slots_of _ = []

set_slot-IsWritten :
    (id : Text) (t : Time) (s : Slot) (slots slots' : List Slot) (q : ℕ × List ℕ)
    → text_eq s.entity_id id ≡ true
    → set_slot t s slots ≡ written q slots'
    → IsWritten id t (s ∷ slots) q slots'
unfolding set_slot async_set_value
set_slot-IsWritten id t s slots slots' q e h = (
  [],
  s,
  slots,
  refl,
  sym (ap slots_of h),
  sym (ap request_of h),
  (text_eq_iff s.entity_id id).0 e,
  tt,
)

after_slot-IsWritten :
    (id : Text) (t : Time) (s : Slot) (slots slots' : List Slot) (q : ℕ × List ℕ) (rest : SetTime)
    → text_eq s.entity_id id ≡ false
    → ((slots'' : List Slot) (q' : ℕ × List ℕ)
        → rest ≡ written q' slots''
        → IsWritten id t slots q' slots'')
    → after_slot s rest ≡ written q slots'
    → IsWritten id t (s ∷ slots) q slots'
after_slot-IsWritten id t s slots slots' q ignored e ih h = absurd (ground arith)
after_slot-IsWritten id t s slots slots' q no_entity e ih h = absurd (ground arith)
after_slot-IsWritten id t s slots slots' q (written q' slots'') e ih h =
    let (before, u, after, place, now, request, named, others) = ih slots'' q' refl in
    (
      s ∷ before,
      u,
      after,
      ap (λ l. s ∷ l) place,
      sym (ap slots_of h) ∙ ap (λ l. s ∷ l) now,
      sym (ap request_of h) ∙ request,
      named,
      (e, others),
    )

-- When a time is set, the first entity of the id gets it: a block write of the hour and the minute to
-- its register is queued, it shows the time, and no other entity changes.
pub set_first-IsWritten :
    (id : Text) (t : Time) (slots slots' : List Slot) (q : ℕ × List ℕ)
    → set_first id t slots ≡ written q slots'
    → IsWritten id t slots q slots'
unfolding set_first
set_first-IsWritten id t [] slots' q h = absurd (ground arith)
set_first-IsWritten id t (s ∷ slots) slots' q h = elim (Bool-cases (text_eq s.entity_id id)) [
  | inl e ↦ set_slot-IsWritten id t s slots slots' q e (ground (arith, h, e))
  | inr e ↦
      after_slot-IsWritten id t s slots slots' q (set_first id t slots) e
        (λ slots'' q' h'. set_first-IsWritten id t slots slots'' q' h') (ground (arith, h, e))
]
