-- ===== src/Dispatch/Registers.antt =====
-- __init__.py: the services that write one holding register and that read registers. Addresses and
-- values of a call are naturals; the controllers are those that `iter_controllers` yields, in order.
use hh_modbus.Base.{
  ℕ, ◌/◌, ◌%◌, ◌^◌, ◌≡◌, ◌≢◌, refl, arith, true, List, [], ◌∷◌, Option, none, some, ◌==◌,
  if◌then◌else◌, get_or, select, map, All, ap, Bool-cases, inl, inr,
}
use hh_modbus.Base.Int.{ℤ}
use hh_modbus.Cache.{Text}
use hh_modbus.Controller.{Client, State, read_with_exception}
use hh_modbus.Controller.Queue.{Request, single}
use hh_modbus.Dispatch.Resolve.{Target, get_controller, get_controller_found, matches}
use hh_modbus.Groups.{RegisterType}
use hh_modbus.Words.{combine_u32, split_s32, combine_u32_le}

-- The tasks that a write service creates, each the queueing of a request by a controller, or the
-- validation error that it raises.
pub data Written : Type 0 where
  queued : List (Target × Request) → Written
  no_host no_slave : Written

abbrev pub queued_or : Written → List (Target × Request) → Written
queued_or error [] = error
queued_or error (q ∷ qs) = queued (q ∷ qs)

abbrev pub to_host : Request → Option Target → Written
to_host r none = no_host
to_host r (some t) = queued ((t, r) ∷ [])

-- An empty host is no host.
unfoldable pub service_write_holding_register :
    ℕ → ℕ → Option Text → Option ℕ → List Target → Written
unfolding get_controller
service_write_holding_register address value (some (c ∷ host)) slave ts =
    to_host (single address value) (get_controller (c ∷ host) (get_or slave 1) ts)
service_write_holding_register address value _ slave ts =
    queued_or no_slave (map (λ t. (t, single address value)) (select (matches slave) ts))

-- What `service_read_register` returns; `hex` holds the four digits of each value, and the last
-- three decode a pair: "u32_be", "s32_be", "u32_le".
pub record Response : Type 0 where
  pub address : ℕ
  pub count : ℕ
  pub register_type : RegisterType
  pub values : List ℕ
  pub hex : List (List ℕ)
  pub pair : Option (ℕ × ℤ × ℕ)

-- `illegal_address` is the ServiceValidationError that names the other register type, `failed` the
-- HomeAssistantError, and `index_error` the decoding of two registers from fewer values.
pub data ReadResult : Type 0 where
  response : Response → ReadResult
  illegal_address : RegisterType → ReadResult
  failed index_error : ReadResult

-- `f"{v:04X}"` of a register, a number below 2 ^ 16
unfoldable pub hex_digits : ℕ → List ℕ
hex_digits v = v / 16 ^ 3 % 16 ∷ v / 16 ^ 2 % 16 ∷ v / 16 % 16 ∷ v % 16 ∷ []

abbrev pub other_type : RegisterType → RegisterType
other_type RegisterType.input = RegisterType.holding
other_type RegisterType.holding = RegisterType.input

abbrev pub decode_pair : List ℕ → Option (ℕ × ℤ × ℕ)
decode_pair (a ∷ b ∷ _) = some (combine_u32 a b, split_s32 a b, combine_u32_le a b)
decode_pair _ = none

unfoldable pub new_response : ℕ → ℕ → RegisterType → List ℕ → ReadResult
unfolding hex_digits
new_response address count type values =
    let respond : Option (ℕ × ℤ × ℕ) → ReadResult = λ pair. response record {
      address = address;
      count = count;
      register_type = type;
      values = values;
      hex = map hex_digits values;
      pair = pair;
    } in
    if count == 2
    then (elim (decode_pair values) [ none ↦ index_error | some p ↦ respond (some p) ])
    else respond none

-- `MODBUS_ILLEGAL_DATA_ADDRESS` is 2.
unfoldable pub read_result : ℕ → ℕ → RegisterType → Option (List ℕ) × Option ℕ → ReadResult
unfolding new_response
read_result address count type (some values, code) = new_response address count type values
read_result address count type (none, none) = failed
read_result address count type (none, some code) =
    if code == 2 then illegal_address (other_type type) else failed

-- `service_read_register` after `_resolve_controller`, on the state of that controller.
unfoldable pub service_read_register : Client → ℕ → ℕ → RegisterType → State → ReadResult × State
unfolding read_result
service_read_register client address count type s =
    let (answer, s') = read_with_exception client type address count s in
    (read_result address count type answer, s')

-- A controller that a call names: by its host and slave, where 1 is the default, or without a host by
-- its slave alone.
abbrev pub Named : Option Text → Option ℕ → Target → Type 0
Named (some (c ∷ host)) slave t = (t.host ≡ c ∷ host) × (t.device_id ≡ get_or slave 1)
Named _ none t = Unit
Named _ (some slave) t = t.device_id ≡ slave

-- A write of exactly the value of the call to its address, by a controller that the call names.
abbrev pub AsAsked : ℕ → ℕ → Option Text → Option ℕ → Target × Request → Type 0
AsAsked address value host slave (t, r) = (r ≡ single address value) × Named host slave t

abbrev tasks : Written → List (Target × Request)
tasks (queued qs) = qs
tasks _ = []

queued_or_AsAsked :
    (P : Target × Request → Type 0) (all qs : List (Target × Request))
    → All P all
    → queued_or no_slave all ≡ queued qs
    → (qs ≢ []) × All P qs
queued_or_AsAsked P [] qs ps h = absurd (ground arith)
queued_or_AsAsked P (q ∷ all) qs ps h =
    let same : q ∷ all ≡ qs = ap tasks h in rw (← same) (λ e. absurd (ground arith), ps)

to_host_AsAsked :
    (P : Target × Request → Type 0) (r : Request) (o : Option Target) (qs : List (Target × Request))
    → ((t : Target) → o ≡ some t → P (t, r))
    → to_host r o ≡ queued qs
    → (qs ≢ []) × All P qs
to_host_AsAsked P r none qs named h = absurd (ground arith)
to_host_AsAsked P r (some t) qs named h = queued_or_AsAsked P ((t, r) ∷ []) qs (named t refl, tt) h

-- Of the controllers that a call without a host takes, each is one that it names.
select-AsAsked :
    (address value : ℕ) (slave : Option ℕ) (host : Option Text) (ts : List Target)
    → ((t : Target) → matches slave t ≡ true → Named host slave t)
    → All
        (AsAsked address value host slave)
        (map (λ t. (t, single address value)) (select (matches slave) ts))
select-AsAsked address value slave host [] named = tt
select-AsAsked address value slave host (t ∷ ts) named = elim (Bool-cases (matches slave t)) [
  | inl e ↦ rw e ((refl, named t e), select-AsAsked address value slave host ts named)
  | inr e ↦ rw e (select-AsAsked address value slave host ts named)
]

get_controller-Named :
    (c : ℕ) (host : Text) (slave : Option ℕ) (ts : List Target) (t : Target)
    → get_controller (c ∷ host) (get_or slave 1) ts ≡ some t
    → Named (some (c ∷ host)) slave t
get_controller-Named c host slave ts t h =
    let (_, _, _, named, unit, _) = get_controller_found (c ∷ host) (get_or slave 1) ts t h in
    (named, unit)

to_slave_AsAsked :
    (address value : ℕ) (slave : Option ℕ) (host : Option Text) (ts : List Target)
    (qs : List (Target × Request))
    → ((t : Target) → matches slave t ≡ true → Named host slave t)
    → queued_or no_slave (map (λ t. (t, single address value)) (select (matches slave) ts))
      ≡ queued qs
    → (qs ≢ []) × All (AsAsked address value host slave) qs
to_slave_AsAsked address value slave host ts qs named h =
    queued_or_AsAsked (AsAsked address value host slave)
      (map (λ t. (t, single address value)) (select (matches slave) ts)) qs
      (select-AsAsked address value slave host ts named) h

-- When the write service raises no validation error it creates at least one task, and each queues a
-- write of the call's value to the call's address by a controller that the call names.
pub service_write_holding_register-AsAsked :
    (address value : ℕ) (host : Option Text) (slave : Option ℕ) (ts : List Target)
    (qs : List (Target × Request))
    → service_write_holding_register address value host slave ts ≡ queued qs
    → (qs ≢ []) × All (AsAsked address value host slave) qs
unfolding service_write_holding_register
service_write_holding_register-AsAsked address value (some (c ∷ host)) slave ts qs h =
    to_host_AsAsked (AsAsked address value (some (c ∷ host)) slave) (single address value)
      (get_controller (c ∷ host) (get_or slave 1) ts) qs
      (λ t e. (refl, get_controller-Named c host slave ts t e)) h
service_write_holding_register-AsAsked address value (some []) none ts qs h =
    to_slave_AsAsked address value none (some []) ts qs (λ t e. tt) h
service_write_holding_register-AsAsked address value (some []) (some slave) ts qs h =
    to_slave_AsAsked address value (some slave) (some []) ts qs (λ t e. ground (arith, e)) h
service_write_holding_register-AsAsked address value none none ts qs h =
    to_slave_AsAsked address value none none ts qs (λ t e. tt) h
service_write_holding_register-AsAsked address value none (some slave) ts qs h =
    to_slave_AsAsked address value (some slave) none ts qs (λ t e. ground (arith, e)) h
