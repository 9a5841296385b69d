-- ===== src/Dispatch/Service.antt =====
-- __init__.py: `service_dispatch`, `service_dispatch_schedule` and `service_dispatch_stop`, after
-- `_resolve_controller`, with the checks that come before their writes. The inverter's type is an
-- argument, since the controller's state here does not hold its configuration.
use hh_modbus.Base.{
  ℕ, ◌+◌, ◌-◌, ◌*◌, ◌^◌, Bool, false, not, ◌&&◌, List, [], ◌∷◌, ◌++◌, Option, none, some, ltb, leb,
  ◌==◌, if◌then◌else◌, get_or, is_some,
}
use hh_modbus.Words.{s32_words}
use hh_modbus.Inverter.{InverterType}
use hh_modbus.Groups.{RegisterType}
use hh_modbus.Cache.{cache_get}
use hh_modbus.Controller.{Client, State, read_register}
use hh_modbus.Controller.Queue.{Request, single, multiple}
use hh_modbus.Dispatch.{
  Call, DispatchError, not_hybrid, not_capable, version_unverified, version_too_low, invalid_time,
  writes_pending, unreadable, Result, done, failed, is_hybrid, required_version, dispatch_modes,
  times_sign, round_tenth, dispatch_function_from_call, dispatch_system_limits,
}

abbrev pub first_of : Option (List ℕ) → Option ℕ
first_of none = none
first_of (some []) = none
first_of (some (v ∷ vs)) = some v

-- The words of a block that the call leaves out are those that were read.
abbrev pub words_from : Call → Option (List ℕ) → Result (List ℕ)
words_from c (some (a ∷ b ∷ vs)) =
    done (get_or c.battery_reserve_soc a ∷ get_or c.pv_limit_raw b ∷ [])
words_from c _ = failed unreadable

-- `power_raw` as two words.
abbrev pub power_words : Call → List ℕ
power_words c = s32_words (times_sign (dispatch_modes c.mode).1 (round_tenth c.power_watts))

-- The global block, registers 44100 to 44104.
abbrev pub global_block : Call → List ℕ
global_block c =
    let (switches, import_raw, export_raw) =
      dispatch_system_limits c.import_limit_watts c.export_limit_watts in
    1 ∷ c.failsafe_minutes ∷ switches ∷ import_raw ∷ export_raw ∷ []

-- The part of a block from the mode to the SOC window.
abbrev pub settings : Call → List ℕ
settings c =
    (dispatch_modes c.mode).0
    ∷ (power_words c
        ++ (dispatch_function_from_call c ∷ get_or c.soc_min 0 ∷ get_or c.soc_max 100 ∷ []))

-- What is written once the reserve words are known.
abbrev pub after_words : Result (List ℕ) → (List ℕ → List Request) → Result (List Request)
after_words (failed e) writes = failed e
after_words (done words) writes = done (writes words)

-- An error stops the service before the reserve words are read.
abbrev pub dispatch_result :
    Option DispatchError
    → State
    → Result (List ℕ) × State
    → (List ℕ → List Request)
    → Result (List Request) × State
dispatch_result (some e) s words writes = (failed e, s)
dispatch_result none s (words, s') writes = (after_words words writes, s')

-- `packed_time` of both times, unless an error came before or one of them is no time.
abbrev pub scheduled_times :
    Option DispatchError → Option (ℕ × ℕ) → Option (ℕ × ℕ) → Option DispatchError × (ℕ × ℕ)
scheduled_times (some e) start_time end_time = (some e, (0, 0))
scheduled_times none (some (h, m)) (some (h', m')) = (none, (h * 2 ^ 8 + m, h' * 2 ^ 8 + m'))
scheduled_times none _ _ = (some invalid_time, (0, 0))

-- What the version register says to the call; no error is `none`.
unfoldable pub version_verdict : Call → Option ℕ → Option DispatchError
version_verdict c none = some version_unverified
version_verdict c (some v) =
    if not (leb 1 v && leb v 3)
    then some version_unverified
    else if ltb v (required_version c)
    then some version_too_low
    else none

abbrev pub is_magic : Option ℕ → Bool
is_magic none = false
is_magic (some v) = v == 43605

module _ (client : Client) where
  -- A register from the cache, or else from the inverter.
  unfoldable pub cached_or_read : ℕ → State → Option ℕ × State
  cached_or_read register s =
      let (values, s') = read_register client RegisterType.input register 1 s in
      elim (cache_get s.unit register s.values) [
        | none ↦ (first_of values, s')
        | some v ↦ (some v, s)
      ]

  -- `_ensure_dispatch_capable`: register 34502 must read 0xAA55.
  unfoldable pub ensure_dispatch_capable : State → Bool × State
  ensure_dispatch_capable s =
      let (capability, s') = cached_or_read 34502 s in (is_magic capability, s')

  -- `_ensure_dispatch_function_version`; no error is `none`.
  unfoldable pub ensure_dispatch_function_version : Call → State → Option DispatchError × State
  ensure_dispatch_function_version c s =
      let (version, s') = cached_or_read 34503 s in
      if required_version c == 1 then (none, s) else (version_verdict c version, s')

  -- The read-back, once the queued writes are done, or have not been in time.
  unfoldable pub fetch_words : ℕ → Call → Option State → State → Result (List ℕ) × State
  fetch_words register c none s = (failed writes_pending, s)
  fetch_words register c (some s') s =
      let (current, s'') = read_register client RegisterType.holding register 2 s' in
      (words_from c current, s'')

  -- `_dispatch_reserve_words`. `flush` is the wait for the queued writes: the state when they are
  -- done, or nothing when that takes too long.
  unfoldable pub dispatch_reserve_words :
      (State → Option State) → ℕ → Call → State → Result (List ℕ) × State
  dispatch_reserve_words flush register c s =
      if is_some c.battery_reserve_soc && is_some c.pv_limit_raw
      then (done (get_or c.battery_reserve_soc 0 ∷ get_or c.pv_limit_raw 0 ∷ []), s)
      else fetch_words register c (flush s) s

  -- The checks that come before any write.
  unfoldable pub check_dispatch : InverterType → Call → State → Option DispatchError × State
  check_dispatch type c s =
      let (capable, s') = ensure_dispatch_capable s in
      if not (is_hybrid type)
      then (some not_hybrid, s)
      else if not capable
      then (some not_capable, s')
      else ensure_dispatch_function_version c s'

  -- `service_dispatch`
  unfoldable pub service_dispatch :
      (State → Option State) → InverterType → Call → State → Result (List Request) × State
  service_dispatch flush type c s =
      let (error, s') = check_dispatch type c s in
      dispatch_result error s' (dispatch_reserve_words flush 44111 c s')
        (λ ws. multiple 44100 (global_block c) ∷ multiple 44105 (settings c ++ ws) ∷ [])

  -- `service_dispatch_schedule`; the times are those that `strptime` reads in the call's texts.
  unfoldable pub service_dispatch_schedule :
      (State → Option State)
      → InverterType
      → ℕ
      → Bool
      → Option (ℕ × ℕ)
      → Option (ℕ × ℕ)
      → Call
      → State
      → Result (List Request) × State
  service_dispatch_schedule flush type period enabled start_time end_time c s =
      let base = 44116 + (period - 1) * 14 in
      let (error, s') = check_dispatch type c s in
      let written : ℕ → ℕ → List ℕ → List Request = λ start finish ws.
        multiple base ((if enabled then 1 else 0) ∷ start ∷ finish ∷ (settings c ++ ws))
        ∷ (if enabled then single 44101 c.failsafe_minutes ∷ single 44100 1 ∷ [] else []) in
      let timed : Option DispatchError × (ℕ × ℕ) = scheduled_times error start_time end_time in
      dispatch_result timed.0 s' (dispatch_reserve_words flush (base + 9) c s')
        (written timed.1.0 timed.1.1)

-- `service_dispatch_stop`
unfoldable pub service_dispatch_stop : InverterType → Result (List Request)
service_dispatch_stop type =
    if is_hybrid type
    then done (single 44105 1 ∷ single 44108 1 ∷ single 44100 0 ∷ [])
    else failed not_hybrid
