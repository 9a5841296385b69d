-- ===== src/Dispatch/Blocks.antt =====
-- __init__.py: the registers that a real-time dispatch writes.
use hh_modbus.Base.{
  ℕ, ◌+◌, ◌*◌, ◌≤◌, ◌<◌, ◌≡◌, refl, arith, ap, ◌∙◌, List, [], ◌∷◌, ◌++◌, Option, none, some, get_or,
  is_some, if◌then◌else◌,
}
use hh_modbus.Words.{split_s32}
use hh_modbus.Inverter.{InverterType}
use hh_modbus.Controller.{Client, State}
use hh_modbus.Controller.Queue.{Request, multiple}
use hh_modbus.Dispatch.{
  Call, DispatchError, Result, done, failed, round_tenth, times_sign, dispatch_modes,
  dispatch_function_from_call, dispatch_system_limits,
}
use hh_modbus.Dispatch.Service.{
  check_dispatch, dispatch_reserve_words, service_dispatch, global_block, settings, after_words,
  dispatch_result,
}
use hh_modbus.Dispatch.Written.{
  power_words_read_back, round_tenth_near, dispatch_reserve_words_kept,
}

after_words_done :
    (r : Result (List ℕ)) (f : List ℕ → List Request) (writes : List Request)
    → after_words r f ≡ done writes
    → (words : List ℕ) × (r ≡ done words) × (writes ≡ f words)
after_words_done (failed e) f writes h = absurd (ground arith)
after_words_done (done words) f writes h = (words, refl, ground arith)

dispatch_done :
    (error : Option DispatchError) (s' : State) (words : Result (List ℕ) × State)
    (f : List ℕ → List Request) (writes : List Request)
    → (dispatch_result error s' words f).0 ≡ done writes
    → (error ≡ none) × ((ws : List ℕ) × (words.0 ≡ done ws) × (writes ≡ f ws))
dispatch_done (some e) s' words f writes h = absurd (ground arith)
dispatch_done none s' (r, s'') f writes h = (refl, after_words_done r f writes h)

-- The value of a limit register: 100 W a unit, to the nearest, and 65535 for no limit.
abbrev pub IsLimit : Option ℕ → ℕ → Type 0
IsLimit none n = n ≡ 65535
IsLimit (some watts) n = (100 * n ≤ watts + 50) × (watts + 50 < 100 * n + 100)

-- The two words hold the call's power with the sign of its mode, in units of 10 W, to the nearest.
abbrev pub IsPower : Call → ℕ → ℕ → Type 0
IsPower c high low =
    (n : ℕ) × (split_s32 high low ≡ times_sign (dispatch_modes c.mode).1 n)
    × (10 * n ≤ c.power_watts + 5)
    × (c.power_watts ≤ 10 * n + 5)

-- Registers 44100 to 44104: the switches have bit 0 for an import limit and bit 1 for an export limit.
abbrev pub IsGlobal : Call → List ℕ → Type 0
IsGlobal c words =
    (imported : ℕ) × (exported : ℕ) × (words
      ≡ 1
        ∷ c.failsafe_minutes
        ∷ ((if is_some c.import_limit_watts then 1 else 0)
            + (if is_some c.export_limit_watts then 2 else 0))
        ∷ imported
        ∷ exported
        ∷ [])
    × IsLimit c.import_limit_watts imported
    × IsLimit c.export_limit_watts exported

-- Registers 44105 to 44112, for the two reserve words.
abbrev pub IsRealtime : Call → List ℕ → List ℕ → Type 0
IsRealtime c reserve words =
    (high : ℕ) × (low : ℕ) × (words ≡ (
      (dispatch_modes c.mode).0
      ∷ high
      ∷ low
      ∷ dispatch_function_from_call c
      ∷ get_or c.soc_min 0
      ∷ get_or c.soc_max 100
      ∷ reserve))
    × IsPower c high low

dispatch_system_limits-IsLimit :
    (i e : Option ℕ)
    → let (switches, imported, exported) = dispatch_system_limits i e in
      (switches ≡ (if is_some i then 1 else 0) + (if is_some e then 2 else 0))
      × IsLimit i imported
      × IsLimit e exported
unfolding dispatch_system_limits
dispatch_system_limits-IsLimit none none = (refl, refl, refl)
dispatch_system_limits-IsLimit (some w) none = (refl, (omega arith, omega arith), refl)
dispatch_system_limits-IsLimit none (some v) = (refl, refl, (omega arith, omega arith))
dispatch_system_limits-IsLimit (some w) (some v) =
    (refl, (omega arith, omega arith), (omega arith, omega arith))

global_block-IsGlobal : (c : Call) → IsGlobal c (global_block c)
global_block-IsGlobal c =
    let (_, imported, exported) =
      dispatch_system_limits c.import_limit_watts c.export_limit_watts in
    let (switches, i, e) =
      dispatch_system_limits-IsLimit c.import_limit_watts c.export_limit_watts in
    (
      imported,
      exported,
      ap (λ n. 1 ∷ c.failsafe_minutes ∷ n ∷ imported ∷ exported ∷ []) switches,
      i,
      e,
    )

settings-IsRealtime :
    (c : Call) (reserve : List ℕ)
    → c.power_watts ≤ 240000
    → IsRealtime c reserve (settings c ++ reserve)
settings-IsRealtime c reserve h =
    let (high, low, words, _, _, power) = power_words_read_back c h in
    let (below, above) = round_tenth_near c.power_watts in
    (high, low, rw words refl, (round_tenth c.power_watts, power, below, above))

-- A dispatch of a power that the schema allows, if it succeeds, has passed its checks and has got
-- the two reserve words. It queues two block writes, in this order: registers 44100 to 44104 with
-- the master switch, the failsafe and the limits of the call, and 44105 to 44112 with its mode,
-- power, function word and SOC window, and the reserve words.
pub service_dispatch_written :
    (client : Client) (flush : State → Option State) (type : InverterType) (c : Call) (s : State)
    (writes : List Request)
    → c.power_watts ≤ 240000
    → (service_dispatch client flush type c s).0 ≡ done writes
    → let (error, s') = check_dispatch client type c s in
      (error ≡ none)
      × ((reserve : ℕ) × (limit : ℕ) × (first : List ℕ) × (second : List ℕ)
          × ((dispatch_reserve_words client flush 44111 c s').0 ≡ done (reserve ∷ limit ∷ []))
          × (writes ≡ multiple 44100 first ∷ multiple 44105 second ∷ [])
          × IsGlobal c first
          × IsRealtime c (reserve ∷ limit ∷ []) second)
unfolding service_dispatch
service_dispatch_written client flush type c s writes fits h =
    let (error, s') = check_dispatch client type c s in
    let (passed, (words, given, written)) =
      dispatch_done error s' (dispatch_reserve_words client flush 44111 c s')
        (λ ws. multiple 44100 (global_block c) ∷ multiple 44105 (settings c ++ ws) ∷ []) writes h in
    let (reserve, limit, two, _) =
      dispatch_reserve_words_kept client flush type c s' 44111 words given in
    (
      passed,
      (
        get_or c.battery_reserve_soc reserve,
        get_or c.pv_limit_raw limit,
        global_block c,
        settings c ++ words,
        given ∙ ap done two,
        written,
        global_block-IsGlobal c,
        rw two (settings-IsRealtime c _ fits),
      ),
    )
