-- ===== src/Dispatch/Written.antt =====
-- __init__.py: what the dispatch services write, and when.
use hh_modbus.Base.{
  ℕ, ◌+◌, ◌*◌, ◌^◌, ◌≤◌, ◌<◌, ◌≡◌, refl, arith, true, false, ◌&&◌, List, [], ◌∷◌, Option, none,
  some, get_or, is_some, Bool-cases, inl, inr,
}
use hh_modbus.Words.{split_s32}
use hh_modbus.Words.Signed.{split_s32-s32_words, IsS32}
use hh_modbus.Inverter.{InverterType}
use hh_modbus.Groups.{RegisterType}
use hh_modbus.Controller.{Client, State, read_register}
use hh_modbus.Dispatch.{
  Call, done, is_hybrid, required_version, round_tenth, Sign, minus, zero_sign, plus, times_sign,
  dispatch_modes,
}
use hh_modbus.Dispatch.Service.{
  cached_or_read, version_verdict, is_magic, fetch_words, ensure_dispatch_capable,
  ensure_dispatch_function_version, check_dispatch, dispatch_reserve_words, power_words, words_from,
}

-- `power_raw` is as near to the power in units of 10 W as a whole number can be.
pub round_tenth_near : (n : ℕ) → (10 * round_tenth n ≤ n + 5) × (n ≤ 10 * round_tenth n + 5)
unfolding round_tenth
round_tenth_near n = ground arith

version_verdict_passes :
    (c : Call) (o : Option ℕ)
    → version_verdict c o ≡ none
    → (v : ℕ) × (o ≡ some v) × (required_version c ≤ v) × (v ≤ 3)
unfolding version_verdict
version_verdict_passes c none h = absurd (ground arith)
version_verdict_passes c (some v) h = (v, refl, ground arith, ground arith)

is_magic_value : (o : Option ℕ) → is_magic o ≡ true → o ≡ some 43605
is_magic_value none h = absurd (ground arith)
is_magic_value (some v) h = ground arith

words_from_read :
    (c : Call) (read : Option (List ℕ)) (words : List ℕ)
    → words_from c read ≡ done words
    → (reserve : ℕ) × (limit : ℕ) × (rest : List ℕ) × (words
        ≡ get_or c.battery_reserve_soc reserve ∷ get_or c.pv_limit_raw limit ∷ [])
      × (read ≡ some (reserve ∷ limit ∷ rest))
words_from_read c none words h = absurd (ground arith)
words_from_read c (some []) words h = absurd (ground arith)
words_from_read c (some (a ∷ [])) words h = absurd (ground arith)
words_from_read c (some (a ∷ b ∷ rest)) words h = (a, b, rest, ground arith, refl)

signed_bound : (sign : Sign) (n : ℕ) → n ≤ 24001 → IsS32 (times_sign sign n)
signed_bound minus n h = ground arith
signed_bound zero_sign n h = ground arith
signed_bound plus n h = ground arith

-- For each power that the schema allows, `split_s32` reads the two power words of a call back as
-- the signed power in units of 10 W.
pub power_words_read_back :
    (c : Call)
    → c.power_watts ≤ 240000
    → (high : ℕ) × (low : ℕ) × (power_words c ≡ high ∷ low ∷ [])
      × (high < 2 ^ 16)
      × (low < 2 ^ 16)
      × (split_s32 high low ≡ times_sign (dispatch_modes c.mode).1 (round_tenth c.power_watts))
power_words_read_back c h = split_s32-s32_words _ (
    signed_bound (dispatch_modes c.mode).1 (round_tenth c.power_watts)
      (omega (arith, round_tenth_near c.power_watts)))

module _ (client : Client) (flush : State → Option State) (type : InverterType) (c : Call)
    (s : State) where
  -- The checks before a dispatch pass only on a hybrid inverter that reports the dispatch
  -- capability and, where the call needs more than the first version, a version between the one
  -- that it needs and 3.
  pub check_dispatch_passes :
      (check_dispatch client type c s).0 ≡ none
      → let (capability, s') = cached_or_read client 34502 s in
        (is_hybrid type ≡ true)
        × (capability ≡ some 43605)
        × (2 ≤ required_version c
            → (v : ℕ) × ((cached_or_read client 34503 s').0 ≡ some v)
              × (required_version c ≤ v)
              × (v ≤ 3))
  unfolding check_dispatch ensure_dispatch_capable ensure_dispatch_function_version
  check_dispatch_passes h =
      let (capability, s') = cached_or_read client 34502 s in
      let magic : is_magic capability ≡ true = ground (arith, h) in
      (
        ground (arith, h),
        is_magic_value capability magic,
        λ newer. version_verdict_passes c _ (ground (arith, h, magic)),
      )

  fetch_words_kept :
      (register : ℕ) (words : List ℕ) (o : Option State)
      → (fetch_words client register c o s).0 ≡ done words
      → (is_some c.battery_reserve_soc && is_some c.pv_limit_raw) ≡ false
      → (reserve : ℕ) × (limit : ℕ) × (words
          ≡ get_or c.battery_reserve_soc reserve ∷ get_or c.pv_limit_raw limit ∷ [])
        × ((is_some c.battery_reserve_soc && is_some c.pv_limit_raw) ≡ false
            → (s' : State) × (rest : List ℕ) × (o ≡ some s')
              × ((read_register client RegisterType.holding register 2 s').0
                  ≡ some (reserve ∷ limit ∷ rest)))
  unfolding fetch_words
  fetch_words_kept register words none h e = absurd (ground arith)
  fetch_words_kept register words (some s') h e =
      let (reserve, limit, rest, same, read) = words_from_read c _ words h in
      (reserve, limit, same, λ k. (s', rest, refl, read))

  -- When the reserve words are obtained, each is the one of the call, and one that the call leaves
  -- out is the word that was read from the inverter after the queued writes.
  pub dispatch_reserve_words_kept :
      (register : ℕ) (words : List ℕ)
      → (dispatch_reserve_words client flush register c s).0 ≡ done words
      → (reserve : ℕ) × (limit : ℕ) × (words
          ≡ get_or c.battery_reserve_soc reserve ∷ get_or c.pv_limit_raw limit ∷ [])
        × ((is_some c.battery_reserve_soc && is_some c.pv_limit_raw) ≡ false
            → (s' : State) × (rest : List ℕ) × (flush s ≡ some s')
              × ((read_register client RegisterType.holding register 2 s').0
                  ≡ some (reserve ∷ limit ∷ rest)))
  unfolding dispatch_reserve_words
  dispatch_reserve_words_kept register words h =
      elim (Bool-cases (is_some c.battery_reserve_soc && is_some c.pv_limit_raw)) [
        | inl e ↦ (
          get_or c.battery_reserve_soc 0,
          get_or c.pv_limit_raw 0,
          ground (arith, h),
          λ k. absurd (ground arith),
        )
        | inr e ↦ fetch_words_kept register words (flush s) (rw e at h) e
      ]
