-- ===== src/Retrieval/Spike.antt =====
-- data_retrieval.py: `spike_filtering` over a series of readings of one register, each output
-- going to the cache as the value that the next reading is compared with.
use hh_modbus.Base.{
  ℕ, ◌+◌, ◌<◌, ◌≡◌, refl, arith, true, false, List, [], ◌∷◌, Option, some, if◌then◌else◌, get_or,
  ltb, ◌&&◌, ap,
}
use hh_modbus.Retrieval.{Counters, count_of, set_count, implausible, is_noisy, spike_filtering}

count_of-set_count : (r n : ℕ) (cs : Counters) → count_of r (set_count r n cs) ≡ n
count_of-set_count r n [] = ground arith
count_of-set_count r n ((q, m) ∷ cs) = ground (arith, count_of-set_count r n cs)

-- A register that is not filtered is published as it was read.
pub spike_quiet :
    (w : ℕ) (cached : Option ℕ) (r v : ℕ) (cs : Counters)
    → is_noisy r ≡ false
    → (spike_filtering w cached r v cs).0 ≡ v
unfolding spike_filtering
spike_quiet w cached r v cs h = ground arith

-- One reading of a filtered register.
pub spike_noisy :
    (w : ℕ) (cached : Option ℕ) (r v : ℕ) (cs : Counters)
    → is_noisy r ≡ true
    → let (out, cs') = spike_filtering w cached r v cs in
      let hold = implausible w r v && ltb (count_of r cs + 1) 3 in
      (out ≡ (if hold then get_or cached v else v))
      × (count_of r cs' ≡ (if hold then count_of r cs + 1 else 0))
unfolding spike_filtering
spike_noisy w cached r v cs h =
    let entered = set_count r (count_of r cs) cs in
    rw (h, count_of-set_count r (count_of r cs) cs)
      (ground
        (arith, count_of-set_count r 0 entered, count_of-set_count r (count_of r cs + 1) entered))

pub readings : ℕ → ℕ → Option ℕ → Counters → List ℕ → List ℕ
readings w r cached cs [] = []
readings w r cached cs (v ∷ vs) =
    let (out, cs') = spike_filtering w cached r v cs in out ∷ readings w r (some out) cs' vs

-- Each reading, or the last plausible one before it.
abbrev pub last_plausible : ℕ → ℕ → ℕ → List ℕ → List ℕ
last_plausible w r last [] = []
last_plausible w r last (v ∷ vs) =
    let out = if implausible w r v then last else v in out ∷ last_plausible w r out vs

-- No three implausible readings in a row, `n` of them having gone before.
abbrev pub IsCalm : ℕ → ℕ → ℕ → List ℕ → Type 0
IsCalm w r n [] = Unit
IsCalm w r n (v ∷ vs) =
    (implausible w r v ≡ true → n + 1 < 3) × IsCalm w r (if implausible w r v then n + 1 else 0) vs

-- A reading of a calm series.
spike_calm :
    (w r last v : ℕ) (cs : Counters)
    → is_noisy r ≡ true
    → (implausible w r v ≡ true → count_of r cs + 1 < 3)
    → let (out, cs') = spike_filtering w (some last) r v cs in
      (out ≡ (if implausible w r v then last else v))
      × (count_of r cs' ≡ (if implausible w r v then count_of r cs + 1 else 0))
spike_calm w r last v cs noisy calm = ground (arith, spike_noisy w (some last) r v cs noisy)

-- For a register that is filtered, while no three readings in a row are implausible,
-- `spike_filtering` publishes each plausible reading at once and the last plausible one in place of
-- each spike.
pub spikes_hidden :
    (w r last : ℕ) (cs : Counters) (vs : List ℕ)
    → is_noisy r ≡ true
    → IsCalm w r (count_of r cs) vs
    → readings w r (some last) cs vs ≡ last_plausible w r last vs
unfolding readings
spikes_hidden w r last cs [] noisy calm = refl
spikes_hidden w r last cs (v ∷ vs) noisy calm =
    let (shown, counted) = spike_calm w r last v cs noisy calm.0 in
    let out = if implausible w r v then last else v in
    rw shown (
      ap (λ l. out ∷ l)
        (spikes_hidden w r out (spike_filtering w (some last) r v cs).1 vs noisy
          (rw (← counted) at calm.1)))

-- Of three implausible readings of a filtered register in a row, when none is counted yet, the
-- third is published, and until then the last value.
pub spike_accepted :
    (w r last a b c : ℕ) (cs : Counters)
    → is_noisy r ≡ true
    → count_of r cs ≡ 0
    → implausible w r a ≡ true
    → implausible w r b ≡ true
    → implausible w r c ≡ true
    → readings w r (some last) cs (a ∷ b ∷ c ∷ []) ≡ last ∷ last ∷ c ∷ []
unfolding readings
spike_accepted w r last a b c cs noisy e ha hb hc =
    let s₁ = spike_noisy w (some last) r a cs noisy in
    let cs₁ = (spike_filtering w (some last) r a cs).1 in
    let s₂ = spike_noisy w (some last) r b cs₁ noisy in
    let cs₂ = (spike_filtering w (some last) r b cs₁).1 in
    let s₃ = spike_noisy w (some last) r c cs₂ noisy in ground (arith, s₁, s₂, s₃)
