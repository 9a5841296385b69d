-- ===== src/Sensors/Flows.antt =====
-- sensors/solis_derived_sensor.py: the three sensors of the grid's power, and the three of the
-- battery's, agree with each other.
use hh_modbus.Base.{
  ℕ, ◌<◌, ◌≡◌, refl, arith, false, ◌⊎◌, inl, inr, List, [], ◌∷◌, none, leb, length, suc,
}
use hh_modbus.Base.Int.{ℤ, pos, negsuc, sub_ℕ}
use hh_modbus.Words.{split_s32}
use hh_modbus.Sensors.{BaseSensor, is_zero, int}
use hh_modbus.Sensors.Values.{whole, convert_raw_value, convert_present, combine, apply_multiplier}
use hh_modbus.Sensors.Derived.{convert_two, negated, at_least_zero, grid_power_net, grid_power}

-- A sensor of two to fourteen registers without a declared type, whose multiplier is 0.
pub record IsWholePair (b : BaseSensor) : Type 0 where
  pub second : ℕ
  pub others : List ℕ
  pub more : b.more ≡ second ∷ others
  pub short : length others < 13
  pub untyped : b.data_type ≡ none
  pub unscaled : b.multiplier ≡ int (pos 0)

convert_pair_whole :
    (r : ℕ) (rs : List ℕ) (v0 v1 : ℕ)
    → length rs < 13
    → convert_present none (int (pos 0)) (r ∷ rs) (v0 ∷ v1 ∷ []) ≡ whole (split_s32 v0 v1)
unfolding convert_present combine apply_multiplier is_zero
convert_pair_whole r rs v0 v1 h =
    let few : leb 13 (length rs) ≡ false = ground (arith, h) in rw few refl

meter : (b : BaseSensor) (v0 v1 : ℕ) → IsWholePair b → convert_two b v0 v1 ≡ whole (split_s32 v0 v1)
unfolding convert_raw_value convert_two convert_present
meter b v0 v1 h =
    rw (h.more, h.untyped, h.unscaled) (convert_pair_whole h.second h.others v0 v1 h.short)

-- The two directions of a power n, and the net, which counts imports as positive.
directions :
    (n : ℤ)
    → (out : ℕ) × (into : ℕ) × (at_least_zero (whole n) ≡ whole (pos out))
      × (at_least_zero (negated (whole n)) ≡ whole (pos into))
      × (negated (whole n) ≡ whole (sub_ℕ into out))
      × ((out ≡ 0) ⊎ (into ≡ 0))
unfolding at_least_zero negated
directions (pos n) = (n, 0, ground arith, ground arith, refl, inr refl)
directions (negsuc n) = (0, suc n, ground arith, ground arith, refl, inl refl)

-- For the same two words of the meter, the export and the import sensor show powers of which one is
-- 0, and the net sensor shows the import less the export.
pub grid_flows :
    (e i n : BaseSensor) (v0 v1 : ℕ)
    → IsWholePair e
    → IsWholePair i
    → IsWholePair n
    → (out : ℕ) × (into : ℕ) × (grid_power e 0 v0 v1 ≡ whole (pos out))
      × (grid_power i 1 v0 v1 ≡ whole (pos into))
      × (grid_power_net (convert_two n v0 v1) ≡ whole (sub_ℕ into out))
      × ((out ≡ 0) ⊎ (into ≡ 0))
unfolding grid_power grid_power_net
grid_flows e i n v0 v1 he hi hn =
    rw (meter e v0 v1 he, meter i v0 v1 hi, meter n v0 v1 hn) (directions (split_s32 v0 v1))
