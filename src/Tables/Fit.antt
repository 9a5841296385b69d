-- ===== src/Tables/Fit.antt =====
-- sensor_data with sensors/solis_base_sensor.py: the entities of the tables have types that fit their
-- registers, so that each reading is within the range on which the bounds of the entity stand; and the
-- multiplier of a Solis entity that can be set is not 0.
use mathlib.Core.Option.{some-injective}
use hh_modbus.Base.{
  ℕ, zero, suc, ◌≡◌, ◌≢◌, refl, ◌∙◌, arith, Bool, true, false, ◌||◌, not, List, [], ◌∷◌, some, map,
  length, all, All, ltb, ◌<◌, get_elem?,
}
use hh_modbus.Base.Int.{pos}
use hh_modbus.Inverter.{InverterType, InverterConfig, InverterFeature, has_feature}
use hh_modbus.Sensors.{Amount, Entry, BaseSensor, is_zero, int, dec, protocol_raw_range}
use hh_modbus.Sensors.Build.{
  new_sensor, declared_sensor, dynamic_adjustments, hv_adjust, multiplier_adjust, with_multiplier,
  with_max, with_fine_step, is_rhi, is_zonneplan,
}
use hh_modbus.Sensors.Values.{convert_raw_value}
use hh_modbus.Sensors.Range.{type_fits, IsWord, RawWithin, convert_raw_value-RawWithin}
use hh_modbus.Sensors.Number.{NumberState, set_native_value, division_by_zero}
use hh_modbus.Sensors.Setpoint.{set_native_value_divides}
use hh_modbus.Tables.{GroupTable}
use hh_modbus.Tables.Brands.{
  InverterBrand, solis, sunsynk, givenergy, sigenergy, solaredge, skyline, duracell, brand_sensors,
  solis_sensors,
}

-- An element of a list that passes a test passes it.
pub all-get_elem? {ℓ} :
    {A : Type ℓ} (p : A → Bool) (xs : List A) (i : ℕ) (x : A)
    → all p xs ≡ true
    → get_elem? xs i ≡ some x
    → p x ≡ true
all-get_elem? p [] i x h at = cc
all-get_elem? p (y ∷ ys) zero x h at =
    let same : y ≡ x = some-injective y x at in rw⁻¹ same (ground (arith, h))
all-get_elem? p (y ∷ ys) (suc i) x h at = all-get_elem? p ys i x (ground (arith, h)) at

abbrev all_entries : (Entry → Bool) → List GroupTable → Bool
all_entries p gs = all (λ g. all p g.entities) gs

abbrev entry_fits : Entry → Bool
unfolding type_fits
entry_fits e = ltb 13 (length e.more) || type_fits e.data_type (length e.more)

fits : (b : InverterBrand) (t : InverterType) → all_entries entry_fits (brand_sensors b t) ≡ true
unfolding entry_fits brand_sensors type_fits
fits solis InverterType.hybrid = refl
fits solis InverterType.string = refl
fits solis InverterType.grid = refl
fits solis InverterType.energy = refl
fits solis InverterType.waveshare = refl
fits sunsynk t = refl
fits givenergy t = refl
fits sigenergy t = refl
fits solaredge t = refl
fits skyline t = refl
fits duracell t = refl

abbrev settable : Entry → Bool
unfolding is_zero
settable e = not e.editable || not (is_zero e.multiplier)

solis_settable : (t : InverterType) → all_entries settable (solis_sensors t) ≡ true
unfolding settable solis_sensors is_zero
solis_settable InverterType.hybrid = refl
solis_settable InverterType.string = refl
solis_settable InverterType.grid = refl
solis_settable InverterType.energy = refl
solis_settable InverterType.waveshare = refl

-- What the adjustments by model and features leave of a sensor.
record Kept (s t : BaseSensor) : Type 0 where
  data_type : s.data_type ≡ t.data_type
  more : s.more ≡ t.more
  register : s.register ≡ t.register
  divides : is_zero t.multiplier ≡ false → is_zero s.multiplier ≡ false

Kept-trans : (s t u : BaseSensor) → Kept s t → Kept t u → Kept s u
Kept-trans s t u h k = record {
  data_type = h.data_type ∙ k.data_type;
  more = h.more ∙ k.more;
  register = h.register ∙ k.register;
  divides = λ z. h.divides (k.divides z);
}

with_multiplier-Kept :
    (b : Bool) (m : Amount) (s : BaseSensor) → is_zero m ≡ false → Kept (with_multiplier b m s) s
with_multiplier-Kept true m s h = record {
  data_type = refl;
  more = refl;
  register = refl;
  divides = λ _. h;
}
with_multiplier-Kept false m s h = record {
  data_type = refl;
  more = refl;
  register = refl;
  divides = λ k. k;
}

with_max-Kept : (b : Bool) (m : Amount) (s : BaseSensor) → Kept (with_max b m s) s
with_max-Kept true m s = record { data_type = refl; more = refl; register = refl; divides = λ k. k }
with_max-Kept false m s = record {
  data_type = refl;
  more = refl;
  register = refl;
  divides = λ k. k;
}

with_fine_step-Kept : (b : Bool) (s : BaseSensor) → Kept (with_fine_step b s) s
unfolding with_fine_step
with_fine_step-Kept true s = record {
  data_type = refl;
  more = refl;
  register = refl;
  divides = λ k. k;
}
with_fine_step-Kept false s = record {
  data_type = refl;
  more = refl;
  register = refl;
  divides = λ k. k;
}

multiplier_adjust-Kept : (rhi z : Bool) (s : BaseSensor) → Kept (multiplier_adjust rhi z s) s
unfolding multiplier_adjust is_zero
multiplier_adjust-Kept rhi z s =
    Kept-trans _ _ s (with_multiplier-Kept _ (int (pos 1)) _ refl)
      (with_multiplier-Kept _ (dec 1 2) s refl)

hv_adjust-Kept : (hv : Bool) (s : BaseSensor) → Kept (hv_adjust hv s) s
unfolding hv_adjust
hv_adjust-Kept hv s = Kept-trans _ _ s (with_max-Kept _ _ _) (with_fine_step-Kept _ s)

dynamic_adjustments-Kept : (c : InverterConfig) (s : BaseSensor) → Kept (dynamic_adjustments c s) s
unfolding dynamic_adjustments
dynamic_adjustments-Kept c s =
    Kept-trans _ _ s (multiplier_adjust-Kept (is_rhi c) (is_zonneplan c) _)
      (hv_adjust-Kept (has_feature InverterFeature.hv_battery c.features) s)

new_sensor-Kept : (c : InverterConfig) (e : Entry) → Kept (new_sensor c e) (declared_sensor e)
unfolding new_sensor
new_sensor-Kept c e = dynamic_adjustments-Kept c (declared_sensor e)

module _ (t : InverterType) (c : InverterConfig) (i j : ℕ) (g : GroupTable) (e : Entry) where
  -- A sensor of any entity with fewer than 15 registers, of the table of any brand, on any
  -- inverter: the words of its registers are shown as a number whose raw value is in the sensor's
  -- range.
  pub brand_reading-RawWithin :
      (b : InverterBrand) (vs : List ℕ)
      → get_elem? (brand_sensors b t) i ≡ some g
      → get_elem? g.entities j ≡ some e
      → length e.more < 14
      → length vs ≡ suc (length e.more)
      → All IsWord vs
      → RawWithin
          (protocol_raw_range (new_sensor c e).data_type (new_sensor c e).more)
          (convert_raw_value (new_sensor c e) (map (λ v. some v) vs))
  unfolding declared_sensor type_fits
  brand_reading-RawWithin b vs at_g at_e short same words =
      let k = new_sensor-Kept c e in
      let d : (new_sensor c e).data_type ≡ e.data_type = k.data_type in
      let m : (new_sensor c e).more ≡ e.more = k.more in
      let all_fit =
        all-get_elem? (λ h. all entry_fits h.entities) (brand_sensors b t) i g (fits b t) at_g in
      let fit : type_fits e.data_type (length e.more) ≡ true =
        ground (arith, all-get_elem? entry_fits g.entities j e all_fit at_e, short) in
      convert_raw_value-RawWithin (new_sensor c e) vs (rw m short) (rw (d, m) fit) (rw m same) words

  -- No entity of a Solis table that can be set makes `set_native_value` divide by zero, whatever
  -- the inverter and the requested value.
  pub solis_set_native_value_divides :
      (v : Amount) (s : NumberState)
      → get_elem? (solis_sensors t) i ≡ some g
      → get_elem? g.entities j ≡ some e
      → e.editable ≡ true
      → set_native_value (new_sensor c e) v s ≢ division_by_zero
  unfolding declared_sensor is_zero
  solis_set_native_value_divides v s at_g at_e editable =
      let all_set =
        all-get_elem? (λ h. all settable h.entities) (solis_sensors t) i g (solis_settable t)
          at_g in
      let set : settable e ≡ true = all-get_elem? settable g.entities j e all_set at_e in
      let nonzero : is_zero e.multiplier ≡ false = ground (arith, set, editable) in
      set_native_value_divides (new_sensor c e) v s ((new_sensor-Kept c e).divides nonzero)
