-- ===== src/Inverter/Features.antt =====
-- data/solis_config.py: a model's features under a user's options.
use Prim.Native.String.{String}
use text.Mathlib.Text.{◌==◌ as str_eq}
use hh_modbus.Base.{
  ◌≡◌, refl, sym, arith, Bool, true, false, ◌||◌, ◌&&◌, List, [], ◌∷◌, ◌++◌, some, ◌==◌,
}
use hh_modbus.Inverter.{
  InverterFeature, InverterType, InverterOptions, InverterConfig, has_feature, rebuild_features,
  clone_with_options, is_waveshare, append_if, feature_index,
}

or-false : (a : Bool) → (a || false) ≡ a
or-false a = ground arith

and-true : (a : Bool) → (a && true) ≡ a
and-true a = ground arith

and-false : (a : Bool) → (a && false) ≡ false
and-false a = ground arith

or_assoc : (a b c : Bool) → ((a || b) || c) ≡ (a || (b || c))
or_assoc a b c = ground arith

has_feature-append :
    (f : InverterFeature) (xs ys : List InverterFeature)
    → has_feature f (xs ++ ys) ≡ (has_feature f xs || has_feature f ys)
has_feature-append f [] ys = refl
has_feature-append f (x ∷ xs) ys =
    rw (has_feature-append f xs ys)
      (sym (or_assoc (feature_index f == feature_index x) (has_feature f xs) (has_feature f ys)))

has_feature-append_if :
    (f g : InverterFeature) (test : Bool) (fs : List InverterFeature)
    → has_feature f (append_if test g fs)
      ≡ (has_feature f fs || (feature_index f == feature_index g && test))
has_feature-append_if f g true fs = rw (has_feature-append f fs (g ∷ []), or-false, and-true) refl
has_feature-append_if f g false fs = rw (and-false, or-false) refl

-- What the options, the inverter's type and the connection add to the model's own features.
abbrev pub granted : InverterFeature → InverterOptions → InverterType → String → Bool
granted InverterFeature.bms o t c = true
granted InverterFeature.pv o t c = o.pv
granted InverterFeature.generator o t c = o.generator
granted InverterFeature.battery o t c = o.battery
granted InverterFeature.hv_battery o t c = o.hv_battery
granted InverterFeature.v2 o t c = o.v2
granted InverterFeature.ac_coupling o t c = o.ac_coupling
granted InverterFeature.parallel o t c = o.parallel
granted InverterFeature.dual_meter o t c = o.dual_meter
granted InverterFeature.epm o t c = o.epm
granted InverterFeature.tcp o t c = is_waveshare t || str_eq c "WAVESHARE"
granted _ o t c = false

ruleset feature_laws = (has_feature-append, has_feature-append_if, or-false)

-- An inverter has a feature exactly when its model has it or the options, its type or its
-- connection grant it.
pub has_feature-rebuild_features :
    (f : InverterFeature) (fs : List InverterFeature) (o : InverterOptions) (t : InverterType)
    (c : String)
    → has_feature f (rebuild_features fs o t c) ≡ (has_feature f fs || granted f o t c)
unfolding rebuild_features
has_feature-rebuild_features InverterFeature.pv fs o t c = simp feature_laws
has_feature-rebuild_features _ fs o t c = simp feature_laws

-- Options replace earlier options: after two clonings only the last one counts, and the model, its
-- rating and its own features are those of the template.
pub clone_with_options-clone_with_options :
    (c d : InverterConfig) (o p : InverterOptions) (s t : String)
    → clone_with_options c o s ≡ some d
    → clone_with_options d p t ≡ clone_with_options c p t
unfolding clone_with_options
clone_with_options-clone_with_options c d o p s t h = ground arith
