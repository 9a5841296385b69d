-- ===== src/Inverter.antt =====
-- data/enums.py and data/solis_config.py: the inverter models and the features that a user's options
-- give them. A feature list is a Python list: it keeps order and repetitions.
pub mod Features
use Prim.Native.String.{String}
use text.Mathlib.Text.{◌==◌ as str_eq}
use hh_modbus.Base.{
  ℕ, max, Bool, true, false, ◌||◌, List, [], ◌∷◌, ◌++◌, Option, none, some, if◌then◌else◌, get_or,
  ◌==◌,
}

pub data InverterType : Type 0 where
  hybrid string grid energy waveshare : InverterType

pub data InverterFeature : Type 0 where
  pv bms smart_port battery grid generator v2 tcp : InverterFeature
  hv_battery lv_battery zonneplan ac_coupling parallel aux dual_meter epm : InverterFeature

pub data PollSpeed : Type 0 where
  once startup fast normal slow : PollSpeed

pub data DataType : Type 0 where
  u16 s16 u32 s32 u32_le s32_le string : DataType

-- Equality of features, by their place in the enumeration.
abbrev pub feature_index : InverterFeature → ℕ
feature_index InverterFeature.pv = 0
feature_index InverterFeature.bms = 1
feature_index InverterFeature.smart_port = 2
feature_index InverterFeature.battery = 3
feature_index InverterFeature.grid = 4
feature_index InverterFeature.generator = 5
feature_index InverterFeature.v2 = 6
feature_index InverterFeature.tcp = 7
feature_index InverterFeature.hv_battery = 8
feature_index InverterFeature.lv_battery = 9
feature_index InverterFeature.zonneplan = 10
feature_index InverterFeature.ac_coupling = 11
feature_index InverterFeature.parallel = 12
feature_index InverterFeature.aux = 13
feature_index InverterFeature.dual_meter = 14
feature_index InverterFeature.epm = 15

-- `feature in features`
abbrev pub has_feature : InverterFeature → List InverterFeature → Bool
has_feature f [] = false
has_feature f (g ∷ gs) = feature_index f == feature_index g || has_feature f gs

pub record InverterOptions : Type 0 where
  pub pv : Bool
  pub battery : Bool
  pub hv_battery : Bool
  pub generator : Bool
  pub v2 : Bool
  pub ac_coupling : Bool
  pub parallel : Bool
  pub dual_meter : Bool
  pub epm : Bool

-- The defaults of `InverterOptions.__init__`.
abbrev pub default_options : InverterOptions
default_options = record {
  pv = true;
  battery = true;
  hv_battery = false;
  generator = false;
  v2 = true;
  ac_coupling = false;
  parallel = false;
  dual_meter = false;
  epm = true;
}

-- `intrinsic_features` is `_intrinsic_features`.
pub record InverterConfig : Type 0 where
  pub model : String
  pub wattage : List ℕ
  pub phases : ℕ
  pub type : InverterType
  pub options : InverterOptions
  pub connection : String
  pub intrinsic_features : List InverterFeature
  pub wattage_chosen : ℕ
  pub features : List InverterFeature

-- `if test: feats.append(feature)`
abbrev append_if : Bool → InverterFeature → List InverterFeature → List InverterFeature
append_if test f fs = if test then fs ++ f ∷ [] else fs

abbrev pub is_waveshare : InverterType → Bool
is_waveshare InverterType.waveshare = true
is_waveshare _ = false

unfoldable pub rebuild_features :
    List InverterFeature → InverterOptions → InverterType → String → List InverterFeature
rebuild_features intrinsic opts type connection =
    let feats = intrinsic ++ InverterFeature.bms ∷ [] in
    let feats = append_if opts.pv InverterFeature.pv feats in
    let feats = append_if opts.generator InverterFeature.generator feats in
    let feats = append_if opts.battery InverterFeature.battery feats in
    let feats = append_if opts.hv_battery InverterFeature.hv_battery feats in
    let feats = append_if opts.v2 InverterFeature.v2 feats in
    let feats = append_if opts.ac_coupling InverterFeature.ac_coupling feats in
    let feats = append_if opts.parallel InverterFeature.parallel feats in
    let feats = append_if opts.dual_meter InverterFeature.dual_meter feats in
    let feats = append_if opts.epm InverterFeature.epm feats in
    append_if (is_waveshare type || str_eq connection "WAVESHARE") InverterFeature.tcp feats

-- `max(wattage)`, which raises on an empty list.
abbrev pub max_of : List ℕ → Option ℕ
max_of [] = none
max_of (w ∷ []) = some w
max_of (w ∷ v ∷ ws) = elim (max_of (v ∷ ws)) [ none ↦ none | some m ↦ some (max w m) ]

-- `InverterConfig.__init__`; `none` is the ValueError of `max` on an empty list.
unfoldable pub new_config :
    String
    → List ℕ
    → ℕ
    → InverterType
    → InverterOptions
    → String
    → List InverterFeature
    → Option InverterConfig
unfolding rebuild_features
new_config model wattage phases type options connection features = elim (max_of wattage) [
  | none ↦ none
  | some chosen ↦ some (record {
    model = model;
    wattage = wattage;
    phases = phases;
    type = type;
    options = options;
    connection = connection;
    intrinsic_features = features;
    wattage_chosen = chosen;
    features = rebuild_features features options type connection;
  })
]

unfoldable pub probe_register : InverterConfig → ℕ
probe_register c = elim c.type [ InverterType.grid ↦ 3041 | InverterType.string ↦ 3041 | _ ↦ 35000 ]

unfoldable pub clone_with_options :
    InverterConfig → InverterOptions → String → Option InverterConfig
unfolding new_config
clone_with_options c options connection =
    new_config c.model c.wattage c.phases c.type options connection c.intrinsic_features

-- The keys of a config entry that `inverter_options_from_config` reads; `none` is a missing key.
pub record OptionKeys : Type 0 where
  pub has_v2 : Option Bool
  pub has_pv : Option Bool
  pub has_ac_coupling : Option Bool
  pub has_parallel : Option Bool
  pub has_generator : Option Bool
  pub has_battery : Option Bool
  pub has_hv_battery : Option Bool
  pub has_dual_meter : Option Bool
  pub has_epm : Option Bool

abbrev pv_by_default : InverterType → Bool
pv_by_default InverterType.hybrid = true
pv_by_default InverterType.grid = true
pv_by_default InverterType.waveshare = true
pv_by_default _ = false

unfoldable pub inverter_options_from_config : OptionKeys → InverterConfig → InverterOptions
inverter_options_from_config config template = record {
  pv = get_or config.has_pv (pv_by_default template.type);
  battery = get_or config.has_battery true;
  hv_battery = get_or config.has_hv_battery false;
  generator = get_or config.has_generator true;
  v2 = get_or config.has_v2 true;
  ac_coupling = get_or config.has_ac_coupling false;
  parallel = get_or config.has_parallel false;
  dual_meter = get_or config.has_dual_meter false;
  epm = get_or config.has_epm true;
}
