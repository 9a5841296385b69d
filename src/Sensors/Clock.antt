-- ===== src/Sensors/Clock.antt =====
-- helpers.py: `clock_drift_test`, which sets an inverter's clock after it was wrong for a while, and
-- `decode_inverter_model`. Python's `datetime` is not modelled: `datetime` is a parameter, the time
-- stamp of a date and time of day in microseconds, none where the constructor raises ValueError.
use Prim.Native.String.{String}
use hh_modbus.Base.{
  ℕ, ◌+◌, ◌-◌, ◌/◌, ◌%◌, ◌*◌, ◌^◌, Bool, true, false, List, [], ◌∷◌, ◌++◌, Option, none, some,
  if◌then◌else◌, ltb, get_or, ◌==◌,
}
use hh_modbus.Cache.{Text, UnitId, Cache, decimal, lookup, insert}

-- The six numbers of a date and time; `year` as the caller gives it.
pub record DateTime : Type 0 where
  pub year : ℕ
  pub month : ℕ
  pub day : ℕ
  pub hour : ℕ
  pub minute : ℕ
  pub second : ℕ

-- `dt_utils.now()`: its fields and its time stamp.
pub record Now : Type 0 where
  pub fields : DateTime
  pub stamp : ℕ

-- `register_cache_key(controller, "drift")`
unfoldable pub drift_key : UnitId → Text
unfolding decimal
drift_key u =
    (u.connection_id ++ b'|' ∷ decimal u.device_id) ++ b'|' ∷ b'd' ∷ b'r' ∷ b'i' ∷ b'f' ∷ b't' ∷ []

-- `total_drift > 60`: an impossible date counts as an infinite drift.
unfoldable pub drifted : (DateTime → Option ℕ) → Now → DateTime → Bool
drifted datetime now device = elim (datetime (record device { year = 2000 + device.year })) [
  | none ↦ true
  | some t ↦ ltb (60 * 10 ^ 6) (now.stamp - t + (t - now.stamp))
]

-- The registers that are written from 43000 on.
abbrev pub clock_words : DateTime → List ℕ
clock_words t = (t.year % 100) ∷ t.month ∷ t.day ∷ t.hour ∷ t.minute ∷ t.second ∷ []

-- The counters, the request that is put on the write queue, and `clock_adjusted`.
pub record DriftTest : Type 0 where
  pub counters : Cache
  pub request : Option (ℕ × List ℕ)
  pub clock_adjusted : Bool

-- What a test does with the counter it found.
unfoldable pub count_drift : Bool → Bool → DateTime → Text → ℕ → Cache → DriftTest
count_drift false connected now key count m = record {
  counters = insert key 0 m;
  request = none;
  clock_adjusted = false;
}
count_drift true connected now key count m =
    let waiting : DriftTest = record { counters = m; request = none; clock_adjusted = false } in
    let adjusted : DriftTest = record {
      counters = m;
      request = some (43000, clock_words now);
      clock_adjusted = true;
    } in
    let counted : DriftTest = record {
      counters = insert key (count + 1) m;
      request = none;
      clock_adjusted = false;
    } in
    if ltb 5 count then (if connected then adjusted else waiting) else counted

unfoldable pub clock_drift_test :
    (DateTime → Option ℕ) → Now → Bool → UnitId → DateTime → Cache → DriftTest
unfolding drift_key drifted count_drift
clock_drift_test datetime now connected u device m =
    let key = drift_key u in
    count_drift (drifted datetime now device) connected now.fields key (get_or (lookup key m) 0) m

-- One test in a history of tests of several inverters.
pub record Test : Type 0 where
  pub unit : UnitId
  pub now : Now
  pub connected : Bool
  pub device : DateTime

unfoldable pub run_tests : (DateTime → Option ℕ) → List Test → Cache → Cache
unfolding clock_drift_test
run_tests datetime [] m = m
run_tests datetime (t ∷ ts) m =
    run_tests datetime ts (clock_drift_test datetime t.now t.connected t.unit t.device m).counters

-- `inverter_models`
unfoldable pub inverter_model : ℕ → String
inverter_model n =
    if n == 0x00
    then "No definition"
    else if n == 0x10
    then "1-Phase Grid-Tied Inverter (0.7-8K1P / 7-10K1P)"
    else if n == 0x20
    then "3-Phase Grid-Tied Inverter (3-20K 3P)"
    else if n == 0x21
    then "3-Phase Grid-Tied Inverter (25-50K / 50-70K / 80-110K / 90-136K / 125K / 250K)"
    else if n == 0x30
    then "1-Phase LV Hybrid Inverter"
    else if n == 0x31
    then "1-Phase LV AC Coupled Energy Storage Inverter"
    else if n == 0x32
    then "5-15kWh All-in-One Hybrid"
    else if n == 0x40
    then "1-Phase HV Hybrid Inverter"
    else if n == 0x50
    then "3-Phase LV Hybrid Inverter"
    else if n == 0x60
    then "3-Phase HV Hybrid Inverter (5G)"
    else if n == 0x70
    then "S6 3-Phase HV Hybrid (5-10kW)"
    else if n == 0x71
    then "S6 3-Phase HV Hybrid (12-20kW)"
    else if n == 0x72
    then "S6 3-Phase LV Hybrid (10-15kW)"
    else if n == 0x73
    then "S6 3-Phase HV Hybrid (50kW)"
    else if n == 0x80
    then "1-Phase HV Hybrid Inverter (S6)"
    else if n == 0x90
    then "1-Phase LV Hybrid Inverter (S6)"
    else if n == 0x91
    then "S6 1-Phase LV AC Coupled Hybrid"
    else if n == 0xA0
    then "OGI Off-Grid Inverter"
    else if n == 0xA1
    then "S6 1-Phase LV Off-Grid Hybrid"
    else "Unknown Model"

-- The protocol version and the model.
unfoldable pub decode_inverter_model : ℕ → ℕ × String
unfolding inverter_model
decode_inverter_model hex_value = (hex_value / 2 ^ 8 % 2 ^ 8, inverter_model (hex_value % 2 ^ 8))
