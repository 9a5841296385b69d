-- ===== src/Tests/Sensors.antt =====
-- Sensors, setpoints and the clock test.
use hh_modbus.Base.{
  ℕ, ◌+◌, ◌*◌, ◌^◌, ◌<◌, ◌≡◌, refl, arith, true, false, ◌&&◌, List, [], ◌∷◌, Option, none, some,
  map, leb, ltb, if◌then◌else◌,
}
use hh_modbus.Base.Int.{pos, negsuc}
use hh_modbus.Inverter.{DataType}
use hh_modbus.Cache.{UnitId}
use hh_modbus.Words.{split_s32, join_words, low_word, signed_word}
use hh_modbus.Sensors.{mul_ℤ, is_zero, is_one, BaseSensor, dec, times, entry, protocol_raw_range}
use hh_modbus.Sensors.Build.{declared_sensor}
use hh_modbus.Sensors.Values.{
  single, absent, convert_raw_value, convert_present, combine, apply_multiplier,
}
use hh_modbus.Sensors.Range.{type_fits, RawWithin, convert_raw_value-RawWithin}
use hh_modbus.Sensors.Entity.{
  Update, SensorState, is_correct_controller, is_waiting, handle_updates,
}
use hh_modbus.Sensors.Received.{snapshot, handle_updates-snapshot}
use hh_modbus.Sensors.Number.{
  read, NumberState, written, shows_value, same_amount, set_native_value, handle_number_update,
}
use hh_modbus.Sensors.Setpoint.{answer, handle_number_update-set_native_value}
use hh_modbus.Sensors.Clock.{DateTime, Test, run_tests, clock_drift_test, clock_words}
use hh_modbus.Sensors.Streak.{is_wrong, streak, clock_drift_test-streak}
use hh_modbus.Tests.Data.{unit, other_unit}
use hh_modbus.Tests.Data.{owner, unset}

abbrev battery_power : BaseSensor
unfolding declared_sensor
battery_power =
    declared_sensor
      (record (entry "battery_power" 33149 (33150 ∷ [])) { data_type = some DataType.s32 })

convert_raw_value-RawWithin_example :
    RawWithin
      (protocol_raw_range battery_power.data_type battery_power.more)
      (convert_raw_value battery_power (map (λ v. some v) (65535 ∷ 64536 ∷ [])))
unfolding declared_sensor type_fits
convert_raw_value-RawWithin_example =
    convert_raw_value-RawWithin battery_power (65535 ∷ 64536 ∷ []) (omega arith) refl refl
      (omega arith, (omega arith, tt))

abbrev update : ℕ → ℕ → ℕ × Update
update r v = (9, record { register = r; controller = "10.0.0.5"; slave = 1; value = v })

abbrev words : ℕ → ℕ
words r = if ltb r 33150 then 65535 else 64536

abbrev empty_state : SensorState
empty_state = record { received = []; native_value = absent; available = false; last_update = 0 }

-- The low word first, and the update of another register between the two.
abbrev updates : List (ℕ × Update)
updates = update 33150 64536 ∷ update 33135 1 ∷ update 33149 65535 ∷ []

handle_updates-snapshot_example :
    (handle_updates owner battery_power (λ _. none) updates empty_state).native_value
    ≡ snapshot owner battery_power (λ _. none) words
unfolding declared_sensor is_correct_controller is_waiting convert_raw_value convert_present combine
    split_s32 join_words low_word signed_word apply_multiplier is_zero is_one
handle_updates-snapshot_example =
    handle_updates-snapshot owner battery_power (λ _. none) words updates empty_state refl
      (refl, (refl, tt)) (λ _. (refl, refl), (λ other. absurd (cc), (λ _. (refl, refl), tt))) refl

abbrev power_setpoint : BaseSensor
unfolding declared_sensor
power_setpoint = declared_sensor (record (entry "power" 43074 []) {
  multiplier = dec 10 0;
  data_type = some DataType.s16;
  write_register = some 43075;
})

-- -500 W, in units of 10 W, for an entity that writes another register than it reads.
handle_number_update-set_native_value_example :
    let v = times (negsuc 49) (dec 10 0) in
    (w : ℕ) × (t : NumberState) × (set_native_value power_setpoint v unset
      ≡ written 43075 (pos w) t)
    × (w < 2 ^ 16)
    × (single (some DataType.s16) w ≡ negsuc 49)
    × ((handle_number_update owner power_setpoint (answer owner 43074 w) t).native_value
        ≡ read (apply_multiplier (dec 10 0) (negsuc 49)))
unfolding declared_sensor shows_value same_amount times mul_ℤ
handle_number_update-set_native_value_example =
    handle_number_update-set_native_value owner power_setpoint unset (negsuc 49) 10 0 refl refl refl
      (omega arith) (ground arith) refl

-- Seconds of a day, in a month of 31 days.
abbrev stamp : DateTime → Option ℕ
stamp d = if leb d.day 31 then some ((d.day * 86400 + d.second) * 10 ^ 6) else none

abbrev noon : DateTime
noon = record { year = 2026; month = 5; day = 2; hour = 12; minute = 0; second = 0 }

abbrev wrong_test : UnitId → Test
wrong_test u = record {
  unit = u;
  now = record { fields = noon; stamp = 2 * 86400 * 10 ^ 6 };
  connected = true;
  device = record { year = 26; month = 0; day = 0; hour = 0; minute = 0; second = 0 };
}

-- Six tests of one inverter with a test of another among them.
abbrev history : List Test
history =
    wrong_test unit
    ∷ wrong_test unit
    ∷ wrong_test other_unit
    ∷ wrong_test unit
    ∷ wrong_test unit
    ∷ wrong_test unit
    ∷ wrong_test unit
    ∷ []

clock_drift_test-streak_example :
    let t = wrong_test unit in
    let out =
      clock_drift_test stamp t.now t.connected t.unit t.device (run_tests stamp history []) in
    let set = is_wrong stamp t && leb 6 (streak stamp t.unit 0 history) && t.connected in
    (out.clock_adjusted ≡ set)
    × (out.request ≡ (if set then some (43000, clock_words t.now.fields) else none))
clock_drift_test-streak_example = clock_drift_test-streak stamp history (wrong_test unit)
