-- ===== src/Sensors/Setpoint.antt =====
-- sensors/solis_number_sensor.py: what a user sets is what the inverter's answer carries.
use Prim.Native.Nat.{Ordering, compare}
use Prim.Native.Char.{code}
use Prim.Native.String.{String, ◌∷◌ as ◌⋅◌, then as then_, compare as compare_text}
use Prim.Native.String.compare.{nil-nil, cons-cons}
use text.Mathlib.Text.{◌==◌ as str_eq, is_eq}
use hh_modbus.Base.{get_or}
use hh_modbus.Base.{
  ℕ, ◌^◌, ◌<◌, ◌≡◌, refl, ap, ◌∙◌, arith, true, false, [], ◌∷◌, Option, none, some, ◌==◌, ◌||◌, inl,
  inr, Bool-cases, Option-cases, ◌≢◌,
}
use hh_modbus.Base.Int.{ℤ, pos, negsuc, pos_part, ◌≤ℤ◌}
use hh_modbus.Inverter.{DataType}
use hh_modbus.Words.{low_word}
use hh_modbus.Sensors.{Amount, BaseSensor, dec, times, is_zero, is_one}
use hh_modbus.Sensors.Entity.{Owner, Update, is_correct_controller}
use hh_modbus.Sensors.Values.{convert_raw_value, apply_multiplier, convert_present, single}
use hh_modbus.Sensors.Exact.{round_div_exact}
use hh_modbus.Sensors.Number.{
  set_on, set_written, show_number, round_div, shows_value, read, encode, clamp_s16, NumberState,
  division_by_zero, requested, written, write_register_of, set_native_value, handle_number_update,
}

-- The raw numbers that one register of a type can carry.
abbrev pub Carried : Option DataType → ℤ → Type 0
Carried (some DataType.s16) n = (negsuc 32767 ≤ℤ n) × (n ≤ℤ pos 32767)
Carried _ n = (pos 0 ≤ℤ n) × (n ≤ℤ pos 65535)

-- Whatever is requested, a signed register gets a word that reads as the nearest signed 16-bit number.
pub single-encode-s16 :
    (n : ℤ)
    → (w : ℕ) × (encode (some DataType.s16) n ≡ pos w)
      × (w < 2 ^ 16)
      × (single (some DataType.s16) w ≡ clamp_s16 n)
unfolding encode clamp_s16 low_word single
single-encode-s16 n = (low_word (clamp_s16 n), refl, ground arith, ground arith)

pub single-encode :
    (t : Option DataType) (n : ℤ)
    → Carried t n
    → (w : ℕ) × (encode t n ≡ pos w) × (w < 2 ^ 16) × (single t w ≡ n)
unfolding encode clamp_s16 low_word single
single-encode none n h = (pos_part n, ground arith, ground arith, ground arith)
single-encode (some DataType.u16) n h = (pos_part n, ground arith, ground arith, ground arith)
single-encode (some DataType.s16) n h = (low_word (clamp_s16 n), refl, ground arith, ground arith)
single-encode (some DataType.u32) n h = (pos_part n, ground arith, ground arith, ground arith)
single-encode (some DataType.s32) n h = (pos_part n, ground arith, ground arith, ground arith)
single-encode (some DataType.u32_le) n h = (pos_part n, ground arith, ground arith, ground arith)
single-encode (some DataType.s32_le) n h = (pos_part n, ground arith, ground arith, ground arith)
single-encode (some DataType.string) n h = (pos_part n, ground arith, ground arith, ground arith)

then_same : (n : ℕ) (x : Ordering) → is_eq (then_ (compare n n) x) ≡ is_eq x
then_same n x = ground arith

str_eq_self : (s : String) → str_eq s s ≡ true
str_eq_self String.[] = ap is_eq nil-nil
str_eq_self (c ⋅ s) =
    ap is_eq (cons-cons c c s s) ∙ then_same (code c) (compare_text s s) ∙ str_eq_self s

-- The inverter's answer for a register.
abbrev pub answer : Owner → ℕ → ℕ → Update
answer o r w = record { register = r; controller = o.host; slave = o.device_id; value = w }

answer_correct : (o : Owner) → is_correct_controller o o.host o.device_id ≡ true
unfolding is_correct_controller
answer_correct o = rw (str_eq_self o.host) (ground arith)

set_exact :
    (b : BaseSensor) (s : NumberState) (k : ℤ) (c e : ℕ)
    → b.more ≡ []
    → b.multiplier ≡ dec c e
    → 0 < c
    → shows_value s.native_value (times k (dec c e)) ≡ false
    → set_native_value b (times k (dec c e)) s
      ≡ written
          (get_or b.write_register b.register)
          (encode b.data_type k)
          (record s { native_value = requested (times k (dec c e)) })
unfolding set_native_value write_register_of set_on set_written
set_exact b s k c e lone em h new = elim (Option-cases b.write_register) [
  | inl w ↦ rw (new, w, lone, em, round_div_exact k c e h) refl
  | inr (r, w) ↦ rw (new, w, em, round_div_exact k c e h) refl
]

shown :
    (m : Amount) (n : ℤ) (s : NumberState)
    → (show_number (apply_multiplier m n) s).native_value ≡ read (apply_multiplier m n)
unfolding show_number apply_multiplier
shown m n s = elim (Bool-cases (is_zero m || is_one m)) [ inl e ↦ rw e refl | inr e ↦ rw e refl ]

handled :
    (o : Owner) (b : BaseSensor) (s : NumberState) (w : ℕ)
    → b.more ≡ []
    → b.enabled ≡ true
    → let r = apply_multiplier b.multiplier (single b.data_type w) in
      (handle_number_update o b (answer o b.register w) s).native_value ≡ read r
unfolding handle_number_update convert_raw_value convert_present
handled o b s w lone on =
    let self : (b.register == b.register) ≡ true = ground arith in
    let id : (o.device_id == o.device_id) ≡ true = ground arith in
    rw (str_eq_self o.host, on, self, id, lone)
      (shown b.multiplier (single b.data_type w)
        (record { received = (b.register, w) ∷ s.received; native_value = s.native_value }))

-- An enabled number entity that reads one register takes a new value that is, in exact arithmetic,
-- k times its positive multiplier, where the register's type can carry k. The write it puts on the
-- queue, for its write register or else the register it reads, is a 16-bit word that decodes to k.
-- Once the inverter reports this word for the register that the entity reads, it shows the reading
-- of k.
pub handle_number_update-set_native_value :
    (o : Owner) (b : BaseSensor) (s : NumberState) (k : ℤ) (c e : ℕ)
    → b.more ≡ []
    → b.enabled ≡ true
    → b.multiplier ≡ dec c e
    → 0 < c
    → Carried b.data_type k
    → shows_value s.native_value (times k (dec c e)) ≡ false
    → let v = times k (dec c e) in
      (w : ℕ) × (t : NumberState) × (set_native_value b v s
        ≡ written (get_or b.write_register b.register) (pos w) t)
      × (w < 2 ^ 16)
      × (single b.data_type w ≡ k)
      × ((handle_number_update o b (answer o b.register w) t).native_value
          ≡ read (apply_multiplier b.multiplier k))
handle_number_update-set_native_value o b s k c e lone on em h fits new =
    let (w, word, lt, back) = single-encode b.data_type k fits in
    let t : NumberState = record s { native_value = requested (times k (dec c e)) } in
    (
      w,
      t,
      set_exact b s k c e lone em h new
          ∙ ap (λ x. written (get_or b.write_register b.register) x t) word,
      lt,
      back,
      handled o b t w lone on ∙ ap (λ n. read (apply_multiplier b.multiplier n)) back,
    )

-- A number entity whose multiplier is not 0 never divides by 0.
pub set_native_value_divides :
    (b : BaseSensor) (v : Amount) (s : NumberState)
    → is_zero b.multiplier ≡ false
    → set_native_value b v s ≢ division_by_zero
unfolding set_native_value set_on set_written round_div
set_native_value_divides b v s h = elim (Bool-cases (shows_value s.native_value v)) [
  | inl e ↦ rw e (λ k. cc)
  | inr e ↦ elim (Option-cases (write_register_of b)) [
    | inl w ↦ rw (e, w) (λ k. cc)
    | inr (r, w) ↦ rw (e, w, h) (λ k. cc)
  ]
]
