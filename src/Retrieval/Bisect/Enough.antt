-- ===== src/Retrieval/Bisect/Enough.antt =====
-- data_retrieval.py: the bisection ends; the count of registers is fuel enough for its depth.
use hh_modbus.Base.{ℕ, zero, suc, ◌+◌, ◌-◌, ◌/◌, ◌≤◌, ◌≡◌, refl, arith}
use hh_modbus.Groups.{RegisterType}
use hh_modbus.Controller.{Client, State}
use hh_modbus.Retrieval.Bisect.{probe_quiet, isolate_one_bad_register}

module _ (client : Client) (type : RegisterType) where
  -- Whatever the inverter answers, the bisection ends within as many levels as there are registers:
  -- all fuel from the count upwards gives the same result and leaves the same state.
  pub isolate_enough :
      (f g start count : ℕ) (s : State)
      → count ≤ f
      → count ≤ g
      → isolate_one_bad_register client f type start count s
        ≡ isolate_one_bad_register client g type start count s
  unfolding isolate_one_bad_register
  isolate_enough zero zero start count s h k = refl
  isolate_enough zero (suc g) start zero s h k = refl
  isolate_enough zero (suc g) start (suc n) s h k = absurd (omega arith)
  isolate_enough (suc f) zero start zero s h k = refl
  isolate_enough (suc f) zero start (suc n) s h k = absurd (omega arith)
  isolate_enough (suc f) (suc g) start zero s h k = refl
  isolate_enough (suc f) (suc g) start (suc zero) s h k = refl
  isolate_enough (suc f) (suc g) start (suc (suc n)) s h k =
      let count = suc (suc n) in
      let mid = count / 2 in
      let s' = (probe_quiet client type start mid s).1 in
      let s'' = (probe_quiet client type (start + mid) (count - mid) s').1 in
      let left = isolate_enough f g start mid s' (omega arith) (omega arith) in
      let right = isolate_enough f g (start + mid) (count - mid) s'' (omega arith) (omega arith) in
      rw (left, right) refl
