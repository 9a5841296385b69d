-- ===== src/Controller/Writes.antt =====
-- modbus_controller.py: writes to holding registers and the cache.
use hh_modbus.Base.{
  ℕ, ◌+◌, ◌<◌, ◌≡◌, refl, arith, Bool, true, false, List, [], ◌∷◌, Option, none, some,
  if◌then◌else◌, ◌==◌, is_some,
}
use hh_modbus.Cache.{cache_get}
use hh_modbus.Cache.Keys.{cache_get-cache_save}
use hh_modbus.Controller.{
  Client, State, Reply, ok, error, raised, connect, after_write, after_write_many, publish,
  publish_from, execute_write_register, execute_write_registers,
}

-- What a reader of the cache sees of one register.
abbrev pub cached : ℕ → State → Option ℕ
cached q s = cache_get s.unit q s.values

pub cached-publish :
    (q r v : ℕ) (s : State) → cached q (publish r v s) ≡ (if r == q then some v else cached q s)
unfolding publish
cached-publish q r v s = cache_get-cache_save s.unit r q v s.values

-- Where a block of values that starts at `start` has a value for register q.
abbrev pub in_block : ℕ → ℕ → List ℕ → Option ℕ
in_block q start [] = none
in_block q start (v ∷ vs) = if start == q then some v else in_block q (start + 1) vs

pub in_block-before : (q start : ℕ) (vs : List ℕ) → q < start → in_block q start vs ≡ none
in_block-before q start [] h = refl
in_block-before q start (v ∷ vs) h = ground (arith, in_block-before q (start + 1) vs)

abbrev pub or_else : Option ℕ → Option ℕ → Option ℕ
or_else none o = o
or_else (some v) o = some v

-- After a block was published, its registers read as its values and all others as before.
pub cached-publish_from :
    (q start : ℕ) (vs : List ℕ) (s : State)
    → cached q (publish_from start vs s) ≡ or_else (in_block q start vs) (cached q s)
unfolding publish_from
cached-publish_from q start [] s = refl
cached-publish_from q start (v ∷ vs) s =
    rw (cached-publish_from q (start + 1) vs (publish start v s), cached-publish q start v s)
      (ground (arith, in_block-before q (start + 1) vs))

-- The value that the inverter acknowledged for a single register.
abbrev pub echo : Reply (List ℕ) → Option ℕ
echo (ok (v ∷ vs)) = some v
echo _ = none

abbrev pub acknowledged : {A : Type 0} → Reply A → Bool
acknowledged (ok _) = true
acknowledged _ = false

connect_keeps :
    (client : Client) (s : State)
    → ((connect client s).1.values ≡ s.values) × ((connect client s).1.unit ≡ s.unit)
unfolding connect
connect_keeps client s = ground arith

cached-connect : (client : Client) (q : ℕ) (s : State) → cached q (connect client s).1 ≡ cached q s
cached-connect client q s = rw ((connect_keeps client s).0, (connect_keeps client s).1) refl

cached-after_write :
    (q register : ℕ) (r : Reply (List ℕ)) (s : State)
    → ((after_write register r s).0 ≡ is_some (echo r))
      × (cached q (after_write register r s).1
          ≡ (if register == q then or_else (echo r) (cached q s) else cached q s))
unfolding after_write
cached-after_write q register (ok []) s = ground arith
cached-after_write q register (ok (v ∷ vs)) s = ground (arith, cached-publish q register v s)
cached-after_write q register (error e) s = ground arith
cached-after_write q register raised s = ground arith

cached-after_write_many :
    (q start : ℕ) (values : List ℕ) (r : Reply Unit) (s : State)
    → ((after_write_many start values r s).0 ≡ acknowledged r)
      × (cached q (after_write_many start values r s).1
          ≡ (if acknowledged r then or_else (in_block q start values) (cached q s) else cached q s))
unfolding after_write_many
cached-after_write_many q start values (ok u) s = (refl, cached-publish_from q start values s)
cached-after_write_many q start values (error e) s = (refl, refl)
cached-after_write_many q start values raised s = (refl, refl)

-- A single write reports success exactly when the inverter acknowledged a value; then the cache
-- holds that value, and otherwise what it held; no other register's entry moves.
pub execute_write_register_cache :
    (client : Client) (register value q : ℕ) (s : State)
    → let s' = (connect client s).1 in
      let r = (client.write_register s'.wire register value s'.unit.device_id).reply in
      let (done, t) = execute_write_register client register value s in
      (done ≡ is_some (echo r))
      × (cached q t ≡ (if register == q then or_else (echo r) (cached q s) else cached q s))
unfolding execute_write_register
execute_write_register_cache client register value q s =
    rw (← cached-connect client q s) (cached-after_write q register _ _)

-- A block write that is acknowledged puts each of its values under its own register of the cache;
-- one that is not leaves the cache as it was; and it reports which.
pub execute_write_registers_cache :
    (client : Client) (start q : ℕ) (values : List ℕ) (s : State)
    → let s' = (connect client s).1 in
      let r = (client.write_registers s'.wire start values s'.unit.device_id).reply in
      let (done, t) = execute_write_registers client start values s in
      (done ≡ acknowledged r)
      × (cached q t
          ≡ (if acknowledged r then or_else (in_block q start values) (cached q s) else cached q s))
unfolding execute_write_registers
execute_write_registers_cache client start q values s =
    rw (← cached-connect client q s) (cached-after_write_many q start values _ _)
