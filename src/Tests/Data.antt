-- ===== src/Tests/Data.antt =====
-- A concrete client, link and group for the tests.
use hh_modbus.Sensors.{int}
use hh_modbus.Sensors.Entity.{Owner}
use hh_modbus.Sensors.Number.{NumberState, requested}
use hh_modbus.Base.Int.{pos}
use hh_modbus.Inverter.{InverterType}
use hh_modbus.Base.{
  ℕ, zero, suc, ◌≡◌, refl, arith, Bool, true, false, List, [], ◌∷◌, none, some, ◌==◌, if◌then◌else◌,
  length, leb,
}
use hh_modbus.Inverter.{PollSpeed}
use hh_modbus.Groups.{Sensor, SensorGroup, RegisterType}
use hh_modbus.Cache.{UnitId}
use hh_modbus.Controller.{Client, State, Reply, Answer, ok, error, tcp}
use hh_modbus.Retrieval.{Poller}
use hh_modbus.Retrieval.Bisect.Least.{HasHoles, has_bad}
use hh_modbus.Retrieval.Batch.Outcome.{openings}
use hh_modbus.Watchdog.{Watch, Now}

abbrev pub bad : ℕ → Bool
bad r = r == 33005

abbrev pub zeros : ℕ → List ℕ
zeros zero = []
zeros (suc n) = 0 ∷ zeros n

abbrev pub answering : {A : Type 0} → Reply A → Answer A
answering r = record { reply = r; connected = true; closed = false; released = false; now = 7 }

-- An inverter without register 33005.
abbrev pub inverter : Client
inverter = record {
  connect = λ wire. answering (ok tt);
  read = λ wire type start count unit.
      answering (if has_bad bad start count then error (some 2) else ok (zeros count));
  write_register = λ wire register value unit. answering (ok (value ∷ []));
  write_registers = λ wire start values unit. answering (ok tt);
}

length-zeros : (n : ℕ) → length (zeros n) ≡ n
length-zeros zero = refl
length-zeros (suc n) = omega (arith, length-zeros n)

pub inverter-HasHoles : HasHoles inverter RegisterType.input bad
inverter-HasHoles = record {
  answered = λ wire start count unit h. (zeros count, rw h refl, length-zeros count);
  refused = λ wire start count unit h. rw h refl;
}

-- An inverter that is asleep for its first two attempts, and then answers.
abbrev pub sleepy : Client
sleepy = record inverter {
  connect = λ wire. record {
    reply = ok tt;
    connected = leb 2 (openings wire);
    closed = false;
    released = false;
    now = 7;
  };
}

-- "a"
abbrev pub unit : UnitId
unit = record { connection_id = 97 ∷ []; device_id = 1 }

abbrev pub other_unit : UnitId
other_unit = record { connection_id = 97 ∷ []; device_id = 2 }

abbrev pub sensor : ℕ → ℕ → List ℕ → Sensor
sensor id register more = record { id = id; register = register; more = more }

abbrev pub group : SensorGroup
group = record {
  id = 1;
  first = sensor 10 33004 [];
  others = sensor 11 33005 (33006 ∷ []) ∷ sensor 12 33007 [] ∷ [];
  poll_speed = PollSpeed.once;
  register_type = RegisterType.input;
}

abbrev pub link : State
link = record {
  unit = unit;
  connection_type = tcp;
  connected = true;
  closed = false;
  enabled = true;
  connect_failures = 0;
  last_modbus_success = 0;
  has_answered = false;
  wire = [];
  values = [];
  updates = [];
  groups = group ∷ [];
}

abbrev pub down : State
down = record link { connected = false }

abbrev pub poller : Poller
poller = record {
  link = link;
  wattage = 6000;
  stopping = false;
  counters = [];
  disabled = [];
  next_id = 100;
  updating = [];
  data_received = false;
}

abbrev pub watch : Watch
watch = record {
  poller = record poller { link = down };
  connection_check = false;
  first_poll = true;
  has_entry = true;
  issue_raised = none;
  unreachable = false;
  slave_id_checked = false;
  slave_id_issue_raised = false;
  wrong_slave = false;
}

abbrev pub now : Now
now = record {
  time = 1000;
  night = false;
  longest = 60;
  shared = false;
  settled = true;
  probe = 33000;
}

abbrev pub owner : Owner
owner = record { host = "10.0.0.5"; device_id = 1; type = InverterType.hybrid }

abbrev pub unset : NumberState
unset = record { received = []; native_value = requested (int (pos 0)) }
