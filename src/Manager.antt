-- ===== src/Manager.antt =====
-- client_manager.py: one Modbus client per link, shared by counting references, and the spacing of
-- the frames on a link. A client object is a number; `made` counts the objects that were made and
-- `closed` holds those on which `close()` was called. Times are microseconds.
pub mod References
pub mod Spacing
use hh_modbus.Base.{
  ℕ, ◌+◌, ◌-◌, ◌*◌, Bool, List, [], ◌∷◌, ◌++◌, Option, none, some, ltb, ◌==◌, if◌then◌else◌,
}
use hh_modbus.Cache.{Text, text_eq}

pub record Entry : Type 0 where
  pub client : ℕ
  pub ref_count : ℕ
  pub last_modbus_request : ℕ

pub record Manager : Type 0 where
  pub clients : List (Text × Entry)
  pub made : ℕ
  pub closed : List ℕ

abbrev pub empty : Manager
empty = record { clients = []; made = 0; closed = [] }

abbrev pub find : Text → List (Text × Entry) → Option Entry
find k [] = none
find k ((j, e) ∷ m) = if text_eq j k then some e else find k m

abbrev pub update : Text → Entry → List (Text × Entry) → List (Text × Entry)
update k e [] = (k, e) ∷ []
update k e ((j, f) ∷ m) = if text_eq j k then (j, e) ∷ m else (j, f) ∷ update k e m

-- `del self._clients[key]`
abbrev pub remove : Text → List (Text × Entry) → List (Text × Entry)
remove k [] = []
remove k ((j, f) ∷ m) = let rest = remove k m in if text_eq j k then rest else (j, f) ∷ rest

-- `get_tcp_client` and `get_serial_client`, which differ in the client that is made; the key is the
-- link. They return the client of the link's entry.
unfoldable pub get_client : Text → Manager → ℕ × Manager
get_client k m = elim (find k m.clients) [
  | none ↦ (
    m.made,
    record m {
      clients =
          update k (record { client = m.made; ref_count = 1; last_modbus_request = 0 }) m.clients;
      made = m.made + 1;
    },
  )
  | some e ↦ (
    e.client,
    record m { clients = update k (record e { ref_count = e.ref_count + 1 }) m.clients },
  )
]

unfoldable pub get_last_modbus_request : Text → Manager → ℕ
get_last_modbus_request k m = elim (find k m.clients) [ none ↦ 0 | some e ↦ e.last_modbus_request ]

-- The count is an integer in the source; it is positive while the entry is there.
unfoldable pub release_client : Text → Manager → Manager
release_client k m = elim (find k m.clients) [
  | none ↦ m
  | some e ↦
      if ltb 1 e.ref_count
      then record m { clients = update k (record e { ref_count = e.ref_count - 1 }) m.clients }
      else record m { clients = remove k m.clients; closed = m.closed ++ e.client ∷ [] }
]

unfoldable pub close_if_released : Text → ℕ → Manager → Manager
close_if_released k client m = elim (find k m.clients) [
  | none ↦ record m { closed = m.closed ++ client ∷ [] }
  | some e ↦ if e.client == client then m else record m { closed = m.closed ++ client ∷ [] }
]

abbrev pub min_inter_frame_ms : ℕ
min_inter_frame_ms = 310

-- How long to sleep at the time `now`: the rest of the interval, if that is not over.
unfoldable pub wait_time : ℕ → ℕ → ℕ
wait_time last now =
    if ltb (now - last) (min_inter_frame_ms * 1000)
    then min_inter_frame_ms * 1000 - (now - last)
    else 0

-- `inter_frame_wait`, called at the time `now`: it sleeps for the rest of the interval, and the event
-- loop gives control back `late` after that. The result is the time when it returns.
unfoldable pub inter_frame_wait : Text → ℕ → ℕ → Manager → ℕ × Manager
unfolding wait_time
inter_frame_wait k now late m = elim (find k m.clients) [
  | none ↦ (now, m)
  | some e ↦
      let after = now + wait_time e.last_modbus_request now + late in
      (after, record m { clients = update k (record e { last_modbus_request = after }) m.clients })
]
