-- ===== src/Manager/References.antt =====
-- client_manager.py: series of calls of `get_tcp_client`, `get_serial_client` and
-- `release_client`.
use hh_modbus.Base.{
  ℕ, ◌+◌, ◌-◌, ◌≤◌, ◌≡◌, refl, arith, List, [], ◌∷◌, ◌++◌, none, some, Option-cases, inl, inr,
  if◌then◌else◌, ltb,
}
use hh_modbus.Cache.{Text, text_eq}
use hh_modbus.Cache.Keys.{text_eq_iff}
use hh_modbus.Manager.{Entry, Manager, find, update, remove, get_client, release_client}

-- How many hold the link's client.
abbrev pub holders : Text → Manager → ℕ
holders k m = elim (find k m.clients) [ none ↦ 0 | some e ↦ e.ref_count ]

pub find-update :
    (k j : Text) (e : Entry) (m : List (Text × Entry))
    → find j (update k e m) ≡ (if text_eq k j then some e else find j m)
find-update k j e [] = refl
find-update k j e ((i, f) ∷ m) =
    ground (arith, text_eq_iff k j, text_eq_iff i k, text_eq_iff i j, find-update k j e m)

find-remove :
    (k j : Text) (m : List (Text × Entry))
    → find j (remove k m) ≡ (if text_eq k j then none else find j m)
find-remove k j [] = ground arith
find-remove k j ((i, f) ∷ m) =
    ground (arith, text_eq_iff k j, text_eq_iff i k, text_eq_iff i j, find-remove k j m)

-- The calls that controllers make.
pub data Call : Type 0 where
  get : Text → Call
  release : Text → Call

unfoldable pub run : List Call → Manager → Manager
run [] m = m
run (get k ∷ calls) m = run calls (get_client k m).1
run (release k ∷ calls) m = run calls (release_client k m)

-- Each call of `get` is one more reference, and each `release` one less, as long as there are any.
abbrev pub balance : Text → ℕ → List Call → ℕ
balance k n [] = n
balance k n (get j ∷ calls) = balance k (if text_eq j k then n + 1 else n) calls
balance k n (release j ∷ calls) = balance k (if text_eq j k then n - 1 else n) calls

-- Every entry has a reference: an entry without one has been removed.
abbrev pub IsCounted : Manager → Type 0
IsCounted m = (k : Text) (e : Entry) → find k m.clients ≡ some e → 1 ≤ e.ref_count

-- What the two calls do to the entries, by what stood there.
get_client-find :
    (j k : Text) (m : Manager)
    → find k (get_client j m).1.clients ≡ (
        if text_eq j k
        then some (elim (find j m.clients) [
          | none ↦ record { client = m.made; ref_count = 1; last_modbus_request = 0 }
          | some e ↦ record e { ref_count = e.ref_count + 1 }
        ])
        else find k m.clients)
unfolding get_client
get_client-find j k m = elim (Option-cases (find j m.clients)) [
  | inl e ↦
      let new : Entry = record { client = m.made; ref_count = 1; last_modbus_request = 0 } in
      ground (arith, e, find-update j k new m.clients)
  | inr (f, e) ↦
      let more : Entry = record f { ref_count = f.ref_count + 1 } in
      ground (arith, e, find-update j k more m.clients)
]

release_client-find :
    (j k : Text) (m : Manager)
    → find k (release_client j m).clients ≡ (
        if text_eq j k
        then (elim (find j m.clients) [
          | none ↦ none
          | some e ↦
              if ltb 1 e.ref_count then some (record e { ref_count = e.ref_count - 1 }) else none
        ])
        else find k m.clients)
unfolding release_client
release_client-find j k m = elim (Option-cases (find j m.clients)) [
  | inl e ↦ ground (arith, e, text_eq_iff j k)
  | inr (f, e) ↦ ground (
    arith,
    e,
    find-update j k (record f { ref_count = f.ref_count - 1 }) m.clients,
    find-remove j k m.clients,
  )
]

get_client-holders :
    (j k : Text) (m : Manager)
    → holders k (get_client j m).1 ≡ (if text_eq j k then holders k m + 1 else holders k m)
get_client-holders j k m = ground (arith, get_client-find j k m, text_eq_iff j k)

release_client-holders :
    (j k : Text) (m : Manager)
    → IsCounted m
    → holders k (release_client j m) ≡ (if text_eq j k then holders k m - 1 else holders k m)
release_client-holders j k m h =
    let counted : (f : Entry) → find k m.clients ≡ some f → 1 ≤ f.ref_count = h k in
    ground (arith, release_client-find j k m, text_eq_iff j k)

get_client-IsCounted : (j : Text) (m : Manager) → IsCounted m → IsCounted (get_client j m).1
get_client-IsCounted j m h k e found =
    let before : (f : Entry) → find k m.clients ≡ some f → 1 ≤ f.ref_count = h k in
    ground (arith, get_client-find j k m, found, before e)

release_client-IsCounted : (j : Text) (m : Manager) → IsCounted m → IsCounted (release_client j m)
release_client-IsCounted j m h k e found = ground (arith, release_client-find j k m, found, h k e)

-- After any calls of `get_client` and `release_client` for any links, each link's count is the
-- number of its `get` calls less its `release` calls, in their order and never below 0, and each
-- entry has a positive count, if each has one at first.
pub run-holders :
    (calls : List Call) (m : Manager) (k : Text)
    → IsCounted m
    → (holders k (run calls m) ≡ balance k (holders k m) calls) × IsCounted (run calls m)
unfolding run
run-holders [] m k h = (refl, h)
run-holders (get j ∷ calls) m k h =
    let (counts, counted) = run-holders calls (get_client j m).1 k (get_client-IsCounted j m h) in
    (rw (get_client-holders j k m) at counts, counted)
run-holders (release j ∷ calls) m k h =
    let (counts, counted) =
      run-holders calls (release_client j m) k (release_client-IsCounted j m h) in
    (rw (release_client-holders j k m h) at counts, counted)

-- A release closes the link's client, and no other, when it gives back the last reference, and then
-- the entry is gone; otherwise it closes nothing and keeps the entry with one reference less.
pub release_client-closes :
    (k : Text) (m : Manager) (e : Entry)
    → find k m.clients ≡ some e
    → (e.ref_count ≡ 1
        → ((release_client k m).closed ≡ m.closed ++ e.client ∷ [])
          × (find k (release_client k m).clients ≡ none))
      × (2 ≤ e.ref_count
          → ((release_client k m).closed ≡ m.closed)
            × (find k (release_client k m).clients
                ≡ some (record e { ref_count = e.ref_count - 1 })))
unfolding release_client
release_client-closes k m e found = ground (
  arith,
  found,
  find-update k k (record e { ref_count = e.ref_count - 1 }) m.clients,
  find-remove k k m.clients,
  text_eq_iff k k,
)
