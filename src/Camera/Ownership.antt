-- ===== src/Camera/Ownership.antt =====
-- winrt/CameraAudioAllocationOwnership.h: the table of audio streams that this controller owns, at
-- most one for an endpoint. Each member function holds the table's mutex for the whole call, so a
-- history is a sequence of calls.
pub mod Lookup
pub mod Tests
pub mod Slot
pub mod Invariant
pub mod Lifecycle
pub mod Allocation
use matter_winrt.Base.{
  ℕ, Bool, true, false, ◌&&◌, ◌||◌, not, Option, none, some, List, [], ◌∷◌, leb, ◌==◌, length,
  if◌then◌else◌, is_some, Result, ok, err,
}

-- The key of the map: a node and an endpoint.
pub record Key : Type 0 where
  pub node : ℕ
  pub endpoint : ℕ

pub data State : Type 0 where
  pending owned releasing uncertain : State

pub record Entry : Type 0 where
  pub state : State
  pub stream : Option ℕ

-- `std::map<Key, Entry>`, by its entries.
abbrev pub Table : Type 0
Table = List (Key × Entry)

pub data Error : Type 0 where
  -- hresult_illegal_method_call, the HRESULT 0x8007000E, and hresult_out_of_bounds.
  illegal_method_call out_of_memory out_of_bounds : Error

infix 50 ◌==ₖ◌
abbrev pub ◌==ₖ◌ : Key → Key → Bool
a ==ₖ b = (a.node == b.node) && (a.endpoint == b.endpoint)

-- `mEntries.find`.
unfoldable pub find : Key → Table → Option Entry
find k [] = none
find k ((j, e) ∷ t) = if j ==ₖ k then some e else find k t

-- `mEntries.emplace` inserts only where the key is not there.
pub emplace : Key → Entry → Table → Table
emplace k e [] = (k, e) ∷ []
emplace k e ((j, f) ∷ t) = if j ==ₖ k then (j, f) ∷ t else (j, f) ∷ emplace k e t

-- `mEntries.erase` of a found entry.
pub erase : Key → Table → Table
erase k [] = []
erase k ((j, f) ∷ t) = if j ==ₖ k then t else (j, f) ∷ erase k t

-- An assignment through the iterator to a found entry.
pub assign : Key → Entry → Table → Table
assign k e [] = []
assign k e ((j, f) ∷ t) = if j ==ₖ k then (j, e) ∷ t else (j, f) ∷ assign k e t

abbrev pub same_state : State → State → Bool
same_state pending pending = true
same_state owned owned = true
same_state releasing releasing = true
same_state uncertain uncertain = true
same_state _ _ = false

-- UINT16_MAX, the stream identifier that stands for no stream.
abbrev pub no_stream : ℕ
no_stream = 65535

abbrev pub capacity : ℕ
capacity = 8

-- `Entry{}`.
abbrev pub fresh : Entry
fresh = record { state = pending; stream = none }

abbrev pub has_stream : Entry → ℕ → Bool
has_stream e s = elim e.stream [ none ↦ false | some r ↦ r == s ]

pub reserve : Key → Table → Result Error Table
reserve k t =
    if is_some (find k t)
    then err illegal_method_call
    else if leb capacity (length t)
    then err out_of_memory
    else ok (emplace k fresh t)

pub commit : Key → ℕ → Table → Result Error Table
commit k s t = elim (find k t) [
  | none ↦ err out_of_bounds
  | some e ↦
      if not (same_state e.state pending) || s == no_stream
      then err out_of_bounds
      else ok (assign k (record { state = owned; stream = some s }) t)
]

-- AllocationFailed throws nothing: what it does not apply to it leaves alone.
pub allocation_failed : Key → Bool → Table → Table
allocation_failed k known_rejection t = elim (find k t) [
  | none ↦ t
  | some e ↦
      if same_state e.state pending
      then (if known_rejection then erase k t else assign k (record e { state = uncertain }) t)
      else t
]

pub start_release : Key → ℕ → Table → Result Error Table
start_release k s t = elim (find k t) [
  | none ↦ err illegal_method_call
  | some e ↦
      if not (same_state e.state owned) || not (has_stream e s)
      then err illegal_method_call
      else ok (assign k (record e { state = releasing }) t)
]

pub release_finished : Key → Bool → Table → Result Error Table
release_finished k succeeded t = elim (find k t) [
  | none ↦ err illegal_method_call
  | some e ↦
      if not (same_state e.state releasing)
      then err illegal_method_call
      else ok (if succeeded then erase k t else assign k (record e { state = uncertain }) t)
]

-- The public member functions, as calls on one key.
pub data Call : Type 0 where
  reserves : Call
  commits : ℕ → Call
  fails : Bool → Call
  starts_release : ℕ → Call
  finishes_release : Bool → Call

pub step : Key → Call → Table → Result Error Table
unfolding reserve commit allocation_failed start_release release_finished
step k reserves t = reserve k t
step k (commits s) t = commit k s t
step k (fails known) t = ok (allocation_failed k known t)
step k (starts_release s) t = start_release k s t
step k (finishes_release done) t = release_finished k done t

-- A call that throws leaves the table as it was.
abbrev pub after : Table → Result Error Table → Table
after t (ok u) = u
after t (err e) = t

pub run : Table → List (Key × Call) → Table
run t [] = t
run t ((k, c) ∷ cs) = run (after t (step k c t)) cs
