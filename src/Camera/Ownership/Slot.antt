-- ===== src/Camera/Ownership/Slot.antt =====
-- What the table of winrt/CameraAudioAllocationOwnership.h promises for one endpoint: an automaton
-- with one state for each stage in the life of an allocation. Its only input from the rest of the
-- table is whether that is full.
use matter_winrt.Base.{
  ℕ, ◌+◌, ◌≤◌, ◌≡◌, ◌≢◌, refl, Bool, true, false, Option, none, some, ◌==◌, leb, length, [],
  if◌then◌else◌, Result, ok, err, arith, inl, inr, Option-cases,
}
use matter_winrt.Camera.Ownership.{
  State, pending, owned, releasing, uncertain, Entry, Error, illegal_method_call, out_of_memory,
  out_of_bounds, Call, reserves, commits, fails, starts_release, finishes_release, Key, Table, find,
  step, no_stream, capacity, fresh, ◌==ₖ◌,
}
use matter_winrt.Camera.Ownership.Lookup.{
  KeysDiffer, ==ₖ_self, find-emplace, find-assign, find-erase,
}

pub data Slot : Type 0 where
  free reserved lost : Slot
  held draining : ℕ → Slot

-- The abstract value of an entry; an owned entry with no stream is not reached.
unfoldable pub view_entry : State → Option ℕ → Slot
view_entry pending s = reserved
view_entry owned (some s) = held s
view_entry owned none = lost
view_entry releasing (some s) = draining s
view_entry releasing none = lost
view_entry uncertain s = lost

unfoldable pub view : Option Entry → Slot
unfolding view_entry
view none = free
view (some e) = view_entry e.state e.stream

unfoldable pub move : Bool → Slot → Call → Result Error Slot
move full free reserves = if full then err out_of_memory else ok reserved
move full x reserves = err illegal_method_call
move full reserved (commits s) = if s == no_stream then err out_of_bounds else ok (held s)
move full x (commits s) = err out_of_bounds
move full reserved (fails known) = ok (if known then free else lost)
move full x (fails known) = ok x
move full (held s) (starts_release r) = if s == r then ok (draining s) else err illegal_method_call
move full x (starts_release r) = err illegal_method_call
move full (draining s) (finishes_release done) = ok (if done then free else lost)
move full x (finishes_release done) = err illegal_method_call

-- An entry is pending with no stream, or carries the stream that it was committed with.
abbrev pub Shaped : State → Option ℕ → Type 0
Shaped pending s = s ≡ none
Shaped owned s = (r : ℕ) × (s ≡ some r) × (r ≢ no_stream)
Shaped releasing s = (r : ℕ) × (s ≡ some r) × (r ≢ no_stream)
Shaped uncertain s = Unit {0}

pub record Inv (t : Table) : Type 0 where
  pub differ : KeysDiffer t
  pub bounded : length t ≤ capacity
  pub shaped : (k : Key) (e : Entry) → find k t ≡ some e → Shaped e.state e.stream

-- The automaton's account of a call on `k`, as seen at `k` and at `j`.
abbrev pub Refines : Key → Key → Call → Table → Result Error Table → Type 0
Refines k j c t (ok u) =
    (move (leb capacity (length t)) (view (find k t)) c ≡ ok (view (find k u)))
    × ((k ==ₖ j) ≡ false → find j u ≡ find j t)
Refines k j c t (err x) = move (leb capacity (length t)) (view (find k t)) c ≡ err x

-- In a table that meets its invariant, a call on the endpoint `k` moves the slot of `k` as the
-- automaton `move` says, or fails with the automaton's error, and leaves the slot of any other
-- endpoint `j` alone.
pub step-Refines : (k j : Key) (c : Call) (t : Table) → Inv t → Refines k j c t (step k c t)
unfolding step move view
step-Refines k j reserves t v =
    ground (arith, find-emplace k k fresh t, find-emplace k j fresh t, ==ₖ_self k)
step-Refines k j (commits s) t v =
    let e : Entry = record { state = owned; stream = some s } in
    elim (Option-cases (find k t)) [
      | inl h ↦ ground arith
      | inr (f, h) ↦
          ground (arith, find-assign k k e f t, find-assign k j e f t, ==ₖ_self k, v.shaped k f h)
    ]
step-Refines k j (fails known) t v = elim (Option-cases (find k t)) [
  | inl h ↦ ground arith
  | inr (f, h) ↦
      let e : Entry = record f { state = uncertain } in
      ground (
        arith,
        find-assign k k e f t,
        find-assign k j e f t,
        find-erase k k t v.differ,
        find-erase k j t v.differ,
        ==ₖ_self k,
        v.shaped k f h,
      )
]
step-Refines k j (starts_release s) t v = elim (Option-cases (find k t)) [
  | inl h ↦ ground arith
  | inr (f, h) ↦
      let e : Entry = record f { state = releasing } in
      ground (arith, find-assign k k e f t, find-assign k j e f t, ==ₖ_self k, v.shaped k f h)
]
step-Refines k j (finishes_release done) t v = elim (Option-cases (find k t)) [
  | inl h ↦ ground arith
  | inr (f, h) ↦
      let e : Entry = record f { state = uncertain } in
      ground (
        arith,
        find-assign k k e f t,
        find-assign k j e f t,
        find-erase k k t v.differ,
        find-erase k j t v.differ,
        ==ₖ_self k,
        v.shaped k f h,
      )
]

-- The automaton never leaves `lost`.
pub move-lost : (full : Bool) (c : Call) (x : Slot) → move full lost c ≡ ok x → x ≡ lost
unfolding move
move-lost full reserves x h = cc
move-lost full (commits s) x h = cc
move-lost full (fails known) x h = cc
move-lost full (starts_release s) x h = cc
move-lost full (finishes_release done) x h = cc

-- 1 while the stream may still be released.
abbrev pub credit : Slot → ℕ
credit (held s) = 1
credit _ = 0

abbrev pub is_commit : Call → Bool
is_commit (commits s) = true
is_commit _ = false

abbrev pub is_start : Call → Bool
is_start (starts_release s) = true
is_start _ = false

abbrev pub count : Bool → ℕ
count true = 1
count false = 0

-- A release that starts uses up the credit that a commit gave.
pub credit-move :
    (full : Bool) (x : Slot) (c : Call) (y : Slot)
    → move full x c ≡ ok y
    → credit y + count (is_start c) ≤ credit x + count (is_commit c)
unfolding move
credit-move full free c y h = ground arith
credit-move full reserved c y h = ground arith
credit-move full lost c y h = ground arith
credit-move full (held s) c y h = ground arith
credit-move full (draining s) c y h = ground arith

pub view-nil : (k : Key) → view (find k []) ≡ free
unfolding view find
view-nil k = refl
