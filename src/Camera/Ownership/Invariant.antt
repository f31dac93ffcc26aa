-- ===== src/Camera/Ownership/Invariant.antt =====
-- The table of winrt/CameraAudioAllocationOwnership.h between two calls: one entry at most for an
-- endpoint, eight entries at most, and a stream exactly where the state promises one.
use matter_winrt.Base.{◌<◌, ◌≡◌, none, some, length, List, [], ◌∷◌, arith, inl, inr, Option-cases}
use matter_winrt.Camera.Ownership.{
  owned, releasing, uncertain, Entry, Call, reserves, commits, fails, starts_release,
  finishes_release, Key, Table, find, step, after, run, capacity, fresh, emplace, assign, erase,
}
use matter_winrt.Camera.Ownership.Lookup.{
  find-emplace, find-assign, find-erase, emplace-KeysDiffer, assign-KeysDiffer, erase-KeysDiffer,
  length-emplace, length-assign, length-erase,
}
use matter_winrt.Camera.Ownership.Slot.{Inv, Shaped}

emplace-Inv :
    (k : Key) (t : Table) → find k t ≡ none → length t < capacity → Inv t → Inv (emplace k fresh t)
emplace-Inv k t h l v = record {
  differ = emplace-KeysDiffer k fresh t h v.differ;
  bounded = omega (arith, length-emplace k fresh t h);
  shaped = λ j e f. ground (arith, find-emplace k j fresh t h, v.shaped j e);
}

assign-Inv :
    (k : Key) (e f : Entry) (t : Table)
    → find k t ≡ some f
    → Shaped e.state e.stream
    → Inv t
    → Inv (assign k e t)
assign-Inv k e f t h s v = record {
  differ = assign-KeysDiffer k e f t h v.differ;
  bounded = omega (arith, length-assign k e t);
  shaped = λ j g p. ground (arith, find-assign k j e f t h, v.shaped j g);
}

erase-Inv : (k : Key) (f : Entry) (t : Table) → find k t ≡ some f → Inv t → Inv (erase k t)
erase-Inv k f t h v = record {
  differ = erase-KeysDiffer k t v.differ;
  bounded = omega (arith, length-erase k f t h);
  shaped = λ j g p. ground (arith, find-erase k j t v.differ, v.shaped j g);
}

-- Every call keeps the invariant, whether it succeeds or throws.
pub step-Inv : (k : Key) (c : Call) (t : Table) → Inv t → Inv (after t (step k c t))
unfolding step
step-Inv k reserves t v = ground (arith, emplace-Inv k t)
step-Inv k (commits s) t v = elim (Option-cases (find k t)) [
  | inl h ↦ ground arith
  | inr (f, h) ↦ ground (arith, assign-Inv k (record { state = owned; stream = some s }) f t h)
]
step-Inv k (fails known) t v = elim (Option-cases (find k t)) [
  | inl h ↦ ground arith
  | inr (f, h) ↦
      ground (arith, assign-Inv k (record f { state = uncertain }) f t h, erase-Inv k f t h)
]
step-Inv k (starts_release s) t v = elim (Option-cases (find k t)) [
  | inl h ↦ ground arith
  | inr (f, h) ↦ ground (arith, assign-Inv k (record f { state = releasing }) f t h, v.shaped k f h)
]
step-Inv k (finishes_release done) t v = elim (Option-cases (find k t)) [
  | inl h ↦ ground arith
  | inr (f, h) ↦
      ground (arith, assign-Inv k (record f { state = uncertain }) f t h, erase-Inv k f t h)
]

pub empty-Inv : Inv []
unfolding find
empty-Inv = record { differ = tt; bounded = omega arith; shaped = λ k e h. cc }

-- The invariant holds after every history of calls from a table in which it holds.
pub run-Inv : (t : Table) (cs : List (Key × Call)) → Inv t → Inv (run t cs)
unfolding run
run-Inv t [] v = v
run-Inv t ((k, c) ∷ cs) v = run-Inv (after t (step k c t)) cs (step-Inv k c t v)
