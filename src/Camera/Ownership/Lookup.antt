-- ===== src/Camera/Ownership/Lookup.antt =====
-- How the operations of the map in winrt/CameraAudioAllocationOwnership.h change what `find` gives,
-- for tables whose keys are all different.
use matter_winrt.Base.{◌+◌, ◌≡◌, refl, true, none, some, [], ◌∷◌, length, if◌then◌else◌, arith}
use matter_winrt.Camera.Ownership.{Key, Entry, Table, ◌==ₖ◌, find, emplace, erase, assign}

pub ==ₖ_eq : (a b : Key) → (a ==ₖ b) ≡ true → a ≡ b
==ₖ_eq a b h = ground arith

pub ==ₖ_self : (a : Key) → (a ==ₖ a) ≡ true
==ₖ_self a = ground arith

-- No two entries have one key.
abbrev pub KeysDiffer : Table → Type 0
KeysDiffer [] = Unit {0}
KeysDiffer ((j, e) ∷ t) = (find j t ≡ none) × KeysDiffer t

-- `find` is shut in what follows but for one step.
find-cons :
    (k j : Key) (e : Entry) (t : Table)
    → find k ((j, e) ∷ t) ≡ (if j ==ₖ k then some e else find k t)
unfolding find
find-cons k j e t = refl

pub find-emplace :
    (k j : Key) (e : Entry) (t : Table)
    → find k t ≡ none
    → find j (emplace k e t) ≡ (if k ==ₖ j then some e else find j t)
unfolding find emplace
find-emplace k j e [] h = refl
find-emplace k j e ((i, f) ∷ t) h = ground (arith, find-emplace k j e t)

pub find-assign :
    (k j : Key) (e f : Entry) (t : Table)
    → find k t ≡ some f
    → find j (assign k e t) ≡ (if k ==ₖ j then some e else find j t)
unfolding find assign
find-assign k j e f [] h = cc
find-assign k j e f ((i, g) ∷ t) h = ground (arith, find-assign k j e f t)

pub find-erase :
    (k j : Key) (t : Table)
    → KeysDiffer t
    → find j (erase k t) ≡ (if k ==ₖ j then none else find j t)
unfolding find erase
find-erase k j [] d = ground arith
find-erase k j ((i, g) ∷ t) d = ground (arith, find-erase k j t)

pub emplace-KeysDiffer :
    (k : Key) (e : Entry) (t : Table) → find k t ≡ none → KeysDiffer t → KeysDiffer (emplace k e t)
unfolding find emplace
emplace-KeysDiffer k e [] h d = (refl, tt)
emplace-KeysDiffer k e ((i, f) ∷ t) h d =
    ground (arith, emplace-KeysDiffer k e t, find-emplace k i e t)

pub assign-KeysDiffer :
    (k : Key) (e f : Entry) (t : Table)
    → find k t ≡ some f
    → KeysDiffer t
    → KeysDiffer (assign k e t)
unfolding find assign
assign-KeysDiffer k e f [] h d = tt
assign-KeysDiffer k e f ((i, g) ∷ t) h d =
    ground (arith, assign-KeysDiffer k e f t, find-assign k i e f t)

pub erase-KeysDiffer : (k : Key) (t : Table) → KeysDiffer t → KeysDiffer (erase k t)
unfolding find erase
erase-KeysDiffer k [] d = tt
erase-KeysDiffer k ((i, g) ∷ t) d = ground (arith, erase-KeysDiffer k t, find-erase k i t)

pub length-emplace :
    (k : Key) (e : Entry) (t : Table) → find k t ≡ none → length (emplace k e t) ≡ length t + 1
unfolding find emplace
length-emplace k e [] h = omega arith
length-emplace k e ((i, f) ∷ t) h = ground (arith, length-emplace k e t)

pub length-assign : (k : Key) (e : Entry) (t : Table) → length (assign k e t) ≡ length t
unfolding assign
length-assign k e [] = refl
length-assign k e ((i, g) ∷ t) = ground (arith, length-assign k e t)

pub length-erase :
    (k : Key) (e : Entry) (t : Table) → find k t ≡ some e → length (erase k t) + 1 ≡ length t
unfolding find erase
length-erase k e [] h = cc
length-erase k e ((i, g) ∷ t) h = ground (arith, length-erase k e t)
