-- ===== src/Camera/Ownership/Lifecycle.antt =====
-- What the automaton of one endpoint gives for whole histories of calls on the table of
-- winrt/CameraAudioAllocationOwnership.h.
use matter_winrt.Base.{
  ℕ, ◌+◌, ◌≤◌, ◌≡◌, ap, Bool, true, false, ◌&&◌, leb, length, List, [], ◌∷◌, Result, ok, err, arith,
}
use matter_winrt.Camera.Ownership.{Call, Key, Table, find, step, after, run, capacity, ◌==ₖ◌}
use matter_winrt.Camera.Ownership.Lookup.{==ₖ_eq}
use matter_winrt.Camera.Ownership.Slot.{
  Inv, lost, view, step-Refines, move-lost, credit, is_commit, is_start, count, credit-move,
  view-nil,
}
use matter_winrt.Camera.Ownership.Invariant.{step-Inv, empty-Inv}

abbrev pub succeeds {ℓ κ} : {E : Type ℓ} {A : Type κ} → Result E A → Bool
succeeds (ok a) = true
succeeds (err e) = false

-- A slot that is lost stays so over every call.
step-lost :
    (k j : Key) (c : Call) (t : Table)
    → Inv t
    → view (find j t) ≡ lost
    → view (find j (after t (step k c t))) ≡ lost
step-lost k j c t v h = ground (
  arith,
  step-Refines k j c t v,
  ==ₖ_eq k j,
  move-lost (leb capacity (length t)) c (view (find j (after t (step k c t)))),
)

-- In a table that meets its invariant, an allocation whose outcome is uncertain blocks its endpoint
-- for good: after every further history of calls the slot is still lost.
pub lost_absorbs :
    (t : Table) (j : Key) (cs : List (Key × Call))
    → Inv t
    → view (find j t) ≡ lost
    → view (find j (run t cs)) ≡ lost
unfolding run
lost_absorbs t j [] v h = h
lost_absorbs t j ((k, c) ∷ cs) v h =
    lost_absorbs (after t (step k c t)) j cs (step-Inv k c t v) (step-lost k j c t v h)

-- How many calls on `j` that `p` picks out succeed in a history.
pub tally : (Call → Bool) → Key → Table → List (Key × Call) → ℕ
tally p j t [] = 0
tally p j t ((k, c) ∷ cs) =
    count ((k ==ₖ j) && p c && succeeds (step k c t)) + tally p j (after t (step k c t)) cs

credit-step :
    (k j : Key) (c : Call) (t : Table)
    → Inv t
    → credit (view (find j (after t (step k c t))))
        + count ((k ==ₖ j) && is_start c && succeeds (step k c t))
      ≤ credit (view (find j t)) + count ((k ==ₖ j) && is_commit c && succeeds (step k c t))
credit-step k j c t v = ground (
  arith,
  step-Refines k j c t v,
  ==ₖ_eq k j,
  credit-move (leb capacity (length t)) (view (find j t)) c (view (find j (after t (step k c t)))),
)

tally-credit :
    (t : Table) (j : Key) (cs : List (Key × Call))
    → Inv t
    → tally is_start j t cs ≤ credit (view (find j t)) + tally is_commit j t cs
unfolding tally
tally-credit t j [] v = omega arith
tally-credit t j ((k, c) ∷ cs) v =
    omega
      (arith, credit-step k j c t v, tally-credit (after t (step k c t)) j cs (step-Inv k c t v))

-- In every history from the empty table, as many releases are started for an endpoint as streams
-- were committed for it, at most.
pub releases-le-commits :
    (j : Key) (cs : List (Key × Call)) → tally is_start j [] cs ≤ tally is_commit j [] cs
releases-le-commits j cs = omega (arith, tally-credit [] j cs empty-Inv, ap credit (view-nil j))
