-- ===== src/Subscription/Heard.antt =====
-- Which of the reports that a subscription hands over reach a handler (winrt/Projection.cpp,
-- EventSubscription).
use mathlib.Core.List.{Sublist}
use mathlib.Core.List.Sublist
use matter_winrt.Base.{
  ℕ, ◌+◌, ◌≡◌, refl, Bool, true, false, Option, none, some, List, [], ◌∷◌, ◌++◌, get_elem?, arith,
  length, length-append, if◌then◌else◌,
}
use matter_winrt.Subscription.{
  Adder, draining, withdrawing, gone, Subscription, Event, adds, removes, closes, publishes,
  hands_over, delivers, swaps, withdraws, initial, step, run, deliver_at, swap_at, withdraw_at,
  deliver, swap, withdraw, hand_over, silent,
}

module _ {ℓ} {R : Type ℓ} where
  -- What was heard was handed over, and what was handed over but not heard is counted.
  pub record Heard (s : Subscription R) : Type ℓ where
    pub kept : Sublist s.heard s.delivered
    pub counted : length s.heard + s.unheard ≡ length s.delivered

  abbrev Counts : List R → ℕ → List R → Type ℓ
  Counts heard unheard delivered =
      Sublist heard delivered × (length heard + unheard ≡ length delivered)

  one_more :
      (b : Bool) (heard : List R) (unheard : ℕ) (delivered : List R) (r : R)
      → Counts heard unheard delivered
      → Counts
          (if b then heard else heard ++ r ∷ [])
          (if b then unheard + 1 else unheard)
          (delivered ++ r ∷ [])
  one_more true heard unheard delivered r (k, c) =
      (Sublist.trans k (prefix_of delivered r), omega (arith, c, length-append delivered (r ∷ [])))
    where
      prefix_of : (xs : List R) (y : R) → Sublist xs (xs ++ y ∷ [])
      prefix_of [] y = Sublist.cons y (Sublist.refl [])
      prefix_of (x ∷ xs) y = Sublist.cons-cons x (prefix_of xs y)
  one_more false heard unheard delivered r (k, c) = (
    Sublist.append k (Sublist.refl (r ∷ [])),
    omega (arith, c, length-append delivered (r ∷ []), length-append heard (r ∷ [])),
  )

  deliver_at-Heard :
      (s : Subscription R) (i : ℕ) (throws : Bool) (o : Option (Adder R))
      → Heard s
      → Heard (deliver_at o i throws s)
  unfolding deliver_at deliver
  deliver_at-Heard s i throws (some (draining (r ∷ rs) x)) h =
      let (k, c) = one_more (silent s) s.heard s.unheard s.delivered r (h.kept, h.counted) in
      record { kept = k; counted = c }
  deliver_at-Heard s i throws (some (draining [] x)) h = h
  deliver_at-Heard s i throws (some withdrawing) h = h
  deliver_at-Heard s i throws (some gone) h = h
  deliver_at-Heard s i throws none h = h

  hand_over-Heard : (s : Subscription R) (o : Option R) → Heard s → Heard (hand_over o s)
  unfolding hand_over
  hand_over-Heard s none h = h
  hand_over-Heard s (some r) h =
      let (k, c) = one_more (silent s) s.heard s.unheard s.delivered r (h.kept, h.counted) in
      record { kept = k; counted = c }

  swap_at-Heard :
      (s : Subscription R) (i : ℕ) (o : Option (Adder R)) → Heard s → Heard (swap_at o i s)
  unfolding swap_at swap
  swap_at-Heard s i (some (draining [] x)) h = ground arith
  swap_at-Heard s i (some (draining (r ∷ rs) x)) h = h
  swap_at-Heard s i (some withdrawing) h = h
  swap_at-Heard s i (some gone) h = h
  swap_at-Heard s i none h = h

  withdraw_at-Heard :
      (s : Subscription R) (i : ℕ) (o : Option (Adder R)) → Heard s → Heard (withdraw_at o i s)
  unfolding withdraw_at withdraw
  withdraw_at-Heard s i (some (draining rs x)) h = h
  withdraw_at-Heard s i (some withdrawing) h = record { kept = h.kept; counted = h.counted }
  withdraw_at-Heard s i (some gone) h = h
  withdraw_at-Heard s i none h = h

  pub step-Heard : (s : Subscription R) (e : Event R) → Heard s → Heard (step s e)
  unfolding step
  step-Heard s adds h = ground arith
  step-Heard s removes h = ground arith
  step-Heard s closes h = ground arith
  step-Heard s (publishes r) h = ground arith
  step-Heard s hands_over h = hand_over-Heard s s.publishing h
  step-Heard s (delivers i throws) h = deliver_at-Heard s i throws (get_elem? s.adders i) h
  step-Heard s (swaps i) h = swap_at-Heard s i (get_elem? s.adders i) h
  step-Heard s (withdraws i) h = withdraw_at-Heard s i (get_elem? s.adders i) h

  pub run-Heard : (s : Subscription R) (es : List (Event R)) → Heard s → Heard (run s es)
  unfolding run
  run-Heard s [] h = h
  run-Heard s (e ∷ es) h = run-Heard (step s e) es (step-Heard s e h)

  pub initial-Heard : Heard (initial {R = R})
  unfolding initial
  initial-Heard = record { kept = Sublist.refl []; counted = refl }
