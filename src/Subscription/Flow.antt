-- ===== src/Subscription/Flow.antt =====
-- The reports of a subscription (winrt/Projection.cpp, EventSubscription) in the order of their
-- delivery, and that no thread but the publisher changes it.
use mathlib.Core.List.{append-nil, append_assoc}
use matter_winrt.Base.{
  ℕ, ◌≡◌, refl, Bool, false, ◌||◌, Option, none, some, List, [], ◌∷◌, ◌++◌, get_elem?, arith,
  total_mono, inl, inr, Option-cases,
}
use matter_winrt.Subscription.{
  Adder, draining, withdrawing, gone, Subscription, adds, hands_over, step, deliver_at, swap_at,
  withdraw_at, deliver, swap, withdraw, is_holding,
}
use matter_winrt.Subscription.Queue.{
  Inv, gather, gather-append, gather-set, gather-set_idle, gather_idle, only_drainer, is_draining,
  draining-le-holding,
}

module _ {ℓ} {R : Type ℓ} where
  abbrev pub in_hand : Option R → List R
  in_hand none = []
  in_hand (some r) = r ∷ []

  -- The reports in the order of their delivery: delivered, being handed over, taken by an adder, and
  -- waiting.
  unfoldable pub flow : Subscription R → List R
  flow s = s.delivered ++ (in_hand s.publishing ++ (gather s.adders ++ s.pending_reports))

  pub flow-add : (s : Subscription R) → Inv s → flow (step s adds) ≡ flow s
  unfolding flow step
  flow-add s v = ground (
    arith,
    gather-append s.adders (draining s.pending_reports false),
    gather_idle s.adders,
    total_mono is_draining is_holding s.adders draining-le-holding,
    append-nil s.pending_reports,
  )

  pub flow-hand_over : (s : Subscription R) → flow (step s hands_over) ≡ flow s
  unfolding flow step
  flow-hand_over s = elim (Option-cases s.publishing) [
    | inl e ↦ ground arith
    | inr (r, e) ↦
        ground (arith, append_assoc s.delivered (r ∷ []) (gather s.adders ++ s.pending_reports))
  ]

  pub flow-deliver :
      (s : Subscription R) (i : ℕ) (throws : Bool) (o : Option (Adder R))
      → get_elem? s.adders i ≡ o
      → Inv s
      → flow (deliver_at o i throws s) ≡ flow s
  unfolding flow deliver_at deliver
  flow-deliver s i throws (some (draining (r ∷ rs) x)) h v = ground (
    arith,
    gather-set s.adders i (draining (r ∷ rs) x) (draining rs (x || throws)) h,
    only_drainer s i (r ∷ rs) x h v,
    append_assoc s.delivered (r ∷ []) (rs ++ s.pending_reports),
  )
  flow-deliver s i throws (some (draining [] x)) h v = refl
  flow-deliver s i throws (some withdrawing) h v = refl
  flow-deliver s i throws (some gone) h v = refl
  flow-deliver s i throws none h v = refl

  pub flow-swap :
      (s : Subscription R) (i : ℕ) (o : Option (Adder R))
      → get_elem? s.adders i ≡ o
      → Inv s
      → flow (swap_at o i s) ≡ flow s
  unfolding flow swap_at swap
  flow-swap s i (some (draining [] x)) h v = ground (
    arith,
    gather-set s.adders i (draining [] x) (draining s.pending_reports x) h,
    gather-set s.adders i (draining [] x) gone h,
    gather-set s.adders i (draining [] x) withdrawing h,
    only_drainer s i [] x h v,
    append-nil s.pending_reports,
  )
  flow-swap s i (some (draining (r ∷ rs) x)) h v = refl
  flow-swap s i (some withdrawing) h v = refl
  flow-swap s i (some gone) h v = refl
  flow-swap s i none h v = refl

  pub flow-withdraw :
      (s : Subscription R) (i : ℕ) (o : Option (Adder R))
      → get_elem? s.adders i ≡ o
      → flow (withdraw_at o i s) ≡ flow s
  unfolding flow withdraw_at withdraw
  flow-withdraw s i (some withdrawing) h =
      ground (arith, gather-set_idle s.adders i withdrawing gone h)
  flow-withdraw s i (some (draining rs x)) h = refl
  flow-withdraw s i (some gone) h = refl
  flow-withdraw s i none h = refl
