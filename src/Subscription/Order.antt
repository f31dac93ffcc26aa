-- ===== src/Subscription/Order.antt =====
-- In what order, and how completely, the reports of a subscription (winrt/Projection.cpp,
-- EventSubscription) reach the handlers.
use mathlib.Core.List.{append-nil, Sublist}
use mathlib.Core.List.Sublist
use matter_winrt.Base.{
  ℕ, ◌+◌, ◌<◌, ◌≡◌, refl, sym, ap, ◌∙◌, Bool, false, Option, none, some, List, [], ◌∷◌, ◌++◌,
  get_elem?, arith, length,
}
use matter_winrt.Subscription.{
  Adder, draining, withdrawing, gone, Subscription, Event, adds, removes, closes, publishes,
  hands_over, delivers, swaps, withdraws, initial, step, run, deliver_at, swap_at, withdraw_at,
  deliver, swap, withdraw,
}
use matter_winrt.Subscription.Queue.{
  Inv, Legal, gather, gather-nil, gather_idle, step-Inv, initial-Inv,
}
use matter_winrt.Subscription.Flow.{
  in_hand, flow, flow-add, flow-hand_over, flow-deliver, flow-swap, flow-withdraw,
}
use matter_winrt.Subscription.Heard.{run-Heard, initial-Heard}
use matter_winrt.Subscription.Publish.{Ordered, prefix, publish-Ordered, length_flow}

module _ {ℓ} {R : Type ℓ} where
  -- An event that leaves the flow and what was published alone.
  same-Ordered :
      (s t : Subscription R)
      → flow t ≡ flow s
      → t.published ≡ s.published
      → t.dropped ≡ s.dropped
      → Ordered s
      → Ordered t
  same-Ordered s t f p d o = record {
    kept = rw (f, p) o.kept;
    counted = rw (f, p, d) o.counted;
    complete = λ z. f ∙ o.complete (sym d ∙ z) ∙ sym p;
  }

  Same : Subscription R → Subscription R → Type ℓ
  Same s t = (t.published ≡ s.published) × (t.dropped ≡ s.dropped)

  deliver_at-Same :
      (s : Subscription R) (i : ℕ) (throws : Bool) (o : Option (Adder R))
      → Same s (deliver_at o i throws s)
  unfolding Same deliver_at deliver
  deliver_at-Same s i throws (some (draining (r ∷ rs) x)) = (refl, refl)
  deliver_at-Same s i throws (some (draining [] x)) = (refl, refl)
  deliver_at-Same s i throws (some withdrawing) = (refl, refl)
  deliver_at-Same s i throws (some gone) = (refl, refl)
  deliver_at-Same s i throws none = (refl, refl)

  swap_at-Same : (s : Subscription R) (i : ℕ) (o : Option (Adder R)) → Same s (swap_at o i s)
  unfolding Same swap_at swap
  swap_at-Same s i (some (draining [] x)) = ground arith
  swap_at-Same s i (some (draining (r ∷ rs) x)) = (refl, refl)
  swap_at-Same s i (some withdrawing) = (refl, refl)
  swap_at-Same s i (some gone) = (refl, refl)
  swap_at-Same s i none = (refl, refl)

  withdraw_at-Same :
      (s : Subscription R) (i : ℕ) (o : Option (Adder R)) → Same s (withdraw_at o i s)
  unfolding Same withdraw_at withdraw
  withdraw_at-Same s i (some (draining rs x)) = (refl, refl)
  withdraw_at-Same s i (some withdrawing) = (refl, refl)
  withdraw_at-Same s i (some gone) = (refl, refl)
  withdraw_at-Same s i none = (refl, refl)

  step-Ordered : (s : Subscription R) (e : Event R) → Inv s → Ordered s → Ordered (step s e)
  unfolding step Same
  step-Ordered s adds v o =
      same-Ordered s (step s adds) (flow-add s v) (ground arith) (ground arith) o
  step-Ordered s removes v o =
      same-Ordered s (step s removes) (unfold flow in ground arith) (ground arith) (ground arith) o
  step-Ordered s closes v o =
      same-Ordered s (step s closes) (unfold flow in ground arith) (ground arith) (ground arith) o
  step-Ordered s (publishes r) v o = publish-Ordered s r v o
  step-Ordered s hands_over v o =
      same-Ordered s (step s hands_over) (flow-hand_over s) (ground arith) (ground arith) o
  step-Ordered s (delivers i throws) v o =
      let (p, d) = deliver_at-Same s i throws (get_elem? s.adders i) in
      same-Ordered s _ (flow-deliver s i throws (get_elem? s.adders i) refl v) p d o
  step-Ordered s (swaps i) v o =
      let (p, d) = swap_at-Same s i (get_elem? s.adders i) in
      same-Ordered s _ (flow-swap s i (get_elem? s.adders i) refl v) p d o
  step-Ordered s (withdraws i) v o =
      let (p, d) = withdraw_at-Same s i (get_elem? s.adders i) in
      same-Ordered s _ (flow-withdraw s i (get_elem? s.adders i) refl) p d o

  -- A history in which every token that is given back was out.
  abbrev pub LegalRun : Subscription R → List (Event R) → Type 0
  LegalRun s [] = Unit
  LegalRun s (e ∷ es) = Legal s e × LegalRun (step s e) es

  run-Ordered :
      (s : Subscription R) (es : List (Event R))
      → LegalRun s es
      → Inv s
      → Ordered s
      → Inv (run s es) × Ordered (run s es)
  unfolding run
  run-Ordered s [] l v o = (v, o)
  run-Ordered s (e ∷ es) l v o =
      run-Ordered (step s e) es l.1 (step-Inv s e l.0 v) (step-Ordered s e v o)

  flow-initial : flow (initial {R = R}) ≡ []
  unfolding initial flow
  flow-initial = ap (λ (xs : List R). xs ++ []) gather-nil

  initial-Ordered : Ordered (initial {R = R})
  unfolding initial
  initial-Ordered = record {
    kept = rw flow-initial (Sublist.refl []);
    counted = omega (arith, ap length flow-initial);
    complete = λ z. flow-initial;
  }

  reached :
      (es : List (Event R)) → LegalRun initial es → Inv (run initial es) × Ordered (run initial es)
  reached es l = run-Ordered initial es l initial-Inv initial-Ordered

  -- However handlers come and go, throw, and race with the publisher, as long as callers take off only
  -- handlers that they hold a token of, the reports that reach a handler are published ones, each
  -- published one at most once and in the order of publication. The others
  -- were handed over when no handler was registered, are on their way, or were dropped from the full
  -- queue: their numbers add up.
  pub delivered_in_order :
      (es : List (Event R))
      → LegalRun initial es
      → let s = run initial es in
        Sublist s.heard s.published
        × (length s.heard
              + s.unheard
              + length (in_hand s.publishing)
              + length (gather s.adders)
              + length s.pending_reports
              + s.dropped
            ≡ length s.published)
  unfolding flow
  delivered_in_order es l =
      let s = run initial es in
      let (v, o) = reached es l in
      let h = run-Heard initial es initial-Heard in
      (
        Sublist.trans h.kept (Sublist.trans (prefix s.delivered _) o.kept),
        omega (
          arith,
          o.counted,
          h.counted,
          length_flow s.delivered (in_hand s.publishing) (gather s.adders) s.pending_reports,
        ),
      )

  -- Where callers take off only handlers that they hold a token of, nothing was dropped, a handler is registered and no thread is at work on the subscription,
  -- every report that was published has been delivered.
  pub delivered_all :
      (es : List (Event R))
      → LegalRun initial es
      → (run initial es).dropped ≡ 0
      → 0 < (run initial es).handler_count
      → (run initial es).draining_pending ≡ false
      → (run initial es).publishing ≡ none
      → (run initial es).delivered ≡ (run initial es).published
  unfolding flow
  delivered_all es l z n d p =
      let s = run initial es in
      let (v, o) = reached es l in
      ground (
        arith,
        o.complete z,
        v.idle_empty d n,
        gather_idle s.adders,
        v.one_drains,
        append-nil s.delivered,
      )
