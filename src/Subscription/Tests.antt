-- ===== src/Subscription/Tests.antt =====
-- An EventSubscription (winrt/Projection.cpp) on concrete interleavings.
use mathlib.Core.List.{Sublist}
use matter_winrt.Base.{ℕ, ◌+◌, ◌≡◌, ◌≤◌, ◌<◌, refl, false, none, List, [], ◌∷◌, length, arith}
use matter_winrt.Subscription.{
  Subscription, Event, adds, closes, publishes, hands_over, delivers, swaps, initial, run, step,
  maximum_pending, add, remove, close_async, publish, publish_when, hand_over, deliver_at, swap_at,
  withdraw_at, deliver, swap, withdraw, queue,
}
use matter_winrt.Subscription.Queue.{gather}
use matter_winrt.Subscription.Flow.{in_hand}
use matter_winrt.Subscription.Order.{LegalRun, delivered_in_order}
use matter_winrt.Subscription.Closing.{pending_bounded}

-- Two reports wait for the first handler; a third comes while they are delivered, a fourth after.
abbrev events : List (Event ℕ)
events =
    publishes 1
    ∷ publishes 2
    ∷ adds
    ∷ delivers 0 false
    ∷ publishes 3
    ∷ delivers 0 false
    ∷ swaps 0
    ∷ delivers 0 false
    ∷ swaps 0
    ∷ publishes 4
    ∷ hands_over
    ∷ []

events-LegalRun : LegalRun initial events
unfolding initial step add remove close_async publish publish_when hand_over deliver_at swap_at
    withdraw_at deliver swap withdraw queue
events-LegalRun = (tt, (tt, (tt, (tt, (tt, (tt, (tt, (tt, (tt, (tt, (tt, tt)))))))))))

delivered_in_order_example :
    let s = run initial events in
    Sublist s.heard s.published
    × (length s.heard
          + s.unheard
          + length (in_hand s.publishing)
          + length (gather s.adders)
          + length s.pending_reports
          + s.dropped
        ≡ length s.published)
delivered_in_order_example = delivered_in_order events events-LegalRun

none_dropped : (run initial events).dropped ≡ 0
unfolding initial run step add remove close_async publish publish_when hand_over deliver_at swap_at
    withdraw_at deliver swap withdraw queue
none_dropped = refl

one_handler : 0 < (run initial events).handler_count
unfolding initial run step add remove close_async publish publish_when hand_over deliver_at swap_at
    withdraw_at deliver swap withdraw queue
one_handler = omega arith

not_draining : (run initial events).draining_pending ≡ false
unfolding initial run step add remove close_async publish publish_when hand_over deliver_at swap_at
    withdraw_at deliver swap withdraw queue
not_draining = refl

not_publishing : (run initial events).publishing ≡ none
unfolding initial run step add remove close_async publish publish_when hand_over deliver_at swap_at
    withdraw_at deliver swap withdraw queue
not_publishing = refl

abbrev closed : Subscription ℕ
closed = run initial (publishes 1 ∷ closes ∷ [])

closed_closed : closed.close ≡ false
unfolding initial run step publish publish_when queue close_async
closed_closed = refl

pending_bounded_example : length (run initial events).pending_reports ≤ maximum_pending
pending_bounded_example = pending_bounded events
