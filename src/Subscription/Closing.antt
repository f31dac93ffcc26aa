-- ===== src/Subscription/Closing.antt =====
-- CloseAsync and the bound of the queue of a subscription (winrt/Projection.cpp, EventSubscription).
-- mClose is taken to be empty once it has been moved from.
use matter_winrt.Base.{
  ◌+◌, ◌≤◌, ◌≡◌, refl, false, List, [], ◌∷◌, if◌then◌else◌, arith, length, length-append,
  length-drop_one, drop, ◌∙◌,
}
use matter_winrt.Subscription.{
  Subscription, maximum_pending, Event, adds, removes, closes, publishes, hands_over, delivers,
  swaps, withdraws, initial, step, run,
}

module _ {ℓ} {R : Type ℓ} where
  step_close_calls :
      (s : Subscription R) (e : Event R)
      → s.close_calls + (if s.close then 1 else 0) ≤ 1
      → (step s e).close_calls + (if (step s e).close then 1 else 0) ≤ 1
  unfolding step
  step_close_calls s adds h = ground arith
  step_close_calls s removes h = ground arith
  step_close_calls s closes h = ground arith
  step_close_calls s (publishes r) h = ground arith
  step_close_calls s hands_over h = ground arith
  step_close_calls s (delivers i throws) h = ground arith
  step_close_calls s (swaps i) h = ground arith
  step_close_calls s (withdraws i) h = ground arith

  run_close_calls :
      (s : Subscription R) (es : List (Event R))
      → s.close_calls + (if s.close then 1 else 0) ≤ 1
      → (run s es).close_calls ≤ 1
  unfolding run
  run_close_calls s [] h = omega arith
  run_close_calls s (e ∷ es) h = run_close_calls (step s e) es (step_close_calls s e h)

  -- However often CloseAsync runs, the subscription's closing function is called once at most.
  pub close_once : (es : List (Event R)) → (run initial es).close_calls ≤ 1
  unfolding initial
  close_once es = run_close_calls initial es (omega arith)

  step_closed :
      (s : Subscription R) (e : Event R)
      → s.close ≡ false
      → ((step s e).close ≡ false) × ((step s e).published ≡ s.published)
  unfolding step
  step_closed s adds h = ground arith
  step_closed s removes h = ground arith
  step_closed s closes h = ground arith
  step_closed s (publishes r) h = ground arith
  step_closed s hands_over h = ground arith
  step_closed s (delivers i throws) h = ground arith
  step_closed s (swaps i) h = ground arith
  step_closed s (withdraws i) h = ground arith

  -- Once CloseAsync has taken the closing function, no later report is accepted.
  pub closed_accepts_none :
      (s : Subscription R) (es : List (Event R))
      → s.close ≡ false
      → (run s es).published ≡ s.published
  unfolding run
  closed_accepts_none s [] h = refl
  closed_accepts_none s (e ∷ es) h =
      let (c, p) = step_closed s e h in closed_accepts_none (step s e) es c ∙ p

  step_bounded :
      (s : Subscription R) (e : Event R)
      → length s.pending_reports ≤ maximum_pending
      → length (step s e).pending_reports ≤ maximum_pending
  unfolding step
  step_bounded s adds h = ground arith
  step_bounded s removes h = ground arith
  step_bounded s closes h = ground arith
  step_bounded s (publishes r) h = ground (
    arith,
    length-append s.pending_reports (r ∷ []),
    length-append (drop 1 s.pending_reports) (r ∷ []),
    length-drop_one s.pending_reports,
  )
  step_bounded s hands_over h = ground arith
  step_bounded s (delivers i throws) h = ground arith
  step_bounded s (swaps i) h = ground arith
  step_bounded s (withdraws i) h = ground arith

  run_bounded :
      (s : Subscription R) (es : List (Event R))
      → length s.pending_reports ≤ maximum_pending
      → length (run s es).pending_reports ≤ maximum_pending
  unfolding run
  run_bounded s [] h = h
  run_bounded s (e ∷ es) h = run_bounded (step s e) es (step_bounded s e h)

  -- At most 256 reports wait for a handler, whatever the threads do.
  pub pending_bounded :
      (es : List (Event R)) → length (run initial es).pending_reports ≤ maximum_pending
  unfolding initial
  pending_bounded es = run_bounded initial es (omega arith)
