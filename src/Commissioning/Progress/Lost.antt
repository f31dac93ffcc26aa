-- ===== src/Commissioning/Progress/Lost.antt =====
-- A drain of the progress of a commissioning in winrt/Projection.cpp that RunAsync has not started is
-- never made up for.
use matter_winrt.Base.{ℕ, ◌≡◌, true, List, [], ◌∷◌, get_elem?, Option, none, some, arith}
use matter_winrt.Commissioning.Progress.{
  Drain, looping, calling, returned, Waiter, testing, sleeping, ended, Progress, Event, publishes,
  takes, calls_end, waits, tests, wakes_spuriously, publish, take_next, end_call, take_at, end_at,
  test_at, wake_at, step, run,
}

module _ {A : Type 0} where
  take_next-lost :
      (s : Progress A) (i : ℕ) (xs : List A) → s.lost ≡ true → (take_next i xs s).lost ≡ true
  unfolding take_next
  take_next-lost s i [] h = h
  take_next-lost s i (x ∷ xs) h = h

  take_at-lost :
      (s : Progress A) (i : ℕ) (o : Option (Drain A)) → s.lost ≡ true → (take_at o i s).lost ≡ true
  unfolding take_at
  take_at-lost s i (some looping) h = take_next-lost s i s.pending h
  take_at-lost s i (some (calling a)) h = h
  take_at-lost s i (some returned) h = h
  take_at-lost s i none h = h

  end_at-lost :
      (s : Progress A) (i : ℕ) (o : Option (Drain A)) → s.lost ≡ true → (end_at o i s).lost ≡ true
  unfolding end_at end_call
  end_at-lost s i (some looping) h = h
  end_at-lost s i (some (calling a)) h = h
  end_at-lost s i (some returned) h = h
  end_at-lost s i none h = h

  test_at-lost :
      (s : Progress A) (i : ℕ) (o : Option Waiter) → s.lost ≡ true → (test_at o i s).lost ≡ true
  unfolding test_at
  test_at-lost s i (some testing) h = h
  test_at-lost s i (some sleeping) h = h
  test_at-lost s i (some ended) h = h
  test_at-lost s i none h = h

  wake_at-lost :
      (s : Progress A) (i : ℕ) (o : Option Waiter) → s.lost ≡ true → (wake_at o i s).lost ≡ true
  unfolding wake_at
  wake_at-lost s i (some testing) h = h
  wake_at-lost s i (some sleeping) h = h
  wake_at-lost s i (some ended) h = h
  wake_at-lost s i none h = h

  -- A drain that was lost is never made up for.
  step-lost : (s : Progress A) (e : Event A) → s.lost ≡ true → (step s e).lost ≡ true
  unfolding step publish
  step-lost s (publishes a throws) h = ground arith
  step-lost s (takes i) h = take_at-lost s i (get_elem? s.drains i) h
  step-lost s (calls_end i) h = end_at-lost s i (get_elem? s.drains i) h
  step-lost s waits h = h
  step-lost s (tests i) h = test_at-lost s i (get_elem? s.waiters i) h
  step-lost s (wakes_spuriously i) h = wake_at-lost s i (get_elem? s.waiters i) h

  pub run-lost : (s : Progress A) (es : List (Event A)) → s.lost ≡ true → (run s es).lost ≡ true
  unfolding run
  run-lost s [] h = h
  run-lost s (e ∷ es) h = run-lost (step s e) es (step-lost s e h)
