-- ===== src/Commissioning/Progress.antt =====
-- winrt/Projection.cpp, MatterControllerCommissioning: Publish, DrainProgress and WaitForProgressDrain.
-- mProgressMutex splits them into atomic blocks: a drain is a thread that stands between two blocks,
-- and an event runs one block, or calls the handlers. The threads that wait for the drain stand between
-- two tests of their predicate. `A` are the progress values.
pub mod Invariant
pub mod Draining
pub mod Lost
pub mod Ending
pub mod Tests
use matter_winrt.Base.{
  ℕ, ◌&&◌, not, Bool, true, false, List, [], ◌∷◌, ◌++◌, get_elem?, set, Option, none, some,
  if◌then◌else◌,
}

-- Where a thread stands that runs DrainProgress.
pub data Drain (A : Type 0) : Type 0 where
  -- Before the locked block.
  looping : Drain A
  -- It calls mProgressChanged.
  calling : A → Drain A
  returned : Drain A

-- Where a thread stands that runs WaitForProgressDrain.
pub data Waiter : Type 0 where
  -- Before the test of the predicate: it has not tested it yet, or was notified.
  testing : Waiter
  -- It waits on mProgressCondition.
  sleeping : Waiter
  ended : Waiter

pub record Progress (A : Type 0) : Type 0 where
  pub pending : List A
  pub scheduled : Bool
  pub drains : List (Drain A)
  pub waiters : List Waiter
  -- RunAsync has thrown.
  pub lost : Bool
  -- What the handlers were called with, and what was published.
  pub delivered : List A
  pub published : List A

pub data Event (A : Type 0) : Type 0 where
  -- RunAsync throws, where Publish calls it, or does not.
  publishes : A → Bool → Event A
  -- Thread i runs the locked block, or its call of the handlers ends: with an exception or without one.
  takes : ℕ → Event A
  calls_end : ℕ → Event A
  -- A thread calls WaitForProgressDrain; waiter i tests the predicate, or wakes without a notification.
  waits : Event A
  tests : ℕ → Event A
  wakes_spuriously : ℕ → Event A

abbrev pub woken : Waiter → Waiter
woken sleeping = testing
woken w = w

-- mProgressCondition.notify_all.
unfoldable pub all_notified : List Waiter → List Waiter
all_notified [] = []
all_notified (w ∷ ws) = woken w ∷ all_notified ws

module _ {A : Type 0} where
  unfoldable pub initial : Progress A
  initial = record {
    pending = [];
    scheduled = false;
    drains = [];
    waiters = [];
    lost = false;
    delivered = [];
    published = [];
  }

  unfoldable pub publish : A → Bool → Progress A → Progress A
  publish a throws s =
      let t = record s { pending = s.pending ++ a ∷ []; published = s.published ++ a ∷ [] } in
      if s.scheduled
      then t
      else if throws
      then record t { scheduled = true; lost = true }
      else record t { scheduled = true; drains = s.drains ++ looping ∷ [] }

  unfoldable pub take_next : ℕ → List A → Progress A → Progress A
  unfolding all_notified
  take_next i [] s = record s {
    scheduled = false;
    drains = set s.drains i returned;
    waiters = all_notified s.waiters;
  }
  take_next i (a ∷ rest) s = record s { pending = rest; drains = set s.drains i (calling a) }

  unfoldable pub end_call : ℕ → A → Progress A → Progress A
  end_call i a s = record s { delivered = s.delivered ++ a ∷ []; drains = set s.drains i looping }

  -- An event runs only on a thread that stands where it begins.
  unfoldable pub take_at : Option (Drain A) → ℕ → Progress A → Progress A
  unfolding take_next
  take_at (some looping) i s = take_next i s.pending s
  take_at _ i s = s

  unfoldable pub end_at : Option (Drain A) → ℕ → Progress A → Progress A
  unfolding end_call
  end_at (some (calling a)) i s = end_call i a s
  end_at _ i s = s

  abbrev pub is_empty : List A → Bool
  is_empty [] = true
  is_empty (a ∷ rest) = false

  -- The predicate that WaitForProgressDrain waits for.
  unfoldable pub drained : Progress A → Bool
  drained s = not s.scheduled && is_empty s.pending

  unfoldable pub test_at : Option Waiter → ℕ → Progress A → Progress A
  unfolding drained
  test_at (some testing) i s = record s {
    waiters = set s.waiters i (if drained s then ended else sleeping);
  }
  test_at _ i s = s

  unfoldable pub wake_at : Option Waiter → ℕ → Progress A → Progress A
  wake_at (some sleeping) i s = record s { waiters = set s.waiters i testing }
  wake_at _ i s = s

  unfoldable pub step : Progress A → Event A → Progress A
  unfolding publish take_at end_at test_at wake_at
  step s (publishes a throws) = publish a throws s
  step s (takes i) = take_at (get_elem? s.drains i) i s
  step s (calls_end i) = end_at (get_elem? s.drains i) i s
  step s waits = record s { waiters = s.waiters ++ testing ∷ [] }
  step s (tests i) = test_at (get_elem? s.waiters i) i s
  step s (wakes_spuriously i) = wake_at (get_elem? s.waiters i) i s

  unfoldable pub run : Progress A → List (Event A) → Progress A
  unfolding step
  run s [] = s
  run s (e ∷ es) = run (step s e) es
