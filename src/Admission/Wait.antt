-- ===== src/Admission/Wait.antt =====
-- The two waiting loops of RuntimeOperationAdmission (winrt/Projection.cpp): AcquireOperationLock and
-- WaitForLifetime. A round sees the closing flag, the caller's cancellation, the clock in
-- milliseconds and whether the lock is held; a null pointer reads as `false`.
use matter_winrt.Base.{
  ℕ, suc, ◌+◌, ◌*◌, ◌≤◌, ◌<◌, min, ◌≡◌, Bool, true, false, Option, none, some, leb, is_some,
  if◌then◌else◌, arith,
}
use matter_winrt.Poll.{poll, poll_first, poll_returns}

pub record Observation : Type 0 where
  pub closing : Bool
  pub cancelled : Bool
  pub now : ℕ
  pub owns_lock : Bool

pub data Admission : Type 0 where
  -- hresult_illegal_method_call, hresult_canceled, ERROR_TIMEOUT; the lock is returned.
  closed canceled timed_out admitted : Admission

-- One round of AcquireOperationLock.
unfoldable pub operation_round : ℕ → Observation → Option Admission
operation_round deadline o =
    if o.closing
    then some closed
    else if o.cancelled
    then some canceled
    else if leb deadline o.now
    then some timed_out
    else if o.owns_lock
    then some admitted
    else none

-- One round of WaitForLifetime.
pub lifetime_round : ℕ → Observation → Option Admission
lifetime_round deadline o =
    if o.closing
    then some closed
    else if o.cancelled
    then some canceled
    else if leb deadline o.now
    then some timed_out
    else if o.owns_lock
    then some admitted
    else none

-- The tries of a lock last 100 milliseconds, or to the deadline.
abbrev pub try_time : ℕ
try_time = 100

module _ (seen : ℕ → Observation) (deadline : ℕ) where
  unfoldable pub acquire_operation_lock : ℕ → Option Admission
  acquire_operation_lock rounds = poll rounds (λ i. operation_round deadline (seen i)) 0

  pub wait_for_lifetime : ℕ → Option Admission
  wait_for_lifetime rounds = poll rounds (λ i. lifetime_round deadline (seen i)) 0

  -- A try that does not get the lock lasts its full time.
  abbrev pub ClockMoves : Type 0
  ClockMoves =
      (k : ℕ)
      → (seen k).now < deadline
      → min deadline ((seen k).now + try_time) ≤ (seen (suc k)).now

  going_on : (k : ℕ) → operation_round deadline (seen k) ≡ none → (seen k).now < deadline
  unfolding operation_round
  going_on k h = ground arith

  waiting_on : (k : ℕ) → lifetime_round deadline (seen k) ≡ none → (seen k).now < deadline
  unfolding lifetime_round
  waiting_on k h = ground arith

  -- The wait for a node or a gate ends: with a clock that moves in each try, it returns or throws
  -- within the tries that fit before the deadline.
  pub operation_lock_returns :
      (n : ℕ)
      → ClockMoves
      → deadline ≤ (seen 0).now + n * try_time
      → is_some (acquire_operation_lock (suc n)) ≡ true
  unfolding acquire_operation_lock
  operation_lock_returns n moves h =
      poll_returns n (λ i. operation_round deadline (seen i)) (λ i. (seen i).now) deadline try_time
        0 going_on (λ k e. moves k (going_on k e)) h

  -- So does the wait for the lifetime lease.
  pub lifetime_returns :
      (n : ℕ)
      → ClockMoves
      → deadline ≤ (seen 0).now + n * try_time
      → is_some (wait_for_lifetime (suc n)) ≡ true
  unfolding wait_for_lifetime
  lifetime_returns n moves h =
      poll_returns n (λ i. lifetime_round deadline (seen i)) (λ i. (seen i).now) deadline try_time 0
        waiting_on (λ k e. moves k (waiting_on k e)) h

  admitted_round :
      (j : ℕ)
      → operation_round deadline (seen j) ≡ some admitted
      → ((seen j).owns_lock ≡ true)
        × ((seen j).closing ≡ false)
        × ((seen j).cancelled ≡ false)
        × ((seen j).now < deadline)
  unfolding operation_round
  admitted_round j e = ground arith

  -- An operation is admitted only in a round in which it holds the lock, the controller is not
  -- closing, the caller has not canceled and the deadline has not passed; and no earlier round saw a
  -- reason to refuse it.
  pub admitted_only_if :
      (rounds : ℕ)
      → acquire_operation_lock rounds ≡ some admitted
      → (j : ℕ) × ((seen j).owns_lock ≡ true)
        × ((seen j).closing ≡ false)
        × ((seen j).cancelled ≡ false)
        × ((seen j).now < deadline)
        × ((k : ℕ) → k < j → operation_round deadline (seen k) ≡ none)
  unfolding acquire_operation_lock
  admitted_only_if rounds h =
      let (j, l, e, b) = poll_first rounds (λ i. operation_round deadline (seen i)) 0 admitted h in
      (
        j,
        (admitted_round j e).0,
        (admitted_round j e).1,
        (admitted_round j e).2,
        (admitted_round j e).3,
        λ k q. b k (omega arith) q,
      )
