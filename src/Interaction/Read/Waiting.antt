-- ===== src/Interaction/Read/Waiting.antt =====
-- winrt/Projection.cpp, ReadAttribute: the thread that waits for a GenericReadState. Admission and the
-- start of the connection come before. A round of the loop sees the cancellation flag (a null pointer
-- reads as `false`), the clock in milliseconds and the state after the callbacks so far.
use matter_winrt.Base.{
  ℕ, suc, ◌+◌, ◌*◌, ◌≤◌, ◌<◌, min, All, ◌≡◌, sym, ◌∙◌, Bool, true, false, Option, none, some, List,
  leb, is_some, if◌then◌else◌, arith,
}
use matter_winrt.Chip.{ChipError, is_error}
use matter_winrt.Poll.{poll, poll_first, poll_returns}
use matter_winrt.Interaction.Read.{Config, State, Callback, initial, run}
use matter_winrt.Interaction.Read.Outcome.{
  CarriesError, ended, failed_open, decoded, latest, read_ends_iff, value-initial,
}

pub data Reading {ℓ} (V : Type ℓ) : Type ℓ where
  -- hresult_canceled, ERROR_TIMEOUT, CheckChipError, E_FAIL without a value.
  canceled timed_out no_value : Reading V
  chip_failure : ChipError → Reading V
  value : V → Reading V

pub record Observation {ℓ} (V : Type ℓ) : Type ℓ where
  pub cancelled : Bool
  pub now : ℕ
  pub heard : List (Callback V)

module _ {ℓ} {V : Type ℓ} where
  -- What is returned once the state is complete.
  unfoldable pub answer : State V → Reading V
  answer s =
      if is_error s.result
      then chip_failure s.result
      else elim s.value [ none ↦ no_value | some v ↦ value v ]

  unfoldable pub round : ℕ → Bool → ℕ → State V → Option (Reading V)
  unfolding answer
  round deadline cancelled now s =
      if s.complete
      then some (answer s)
      else if cancelled
      then some canceled
      else if leb deadline now
      then some timed_out
      else none

-- A wait with a cancellation lasts 100 milliseconds, or to the deadline.
abbrev pub wait_time : ℕ
wait_time = 100

module _ {ℓ} {V : Type ℓ} (c : Config) (seen : ℕ → Observation V) (deadline : ℕ) where
  unfoldable pub state_at : ℕ → State V
  state_at k = run c (initial c) (seen k).heard

  unfoldable pub round_at : ℕ → Option (Reading V)
  unfolding state_at
  round_at k = round deadline (seen k).cancelled (seen k).now (state_at k)

  -- The checks before the connection is started, then the loop.
  unfoldable pub read_attribute : Bool → ℕ → ℕ → Option (Reading V)
  unfolding round_at
  read_attribute cancelled now rounds =
      if cancelled
      then some canceled
      else if leb deadline now
      then some timed_out
      else poll rounds round_at 0

  -- wait_until comes back at its wake time, or earlier with the state complete.
  abbrev pub Waits : Type 0
  Waits =
      (k : ℕ)
      → (state_at (suc k)).complete ≡ false
      → min deadline ((seen k).now + wait_time) ≤ (seen (suc k)).now

  clock : ℕ → ℕ
  unfolding state_at
  clock k = if (state_at k).complete then deadline else (seen k).now

  going_on : (k : ℕ) → round_at k ≡ none → clock k < deadline
  unfolding round_at round clock
  going_on k h = ground arith

  clock_moves :
      Waits → (k : ℕ) → round_at k ≡ none → min deadline (clock k + wait_time) ≤ clock (suc k)
  unfolding round_at round clock
  clock_moves moves k h = ground (arith, moves k)

  -- ReadAttribute returns or throws, within the waits that fit before its deadline.
  pub read_attribute_returns :
      (cancelled : Bool) (now n : ℕ)
      → Waits
      → deadline ≤ (seen 0).now + n * wait_time
      → is_some (read_attribute cancelled now (suc n)) ≡ true
  unfolding read_attribute clock
  read_attribute_returns cancelled now n moves h =
      let e =
        poll_returns n round_at clock deadline wait_time 0 going_on (clock_moves moves)
          (ground arith) in
      ground arith

  answer_value :
      (k : ℕ) (v : V)
      → round_at k ≡ some (value v)
      → ((state_at k).complete ≡ true)
        × (is_error (state_at k).result ≡ false)
        × ((state_at k).value ≡ some v)
  unfolding round_at round
  answer_value k v h = ground arith

  polled :
      (cancelled : Bool) (now rounds : ℕ) (v : V)
      → read_attribute cancelled now rounds ≡ some (value v)
      → poll rounds round_at 0 ≡ some (value v)
  unfolding read_attribute
  polled cancelled now rounds v h = ground arith

  -- A value that ReadAttribute returns is the last one decoded from the reports up to a round in which
  -- the read had ended, and no failure had come before the first Close.
  pub read_attribute_value :
      (cancelled : Bool) (now rounds : ℕ) (v : V)
      → ((k : ℕ) → All (CarriesError c) (seen k).heard)
      → read_attribute cancelled now rounds ≡ some (value v)
      → (k : ℕ) × (ended c (seen k).heard ≡ true)
        × (failed_open c (seen k).heard ≡ false)
        × (latest c none (decoded c (seen k).heard) ≡ some v)
  unfolding state_at
  read_attribute_value cancelled now rounds v carries h =
      let (k, l, e, b) = poll_first rounds round_at 0 (value v) (polled cancelled now rounds v h) in
      let (done, fine, there) = answer_value k v e in
      let ends = read_ends_iff c (seen k).heard (carries k) in
      (k, sym ends.0 ∙ done, sym ends.1 ∙ fine, sym (value-initial c (seen k).heard) ∙ there)
