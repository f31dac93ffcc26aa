-- ===== src/Interaction/EventRead/Waiting.antt =====
-- winrt/Projection.cpp, ReadEvents and SubscribeEvent: a thread that starts the read or the subscription
-- of GenericEventReadState and waits for it. What the admission throws and the error of
-- StartConnectedOperation are inputs, and so are the callbacks up to the end of the wait: the state is
-- complete then, or the wait has timed out.
use matter_winrt.Base.{
  ℕ, ◌≡◌, refl, Bool, true, false, not, ◌||◌, ltb, Option, none, some, List, All, if◌then◌else◌,
  Result, ok, err, arith,
}
use matter_winrt.Chip.{ChipError, no_error, is_error}
use matter_winrt.Interaction.EventRead.{Config, State, Callback, initial, close, run}
use matter_winrt.Interaction.EventRead.Outcome.{
  CarriesError, ended, failed_open, decoded, event_read_ends_iff, events_in_order,
}

pub data Failure : Type 0 where
  invalid_argument illegal_call timed_out not_established : Failure
  chip : ChipError → Failure
  -- What the admission throws.
  refused : ℕ → Failure

abbrev pub reading : Config
reading = record { subscription = false; reporting = false }

abbrev pub subscribing : Config
subscribing = record { subscription = true; reporting = true }

module _ {ℓ} {V : Type ℓ} where
  -- ReadEvents from its wait on.
  pub read_waited : State V → Result Failure (List V)
  read_waited s =
      if not s.complete
      then err timed_out
      else if is_error s.result
      then err (chip s.result)
      else ok s.values

  -- `closed` is that of the runtime.
  pub read_events :
      Result Failure (Unit {0}) → Bool → ChipError → List (Callback V) → Result Failure (List V)
  unfolding read_waited
  read_events acquired closed start ks = elim acquired [
    | err f ↦ err f
    | ok u ↦
        if closed
        then err illegal_call
        else if is_error start
        then err (chip start)
        else read_waited (run reading (initial reading) ks)
  ]

  -- SubscribeEvent from its wait on; the scope guard closes a state that is not retained.
  pub subscribe_waited : State V → Result Failure (Unit {0}) × State V
  unfolding close
  subscribe_waited s =
      let t = close subscribing s in
      if not (s.established || s.complete)
      then (err timed_out, t)
      else if is_error s.result
      then (err (chip s.result), t)
      else if not s.established
      then (err not_established, t)
      else (ok tt, s)

  -- Once the state is made.
  pub subscribe_started : ChipError → List (Callback V) → Result Failure (Unit {0}) × State V
  unfolding subscribe_waited close initial
  subscribe_started start ks =
      if is_error start
      then (err (chip start), close subscribing (initial subscribing))
      else subscribe_waited (run subscribing (initial subscribing) ks)

  -- With the state that is left where one was made: the runtime retains it if the subscription is
  -- returned.
  pub subscribe_event :
      ℕ
      → ℕ
      → Result Failure (Unit {0})
      → Bool
      → ChipError
      → List (Callback V)
      → Result Failure (Unit {0}) × Option (State V)
  unfolding subscribe_started
  subscribe_event minimum maximum acquired closed start ks =
      let w = subscribe_started start ks in
      if ltb maximum minimum then (err invalid_argument, none) else elim acquired [
        | err f ↦ (err f, none)
        | ok u ↦ if closed then (err illegal_call, none) else (w.0, some w.1)
      ]

  -- What a state is left as.
  abbrev pub Left : Result Failure (Unit {0}) × State V → Type 0
  Left (ok u, s) = (s.established ≡ true) × (is_error s.result ≡ false)
  Left (err f, s) = s.closed ≡ true

  if-Left :
      (b : Bool) (f : Failure) (t : State V) (p : Result Failure (Unit {0}) × State V)
      → t.closed ≡ true
      → Left p
      → Left (if b then (err f, t) else p)
  if-Left true f t p h k = h
  if-Left false f t p h k = k

  close-closed : (s : State V) → (close subscribing s).closed ≡ true
  unfolding close
  close-closed s = ground arith

  established-Left :
      (s t : State V) (b : Bool)
      → s.established ≡ b
      → t.closed ≡ true
      → is_error s.result ≡ false
      → Left (if not b then (err not_established, t) else (ok tt, s))
  established-Left s t true q h r = (q, r)
  established-Left s t false q h r = h

  result-Left :
      (s t : State V) (b : Bool)
      → is_error s.result ≡ b
      → t.closed ≡ true
      → Left (
          if b
          then (err (chip s.result), t)
          else if not s.established
          then (err not_established, t)
          else (ok tt, s))
  result-Left s t true q h = h
  result-Left s t false q h = established-Left s t s.established refl h q

  waited-Left : (s : State V) → Left (subscribe_waited s)
  unfolding subscribe_waited
  waited-Left s =
      let t = close subscribing s in
      if-Left (not (s.established || s.complete)) timed_out t _ (close-closed s)
        (result-Left s t (is_error s.result) refl (close-closed s))

  -- A SubscribeEvent that has made its state leaves it settled: established and without an error if the
  -- subscription is returned, and closed if an exception is thrown, whatever the callbacks were.
  pub subscribe_started-Left :
      (start : ChipError) (ks : List (Callback V)) → Left (subscribe_started start ks)
  unfolding subscribe_started
  subscribe_started-Left start ks =
      if-Left (is_error start) (chip start) (close subscribing (initial subscribing)) _
        (close-closed (initial subscribing))
        (waited-Left (run subscribing (initial subscribing) ks))

  -- What ReadEvents comes to once it has started, where the SDK's failures carry an error: it times out
  -- exactly if no callback ends the read, it throws the error of the read exactly if a failure came
  -- before any Close, and else it returns every usable event, each once and in the order of the reports.
  pub read_events_outcome :
      (ks : List (Callback V))
      → All (CarriesError reading) ks
      → read_events (ok tt) false no_error ks ≡ (
          if not (ended reading ks)
          then err timed_out
          else if failed_open reading ks
          then err (chip (run reading (initial reading) ks).result)
          else ok (decoded reading ks))
  unfolding read_events read_waited
  read_events_outcome ks h =
      let e = event_read_ends_iff reading ks h in
      rw (e.0, e.1, events_in_order reading ks refl) refl
