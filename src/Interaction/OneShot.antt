-- ===== src/Interaction/OneShot.antt =====
-- winrt/Projection.cpp, OnOffOperationState, CommandOperationState and ReadOperationState: the
-- states whose Finish takes the first result and ignores the rest. A value that a read delivers is a
-- `V`; the On/Off commands deliver none.
use matter_winrt.Base.{
  ◌≡◌, Bool, true, false, Option, none, some, List, [], ◌∷◌, if◌then◌else◌, arith, All, is_some,
}
use matter_winrt.Chip.{ChipError, no_error, is_error}

pub record State {ℓ} (V : Type ℓ) : Type ℓ where
  pub complete : Bool
  pub error : ChipError
  pub value : Option V

pub data Callback {ℓ} (V : Type ℓ) : Type ℓ where
  -- HandleConnected, with the error of the call that it makes.
  connected : ChipError → Callback V
  -- HandleConnectionFailure; the success and failure callbacks of a command.
  connection_failed : ChipError → Callback V
  responded : ChipError → Callback V
  command_failed : ChipError → Callback V
  -- The success and failure callbacks of a read.
  attribute_read : V → Callback V
  read_failed : ChipError → Callback V

module _ {ℓ} {V : Type ℓ} where
  pub initial : State V
  initial = record { complete = false; error = no_error; value = none }

  pub finish : ChipError → State V → State V
  finish result s = if s.complete then s else record s { error = result; complete = true }

  -- FinishRead stores the value before it finishes.
  pub finish_read : V → State V → State V
  unfolding finish
  finish_read v s = finish no_error (record s { value = some v })

  pub handle_connected : ChipError → State V → State V
  unfolding finish
  handle_connected error s = if is_error error then finish error s else s

  pub step : State V → Callback V → State V
  unfolding finish finish_read handle_connected
  step s (connected error) = handle_connected error s
  step s (connection_failed error) = finish error s
  step s (responded status) = finish status s
  step s (command_failed error) = finish error s
  step s (attribute_read v) = finish_read v s
  step s (read_failed error) = finish error s

  pub run : State V → List (Callback V) → State V
  run s [] = s
  run s (c ∷ cs) = run (step s c) cs

  -- The result that a callback brings, if it brings one.
  abbrev pub result_of : Callback V → Option ChipError
  result_of (connected error) = if is_error error then some error else none
  result_of (connection_failed error) = some error
  result_of (responded status) = some status
  result_of (command_failed error) = some error
  result_of (attribute_read v) = some no_error
  result_of (read_failed error) = some error

  abbrev pub first_result : List (Callback V) → Option ChipError
  first_result [] = none
  first_result (c ∷ cs) = elim (result_of c) [ none ↦ first_result cs | some e ↦ some e ]

  -- What the waiting caller finds.
  abbrev pub outcome : State V → Option ChipError
  outcome s = if s.complete then some s.error else none

  outcome-step :
      (s : State V) (c : Callback V)
      → outcome (step s c) ≡ elim (outcome s) [ none ↦ result_of c | some e ↦ some e ]
  unfolding step
  outcome-step s c = ground arith

  outcome-run :
      (s : State V) (cs : List (Callback V))
      → outcome (run s cs) ≡ elim (outcome s) [ none ↦ first_result cs | some e ↦ some e ]
  unfolding run
  outcome-run s [] = ground arith
  outcome-run s (c ∷ cs) = ground (arith, outcome-run (step s c) cs, outcome-step s c)

  -- However many callbacks arrive, the caller finds the result of the first that brings one, and
  -- goes on waiting exactly as long as none has.
  pub first_result_wins : (cs : List (Callback V)) → outcome (run initial cs) ≡ first_result cs
  unfolding initial
  first_result_wins cs = outcome-run initial cs

  -- The callbacks of a read whose failures carry an error.
  abbrev pub ReadCallback : Callback V → Type 0
  ReadCallback (connected error) = Unit
  ReadCallback (attribute_read v) = Unit
  ReadCallback (connection_failed error) = is_error error ≡ true
  ReadCallback (read_failed error) = is_error error ≡ true
  ReadCallback (responded status) = ⊥
  ReadCallback (command_failed error) = ⊥

  abbrev Backed : State V → Type 0
  Backed s = outcome s ≡ some no_error → is_some s.value ≡ true

  step-Backed : (s : State V) (c : Callback V) → ReadCallback c → Backed s → Backed (step s c)
  unfolding step
  step-Backed s (connected error) r b = ground arith
  step-Backed s (attribute_read v) r b = ground arith
  step-Backed s (connection_failed error) r b = ground arith
  step-Backed s (read_failed error) r b = ground arith
  step-Backed s (responded status) r b = absurd r
  step-Backed s (command_failed error) r b = absurd r

  run-Backed :
      (s : State V) (cs : List (Callback V)) → All ReadCallback cs → Backed s → Backed (run s cs)
  unfolding run
  run-Backed s [] r b = b
  run-Backed s (c ∷ cs) r b = run-Backed (step s c) cs r.1 (step-Backed s c r.0 b)

  -- A read, with failures that carry an error, has a value if it ends in success.
  pub read_success_has_value :
      (cs : List (Callback V))
      → All ReadCallback cs
      → outcome (run initial cs) ≡ some no_error
      → is_some (run initial cs).value ≡ true
  unfolding initial
  read_success_has_value cs r = run-Backed initial cs r (λ e. cc)
