-- ===== src/Commissioning/Pairing/Outcome.antt =====
-- What the thread that waits in Commission and the progress callback see of a PairingState
-- (winrt/Projection.cpp).
use matter_winrt.Base.{
  Bool, true, false, not, ◌&&◌, ◌≡◌, refl, sym, ◌∙◌, Option, none, some, List, [], ◌∷◌, ◌++◌,
  if◌then◌else◌, arith,
}
use mathlib.Core.List.{append_assoc, append-nil}
use matter_winrt.Chip.{ChipError, no_error, cert_not_trusted, is_error}
use matter_winrt.Commissioning.Stages.{SdkStage}
use matter_winrt.Commissioning.Pairing.{
  Progress, CompletionStatus, State, Callback, completes, fails, starts, updates, retries, attests,
  on_commissioning_failure, reset, step, run,
}

module _ (allow_test_attestation : Bool) where
  -- The error with which a callback ends the commissioning, if it does.
  abbrev pub ending : Callback → Option ChipError
  ending (completes error) = some error
  ending (fails c) = some c.err
  ending (attests trusted continue) =
      if not trusted && not allow_test_attestation
      then some cert_not_trusted
      else if is_error continue
      then some continue
      else none
  ending _ = none

  abbrev pub last_ending : Option ChipError → List Callback → Option ChipError
  last_ending o [] = o
  last_ending o (k ∷ ks) = last_ending (elim (ending k) [ none ↦ o | some error ↦ some error ]) ks

  -- The progress that a callback tells of.
  abbrev pub progress : Callback → List Progress
  progress (completes error) = []
  progress (fails c) = elim c.failed_stage [
    | none ↦ []
    | some stage ↦ record { stage = stage; error = c.err; completed = false; retrying = false } ∷ []
  ]
  progress (starts stage) =
      record { stage = stage; error = no_error; completed = false; retrying = false } ∷ []
  progress (updates stage error) =
      record { stage = stage; error = error; completed = true; retrying = false } ∷ []
  progress (retries stage error) =
      record { stage = stage; error = error; completed = false; retrying = true } ∷ []
  progress (attests trusted continue) = []

  abbrev pub all_progress : List Callback → List Progress
  all_progress [] = []
  all_progress (k ∷ ks) = progress k ++ all_progress ks

  -- The error with which the waiting thread goes on, if it does.
  abbrev pub verdict : State → Option ChipError
  verdict s = if s.complete then some s.error else none

  verdict-step :
      (s : State) (k : Callback)
      → verdict (step allow_test_attestation s k)
        ≡ elim (ending k) [ none ↦ verdict s | some error ↦ some error ]
  unfolding step
  verdict-step s (completes error) = ground arith
  verdict-step s (fails c) = ground arith
  verdict-step s (starts stage) = ground arith
  verdict-step s (updates stage error) = ground arith
  verdict-step s (retries stage error) = ground arith
  verdict-step s (attests trusted continue) = ground arith

  verdict-run :
      (s : State) (ks : List Callback)
      → verdict (run allow_test_attestation s ks) ≡ last_ending (verdict s) ks
  unfolding run
  verdict-run s [] = refl
  verdict-run s (k ∷ ks) =
      rw (← verdict-step s k) (verdict-run (step allow_test_attestation s k) ks)

  -- After a Reset, whatever happened before it, the commissioning is complete exactly if some callback
  -- since then ended it, and its error is the one of the last such callback.
  pub pairing_ends_with :
      (reporting : Bool) (s : State) (ks : List Callback)
      → verdict (run allow_test_attestation (reset reporting s) ks) ≡ last_ending none ks
  unfolding reset
  pairing_ends_with reporting s ks = verdict-run (reset reporting s) ks

  reported-fails :
      (stage : Option SdkStage) (error : ChipError) (s : State) (ks : List Callback)
      → s.reporting ≡ true
      → let c : CompletionStatus = record { err = error; failed_stage = stage } in
        ((on_commissioning_failure c s).reporting ≡ true)
        × ((on_commissioning_failure c s).reported ++ all_progress ks
            ≡ s.reported ++ all_progress (fails c ∷ ks))
  unfolding on_commissioning_failure
  reported-fails none error s ks h = ground arith
  reported-fails (some stage) error s ks h =
      let p : Progress = record {
        stage = stage;
        error = error;
        completed = false;
        retrying = false;
      } in
      (ground arith, ground (arith, append_assoc s.reported (p ∷ []) (all_progress ks)))

  reported-step :
      (s : State) (k : Callback) (ks : List Callback)
      → s.reporting ≡ true
      → ((step allow_test_attestation s k).reporting ≡ true)
        × ((step allow_test_attestation s k).reported ++ all_progress ks
            ≡ s.reported ++ all_progress (k ∷ ks))
  unfolding step
  reported-step s (completes error) ks h = ground arith
  reported-step s (fails c) ks h = reported-fails c.failed_stage c.err s ks h
  reported-step s (starts stage) ks h = (
    ground arith,
    ground (arith, append_assoc s.reported (progress (starts stage)) (all_progress ks)),
  )
  reported-step s (updates stage error) ks h = (
    ground arith,
    ground (arith, append_assoc s.reported (progress (updates stage error)) (all_progress ks)),
  )
  reported-step s (retries stage error) ks h = (
    ground arith,
    ground (arith, append_assoc s.reported (progress (retries stage error)) (all_progress ks)),
  )
  reported-step s (attests trusted continue) ks h = ground arith

  reported-run :
      (s : State) (ks : List Callback)
      → s.reporting ≡ true
      → (run allow_test_attestation s ks).reported ≡ s.reported ++ all_progress ks
  unfolding run
  reported-run s [] h = sym (append-nil s.reported)
  reported-run s (k ∷ ks) h =
      let v = reported-step s k ks h in reported-run (step allow_test_attestation s k) ks v.0 ∙ v.1

  -- After a Reset with a progress callback, that callback is given the progress of every callback of the
  -- commissioner, each once and in order, after what was given before.
  pub progress_in_order :
      (s : State) (ks : List Callback)
      → (run allow_test_attestation (reset true s) ks).reported ≡ s.reported ++ all_progress ks
  unfolding reset
  progress_in_order s ks = reported-run (reset true s) ks refl
