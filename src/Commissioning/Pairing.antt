-- ===== src/Commissioning/Pairing.antt =====
-- winrt/Projection.cpp, PairingState and PairingDelegate: what the callbacks of one commissioning leave
-- for the thread that waits, and the progress that they pass on. The commissioner is the SDK's, and the
-- error of ContinueCommissioningAfterDeviceAttestation is an input.
pub mod Outcome
use matter_winrt.Base.{
  Bool, true, false, not, ◌&&◌, ◌||◌, ◌≡◌, refl, sym, ◌∙◌, Option, none, some, List, [], ◌∷◌, ◌++◌,
  if◌then◌else◌, is_some, arith,
}
use mathlib.Core.List.{append_assoc, append-nil}
use matter_winrt.Chip.{ChipError, no_error, cert_not_trusted, is_error}
use matter_winrt.Commissioning.Stages.{SdkStage}

-- NativeCommissioningProgress.
pub record Progress : Type 0 where
  pub stage : SdkStage
  pub error : ChipError
  pub completed : Bool
  pub retrying : Bool

-- CompletionStatus, as far as the delegate reads it.
pub record CompletionStatus : Type 0 where
  pub err : ChipError
  pub failed_stage : Option SdkStage

pub record State : Type 0 where
  pub complete : Bool
  pub error : ChipError
  pub active_stage : Option SdkStage
  pub last_completed_stage : Option SdkStage
  -- hasCompletionStatus with completionStatus.
  pub completion_status : Option CompletionStatus
  -- There is a progress callback; what it was given.
  pub reporting : Bool
  pub reported : List Progress

pub data Callback : Type 0 where
  completes : ChipError → Callback
  fails : CompletionStatus → Callback
  starts : SdkStage → Callback
  updates : SdkStage → ChipError → Callback
  retries : SdkStage → ChipError → Callback
  -- OnDeviceAttestationCompleted: whether the device is trusted, and the error of continuing.
  attests : Bool → ChipError → Callback

unfoldable pub reset : Bool → State → State
reset reporting s = record {
  complete = false;
  error = no_error;
  active_stage = none;
  last_completed_stage = none;
  completion_status = none;
  reporting = reporting;
  reported = s.reported;
}

-- Before the first Reset.
unfoldable pub initial : State
initial = record {
  complete = false;
  error = no_error;
  active_stage = none;
  last_completed_stage = none;
  completion_status = none;
  reporting = false;
  reported = [];
}

unfoldable pub report : Progress → State → State
report p s = if s.reporting then record s { reported = s.reported ++ p ∷ [] } else s

unfoldable pub complete : ChipError → State → State
complete error s = record s { complete = true; error = error }

pub on_commissioning_failure : CompletionStatus → State → State
unfolding report
on_commissioning_failure c s =
    let t = record s { completion_status = some c; error = c.err; complete = true } in
    elim c.failed_stage [
      | none ↦ t
      | some stage ↦
          report (record { stage = stage; error = c.err; completed = false; retrying = false }) t
    ]

unfoldable pub on_commissioning_stage_start : SdkStage → State → State
unfolding report
on_commissioning_stage_start stage s =
    report (record { stage = stage; error = no_error; completed = false; retrying = false })
      (record s { active_stage = some stage })

pub on_commissioning_status_update : SdkStage → ChipError → State → State
unfolding report
on_commissioning_status_update stage error s =
    report (record { stage = stage; error = error; completed = true; retrying = false })
      (if is_error error
        then s
        else record s { last_completed_stage = some stage; active_stage = none })

pub on_commissioning_retry : SdkStage → ChipError → State → State
unfolding report
on_commissioning_retry stage error s =
    report (record { stage = stage; error = error; completed = false; retrying = true }) s

module _ (allow_test_attestation : Bool) where
  pub on_device_attestation_completed : Bool → ChipError → State → State
  unfolding complete
  on_device_attestation_completed trusted continue s =
      if not trusted && not allow_test_attestation
      then complete cert_not_trusted s
      else if is_error continue
      then complete continue s
      else s

  unfoldable pub step : State → Callback → State
  unfolding complete on_commissioning_failure on_commissioning_stage_start
      on_commissioning_status_update on_commissioning_retry on_device_attestation_completed
  step s (completes error) = complete error s
  step s (fails c) = on_commissioning_failure c s
  step s (starts stage) = on_commissioning_stage_start stage s
  step s (updates stage error) = on_commissioning_status_update stage error s
  step s (retries stage error) = on_commissioning_retry stage error s
  step s (attests trusted continue) = on_device_attestation_completed trusted continue s

  unfoldable pub run : State → List Callback → State
  run s [] = s
  run s (k ∷ ks) = run (step s k) ks
