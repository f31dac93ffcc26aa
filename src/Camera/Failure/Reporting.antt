-- ===== src/Camera/Failure/Reporting.antt =====
-- Which failures of winrt/Projection.cpp are retryable, and what a caller of a camera operation sees.
use matter_winrt.Base.{◌≡◌, ◌↔◌, sym, refl, true, Option, none, some, arith}
use mathlib.Core.Path.{subst}
use matter_winrt.Camera.Failure.{
  Stage, NativeError, busy, no_memory, not_connected, connection_aborted,
  connection_closed_unexpectedly, Hresult, out_of_memory, CameraFailure, is_transient,
  native_category, camera_failure_category, camera_failure, retryable, Exception, canceled, chip,
  hresult, foreign, Operation, returned, thrown, run_camera_operation,
}

-- A transient condition of the device or of the connection to it.
abbrev pub Transient : NativeError → Type 0
Transient NativeError.timeout = Unit
Transient busy = Unit
Transient no_memory = Unit
Transient NativeError.resource_exhausted = Unit
Transient not_connected = Unit
Transient connection_aborted = Unit
Transient connection_closed_unexpectedly = Unit
Transient _ = ⊥

abbrev pub TransientFailure : Hresult → Option NativeError → Type 0
TransientFailure result (some e) = Transient e
TransientFailure Hresult.timeout none = Unit
TransientFailure out_of_memory none = Unit
TransientFailure _ none = ⊥

pub Transient-category :
    (stage : Stage) (native : NativeError)
    → (is_transient (native_category stage native) ≡ true) ↔ Transient native
unfolding native_category
Transient-category stage NativeError.timeout = (λ h. tt, λ h. refl)
Transient-category stage NativeError.busy = (λ h. tt, λ h. refl)
Transient-category stage NativeError.no_memory = (λ h. tt, λ h. refl)
Transient-category stage NativeError.resource_exhausted = (λ h. tt, λ h. refl)
Transient-category stage NativeError.not_connected = (λ h. tt, λ h. refl)
Transient-category stage NativeError.connection_aborted = (λ h. tt, λ h. refl)
Transient-category stage NativeError.connection_closed_unexpectedly = (λ h. tt, λ h. refl)
Transient-category stage NativeError.access_denied = (λ h. ground arith, λ h. absurd h)
Transient-category stage NativeError.unsupported_chip_feature = (λ h. ground arith, λ h. absurd h)
Transient-category stage NativeError.incorrect_state = (λ h. ground arith, λ h. absurd h)
Transient-category stage NativeError.not_found = (λ h. ground arith, λ h. absurd h)
Transient-category stage NativeError.invalid_argument = (λ h. ground arith, λ h. absurd h)
Transient-category stage NativeError.dynamic_constraint_error = (λ h. ground arith, λ h. absurd h)
Transient-category stage NativeError.constraint_error = (λ h. ground arith, λ h. absurd h)
Transient-category stage NativeError.unsupported_access = (λ h. ground arith, λ h. absurd h)
Transient-category stage NativeError.unsupported_cluster = (λ h. ground arith, λ h. absurd h)
Transient-category stage NativeError.unsupported_command = (λ h. ground arith, λ h. absurd h)
Transient-category stage NativeError.unsupported_attribute = (λ h. ground arith, λ h. absurd h)
Transient-category stage NativeError.invalid_in_state = (λ h. ground arith, λ h. absurd h)
Transient-category stage (NativeError.im_status code) = (λ h. ground arith, λ h. absurd h)
Transient-category stage (NativeError.other code) = (λ h. ground arith, λ h. absurd h)

-- A camera failure is retryable exactly if its native error, or its HRESULT where it has none, is a
-- timeout, a lost connection or a lack of resources, at whatever stage it comes.
pub retryable_iff :
    (stage : Stage) (result : Hresult) (native : Option NativeError)
    → (retryable (camera_failure stage result native) ≡ true) ↔ TransientFailure result native
unfolding retryable camera_failure camera_failure_category
retryable_iff stage result (some e) = Transient-category stage e
retryable_iff stage Hresult.timeout none = (λ h. tt, λ h. refl)
retryable_iff stage Hresult.out_of_memory none = (λ h. tt, λ h. refl)
retryable_iff stage Hresult.access_denied none = (λ h. ground arith, λ h. absurd h)
retryable_iff stage Hresult.not_implemented none = (λ h. ground arith, λ h. absurd h)
retryable_iff stage Hresult.invalid_argument none = (λ h. ground arith, λ h. absurd h)
retryable_iff stage Hresult.bounds none = (λ h. ground arith, λ h. absurd h)
retryable_iff stage Hresult.no_interface none = (λ h. ground arith, λ h. absurd h)
retryable_iff stage Hresult.illegal_method_call none = (λ h. ground arith, λ h. absurd h)
retryable_iff stage (Hresult.other code) none = (λ h. ground arith, λ h. absurd h)

abbrev pub TransientException : Exception → Type 0
TransientException canceled = ⊥
TransientException (chip result native) = TransientFailure result (some native)
TransientException (hresult result) = TransientFailure result none
TransientException (foreign code) = ⊥

-- What the failure of an exception tells.
abbrev pub Tells : Stage → Operation (Unit {0}) → CameraFailure → Type 0
Tells stage o f =
    (x : Exception) × (o ≡ thrown x)
    × (f.stage ≡ stage)
    × ((retryable f ≡ true) ↔ TransientException x)

told :
    (o : Operation (Unit {0})) (x : Exception) (stage : Stage) (result : Hresult)
    (native : Option NativeError) (f : CameraFailure)
    → o ≡ thrown x
    → TransientException x ≡ TransientFailure result native
    → camera_failure stage result native ≡ f
    → Tells stage o f
unfolding camera_failure
told o x stage result native f q t e = (
  x,
  q,
  ground arith,
  subst (λ f. (retryable f ≡ true) ↔ TransientException x) e
      (subst (λ T. (retryable (camera_failure stage result native) ≡ true) ↔ T) (sym t)
        (retryable_iff stage result native)),
)

-- A failure that RunCameraOperation reports is the one of an exception of the operation, with the stage
-- that was reached, and it is retryable exactly if that exception is transient; a cancellation is never
-- reported as a failure.
pub reported_failure :
    (stage : Stage) (o : Operation (Unit {0})) (f : CameraFailure)
    → run_camera_operation stage o ≡ returned (some f)
    → Tells stage o f
unfolding run_camera_operation
reported_failure stage (returned u) f h = absurd (ground arith)
reported_failure stage (thrown canceled) f h = absurd (ground arith)
reported_failure stage (thrown (chip result native)) f h =
    told _ (chip result native) stage result (some native) f refl refl (ground arith)
reported_failure stage (thrown (hresult result)) f h =
    told _ (hresult result) stage result none f refl refl (ground arith)
reported_failure stage (thrown (foreign code)) f h = absurd (ground arith)
