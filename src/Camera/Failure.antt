-- ===== src/Camera/Failure.antt =====
-- winrt/Projection.cpp, CameraFailureCategory, MatterCameraFailure and RunCameraOperation: what a camera
-- operation that throws is reported as.
pub mod Reporting
pub mod Tests
use matter_winrt.Base.{ℕ, Bool, true, false, ◌||◌, Option, none, some, if◌then◌else◌}

pub data Stage : Type 0 where
  validation privacy : Stage
  -- Each other stage.
  other : ℕ → Stage

-- The native error codes that are named: CHIP errors, IM statuses, and what else is an IM status or not.
pub data NativeError : Type 0 where
  timeout busy no_memory access_denied unsupported_chip_feature not_connected : NativeError
  connection_aborted connection_closed_unexpectedly incorrect_state not_found : NativeError
  invalid_argument : NativeError
  dynamic_constraint_error constraint_error resource_exhausted unsupported_access : NativeError
  unsupported_cluster unsupported_command unsupported_attribute invalid_in_state : NativeError
  im_status other : ℕ → NativeError

pub data Hresult : Type 0 where
  timeout access_denied not_implemented out_of_memory invalid_argument bounds : Hresult
  no_interface illegal_method_call : Hresult
  other : ℕ → Hresult

pub data Category : Type 0 where
  dynamic_constraint_error constraint_error timeout resource_exhausted : Category
  access_denied unsupported connection_failure invalid_state invalid_input : Category
  malformed_data command_rejected privacy_enabled unknown : Category

abbrev pub is_validation : Stage → Bool
is_validation validation = true
is_validation _ = false

abbrev pub is_privacy : Stage → Bool
is_privacy privacy = true
is_privacy _ = false

pub native_category : Stage → NativeError → Category
native_category stage dynamic_constraint_error = dynamic_constraint_error
native_category stage constraint_error = constraint_error
native_category stage timeout = timeout
native_category stage busy = resource_exhausted
native_category stage no_memory = resource_exhausted
native_category stage resource_exhausted = resource_exhausted
native_category stage access_denied = access_denied
native_category stage unsupported_access = access_denied
native_category stage unsupported_chip_feature = unsupported
native_category stage unsupported_cluster = unsupported
native_category stage unsupported_command = unsupported
native_category stage unsupported_attribute = unsupported
native_category stage not_connected = connection_failure
native_category stage connection_aborted = connection_failure
native_category stage connection_closed_unexpectedly = connection_failure
native_category stage incorrect_state = invalid_state
native_category stage not_found = invalid_state
native_category stage invalid_in_state = invalid_state
native_category stage invalid_argument =
    if is_validation stage then invalid_input else malformed_data
native_category stage (im_status code) = command_rejected
native_category stage (other code) = unknown

-- `none` is no native error.
pub camera_failure_category : Stage → Hresult → Option NativeError → Category
unfolding native_category
camera_failure_category stage result (some e) = native_category stage e
camera_failure_category stage timeout none = timeout
camera_failure_category stage access_denied none =
    if is_privacy stage then privacy_enabled else access_denied
camera_failure_category stage not_implemented none = unsupported
camera_failure_category stage out_of_memory none = resource_exhausted
camera_failure_category stage invalid_argument none = invalid_input
camera_failure_category stage bounds none = malformed_data
camera_failure_category stage no_interface none = malformed_data
camera_failure_category stage illegal_method_call none = invalid_state
camera_failure_category stage (other code) none = unknown

pub record CameraFailure : Type 0 where
  pub stage : Stage
  pub category : Category
  pub result : Hresult
  pub native_error : Option NativeError

-- The constructor of MatterCameraFailure.
pub camera_failure : Stage → Hresult → Option NativeError → CameraFailure
unfolding camera_failure_category
camera_failure stage result native = record {
  stage = stage;
  category = camera_failure_category stage result native;
  result = result;
  native_error = native;
}

abbrev pub is_transient : Category → Bool
is_transient timeout = true
is_transient connection_failure = true
is_transient resource_exhausted = true
is_transient _ = false

pub retryable : CameraFailure → Bool
retryable f = is_transient f.category

pub data Exception : Type 0 where
  canceled : Exception
  chip : Hresult → NativeError → Exception
  hresult : Hresult → Exception
  -- An exception of another kind.
  foreign : ℕ → Exception

-- How the operation ends, and what RunCameraOperation makes of it: a result, with a failure or without
-- one, or an exception.
pub data Operation (A : Type 0) : Type 0 where
  returned : A → Operation A
  thrown : Exception → Operation A

-- `stage` is the stage that the operation has reached when it throws.
unfoldable pub run_camera_operation :
    Stage → Operation (Unit {0}) → Operation (Option CameraFailure)
unfolding camera_failure
run_camera_operation stage (returned u) = returned none
run_camera_operation stage (thrown canceled) = thrown canceled
run_camera_operation stage (thrown (chip result native)) =
    returned (some (camera_failure stage result (some native)))
run_camera_operation stage (thrown (hresult result)) =
    returned (some (camera_failure stage result none))
run_camera_operation stage (thrown (foreign code)) = thrown (foreign code)
