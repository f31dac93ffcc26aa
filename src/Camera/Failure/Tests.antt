-- ===== src/Camera/Failure/Tests.antt =====
-- The camera failures of winrt/Projection.cpp on concrete codes.
use matter_winrt.Base.{◌≡◌, refl, some}
use matter_winrt.Camera.Failure.{
  privacy, busy, Hresult, CameraFailure, camera_failure, returned, thrown, chip,
  run_camera_operation,
}

abbrev busy_at_privacy : CameraFailure
busy_at_privacy = camera_failure privacy (Hresult.other 1) (some busy)

busy_reported :
    run_camera_operation privacy (thrown (chip (Hresult.other 1) busy))
    ≡ returned (some busy_at_privacy)
unfolding run_camera_operation
busy_reported = refl
