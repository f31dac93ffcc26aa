-- ===== src/Camera/Prepared/Video.antt =====
-- winrt/Projection.cpp, AllocateCameraVideoStream. `read` is ReadAttribute of the endpoint's node: what
-- each of its reads returns. How VideoStreamAllocate and Release end are inputs, and so is whether the
-- cancellation is seen at each of its three tests.
pub mod Allocated
pub mod Releasing
use matter_winrt.Base.{
  ℕ, ltb, ◌==◌, ◌||◌, ◌&&◌, not, Bool, true, false, Option, none, some, if◌then◌else◌, Result, ok,
  err, ◌>>=◌,
}
use matter_winrt.Tlv.{Fields}
use matter_winrt.Camera.Failure.{Stage}
use matter_winrt.Camera.Failure
use matter_winrt.Camera.Metadata.{
  Fault, throws, bounds_error, Key, number, advertises, camera_stream_field,
}
use matter_winrt.Camera.Metadata.Descriptor.{
  SdkId, camera_av_stream_management, supported_stream_usages, video_sensor_params,
  min_viewport_resolution, video_stream_allocate, video_stream_deallocate,
  video_stream_allocate_response, CameraCapabilities, max_8, max_16, invalid_endpoint,
  numeric_attribute, read_endpoint_descriptor, read_camera_capabilities, read_camera_privacy,
}
use matter_winrt.Camera.Metadata.Streams.{
  VideoStream, reserved, read_camera_video_streams, find_allocated_live_view_stream,
}
use matter_winrt.Camera.Metadata.Streams.Options.{VideoRequest, validate_video}
use matter_winrt.Camera.Metadata.Audio.{
  Staged, during, descriptor_stage, capabilities_stage, Feature, video, has_feature, offers,
}
use matter_winrt.Camera.Prepared.{
  Ending, canceled_error, selection_stage, deallocation_stage, unrecorded, recover, owning,
}

-- One disjunct of a condition that reads as it goes.
abbrev pub or_else : Result Fault Bool → Result Fault Bool → Result Fault Bool
or_else r next = r >>= λ b. if b then ok true else next

-- What decides an allocation besides the reads.
pub record Dispatch (H F : Type 0) : Type 0 where
  pub canceled_before : Bool
  -- InvokeCommand: the stage that it leaves, and the response.
  pub invoked : Staged (Fields H F)
  pub canceled_recorded : Bool
  pub canceled_validated : Bool
  pub release : Result Fault (Unit {0})

module _ {H F : Type 0} (same : H → H → Bool) (key : Key → H) (id : SdkId → ℕ) (bit : Feature → ℕ)
    (live_view : ℕ) (read : ℕ → SdkId → SdkId → Result Fault (Fields H F)) (endpoint : ℕ) where
  unfoldable pub video_supported : CameraCapabilities → Bool
  unfolding has_feature advertises
  video_supported c =
      has_feature id bit video c.stream.features
      && offers id bit c.stream.accepted video_stream_allocate
      && offers id bit c.stream.accepted video_stream_deallocate
      && offers id bit c.stream.generated video_stream_allocate_response

  unfoldable pub bound : Fields H F → ℕ → (ℕ → Bool) → Result Fault Bool
  unfolding camera_stream_field
  bound fields n test =
      camera_stream_field same key max_16 (number n) (some fields) >>= λ v. ok (test v)

  -- Whether the request exceeds the sensor, or falls below the viewport.
  unfoldable pub exceeds : VideoRequest → Fields H F → Fields H F → Result Fault Bool
  unfolding bound
  exceeds r sensor viewport = or_else (bound sensor 0 (λ v. ltb v r.max_size.width)) (
      or_else (bound sensor 1 (λ v. ltb v r.max_size.height)) (
        or_else (bound sensor 2 (λ v. ltb v r.max_frame_rate)) (
          or_else (bound viewport 0 (λ v. ltb r.min_size.width v))
            (bound viewport 1 (λ v. ltb r.min_size.height v)))))

  -- The checks of the stage StreamSelection before the command.
  unfoldable pub fits_camera : VideoRequest → Result Fault (Unit {0})
  unfolding numeric_attribute advertises exceeds
  fits_camera r = read endpoint camera_av_stream_management video_sensor_params >>= λ sensor.
      read endpoint camera_av_stream_management min_viewport_resolution >>= λ viewport.
      numeric_attribute same key id read max_8 endpoint camera_av_stream_management
        supported_stream_usages
      >>= λ usages.
          if advertises usages r.usage
          then (exceeds r sensor viewport >>= λ too_large.
              if too_large then err (throws Failure.Hresult.invalid_argument) else ok tt)
          else err (throws Failure.Hresult.not_implemented)

  -- Up to the last test of the cancellation before the command.
  unfoldable pub video_prepared : Bool → Bool → VideoRequest → Staged (Unit {0})
  unfolding read_endpoint_descriptor read_camera_capabilities read_camera_privacy video_supported
      fits_camera
  video_prepared is_operational canceled_before r =
      if not is_operational || (endpoint == invalid_endpoint)
      then (Stage.validation, err (throws Failure.Hresult.invalid_argument))
      else during descriptor_stage (read_endpoint_descriptor same key id read endpoint) (λ d.
        during capabilities_stage (read_camera_capabilities same key id read d) (λ c.
          if video_supported c
          then during Stage.privacy (read_camera_privacy same key id read c) (λ _.
            during selection_stage (fits_camera r) (λ _.
              if canceled_before
              then (selection_stage, err canceled_error)
              else (selection_stage, ok tt)))
          else (capabilities_stage, err (throws Failure.Hresult.not_implemented))))

  -- The stream of the response.
  unfoldable pub found_video : VideoRequest → Option VideoStream → Bool → Result Fault VideoStream
  unfolding validate_video
  found_video r none canceled_validated = err bounds_error
  found_video r (some s) canceled_validated =
      validate_video live_view r s >>= λ _. if canceled_validated then err canceled_error else ok s

  -- The try block after Record; the stage before it is the one that InvokeCommand left.
  unfoldable pub read_video_back : VideoRequest → Dispatch H F → Stage → ℕ → Staged VideoStream
  unfolding read_camera_video_streams find_allocated_live_view_stream found_video
  read_video_back r x s stream = if x.canceled_recorded then (s, err canceled_error) else (
    selection_stage,
    read_camera_video_streams same key read endpoint >>= λ streams.
        found_video r (find_allocated_live_view_stream live_view streams stream)
          x.canceled_validated,
  )

  unfoldable pub record_video :
      VideoRequest → Dispatch H F → Stage → Result Fault ℕ → Ending VideoStream
  unfolding read_video_back
  record_video r x s (err e) = unrecorded s e
  record_video r x s (ok stream) =
      if stream == reserved
      then unrecorded s bounds_error
      else recover deallocation_stage x.release stream (read_video_back r x s stream)

  unfoldable pub allocate_camera_video_stream :
      Bool → VideoRequest → Dispatch H F → Ending VideoStream
  unfolding video_prepared camera_stream_field record_video
  allocate_camera_video_stream is_operational r x =
      owning (video_prepared is_operational x.canceled_before r) (λ _. owning x.invoked (λ response.
        record_video r x x.invoked.0
          (camera_stream_field same key max_16 (number 0) (some response))))
