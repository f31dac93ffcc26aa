-- ===== src/Camera/Prepared/Session.antt =====
-- winrt/Projection.cpp, StartPreparedCameraSession: the checks before the session is started, the session,
-- and the checks of what the camera has selected. `read` is ReadAttribute of the node for
-- ReadCameraAudioCapabilities, `read_next` after that, `read_again` once the session is started.
pub mod Privacy
pub mod Started
use matter_winrt.Base.{
  ℕ, ◌==◌, ◌||◌, ◌&&◌, not, Bool, true, false, List, Option, none, some, if◌then◌else◌, Result, ok,
  err, ◌>>=◌,
}
use matter_winrt.Tlv.{Fields}
use matter_winrt.Camera.Failure.{Stage}
use matter_winrt.Camera.Failure
use matter_winrt.Camera.Signaling.{Selection}
use matter_winrt.Camera.Metadata.{Fault, throws, Key, advertises}
use matter_winrt.Camera.Metadata.Descriptor.{
  SdkId, camera_av_stream_management, supported_stream_usages, allocated_video_streams, max_8,
  invalid_endpoint, numeric_attribute, read_camera_privacy,
}
use matter_winrt.Camera.Metadata.Audio.{
  Staged, during, after, capabilities_stage, AudioCapabilities, Feature, offers,
  supports_client_offer, require_listening,
}
use matter_winrt.Camera.Metadata.Audio.Reading.{read_camera_audio_capabilities}
use matter_winrt.Camera.Prepared.{
  Ending, canceled_error, selection_stage, signaling_stage, session_end_stage, unrecorded, recover,
  owning, refused_sdp,
}
use matter_winrt.Camera.Prepared.Start.{
  Startup, Numbers, is_absent, explicit, check_video, check_audio,
}

module _ {H F : Type 0} (same : H → H → Bool) (key : Key → H) (id : SdkId → ℕ) (bit : Feature → ℕ)
    (k : Numbers) (read read_next read_again : ℕ → SdkId → SdkId → Result Fault (Fields H F))
    (endpoint : ℕ) where
  -- The selections that are null are `none`.
  unfoldable pub session_valid : Bool → Option Selection → Option Selection → List ℕ → Bool
  unfolding refused_sdp
  session_valid is_operational (some video) (some audio) sdp =
      is_operational
      && not (endpoint == invalid_endpoint)
      && not (is_absent video && is_absent audio)
      && not (refused_sdp sdp)
  session_valid is_operational _ _ sdp = false

  -- The camera must advertise live view audio.
  unfoldable pub live_audio : Result Fault (Unit {0})
  unfolding numeric_attribute advertises
  live_audio =
      numeric_attribute same key id read_next max_8 endpoint camera_av_stream_management
        supported_stream_usages
      >>= λ usages.
          if advertises usages k.live_view
          then ok tt
          else err (throws Failure.Hresult.not_implemented)

  -- The checks for audio, for video, and of the privacy.
  unfoldable pub audio_ready : Bool → AudioCapabilities → Staged (Unit {0})
  unfolding require_listening live_audio
  audio_ready is_absent c =
      if is_absent
      then (Stage.privacy, ok tt)
      else after (require_listening id bit k.opus k.aac_lc c)
          (λ _. during selection_stage live_audio (λ _. (selection_stage, ok tt)))

  unfoldable pub video_ready : Bool → AudioCapabilities → Staged (Unit {0})
  unfolding supports_client_offer
  video_ready is_absent c =
      if not is_absent && not (supports_client_offer id bit c.camera)
      then (capabilities_stage, err (throws Failure.Hresult.not_implemented))
      else (Stage.privacy, ok tt)

  unfoldable pub selections_ready :
      Selection → Selection → AudioCapabilities → Result Fault (Unit {0})
  unfolding advertises check_video check_audio
  selections_ready video audio c =
      if not (is_absent video)
        && not (offers id bit c.camera.stream.attributes allocated_video_streams)
      then err (throws Failure.Hresult.not_implemented)
      else (check_video same key id bit k read_next endpoint (explicit video) >>= λ _.
          check_audio same key id bit k read_next endpoint c (explicit audio))

  -- Up to StartCamera, from the capabilities on.
  unfoldable pub session_ready :
      Selection → Selection → Bool → AudioCapabilities → Staged AudioCapabilities
  unfolding audio_ready video_ready read_camera_privacy selections_ready
  session_ready video audio canceled c = after (audio_ready (is_absent audio) c) (λ _.
      after (video_ready (is_absent video) c) (λ _.
        during Stage.privacy (read_camera_privacy same key id read_next c.camera) (λ _.
          during selection_stage (selections_ready video audio c) (λ _.
            if canceled then (selection_stage, err canceled_error) else (selection_stage, ok c)))))

  -- The try block after StartCamera.
  unfoldable pub session_started : AudioCapabilities → Startup → ℕ → Staged ℕ
  unfolding check_video check_audio read_camera_privacy
  session_started c x handle =
      during selection_stage
        (x.selected >>= λ s. check_video same key id bit k read_again endpoint s.0 >>= λ _.
          check_audio same key id bit k read_again endpoint c s.1)
        (λ _. during Stage.privacy (read_camera_privacy same key id read_again c.camera) (λ _.
          if x.canceled_after
          then (Stage.privacy, err canceled_error)
          else (Stage.privacy, ok handle)))

  -- The session of two selections that are not null.
  unfoldable pub start_selected : Bool → Selection → Selection → Startup → Ending ℕ
  unfolding read_camera_audio_capabilities session_ready session_started
  start_selected is_operational video audio x =
      owning
        (during Stage.validation x.enabled (λ _.
          after (read_camera_audio_capabilities same key id bit read endpoint is_operational)
            (session_ready video audio x.canceled_before)))
        (λ c.
          owning (signaling_stage, x.started)
            (λ handle. recover session_end_stage x.release handle (session_started c x handle)))

  unfoldable pub start_prepared_camera_session :
      Bool → Option Selection → Option Selection → List ℕ → Startup → Ending ℕ
  unfolding session_valid start_selected
  start_prepared_camera_session is_operational (some video) (some audio) sdp x =
      owning
        (if session_valid is_operational (some video) (some audio) sdp
          then (Stage.validation, ok tt)
          else (Stage.validation, err (throws Failure.Hresult.invalid_argument)))
        (λ (_ : Unit {0}). start_selected is_operational video audio x)
  start_prepared_camera_session is_operational _ _ sdp x =
      unrecorded Stage.validation (throws Failure.Hresult.invalid_argument)
