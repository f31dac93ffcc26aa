-- ===== src/Camera/Prepared/Start.antt =====
-- winrt/Projection.cpp, StartPreparedCamera, ValidateCameraSelectedAudio, and what StartPreparedCameraSession
-- shares with them. `read` is ReadAttribute of the node. EnsureCameraSignalingEnabled, StartCamera, SelectedCameraStreams and Release are
-- inputs by how they end; a session is its handle.
use matter_winrt.Base.{
  ℕ, ltb, ◌==◌, ◌||◌, ◌&&◌, not, Bool, true, false, List, [], ◌∷◌, Option, none, some,
  if◌then◌else◌, Result, ok, err, ◌>>=◌, is_some,
}
use matter_winrt.Tlv.{Fields}
use matter_winrt.Camera.Failure.{Stage}
use matter_winrt.Camera.Failure
use matter_winrt.Camera.Signaling.{Selection, absent, explicit_id}
use matter_winrt.Camera.Metadata.{Fault, throws, null_dereference, Key}
use matter_winrt.Camera.Metadata.Descriptor.{
  SdkId, invalid_endpoint, has_camera_clusters, read_endpoint_descriptor, read_camera_capabilities,
  read_camera_privacy,
}
use matter_winrt.Camera.Metadata.Streams.{
  AudioStream, reserved, read_camera_video_streams, read_camera_audio_streams,
  find_allocated_live_view_stream,
}
use matter_winrt.Camera.Metadata.Streams.Options.{
  AudioRequest, known_depth, validate_camera_selected_video,
}
use matter_winrt.Camera.Metadata.Audio.{
  Staged, during, descriptor_stage, capabilities_stage, AudioFormat, AudioCapabilities, Feature,
  validate_format, supports_client_offer,
}
use matter_winrt.Camera.Prepared.{
  Ending, canceled_error, selection_stage, signaling_stage, session_end_stage, recover, owning,
  refused_sdp,
}

-- What decides the start of a session besides the reads.
pub record Startup : Type 0 where
  pub enabled : Result Fault (Unit {0})
  pub canceled_before : Bool
  pub started : Result Fault ℕ
  pub selected : Result Fault (Option ℕ × Option ℕ)
  pub canceled_after : Bool
  pub release : Result Fault (Unit {0})

-- The SDK's numbers of StreamUsageEnum::kLiveView and of the codecs.
pub record Numbers : Type 0 where
  pub live_view : ℕ
  pub h264 : ℕ
  pub opus : ℕ
  pub aac_lc : ℕ

unfoldable pub find_audio : List AudioStream → ℕ → Option AudioStream
find_audio [] n = none
find_audio (s ∷ rest) n = let later = find_audio rest n in if s.stream == n then some s else later

module _ (k : Numbers) where
  abbrev pub request_of : AudioStream → AudioRequest
  request_of s = record {
    usage = k.live_view;
    codec = s.codec;
    channels = s.channels;
    sample_rate = s.sample_rate;
    bit_rate = s.bit_rate;
    bit_depth = s.bit_depth;
  }

  -- Validate of the microphone's format, which must not be null.
  unfoldable pub validate_microphone : Option AudioFormat → AudioRequest → Result Fault (Unit {0})
  unfolding validate_format
  validate_microphone none r = err null_dereference
  validate_microphone (some f) r = validate_format f r

  unfoldable pub selected_audio : AudioCapabilities → Option AudioStream → Result Fault (Unit {0})
  unfolding validate_microphone
  selected_audio c none = err (throws Failure.Hresult.invalid_argument)
  selected_audio c (some s) =
      if not (s.usage == k.live_view)
      then err (throws Failure.Hresult.invalid_argument)
      else if (not (s.codec == k.opus) && not (s.codec == k.aac_lc))
          || not (known_depth s.bit_depth)
          || ltb c.bandwidth s.bit_rate
      then err (throws Failure.Hresult.not_implemented)
      else validate_microphone c.microphone.format (request_of s)

  unfoldable pub validate_camera_selected_audio :
      AudioCapabilities → List AudioStream → ℕ → Result Fault (Unit {0})
  unfolding selected_audio find_audio
  validate_camera_selected_audio c streams id = selected_audio c (find_audio streams id)

abbrev pub is_absent : Selection → Bool
is_absent absent = true
is_absent _ = false

-- StartPreparedCamera after Record.
abbrev pub camera_started : ℕ → Bool → Staged ℕ
camera_started handle canceled_after =
    if canceled_after then (signaling_stage, err canceled_error) else (signaling_stage, ok handle)

module _ {H F : Type 0} (same : H → H → Bool) (key : Key → H) (id : SdkId → ℕ) (bit : Feature → ℕ)
    (k : Numbers) (read : ℕ → SdkId → SdkId → Result Fault (Fields H F)) (endpoint : ℕ) where
  -- The stream must be in the list of allocated streams.
  unfoldable pub stream_listed : ℕ → Result Fault (Unit {0})
  unfolding read_camera_video_streams find_allocated_live_view_stream
  stream_listed stream = read_camera_video_streams same key read endpoint >>= λ streams.
      if is_some (find_allocated_live_view_stream k.live_view streams stream)
      then ok tt
      else err (throws Failure.Hresult.invalid_argument)

  -- StartPreparedCamera up to StartCamera.
  unfoldable pub camera_prepared : Bool → ℕ → List ℕ → Startup → Staged (Unit {0})
  unfolding refused_sdp read_endpoint_descriptor has_camera_clusters read_camera_capabilities
      supports_client_offer read_camera_privacy stream_listed
  camera_prepared is_operational stream sdp x =
      if x.canceled_before
      then (Stage.validation, err canceled_error)
      else if not is_operational
          || (endpoint == invalid_endpoint)
          || (stream == reserved)
          || refused_sdp sdp
      then (Stage.validation, err (throws Failure.Hresult.invalid_argument))
      else during Stage.validation x.enabled (λ _.
        during descriptor_stage
          (read_endpoint_descriptor same key id read endpoint >>= λ d.
            if has_camera_clusters id d then ok d else err (throws Failure.Hresult.not_implemented))
          (λ d.
            during capabilities_stage
              (read_camera_capabilities same key id read d >>= λ c.
                if supports_client_offer id bit c
                then ok c
                else err (throws Failure.Hresult.not_implemented))
              (λ c. during Stage.privacy (read_camera_privacy same key id read c) (λ _.
                during selection_stage (stream_listed stream) (λ _. (selection_stage, ok tt))))))

  unfoldable pub start_prepared_camera : Bool → ℕ → List ℕ → Startup → Ending ℕ
  unfolding camera_prepared
  start_prepared_camera is_operational stream sdp x =
      owning (camera_prepared is_operational stream sdp x) (λ _.
        owning (signaling_stage, x.started)
          (λ handle.
            recover session_end_stage x.release handle (camera_started handle x.canceled_after)))

  -- The checks of the video and of the audio that a session uses; `none` is neither.
  unfoldable pub check_video : Option ℕ → Result Fault (Unit {0})
  unfolding read_camera_video_streams validate_camera_selected_video
  check_video none = ok tt
  check_video (some n) = read_camera_video_streams same key read endpoint >>= λ streams.
      validate_camera_selected_video k.live_view k.h264 streams n

  unfoldable pub check_audio : AudioCapabilities → Option ℕ → Result Fault (Unit {0})
  unfolding read_camera_audio_streams validate_camera_selected_audio
  check_audio c none = ok tt
  check_audio c (some n) = read_camera_audio_streams same key read endpoint >>= λ streams.
      validate_camera_selected_audio k c streams n

abbrev pub explicit : Selection → Option ℕ
explicit (explicit_id n) = some n
explicit _ = none
