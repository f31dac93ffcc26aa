-- ===== src/Camera/Metadata/Audio/Reading.antt =====
-- winrt/Projection.cpp, MatterCameraAudioFormatCapabilities and ReadCameraAudioCapabilities: the reads of
-- one endpoint, in their order.
use matter_winrt.Base.{
  ℕ, ◌==◌, ◌||◌, ◌&&◌, not, Bool, false, List, Option, none, some, if◌then◌else◌, Result, ok, err,
  ◌>>=◌,
}
use matter_winrt.Tlv.{Fields, no_fields, field}
use matter_winrt.Tlv.Root.{lookup}
use matter_winrt.Camera.Failure.{Stage}
use matter_winrt.Camera.Failure
use matter_winrt.Camera.Metadata.{
  Fault, throws, bounds_error, Key, value, number, advertises, descriptor_numeric_list,
  camera_stream_field, boolean_scalar,
}
use matter_winrt.Camera.Metadata.Descriptor.{
  SdkId, camera_av_stream_management, microphone_capabilities, speaker_capabilities,
  two_way_talk_support, microphone_muted, microphone_volume_level, microphone_min_level,
  microphone_max_level, speaker_muted, speaker_volume_level, speaker_min_level, speaker_max_level,
  max_network_bandwidth, CameraCapabilities, max_8, max_32, read_endpoint_descriptor,
  read_camera_capabilities, camera_privacy_enabled, invalid_endpoint,
}
use matter_winrt.Camera.Metadata.Audio.{
  Staged, during, descriptor_stage, capabilities_stage, AudioFormat, AudioSide, AudioCapabilities,
  Feature, audio, speaker_feature, has_feature, offers, require_camera_audio_adapter,
}

module _ {H F : Type 0} (same : H → H → Bool) (key : Key → H) where
  -- One list of the format: a property set of its own is made of it.
  unfoldable pub format_list : ℕ → ℕ → Fields H F → Result Fault (List ℕ)
  unfolding lookup descriptor_numeric_list
  format_list max n fields = elim (lookup same (key (number n)) fields) [
    | none ↦ err bounds_error
    | some v ↦ descriptor_numeric_list same key max (some (field (key value) v no_fields))
  ]

  -- The constructor of MatterCameraAudioFormatCapabilities.
  unfoldable pub audio_format : Fields H F → Result Fault AudioFormat
  unfolding camera_stream_field format_list
  audio_format fields = camera_stream_field same key max_8 (number 0) (some fields) >>= λ channels.
      format_list max_8 1 fields >>= λ codecs. format_list max_32 2 fields >>= λ rates.
      format_list max_8 3 fields >>= λ depths.
      ok (record { channels = channels; codecs = codecs; rates = rates; depths = depths })

module _ {H F : Type 0} (same : H → H → Bool) (key : Key → H) (id : SdkId → ℕ) (bit : Feature → ℕ)
    (read : ℕ → SdkId → SdkId → Result Fault (Fields H F)) (endpoint : ℕ) where
  abbrev read_stream : SdkId → Result Fault (Fields H F)
  read_stream attribute = read endpoint camera_av_stream_management attribute

  unfoldable pub read_format :
      CameraCapabilities → Feature → SdkId → Result Fault (Option AudioFormat)
  unfolding has_feature advertises audio_format
  read_format c f attribute =
      if has_feature id bit f c.stream.features && offers id bit c.stream.attributes attribute
      then (read_stream attribute >>= audio_format same key >>= λ format. ok (some format))
      else ok none

  unfoldable pub read_number : List ℕ → SdkId → Result Fault (Option ℕ)
  unfolding advertises camera_stream_field
  read_number attributes attribute =
      if offers id bit attributes attribute
      then (read_stream attribute
          >>= (λ fields. camera_stream_field same key max_8 value (some fields))
          >>= λ n. ok (some n))
      else ok none

  unfoldable pub read_boolean : List ℕ → SdkId → Result Fault (Option Bool)
  unfolding advertises boolean_scalar
  read_boolean attributes attribute =
      if offers id bit attributes attribute
      then (read_stream attribute >>= boolean_scalar same key >>= λ b. ok (some b))
      else ok none

  -- The controls of one side, which are read if it has a format.
  unfoldable pub read_side :
      List ℕ → Option AudioFormat → SdkId → SdkId → SdkId → SdkId → Result Fault AudioSide
  unfolding read_number read_boolean
  read_side attributes none muted volume minimum maximum =
      ok (record { format = none; muted = none; volume = none; minimum = none; maximum = none })
  read_side attributes (some format) muted volume minimum maximum =
      read_boolean attributes muted >>= λ m. read_number attributes volume >>= λ v.
      read_number attributes minimum >>= λ low. read_number attributes maximum >>= λ high.
      ok (record { format = some format; muted = m; volume = v; minimum = low; maximum = high })

  unfoldable pub read_talk : List ℕ → Option AudioFormat → Result Fault (Option ℕ)
  unfolding read_number
  read_talk attributes none = ok none
  read_talk attributes (some format) = read_number attributes two_way_talk_support

  unfoldable pub read_bandwidth : List ℕ → Result Fault ℕ
  unfolding advertises camera_stream_field
  read_bandwidth attributes =
      if offers id bit attributes max_network_bandwidth
      then (read_stream max_network_bandwidth
          >>= (λ fields. camera_stream_field same key max_32 value (some fields))
          >>= λ n. if n == 0 then err bounds_error else ok n)
      else err (throws Failure.Hresult.not_implemented)

  -- ReadCameraAudioCapabilities from RequireCameraAudioAdapter to the stage of privacy.
  unfoldable pub read_audio : CameraCapabilities → Result Fault AudioCapabilities
  unfolding require_camera_audio_adapter read_format read_side read_talk read_bandwidth
  read_audio c = require_camera_audio_adapter id bit c >>= λ _.
      read_format c audio microphone_capabilities >>= λ microphone.
      read_format c speaker_feature speaker_capabilities >>= λ speaker.
      read_side c.stream.attributes microphone microphone_muted microphone_volume_level
        microphone_min_level microphone_max_level
      >>= λ near. read_talk c.stream.attributes speaker >>= λ talk.
          read_side c.stream.attributes speaker speaker_muted speaker_volume_level speaker_min_level
            speaker_max_level
          >>= λ far. read_bandwidth c.stream.attributes >>= λ bandwidth. ok (record {
            camera = c;
            microphone = near;
            speaker = far;
            talk = talk;
            bandwidth = bandwidth;
            privacy = false;
          })

  -- `is_operational` is IsOperationalNodeId of the node.
  unfoldable pub read_camera_audio_capabilities : Bool → Staged AudioCapabilities
  unfolding read_endpoint_descriptor read_camera_capabilities read_audio camera_privacy_enabled
  read_camera_audio_capabilities is_operational =
      if not is_operational || (endpoint == invalid_endpoint)
      then (Stage.validation, err (throws Failure.Hresult.invalid_argument))
      else during descriptor_stage (read_endpoint_descriptor same key id read endpoint) (λ d.
        during capabilities_stage (read_camera_capabilities same key id read d >>= read_audio) (λ c.
          during Stage.privacy
            (camera_privacy_enabled same key id read endpoint c.camera.stream.attributes)
            (λ p. (Stage.privacy, ok (record c { privacy = p })))))
