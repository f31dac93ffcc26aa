-- ===== src/Camera/Metadata/Audio.antt =====
-- winrt/Projection.cpp, the audio of a camera: formats, features and advertised commands, and what they
-- support: listening, a client's offer, the audio adapter.
pub mod Reading
pub mod Control
pub mod Tests
use matter_winrt.Base.{
  ℕ, ◌/◌, ◌%◌, ◌^◌, ltb, leb, ◌==◌, ◌||◌, ◌&&◌, not, Bool, true, false, List, [], ◌∷◌, Option, none,
  some, if◌then◌else◌, Result, ok, err, ◌>>=◌, is_some,
}
use matter_winrt.Tlv.{Value, Fields, no_fields, field}
use matter_winrt.Tlv.Root.{lookup}
use matter_winrt.Camera.Failure.{Stage}
use matter_winrt.Camera.Failure
use matter_winrt.Camera.Metadata.{
  Fault, throws, bounds_error, Key, value, number, advertises, descriptor_numeric_list,
  camera_stream_field, boolean_scalar,
}
use matter_winrt.Camera.Metadata.Descriptor.{
  SdkId, camera_av_stream_management, webrtc_requestor, microphone_capabilities,
  speaker_capabilities, two_way_talk_support, microphone_muted, microphone_volume_level,
  microphone_min_level, microphone_max_level, speaker_muted, speaker_volume_level,
  speaker_min_level, speaker_max_level, allocated_audio_streams, supported_stream_usages,
  max_network_bandwidth, audio_stream_allocate, audio_stream_deallocate,
  audio_stream_allocate_response, provide_offer, provide_ice_candidates, end_session,
  provide_offer_response, DeviceType, Descriptor, ClusterCapabilities, CameraCapabilities,
  has_camera_clusters, max_8, max_32, read_endpoint_descriptor, read_camera_capabilities,
  camera_privacy_enabled, invalid_endpoint,
}
use matter_winrt.Camera.Metadata.Streams.Options.{AudioRequest, known_depth}

-- An operation ends at a stage, with a result or a fault.
abbrev pub Staged : Type 0 → Type 0
Staged A = Stage × Result Fault A

abbrev pub during : {A B : Type 0} → Stage → Result Fault A → (A → Staged B) → Staged B
during s (ok a) k = k a
during s (err e) k = (s, err e)

abbrev pub after : {A B : Type 0} → Staged A → (A → Staged B) → Staged B
after (s, ok a) k = k a
after (s, err e) k = (s, err e)

-- MatterCameraStage, by its numbers.
abbrev pub descriptor_stage : Stage
descriptor_stage = Stage.other 1

abbrev pub capabilities_stage : Stage
capabilities_stage = Stage.other 8

pub record AudioFormat : Type 0 where
  pub channels : ℕ
  pub codecs : List ℕ
  pub rates : List ℕ
  pub depths : List ℕ

-- The microphone's or the speaker's part; what the camera does not advertise is `none`.
pub record AudioSide : Type 0 where
  pub format : Option AudioFormat
  pub muted : Option Bool
  pub volume : Option ℕ
  pub minimum : Option ℕ
  pub maximum : Option ℕ

pub record AudioCapabilities : Type 0 where
  pub camera : CameraCapabilities
  pub microphone : AudioSide
  pub speaker : AudioSide
  pub talk : Option ℕ
  pub bandwidth : ℕ
  pub privacy : Bool

pub data Feature : Type 0 where
  video audio speaker_feature : Feature

-- MatterCameraAudioFormatCapabilities::Validate.
unfoldable pub validate_format : AudioFormat → AudioRequest → Result Fault (Unit {0})
unfolding advertises
validate_format f r =
    if f.channels == 0
      || ltb 8 f.channels
      || r.channels == 0
      || ltb f.channels r.channels
      || r.sample_rate == 0
      || r.bit_depth == 0
      || not (advertises f.codecs r.codec)
      || not (advertises f.rates r.sample_rate)
      || not (advertises f.depths r.bit_depth)
    then err (throws Failure.Hresult.not_implemented)
    else ok tt

unfoldable pub any : {A : Type 0} → (A → Bool) → List A → Bool
any p [] = false
any p (x ∷ xs) = let rest = any p xs in p x || rest

module _ (id : SdkId → ℕ) (bit : Feature → ℕ) where
  -- The bit of a feature in a feature map.
  unfoldable pub has_feature : Feature → ℕ → Bool
  has_feature f features = (features / 2 ^ bit f) % 2 == 1

  abbrev pub offers : List ℕ → SdkId → Bool
  unfolding advertises
  offers list i = advertises list (id i)

  unfoldable pub supports_client_offer : CameraCapabilities → Bool
  unfolding has_feature advertises
  supports_client_offer c =
      has_feature video c.stream.features
      && offers c.transport.accepted provide_offer
      && offers c.transport.accepted provide_ice_candidates
      && offers c.transport.accepted end_session
      && offers c.transport.generated provide_offer_response

  -- The device type 0x0142 is a camera.
  unfoldable pub is_camera_audio_adapter : CameraCapabilities → Bool
  unfolding any has_camera_clusters advertises
  is_camera_audio_adapter c =
      any (λ (t : DeviceType). (t.device_type == 322) && leb t.revision 2) c.descriptor.types
      && has_camera_clusters id c.descriptor
      && offers c.descriptor.clients webrtc_requestor
      && c.stream.revision == 2
      && c.transport.revision == 2

  unfoldable pub require_camera_audio_adapter : CameraCapabilities → Result Fault (Unit {0})
  unfolding is_camera_audio_adapter
  require_camera_audio_adapter c =
      if is_camera_audio_adapter c then ok tt else err (throws Failure.Hresult.not_implemented)

  unfoldable pub camera_offers_audio : CameraCapabilities → Bool
  unfolding has_feature advertises
  camera_offers_audio c =
      has_feature audio c.stream.features
      && offers c.stream.attributes microphone_capabilities
      && offers c.stream.attributes allocated_audio_streams
      && offers c.stream.attributes supported_stream_usages
      && offers c.stream.accepted audio_stream_allocate
      && offers c.stream.accepted audio_stream_deallocate
      && offers c.stream.generated audio_stream_allocate_response
      && offers c.transport.accepted provide_offer
      && offers c.transport.accepted provide_ice_candidates
      && offers c.transport.accepted end_session
      && offers c.transport.generated provide_offer_response

  -- `opus` and `aac_lc` are the SDK's numbers of the two codecs.
  unfoldable pub supports_listening : ℕ → ℕ → AudioCapabilities → Bool
  unfolding is_camera_audio_adapter camera_offers_audio any advertises
  supports_listening opus aac_lc c = elim c.microphone.format [
    | none ↦ false
    | some f ↦
        is_camera_audio_adapter c.camera
        && camera_offers_audio c.camera
        && leb 1 f.channels
        && leb f.channels 8
        && any (λ rate. not (rate == 0)) f.rates
        && (advertises f.codecs opus || advertises f.codecs aac_lc)
        && any known_depth f.depths
  ]

  unfoldable pub require_listening : ℕ → ℕ → AudioCapabilities → Staged (Unit {0})
  unfolding supports_listening
  require_listening opus aac_lc c =
      if supports_listening opus aac_lc c
      then if c.privacy
        then (Stage.privacy, err (throws Failure.Hresult.access_denied))
        else (Stage.privacy, ok tt)
      else (capabilities_stage, err (throws Failure.Hresult.not_implemented))
