-- ===== src/Camera/Metadata/Sample.antt =====
-- A camera for tests: what its endpoint answers to the reads of winrt/Projection.cpp.
use matter_winrt.Base.{ℕ, suc, Bool, false, List, [], ◌∷◌, ◌==◌, Result, ok}
use matter_winrt.Tlv.{
  boolean, uint64, Value, property, vector, property_set, Items, no_items, item, Fields, no_fields,
  field,
}
use matter_winrt.Camera.Metadata.{Fault, Key, value, number}
use matter_winrt.Camera.Metadata.Descriptor.{
  SdkId, camera_av_stream_management, webrtc_provider, webrtc_requestor, parts_list, server_list,
  client_list, device_type_list, cluster_revision, feature_map, hard_privacy_mode_on,
  soft_livestream_privacy_mode_enabled, allocated_video_streams, allocated_audio_streams,
  microphone_capabilities, speaker_capabilities, microphone_muted, microphone_volume_level,
  microphone_min_level, microphone_max_level, speaker_muted, speaker_volume_level,
  speaker_min_level, speaker_max_level, two_way_talk_support, supported_stream_usages,
  max_network_bandwidth, video_sensor_params, min_viewport_resolution,
}
use matter_winrt.Camera.Metadata.Audio.{Feature, video, audio, speaker_feature}

-- Keys as numbers: L"value" is 0.
abbrev pub key : Key → ℕ
key value = 0
key (number n) = suc n

abbrev pub same : ℕ → ℕ → Bool
same a b = a == b

abbrev pub id : SdkId → ℕ
id camera_av_stream_management = 1361
id webrtc_provider = 1363
id webrtc_requestor = 1364
id _ = 29

abbrev pub bit : Feature → ℕ
bit audio = 0
bit video = 1
bit speaker_feature = 2

abbrev pub items : List ℕ → Items ℕ ℕ
items [] = no_items
items (n ∷ ns) = item (property (uint64 n)) (items ns)

abbrev pub list_of : Items ℕ ℕ → Fields ℕ ℕ
list_of xs = field 0 (vector xs) no_fields

abbrev pub number_of : ℕ → Fields ℕ ℕ
number_of n = field 0 (property (uint64 n)) no_fields

abbrev pub flag_of : Bool → Fields ℕ ℕ
flag_of b = field 0 (property (boolean b)) no_fields

-- The numbers under the keys from n on.
abbrev pub numbers : ℕ → List ℕ → Fields ℕ ℕ → Fields ℕ ℕ
numbers n [] rest = rest
numbers n (v ∷ vs) rest = field (suc n) (property (uint64 v)) (numbers (suc n) vs rest)

abbrev pub size_of : ℕ → ℕ → Value ℕ ℕ
size_of w h = property_set (numbers 0 (w ∷ h ∷ []) no_fields)

abbrev pub video_fields : Fields ℕ ℕ
video_fields = numbers 0 (4 ∷ 3 ∷ 0 ∷ 30 ∷ 30 ∷ []) (
    field 6 (size_of 640 480) (
      field 7 (size_of 640 480)
        (numbers 7 (600000 ∷ 900000 ∷ 1000 ∷ []) (field 13 (property (uint64 0)) no_fields))))

abbrev pub format_fields : Fields ℕ ℕ
format_fields = field 1 (property (uint64 2)) (
    field 2 (vector (items (0 ∷ [])))
      (field 3 (vector (items (48000 ∷ []))) (field 4 (vector (items (16 ∷ []))) no_fields)))

-- The answers of the camera, with its privacy and its video streams.
abbrev pub answers : Bool → Items ℕ ℕ → ℕ → SdkId → SdkId → Result Fault (Fields ℕ ℕ)
answers privacy streams endpoint cluster parts_list = ok (list_of no_items)
answers privacy streams endpoint cluster server_list = ok (list_of (items (1361 ∷ 1363 ∷ [])))
answers privacy streams endpoint cluster client_list = ok (list_of (items (1364 ∷ [])))
answers privacy streams endpoint cluster device_type_list =
    ok (list_of (item (property_set (numbers 0 (322 ∷ 1 ∷ []) no_fields)) no_items))
answers privacy streams endpoint cluster cluster_revision = ok (number_of 2)
answers privacy streams endpoint cluster feature_map = ok (number_of 7)
answers privacy streams endpoint cluster hard_privacy_mode_on = ok (flag_of privacy)
answers privacy streams endpoint cluster soft_livestream_privacy_mode_enabled = ok (flag_of false)
answers privacy streams endpoint cluster allocated_video_streams = ok (list_of streams)
answers privacy streams endpoint cluster allocated_audio_streams = ok (
    list_of (
      item (property_set (numbers 0 (6 ∷ 3 ∷ 0 ∷ 2 ∷ 48000 ∷ 64000 ∷ 16 ∷ 0 ∷ []) no_fields))
        no_items))
answers privacy streams endpoint cluster microphone_capabilities = ok format_fields
answers privacy streams endpoint cluster speaker_capabilities = ok format_fields
answers privacy streams endpoint cluster microphone_muted = ok (flag_of false)
answers privacy streams endpoint cluster speaker_muted = ok (flag_of false)
answers privacy streams endpoint cluster microphone_volume_level = ok (number_of 5)
answers privacy streams endpoint cluster speaker_volume_level = ok (number_of 5)
answers privacy streams endpoint cluster microphone_min_level = ok (number_of 1)
answers privacy streams endpoint cluster speaker_min_level = ok (number_of 1)
answers privacy streams endpoint cluster microphone_max_level = ok (number_of 9)
answers privacy streams endpoint cluster speaker_max_level = ok (number_of 9)
answers privacy streams endpoint cluster two_way_talk_support = ok (number_of 1)
answers privacy streams endpoint cluster supported_stream_usages = ok (list_of (items (3 ∷ [])))
answers privacy streams endpoint cluster max_network_bandwidth = ok (number_of 1000000)
answers privacy streams endpoint cluster video_sensor_params =
    ok (numbers 0 (1920 ∷ 1080 ∷ 60 ∷ []) no_fields)
answers privacy streams endpoint cluster min_viewport_resolution =
    ok (numbers 0 (320 ∷ 240 ∷ []) no_fields)
answers privacy streams endpoint cluster _ = ok (list_of (items (29 ∷ [])))

abbrev pub camera : ℕ → SdkId → SdkId → Result Fault (Fields ℕ ℕ)
camera = answers false (item (property_set video_fields) no_items)
