-- ===== src/Camera/Metadata/Streams.antt =====
-- winrt/Projection.cpp, MatterCameraVideoStream, MatterCameraAudioStream,
-- ReadCameraVideoStreams, ReadCameraAudioStreams and FindAllocatedLiveViewStream.
pub mod Options
pub mod Listing
pub mod Usable
use matter_winrt.Base.{
  ℕ, ltb, ◌==◌, ◌||◌, ◌&&◌, Bool, true, false, List, [], ◌∷◌, ◌++◌, Option, none, some,
  if◌then◌else◌, Result, ok, err, ◌>>=◌,
}
use matter_winrt.Tlv.{Value, Items, no_items, item, Fields}
use matter_winrt.Tlv.Root.{lookup}
use matter_winrt.Camera.Metadata.{
  Fault, bounds_error, null_dereference, Key, number, has_key, as_property_set, unbox_bool, raised,
  camera_stream_field, descriptor_list,
}
use matter_winrt.Camera.Metadata.Descriptor.{
  SdkId, camera_av_stream_management, allocated_video_streams, allocated_audio_streams, max_8,
  max_16, max_32,
}

pub record Size : Type 0 where
  pub width : ℕ
  pub height : ℕ

pub record VideoStream : Type 0 where
  pub stream : ℕ
  pub usage : ℕ
  pub codec : ℕ
  pub min_frame_rate : ℕ
  pub max_frame_rate : ℕ
  pub min_size : Size
  pub max_size : Size
  pub min_bit_rate : ℕ
  pub max_bit_rate : ℕ
  pub key_frame_interval : ℕ
  pub references : ℕ
  pub watermark : Option Bool
  pub on_screen_display : Option Bool

pub record AudioStream : Type 0 where
  pub stream : ℕ
  pub usage : ℕ
  pub codec : ℕ
  pub channels : ℕ
  pub sample_rate : ℕ
  pub bit_rate : ℕ
  pub bit_depth : ℕ
  pub references : ℕ

-- The reserved stream identifier.
abbrev pub reserved : ℕ
reserved = 65535

-- The members of MatterCameraVideoStream before the check, in the order of their fields.
abbrev pub reported : ℕ → ℕ → ℕ → ℕ → ℕ → ℕ → ℕ → ℕ → ℕ → Size × Size → VideoStream
reported stream usage codec low_rate high_rate low_bits high_bits interval references sizes =
    record {
      stream = stream;
      usage = usage;
      codec = codec;
      min_frame_rate = low_rate;
      max_frame_rate = high_rate;
      min_size = sizes.0;
      max_size = sizes.1;
      min_bit_rate = low_bits;
      max_bit_rate = high_bits;
      key_frame_interval = interval;
      references = references;
      watermark = none;
      on_screen_display = none;
    }

-- Identifier and bounds of a stream that the camera reports.
unfoldable pub refused_video : VideoStream → Bool
refused_video s =
    s.stream == reserved
    || ltb s.max_frame_rate s.min_frame_rate
    || ltb s.max_size.width s.min_size.width
    || ltb s.max_size.height s.min_size.height
    || ltb s.max_bit_rate s.min_bit_rate

unfoldable pub checked_video : VideoStream → Result Fault VideoStream
unfolding refused_video
checked_video s = if refused_video s then err bounds_error else ok s

unfoldable pub checked_audio : AudioStream → Result Fault AudioStream
checked_audio s =
    if s.stream == reserved
      || s.channels == 0
      || ltb 8 s.channels
      || s.sample_rate == 0
      || s.bit_rate == 0
      || s.bit_depth == 0
    then err bounds_error
    else ok s

module _ {H F : Type 0} (same : H → H → Bool) (key : Key → H) where
  abbrev numbered : Option (Fields H F) → ℕ → ℕ → Result Fault ℕ
  unfolding camera_stream_field
  numbered fields max n = camera_stream_field same key max (number n) fields

  -- A resolution; as<IPropertySet> of its value, and its two fields.
  unfoldable pub resolution : Option (Fields H F) → Result Fault Size
  unfolding camera_stream_field
  resolution fields = camera_stream_field same key max_16 (number 0) fields >>= λ width.
      camera_stream_field same key max_16 (number 1) fields >>= λ height.
      ok (record { width = width; height = height })

  -- unbox_value<bool> of an optional field; a null dereference on null.
  unfoldable pub optional_flag : Option (Value H F) → Result Fault (Option Bool)
  unfolding unbox_bool
  optional_flag none = ok none
  optional_flag (some Value.null) = err null_dereference
  optional_flag (some v) = raised (unbox_bool v) >>= λ b. ok (some b)

  -- Both resolutions are converted before their fields are read.
  unfoldable pub resolutions : Fields H F → Result Fault (Size × Size)
  unfolding lookup as_property_set resolution
  resolutions fields = elim (lookup same (key (number 5)) fields) [
    | none ↦ err bounds_error
    | some minimum ↦ elim (lookup same (key (number 6)) fields) [
      | none ↦ err bounds_error
      | some maximum ↦ as_property_set minimum >>= λ low. as_property_set maximum >>= λ high.
          resolution low >>= λ small. resolution high >>= λ large. ok (small, large)
    ]
  ]

  -- The optional fields are read after the check.
  unfoldable pub with_flags : Fields H F → VideoStream → Result Fault VideoStream
  unfolding lookup optional_flag
  with_flags fields s = optional_flag (lookup same (key (number 10)) fields) >>= λ watermark.
      optional_flag (lookup same (key (number 11)) fields) >>= λ display.
      ok (record s { watermark = watermark; on_screen_display = display })

  -- The constructor of MatterCameraVideoStream; a null property set is `none`.
  unfoldable pub video_stream : Option (Fields H F) → Result Fault VideoStream
  unfolding camera_stream_field resolutions checked_video with_flags
  video_stream none = err bounds_error
  video_stream (some fields) =
      let get = numbered (some fields) in
      get max_16 0 >>= λ stream. get max_8 1 >>= λ usage. get max_8 2 >>= λ codec.
      get max_16 3 >>= λ min_frame_rate. get max_16 4 >>= λ max_frame_rate.
      get max_32 7 >>= λ min_bit_rate. get max_32 8 >>= λ max_bit_rate. get max_16 9 >>= λ interval.
      get max_8 12 >>= λ references. resolutions fields >>= λ sizes.
      checked_video (
        reported stream usage codec min_frame_rate max_frame_rate min_bit_rate max_bit_rate interval
          references sizes)
      >>= with_flags fields

  -- The constructor of MatterCameraAudioStream.
  unfoldable pub audio_stream : Option (Fields H F) → Result Fault AudioStream
  unfolding camera_stream_field checked_audio
  audio_stream fields =
      let get = numbered fields in
      get max_16 0 >>= λ stream. get max_8 1 >>= λ usage. get max_8 2 >>= λ codec.
      get max_8 3 >>= λ channels. get max_32 4 >>= λ sample_rate. get max_32 5 >>= λ bit_rate.
      get max_8 6 >>= λ bit_depth. get max_8 7 >>= λ references. checked_audio (record {
        stream = stream;
        usage = usage;
        codec = codec;
        channels = channels;
        sample_rate = sample_rate;
        bit_rate = bit_rate;
        bit_depth = bit_depth;
        references = references;
      })

-- The loops over the allocated streams: `make` is the constructor, `id_of` StreamId.
module _ {H F A : Type 0} (make : Option (Fields H F) → Result Fault A) (id_of : A → ℕ) where
  unfoldable pub has_stream : ℕ → List A → Bool
  has_stream n [] = false
  has_stream n (a ∷ rest) = let later = has_stream n rest in (id_of a == n) || later

  -- `streams` are those of the entries before.
  unfoldable pub add_stream : List A → A → Result Fault (List A)
  unfolding has_stream
  add_stream streams a =
      if has_stream (id_of a) streams then err bounds_error else ok (streams ++ a ∷ [])

  unfoldable pub add_streams : List A → Items H F → Result Fault (List A)
  unfolding add_stream as_property_set
  add_streams streams no_items = ok streams
  add_streams streams (item v rest) =
      as_property_set v >>= make >>= add_stream streams >>= λ more. add_streams more rest

module _ {H F : Type 0} (same : H → H → Bool) (key : Key → H)
    (read : ℕ → SdkId → SdkId → Result Fault (Fields H F)) where
  unfoldable pub read_camera_video_streams : ℕ → Result Fault (List VideoStream)
  unfolding descriptor_list add_streams video_stream
  read_camera_video_streams endpoint =
      read endpoint camera_av_stream_management allocated_video_streams
      >>= (λ fields. descriptor_list same key (some fields))
      >>= add_streams (video_stream same key) (λ s. s.stream) []

  unfoldable pub read_camera_audio_streams : ℕ → Result Fault (List AudioStream)
  unfolding descriptor_list add_streams audio_stream
  read_camera_audio_streams endpoint =
      read endpoint camera_av_stream_management allocated_audio_streams
      >>= (λ fields. descriptor_list same key (some fields))
      >>= add_streams (audio_stream same key) (λ s. s.stream) []

-- `live_view` is the SDK's number of StreamUsageEnum::kLiveView.
module _ (live_view : ℕ) where
  unfoldable pub find_allocated_live_view_stream : List VideoStream → ℕ → Option VideoStream
  find_allocated_live_view_stream [] n = none
  find_allocated_live_view_stream (s ∷ rest) n =
      let later = find_allocated_live_view_stream rest n in
      if (s.stream == n) && (s.usage == live_view) then some s else later
