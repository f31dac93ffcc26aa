-- ===== src/Camera/Metadata/Streams/Options.antt =====
-- winrt/Projection.cpp, MatterCameraVideoStreamOptions and MatterCameraAudioStreamOptions: the requests
-- of an allocation, what Snapshot accepts, and what ValidateAllocated asks of the stream that the camera
-- then reports; ValidateCameraSelectedVideo.
use matter_winrt.Base.{
  ℕ, ltb, ◌==◌, ◌||◌, ◌&&◌, not, Bool, List, Option, none, some, if◌then◌else◌, Result, ok, err,
}
use matter_winrt.Camera.Failure
use matter_winrt.Camera.Metadata.{Fault, throws, bounds_error}
use matter_winrt.Camera.Metadata.Streams.{
  Size, VideoStream, AudioStream, find_allocated_live_view_stream,
}

-- The request of VideoStreamAllocate.
pub record VideoRequest : Type 0 where
  pub usage : ℕ
  pub codec : ℕ
  pub min_frame_rate : ℕ
  pub max_frame_rate : ℕ
  pub min_size : Size
  pub max_size : Size
  pub min_bit_rate : ℕ
  pub max_bit_rate : ℕ
  pub key_frame_interval : ℕ

-- The request of AudioStreamAllocate.
pub record AudioRequest : Type 0 where
  pub usage : ℕ
  pub codec : ℕ
  pub channels : ℕ
  pub sample_rate : ℕ
  pub bit_rate : ℕ
  pub bit_depth : ℕ

-- The constructor of MatterCameraVideoStreamOptions; `live_view` and `h264` are the SDK's numbers.
abbrev pub video_options : ℕ → ℕ → VideoRequest
video_options live_view h264 = record {
  usage = live_view;
  codec = h264;
  min_frame_rate = 30;
  max_frame_rate = 30;
  min_size = record { width = 640; height = 480 };
  max_size = record { width = 640; height = 480 };
  min_bit_rate = 500000;
  max_bit_rate = 2000000;
  key_frame_interval = 1000;
}

-- MatterCameraVideoStreamOptions::Snapshot.
unfoldable pub video_snapshot : VideoRequest → Result Fault VideoRequest
video_snapshot r =
    if r.min_size.width == 0
      || r.min_size.height == 0
      || r.min_frame_rate == 0
      || r.min_bit_rate == 0
      || r.key_frame_interval == 0
      || ltb r.max_size.width r.min_size.width
      || ltb r.max_size.height r.min_size.height
      || ltb r.max_frame_rate r.min_frame_rate
      || ltb r.max_bit_rate r.min_bit_rate
    then err (throws Failure.Hresult.invalid_argument)
    else ok r

-- MatterCameraVideoStreamOptions::ValidateAllocated, of a stream that is not null.
unfoldable pub validate_video : ℕ → VideoRequest → VideoStream → Result Fault (Unit {0})
validate_video live_view r s =
    if not (s.usage == live_view)
      || not (s.codec == r.codec)
      || ltb s.min_size.width r.min_size.width
      || ltb s.min_size.height r.min_size.height
      || ltb r.max_size.width s.max_size.width
      || ltb r.max_size.height s.max_size.height
      || ltb s.min_frame_rate r.min_frame_rate
      || ltb r.max_frame_rate s.max_frame_rate
      || ltb s.min_bit_rate r.min_bit_rate
      || ltb r.max_bit_rate s.max_bit_rate
      || not (s.key_frame_interval == r.key_frame_interval)
    then err bounds_error
    else ok tt

abbrev pub known_depth : ℕ → Bool
known_depth d = (d == 8) || (d == 16) || (d == 24) || (d == 32)

-- MatterCameraAudioStreamOptions::Snapshot; `opus` and `aac_lc` are the SDK's numbers.
unfoldable pub audio_snapshot : ℕ → ℕ → AudioRequest → Result Fault AudioRequest
audio_snapshot opus aac_lc r =
    if (not (r.codec == opus) && not (r.codec == aac_lc))
      || r.channels == 0
      || ltb 8 r.channels
      || r.sample_rate == 0
      || r.bit_rate == 0
      || not (known_depth r.bit_depth)
    then err (throws Failure.Hresult.invalid_argument)
    else ok r

-- MatterCameraAudioStreamOptions::ValidateAllocated, of a stream that is not null.
unfoldable pub validate_audio : ℕ → AudioRequest → AudioStream → Result Fault (Unit {0})
validate_audio live_view r s =
    if not (s.usage == live_view)
      || not (s.codec == r.codec)
      || not (s.channels == r.channels)
      || not (s.sample_rate == r.sample_rate)
      || not (s.bit_rate == r.bit_rate)
      || not (s.bit_depth == r.bit_depth)
    then err bounds_error
    else ok tt

-- ValidateCameraSelectedVideo; `h264` is the SDK's number.
unfoldable pub selected_video : ℕ → Option VideoStream → Result Fault (Unit {0})
selected_video h264 none = err (throws Failure.Hresult.invalid_argument)
selected_video h264 (some s) =
    if not (s.codec == h264)
    then err (throws Failure.Hresult.not_implemented)
    else if s.min_size.width == 0
        || s.min_size.height == 0
        || s.min_frame_rate == 0
        || s.min_bit_rate == 0
        || s.key_frame_interval == 0
    then err bounds_error
    else ok tt

unfoldable pub validate_camera_selected_video :
    ℕ → ℕ → List VideoStream → ℕ → Result Fault (Unit {0})
unfolding selected_video find_allocated_live_view_stream
validate_camera_selected_video live_view h264 streams id =
    selected_video h264 (find_allocated_live_view_stream live_view streams id)
