-- ===== src/Camera/Metadata/Streams/Usable.antt =====
-- The streams of winrt/Projection.cpp that an allocation accepts: their bounds lie within the request,
-- and the start of a session accepts them.
use matter_winrt.Base.{
  ℕ, ◌≤◌, ◌<◌, ◌≡◌, ◌∙◌, ◌==◌, ◌&&◌, Bool, List, [], ◌∷◌, All, Bool-cases, inl, inr, some, Result,
  ok, arith,
}
use mathlib.Core.Path.{subst}
use mathlib.Core.Option.{some-injective}
use matter_winrt.Tlv.{Fields}
use matter_winrt.Camera.Metadata.{Fault, Key}
use matter_winrt.Camera.Metadata.Descriptor.{SdkId}
use matter_winrt.Camera.Metadata.Streams.Listing.{listed_streams_differ}
use matter_winrt.Camera.Metadata.Streams.{
  VideoStream, checked_video, find_allocated_live_view_stream, read_camera_video_streams,
}
use matter_winrt.Camera.Metadata.Streams.Options.{
  VideoRequest, video_snapshot, validate_video, selected_video, validate_camera_selected_video,
}

-- A range that lies in a range of the request, which leaves out 0.
abbrev Inside : ℕ → ℕ → ℕ → ℕ → Type 0
Inside low min max high = (0 < low) × (low ≤ min) × (min ≤ max) × (max ≤ high)

abbrev pub Fits : VideoRequest → VideoStream → Type 0
Fits r s =
    Inside r.min_size.width s.min_size.width s.max_size.width r.max_size.width
    × Inside r.min_size.height s.min_size.height s.max_size.height r.max_size.height
    × Inside r.min_frame_rate s.min_frame_rate s.max_frame_rate r.max_frame_rate
    × Inside r.min_bit_rate s.min_bit_rate s.max_bit_rate r.max_bit_rate
    × (0 < s.key_frame_interval)

-- A stream that the camera reports with ordered bounds, and that ValidateAllocated accepts for a request
-- that Snapshot accepts, has all its bounds within the request's and above 0.
pub validated-Fits :
    (live_view : ℕ) (r : VideoRequest) (s : VideoStream)
    → video_snapshot r ≡ ok r
    → checked_video s ≡ ok s
    → validate_video live_view r s ≡ ok tt
    → Fits r s
unfolding video_snapshot checked_video validate_video
validated-Fits live_view r s snapshot checked valid = ground arith

same_codec :
    (live_view : ℕ) (r : VideoRequest) (s : VideoStream)
    → validate_video live_view r s ≡ ok tt
    → s.codec ≡ r.codec
unfolding validate_video
same_codec live_view r s valid = ground arith

selects :
    (h264 : ℕ) (r : VideoRequest) (s : VideoStream)
    → Fits r s
    → s.codec ≡ h264
    → selected_video h264 (some s) ≡ ok tt
unfolding selected_video
selects h264 r s w c = ground arith

pub All-found :
    (P : VideoStream → Type 0) (live_view : ℕ) (streams : List VideoStream) (id : ℕ)
    (s : VideoStream)
    → All P streams
    → find_allocated_live_view_stream live_view streams id ≡ some s
    → P s
unfolding find_allocated_live_view_stream
All-found P live_view [] id s all h = cc
All-found P live_view (x ∷ xs) id s all h =
    elim (Bool-cases ((x.stream == id) && (x.usage == live_view))) [
      | inl q ↦ subst P (some-injective x s (rw q at h)) all.0
      | inr q ↦ All-found P live_view xs id s all.1 (rw q at h)
    ]

-- The start of a session accepts the live view stream that an allocation has read back: if it is found
-- in the list that ReadCameraVideoStreams has returned, and ValidateAllocated accepts it for an H.264
-- request that Snapshot accepts, ValidateCameraSelectedVideo accepts its identifier in that list.
pub validated_can_start :
    {H F : Type 0} (same : H → H → Bool) (key : Key → H)
    (read : ℕ → SdkId → SdkId → Result Fault (Fields H F)) (endpoint live_view h264 : ℕ)
    (r : VideoRequest) (streams : List VideoStream) (id : ℕ) (s : VideoStream)
    → read_camera_video_streams same key read endpoint ≡ ok streams
    → r.codec ≡ h264
    → video_snapshot r ≡ ok r
    → find_allocated_live_view_stream live_view streams id ≡ some s
    → validate_video live_view r s ≡ ok tt
    → validate_camera_selected_video live_view h264 streams id ≡ ok tt
unfolding validate_camera_selected_video
validated_can_start same key read endpoint live_view h264 r streams id s listed codec snapshot found
      valid =
    let all = (listed_streams_differ same key read endpoint streams listed).1 in
    let checked = All-found (λ x. checked_video x ≡ ok x) live_view streams id s all found in
    rw found (
      selects h264 r s (validated-Fits live_view r s snapshot checked valid)
        (same_codec live_view r s valid ∙ codec))
