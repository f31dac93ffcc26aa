-- ===== src/Camera/Prepared/Tests.antt =====
-- The allocation of a video stream and the start of a session on a camera of concrete answers.
use matter_winrt.Base.{
  ℕ, ◌≡◌, refl, Bool, true, false, [], ◌∷◌, map, All, none, some, Result, ok, err,
}
use matter_winrt.Tlv.{Fields, no_items}
use matter_winrt.Camera.Failure.{Stage}
use matter_winrt.Camera.Signaling.{auto_select, explicit_id}
use matter_winrt.Camera.Metadata.{Fault, bounds_error}
use matter_winrt.Camera.Metadata.Descriptor.{SdkId}
use matter_winrt.Camera.Metadata.Streams.{
  VideoStream, checked_video, read_camera_video_streams, find_allocated_live_view_stream,
}
use matter_winrt.Camera.Metadata.Streams.Listing.{listed_streams_differ}
use matter_winrt.Camera.Metadata.Streams.Options.{
  VideoRequest, video_options, video_snapshot, validate_video, validate_camera_selected_video,
}
use matter_winrt.Camera.Metadata.Streams.Usable.{validated_can_start}
use matter_winrt.Camera.Metadata.Audio.{AudioCapabilities}
use matter_winrt.Camera.Metadata.Sample.{same, key, id, bit, numbers, camera, answers}
use matter_winrt.Camera.Discovery.Members.{Unrepeated}
use matter_winrt.Camera.Prepared.{Ending, deallocation_stage}
use matter_winrt.Camera.Prepared.Video.{Dispatch, allocate_camera_video_stream}
use matter_winrt.Camera.Prepared.Video.Allocated.{Asked, allocated_within_request}
use matter_winrt.Camera.Prepared.Video.Releasing.{
  Settles, Named, Sent, allocation_keeps_or_releases,
}
use matter_winrt.Camera.Metadata.Audio.Reading.{read_camera_audio_capabilities}
use matter_winrt.Camera.Prepared.Start.{Startup, Numbers}
use matter_winrt.Camera.Prepared.Session.{start_prepared_camera_session}
use matter_winrt.Camera.Prepared.Session.Started.{Before, After, started_session_checked}

-- MatterCameraVideoStreamOptions without a change.
abbrev request : VideoRequest
request = video_options 3 0

abbrev stream : VideoStream
stream = record {
  stream = 4;
  usage = 3;
  codec = 0;
  min_frame_rate = 30;
  max_frame_rate = 30;
  min_size = record { width = 640; height = 480 };
  max_size = record { width = 640; height = 480 };
  min_bit_rate = 600000;
  max_bit_rate = 900000;
  key_frame_interval = 1000;
  references = 0;
  watermark = none;
  on_screen_display = none;
}

abbrev dispatch : Bool → Dispatch ℕ ℕ
dispatch canceled = record {
  canceled_before = false;
  invoked = (Stage.other 9, ok (numbers 0 (4 ∷ []) Fields.no_fields));
  canceled_recorded = canceled;
  canceled_validated = false;
  release = err bounds_error;
}

abbrev allocate : (ℕ → SdkId → SdkId → Result Fault (Fields ℕ ℕ)) → Bool → Ending VideoStream
unfolding allocate_camera_video_stream
allocate read canceled =
    allocate_camera_video_stream same key id bit 3 read 1 true request (dispatch canceled)

streams_run : read_camera_video_streams same key camera 1 ≡ ok (stream ∷ [])
unfolding read_camera_video_streams
streams_run = refl

snapshot_run : video_snapshot request ≡ ok request
unfolding video_snapshot
snapshot_run = refl

validate_run : validate_video 3 request stream ≡ ok tt
unfolding validate_video
validate_run = refl

found_run : find_allocated_live_view_stream 3 (stream ∷ []) 4 ≡ some stream
unfolding find_allocated_live_view_stream
found_run = refl

allocate_run :
    (allocate_camera_video_stream same key id bit 3 camera 1 true request (dispatch false)).result
    ≡ ok stream
unfolding allocate_camera_video_stream
allocate_run = refl

-- The camera does not list the stream, and the release fails too.
lost_run : allocate (answers false no_items) false ≡ record {
  stage = deallocation_stage;
  result = err bounds_error;
  recorded = some 4;
  released = true;
}
unfolding allocate
lost_run = refl

listed_streams_differ_example :
    Unrepeated (map (λ (s : VideoStream). s.stream) (stream ∷ []))
    × All (λ (s : VideoStream). checked_video s ≡ ok s) (stream ∷ [])
listed_streams_differ_example = listed_streams_differ same key camera 1 (stream ∷ []) streams_run

validated_can_start_example : validate_camera_selected_video 3 0 (stream ∷ []) 4 ≡ ok tt
validated_can_start_example =
    validated_can_start same key camera 1 3 0 request (stream ∷ []) 4 stream streams_run refl
      snapshot_run found_run validate_run

allocation_keeps_or_releases_example :
    Settles
      (Named same key id bit 3 camera 1 (dispatch true))
      (Sent same key id bit 3 camera 1 true request (dispatch true))
      (allocate_camera_video_stream same key id bit 3 camera 1 true request (dispatch true))
allocation_keeps_or_releases_example =
    allocation_keeps_or_releases same key id bit 3 camera 1 true request (dispatch true)

allocated_within_request_example :
    Asked request
      (allocate_camera_video_stream same key id bit 3 camera 1 true request (dispatch false))
      stream
allocated_within_request_example =
    allocated_within_request same key id bit 3 camera 1 true request (dispatch false) stream
      snapshot_run allocate_run

abbrev numbers_of : Numbers
numbers_of = record { live_view = 3; h264 = 0; opus = 0; aac_lc = 1 }

-- The camera selects the audio stream.
abbrev startup : Startup
startup = record {
  enabled = ok tt;
  canceled_before = false;
  started = ok 11;
  selected = ok (some 4, some 6);
  canceled_after = false;
  release = ok tt;
}

abbrev start : (ℕ → SdkId → SdkId → Result Fault (Fields ℕ ℕ)) → Ending ℕ
unfolding start_prepared_camera_session
start read_again =
    start_prepared_camera_session same key id bit numbers_of camera camera read_again 1 true
      (some (explicit_id 4)) (some auto_select) (118 ∷ []) startup

start_run :
    (start_prepared_camera_session same key id bit numbers_of camera camera camera 1 true
      (some (explicit_id 4))
      (some auto_select)
      (118 ∷ [])
      startup).result
    ≡ ok 11
unfolding start_prepared_camera_session
start_run = refl

-- The privacy is turned on while the session starts.
private_run : (start (answers true no_items)).released ≡ true
unfolding start
private_run = refl

started_session_checked_example :
    (c : AudioCapabilities) × ((read_camera_audio_capabilities same key id bit camera 1 true).1
      ≡ ok c)
    × Before same key id bit numbers_of camera camera camera 1 (explicit_id 4) auto_select c
    × (startup.canceled_before ≡ false)
    × After same key id bit numbers_of camera camera camera 1 c startup
started_session_checked_example =
    started_session_checked same key id bit numbers_of camera camera camera 1 true (explicit_id 4)
      auto_select (118 ∷ []) startup 11 start_run
