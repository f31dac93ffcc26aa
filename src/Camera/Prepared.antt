-- ===== src/Camera/Prepared.antt =====
-- winrt/Projection.cpp, the operations that make a camera stream or session of their own and release it
-- if they fail later: how they end. A Release of the ownership is an input by how it ends, here or on
-- the thread of a cancellation that it waits for.
pub mod Owned
pub mod Video
pub mod Start
pub mod Session
pub mod Tests
use matter_winrt.Base.{
  ℕ, ltb, ◌==◌, ◌||◌, Bool, true, false, List, [], ◌∷◌, length, Option, none, some, if◌then◌else◌,
  Result, ok, err,
}
use matter_winrt.Camera.Failure.{Exception, Stage}
use matter_winrt.Camera.Metadata.{Fault, thrown, advertises}
use matter_winrt.Camera.Metadata.Audio.{Staged}

-- How an operation ends, with the identifier that it recorded, and whether it has called Release.
pub record Ending (A : Type 0) : Type 0 where
  pub stage : Stage
  pub result : Result Fault A
  pub recorded : Option ℕ
  pub released : Bool

abbrev pub canceled_error : Fault
canceled_error = thrown Exception.canceled

-- MatterCameraStage, by its numbers.
abbrev pub selection_stage : Stage
selection_stage = Stage.other 3

abbrev pub signaling_stage : Stage
signaling_stage = Stage.other 4

abbrev pub session_end_stage : Stage
session_end_stage = Stage.other 6

abbrev pub deallocation_stage : Stage
deallocation_stage = Stage.other 10

-- Before Record.
abbrev pub unrecorded : {A : Type 0} → Stage → Fault → Ending A
unrecorded s e = record { stage = s; result = err e; recorded = none; released = false }

-- The try block after Record, and its catch clause: `cleanup` is the stage of the release.
abbrev pub recover : {A : Type 0} → Stage → Result Fault (Unit {0}) → ℕ → Staged A → Ending A
recover cleanup release id (s, ok a) = record {
  stage = s;
  result = ok a;
  recorded = some id;
  released = false;
}
recover cleanup (ok u) id (s, err e) = record {
  stage = s;
  result = err e;
  recorded = some id;
  released = true;
}
recover cleanup (err f) id (s, err e) = record {
  stage = cleanup;
  result = err f;
  recorded = some id;
  released = true;
}

-- What follows the part of an operation that owns nothing yet.
abbrev pub owning : {A B : Type 0} → Staged A → (A → Ending B) → Ending B
owning (s, ok a) k = k a
owning (s, err e) k = unrecorded s e

-- The SDP that is empty, too long, or contains a NUL.
unfoldable pub refused_sdp : List ℕ → Bool
unfolding advertises
refused_sdp sdp = (length sdp == 0) || ltb 16384 (length sdp) || advertises sdp 0
