-- ===== src/Camera/Ownership/Allocation.antt =====
-- winrt/Projection.cpp, AllocateCameraAudioStream and DeallocateCameraAudioStream, on the table of owned
-- streams. The exchanges with the camera are inputs by how they end. Between Commit and the end of a
-- failed allocation the release runs once, here or on the thread of a cancellation that Release waits for.
pub mod Settling
pub mod Tests
use matter_winrt.Base.{ℕ, Bool, true, false, Result, ok, err, if◌then◌else◌}
use matter_winrt.Camera.Ownership.{
  Key, Table, Error, reserve, commit, allocation_failed, start_release, release_finished,
}

pub data Failure : Type 0 where
  -- ChipOperationError, and whether its native error is an IM status; another exception.
  chip : Bool → ℕ → Failure
  other : ℕ → Failure
  -- What the table throws.
  ownership : Error → Failure

abbrev pub is_im_status : Failure → Bool
is_im_status (chip status code) = status
is_im_status _ = false

-- How AudioStreamAllocate ends, with the answer's field read: an exception while the stage is still
-- Validation, or later; the stream.
pub data Invoked : Type 0 where
  refused failed : Failure → Invoked
  responded : ℕ → Invoked

pub record Allocation : Type 0 where
  -- The reads and checks before Reserve.
  pub prepared : Result Failure (Unit {0})
  pub invoked : Invoked
  -- Record, the reads and the checks after Commit; AudioStreamDeallocate.
  pub readback : Result Failure (Unit {0})
  pub deallocation : Result Failure (Unit {0})

-- ReleaseFinished, and the exception that is thrown after it if there is one.
pub finish_release : Key → Result Failure (Unit {0}) → Table → Result Failure (Unit {0}) × Table
finish_release k (err f) t = elim (release_finished k false t) [
  | err e ↦ (err (ownership e), t)
  | ok u ↦ (err f, u)
]
finish_release k (ok x) t = elim (release_finished k true t) [
  | err e ↦ (err (ownership e), t)
  | ok u ↦ (ok tt, u)
]

-- DeallocateCameraAudioStream, by how the command ends.
pub deallocate_camera_audio_stream :
    Key → ℕ → Result Failure (Unit {0}) → Table → Result Failure (Unit {0}) × Table
unfolding finish_release
deallocate_camera_audio_stream k s invoked t = elim (start_release k s t) [
  | err e ↦ (err (ownership e), t)
  | ok u ↦ finish_release k invoked u
]

-- The outer catch clauses, once the stage is no longer Validation.
pub caught : Key → Failure → Table → Result Failure ℕ × Table
caught k f t = (err f, allocation_failed k (is_im_status f) t)

-- The inner catch clause: what Release throws takes the place of the failure.
pub released : Key → Failure → Result Failure (Unit {0}) × Table → Result Failure ℕ × Table
unfolding caught
released k f (err g, t) = caught k g t
released k f (ok x, t) = caught k f t

-- The inner try block.
pub read_back : Allocation → Key → ℕ → Result Failure (Unit {0}) → Table → Result Failure ℕ × Table
unfolding released deallocate_camera_audio_stream
read_back a k s (err f) t = released k f (deallocate_camera_audio_stream k s a.deallocation t)
read_back a k s (ok x) t = (ok s, t)

-- The outer try block.
pub invoke : Allocation → Key → Invoked → Table → Result Failure ℕ × Table
unfolding read_back caught
invoke a k (refused f) t = (err f, allocation_failed k true t)
invoke a k (failed f) t = caught k f t
invoke a k (responded s) t = elim (commit k s t) [
  | err e ↦ caught k (ownership e) t
  | ok u ↦ read_back a k s a.readback u
]

pub allocate_camera_audio_stream : Allocation → Key → Table → Result Failure ℕ × Table
unfolding invoke
allocate_camera_audio_stream a k t = elim a.prepared [
  | err f ↦ (err f, t)
  | ok x ↦ elim (reserve k t) [ err e ↦ (err (ownership e), t) | ok u ↦ invoke a k a.invoked u ]
]
