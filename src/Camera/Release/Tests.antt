-- ===== src/Camera/Release/Tests.antt =====
-- PendingCameraRelease (winrt/CameraVideoStreamAllocation.h) on concrete interleavings.
use matter_winrt.Base.{ℕ, ◌≡◌, ◌≤◌, refl, true, none, some, List, [], ◌∷◌, length, total, get_elem?}
use matter_winrt.Camera.Release.{
  Event, cancels, records, calls_release, enters, wakes, comes_back, notifies, returned, initial,
  step, run, cancel, record_stream, spawn, at, enter, wake, come_back, at_entering, at_waiting,
  at_notified, at_calling, finish_at, finish, all_notified,
}
use matter_winrt.Camera.Release.Outcome.{release_once, release_returns, rank, all_progress}
use matter_winrt.Camera.Release.Cleanup.{canceled_releases}
use matter_winrt.Camera.Release.Failure.{thrown-failure}

-- Canceled before the stream is recorded, with a second caller of Release; mRelease throws 5, or not.
abbrev before : List (Event ℕ ℕ)
before = cancels ∷ calls_release ∷ records 7 ∷ enters 0 ∷ []

abbrev failing : List (Event ℕ ℕ)
failing =
    cancels
    ∷ records 7
    ∷ calls_release
    ∷ enters 0
    ∷ enters 1
    ∷ comes_back 0 (some 5)
    ∷ notifies 0
    ∷ wakes 1
    ∷ []

abbrev passing : List (Event ℕ ℕ)
passing =
    cancels
    ∷ records 7
    ∷ calls_release
    ∷ enters 0
    ∷ enters 1
    ∷ comes_back 0 none
    ∷ notifies 0
    ∷ wakes 1
    ∷ []

release_once_example : length (run initial failing).calls ≤ 1
release_once_example = release_once failing

release_returns_example :
    (more : List (Event ℕ ℕ)) × (all_progress more ≡ true)
    × (total rank (run (run initial before) more).threads ≡ 0)
release_returns_example = release_returns before

waiter_throws : get_elem? (run initial failing).threads 1 ≡ some (returned (some 5))
unfolding initial step run cancel record_stream spawn at enter wake come_back at_entering at_waiting
    at_notified at_calling finish_at finish all_notified
waiter_throws = refl

threads_done : total rank (run initial passing).threads ≡ 0
unfolding initial step run cancel record_stream spawn at enter wake come_back at_entering at_waiting
    at_notified at_calling finish_at finish all_notified total
threads_done = refl

canceled_releases_example : (run initial passing).calls ≡ 7 ∷ []
canceled_releases_example =
    canceled_releases 7 passing (tt, (refl, (tt, (tt, (tt, (tt, (tt, (tt, tt)))))))) refl refl
      threads_done

thrown-failure_example : (run initial failing).failure ≡ some 5
thrown-failure_example = thrown-failure failing 1 5 waiter_throws
