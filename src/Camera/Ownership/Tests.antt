-- ===== src/Camera/Ownership/Tests.antt =====
-- The table of winrt/CameraAudioAllocationOwnership.h on concrete calls.
use matter_winrt.Base.{◌≡◌, refl, true, false, List, [], ◌∷◌}
use matter_winrt.Camera.Ownership.{
  Key, Call, reserves, commits, fails, starts_release, finishes_release, Table, find, step, run,
  reserve, commit, allocation_failed, start_release, release_finished, emplace, assign, erase,
}
use matter_winrt.Camera.Ownership.Slot.{Refines, step-Refines, view, view_entry, lost}
use matter_winrt.Camera.Ownership.Invariant.{empty-Inv, run-Inv}

abbrev door : Key
door = record { node = 1; endpoint = 2 }

abbrev hall : Key
hall = record { node = 1; endpoint = 3 }

abbrev history : List (Key × Call)
history =
    (door, reserves)
    ∷ (hall, reserves)
    ∷ (door, commits 7)
    ∷ (hall, fails false)
    ∷ (door, starts_release 7)
    ∷ (door, finishes_release true)
    ∷ (door, reserves)
    ∷ []

abbrev table : Table
table = run [] history

step-Refines_example : Refines door hall (commits 9) table (step door (commits 9) table)
step-Refines_example = step-Refines door hall (commits 9) table (run-Inv [] history empty-Inv)

hall_lost : view (find hall table) ≡ lost
unfolding view view_entry find run step reserve commit allocation_failed start_release
    release_finished emplace assign erase
hall_lost = refl
