-- ===== src/Commissioning/Ble/Reporting.antt =====
-- What CommissionBleAsync of winrt/Projection.cpp reports: the attempts, the interface and the last
-- completed stage, from the callbacks.
use matter_winrt.Base.{
  ℕ, ◌<◌, ◌+◌, ◌%◌, ◌^◌, ◌≡◌, refl, ap, ◌∙◌, Bool, false, ◌||◌, ◌&&◌, not, List, [], ◌∷◌,
  if◌then◌else◌, arith,
}
use matter_winrt.Chip.{is_error}
use matter_winrt.Commissioning.Stages.{Stage, unknown, project_commissioning_stage}
use matter_winrt.Commissioning.Pairing
use matter_winrt.Commissioning.Ble.{
  Mode, State, initial_state, is_preferred, retried, noted, update, updates,
}

-- The number of callbacks of a retry.
pub retries : List Pairing.Progress → ℕ
retries [] = 0
retries (u ∷ us) = (if u.retrying then 1 else 0) + retries us

pub any_retry : List Pairing.Progress → Bool
any_retry [] = false
any_retry (u ∷ us) = u.retrying || any_retry us

-- The stage of the last callback of a stage that was completed without an error, or `s`.
pub last_success : Stage → List Pairing.Progress → Stage
last_success s [] = s
last_success s (u ∷ us) =
    last_success
      (if u.completed && not (is_error u.error) then project_commissioning_stage u.stage else s) us

module _ {H : Type 0} (empty : H) where
  update-attempt :
      (mode : Mode) (u : Pairing.Progress) (s : State H)
      → (update empty mode u s).attempt
        ≡ (if u.retrying then (s.attempt + 1) % 2 ^ 32 else s.attempt)
  unfolding update retried noted
  update-attempt mode u s = ground arith

  update-last_completed :
      (mode : Mode) (u : Pairing.Progress) (s : State H)
      → (update empty mode u s).last_completed ≡ (
          if u.completed && not (is_error u.error)
          then project_commissioning_stage u.stage
          else s.last_completed)
  unfolding update retried noted
  update-last_completed mode u s = ground arith

  update-interface :
      (mode : Mode) (u : Pairing.Progress) (s : State H)
      → (update empty mode u s).interface
        ≡ (if is_preferred mode && u.retrying then 0 else s.interface)
  unfolding update retried noted
  update-interface mode u s = ground arith

  updates-attempt :
      (mode : Mode) (us : List Pairing.Progress) (s : State H)
      → (updates empty mode us s).attempt % 2 ^ 32 ≡ (s.attempt + retries us) % 2 ^ 32
  unfolding updates retries
  updates-attempt mode [] s = omega arith
  updates-attempt mode (u ∷ us) s =
      ground (arith, updates-attempt mode us (update empty mode u s), update-attempt mode u s)

  attempt_small :
      (mode : Mode) (us : List Pairing.Progress) (s : State H)
      → s.attempt < 2 ^ 32
      → (updates empty mode us s).attempt < 2 ^ 32
  unfolding updates
  attempt_small mode [] s h = h
  attempt_small mode (u ∷ us) s h =
      attempt_small mode us (update empty mode u s) (ground (arith, update-attempt mode u s))

  updates-last_completed :
      (mode : Mode) (us : List Pairing.Progress) (s : State H)
      → (updates empty mode us s).last_completed ≡ last_success s.last_completed us
  unfolding updates last_success
  updates-last_completed mode [] s = refl
  updates-last_completed mode (u ∷ us) s =
      updates-last_completed mode us (update empty mode u s)
      ∙ ap (λ x. last_success x us) (update-last_completed mode u s)

  updates-interface :
      (mode : Mode) (us : List Pairing.Progress) (s : State H)
      → (updates empty mode us s).interface
        ≡ (if is_preferred mode && any_retry us then 0 else s.interface)
  unfolding updates any_retry
  updates-interface mode [] s = ground arith
  updates-interface mode (u ∷ us) s =
      ground (arith, updates-interface mode us (update empty mode u s), update-interface mode u s)

  -- Whatever the progress callbacks of a commissioning are, the number of the attempt, of 32 bits, is one
  -- more than the number of callbacks that report a retry; the last completed stage is that of the last
  -- callback which completes one without an error; and the interface is the selected one, but none after
  -- a retry where it was only preferred.
  pub progress_follows_callbacks :
      (mode : Mode) (us : List Pairing.Progress) (interface : ℕ) (name : H)
      → ((updates empty mode us (initial_state empty interface name)).attempt
          ≡ (1 + retries us) % 2 ^ 32)
        × ((updates empty mode us (initial_state empty interface name)).last_completed
            ≡ last_success unknown us)
        × ((updates empty mode us (initial_state empty interface name)).interface
            ≡ (if is_preferred mode && any_retry us then 0 else interface))
  unfolding initial_state
  progress_follows_callbacks mode us interface name =
      let s = initial_state empty interface name in
      (
        omega (arith, updates-attempt mode us s, attempt_small mode us s (omega arith)),
        updates-last_completed mode us s,
        updates-interface mode us s,
      )
