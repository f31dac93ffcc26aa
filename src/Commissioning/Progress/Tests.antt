-- ===== src/Commissioning/Progress/Tests.antt =====
-- The progress of a commissioning on concrete callbacks, and its queue on concrete steps.
use matter_winrt.Base.{
  ℕ, ◌+◌, ◌%◌, ◌^◌, ◌≡◌, refl, true, false, ◌&&◌, List, [], ◌∷◌, ◌++◌, some, if◌then◌else◌, err,
}
use matter_winrt.Chip.{no_error, timeout}
use matter_winrt.Commissioning.Stages.{unknown, secure_pairing, wifi_network_enable}
use matter_winrt.Commissioning.Pairing
use matter_winrt.Commissioning.Progress.{
  Event, publishes, takes, calls_end, waits, tests, sleeping, ended, initial, run, drained,
}
use matter_winrt.Commissioning.Progress.Draining.{progress_in_order}
use matter_winrt.Commissioning.Progress.Ending.{CanEnd, progress_drains}
use matter_winrt.Commissioning.Ble.{
  prefer_specified_interface, require_specified_interface, is_preferred, initial_state, updates,
  select_interface, disconnected,
}
use matter_winrt.Commissioning.Ble.Reporting.{
  retries, any_retry, last_success, progress_follows_callbacks,
}

-- A value is published while the handlers are called with the one before it, and a thread waits.
abbrev steps : List (Event ℕ)
steps =
    publishes 5 false
    ∷ waits
    ∷ tests 0
    ∷ takes 0
    ∷ publishes 6 false
    ∷ calls_end 0
    ∷ takes 0
    ∷ calls_end 0
    ∷ takes 0
    ∷ tests 0
    ∷ []

steps_drain_all : drained (run initial steps) ≡ true
unfolding run initial drained
steps_drain_all = refl

steps_end_wait : (run initial steps).waiters ≡ ended ∷ []
unfolding run initial
steps_end_wait = refl

progress_in_order_example :
    ((rest : List ℕ) × ((run initial steps).delivered ++ rest ≡ (run initial steps).published))
    × (drained (run initial steps) ≡ true
        → (run initial steps).delivered ≡ (run initial steps).published)
progress_in_order_example = progress_in_order steps

-- A thread sleeps until the drain has taken both values; RunAsync throws.
abbrev asleep : List (Event ℕ)
asleep = publishes 5 false ∷ publishes 6 false ∷ waits ∷ tests 0 ∷ []

abbrev thrown_steps : List (Event ℕ)
thrown_steps = publishes 5 true ∷ waits ∷ tests 0 ∷ publishes 6 false ∷ []

thrown_waits : (run initial thrown_steps).waiters ≡ sleeping ∷ []
unfolding run initial
thrown_waits = refl

progress_drains_example :
    ((run initial asleep).lost ≡ false → CanEnd (run initial asleep))
    × ((run initial asleep).lost ≡ true
        → (more : List (Event ℕ)) → drained (run (run initial asleep) more) ≡ false)
progress_drains_example = progress_drains asleep

abbrev callbacks : List Pairing.Progress
callbacks =
    record { stage = secure_pairing; error = no_error; completed = true; retrying = false }
    ∷ record { stage = wifi_network_enable; error = timeout; completed = true; retrying = false }
    ∷ record { stage = secure_pairing; error = no_error; completed = false; retrying = true }
    ∷ []

progress_follows_callbacks_example :
    ((updates {H = ℕ} 0 prefer_specified_interface callbacks (initial_state 0 3 8)).attempt
      ≡ (1 + retries callbacks) % 2 ^ 32)
    × ((updates {H = ℕ} 0 prefer_specified_interface callbacks (initial_state 0 3 8)).last_completed
        ≡ last_success unknown callbacks)
    × ((updates {H = ℕ} 0 prefer_specified_interface callbacks (initial_state 0 3 8)).interface
        ≡ (if is_preferred prefer_specified_interface && any_retry callbacks then 0 else 3))
progress_follows_callbacks_example =
    progress_follows_callbacks {H = ℕ} 0 prefer_specified_interface callbacks 3 8

-- The interface is not up.
required_run :
    select_interface {H = ℕ} 0 require_specified_interface 3
      (record { id = 3; is_up = false; multicast = true; name = some 8 } ∷ [])
      []
    ≡ err disconnected
unfolding select_interface
required_run = refl
