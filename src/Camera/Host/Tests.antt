-- ===== src/Camera/Host/Tests.antt =====
-- winrt/CameraControllerRuntime.h on concrete calls.
use matter_winrt.Base.{
  ℕ, ◌*◌, ◌≡◌, refl, true, false, none, some, List, [], ◌∷◌, ok, err, ltb, arith, if◌then◌else◌,
}
use matter_winrt.Chip.{no_error, busy, incorrect_state, timeout}
use matter_winrt.Poll.{poll}
use matter_winrt.Camera.Host.{
  Host, Calls, Event, inits, creates, closes, initial, init, create, open_session, close_local,
  validate, step, run,
}
use matter_winrt.Camera.Host.Command
use matter_winrt.Camera.Host.Stale.{closed_handle_is_dead}

abbrev fine : Calls
fine = record { bindings = no_error; register = no_error; create_session = no_error; native = 40 }

abbrev refused : Calls
refused = record { bindings = no_error; register = timeout; create_session = no_error; native = 0 }

-- A session, a second one while it is open, its end, one that fails, and another.
abbrev events : List Event
events =
    inits true no_error no_error
    ∷ creates fine 9
    ∷ creates fine 8
    ∷ closes no_error no_error 1
    ∷ creates refused 8
    ∷ creates fine 7
    ∷ []

abbrev one_session : List Event
one_session = inits true no_error no_error ∷ creates fine 9 ∷ []

one_valid : validate 1 (run initial one_session) ≡ no_error
unfolding validate run initial step init create open_session
one_valid = refl

closed_handle_is_dead_example :
    validate 1 (
      run
        (step (run initial one_session) (closes no_error no_error 1))
        (creates refused 8 ∷ creates fine 7 ∷ []))
    ≡ incorrect_state
closed_handle_is_dead_example =
    closed_handle_is_dead one_session (creates refused 8 ∷ creates fine 7 ∷ []) 1 one_valid

second_refused : (create fine 7 (run initial events)).0 ≡ err busy
unfolding run initial step init create open_session close_local
second_refused = refl

abbrev idle : Host
idle = run initial (inits true no_error no_error ∷ creates refused 8 ∷ [])

idle_given : (create fine 7 idle).0 ≡ ok 1
unfolding run initial step init create open_session
idle_given = refl

-- The client has its result in the fourth round.
abbrev rounds : ℕ → Command.Observation
rounds k = record {
  canceled = false;
  connection_error = no_error;
  result = if ltb 2 k then some no_error else none;
  now = k * 10;
}

rounds-Pause : Command.Pauses rounds 30000
rounds-Pause k = omega arith

abbrev info : Command.Info
info = record { error = no_error; has_protocol = true }

rounds_succeed : Command.run_command no_error 30000 rounds 9 ≡ some no_error
unfolding Command.run_command Command.command_round poll
rounds_succeed = refl

abbrev url_counts : List ℕ
url_counts = 1 ∷ 4 ∷ []
