-- ===== src/Camera/Signaling/Tests.antt =====
-- The camera operations of winrt/Projection.cpp on concrete calls.
use matter_winrt.Base.{
  ℕ, zero, suc, ◌*◌, ◌≡◌, ◌⊎◌, refl, true, false, Bool, none, some, [], ◌∷◌, Result, ok, arith,
}
use matter_winrt.Chip.{ChipError, no_error, timeout, incorrect_state}
use matter_winrt.Poll.{poll}
use matter_winrt.Camera.Host.{
  Host, Calls, inits, initial, init, create, open_session, close_local, validate, step, run,
}
use matter_winrt.Camera.Host.Command.{
  finish, Observation, send, send_early, run_command, command_round, pause, Pauses,
}
use matter_winrt.Camera.Host.Handles.{Inv, run-Inv, initial-Inv}
use matter_winrt.Camera.Signaling.{
  Controller, Failure, chip, returned, thrown, Sending, sent, Ending, explicit_id, absent, Session,
  Start, requestor_endpoint, get_session, abandon, announce, offered, created, start_on,
  start_camera, close_camera,
}
use matter_winrt.Camera.Signaling.Starting.{Ends, Left, start_camera_cleans_up, start_camera-Ends}
use matter_winrt.Camera.Signaling.Closing.{Closed, close_camera-Closes}
use matter_winrt.Camera.Signaling.Blocking.{failed_close_blocks}

abbrev fine : Calls
fine = record { bindings = no_error; register = no_error; create_session = no_error; native = 40 }

-- A send whose device answers in the second round, with an error or not.
abbrev round_at : ChipError → ℕ → Observation
round_at e zero = record { canceled = false; connection_error = no_error; result = none; now = 0 }
round_at e (suc n) = record {
  canceled = false;
  connection_error = no_error;
  result = some e;
  now = suc n * pause;
}

abbrev answered : ChipError → Sending
answered e = record {
  info = record { error = no_error; has_protocol = true };
  get_connected = no_error;
  deadline = 30;
  seen = round_at e;
  rounds = 4;
}

answered-Pauses : (e : ChipError) → Pauses (round_at e) 30
answered-Pauses e zero = omega arith
answered-Pauses e (suc n) = omega arith

answered-Ends : (e : ChipError) → Ends (answered e)
answered-Ends e = (3, refl, answered-Pauses e, omega arith)

abbrev ending : ChipError → Ending
ending close = record { send_end = answered no_error; close_session = close; unregister = no_error }

-- The offer is answered with an error, or not.
abbrev start : ChipError → Start
start e = record {
  node = 9;
  endpoint = 2;
  video = explicit_id 5;
  audio = absent;
  acquired = ok tt;
  canceled_before = false;
  canceled_after = false;
  system_available = true;
  calls = fine;
  send_offer = answered e;
  session_info = no_error;
  made = ok tt;
  ending = ending no_error;
}

abbrev ready : Host
ready = run initial (inits true no_error no_error ∷ [])

ready-Inv : Inv ready
ready-Inv = run-Inv initial (inits true no_error no_error ∷ []) initial-Inv

abbrev controller : Controller
controller = record { closed = false; host = some ready }

abbrev opened : Host
opened = (create fine 9 ready).1

abbrev with_session : Controller
with_session = record { closed = false; host = some opened }

abbrev first_session : Session
first_session = record { handle = 1; node = 9; endpoint = 2; requestor = 1 }

first_started : start_camera (start no_error) controller ≡ returned first_session with_session
unfolding start_camera start_on created offered announce requestor_endpoint get_session create
    open_session send send_early run_command command_round poll validate run step init initial
first_started = refl

abbrev after_refusal : Controller
after_refusal = record {
  closed = false;
  host = some (record opened { endpoint = none; client = false; active_handle = 0 });
}

refused_start : start_camera (start timeout) controller ≡ thrown (chip timeout) after_refusal
unfolding start_camera start_on created offered abandon create open_session close_local send
    send_early run_command command_round poll validate run step init initial
refused_start = refl

start_camera_cleans_up_example : Left ready.active_handle after_refusal
start_camera_cleans_up_example =
    start_camera_cleans_up (start timeout) controller ready (chip timeout) after_refusal ready-Inv
      refl (refl, refl) refused_start

start_camera-Ends_example :
    ((x : Session) × (d : Controller) × (start_camera (start timeout) controller ≡ returned x d))
    ⊎ ((f : Failure) × (d : Controller) × (start_camera (start timeout) controller ≡ thrown f d))
start_camera-Ends_example =
    start_camera-Ends (start timeout) controller ready ready-Inv refl (answered-Ends timeout)
      (answered-Ends no_error)

first_valid : validate 1 opened ≡ no_error
unfolding create open_session validate run step init initial
first_valid = refl

close_camera-Closes_example :
    (e : ChipError) × (sent opened 1 finish (answered no_error) ≡ some e)
    × Closed 1
        (ending no_error)
        e
        (close_camera true (ok tt) (ending no_error) 1 with_session with_session)
close_camera-Closes_example =
    close_camera-Closes (ending no_error) 1 with_session with_session opened opened refl refl
      first_valid refl first_valid (refl, refl) (answered-Ends no_error)

second_invalid : (h : Host) → with_session.host ≡ some h → validate 2 h ≡ incorrect_state
unfolding create open_session validate run step init initial
second_invalid h q = ground arith

failed_close_blocks_example :
    (d : Controller) × (close_camera true (ok tt) (ending timeout) 1 with_session with_session
      ≡ thrown (chip timeout) d)
    × ((s : Start) → (f : Failure) × (start_camera s d ≡ thrown f d))
    × ((m : Ending) (other : ℕ) (leased : Bool) (a : Result Failure (Unit {0})) (later : Controller)
        → close_camera leased a m other d later ≡ returned tt d)
failed_close_blocks_example =
    failed_close_blocks (ending timeout) 1 with_session opened refl refl first_valid refl
      (answered-Ends no_error)
