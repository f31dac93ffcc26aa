-- ===== src/Camera/Signaling.antt =====
-- winrt/Projection.cpp, the camera operations of ControllerRuntime: StartCamera, SendCameraCandidates,
-- PollCameraSignal, CameraState, CloseCamera and their helpers, on the host of one session. What the
-- admission throws, and what the calls of the SDK return, are inputs; the rounds of Send are fuel.
pub mod Starting
pub mod Closing
pub mod Blocking
pub mod Tests
use matter_winrt.Base.{
  ℕ, Bool, true, false, not, ◌&&◌, ◌||◌, ◌==◌, Option, none, some, if◌then◌else◌, Result, ok, err,
}
use matter_winrt.Chip.{ChipError, no_error, cancelled, is_error}
use matter_winrt.Camera.Host.{
  Host, Calls, create, validate, get_peer_node, close_local, invalid_endpoint,
}
use matter_winrt.Camera.Host.Command.{Command, offer, candidates, finish, Info, Observation, send}

-- The parts of ControllerRuntime that these operations read: mClosed, mCameraHost.
pub record Controller : Type 0 where
  pub closed : Bool
  pub host : Option Host

pub data Failure : Type 0 where
  -- hresult_canceled, hresult_illegal_method_call, hresult_invalid_argument; a timeout.
  canceled illegal_call invalid_argument timed_out : Failure
  -- ThrowChipError.
  chip : ChipError → Failure

pub data Outcome (A : Type 0) : Type 0 where
  returned : A → Controller → Outcome A
  thrown : Failure → Controller → Outcome A
  -- A null dereference.
  crashed : Outcome A
  out_of_fuel : Outcome A

-- CheckChipError.
abbrev pub checked : {A : Type 0} → ChipError → Controller → Outcome A → Outcome A
checked e c next = if is_error e then thrown (chip e) c else next

abbrev pub with_host : Host → Controller → Controller
with_host h c = record c { host = some h }

-- One call of Send.
pub record Sending : Type 0 where
  pub info : Info
  pub get_connected : ChipError
  pub deadline : ℕ
  pub seen : ℕ → Observation
  pub rounds : ℕ

abbrev pub sent : Host → ℕ → Command → Sending → Option ChipError
sent h handle command s = send h handle command s.info s.get_connected s.deadline s.seen s.rounds

-- Send of End, and CloseLocal.
pub record Ending : Type 0 where
  pub send_end : Sending
  pub close_session : ChipError
  pub unregister : ChipError

pub data Selection : Type 0 where
  absent auto_select : Selection
  explicit_id : ℕ → Selection
  -- Any other kind.
  unknown : Selection

abbrev pub is_known : Selection → Bool
is_known unknown = false
is_known _ = true

pub record Session : Type 0 where
  pub handle : ℕ
  pub node : ℕ
  pub endpoint : ℕ
  pub requestor : ℕ

pub record Start : Type 0 where
  pub node : ℕ
  pub endpoint : ℕ
  pub video : Selection
  pub audio : Selection
  -- What AcquireNode or AcquireGate throws; the canceled flag before Create and after the offer.
  pub acquired : Result Failure (Unit {0})
  pub canceled_before : Bool
  pub canceled_after : Bool
  -- The parts of the system state are there.
  pub system_available : Bool
  pub calls : Calls
  pub send_offer : Sending
  -- The SDK's GetSessionInfo; what making the session object throws.
  pub session_info : ChipError
  pub made : Result Failure (Unit {0})
  pub ending : Ending

-- RequestorEndpoint.
pub requestor_endpoint : Host → ℕ
requestor_endpoint h = elim h.endpoint [ some e ↦ e | none ↦ invalid_endpoint ]

-- GetSessionInfo and GetSessionState, by the error of the SDK's call.
pub get_session : ChipError → ℕ → Host → ChipError
get_session native handle h = let e = validate handle h in if is_error e then e else native

abbrev pub is_cancelled : ChipError → Bool
is_cancelled cancelled = true
is_cancelled _ = false

abbrev pub failure_of : ChipError → Failure
failure_of e = if is_cancelled e then canceled else chip e

-- The end of a session that was not started: both errors are only logged.
pub abandon : {A : Type 0} → Ending → ℕ → Host → Failure → Controller → Outcome A
abandon n handle h f c = elim (sent h handle finish n.send_end) [
  | none ↦ out_of_fuel
  | some e ↦ elim (close_local n.close_session n.unregister handle h) [
    | none ↦ crashed
    | some r ↦ thrown f (with_host r.1 c)
  ]
]

-- The try block of StartCamera, and its catch clause.
pub announce : Start → ℕ → Host → Controller → Outcome Session
unfolding abandon get_session requestor_endpoint
announce s handle h c =
    let e = get_session s.session_info handle h in
    if is_error e then abandon s.ending handle h (chip e) c else elim s.made [
      | err f ↦ abandon s.ending handle h f c
      | ok u ↦
          returned
            (record {
              handle = handle;
              node = s.node;
              endpoint = s.endpoint;
              requestor = requestor_endpoint h;
            })
            (with_host h c)
    ]

-- After the offer, by the error of Send.
pub offered : Start → ℕ → Host → Controller → ChipError → Outcome Session
unfolding announce abandon
offered s handle h c sent_error =
    let e = if not (is_error sent_error) && s.canceled_after then cancelled else sent_error in
    if is_error e then abandon s.ending handle h (failure_of e) c else announce s handle h c

-- After Create.
pub created : Start → Controller → Result ChipError ℕ → Host → Outcome Session
unfolding offered
created s c (err e) h = thrown (chip e) (with_host h c)
created s c (ok handle) h = elim (sent h handle offer s.send_offer) [
  | none ↦ out_of_fuel
  | some e ↦ offered s handle h c e
]

-- From the check of the canceled flag on.
pub start_on : Start → Controller → Host → Outcome Session
unfolding created
start_on s c h =
    let r = create s.calls s.node h in
    if s.canceled_before
    then thrown canceled c
    else if not s.system_available
    then thrown illegal_call c
    else if not (is_known s.video && is_known s.audio)
    then thrown invalid_argument c
    else created s c r.0 r.1

pub start_camera : Start → Controller → Outcome Session
unfolding start_on
start_camera s c = elim s.acquired [
  | err f ↦ thrown f c
  | ok u ↦
      if c.closed
      then thrown illegal_call c
      else elim c.host [ none ↦ thrown illegal_call c | some h ↦ start_on s c h ]
]

-- EnsureOpen and the check that there is a host, which several operations begin with.
abbrev pub on_open_host : {A : Type 0} → Controller → (Host → Outcome A) → Outcome A
on_open_host c f =
    if c.closed
    then thrown illegal_call c
    else elim c.host [ none ↦ thrown illegal_call c | some h ↦ f h ]

pub ensure_camera_signaling_enabled : Controller → Outcome (Unit {0})
ensure_camera_signaling_enabled c = on_open_host c λ h. returned tt c

pub camera_peer_node : ℕ → Controller → Outcome ℕ
camera_peer_node handle c =
    on_open_host c
      λ h. elim (get_peer_node handle h) [ err e ↦ thrown (chip e) c | ok node ↦ returned node c ]

-- SelectedCameraStreams, by the error of GetSessionInfo and the two identifiers that it gives.
pub selected_camera_streams :
    ChipError → Option ℕ × Option ℕ → ℕ → Controller → Outcome (Option ℕ × Option ℕ)
unfolding get_session
selected_camera_streams info ids handle c =
    if c.closed then thrown illegal_call c else elim c.host [
      | none ↦ crashed
      | some h ↦ checked (get_session info handle h) c (returned ids c)
    ]

-- What SendCameraCandidates does once CameraPeerNode has found the node and the locks are taken.
send_candidates_on : Sending → ℕ → Controller → Host → Outcome (Unit {0})
send_candidates_on s handle c h = elim (sent h handle candidates s) [
  | none ↦ out_of_fuel
  | some e ↦ if is_error e then thrown (failure_of e) c else returned tt c
]

pub send_camera_candidates :
    Result Failure (Unit {0})
    → Result Failure (Unit {0})
    → Sending
    → ℕ
    → Controller
    → Outcome (Unit {0})
unfolding camera_peer_node send_candidates_on
send_camera_candidates lifetime node s handle c = elim lifetime [
  | err f ↦ thrown f c
  | ok u ↦ elim (camera_peer_node handle c) [
    | thrown f d ↦ thrown f d
    | crashed ↦ crashed
    | out_of_fuel ↦ out_of_fuel
    | returned n d ↦ elim node [
      | err f ↦ thrown f c
      | ok u ↦ on_open_host c (send_candidates_on s handle c)
    ]
  ]
]

-- PollCameraSignal: whether try_lock got the mutex, and what the SDK's TakeSignal gives.
pub poll_camera_signal :
    {Signal : Type 0} → Bool → Option Signal → ℕ → Controller → Outcome (Option Signal)
poll_camera_signal locked signal handle c =
    if not locked
    then returned none c
    else on_open_host c λ h. checked (validate handle h) c (returned signal c)

pub data SessionState : Type 0 where
  negotiating established closed failed : SessionState

-- CameraState: whether AcquireCleanup got the lease, and the SDK's GetSessionState.
pub camera_state : Bool → ChipError → SessionState → ℕ → Controller → Outcome SessionState
unfolding get_session
camera_state leased native state handle c =
    if not leased || c.closed then returned closed c else elim c.host [
      | none ↦ returned closed c
      | some h ↦
          if not (h.active_handle == handle)
          then returned closed c
          else checked (get_session native handle h) c (returned state c)
    ]

-- CloseCamera once the session was found valid and the locks are taken.
pub close_valid : Ending → ℕ → Controller → Host → Outcome (Unit {0})
close_valid n handle c h = elim (sent h handle finish n.send_end) [
  | none ↦ out_of_fuel
  | some e ↦ elim (close_local n.close_session n.unregister handle h) [
    | none ↦ crashed
    | some r ↦
        checked r.0 (with_host r.1 c) (checked e (with_host r.1 c) (returned tt (with_host r.1 c)))
  ]
]

-- The locks of CloseCamera are taken between two checks, while other operations may run: `later` is
-- the controller at the second check.
pub close_camera :
    Bool → Result Failure (Unit {0}) → Ending → ℕ → Controller → Controller → Outcome (Unit {0})
unfolding close_valid
close_camera leased acquired n handle c later =
    if not leased || c.closed then returned tt c else elim c.host [
      | none ↦ returned tt c
      | some h ↦
          if is_error (validate handle h) then returned tt c else elim (get_peer_node handle h) [
            | err e ↦ thrown (chip e) c
            | ok node ↦ elim acquired [
              | err f ↦ thrown f later
              | ok u ↦ elim later.host [
                | none ↦ crashed
                | some g ↦
                    if is_error (validate handle g)
                    then returned tt later
                    else close_valid n handle later g
              ]
            ]
          ]
    ]
