-- ===== src/Camera/Host.antt =====
-- winrt/CameraControllerRuntime.h: the controller's host of one camera signaling session. The requestor
-- endpoint, the bindings and the access control are the SDK's: the errors that their calls return are
-- inputs, and of the endpoint the host keeps its identifier. A null dereference is `none`.
pub mod Command
pub mod Handles
pub mod Tests
pub mod Session
pub mod Stale
use matter_winrt.Base.{
  ℕ, suc, ◌+◌, ◌%◌, not, Bool, true, false, ◌&&◌, ◌||◌, ◌==◌, Option, none, some, List, [], ◌∷◌,
  if◌then◌else◌, is_some, Result, ok, err,
}
use matter_winrt.Chip.{
  ChipError, no_error, incorrect_state, busy, resource_exhausted, access_denied, is_error,
}

pub record Host : Type 0 where
  pub bindings_initialized : Bool
  pub access_installed : Bool
  -- mEndpoint, by its identifier; whether mClient is there.
  pub endpoint : Option ℕ
  pub client : Bool
  pub next_endpoint : ℕ
  pub next_handle : ℕ
  pub active_handle : ℕ
  pub native_handle : ℕ
  pub peer_node : ℕ

-- The two values of uint16_t and uint64_t that the guards name, and where the counters wrap.
abbrev pub invalid_endpoint : ℕ
invalid_endpoint = 65535

abbrev pub endpoints : ℕ
endpoints = 65536

abbrev pub handles : ℕ
handles = 18446744073709551616

unfoldable pub initial : Host
initial = record {
  bindings_initialized = false;
  access_installed = false;
  endpoint = none;
  client = false;
  next_endpoint = 1;
  next_handle = 1;
  active_handle = 0;
  native_handle = 0;
  peer_node = 0;
}

-- Init: the error of GetEntryCount is the one of an uninitialized access control, or not; the errors
-- of the persistence's and the access control's Init.
unfoldable pub init : Bool → ChipError → ChipError → Host → ChipError × Host
init uninitialized persistence access h =
    if not uninitialized
    then (incorrect_state, h)
    else if is_error persistence
    then (persistence, h)
    else if is_error access
    then (access, h)
    else (no_error, record h { access_installed = true })

pub reset_access : Host → Host
reset_access h =
    let t = record h { active_handle = 0 } in
    if h.access_installed then record t { access_installed = false } else t

-- Shutdown, by the error of Unregister.
pub shutdown : ChipError → Host → ChipError × Host
unfolding reset_access
shutdown unregister h =
    let t = record h { bindings_initialized = false; client = false } in
    if is_some h.endpoint && is_error unregister
    then (unregister, t)
    else (no_error, reset_access (record t { endpoint = none }))

-- What the calls of Create return: the errors of the bindings' Init, of Register and of CreateSession,
-- and the handle that CreateSession writes.
pub record Calls : Type 0 where
  pub bindings : ChipError
  pub register : ChipError
  pub create_session : ChipError
  pub native : ℕ

-- The part of Create after the bindings are there.
unfoldable pub open_session : Calls → ℕ → Host → Result ChipError ℕ × Host
open_session c peer h =
    let t = record h { next_endpoint = (h.next_endpoint + 1) % endpoints } in
    if is_error c.register
    then (err c.register, record t { endpoint = none })
    else if is_error c.create_session
    then (err c.create_session, record t { endpoint = none; native_handle = c.native })
    else (
      ok h.next_handle,
      record t {
        endpoint = some h.next_endpoint;
        client = true;
        native_handle = c.native;
        peer_node = peer;
        active_handle = h.next_handle;
        next_handle = (h.next_handle + 1) % handles;
      },
    )

unfoldable pub create : Calls → ℕ → Host → Result ChipError ℕ × Host
unfolding open_session
create c peer h =
    if not (h.active_handle == 0)
    then (err busy, h)
    else if (h.next_endpoint == invalid_endpoint) || (h.next_handle == 0)
    then (err resource_exhausted, h)
    else if not h.bindings_initialized && is_error c.bindings
    then (err c.bindings, h)
    else open_session c peer (record h { bindings_initialized = true })

unfoldable pub validate : ℕ → Host → ChipError
validate handle h =
    if not (handle == 0) && (handle == h.active_handle) && is_some h.endpoint && h.client
    then no_error
    else incorrect_state

pub get_peer_node : ℕ → Host → Result ChipError ℕ
unfolding validate
get_peer_node handle h =
    let error = validate handle h in if is_error error then err error else ok h.peer_node

-- CloseLocal, by the errors of CloseSession and Unregister.
unfoldable pub close_local : ChipError → ChipError → ℕ → Host → Option (ChipError × Host)
close_local close unregister handle h =
    if not (handle == h.active_handle)
    then some (no_error, h)
    else if not (is_some h.endpoint)
    then none
    else if is_error close
    then some (close, record h { client = false })
    else if is_error unregister
    then some (unregister, record h { client = false })
    else some (no_error, record h { client = false; endpoint = none; active_handle = 0 })

-- Check: the endpoint decides, if it is there.
pub check : ChipError → Host → ChipError
check decision h = if is_some h.endpoint then decision else access_denied

-- IsDeviceTypeOnEndpoint: the only device type is that of a camera controller.
abbrev pub device_type : ℕ
device_type = 327

pub is_device_type_on_endpoint : ℕ → ℕ → Host → Bool
is_device_type_on_endpoint type endpoint h = elim h.endpoint [
  | none ↦ false
  | some e ↦ (endpoint == e) && (type == device_type)
]

pub data Event : Type 0 where
  inits : Bool → ChipError → ChipError → Event
  shuts_down : ChipError → Event
  creates : Calls → ℕ → Event
  -- CloseLocal with a handle.
  closes : ChipError → ChipError → ℕ → Event

-- The state after a call, and the handle that it gave.
unfoldable pub step : Host → Event → Host
unfolding init shutdown create close_local
step h (inits u p a) = (init u p a h).1
step h (shuts_down e) = (shutdown e h).1
step h (creates c peer) = (create c peer h).1
step h (closes e f handle) = elim (close_local e f handle h) [ none ↦ h | some r ↦ r.1 ]

pub given : Host → Event → Option ℕ
unfolding create
given h (creates c peer) = elim (create c peer h).0 [ err e ↦ none | ok handle ↦ some handle ]
given h _ = none

unfoldable pub run : Host → List Event → Host
run h [] = h
run h (e ∷ es) = run (step h e) es
