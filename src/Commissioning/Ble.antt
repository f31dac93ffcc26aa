-- ===== src/Commissioning/Ble.antt =====
-- winrt/Projection.cpp, MatterControllerCommissioning::CommissionBleAsync: the interface that it selects,
-- the state that its progress callback keeps, and how it ends. `H` are the texts; messages and elapsed
-- times are left out. How Commission ends is an input.
pub mod Reporting
use matter_winrt.Base.{
  ℕ, ◌+◌, ◌%◌, ◌^◌, ◌==◌, ◌&&◌, ◌||◌, not, Bool, true, false, List, [], ◌∷◌, Option, none, some,
  if◌then◌else◌, Result, ok, err,
}
use matter_winrt.Chip.{ChipError, timeout, no_error, is_error}
use matter_winrt.Commissioning.Stages.{
  SdkStage, Stage, unknown, searching_for_device, Transport, operational_ip, FailureKind,
  project_commissioning_stage, project_commissioning_transport, classify_commissioning_failure,
}
use matter_winrt.Commissioning.Pairing

-- MatterNetworkInterfaceSelectionMode, and a mode that is none of its values.
pub data Mode : Type 0 where
  automatic prefer_specified_interface require_specified_interface unknown_mode : Mode

pub record Interface (H : Type 0) : Type 0 where
  pub id : ℕ
  pub is_up : Bool
  pub multicast : Bool
  -- `none` where GetInterfaceName fails.
  pub name : Option H

-- An address of an interface: whether it is readable and of IPv6.
pub record Address : Type 0 where
  pub id : ℕ
  pub is_ipv6 : Bool

-- The errors, all of them hresult_invalid_argument.
pub data Refused : Type 0 where
  unknown_selection_mode not_found disconnected no_ipv6 no_multicast : Refused

unfoldable pub find_interface : {H : Type 0} → ℕ → List (Interface H) → Option (Interface H)
find_interface id [] = none
find_interface id (i ∷ rest) =
    let later = find_interface id rest in if i.id == id then some i else later

unfoldable pub supports_ipv6 : ℕ → List Address → Bool
supports_ipv6 id [] = false
supports_ipv6 id (a ∷ rest) =
    let later = supports_ipv6 id rest in ((a.id == id) && a.is_ipv6) || later

module _ {H : Type 0} (empty : H) where
  abbrev pub name_of : Option (Interface H) → H
  name_of none = empty
  name_of (some i) = elim i.name [ none ↦ empty | some n ↦ n ]

  unfoldable pub required : Option (Interface H) → Bool → Result Refused H
  required none ipv6 = err not_found
  required (some i) ipv6 =
      if not i.is_up
      then err disconnected
      else if not ipv6
      then err no_ipv6
      else if not i.multicast
      then err no_multicast
      else ok (name_of (some i))

  -- The name of the interface.
  unfoldable pub select_interface : Mode → ℕ → List (Interface H) → List Address → Result Refused H
  unfolding find_interface supports_ipv6 required
  select_interface automatic id interfaces addresses = ok empty
  select_interface prefer_specified_interface id interfaces addresses =
      ok (name_of (find_interface id interfaces))
  select_interface require_specified_interface id interfaces addresses =
      required (find_interface id interfaces) (supports_ipv6 id addresses)
  select_interface unknown_mode id interfaces addresses = err unknown_selection_mode

-- ProgressState; a native stage of -1 is `none`.
pub record State (H : Type 0) : Type 0 where
  pub last_completed : Stage
  pub active : Stage
  pub native_stage : Option SdkStage
  pub native_error : ChipError
  pub attempt : ℕ
  pub interface : ℕ
  pub interface_name : H

-- The stage of a report; the last two are those of the end.
pub data Reported : Type 0 where
  running : Stage → Reported
  completed failed : Reported

-- MatterCommissioningProgress; the unknown transport is `none`.
pub record Report (H : Type 0) : Type 0 where
  pub stage : Reported
  pub last_completed : Stage
  pub native_stage : Option SdkStage
  pub transport : Option Transport
  pub interface : ℕ
  pub interface_name : H
  pub attempt : ℕ
  pub retrying : Bool

abbrev pub is_preferred : Mode → Bool
is_preferred prefer_specified_interface = true
is_preferred _ = false

module _ {H : Type 0} (empty : H) where
  unfoldable pub initial_state : ℕ → H → State H
  initial_state interface name = record {
    last_completed = unknown;
    active = searching_for_device;
    native_stage = none;
    native_error = no_error;
    attempt = 1;
    interface = interface;
    interface_name = name;
  }

  -- An attempt after the first one; a preferred interface is not asked for again.
  unfoldable pub retried : Mode → State H → State H
  retried mode s =
      let t = record s { attempt = (s.attempt + 1) % 2 ^ 32 } in
      if is_preferred mode then record t { interface = 0; interface_name = empty } else t

  unfoldable pub noted : Pairing.Progress → State H → State H
  noted u s =
      let stage = project_commissioning_stage u.stage in
      record s {
        active = stage;
        native_stage = some u.stage;
        native_error = u.error;
        last_completed = if u.completed && not (is_error u.error) then stage else s.last_completed;
      }

  -- The locked block of the callback.
  unfoldable pub update : Mode → Pairing.Progress → State H → State H
  unfolding retried noted
  update mode u s = let t = noted u s in if u.retrying then retried mode t else t

  -- What the callback publishes.
  unfoldable pub progress_report : Pairing.Progress → State H → Report H
  progress_report u s = record {
    stage = running (project_commissioning_stage u.stage);
    last_completed = s.last_completed;
    native_stage = some u.stage;
    transport = some (project_commissioning_transport u.stage);
    interface = s.interface;
    interface_name = s.interface_name;
    attempt = s.attempt;
    retrying = u.retrying;
  }

  unfoldable pub updates : Mode → List Pairing.Progress → State H → State H
  unfolding update
  updates mode [] s = s
  updates mode (u ∷ us) s = updates mode us (update mode u s)

  -- The report of the end.
  unfoldable pub end_report : Reported → Option SdkStage → Option Transport → State H → Report H
  end_report stage native transport s = record {
    stage = stage;
    last_completed = s.last_completed;
    native_stage = native;
    transport = transport;
    interface = s.interface;
    interface_name = s.interface_name;
    attempt = s.attempt;
    retrying = false;
  }

-- How Commission ends: a node, a ChipOperationError, whose code may be that of a timeout, or another
-- hresult_error.
pub data Commissioned : Type 0 where
  node : ℕ → Commissioned
  chip_failed : ChipError → Bool → Commissioned
  other_failed : Bool → Commissioned

pub data Outcome : Type 0 where
  succeeded timed_out failed_outcome : Outcome

-- MatterCommissioningResult.
pub record BleResult : Type 0 where
  pub outcome : Outcome
  pub kind : FailureKind
  pub failed_stage : Stage
  pub last_completed : Stage
  pub native_stage : Option SdkStage
  pub native_error : ChipError
  pub interface : ℕ
  pub node : Option ℕ

module _ {H : Type 0} (empty : H) where
  abbrev pub failure_result : Bool → ChipError → State H → BleResult
  failure_result timed error s = record {
    outcome = if timed then timed_out else failed_outcome;
    kind = classify_commissioning_failure s.active timed;
    failed_stage = s.active;
    last_completed = s.last_completed;
    native_stage = s.native_stage;
    native_error = if timed then timeout else error;
    interface = s.interface;
    node = none;
  }

  -- The catch clause: `none` is hresult_canceled.
  unfoldable pub commission_failed : Bool → Bool → ChipError → State H → Report H × Option BleResult
  unfolding end_report
  commission_failed is_canceled timed error s =
      let report = end_report empty failed s.native_stage none s in
      if is_canceled then (report, none) else (report, some (failure_result timed error s))

  -- From the end of Commission on.
  unfoldable pub commission_ble_end : Bool → Commissioned → State H → Report H × Option BleResult
  unfolding end_report commission_failed
  commission_ble_end is_canceled (node n) s = (
    end_report empty completed none (some operational_ip) s,
    some (record {
      outcome = succeeded;
      kind = FailureKind.unknown_failure;
      failed_stage = unknown;
      last_completed = s.last_completed;
      native_stage = none;
      native_error = no_error;
      interface = s.interface;
      node = some n;
    }),
  )
  commission_ble_end is_canceled (chip_failed error timed) s =
      commission_failed is_canceled timed error s
  commission_ble_end is_canceled (other_failed timed) s =
      commission_failed is_canceled timed s.native_error s
