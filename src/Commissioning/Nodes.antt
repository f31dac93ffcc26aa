-- ===== src/Commissioning/Nodes.antt =====
-- winrt/Projection.cpp, Commission, CommissionedNodes, RecoverNode and RemoveNode of ControllerRuntime:
-- the commissioned nodes in memory and their stored copy. What the admission throws and what the calls
-- of the SDK return are inputs, as are the callbacks that come during the two waits of Commission.
pub mod Distinct
pub mod Persisting
pub mod Succeeding
pub mod Tests
use matter_winrt.Base.{
  ℕ, Bool, true, false, not, ◌&&◌, ◌||◌, ◌==◌, Option, none, some, List, [], ◌∷◌, ◌++◌,
  if◌then◌else◌, is_some, Result, ok, err,
}
use matter_winrt.Chip.{ChipError, no_error, value_not_found, is_error}
use matter_winrt.Commissioning.Pairing.{State, Callback, reset, run}
use matter_winrt.Commissioning.NodeIndex.{
  Write, deletes, writes, refuses, persist_commissioned_nodes, is_absent,
}

pub record Runtime : Type 0 where
  pub closed : Bool
  -- mCommissionedNodes, and the index in the storage.
  pub nodes : List ℕ
  pub stored : List ℕ
  pub pairing : State

pub data Failure : Type 0 where
  canceled illegal_call invalid_argument timed_out bounds : Failure
  -- ThrowChipError; ThrowCommissioningError.
  chip commissioning : ChipError → Failure
  -- What ReadAttribute or the admission throws.
  other : ℕ → Failure

abbrev pub Outcome : Type 0 → Type 0
Outcome A = Result Failure A × Runtime

-- A call of the storage: its error, and the index that it leaves behind if it fails.
pub record Storing : Type 0 where
  pub error : ChipError
  pub left : List ℕ

-- PersistCommissionedNodes with the call that it makes.
pub persist : Storing → Runtime → Outcome (Unit {0})
unfolding persist_commissioned_nodes
persist s r = elim (persist_commissioned_nodes r.nodes) [
  | refuses ↦ (err bounds, r)
  | deletes ↦
      if is_error s.error && not (is_absent s.error)
      then (err (chip s.error), record r { stored = s.left })
      else (ok tt, record r { stored = [] })
  | writes nodes ↦
      if is_error s.error
      then (err (chip s.error), record r { stored = s.left })
      else (ok tt, record r { stored = nodes })
]

pub contains : ℕ → List ℕ → Bool
contains n [] = false
contains n (m ∷ ms) = let rest = contains n ms in (m == n) || rest

-- std::remove and erase.
pub removed : ℕ → List ℕ → List ℕ
removed n [] = []
removed n (m ∷ ms) = let rest = removed n ms in if m == n then rest else m ∷ rest

-- The end of Commission and of RecoverNode.
pub add_node : Storing → ℕ → Runtime → Outcome ℕ
unfolding persist contains
add_node s n r =
    if contains n r.nodes
    then (ok n, r)
    else let p = persist s (record r { nodes = r.nodes ++ n ∷ [] }) in
      elim p.0 [ err f ↦ (err f, p.1) | ok u ↦ (ok n, p.1) ]

pub record Commissioning : Type 0 where
  pub node : ℕ
  pub reporting : Bool
  pub allow_test_attestation : Bool
  pub acquired : Result Failure (Unit {0})
  -- The canceled flag at the start; whether it is set by the end of the wait, and by the check after
  -- it: it stays set.
  pub canceled : Bool
  pub canceled_waiting : Bool
  pub canceled_waited : Bool
  pub pair_device : ChipError
  -- The callbacks by the end of the first wait, and in the second.
  pub callbacks : List Callback
  pub details : List Callback
  pub storing : Storing

-- Commission after its waits, with the state of the pairing.
pub commission_end : Commissioning → Runtime → Outcome ℕ
unfolding add_node
commission_end c r =
    if is_error r.pairing.error && is_some r.pairing.completion_status
    then (err (commissioning r.pairing.error), r)
    else if is_error r.pairing.error
    then (err (chip r.pairing.error), r)
    else add_node c.storing c.node r

-- The second wait, for the details of a failure.
pub wait_details : Commissioning → Runtime → Runtime
wait_details c r =
    if is_error r.pairing.error && not (is_some r.pairing.completion_status)
    then record r { pairing = run c.allow_test_attestation r.pairing c.details }
    else r

-- Commission once the first wait has ended: with its predicate, or at its timeout.
pub commission_waited : Commissioning → Runtime → Outcome ℕ
unfolding commission_end wait_details
commission_waited c r =
    if not (r.pairing.complete || c.canceled_waiting)
    then (err timed_out, r)
    else if c.canceled_waiting || c.canceled_waited
    then (err canceled, r)
    else commission_end c (wait_details c r)

pub commission : Commissioning → Runtime → Outcome ℕ
unfolding commission_waited
commission c r = elim c.acquired [
  | err f ↦ (err f, r)
  | ok u ↦
      let q = record r { pairing = reset c.reporting r.pairing } in
      let p = record q { pairing = run c.allow_test_attestation q.pairing c.callbacks } in
      if r.closed
      then (err illegal_call, r)
      else if c.canceled
      then (err canceled, r)
      else if is_error c.pair_device
      then (err (chip c.pair_device), q)
      else commission_waited c p
]

pub commissioned_nodes : Result Failure (Unit {0}) → Runtime → Outcome (List ℕ)
commissioned_nodes acquired r = elim acquired [
  | err f ↦ (err f, r)
  | ok u ↦ if r.closed then (err illegal_call, r) else (ok r.nodes, r)
]

-- RecoverNode: whether the identifier is operational, and what ReadAttribute and the admission throw.
pub recover_node :
    Bool → Result Failure (Unit {0}) → Result Failure (Unit {0}) → Storing → ℕ → Runtime → Outcome ℕ
unfolding add_node
recover_node operational read acquired s n r =
    if not operational then (err invalid_argument, r) else elim read [
      | err f ↦ (err f, r)
      | ok u ↦ elim acquired [
        | err f ↦ (err f, r)
        | ok u ↦ if r.closed then (err illegal_call, r) else add_node s n r
      ]
    ]

pub remove_node : Result Failure (Unit {0}) → ChipError → Storing → ℕ → Runtime → Outcome (Unit {0})
unfolding persist removed
remove_node acquired unpair s n r = elim acquired [
  | err f ↦ (err f, r)
  | ok u ↦
      if r.closed
      then (err illegal_call, r)
      else if is_error unpair
      then (err (chip unpair), r)
      else persist s (record r { nodes = removed n r.nodes })
]

-- One call of an operation that may change the nodes.
pub data Event : Type 0 where
  commissions : Commissioning → Event
  recovers : Bool → Result Failure (Unit {0}) → Result Failure (Unit {0}) → Storing → ℕ → Event
  removes : Result Failure (Unit {0}) → ChipError → Storing → ℕ → Event

pub step : Runtime → Event → Runtime
unfolding commission recover_node remove_node
step r (commissions c) = (commission c r).1
step r (recovers o a b s n) = (recover_node o a b s n r).1
step r (removes a e s n) = (remove_node a e s n r).1

pub run_events : Runtime → List Event → Runtime
unfolding step
run_events r [] = r
run_events r (e ∷ es) = run_events (step r e) es
