-- ===== src/Admission/Tests.antt =====
-- RuntimeOperationAdmission (winrt/Projection.cpp) on concrete rounds and interleavings.
use matter_winrt.Base.{
  ℕ, ◌*◌, ◌≡◌, ◌≢◌, refl, true, false, some, List, [], ◌∷◌, get_elem?, total, ltb, arith,
}
use matter_winrt.Poll.{poll}
use matter_winrt.Admission.Wait.{
  Observation, admitted, operation_round, acquire_operation_lock, ClockMoves,
}
use matter_winrt.Admission.Nodes
use matter_winrt.Admission.Nodes.Exclusion
use matter_winrt.Admission.Lifetime

-- The lock is there from the third round on.
abbrev rounds : ℕ → Observation
rounds k = record { closing = false; cancelled = false; now = k * 100; owns_lock = ltb 1 k }

rounds-Move : ClockMoves rounds 1000
rounds-Move k h = omega arith

rounds_admit : acquire_operation_lock rounds 1000 5 ≡ some admitted
unfolding acquire_operation_lock operation_round poll
rounds_admit = refl

-- Two operations on node 4 and one on node 5.
abbrev node_events : List Nodes.Event
node_events =
    Nodes.enters 4
    ∷ Nodes.locks 0
    ∷ Nodes.enters 4
    ∷ Nodes.locks 1
    ∷ Nodes.enters 5
    ∷ Nodes.locks 2
    ∷ []

abbrev first_lease : Nodes.Lease
first_lease = record { node = 4; mutex = 0; phase = Nodes.locked }

abbrev third_lease : Nodes.Lease
third_lease = record { node = 5; mutex = 1; phase = Nodes.locked }

first_locked : get_elem? (Nodes.run Nodes.initial node_events).leases 0 ≡ some first_lease
unfolding Nodes.run Nodes.initial Nodes.step Nodes.enter Nodes.lock Nodes.leave Nodes.purge
    Nodes.alive total
first_locked = refl

third_locked : get_elem? (Nodes.run Nodes.initial node_events).leases 2 ≡ some third_lease
unfolding Nodes.run Nodes.initial Nodes.step Nodes.enter Nodes.lock Nodes.leave Nodes.purge
    Nodes.alive total
third_locked = refl

node_exclusive_example : first_lease.node ≢ third_lease.node
node_exclusive_example =
    Nodes.Exclusion.node_exclusive node_events 0 2 first_lease third_lease first_locked third_locked
      (λ e. omega (arith, e)) refl refl

-- Commissioning waits for a read to end.
abbrev exclusive_events : List Lifetime.Event
exclusive_events =
    Lifetime.arrives false
    ∷ Lifetime.tries 0
    ∷ Lifetime.looks 0
    ∷ Lifetime.arrives true
    ∷ Lifetime.tries 1
    ∷ Lifetime.ends 0
    ∷ Lifetime.tries 1
    ∷ Lifetime.looks 1
    ∷ Lifetime.arrives false
    ∷ Lifetime.tries 2
    ∷ []

exclusive_leased :
    get_elem? (Lifetime.run Lifetime.initial exclusive_events).threads 1
    ≡ some (Lifetime.leased true)
unfolding Lifetime.run Lifetime.initial Lifetime.step Lifetime.arrive Lifetime.on_thread
    Lifetime.try_lock Lifetime.look Lifetime.end_lease Lifetime.available Lifetime.at total
exclusive_leased = refl

other_waits :
    get_elem? (Lifetime.run Lifetime.initial exclusive_events).threads 2
    ≡ some (Lifetime.trying false)
unfolding Lifetime.run Lifetime.initial Lifetime.step Lifetime.arrive Lifetime.on_thread
    Lifetime.try_lock Lifetime.look Lifetime.end_lease Lifetime.available Lifetime.at total
other_waits = refl

-- A shutdown waits for the lease of an operation.
abbrev shutdown_events : List Lifetime.Event
shutdown_events =
    Lifetime.arrives false
    ∷ Lifetime.tries 0
    ∷ Lifetime.looks 0
    ∷ Lifetime.starts_closing
    ∷ Lifetime.shuts_down
    ∷ Lifetime.ends 0
    ∷ Lifetime.shuts_down
    ∷ []

shutdown_done : (Lifetime.run Lifetime.initial shutdown_events).shut ≡ true
unfolding Lifetime.run Lifetime.initial Lifetime.step Lifetime.arrive Lifetime.on_thread
    Lifetime.try_lock Lifetime.look Lifetime.end_lease Lifetime.start_closing Lifetime.shut_down
    Lifetime.available Lifetime.at total
shutdown_done = refl

operation_gone :
    get_elem? (Lifetime.run Lifetime.initial shutdown_events).threads 0 ≡ some Lifetime.gone
unfolding Lifetime.run Lifetime.initial Lifetime.step Lifetime.arrive Lifetime.on_thread
    Lifetime.try_lock Lifetime.look Lifetime.end_lease Lifetime.start_closing Lifetime.shut_down
    Lifetime.available Lifetime.at total
operation_gone = refl

abbrev closing : Lifetime.Lifetime
closing = record {
  closing = true;
  shut = false;
  threads = Lifetime.leased false ∷ Lifetime.owning false ∷ Lifetime.trying true ∷ [];
}
