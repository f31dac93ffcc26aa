-- ===== src/Commissioning/Nodes/Tests.antt =====
-- The operations of winrt/Projection.cpp on commissioned nodes, on concrete calls.
use matter_winrt.Base.{ℕ, ◌≡◌, refl, true, false, List, [], ◌∷◌, ok, err, arith}
use matter_winrt.Chip.{no_error, timeout}
use matter_winrt.Commissioning.Stages.{secure_pairing}
use matter_winrt.Commissioning.Pairing.{
  Callback, starts, completes, initial, reset, run, complete, report, on_commissioning_stage_start,
}
use matter_winrt.Commissioning.Pairing
use matter_winrt.Commissioning.NodeIndex.{persist_commissioned_nodes}
use matter_winrt.Commissioning.Nodes.{
  Runtime, chip, Storing, persist, contains, removed, add_node, Commissioning, commission_end,
  wait_details, commission_waited, commission, recover_node, remove_node, Event, commissions,
  recovers, removes, run_events,
}
use matter_winrt.Commissioning.Nodes.Distinct.{Distinct, nodes_stay-Distinct}
use matter_winrt.Commissioning.Nodes.Succeeding.{Paired, AddedTo, commission_succeeds}
use matter_winrt.Commissioning.Nodes.Persisting.{
  Stored, commissioned, Returned-keeps_Stored, failed_write_is_not_retried,
}

abbrev runtime : Runtime
runtime = record { closed = false; nodes = 5 ∷ 6 ∷ []; stored = 5 ∷ 6 ∷ []; pairing = initial }

abbrev written : Storing
written = record { error = no_error; left = [] }

abbrev broken : Storing
broken = record { error = timeout; left = 5 ∷ 6 ∷ [] }

-- The device is paired without a progress callback.
abbrev pairs : Commissioning
pairs = record {
  node = 9;
  reporting = false;
  allow_test_attestation = false;
  acquired = ok tt;
  canceled = false;
  canceled_waiting = false;
  canceled_waited = false;
  pair_device = no_error;
  callbacks = starts secure_pairing ∷ completes no_error ∷ [];
  details = [];
  storing = written;
}

abbrev with_device : Runtime
with_device = record {
  closed = false;
  nodes = 5 ∷ 6 ∷ 9 ∷ [];
  stored = 5 ∷ 6 ∷ 9 ∷ [];
  pairing = run false (reset false initial) (starts secure_pairing ∷ completes no_error ∷ []);
}

device_paired : commission pairs runtime ≡ (ok 9, with_device)
unfolding commission commission_waited commission_end wait_details add_node persist contains
    persist_commissioned_nodes run reset Pairing.step complete on_commissioning_stage_start report
    initial
device_paired = refl

commission_succeeds_example :
    Paired pairs runtime × (◌≡◌ {A = ℕ} 9 pairs.node) × AddedTo 9 (5 ∷ 6 ∷ []) (5 ∷ 6 ∷ 9 ∷ [])
commission_succeeds_example = commission_succeeds pairs runtime 9 with_device device_paired

Returned-keeps_Stored_example : Stored with_device
Returned-keeps_Stored_example =
    Returned-keeps_Stored runtime with_device (commissioned pairs 9 device_paired) refl

abbrev without_five : Runtime
without_five = record { closed = false; nodes = 6 ∷ []; stored = 6 ∷ []; pairing = initial }

five_removed : remove_node (ok tt) no_error written 5 runtime ≡ (ok tt, without_five)
unfolding remove_node removed persist persist_commissioned_nodes initial
five_removed = refl

abbrev events : List Event
events =
    commissions pairs
    ∷ recovers true (ok tt) (ok tt) broken 7
    ∷ recovers true (ok tt) (ok tt) written 7
    ∷ removes (ok tt) no_error broken 6
    ∷ []

five_six-Distinct : Distinct (5 ∷ 6 ∷ [])
unfolding Distinct contains
five_six-Distinct = (refl, (refl, tt))

nodes_stay-Distinct_example : Distinct (run_events runtime events).nodes
nodes_stay-Distinct_example = nodes_stay-Distinct events runtime five_six-Distinct

seven_new : contains 7 runtime.nodes ≡ false
unfolding contains
seven_new = refl

failed_write_is_not_retried_example :
    (t : Runtime) × (recover_node true (ok tt) (ok tt) broken 7 runtime ≡ (err (chip timeout), t))
    × (t.nodes ≡ 5 ∷ 6 ∷ 7 ∷ [])
    × (t.stored ≡ 5 ∷ 6 ∷ [])
    × (recover_node true (ok tt) (ok tt) written 7 t ≡ (ok 7, t))
failed_write_is_not_retried_example =
    failed_write_is_not_retried broken written 7 runtime refl seven_new (omega arith) refl
