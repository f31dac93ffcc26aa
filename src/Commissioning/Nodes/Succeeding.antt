-- ===== src/Commissioning/Nodes/Succeeding.antt =====
-- When the operations of winrt/Projection.cpp on commissioned nodes succeed, and what they have done.
use matter_winrt.Base.{
  ℕ, ◌≡◌, refl, ◌∙◌, sym, ap, true, false, ◌||◌, ◌==◌, List, [], ◌∷◌, ◌++◌, Result, ok, err,
  Bool-cases, inl, inr, arith,
}
use mathlib.Core.Path.{subst}
use matter_winrt.Chip.{ChipError, no_error}
use matter_winrt.Commissioning.Pairing.{reset, run}
use matter_winrt.Commissioning.Nodes.{
  Runtime, Failure, Outcome, Storing, persist, contains, removed, add_node, Commissioning,
  commission_end, wait_details, commission_waited, commission, remove_node,
}
use matter_winrt.Commissioning.Nodes.Distinct.{
  contains-append, contains-removed, persist-nodes, add_node-new, add_node-old,
}

-- The runtime at the end of the first wait.
abbrev pub paired : Commissioning → Runtime → Runtime
paired c r = record r {
  pairing = run c.allow_test_attestation (reset c.reporting r.pairing) c.callbacks;
}

-- The pairing was complete before the timeout, was not canceled and has no error after its waits.
pub record Paired (c : Commissioning) (r : Runtime) : Type 0 where
  pub complete : (paired c r).pairing.complete ≡ true
  pub going_on : c.canceled || c.canceled_waiting || c.canceled_waited ≡ false
  pub started : c.pair_device ≡ no_error
  pub fine : (wait_details c (paired c r)).pairing.error ≡ no_error

pub record Added (c : Commissioning) (r : Runtime) (n : ℕ) (t : Runtime) : Type 0 where
  pub pairing : Paired c r
  pub adds : add_node c.storing c.node (wait_details c (paired c r)) ≡ (ok n, t)

ended :
    (c : Commissioning) (r : Runtime) (n : ℕ) (t : Runtime)
    → commission_end c r ≡ (ok n, t)
    → (r.pairing.error ≡ no_error) × (add_node c.storing c.node r ≡ (ok n, t))
unfolding commission_end
ended c r n t h = ground arith

waited :
    (c : Commissioning) (r : Runtime) (n : ℕ) (t : Runtime)
    → commission_waited c r ≡ (ok n, t)
    → (r.pairing.complete ≡ true)
      × (c.canceled_waiting || c.canceled_waited ≡ false)
      × (commission_end c (wait_details c r) ≡ (ok n, t))
unfolding commission_waited
waited c r n t h = ground arith

entered :
    (c : Commissioning) (r : Runtime) (n : ℕ) (t : Runtime) (a : Result Failure (Unit {0}))
    → c.acquired ≡ a
    → commission c r ≡ (ok n, t)
    → (c.canceled ≡ false)
      × (c.pair_device ≡ no_error)
      × (commission_waited c (paired c r) ≡ (ok n, t))
unfolding commission
entered c r n t (err f) q h = ground arith
entered c r n t (ok u) q h = ground arith

pub commission-Added :
    (c : Commissioning) (r : Runtime) (n : ℕ) (t : Runtime)
    → commission c r ≡ (ok n, t)
    → Added c r n t
commission-Added c r n t h =
    let (a, b, w) = entered c r n t c.acquired refl h in
    let (d, e, f) = waited c (paired c r) n t w in
    let (x, y) = ended c (wait_details c (paired c r)) n t f in
    record {
      pairing = record { complete = d; going_on = ground arith; started = b; fine = x };
      adds = y;
    }

wait_details-nodes : (c : Commissioning) (r : Runtime) → (wait_details c r).nodes ≡ r.nodes
unfolding wait_details
wait_details-nodes c r = ground arith

-- The node is among the commissioned ones, and each other node is if it was.
abbrev pub AddedTo : ℕ → List ℕ → List ℕ → Type 0
AddedTo n before after =
    (contains n after ≡ true) × ((k : ℕ) → (k == n) ≡ false → contains k after ≡ contains k before)

appended : (n : ℕ) (ns : List ℕ) → AddedTo n ns (ns ++ n ∷ [])
appended n ns =
    (ground (arith, contains-append n n ns), λ k h. ground (arith, contains-append k n ns))

added_ok : (s : Storing) (n m : ℕ) (r t : Runtime) → add_node s n r ≡ (ok m, t) → m ≡ n
unfolding add_node
added_ok s n m r t h = elim (Bool-cases (contains n r.nodes)) [
  | inl q ↦ ground arith
  | inr q ↦ ground arith
]

add_node-AddedTo : (s : Storing) (n : ℕ) (r : Runtime) → AddedTo n r.nodes (add_node s n r).1.nodes
add_node-AddedTo s n r = elim (Bool-cases (contains n r.nodes)) [
  | inl q ↦
      subst (AddedTo n r.nodes) (sym (ap (λ (o : Outcome ℕ). o.1.nodes) (add_node-old s n r q)))
        (q, λ k h. refl)
  | inr q ↦ subst (AddedTo n r.nodes) (sym (add_node-new s n r q)) (appended n r.nodes)
]

-- A Commission that returns has paired its device: the commissioner has completed before the timeout,
-- nothing was canceled and no error is left. The node that is returned is the one that was asked for; it
-- is a commissioned node now, and every other node is one if it was before.
pub commission_succeeds :
    (c : Commissioning) (r : Runtime) (n : ℕ) (t : Runtime)
    → commission c r ≡ (ok n, t)
    → Paired c r × (n ≡ c.node) × AddedTo c.node r.nodes t.nodes
commission_succeeds c r n t h =
    let a = commission-Added c r n t h in
    let w = wait_details c (paired c r) in
    (
      a.pairing,
      added_ok c.storing c.node n w t a.adds,
      subst (λ ns. AddedTo c.node ns t.nodes) (wait_details-nodes c (paired c r))
          (subst (λ (o : Outcome ℕ). AddedTo c.node w.nodes o.1.nodes) a.adds
            (add_node-AddedTo c.storing c.node w)),
    )

-- A RemoveNode that returns has asked the commissioner first, with success; the node is not among the
-- commissioned ones any more, each other node stays.
pub remove_node_succeeds :
    (a : Result Failure (Unit {0})) (unpair : ChipError) (s : Storing) (n : ℕ) (r t : Runtime)
    → remove_node a unpair s n r ≡ (ok tt, t)
    → (unpair ≡ no_error)
      × (contains n t.nodes ≡ false)
      × ((k : ℕ) → (k == n) ≡ false → contains k t.nodes ≡ contains k r.nodes)
unfolding remove_node
remove_node_succeeds (err f) unpair s n r t h = absurd (ground arith)
remove_node_succeeds (ok u) unpair s n r t h =
    let p = record r { nodes = removed n r.nodes } in
    let q : persist s p ≡ (ok tt, t) = ground arith in
    let e : t.nodes ≡ removed n r.nodes =
      sym (ap (λ (o : Outcome (Unit {0})). o.1.nodes) q) ∙ persist-nodes s p in
    (
      ground arith,
      ap (contains n) e ∙ ground (arith, contains-removed n n r.nodes),
      λ k d. ap (contains k) e ∙ ground (arith, contains-removed n k r.nodes),
    )
