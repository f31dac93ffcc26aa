-- ===== src/Commissioning/Nodes/Distinct.antt =====
-- The list of commissioned nodes of winrt/Projection.cpp as a set: what it contains after each
-- operation, and that no node is in it twice.
use matter_winrt.Base.{
  ℕ, ◌≡◌, refl, ◌∙◌, sym, ap, Bool, true, false, ◌||◌, ◌==◌, List, [], ◌∷◌, ◌++◌, if◌then◌else◌,
  Result, ok, err, Bool-cases, inl, inr, ◌⊎◌, arith,
}
use mathlib.Core.Path.{subst}
use matter_winrt.Chip.{ChipError}
use matter_winrt.Commissioning.Pairing.{reset, run}
use matter_winrt.Commissioning.NodeIndex.{
  Write, deletes, writes, refuses, persist_commissioned_nodes,
}
use matter_winrt.Commissioning.Nodes.{
  Runtime, Failure, Outcome, Storing, persist, contains, removed, add_node, Commissioning,
  commission_end, wait_details, commission_waited, commission, recover_node, remove_node, Event,
  commissions, recovers, removes, step, run_events,
}

unfoldable pub Distinct : List ℕ → Type 0
Distinct [] = Unit
Distinct (n ∷ ns) = (contains n ns ≡ false) × Distinct ns

pub contains-append :
    (n m : ℕ) (ns : List ℕ) → contains n (ns ++ m ∷ []) ≡ contains n ns || (m == n)
unfolding contains
contains-append n m [] = ground arith
contains-append n m (k ∷ ks) = ground (arith, contains-append n m ks)

pub contains-removed :
    (n m : ℕ) (ns : List ℕ) → contains m (removed n ns) ≡ (if n == m then false else contains m ns)
unfolding contains removed
contains-removed n m [] = ground arith
contains-removed n m (k ∷ ks) = ground (arith, contains-removed n m ks)

Distinct-append :
    (n : ℕ) (ns : List ℕ) → Distinct ns → contains n ns ≡ false → Distinct (ns ++ n ∷ [])
unfolding Distinct contains
Distinct-append n [] d h = (refl, tt)
Distinct-append n (k ∷ ks) d h =
    (ground (arith, contains-append k n ks, d.0), Distinct-append n ks d.1 (ground arith))

Distinct-removed : (n : ℕ) (ns : List ℕ) → Distinct ns → Distinct (removed n ns)
unfolding Distinct removed
Distinct-removed n [] d = tt
Distinct-removed n (k ∷ ks) d = elim (Bool-cases (k == n)) [
  | inl q ↦ rw q (Distinct-removed n ks d.1)
  | inr q ↦ rw q (ground (arith, contains-removed n k ks, d.0), Distinct-removed n ks d.1)
]

persist-cases :
    (s : Storing) (r : Runtime) (w : Write)
    → persist_commissioned_nodes r.nodes ≡ w
    → (persist s r).1.nodes ≡ r.nodes
unfolding persist
persist-cases s r deletes q = rw (persist, q) (ground arith)
persist-cases s r (writes ns) q = rw (persist, q) (ground arith)
persist-cases s r refuses q = rw (persist, q) refl

pub persist-nodes : (s : Storing) (r : Runtime) → (persist s r).1.nodes ≡ r.nodes
persist-nodes s r = persist-cases s r (persist_commissioned_nodes r.nodes) refl

-- A node that was not there is put at the end, or nothing changes.
abbrev pub Adds : ℕ → Runtime → Runtime → Type 0
Adds n r t = (t.nodes ≡ r.nodes) ⊎ ((contains n r.nodes ≡ false) × (t.nodes ≡ r.nodes ++ n ∷ []))

added-nodes :
    (n : ℕ) (p : Outcome (Unit {0}))
    → (elim p.0 as (λ _. Outcome ℕ) [ err f ↦ (err f, p.1) | ok u ↦ (ok n, p.1) ]).1.nodes
      ≡ p.1.nodes
added-nodes n (err f, t) = refl
added-nodes n (ok u, t) = refl

pub add_node-new :
    (s : Storing) (n : ℕ) (r : Runtime)
    → contains n r.nodes ≡ false
    → (add_node s n r).1.nodes ≡ r.nodes ++ n ∷ []
unfolding add_node
add_node-new s n r q =
    let t = record r { nodes = r.nodes ++ n ∷ [] } in
    rw q (added-nodes n (persist s t) ∙ persist-nodes s t)

pub add_node-old :
    (s : Storing) (n : ℕ) (r : Runtime) → contains n r.nodes ≡ true → add_node s n r ≡ (ok n, r)
unfolding add_node
add_node-old s n r q = rw q refl

pub add_node-Adds : (s : Storing) (n : ℕ) (r : Runtime) → Adds n r (add_node s n r).1
add_node-Adds s n r = elim (Bool-cases (contains n r.nodes)) [
  | inl q ↦ inl (ap (λ (o : Outcome ℕ). o.1.nodes) (add_node-old s n r q))
  | inr q ↦ inr (q, add_node-new s n r q)
]

commission_end-Adds : (c : Commissioning) (r : Runtime) → Adds c.node r (commission_end c r).1
unfolding commission_end
commission_end-Adds c r = ground (arith, add_node-Adds c.storing c.node r)

commission_waited-Adds : (c : Commissioning) (r : Runtime) → Adds c.node r (commission_waited c r).1
unfolding commission_waited wait_details
commission_waited-Adds c r = ground (arith, commission_end-Adds c (wait_details c r))

commission-cases :
    (c : Commissioning) (r : Runtime) (a : Result Failure (Unit {0}))
    → c.acquired ≡ a
    → Adds c.node r (commission c r).1
unfolding commission
commission-cases c r (err f) q = rw (commission, q) (inl refl)
commission-cases c r (ok u) q =
    let t = record r { pairing = reset c.reporting r.pairing } in
    let p = record t { pairing = run c.allow_test_attestation t.pairing c.callbacks } in
    rw (commission, q) (ground (arith, commission_waited-Adds c p))

pub commission-Adds : (c : Commissioning) (r : Runtime) → Adds c.node r (commission c r).1
commission-Adds c r = commission-cases c r c.acquired refl

pub recover_node-Adds :
    (o : Bool) (a b : Result Failure (Unit {0})) (s : Storing) (n : ℕ) (r : Runtime)
    → Adds n r (recover_node o a b s n r).1
unfolding recover_node
recover_node-Adds false a b s n r = inl refl
recover_node-Adds true (err f) b s n r = inl refl
recover_node-Adds true (ok u) (err f) s n r = inl refl
recover_node-Adds true (ok u) (ok v) s n r = ground (arith, add_node-Adds s n r)

remove_node-removes :
    (a : Result Failure (Unit {0})) (e : ChipError) (s : Storing) (n : ℕ) (r : Runtime)
    → ((remove_node a e s n r).1.nodes ≡ r.nodes)
      ⊎ ((remove_node a e s n r).1.nodes ≡ removed n r.nodes)
unfolding remove_node
remove_node-removes (err f) e s n r = inl refl
remove_node-removes (ok u) e s n r =
    ground (arith, persist-nodes s (record r { nodes = removed n r.nodes }))

Adds-Distinct : (n : ℕ) (r t : Runtime) → Adds n r t → Distinct r.nodes → Distinct t.nodes
Adds-Distinct n r t (inl q) d = subst Distinct (sym q) d
Adds-Distinct n r t (inr (h, q)) d = subst Distinct (sym q) (Distinct-append n r.nodes d h)

step-Distinct : (r : Runtime) (e : Event) → Distinct r.nodes → Distinct (step r e).nodes
unfolding step
step-Distinct r (commissions c) d =
    Adds-Distinct c.node r (commission c r).1 (commission-Adds c r) d
step-Distinct r (recovers o a b s n) d =
    Adds-Distinct n r (recover_node o a b s n r).1 (recover_node-Adds o a b s n r) d
step-Distinct r (removes a e s n) d = elim (remove_node-removes a e s n r) [
  | inl q ↦ subst Distinct (sym q) d
  | inr q ↦ subst Distinct (sym q) (Distinct-removed n r.nodes d)
]

-- No node is ever twice among the commissioned nodes: any calls of Commission, RecoverNode and
-- RemoveNode, with any errors of the device, the admission and the storage, keep the list free of
-- duplicates.
pub nodes_stay-Distinct :
    (es : List Event) (r : Runtime) → Distinct r.nodes → Distinct (run_events r es).nodes
unfolding run_events
nodes_stay-Distinct [] r d = d
nodes_stay-Distinct (e ∷ es) r d = nodes_stay-Distinct es (step r e) (step-Distinct r e d)
