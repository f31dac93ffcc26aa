-- ===== src/Commissioning/Nodes/Persisting.antt =====
-- The stored copy of the commissioned nodes of winrt/Projection.cpp.
use matter_winrt.Base.{
  ℕ, ◌<◌, ◌≡◌, refl, ◌∙◌, ap, Bool, true, false, List, [], ◌∷◌, ◌++◌, length, length-append, Result,
  ok, err, Bool-cases, inl, inr, arith,
}
use mathlib.Core.Path.{subst}
use matter_winrt.Chip.{ChipError, is_error}
use matter_winrt.Commissioning.NodeIndex.{
  Write, deletes, writes, refuses, persist_commissioned_nodes, maximum_node_count,
}
use matter_winrt.Commissioning.Nodes.{
  Runtime, Failure, chip, Outcome, Storing, persist, contains, removed, add_node, Commissioning,
  wait_details, commission, recover_node, remove_node,
}
use matter_winrt.Commissioning.Nodes.Distinct.{contains-append, add_node-old}
use matter_winrt.Commissioning.Nodes.Succeeding.{paired, commission-Added}

-- The index in the storage is the list in memory.
abbrev pub Stored : Runtime → Type 0
Stored r = r.stored ≡ r.nodes

deletes_empty : (ns : List ℕ) → persist_commissioned_nodes ns ≡ deletes → ns ≡ []
unfolding persist_commissioned_nodes
deletes_empty [] h = refl
deletes_empty (n ∷ ns) h = absurd (ground arith)

writes_all : (ns ms : List ℕ) → persist_commissioned_nodes ns ≡ writes ms → ms ≡ ns
unfolding persist_commissioned_nodes
writes_all [] ms h = absurd (ground arith)
writes_all (n ∷ ns) ms h = ground arith

written-Stored :
    (s : Storing) (r : Runtime) (w : Write)
    → persist_commissioned_nodes r.nodes ≡ w
    → (persist s r).0 ≡ ok tt
    → Stored (persist s r).1
unfolding persist
written-Stored s r deletes q h = ground (arith, deletes_empty r.nodes q)
written-Stored s r (writes ms) q h = ground (arith, writes_all r.nodes ms q)
written-Stored s r refuses q h = ground arith

persist-Stored : (s : Storing) (r : Runtime) → (persist s r).0 ≡ ok tt → Stored (persist s r).1
persist-Stored s r h = written-Stored s r (persist_commissioned_nodes r.nodes) refl h

-- An operation that returns keeps the storage in step.
abbrev Keeps : {A : Type 0} → Runtime → Outcome A → Type 0
Keeps r (ok a, t) = Stored r → Stored t
Keeps r (err f, t) = Unit

added-Keeps :
    (n : ℕ) (r : Runtime) (p : Outcome (Unit {0}))
    → (p.0 ≡ ok tt → Stored p.1)
    → Keeps r (elim p.0 as (λ _. Outcome ℕ) [ err f ↦ (err f, p.1) | ok u ↦ (ok n, p.1) ])
added-Keeps n r (err f, t) h = tt
added-Keeps n r (ok u, t) h = λ _. h refl

add_node-Keeps : (s : Storing) (n : ℕ) (r : Runtime) → Keeps r (add_node s n r)
unfolding add_node
add_node-Keeps s n r = elim (Bool-cases (contains n r.nodes)) [
  | inl q ↦ rw (q, Keeps) (λ h. h)
  | inr q ↦
      let t = record r { nodes = r.nodes ++ n ∷ [] } in
      rw q (added-Keeps n r (persist s t) (persist-Stored s t))
]

persist-Keeps :
    (s : Storing) (r : Runtime) (p : Outcome (Unit {0})) → (p.0 ≡ ok tt → Stored p.1) → Keeps r p
persist-Keeps s r (err f, t) h = tt
persist-Keeps s r (ok u, t) h = λ _. h refl

kept :
    {A : Type 0} (r t : Runtime) (a : A) (o : Outcome A)
    → Keeps r o
    → o ≡ (ok a, t)
    → Stored r
    → Stored t
kept r t a (ok b, d) k h s = subst Stored (ap (λ (o : Outcome _). o.1) h) (k s)
kept r t a (err f, d) k h s = absurd (ground arith)

wait_details-Stored : (c : Commissioning) (r : Runtime) → Stored r → Stored (wait_details c r)
unfolding wait_details
wait_details-Stored c r h = ground arith

recover_node-add :
    (o : Bool) (a b : Result Failure (Unit {0})) (s : Storing) (n m : ℕ) (r t : Runtime)
    → recover_node o a b s n r ≡ (ok m, t)
    → add_node s n r ≡ (ok m, t)
unfolding recover_node
recover_node-add false a b s n m r t h = absurd (ground arith)
recover_node-add true (err f) b s n m r t h = absurd (ground arith)
recover_node-add true (ok u) (err f) s n m r t h = absurd (ground arith)
recover_node-add true (ok u) (ok v) s n m r t h = ground arith

remove_node-persist :
    (a : Result Failure (Unit {0})) (e : ChipError) (s : Storing) (n : ℕ) (r t : Runtime)
    → remove_node a e s n r ≡ (ok tt, t)
    → persist s (record r { nodes = removed n r.nodes }) ≡ (ok tt, t)
unfolding remove_node
remove_node-persist (err f) e s n r t h = absurd (ground arith)
remove_node-persist (ok u) e s n r t h = ground arith

-- A call that returned, from one runtime to the next.
pub data Returned (r t : Runtime) : Type 0 where
  commissioned : (c : Commissioning) (n : ℕ) → commission c r ≡ (ok n, t) → Returned r t
  recovered :
      (o : Bool) (a b : Result Failure (Unit {0})) (s : Storing) (n m : ℕ)
      → recover_node o a b s n r ≡ (ok m, t)
      → Returned r t
  removed_node :
      (a : Result Failure (Unit {0})) (e : ChipError) (s : Storing) (n : ℕ)
      → remove_node a e s n r ≡ (ok tt, t)
      → Returned r t

-- Commission, RecoverNode and RemoveNode that return keep the stored index equal to the commissioned
-- nodes, if it was equal before.
pub Returned-keeps_Stored : (r t : Runtime) → Returned r t → Stored r → Stored t
Returned-keeps_Stored r t (commissioned c n h) k =
    let a = commission-Added c r n t h in
    let w = wait_details c (paired c r) in
    kept w t n (add_node c.storing c.node w) (add_node-Keeps c.storing c.node w) a.adds
      (wait_details-Stored c (paired c r) k)
Returned-keeps_Stored r t (recovered o a b s n m h) k =
    kept r t m (add_node s n r) (add_node-Keeps s n r) (recover_node-add o a b s n m r t h) k
Returned-keeps_Stored r t (removed_node a e s n h) k =
    let p = record r { nodes = removed n r.nodes } in
    let q = remove_node-persist a e s n r t h in
    subst Stored (ap (λ (o : Outcome (Unit {0})). o.1) q)
      (persist-Stored s p (ap (λ (o : Outcome (Unit {0})). o.0) q))

-- The index of a list that is not empty and fits is written.
persist-appended :
    (ns : List ℕ) (n : ℕ)
    → length ns < maximum_node_count
    → persist_commissioned_nodes (ns ++ n ∷ []) ≡ writes (ns ++ n ∷ [])
unfolding persist_commissioned_nodes
persist-appended [] n l = ground arith
persist-appended (m ∷ ms) n l = ground (arith, length-append ms (n ∷ []))

persist-failed :
    (s : Storing) (r : Runtime) (ns : List ℕ)
    → persist_commissioned_nodes r.nodes ≡ writes ns
    → is_error s.error ≡ true
    → persist s r ≡ (err (chip s.error), record r { stored = s.left })
unfolding persist
persist-failed s r ns q h = rw (persist, q, h) refl

add_node-failed :
    (s : Storing) (n : ℕ) (r t : Runtime) (f : Failure)
    → contains n r.nodes ≡ false
    → persist s (record r { nodes = r.nodes ++ n ∷ [] }) ≡ (err f, t)
    → add_node s n r ≡ (err f, t)
unfolding add_node
add_node-failed s n r t f q e = ground arith

recover_node-open :
    (s : Storing) (n : ℕ) (r : Runtime)
    → r.closed ≡ false
    → recover_node true (ok tt) (ok tt) s n r ≡ add_node s n r
unfolding recover_node
recover_node-open s n r o = ground arith

-- On an open controller with fewer than 8191 nodes, a new node whose index could not be written stays a
-- commissioned node in memory only: RecoverNode throws the error of the storage, and when it is called again for the node it returns without writing the
-- index, whatever the storage would do then.
pub failed_write_is_not_retried :
    (s later : Storing) (n : ℕ) (r : Runtime)
    → r.closed ≡ false
    → contains n r.nodes ≡ false
    → length r.nodes < maximum_node_count
    → is_error s.error ≡ true
    → (t : Runtime) × (recover_node true (ok tt) (ok tt) s n r ≡ (err (chip s.error), t))
      × (t.nodes ≡ r.nodes ++ n ∷ [])
      × (t.stored ≡ s.left)
      × (recover_node true (ok tt) (ok tt) later n t ≡ (ok n, t))
failed_write_is_not_retried s later n r o q l h =
    let p = record r { nodes = r.nodes ++ n ∷ [] } in
    let t = record p { stored = s.left } in
    let e = persist-failed s p (r.nodes ++ n ∷ []) (persist-appended r.nodes n l) h in
    let c : contains n t.nodes ≡ true = ground (arith, contains-append n n r.nodes) in
    (
      t,
      recover_node-open s n r o ∙ add_node-failed s n r t (chip s.error) q e,
      refl,
      refl,
      recover_node-open later n t o ∙ add_node-old later n t c,
    )
