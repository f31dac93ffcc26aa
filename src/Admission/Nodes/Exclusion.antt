-- ===== src/Admission/Nodes/Exclusion.antt =====
-- That one lease at most has the lock of a node (winrt/Projection.cpp, AcquireNodeWithLifetime), though
-- the mutexes of idle nodes are forgotten and made anew.
use mathlib.Core.Option.{some-injective}
use matter_winrt.Base.{
  ℕ, ◌≤◌, ◌≡◌, ◌≢◌, refl, ap, Option, none, some, List, [], ◌∷◌, ◌++◌, get_elem?, set, total,
  total-set, total-append, total-cons, total-nil, total_two, sym, ◌∙◌, All, All-set, All-append,
  All-get_elem?, arith, Option-cases, inl, inr,
}
use matter_winrt.Admission.Nodes.{
  waiting, locked, gone, Lease, Index, Event, enters, locks, leaves, initial, refers, holds, alive,
  purge, update, enter, lock, leave, step, run,
}

-- The index leads from a node to the mutex of a lease that is not gone.
abbrev Registered : (ℕ → Option ℕ) → Lease → Type 0
Registered f l = l.phase ≢ gone → f l.node ≡ some l.mutex

AllRegistered : (ℕ → Option ℕ) → List Lease → Type 0
AllRegistered f = All (Registered f)

purge_keeps :
    (all some_leases : List Lease) (f : ℕ → Option ℕ)
    → ((m : ℕ) → total (refers m) some_leases ≤ total (refers m) all)
    → AllRegistered f some_leases
    → AllRegistered (purge all f) some_leases
unfolding AllRegistered purge alive
purge_keeps all [] f h r = tt
purge_keeps all (l ∷ ls) f h r = (
  λ p. ground (arith, r.0 p, h l.mutex, total-cons (refers l.mutex) l ls),
  purge_keeps all ls f (λ m. omega (arith, h m, total-cons (refers m) l ls)) r.1,
)

update_keeps :
    (f : ℕ → Option ℕ) (n m : ℕ) (ls : List Lease)
    → f n ≡ none
    → AllRegistered f ls
    → AllRegistered (update f n m) ls
unfolding AllRegistered
update_keeps f n m [] h r = tt
update_keeps f n m (l ∷ ls) h r = (λ p. ground (arith, r.0 p), update_keeps f n m ls h r.1)

join_registered :
    (f : ℕ → Option ℕ) (ls : List Lease) (l : Lease)
    → f l.node ≡ some l.mutex
    → AllRegistered f ls
    → AllRegistered f (ls ++ l ∷ [])
unfolding AllRegistered
join_registered f ls l e r = All-append (Registered f) ls (l ∷ []) r (λ p. e, tt)

set-Registered :
    (f : ℕ → Option ℕ) (ls : List Lease) (i : ℕ) (l : Lease)
    → Registered f l
    → AllRegistered f ls
    → AllRegistered f (set ls i l)
unfolding AllRegistered
set-Registered f ls i l e r = All-set (Registered f) ls i l r e

record Inv (s : Index) : Type 0 where
  registered : AllRegistered s.mutexes s.leases
  single : (m : ℕ) → total (holds m) s.leases ≤ 1

join_holds :
    (ls : List Lease) (n k m : ℕ)
    → total (holds m) (ls ++ record { node = n; mutex = k; phase = waiting } ∷ [])
      ≡ total (holds m) ls
join_holds ls n k m =
    let l : Lease = record { node = n; mutex = k; phase = waiting } in
    omega
      (arith, total-append (holds m) ls (l ∷ []), total-cons (holds m) l [], total-nil (holds m))

enter-Inv : (n : ℕ) (s : Index) → Inv s → Inv (enter n s)
unfolding enter
enter-Inv n s v =
    let kept = purge s.leases s.mutexes in
    let r = purge_keeps s.leases s.leases s.mutexes (λ m. omega arith) v.registered in
    elim (Option-cases (kept n)) [
      | inl e ↦
          let l : Lease = record { node = n; mutex = s.next_mutex; phase = waiting } in
          rw (e, enter)
            record {
              registered =
                  join_registered (update kept n s.next_mutex) s.leases l (ground arith)
                    (update_keeps kept n s.next_mutex s.leases e r);
              single = λ m. omega (arith, v.single m, join_holds s.leases n s.next_mutex m);
            }
      | inr (k, e) ↦
          let l : Lease = record { node = n; mutex = k; phase = waiting } in
          rw (e, enter)
            record {
              registered = join_registered kept s.leases l e r;
              single = λ m. omega (arith, v.single m, join_holds s.leases n k m);
            }
    ]

-- A lease that takes its mutex, or lets go of it.
taken-Inv :
    (i : ℕ) (s : Index) (l : Lease)
    → get_elem? s.leases i ≡ some l
    → l.phase ≡ waiting
    → total (holds l.mutex) s.leases ≡ 0
    → Inv s
    → Inv (record s { leases = set s.leases i (record l { phase = locked }) })
taken-Inv i s l h w free v =
    let t : Lease = record l { phase = locked } in
    record {
      registered =
          set-Registered s.mutexes s.leases i t
            (λ p.
              All-get_elem? (Registered s.mutexes) s.leases i l
                (unfold AllRegistered in v.registered) h (λ g. cc))
            v.registered;
      single = λ m. ground (arith, total-set (holds m) s.leases i l t h, v.single m);
    }

gone-Inv :
    (i : ℕ) (s : Index) (l : Lease)
    → get_elem? s.leases i ≡ some l
    → Inv s
    → Inv (record s { leases = set s.leases i (record l { phase = gone }) })
gone-Inv i s l h v =
    let t : Lease = record l { phase = gone } in
    record {
      registered = set-Registered s.mutexes s.leases i t (λ p. absurd (p refl)) v.registered;
      single = λ m. omega (arith, total-set (holds m) s.leases i l t h, v.single m);
    }

lock-Inv : (i : ℕ) (s : Index) → Inv s → Inv (lock i s)
unfolding lock
lock-Inv i s v = elim (Option-cases (get_elem? s.leases i)) [
  | inl e ↦ rw (e, lock) v
  | inr (l, e) ↦ ground (arith, e, taken-Inv i s l e)
]

leave-Inv : (i : ℕ) (s : Index) → Inv s → Inv (leave i s)
unfolding leave
leave-Inv i s v = elim (Option-cases (get_elem? s.leases i)) [
  | inl e ↦ rw (e, leave) v
  | inr (l, e) ↦ rw (e, leave) (gone-Inv i s l e v)
]

run-Inv : (s : Index) (es : List Event) → Inv s → Inv (run s es)
unfolding run step
run-Inv s [] v = v
run-Inv s (enters n ∷ es) v = run-Inv (enter n s) es (enter-Inv n s v)
run-Inv s (locks i ∷ es) v = run-Inv (lock i s) es (lock-Inv i s v)
run-Inv s (leaves i ∷ es) v = run-Inv (leave i s) es (leave-Inv i s v)

initial-Inv : Inv initial
unfolding initial AllRegistered
initial-Inv = record { registered = tt; single = λ m. omega (arith, total-nil (holds m)) }

exclusive :
    (s : Index) (i j : ℕ) (l k : Lease)
    → Inv s
    → get_elem? s.leases i ≡ some l
    → get_elem? s.leases j ≡ some k
    → i ≢ j
    → l.phase ≡ locked
    → k.phase ≡ locked
    → l.node ≢ k.node
unfolding AllRegistered
exclusive s i j l k v h g n p q e =
    let a = All-get_elem? (Registered s.mutexes) s.leases i l v.registered h (λ z. cc) in
    let b = All-get_elem? (Registered s.mutexes) s.leases j k v.registered g (λ z. cc) in
    let same : l.mutex ≡ k.mutex = some-injective l.mutex k.mutex (sym a ∙ ap s.mutexes e ∙ b) in
    ground (arith, total_two (holds l.mutex) s.leases i j l k h g n, v.single l.mutex)

-- Two leases that both have their locks are for different nodes: at no time do two operations run on
-- one node, whatever the order in which leases come, wait, get the lock and go.
pub node_exclusive :
    (es : List Event) (i j : ℕ) (l k : Lease)
    → get_elem? (run initial es).leases i ≡ some l
    → get_elem? (run initial es).leases j ≡ some k
    → i ≢ j
    → l.phase ≡ locked
    → k.phase ≡ locked
    → l.node ≢ k.node
node_exclusive es i j l k = exclusive (run initial es) i j l k (run-Inv initial es initial-Inv)
