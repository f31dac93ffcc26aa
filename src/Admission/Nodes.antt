-- ===== src/Admission/Nodes.antt =====
-- AcquireNodeWithLifetime (winrt/Projection.cpp): one mutex for a node while anybody holds or waits
-- for it. The map of weak pointers is a function from a node to the identity of a mutex; a mutex is
-- alive while a lease that is not gone refers to it.
pub mod Exclusion
use matter_winrt.Base.{
  ℕ, suc, ◌+◌, ◌≤◌, ◌<◌, ◌≡◌, ◌≢◌, refl, Bool, true, false, ◌&&◌, Option, none, some, List, [], ◌∷◌,
  ◌++◌, ◌==◌, ltb, if◌then◌else◌, get_elem?, set, total, total-set, total-append, total-cons,
  total-nil, All, All-set, All-append, All-get_elem?, arith, Option-cases, Bool-cases, ◌⊎◌, inl,
  inr,
}

pub data Phase : Type 0 where
  -- It waits for the mutex, it has it, it has let go of it.
  waiting locked gone : Phase

pub record Lease : Type 0 where
  pub node : ℕ
  pub mutex : ℕ
  pub phase : Phase

pub record Index : Type 0 where
  pub mutexes : ℕ → Option ℕ
  pub next_mutex : ℕ
  pub leases : List Lease

pub data Event : Type 0 where
  -- The block under mIndexMutex, for a node; the lock of lease i; its destruction.
  enters : ℕ → Event
  locks : ℕ → Event
  leaves : ℕ → Event

unfoldable pub initial : Index
initial = record { mutexes = λ n. none; next_mutex = 0; leases = [] }

abbrev pub refers : ℕ → Lease → ℕ
refers m l = elim l.phase [ gone ↦ 0 | _ ↦ if l.mutex == m then 1 else 0 ]

abbrev pub holds : ℕ → Lease → ℕ
holds m l = elim l.phase [ locked ↦ if l.mutex == m then 1 else 0 | _ ↦ 0 ]

-- `!weak.expired()`.
unfoldable pub alive : List Lease → ℕ → Bool
alive ls m = ltb 0 (total (refers m) ls)

-- The loop that erases the expired entries.
unfoldable pub purge : List Lease → (ℕ → Option ℕ) → ℕ → Option ℕ
purge ls f n = elim (f n) [ none ↦ none | some m ↦ if alive ls m then some m else none ]

abbrev pub update : (ℕ → Option ℕ) → ℕ → ℕ → ℕ → Option ℕ
update f n m k = if n == k then some m else f k

unfoldable pub enter : ℕ → Index → Index
unfolding purge
enter n s =
    let kept = purge s.leases s.mutexes in
    elim (kept n) [
      | some m ↦ record s {
        mutexes = kept;
        leases = s.leases ++ record { node = n; mutex = m; phase = waiting } ∷ [];
      }
      | none ↦ record {
        mutexes = update kept n s.next_mutex;
        next_mutex = s.next_mutex + 1;
        leases = s.leases ++ record { node = n; mutex = s.next_mutex; phase = waiting } ∷ [];
      }
    ]

-- A mutex is taken only where nobody has it.
unfoldable pub lock : ℕ → Index → Index
lock i s = elim (get_elem? s.leases i) [
  | none ↦ s
  | some l ↦ elim l.phase [
    | waiting ↦
        if ltb 0 (total (holds l.mutex) s.leases)
        then s
        else record s { leases = set s.leases i (record l { phase = locked }) }
    | _ ↦ s
  ]
]

-- The lease releases the node lock, and then its share of the mutex.
unfoldable pub leave : ℕ → Index → Index
leave i s = elim (get_elem? s.leases i) [
  | none ↦ s
  | some l ↦ record s { leases = set s.leases i (record l { phase = gone }) }
]

unfoldable pub step : Index → Event → Index
unfolding enter lock leave
step s (enters n) = enter n s
step s (locks i) = lock i s
step s (leaves i) = leave i s

unfoldable pub run : Index → List Event → Index
run s [] = s
run s (e ∷ es) = run (step s e) es
