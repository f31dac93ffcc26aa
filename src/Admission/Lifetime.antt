-- ===== src/Admission/Lifetime.antt =====
-- The lifetime mutex of RuntimeOperationAdmission (winrt/Projection.cpp): operations share it,
-- commissioning and its kind take it alone, and BeginShutdown takes it alone for good. A thread goes
-- round WaitForLifetime: it tries the lock, and on its next round looks at the closing flag again.
-- AcquireCleanup, which waits for its shared lock without a deadline, is not modelled.
pub mod Closing
pub mod Shutdown
use matter_winrt.Base.{
  ℕ, ◌+◌, ◌==◌, Bool, true, false, ◌&&◌, not, Option, none, some, List, [], ◌∷◌, ◌++◌,
  if◌then◌else◌, get_elem?, set, total,
}

pub data Thread : Type 0 where
  -- It does not own the lock; it owns it and has not looked again; it has its lease; it is done.
  trying : Bool → Thread
  owning : Bool → Thread
  leased : Bool → Thread
  gone : Thread

pub record Lifetime : Type 0 where
  -- mClosing.
  pub closing : Bool
  -- BeginShutdown has its lock.
  pub shut : Bool
  -- The flag of a thread says that it wants the lock alone.
  pub threads : List Thread

pub data Event : Type 0 where
  -- AcquireLifetime (`false`) or AcquireExclusive (`true`) is called, on a first look at the flag.
  arrives : Bool → Event
  -- try_lock_until of thread i; its next look at the flag; its cancellation or timeout; the end of
  -- its lease.
  tries : ℕ → Event
  looks : ℕ → Event
  gives_up : ℕ → Event
  ends : ℕ → Event
  -- The two statements of BeginShutdown.
  starts_closing : Event
  shuts_down : Event

abbrev pub owns : Thread → ℕ
owns (owning alone) = 1
owns (leased alone) = 1
owns _ = 0

abbrev pub owns_alone : Thread → ℕ
owns_alone (owning true) = 1
owns_alone (leased true) = 1
owns_alone _ = 0

-- Whether std::shared_timed_mutex gives the lock, shared or alone.
unfoldable pub available : Bool → Lifetime → Bool
available alone t = not t.shut && (total (if alone then owns else owns_alone) t.threads == 0)

unfoldable pub at : ℕ → Thread → Lifetime → Lifetime
at i x t = record t { threads = set t.threads i x }

unfoldable pub arrive : Bool → Lifetime → Lifetime
arrive alone t = if t.closing then t else record t { threads = t.threads ++ trying alone ∷ [] }

unfoldable pub try_lock : ℕ → Thread → Lifetime → Lifetime
unfolding available at
try_lock i (trying alone) t = if available alone t then at i (owning alone) t else t
try_lock i _ t = t

unfoldable pub look : ℕ → Thread → Lifetime → Lifetime
unfolding at
look i (trying alone) t = if t.closing then at i gone t else t
look i (owning alone) t = at i (if t.closing then gone else leased alone) t
look i _ t = t

pub give_up : ℕ → Thread → Lifetime → Lifetime
unfolding at
give_up i (trying alone) t = at i gone t
give_up i (owning alone) t = at i gone t
give_up i _ t = t

unfoldable pub end_lease : ℕ → Thread → Lifetime → Lifetime
unfolding at
end_lease i (leased alone) t = at i gone t
end_lease i _ t = t

unfoldable pub start_closing : Lifetime → Lifetime
start_closing t = record t { closing = true }

unfoldable pub shut_down : Lifetime → Lifetime
unfolding available
shut_down t = if t.closing && available true t then record t { shut = true } else t

-- An event of thread i, where there is one.
unfoldable pub on_thread : ℕ → (ℕ → Thread → Lifetime → Lifetime) → Lifetime → Lifetime
on_thread i f t = elim (get_elem? t.threads i) [ none ↦ t | some x ↦ f i x t ]

unfoldable pub step : Lifetime → Event → Lifetime
unfolding arrive try_lock look give_up end_lease start_closing shut_down on_thread
step t (arrives alone) = arrive alone t
step t (tries i) = on_thread i try_lock t
step t (looks i) = on_thread i look t
step t (gives_up i) = on_thread i give_up t
step t (ends i) = on_thread i end_lease t
step t starts_closing = start_closing t
step t shuts_down = shut_down t

unfoldable pub run : Lifetime → List Event → Lifetime
run t [] = t
run t (e ∷ es) = run (step t e) es

unfoldable pub initial : Lifetime
initial = record { closing = false; shut = false; threads = [] }
