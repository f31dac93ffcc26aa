-- ===== src/Camera/Release.antt =====
-- winrt/CameraVideoStreamAllocation.h: PendingCameraRelease, which owns the cleanup of a camera
-- stream or session until the asynchronous result is delivered. `Identifier` is `A`; an
-- exception_ptr that is not null is `some` of an `F`. mMutex splits each member function into atomic
-- blocks; a thread stands between two blocks, and an event runs one block of one thread.
pub mod Invariant
pub mod Outcome
pub mod Failure
pub mod Cleanup
pub mod Tests
use matter_winrt.Base.{
  ℕ, Bool, true, false, Option, none, some, List, [], ◌∷◌, ◌++◌, if◌then◌else◌, get_elem?, set,
}

-- Where a thread stands that runs Release.
pub data Thread {ℓ κ} (A : Type ℓ) (F : Type κ) : Type (ℓ ⊔ κ) where
  -- It has not taken the mutex yet.
  entering : Thread A F
  -- It waits on mFinished; a notification has reached it there.
  waiting : Thread A F
  notified : Thread A F
  -- It runs mRelease(stream) with the mutex released.
  calling : A → Thread A F
  -- The release has finished, with the mutex released again: it is about to notify.
  finishing : Option F → Thread A F
  -- Release has returned (`none`) or thrown.
  returned : Option F → Thread A F

pub record Pending {ℓ κ} (A : Type ℓ) (F : Type κ) : Type (ℓ ⊔ κ) where
  pub stream : Option A
  pub failure : Option F
  pub canceled : Bool
  pub release_started : Bool
  pub release_finished : Bool
  -- The threads that run Release, and the calls of mRelease so far.
  pub threads : List (Thread A F)
  pub calls : List A

pub data Event {ℓ κ} (A : Type ℓ) (F : Type κ) : Type (ℓ ⊔ κ) where
  -- Cancel and Record run on threads of their own; a thread calls Release.
  cancels : Event A F
  records : A → Event A F
  calls_release : Event A F
  -- Thread i runs the first block of Release, wakes from its wait, comes back from mRelease, or calls
  -- mFinished.notify_all.
  enters : ℕ → Event A F
  wakes : ℕ → Event A F
  comes_back : ℕ → Option F → Event A F
  notifies : ℕ → Event A F
  -- Thread i wakes although nobody has notified it.
  wakes_spuriously : ℕ → Event A F

module _ {ℓ κ} {A : Type ℓ} {F : Type κ} where
  pub initial : Pending A F
  initial = record {
    stream = none;
    failure = none;
    canceled = false;
    release_started = false;
    release_finished = false;
    threads = [];
    calls = [];
  }

  -- ReleaseCanceled, and any caller of Release, starts a thread.
  spawn : Pending A F → Pending A F
  spawn p = record p { threads = p.threads ++ entering ∷ [] }

  at : Pending A F → ℕ → Thread A F → Pending A F
  at p i t = record p { threads = set p.threads i t }

  pub cancel : Pending A F → Pending A F
  unfolding spawn
  cancel p = let q = record p { canceled = true } in elim p.stream [ none ↦ q | some s ↦ spawn q ]

  pub record_stream : A → Pending A F → Pending A F
  unfolding spawn
  record_stream s p = let q = record p { stream = some s } in if p.canceled then spawn q else q

  -- Release up to the call of mRelease, or to its end where it makes none.
  pub enter : ℕ → Pending A F → Pending A F
  unfolding at
  enter i p =
      if p.release_started
      then (if p.release_finished then at p i (returned p.failure) else at p i waiting)
      else elim p.stream [
        | none ↦ at p i (returned none)
        | some s ↦ record p {
          release_started = true;
          threads = set p.threads i (calling s);
          calls = p.calls ++ s ∷ [];
        }
      ]

  -- The wait ends only when its predicate holds, and goes on otherwise.
  pub wake : ℕ → Pending A F → Pending A F
  unfolding at
  wake i p = if p.release_finished then at p i (returned p.failure) else at p i waiting

  -- Release from the end of mRelease, which threw `failure` or nothing, to the second unlock.
  pub come_back : ℕ → Option F → Pending A F → Pending A F
  come_back i failure p = record p {
    failure = failure;
    release_finished = true;
    stream = elim failure [ none ↦ none | some f ↦ p.stream ];
    threads = set p.threads i (finishing failure);
  }

  abbrev pub notify : Thread A F → Thread A F
  notify waiting = notified
  notify t = t

  pub all_notified : List (Thread A F) → List (Thread A F)
  all_notified [] = []
  all_notified (t ∷ ts) = notify t ∷ all_notified ts

  -- mFinished.notify_all, and the end of Release.
  pub finish : ℕ → Option F → Pending A F → Pending A F
  unfolding all_notified
  finish i failure p = record p { threads = all_notified (set p.threads i (returned failure)) }

  -- An event runs only on a thread that stands where it begins.
  at_entering : Option (Thread A F) → Pending A F → Pending A F → Pending A F
  at_entering (some entering) p q = q
  at_entering _ p q = p

  at_waiting : Option (Thread A F) → Pending A F → Pending A F → Pending A F
  at_waiting (some waiting) p q = q
  at_waiting _ p q = p

  at_notified : Option (Thread A F) → Pending A F → Pending A F → Pending A F
  at_notified (some notified) p q = q
  at_notified _ p q = p

  pub finish_at : Option (Thread A F) → ℕ → Pending A F → Pending A F
  unfolding finish
  finish_at (some (finishing failure)) i p = finish i failure p
  finish_at _ i p = p

  at_calling : Option (Thread A F) → Pending A F → Pending A F → Pending A F
  at_calling (some (calling s)) p q = q
  at_calling _ p q = p

  pub step : Pending A F → Event A F → Pending A F
  unfolding cancel record_stream spawn enter wake come_back at_entering at_waiting at_notified
      at_calling finish_at
  step p cancels = cancel p
  step p (records s) = record_stream s p
  step p calls_release = spawn p
  step p (enters i) = at_entering (get_elem? p.threads i) p (enter i p)
  step p (wakes i) = at_notified (get_elem? p.threads i) p (wake i p)
  step p (comes_back i failure) = at_calling (get_elem? p.threads i) p (come_back i failure p)
  step p (notifies i) = finish_at (get_elem? p.threads i) i p
  step p (wakes_spuriously i) = at_waiting (get_elem? p.threads i) p (wake i p)

  pub run : Pending A F → List (Event A F) → Pending A F
  run p [] = p
  run p (e ∷ es) = run (step p e) es
