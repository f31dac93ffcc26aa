-- ===== src/Camera/Release/Failure.antt =====
-- What a call of Release throws (winrt/CameraVideoStreamAllocation.h).
use matter_winrt.Base.{
  ℕ, ◌≡◌, refl, false, Option, none, some, List, [], ◌∷◌, ◌++◌, get_elem?, set, arith, All,
  All-append, All-set, All-get_elem?, Option-cases, inl, inr,
}
use matter_winrt.Camera.Release.{
  Thread, entering, waiting, notified, calling, finishing, returned, Pending, Event, cancels,
  records, calls_release, enters, wakes, comes_back, notifies, wakes_spuriously, initial, step, run,
  come_back, at_calling, all_notified, notify, finish_at, finish,
}
use matter_winrt.Camera.Release.Invariant.{Inv, initial-Inv, step-Inv, caller_started}

module _ {ℓ κ} {A : Type ℓ} {F : Type κ} where
  -- A thread that threw, threw the failure that the owner keeps.
  abbrev Told : Option F → Thread A F → Type κ
  Told failure (returned (some f)) = failure ≡ some f
  Told failure (finishing (some f)) = failure ≡ some f
  Told failure _ = Unit

  Tells : Option F → List (Thread A F) → Type κ
  Tells failure = All (Told failure)

  record Agree (p : Pending A F) : Type κ where
    told : Tells p.failure p.threads
    unfinished : p.release_finished ≡ false → p.failure ≡ none

  -- Before there is a failure no thread has thrown one.
  retell : (f g : Option F) (ts : List (Thread A F)) → f ≡ none → Tells f ts → Tells g ts
  unfolding Tells
  retell f g [] e h = tt
  retell f g (entering ∷ ts) e h = (tt, retell f g ts e h.1)
  retell f g (waiting ∷ ts) e h = (tt, retell f g ts e h.1)
  retell f g (notified ∷ ts) e h = (tt, retell f g ts e h.1)
  retell f g (calling s ∷ ts) e h = (tt, retell f g ts e h.1)
  retell f g (finishing none ∷ ts) e h = (tt, retell f g ts e h.1)
  retell f g (finishing (some x) ∷ ts) e h = cc (h.0)
  retell f g (returned none ∷ ts) e h = (tt, retell f g ts e h.1)
  retell f g (returned (some x) ∷ ts) e h = cc (h.0)

  join_told : (g : Option F) (ts : List (Thread A F)) → Tells g ts → Tells g (ts ++ entering ∷ [])
  unfolding Tells
  join_told g ts h = All-append (Told g) ts (entering ∷ []) h (tt, tt)

  set-Told :
      (g : Option F) (ts : List (Thread A F)) (i : ℕ) (t : Thread A F)
      → Told g t
      → Tells g ts
      → Tells g (set ts i t)
  unfolding Tells
  set-Told g ts i t p h = All-set (Told g) ts i t h p

  set_returned :
      (g : Option F) (ts : List (Thread A F)) (i : ℕ) → Tells g ts → Tells g (set ts i (returned g))
  set_returned none ts i = set-Told none ts i (returned none) tt
  set_returned (some f) ts i = set-Told (some f) ts i (returned (some f)) refl

  set_finishing :
      (g : Option F) (ts : List (Thread A F)) (i : ℕ)
      → Tells g ts
      → Tells g (set ts i (finishing g))
  set_finishing none ts i = set-Told none ts i (finishing none) tt
  set_finishing (some f) ts i = set-Told (some f) ts i (finishing (some f)) refl

  notified-Told : (g : Option F) (t : Thread A F) → Told g t → Told g (notify t)
  notified-Told g entering h = tt
  notified-Told g waiting h = tt
  notified-Told g notified h = tt
  notified-Told g (calling s) h = tt
  notified-Told g (finishing f) h = h
  notified-Told g (returned f) h = h

  notified-Tells : (g : Option F) (ts : List (Thread A F)) → Tells g ts → Tells g (all_notified ts)
  unfolding Tells all_notified
  notified-Tells g [] h = tt
  notified-Tells g (t ∷ ts) h = (notified-Told g t h.0, notified-Tells g ts h.1)

  -- The thread that notifies throws what it has kept.
  finished-Told :
      (g f : Option F) (ts : List (Thread A F)) (i : ℕ)
      → get_elem? ts i ≡ some (finishing f)
      → Tells g ts
      → Told g (returned f)
  unfolding Tells
  finished-Told g none ts i e h = tt
  finished-Told g (some f) ts i e h = All-get_elem? (Told g) ts i (finishing (some f)) h e

  finish_at-Agree :
      (p : Pending A F) (i : ℕ) (o : Option (Thread A F))
      → get_elem? p.threads i ≡ o
      → Agree p
      → Agree (finish_at o i p)
  unfolding finish_at finish
  finish_at-Agree p i (some (finishing f)) h o = record {
    told = notified-Tells p.failure (set p.threads i (returned f)) (
        set-Told p.failure p.threads i (returned f) (finished-Told p.failure f p.threads i h o.told)
          o.told);
    unfinished = o.unfinished;
  }
  finish_at-Agree p i (some entering) h o = o
  finish_at-Agree p i (some waiting) h o = o
  finish_at-Agree p i (some notified) h o = o
  finish_at-Agree p i (some (calling t)) h o = o
  finish_at-Agree p i (some (returned g)) h o = o
  finish_at-Agree p i none h o = o

  back :
      (p : Pending A F) (i : ℕ) (f : Option F) (o : Option (Thread A F))
      → get_elem? p.threads i ≡ o
      → Inv p
      → Agree p
      → Agree (at_calling o p (come_back i f p))
  unfolding at_calling come_back
  back p i f (some (calling t)) h v o =
      ground
        (arith, caller_started p i t v h, set_finishing f p.threads i, retell p.failure f p.threads)
  back p i f (some entering) h v o = o
  back p i f (some waiting) h v o = o
  back p i f (some notified) h v o = o
  back p i f (some (finishing g)) h v o = o
  back p i f (some (returned g)) h v o = o
  back p i f none h v o = o

  step-Agree : (p : Pending A F) (e : Event A F) → Inv p → Agree p → Agree (step p e)
  unfolding step
  step-Agree p cancels v o = ground (arith, join_told p.failure p.threads)
  step-Agree p (records t) v o = ground (arith, join_told p.failure p.threads)
  step-Agree p calls_release v o = ground (arith, join_told p.failure p.threads)
  step-Agree p (enters i) v o = elim (Option-cases p.stream) [
    | inl e ↦ ground (
      arith,
      set_returned p.failure p.threads i,
      set-Told p.failure p.threads i waiting tt,
      set-Told p.failure p.threads i (returned none) tt,
    )
    | inr (s, e) ↦ ground (
      arith,
      set_returned p.failure p.threads i,
      set-Told p.failure p.threads i waiting tt,
      set-Told p.failure p.threads i (calling s) tt,
    )
  ]
  step-Agree p (wakes i) v o =
      ground (arith, set_returned p.failure p.threads i, set-Told p.failure p.threads i waiting tt)
  step-Agree p (wakes_spuriously i) v o =
      ground (arith, set_returned p.failure p.threads i, set-Told p.failure p.threads i waiting tt)
  step-Agree p (notifies i) v o = finish_at-Agree p i (get_elem? p.threads i) refl o
  step-Agree p (comes_back i f) v o = back p i f (get_elem? p.threads i) refl v o

  run-Agree : (p : Pending A F) (es : List (Event A F)) → Inv p → Agree p → Agree (run p es)
  unfolding run
  run-Agree p [] v o = o
  run-Agree p (e ∷ es) v o = run-Agree (step p e) es (step-Inv p e v) (step-Agree p e v o)

  initial-Agree : Agree initial
  unfolding initial Tells
  initial-Agree = record { told = tt; unfinished = λ e. refl }

  -- Every caller of Release that gets an exception gets the one that is kept as mFailure, whether it
  -- made the call of mRelease, waited for it or came later: no two callers get different ones.
  pub thrown-failure :
      (es : List (Event A F)) (i : ℕ) (f : F)
      → get_elem? (run initial es).threads i ≡ some (returned (some f))
      → (run initial es).failure ≡ some f
  unfolding Tells
  thrown-failure es i f h =
      All-get_elem? (Told (run initial es).failure) (run initial es).threads i (returned (some f))
        (run-Agree initial es initial-Inv initial-Agree).told h
