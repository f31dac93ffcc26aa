-- ===== src/Camera/Release/Invariant.antt =====
-- What holds of a PendingCameraRelease (winrt/CameraVideoStreamAllocation.h) between two atomic
-- blocks, whatever the threads do.
use matter_winrt.Base.{
  ℕ, ◌+◌, ◌<◌, ◌≡◌, refl, Bool, true, false, Option, none, some, List, [], ◌∷◌, ◌++◌, if◌then◌else◌,
  is_some, get_elem?, set, arith, length, length-append, total, total-cons, total-nil, total-append,
  total-set, ◌⊎◌, inl, inr, Option-cases,
}
use matter_winrt.Camera.Release.{
  Thread, entering, waiting, notified, calling, finishing, returned, Pending, Event, cancels,
  records, calls_release, enters, wakes, comes_back, notifies, wakes_spuriously, initial, step, run,
  enter, wake, come_back, at_calling, notify, all_notified, finish, finish_at,
}

-- Before the release starts nobody calls or waits; while it runs one thread calls; once it has
-- finished, none does.
abbrev pub callers : Bool → Bool → ℕ
callers true false = 1
callers _ _ = 0

module _ {ℓ κ} {A : Type ℓ} {F : Type κ} where
  -- How a thread counts: not yet in Release, inside mRelease, waiting for another's call.
  abbrev pub is_entering : Thread A F → ℕ
  is_entering entering = 1
  is_entering _ = 0

  abbrev pub is_calling : Thread A F → ℕ
  is_calling (calling s) = 1
  is_calling _ = 0

  abbrev pub is_waiting : Thread A F → ℕ
  is_waiting waiting = 1
  is_waiting _ = 0

  abbrev pub is_notified : Thread A F → ℕ
  is_notified notified = 1
  is_notified _ = 0

  abbrev pub is_finishing : Thread A F → ℕ
  is_finishing (finishing f) = 1
  is_finishing _ = 0

  pub record Inv (p : Pending A F) : Type 0 where
    pub one_caller : total is_calling p.threads ≡ callers p.release_started p.release_finished
    pub started_calls : length p.calls ≡ (if p.release_started then 1 else 0)
    pub finished_started : p.release_finished ≡ true → p.release_started ≡ true
    pub waiting_started : p.release_started ≡ false → total is_waiting p.threads ≡ 0
    pub notified_finished : p.release_finished ≡ false → total is_notified p.threads ≡ 0
    pub finishing_finished : p.release_finished ≡ false → total is_finishing p.threads ≡ 0
    -- Who waits though the release has finished will be notified.
    pub waiting_covered :
        p.release_finished ≡ true
        → (total is_waiting p.threads ≡ 0) ⊎ (0 < total is_finishing p.threads)
    -- A canceled owner of a stream has a release on its way.
    pub covered :
        p.canceled ≡ true
        → (is_some p.stream ≡ false)
          ⊎ ((p.release_started ≡ true) ⊎ (0 < total is_entering p.threads))

  pub initial-Inv : Inv initial
  unfolding initial
  initial-Inv = ground (
    arith,
    total-nil is_calling,
    total-nil is_waiting,
    total-nil is_notified,
    total-nil is_finishing,
  )

  -- How the three counts change when a thread joins.
  join :
      (w : Thread A F → ℕ) (ts : List (Thread A F)) (t : Thread A F)
      → total w (ts ++ t ∷ []) ≡ total w ts + w t
  join w ts t = omega (arith, total-append w ts (t ∷ []), total-cons w t [], total-nil w)

  -- The counts of a thread that joins.
  joined :
      (ts : List (Thread A F))
      → (total is_calling (ts ++ entering ∷ []) ≡ total is_calling ts)
        × (total is_waiting (ts ++ entering ∷ []) ≡ total is_waiting ts)
        × (total is_entering (ts ++ entering ∷ []) ≡ total is_entering ts + 1)
        × (total is_notified (ts ++ entering ∷ []) ≡ total is_notified ts)
        × (total is_finishing (ts ++ entering ∷ []) ≡ total is_finishing ts)
  joined ts = (
    omega (arith, join is_calling ts entering),
    omega (arith, join is_waiting ts entering),
    omega (arith, join is_entering ts entering),
    omega (arith, join is_notified ts entering),
    omega (arith, join is_finishing ts entering),
  )

  -- How they change when thread i goes from `x` to `y`.
  moved :
      (ts : List (Thread A F)) (i : ℕ) (x y : Thread A F)
      → get_elem? ts i ≡ some x
      → (total is_calling (set ts i y) + is_calling x ≡ total is_calling ts + is_calling y)
        × (total is_waiting (set ts i y) + is_waiting x ≡ total is_waiting ts + is_waiting y)
        × (total is_entering (set ts i y) + is_entering x ≡ total is_entering ts + is_entering y)
        × (total is_notified (set ts i y) + is_notified x ≡ total is_notified ts + is_notified y)
        × (total is_finishing (set ts i y) + is_finishing x
            ≡ total is_finishing ts + is_finishing y)
  moved ts i x y h = (
    total-set is_calling ts i x y h,
    total-set is_waiting ts i x y h,
    total-set is_entering ts i x y h,
    total-set is_notified ts i x y h,
    total-set is_finishing ts i x y h,
  )

  enter-Inv :
      (p : Pending A F) (i : ℕ) → Inv p → get_elem? p.threads i ≡ some entering → Inv (enter i p)
  unfolding enter
  enter-Inv p i v h = elim (Option-cases p.stream) [
    | inl e ↦ ground (
      arith,
      moved p.threads i entering (returned p.failure) h,
      moved p.threads i entering (returned none) h,
      moved p.threads i entering waiting h,
    )
    | inr (s, e) ↦ ground (
      arith,
      moved p.threads i entering (returned p.failure) h,
      moved p.threads i entering (calling s) h,
      moved p.threads i entering waiting h,
      length-append p.calls (s ∷ []),
    )
  ]

  wake-Inv :
      (p : Pending A F) (i : ℕ) → Inv p → get_elem? p.threads i ≡ some notified → Inv (wake i p)
  unfolding wake
  wake-Inv p i v h = ground (
    arith,
    total-set is_notified p.threads i notified waiting h,
    moved p.threads i notified (returned p.failure) h,
  )

  wake_spuriously-Inv :
      (p : Pending A F) (i : ℕ) → Inv p → get_elem? p.threads i ≡ some waiting → Inv (wake i p)
  unfolding wake
  wake_spuriously-Inv p i v h =
      ground (
        arith,
        moved p.threads i waiting waiting h,
        moved p.threads i waiting (returned p.failure) h,
      )

  total-all_notified :
      (w : Thread A F → ℕ) (ts : List (Thread A F))
      → ((t : Thread A F) → w (notify t) ≡ w t)
      → total w (all_notified ts) ≡ total w ts
  unfolding all_notified total
  total-all_notified w [] h = refl
  total-all_notified w (t ∷ ts) h = omega (arith, h t, total-all_notified w ts h)

  none_waits : (ts : List (Thread A F)) → total is_waiting (all_notified ts) ≡ 0
  unfolding all_notified total
  none_waits [] = refl
  none_waits (entering ∷ ts) = omega (arith, none_waits ts)
  none_waits (waiting ∷ ts) = omega (arith, none_waits ts)
  none_waits (notified ∷ ts) = omega (arith, none_waits ts)
  none_waits (calling s ∷ ts) = omega (arith, none_waits ts)
  none_waits (finishing f ∷ ts) = omega (arith, none_waits ts)
  none_waits (returned f ∷ ts) = omega (arith, none_waits ts)

  same_entering : (t : Thread A F) → is_entering (notify t) ≡ is_entering t
  same_entering entering = refl
  same_entering waiting = refl
  same_entering notified = refl
  same_entering (calling s) = refl
  same_entering (finishing f) = refl
  same_entering (returned f) = refl

  same_calling : (t : Thread A F) → is_calling (notify t) ≡ is_calling t
  same_calling entering = refl
  same_calling waiting = refl
  same_calling notified = refl
  same_calling (calling s) = refl
  same_calling (finishing f) = refl
  same_calling (returned f) = refl

  -- The notification leaves nobody in the wait.
  finish-Inv :
      (p : Pending A F) (i : ℕ) (f : Option F)
      → Inv p
      → get_elem? p.threads i ≡ some (finishing f)
      → Inv (finish i f p)
  unfolding finish
  finish-Inv p i f v h =
      let ts = set p.threads i (returned f) in
      ground (
        arith,
        moved p.threads i (finishing f) (returned f) h,
        total-all_notified is_entering ts same_entering,
        total-all_notified is_calling ts same_calling,
        none_waits ts,
      )

  finish_at-Inv :
      (p : Pending A F) (i : ℕ) (o : Option (Thread A F))
      → Inv p
      → get_elem? p.threads i ≡ o
      → Inv (finish_at o i p)
  unfolding finish_at
  finish_at-Inv p i (some (finishing f)) v h = finish-Inv p i f v h
  finish_at-Inv p i (some entering) v h = v
  finish_at-Inv p i (some waiting) v h = v
  finish_at-Inv p i (some notified) v h = v
  finish_at-Inv p i (some (calling s)) v h = v
  finish_at-Inv p i (some (returned g)) v h = v
  finish_at-Inv p i none v h = v

  come_back-Inv :
      (p : Pending A F) (i : ℕ) (f : Option F) (s : A)
      → Inv p
      → get_elem? p.threads i ≡ some (calling s)
      → Inv (come_back i f p)
  unfolding come_back
  come_back-Inv p i f s v h = ground (arith, moved p.threads i (calling s) (finishing f) h)

  at_calling-Inv :
      (p : Pending A F) (i : ℕ) (f : Option F) (o : Option (Thread A F))
      → Inv p
      → get_elem? p.threads i ≡ o
      → Inv (at_calling o p (come_back i f p))
  unfolding at_calling
  at_calling-Inv p i f (some (calling s)) v h = come_back-Inv p i f s v h
  at_calling-Inv p i f (some entering) v h = v
  at_calling-Inv p i f (some waiting) v h = v
  at_calling-Inv p i f (some notified) v h = v
  at_calling-Inv p i f (some (finishing g)) v h = v
  at_calling-Inv p i f (some (returned g)) v h = v
  at_calling-Inv p i f none v h = v

  -- Every atomic block of every thread keeps the invariant.
  pub step-Inv : (p : Pending A F) (e : Event A F) → Inv p → Inv (step p e)
  unfolding step
  step-Inv p cancels v = ground (arith, joined p.threads)
  step-Inv p (records s) v = ground (arith, joined p.threads)
  step-Inv p calls_release v = ground (arith, joined p.threads)
  step-Inv p (enters i) v = ground (arith, enter-Inv p i v)
  step-Inv p (wakes i) v = ground (arith, wake-Inv p i v)
  step-Inv p (comes_back i f) v = at_calling-Inv p i f (get_elem? p.threads i) v refl
  step-Inv p (notifies i) v = finish_at-Inv p i (get_elem? p.threads i) v refl
  step-Inv p (wakes_spuriously i) v = ground (arith, wake_spuriously-Inv p i v)

  -- So it holds after every interleaving.
  pub run-Inv : (p : Pending A F) (es : List (Event A F)) → Inv p → Inv (run p es)
  unfolding run
  run-Inv p [] v = v
  run-Inv p (e ∷ es) v = run-Inv (step p e) es (step-Inv p e v)

  -- A thread runs mRelease only while the release has started and not finished.
  pub caller_started :
      (p : Pending A F) (i : ℕ) (s : A)
      → Inv p
      → get_elem? p.threads i ≡ some (calling s)
      → (p.release_started ≡ true) × (p.release_finished ≡ false)
  caller_started p i s v h =
      ground (arith, total-set is_calling p.threads i (calling s) (returned none) h)
