-- ===== src/Commissioning/Progress/Ending.antt =====
-- The waits for the progress of a commissioning in winrt/Projection.cpp can always end, as long as its
-- drains have started.
use mathlib.Core.Path.{subst}
use matter_winrt.Base.{
  ℕ, zero, suc, ◌<◌, ◌≤◌, ◌≡◌, refl, sym, ap, not, ◌&&◌, Bool, true, false, List, [], ◌∷◌, ◌++◌,
  get_elem?, set, total, total-set, total_pos, dec_lt, some, All, All-append, arith,
}
use matter_winrt.Commissioning.Progress.{
  Drain, looping, calling, returned, Waiter, testing, sleeping, ended, Progress, Event, publishes,
  takes, calls_end, waits, tests, wakes_spuriously, initial, take_next, end_call, take_at, end_at,
  test_at, step, run, is_empty, drained,
}
use matter_winrt.Commissioning.Progress.Lost.{run-lost}
use matter_winrt.Commissioning.Progress.Invariant.{
  scheduled_off, Inv, live, one_if, is_sleeping, init-Inv, step-Inv, run-Inv,
}

-- A waiter that has not returned.
abbrev pub is_inside : Waiter → ℕ
is_inside ended = 0
is_inside _ = 1

module _ {A : Type 0} where
  get-set :
      (xs : List (Drain A)) (i : ℕ) (x y : Drain A)
      → get_elem? xs i ≡ some x
      → get_elem? (set xs i y) i ≡ some y
  get-set [] i x y h = cc
  get-set (z ∷ xs) zero x y h = refl
  get-set (z ∷ xs) (suc i) x y h = get-set xs i x y h

  -- The event is one of a drain.
  abbrev pub OfDrain : Event A → Type 0
  OfDrain (takes i) = Unit
  OfDrain (calls_end i) = Unit
  OfDrain _ = ⊥

  -- The drains alone can bring it about that WaitForProgressDrain finds what it waits for.
  CanDrain : Progress A → Type 0
  CanDrain s = (ds : List (Event A)) × All OfDrain ds × (drained (run s ds) ≡ true)

  CanDrain-step :
      (s t : Progress A) (e : Event A) → OfDrain e → step s e ≡ t → CanDrain t → CanDrain s
  unfolding CanDrain run
  CanDrain-step s t e o q (ds, all, d) =
      (e ∷ ds, (o, all), subst (λ (u : Progress A). drained (run u ds) ≡ true) (sym q) d)

  CanDrain-now : (s : Progress A) → drained s ≡ true → CanDrain s
  unfolding CanDrain run
  CanDrain-now s d = ([], tt, d)

  step-takes :
      (s : Progress A) (i : ℕ) (xs : List A)
      → get_elem? s.drains i ≡ some looping
      → s.pending ≡ xs
      → step s (takes i) ≡ take_next i xs s
  unfolding step take_at
  step-takes s i xs g e = rw g (ap (λ ys. take_next i ys s) e)

  step-calls_end :
      (s : Progress A) (i : ℕ) (a : A)
      → get_elem? s.drains i ≡ some (calling a)
      → step s (calls_end i) ≡ end_call i a s
  unfolding step end_at
  step-calls_end s i a g = rw g refl

  looping-CanDrain :
      (xs : List A) (s : Progress A) (i : ℕ)
      → s.pending ≡ xs
      → get_elem? s.drains i ≡ some looping
      → CanDrain s
  unfolding take_next end_call drained
  looping-CanDrain [] s i e g =
      CanDrain-step s (take_next i [] s) (takes i) tt (step-takes s i [] g e)
        (CanDrain-now (take_next i [] s) (rw e refl))
  looping-CanDrain (a ∷ xs) s i e g =
      let t = take_next i (a ∷ xs) s in
      let u = end_call i a t in
      let at = get-set s.drains i looping (calling a) g in
      CanDrain-step s t (takes i) tt (step-takes s i (a ∷ xs) g e) (
        CanDrain-step t u (calls_end i) tt (step-calls_end t i a at)
          (looping-CanDrain xs u i refl (get-set t.drains i (calling a) looping at)))

  live-CanDrain :
      (s : Progress A) (i : ℕ) (d : Drain A)
      → get_elem? s.drains i ≡ some d
      → 0 < live d
      → CanDrain s
  unfolding end_call
  live-CanDrain s i looping g l = looping-CanDrain s.pending s i refl g
  live-CanDrain s i (calling a) g l =
      CanDrain-step s (end_call i a s) (calls_end i) tt (step-calls_end s i a g) (
        looping-CanDrain s.pending (end_call i a s) i refl
          (get-set s.drains i (calling a) looping g))
  live-CanDrain s i returned g l = absurd (omega arith)

  -- The event is one of a drain, or the test of a waiter that runs.
  abbrev pub Ends : Event A → Type 0
  Ends (takes i) = Unit
  Ends (calls_end i) = Unit
  Ends (tests i) = Unit
  Ends _ = ⊥

  -- The drains and the waiters that they notify can go on until every waiter has returned.
  pub CanEnd : Progress A → Type 0
  CanEnd s = (ds : List (Event A)) × All Ends ds × (total is_inside (run s ds).waiters ≡ 0)

  -- A waiter that tests while nothing is scheduled returns, and changes nothing else.
  step-tests :
      (s : Progress A) (i : ℕ)
      → drained s ≡ true
      → get_elem? s.waiters i ≡ some testing
      → step s (tests i) ≡ record s { waiters = set s.waiters i ended }
  unfolding step test_at
  step-tests s i d g = rw (g, d) refl

  not_asleep : (s : Progress A) → Inv s → drained s ≡ true → total is_sleeping s.waiters ≡ 0
  unfolding drained
  not_asleep s v d = v.none_asleep (scheduled_off s.scheduled (is_empty s.pending) d)

  -- A waiter that has not returned is about to test its predicate.
  next_test :
      (s : Progress A)
      → Inv s
      → drained s ≡ true
      → 0 < total is_inside s.waiters
      → (i : ℕ) × (get_elem? s.waiters i ≡ some testing)
  next_test s v d l = let (i, w, g, p) = total_pos is_inside s.waiters l in by i w g p
    where
      by :
          (i : ℕ) (w : Waiter)
          → get_elem? s.waiters i ≡ some w
          → 0 < is_inside w
          → (i : ℕ) × (get_elem? s.waiters i ≡ some testing)
      by i testing g p = (i, g)
      by i sleeping g p =
          absurd
            (omega (arith, not_asleep s v d, total-set is_sleeping s.waiters i sleeping ended g))
      by i ended g p = absurd (omega arith)

  drained-CanEnd :
      (n : ℕ) (s : Progress A) → Inv s → drained s ≡ true → total is_inside s.waiters < n → CanEnd s
  unfolding CanEnd run drained
  drained-CanEnd zero s v d l = absurd (omega arith)
  drained-CanEnd (suc n) s v d l = elim (dec_lt 0 (total is_inside s.waiters)) [
    | no q ↦ ([], tt, omega arith)
    | yes q ↦
        let (i, g) = next_test s v d q in
        let t = record s { waiters = set s.waiters i ended } in
        let e = step-tests s i d g in
        let (ds, a, z) =
          drained-CanEnd n t (subst Inv e (step-Inv s (tests i) v)) d
            (omega (arith, total-set is_inside s.waiters i testing ended g)) in
        (
          tests i ∷ ds,
          (tt, a),
          subst (λ (u : Progress A). total is_inside (run u ds).waiters ≡ 0) (sym e) z,
        )
  ]

  run-append : (s : Progress A) (xs ys : List (Event A)) → run s (xs ++ ys) ≡ run (run s xs) ys
  unfolding run
  run-append s [] ys = refl
  run-append s (x ∷ xs) ys = run-append (step s x) xs ys

  OfDrain-Ends : (ds : List (Event A)) → All OfDrain ds → All Ends ds
  OfDrain-Ends [] h = tt
  OfDrain-Ends (takes i ∷ ds) h = (tt, OfDrain-Ends ds h.1)
  OfDrain-Ends (calls_end i ∷ ds) h = (tt, OfDrain-Ends ds h.1)
  OfDrain-Ends (publishes a throws ∷ ds) h = absurd h.0
  OfDrain-Ends (waits ∷ ds) h = absurd h.0
  OfDrain-Ends (tests i ∷ ds) h = absurd h.0
  OfDrain-Ends (wakes_spuriously i ∷ ds) h = absurd h.0

  CanDrain-CanEnd : (s : Progress A) → Inv s → CanDrain s → CanEnd s
  unfolding CanDrain CanEnd
  CanDrain-CanEnd s v (ds, a, d) =
      let t = run s ds in
      let (es, b, z) =
        drained-CanEnd (suc (total is_inside t.waiters)) t (run-Inv s ds v) d (omega arith) in
      (ds ++ es, All-append Ends ds es (OfDrain-Ends ds a) b, rw (run-append s ds es) z)

  lost_scheduled : (s : Progress A) → Inv s → s.lost ≡ true → drained s ≡ false
  unfolding drained
  lost_scheduled s v h = by s.scheduled s.pending (omega (arith, v.one_drain, ap one_if h))
    where
      by : (b : Bool) (xs : List A) → 1 ≤ one_if b → not b && is_empty xs ≡ false
      by true xs l = refl
      by false xs l = absurd (omega arith)

  -- After every sequence of publications, drains and waits: as long as no call of RunAsync has thrown,
  -- the drains and the waiters that they notify can go on, with no publication and no spurious wakeup
  -- in between, until every WaitForProgressDrain has returned. Once a call of RunAsync has thrown,
  -- WaitForProgressDrain never again finds what it waits for.
  pub progress_drains :
      (es : List (Event A))
      → ((run initial es).lost ≡ false → CanEnd (run initial es))
        × ((run initial es).lost ≡ true
            → (more : List (Event A)) → drained (run (run initial es) more) ≡ false)
  unfolding drained
  progress_drains es = (
    λ h. CanDrain-CanEnd s v (by s v h s.scheduled refl),
    λ h more. lost_scheduled (run s more) (run-Inv s more v) (run-lost s more h),
  )
    where
      s : Progress A
      s = run initial es

      v : Inv s
      v = run-Inv initial es init-Inv

      by : (s : Progress A) → Inv s → s.lost ≡ false → (b : Bool) → s.scheduled ≡ b → CanDrain s
      by s v h true q =
          let (i, d, g, l) =
            total_pos live s.drains (omega (arith, v.one_drain, ap one_if q, ap one_if h)) in
          live-CanDrain s i d g l
      by s v h false q = CanDrain-now s (rw (q, v.none_left q) refl)
