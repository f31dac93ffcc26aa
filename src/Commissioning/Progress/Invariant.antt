-- ===== src/Commissioning/Progress/Invariant.antt =====
-- What holds of the progress of a commissioning in winrt/Projection.cpp between two atomic blocks: one
-- drain at a time, no value lost, and nobody asleep where nothing is scheduled.
use matter_winrt.Base.{
  ℕ, zero, suc, ◌+◌, ◌≤◌, ◌≡◌, refl, sym, ◌∙◌, ap, ◌&&◌, not, Bool, true, false, List, [], ◌∷◌,
  ◌++◌, get_elem?, set, total, total-nil, total-cons, total-append, total-set, total_get, Option,
  none, some, if◌then◌else◌, arith,
}
use mathlib.Core.List.{append-nil, append_assoc}
use mathlib.Core.Option.{some-injective}
use matter_winrt.Commissioning.Progress.{
  Drain, looping, calling, returned, Waiter, testing, sleeping, ended, Progress, Event, publishes,
  takes, calls_end, waits, tests, wakes_spuriously, initial, publish, take_next, end_call, take_at,
  end_at, test_at, wake_at, all_notified, step, run, is_empty, drained,
}

abbrev pub one_if : Bool → ℕ
one_if true = 1
one_if false = 0

abbrev pub is_sleeping : Waiter → ℕ
is_sleeping sleeping = 1
is_sleeping _ = 0

none_sleep : (ws : List Waiter) → total is_sleeping (all_notified ws) ≡ 0
unfolding all_notified total
none_sleep [] = refl
none_sleep (testing ∷ ws) = omega (arith, none_sleep ws)
none_sleep (sleeping ∷ ws) = omega (arith, none_sleep ws)
none_sleep (ended ∷ ws) = omega (arith, none_sleep ws)

pub scheduled_off : (b e : Bool) → not b && e ≡ true → b ≡ false
scheduled_off true e h = cc
scheduled_off false e h = refl

scheduled_on : (b : Bool) → 1 ≤ one_if b → b ≡ true
scheduled_on true h = refl
scheduled_on false h = absurd (omega arith)

module _ {A : Type 0} where
  abbrev pub live : Drain A → ℕ
  live returned = 0
  live _ = 1

  abbrev carried : Drain A → List A
  carried (calling a) = a ∷ []
  carried _ = []

  -- What the drains are calling the handlers with.
  pub flight : List (Drain A) → List A
  flight [] = []
  flight (d ∷ ds) = carried d ++ flight ds

  pub record Inv (s : Progress A) : Type 0 where
    pub one_drain : total live s.drains + one_if s.lost ≡ one_if s.scheduled
    pub all : s.delivered ++ flight s.drains ++ s.pending ≡ s.published
    pub none_left : s.scheduled ≡ false → s.pending ≡ []
    pub none_asleep : s.scheduled ≡ false → total is_sleeping s.waiters ≡ 0

  pub flight-none : (ds : List (Drain A)) → total live ds ≡ 0 → flight ds ≡ []
  unfolding flight total
  flight-none [] h = refl
  flight-none (returned ∷ ds) h = flight-none ds (omega arith)
  flight-none (looping ∷ ds) h = absurd (omega arith)
  flight-none (calling a ∷ ds) h = absurd (omega arith)

  carried-nil : (d : Drain A) → carried d ++ [] ≡ carried d
  carried-nil looping = refl
  carried-nil (calling a) = refl
  carried-nil returned = refl

  idle : (d : Drain A) → live d ≡ 0 → carried d ≡ []
  idle looping h = refl
  idle (calling a) h = absurd (omega arith)
  idle returned h = refl

  -- The only live drain carries what is in flight.
  flight-set :
      (ds : List (Drain A)) (i : ℕ) (d e : Drain A)
      → total live ds ≡ 1
      → get_elem? ds i ≡ some d
      → live d ≡ 1
      → (flight ds ≡ carried d) × (flight (set ds i e) ≡ carried e)
  unfolding flight total
  flight-set [] i d e t g l = cc
  flight-set (x ∷ ds) zero d e t g l =
      let same = some-injective x d g in
      let none_else = flight-none ds (omega (arith, ap live same)) in
      (rw none_else (carried-nil x ∙ ap carried same), rw none_else (carried-nil e))
  flight-set (x ∷ ds) (suc i) d e t g l =
      let more = total_get live ds i d g in
      let (p, q) = flight-set ds i d e (omega arith) g l in
      let none_here = idle x (omega arith) in (rw none_here p, rw none_here q)

  pub init-Inv : Inv initial
  unfolding initial flight total
  init-Inv = record { one_drain = refl; all = refl; none_left = λ h. refl; none_asleep = λ h. refl }

  flight-append : (ds : List (Drain A)) → flight (ds ++ looping ∷ []) ≡ flight ds
  unfolding flight
  flight-append [] = refl
  flight-append (d ∷ ds) = ap (λ xs. carried d ++ xs) (flight-append ds)

  publish-Inv : (a : A) (throws : Bool) (s : Progress A) → Inv s → Inv (publish a throws s)
  unfolding publish
  publish-Inv a throws s i = by s.scheduled throws refl
    where
      longer : s.delivered ++ flight s.drains ++ (s.pending ++ a ∷ []) ≡ s.published ++ a ∷ []
      longer =
          sym (append_assoc (s.delivered ++ flight s.drains) s.pending (a ∷ []))
          ∙ ap (λ xs. xs ++ a ∷ []) i.all

      by :
          (b e : Bool)
          → s.scheduled ≡ b
          → Inv (
              if b
              then record s { pending = s.pending ++ a ∷ []; published = s.published ++ a ∷ [] }
              else if e
              then record s {
                pending = s.pending ++ a ∷ [];
                published = s.published ++ a ∷ [];
                scheduled = true;
                lost = true;
              }
              else record s {
                pending = s.pending ++ a ∷ [];
                published = s.published ++ a ∷ [];
                scheduled = true;
                drains = s.drains ++ looping ∷ [];
              })
      by true e q = record {
        one_drain = i.one_drain;
        all = longer;
        none_left = λ h. absurd (cc);
        none_asleep = λ h. absurd (cc);
      }
      by false true q = record {
        one_drain = omega (arith, i.one_drain, ap one_if q);
        all = longer;
        none_left = λ h. absurd (cc);
        none_asleep = λ h. absurd (cc);
      }
      by false false q = record {
        one_drain = omega (
          arith,
          total-append live s.drains (looping ∷ []),
          i.one_drain,
          ap one_if q,
          total-cons live looping [],
          total-nil live,
        );
        all = rw (flight-append s.drains) longer;
        none_left = λ h. absurd (cc);
        none_asleep = λ h. absurd (cc);
      }

  moved : (ds : List A) (a : A) (xs : List A) → ds ++ a ∷ [] ++ xs ≡ ds ++ [] ++ (a ∷ xs)
  moved ds a xs = rw (append-nil ds) (append_assoc ds (a ∷ []) xs)

  take_next-Inv :
      (i : ℕ) (xs : List A) (s : Progress A)
      → Inv s
      → s.pending ≡ xs
      → get_elem? s.drains i ≡ some looping
      → Inv (take_next i xs s)
  unfolding take_next
  take_next-Inv i [] s v e g =
      let live_one = total_get live s.drains i looping g in
      let on = scheduled_on s.scheduled (omega (arith, v.one_drain)) in
      let (p, q) =
        flight-set s.drains i looping returned (omega (arith, v.one_drain, ap one_if on, live_one))
          g refl in
      record {
        one_drain =
            omega (arith, total-set live s.drains i looping returned g, v.one_drain, ap one_if on);
        all = rw q (rw p at v.all);
        none_left = λ h. e;
        none_asleep = λ h. none_sleep s.waiters;
      }
  take_next-Inv i (a ∷ xs) s v e g =
      let live_one = total_get live s.drains i looping g in
      let on = scheduled_on s.scheduled (omega (arith, v.one_drain)) in
      let (p, q) =
        flight-set s.drains i looping (calling a)
          (omega (arith, v.one_drain, ap one_if on, live_one)) g refl in
      record {
        one_drain =
            omega
              (arith, total-set live s.drains i looping (calling a) g, v.one_drain, ap one_if on);
        all = rw q (moved s.delivered a xs ∙ (rw (p, e) at v.all));
        none_left = λ h. absurd (cc (h, on));
        none_asleep = λ h. absurd (cc (h, on));
      }

  end_call-Inv :
      (i : ℕ) (a : A) (s : Progress A)
      → Inv s
      → get_elem? s.drains i ≡ some (calling a)
      → Inv (end_call i a s)
  unfolding end_call
  end_call-Inv i a s v g =
      let live_one = total_get live s.drains i (calling a) g in
      let on = scheduled_on s.scheduled (omega (arith, v.one_drain)) in
      let (p, q) =
        flight-set s.drains i (calling a) looping
          (omega (arith, v.one_drain, ap one_if on, live_one)) g refl in
      record {
        one_drain =
            omega
              (arith, total-set live s.drains i (calling a) looping g, v.one_drain, ap one_if on);
        all = rw (q, append-nil (s.delivered ++ a ∷ [])) (rw p at v.all);
        none_left = v.none_left;
        none_asleep = v.none_asleep;
      }

  -- A thread goes to sleep only while a drain is scheduled.
  test-Inv :
      (i : ℕ) (s : Progress A)
      → Inv s
      → get_elem? s.waiters i ≡ some testing
      → Inv (record s { waiters = set s.waiters i (if drained s then ended else sleeping) })
  unfolding drained
  test-Inv i s v g = record {
    one_drain = v.one_drain;
    all = v.all;
    none_left = v.none_left;
    none_asleep = λ h. by s.scheduled h s.pending (v.none_left h) (v.none_asleep h);
  }
    where
      by :
          (b : Bool)
          → b ≡ false
          → (xs : List A) → xs ≡ []
          → total is_sleeping s.waiters ≡ 0
          → total is_sleeping (set s.waiters i (if not b && is_empty xs then ended else sleeping))
            ≡ 0
      by true q xs e h = cc (q)
      by false q (x ∷ xs) e h = cc (e)
      by false q [] e h = omega (arith, h, total-set is_sleeping s.waiters i testing ended g)

  pub step-Inv : (s : Progress A) (e : Event A) → Inv s → Inv (step s e)
  unfolding step test_at wake_at
  step-Inv s (publishes a throws) v = publish-Inv a throws s v
  step-Inv s (takes i) v = by (get_elem? s.drains i) refl
    where
      by : (o : Option (Drain A)) → get_elem? s.drains i ≡ o → Inv (take_at o i s)
      by none g = v
      by (some looping) g = take_next-Inv i s.pending s v refl g
      by (some (calling a)) g = v
      by (some returned) g = v
  step-Inv s (calls_end i) v = by (get_elem? s.drains i) refl
    where
      by : (o : Option (Drain A)) → get_elem? s.drains i ≡ o → Inv (end_at o i s)
      by none g = v
      by (some looping) g = v
      by (some (calling a)) g = end_call-Inv i a s v g
      by (some returned) g = v
  step-Inv s waits v = record {
    one_drain = v.one_drain;
    all = v.all;
    none_left = v.none_left;
    none_asleep = λ h. omega (
      arith,
      v.none_asleep h,
      total-append is_sleeping s.waiters (testing ∷ []),
      total-cons is_sleeping testing [],
      total-nil is_sleeping,
    );
  }
  step-Inv s (tests i) v = by (get_elem? s.waiters i) refl
    where
      by : (o : Option Waiter) → get_elem? s.waiters i ≡ o → Inv (test_at o i s)
      by none g = v
      by (some testing) g = test-Inv i s v g
      by (some sleeping) g = v
      by (some ended) g = v
  step-Inv s (wakes_spuriously i) v = by (get_elem? s.waiters i) refl
    where
      by : (o : Option Waiter) → get_elem? s.waiters i ≡ o → Inv (wake_at o i s)
      by none g = v
      by (some testing) g = v
      by (some sleeping) g = record {
        one_drain = v.one_drain;
        all = v.all;
        none_left = v.none_left;
        none_asleep = λ h.
            omega (arith, v.none_asleep h, total-set is_sleeping s.waiters i sleeping testing g);
      }
      by (some ended) g = v

  pub run-Inv : (s : Progress A) (es : List (Event A)) → Inv s → Inv (run s es)
  unfolding run
  run-Inv s [] v = v
  run-Inv s (e ∷ es) v = run-Inv (step s e) es (step-Inv s e v)
