-- ===== src/Admission/Lifetime/Shutdown.antt =====
-- Who owns the lifetime mutex (winrt/Projection.cpp, RuntimeOperationAdmission) at one time.
use matter_winrt.Base.{
  ℕ, ◌+◌, ◌≤◌, ◌<◌, ◌≡◌, ◌≢◌, true, false, some, List, [], ◌∷◌, get_elem?, set, total, total-set,
  total-append, total-cons, total-nil, total_get, total_mono, total_two, arith, Option-cases, inl,
  inr,
}
use matter_winrt.Admission.Lifetime.{
  Thread, trying, owning, leased, gone, Lifetime, Event, arrives, tries, looks, gives_up, ends,
  starts_closing, shuts_down, owns, owns_alone, at, try_lock, look, give_up, end_lease, step, run,
  initial,
}

pub record Inv (t : Lifetime) : Type 0 where
  -- BeginShutdown has the lock with nobody else.
  pub shut_alone : t.shut ≡ true → (t.closing ≡ true) × (total owns t.threads ≡ 0)
  -- A thread that has it alone is the only one.
  pub alone : 0 < total owns_alone t.threads → total owns t.threads ≡ 1

moved :
    (ts : List Thread) (i : ℕ) (x y : Thread)
    → get_elem? ts i ≡ some x
    → (total owns (set ts i y) + owns x ≡ total owns ts + owns y)
      × (total owns_alone (set ts i y) + owns_alone x ≡ total owns_alone ts + owns_alone y)
      × (owns x ≤ total owns ts)
      × (owns_alone x ≤ total owns_alone ts)
moved ts i x y h = (
  total-set owns ts i x y h,
  total-set owns_alone ts i x y h,
  total_get owns ts i x h,
  total_get owns_alone ts i x h,
)

alone-le-owns : (x : Thread) → owns_alone x ≤ owns x
alone-le-owns (trying a) = omega arith
alone-le-owns (owning true) = omega arith
alone-le-owns (owning false) = omega arith
alone-le-owns (leased true) = omega arith
alone-le-owns (leased false) = omega arith
alone-le-owns gone = omega arith

try_lock-Inv :
    (i : ℕ) (x : Thread) (t : Lifetime)
    → get_elem? t.threads i ≡ some x
    → Inv t
    → Inv (try_lock i x t)
unfolding try_lock
try_lock-Inv i (trying true) t h v = ground (arith, moved t.threads i (trying true) (owning true) h)
try_lock-Inv i (trying false) t h v =
    ground (arith, moved t.threads i (trying false) (owning false) h)
try_lock-Inv i (owning a) t h v = v
try_lock-Inv i (leased a) t h v = v
try_lock-Inv i gone t h v = v

look-Inv :
    (i : ℕ) (x : Thread) (t : Lifetime) → get_elem? t.threads i ≡ some x → Inv t → Inv (look i x t)
unfolding look
look-Inv i (trying a) t h v = ground (arith, moved t.threads i (trying a) gone h)
look-Inv i (owning true) t h v = ground (
  arith,
  moved t.threads i (owning true) gone h,
  moved t.threads i (owning true) (leased true) h,
  total_mono owns_alone owns (set t.threads i gone) alone-le-owns,
)
look-Inv i (owning false) t h v = ground (
  arith,
  moved t.threads i (owning false) gone h,
  moved t.threads i (owning false) (leased false) h,
  total_mono owns_alone owns (set t.threads i gone) alone-le-owns,
)
look-Inv i (leased a) t h v = v
look-Inv i gone t h v = v

drop-Inv :
    (i : ℕ) (x : Thread) (t : Lifetime) → get_elem? t.threads i ≡ some x → Inv t → Inv (at i gone t)
unfolding at
drop-Inv i (trying a) t h v = ground (arith, moved t.threads i (trying a) gone h)
drop-Inv i (owning true) t h v = ground (
  arith,
  moved t.threads i (owning true) gone h,
  total_mono owns_alone owns (set t.threads i gone) alone-le-owns,
)
drop-Inv i (owning false) t h v = ground (
  arith,
  moved t.threads i (owning false) gone h,
  total_mono owns_alone owns (set t.threads i gone) alone-le-owns,
)
drop-Inv i (leased true) t h v = ground (
  arith,
  moved t.threads i (leased true) gone h,
  total_mono owns_alone owns (set t.threads i gone) alone-le-owns,
)
drop-Inv i (leased false) t h v = ground (
  arith,
  moved t.threads i (leased false) gone h,
  total_mono owns_alone owns (set t.threads i gone) alone-le-owns,
)
drop-Inv i gone t h v = ground (arith, moved t.threads i gone gone h)

give_up-Inv :
    (i : ℕ) (x : Thread) (t : Lifetime)
    → get_elem? t.threads i ≡ some x
    → Inv t
    → Inv (give_up i x t)
unfolding give_up
give_up-Inv i (trying a) t h v = drop-Inv i (trying a) t h v
give_up-Inv i (owning a) t h v = drop-Inv i (owning a) t h v
give_up-Inv i (leased a) t h v = v
give_up-Inv i gone t h v = v

end_lease-Inv :
    (i : ℕ) (x : Thread) (t : Lifetime)
    → get_elem? t.threads i ≡ some x
    → Inv t
    → Inv (end_lease i x t)
unfolding end_lease
end_lease-Inv i (trying a) t h v = v
end_lease-Inv i (owning a) t h v = v
end_lease-Inv i (leased a) t h v = drop-Inv i (leased a) t h v
end_lease-Inv i gone t h v = v

step-Inv : (t : Lifetime) (e : Event) → Inv t → Inv (step t e)
unfolding step
step-Inv t (arrives a) v = ground (
  arith,
  total-append owns t.threads (trying a ∷ []),
  total-cons owns (trying a) [],
  total-nil owns,
  total-append owns_alone t.threads (trying a ∷ []),
  total-cons owns_alone (trying a) [],
  total-nil owns_alone,
)
step-Inv t (tries i) v = elim (Option-cases (get_elem? t.threads i)) [
  | inl h ↦ ground arith
  | inr (x, h) ↦ ground (arith, try_lock-Inv i x t h v)
]
step-Inv t (looks i) v = elim (Option-cases (get_elem? t.threads i)) [
  | inl h ↦ ground arith
  | inr (x, h) ↦ ground (arith, look-Inv i x t h v)
]
step-Inv t (gives_up i) v = elim (Option-cases (get_elem? t.threads i)) [
  | inl h ↦ ground arith
  | inr (x, h) ↦ ground (arith, give_up-Inv i x t h v)
]
step-Inv t (ends i) v = elim (Option-cases (get_elem? t.threads i)) [
  | inl h ↦ ground arith
  | inr (x, h) ↦ ground (arith, end_lease-Inv i x t h v)
]
step-Inv t starts_closing v = ground arith
step-Inv t shuts_down v = ground (arith, total_mono owns_alone owns t.threads alone-le-owns)

pub run-Inv : (t : Lifetime) (es : List Event) → Inv t → Inv (run t es)
unfolding run
run-Inv t [] v = v
run-Inv t (e ∷ es) v = run-Inv (step t e) es (step-Inv t e v)

pub initial-Inv : Inv initial
unfolding initial
initial-Inv = ground (arith, total-nil owns, total-nil owns_alone)

-- A thread with its lease alone owns the lifetime mutex by itself, whatever the threads did before:
-- no other thread owns it, with or without a lease.
pub exclusive_is_alone :
    (es : List Event) (i j : ℕ) (x : Thread)
    → get_elem? (run initial es).threads i ≡ some (leased true)
    → get_elem? (run initial es).threads j ≡ some x
    → i ≢ j
    → owns x ≡ 0
exclusive_is_alone es i j x h k n =
    let v = run-Inv initial es initial-Inv in
    ground (
      arith,
      v.alone,
      total_get owns_alone (run initial es).threads i (leased true) h,
      total_two owns (run initial es).threads i j (leased true) x h k n,
    )

-- Once BeginShutdown has the lifetime mutex, no operation owns it, with or without a lease, and the
-- gate is closed, whatever the threads did before and did since.
pub shutdown_is_alone :
    (es : List Event) (i : ℕ) (x : Thread)
    → (run initial es).shut ≡ true
    → get_elem? (run initial es).threads i ≡ some x
    → ((run initial es).closing ≡ true) × (owns x ≡ 0)
shutdown_is_alone es i x h k =
    let v = run-Inv initial es initial-Inv in
    ground (arith, v.shut_alone, total_get owns (run initial es).threads i x k)
