-- ===== src/Camera/Host/Session.antt =====
-- What a caller of winrt/CameraControllerRuntime.h sees of its handles over a run of calls.
use matter_winrt.Base.{
  ℕ, suc, ◌≤◌, ◌<◌, ◌≡◌, refl, true, ◌==◌, none, some, List, [], ◌∷◌, if◌then◌else◌, Result, ok,
  err, Option-cases, inl, inr, arith,
}
use matter_winrt.Chip.{ChipError}
use matter_winrt.Camera.Host.{
  Host, handles, initial, Event, inits, shuts_down, creates, closes, create, open_session, Calls,
  given, step,
}
use matter_winrt.Camera.Host.Handles.{Inv, initial-Inv, step-Inv, handle-next}

-- The next handle, as a number that does not wrap.
abbrev pub floor : Host → ℕ
floor h = if h.next_handle == 0 then handles else h.next_handle

open_session-given :
    (c : Calls) (peer : ℕ) (h : Host) (x : ℕ)
    → Inv h
    → 1 ≤ h.next_handle
    → (open_session c peer h).0 ≡ ok x
    → (floor h ≡ x)
      × (1 ≤ x)
      × (x < handles)
      × (floor (open_session c peer h).1 ≡ suc x)
      × ((open_session c peer h).1.active_handle ≡ x)
unfolding open_session
open_session-given c peer h x v n e = elim (handle-next h.next_handle v.handle_bound) [
  | inl w ↦ ground arith
  | inr w ↦ ground arith
]

open_session-refused :
    (c : Calls) (peer : ℕ) (h : Host) (e : ChipError)
    → (open_session c peer h).0 ≡ err e
    → (floor (open_session c peer h).1 ≡ floor h)
      × ((open_session c peer h).1.active_handle ≡ h.active_handle)
unfolding open_session
open_session-refused c peer h e q = ground arith

create-given :
    (c : Calls) (peer : ℕ) (h : Host) (x : ℕ)
    → Inv h
    → (create c peer h).0 ≡ ok x
    → (floor h ≡ x)
      × (1 ≤ x)
      × (x < handles)
      × (floor (create c peer h).1 ≡ suc x)
      × ((create c peer h).1.active_handle ≡ x)
unfolding create
create-given c peer h x v e =
    let t = record h { bindings_initialized = true } in
    ground (arith, open_session-given c peer t x)

create-refused :
    (c : Calls) (peer : ℕ) (h : Host) (e : ChipError)
    → (create c peer h).0 ≡ err e
    → (floor (create c peer h).1 ≡ floor h) × ((create c peer h).1.active_handle ≡ h.active_handle)
unfolding create
create-refused c peer h e q =
    let t = record h { bindings_initialized = true } in
    ground (arith, open_session-refused c peer t e)

pub record Issues (h : Host) (x : ℕ) (t : Host) : Type 0 where
  pub fresh : floor h ≡ x
  pub low : 1 ≤ x
  pub high : x < handles
  pub raised : floor t ≡ suc x
  pub active : t.active_handle ≡ x

pub record Keeps (h t : Host) : Type 0 where
  pub same : floor t ≡ floor h
  pub active : (1 ≤ t.active_handle) → t.active_handle ≡ h.active_handle

pub create-Issues :
    (c : Calls) (peer : ℕ) (h : Host) (x : ℕ)
    → Inv h
    → (create c peer h).0 ≡ ok x
    → Issues h x (create c peer h).1
create-Issues c peer h x v e =
    let (f, l, u, r, a) = create-given c peer h x v e in
    record { fresh = f; low = l; high = u; raised = r; active = a }

-- What Create gives is the handle of its call.
created :
    (c : Calls) (peer : ℕ) (h : Host) (x : ℕ)
    → given h (creates c peer) ≡ some x
    → (create c peer h).0 ≡ ok x
unfolding given
created c peer h x g = go (create c peer h).0 refl
  where
    go : (r : Result ChipError ℕ) → (create c peer h).0 ≡ r → (create c peer h).0 ≡ ok x
    go (ok y) q = ground arith
    go (err e) q = absurd (ground arith)

pub given-Issues :
    (h : Host) (e : Event) (x : ℕ) → Inv h → given h e ≡ some x → Issues h x (step h e)
unfolding step given
given-Issues h (creates c peer) x v g = create-Issues c peer h x v (created c peer h x g)
given-Issues h (inits u p a) x v g = absurd (ground arith)
given-Issues h (shuts_down e) x v g = absurd (ground arith)
given-Issues h (closes e f k) x v g = absurd (ground arith)

pub none-Keeps : (h : Host) (e : Event) → given h e ≡ none → Keeps h (step h e)
unfolding given step
none-Keeps h (creates c peer) g = create-case (create c peer h).0 refl
  where
    create-case : (r : Result ChipError ℕ) → (create c peer h).0 ≡ r → Keeps h (create c peer h).1
    create-case (ok x) q = absurd (ground arith)
    create-case (err e) q = ground (arith, create-refused c peer h e q)
none-Keeps h (inits u p a) g = ground arith
none-Keeps h (shuts_down e) g = ground arith
none-Keeps h (closes e f k) g = ground arith

-- The handles that the calls of a run give.
pub issued : Host → List Event → List ℕ
issued h [] = []
issued h (e ∷ es) =
    let rest = issued (step h e) es in elim (given h e) [ none ↦ rest | some x ↦ x ∷ rest ]

-- Each number is greater than the one before, from a bound on, and fits in 64 bits.
pub Ascending : ℕ → List ℕ → Type 0
Ascending n [] = Unit
Ascending n (x ∷ xs) = (n ≤ x) × (x < handles) × Ascending (suc x) xs

Ascending-nil : (n : ℕ) → Ascending n []
unfolding Ascending
Ascending-nil n = tt

Ascending-cons :
    (n x : ℕ) (xs : List ℕ) → n ≤ x → x < handles → Ascending (suc x) xs → Ascending n (x ∷ xs)
unfolding Ascending
Ascending-cons n x xs h k a = (h, k, a)

issued-none :
    (h : Host) (e : Event) (es : List Event)
    → given h e ≡ none
    → issued h (e ∷ es) ≡ issued (step h e) es
unfolding issued
issued-none h e es g = ground arith

issued-some :
    (h : Host) (e : Event) (es : List Event) (x : ℕ)
    → given h e ≡ some x
    → issued h (e ∷ es) ≡ x ∷ issued (step h e) es
unfolding issued
issued-some h e es x g = ground arith

issued-nil : (h : Host) → issued h [] ≡ []
unfolding issued
issued-nil h = refl

issued-Ascending : (h : Host) (es : List Event) → Inv h → Ascending (floor h) (issued h es)
issued-Ascending h [] v = rw (issued-nil h) (Ascending-nil (floor h))
issued-Ascending h (e ∷ es) v =
    let ih = issued-Ascending (step h e) es (step-Inv h e v) in
    elim (Option-cases (given h e)) [
      | inl g ↦ let k = none-Keeps h e g in rw (issued-none h e es g, ← k.same) ih
      | inr (x, g) ↦
          let k = given-Issues h e x v g in
          rw (issued-some h e es x g, k.fresh)
            (Ascending-cons x x (issued (step h e) es) (omega arith) k.high (rw (← k.raised) ih))
    ]

-- No two sessions of a controller ever have the same handle: over any calls, with any errors, the
-- handles that Create gives go up, from 1, and never wrap.
pub handles_ascend : (es : List Event) → Ascending 1 (issued initial es)
unfolding initial
handles_ascend es = issued-Ascending initial es initial-Inv
