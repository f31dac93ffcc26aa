-- ===== src/Camera/Release/Cleanup.antt =====
-- That a canceled operation does not leak the remote stream or session that it recorded
-- (winrt/CameraVideoStreamAllocation.h).
use matter_winrt.Base.{
  ℕ, ◌≤◌, ◌≡◌, refl, Bool, true, false, ◌||◌, Option, none, some, List, [], ◌∷◌, is_some, get_elem?,
  arith, total, total_mono, All, ◌⊎◌, if◌then◌else◌,
}
use matter_winrt.Camera.Release.{
  Thread, entering, waiting, notified, calling, finishing, returned, Pending, Event, cancels,
  records, calls_release, enters, wakes, comes_back, notifies, wakes_spuriously, initial, step, run,
  come_back, at_calling, finish_at, finish,
}
use matter_winrt.Camera.Release.Invariant.{
  Inv, initial-Inv, step-Inv, run-Inv, is_entering, caller_started,
}
use matter_winrt.Camera.Release.Outcome.{rank}

module _ {ℓ κ} {A : Type ℓ} {F : Type κ} where
  abbrev pub is_record : Event A F → Bool
  is_record (records s) = true
  is_record _ = false

  abbrev pub is_cancel : Event A F → Bool
  is_cancel cancels = true
  is_cancel _ = false

  abbrev pub any : (Event A F → Bool) → List (Event A F) → Bool
  any q [] = false
  any q (e ∷ es) = q e || any q es

  -- The operation obtains the stream `s`, if it obtains one.
  abbrev pub Records : A → Event A F → Type ℓ
  Records s (records r) = r ≡ s
  Records s _ = Unit

  record Owns (s : A) (seen asked : Bool) (p : Pending A F) : Type ℓ where
    kept : seen ≡ true → (is_some p.stream ≡ true) ⊎ (p.release_started ≡ true)
    told : asked ≡ true → p.canceled ≡ true
    same_stream : (p.stream ≡ none) ⊎ (p.stream ≡ some s)
    same_calls : p.calls ≡ (if p.release_started then s ∷ [] else [])

  back :
      (s : A) (seen asked : Bool) (p : Pending A F) (i : ℕ) (f : Option F) (o : Option (Thread A F))
      → get_elem? p.threads i ≡ o
      → Inv p
      → Owns s seen asked p
      → Owns s (seen || false) (asked || false) (at_calling o p (come_back i f p))
  unfolding at_calling come_back
  back s seen asked p i f (some (calling t)) h v o = ground (arith, caller_started p i t v h)
  back s seen asked p i f (some entering) h v o = ground arith
  back s seen asked p i f (some waiting) h v o = ground arith
  back s seen asked p i f (some notified) h v o = ground arith
  back s seen asked p i f (some (finishing g)) h v o = ground arith
  back s seen asked p i f (some (returned g)) h v o = ground arith
  back s seen asked p i f none h v o = ground arith

  finish_at-Owns :
      (s : A) (seen asked : Bool) (p : Pending A F) (i : ℕ) (o : Option (Thread A F))
      → Owns s seen asked p
      → Owns s (seen || false) (asked || false) (finish_at o i p)
  unfolding finish_at finish
  finish_at-Owns s seen asked p i (some (finishing f)) o = ground arith
  finish_at-Owns s seen asked p i (some entering) o = ground arith
  finish_at-Owns s seen asked p i (some waiting) o = ground arith
  finish_at-Owns s seen asked p i (some notified) o = ground arith
  finish_at-Owns s seen asked p i (some (calling t)) o = ground arith
  finish_at-Owns s seen asked p i (some (returned f)) o = ground arith
  finish_at-Owns s seen asked p i none o = ground arith

  step-Owns :
      (s : A) (seen asked : Bool) (p : Pending A F) (e : Event A F)
      → Records s e
      → Inv p
      → Owns s seen asked p
      → Owns s (seen || is_record e) (asked || is_cancel e) (step p e)
  unfolding step
  step-Owns s seen asked p cancels r v o = ground arith
  step-Owns s seen asked p (records t) r v o = ground arith
  step-Owns s seen asked p calls_release r v o = ground arith
  step-Owns s seen asked p (enters i) r v o = ground arith
  step-Owns s seen asked p (wakes i) r v o = ground arith
  step-Owns s seen asked p (comes_back i f) r v o =
      back s seen asked p i f (get_elem? p.threads i) refl v o
  step-Owns s seen asked p (notifies i) r v o =
      finish_at-Owns s seen asked p i (get_elem? p.threads i) o
  step-Owns s seen asked p (wakes_spuriously i) r v o = ground arith

  run-Owns :
      (s : A) (seen asked : Bool) (p : Pending A F) (es : List (Event A F))
      → All (Records s) es
      → Inv p
      → Owns s seen asked p
      → Owns s (seen || any is_record es) (asked || any is_cancel es) (run p es)
  unfolding run
  run-Owns s seen asked p [] r v o = ground arith
  run-Owns s seen asked p (e ∷ es) r v o = ground (
    arith,
    run-Owns s (seen || is_record e) (asked || is_cancel e) (step p e) es r.1 (step-Inv p e v)
        (step-Owns s seen asked p e r.0 v o),
  )

  initial-Owns : (s : A) → Owns s false false initial
  unfolding initial
  initial-Owns s = ground arith

  entering-le-rank : (t : Thread A F) → is_entering t ≤ rank t
  entering-le-rank entering = omega arith
  entering-le-rank waiting = omega arith
  entering-le-rank notified = omega arith
  entering-le-rank (finishing f) = omega arith
  entering-le-rank (calling s) = omega arith
  entering-le-rank (returned f) = omega arith

  -- Where a canceled operation obtained the stream `s`, in whatever order the cancellation and the
  -- result came, and all the threads in Release have returned, mRelease has been called exactly
  -- once, on `s`.
  pub canceled_releases :
      (s : A) (es : List (Event A F))
      → All (Records s) es
      → any is_record es ≡ true
      → any is_cancel es ≡ true
      → total rank (run initial es).threads ≡ 0
      → (run initial es).calls ≡ s ∷ []
  canceled_releases s es r seen asked quiet = ground (
    arith,
    run-Owns s false false initial es r initial-Inv (initial-Owns s),
    run-Inv initial es initial-Inv,
    total_mono is_entering rank (run initial es).threads entering-le-rank,
  )
