-- ===== src/Camera/Release/Outcome.antt =====
-- What PendingCameraRelease (winrt/CameraVideoStreamAllocation.h) promises its callers.
use matter_winrt.Base.{
  ℕ, zero, suc, ◌≤◌, ◌<◌, ◌≡◌, refl, Bool, true, false, ◌&&◌, dec_lt, Option, none, some, List, [],
  ◌∷◌, get_elem?, set, arith, length, total, total-set, total_pos, inl, inr, Option-cases,
}
use matter_winrt.Camera.Release.{
  Thread, entering, waiting, notified, calling, finishing, returned, Pending, Event, enters, wakes,
  comes_back, notifies, all_notified, notify, initial, step, run,
}
use matter_winrt.Camera.Release.Invariant.{
  Inv, initial-Inv, step-Inv, run-Inv, is_waiting, is_calling, is_finishing, is_notified,
}

module _ {ℓ κ} {A : Type ℓ} {F : Type κ} where
  -- In every interleaving of Cancel, Record and any number of Release calls, mRelease is called
  -- once at most.
  pub release_once : (es : List (Event A F)) → length (run initial es).calls ≤ 1
  release_once es = ground (arith, run-Inv initial es initial-Inv)

  -- What a thread still has to do.
  abbrev pub rank : Thread A F → ℕ
  rank entering = 4
  rank waiting = 2
  rank notified = 1
  rank (calling s) = 2
  rank (finishing f) = 1
  rank (returned f) = 0

  -- The events in which a thread that runs Release goes on, of itself or by a notification.
  abbrev pub is_progress : Event A F → Bool
  is_progress (enters i) = true
  is_progress (wakes i) = true
  is_progress (comes_back i f) = true
  is_progress (notifies i) = true
  is_progress _ = false

  rank-enter :
      (p : Pending A F) (i : ℕ)
      → get_elem? p.threads i ≡ some entering
      → total rank (step p (enters i)).threads < total rank p.threads
  unfolding step
  rank-enter p i h = elim (Option-cases p.stream) [
    | inl e ↦ ground (
      arith,
      total-set rank p.threads i entering (returned p.failure) h,
      total-set rank p.threads i entering (returned none) h,
      total-set rank p.threads i entering waiting h,
    )
    | inr (s, e) ↦ ground (
      arith,
      total-set rank p.threads i entering (returned p.failure) h,
      total-set rank p.threads i entering (calling s) h,
      total-set rank p.threads i entering waiting h,
    )
  ]

  rank-come_back :
      (p : Pending A F) (i : ℕ) (s : A) (f : Option F)
      → get_elem? p.threads i ≡ some (calling s)
      → total rank (step p (comes_back i f)).threads < total rank p.threads
  unfolding step
  rank-come_back p i s f h = ground (arith, total-set rank p.threads i (calling s) (finishing f) h)

  rank-wake :
      (p : Pending A F) (i : ℕ)
      → get_elem? p.threads i ≡ some notified
      → p.release_finished ≡ true
      → total rank (step p (wakes i)).threads < total rank p.threads
  unfolding step
  rank-wake p i h e = ground (arith, total-set rank p.threads i notified (returned p.failure) h)

  rank-all_notified : (ts : List (Thread A F)) → total rank (all_notified ts) ≤ total rank ts
  unfolding all_notified total
  rank-all_notified [] = omega arith
  rank-all_notified (t ∷ ts) = omega (arith, less t, rank-all_notified ts)
    where
      less : (t : Thread A F) → rank (notify t) ≤ rank t
      less entering = omega arith
      less waiting = omega arith
      less notified = omega arith
      less (calling s) = omega arith
      less (finishing f) = omega arith
      less (returned f) = omega arith

  rank-finish :
      (p : Pending A F) (i : ℕ) (f : Option F)
      → get_elem? p.threads i ≡ some (finishing f)
      → total rank (step p (notifies i)).threads < total rank p.threads
  unfolding step
  rank-finish p i f h = ground (
    arith,
    total-set rank p.threads i (finishing f) (returned f) h,
    rank-all_notified (set p.threads i (returned f)),
  )

  -- Some thread can go on: the one that runs mRelease notifies those that wait for it.
  Moves : Pending A F → Type (ℓ ⊔ κ)
  Moves p =
      (e : Event A F) × (is_progress e ≡ true)
      × (total rank (step p e).threads < total rank p.threads)

  caller_moves : (p : Pending A F) → 0 < total is_calling p.threads → Moves p
  unfolding Moves
  caller_moves p h = let (i, t, e, q) = total_pos is_calling p.threads h in go i t e q
    where
      go : (i : ℕ) (t : Thread A F) → get_elem? p.threads i ≡ some t → 0 < is_calling t → Moves p
      go i (calling s) e q = (comes_back i none, refl, rank-come_back p i s none e)
      go i entering e q = absurd (omega arith)
      go i waiting e q = absurd (omega arith)
      go i notified e q = absurd (omega arith)
      go i (finishing f) e q = absurd (omega arith)
      go i (returned f) e q = absurd (omega arith)

  finisher_moves : (p : Pending A F) → 0 < total is_finishing p.threads → Moves p
  unfolding Moves
  finisher_moves p h = let (i, t, e, q) = total_pos is_finishing p.threads h in go i t e q
    where
      go : (i : ℕ) (t : Thread A F) → get_elem? p.threads i ≡ some t → 0 < is_finishing t → Moves p
      go i (finishing f) e q = (notifies i, refl, rank-finish p i f e)
      go i entering e q = absurd (omega arith)
      go i waiting e q = absurd (omega arith)
      go i notified e q = absurd (omega arith)
      go i (calling s) e q = absurd (omega arith)
      go i (returned f) e q = absurd (omega arith)

  progress : (p : Pending A F) → Inv p → 0 < total rank p.threads → Moves p
  unfolding Moves
  progress p v h = let (i, t, e, q) = total_pos rank p.threads h in go i t e q
    where
      waits :
          (i : ℕ) (b : Bool)
          → get_elem? p.threads i ≡ some waiting
          → p.release_finished ≡ b
          → 0 < total is_waiting p.threads
          → Moves p
      waits i true e f w = finisher_moves p (ground (arith, v))
      waits i false e f w = caller_moves p (ground (arith, v))

      go : (i : ℕ) (t : Thread A F) → get_elem? p.threads i ≡ some t → 0 < rank t → Moves p
      go i (calling s) e q = (comes_back i none, refl, rank-come_back p i s none e)
      go i notified e q = by p.release_finished refl
        where
          by : (b : Bool) → p.release_finished ≡ b → Moves p
          by true f = (wakes i, refl, rank-wake p i e f)
          by false f =
              absurd (ground (arith, v, total-set is_notified p.threads i notified entering e))
      go i (finishing f) e q = (notifies i, refl, rank-finish p i f e)
      go i entering e q = (enters i, refl, rank-enter p i e)
      go i waiting e q =
          waits i p.release_finished e refl
            (omega (arith, total-set is_waiting p.threads i waiting entering e))
      go i (returned f) e q = absurd (omega arith)

  pub all_progress : List (Event A F) → Bool
  all_progress [] = true
  all_progress (e ∷ es) = is_progress e && all_progress es

  drains :
      (n : ℕ) (p : Pending A F)
      → Inv p
      → total rank p.threads < n
      → (es : List (Event A F)) × (all_progress es ≡ true) × (total rank (run p es).threads ≡ 0)
  unfolding run all_progress Moves
  drains zero p v h = absurd (omega arith)
  drains (suc n) p v h = elim (dec_lt 0 (total rank p.threads)) [
    | yes q ↦
        let (e, g, l) = progress p v q in
        let (es, a, z) = drains n (step p e) (step-Inv p e v) (omega arith) in
        (e ∷ es, ground arith, z)
    | no q ↦ ([], refl, omega arith)
  ]

  -- No thread is ever stuck in Release, and no notification is lost: from every state that an
  -- interleaving reaches, the threads alone, with no further call of Cancel, Record or Release and no
  -- spurious wakeup, can run until each has returned.
  pub release_returns :
      (es : List (Event A F))
      → (more : List (Event A F)) × (all_progress more ≡ true)
        × (total rank (run (run initial es) more).threads ≡ 0)
  release_returns es =
      drains (suc (total rank (run initial es).threads)) (run initial es)
        (run-Inv initial es initial-Inv) (omega arith)
