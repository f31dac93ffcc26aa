-- ===== src/Camera/Ownership/Allocation/Settling.antt =====
-- What becomes of an endpoint's slot in AllocateCameraAudioStream (winrt/Projection.cpp).
use matter_winrt.Base.{
  ℕ, ◌≡◌, refl, ◌∙◌, Bool, true, false, Option, none, some, ◌==◌, leb, length, if◌then◌else◌,
  Result, ok, err, Bool-cases, inl, inr, arith,
}
use mathlib.Core.Path.{subst}
use matter_winrt.Camera.Ownership.{
  Key, Table, Error, out_of_bounds, Call, reserves, commits, fails, starts_release,
  finishes_release, find, step, no_stream, capacity, ◌==ₖ◌, reserve, commit, allocation_failed,
  start_release, release_finished, after,
}
use matter_winrt.Camera.Ownership.Slot.{
  Slot, free, reserved, lost, held, draining, view, move, Inv, Refines, step-Refines,
}
use matter_winrt.Camera.Ownership.Invariant.{step-Inv}
use matter_winrt.Camera.Ownership.Allocation.{
  Failure, is_im_status, Invoked, refused, failed, responded, Allocation, finish_release,
  deallocate_camera_audio_stream, caught, released, read_back, invoke, allocate_camera_audio_stream,
}

-- A table in which the slot of `k` is `x`, and that is `t` elsewhere.
pub record At (k : Key) (x : Slot) (t u : Table) : Type 0 where
  pub slot : view (find k u) ≡ x
  pub inv : Inv u
  pub elsewhere : (j : Key) → (k ==ₖ j) ≡ false → find j u ≡ find j t

-- A call that the automaton takes.
taken :
    (k : Key) (c : Call) (x y : Slot) (s t : Table) (r : Result Error Table)
    → step k c t ≡ r
    → At k x s t
    → move (leb capacity (length t)) x c ≡ ok y
    → (u : Table) × (r ≡ ok u) × At k y s u
taken k c x y s t (err e) q a m =
    let f = subst (Refines k k c t) q (step-Refines k k c t a.inv) in
    absurd (ground (arith, f, a.slot, m))
taken k c x y s t (ok u) q a m =
    let f = subst (Refines k k c t) q (step-Refines k k c t a.inv) in
    (
      u,
      refl,
      record {
        slot = ground (arith, f.0, a.slot, m);
        inv = subst (λ r. Inv (after t r)) q (step-Inv k c t a.inv);
        elsewhere =
            λ j d. (subst (Refines k j c t) q (step-Refines k j c t a.inv)).1 d ∙ a.elsewhere j d;
      },
    )

refused_call :
    (k : Key) (c : Call) (x : Slot) (e : Error) (s t : Table) (r : Result Error Table)
    → step k c t ≡ r
    → At k x s t
    → move (leb capacity (length t)) x c ≡ err e
    → r ≡ err e
refused_call k c x e s t (err d) q a m =
    let f = subst (Refines k k c t) q (step-Refines k k c t a.inv) in ground (arith, f, a.slot, m)
refused_call k c x e s t (ok u) q a m =
    let f = subst (Refines k k c t) q (step-Refines k k c t a.inv) in
    absurd (ground (arith, f.0, a.slot, m))

-- AllocationFailed on a slot.
after_failure : Bool → Slot → Slot
after_failure known reserved = if known then free else lost
after_failure known x = x

move-fails : (full known : Bool) (x : Slot) → move full x (fails known) ≡ ok (after_failure known x)
unfolding move after_failure
move-fails full known free = refl
move-fails full known reserved = refl
move-fails full known lost = refl
move-fails full known (held s) = refl
move-fails full known (draining s) = refl

failed-At :
    (k : Key) (known : Bool) (x : Slot) (s t : Table)
    → At k x s t
    → At k (after_failure known x) s (allocation_failed k known t)
unfolding step
failed-At k known x s t a =
    let (u, q, b) =
      taken k (fails known) x (after_failure known x) s t (ok (allocation_failed k known t)) refl a
        (move-fails (leb capacity (length t)) known x) in
    let e : u ≡ allocation_failed k known t = ground arith in
    subst (At k (after_failure known x) s) e b

-- The slot after a deallocation that was to end like this.
abbrev pub deallocated : Result Failure (Unit {0}) → Slot
deallocated (ok x) = free
deallocated (err f) = lost

finish-At :
    (k : Key) (n : ℕ) (d : Result Failure (Unit {0})) (s t : Table)
    → At k (draining n) s t
    → ((finish_release k d t).0 ≡ d) × At k (deallocated d) s (finish_release k d t).1
unfolding finish_release step move
finish-At k n (ok x) s t a =
    let (u, q, b) =
      taken k (finishes_release true) (draining n) free s t (release_finished k true t) refl a
        refl in
    rw (q, finish_release) (refl, b)
finish-At k n (err f) s t a =
    let (u, q, b) =
      taken k (finishes_release false) (draining n) lost s t (release_finished k false t) refl a
        refl in
    rw (q, finish_release) (refl, b)

deallocate-At :
    (k : Key) (n : ℕ) (d : Result Failure (Unit {0})) (s t : Table)
    → At k (held n) s t
    → ((deallocate_camera_audio_stream k n d t).0 ≡ d)
      × At k (deallocated d) s (deallocate_camera_audio_stream k n d t).1
unfolding deallocate_camera_audio_stream step move
deallocate-At k n d s t a =
    let (u, q, b) =
      taken k (starts_release n) (held n) (draining n) s t (start_release k n t) refl a
        (ground arith) in
    rw (q, deallocate_camera_audio_stream) (finish-At k n d s u b)

-- The slot that an allocation which was reserved ends in: it is lost wherever the camera may still
-- have the stream.
pub settled : Allocation → Invoked → Slot
unfolding after_failure
settled a (refused f) = free
settled a (failed f) = if is_im_status f then free else lost
settled a (responded n) =
    if n == no_stream
    then lost
    else elim a.readback [ ok x ↦ held n | err f ↦ deallocated a.deallocation ]

-- Whether it returns, and with what.
pub returns : Allocation → Invoked → Option ℕ
returns a (responded n) =
    if n == no_stream then none else elim a.readback [ ok x ↦ some n | err f ↦ none ]
returns a i = none

abbrev pub value : {A : Type 0} → Result Failure A → Option A
value (ok x) = some x
value (err f) = none

-- A failure leaves a slot alone that is free or lost.
deallocated_stays :
    (known : Bool) (d : Result Failure (Unit {0}))
    → after_failure known (deallocated d) ≡ deallocated d
unfolding after_failure
deallocated_stays known (ok x) = refl
deallocated_stays known (err f) = refl

released-At :
    (k : Key) (f : Failure) (d : Result Failure (Unit {0})) (s : Table)
    (p : Result Failure (Unit {0}) × Table)
    → At k (deallocated d) s p.1
    → (value (released k f p).0 ≡ none) × At k (deallocated d) s (released k f p).1
unfolding released caught
released-At k f d s (err g, t) a = (
  refl,
  subst (λ x. At k x s (allocation_failed k (is_im_status g) t))
      (deallocated_stays (is_im_status g) d) (failed-At k (is_im_status g) (deallocated d) s t a),
)
released-At k f d s (ok x, t) a = (
  refl,
  subst (λ x. At k x s (allocation_failed k (is_im_status f) t))
      (deallocated_stays (is_im_status f) d) (failed-At k (is_im_status f) (deallocated d) s t a),
)

read_back-At :
    (a : Allocation) (k : Key) (n : ℕ) (b : Result Failure (Unit {0})) (s t : Table)
    → At k (held n) s t
    → (value (read_back a k n b t).0 ≡ elim b [ ok x ↦ some n | err f ↦ none ])
      × At k
          (elim b [ ok x ↦ held n | err f ↦ deallocated a.deallocation ])
          s
          (read_back a k n b t).1
unfolding read_back
read_back-At a k n (ok x) s t h = (refl, h)
read_back-At a k n (err f) s t h =
    released-At k f a.deallocation s (deallocate_camera_audio_stream k n a.deallocation t)
      (deallocate-At k n a.deallocation s t h).1

no_commit :
    (k : Key) (n : ℕ) (s t : Table)
    → (n == no_stream) ≡ true
    → At k reserved s t
    → commit k n t ≡ err out_of_bounds
unfolding step move
no_commit k n s t q h =
    refused_call k (commits n) reserved out_of_bounds s t (commit k n t) refl h (ground arith)

committed :
    (k : Key) (n : ℕ) (s t : Table)
    → (n == no_stream) ≡ false
    → At k reserved s t
    → (u : Table) × (commit k n t ≡ ok u) × At k (held n) s u
unfolding step move
committed k n s t q h =
    taken k (commits n) reserved (held n) s t (commit k n t) refl h (ground arith)

invoke-At :
    (a : Allocation) (k : Key) (i : Invoked) (s t : Table)
    → At k reserved s t
    → (value (invoke a k i t).0 ≡ returns a i) × At k (settled a i) s (invoke a k i t).1
unfolding invoke caught settled returns after_failure
invoke-At a k (refused f) s t h = (refl, failed-At k true reserved s t h)
invoke-At a k (failed f) s t h = (refl, failed-At k (is_im_status f) reserved s t h)
invoke-At a k (responded n) s t h = elim (Bool-cases (n == no_stream)) [
  | inl q ↦
      rw (q, no_commit k n s t q h, invoke, settled, returns)
        (refl, failed-At k false reserved s t h)
  | inr q ↦
      let (u, e, b) = committed k n s t q h in
      rw (q, e, invoke, settled, returns) (read_back-At a k n a.readback s u b)
]

-- An allocation that gets to its reservation, on an endpoint with no stream, in a table that meets its
-- invariant and is not full, settles as its exchanges with the camera say, and it returns the stream exactly if it is held then: a rejection, and a release
-- that succeeds, free the endpoint; where the camera may still have a stream, the endpoint is lost. No
-- other endpoint is touched, and the table keeps its invariant.
pub allocation_settles :
    (a : Allocation) (k : Key) (t : Table)
    → Inv t
    → view (find k t) ≡ free
    → leb capacity (length t) ≡ false
    → a.prepared ≡ ok tt
    → (value (allocate_camera_audio_stream a k t).0 ≡ returns a a.invoked)
      × At k (settled a a.invoked) t (allocate_camera_audio_stream a k t).1
unfolding allocate_camera_audio_stream step move returns settled
allocation_settles a k t v f l p =
    let h : At k free t t = record { slot = f; inv = v; elsewhere = λ j d. refl } in
    let (u, e, b) = taken k reserves free reserved t t (reserve k t) refl h (ground arith) in
    rw (p, e, allocate_camera_audio_stream) (invoke-At a k a.invoked t u b)
