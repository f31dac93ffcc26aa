-- ===== src/Camera/Prepared/Video/Releasing.antt =====
-- What AllocateCameraVideoStream of winrt/Projection.cpp does with the stream that the camera has
-- allocated.
use matter_winrt.Base.{
  ℕ, ◌≡◌, ◌⊎◌, refl, sym, ap, ◌∙◌, ◌==◌, Bool, true, false, none, some, inl, inr, if◌then◌else◌,
  Result, ok, err, ok-injective, arith,
}
use mathlib.Core.Path.{subst}
use matter_winrt.Tlv.{Fields}
use matter_winrt.Camera.Failure.{Stage}
use matter_winrt.Camera.Metadata.{Fault, Key, number, bounds_error, camera_stream_field}
use matter_winrt.Camera.Metadata.Descriptor.{SdkId, max_16}
use matter_winrt.Camera.Metadata.Streams.{VideoStream, reserved}
use matter_winrt.Camera.Metadata.Streams.Options.{VideoRequest}
use matter_winrt.Camera.Metadata.Audio.{Staged, Feature}
use matter_winrt.Camera.Prepared.{Ending, deallocation_stage, unrecorded, recover, owning}
use matter_winrt.Camera.Prepared.Video.{
  Dispatch, read_video_back, record_video, video_prepared, allocate_camera_video_stream,
}
use matter_winrt.Camera.Prepared.Video.Allocated.{read_back-stream}

-- `Named n` says that the camera has answered with the stream n, `Sent` that it was asked to. A stream
-- that is returned is the one of the answer, recorded and not released; after a failure the stream of
-- the answer is recorded and Release was called, or there is none to release.
abbrev pub Settled : (ℕ → Type 0) → Type 0 → Ending VideoStream → Result Fault VideoStream → Type 0
Settled Named Sent o (ok s) = (o.recorded ≡ some s.stream) × (o.released ≡ false) × Named s.stream
Settled Named Sent o (err e) =
    ((o.recorded ≡ none) × (Sent → (n : ℕ) → Named n → n ≡ reserved))
    ⊎ ((n : ℕ) × (o.recorded ≡ some n) × (o.released ≡ true) × Named n)

abbrev pub Settles : (ℕ → Type 0) → Type 0 → Ending VideoStream → Type 0
Settles Named Sent o = Settled Named Sent o o.result

recover-Settles :
    (Named : ℕ → Type 0) (Sent : Type 0) (release : Result Fault (Unit {0})) (n : ℕ)
    (t : Staged VideoStream)
    → Named n
    → ((s : VideoStream) → t.1 ≡ ok s → s.stream ≡ n)
    → Settles Named Sent (recover deallocation_stage release n t)
recover-Settles Named Sent release n (g, ok s) m h =
    (ap some (sym (h s refl)), refl, subst Named (sym (h s refl)) m)
recover-Settles Named Sent (ok u) n (g, err e) m h = inr (n, refl, refl, m)
recover-Settles Named Sent (err f) n (g, err e) m h = inr (n, refl, refl, m)

module _ {H F : Type 0} (same : H → H → Bool) (key : Key → H) (id : SdkId → ℕ) (bit : Feature → ℕ)
    (live_view : ℕ) (read : ℕ → SdkId → SdkId → Result Fault (Fields H F)) (endpoint : ℕ) where
  record-Settles :
      (Named : ℕ → Type 0) (Sent : Type 0) (r : VideoRequest) (x : Dispatch H F) (g : Stage)
      (q : Result Fault ℕ)
      → ((n : ℕ) → q ≡ ok n → Named n)
      → ((n : ℕ) → Named n → q ≡ ok n)
      → Settles Named Sent (record_video same key id bit live_view read endpoint r x g q)
  unfolding record_video
  record-Settles Named Sent r x g (err e) to from = inl (refl, λ _ n m. absurd (cc (from n m)))
  record-Settles Named Sent r x g (ok stream) to from = by (stream == reserved) refl
    where
      by :
          (b : Bool)
          → (stream == reserved) ≡ b
          → Settles Named Sent (
              if b
              then unrecorded g bounds_error
              else recover deallocation_stage x.release stream
                  (read_video_back same key id bit live_view read endpoint r x g stream))
      by true e =
          let last : stream ≡ reserved = ground arith in
          inl (refl, λ _ n m. sym (ok-injective (from n m)) ∙ last)
      by false e =
          recover-Settles Named Sent x.release stream
            (read_video_back same key id bit live_view read endpoint r x g stream) (to stream refl)
            (read_back-stream same key id bit live_view read endpoint r x g stream)

  -- The response of the camera names the stream n; the allocation got to its command.
  abbrev pub Named : Dispatch H F → ℕ → Type 0
  Named x n =
      (fields : Fields H F) × (x.invoked.1 ≡ ok fields)
      × (camera_stream_field same key max_16 (number 0) (some fields) ≡ ok n)

  abbrev pub Sent : Bool → VideoRequest → Dispatch H F → Type 0
  Sent is_operational r x =
      (video_prepared same key id bit live_view read endpoint is_operational x.canceled_before r).1
      ≡ ok tt

  -- However an allocation of a video stream ends: with a result, that is the stream which the camera's
  -- response names, it is recorded and not released; with a failure, the stream which the response
  -- names is recorded and Release has been called, or nothing is recorded, and then no command was
  -- sent, or its response names no stream but the reserved one.
  pub allocation_keeps_or_releases :
      (is_operational : Bool) (r : VideoRequest) (x : Dispatch H F)
      → Settles
          (Named x)
          (Sent is_operational r x)
          (allocate_camera_video_stream same key id bit live_view read endpoint is_operational r x)
  unfolding allocate_camera_video_stream
  allocation_keeps_or_releases is_operational r x =
      prepared
        (video_prepared same key id bit live_view read endpoint is_operational x.canceled_before r)
    where
      next : Fields H F → Ending VideoStream
      next response =
          record_video same key id bit live_view read endpoint r x x.invoked.0
            (camera_stream_field same key max_16 (number 0) (some response))

      invoked :
          (S : Type 0) (t : Staged (Fields H F))
          → x.invoked.1 ≡ t.1
          → Settles (Named x) S (owning t next)
      invoked S (g, ok fields) e =
          record-Settles (Named x) S r x x.invoked.0
            (camera_stream_field same key max_16 (number 0) (some fields)) (λ n q. (fields, e, q))
            (λ n m. only (m.0) (ok-injective (sym e ∙ m.1)) n m.2)
        where
          only :
              (f : Fields H F)
              → fields ≡ f
              → (n : ℕ) → camera_stream_field same key max_16 (number 0) (some f) ≡ ok n
              → camera_stream_field same key max_16 (number 0) (some fields) ≡ ok n
          only f p n q = rw p q
      invoked S (g, err f) e = inl (refl, λ _ n m. absurd (cc (e, m.1)))

      prepared :
          (t : Staged (Unit {0}))
          → Settles (Named x) (t.1 ≡ ok tt) (owning t (λ _. owning x.invoked next))
      prepared (g, ok u) = invoked (ok u ≡ ok tt) x.invoked refl
      prepared (g, err e) = inl (refl, λ h. absurd (cc h))
