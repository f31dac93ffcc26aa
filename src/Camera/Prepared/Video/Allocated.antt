-- ===== src/Camera/Prepared/Video/Allocated.antt =====
-- What AllocateCameraVideoStream of winrt/Projection.cpp promises: a stream that is returned is one that
-- was asked for.
use matter_winrt.Base.{
  ℕ, ◌≡◌, refl, ◌==◌, ◌&&◌, Bool, true, false, List, [], ◌∷◌, Option, none, some, inl, inr,
  if◌then◌else◌, Result, ok, err, ok-injective, ◌>>=◌, bind-ok, Bool-cases, arith,
}
use mathlib.Core.Path.{subst}
use mathlib.Core.Option.{some-injective}
use matter_winrt.Tlv.{Fields}
use matter_winrt.Camera.Failure.{Stage}
use matter_winrt.Camera.Metadata.{Fault, Key, number, bounds_error, camera_stream_field}
use matter_winrt.Camera.Metadata.Descriptor.{SdkId, max_16}
use matter_winrt.Camera.Metadata.Streams.{
  VideoStream, checked_video, reserved, read_camera_video_streams, find_allocated_live_view_stream,
}
use matter_winrt.Camera.Metadata.Streams.Listing.{listed_streams_differ}
use matter_winrt.Camera.Metadata.Streams.Options.{VideoRequest, video_snapshot, validate_video}
use matter_winrt.Camera.Metadata.Streams.Usable.{Fits, validated-Fits, All-found}
use matter_winrt.Camera.Metadata.Audio.{Staged, Feature}
use matter_winrt.Camera.Prepared.{
  Ending, deallocation_stage, selection_stage, canceled_error, unrecorded, recover, owning,
}
use matter_winrt.Camera.Prepared.Owned.{recover-ok}
use matter_winrt.Camera.Prepared.Video.{
  Dispatch, found_video, read_video_back, record_video, video_prepared,
  allocate_camera_video_stream,
}

find-stream :
    (live_view : ℕ) (streams : List VideoStream) (id : ℕ) (s : VideoStream)
    → find_allocated_live_view_stream live_view streams id ≡ some s
    → s.stream ≡ id
unfolding find_allocated_live_view_stream
find-stream live_view [] id s h = cc
find-stream live_view (x ∷ xs) id s h =
    elim (Bool-cases ((x.stream == id) && (x.usage == live_view))) [
      | inl q ↦ by (some-injective x s (rw q at h)) (ground arith)
      | inr q ↦ find-stream live_view xs id s (rw q at h)
    ]
  where
    by : x ≡ s → x.stream ≡ id → s.stream ≡ id
    by e m = subst (λ (y : VideoStream). y.stream ≡ id) e m

-- What is said of a stream that is returned.
abbrev pub Asked : VideoRequest → Ending VideoStream → VideoStream → Type 0
Asked r o s = Fits r s × (o.recorded ≡ some s.stream)

module _ {H F : Type 0} (same : H → H → Bool) (key : Key → H) (id : SdkId → ℕ) (bit : Feature → ℕ)
    (live_view : ℕ) (read : ℕ → SdkId → SdkId → Result Fault (Fields H F)) (endpoint : ℕ) where
  found-valid :
      (r : VideoRequest) (o : Option VideoStream) (c : Bool) (s : VideoStream)
      → found_video same key id bit live_view read endpoint r o c ≡ ok s
      → (o ≡ some s) × (validate_video live_view r s ≡ ok tt)
  unfolding found_video
  found-valid r none c s h = cc
  found-valid r (some y) c s h =
      let (u, v, k) = bind-ok (validate_video live_view r y) _ s h in by c v k
    where
      by :
          (b : Bool)
          → validate_video live_view r y ≡ ok tt
          → (if b then err canceled_error else ok y) ≡ ok s
          → (some y ≡ some s) × (validate_video live_view r s ≡ ok tt)
      by true v k = cc
      by false v k =
          subst (λ z. (some y ≡ some z) × (validate_video live_view r z ≡ ok tt)) (ok-injective k)
            (refl, v)

  abbrev Returns : VideoRequest → VideoStream → Ending VideoStream → Type 0
  Returns r s o = o.result ≡ ok s → Asked r o s

  -- Where the stream that is read back comes from.
  abbrev pub Found : VideoRequest → ℕ → VideoStream → Type 0
  Found r n s =
      (streams : List VideoStream) × (read_camera_video_streams same key read endpoint ≡ ok streams)
      × (find_allocated_live_view_stream live_view streams n ≡ some s)
      × (validate_video live_view r s ≡ ok tt)

  abbrev Answers : VideoRequest → ℕ → VideoStream → Staged VideoStream → Type 0
  Answers r n s t = t.1 ≡ ok s → Found r n s

  pub read_back-Found :
      (r : VideoRequest) (x : Dispatch H F) (g : Stage) (n : ℕ) (s : VideoStream)
      → (read_video_back same key id bit live_view read endpoint r x g n).1 ≡ ok s
      → Found r n s
  unfolding read_video_back
  read_back-Found r x g n s h = by x.canceled_recorded h
    where
      by :
          (b : Bool)
          → Answers r n s (
              if b then (g, err canceled_error) else (
                selection_stage,
                read_camera_video_streams same key read endpoint >>= λ streams.
                    found_video same key id bit live_view read endpoint r
                      (find_allocated_live_view_stream live_view streams n)
                      x.canceled_validated,
              ))
      by true k = cc
      by false k =
          let (streams, l, m) = bind-ok (read_camera_video_streams same key read endpoint) _ s k in
          let (f, v) =
            found-valid r (find_allocated_live_view_stream live_view streams n) x.canceled_validated
              s m in
          (streams, l, f, v)

  pub read_back-stream :
      (r : VideoRequest) (x : Dispatch H F) (g : Stage) (n : ℕ) (s : VideoStream)
      → (read_video_back same key id bit live_view read endpoint r x g n).1 ≡ ok s
      → s.stream ≡ n
  read_back-stream r x g n s h =
      let (streams, l, f, v) = read_back-Found r x g n s h in find-stream live_view streams n s f

  read_back-Asked :
      (r : VideoRequest) (x : Dispatch H F) (g : Stage) (n : ℕ) (s : VideoStream)
      → video_snapshot r ≡ ok r
      → (read_video_back same key id bit live_view read endpoint r x g n).1 ≡ ok s
      → Fits r s × (s.stream ≡ n)
  read_back-Asked r x g n s snapshot h =
      let (streams, l, f, v) = read_back-Found r x g n s h in
      let all = (listed_streams_differ same key read endpoint streams l).1 in
      (
        validated-Fits live_view r s snapshot
            (All-found (λ y. checked_video y ≡ ok y) live_view streams n s all f) v,
        find-stream live_view streams n s f,
      )

  record-Asked :
      (r : VideoRequest) (x : Dispatch H F) (g : Stage) (n : Result Fault ℕ) (s : VideoStream)
      → video_snapshot r ≡ ok r
      → (record_video same key id bit live_view read endpoint r x g n).result ≡ ok s
      → Asked r (record_video same key id bit live_view read endpoint r x g n) s
  unfolding record_video
  record-Asked r x g (err e) s snapshot h = cc
  record-Asked r x g (ok n) s snapshot h = by (n == reserved) h
    where
      kept :
          (t : Staged VideoStream)
          → Fits r s × (s.stream ≡ n)
          → (recover deallocation_stage x.release n t).result ≡ ok s
          → Asked r (recover deallocation_stage x.release n t) s
      kept (g, ok y) (w, e) k = (w, rw e refl)
      kept (g, err f) (w, e) k = absurd (no_result x.release k)
        where
          no_result :
              (q : Result Fault (Unit {0}))
              → (recover deallocation_stage q n (g, err f)).result ≡ ok s
              → ⊥
          no_result (ok u) k = cc
          no_result (err u) k = cc

      by :
          (b : Bool)
          → Returns r s (
              if b
              then unrecorded g bounds_error
              else recover deallocation_stage x.release n
                  (read_video_back same key id bit live_view read endpoint r x g n))
      by true k = cc
      by false k =
          kept (read_video_back same key id bit live_view read endpoint r x g n)
            (read_back-Asked r x g n s snapshot (recover-ok deallocation_stage x.release n _ s k)) k

  -- If an allocation of a video stream returns a stream, for a request that Snapshot accepts, its bounds
  -- lie within the request's and above 0, and it is the stream that was recorded.
  pub allocated_within_request :
      (is_operational : Bool) (r : VideoRequest) (x : Dispatch H F) (s : VideoStream)
      → video_snapshot r ≡ ok r
      → (allocate_camera_video_stream same key id bit live_view read endpoint is_operational r
          x).result
        ≡ ok s
      → Asked r
          (allocate_camera_video_stream same key id bit live_view read endpoint is_operational r x)
          s
  unfolding allocate_camera_video_stream
  allocated_within_request is_operational r x s snapshot h =
      prepared
        (video_prepared same key id bit live_view read endpoint is_operational x.canceled_before r)
        h
    where
      next : Fields H F → Ending VideoStream
      next response =
          record_video same key id bit live_view read endpoint r x x.invoked.0
            (camera_stream_field same key max_16 (number 0) (some response))

      invoked :
          (t : Staged (Fields H F)) → (owning t next).result ≡ ok s → Asked r (owning t next) s
      invoked (g, ok fields) k =
          record-Asked r x x.invoked.0
            (camera_stream_field same key max_16 (number 0) (some fields)) s snapshot k
      invoked (g, err e) k = cc

      prepared :
          (t : Staged (Unit {0}))
          → (owning t (λ _. owning x.invoked next)).result ≡ ok s
          → Asked r (owning t (λ _. owning x.invoked next)) s
      prepared (g, ok u) k = invoked x.invoked k
      prepared (g, err e) k = cc
