-- ===== src/Camera/Prepared/Session/Started.antt =====
-- What StartPreparedCamera and StartPreparedCameraSession of winrt/Projection.cpp promise of a session
-- that they start.
use matter_winrt.Base.{
  ℕ, ◌≡◌, refl, not, ◌&&◌, Bool, true, false, List, Option, some, if◌then◌else◌, Result, ok, err,
  ok-injective, ◌>>=◌, bind-ok,
}
use mathlib.Core.Path.{subst}
use matter_winrt.Tlv.{Fields}
use matter_winrt.Camera.Failure.{Stage}
use matter_winrt.Camera.Failure
use matter_winrt.Camera.Signaling.{Selection}
use matter_winrt.Camera.Metadata.{Fault, throws, Key}
use matter_winrt.Camera.Metadata.Descriptor.{SdkId, allocated_video_streams, read_camera_privacy}
use matter_winrt.Camera.Metadata.Audio.{offers, Staged, during, after, AudioCapabilities, Feature}
use matter_winrt.Camera.Metadata.Audio.Reading.{read_camera_audio_capabilities}
use matter_winrt.Camera.Prepared.{
  canceled_error, selection_stage, signaling_stage, session_end_stage,
}
use matter_winrt.Camera.Prepared.Owned.{recover-ok}
use matter_winrt.Camera.Prepared.Start.{
  Startup, Numbers, is_absent, explicit, check_video, check_audio,
}
use matter_winrt.Camera.Prepared.Session.{
  session_valid, audio_ready, video_ready, selections_ready, session_ready, session_started,
  start_selected, start_prepared_camera_session,
}
use matter_winrt.Camera.Prepared.Session.Privacy.{PrivacyOff, read_camera_privacy-PrivacyOff}
use matter_winrt.Camera.Prepared.Owned.{from_after, from_during, from_owning}

module _ {H F : Type 0} (same : H → H → Bool) (key : Key → H) (id : SdkId → ℕ) (bit : Feature → ℕ)
    (k : Numbers) (read read_next read_again : ℕ → SdkId → SdkId → Result Fault (Fields H F))
    (endpoint : ℕ) where
  -- The checks before the session is started.
  abbrev pub Before : Selection → Selection → AudioCapabilities → Type 0
  Before video audio c =
      PrivacyOff same key id read_next c.camera
      × (check_video same key id bit k read_next endpoint (explicit video) ≡ ok tt)
      × (check_audio same key id bit k read_next endpoint c (explicit audio) ≡ ok tt)

  selections-ok :
      (video audio : Selection) (c : AudioCapabilities) (u : Unit {0})
      → selections_ready same key id bit k read read_next read_again endpoint video audio c ≡ ok u
      → (check_video same key id bit k read_next endpoint (explicit video) ≡ ok tt)
        × (check_audio same key id bit k read_next endpoint c (explicit audio) ≡ ok tt)
  unfolding selections_ready
  selections-ok video audio c u h =
      by
        (not (is_absent video)
          && not (offers id bit c.camera.stream.attributes allocated_video_streams))
        h
    where
      by :
          (b : Bool)
          → (if b
              then err (throws Failure.Hresult.not_implemented)
              else (check_video same key id bit k read_next endpoint (explicit video) >>= λ _.
                  check_audio same key id bit k read_next endpoint c (explicit audio)))
            ≡ ok u
          → (check_video same key id bit k read_next endpoint (explicit video) ≡ ok tt)
            × (check_audio same key id bit k read_next endpoint c (explicit audio) ≡ ok tt)
      by true m = cc
      by false m =
          let (v, p, q) =
            bind-ok (check_video same key id bit k read_next endpoint (explicit video)) _ u m in
          (p, q)

  ready-ok :
      (video audio : Selection) (b : Bool) (c d : AudioCapabilities)
      → (session_ready same key id bit k read read_next read_again endpoint video audio b c).1
        ≡ ok d
      → (c ≡ d) × Before video audio c × (b ≡ false)
  unfolding session_ready
  ready-ok video audio b c d =
      from_after d
        (audio_ready same key id bit k read read_next read_again endpoint (is_absent audio) c) _
        (λ _ _.
          from_after d
            (video_ready same key id bit k read read_next read_again endpoint (is_absent video) c) _
            (λ _ _.
              from_during d Stage.privacy (read_camera_privacy same key id read_next c.camera) _
                (λ u p.
                  from_during d selection_stage
                    (selections_ready same key id bit k read read_next read_again endpoint video
                      audio c)
                    _
                    (λ v s.
                      let (m, n) = selections-ok video audio c v s in
                      last b (
                        read_camera_privacy-PrivacyOff same key id read_next c.camera u p,
                        m,
                        n,
                      )))))
    where
      ends : AudioCapabilities → Staged AudioCapabilities → Type 0
      ends e t = t.1 ≡ ok e

      last :
          (e : Bool)
          → Before video audio c
          → ends d (if e then (selection_stage, err canceled_error) else (selection_stage, ok c))
          → (c ≡ d) × Before video audio c × (e ≡ false)
      last true f h = cc
      last false f h = (ok-injective h, f, refl)

  abbrev pub After : AudioCapabilities → Startup → Type 0
  After c x =
      ((camera : Option ℕ × Option ℕ) × (x.selected ≡ ok camera)
        × (check_video same key id bit k read_again endpoint camera.0 ≡ ok tt)
        × (check_audio same key id bit k read_again endpoint c camera.1 ≡ ok tt))
      × PrivacyOff same key id read_again c.camera
      × (x.canceled_after ≡ false)

  started-ok :
      (c : AudioCapabilities) (x : Startup) (h n : ℕ)
      → (session_started same key id bit k read read_next read_again endpoint c x h).1 ≡ ok n
      → After c x
  unfolding session_started
  started-ok c x h n = from_during n selection_stage checks _ (λ u p.
      from_during n Stage.privacy (read_camera_privacy same key id read_again c.camera) _ (λ v q.
        last x.canceled_after refl (selected u p)
          (read_camera_privacy-PrivacyOff same key id read_again c.camera v q)))
    where
      checks : Result Fault (Unit {0})
      checks = x.selected >>= λ s. check_video same key id bit k read_again endpoint s.0 >>= λ _.
          check_audio same key id bit k read_again endpoint c s.1

      Selected : Type 0
      Selected =
          (camera : Option ℕ × Option ℕ) × (x.selected ≡ ok camera)
          × (check_video same key id bit k read_again endpoint camera.0 ≡ ok tt)
          × (check_audio same key id bit k read_again endpoint c camera.1 ≡ ok tt)

      selected : (u : Unit {0}) → checks ≡ ok u → Selected
      selected u p =
          let (s, e, m) = bind-ok x.selected _ u p in
          let (v, f, g) = bind-ok (check_video same key id bit k read_again endpoint s.0) _ u m in
          (s, e, f, g)

      ends : Staged ℕ → Type 0
      ends t = t.1 ≡ ok n

      last :
          (b : Bool)
          → x.canceled_after ≡ b
          → Selected
          → PrivacyOff same key id read_again c.camera
          → ends (if b then (Stage.privacy, err canceled_error) else (Stage.privacy, ok h))
          → After c x
      last true q f g m = cc
      last false q f g m = (f, g, q)

  -- If the start of a session with selections returns one: with the capabilities that it read from the
  -- camera, each privacy attribute that the camera has was read as off before the session was started
  -- and again after it, the streams that the selections name were valid before, those that the camera
  -- has selected were valid after, and no cancellation was seen.
  pub started_session_checked :
      (is_operational : Bool) (video audio : Selection) (sdp : List ℕ) (x : Startup) (handle : ℕ)
      → (start_prepared_camera_session same key id bit k read read_next read_again endpoint
          is_operational
          (some video)
          (some audio)
          sdp
          x).result
        ≡ ok handle
      → (c : AudioCapabilities) × ((read_camera_audio_capabilities same key id bit read endpoint
            is_operational).1
          ≡ ok c)
        × Before video audio c
        × (x.canceled_before ≡ false)
        × After c x
  unfolding start_prepared_camera_session start_selected
  started_session_checked is_operational video audio sdp x handle =
      from_owning handle valid _ (λ _ _. from_owning handle ready _ (λ c r.
        from_owning handle (signaling_stage, x.started) _
          (λ n _ h. (
            c,
            (ready-Before c r).0,
            (ready-Before c r).1,
            (ready-Before c r).2,
            started-ok c x n handle (
                recover-ok session_end_stage x.release n
                  (session_started same key id bit k read read_next read_again endpoint c x n)
                  handle h),
          ))))
    where
      valid : Staged (Unit {0})
      valid =
          if session_valid same key id bit k read read_next read_again endpoint is_operational
            (some video) (some audio) sdp
          then (Stage.validation, ok tt)
          else (Stage.validation, err (throws Failure.Hresult.invalid_argument))

      ready : Staged AudioCapabilities
      ready = during Stage.validation x.enabled (λ _.
          after (read_camera_audio_capabilities same key id bit read endpoint is_operational) (
            session_ready same key id bit k read read_next read_again endpoint video audio
              x.canceled_before))

      Prepared : AudioCapabilities → Type 0
      Prepared c =
          ((read_camera_audio_capabilities same key id bit read endpoint is_operational).1 ≡ ok c)
          × Before video audio c
          × (x.canceled_before ≡ false)

      ready-Before : (c : AudioCapabilities) → ready.1 ≡ ok c → Prepared c
      ready-Before c = from_during c Stage.validation x.enabled _ (λ _ _.
          from_after c (read_camera_audio_capabilities same key id bit read endpoint is_operational)
            _
            (λ d r h.
              let (e, f, g) = ready-ok video audio x.canceled_before d c h in
              subst Prepared e (r, f, g)))
