-- ===== src/Camera/Prepared/Session/Privacy.antt =====
-- What ReadCameraPrivacy of winrt/Projection.cpp has read where it does not throw.
use matter_winrt.Base.{
  ℕ, ◌≡◌, Bool, true, false, if◌then◌else◌, Result, ok, err, ok-injective, bind-ok,
}
use matter_winrt.Tlv.{Fields}
use matter_winrt.Camera.Failure.{Stage}
use matter_winrt.Camera.Failure
use matter_winrt.Camera.Metadata.{Fault, throws, Key, advertises, boolean_scalar}
use matter_winrt.Camera.Metadata.Descriptor.{
  SdkId, CameraCapabilities, camera_av_stream_management, hard_privacy_mode_on,
  soft_livestream_privacy_mode_enabled, privacy_attribute, camera_privacy_enabled,
  read_camera_privacy,
}

module _ {H F : Type 0} (same : H → H → Bool) (key : Key → H) (id : SdkId → ℕ) where
  -- The camera does not have the attribute, or has answered that it is off.
  abbrev pub AnswersOff :
      (ℕ → SdkId → SdkId → Result Fault (Fields H F)) → CameraCapabilities → SdkId → Type 0
  AnswersOff reading c a =
      advertises c.stream.attributes (id a) ≡ true
      → (v : Fields H F) × (reading c.descriptor.endpoint camera_av_stream_management a ≡ ok v)
        × (boolean_scalar same key v ≡ ok false)

  abbrev pub PrivacyOff :
      (ℕ → SdkId → SdkId → Result Fault (Fields H F)) → CameraCapabilities → Type 0
  PrivacyOff reading c =
      AnswersOff reading c hard_privacy_mode_on
      × AnswersOff reading c soft_livestream_privacy_mode_enabled

  privacy_attribute-AnswersOff :
      (reading : ℕ → SdkId → SdkId → Result Fault (Fields H F)) (c : CameraCapabilities) (a : SdkId)
      → privacy_attribute same key id reading c.descriptor.endpoint c.stream.attributes a ≡ ok false
      → AnswersOff reading c a
  unfolding privacy_attribute
  privacy_attribute-AnswersOff reading c a h q =
      bind-ok (reading c.descriptor.endpoint camera_av_stream_management a)
        (boolean_scalar same key) false (rw q at h)

  enabled-PrivacyOff :
      (reading : ℕ → SdkId → SdkId → Result Fault (Fields H F)) (c : CameraCapabilities)
      → camera_privacy_enabled same key id reading c.descriptor.endpoint c.stream.attributes
        ≡ ok false
      → PrivacyOff reading c
  unfolding camera_privacy_enabled
  enabled-PrivacyOff reading c h =
      let (on, e, m) =
        bind-ok
          (privacy_attribute same key id reading c.descriptor.endpoint c.stream.attributes
            hard_privacy_mode_on)
          _ false h in
      by on e m
    where
      by :
          (on : Bool)
          → privacy_attribute same key id reading c.descriptor.endpoint c.stream.attributes
              hard_privacy_mode_on
            ≡ ok on
          → (if on
              then ok true
              else privacy_attribute same key id reading c.descriptor.endpoint c.stream.attributes
                  soft_livestream_privacy_mode_enabled)
            ≡ ok false
          → PrivacyOff reading c
      by true e m = absurd (cc (ok-injective m))
      by false e m = (
        privacy_attribute-AnswersOff reading c hard_privacy_mode_on e,
        privacy_attribute-AnswersOff reading c soft_livestream_privacy_mode_enabled m,
      )

  pub read_camera_privacy-PrivacyOff :
      (reading : ℕ → SdkId → SdkId → Result Fault (Fields H F)) (c : CameraCapabilities)
      (u : Unit {0})
      → read_camera_privacy same key id reading c ≡ ok u
      → PrivacyOff reading c
  unfolding read_camera_privacy
  read_camera_privacy-PrivacyOff reading c u h =
      let (b, e, m) =
        bind-ok
          (camera_privacy_enabled same key id reading c.descriptor.endpoint c.stream.attributes) _ u
          h in
      by b e m
    where
      by :
          (b : Bool)
          → camera_privacy_enabled same key id reading c.descriptor.endpoint c.stream.attributes
            ≡ ok b
          → (if b then err (throws Failure.Hresult.access_denied) else ok tt) ≡ ok u
          → PrivacyOff reading c
      by true e m = cc
      by false e m = enabled-PrivacyOff reading c e
