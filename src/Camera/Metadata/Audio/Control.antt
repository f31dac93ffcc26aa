-- ===== src/Camera/Metadata/Audio/Control.antt =====
-- winrt/Projection.cpp, CameraAudioControlArguments and WriteCameraAudioControl: the write that sets a
-- mute or a volume, and that it keeps to what the camera advertises.
use matter_winrt.Base.{
  ℕ, ◌≤◌, ◌↔◌, ltb, ◌==◌, ◌||◌, ◌&&◌, ◌≡◌, refl, not, Bool, true, false, Option, none, some,
  if◌then◌else◌, Result, ok, err, ◌>>=◌, is_some, arith, ok-injective, ap, sym,
}
use mathlib.Core.Path.{subst}
use matter_winrt.Tlv.{Property, boolean, uint8, property, Fields, no_fields, field}
use matter_winrt.Camera.Failure.{Stage}
use matter_winrt.Camera.Failure
use matter_winrt.Camera.Metadata.{Fault, throws, bounds_error, Key, value}
use matter_winrt.Camera.Metadata.Descriptor.{
  SdkId, camera_av_stream_management, microphone_muted, microphone_volume_level, speaker_muted,
  speaker_volume_level,
}
use matter_winrt.Camera.Metadata.Audio.{
  Staged, after, AudioFormat, AudioSide, AudioCapabilities, Feature, require_camera_audio_adapter,
  is_camera_audio_adapter,
}
use matter_winrt.Camera.Metadata.Audio.Reading.{read_camera_audio_capabilities}

abbrev pub side : Bool → AudioCapabilities → AudioSide
side speaker c = if speaker then c.speaker else c.microphone

abbrev pub control_attribute : Bool → Bool → SdkId
control_attribute speaker volume =
    if volume
    then if speaker then speaker_volume_level else microphone_volume_level
    else if speaker
    then speaker_muted
    else microphone_muted

-- The checks of a volume: of its level, its minimum and its maximum.
unfoldable pub volume_allowed : Option ℕ → Option ℕ → Option ℕ → ℕ → Result Fault (Unit {0})
volume_allowed (some level) (some low) (some high) n =
    if ltb high low || ltb level low || ltb high level
    then err bounds_error
    else if ltb n low || ltb high n
    then err (throws Failure.Hresult.invalid_argument)
    else ok tt
volume_allowed _ _ _ n = err (throws Failure.Hresult.not_implemented)

-- The checks of a mute: 0 is to unmute.
unfoldable pub mute_allowed : Bool → Option Bool → ℕ → Result Fault (Unit {0})
mute_allowed privacy none n = err (throws Failure.Hresult.not_implemented)
mute_allowed privacy (some muted) n =
    if (n == 0) && privacy then err (throws Failure.Hresult.access_denied) else ok tt

unfoldable pub control_allowed : Bool → Bool → AudioSide → ℕ → Result Fault (Unit {0})
unfolding volume_allowed mute_allowed
control_allowed privacy volume s n = elim s.format [
  | none ↦ err (throws Failure.Hresult.not_implemented)
  | some f ↦
      if volume
      then volume_allowed s.volume s.minimum s.maximum n
      else mute_allowed privacy s.muted n
]

module _ (id : SdkId → ℕ) (bit : Feature → ℕ) {H F : Type 0} (key : Key → H) where
  abbrev pub control_data : Bool → ℕ → Fields H F
  control_data volume n =
      field (key value) (property (if volume then uint8 n else boolean (not (n == 0)))) no_fields

  unfoldable pub camera_audio_control_arguments :
      AudioCapabilities → Bool → Bool → ℕ → Result Fault (SdkId × Fields H F)
  unfolding require_camera_audio_adapter control_allowed
  camera_audio_control_arguments c speaker volume n =
      require_camera_audio_adapter id bit c.camera >>= λ _.
      control_allowed c.privacy volume (side speaker c) n >>= λ _.
      ok (control_attribute speaker volume, control_data volume n)

-- `write` is WriteAttribute of the endpoint, by cluster and attribute.
module _ {H F : Type 0} (same : H → H → Bool) (key : Key → H) (id : SdkId → ℕ) (bit : Feature → ℕ)
    (read : ℕ → SdkId → SdkId → Result Fault (Fields H F)) (endpoint : ℕ)
    (write : SdkId → SdkId → Fields H F → Result Fault (Unit {0})) where
  unfoldable pub write_camera_audio_control : Bool → Bool → Bool → ℕ → Staged (Unit {0})
  unfolding read_camera_audio_capabilities camera_audio_control_arguments
  write_camera_audio_control is_operational speaker volume n =
      after (read_camera_audio_capabilities same key id bit read endpoint is_operational) (λ c. (
        Stage.privacy,
        camera_audio_control_arguments id bit key c speaker volume n >>= λ a.
            write camera_av_stream_management a.0 a.1,
      ))

-- What a volume may be set to; what a mute may be set to, `false` to unmute.
abbrev pub VolumeInRange : Option ℕ → Option ℕ → Option ℕ → ℕ → Type 0
VolumeInRange (some level) (some low) (some high) n =
    (low ≤ level) × (level ≤ high) × (low ≤ n) × (n ≤ high)
VolumeInRange _ _ _ n = ⊥

abbrev pub MuteAllowed : Bool → Option Bool → Bool → Type 0
MuteAllowed privacy none muted = ⊥
MuteAllowed privacy (some now) muted = muted ≡ false → privacy ≡ false

volume_iff :
    (level low high : Option ℕ) (n : ℕ)
    → (volume_allowed level low high n ≡ ok tt) ↔ VolumeInRange level low high n
unfolding volume_allowed
volume_iff (some level) (some low) (some high) n = ground arith
volume_iff none low high n = ground arith
volume_iff (some level) none high n = ground arith
volume_iff (some level) (some low) none n = ground arith

mute_iff :
    (privacy : Bool) (muted : Option Bool) (n : ℕ)
    → (mute_allowed privacy muted n ≡ ok tt) ↔ MuteAllowed privacy muted (not (n == 0))
unfolding mute_allowed
mute_iff privacy none n = ground arith
mute_iff privacy (some muted) n = ground arith

-- What a control writes: the attribute of its side, with a volume of 8 bits or with a mute, where the
-- camera has a format on that side and the value is allowed there.
module _ {H F : Type 0} (key : Key → H) where
  abbrev pub Sets : SdkId → Property H F → SdkId → Fields H F → Type 0
  Sets i x a d = (a ≡ i) × (d ≡ field (key value) (property x) no_fields)

  abbrev pub VolumeWritten : AudioSide → SdkId → ℕ → SdkId → Fields H F → Type 0
  VolumeWritten s i n a d =
      Sets i (uint8 n) a d
      × ((is_some s.format ≡ true) × VolumeInRange s.volume s.minimum s.maximum n)

  abbrev pub MuteSet : Bool → AudioSide → SdkId → SdkId → Fields H F → Bool → Type 0
  MuteSet privacy s i a d muted =
      Sets i (boolean muted) a d × ((is_some s.format ≡ true) × MuteAllowed privacy s.muted muted)

  abbrev pub MuteWritten : Bool → AudioSide → SdkId → ℕ → SdkId → Fields H F → Type 0
  MuteWritten privacy s i n a d =
      (muted : Bool) × ((muted ≡ false ↔ n ≡ 0) × MuteSet privacy s i a d muted)

  abbrev pub Writes : AudioCapabilities → Bool → Bool → ℕ → SdkId → Fields H F → Type 0
  Writes c true true n a d = VolumeWritten c.speaker speaker_volume_level n a d
  Writes c false true n a d = VolumeWritten c.microphone microphone_volume_level n a d
  Writes c true false n a d = MuteWritten c.privacy c.speaker speaker_muted n a d
  Writes c false false n a d = MuteWritten c.privacy c.microphone microphone_muted n a d

allowed_iff :
    (privacy volume : Bool) (s : AudioSide) (n : ℕ) (o : Option AudioFormat) {P : Type 0}
    → ((if volume
          then volume_allowed s.volume s.minimum s.maximum n
          else mute_allowed privacy s.muted n)
        ≡ ok tt)
      ↔ P
    → ((elim o [
      | none ↦ err (throws Failure.Hresult.not_implemented)
      | some f ↦
          if volume
          then volume_allowed s.volume s.minimum s.maximum n
          else mute_allowed privacy s.muted n
    ])
        ≡ ok tt)
      ↔ ((is_some o ≡ true) × P)
allowed_iff privacy volume s n none h = (λ q. absurd (cc), λ q. absurd (cc))
allowed_iff privacy volume s n (some f) h = (λ q. (refl, h.0 q), λ q. h.1 q.1)

-- Two checks, and what is returned after them.
checked_iff :
    {A : Type 0} (p q : Result Fault (Unit {0})) (x y : A)
    → ((p >>= λ _. q >>= λ _. ok x) ≡ ok y) ↔ ((p ≡ ok tt) × (q ≡ ok tt) × (x ≡ y))
checked_iff (ok u) (ok v) x y = (λ h. (refl, refl, ok-injective h), λ h. ap ok h.2)
checked_iff (err e) q x y = (λ h. absurd (cc), λ h. absurd (cc))
checked_iff (ok u) (err e) x y = (λ h. absurd (cc), λ h. absurd (cc))

adapter_iff :
    (id : SdkId → ℕ) (bit : Feature → ℕ) (c : AudioCapabilities)
    → (require_camera_audio_adapter id bit c.camera ≡ ok tt)
      ↔ (is_camera_audio_adapter id bit c.camera ≡ true)
unfolding require_camera_audio_adapter
adapter_iff id bit c = ground arith

module _ (id : SdkId → ℕ) (bit : Feature → ℕ) {H F : Type 0} (key : Key → H) where
  abbrev written : SdkId → Property H F → SdkId × Fields H F
  written i x = (i, field (key value) (property x) no_fields)

  -- What is returned behind the two checks.
  written_iff :
      (c : AudioCapabilities) (q : Result Fault (Unit {0})) {P : Type 0} (i : SdkId)
      (x : Property H F) (a : SdkId) (d : Fields H F)
      → (q ≡ ok tt) ↔ P
      → ((require_camera_audio_adapter id bit c.camera >>= λ _. q >>= λ _. ok (written i x))
          ≡ ok (a, d))
        ↔ ((is_camera_audio_adapter id bit c.camera ≡ true) × (Sets key i x a d × P))
  written_iff c q i x a d w =
      let k = checked_iff (require_camera_audio_adapter id bit c.camera) q (written i x) (a, d) in
      let z = adapter_iff id bit c in
      (
        λ h.
            let (p, r, e) = k.0 h in
            let l = sym (ap (λ (t : SdkId × Fields H F). t.0) e) in
            let m = sym (ap (λ (t : SdkId × Fields H F). t.1) e) in (z.0 p, ((l, m), w.0 r)),
        λ h. k.1 (z.1 h.0, w.1 h.1.1, rw (h.1.0.0, h.1.0.1) refl),
      )

  volume_written :
      (c : AudioCapabilities) (s : AudioSide) (i : SdkId) (n : ℕ) (a : SdkId) (d : Fields H F)
      → ((require_camera_audio_adapter id bit c.camera >>= λ _.
            control_allowed c.privacy true s n >>= λ _. ok (written i (uint8 n)))
          ≡ ok (a, d))
        ↔ ((is_camera_audio_adapter id bit c.camera ≡ true) × VolumeWritten key s i n a d)
  unfolding control_allowed
  volume_written c s i n a d =
      written_iff c (control_allowed c.privacy true s n) i (uint8 n) a d
        (allowed_iff c.privacy true s n s.format (volume_iff s.volume s.minimum s.maximum n))

  mute_written :
      (c : AudioCapabilities) (s : AudioSide) (i : SdkId) (n : ℕ) (a : SdkId) (d : Fields H F)
      → ((require_camera_audio_adapter id bit c.camera >>= λ _.
            control_allowed c.privacy false s n >>= λ _. ok (written i (boolean (not (n == 0)))))
          ≡ ok (a, d))
        ↔ ((is_camera_audio_adapter id bit c.camera ≡ true) × MuteWritten key c.privacy s i n a d)
  unfolding control_allowed
  mute_written c s i n a d =
      let k =
        written_iff c (control_allowed c.privacy false s n) i (boolean (not (n == 0))) a d
          (allowed_iff c.privacy false s n s.format (mute_iff c.privacy s.muted n)) in
      (
        λ h. let (p, q) = k.0 h in (p, (not (n == 0), (zero_iff (not (n == 0)) refl, q))),
        λ h. k.1 (h.0, chosen h.1.0 h.1.1.0 h.1.1.1),
      )
    where
      zero_iff : (m : Bool) → not (n == 0) ≡ m → (m ≡ false ↔ n ≡ 0)
      zero_iff m q = ground arith

      same : (m : Bool) → (m ≡ false ↔ n ≡ 0) → m ≡ not (n == 0)
      same true e = ground arith
      same false e = ground arith

      chosen :
          (m : Bool)
          → (m ≡ false ↔ n ≡ 0)
          → MuteSet key c.privacy s i a d m
          → MuteSet key c.privacy s i a d (not (n == 0))
      chosen m e h = subst (MuteSet key c.privacy s i a d) (same m e) h

  -- A control is written exactly if the camera has the audio adapter and a format on that side, and what
  -- is written, to the attribute of that side, is allowed: a volume between the minimum and the maximum,
  -- between which the level lies too; a mute where the camera has one, off exactly for the value 0, and
  -- never off while the camera's privacy is on.
  pub control_iff_Allowed :
      (c : AudioCapabilities) (speaker volume : Bool) (n : ℕ) (a : SdkId) (d : Fields H F)
      → (camera_audio_control_arguments id bit key c speaker volume n ≡ ok (a, d))
        ↔ ((is_camera_audio_adapter id bit c.camera ≡ true) × Writes key c speaker volume n a d)
  unfolding camera_audio_control_arguments
  control_iff_Allowed c true true n a d = volume_written c c.speaker speaker_volume_level n a d
  control_iff_Allowed c false true n a d =
      volume_written c c.microphone microphone_volume_level n a d
  control_iff_Allowed c true false n a d = mute_written c c.speaker speaker_muted n a d
  control_iff_Allowed c false false n a d = mute_written c c.microphone microphone_muted n a d
