-- ===== src/Camera/Metadata/Audio/Tests.antt =====
-- The audio of a camera of concrete answers, and its controls.
use matter_winrt.Base.{ℕ, ◌≡◌, ◌↔◌, refl, true, false, [], ◌∷◌, some, ok, err}
use matter_winrt.Tlv.{uint8, property, no_fields, field}
use matter_winrt.Camera.Failure.{Stage}
use matter_winrt.Camera.Failure
use matter_winrt.Camera.Metadata.{throws, value}
use matter_winrt.Camera.Metadata.Descriptor.{speaker_volume_level, ClusterCapabilities}
use matter_winrt.Camera.Metadata.Audio.{
  AudioFormat, AudioSide, AudioCapabilities, is_camera_audio_adapter,
}
use matter_winrt.Camera.Metadata.Audio.Reading.{read_camera_audio_capabilities}
use matter_winrt.Camera.Metadata.Audio.Control.{
  camera_audio_control_arguments, Writes, control_iff_Allowed, write_camera_audio_control,
}
use matter_winrt.Camera.Metadata.Sample.{same, key, id, bit, camera}

-- A volume above the maximum is refused.
volume_run :
    (write_camera_audio_control same key id bit camera 1
      (λ cluster attribute fields. ok tt)
      true
      true
      true
      10).1
    ≡ err (throws Failure.Hresult.invalid_argument)
unfolding write_camera_audio_control
volume_run = refl

abbrev format : AudioFormat
format = record { channels = 2; codecs = 0 ∷ []; rates = 48000 ∷ []; depths = 16 ∷ [] }

abbrev audio_side : AudioSide
audio_side = record {
  format = some format;
  muted = some false;
  volume = some 5;
  minimum = some 1;
  maximum = some 9;
}

abbrev cluster : ℕ → ClusterCapabilities
cluster n = record {
  cluster = n;
  revision = 2;
  features = 7;
  attributes = 29 ∷ [];
  accepted = 29 ∷ [];
  generated = 29 ∷ [];
}

abbrev capabilities : AudioCapabilities
capabilities = record {
  camera = record {
    descriptor = record {
      endpoint = 1;
      parts = [];
      servers = 1361 ∷ 1363 ∷ [];
      clients = 1364 ∷ [];
      types = record { device_type = 322; revision = 1 } ∷ [];
    };
    stream = cluster 1361;
    transport = cluster 1363;
  };
  microphone = audio_side;
  speaker = audio_side;
  talk = some 1;
  bandwidth = 1000000;
  privacy = false;
}

capabilities_run :
    read_camera_audio_capabilities same key id bit camera 1 true ≡ (Stage.privacy, ok capabilities)
unfolding read_camera_audio_capabilities
capabilities_run = refl

control_iff_Allowed_example :
    (camera_audio_control_arguments id bit {F = ℕ} key capabilities true true 7
      ≡ ok (speaker_volume_level, field (key value) (property (uint8 7)) no_fields))
    ↔ ((is_camera_audio_adapter id bit capabilities.camera ≡ true)
        × Writes {F = ℕ} key capabilities true true 7 speaker_volume_level
            (field (key value) (property (uint8 7)) no_fields))
control_iff_Allowed_example =
    control_iff_Allowed id bit {F = ℕ} key capabilities true true 7 speaker_volume_level
      (field (key value) (property (uint8 7)) no_fields)
