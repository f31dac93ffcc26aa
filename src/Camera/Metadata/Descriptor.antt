-- ===== src/Camera/Metadata/Descriptor.antt =====
-- winrt/Projection.cpp, ReadEndpointDescriptor, HasCameraClusters, ReadCameraClusterCapabilities,
-- ReadCameraCapabilities and CameraPrivacyEnabled. `read` is ReadAttribute of one node, by endpoint,
-- cluster and attribute: what each read of this operation returns.
use matter_winrt.Base.{
  ℕ, ◌-◌, ◌^◌, ◌==◌, ◌&&◌, Bool, true, false, List, [], ◌∷◌, Option, none, some, if◌then◌else◌,
  Result, ok, err, ◌>>=◌,
}
use matter_winrt.Tlv.{Items, no_items, item, Fields}
use matter_winrt.Camera.Failure
use matter_winrt.Camera.Metadata.{
  Fault, null_dereference, throws, bounds_error, Key, value, number, has_key, advertises,
  as_property_set, unsigned_at, descriptor_list, descriptor_numeric_list, boolean_scalar,
}

-- The identifiers of the SDK that the camera code names: clusters, attributes and commands.
pub data SdkId : Type 0 where
  descriptor camera_av_stream_management webrtc_provider webrtc_requestor : SdkId
  parts_list server_list client_list device_type_list : SdkId
  cluster_revision feature_map attribute_list : SdkId
  accepted_command_list generated_command_list : SdkId
  hard_privacy_mode_on soft_livestream_privacy_mode_enabled : SdkId
  allocated_video_streams allocated_audio_streams : SdkId
  microphone_capabilities speaker_capabilities two_way_talk_support : SdkId
  microphone_muted microphone_volume_level microphone_min_level microphone_max_level : SdkId
  speaker_muted speaker_volume_level speaker_min_level speaker_max_level : SdkId
  supported_stream_usages max_network_bandwidth : SdkId
  video_sensor_params min_viewport_resolution : SdkId
  video_stream_allocate video_stream_deallocate video_stream_allocate_response : SdkId
  audio_stream_allocate audio_stream_deallocate audio_stream_allocate_response : SdkId
  provide_offer provide_ice_candidates end_session provide_offer_response : SdkId

pub record DeviceType : Type 0 where
  pub device_type : ℕ
  pub revision : ℕ

pub record Descriptor : Type 0 where
  pub endpoint : ℕ
  pub parts : List ℕ
  pub servers : List ℕ
  pub clients : List ℕ
  pub types : List DeviceType

pub record ClusterCapabilities : Type 0 where
  pub cluster : ℕ
  pub revision : ℕ
  pub features : ℕ
  pub attributes : List ℕ
  pub accepted : List ℕ
  pub generated : List ℕ

pub record CameraCapabilities : Type 0 where
  pub descriptor : Descriptor
  pub stream : ClusterCapabilities
  pub transport : ClusterCapabilities

abbrev pub max_8 : ℕ
max_8 = 2 ^ 8 - 1

abbrev pub max_16 : ℕ
max_16 = 2 ^ 16 - 1

abbrev pub max_32 : ℕ
max_32 = 2 ^ 32 - 1

-- kInvalidEndpointId and kRootEndpointId.
abbrev pub invalid_endpoint : ℕ
invalid_endpoint = 65535

abbrev pub root_endpoint : ℕ
root_endpoint = 0

module _ {H F : Type 0} (same : H → H → Bool) (key : Key → H) where
  -- One entry of the device type list; HasKey on a null property set dereferences null.
  unfoldable pub device_type_entry : Option (Fields H F) → Result Fault DeviceType
  unfolding has_key unsigned_at
  device_type_entry none = err null_dereference
  device_type_entry (some fields) =
      if has_key same key (number 0) fields && has_key same key (number 1) fields
      then (unsigned_at same key max_32 (number 0) fields >>= λ type.
          unsigned_at same key max_16 (number 1) fields >>= λ revision.
          if revision == 0
          then err bounds_error
          else ok (record { device_type = type; revision = revision }))
      else err bounds_error

  unfoldable pub device_types : Items H F → Result Fault (List DeviceType)
  unfolding device_type_entry as_property_set
  device_types no_items = ok []
  device_types (item v rest) =
      let later = device_types rest in
      as_property_set v >>= device_type_entry >>= λ t. later >>= λ ts. ok (t ∷ ts)

module _ (id : SdkId → ℕ) where
  unfoldable pub has_camera_clusters : Descriptor → Bool
  unfolding advertises
  has_camera_clusters d =
      advertises d.servers (id camera_av_stream_management)
      && advertises d.servers (id webrtc_provider)

module _ {H F : Type 0} (same : H → H → Bool) (key : Key → H) (id : SdkId → ℕ)
    (read : ℕ → SdkId → SdkId → Result Fault (Fields H F)) where
  unfoldable pub numeric_attribute : ℕ → ℕ → SdkId → SdkId → Result Fault (List ℕ)
  unfolding descriptor_numeric_list
  numeric_attribute max endpoint cluster attribute = read endpoint cluster attribute >>= λ fields.
      descriptor_numeric_list same key max (some fields)

  unfoldable pub read_endpoint_descriptor : ℕ → Result Fault Descriptor
  unfolding numeric_attribute descriptor_list device_types
  read_endpoint_descriptor endpoint =
      numeric_attribute max_16 endpoint descriptor parts_list >>= λ parts.
      numeric_attribute max_32 endpoint descriptor server_list >>= λ servers.
      numeric_attribute max_32 endpoint descriptor client_list >>= λ clients.
      read endpoint descriptor device_type_list
      >>= (λ fields. descriptor_list same key (some fields))
      >>= device_types same key
      >>= λ types. ok (record {
        endpoint = endpoint;
        parts = parts;
        servers = servers;
        clients = clients;
        types = types;
      })

  -- The constructor of MatterCameraClusterCapabilities.
  unfoldable pub cluster_capabilities : ClusterCapabilities → Result Fault ClusterCapabilities
  cluster_capabilities c = if c.revision == 0 then err bounds_error else ok c

  -- The two numbers are looked up after the five reads, the revision first: C++ leaves that order open.
  unfoldable pub read_camera_cluster_capabilities : ℕ → SdkId → Result Fault ClusterCapabilities
  unfolding numeric_attribute unsigned_at cluster_capabilities
  read_camera_cluster_capabilities endpoint cluster =
      read endpoint cluster cluster_revision >>= λ revisions.
      read endpoint cluster feature_map >>= λ features.
      numeric_attribute max_32 endpoint cluster attribute_list >>= λ attributes.
      numeric_attribute max_32 endpoint cluster accepted_command_list >>= λ accepted.
      numeric_attribute max_32 endpoint cluster generated_command_list >>= λ generated.
      unsigned_at same key max_16 value revisions >>= λ revision.
      unsigned_at same key max_32 value features >>= λ map. cluster_capabilities (record {
        cluster = id cluster;
        revision = revision;
        features = map;
        attributes = attributes;
        accepted = accepted;
        generated = generated;
      })

  unfoldable pub read_camera_capabilities : Descriptor → Result Fault CameraCapabilities
  unfolding has_camera_clusters read_camera_cluster_capabilities
  read_camera_capabilities d =
      if has_camera_clusters id d
      then (read_camera_cluster_capabilities d.endpoint camera_av_stream_management >>= λ stream.
          read_camera_cluster_capabilities d.endpoint webrtc_provider >>= λ transport.
          ok (record { descriptor = d; stream = stream; transport = transport }))
      else err (throws Failure.Hresult.not_implemented)

  -- One attribute of the loop; what is not advertised is not read.
  unfoldable pub privacy_attribute : ℕ → List ℕ → SdkId → Result Fault Bool
  unfolding advertises boolean_scalar
  privacy_attribute endpoint attributes attribute =
      if advertises attributes (id attribute)
      then read endpoint camera_av_stream_management attribute >>= boolean_scalar same key
      else ok false

  -- The second attribute is read only if the first is not on.
  unfoldable pub camera_privacy_enabled : ℕ → List ℕ → Result Fault Bool
  unfolding privacy_attribute
  camera_privacy_enabled endpoint attributes =
      privacy_attribute endpoint attributes hard_privacy_mode_on >>= λ hard.
      if hard
      then ok true
      else privacy_attribute endpoint attributes soft_livestream_privacy_mode_enabled

  -- ReadCameraPrivacy.
  unfoldable pub read_camera_privacy : CameraCapabilities → Result Fault (Unit {0})
  unfolding camera_privacy_enabled
  read_camera_privacy c = camera_privacy_enabled c.descriptor.endpoint c.stream.attributes >>= λ on.
      if on then err (throws Failure.Hresult.access_denied) else ok tt
