-- ===== src/Camera/Discovery/Tests.antt =====
-- DiscoverCameraEndpoints on a node of concrete endpoints.
use matter_winrt.Base.{
  ℕ, zero, suc, ◌≤◌, ◌≡◌, ◌↔◌, ◌⊎◌, refl, ◌==◌, Bool, true, false, List, [], ◌∷◌, length, some,
  Result, ok, err,
}
use matter_winrt.Tlv.{
  uint64, Value, property, vector, property_set, Items, no_items, item, Fields, no_fields, field,
}
use matter_winrt.Camera.Metadata.{Fault, null_dereference, Key, value, number}
use matter_winrt.Camera.Metadata.Descriptor.{
  SdkId, camera_av_stream_management, webrtc_provider, parts_list, server_list, client_list,
  Descriptor, device_types, read_endpoint_descriptor,
}
use matter_winrt.Camera.Discovery.{Found, discover_from, root, discover_camera_endpoints}
use matter_winrt.Camera.Discovery.Members.{◌∈◌, Unrepeated}
use matter_winrt.Camera.Discovery.Reaching.{Reachable, IsCamera, Reason}
use matter_winrt.Camera.Discovery.Cameras.{
  endpoints_visited_once, discovery_returns, cameras_iff_reachable,
}

-- Keys as numbers: L"value" is 0.
abbrev key : Key → ℕ
key value = 0
key (number n) = suc n

abbrev same : ℕ → ℕ → Bool
same a b = a == b

abbrev id : SdkId → ℕ
id camera_av_stream_management = 1361
id webrtc_provider = 1363
id _ = 29

abbrev items : List ℕ → Items ℕ ℕ
items [] = no_items
items (n ∷ ns) = item (property (uint64 n)) (items ns)

abbrev device_type_value : Value ℕ ℕ
device_type_value =
    property_set (field 1 (property (uint64 322)) (field 2 (property (uint64 1)) no_fields))

abbrev data_of : Items ℕ ℕ → Fields ℕ ℕ
data_of xs = field 0 (vector xs) no_fields

-- The root has the endpoints 1 and 2; 2 has 1 and 3, and 3 has the root.
abbrev parts_of : ℕ → List ℕ
parts_of zero = 1 ∷ 2 ∷ []
parts_of (suc zero) = []
parts_of (suc (suc zero)) = 1 ∷ 3 ∷ []
parts_of _ = 0 ∷ []

-- 1 and 3 are cameras.
abbrev servers_of : ℕ → List ℕ
servers_of zero = 29 ∷ []
servers_of (suc (suc zero)) = 29 ∷ 1361 ∷ []
servers_of _ = 1361 ∷ 1363 ∷ []

abbrev read : ℕ → SdkId → SdkId → Result Fault (Fields ℕ ℕ)
read endpoint cluster parts_list = ok (data_of (items (parts_of endpoint)))
read endpoint cluster server_list = ok (data_of (items (servers_of endpoint)))
read endpoint cluster client_list = ok (data_of no_items)
read endpoint cluster _ = ok (data_of (item device_type_value no_items))

abbrev node : ℕ → Result Fault Descriptor
node endpoint = read_endpoint_descriptor same key id read endpoint

abbrev camera : ℕ → Descriptor
camera endpoint = record {
  endpoint = endpoint;
  parts = parts_of endpoint;
  servers = 1361 ∷ 1363 ∷ [];
  clients = [];
  types = record { device_type = 322; revision = 1 } ∷ [];
}

abbrev found : Found
found = record { endpoints = 0 ∷ 1 ∷ 2 ∷ 3 ∷ []; cameras = camera 1 ∷ camera 3 ∷ [] }

loop_run : discover_from id node 129 0 (root id node) ≡ some (ok found)
unfolding discover_from read_endpoint_descriptor
loop_run = refl

cameras_run :
    (discover_camera_endpoints id node false true).1 ≡ some (ok (camera 1 ∷ camera 3 ∷ []))
unfolding discover_camera_endpoints read_endpoint_descriptor
cameras_run = refl

endpoints_visited_once_example :
    Unrepeated found.endpoints
    × (length found.endpoints ≤ 128)
    × ((x : ℕ) → (x ∈ found.endpoints) ↔ Reachable node x)
endpoints_visited_once_example = endpoints_visited_once id node found loop_run

discovery_returns_example :
    ((cameras : List Descriptor) × ((discover_camera_endpoints id node false true).1
        ≡ some (ok cameras)))
    ⊎ ((e : Fault) × ((discover_camera_endpoints id node false true).1 ≡ some (err e))
        × Reason id node e)
discovery_returns_example = discovery_returns id node

cameras_iff_reachable_example :
    (camera 3 ∈ (camera 1 ∷ camera 3 ∷ [])) ↔ IsCamera id node (camera 3)
cameras_iff_reachable_example =
    cameras_iff_reachable id node (camera 1 ∷ camera 3 ∷ []) cameras_run (camera 3)

-- A null entry of the device type list.
null_device_type : device_types {F = ℕ} same key (item Value.null no_items) ≡ err null_dereference
unfolding device_types
null_device_type = refl
