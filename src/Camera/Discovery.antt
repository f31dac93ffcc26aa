-- ===== src/Camera/Discovery.antt =====
-- winrt/Projection.cpp, DiscoverCameraEndpoints: the endpoints of a node are a list that grows while the
-- loop walks along it. `descriptor` is ReadEndpointDescriptor of that node, and the rounds of the loop
-- are fuel, of which 129 are enough.
pub mod Members
pub mod Adding
pub mod Reaching
pub mod Cameras
pub mod Tests
use matter_winrt.Base.{
  ℕ, zero, suc, ◌==◌, ◌||◌, Bool, true, false, List, [], ◌∷◌, ◌++◌, length, get_elem?, Option, none,
  some, if◌then◌else◌, Result, ok, err, ◌>>=◌,
}
use matter_winrt.Camera.Failure.{Exception, Stage}
use matter_winrt.Camera.Failure
use matter_winrt.Camera.Metadata.{Fault, thrown, throws, bounds_error, advertises}
use matter_winrt.Camera.Metadata.Descriptor.{
  SdkId, Descriptor, has_camera_clusters, invalid_endpoint, root_endpoint,
}

-- One endpoint of the PartsList of `current`.
unfoldable pub add_endpoint : ℕ → ℕ → List ℕ → Result Fault (List ℕ)
unfolding advertises
add_endpoint current endpoint endpoints =
    if (endpoint == invalid_endpoint) || (endpoint == current)
    then err bounds_error
    else if advertises endpoints endpoint
    then ok endpoints
    else if length endpoints == 128
    then err bounds_error
    else ok (endpoints ++ endpoint ∷ [])

unfoldable pub add_parts : ℕ → List ℕ → List ℕ → Result Fault (List ℕ)
unfolding add_endpoint
add_parts current [] endpoints = ok endpoints
add_parts current (part ∷ parts) endpoints =
    add_endpoint current part endpoints >>= add_parts current parts

pub record Found : Type 0 where
  pub endpoints : List ℕ
  pub cameras : List Descriptor

module _ (id : SdkId → ℕ) (descriptor : ℕ → Result Fault Descriptor) where
  unfoldable pub with_camera : Descriptor → List Descriptor → List Descriptor
  unfolding has_camera_clusters
  with_camera d cameras = if has_camera_clusters id d then cameras ++ d ∷ [] else cameras

  -- The body of the loop at `endpoint`.
  unfoldable pub visit : ℕ → Found → Result Fault Found
  unfolding with_camera add_parts
  visit endpoint found = descriptor endpoint >>= λ d.
      add_parts endpoint d.parts found.endpoints >>= λ endpoints.
      ok (record { endpoints = endpoints; cameras = with_camera d found.cameras })

  -- `i` is the index of the loop; `none` is no fuel left.
  unfoldable pub discover_from : ℕ → ℕ → Found → Option (Result Fault Found)
  unfolding visit
  discover_from zero i found = none
  discover_from (suc fuel) i found = elim (get_elem? found.endpoints i) [
    | none ↦ some (ok found)
    | some endpoint ↦ elim (visit endpoint found) [
      | err e ↦ some (err e)
      | ok next ↦ discover_from fuel (suc i) next
    ]
  ]

  abbrev pub root : Found
  root = record { endpoints = root_endpoint ∷ []; cameras = [] }

  abbrev pub cameras_of : Result Fault Found → Result Fault (List Descriptor)
  cameras_of (ok found) = ok found.cameras
  cameras_of (err e) = err e

  abbrev pub discovered : Option (Result Fault Found) → Option (Result Fault (List Descriptor))
  discovered none = none
  discovered (some r) = some (cameras_of r)

  -- The stage that is reached, and the cameras; `is_operational` is IsOperationalNodeId of the node.
  unfoldable pub discover_camera_endpoints :
      Bool → Bool → Stage × Option (Result Fault (List Descriptor))
  unfolding discover_from
  discover_camera_endpoints is_canceled is_operational =
      if is_canceled
      then (Stage.validation, some (err (thrown Exception.canceled)))
      else if is_operational
      then (Stage.other 7, discovered (discover_from 129 0 root))
      else (Stage.validation, some (err (throws Failure.Hresult.invalid_argument)))
