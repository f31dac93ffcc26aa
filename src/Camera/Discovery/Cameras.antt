-- ===== src/Camera/Discovery/Cameras.antt =====
-- What DiscoverCameraEndpoints of winrt/Projection.cpp returns.
use matter_winrt.Base.{
  ℕ, ◌≤◌, ◌≡◌, ◌↔◌, ◌⊎◌, inl, inr, refl, sym, ◌∙◌, true, false, List, length, Option, none, some,
  Result, ok, err, ok-injective, arith,
}
use mathlib.Core.Path.{subst}
use mathlib.Core.Option.{some-injective}
use matter_winrt.Camera.Metadata.{Fault}
use matter_winrt.Camera.Metadata.Descriptor.{SdkId, Descriptor, has_camera_clusters}
use matter_winrt.Camera.Discovery.{
  Found, discover_from, root, discovered, discover_camera_endpoints,
}
use matter_winrt.Camera.Discovery.Members.{◌∈◌, Unrepeated, in_get}
use matter_winrt.Camera.Discovery.Reaching.{
  Reachable, start, part, IsCamera, Traversed, Reason, Ends, discover_from-Ends,
}

module _ (id : SdkId → ℕ) (descriptor : ℕ → Result Fault Descriptor) where
  root-Traversed : Traversed id descriptor 0 (root id descriptor)
  root-Traversed = record {
    endpoints = record {
      unrepeated = (λ m. m, tt);
      small = omega arith;
      all = λ x m. elim m [ inl e ↦ rw e start | inr n ↦ absurd n ];
    };
    begun = inl refl;
    index = omega arith;
    visited = λ j e l m. absurd (omega arith);
    cameras = λ d m. absurd m;
  }

  discover-Ends : Ends id descriptor (discover_from id descriptor 129 0 (root id descriptor))
  discover-Ends =
      discover_from-Ends id descriptor 129 0 (root id descriptor) root-Traversed (omega arith)

  same_descriptor : {e : ℕ} {c d : Descriptor} → descriptor e ≡ ok c → descriptor e ≡ ok d → c ≡ d
  same_descriptor p q = ok-injective (sym p ∙ q)

  Reachable-in :
      (found : Found)
      → Traversed id descriptor (length found.endpoints) found
      → {x : ℕ} → Reachable descriptor x
      → x ∈ found.endpoints
  Reachable-in found t start = t.begun
  Reachable-in found t (part {e} {p} {d} r q m) =
      let (j, l, g) = in_get found.endpoints e (Reachable-in found t r) in
      let v = t.visited j e l g in
      v.parts p (subst (λ (c : Descriptor). p ∈ c.parts) (same_descriptor q v.read) m)

  IsCamera-in :
      (found : Found)
      → Traversed id descriptor (length found.endpoints) found
      → (d : Descriptor) → IsCamera id descriptor d
      → d ∈ found.cameras
  IsCamera-in found t d c =
      let (j, l, g) = in_get found.endpoints c.endpoint (Reachable-in found t c.reached) in
      let v = t.visited j c.endpoint l g in
      let same = same_descriptor c.read v.read in
      subst (λ e. e ∈ found.cameras) (sym same)
        (v.camera (subst (λ e. has_camera_clusters id e ≡ true) same c.clusters))

  -- If the loop of the discovery ends without an error, the endpoints whose descriptors it has read are
  -- exactly those that parts lists lead to from the root; there are at most 128, and none is there
  -- twice.
  pub endpoints_visited_once :
      (found : Found)
      → discover_from id descriptor 129 0 (root id descriptor) ≡ some (ok found)
      → Unrepeated found.endpoints
        × (length found.endpoints ≤ 128)
        × ((x : ℕ) → (x ∈ found.endpoints) ↔ Reachable descriptor x)
  unfolding Ends
  endpoints_visited_once found h =
      let t = subst (Ends id descriptor) h discover-Ends in
      let g = t.endpoints in (g.unrepeated, g.small, λ x. (g.all x, λ r. Reachable-in found t r))

  -- The discovery of a node that is operational, without a cancellation before it, ends after at most
  -- 129 rounds. It finds cameras, or fails with E_BOUNDS or with what the descriptor of an endpoint
  -- failed with that parts lists lead to from the root.
  pub discovery_returns :
      ((cameras : List Descriptor) × ((discover_camera_endpoints id descriptor false true).1
          ≡ some (ok cameras)))
      ⊎ ((e : Fault) × ((discover_camera_endpoints id descriptor false true).1 ≡ some (err e))
          × Reason id descriptor e)
  unfolding discover_camera_endpoints Ends
  discovery_returns = by (discover_from id descriptor 129 0 (root id descriptor)) discover-Ends
    where
      by :
          (o : Option (Result Fault Found))
          → Ends id descriptor o
          → ((cameras : List Descriptor) × (discovered id descriptor o ≡ some (ok cameras)))
            ⊎ ((e : Fault) × (discovered id descriptor o ≡ some (err e)) × Reason id descriptor e)
      by none n = absurd n
      by (some (err e)) r = inr (e, refl, r)
      by (some (ok found)) t = inl (found.cameras, refl)

  -- If the discovery succeeds, the descriptors that it returns are exactly those with both camera
  -- clusters among the endpoints that parts lists lead to from the root.
  pub cameras_iff_reachable :
      (cameras : List Descriptor)
      → (discover_camera_endpoints id descriptor false true).1 ≡ some (ok cameras)
      → (d : Descriptor) → (d ∈ cameras) ↔ IsCamera id descriptor d
  unfolding discover_camera_endpoints Ends
  cameras_iff_reachable cameras h d =
      by (discover_from id descriptor 129 0 (root id descriptor)) discover-Ends h
    where
      by :
          (o : Option (Result Fault Found))
          → Ends id descriptor o
          → discovered id descriptor o ≡ some (ok cameras)
          → (d ∈ cameras) ↔ IsCamera id descriptor d
      by none n q = cc
      by (some (err e)) r q = cc
      by (some (ok found)) t q =
          subst (λ cs. (d ∈ cs) ↔ IsCamera id descriptor d)
            (ok-injective (some-injective (ok found.cameras) (ok cameras) q))
            (t.cameras d, λ c. IsCamera-in found t d c)
