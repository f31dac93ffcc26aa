-- ===== src/Camera/Discovery/Reaching.antt =====
-- DiscoverCameraEndpoints of winrt/Projection.cpp as a traversal of the graph of endpoints: it ends,
-- reads no endpoint twice, and finds the cameras among the endpoints that are reached from the root.
use matter_winrt.Base.{
  ℕ, zero, suc, ◌+◌, ◌≤◌, ◌<◌, ◌≡◌, ◌⊎◌, inl, inr, refl, sym, ◌∙◌, Bool, true, false, List, [], ◌∷◌,
  ◌++◌, length, get_elem?, Option, none, some, if◌then◌else◌, Result, ok, err, ◌>>=◌, Bool-cases,
  arith,
}
use mathlib.Core.Path.{subst}
use mathlib.Core.Option.{some-injective}
use matter_winrt.Camera.Metadata.{Fault, bounds_error}
use matter_winrt.Camera.Metadata.Descriptor.{SdkId, Descriptor, has_camera_clusters, root_endpoint}
use matter_winrt.Camera.Discovery.{add_parts, Found, with_camera, visit, discover_from}
use matter_winrt.Camera.Discovery.Members.{
  ◌∈◌, in_left, in_last, in_append, get_in, get_bound, get_none,
}
use matter_winrt.Camera.Discovery.Adding.{Endpoints, add_parts-Extends, add_parts-error}

-- The endpoints that the parts lists lead to.
pub data Reachable (descriptor : ℕ → Result Fault Descriptor) : ℕ → Type 0 where
  start : Reachable descriptor root_endpoint
  part :
      {e p : ℕ} {d : Descriptor}
      → Reachable descriptor e
      → descriptor e ≡ ok d
      → p ∈ d.parts
      → Reachable descriptor p

module _ (id : SdkId → ℕ) (descriptor : ℕ → Result Fault Descriptor) where
  -- The descriptor of an endpoint that is reached and that has the camera clusters.
  pub record IsCamera (d : Descriptor) : Type 0 where
    pub endpoint : ℕ
    pub reached : Reachable descriptor endpoint
    pub read : descriptor endpoint ≡ ok d
    pub clusters : has_camera_clusters id d ≡ true

  pub record Visited (found : Found) (e : ℕ) : Type 0 where
    pub d : Descriptor
    pub read : descriptor e ≡ ok d
    pub parts : (x : ℕ) → x ∈ d.parts → x ∈ found.endpoints
    pub camera : has_camera_clusters id d ≡ true → d ∈ found.cameras

  -- The loop at the index i.
  pub record Traversed (i : ℕ) (found : Found) : Type 0 where
    pub endpoints : Endpoints (Reachable descriptor) found.endpoints
    pub begun : root_endpoint ∈ found.endpoints
    pub index : i ≤ length found.endpoints
    pub visited : (j e : ℕ) → j < i → get_elem? found.endpoints j ≡ some e → Visited found e
    pub cameras : (d : Descriptor) → d ∈ found.cameras → IsCamera d

  with_camera-keeps :
      (d x : Descriptor) (cs : List Descriptor) → x ∈ cs → x ∈ with_camera id descriptor d cs
  unfolding with_camera
  with_camera-keeps d x cs h = elim (Bool-cases (has_camera_clusters id d)) [
    | inl q ↦ rw q (in_left x cs (d ∷ []) h)
    | inr q ↦ rw q h
  ]

  with_camera-new :
      (d : Descriptor) (cs : List Descriptor)
      → has_camera_clusters id d ≡ true
      → d ∈ with_camera id descriptor d cs
  unfolding with_camera
  with_camera-new d cs h = rw h (in_last d cs)

  with_camera-only :
      (d x : Descriptor) (cs : List Descriptor) (b : Bool)
      → has_camera_clusters id d ≡ b
      → x ∈ (if b then cs ++ d ∷ [] else cs)
      → (x ∈ cs) ⊎ (x ≡ d) × (has_camera_clusters id d ≡ true)
  with_camera-only d x cs false q h = inl h
  with_camera-only d x cs true q h = elim (in_append x d cs h) [
    | inl k ↦ inl k
    | inr e ↦ inr (e, q)
  ]

  Visited-keeps :
      (f g : Found) (e : ℕ)
      → ((x : ℕ) → x ∈ f.endpoints → x ∈ g.endpoints)
      → ((d : Descriptor) → d ∈ f.cameras → d ∈ g.cameras)
      → Visited f e
      → Visited g e
  Visited-keeps f g e k c v = record {
    d = v.d;
    read = v.read;
    parts = λ x m. k x (v.parts x m);
    camera = λ h. c v.d (v.camera h);
  }

  abbrev after : Descriptor → Found → List ℕ → Found
  after d found es = record { endpoints = es; cameras = with_camera id descriptor d found.cameras }

  IsCamera-with :
      (e : ℕ) (d x : Descriptor) (found : Found)
      → ((y : Descriptor) → y ∈ found.cameras → IsCamera y)
      → Reachable descriptor e
      → descriptor e ≡ ok d
      → x ∈ with_camera id descriptor d found.cameras
      → IsCamera x
  unfolding with_camera
  IsCamera-with e d x found old r q h =
      elim (with_camera-only d x found.cameras (has_camera_clusters id d) refl h) [
        | inl k ↦ old x k
        | inr (s, c) ↦
            subst IsCamera (sym s) (record { endpoint = e; reached = r; read = q; clusters = c })
      ]

  Traversed-step :
      (i e : ℕ) (d : Descriptor) (found : Found) (es : List ℕ)
      → Traversed i found
      → get_elem? found.endpoints i ≡ some e
      → descriptor e ≡ ok d
      → add_parts e d.parts found.endpoints ≡ ok es
      → Traversed (suc i) (after d found es)
  Traversed-step i e d found es t at q h =
      let here = t.endpoints.all e (get_in found.endpoints i e at) in
      let (g, x, all) =
        add_parts-Extends (Reachable descriptor) e d.parts found.endpoints es t.endpoints
          (λ p m. part here q m) h in
      let bound = get_bound found.endpoints i e at in
      record {
        endpoints = g;
        begun = x.keeps root_endpoint t.begun;
        index = omega (arith, x.longer);
        visited = λ j k l m. elim (split j l) [
          | inl less ↦
              Visited-keeps found (after d found es) k x.keeps
                (λ y n. with_camera-keeps d y found.cameras n)
                (t.visited j k less (sym (x.same j (omega arith)) ∙ m))
          | inr same ↦
              let is = some-injective k e (sym m ∙ ap_get same ∙ x.same i bound ∙ at) in
              subst (Visited (after d found es)) (sym is) (record {
                d = d;
                read = q;
                parts = all;
                camera = λ c. with_camera-new d found.cameras c;
              })
        ];
        cameras = λ y m. IsCamera-with e d y found t.cameras here q m;
      }
    where
      split : (j : ℕ) → j < suc i → (j < i) ⊎ (j ≡ i)
      split j l = ground arith

      ap_get : {j : ℕ} → j ≡ i → get_elem? es j ≡ get_elem? es i
      ap_get s = rw s refl

  -- Why a discovery fails: bounds, or a descriptor on the way.
  abbrev pub Reason : Fault → Type 0
  Reason e = (e ≡ bounds_error) ⊎ (x : ℕ) × Reachable descriptor x × (descriptor x ≡ err e)

  -- A visit goes on or fails for a reason.
  VisitEnds : ℕ → Result Fault Found → Type 0
  VisitEnds i (ok next) = Traversed (suc i) next
  VisitEnds i (err e) = Reason e

  visit-VisitEnds :
      (i e : ℕ) (found : Found)
      → Traversed i found
      → get_elem? found.endpoints i ≡ some e
      → VisitEnds i (visit id descriptor e found)
  unfolding visit VisitEnds
  visit-VisitEnds i e found t at = read (descriptor e) refl
    where
      added :
          (d : Descriptor) (r : Result Fault (List ℕ))
          → descriptor e ≡ ok d
          → add_parts e d.parts found.endpoints ≡ r
          → VisitEnds i (r >>= λ es. ok (after d found es))
      added d (ok es) q h = Traversed-step i e d found es t at q h
      added d (err f) q h = inl (add_parts-error e d.parts found.endpoints f h)

      read :
          (r : Result Fault Descriptor)
          → descriptor e ≡ r
          → VisitEnds i
              (r >>= λ d. add_parts e d.parts found.endpoints >>= λ es. ok (after d found es))
      read (ok d) q = added d (add_parts e d.parts found.endpoints) q refl
      read (err f) q = inr (e, t.endpoints.all e (get_in found.endpoints i e at), q)

  -- How the loop ends.
  unfoldable pub Ends : Option (Result Fault Found) → Type 0
  Ends none = ⊥
  Ends (some (err e)) = Reason e
  Ends (some (ok found)) = Traversed (length found.endpoints) found

  pub discover_from-Ends :
      (fuel i : ℕ) (found : Found)
      → Traversed i found
      → 129 ≤ fuel + i
      → Ends (discover_from id descriptor fuel i found)
  unfolding discover_from Ends VisitEnds
  discover_from-Ends zero i found t f = absurd (omega (arith, t.index, t.endpoints.small))
  discover_from-Ends (suc fuel) i found t f =
      at (λ next n. discover_from-Ends fuel (suc i) next n (omega arith))
        (get_elem? found.endpoints i) refl
    where
      visits :
          ((next : Found)
            → Traversed (suc i) next
            → Ends (discover_from id descriptor fuel (suc i) next))
          → (r : Result Fault Found) → VisitEnds i r
          → Ends (elim r [
            | err e ↦ some (err e)
            | ok next ↦ discover_from id descriptor fuel (suc i) next
          ])
      visits later (err e) v = v
      visits later (ok next) v = later next v

      at :
          ((next : Found)
            → Traversed (suc i) next
            → Ends (discover_from id descriptor fuel (suc i) next))
          → (o : Option ℕ) → get_elem? found.endpoints i ≡ o
          → Ends (elim o [
            | none ↦ some (ok found)
            | some e ↦ elim (visit id descriptor e found) [
              | err e ↦ some (err e)
              | ok next ↦ discover_from id descriptor fuel (suc i) next
            ]
          ])
      at later none q =
          subst (λ n. Traversed n found) (omega (arith, t.index, get_none found.endpoints i q)) t
      at later (some e) q =
          visits later (visit id descriptor e found) (visit-VisitEnds i e found t q)
