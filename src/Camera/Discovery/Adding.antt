-- ===== src/Camera/Discovery/Adding.antt =====
-- DiscoverCameraEndpoints of winrt/Projection.cpp: what the parts of one endpoint add to the list of
-- endpoints.
use matter_winrt.Base.{
  ℕ, ◌≤◌, ◌<◌, ◌≡◌, ◌≢◌, inl, inr, refl, sym, ◌∙◌, ◌==◌, ◌||◌, Bool, true, false, List, [], ◌∷◌,
  ◌++◌, length, length-append, get_elem?, if◌then◌else◌, Result, ok, err, ◌>>=◌, bind-ok,
  ok-injective, arith,
}
use mathlib.Core.Path.{subst}
use matter_winrt.Camera.Metadata.{Fault, bounds_error, advertises}
use matter_winrt.Camera.Metadata.Descriptor.{invalid_endpoint}
use matter_winrt.Camera.Discovery.{add_endpoint, add_parts}
use matter_winrt.Camera.Discovery.Members.{
  ◌∈◌, Unrepeated, in_left, in_last, in_append, get_left, advertises_iff, Unrepeated-append,
}

-- A list of endpoints that all satisfy P.
pub record Endpoints (P : ℕ → Type 0) (es : List ℕ) : Type 0 where
  pub unrepeated : Unrepeated es
  pub small : length es ≤ 128
  pub all : (x : ℕ) → x ∈ es → P x

-- `fs` is `es` and more at its end.
pub record Extends (es fs : List ℕ) : Type 0 where
  pub longer : length es ≤ length fs
  pub keeps : (x : ℕ) → x ∈ es → x ∈ fs
  pub same : (i : ℕ) → i < length es → get_elem? fs i ≡ get_elem? es i

Extends-refl : (es : List ℕ) → Extends es es
Extends-refl es = record { longer = omega arith; keeps = λ x h. h; same = λ i h. refl }

Extends-trans : {es fs gs : List ℕ} → Extends es fs → Extends fs gs → Extends es gs
Extends-trans a b = record {
  longer = omega (arith, a.longer, b.longer);
  keeps = λ x h. b.keeps x (a.keeps x h);
  same = λ i h. b.same i (omega (arith, a.longer)) ∙ a.same i h;
}

Extends-append : (es : List ℕ) (x : ℕ) → Extends es (es ++ x ∷ [])
Extends-append es x = record {
  longer = omega (arith, length-append es (x ∷ []));
  keeps = λ y h. in_left y es (x ∷ []) h;
  same = λ i h. get_left es (x ∷ []) i h;
}

module _ (P : ℕ → Type 0) where
  -- What a list becomes that takes in the endpoint x.
  TakesIn : ℕ → List ℕ → List ℕ → Type 0
  TakesIn x es fs = Endpoints P fs × Extends es fs × (x ∈ fs)

  Endpoints-append :
      (es : List ℕ) (x : ℕ)
      → Endpoints P es
      → (x ∈ es → ⊥)
      → length es ≢ 128
      → P x
      → Endpoints P (es ++ x ∷ [])
  Endpoints-append es x g new room p = record {
    unrepeated = Unrepeated-append es x g.unrepeated new;
    small = ground (arith, length-append es (x ∷ []), g.small);
    all = λ y h. elim (in_append y x es h) [ inl k ↦ g.all y k | inr e ↦ subst P (sym e) p ];
  }

  full-TakesIn :
      (x : ℕ) (es fs : List ℕ) (b : Bool)
      → (length es == 128) ≡ b
      → Endpoints P es
      → (x ∈ es → ⊥)
      → P x
      → (if b then err bounds_error else ok (es ++ x ∷ [])) ≡ ok fs
      → TakesIn x es fs
  unfolding TakesIn
  full-TakesIn x es fs true q g new p h = cc
  full-TakesIn x es fs false q g new p h =
      subst (TakesIn x es) (ok-injective h)
        (Endpoints-append es x g new (ground arith) p, Extends-append es x, in_last x es)

  new-TakesIn :
      (x : ℕ) (es fs : List ℕ) (b : Bool)
      → advertises es x ≡ b
      → Endpoints P es
      → P x
      → (if b then ok es else if length es == 128 then err bounds_error else ok (es ++ x ∷ []))
        ≡ ok fs
      → TakesIn x es fs
  unfolding TakesIn
  new-TakesIn x es fs true q g p h =
      subst (TakesIn x es) (ok-injective h) (g, Extends-refl es, (advertises_iff es x).0 q)
  new-TakesIn x es fs false q g p h =
      full-TakesIn x es fs (length es == 128) refl g
        (λ m. ground (arith, q, (advertises_iff es x).1 m)) p h

  add_endpoint-TakesIn :
      (current x : ℕ) (es fs : List ℕ)
      → Endpoints P es
      → P x
      → add_endpoint current x es ≡ ok fs
      → TakesIn x es fs
  unfolding add_endpoint
  add_endpoint-TakesIn current x es fs g p h = valid ((x == invalid_endpoint) || (x == current)) h
    where
      valid :
          (b : Bool)
          → (if b
              then err bounds_error
              else if advertises es x
              then ok es
              else if length es == 128
              then err bounds_error
              else ok (es ++ x ∷ []))
            ≡ ok fs
          → TakesIn x es fs
      valid true k = cc
      valid false k = new-TakesIn x es fs (advertises es x) refl g p k

  pub add_parts-Extends :
      (current : ℕ) (parts es fs : List ℕ)
      → Endpoints P es
      → ((x : ℕ) → x ∈ parts → P x)
      → add_parts current parts es ≡ ok fs
      → Endpoints P fs × Extends es fs × ((x : ℕ) → x ∈ parts → x ∈ fs)
  unfolding add_parts TakesIn
  add_parts-Extends current [] es fs g p h =
      subst (λ f. Endpoints P f × Extends es f × ((x : ℕ) → x ∈ [] → x ∈ f)) (ok-injective h)
        (g, Extends-refl es, λ x m. absurd m)
  add_parts-Extends current (y ∷ parts) es fs g p h =
      let (ms, e, k) = bind-ok (add_endpoint current y es) (add_parts current parts) fs h in
      let (gm, em, im) = add_endpoint-TakesIn current y es ms g (p y (inl refl)) e in
      let (gf, ef, all) = add_parts-Extends current parts ms fs gm (λ x m. p x (inr m)) k in
      (
        gf,
        Extends-trans em ef,
        λ x m. elim m [ inl q ↦ subst (λ z. z ∈ fs) (sym q) (ef.keeps y im) | inr n ↦ all x n ],
      )

add_endpoint-error :
    (current x : ℕ) (es : List ℕ) (e : Fault) → add_endpoint current x es ≡ err e → e ≡ bounds_error
unfolding add_endpoint
add_endpoint-error current x es e h = ground arith

pub add_parts-error :
    (current : ℕ) (parts es : List ℕ) (e : Fault)
    → add_parts current parts es ≡ err e
    → e ≡ bounds_error
unfolding add_parts
add_parts-error current [] es e h = cc
add_parts-error current (y ∷ parts) es e h =
    first (λ ms k. add_parts-error current parts ms e k) (add_endpoint current y es) refl h
  where
    first :
        ((ms : List ℕ) → add_parts current parts ms ≡ err e → e ≡ bounds_error)
        → (r : Result Fault (List ℕ)) → add_endpoint current y es ≡ r
        → (r >>= add_parts current parts) ≡ err e
        → e ≡ bounds_error
    first later (ok ms) q k = later ms k
    first later (err f) q k = add_endpoint-error current y es e (cc)
