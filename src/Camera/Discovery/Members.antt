-- ===== src/Camera/Discovery/Members.antt =====
-- Lists of endpoints by their elements and their indices, for the traversal of
-- winrt/Projection.cpp, DiscoverCameraEndpoints.
use matter_winrt.Base.{
  ℕ, zero, suc, ◌≤◌, ◌<◌, ◌≡◌, ◌↔◌, ◌⊎◌, inl, inr, refl, sym, true, List, [], ◌∷◌, ◌++◌, length,
  get_elem?, none, some, ==_iff, arith,
}
use matter_winrt.Camera.Metadata.{advertises}

infix 40 ◌∈◌
abbrev pub ◌∈◌ : {A : Type 0} → A → List A → Type 0
x ∈ [] = ⊥
x ∈ y ∷ ys = (x ≡ y) ⊎ (x ∈ ys)

-- Nothing is in the list twice.
abbrev pub Unrepeated : List ℕ → Type 0
Unrepeated [] = Unit
Unrepeated (x ∷ xs) = (x ∈ xs → ⊥) × Unrepeated xs

module _ {A : Type 0} where
  pub in_left : (x : A) (xs ys : List A) → x ∈ xs → x ∈ xs ++ ys
  in_left x [] ys h = absurd h
  in_left x (z ∷ xs) ys (inl e) = inl e
  in_left x (z ∷ xs) ys (inr h) = inr (in_left x xs ys h)

  pub in_last : (x : A) (xs : List A) → x ∈ xs ++ x ∷ []
  in_last x [] = inl refl
  in_last x (z ∷ xs) = inr (in_last x xs)

  pub in_append : (x y : A) (xs : List A) → x ∈ xs ++ y ∷ [] → (x ∈ xs) ⊎ (x ≡ y)
  in_append x y [] (inl e) = inr e
  in_append x y [] (inr h) = absurd h
  in_append x y (z ∷ xs) (inl e) = inl (inl e)
  in_append x y (z ∷ xs) (inr h) = elim (in_append x y xs h) [ inl k ↦ inl (inr k) | inr e ↦ inr e ]

  pub get_in : (xs : List A) (i : ℕ) (x : A) → get_elem? xs i ≡ some x → x ∈ xs
  get_in [] i x h = cc
  get_in (z ∷ xs) zero x h = inl (cc)
  get_in (z ∷ xs) (suc i) x h = inr (get_in xs i x h)

  pub in_get :
      (xs : List A) (x : A) → x ∈ xs → (i : ℕ) × (i < length xs) × (get_elem? xs i ≡ some x)
  in_get [] x h = absurd h
  in_get (z ∷ xs) x (inl e) = (0, omega arith, cc)
  in_get (z ∷ xs) x (inr h) = let (i, l, g) = in_get xs x h in (suc i, omega arith, g)

  pub get_bound : (xs : List A) (i : ℕ) (x : A) → get_elem? xs i ≡ some x → i < length xs
  get_bound [] i x h = cc
  get_bound (z ∷ xs) zero x h = omega arith
  get_bound (z ∷ xs) (suc i) x h = omega (arith, get_bound xs i x h)

  pub get_none : (xs : List A) (i : ℕ) → get_elem? xs i ≡ none → length xs ≤ i
  get_none [] i h = omega arith
  get_none (z ∷ xs) zero h = cc
  get_none (z ∷ xs) (suc i) h = omega (arith, get_none xs i h)

  pub get_left : (xs ys : List A) (i : ℕ) → i < length xs → get_elem? (xs ++ ys) i ≡ get_elem? xs i
  get_left [] ys i h = absurd (omega arith)
  get_left (z ∷ xs) ys zero h = refl
  get_left (z ∷ xs) ys (suc i) h = get_left xs ys i (omega arith)

pub advertises_iff : (xs : List ℕ) (x : ℕ) → (advertises xs x ≡ true) ↔ (x ∈ xs)
unfolding advertises
advertises_iff [] x = (λ h. cc, λ h. absurd h)
advertises_iff (y ∷ ys) x = ground (arith, advertises_iff ys x, ==_iff y x)

pub Unrepeated-append :
    (xs : List ℕ) (x : ℕ) → Unrepeated xs → (x ∈ xs → ⊥) → Unrepeated (xs ++ x ∷ [])
Unrepeated-append [] x u h = (λ a. a, tt)
Unrepeated-append (y ∷ ys) x u h = (
  λ m. elim (in_append y x ys m) [ inl k ↦ u.0 k | inr e ↦ h (inl (sym e)) ],
  Unrepeated-append ys x u.1 (λ k. h (inr k)),
)
