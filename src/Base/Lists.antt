-- ===== src/Base/Lists.antt =====
-- Lists measured by native numbers, and predicates on lists by recursion.
use Prim.Native.Nat.{ℕ, zero, suc, ◌+◌, ◌-◌, ◌≤◌, ◌<◌}
use mathlib.Core.Path.{◌≡◌, refl, ap, subst}
use mathlib.Core.Logic.{◌≢◌}
use mathlib.Core.List.{List, [], ◌∷◌, ◌++◌}
use mathlib.Core.Option.{Option, none, some, some-injective}
use native.Mathlib.Decide.{dec_lt}
use native.Mathlib.Omega.{arith}

module _ {ℓ} {A : Type ℓ} where
  abbrev pub length : List A → ℕ
  length [] = 0
  length (x ∷ xs) = suc (length xs)

  abbrev pub drop : ℕ → List A → List A
  drop zero xs = xs
  drop (suc n) [] = []
  drop (suc n) (x ∷ xs) = drop n xs

  abbrev pub take : ℕ → List A → List A
  take zero xs = []
  take (suc n) [] = []
  take (suc n) (x ∷ xs) = x ∷ take n xs

  pub take-length : (xs : List A) → take (length xs) xs ≡ xs
  take-length [] = refl
  take-length (x ∷ xs) = ap (λ ys. x ∷ ys) (take-length xs)

  pub length-append : (xs ys : List A) → length (xs ++ ys) ≡ length xs + length ys
  length-append [] ys = omega arith
  length-append (x ∷ xs) ys = omega (arith, length-append xs ys)

abbrev pub All {ℓ κ} : {A : Type ℓ} → (A → Type κ) → List A → Type κ
All P [] = Unit
All P (x ∷ xs) = P x × All P xs

module _ {ℓ} {A : Type ℓ} where
  pub length-drop_one : (xs : List A) → length (drop 1 xs) ≡ length xs - 1
  length-drop_one [] = omega arith
  length-drop_one (x ∷ xs) = omega arith

module _ {ℓ} {A : Type ℓ} where
  abbrev pub get_elem? : List A → ℕ → Option A
  get_elem? [] i = none
  get_elem? (x ∷ xs) zero = some x
  get_elem? (x ∷ xs) (suc i) = get_elem? xs i

  -- A write out of bounds changes nothing.
  abbrev pub set : List A → ℕ → A → List A
  set [] i v = []
  set (x ∷ xs) zero v = v ∷ xs
  set (x ∷ xs) (suc i) v = x ∷ set xs i v

  -- The sum of a weight over a list.
  unfoldable pub total : (A → ℕ) → List A → ℕ
  total w [] = 0
  total w (x ∷ xs) = w x + total w xs

  pub total-nil : (w : A → ℕ) → total w [] ≡ 0
  unfolding total
  total-nil w = refl

  pub total-cons : (w : A → ℕ) (x : A) (xs : List A) → total w (x ∷ xs) ≡ w x + total w xs
  unfolding total
  total-cons w x xs = refl

  pub total-append : (w : A → ℕ) (xs ys : List A) → total w (xs ++ ys) ≡ total w xs + total w ys
  unfolding total
  total-append w [] ys = omega arith
  total-append w (x ∷ xs) ys = omega (arith, total-append w xs ys)

  -- A write moves the sum by the weights of the old and of the new element.
  pub total-set :
      (w : A → ℕ) (xs : List A) (i : ℕ) (x y : A)
      → get_elem? xs i ≡ some x
      → total w (set xs i y) + w x ≡ total w xs + w y
  unfolding total
  total-set w [] i x y h = cc
  total-set w (z ∷ xs) zero x y h = ground arith
  total-set w (z ∷ xs) (suc i) x y h = omega (arith, total-set w xs i x y h)

  -- A smaller weight has a smaller sum.
  pub total_mono : (v w : A → ℕ) (xs : List A) → ((x : A) → v x ≤ w x) → total v xs ≤ total w xs
  unfolding total
  total_mono v w [] h = omega arith
  total_mono v w (x ∷ xs) h = omega (arith, h x, total_mono v w xs h)

  -- A sum that is not 0 has an element that counts.
  pub total_pos :
      (w : A → ℕ) (xs : List A)
      → 0 < total w xs
      → (i : ℕ) × (x : A) × (get_elem? xs i ≡ some x) × (0 < w x)
  unfolding total
  total_pos w [] h = absurd (omega arith)
  total_pos w (x ∷ xs) h = elim (dec_lt 0 (w x)) [
    | yes p ↦ (0, x, refl, p)
    | no p ↦ let (i, y, e, q) = total_pos w xs (omega arith) in (suc i, y, e, q)
  ]

  -- One element counts in the sum.
  pub total_get :
      (w : A → ℕ) (xs : List A) (i : ℕ) (x : A) → get_elem? xs i ≡ some x → w x ≤ total w xs
  unfolding total
  total_get w [] i x h = cc
  total_get w (z ∷ zs) zero x h = omega (arith, ap w (some-injective z x h))
  total_get w (z ∷ zs) (suc i) x h = omega (arith, total_get w zs i x h)

  -- Two elements at two places count together.
  pub total_two :
      (w : A → ℕ) (xs : List A) (i j : ℕ) (x y : A)
      → get_elem? xs i ≡ some x
      → get_elem? xs j ≡ some y
      → i ≢ j
      → w x + w y ≤ total w xs
  unfolding total
  total_two w [] i j x y h k n = cc
  total_two w (z ∷ zs) zero zero x y h k n = absurd (n refl)
  total_two w (z ∷ zs) zero (suc j) x y h k n =
      omega (arith, ap w (some-injective z x h), total_get w zs j y k)
  total_two w (z ∷ zs) (suc i) zero x y h k n =
      omega (arith, ap w (some-injective z y k), total_get w zs i x h)
  total_two w (z ∷ zs) (suc i) (suc j) x y h k n =
      omega (arith, total_two w zs i j x y h k (λ e. n (ap suc e)))

module _ {ℓ κ} {A : Type ℓ} (P : A → Type κ) where
  pub All-append : (xs ys : List A) → All P xs → All P ys → All P (xs ++ ys)
  All-append [] ys hx hy = hy
  All-append (x ∷ xs) ys hx hy = (hx.0, All-append xs ys hx.1 hy)

  pub All-set : (xs : List A) (i : ℕ) (y : A) → All P xs → P y → All P (set xs i y)
  All-set [] i y h p = tt
  All-set (x ∷ xs) zero y h p = (p, h.1)
  All-set (x ∷ xs) (suc i) y h p = (h.0, All-set xs i y h.1 p)

  pub All-get_elem? : (xs : List A) (i : ℕ) (x : A) → All P xs → get_elem? xs i ≡ some x → P x
  All-get_elem? [] i x h e = cc
  All-get_elem? (y ∷ xs) zero x h e = subst P (some-injective y x e) h.0
  All-get_elem? (y ∷ xs) (suc i) x h e = All-get_elem? xs i x h.1 e
