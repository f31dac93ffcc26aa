-- ===== src/Poll.antt =====
-- The polling loops of winrt/Projection.cpp and winrt/CameraControllerRuntime.h: each round makes its
-- tests on what it observes, returns or throws, or waits for the next round. A round is a function of
-- its number; `none` goes on waiting. The rounds left are fuel, and `poll_returns` says how many are
-- enough where the clock moves.
use matter_winrt.Base.{
  ℕ, zero, suc, ◌+◌, ◌*◌, ◌≤◌, ◌<◌, min, ◌≡◌, true, Option, none, some, ◌⊎◌, inl, inr, is_some,
  arith, Option-cases,
}

Nat-cases : (i k : ℕ) → i ≤ k → (i ≡ k) ⊎ (suc i ≤ k)
Nat-cases i k h = omega arith

module _ {ℓ} {R : Type ℓ} where
  unfoldable pub poll : ℕ → (ℕ → Option R) → ℕ → Option R
  poll zero round i = none
  poll (suc n) round i = elim (round i) [ some r ↦ some r | none ↦ poll n round (suc i) ]

  -- What the loop returns, some round returned, and every round before that went on.
  pub poll_first :
      (n : ℕ) (round : ℕ → Option R) (i : ℕ) (r : R)
      → poll n round i ≡ some r
      → (j : ℕ) × (i ≤ j) × (round j ≡ some r) × ((k : ℕ) → i ≤ k → k < j → round k ≡ none)
  unfolding poll
  poll_first zero round i r h = cc
  poll_first (suc n) round i r h = elim (Option-cases (round i)) [
    | inl e ↦
        let (j, l, f, b) = poll_first n round (suc i) r (ground arith) in
        (
          j,
          omega arith,
          f,
          λ k p q. elim (Nat-cases i k p) [ inl same ↦ rw (← same) e | inr later ↦ b k later q ],
        )
    | inr (s, e) ↦ (i, omega arith, ground arith, λ k p q. absurd (omega arith))
  ]

  -- With a clock that moves by `step` in each round, or at least to the deadline, and rounds that go
  -- on only before the deadline, the loop returns within the rounds that fit before the deadline.
  pub poll_returns :
      (n : ℕ) (round : ℕ → Option R) (clock : ℕ → ℕ) (deadline step i : ℕ)
      → ((k : ℕ) → round k ≡ none → clock k < deadline)
      → ((k : ℕ) → round k ≡ none → min deadline (clock k + step) ≤ clock (suc k))
      → deadline ≤ clock i + n * step
      → is_some (poll (suc n) round i) ≡ true
  unfolding poll
  poll_returns zero round clock deadline step i before moves h = elim (Option-cases (round i)) [
    | inl e ↦ absurd (omega (arith, before i e))
    | inr (r, e) ↦ ground arith
  ]
  poll_returns (suc n) round clock deadline step i before moves h = elim (Option-cases (round i)) [
    | inl e ↦
        let ih =
          poll_returns n round clock deadline step (suc i) before moves
            (omega (arith, before i e, moves i e)) in
        ground arith
    | inr (r, e) ↦ ground arith
  ]
