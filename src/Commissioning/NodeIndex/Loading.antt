-- ===== src/Commissioning/NodeIndex/Loading.antt =====
-- The loop of LoadCommissionedNodes (winrt/Projection.cpp): it ends, and reads back what was written.
use matter_winrt.Base.{
  ℕ, zero, suc, ◌*◌, ◌/◌, ◌%◌, ◌≤◌, ◌<◌, min, ◌≡◌, ◌≢◌, ◌⊎◌, refl, ◌∙◌, ap, true, some, List, [],
  ◌∷◌, length, take, Result, ok, err, is_some, leb, arith, Bool-cases, inl, inr,
}
use mathlib.Core.Path.{subst}
use matter_winrt.Chip.{ChipError, buffer_too_small}
use matter_winrt.Commissioning.NodeIndex.{
  Read, nodes, accept, load_outcome, load_round, load_from, load_commissioned_nodes,
  maximum_node_count, word_size, writes, persist_commissioned_nodes,
}

-- The number of words of the buffer after so many rounds that go on.
abbrev reach : ℕ → ℕ → ℕ
reach zero n = n
reach (suc rounds) n = reach rounds (min (n * 2) maximum_node_count)

-- A round that goes on had a buffer below the maximum that was too small.
goes-on :
    (n m : ℕ) (r : Result ChipError Read)
    → load_outcome n r ≡ err m
    → (r ≡ err buffer_too_small) × (n ≢ maximum_node_count) × (m ≡ min (n * 2) maximum_node_count)
unfolding load_outcome
goes-on n m (ok r) h = absurd (ground arith)
goes-on n m (err e) h = ground arith

Result-cases : {A B : Type 0} (r : Result A B) → ((b : B) × (r ≡ ok b)) ⊎ ((a : A) × (r ≡ err a))
Result-cases (ok b) = inl (b, refl)
Result-cases (err a) = inr (a, refl)

module _ (get : ℕ → Result ChipError Read) where
  load_from-returns :
      (rounds n : ℕ)
      → n ≤ maximum_node_count
      → reach rounds n ≡ maximum_node_count
      → is_some (load_from get (suc rounds) n) ≡ true
  unfolding load_from load_round
  load_from-returns zero n b h = elim (Result-cases (load_round get n)) [
    | inl (x, e) ↦ ground arith
    | inr (m, e) ↦ absurd ((goes-on n m (get (n * word_size % 65536)) e).1 h)
  ]
  load_from-returns (suc rounds) n b h = elim (Result-cases (load_round get n)) [
    | inl (x, e) ↦ ground arith
    | inr (m, e) ↦
        let same = (goes-on n m (get (n * word_size % 65536)) e).2 in
        let ih = load_from-returns rounds m (omega (arith, same)) (ap (reach rounds) same ∙ h) in
        ground arith
  ]

  -- LoadCommissionedNodes returns or throws within fourteen reads, whatever the storage answers.
  pub load_returns : is_some (load_commissioned_nodes get 14) ≡ true
  unfolding load_commissioned_nodes
  load_returns = load_from-returns 13 1 (omega arith) refl

  -- The storage holds these words: a buffer that is too small is refused, and any other is given all.
  pub record Holds (xs : List ℕ) : Type 0 where
    pub small : (bytes : ℕ) → bytes < length xs * word_size → get bytes ≡ err buffer_too_small
    pub fits :
        (bytes : ℕ)
        → length xs * word_size ≤ bytes
        → (r : Read) × (get bytes ≡ ok r)
          × (r.size ≡ length xs * word_size)
          × (take (length xs) r.words ≡ xs)

  accept-all :
      (xs : List ℕ) (r : Read)
      → 1 ≤ length xs
      → r.size ≡ length xs * word_size
      → take (length xs) r.words ≡ xs
      → accept r ≡ nodes xs
  unfolding accept
  accept-all xs r l s t =
      let count : r.size / word_size ≡ length xs = omega (arith, s) in
      let whole : r.size % word_size ≡ 0 = omega (arith, s) in
      let taken : take (r.size / word_size) r.words ≡ xs = rw count t in ground arith

  outcome-fits :
      (xs : List ℕ) (n : ℕ)
      → Holds xs
      → 1 ≤ length xs
      → n ≤ maximum_node_count
      → length xs ≤ n
      → load_round get n ≡ ok (nodes xs)
  unfolding load_round load_outcome
  outcome-fits xs n v l b h =
      let (r, e, s, t) = v.fits (n * word_size % 65536) (omega arith) in
      rw e (ap ok (accept-all xs r l s t))

  outcome-small :
      (xs : List ℕ) (n : ℕ)
      → Holds xs
      → n < length xs
      → length xs ≤ maximum_node_count
      → load_round get n ≡ err (min (n * 2) maximum_node_count)
  unfolding load_round load_outcome
  outcome-small xs n v h b = let e = v.small (n * word_size % 65536) (omega arith) in ground arith

  loaded :
      (xs : List ℕ) (rounds n : ℕ)
      → Holds xs
      → 1 ≤ length xs
      → length xs ≤ maximum_node_count
      → n ≤ maximum_node_count
      → reach rounds n ≡ maximum_node_count
      → load_from get (suc rounds) n ≡ some (nodes xs)
  unfolding load_from
  loaded xs zero n v l u b h = ground (arith, outcome-fits xs n v l b (omega (arith, h)))
  loaded xs (suc rounds) n v l u b h = elim (Bool-cases (leb (length xs) n)) [
    | inl e ↦ ground (arith, outcome-fits xs n v l b (ground arith))
    | inr e ↦
        let ih = loaded xs rounds (min (n * 2) maximum_node_count) v l u (omega arith) h in
        ground (arith, outcome-small xs n v (ground arith) u)
  ]

  written :
      (xs ys : List ℕ)
      → persist_commissioned_nodes xs ≡ writes ys
      → (ys ≡ xs) × (1 ≤ length xs) × (length xs ≤ maximum_node_count)
  unfolding persist_commissioned_nodes
  written [] ys h = absurd (ground arith)
  written (x ∷ xs) ys h = ground arith

  -- A list that PersistCommissionedNodes writes is the list that LoadCommissionedNodes reads back from a
  -- storage that holds what was written, within fourteen reads.
  pub persist_load :
      (xs ys : List ℕ)
      → persist_commissioned_nodes xs ≡ writes ys
      → Holds ys
      → load_commissioned_nodes get 14 ≡ some (nodes xs)
  unfolding load_commissioned_nodes
  persist_load xs ys h v =
      let (same, low, high) = written xs ys h in
      loaded xs 13 1 (subst Holds same v) low high (omega arith) refl
