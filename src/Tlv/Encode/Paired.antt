-- ===== src/Tlv/Encode/Paired.antt =====
-- Lists of numbered fields whose values are related, one to one: numbering and sorting keep them so.
use matter_winrt.Base.{
  ℕ, ◌≡◌, refl, leb, Option, none, some, List, [], ◌∷◌, Result, ok, err, Bool-cases, inl, inr,
}
use matter_winrt.Chip.{ChipError, invalid_argument}
use matter_winrt.Tlv.Encode.Key.{field_number}
use matter_winrt.Tlv.Encode.{insert_field, sort_fields, number_fields}

module _ {A B : Type 0} (Rel : A → B → Type 0) where
  -- The same keys in one order, with related values.
  abbrev pub Paired : {K : Type 0} → List (K × A) → List (K × B) → Type 0
  Paired [] [] = Unit {0}
  Paired [] (y ∷ ys) = ⊥
  Paired (x ∷ xs) [] = ⊥
  Paired (x ∷ xs) (y ∷ ys) = (x.0 ≡ y.0) × Rel x.1 y.1 × Paired xs ys

  abbrev pub PairedResult :
      Result ChipError (List (ℕ × A)) → Result ChipError (List (ℕ × B)) → Type 0
  PairedResult (ok xs) (ok ys) = Paired xs ys
  PairedResult (ok xs) (err e) = ⊥
  PairedResult (err d) (ok ys) = ⊥
  PairedResult (err d) (err e) = Unit {0}

  insert-Paired :
      (n : ℕ) (f : A) (o : B) (xs : List (ℕ × A)) (ys : List (ℕ × B))
      → Rel f o
      → Paired xs ys
      → Paired (insert_field (n, f) xs) (insert_field (n, o) ys)
  unfolding insert_field
  insert-Paired n f o [] [] h p = (refl, h, tt)
  insert-Paired n f o ((k, g) ∷ xs) ((j, u) ∷ ys) h (e, i, p) =
      let ih = insert-Paired n f o xs ys h p in
      elim (Bool-cases (leb n j)) [
        | inl b ↦ rw (e, b) (refl, h, (refl, i, p))
        | inr b ↦ rw (e, b) (refl, i, ih)
      ]
  insert-Paired n f o [] (y ∷ ys) h p = absurd p
  insert-Paired n f o (x ∷ xs) [] h p = absurd p

  pub sort-Paired :
      (xs : List (ℕ × A)) (ys : List (ℕ × B))
      → Paired xs ys
      → Paired (sort_fields xs) (sort_fields ys)
  unfolding sort_fields
  sort-Paired [] [] p = tt
  sort-Paired ((k, f) ∷ xs) ((j, o) ∷ ys) (e, h, p) =
      rw e (insert-Paired j f o (sort_fields xs) (sort_fields ys) h (sort-Paired xs ys p))
  sort-Paired [] (y ∷ ys) p = absurd p
  sort-Paired (x ∷ xs) [] p = absurd p

  add_numbered :
      (n : ℕ) (f : A) (o : B) (xs : Result ChipError (List (ℕ × A)))
      (ys : Result ChipError (List (ℕ × B)))
      → Rel f o
      → PairedResult xs ys
      → PairedResult
          (elim xs [ err e ↦ err e | ok xs ↦ ok ((n, f) ∷ xs) ])
          (elim ys [ err e ↦ err e | ok ys ↦ ok ((n, o) ∷ ys) ])
  add_numbered n f o (ok xs) (ok ys) h p = (refl, h, p)
  add_numbered n f o (err d) (err e) h p = tt
  add_numbered n f o (ok xs) (err e) h p = absurd p
  add_numbered n f o (err d) (ok ys) h p = absurd p

  numbered :
      (m : Option ℕ) (f : A) (o : B) (xs : Result ChipError (List (ℕ × A)))
      (ys : Result ChipError (List (ℕ × B)))
      → Rel f o
      → PairedResult xs ys
      → PairedResult
          (elim m [
            | none ↦ err invalid_argument
            | some n ↦ elim xs [ err e ↦ err e | ok xs ↦ ok ((n, f) ∷ xs) ]
          ])
          (elim m [
            | none ↦ err invalid_argument
            | some n ↦ elim ys [ err e ↦ err e | ok ys ↦ ok ((n, o) ∷ ys) ]
          ])
  numbered none f o xs ys h p = tt
  numbered (some n) f o xs ys h p = add_numbered n f o xs ys h p

module _ {A B H : Type 0} (to_string : H → List ℕ) (Rel : A → B → Type 0) where
  pub number-Paired :
      (xs : List (H × A)) (ys : List (H × B))
      → Paired Rel xs ys
      → PairedResult Rel (number_fields to_string xs) (number_fields to_string ys)
  unfolding number_fields
  number-Paired [] [] p = tt
  number-Paired ((k, f) ∷ xs) ((j, o) ∷ ys) (e, h, p) =
      rw e (numbered Rel (field_number (to_string j)) f o _ _ h (number-Paired xs ys p))
  number-Paired [] (y ∷ ys) p = absurd p
  number-Paired (x ∷ xs) [] p = absurd p
