-- ===== src/Tlv/RoundTrip.antt =====
-- What becomes of a value of winrt/Projection.cpp that is encoded and decoded again: `projected`.
use matter_winrt.Base.{ℕ, ◌≡◌, refl, Bool, Option, none, some, List, [], ◌∷◌, Result, ok, err}
use mathlib.Core.Path.{subst}
use matter_winrt.Chip.{ChipError}
use matter_winrt.Tlv.{
  Property, int16, int32, int64, uint8, uint16, uint32, uint64, single, double, string, uint8_array,
  other, Value, property, byte_vector, vector, property_set, object, Items, no_items, item, Fields,
  no_fields, field, anonymous, context, Kind, Scalar, bytes, Element, scalar, Elements, no_elements,
}
use matter_winrt.Tlv.Encode.{scalar_of, sort_fields, number_fields}
use matter_winrt.Tlv.Encode.Document.{
  scalar_element, in_container, add_element, field_elements, sorted_elements, document,
  item_elements, field_documents,
}
use matter_winrt.Tlv.Encode.Paired.{Paired, PairedResult, sort-Paired, number-Paired}
use matter_winrt.Tlv.Decode.{box, insert}
use matter_winrt.Tlv.Decode.Reader.{value_of, fields_of, items_of}

module _ {H F : Type 0} (same : H → H → Bool) (to_string : H → List ℕ) (to_hstring : List ℕ → H)
    (number_text : ℕ → H) where
  -- Integers come back with 64 bits, floats as doubles, byte arrays as byte vectors.
  pub widened : Property H F → Value H F
  widened (Property.boolean b) = property (Property.boolean b)
  widened (int16 z) = property (int64 z)
  widened (int32 z) = property (int64 z)
  widened (int64 z) = property (int64 z)
  widened (uint8 n) = property (uint64 n)
  widened (uint16 n) = property (uint64 n)
  widened (uint32 n) = property (uint64 n)
  widened (uint64 n) = property (uint64 n)
  widened (single x) = property (double x)
  widened (double x) = property (double x)
  widened (string s) = property (string (to_hstring (to_string s)))
  widened (uint8_array b) = byte_vector b
  widened other = object

  pub insert_all : List (ℕ × Value H F) → Fields H F → Fields H F
  insert_all [] set = set
  insert_all ((n, u) ∷ us) set = insert_all us (insert same (number_text n) u set)

  pub in_order : Result ChipError (List (ℕ × Value H F)) → Fields H F
  in_order (err e) = no_fields
  in_order (ok us) = insert_all (sort_fields us) no_fields

  -- A property set comes back with its fields in the order of their numbers, keyed by the text of the
  -- number; of two fields with one number the later stays.
  mutual
    unfolding widened in_order

    pub projected : Value H F → Value H F
    projected Value.null = Value.null
    projected (property p) = widened p
    projected (byte_vector b) = byte_vector b
    projected (vector items) = vector (projected_items items)
    projected (property_set fields) =
        property_set (in_order (number_fields to_string (projected_fields fields)))
    projected object = object

    pub projected_items : Items H F → Items H F
    projected_items no_items = no_items
    projected_items (item v items) = item (projected v) (projected_items items)

    pub projected_fields : Fields H F → List (H × Value H F)
    projected_fields no_fields = []
    projected_fields (field k v rest) = (k, projected v) ∷ projected_fields rest

  -- A document, where there is one, is decoded to the value.
  abbrev pub Gives : Option (Element F) → Value H F → Type 0
  Gives none u = Unit {0}
  Gives (some e) u = value_of same to_hstring number_text e ≡ ok u

  abbrev GivesItems : Option (Elements F) → Items H F → Type 0
  GivesItems none items = Unit {0}
  GivesItems (some es) items = items_of same to_hstring number_text es ≡ ok items

  abbrev GivesFields : Option (Elements F) → List (ℕ × Value H F) → Type 0
  GivesFields none us = Unit {0}
  GivesFields (some es) us =
      (set : Fields H F) → fields_of same to_hstring number_text es set ≡ ok (insert_all us set)

  property-Gives : (p : Property H F) → Gives (scalar_element (scalar_of to_string p)) (widened p)
  unfolding scalar_element scalar_of widened value_of box
  property-Gives (Property.boolean b) = refl
  property-Gives (int16 z) = refl
  property-Gives (int32 z) = refl
  property-Gives (int64 z) = refl
  property-Gives (uint8 n) = refl
  property-Gives (uint16 n) = refl
  property-Gives (uint32 n) = refl
  property-Gives (uint64 n) = refl
  property-Gives (single x) = refl
  property-Gives (double x) = refl
  property-Gives (string s) = refl
  property-Gives (uint8_array b) = refl
  property-Gives other = tt

  item-Gives :
      (o : Option (Element F)) (p : Option (Elements F)) (u : Value H F) (us : Items H F)
      → Gives o u
      → GivesItems p us
      → GivesItems (add_element anonymous o p) (item u us)
  unfolding add_element value_of
  item-Gives (some e) (some es) u us h k = rw (h, k) refl
  item-Gives (some e) none u us h k = tt
  item-Gives none p u us h k = tt

  items-Gives :
      (p : Option (Elements F)) (us : Items H F)
      → GivesItems p us
      → Gives (in_container Kind.array p) (vector us)
  unfolding in_container value_of
  items-Gives (some es) us h = rw h refl
  items-Gives none us h = tt

  field-Gives :
      (n : ℕ) (o : Option (Element F)) (p : Option (Elements F)) (u : Value H F)
      (us : List (ℕ × Value H F))
      → Gives o u
      → GivesFields p us
      → GivesFields (add_element (context n) o p) ((n, u) ∷ us)
  unfolding add_element value_of insert_all
  field-Gives n (some e) (some es) u us h k = λ set. rw h (k (insert same (number_text n) u set))
  field-Gives n (some e) none u us h k = tt
  field-Gives n none p u us h k = tt

  fields-Gives :
      (ys : List (ℕ × Option (Element F))) (us : List (ℕ × Value H F))
      → Paired Gives ys us
      → GivesFields (field_elements ys) us
  unfolding field_elements value_of insert_all
  fields-Gives [] [] p = λ set. refl
  fields-Gives ((n, o) ∷ ys) ((m, u) ∷ us) (e, h, p) =
      rw e (field-Gives m o (field_elements ys) u us h (fields-Gives ys us p))
  fields-Gives [] (u ∷ us) p = absurd p
  fields-Gives (y ∷ ys) [] p = absurd p

  set-Gives :
      (p : Option (Elements F)) (us : List (ℕ × Value H F))
      → GivesFields p us
      → Gives (in_container Kind.structure p) (property_set (insert_all us no_fields))
  unfolding in_container value_of
  set-Gives (some es) us h = rw (h no_fields) refl
  set-Gives none us h = tt

  sorted-Gives :
      (ys : Result ChipError (List (ℕ × Option (Element F))))
      (us : Result ChipError (List (ℕ × Value H F)))
      → PairedResult Gives ys us
      → Gives (in_container Kind.structure (sorted_elements ys)) (property_set (in_order us))
  unfolding sorted_elements in_order in_container
  sorted-Gives (ok ys) (ok us) p =
      set-Gives (field_elements (sort_fields ys)) (sort_fields us)
        (fields-Gives (sort_fields ys) (sort_fields us) (sort-Paired Gives ys us p))
  sorted-Gives (err d) (err e) p = set-Gives none [] tt
  sorted-Gives (ok ys) (err e) p = absurd p
  sorted-Gives (err d) (ok us) p = absurd p

  null_given : Gives (some (scalar Scalar.null)) Value.null
  unfolding value_of box
  null_given = refl

  bytes_given : (b : List ℕ) → Gives (some (scalar (bytes b))) (byte_vector b)
  unfolding value_of box
  bytes_given b = refl

  nil_given : GivesItems (some no_elements) no_items
  unfolding value_of
  nil_given = refl

  mutual
    unfolding document projected

    value-Gives : (v : Value H F) → Gives (document to_string v) (projected v)
    value-Gives Value.null = null_given
    value-Gives (property p) = property-Gives p
    value-Gives (byte_vector b) = bytes_given b
    value-Gives (vector items) =
        items-Gives (item_elements to_string items) (projected_items items) (list-Gives items)
    value-Gives (property_set fields) =
        sorted-Gives (number_fields to_string (field_documents to_string fields))
          (number_fields to_string (projected_fields fields))
          (number-Paired to_string Gives (field_documents to_string fields)
            (projected_fields fields) (entries-Gives fields))
    value-Gives object = tt

    list-Gives :
        (items : Items H F) → GivesItems (item_elements to_string items) (projected_items items)
    list-Gives no_items = nil_given
    list-Gives (item v items) =
        item-Gives (document to_string v) (item_elements to_string items) (projected v)
          (projected_items items) (value-Gives v) (list-Gives items)

    entries-Gives :
        (fields : Fields H F)
        → Paired Gives (field_documents to_string fields) (projected_fields fields)
    entries-Gives no_fields = tt
    entries-Gives (field k v rest) = (refl, value-Gives v, entries-Gives rest)

  -- The document of a value, if it has one, is decoded by the reference decoder to the projected value.
  pub document_round_trip :
      (v : Value H F) (e : Element F)
      → document to_string v ≡ some e
      → value_of same to_hstring number_text e ≡ ok (projected v)
  document_round_trip v e h =
      subst (λ (o : Option (Element F)). Gives o (projected v)) h (value-Gives v)
