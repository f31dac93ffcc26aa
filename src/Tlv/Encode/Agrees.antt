-- ===== src/Tlv/Encode/Agrees.antt =====
-- That EncodeInspectable and EncodePropertySet (winrt/Projection.cpp) write the document of a value.
use matter_winrt.Base.{ℕ, ◌≡◌, refl, sym, Option, List, Result, ok, err}
use matter_winrt.Chip.{ChipError, invalid_argument}
use matter_winrt.Tlv.{
  Value, property, byte_vector, vector, property_set, object, Items, no_items, item, Fields,
  no_fields, field, anonymous, structure, array, Scalar, bytes, Element,
}
use matter_winrt.Tlv.Encode.{
  Call, put, scalar_of, sort_fields, number_fields, Encoder, put_fields, encode_entries,
  encode_property_set, encode_value, encode_items, field_encoders,
}
use matter_winrt.Tlv.Encode.Document.{
  calls, put_all, sorted_elements, document, item_elements, field_documents,
}
use matter_winrt.Tlv.Encode.Paired.{Paired, PairedResult, sort-Paired, number-Paired}
use matter_winrt.Tlv.Encode.Writes.{
  Encodes, Puts, Written, bind_ok, Puts-add, container-Encodes, property-Encodes, put_fields-Puts,
}

module _ {H F W : Type 0} (to_string : H → List ℕ) (call : Call F → W → Result ChipError W) where
  entries-Puts :
      (xs : List (H × Encoder W)) (ys : List (H × Option (Element F)))
      → Paired (Written call) xs ys
      → Puts call (sorted_elements (number_fields to_string ys)) (encode_entries to_string xs)
  unfolding encode_entries sorted_elements
  entries-Puts xs ys p =
      go (number_fields to_string xs) (number_fields to_string ys)
        (number-Paired to_string (Written call) xs ys p)
    where
      go :
          (q : Result ChipError (List (ℕ × Encoder W)))
          (r : Result ChipError (List (ℕ × Option (Element F))))
          → PairedResult (Written call) q r
          → Puts call
              (sorted_elements r)
              (λ w. elim q [ err e ↦ err e | ok xs ↦ put_fields (sort_fields xs) w ])
      go (ok xs) (ok ys) p =
          put_fields-Puts call (sort_fields xs) (sort_fields ys)
            (sort-Paired (Written call) xs ys p)
      go (err d) (err e) p = λ w. (d, refl)
      go (ok xs) (err e) p = absurd p
      go (err d) (ok ys) p = absurd p

  mutual
    unfolding encode_value document encode_property_set put_all calls

    value-Encodes :
        (v : Value H F) → Encodes call (document to_string v) (encode_value to_string call v)
    value-Encodes Value.null = λ t w. sym (bind_ok call (call (put t Scalar.null) w))
    value-Encodes (property p) = property-Encodes call (scalar_of to_string p)
    value-Encodes (byte_vector b) = λ t w. sym (bind_ok call (call (put t (bytes b)) w))
    value-Encodes (vector items) =
        container-Encodes call array (item_elements to_string items)
          (encode_items to_string call items) (items-Puts items)
    value-Encodes (property_set fields) =
        container-Encodes call structure
          (sorted_elements (number_fields to_string (field_documents to_string fields)))
          (encode_entries to_string (field_encoders to_string call fields))
          (entries-Puts (field_encoders to_string call fields) (field_documents to_string fields)
            (fields-Paired fields))
    value-Encodes object = λ t w. (invalid_argument, refl)

    items-Puts :
        (items : Items H F)
        → Puts call (item_elements to_string items) (encode_items to_string call items)
    items-Puts no_items = λ w. refl
    items-Puts (item v items) =
        Puts-add call anonymous (document to_string v) (item_elements to_string items)
          (encode_value to_string call v) (encode_items to_string call items) (value-Encodes v)
          (items-Puts items)

    fields-Paired :
        (fields : Fields H F)
        → Paired
            (Written call)
            (field_encoders to_string call fields)
            (field_documents to_string fields)
    fields-Paired no_fields = tt
    fields-Paired (field k v rest) = (refl, value-Encodes v, fields-Paired rest)

  -- Where a value has a document, encoding it under any tag makes exactly the writer's calls of that
  -- document, up to the first that fails; where it has none, encoding fails.
  pub encode_writes :
      (v : Value H F) → Encodes call (document to_string v) (encode_value to_string call v)
  encode_writes v = value-Encodes v

  pub encode_value-property_set :
      (set : Fields H F)
      → encode_value to_string call (property_set set)
        ≡ encode_property_set to_string call (field_encoders to_string call set)
  unfolding encode_value
  encode_value-property_set set = refl
