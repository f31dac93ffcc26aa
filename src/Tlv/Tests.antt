-- ===== src/Tlv/Tests.antt =====
-- The TLV values of winrt/Projection.cpp on concrete values, with the tree writer and reader.
use matter_winrt.Base.{
  ℕ, ◌+◌, ◌/◌, ◌%◌, ◌≤◌, ◌≡◌, ◌↔◌, refl, Bool, true, false, ◌&&◌, ◌==◌, some, List, [], ◌∷◌, ltb,
  if◌then◌else◌, ok, err, negsuc, arith,
}
use matter_winrt.Tlv.{
  int16, uint8, uint64, Value, property, vector, property_set, no_items, item, Fields, no_fields,
  field, anonymous, context, Kind, Scalar, unsigned, Element, scalar, container, no_elements,
  element,
}
use matter_winrt.Tlv.Encode.Key.{
  is_space, is_digit, c_string, skip_spaces, digits, bounded, negated, with_value, signed_number,
  at_end, field_number,
}
use matter_winrt.Tlv.Encode.Document.{
  document, item_elements, field_documents, field_elements, sorted_elements, add_element,
  in_container, scalar_element,
}
use matter_winrt.Tlv.Encode.{
  scalar_of, insert_field, sort_fields, number_fields, put_fields, encode_entries, encode_container,
  put_property, encode_property_set, encode_value, encode_items, field_encoders,
}
use matter_winrt.Tlv.Decode.{decoded, decode_value, decode_root, root_fields}
use matter_winrt.Tlv.Decode.Reader.{size, value_of}
use matter_winrt.Tlv.Decode.Agrees.{Agrees, decode_agrees}
use matter_winrt.Tlv.RoundTrip.{projected}
use matter_winrt.Tlv.Root.{lookup, enough, encode_root, root_value, encode_decode}
use matter_winrt.Tlv.PropertyScalar.{
  e_bounds, unsigned_value, property_set_scalar, Missing, bounds_only_if_Missing,
}
use matter_winrt.Tlv.Tree.{
  joined, added, write, finished, Cursor, cursor_type, cursor_tag, cursor_get, cursor_next,
  cursor_enter, cursor_exit, cursor_at, At, On, cursor-Reads, tree_reads_written,
}

-- An hstring by its UTF-8 bytes.
abbrev same : List ℕ → List ℕ → Bool
same [] [] = true
same [] (y ∷ ys) = false
same (x ∷ xs) [] = false
same (x ∷ xs) (y ∷ ys) = (x == y) && same xs ys

abbrev text : List ℕ → List ℕ
text s = s

-- Of a number up to 99.
abbrev decimal : ℕ → List ℕ
decimal n = if ltb n 10 then (n + 48) ∷ [] else (n / 10 + 48) ∷ (n % 10 + 48) ∷ []

-- The text "value".
abbrev value_key : List ℕ
value_key = 118 ∷ 97 ∷ 108 ∷ 117 ∷ 101 ∷ []

-- Field "12" is an array, field "3" a small number.
abbrev entries : Fields (List ℕ) ℕ
entries =
    field (49 ∷ 50 ∷ []) (vector (item Value.null (item (property (int16 (negsuc 4))) no_items)))
      (field (51 ∷ []) (property (uint8 7)) no_fields)

abbrev written : Element ℕ
written = container Kind.structure (
    element (context 3) (scalar (unsigned 7)) (
      element (context 12)
        (container Kind.array (
          element anonymous (scalar Scalar.null)
            (element anonymous (scalar (Scalar.signed (negsuc 4))) no_elements)))
        no_elements))

enough_fuel : size written ≤ 20
unfolding size
enough_fuel = omega arith

at_written : On anonymous written [] (cursor_at written)
unfolding cursor_at
at_written = refl

decode_agrees_example :
    Agrees same text decimal cursor_type cursor_tag cursor_get cursor_enter cursor_exit cursor_next
      At On cursor-Reads []
      (value_of same text decimal written)
      (decode_value same text decimal cursor_type cursor_tag cursor_get cursor_enter cursor_exit
        cursor_next 20
        (cursor_at written))
decode_agrees_example =
    decode_agrees same text decimal cursor_type cursor_tag cursor_get cursor_enter cursor_exit
      cursor_next At On cursor-Reads 20 anonymous written [] (cursor_at written) enough_fuel
      at_written

entries-document : document text (property_set entries) ≡ some written
unfolding document item_elements field_documents number_fields sort_fields insert_field
    field_elements sorted_elements add_element in_container scalar_element scalar_of is_space
    is_digit c_string skip_spaces digits bounded negated with_value signed_number at_end
    field_number
entries-document = refl

entries_encoded :
    encode_root same text value_key write (no_elements, []) finished (some entries) ≡ ok written
unfolding encode_root lookup encode_property_set encode_entries encode_container put_property
    put_fields field_encoders encode_value encode_items number_fields sort_fields insert_field
    scalar_of is_space is_digit c_string skip_spaces digits bounded negated with_value signed_number
    at_end field_number write joined added finished
entries_encoded = refl

entries_fuel : enough (document text (root_value same value_key entries)) ≤ 20
unfolding enough root_value lookup
entries_fuel = rw entries-document (enough_fuel)

encode_decode_example :
    (r : Cursor ℕ) × (decode_root same text decimal cursor_type cursor_tag cursor_get cursor_enter
        cursor_exit cursor_next value_key 20
        (cursor_at written)
      ≡ decoded
          (root_fields value_key
            (projected same text text decimal (root_value same value_key entries)))
          r)
encode_decode_example =
    encode_decode same text text decimal value_key write (no_elements, []) finished cursor_type
      cursor_tag cursor_get cursor_enter cursor_exit cursor_next At On cursor-Reads cursor_at
      entries written 20 tree_reads_written entries_encoded entries_fuel

-- A number out of range.
abbrev large : Fields (List ℕ) ℕ
large = field value_key (property (uint64 300)) no_fields

bounds_only_if_Missing_example :
    (property_set_scalar same value_key (unsigned_value 255) (some large) ≡ err e_bounds)
    ↔ Missing same value_key (unsigned_value 255) (some large)
bounds_only_if_Missing_example =
    bounds_only_if_Missing same value_key (unsigned_value 255) (some large)
