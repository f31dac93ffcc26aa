-- ===== src/Tlv/Encode/Document.antt =====
-- The reference encoder of winrt/Projection.cpp: the document of a value, as a tree, and the calls of
-- the writer that write a tree.
use matter_winrt.Base.{ℕ, Option, none, some, List, [], ◌∷◌, ◌++◌, Result, ok, err, ◌>>=◌}
use matter_winrt.Chip.{ChipError}
use matter_winrt.Tlv.{
  Value, property, byte_vector, vector, property_set, object, Items, no_items, item, Fields,
  no_fields, field, Tag, anonymous, context, Kind, structure, array, Scalar, bytes, Element, scalar,
  container, unknown, Elements, no_elements, element,
}
use matter_winrt.Tlv.Encode.{Call, start, finish, put, scalar_of, number_fields, sort_fields}

unfoldable mutual
  pub calls : {F : Type 0} → Tag → Element F → List (Call F)
  calls t (scalar x) = put t x ∷ []
  calls t (container k es) = start t k ∷ (calls_of es ++ finish ∷ [])
  calls t unknown = []

  pub calls_of : {F : Type 0} → Elements F → List (Call F)
  calls_of no_elements = []
  calls_of (element t e es) = calls t e ++ calls_of es

-- Calls made one after another, up to the first that fails.
unfoldable pub put_all :
    {F W : Type 0} → (Call F → W → Result ChipError W) → List (Call F) → W → Result ChipError W
put_all call [] w = ok w
put_all call (c ∷ cs) w = call c w >>= put_all call cs

module _ {F : Type 0} where
  unfoldable pub scalar_element : Option (Scalar F) → Option (Element F)
  scalar_element none = none
  scalar_element (some x) = some (scalar x)

  unfoldable pub in_container : Kind → Option (Elements F) → Option (Element F)
  in_container k none = none
  in_container k (some es) = some (container k es)

  unfoldable pub add_element : Tag → Option (Element F) → Option (Elements F) → Option (Elements F)
  add_element t (some e) (some es) = some (element t e es)
  add_element t (some e) none = none
  add_element t none o = none

  unfoldable pub field_elements : List (ℕ × Option (Element F)) → Option (Elements F)
  field_elements [] = some no_elements
  field_elements ((n, o) ∷ xs) = add_element (context n) o (field_elements xs)

  unfoldable pub sorted_elements :
      Result ChipError (List (ℕ × Option (Element F))) → Option (Elements F)
  sorted_elements (err e) = none
  sorted_elements (ok xs) = field_elements (sort_fields xs)

module _ {H F : Type 0} (to_string : H → List ℕ) where
  -- The document of a value, if every part of it has one: the fields of a property set stand in the
  -- order of their numbers.
  unfoldable mutual
    pub document : Value H F → Option (Element F)
    document Value.null = some (scalar Scalar.null)
    document (property p) = scalar_element (scalar_of to_string p)
    document (byte_vector b) = some (scalar (bytes b))
    document (vector items) = in_container array (item_elements items)
    document (property_set fields) =
        in_container structure (sorted_elements (number_fields to_string (field_documents fields)))
    document object = none

    pub item_elements : Items H F → Option (Elements F)
    item_elements no_items = some no_elements
    item_elements (item v items) = add_element anonymous (document v) (item_elements items)

    pub field_documents : Fields H F → List (H × Option (Element F))
    field_documents no_fields = []
    field_documents (field k v rest) = (k, document v) ∷ field_documents rest
