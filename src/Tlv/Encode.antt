-- ===== src/Tlv/Encode.antt =====
-- winrt/Projection.cpp, EncodePropertySet, EncodeInspectable and EncodePropertySetRoot. The TLV writer
-- is the SDK's: `call` makes one call of it, on a writer `W`, and may fail.
pub mod Agrees
pub mod Document
pub mod Key
pub mod Paired
pub mod Writes
use matter_winrt.Base.{
  ℕ, ◌≤◌, Bool, true, false, ◌&&◌, ◌||◌, not, leb, ltb, ◌==◌, Option, none, some, List, [], ◌∷◌,
  if◌then◌else◌, Result, ok, err, ◌>>=◌, length,
}
use matter_winrt.Chip.{ChipError, invalid_argument}
use matter_winrt.Tlv.{
  Property, boolean, int16, int32, int64, uint8, uint16, uint32, uint64, single, double, string,
  uint8_array, other, Value, property, byte_vector, vector, property_set, object, Items, no_items,
  item, Fields, no_fields, field, Tag, anonymous, context, Kind, structure, array, Scalar, signed,
  unsigned, floating, utf8, bytes,
}
use matter_winrt.Tlv.Encode.Key.{field_number}

pub data Call (F : Type 0) : Type 0 where
  start : Tag → Kind → Call F
  finish : Call F
  put : Tag → Scalar F → Call F

-- std::sort by the field number. Fields with one number stand in no particular order in the source;
-- here they keep theirs.
module _ {ℓ} {A : Type ℓ} where
  unfoldable pub insert_field : ℕ × A → List (ℕ × A) → List (ℕ × A)
  insert_field x [] = x ∷ []
  insert_field x (y ∷ ys) =
      let rest = insert_field x ys in if leb x.0 y.0 then x ∷ y ∷ ys else y ∷ rest

  unfoldable pub sort_fields : List (ℕ × A) → List (ℕ × A)
  unfolding insert_field
  sort_fields [] = []
  sort_fields (x ∷ xs) = insert_field x (sort_fields xs)

module _ {H : Type 0} (to_string : H → List ℕ) where
  -- The first loop of EncodePropertySet.
  unfoldable pub number_fields {ℓ} : {A : Type ℓ} → List (H × A) → Result ChipError (List (ℕ × A))
  number_fields [] = ok []
  number_fields ((k, a) ∷ xs) = elim (field_number (to_string k)) [
    | none ↦ err invalid_argument
    | some n ↦ elim (number_fields xs) [ err e ↦ err e | ok ys ↦ ok ((n, a) ∷ ys) ]
  ]

module _ {H F : Type 0} (to_string : H → List ℕ) where
  -- The switch of EncodeInspectable.
  unfoldable pub scalar_of : Property H F → Option (Scalar F)
  scalar_of (boolean b) = some (Scalar.boolean b)
  scalar_of (int16 z) = some (signed z)
  scalar_of (int32 z) = some (signed z)
  scalar_of (int64 z) = some (signed z)
  scalar_of (uint8 n) = some (unsigned n)
  scalar_of (uint16 n) = some (unsigned n)
  scalar_of (uint32 n) = some (unsigned n)
  scalar_of (uint64 n) = some (unsigned n)
  scalar_of (single x) = some (floating x)
  scalar_of (double x) = some (floating x)
  scalar_of (string s) = some (utf8 (to_string s))
  scalar_of (uint8_array b) = some (bytes b)
  scalar_of other = none

-- A value that is to be encoded, under a tag.
abbrev pub Encoder : Type 0 → Type 0
Encoder W = Tag → W → Result ChipError W

module _ {W : Type 0} where
  -- The second loop of EncodePropertySet.
  unfoldable pub put_fields : List (ℕ × Encoder W) → W → Result ChipError W
  put_fields [] w = ok w
  put_fields ((n, encode) ∷ xs) w = encode (context n) w >>= put_fields xs

module _ {H W : Type 0} (to_string : H → List ℕ) where
  -- The body of EncodePropertySet between the ends of its container.
  unfoldable pub encode_entries : List (H × Encoder W) → W → Result ChipError W
  unfolding number_fields sort_fields put_fields
  encode_entries entries w = elim (number_fields to_string entries) [
    | err e ↦ err e
    | ok xs ↦ put_fields (sort_fields xs) w
  ]

module _ {F W : Type 0} (call : Call F → W → Result ChipError W) where
  -- A container around what `fill` puts.
  unfoldable pub encode_container : Kind → (W → Result ChipError W) → Encoder W
  encode_container kind fill tag w = call (start tag kind) w >>= λ w. fill w >>= call finish

  unfoldable pub put_property : Option (Scalar F) → Encoder W
  put_property none tag w = err invalid_argument
  put_property (some s) tag w = call (put tag s) w

module _ {H F W : Type 0} (to_string : H → List ℕ) (call : Call F → W → Result ChipError W) where
  unfoldable pub encode_property_set : List (H × Encoder W) → Encoder W
  unfolding encode_entries encode_container
  encode_property_set entries = encode_container call structure (encode_entries to_string entries)

  unfoldable mutual
    unfolding scalar_of put_property encode_property_set

    pub encode_value : Value H F → Encoder W
    encode_value Value.null tag w = call (put tag Scalar.null) w
    encode_value (property p) tag w = put_property call (scalar_of to_string p) tag w
    encode_value (byte_vector b) tag w = call (put tag (bytes b)) w
    encode_value (vector items) tag w = encode_container call array (encode_items items) tag w
    encode_value (property_set fields) tag w = encode_property_set (field_encoders fields) tag w
    encode_value object tag w = err invalid_argument

    pub encode_items : Items H F → W → Result ChipError W
    encode_items no_items w = ok w
    encode_items (item v items) w = encode_value v anonymous w >>= λ w. encode_items items w

    pub field_encoders : Fields H F → List (H × Encoder W)
    field_encoders no_fields = []
    field_encoders (field k v rest) = (k, encode_value v) ∷ field_encoders rest
