-- ===== src/Tlv.antt =====
-- The generic values of winrt/Projection.cpp and the TLV elements that carry them. A value is an
-- IInspectable: `H` are the hstrings, `F` the doubles, of which each float is one. The bytes of an
-- element are the SDK's: a document is a tree of tagged elements.
pub mod Encode
pub mod Root
pub mod RoundTrip
pub mod PropertyScalar
pub mod Decode
pub mod Known
pub mod Tree
pub mod Tests
use matter_winrt.Base.{ℕ, Bool, List, ℤ, Option, none, some}

-- IPropertyValue, by its Type().
pub data Property (H F : Type 0) : Type 0 where
  boolean : Bool → Property H F
  int16 int32 int64 : ℤ → Property H F
  uint8 uint16 uint32 uint64 : ℕ → Property H F
  single double : F → Property H F
  string : H → Property H F
  uint8_array : List ℕ → Property H F
  -- Each other type.
  other : Property H F

mutual
  pub data Value (H F : Type 0) : Type 0 where
    null : Value H F
    property : Property H F → Value H F
    byte_vector : List ℕ → Value H F
    vector : Items H F → Value H F
    property_set : Fields H F → Value H F
    -- An object that is none of these.
    object : Value H F

  pub data Items (H F : Type 0) : Type 0 where
    no_items : Items H F
    item : Value H F → Items H F → Items H F

  -- The entries of an IPropertySet, in the order of its iteration.
  pub data Fields (H F : Type 0) : Type 0 where
    no_fields : Fields H F
    field : H → Value H F → Fields H F → Fields H F

pub data Tag : Type 0 where
  anonymous : Tag
  context : ℕ → Tag
  profile : ℕ → Tag

pub data Kind : Type 0 where
  structure array list : Kind

-- What Put and Get transfer; text is UTF-8.
pub data Scalar (F : Type 0) : Type 0 where
  null : Scalar F
  boolean : Bool → Scalar F
  signed : ℤ → Scalar F
  unsigned : ℕ → Scalar F
  floating : F → Scalar F
  utf8 : List ℕ → Scalar F
  bytes : List ℕ → Scalar F

mutual
  pub data Element (F : Type 0) : Type 0 where
    scalar : Scalar F → Element F
    container : Kind → Elements F → Element F
    -- A type that DecodeTlvValue does not know.
    unknown : Element F

  pub data Elements (F : Type 0) : Type 0 where
    no_elements : Elements F
    element : Tag → Element F → Elements F → Elements F
