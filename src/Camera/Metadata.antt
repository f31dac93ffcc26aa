-- ===== src/Camera/Metadata.antt =====
-- winrt/Projection.cpp, DescriptorList, DescriptorUnsigned, DescriptorNumericList, CameraStreamField and
-- the structures that camera code reads with them. `same` compares two keys of a property set, `key`
-- gives their texts, and `id` the SDK's numbers.
pub mod Descriptor
pub mod Streams
pub mod Audio
pub mod Sample
use matter_winrt.Base.{
  ℕ, suc, ltb, ◌==◌, ◌||◌, Bool, true, false, List, [], ◌∷◌, Option, none, some, if◌then◌else◌,
  Result, ok, err, ◌>>=◌, is_some,
}
use matter_winrt.Tlv.{
  boolean, property, byte_vector, vector, property_set, object, Value, Items, no_items, item,
  Fields,
}
use matter_winrt.Tlv.Root.{lookup}
use matter_winrt.Tlv.PropertyScalar.{
  Hresult, e_bounds, e_invalidarg, e_nointerface, property_set_scalar, unbox_uint64,
}
use matter_winrt.Camera.Failure.{Exception}
use matter_winrt.Camera.Failure

-- What ends an operation early: an exception, or the call of a method on a null reference.
pub data Fault : Type 0 where
  thrown : Exception → Fault
  null_dereference : Fault

abbrev pub throws : Failure.Hresult → Fault
throws h = thrown (Exception.hresult h)

abbrev pub bounds_error : Fault
bounds_error = throws Failure.Hresult.bounds

abbrev pub no_interface_error : Fault
no_interface_error = throws Failure.Hresult.no_interface

abbrev pub scalar_error : Hresult → Failure.Hresult
scalar_error e_bounds = Failure.Hresult.bounds
scalar_error e_invalidarg = Failure.Hresult.invalid_argument
scalar_error e_nointerface = Failure.Hresult.no_interface

-- A value of PropertyScalar, with what it throws.
abbrev pub raised : {A : Type 0} → Result Hresult A → Result Fault A
raised (ok a) = ok a
raised (err e) = err (throws (scalar_error e))

-- The keys of the property sets: L"value", and the field numbers.
pub data Key : Type 0 where
  value : Key
  number : ℕ → Key

-- std::find.
unfoldable pub advertises : List ℕ → ℕ → Bool
advertises [] n = false
advertises (m ∷ ms) n = let rest = advertises ms n in (m == n) || rest

unfoldable pub size : {H F : Type 0} → Items H F → ℕ
size no_items = 0
size (item v rest) = suc (size rest)

module _ {H F : Type 0} where
  -- A value that is not null, as a vector of objects.
  unfoldable pub bounded_list : Value H F → Result Fault (Items H F)
  unfolding size
  bounded_list (vector items) = if ltb 512 (size items) then err bounds_error else ok items
  bounded_list _ = err no_interface_error

  -- The result of Lookup, of a key that is missing or not.
  unfoldable pub listed : Option (Value H F) → Result Fault (Items H F)
  unfolding bounded_list
  listed none = err bounds_error
  listed (some Value.null) = err bounds_error
  listed (some v) = bounded_list v

  -- `max` is the greatest value of the projected type.
  unfoldable pub descriptor_unsigned : ℕ → Value H F → Result Fault ℕ
  unfolding unbox_uint64
  descriptor_unsigned max Value.null = err bounds_error
  descriptor_unsigned max v = elim (unbox_uint64 v) [
    | err e ↦ err (throws (scalar_error e))
    | ok n ↦ if ltb max n then err bounds_error else ok n
  ]

  unfoldable pub unsigned_items : ℕ → Items H F → Result Fault (List ℕ)
  unfolding descriptor_unsigned
  unsigned_items max no_items = ok []
  unsigned_items max (item v rest) =
      let later = unsigned_items max rest in
      descriptor_unsigned max v >>= λ n. later >>= λ ns. ok (n ∷ ns)

  -- as<IPropertySet>, which takes null to null.
  unfoldable pub as_property_set : Value H F → Result Fault (Option (Fields H F))
  as_property_set Value.null = ok none
  as_property_set (property_set fields) = ok (some fields)
  as_property_set _ = err no_interface_error

  unfoldable pub unbox_bool : Value H F → Result Hresult Bool
  unbox_bool (property (boolean b)) = ok b
  unbox_bool _ = err e_nointerface

module _ {H F : Type 0} (same : H → H → Bool) (key : Key → H) where
  unfoldable pub has_key : Key → Fields H F → Bool
  unfolding lookup
  has_key k fields = is_some (lookup same (key k) fields)

  -- A null property set is `none`.
  unfoldable pub descriptor_list : Option (Fields H F) → Result Fault (Items H F)
  unfolding lookup listed
  descriptor_list none = err bounds_error
  descriptor_list (some fields) = listed (lookup same (key value) fields)

  unfoldable pub descriptor_numeric_list : ℕ → Option (Fields H F) → Result Fault (List ℕ)
  unfolding descriptor_list unsigned_items
  descriptor_numeric_list max fields = descriptor_list fields >>= unsigned_items max

  -- DescriptorUnsigned of what Lookup returns; Lookup of a missing key throws E_BOUNDS.
  unfoldable pub unsigned_at : ℕ → Key → Fields H F → Result Fault ℕ
  unfolding lookup descriptor_unsigned
  unsigned_at max k fields = elim (lookup same (key k) fields) [
    | none ↦ err bounds_error
    | some v ↦ descriptor_unsigned max v
  ]

  unfoldable pub camera_stream_field : ℕ → Key → Option (Fields H F) → Result Fault ℕ
  unfolding unsigned_at
  camera_stream_field max k none = err bounds_error
  camera_stream_field max k (some fields) = unsigned_at max k fields

  -- PropertySetScalar<bool>.
  unfoldable pub boolean_scalar : Fields H F → Result Fault Bool
  unfolding property_set_scalar unbox_bool
  boolean_scalar fields = raised (property_set_scalar same (key value) unbox_bool (some fields))
