-- ===== src/Tlv/PropertyScalar.antt =====
-- winrt/Projection.cpp, PropertySetScalar: a number or another scalar out of a property set. What is
-- thrown inside its try block, of whatever kind, is thrown again as E_INVALIDARG.
use matter_winrt.Base.{
  ℕ, ◌≡◌, ◌↔◌, ◌⊎◌, refl, Bool, ltb, ℤ, pos, negsuc, Option, none, some, if◌then◌else◌, Result, ok,
  err, inl, inr, arith,
}
use matter_winrt.Tlv.{
  int64, uint64, Value, property, vector, byte_vector, property_set, object, Fields,
}
use matter_winrt.Tlv.Root.{lookup}

pub data Hresult : Type 0 where
  e_bounds e_invalidarg e_nointerface : Hresult

abbrev pub out_of_range : ℕ → ℤ → Bool
out_of_range max (pos n) = ltb max n
out_of_range max (negsuc n) = ltb max n

module _ {H F : Type 0} where
  -- unbox_value of one type.
  unfoldable pub unbox_uint64 : Value H F → Result Hresult ℕ
  unbox_uint64 (property (uint64 n)) = ok n
  unbox_uint64 _ = err e_nointerface

  unfoldable pub unbox_int64 : Value H F → Result Hresult ℤ
  unbox_int64 (property (int64 z)) = ok z
  unbox_int64 _ = err e_nointerface

  -- The values of an unsigned type up to `max`, and of a signed type from -max - 1 to max.
  unfoldable pub unsigned_value : ℕ → Value H F → Result Hresult ℕ
  unfolding unbox_uint64
  unsigned_value max v = elim (unbox_uint64 v) [
    | err e ↦ err e
    | ok n ↦ if ltb max n then err e_bounds else ok n
  ]

  unfoldable pub signed_value : ℕ → Value H F → Result Hresult ℤ
  unfolding unbox_int64
  signed_value max v = elim (unbox_int64 v) [
    | err e ↦ err e
    | ok z ↦ if out_of_range max z then err e_bounds else ok z
  ]

-- The catch clause.
unfoldable pub rethrown : {A : Type 0} → Result Hresult A → Result Hresult A
rethrown (ok a) = ok a
rethrown (err e) = err e_invalidarg

module _ {H F A : Type 0} (same : H → H → Bool) (value_key : H)
    (read : Value H F → Result Hresult A) where
  unfoldable pub present : Option (Value H F) → Result Hresult A
  unfolding rethrown
  present none = err e_bounds
  present (some Value.null) = err e_bounds
  present (some (property p)) = rethrown (read (property p))
  present (some (byte_vector b)) = rethrown (read (byte_vector b))
  present (some (vector items)) = rethrown (read (vector items))
  present (some (property_set set)) = rethrown (read (property_set set))
  present (some object) = rethrown (read object)

  -- A null property set is `none`; `read` is unsigned_value, signed_value or another unbox_value.
  unfoldable pub property_set_scalar : Option (Fields H F) → Result Hresult A
  unfolding present
  property_set_scalar none = err e_bounds
  property_set_scalar (some set) = present (lookup same value_key set)

  -- The value is null or missing.
  pub Missing : Option (Fields H F) → Type 0
  Missing none = Unit
  Missing (some set) =
      (lookup same value_key set ≡ none) ⊎ (lookup same value_key set ≡ some Value.null)

  rethrown-bounds : (r : Result Hresult A) → rethrown r ≡ err e_bounds → ⊥
  unfolding rethrown
  rethrown-bounds (ok a) h = cc
  rethrown-bounds (err e) h = cc

  present-bounds :
      (o : Option (Value H F)) → (present o ≡ err e_bounds) ↔ ((o ≡ none) ⊎ (o ≡ some Value.null))
  unfolding present
  present-bounds none = (λ h. inl refl, λ h. refl)
  present-bounds (some Value.null) = (λ h. inr refl, λ h. refl)
  present-bounds (some (property p)) =
      (λ h. absurd (rethrown-bounds (read (property p)) h), λ h. ground arith)
  present-bounds (some (byte_vector b)) =
      (λ h. absurd (rethrown-bounds (read (byte_vector b)) h), λ h. ground arith)
  present-bounds (some (vector items)) =
      (λ h. absurd (rethrown-bounds (read (vector items)) h), λ h. ground arith)
  present-bounds (some (property_set set)) =
      (λ h. absurd (rethrown-bounds (read (property_set set)) h), λ h. ground arith)
  present-bounds (some object) = (λ h. absurd (rethrown-bounds (read object) h), λ h. ground arith)

  -- PropertySetScalar throws E_BOUNDS exactly if the value is null or missing: the E_BOUNDS of a value
  -- outside the projected range never leaves it.
  pub bounds_only_if_Missing :
      (values : Option (Fields H F)) → (property_set_scalar values ≡ err e_bounds) ↔ Missing values
  unfolding property_set_scalar Missing
  bounds_only_if_Missing none = (λ h. tt, λ h. refl)
  bounds_only_if_Missing (some set) = present-bounds (lookup same value_key set)
