-- ===== src/Tlv/Decode.antt =====
-- winrt/Projection.cpp, DecodeTlvValue and DecodePropertySetRoot. The TLV reader is the SDK's: a
-- reader `R` is a parameter with its calls, and Get gives the value of the element under the reader.
-- `number_text` is to_hstring of a tag number. The recursion and the loops are on fuel.
pub mod Agrees
pub mod Reader
use matter_winrt.Base.{
  ℕ, zero, suc, Bool, true, false, Option, none, some, List, if◌then◌else◌, Result, ok, err,
}
use matter_winrt.Chip.{ChipError, invalid_tlv_tag, wrong_tlv_type, end_of_tlv, is_error}
use matter_winrt.Tlv.{
  Property, int64, uint64, double, string, Value, property, byte_vector, vector, property_set,
  Items, no_items, item, Fields, no_fields, field, Tag, anonymous, context, profile, Scalar, signed,
  unsigned, floating, utf8, bytes,
}

-- TLVType, as far as the switch names it.
pub data ElementType : Type 0 where
  boolean signed_integer unsigned_integer floating_point utf8_string byte_string null : ElementType
  structure array list : ElementType
  other : ElementType

pub data Decoded (R A : Type 0) : Type 0 where
  -- CHIP_NO_ERROR, with the value and the reader after it; an error.
  decoded : A → R → Decoded R A
  failed : ChipError → Decoded R A
  out_of_fuel : Decoded R A

module _ {R A B : Type 0} where
  -- ReturnErrorOnFailure of a decoding, and of a call of the reader.
  abbrev pub and_then : Decoded R A → (A → R → Decoded R B) → Decoded R B
  and_then (decoded a r) f = f a r
  and_then (failed e) f = failed e
  and_then out_of_fuel f = out_of_fuel

module _ {R B : Type 0} where
  abbrev pub moved : Result ChipError R → (R → Decoded R B) → Decoded R B
  moved (ok r) f = f r
  moved (err e) f = failed e

  -- The end of a loop on Next: only CHIP_END_OF_TLV is no error.
  abbrev pub at_next : Result ChipError R → Decoded R B → (R → Decoded R B) → Decoded R B
  at_next (ok r) end f = f r
  at_next (err end_of_tlv) end f = end
  at_next (err e) end f = failed e

  -- One round of the loop of a structure, whose tag must be a context tag.
  abbrev pub tagged : Tag → (ℕ → Decoded R B) → Decoded R B
  tagged (context n) f = f n
  tagged anonymous f = failed invalid_tlv_tag
  tagged (profile n) f = failed invalid_tlv_tag

module _ {H F : Type 0} (to_hstring : List ℕ → H) where
  -- box_value of what Get delivers.
  unfoldable pub box : Scalar F → Value H F
  box Scalar.null = Value.null
  box (Scalar.boolean b) = property (Property.boolean b)
  box (signed z) = property (int64 z)
  box (unsigned n) = property (uint64 n)
  box (floating x) = property (double x)
  box (utf8 u) = property (string (to_hstring u))
  box (bytes b) = byte_vector b

module _ {H F : Type 0} (same : H → H → Bool) where
  -- PropertySet.Insert.
  unfoldable pub insert : H → Value H F → Fields H F → Fields H F
  insert k v no_fields = field k v no_fields
  insert k v (field j u set) =
      let rest = insert k v set in if same k j then field j v set else field j u rest

module _ {H F : Type 0} where
  -- What the value is projected as: itself, or a property set with this key alone.
  unfoldable pub root_fields : H → Value H F → Fields H F
  root_fields value_key (property_set fields) = fields
  root_fields value_key v = field value_key v no_fields

-- The calls of the reader.
module _ {H F R : Type 0} (same : H → H → Bool) (to_hstring : List ℕ → H) (number_text : ℕ → H)
    (get_type : R → ElementType) (get_tag : R → Tag) (get : R → Result ChipError (Scalar F))
    (enter_container exit_container next : R → Result ChipError R) where
  -- A scalar, through Get.
  pub decode_scalar : R → Decoded R (Value H F)
  unfolding box
  decode_scalar r = elim (get r) [ err e ↦ failed e | ok x ↦ decoded (box to_hstring x) r ]

  mutual
    unfolding decode_scalar insert

    pub decode_value : ℕ → R → Decoded R (Value H F)
    decode_value zero r = out_of_fuel
    decode_value (suc fuel) r = elim (get_type r) [
      | ElementType.null ↦ decoded Value.null r
      | structure ↦ moved (enter_container r) λ r.
          and_then (decode_fields fuel no_fields r)
            λ fields r. moved (exit_container r) λ r. decoded (property_set fields) r
      | array ↦ moved (enter_container r) λ r.
          and_then (decode_items fuel r)
            λ items r. moved (exit_container r) λ r. decoded (vector items) r
      | list ↦ moved (enter_container r) λ r.
          and_then (decode_items fuel r)
            λ items r. moved (exit_container r) λ r. decoded (vector items) r
      | other ↦ failed wrong_tlv_type
      | _ ↦ decode_scalar r
    ]

    pub decode_fields : ℕ → Fields H F → R → Decoded R (Fields H F)
    decode_fields zero set r = out_of_fuel
    decode_fields (suc fuel) set r = at_next (next r) (decoded set r) λ r. tagged (get_tag r) λ n.
        and_then (decode_value fuel r)
          λ v r. decode_fields fuel (insert same (number_text n) v set) r

    pub decode_items : ℕ → R → Decoded R (Items H F)
    decode_items zero r = out_of_fuel
    decode_items (suc fuel) r = at_next (next r) (decoded no_items r) λ r.
        and_then (decode_value fuel r)
          λ v r. and_then (decode_items fuel r) λ items r. decoded (item v items) r

  -- DecodePropertySetRoot; `value_key` is the key "value".
  pub decode_root : H → ℕ → R → Decoded R (Fields H F)
  unfolding decode_value root_fields
  decode_root value_key fuel r =
      and_then (decode_value fuel r) λ v r. decoded (root_fields value_key v) r
