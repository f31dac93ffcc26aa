-- ===== src/Tlv/Root.antt =====
-- winrt/Projection.cpp, EncodePropertySetRoot, and its round trip with DecodePropertySetRoot. Of the SDK
-- here: the writer on its empty buffer of 64 KB, Finalize, and the reader that is opened on the bytes.
use matter_winrt.Base.{
  ℕ, suc, ◌≤◌, ◌==◌, ◌≡◌, refl, sym, ◌∙◌, Bool, Option, none, some, List, [], if◌then◌else◌, Result,
  ok, err, ◌>>=◌, bind-ok, arith,
}
use mathlib.Core.Path.{subst}
use matter_winrt.Chip.{ChipError, invalid_argument}
use matter_winrt.Tlv.{
  Value, property_set, Fields, no_fields, field, Tag, anonymous, Scalar, Element, Elements,
}
use matter_winrt.Tlv.Encode.{Call, encode_property_set, encode_value, field_encoders}
use matter_winrt.Tlv.Encode.Document.{calls, put_all, document}
use matter_winrt.Tlv.Encode.Writes.{Encodes, Fails}
use matter_winrt.Tlv.Encode.Agrees.{encode_writes, encode_value-property_set}
use matter_winrt.Tlv.Decode.{ElementType, decoded, decode_root, root_fields}
use matter_winrt.Tlv.Decode.Reader.{Reads, size}
use matter_winrt.Tlv.Decode.Agrees.{root_agrees}
use matter_winrt.Tlv.Known.{Known, decoded-Known}
use matter_winrt.Tlv.RoundTrip.{projected, document_round_trip}

module _ {H F : Type 0} (same : H → H → Bool) where
  -- HasKey and Lookup.
  unfoldable pub lookup : H → Fields H F → Option (Value H F)
  lookup k no_fields = none
  lookup k (field j v rest) = let later = lookup k rest in if same k j then some v else later

module _ {H F : Type 0} (same : H → H → Bool) (value_key : H) where
  -- The value that a property set stands for.
  unfoldable pub root_value : Fields H F → Value H F
  unfolding lookup
  root_value set = elim (lookup same value_key set) [ some v ↦ v | none ↦ property_set set ]

unfoldable pub count : {H F : Type 0} → Fields H F → ℕ
count no_fields = 0
count (field k v rest) = suc (count rest)

module _ {H F W B : Type 0} (same : H → H → Bool) (to_string : H → List ℕ) (value_key : H)
    (call : Call F → W → Result ChipError W) (empty : W) (finalize : W → Result ChipError B) where
  -- A null property set is `none`.
  unfoldable pub encode_root : Option (Fields H F) → Result ChipError B
  unfolding lookup count
  encode_root none = err invalid_argument
  encode_root (some set) = elim (lookup same value_key set) [
    | some v ↦
        if count set == 1
        then encode_value to_string call v anonymous empty >>= finalize
        else err invalid_argument
    | none ↦
        encode_property_set to_string call (field_encoders to_string call set) anonymous empty
        >>= finalize
  ]

  -- What EncodePropertySetRoot encodes is that value.
  by_root :
      (set : Fields H F) (b : B) (o : Option (Value H F))
      → (elim o [
        | some v ↦
            if count set == 1
            then encode_value to_string call v anonymous empty >>= finalize
            else err invalid_argument
        | none ↦
            encode_property_set to_string call (field_encoders to_string call set) anonymous empty
            >>= finalize
      ])
        ≡ ok b
      → (encode_value to_string call
            (elim o [ some v ↦ v | none ↦ property_set set ])
            anonymous
            empty
          >>= finalize)
        ≡ ok b
  by_root set b none h = rw (encode_value-property_set to_string call set) h
  by_root set b (some v) h = ground arith

  root_encoded :
      (set : Fields H F) (b : B)
      → encode_root (some set) ≡ ok b
      → (encode_value to_string call (root_value same value_key set) anonymous empty >>= finalize)
        ≡ ok b
  unfolding encode_root root_value
  root_encoded set b h = by_root set b (lookup same value_key set) h

module _ {H F W : Type 0} (to_string : H → List ℕ) (call : Call F → W → Result ChipError W)
    (empty : W) where
  -- What is encoded has a document, and the writer took the calls of that document.
  encoded_document :
      (v : Value H F) (w : W) (o : Option (Element F))
      → Encodes call o (encode_value to_string call v)
      → encode_value to_string call v anonymous empty ≡ ok w
      → (e : Element F) × (o ≡ some e) × (put_all call (calls anonymous e) empty ≡ ok w)
  encoded_document v w none f h = absurd (never (f anonymous empty))
    where
      never : Fails (encode_value to_string call v anonymous empty) → ⊥
      never (x, e) = cc
  encoded_document v w (some e) f h = (e, refl, sym (f anonymous empty) ∙ h)

-- The fuel that decoding a document takes.
unfoldable pub enough : {F : Type 0} → Option (Element F) → ℕ
enough none = 0
enough (some e) = size e

module _ {H F W B R : Type 0} (same : H → H → Bool) (to_string : H → List ℕ)
    (to_hstring : List ℕ → H) (number_text : ℕ → H) (value_key : H)
    (call : Call F → W → Result ChipError W) (empty : W) (finalize : W → Result ChipError B)
    (get_type : R → ElementType) (get_tag : R → Tag) (get : R → Result ChipError (Scalar F))
    (enter_container exit_container next : R → Result ChipError R)
    (At : List (Elements F) → R → Type 0) (On : Tag → Element F → List (Elements F) → R → Type 0)
    (reads : Reads get_type get_tag get enter_container exit_container next At On)
    (start : B → R) where
  -- The reader of finished bytes stands on the element that the writer's calls wrote, if its types are
  -- known.
  abbrev pub ReadsWritten : Type 0
  ReadsWritten =
      (e : Element F) (w : W) (b : B)
      → Known e
      → put_all call (calls anonymous e) empty ≡ ok w
      → finalize w ≡ ok b
      → On anonymous e [] (start b)

  -- Where the reader of finished bytes follows what was written, what EncodePropertySetRoot encodes into
  -- bytes, DecodePropertySetRoot decodes from them, with enough fuel, to the projection of the value that was encoded.
  pub encode_decode :
      (set : Fields H F) (b : B) (fuel : ℕ)
      → ReadsWritten
      → encode_root same to_string value_key call empty finalize (some set) ≡ ok b
      → enough (document to_string (root_value same value_key set)) ≤ fuel
      → (r : R) × (decode_root same to_hstring number_text get_type get_tag get enter_container
            exit_container next value_key fuel
            (start b)
          ≡ decoded
              (root_fields value_key
                (projected same to_string to_hstring number_text (root_value same value_key set)))
              r)
  unfolding enough
  encode_decode set b fuel back h l =
      let v = root_value same value_key set in
      let (w, c, f) =
        bind-ok (encode_value to_string call v anonymous empty) finalize b
          (root_encoded same to_string value_key call empty finalize set b h) in
      let (e, d, p) =
        encoded_document to_string call empty v w (document to_string v)
          (encode_writes to_string call v) c in
      let u = projected same to_string to_hstring number_text v in
      let q = document_round_trip same to_string to_hstring number_text v e d in
      let m : enough (some e) ≤ fuel = subst (λ o. enough o ≤ fuel) d l in
      root_agrees same to_hstring number_text get_type get_tag get enter_container exit_container
        next At On reads value_key fuel anonymous e [] (start b) u m
        (back e w b (decoded-Known same to_hstring number_text e u q) p f) q
