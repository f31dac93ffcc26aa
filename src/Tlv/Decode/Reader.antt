-- ===== src/Tlv/Decode/Reader.antt =====
-- What the decoder of winrt/Projection.cpp makes of a document: the reference decoder `value_of` on the
-- tree of elements, the documented behaviour of the reader on that tree, and that DecodeTlvValue, in
-- its loops on Next, agrees with the reference on every element.
use matter_winrt.Base.{ℕ, suc, ◌+◌, ◌≡◌, Bool, List, ◌∷◌, Result, ok, err, ◌>>=◌}
use matter_winrt.Chip.{ChipError, invalid_tlv_tag, wrong_tlv_type, end_of_tlv}
use matter_winrt.Tlv.{
  Value, vector, property_set, Items, no_items, item, Fields, no_fields, Tag, anonymous, context,
  profile, Kind, Scalar, signed, unsigned, floating, utf8, bytes, Element, scalar, container,
  unknown, Elements, no_elements, element,
}
use matter_winrt.Tlv.Decode.{ElementType, box, insert}

abbrev pub kind_type : Kind → ElementType
kind_type Kind.structure = ElementType.structure
kind_type Kind.array = ElementType.array
kind_type Kind.list = ElementType.list

abbrev pub scalar_type : {F : Type 0} → Scalar F → ElementType
scalar_type Scalar.null = ElementType.null
scalar_type (Scalar.boolean b) = ElementType.boolean
scalar_type (signed z) = ElementType.signed_integer
scalar_type (unsigned n) = ElementType.unsigned_integer
scalar_type (floating x) = ElementType.floating_point
scalar_type (utf8 u) = ElementType.utf8_string
scalar_type (bytes b) = ElementType.byte_string

abbrev pub element_type : {F : Type 0} → Element F → ElementType
element_type (scalar x) = scalar_type x
element_type (container k es) = kind_type k
element_type unknown = ElementType.other

-- How many calls deep the decoder goes on an element.
unfoldable mutual
  pub size : {F : Type 0} → Element F → ℕ
  size (scalar x) = 1
  size (container k es) = suc (size_elements es)
  size unknown = 1

  pub size_elements : {F : Type 0} → Elements F → ℕ
  size_elements no_elements = 1
  size_elements (element t e es) = suc (size e + size_elements es)

-- The reference decoder.
module _ {H F : Type 0} (same : H → H → Bool) (to_hstring : List ℕ → H) (number_text : ℕ → H) where
  unfoldable mutual
    unfolding box insert

    pub value_of : Element F → Result ChipError (Value H F)
    value_of (scalar x) = ok (box to_hstring x)
    value_of (container Kind.structure es) =
        fields_of es no_fields >>= λ fields. ok (property_set fields)
    value_of (container Kind.array es) = items_of es >>= λ items. ok (vector items)
    value_of (container Kind.list es) = items_of es >>= λ items. ok (vector items)
    value_of unknown = err wrong_tlv_type

    pub fields_of : Elements F → Fields H F → Result ChipError (Fields H F)
    fields_of no_elements set = ok set
    fields_of (element (context n) e es) set =
        value_of e >>= λ v. fields_of es (insert same (number_text n) v set)
    fields_of (element anonymous e es) set = err invalid_tlv_tag
    fields_of (element (profile n) e es) set = err invalid_tlv_tag

    pub items_of : Elements F → Result ChipError (Items H F)
    items_of no_elements = ok no_items
    items_of (element t e es) = value_of e >>= λ v. items_of es >>= λ items. ok (item v items)

-- `On t e stack r`: the reader stands on an element. `At stack r`: it stands before the elements that
-- are left of the innermost container, and of each container around it.
module _ {F R : Type 0} (get_type : R → ElementType) (get_tag : R → Tag)
    (get : R → Result ChipError (Scalar F))
    (enter_container exit_container next : R → Result ChipError R) where
  pub record Reads (At : List (Elements F) → R → Type 0)
      (On : Tag → Element F → List (Elements F) → R → Type 0) : Type 0 where
    pub leave : (t : Tag) (e : Element F) (s : List (Elements F)) (r : R) → On t e s r → At s r
    pub type_of :
        (t : Tag) (e : Element F) (s : List (Elements F)) (r : R)
        → On t e s r
        → get_type r ≡ element_type e
    pub tag_of :
        (t : Tag) (e : Element F) (s : List (Elements F)) (r : R) → On t e s r → get_tag r ≡ t
    pub get_of :
        (t : Tag) (x : Scalar F) (s : List (Elements F)) (r : R)
        → On t (scalar x) s r
        → get r ≡ ok x
    pub next_end :
        (s : List (Elements F)) (r : R) → At (no_elements ∷ s) r → next r ≡ err end_of_tlv
    pub next_on :
        (t : Tag) (e : Element F) (es : Elements F) (s : List (Elements F)) (r : R)
        → At (element t e es ∷ s) r
        → (r' : R) × (next r ≡ ok r') × On t e (es ∷ s) r'
    pub enter_on :
        (t : Tag) (k : Kind) (es : Elements F) (s : List (Elements F)) (r : R)
        → On t (container k es) s r
        → (r' : R) × (enter_container r ≡ ok r') × At (es ∷ s) r'
    pub exit_at :
        (s : List (Elements F)) (r : R)
        → At (no_elements ∷ s) r
        → (r' : R) × (exit_container r ≡ ok r') × At s r'
