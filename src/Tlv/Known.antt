-- ===== src/Tlv/Known.antt =====
-- The documents of winrt/Projection.cpp whose every element has a type that DecodeTlvValue knows.
use matter_winrt.Base.{ℕ, ◌≡◌, Bool, List, ok, ◌>>=◌, bind-ok}
use matter_winrt.Tlv.{
  Value, vector, property_set, Items, item, Fields, no_fields, anonymous, context, profile, Kind,
  Element, scalar, container, unknown, Elements, no_elements, element,
}
use matter_winrt.Tlv.Decode.{insert}
use matter_winrt.Tlv.Decode.Reader.{value_of, fields_of, items_of}

unfoldable mutual
  pub Known : {F : Type 0} → Element F → Type 0
  Known (scalar x) = Unit
  Known (container k es) = AllKnown es
  Known unknown = ⊥

  pub AllKnown : {F : Type 0} → Elements F → Type 0
  AllKnown no_elements = Unit
  AllKnown (element t e es) = Known e × AllKnown es

module _ {H F : Type 0} (same : H → H → Bool) (to_hstring : List ℕ → H) (number_text : ℕ → H) where
  mutual
    unfolding value_of fields_of items_of Known AllKnown

    -- What the reference decoder decodes.
    pub decoded-Known :
        (e : Element F) (v : Value H F) → value_of same to_hstring number_text e ≡ ok v → Known e
    decoded-Known (scalar x) v h = tt
    decoded-Known (container Kind.structure es) v h =
        let (entries, g, k) =
          bind-ok (fields_of same to_hstring number_text es no_fields)
            (λ out. ok (property_set out)) v h in
        fields-Known es no_fields entries g
    decoded-Known (container Kind.array es) v h =
        let (items, g, k) =
          bind-ok (items_of same to_hstring number_text es) (λ items. ok (vector items)) v h in
        items-Known es items g
    decoded-Known (container Kind.list es) v h =
        let (items, g, k) =
          bind-ok (items_of same to_hstring number_text es) (λ items. ok (vector items)) v h in
        items-Known es items g
    decoded-Known unknown v h = cc

    fields-Known :
        (es : Elements F) (set out : Fields H F)
        → fields_of same to_hstring number_text es set ≡ ok out
        → AllKnown es
    fields-Known no_elements set out h = tt
    fields-Known (element (context n) e es) set out h =
        let (v, g, k) =
          bind-ok (value_of same to_hstring number_text e)
            (λ v. fields_of same to_hstring number_text es (insert same (number_text n) v set)) out
            h in
        (decoded-Known e v g, fields-Known es (insert same (number_text n) v set) out k)
    fields-Known (element anonymous e es) set out h = absurd (cc)
    fields-Known (element (profile n) e es) set out h = absurd (cc)

    items-Known :
        (es : Elements F) (items : Items H F)
        → items_of same to_hstring number_text es ≡ ok items
        → AllKnown es
    items-Known no_elements items h = tt
    items-Known (element t e es) items h =
        let (v, g, k) =
          bind-ok (value_of same to_hstring number_text e)
            (λ v. items_of same to_hstring number_text es >>= λ items. ok (item v items)) items h in
        let (rest, m, n) =
          bind-ok (items_of same to_hstring number_text es) (λ items. ok (item v items)) items k in
        (decoded-Known e v g, items-Known es rest m)
