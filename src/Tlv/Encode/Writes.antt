-- ===== src/Tlv/Encode/Writes.antt =====
-- That EncodeInspectable (winrt/Projection.cpp) makes the calls of the document of its value.
use matter_winrt.Base.{
  ℕ, ◌≡◌, refl, sym, ◌∙◌, Option, none, some, List, [], ◌∷◌, ◌++◌, Result, ok, err, ◌>>=◌,
}
use matter_winrt.Chip.{ChipError, invalid_argument}
use matter_winrt.Tlv.{Tag, context, Kind, Scalar, Element, Elements}
use matter_winrt.Tlv.Encode.{
  Call, start, finish, put, Encoder, put_fields, encode_container, put_property,
}
use matter_winrt.Tlv.Encode.Paired.{Paired}
use matter_winrt.Tlv.Encode.Document.{
  calls, calls_of, put_all, scalar_element, in_container, add_element, field_elements,
}

abbrev pub Fails : {W : Type 0} → Result ChipError W → Type 0
Fails r = (x : ChipError) × (r ≡ err x)

module _ {F W : Type 0} (call : Call F → W → Result ChipError W) where
  -- An encoder makes the calls of a document, or it fails.
  abbrev pub Encodes : Option (Element F) → Encoder W → Type 0
  Encodes (some e) f = (t : Tag) (w : W) → f t w ≡ put_all call (calls t e) w
  Encodes none f = (t : Tag) (w : W) → Fails (f t w)

  abbrev pub Puts : Option (Elements F) → (W → Result ChipError W) → Type 0
  Puts (some es) f = (w : W) → f w ≡ put_all call (calls_of es) w
  Puts none f = (w : W) → Fails (f w)

  bind-put_all :
      (r : Result ChipError W) (xs ys : List (Call F))
      → ((w : W) → put_all call (xs ++ ys) w ≡ (put_all call xs w >>= put_all call ys))
      → (r >>= put_all call (xs ++ ys)) ≡ (r >>= put_all call xs >>= put_all call ys)
  bind-put_all (ok w) xs ys h = h w
  bind-put_all (err e) xs ys h = refl

  pub put_all-append :
      (xs ys : List (Call F)) (w : W)
      → put_all call (xs ++ ys) w ≡ (put_all call xs w >>= put_all call ys)
  unfolding put_all
  put_all-append [] ys w = refl
  put_all-append (x ∷ xs) ys w = bind-put_all (call x w) xs ys (put_all-append xs ys)

  bind-Fails :
      (r : Result ChipError W) (f : W → Result ChipError W)
      → ((w : W) → Fails (f w))
      → Fails (r >>= f)
  bind-Fails (ok w) f h = h w
  bind-Fails (err e) f h = (e, refl)

  Fails-bind : (r : Result ChipError W) (f : W → Result ChipError W) → Fails r → Fails (r >>= f)
  Fails-bind r f (x, e) = rw e (x, refl)

  bind_same :
      (r : Result ChipError W) (f g : W → Result ChipError W)
      → ((w : W) → f w ≡ g w)
      → (r >>= f) ≡ (r >>= g)
  bind_same (ok w) f g h = h w
  bind_same (err e) f g h = refl

  -- One element, and then the others.
  pub Puts-add :
      (t : Tag) (o : Option (Element F)) (p : Option (Elements F)) (f : Encoder W)
      (g : W → Result ChipError W)
      → Encodes o f
      → Puts p g
      → Puts (add_element t o p) (λ w. f t w >>= g)
  unfolding add_element calls
  Puts-add t (some e) (some es) f g h k = λ w.
      rw (h t w) (bind_same (put_all call (calls t e) w) g (put_all call (calls_of es)) k)
      ∙ sym (put_all-append (calls t e) (calls_of es) w)
  Puts-add t (some e) none f g h k = λ w. bind-Fails (f t w) g k
  Puts-add t none p f g h k = λ w. Fails-bind (f t w) g (h t w)

  pub bind_ok : (r : Result ChipError W) → (r >>= λ w. ok w) ≡ r
  bind_ok (ok w) = refl
  bind_ok (err e) = refl

  -- A container around its elements.
  pub container-Encodes :
      (kind : Kind) (p : Option (Elements F)) (g : W → Result ChipError W)
      → Puts p g
      → Encodes (in_container kind p) (encode_container call kind g)
  unfolding in_container calls encode_container put_all
  container-Encodes kind (some es) g h = λ t w. bind_same (call (start t kind) w) _ _ λ w.
      rw (h w) (
        sym (
          put_all-append (calls_of es) (finish ∷ []) w
          ∙ bind_same (put_all call (calls_of es) w) _ _ λ w. bind_ok (call finish w)))
  container-Encodes kind none g h =
      λ t w. bind-Fails (call (start t kind) w) _ λ w. Fails-bind (g w) (call finish) (h w)

  pub property-Encodes : (x : Option (Scalar F)) → Encodes (scalar_element x) (put_property call x)
  unfolding scalar_element put_property calls put_all
  property-Encodes none = λ t w. (invalid_argument, refl)
  property-Encodes (some x) = λ t w. sym (bind_ok (call (put t x) w))

  abbrev pub Written : Encoder W → Option (Element F) → Type 0
  Written f o = Encodes o f

  pub put_fields-Puts :
      (xs : List (ℕ × Encoder W)) (ys : List (ℕ × Option (Element F)))
      → Paired Written xs ys
      → Puts (field_elements ys) (put_fields xs)
  unfolding field_elements put_fields calls put_all
  put_fields-Puts [] [] p = λ w. refl
  put_fields-Puts ((k, f) ∷ xs) ((j, o) ∷ ys) (e, h, p) =
      rw e
        (Puts-add (context j) o (field_elements ys) f (put_fields xs) h (put_fields-Puts xs ys p))
  put_fields-Puts [] (y ∷ ys) p = absurd p
  put_fields-Puts (x ∷ xs) [] p = absurd p
