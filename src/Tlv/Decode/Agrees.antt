-- ===== src/Tlv/Decode/Agrees.antt =====
-- That DecodeTlvValue (winrt/Projection.cpp) agrees with the reference decoder.
use matter_winrt.Base.{ℕ, zero, suc, ◌≤◌, ◌≡◌, refl, Bool, List, ◌∷◌, Result, ok, err, ◌>>=◌, arith}
use matter_winrt.Chip.{ChipError}
use matter_winrt.Tlv.{
  Value, vector, property_set, Items, Fields, no_fields, Tag, anonymous, context, profile, Kind,
  Scalar, signed, unsigned, floating, utf8, bytes, Element, scalar, container, unknown, Elements,
  no_elements, element,
}
use matter_winrt.Tlv.Decode.{
  ElementType, Decoded, decoded, failed, and_then, moved, box, insert, decode_scalar, decode_value,
  decode_fields, decode_items, decode_root, root_fields,
}
use matter_winrt.Tlv.Decode.Reader.{
  scalar_type, size, size_elements, value_of, fields_of, items_of, Reads,
}

module _ {H F R : Type 0} (same : H → H → Bool) (to_hstring : List ℕ → H) (number_text : ℕ → H)
    (get_type : R → ElementType) (get_tag : R → Tag) (get : R → Result ChipError (Scalar F))
    (enter_container exit_container next : R → Result ChipError R)
    (At : List (Elements F) → R → Type 0) (On : Tag → Element F → List (Elements F) → R → Type 0)
    (reads : Reads get_type get_tag get enter_container exit_container next At On) where
  -- What was decoded is what the reference gives, and the reader is where it should be.
  abbrev pub Agrees : {A : Type 0} → List (Elements F) → Result ChipError A → Decoded R A → Type 0
  Agrees s (ok a) d = (r : R) × (d ≡ decoded a r) × At s r
  Agrees s (err e) d = d ≡ failed e

  abbrev dec : ℕ → R → Decoded R (Value H F)
  dec =
      decode_value same to_hstring number_text get_type get_tag get enter_container exit_container
        next

  abbrev dec_fields : ℕ → Fields H F → R → Decoded R (Fields H F)
  dec_fields =
      decode_fields same to_hstring number_text get_type get_tag get enter_container exit_container
        next

  abbrev dec_items : ℕ → R → Decoded R (Items H F)
  dec_items =
      decode_items same to_hstring number_text get_type get_tag get enter_container exit_container
        next

  abbrev ref : Element F → Result ChipError (Value H F)
  ref = value_of same to_hstring number_text

  abbrev ref_fields : Elements F → Fields H F → Result ChipError (Fields H F)
  ref_fields = fields_of same to_hstring number_text

  abbrev ref_items : Elements F → Result ChipError (Items H F)
  ref_items = items_of same to_hstring number_text

  -- Two steps that agree, agree in a row.
  then :
      {A B : Type 0} (s u : List (Elements F)) (q : Result ChipError A) (d : Decoded R A)
      (g : A → Result ChipError B) (f : A → R → Decoded R B)
      → Agrees s q d
      → ((a : A) (r : R) → At s r → Agrees u (g a) (f a r))
      → Agrees u (q >>= g) (and_then d f)
  then s u (ok a) d g f (r, e, p) step = rw e (step a r p)
  then s u (err x) d g f e step = rw e refl

  exit_container-Agrees :
      {A : Type 0} (s : List (Elements F)) (r : R) (a : A)
      → At (no_elements ∷ s) r
      → Agrees s (ok a) (moved (exit_container r) λ r. decoded a r)
  exit_container-Agrees s r a p = let (r', x, b) = reads.exit_at s r p in (r', rw x refl, b)

  decode_scalar-get :
      (x : Scalar F) (r : R)
      → get r ≡ ok x
      → decode_scalar same to_hstring number_text get_type get_tag get enter_container
          exit_container next r
        ≡ decoded (box to_hstring x) r
  unfolding decode_scalar
  decode_scalar-get x r e = rw (e, decode_scalar) refl

  null-box :
      (r : R)
      → ◌≡◌ {A = Decoded R (Value H F)}
          (decoded Value.null r)
          (decoded (box to_hstring Scalar.null) r)
  unfolding box
  null-box r = refl

  dec-scalar :
      (fuel : ℕ) (x : Scalar F) (r : R)
      → get_type r ≡ scalar_type x
      → get r ≡ ok x
      → dec (suc fuel) r ≡ decoded (box to_hstring x) r
  unfolding decode_value
  dec-scalar fuel Scalar.null r t g = rw t (null-box r)
  dec-scalar fuel (Scalar.boolean b) r t g = rw t (decode_scalar-get (Scalar.boolean b) r g)
  dec-scalar fuel (signed z) r t g = rw t (decode_scalar-get (signed z) r g)
  dec-scalar fuel (unsigned n) r t g = rw t (decode_scalar-get (unsigned n) r g)
  dec-scalar fuel (floating x) r t g = rw t (decode_scalar-get (floating x) r g)
  dec-scalar fuel (utf8 u) r t g = rw t (decode_scalar-get (utf8 u) r g)
  dec-scalar fuel (bytes b) r t g = rw t (decode_scalar-get (bytes b) r g)

  mutual
    unfolding decode_value value_of size decode_scalar

    agrees_value :
        (fuel : ℕ) (t : Tag) (e : Element F) (s : List (Elements F)) (r : R)
        → size e ≤ fuel
        → On t e s r
        → Agrees s (ref e) (dec fuel r)
    agrees_value zero t (scalar x) s r l o = absurd (omega arith)
    agrees_value zero t (container k es) s r l o = absurd (omega arith)
    agrees_value zero t unknown s r l o = absurd (omega arith)
    agrees_value (suc fuel) t (scalar x) s r l o = (
      r,
      dec-scalar fuel x r (reads.type_of t (scalar x) s r o) (reads.get_of t x s r o),
      reads.leave t (scalar x) s r o,
    )
    agrees_value (suc fuel) t (container Kind.structure es) s r l o =
        let (r', x, a) = reads.enter_on t Kind.structure es s r o in
        let ih = agrees_fields fuel es no_fields s r' (omega (arith, l)) a in
        rw (reads.type_of t (container Kind.structure es) s r o, x)
          (then (no_elements ∷ s) s (ref_fields es no_fields) (dec_fields fuel no_fields r') _ _ ih
            λ set r p. exit_container-Agrees s r (property_set set) p)
    agrees_value (suc fuel) t (container Kind.array es) s r l o =
        let (r', x, a) = reads.enter_on t Kind.array es s r o in
        let ih = agrees_items fuel es s r' (omega (arith, l)) a in
        rw (reads.type_of t (container Kind.array es) s r o, x)
          (then (no_elements ∷ s) s (ref_items es) (dec_items fuel r') _ _ ih
            λ items r p. exit_container-Agrees s r (vector items) p)
    agrees_value (suc fuel) t (container Kind.list es) s r l o =
        let (r', x, a) = reads.enter_on t Kind.list es s r o in
        let ih = agrees_items fuel es s r' (omega (arith, l)) a in
        rw (reads.type_of t (container Kind.list es) s r o, x)
          (then (no_elements ∷ s) s (ref_items es) (dec_items fuel r') _ _ ih
            λ items r p. exit_container-Agrees s r (vector items) p)
    agrees_value (suc fuel) t unknown s r l o = rw (reads.type_of t unknown s r o) refl

    agrees_fields :
        (fuel : ℕ) (es : Elements F) (set : Fields H F) (s : List (Elements F)) (r : R)
        → size_elements es ≤ fuel
        → At (es ∷ s) r
        → Agrees (no_elements ∷ s) (ref_fields es set) (dec_fields fuel set r)
    agrees_fields zero no_elements set s r l a = absurd (omega arith)
    agrees_fields zero (element t e es) set s r l a = absurd (omega arith)
    agrees_fields (suc fuel) no_elements set s r l a = (r, rw (reads.next_end s r a) refl, a)
    agrees_fields (suc fuel) (element (context n) e es) set s r l a =
        let (r', x, o) = reads.next_on (context n) e es s r a in
        let ih = agrees_value fuel (context n) e (es ∷ s) r' (omega (arith, l)) o in
        let m : size_elements es ≤ fuel = omega (arith, l) in
        rw (x, reads.tag_of (context n) e (es ∷ s) r' o)
          (then (es ∷ s) (no_elements ∷ s) (ref e) (dec fuel r') _ _ ih
            λ v r p. agrees_fields fuel es (insert same (number_text n) v set) s r m p)
    agrees_fields (suc fuel) (element anonymous e es) set s r l a =
        let (r', x, o) = reads.next_on anonymous e es s r a in
        rw (x, reads.tag_of anonymous e (es ∷ s) r' o) refl
    agrees_fields (suc fuel) (element (profile n) e es) set s r l a =
        let (r', x, o) = reads.next_on (profile n) e es s r a in
        rw (x, reads.tag_of (profile n) e (es ∷ s) r' o) refl

    agrees_items :
        (fuel : ℕ) (es : Elements F) (s : List (Elements F)) (r : R)
        → size_elements es ≤ fuel
        → At (es ∷ s) r
        → Agrees (no_elements ∷ s) (ref_items es) (dec_items fuel r)
    agrees_items zero no_elements s r l a = absurd (omega arith)
    agrees_items zero (element t e es) s r l a = absurd (omega arith)
    agrees_items (suc fuel) no_elements s r l a = (r, rw (reads.next_end s r a) refl, a)
    agrees_items (suc fuel) (element t e es) s r l a =
        let (r', x, o) = reads.next_on t e es s r a in
        let ih = agrees_value fuel t e (es ∷ s) r' (omega (arith, l)) o in
        let m : size_elements es ≤ fuel = omega (arith, l) in
        rw x (
          then (es ∷ s) (no_elements ∷ s) (ref e) (dec fuel r') _ _ ih λ v r p.
            then (no_elements ∷ s) (no_elements ∷ s) (ref_items es) (dec_items fuel r) _ _
              (agrees_items fuel es s r m p) λ items r p. (r, refl, p))

  -- With a reader that follows the tree of elements, on every element and with enough fuel, DecodeTlvValue gives the value or the error of
  -- the reference decoder, and with a value it leaves the reader before the siblings of the element.
  pub decode_agrees :
      (fuel : ℕ) (t : Tag) (e : Element F) (s : List (Elements F)) (r : R)
      → size e ≤ fuel
      → On t e s r
      → Agrees s (ref e) (dec fuel r)
  decode_agrees fuel t e s r l o = agrees_value fuel t e s r l o

  decoded_ok :
      (s : List (Elements F)) (v : Value H F) (q : Result ChipError (Value H F))
      (d : Decoded R (Value H F))
      → q ≡ ok v
      → Agrees s q d
      → (r : R) × (d ≡ decoded v r)
  decoded_ok s v (ok u) d q (r, e, p) = (r, ground arith)
  decoded_ok s v (err x) d q e = absurd (cc)

  -- DecodePropertySetRoot on an element whose value the reference decoder gives.
  pub root_agrees :
      (value_key : H) (fuel : ℕ) (t : Tag) (e : Element F) (s : List (Elements F)) (r : R)
      (v : Value H F)
      → size e ≤ fuel
      → On t e s r
      → ref e ≡ ok v
      → (r' : R) × (decode_root same to_hstring number_text get_type get_tag get enter_container
            exit_container next value_key fuel r
          ≡ decoded (root_fields value_key v) r')
  unfolding decode_root
  root_agrees value_key fuel t e s r v l o h =
      let (r', d) = decoded_ok s v (ref e) (dec fuel r) h (decode_agrees fuel t e s r l o) in
      (r', rw d refl)
