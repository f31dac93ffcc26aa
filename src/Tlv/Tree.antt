-- ===== src/Tlv/Tree.antt =====
-- A writer and a reader of documents as trees, to which the encoder and the decoder of
-- winrt/Projection.cpp are applied in the tests. They stand for those of the SDK, without its buffer.
use matter_winrt.Base.{
  ◌≡◌, refl, sym, arith, ◌∙◌, ap, Option, none, some, List, [], ◌∷◌, Result, ok, err,
}
use matter_winrt.Chip.{ChipError, incorrect_state, wrong_tlv_type, end_of_tlv}
use matter_winrt.Tlv.{
  Tag, anonymous, Kind, Scalar, Element, scalar, container, unknown, Elements, no_elements, element,
}
use matter_winrt.Tlv.Encode.{Call, start, finish, put}
use matter_winrt.Tlv.Encode.Document.{calls, calls_of, put_all}
use matter_winrt.Tlv.Encode.Writes.{put_all-append}
use matter_winrt.Tlv.Known.{Known, AllKnown}
use matter_winrt.Tlv.Decode.{ElementType}
use matter_winrt.Tlv.Decode.Reader.{element_type, Reads}

-- The elements written in the innermost container, and the containers around it.
abbrev pub Writer : Type 0 → Type 0
Writer F = Elements F × List (Tag × Kind × Elements F)

-- The element under the reader, and what is left of each container.
abbrev pub Cursor : Type 0 → Type 0
Cursor F = Option (Tag × Element F) × List (Elements F)

module _ {F : Type 0} where
  unfoldable pub joined : Elements F → Elements F → Elements F
  joined no_elements fs = fs
  joined (element t e es) fs = element t e (joined es fs)

  unfoldable pub added : Elements F → Tag → Element F → Elements F
  unfolding joined
  added es t e = joined es (element t e no_elements)

  unfoldable pub write : Call F → Writer F → Result ChipError (Writer F)
  unfolding added
  write (put t x) (es, fs) = ok (added es t (scalar x), fs)
  write (start t k) (es, fs) = ok (no_elements, (t, k, es) ∷ fs)
  write finish (es, []) = err incorrect_state
  write finish (es, (t, k, ds) ∷ fs) = ok (added ds t (container k es), fs)

  -- One finished element.
  unfoldable pub finished : Writer F → Result ChipError (Element F)
  finished (element anonymous e no_elements, []) = ok e
  finished _ = err incorrect_state

  unfoldable pub cursor_type : Cursor F → ElementType
  cursor_type (none, s) = ElementType.other
  cursor_type (some (t, e), s) = element_type e

  unfoldable pub cursor_tag : Cursor F → Tag
  cursor_tag (none, s) = anonymous
  cursor_tag (some (t, e), s) = t

  unfoldable pub cursor_get : Cursor F → Result ChipError (Scalar F)
  cursor_get (some (t, scalar x), s) = ok x
  cursor_get _ = err wrong_tlv_type

  unfoldable pub cursor_next : Cursor F → Result ChipError (Cursor F)
  cursor_next (c, element t e es ∷ s) = ok (some (t, e), es ∷ s)
  cursor_next (c, no_elements ∷ s) = err end_of_tlv
  cursor_next (c, []) = err end_of_tlv

  unfoldable pub cursor_enter : Cursor F → Result ChipError (Cursor F)
  cursor_enter (some (t, container k es), s) = ok (none, es ∷ s)
  cursor_enter _ = err incorrect_state

  unfoldable pub cursor_exit : Cursor F → Result ChipError (Cursor F)
  cursor_exit (c, es ∷ s) = ok (none, s)
  cursor_exit (c, []) = err incorrect_state

  unfoldable pub cursor_at : Element F → Cursor F
  cursor_at e = (some (anonymous, e), [])

  abbrev pub At : List (Elements F) → Cursor F → Type 0
  At s c = c.1 ≡ s

  abbrev pub On : Tag → Element F → List (Elements F) → Cursor F → Type 0
  On t e s c = c ≡ (some (t, e), s)

  at_end :
      (s : List (Elements F)) (c : Cursor F)
      → At (no_elements ∷ s) c
      → cursor_next c ≡ err end_of_tlv
  unfolding cursor_next
  at_end s (o, l) h = rw h refl

  pub cursor-Reads :
      Reads cursor_type cursor_tag cursor_get cursor_enter cursor_exit cursor_next At On
  unfolding cursor_type cursor_tag cursor_get cursor_enter cursor_exit cursor_next
  cursor-Reads = record {
    leave = λ t e s r h. ap (λ (c : Cursor F). c.1) h;
    type_of = λ t e s r h. rw h refl;
    tag_of = λ t e s r h. rw h refl;
    get_of = λ t x s r h. rw h refl;
    next_end = at_end;
    next_on = λ t e es s (o, l) h. ((some (t, e), es ∷ s), rw h refl, refl);
    enter_on = λ t k es s r h. ((none, es ∷ s), rw h refl, refl);
    exit_at = λ s (o, l) h. ((none, s), rw h refl, refl);
  }

  joined-nil : (es : Elements F) → joined es no_elements ≡ es
  unfolding joined
  joined-nil no_elements = refl
  joined-nil (element t e es) = ap (element t e) (joined-nil es)

  joined-added :
      (ds : Elements F) (t : Tag) (e : Element F) (es : Elements F)
      → joined (added ds t e) es ≡ joined ds (element t e es)
  unfolding joined added
  joined-added no_elements t e es = refl
  joined-added (element u d ds) t e es = ap (element u d) (joined-added ds t e es)

  mutual
    unfolding write calls calls_of Known AllKnown put_all joined

    -- The calls of an element add it to the innermost container.
    calls-write :
        (t : Tag) (e : Element F) (ds : Elements F) (fs : List (Tag × Kind × Elements F))
        → Known e
        → put_all write (calls t e) (ds, fs) ≡ ok (added ds t e, fs)
    calls-write t (scalar x) ds fs h = refl
    calls-write t (container k es) ds fs h =
        rw
          (
            put_all-append write (calls_of es) (finish ∷ []) (no_elements, (t, k, ds) ∷ fs),
            calls_of-write es no_elements ((t, k, ds) ∷ fs) h,
          )
          refl
    calls-write t unknown ds fs h = absurd h

    calls_of-write :
        (es ds : Elements F) (fs : List (Tag × Kind × Elements F))
        → AllKnown es
        → put_all write (calls_of es) (ds, fs) ≡ ok (joined ds es, fs)
    calls_of-write no_elements ds fs h = rw (joined-nil ds) refl
    calls_of-write (element t e es) ds fs h =
        rw (put_all-append write (calls t e) (calls_of es) (ds, fs), calls-write t e ds fs h.0)
          (calls_of-write es (added ds t e) fs h.1
            ∙ ap (λ es. ok (es, fs)) (joined-added ds t e es))

  -- The reader of what was finished stands on what was written.
  pub tree_reads_written :
      (e : Element F) (w : Writer F) (b : Element F)
      → Known e
      → put_all write (calls anonymous e) (no_elements, []) ≡ ok w
      → finished w ≡ ok b
      → On anonymous e [] (cursor_at b)
  unfolding finished cursor_at added joined
  tree_reads_written e w b k p f =
      let q = calls-write anonymous e no_elements [] k in
      let d : w ≡ (element anonymous e no_elements, []) = ground arith in
      let g : finished (element anonymous e no_elements, []) ≡ ok b = sym (ap finished d) ∙ f in
      ground arith
