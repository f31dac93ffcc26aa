-- ===== src/Camera/Metadata/Streams/Listing.antt =====
-- ReadCameraVideoStreams and ReadCameraAudioStreams of winrt/Projection.cpp: what holds of the lists that
-- they return.
use matter_winrt.Base.{
  ℕ, ◌≡◌, ◌↔◌, refl, Bool, true, false, List, [], ◌∷◌, ◌++◌, map, Option, none, some, if◌then◌else◌,
  Result, ok, err, ◌>>=◌, bind-ok, ok-injective, All, All-append, ==_iff, arith,
}
use mathlib.Core.Path.{subst}
use matter_winrt.Tlv.{Items, no_items, item, Fields}
use matter_winrt.Tlv.Root.{lookup}
use matter_winrt.Camera.Metadata.{
  Fault, bounds_error, Key, number, camera_stream_field, as_property_set, descriptor_list,
}
use matter_winrt.Camera.Metadata.Descriptor.{
  SdkId, camera_av_stream_management, allocated_video_streams, max_8, max_16, max_32,
}
use matter_winrt.Camera.Metadata.Streams.{
  Size, reported, VideoStream, refused_video, checked_video, with_flags, optional_flag, resolutions,
  video_stream, has_stream, add_stream, add_streams, read_camera_video_streams,
}
use matter_winrt.Camera.Discovery.Members.{◌∈◌, Unrepeated, Unrepeated-append}

-- The list is of different identifiers, and of streams that all satisfy P.
module _ {H F A : Type 0} (make : Option (Fields H F) → Result Fault A) (id_of : A → ℕ)
    (P : A → Type 0)
    (good : (fields : Option (Fields H F)) (a : A) → make fields ≡ ok a → P a) where
  unfoldable pub Listed : List A → Type 0
  Listed xs = Unrepeated (map id_of xs) × All P xs

  map-append : (xs : List A) (a : A) → map id_of (xs ++ a ∷ []) ≡ map id_of xs ++ id_of a ∷ []
  map-append [] a = refl
  map-append (x ∷ xs) a = cc (map-append xs a)

  has_stream_iff : (n : ℕ) (xs : List A) → (has_stream make id_of n xs ≡ true) ↔ (n ∈ map id_of xs)
  unfolding has_stream
  has_stream_iff n [] = (λ h. cc, λ h. absurd h)
  has_stream_iff n (x ∷ xs) = ground (arith, has_stream_iff n xs, ==_iff (id_of x) n)

  add_stream-Listed :
      (xs ys : List A) (a : A) (b : Bool)
      → has_stream make id_of (id_of a) xs ≡ b
      → Listed xs
      → P a
      → (if b then err bounds_error else ok (xs ++ a ∷ [])) ≡ ok ys
      → Listed ys
  unfolding Listed
  add_stream-Listed xs ys a true q l p h = cc
  add_stream-Listed xs ys a false q l p h = subst Listed (ok-injective h) (
    rw (map-append xs a) (
        Unrepeated-append (map id_of xs) (id_of a) l.0
          (λ m. ground (arith, q, (has_stream_iff (id_of a) xs).1 m))),
    All-append P xs (a ∷ []) l.1 (p, tt),
  )

  pub add_streams-Listed :
      (xs ys : List A) (items : Items H F)
      → Listed xs
      → add_streams make id_of xs items ≡ ok ys
      → Listed ys
  unfolding add_streams add_stream
  add_streams-Listed xs ys no_items l h = subst Listed (ok-injective h) l
  add_streams-Listed xs ys (item v rest) l h =
      let (zs, k, r) =
        bind-ok (as_property_set v >>= make >>= add_stream make id_of xs)
          (λ more. add_streams make id_of more rest) ys h in
      let (a, m, t) = bind-ok (as_property_set v >>= make) (add_stream make id_of xs) zs k in
      let (fields, _, n) = bind-ok (as_property_set v) make a m in
      add_streams-Listed zs ys rest
        (add_stream-Listed xs zs a (has_stream make id_of (id_of a) xs) refl l (good fields a n) t)
        r

-- The last step of a chain.
from_bind :
    {E A B Q : Type 0} (r : Result E A) (f : A → Result E B) (b : B)
    → ((a : A) → f a ≡ ok b → Q)
    → (r >>= f) ≡ ok b
    → Q
from_bind r f b k h = let (a, _, q) = bind-ok r f b h in k a q

-- The bounds of a stream are ordered and its identifier is not the reserved one.
abbrev pub Ordered : VideoStream → Type 0
Ordered s = refused_video s ≡ false

checked-Ordered : (s t : VideoStream) → checked_video s ≡ ok t → (s ≡ t) × Ordered s
unfolding checked_video
checked-Ordered s t h = by (refused_video s) refl h
  where
    by :
        (b : Bool)
        → refused_video s ≡ b
        → (if b then err bounds_error else ok s) ≡ ok t
        → (s ≡ t) × Ordered s
    by true q k = cc
    by false q k = (ok-injective k, q)

with_flags-Ordered :
    {H F : Type 0} (same : H → H → Bool) (key : Key → H) (fields : Fields H F) (s t : VideoStream)
    → Ordered s
    → with_flags same key fields s ≡ ok t
    → Ordered t
unfolding with_flags refused_video
with_flags-Ordered same key fields s t o =
    from_bind (optional_flag same key (lookup same (key (number 10)) fields)) _ t (λ watermark.
      from_bind (optional_flag same key (lookup same (key (number 11)) fields)) _ t
        (λ display h. subst Ordered (ok-injective h) o))

module _ {H F : Type 0} (same : H → H → Bool) (key : Key → H) where
  flagged-Ordered :
      (fields : Fields H F) (s t : VideoStream)
      → (checked_video s >>= with_flags same key fields) ≡ ok t
      → Ordered t
  flagged-Ordered fields s t h =
      let (u, k, r) = bind-ok (checked_video s) (with_flags same key fields) t h in
      let (e, o) = checked-Ordered s u k in
      with_flags-Ordered same key fields u t (subst Ordered e o) r

  field_bind :
      {Q : Type 0} (fields : Option (Fields H F)) (s : VideoStream) (max n : ℕ)
      {f : ℕ → Result Fault VideoStream}
      → ((a : ℕ) → f a ≡ ok s → Q)
      → (camera_stream_field same key max (number n) fields >>= f) ≡ ok s
      → Q
  field_bind fields s max n {f} = from_bind (camera_stream_field same key max (number n) fields) f s

  video_stream-Ordered :
      (fields : Option (Fields H F)) (s : VideoStream)
      → video_stream same key fields ≡ ok s
      → Ordered s
  unfolding video_stream
  video_stream-Ordered none s = λ h. cc
  video_stream-Ordered (some fields) s = field max_16 0 (λ a. field max_8 1 (λ b.
      field max_8 2 (λ c. field max_16 3 (λ d. field max_16 4 (λ e. field max_32 7 (λ g.
        field max_32 8 (λ i. field max_16 9 (λ j.
          field max_8 12
            (λ k. sizes (λ z. flagged-Ordered fields (reported a b c d e g i j k z) s))))))))))
    where
      field :
          (max n : ℕ) {f : ℕ → Result Fault VideoStream}
          → ((a : ℕ) → f a ≡ ok s → Ordered s)
          → (camera_stream_field same key max (number n) (some fields) >>= f) ≡ ok s
          → Ordered s
      field max n {f} = field_bind (some fields) s max n {f = f}

      sizes :
          {f : Size × Size → Result Fault VideoStream}
          → ((z : Size × Size) → f z ≡ ok s → Ordered s)
          → (resolutions same key fields >>= f) ≡ ok s
          → Ordered s
      sizes {f} = from_bind (resolutions same key fields) f s

Ordered-checked : (s : VideoStream) → Ordered s → checked_video s ≡ ok s
unfolding checked_video
Ordered-checked s o = rw o refl

module _ {H F : Type 0} (same : H → H → Bool) (key : Key → H)
    (read : ℕ → SdkId → SdkId → Result Fault (Fields H F)) where
  -- The streams that ReadCameraVideoStreams returns have different identifiers, and each has ordered bounds
  -- and an identifier that is not the reserved one.
  pub listed_streams_differ :
      (endpoint : ℕ) (streams : List VideoStream)
      → read_camera_video_streams same key read endpoint ≡ ok streams
      → Unrepeated (map (λ (s : VideoStream). s.stream) streams)
        × All (λ (s : VideoStream). checked_video s ≡ ok s) streams
  unfolding read_camera_video_streams Listed
  listed_streams_differ endpoint streams h =
      let add = add_streams (video_stream same key) (λ (s : VideoStream). s.stream) [] in
      let (items, _, k) =
        bind-ok
          (read endpoint camera_av_stream_management allocated_video_streams >>= λ fields.
            descriptor_list same key (some fields))
          add streams h in
      add_streams-Listed (video_stream same key) (λ (s : VideoStream). s.stream)
        (λ (s : VideoStream). checked_video s ≡ ok s)
        (λ fields s m. Ordered-checked s (video_stream-Ordered same key fields s m)) [] streams
        items (tt, tt) k
