-- ===== src/Camera/Ice/Url.antt =====
-- The URLs that MatterCameraIceServer of winrt/Projection.cpp accepts, as a grammar.
use matter_winrt.Base.{
  ℕ, suc, ◌+◌, ◌≤◌, ◌<◌, ◌≡◌, ◌≢◌, ◌↔◌, ◌⊎◌, inl, inr, refl, sym, ◌∙◌, ap, ◌==◌, Bool, true, false,
  List, [], ◌∷◌, ◌++◌, length, length-append, take, Option, none, some, if◌then◌else◌, All, ==_iff,
  arith,
}
use mathlib.Core.Path.{subst}
use mathlib.Core.Option.{some-injective}
use matter_winrt.Camera.Ice.{
  same_text, find_byte, any_control, known_scheme, url_refused, refused_url, stun, stuns, turn,
  turns,
}

-- A byte that is neither a control character nor a space.
abbrev pub VisibleByte : ℕ → Type 0
VisibleByte b = (32 < b) × (b ≢ 127)

abbrev pub Scheme : List ℕ → Type 0
Scheme s = (s ≡ stun) ⊎ (s ≡ stuns) ⊎ (s ≡ turn) ⊎ (s ≡ turns)

-- A scheme, a colon and a part that is not empty, of at most 512 visible bytes.
pub record IceUrl (url : List ℕ) : Type 0 where
  pub scheme : List ℕ
  pub first : ℕ
  pub rest : List ℕ
  pub known : Scheme scheme
  pub parts : url ≡ scheme ++ 58 ∷ first ∷ rest
  pub bounded : length url ≤ 512
  pub visible : All VisibleByte url

same_text_iff : (s t : List ℕ) → (same_text s t ≡ true) ↔ (s ≡ t)
unfolding same_text
same_text_iff [] [] = (λ h. refl, λ h. refl)
same_text_iff [] (b ∷ bs) = (λ h. cc, λ h. absurd (cc))
same_text_iff (a ∷ xs) [] = (λ h. cc, λ h. absurd (cc))
same_text_iff (a ∷ xs) (b ∷ bs) = ground (arith, same_text_iff xs bs)

known_iff : (s : List ℕ) → (known_scheme s ≡ true) ↔ Scheme s
unfolding known_scheme
known_iff s = ground (
  arith,
  same_text_iff s stun,
  same_text_iff s stuns,
  same_text_iff s turn,
  same_text_iff s turns,
)

controls_iff : (url : List ℕ) → (any_control url ≡ false) ↔ All VisibleByte url
unfolding any_control
controls_iff [] = (λ h. tt, λ h. refl)
controls_iff (b ∷ bs) = ground (arith, controls_iff bs)

abbrev Split : List ℕ → ℕ → Type 0
Split url i =
    (rest : List ℕ) × (url ≡ take i url ++ 58 ∷ rest) × (length url ≡ suc (i + length rest))

-- The first colon splits the text.
find-Split : (url : List ℕ) (i : ℕ) → find_byte 58 url ≡ some i → Split url i
unfolding find_byte
find-Split [] i h = cc
find-Split (b ∷ bs) i h = by (b == 58) refl (find_byte 58 bs) (λ j q. find-Split bs j q) h
  where
    by :
        (c : Bool)
        → (b == 58) ≡ c
        → (o : Option ℕ) → ((j : ℕ) → o ≡ some j → Split bs j)
        → (if c then some 0 else elim o [ none ↦ none | some k ↦ some (suc k) ]) ≡ some i
        → Split (b ∷ bs) i
    by true q o s k =
        subst (Split (b ∷ bs)) (some-injective 0 i k)
          (bs, ap (λ x. x ∷ bs) ((==_iff b 58).0 q), omega arith)
    by false q none s k = cc
    by false q (some j) s k =
        let (rest, e, l) = s j refl in
        subst (Split (b ∷ bs)) (some-injective (suc j) i k)
          (rest, ap (λ xs. b ∷ xs) e, omega (arith, l))

-- No known scheme contains a colon.
find-Scheme :
    (s rest : List ℕ)
    → Scheme s
    → (find_byte 58 (s ++ 58 ∷ rest) ≡ some (length s)) × (take (length s) (s ++ 58 ∷ rest) ≡ s)
unfolding find_byte
find-Scheme s rest (inl e) = rw e (refl, refl)
find-Scheme s rest (inr (inl e)) = rw e (refl, refl)
find-Scheme s rest (inr (inr (inl e))) = rw e (refl, refl)
find-Scheme s rest (inr (inr (inr e))) = rw e (refl, refl)

refused-IceUrl :
    (url : List ℕ) (i : ℕ)
    → find_byte 58 url ≡ some i
    → url_refused url (some i) ≡ false
    → IceUrl url
unfolding url_refused
refused-IceUrl url i found h = by (find-Split url i found)
  where
    scheme : Scheme (take i url)
    scheme = (known_iff (take i url)).0 (ground arith)

    bounded : length url ≤ 512
    bounded = ground arith

    visible : All VisibleByte url
    visible = (controls_iff url).0 (ground arith)

    by : Split url i → IceUrl url
    by ([], e, l) = absurd (ground arith)
    by (c ∷ rest, e, l) = record {
      scheme = take i url;
      first = c;
      rest = rest;
      known = scheme;
      parts = e;
      bounded = bounded;
      visible = visible;
    }

IceUrl-accepted : (url : List ℕ) → IceUrl url → refused_url url ≡ false
unfolding refused_url url_refused
IceUrl-accepted url u =
    let (found, before) = find-Scheme u.scheme (u.first ∷ u.rest) u.known in
    let place = subst (λ x. find_byte 58 x ≡ some (length u.scheme)) (sym u.parts) found in
    let known = subst (λ x. take (length u.scheme) x ≡ u.scheme) (sym u.parts) before in
    let sized = ap length u.parts ∙ length-append u.scheme (58 ∷ u.first ∷ u.rest) in
    rw (place, known)
      (ground
        (arith, (known_iff u.scheme).1 u.known, (controls_iff url).1 u.visible, u.bounded, sized))

-- An ICE server accepts a URL exactly if it is stun, stuns, turn or turns, a colon and a part that is not
-- empty, of at most 512 bytes, of which none is a space or a control character.
pub url_accepted_iff : (url : List ℕ) → (refused_url url ≡ false) ↔ IceUrl url
unfolding refused_url
url_accepted_iff url = (λ h. by (find_byte 58 url) refl h, IceUrl-accepted url)
  where
    by : (o : Option ℕ) → find_byte 58 url ≡ o → url_refused url o ≡ false → IceUrl url
    by none q h = cc
    by (some i) q h = refused-IceUrl url i q h
