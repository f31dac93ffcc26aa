-- ===== src/Camera/Ice.antt =====
-- winrt/Projection.cpp, MatterCameraIceCandidate, MatterCameraIceServer, MatterCameraStreamSelection,
-- CameraCandidateValues and CameraSessionIceServers: what their constructors accept. `H` are the
-- hstrings, `to_string` their UTF-8; a null reference is `none`.
pub mod Url
pub mod Tests
use matter_winrt.Base.{
  ℕ, suc, ltb, leb, ◌==◌, ◌||◌, ◌&&◌, not, Bool, true, false, List, [], ◌∷◌, ◌++◌, length, take, ℤ,
  pos, negsuc, Option, none, some, if◌then◌else◌, Result, ok, err, ◌>>=◌, is_some,
}
use matter_winrt.Camera.Failure
use matter_winrt.Camera.Metadata.{Fault, throws, advertises}

abbrev pub invalid_argument_error : Fault
invalid_argument_error = throws Failure.Hresult.invalid_argument

unfoldable pub same_text : List ℕ → List ℕ → Bool
same_text [] [] = true
same_text (a ∷ xs) (b ∷ bs) = let rest = same_text xs bs in (a == b) && rest
same_text [] (b ∷ bs) = false
same_text (a ∷ xs) [] = false

-- std::string::find of a character.
unfoldable pub find_byte : ℕ → List ℕ → Option ℕ
find_byte c [] = none
find_byte c (b ∷ bs) =
    let later = find_byte c bs in
    if b == c then some 0 else elim later [ none ↦ none | some i ↦ some (suc i) ]

unfoldable pub any_control : List ℕ → Bool
any_control [] = false
any_control (b ∷ bs) = let rest = any_control bs in (leb b 32 || (b == 127)) || rest

-- The texts "stun", "stuns", "turn" and "turns".
abbrev pub stun : List ℕ
stun = 115 ∷ 116 ∷ 117 ∷ 110 ∷ []

abbrev pub stuns : List ℕ
stuns = 115 ∷ 116 ∷ 117 ∷ 110 ∷ 115 ∷ []

abbrev pub turn : List ℕ
turn = 116 ∷ 117 ∷ 114 ∷ 110 ∷ []

abbrev pub turns : List ℕ
turns = 116 ∷ 117 ∷ 114 ∷ 110 ∷ 115 ∷ []

unfoldable pub known_scheme : List ℕ → Bool
unfolding same_text
known_scheme s = same_text s stun || same_text s stuns || same_text s turn || same_text s turns

-- The condition under which a URL is refused, by the place of its first colon.
unfoldable pub url_refused : List ℕ → Option ℕ → Bool
unfolding known_scheme any_control
url_refused url none = true
url_refused url (some prefix) =
    ltb 512 (length url)
    || suc prefix == length url
    || not (known_scheme (take prefix url))
    || any_control url

unfoldable pub refused_url : List ℕ → Bool
unfolding url_refused find_byte
refused_url url = url_refused url (find_byte 58 url)

-- A text that is longer than `max` bytes or contains a NUL.
unfoldable pub refused_text : ℕ → List ℕ → Bool
unfolding advertises
refused_text max text = ltb max (length text) || advertises text 0

abbrev pub below : ℤ → ℕ → Bool
below (pos n) max = ltb n max
below (negsuc n) max = n == 0

pub record Candidate (H : Type 0) : Type 0 where
  pub candidate : H
  pub mid : H
  pub line_index : ℤ

pub record Server (H : Type 0) : Type 0 where
  pub urls : List H
  pub has_username : Bool
  pub username : H
  pub has_credential : Bool
  pub credential : H
  pub certificate_authority : Option ℕ

-- The arguments of MatterCameraIceServer.
pub record ServerArguments (H : Type 0) : Type 0 where
  pub urls : Option (List H)
  pub has_username : Bool
  pub username : H
  pub has_credential : Bool
  pub credential : H
  pub certificate_authority : Option ℕ

module _ {H : Type 0} (to_string : H → List ℕ) (is_empty : H → Bool) where
  -- The line index lies from -1 to below 65535.
  unfoldable pub ice_candidate : H → H → ℤ → Result Fault (Candidate H)
  unfolding refused_text
  ice_candidate candidate mid index =
      if length (to_string candidate) == 0
        || refused_text 2048 (to_string candidate)
        || refused_text 256 (to_string mid)
        || not (below index 65535)
      then err invalid_argument_error
      else ok (record { candidate = candidate; mid = mid; line_index = index })

  -- The loop over the URLs.
  unfoldable pub copied_urls : List H → Result Fault (List H)
  unfolding refused_url
  copied_urls [] = ok []
  copied_urls (url ∷ rest) =
      let later = copied_urls rest in
      if refused_url (to_string url)
      then err invalid_argument_error
      else (later >>= λ urls. ok (url ∷ urls))

  unfoldable pub credentials_refused : ServerArguments H → Bool
  unfolding refused_text
  credentials_refused a =
      refused_text 256 (to_string a.username) || refused_text 256 (to_string a.credential)

  unfoldable pub ice_server_urls : ServerArguments H → List H → Result Fault (Server H)
  unfolding copied_urls credentials_refused
  ice_server_urls a urls =
      if length urls == 0
        || ltb 4 (length urls)
        || (not a.has_username && not (is_empty a.username))
        || (not a.has_credential && not (is_empty a.credential))
      then err invalid_argument_error
      else (copied_urls urls >>= λ copied.
          if credentials_refused a
          then err invalid_argument_error
          else ok (record {
            urls = copied;
            has_username = a.has_username;
            username = a.username;
            has_credential = a.has_credential;
            credential = a.credential;
            certificate_authority = a.certificate_authority;
          }))

  unfoldable pub ice_server : ServerArguments H → Result Fault (Server H)
  unfolding ice_server_urls
  ice_server a = elim a.urls [
    | none ↦ err invalid_argument_error
    | some urls ↦ ice_server_urls a urls
  ]

-- The entries of a list, of which none may be null.
unfoldable pub not_null : {A : Type 0} → List (Option A) → Result Fault (List A)
not_null [] = ok []
not_null (none ∷ rest) = err invalid_argument_error
not_null (some a ∷ rest) = not_null rest >>= λ more. ok (a ∷ more)

unfoldable pub camera_candidate_values :
    {A : Type 0} → Option (List (Option A)) → Result Fault (List A)
unfolding not_null
camera_candidate_values none = err invalid_argument_error
camera_candidate_values (some candidates) =
    if length candidates == 0 || ltb 16 (length candidates)
    then err invalid_argument_error
    else not_null candidates

unfoldable pub camera_session_ice_servers :
    {A : Type 0} → Option (List (Option A)) → Result Fault (List A)
unfolding not_null
camera_session_ice_servers none = err invalid_argument_error
camera_session_ice_servers (some servers) =
    if ltb 4 (length servers) then err invalid_argument_error else not_null servers

-- MatterCameraStreamSelectionKind, and a kind that is none of its values.
pub data SelectionKind : Type 0 where
  absent auto_select explicit_id : SelectionKind
  unknown : ℕ → SelectionKind

-- The constructor of MatterCameraStreamSelection.
unfoldable pub stream_selection : SelectionKind → Option ℕ → Result Fault (SelectionKind × Option ℕ)
stream_selection explicit_id (some id) =
    if id == 65535 then err invalid_argument_error else ok (explicit_id, some id)
stream_selection absent none = ok (absent, none)
stream_selection auto_select none = ok (auto_select, none)
stream_selection _ _ = err invalid_argument_error
