-- ===== src/Camera/Ice/Tests.antt =====
-- ICE servers and stream selections of concrete arguments.
use matter_winrt.Base.{ℕ, ◌≡◌, ◌↔◌, refl, false, List, [], ◌∷◌, some, err}
use matter_winrt.Camera.Ice.{refused_url, explicit_id, stream_selection, invalid_argument_error}
use matter_winrt.Camera.Ice.Url.{IceUrl, url_accepted_iff}

-- The text "stun:a".
abbrev url : List ℕ
url = 115 ∷ 116 ∷ 117 ∷ 110 ∷ 58 ∷ 97 ∷ []

url_run : refused_url url ≡ false
unfolding refused_url
url_run = refl

url_accepted_iff_example : (refused_url url ≡ false) ↔ IceUrl url
url_accepted_iff_example = url_accepted_iff url

reserved_run : stream_selection explicit_id (some 65535) ≡ err invalid_argument_error
unfolding stream_selection
reserved_run = refl
