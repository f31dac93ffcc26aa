-- ===== src/Interaction/Invoke/Answer.antt =====
-- What the success of a command with a required response (winrt/Projection.cpp, GenericInvokeState)
-- says of the responses that came.
use mathlib.Core.List.{append-nil, append_assoc}
use matter_winrt.Base.{
  ℕ, ◌≡◌, refl, true, false, Option, none, some, List, [], ◌∷◌, ◌++◌, is_some, All, arith,
}
use matter_winrt.Chip.{no_error, is_error}
use matter_winrt.Interaction.Invoke.{
  Config, State, Response, Callback, connected, connection_failed, responded, failed, done,
  releases, initial, step, run, on_response,
}

module _ {ℓ} {V : Type ℓ} where
  abbrev pub CarriesError : Callback V → Type 0
  CarriesError (failed error) = is_error error ≡ true
  CarriesError (connection_failed error) = is_error error ≡ true
  CarriesError _ = Unit

  abbrev pub response_of : Callback V → List (Response V)
  response_of (responded q) = q ∷ []
  response_of _ = []

  pub responses : List (Callback V) → List (Response V)
  responses [] = []
  responses (k ∷ ks) = response_of k ++ responses ks

  abbrev pub decoded : V → Option (Option V) → Option V
  decoded empty none = some empty
  decoded empty (some o) = o

module _ {ℓ} {V : Type ℓ} (empty : V) (c : Config) (r : ℕ) where
  -- The response that was asked for, of success, with its data where that is required.
  abbrev pub Matches : Response V → Type 0
  Matches q =
      (q.endpoint ≡ c.endpoint)
      × (q.cluster ≡ c.cluster)
      × (q.command ≡ r)
      × (q.status ≡ no_error)
      × (c.response_data ≡ true → is_some q.payload ≡ true)

  abbrev Never : Type ℓ
  Never = ◌≡◌ {A = Option V} none (some empty)

  -- One response and no other, it matches, and `v` is its value.
  abbrev Answered : Option V → List (Response V) → Type ℓ
  Answered v [] = Never
  Answered v (q ∷ []) = Matches q × (v ≡ decoded empty q.payload) × (is_some v ≡ true)
  Answered v (q ∷ p ∷ qs) = Never

  record Good (s : State V) (qs : List (Response V)) : Type ℓ where
    unseen : s.result ≡ no_error → s.response_seen ≡ false → qs ≡ []
    seen : s.result ≡ no_error → s.response_seen ≡ true → Answered s.value qs

  -- A callback that is no response.
  pad : (s : State V) (qs : List (Response V)) → Good s qs → Good s (qs ++ [])
  pad s qs g = rw append-nil g

  responded-Good :
      (s : State V) (q : Response V) (qs : List (Response V))
      → c.response_command ≡ some r
      → Good s qs
      → Good (on_response empty c q s) (qs ++ q ∷ [])
  unfolding on_response
  responded-Good s q [] e g = ground arith
  responded-Good s q (p ∷ qs) e g = ground arith

  step-Good :
      (s : State V) (k : Callback V) (qs : List (Response V))
      → c.response_command ≡ some r
      → CarriesError k
      → Good s qs
      → Good (step empty c s k) (qs ++ response_of k)
  unfolding step
  step-Good s (connected k) qs e h g = pad _ qs (ground arith)
  step-Good s (connection_failed error) qs e h g = pad _ qs (ground arith)
  step-Good s (responded q) qs e h g = responded-Good s q qs e g
  step-Good s (failed error) qs e h g = pad _ qs (ground arith)
  step-Good s done qs e h g = pad _ qs (ground arith)
  step-Good s releases qs e h g = pad _ qs (ground arith)

  run-Good :
      (s : State V) (ks : List (Callback V)) (qs : List (Response V))
      → c.response_command ≡ some r
      → All CarriesError ks
      → Good s qs
      → Good (run empty c s ks) (qs ++ responses ks)
  unfolding run responses
  run-Good s [] qs e h g = pad s qs g
  run-Good s (k ∷ ks) qs e h g =
      rw (← append_assoc qs (response_of k) (responses ks))
        (run-Good (step empty c s k) ks (qs ++ response_of k) e h.1 (step-Good s k qs e h.0 g))

  initial-Good : Good (initial empty c) []
  unfolding initial
  initial-Good = record { unseen = λ e f. refl; seen = λ e f. cc }

  done_seen :
      (s : State V)
      → c.response_command ≡ some r
      → (step empty c s done).result ≡ no_error
      → ((step empty c s done).response_seen ≡ true)
        × (s.result ≡ no_error)
        × ((step empty c s done).value ≡ s.value)
        × (s.response_seen ≡ true)
  unfolding step
  done_seen s e h = ground arith

  one_answer :
      (v : Option V) (qs : List (Response V))
      → Answered v qs
      → (q : Response V) × (qs ≡ q ∷ [])
        × Matches q
        × (v ≡ decoded empty q.payload)
        × (is_some v ≡ true)
  one_answer v [] a = cc
  one_answer v (q ∷ []) a = (q, refl, a.0, a.1, a.2)
  one_answer v (q ∷ p ∷ qs) a = cc

  -- A command that asks for the response `r` and is done with success has had exactly one response:
  -- the one asked for, from the endpoint and cluster of the command, of success, with its data where
  -- that is required, and the value is what that data decodes to.
  pub success_has_one_answer :
      (ks : List (Callback V))
      → c.response_command ≡ some r
      → All CarriesError ks
      → (step empty c (run empty c (initial empty c) ks) done).result ≡ no_error
      → (q : Response V) × (responses ks ≡ q ∷ [])
        × Matches q
        × ((step empty c (run empty c (initial empty c) ks) done).value ≡ decoded empty q.payload)
        × (is_some (step empty c (run empty c (initial empty c) ks) done).value ≡ true)
  success_has_one_answer ks e h z =
      let s = run empty c (initial empty c) ks in
      let d = done_seen s e z in
      let g = run-Good (initial empty c) ks [] e h initial-Good in
      rw d.2 (one_answer s.value (responses ks) (g.seen d.1 d.3))
