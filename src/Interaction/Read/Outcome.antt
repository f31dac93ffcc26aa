-- ===== src/Interaction/Read/Outcome.antt =====
-- What a GenericReadState (winrt/Projection.cpp) ends with, as a function of the callbacks it had.
use matter_winrt.Base.{
  not, All, ◌≡◌, refl, Bool, true, false, ◌&&◌, ◌||◌, Option, none, some, List, [], ◌∷◌, ◌++◌,
  if◌then◌else◌, sym, ◌∙◌, arith,
}
use mathlib.Core.List.{append_assoc, append-nil}
use matter_winrt.Chip.{ChipError, is_error}
use matter_winrt.Interaction.Read.{
  Config, State, Report, Callback, connected, connection_failed, reported, failed, done, subscribed,
  closes, initial, on_attribute_data, step, run,
}

module _ {ℓ} {V : Type ℓ} (c : Config) where
  abbrev unusable : Report V → Bool
  unusable r =
      is_error r.status
      || elim r.payload [ none ↦ true | some none ↦ true | some (some v) ↦ c.reporting && r.throws ]

  -- A callback that reports a failure.
  abbrev pub is_failure : Callback V → Bool
  is_failure (connected made send) = not made || is_error send
  is_failure (connection_failed error) = true
  is_failure (reported r) = unusable r
  is_failure (failed error) = true
  is_failure done = false
  is_failure subscribed = false
  is_failure closes = false

  abbrev pub is_close : Callback V → Bool
  is_close closes = true
  is_close _ = false

  -- A failure that comes before the first Close.
  abbrev pub failed_open : List (Callback V) → Bool
  failed_open [] = false
  failed_open (k ∷ ks) = not (is_close k) && (is_failure k || failed_open ks)

  -- OnDone of a read, after which nobody waits.
  abbrev pub is_done : Callback V → Bool
  is_done done = not c.subscription
  is_done _ = false

  abbrev pub ended : List (Callback V) → Bool
  ended [] = false
  ended (k ∷ ks) = is_close k || is_failure k || is_done k || ended ks

  -- OnError and the failure of a connection come with an error.
  abbrev pub CarriesError : Callback V → Type 0
  CarriesError (failed error) = is_error error ≡ true
  CarriesError (connection_failed error) = is_error error ≡ true
  CarriesError _ = Unit

  -- Close takes effect once and for all.
  closed-step : (s : State V) (k : Callback V) → (step c s k).closed ≡ (s.closed || is_close k)
  unfolding step
  closed-step s (connected made send) = ground arith
  closed-step s (connection_failed e) = ground arith
  closed-step s (reported r) = ground arith
  closed-step s (failed e) = ground arith
  closed-step s done = ground arith
  closed-step s subscribed = ground arith
  closed-step s closes = ground arith

  result-step :
      (s : State V) (k : Callback V)
      → CarriesError k
      → is_error (step c s k).result ≡ (is_error s.result || (not s.closed && is_failure k))
  unfolding step
  result-step s (connected made send) h = ground arith
  result-step s (connection_failed e) h = ground arith
  result-step s (reported r) h = ground arith
  result-step s (failed e) h = ground arith
  result-step s done h = ground arith
  result-step s subscribed h = ground arith
  result-step s closes h = ground arith

  complete-step :
      (s : State V) (k : Callback V)
      → (s.closed ≡ true → s.complete ≡ true)
      → (step c s k).complete ≡ (s.complete || is_close k || is_failure k || is_done k)
  unfolding step
  complete-step s (connected made send) v = ground arith
  complete-step s (connection_failed e) v = ground arith
  complete-step s (reported r) v = ground arith
  complete-step s (failed e) v = ground arith
  complete-step s done v = ground arith
  complete-step s subscribed v = ground arith
  complete-step s closes v = ground arith

  result-run :
      (s : State V) (ks : List (Callback V))
      → All CarriesError ks
      → is_error (run c s ks).result ≡ (is_error s.result || (not s.closed && failed_open ks))
  unfolding run
  result-run s [] h = ground arith
  result-run s (k ∷ ks) h =
      ground (arith, result-run (step c s k) ks h.1, result-step s k h.0, closed-step s k)

  complete-run :
      (s : State V) (ks : List (Callback V))
      → (s.closed ≡ true → s.complete ≡ true)
      → (run c s ks).complete ≡ (s.complete || ended ks)
  unfolding run
  complete-run s [] v = ground arith
  complete-run s (k ∷ ks) v =
      let e = complete-step s k v in
      ground
        (arith, complete-run (step c s k) ks (ground (arith, closed-step s k)), closed-step s k)

  -- Where the SDK's failures carry an error, a read stops waiting exactly if one of them is a failure, Close or, for
  -- a read and not for a subscription, OnDone; and it ends with an error exactly if a failure came
  -- before the first Close.
  pub read_ends_iff :
      (ks : List (Callback V))
      → All CarriesError ks
      → ((run c (initial c) ks).complete ≡ ended ks)
        × (is_error (run c (initial c) ks).result ≡ failed_open ks)
  unfolding initial
  read_ends_iff ks h =
      (ground (arith, complete-run (initial c) ks), ground (arith, result-run (initial c) ks h))

  -- The property sets that the reports carried.
  abbrev pub decoded : List (Callback V) → List V
  decoded [] = []
  decoded (reported r ∷ ks) =
      let rest = decoded ks in
      elim r.payload [
        | none ↦ rest
        | some none ↦ rest
        | some (some v) ↦ if is_error r.status then rest else v ∷ rest
      ]
  decoded (k ∷ ks) = decoded ks

  stored :
      (status : ChipError) (p : Option (Option V)) (throws : Bool) (s : State V)
      (ks : List (Callback V))
      → c.reporting ≡ true
      → let r : Report V = record { status = status; payload = p; throws = throws } in
        (on_attribute_data c r s).reports ++ decoded ks ≡ s.reports ++ decoded (reported r ∷ ks)
  unfolding on_attribute_data
  stored status none throws s ks h = ground arith
  stored status (some none) throws s ks h = ground arith
  stored status (some (some v)) throws s ks h =
      ground (arith, append_assoc s.reports (v ∷ []) (decoded ks))

  report-step :
      (s : State V) (k : Callback V) (ks : List (Callback V))
      → c.reporting ≡ true
      → (step c s k).reports ++ decoded ks ≡ s.reports ++ decoded (k ∷ ks)
  unfolding step
  report-step s (connected made send) ks h = ground arith
  report-step s (connection_failed e) ks h = ground arith
  report-step s (reported r) ks h = stored r.status r.payload r.throws s ks h
  report-step s (failed e) ks h = ground arith
  report-step s done ks h = ground arith
  report-step s subscribed ks h = ground arith
  report-step s closes ks h = ground arith

  reports-run :
      (s : State V) (ks : List (Callback V))
      → c.reporting ≡ true
      → (run c s ks).reports ≡ s.reports ++ decoded ks
  unfolding run
  reports-run s [] h = sym (append-nil s.reports)
  reports-run s (k ∷ ks) h = reports-run (step c s k) ks h ∙ report-step s k ks h

  -- The report callback is given the property set of every usable report, each once and in the order
  -- of the reports, even after a failure.
  pub reports_in_order :
      (ks : List (Callback V)) → c.reporting ≡ true → (run c (initial c) ks).reports ≡ decoded ks
  unfolding initial
  reports_in_order ks h = reports-run (initial c) ks h

  -- The last value, or the one that was there.
  abbrev pub latest : Option V → List V → Option V
  latest o [] = o
  latest o (v ∷ vs) = latest (some v) vs

  value-data :
      (status : ChipError) (p : Option (Option V)) (throws : Bool) (s : State V)
      (ks : List (Callback V))
      → let r : Report V = record { status = status; payload = p; throws = throws } in
        latest (on_attribute_data c r s).value (decoded ks)
        ≡ latest s.value (decoded (reported r ∷ ks))
  unfolding on_attribute_data
  value-data status none throws s ks = ground arith
  value-data status (some none) throws s ks = ground arith
  value-data status (some (some v)) throws s ks = ground arith

  value-step :
      (s : State V) (k : Callback V) (ks : List (Callback V))
      → latest (step c s k).value (decoded ks) ≡ latest s.value (decoded (k ∷ ks))
  unfolding step
  value-step s (connected made send) ks = ground arith
  value-step s (connection_failed e) ks = ground arith
  value-step s (reported r) ks = value-data r.status r.payload r.throws s ks
  value-step s (failed e) ks = ground arith
  value-step s done ks = ground arith
  value-step s subscribed ks = ground arith
  value-step s closes ks = ground arith

  pub value-run :
      (s : State V) (ks : List (Callback V)) → (run c s ks).value ≡ latest s.value (decoded ks)
  unfolding run
  value-run s [] = refl
  value-run s (k ∷ ks) = value-run (step c s k) ks ∙ value-step s k ks

  pub value-initial :
      (ks : List (Callback V)) → (run c (initial c) ks).value ≡ latest none (decoded ks)
  unfolding initial
  value-initial ks = value-run (initial c) ks
