-- ===== src/Interaction/EventRead.antt =====
-- winrt/Projection.cpp, GenericEventReadState: one read of events, or the reports of one subscription.
-- The client and the TLV bytes are the SDK's: a report may have a status, and its data is absent,
-- undecodable (`some none`) or the decoded event with its path and number.
pub mod Outcome
pub mod Waiting
use matter_winrt.Base.{
  not, Bool, true, false, ◌&&◌, ◌||◌, Option, none, some, List, [], ◌∷◌, ◌++◌, if◌then◌else◌,
  is_some,
}
use matter_winrt.Chip.{ChipError, no_error, no_memory, invalid_argument, decode_failed, is_error}

pub record Config : Type 0 where
  -- mSubscription; whether there is a report callback.
  pub subscription : Bool
  pub reporting : Bool

pub record State {ℓ} (V : Type ℓ) : Type ℓ where
  pub complete : Bool
  pub established : Bool
  pub closed : Bool
  pub result : ChipError
  pub values : List V
  -- What the report callback has been given.
  pub reports : List V
  -- The ReadClient is there.
  pub client : Bool

pub record Report {ℓ} (V : Type ℓ) : Type ℓ where
  pub status : Option ChipError
  pub payload : Option (Option V)
  -- The report callback throws an hresult_error.
  pub throws : Bool

-- A null status is success.
abbrev pub status_error : Option ChipError → ChipError
status_error none = no_error
status_error (some error) = error

pub data Callback {ℓ} (V : Type ℓ) : Type ℓ where
  -- HandleConnected: whether the client could be made, and the error of SendRequest.
  connected : Bool → ChipError → Callback V
  connection_failed : ChipError → Callback V
  reported : Report V → Callback V
  failed : ChipError → Callback V
  done : Callback V
  subscribed : Callback V
  closes : Callback V

module _ {ℓ} {V : Type ℓ} (c : Config) where
  pub initial : State V
  initial = record {
    complete = false;
    established = false;
    closed = false;
    result = no_error;
    values = [];
    reports = [];
    client = false;
  }

  pub fail : ChipError → State V → State V
  fail error s = if s.closed then s else record s { result = error; complete = true }

  abbrev report : V → State V → State V
  report v s = if c.reporting then record s { reports = s.reports ++ v ∷ [] } else s

  -- Only a read keeps its events.
  abbrev keep : V → State V → State V
  keep v s = if c.subscription then s else record s { values = s.values ++ v ∷ [] }

  abbrev store : V → Bool → State V → State V
  store v throws s =
      let t = report v (keep v s) in if c.reporting && throws then fail decode_failed t else t

  pub on_event_data : Report V → State V → State V
  unfolding fail
  on_event_data r s =
      let error = status_error r.status in
      if is_error error then fail error s else elim r.payload [
        | none ↦ fail invalid_argument s
        | some none ↦ fail decode_failed s
        | some (some v) ↦ store v r.throws s
      ]

  pub on_done : State V → State V
  on_done s = if c.subscription then s else record s { complete = true }

  pub on_subscription_established : State V → State V
  on_subscription_established s = record s { established = true }

  pub close : State V → State V
  close s = if s.closed then s else record s { client = false; closed = true; complete = true }

  pub handle_connected : Bool → ChipError → State V → State V
  unfolding fail
  handle_connected made send s =
      let t = record s { client = made } in
      if not made then fail no_memory t else if is_error send then fail send t else t

  pub step : State V → Callback V → State V
  unfolding fail on_event_data on_done on_subscription_established close handle_connected
  step s (connected made send) = handle_connected made send s
  step s (connection_failed error) = fail error s
  step s (reported r) = on_event_data r s
  step s (failed error) = fail error s
  step s done = on_done s
  step s subscribed = on_subscription_established s
  step s closes = close s

  pub run : State V → List (Callback V) → State V
  run s [] = s
  run s (k ∷ ks) = run (step s k) ks
