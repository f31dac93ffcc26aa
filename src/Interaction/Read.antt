-- ===== src/Interaction/Read.antt =====
-- winrt/Projection.cpp, GenericReadState: one attribute read, or the reports of one subscription. The
-- client, its buffering of list chunks and the TLV bytes are the SDK's: a report has the status of its
-- path and data that is absent, undecodable (`some none`) or the decoded property set.
pub mod Outcome
pub mod Waiting
use matter_winrt.Base.{
  not, Bool, true, false, ◌&&◌, ◌||◌, Option, none, some, List, [], ◌∷◌, ◌++◌, if◌then◌else◌,
  is_some,
}
use matter_winrt.Chip.{ChipError, no_error, no_memory, invalid_argument, decode_failed, is_error}

pub record Config : Type 0 where
  -- mSubscription; whether there is a report callback.
  pub subscription : Bool
  pub reporting : Bool

pub record State {ℓ} (V : Type ℓ) : Type ℓ where
  pub complete : Bool
  pub established : Bool
  pub value_ready : Bool
  pub closed : Bool
  pub result : ChipError
  pub value : Option V
  -- What the report callback has been given.
  pub reports : List V
  -- The ReadClient is there.
  pub client : Bool

pub record Report {ℓ} (V : Type ℓ) : Type ℓ where
  pub status : ChipError
  pub payload : Option (Option V)
  -- The report callback throws an hresult_error.
  pub throws : Bool

pub data Callback {ℓ} (V : Type ℓ) : Type ℓ where
  -- HandleConnected: whether the client could be made, and the error of SendRequest.
  connected : Bool → ChipError → Callback V
  connection_failed : ChipError → Callback V
  reported : Report V → Callback V
  failed : ChipError → Callback V
  done : Callback V
  subscribed : Callback V
  closes : Callback V

module _ {ℓ} {V : Type ℓ} (c : Config) where
  unfoldable pub initial : State V
  initial = record {
    complete = false;
    established = false;
    value_ready = false;
    closed = false;
    result = no_error;
    value = none;
    reports = [];
    client = false;
  }

  unfoldable pub fail : ChipError → State V → State V
  fail error s = if s.closed then s else record s { result = error; complete = true }

  abbrev report : V → State V → State V
  report v s = if c.reporting then record s { reports = s.reports ++ v ∷ [] } else s

  abbrev store : V → Bool → State V → State V
  store v throws s =
      let t = report v (record s { value = some v; value_ready = true }) in
      if c.reporting && throws then fail decode_failed t else t

  unfoldable pub on_attribute_data : Report V → State V → State V
  unfolding fail
  on_attribute_data r s = if is_error r.status then fail r.status s else elim r.payload [
    | none ↦ fail invalid_argument s
    | some none ↦ fail decode_failed s
    | some (some v) ↦ store v r.throws s
  ]

  unfoldable pub on_done : State V → State V
  on_done s = if c.subscription then s else record s { complete = true }

  pub on_subscription_established : State V → State V
  on_subscription_established s = record s { established = true }

  unfoldable pub close : State V → State V
  close s = if s.closed then s else record s { client = false; closed = true; complete = true }

  unfoldable pub handle_connected : Bool → ChipError → State V → State V
  unfolding fail
  handle_connected made send s =
      let t = record s { client = made } in
      if not made then fail no_memory t else if is_error send then fail send t else t

  unfoldable pub step : State V → Callback V → State V
  unfolding fail on_attribute_data on_done on_subscription_established close handle_connected
  step s (connected made send) = handle_connected made send s
  step s (connection_failed error) = fail error s
  step s (reported r) = on_attribute_data r s
  step s (failed error) = fail error s
  step s done = on_done s
  step s subscribed = on_subscription_established s
  step s closes = close s

  unfoldable pub run : State V → List (Callback V) → State V
  run s [] = s
  run s (k ∷ ks) = run (step s k) ks
