-- ===== src/Interaction/Invoke.antt =====
-- winrt/Projection.cpp, GenericInvokeState: one command and its response. The decoder of the
-- response data is outside this file: the data of a callback is absent, undecodable (`some none`) or
-- the decoded value. HandleConnected is a chain of SDK calls, whose results are inputs.
pub mod Answer
use matter_winrt.Base.{
  ℕ, not, Bool, true, false, ◌&&◌, ◌||◌, ◌==◌, Option, none, some, List, [], ◌∷◌, if◌then◌else◌,
  is_some,
}
use matter_winrt.Chip.{
  ChipError, no_error, no_memory, invalid_argument, incorrect_state, decode_failed, timeout,
  is_error,
}

pub record Config : Type 0 where
  -- mPath, mResponseCommand and mResponseData.
  pub endpoint : ℕ
  pub cluster : ℕ
  pub response_command : Option ℕ
  pub response_data : Bool

pub record State {ℓ} (V : Type ℓ) : Type ℓ where
  pub complete : Bool
  pub result : ChipError
  pub value : Option V
  pub response_seen : Bool
  -- The CommandSender is there.
  pub sender : Bool

-- What OnResponse is given.
pub record Response {ℓ} (V : Type ℓ) : Type ℓ where
  pub endpoint : ℕ
  pub cluster : ℕ
  pub command : ℕ
  pub status : ChipError
  pub payload : Option (Option V)

-- What the calls of HandleConnected return: whether the sender could be made, PrepareCommand,
-- whether there is a writer, Next, CopyContainer, FinishCommand, SendCommandRequest.
pub record Connection : Type 0 where
  pub made : Bool
  pub prepare : ChipError
  pub writer : Bool
  pub next : ChipError
  pub copy : ChipError
  pub finish_command : ChipError
  pub send : ChipError

pub data Callback {ℓ} (V : Type ℓ) : Type ℓ where
  connected : Connection → Callback V
  connection_failed : ChipError → Callback V
  responded : Response V → Callback V
  failed : ChipError → Callback V
  done : Callback V
  releases : Callback V

-- A call is made only where the chain has had no error.
abbrev pub first_error : ChipError → ChipError → ChipError
first_error e f = if is_error e then e else f

-- `empty` is the property set with no field.
module _ {ℓ} {V : Type ℓ} (empty : V) (c : Config) where
  unfoldable pub initial : State V
  initial = record {
    complete = false;
    result = no_error;
    value = none;
    response_seen = false;
    sender = false;
  }

  unfoldable pub finish : ChipError → State V → State V
  finish error s = record s { result = error; complete = true }

  abbrev expects : ℕ → Response V → Bool
  expects r q = (q.command == r) && not (c.response_data && not (is_some q.payload))

  -- The test of OnResponse that refuses a response.
  unfoldable pub refuses : Response V → Bool → Bool
  refuses q seen = elim c.response_command [
    | none ↦ false
    | some r ↦
        seen
        || not (q.endpoint == c.endpoint)
        || not (q.cluster == c.cluster)
        || (not (is_error q.status) && not (expects r q))
  ]

  abbrev store : Option (Option V) → State V → State V
  store none s = record s { value = some empty }
  store (some none) s = record s { result = decode_failed }
  store (some (some v)) s = record s { value = some v }

  unfoldable pub on_response : Response V → State V → State V
  unfolding refuses
  on_response q s =
      if refuses q s.response_seen
      then record s { result = invalid_argument }
      else (let t = record s { response_seen = true } in
          if is_error q.status then record t { result = q.status } else store q.payload t)

  pub on_error : ChipError → State V → State V
  on_error error s = record s { result = error }

  unfoldable pub on_done : State V → State V
  on_done s =
      let missing = is_some c.response_command && not s.response_seen && not (is_error s.result) in
      record s { result = if missing then timeout else s.result; complete = true }

  unfoldable pub handle_connected : Connection → State V → State V
  unfolding finish
  handle_connected k s =
      let t = record s { sender = k.made } in
      if not k.made
      then finish no_memory t
      else (let written =
            if not (is_error k.prepare) && not k.writer then incorrect_state else k.prepare in
          let copied = first_error written (first_error k.next k.copy) in
          let error = first_error (first_error copied k.finish_command) k.send in
          if is_error error then finish error t else t)

  pub release_sender : State V → State V
  release_sender s = record s { sender = false }

  unfoldable pub step : State V → Callback V → State V
  unfolding finish on_response on_error on_done handle_connected release_sender
  step s (connected k) = handle_connected k s
  step s (connection_failed error) = finish error s
  step s (responded q) = on_response q s
  step s (failed error) = on_error error s
  step s done = on_done s
  step s releases = release_sender s

  unfoldable pub run : State V → List (Callback V) → State V
  run s [] = s
  run s (k ∷ ks) = run (step s k) ks
