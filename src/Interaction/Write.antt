-- ===== src/Interaction/Write.antt =====
-- winrt/Projection.cpp, GenericWriteState: one attribute write. The bytes of the attribute and the
-- client that sends them are the SDK's; HandleConnected is a chain of its calls, and the results of
-- these calls are the model's inputs.
use matter_winrt.Base.{
  not, All, ◌≡◌, refl, Bool, true, false, ◌||◌, ◌&&◌, List, [], ◌∷◌, if◌then◌else◌, arith,
}
use matter_winrt.Chip.{ChipError, no_error, no_memory, is_error}

pub record State : Type 0 where
  pub complete : Bool
  pub result : ChipError
  -- The WriteClient is there.
  pub client : Bool

-- What the calls of HandleConnected return: whether the client could be made, and the errors of
-- Next, PutPreencodedAttribute and SendWriteRequest.
pub record Connection : Type 0 where
  pub made : Bool
  pub next : ChipError
  pub put : ChipError
  pub send : ChipError

pub data Callback : Type 0 where
  connected : Connection → Callback
  connection_failed : ChipError → Callback
  -- OnResponse with the status of one path, OnError, OnDone; ReleaseClient by the caller.
  responded : ChipError → Callback
  failed : ChipError → Callback
  done : Callback
  releases : Callback

pub initial : State
initial = record { complete = false; result = no_error; client = false }

pub finish : ChipError → State → State
finish error s = record s { result = error; complete = true }

pub on_response : ChipError → State → State
on_response status s = if is_error status then record s { result = status } else s

pub on_error : ChipError → State → State
on_error error s = record s { result = error }

pub on_done : State → State
on_done s = record s { complete = true }

pub release_client : State → State
release_client s = record s { client = false }

-- The first error of a chain of calls, each made only after a success.
abbrev pub first_error : ChipError → ChipError → ChipError
first_error e f = if is_error e then e else f

pub handle_connected : Connection → State → State
unfolding finish
handle_connected c s =
    let t = record s { client = c.made } in
    if not c.made
    then finish no_memory t
    else (let error = first_error (first_error c.next c.put) c.send in
        if is_error error then finish error t else t)

pub step : State → Callback → State
unfolding finish on_response on_error on_done release_client handle_connected
step s (connected c) = handle_connected c s
step s (connection_failed error) = finish error s
step s (responded status) = on_response status s
step s (failed error) = on_error error s
step s done = on_done s
step s releases = release_client s

pub run : State → List Callback → State
run s [] = s
run s (c ∷ cs) = run (step s c) cs

-- A callback that reports a failure.
abbrev pub is_failure : Callback → Bool
is_failure (connected c) = not c.made || is_error (first_error (first_error c.next c.put) c.send)
is_failure (connection_failed error) = true
is_failure (responded status) = is_error status
is_failure (failed error) = true
is_failure done = false
is_failure releases = false

abbrev pub any_failure : List Callback → Bool
any_failure [] = false
any_failure (c ∷ cs) = is_failure c || any_failure cs

-- A callback that ends the write.
abbrev pub is_end : Callback → Bool
is_end (connected c) = is_failure (connected c)
is_end (connection_failed error) = true
is_end done = true
is_end _ = false

abbrev pub any_end : List Callback → Bool
any_end [] = false
any_end (c ∷ cs) = is_end c || any_end cs

-- OnError and the failure of a connection come with an error.
abbrev pub CarriesError : Callback → Type 0
CarriesError (failed error) = is_error error ≡ true
CarriesError (connection_failed error) = is_error error ≡ true
CarriesError _ = Unit

result-step :
    (s : State) (c : Callback)
    → CarriesError c
    → is_error (step s c).result ≡ (is_failure c || is_error s.result)
unfolding step
result-step s (connected c) h = ground arith
result-step s (connection_failed error) h = ground arith
result-step s (responded status) h = ground arith
result-step s (failed error) h = ground arith
result-step s done h = ground arith
result-step s releases h = ground arith

result-run :
    (s : State) (cs : List Callback)
    → All CarriesError cs
    → is_error (run s cs).result ≡ (is_error s.result || any_failure cs)
unfolding run
result-run s [] h = ground arith
result-run s (c ∷ cs) h = ground (arith, result-run (step s c) cs h.1, result-step s c h.0)

abbrev pub any_done : List Callback → Bool
any_done [] = false
any_done (done ∷ cs) = true
any_done (c ∷ cs) = any_done cs

-- Without a failure only OnDone ends a write.
ends : (cs : List Callback) → any_failure cs ≡ false → any_end cs ≡ any_done cs
ends [] h = refl
ends (connected c ∷ cs) h = ground (arith, ends cs)
ends (connection_failed error ∷ cs) h = ground (arith, ends cs)
ends (responded status ∷ cs) h = ground (arith, ends cs)
ends (failed error ∷ cs) h = ground (arith, ends cs)
ends (done ∷ cs) h = refl
ends (releases ∷ cs) h = ground (arith, ends cs)

complete-step : (s : State) (c : Callback) → (step s c).complete ≡ (is_end c || s.complete)
unfolding step
complete-step s (connected c) = ground arith
complete-step s (connection_failed error) = ground arith
complete-step s (responded status) = ground arith
complete-step s (failed error) = ground arith
complete-step s done = ground arith
complete-step s releases = ground arith

complete-run : (s : State) (cs : List Callback) → (run s cs).complete ≡ (s.complete || any_end cs)
unfolding run
complete-run s [] = ground arith
complete-run s (c ∷ cs) = ground (arith, complete-run (step s c) cs, complete-step s c)

-- Where the SDK's failures carry an error: a write is complete
-- exactly if its connection failed or OnDone came; and it has succeeded, complete and without an
-- error, exactly if OnDone came and no callback, of any path, reported a failure.
pub write_success_iff :
    (cs : List Callback)
    → All CarriesError cs
    → ((run initial cs).complete ≡ any_end cs)
      × (((run initial cs).complete && not (is_error (run initial cs).result))
          ≡ (any_done cs && not (any_failure cs)))
unfolding initial
write_success_iff cs h = ground (arith, complete-run initial cs, result-run initial cs h, ends cs)
