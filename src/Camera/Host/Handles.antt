-- ===== src/Camera/Host/Handles.antt =====
-- The handles of winrt/CameraControllerRuntime.h and the endpoints behind them.
use matter_winrt.Base.{
  ℕ, suc, ◌+◌, ◌≤◌, ◌<◌, ◌≡◌, true, some, List, [], ◌∷◌, is_some, Bool-cases, inl, inr, ◌⊎◌, ◌%◌,
  arith,
}
use matter_winrt.Chip.{is_error}
use matter_winrt.Camera.Host.{
  Host, endpoints, invalid_endpoint, handles, initial, Event, inits, shuts_down, creates, closes,
  create, open_session, Calls, step, run,
}

pub record Inv (h : Host) : Type 0 where
  pub next_low : 1 ≤ h.next_endpoint
  pub next_high : h.next_endpoint ≤ invalid_endpoint
  pub ids : (e : ℕ) → h.endpoint ≡ some e → (1 ≤ e) × (e < h.next_endpoint)
  pub handle_bound : h.next_handle < handles
  pub handle_old : h.active_handle < handles
  pub handle_new : 1 ≤ h.next_handle → h.active_handle < h.next_handle
  pub behind : 1 ≤ h.active_handle → is_some h.endpoint ≡ true
  pub client_active : h.client ≡ true → 1 ≤ h.active_handle

pub initial-Inv : Inv initial
unfolding initial
initial-Inv = ground arith

-- The counters wrap; below their last value they go up by one.
endpoint-next : (n : ℕ) → n < invalid_endpoint → (n + 1) % endpoints ≡ suc n
endpoint-next n h = omega arith

pub handle-next : (n : ℕ) → n < handles → ((n + 1) % handles ≡ suc n) ⊎ ((n + 1) % handles ≡ 0)
handle-next n h = omega arith

open_session-Inv :
    (c : Calls) (peer : ℕ) (h : Host)
    → Inv h
    → h.active_handle ≡ 0
    → h.next_endpoint < invalid_endpoint
    → 1 ≤ h.next_handle
    → Inv (open_session c peer h).1
unfolding open_session
open_session-Inv c peer h v idle e n = elim (Bool-cases (is_error c.register)) [
  | inl r ↦ ground (arith, endpoint-next h.next_endpoint e)
  | inr r ↦ elim (Bool-cases (is_error c.create_session)) [
    | inl s ↦ ground (arith, endpoint-next h.next_endpoint e)
    | inr s ↦ elim (handle-next h.next_handle v.handle_bound) [
      | inl w ↦ ground (arith, endpoint-next h.next_endpoint e)
      | inr w ↦ ground (arith, endpoint-next h.next_endpoint e)
    ]
  ]
]

pub create-Inv : (c : Calls) (peer : ℕ) (h : Host) → Inv h → Inv (create c peer h).1
unfolding create
create-Inv c peer h v =
    let t = record h { bindings_initialized = true } in ground (arith, open_session-Inv c peer t)

pub step-Inv : (h : Host) (e : Event) → Inv h → Inv (step h e)
unfolding step
step-Inv h (inits u p a) v = ground arith
step-Inv h (shuts_down e) v = ground arith
step-Inv h (creates c peer) v = create-Inv c peer h v
step-Inv h (closes e f handle) v = ground arith

pub run-Inv : (h : Host) (es : List Event) → Inv h → Inv (run h es)
unfolding run
run-Inv h [] v = v
run-Inv h (e ∷ es) v = run-Inv (step h e) es (step-Inv h e v)
