-- ===== src/Camera/Host/Stale.antt =====
-- What becomes of a handle of winrt/CameraControllerRuntime.h: Create makes it valid, and after
-- CloseLocal it is never valid again.
use matter_winrt.Base.{
  ℕ, ◌≤◌, ◌<◌, ◌≡◌, ◌≢◌, true, false, List, [], ◌∷◌, is_some, ok, err, refl, Option, some, none,
  ◌⊎◌, Option-cases, inl, inr, ◌∙◌, arith,
}
use matter_winrt.Chip.{ChipError, no_error, incorrect_state, busy, is_error}
use matter_winrt.Camera.Host.{
  Host, initial, Event, closes, close_local, create, open_session, Calls, given, step, run,
  validate, get_peer_node,
}
use matter_winrt.Camera.Host.Handles.{Inv, initial-Inv, step-Inv, run-Inv}
use matter_winrt.Camera.Host.Session.{floor, given-Issues, none-Keeps}

-- A handle that is neither active nor still to be given.
record Dead (x : ℕ) (h : Host) : Type 0 where
  old : x < floor h
  idle : x ≢ h.active_handle

step-Dead : (x : ℕ) (h : Host) (e : Event) → 1 ≤ x → Inv h → Dead x h → Dead x (step h e)
step-Dead x h e l v d = elim (Option-cases (given h e)) [
  | inl g ↦
      let k = none-Keeps h e g in
      record {
        old = omega (arith, k.same, d.old);
        idle = λ q. d.idle (q ∙ k.active (omega (arith, q)));
      }
  | inr (y, g) ↦
      let k = given-Issues h e y v g in
      record {
        old = omega (arith, k.raised, k.fresh, d.old);
        idle = λ q. absurd (omega (arith, q, k.active, k.fresh, d.old));
      }
]

run-Dead : (x : ℕ) (h : Host) (es : List Event) → 1 ≤ x → Inv h → Dead x h → Dead x (run h es)
unfolding run
run-Dead x h [] l v d = d
run-Dead x h (e ∷ es) l v d = run-Dead x (step h e) es l (step-Inv h e v) (step-Dead x h e l v d)

-- A handle that Create gives is valid, with the peer it was made for, and Create gives one only on a
-- host without an active session.
pub create_opens :
    (c : Calls) (peer handle : ℕ) (h : Host)
    → Inv h
    → (create c peer h).0 ≡ ok handle
    → (h.active_handle ≡ 0)
      × (validate handle (create c peer h).1 ≡ no_error)
      × (get_peer_node handle (create c peer h).1 ≡ ok peer)
unfolding create open_session validate get_peer_node
create_opens c peer handle h v e = ground arith

-- A Create that fails, in any of its calls, keeps the active handle as it was.
pub create_failed :
    (c : Calls) (peer : ℕ) (h : Host) (e : ChipError)
    → (create c peer h).0 ≡ err e
    → (create c peer h).1.active_handle ≡ h.active_handle
unfolding create open_session
create_failed c peer h e q = ground arith

closed-Dead :
    (handle : ℕ) (h : Host)
    → Inv h
    → validate handle h ≡ no_error
    → Dead handle (step h (closes no_error no_error handle))
unfolding validate step close_local
closed-Dead handle h v e = ground arith

Dead-invalid : (x : ℕ) (h : Host) → Dead x h → validate x h ≡ incorrect_state
unfolding validate
Dead-invalid x h d = ground arith

pub valid-low : (x : ℕ) (h : Host) → validate x h ≡ no_error → 1 ≤ x
unfolding validate
valid-low x h e = ground arith

-- After CloseLocal of a valid handle has succeeded, that handle is refused by Validate for good,
-- whatever sessions are created and closed later.
pub closed_handle_is_dead :
    (before after : List Event) (handle : ℕ)
    → validate handle (run initial before) ≡ no_error
    → validate handle (run (step (run initial before) (closes no_error no_error handle)) after)
      ≡ incorrect_state
closed_handle_is_dead before after handle e =
    let h = run initial before in
    let v = run-Inv initial before initial-Inv in
    let k = closes no_error no_error handle in
    Dead-invalid handle (run (step h k) after) (
      run-Dead handle (step h k) after (valid-low handle h e) (step-Inv h k v)
        (closed-Dead handle h v e))

-- CloseLocal of any handle that Create can have given never dereferences a missing endpoint, after any
-- calls with any errors.
pub close_local_safe :
    (es : List Event) (close unregister : ChipError) (handle : ℕ)
    → 1 ≤ handle
    → is_some (close_local close unregister handle (run initial es)) ≡ true
unfolding close_local
close_local_safe es close unregister handle l =
    let v = run-Inv initial es initial-Inv in ground (arith, v.behind)

closing :
    (close unregister : ChipError) (handle : ℕ) (h : Host) (r : Option (ChipError × Host))
    → handle ≡ h.active_handle
    → is_some h.endpoint ≡ true
    → close_local close unregister handle h ≡ r
    → (t : ChipError × Host) × (r ≡ some t)
      × (close ≡ no_error → unregister ≡ no_error → (t.0 ≡ no_error) × (t.1.active_handle ≡ 0))
unfolding close_local
closing close unregister handle h none a b q = absurd (ground arith)
closing close unregister handle h (some t) a b q = (t, refl, λ x y. ground arith)

-- CloseLocal of the active handle returns, and with its calls successful no handle is active after it.
pub close_local_active :
    (close unregister : ChipError) (handle : ℕ) (h : Host)
    → handle ≡ h.active_handle
    → is_some h.endpoint ≡ true
    → (t : ChipError × Host) × (close_local close unregister handle h ≡ some t)
      × (close ≡ no_error → unregister ≡ no_error → (t.0 ≡ no_error) × (t.1.active_handle ≡ 0))
close_local_active close unregister handle h a b =
    closing close unregister handle h (close_local close unregister handle h) a b refl

-- A valid handle is the active one, and there is an endpoint.
pub valid-active :
    (handle : ℕ) (h : Host)
    → validate handle h ≡ no_error
    → (handle ≡ h.active_handle) × (is_some h.endpoint ≡ true)
unfolding validate
valid-active handle h e = ground arith

pub validate_or :
    (handle : ℕ) (h : Host) → (validate handle h ≡ no_error) ⊎ (validate handle h ≡ incorrect_state)
unfolding validate
validate_or handle h = ground arith

pub get_peer_node-valid :
    (handle : ℕ) (h : Host) → validate handle h ≡ no_error → get_peer_node handle h ≡ ok h.peer_node
unfolding get_peer_node
get_peer_node-valid handle h v = rw v refl

pub idle-invalid :
    (handle : ℕ) (h : Host) → h.active_handle ≡ 0 → validate handle h ≡ incorrect_state
unfolding validate
idle-invalid handle h q = ground arith

pub create_busy :
    (c : Calls) (peer : ℕ) (h : Host) → 1 ≤ h.active_handle → create c peer h ≡ (err busy, h)
unfolding create
create_busy c peer h l = ground arith

-- CloseLocal of a valid handle whose CloseSession fails drops the client and keeps the handle active.
pub close_local_kept :
    (close unregister : ChipError) (handle : ℕ) (h : Host)
    → validate handle h ≡ no_error
    → is_error close ≡ true
    → close_local close unregister handle h ≡ some (close, record h { client = false })
unfolding close_local validate
close_local_kept close unregister handle h v e = ground arith

pub no_client-invalid :
    (handle : ℕ) (h : Host) → h.client ≡ false → validate handle h ≡ incorrect_state
unfolding validate
no_client-invalid handle h q = ground arith
