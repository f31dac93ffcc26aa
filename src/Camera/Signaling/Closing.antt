-- ===== src/Camera/Signaling/Closing.antt =====
-- What CloseCamera (winrt/Projection.cpp) does to the session of its handle.
use matter_winrt.Base.{
  ℕ, ◌≡◌, refl, true, false, Bool, Option, none, some, if◌then◌else◌, Result, ok, arith,
}
use matter_winrt.Chip.{ChipError, no_error, incorrect_state, is_error}
use matter_winrt.Camera.Host.{Host, validate, get_peer_node}
use matter_winrt.Camera.Host.Command.{finish}
use matter_winrt.Camera.Host.Stale.{
  valid-active, close_local_active, get_peer_node-valid, idle-invalid,
}
use matter_winrt.Camera.Signaling.{
  Controller, Failure, chip, Outcome, returned, thrown, with_host, sent, Ending, close_valid,
  close_camera,
}
use matter_winrt.Camera.Signaling.Starting.{Ends, Closes, sent-Ends}

-- The exception of a close, if it ends, is the error of End: CloseLocal came before it.
abbrev pub Closed : ℕ → Ending → ChipError → Outcome (Unit {0}) → Type 0
Closed handle n e o =
    (g : Host) × (d : Controller) × (d.host ≡ some g)
    × (g.active_handle ≡ 0)
    × (validate handle g ≡ incorrect_state)
    × (o ≡ (if is_error e then thrown (chip e) d else returned tt d))

close_valid-Closed :
    (n : Ending) (handle : ℕ) (c : Controller) (h : Host) (r : Option ChipError)
    → validate handle h ≡ no_error
    → Closes n
    → Ends n.send_end
    → sent h handle finish n.send_end ≡ r
    → (e : ChipError) × (r ≡ some e) × Closed handle n e (close_valid n handle c h)
unfolding close_valid
close_valid-Closed n handle c h none v k f q = absurd (sent-Ends h handle finish n.send_end f q)
close_valid-Closed n handle c h (some e) v k f q =
    let (a, b) = valid-active handle h v in
    let (t, p, l) = close_local_active n.close_session n.unregister handle h a b in
    let (x, y) = l k.0 k.1 in
    (
      e,
      refl,
      (t.1, with_host t.1 c, refl, y, idle-invalid handle t.1 y, rw (q, close_valid, p, x) refl),
    )

pub valid_close :
    (n : Ending) (handle node : ℕ) (a : Result Failure (Unit {0})) (c later : Controller)
    (h g : Host)
    → c.closed ≡ false
    → c.host ≡ some h
    → validate handle h ≡ no_error
    → get_peer_node handle h ≡ ok node
    → a ≡ ok tt
    → later.host ≡ some g
    → validate handle g ≡ no_error
    → close_camera true a n handle c later ≡ close_valid n handle later g
unfolding close_camera
valid_close n handle node a c later h g o q v p k l w = rw (o, q, v, p, k, l, w) refl

-- On an open controller, CloseCamera of a session that is still valid once its locks are taken sends
-- End, and where the calls of CloseLocal succeed the session is gone then, whatever the device has
-- answered: no handle is active, the handle is invalid, and only the error of End is thrown.
pub close_camera-Closes :
    (n : Ending) (handle : ℕ) (c later : Controller) (h g : Host)
    → c.closed ≡ false
    → c.host ≡ some h
    → validate handle h ≡ no_error
    → later.host ≡ some g
    → validate handle g ≡ no_error
    → Closes n
    → Ends n.send_end
    → (e : ChipError) × (sent g handle finish n.send_end ≡ some e)
      × Closed handle n e (close_camera true (ok tt) n handle c later)
close_camera-Closes n handle c later h g o q v l w k f =
    let (e, p, z) =
      close_valid-Closed n handle later g (sent g handle finish n.send_end) w k f refl in
    (
      e,
      p,
      rw
          (valid_close n handle h.peer_node (ok tt) c later h g o q v
            (get_peer_node-valid handle h v) refl l w)
          z,
    )

stale :
    (n : Ending) (handle : ℕ) (leased : Bool) (a : Result Failure (Unit {0})) (c later : Controller)
    (o : Option Host)
    → c.host ≡ o
    → ((h : Host) → c.host ≡ some h → validate handle h ≡ incorrect_state)
    → close_camera leased a n handle c later ≡ returned tt c
unfolding close_camera
stale n handle leased a c later none q v = ground arith
stale n handle leased a c later (some h) q v = ground (arith, v h q)

-- CloseCamera with a handle that is not valid, or without a host, does nothing.
pub close_camera_stale :
    (n : Ending) (handle : ℕ) (leased : Bool) (a : Result Failure (Unit {0})) (c later : Controller)
    → ((h : Host) → c.host ≡ some h → validate handle h ≡ incorrect_state)
    → close_camera leased a n handle c later ≡ returned tt c
close_camera_stale n handle leased a c later v = stale n handle leased a c later c.host refl v
