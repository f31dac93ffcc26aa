-- ===== src/Camera/Signaling/Blocking.antt =====
-- What a failing CloseSession leaves of the camera operations of winrt/Projection.cpp.
use matter_winrt.Base.{
  ℕ, ◌≤◌, ◌≡◌, refl, ◌∙◌, true, false, not, ◌&&◌, Bool, Option, none, some, if◌then◌else◌, Result,
  ok, err, arith,
}
use mathlib.Core.Path.{subst}
use matter_winrt.Chip.{ChipError, no_error, busy, is_error}
use matter_winrt.Camera.Host.{Host, validate}
use matter_winrt.Camera.Host.Command.{finish}
use matter_winrt.Camera.Host.Stale.{
  create_busy, close_local_kept, no_client-invalid, valid-active, get_peer_node-valid, valid-low,
}
use matter_winrt.Camera.Signaling.{
  Controller, Failure, canceled, illegal_call, invalid_argument, chip, Outcome, returned, thrown,
  with_host, sent, Ending, is_known, Start, Session, created, start_on, start_camera, close_valid,
  close_camera,
}
use matter_winrt.Camera.Signaling.Starting.{Ends, sent-Ends}
use matter_winrt.Camera.Signaling.Closing.{valid_close, close_camera_stale}

-- A handle is active, and no client is there.
record Blocked (h : Host) : Type 0 where
  active : 1 ≤ h.active_handle
  client : h.client ≡ false

-- An exception that leaves the controller as it is.
Refused : Controller → Outcome Session → Type 0
Refused c o = (f : Failure) × (o ≡ thrown f c)

same_host : (c : Controller) (h : Host) → c.host ≡ some h → with_host h c ≡ c
same_host c h q = ground arith

if-Refused :
    (c : Controller) (b : Bool) (f : Failure) (o : Outcome Session)
    → Refused c o
    → Refused c (if b then thrown f c else o)
unfolding Refused
if-Refused c true f o r = (f, refl)
if-Refused c false f o r = r

start_on-Refused :
    (s : Start) (c : Controller) (h : Host)
    → c.host ≡ some h
    → Blocked h
    → Refused c (start_on s c h)
unfolding start_on created Refused
start_on-Refused s c h q b =
    rw (create_busy s.calls s.node h b.active, same_host c h q)
      (if-Refused c s.canceled_before canceled _ (
        if-Refused c (not s.system_available) illegal_call _ (
          if-Refused c (not (is_known s.video && is_known s.audio)) invalid_argument _
            (chip busy, refl))))

hosted-Refused :
    (s : Start) (c : Controller) (h : Host) (o : Option Host)
    → c.host ≡ some h
    → c.host ≡ o
    → Blocked h
    → Refused c (elim o [ none ↦ thrown illegal_call c | some h ↦ start_on s c h ])
unfolding Refused
hosted-Refused s c h none q p b = (illegal_call, refl)
hosted-Refused s c h (some g) q p b =
    let same : h ≡ g = ground arith in start_on-Refused s c g p (subst Blocked same b)

acquired-Refused :
    (s : Start) (c : Controller) (h : Host) (a : Result Failure (Unit {0}))
    → c.host ≡ some h
    → Blocked h
    → Refused c (elim a [
      | err f ↦ thrown f c
      | ok u ↦
          if c.closed
          then thrown illegal_call c
          else elim c.host [ none ↦ thrown illegal_call c | some h ↦ start_on s c h ]
    ])
unfolding Refused
acquired-Refused s c h (err f) q b = (f, refl)
acquired-Refused s c h (ok u) q b =
    if-Refused c c.closed illegal_call _ (hosted-Refused s c h c.host q refl b)

start_camera-Refused :
    (s : Start) (c : Controller) (h : Host)
    → c.host ≡ some h
    → Blocked h
    → Refused c (start_camera s c)
unfolding start_camera
start_camera-Refused s c h q b = acquired-Refused s c h s.acquired q b

close_kept :
    (n : Ending) (handle : ℕ) (c : Controller) (h : Host) (r : Option ChipError)
    → validate handle h ≡ no_error
    → is_error n.close_session ≡ true
    → Ends n.send_end
    → sent h handle finish n.send_end ≡ r
    → close_valid n handle c h
      ≡ thrown (chip n.close_session) (with_host (record h { client = false }) c)
unfolding close_valid
close_kept n handle c h none v k f q = absurd (sent-Ends h handle finish n.send_end f q)
close_kept n handle c h (some e) v k f q =
    rw (q, close_valid, close_local_kept n.close_session n.unregister handle h v k, k) refl

-- On an open controller, a CloseCamera of a valid session whose CloseSession fails blocks the camera: it
-- throws that error, and after it every StartCamera throws and changes nothing, and every CloseCamera, of this handle too, returns
-- without doing anything.
pub failed_close_blocks :
    (n : Ending) (handle : ℕ) (c : Controller) (h : Host)
    → c.closed ≡ false
    → c.host ≡ some h
    → validate handle h ≡ no_error
    → is_error n.close_session ≡ true
    → Ends n.send_end
    → (d : Controller) × (close_camera true (ok tt) n handle c c ≡ thrown (chip n.close_session) d)
      × ((s : Start) → (f : Failure) × (start_camera s d ≡ thrown f d))
      × ((m : Ending) (other : ℕ) (leased : Bool) (a : Result Failure (Unit {0}))
            (later : Controller)
          → close_camera leased a m other d later ≡ returned tt d)
unfolding Refused
failed_close_blocks n handle c h o q v k f =
    let g = record h { client = false } in
    let b : Blocked g = record {
      active = ground (arith, valid-active handle h v, valid-low handle h v);
      client = refl;
    } in
    (
      with_host g c,
      valid_close n handle h.peer_node (ok tt) c c h h o q v (get_peer_node-valid handle h v) refl q
            v
          ∙ close_kept n handle c h (sent h handle finish n.send_end) v k f refl,
      λ s. start_camera-Refused s (with_host g c) g refl b,
      λ m other leased a later.
          close_camera_stale m other leased a (with_host g c) later
            λ x e. ground (arith, no_client-invalid other g refl),
    )
