-- ===== src/Camera/Signaling/Starting.antt =====
-- What StartCamera (winrt/Projection.cpp) leaves behind on its host.
use matter_winrt.Base.{
  ℕ, suc, ◌+◌, ◌*◌, ◌≤◌, ◌≡◌, refl, sym, ◌⊎◌, inl, inr, Bool, true, false, not, ◌&&◌, Option, none,
  some, if◌then◌else◌, Result, ok, err, arith,
}
use mathlib.Core.Path.{subst}
use matter_winrt.Chip.{ChipError, no_error}
use matter_winrt.Camera.Host.{Host, create, validate, get_peer_node, close_local}
use matter_winrt.Camera.Host.Command.{Command, offer, finish, pause, Pauses, send_returns}
use matter_winrt.Camera.Host.Handles.{Inv}
use matter_winrt.Camera.Host.Stale.{create_opens, create_failed, valid-active, close_local_active}
use matter_winrt.Camera.Signaling.{
  Controller, Failure, canceled, illegal_call, invalid_argument, Outcome, returned, thrown, crashed,
  out_of_fuel, with_host, sent, Sending, Ending, is_known, Session, Start, requestor_endpoint,
  abandon, announce, offered, created, start_on, start_camera,
}

-- The pauses of Send last their time, and the fuel covers its deadline.
abbrev pub Ends : Sending → Type 0
Ends s =
    (n : ℕ) × (s.rounds ≡ suc n)
    × Pauses s.seen s.deadline
    × (s.deadline ≤ (s.seen 0).now + n * pause)

-- The calls of CloseLocal succeed.
abbrev pub Closes : Ending → Type 0
Closes n = (n.close_session ≡ no_error) × (n.unregister ≡ no_error)

abbrev pub Valid : ℕ → Session → Controller → Type 0
Valid node x d =
    (h : Host) × (d.host ≡ some h)
    × (validate x.handle h ≡ no_error)
    × (get_peer_node x.handle h ≡ ok node)
    × (h.endpoint ≡ some x.requestor)

-- The host that is left has this active handle.
abbrev pub Left : ℕ → Controller → Type 0
Left active d = (g : Host) × (d.host ≡ some g) × (g.active_handle ≡ active)

-- What a start on a host with an active handle, or none, may come to.
Settled : Start → ℕ → Outcome Session → Type 0
Settled s active (returned x d) = Valid s.node x d
Settled s active (thrown f d) = Closes s.ending → Left active d
Settled s active crashed = ⊥
Settled s active out_of_fuel = Ends s.send_offer → Ends s.ending.send_end → ⊥

Left-Settled :
    (s : Start) (active : ℕ) (f : Failure) (c : Controller)
    → Left active c
    → Settled s active (thrown f c)
unfolding Settled
Left-Settled s active f c l = λ k. l

pub sent-Ends :
    (h : Host) (handle : ℕ) (command : Command) (s : Sending)
    → Ends s
    → sent h handle command s ≡ none
    → ⊥
sent-Ends h handle command s (n, r, p, l) q =
    let t = send_returns s.seen s.deadline h handle command s.info s.get_connected n p l in
    absurd (ground (arith, r))

abandon-cases :
    (s : Start) (handle : ℕ) (h : Host) (f : Failure) (c : Controller) (r : Option ChipError)
    → validate handle h ≡ no_error
    → sent h handle finish s.ending.send_end ≡ r
    → Settled s 0 (elim r [
      | none ↦ out_of_fuel
      | some e ↦ elim (close_local s.ending.close_session s.ending.unregister handle h) [
        | none ↦ crashed
        | some r ↦ thrown f (with_host r.1 c)
      ]
    ])
unfolding Settled
abandon-cases s handle h f c none v q = λ a b. sent-Ends h handle finish s.ending.send_end b q
abandon-cases s handle h f c (some e) v q =
    let (a, b) = valid-active handle h v in
    let (t, k, l) = close_local_active s.ending.close_session s.ending.unregister handle h a b in
    rw k (λ o. (t.1, refl, (l o.0 o.1).1))

abandon-Settled :
    (s : Start) (handle : ℕ) (h : Host) (f : Failure) (c : Controller)
    → validate handle h ≡ no_error
    → Settled s 0 (abandon s.ending handle h f c)
unfolding abandon
abandon-Settled s handle h f c v =
    abandon-cases s handle h f c (sent h handle finish s.ending.send_end) v refl

-- The session has an endpoint under the host's identifier.
made-Valid :
    (s : Start) (handle : ℕ) (h : Host) (c : Controller) (o : Option ℕ)
    → h.endpoint ≡ o
    → validate handle h ≡ no_error
    → get_peer_node handle h ≡ ok s.node
    → Valid s.node
        (record {
          handle = handle;
          node = s.node;
          endpoint = s.endpoint;
          requestor = requestor_endpoint h;
        })
        (with_host h c)
unfolding requestor_endpoint
made-Valid s handle h c none q v p = absurd (ground (arith, valid-active handle h v))
made-Valid s handle h c (some e) q v p = (h, refl, v, p, rw q refl)

announce-cases :
    (s : Start) (handle : ℕ) (h : Host) (c : Controller) (m : Result Failure (Unit {0}))
    → validate handle h ≡ no_error
    → get_peer_node handle h ≡ ok s.node
    → Settled s 0 (elim m [
      | err f ↦ abandon s.ending handle h f c
      | ok u ↦
          returned
            (record {
              handle = handle;
              node = s.node;
              endpoint = s.endpoint;
              requestor = requestor_endpoint h;
            })
            (with_host h c)
    ])
unfolding Settled
announce-cases s handle h c (err f) v p = abandon-Settled s handle h f c v
announce-cases s handle h c (ok u) v p = made-Valid s handle h c h.endpoint refl v p

-- A check of an error before the rest.
checked-Settled :
    (s : Start) (active : ℕ) (b : Bool) (o p : Outcome Session)
    → Settled s active o
    → Settled s active p
    → Settled s active (if b then o else p)
checked-Settled s active true o p h k = h
checked-Settled s active false o p h k = k

announce-Settled :
    (s : Start) (handle : ℕ) (h : Host) (c : Controller)
    → validate handle h ≡ no_error
    → get_peer_node handle h ≡ ok s.node
    → Settled s 0 (announce s handle h c)
unfolding announce
announce-Settled s handle h c v p =
    checked-Settled s 0 _ _ _ (abandon-Settled s handle h _ c v)
      (announce-cases s handle h c s.made v p)

offered-Settled :
    (s : Start) (handle : ℕ) (h : Host) (c : Controller) (r : Option ChipError)
    → validate handle h ≡ no_error
    → get_peer_node handle h ≡ ok s.node
    → sent h handle offer s.send_offer ≡ r
    → Settled s 0 (elim r [ none ↦ out_of_fuel | some e ↦ offered s handle h c e ])
unfolding offered Settled
offered-Settled s handle h c none v p q = λ a b. sent-Ends h handle offer s.send_offer a q
offered-Settled s handle h c (some e) v p q =
    checked-Settled s 0 _ _ _ (abandon-Settled s handle h _ c v) (announce-Settled s handle h c v p)

created-Settled :
    (s : Start) (c : Controller) (h : Host) (r : Result ChipError ℕ)
    → Inv h
    → (create s.calls s.node h).0 ≡ r
    → Settled s h.active_handle (created s c r (create s.calls s.node h).1)
unfolding created Settled
created-Settled s c h (err e) v q = λ k. (_, refl, create_failed s.calls s.node h e q)
created-Settled s c h (ok handle) v q =
    let (a, b, p) = create_opens s.calls s.node handle h v q in
    let t = (create s.calls s.node h).1 in
    subst (λ n. Settled s n (created s c (ok handle) t)) (sym a)
      (offered-Settled s handle t c (sent t handle offer s.send_offer) b p refl)

start_on-Settled :
    (s : Start) (c : Controller) (h : Host)
    → Inv h
    → c.host ≡ some h
    → Settled s h.active_handle (start_on s c h)
unfolding start_on
start_on-Settled s c h v q =
    checked-Settled s h.active_handle s.canceled_before _ _
      (Left-Settled s h.active_handle canceled c (h, q, refl))
      (checked-Settled s h.active_handle (not s.system_available) _ _
        (Left-Settled s h.active_handle illegal_call c (h, q, refl))
        (checked-Settled s h.active_handle (not (is_known s.video && is_known s.audio)) _ _
          (Left-Settled s h.active_handle invalid_argument c (h, q, refl))
          (created-Settled s c h (create s.calls s.node h).0 v refl)))

hosted-Settled :
    (s : Start) (c : Controller) (h : Host) (o : Option Host)
    → Inv h
    → c.host ≡ some h
    → c.host ≡ o
    → Settled s h.active_handle (elim o [ none ↦ thrown illegal_call c | some h ↦ start_on s c h ])
hosted-Settled s c h none v q p = absurd (ground arith)
hosted-Settled s c h (some g) v q p =
    let same : g ≡ h = ground arith in rw same (start_on-Settled s c h v q)

acquired-Settled :
    (s : Start) (c : Controller) (h : Host) (a : Result Failure (Unit {0}))
    → Inv h
    → c.host ≡ some h
    → Settled s h.active_handle (elim a [
      | err f ↦ thrown f c
      | ok u ↦
          if c.closed
          then thrown illegal_call c
          else elim c.host [ none ↦ thrown illegal_call c | some h ↦ start_on s c h ]
    ])
acquired-Settled s c h (err f) v q = Left-Settled s h.active_handle f c (h, q, refl)
acquired-Settled s c h (ok u) v q =
    checked-Settled s h.active_handle _ _ _ (Left-Settled s h.active_handle _ c (h, q, refl))
      (hosted-Settled s c h c.host v q refl)

start_camera-Settled :
    (s : Start) (c : Controller) (h : Host)
    → Inv h
    → c.host ≡ some h
    → Settled s h.active_handle (start_camera s c)
unfolding start_camera
start_camera-Settled s c h v q = acquired-Settled s c h s.acquired v q

-- On a host that meets its invariant, a StartCamera that throws, at any of its steps, leaves no session
-- behind: the host has the active handle it had before, if the calls of CloseLocal succeed.
pub start_camera_cleans_up :
    (s : Start) (c : Controller) (h : Host) (f : Failure) (d : Controller)
    → Inv h
    → c.host ≡ some h
    → Closes s.ending
    → start_camera s c ≡ thrown f d
    → Left h.active_handle d
unfolding Settled
start_camera_cleans_up s c h f d v q k e =
    subst (λ o. Settled s h.active_handle o) e (start_camera-Settled s c h v q) k

-- A session that StartCamera returns, on a host that met its invariant, is valid on the host, for the
-- node it was started for, and its requestor endpoint is the one the host has registered.
pub start_camera_opens :
    (s : Start) (c : Controller) (h : Host) (x : Session) (d : Controller)
    → Inv h
    → c.host ≡ some h
    → start_camera s c ≡ returned x d
    → Valid s.node x d
unfolding Settled
start_camera_opens s c h x d v q e =
    subst (λ o. Settled s h.active_handle o) e (start_camera-Settled s c h v q)

outcome_cases :
    (s : Start) (active : ℕ) (o : Outcome Session)
    → Ends s.send_offer
    → Ends s.ending.send_end
    → Settled s active o
    → ((x : Session) × (d : Controller) × (o ≡ returned x d))
      ⊎ ((f : Failure) × (d : Controller) × (o ≡ thrown f d))
unfolding Settled
outcome_cases s active (returned x d) a b p = inl (x, d, refl)
outcome_cases s active (thrown f d) a b p = inr (f, d, refl)
outcome_cases s active crashed a b p = absurd p
outcome_cases s active out_of_fuel a b p = absurd (p a b)

-- On a host that meets its invariant, StartCamera ends, with a session or an exception: it never
-- dereferences a missing endpoint, and its sends end, with the rounds that fit before their deadlines.
pub start_camera-Ends :
    (s : Start) (c : Controller) (h : Host)
    → Inv h
    → c.host ≡ some h
    → Ends s.send_offer
    → Ends s.ending.send_end
    → ((x : Session) × (d : Controller) × (start_camera s c ≡ returned x d))
      ⊎ ((f : Failure) × (d : Controller) × (start_camera s c ≡ thrown f d))
start_camera-Ends s c h v q a b =
    outcome_cases s h.active_handle (start_camera s c) a b (start_camera-Settled s c h v q)
