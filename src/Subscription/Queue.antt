-- ===== src/Subscription/Queue.antt =====
-- The counters of a subscription (winrt/Projection.cpp, EventSubscription): which thread drains, who
-- holds a handler, and when the queue of pending reports is empty.
use matter_winrt.Base.{
  ℕ, zero, suc, ◌+◌, ◌≤◌, ◌<◌, ◌≡◌, refl, ap, length-drop_one, ◌||◌, ◌∙◌, Bool, true, false, Option,
  none, some, List, [], ◌∷◌, ◌++◌, if◌then◌else◌, is_some, get_elem?, set, arith, length,
  length-append, drop, total, total-nil, total-cons, total-append, total-set, total_mono,
}
use mathlib.Core.Option.{some-injective}
use mathlib.Core.List.{append-nil, append_assoc}
use matter_winrt.Subscription.{
  Adder, draining, withdrawing, gone, Subscription, maximum_pending, Event, adds, removes, closes,
  publishes, hands_over, delivers, swaps, withdraws, initial, step, deliver_at, swap_at,
  withdraw_at, deliver, swap, withdraw, is_holding,
}

module _ {ℓ} {R : Type ℓ} where
  abbrev pub is_draining : Adder R → ℕ
  is_draining (draining rs error) = 1
  is_draining _ = 0

  abbrev pub batch : Adder R → List R
  batch (draining rs error) = rs
  batch _ = []

  -- The reports that the adders have taken and not delivered.
  pub gather : List (Adder R) → List R
  gather [] = []
  gather (a ∷ ts) = batch a ++ gather ts

  pub gather-nil : gather [] ≡ []
  unfolding gather
  gather-nil = refl

  pub gather-append :
      (ts : List (Adder R)) (a : Adder R) → gather (ts ++ a ∷ []) ≡ gather ts ++ batch a
  unfolding gather
  gather-append [] a = append-nil (batch a)
  gather-append (b ∷ ts) a = rw (gather-append ts a) (simp append_assoc)

  pub gather_idle : (ts : List (Adder R)) → total is_draining ts ≡ 0 → gather ts ≡ []
  unfolding gather
  gather_idle [] h = refl
  gather_idle (draining rs e ∷ ts) h =
      absurd (omega (arith, total-cons is_draining (draining rs e) ts))
  gather_idle (withdrawing ∷ ts) h =
      gather_idle ts (omega (arith, total-cons is_draining withdrawing ts))
  gather_idle (gone ∷ ts) h = gather_idle ts (omega (arith, total-cons is_draining gone ts))

  -- Where one adder drains, what is gathered is what it has.
  pub gather-set :
      (ts : List (Adder R)) (i : ℕ) (a b : Adder R)
      → get_elem? ts i ≡ some a
      → total is_draining ts ≡ is_draining a
      → (gather ts ≡ batch a) × (gather (set ts i b) ≡ batch b)
  unfolding gather
  gather-set [] i a b h e = cc
  gather-set (c ∷ ts) zero a b h e =
      let same : c ≡ a = some-injective c a h in
      let none_left : gather ts ≡ [] =
        gather_idle ts (omega (arith, total-cons is_draining c ts, ap is_draining same)) in
      (rw none_left (append-nil (batch c) ∙ ap batch same), rw none_left (append-nil (batch b)))
  gather-set (draining rs x ∷ ts) (suc i) a b h e = absurd (
      omega (arith, total-cons is_draining (draining rs x) ts, total-set is_draining ts i a gone h))
  gather-set (withdrawing ∷ ts) (suc i) a b h e =
      gather-set ts i a b h (omega (arith, total-cons is_draining withdrawing ts))
  gather-set (gone ∷ ts) (suc i) a b h e =
      gather-set ts i a b h (omega (arith, total-cons is_draining gone ts))

  -- A thread that has nothing in hand may go on.
  pub gather-set_idle :
      (ts : List (Adder R)) (i : ℕ) (a b : Adder R)
      → get_elem? ts i ≡ some a
      → batch a ≡ batch b
      → gather (set ts i b) ≡ gather ts
  unfolding gather
  gather-set_idle [] i a b h e = refl
  gather-set_idle (c ∷ ts) zero a b h e = ground arith
  gather-set_idle (c ∷ ts) (suc i) a b h e = ap (◌++◌ (batch c)) (gather-set_idle ts i a b h e)

  pub record Inv (s : Subscription R) : Type ℓ where
    -- Every handler that counts has its token outside, or in a thread that is adding it.
    pub holders : s.handler_count ≡ s.tokens + total is_holding s.adders
    -- One thread drains while the flag is set, and none while it is not.
    pub one_drains : total is_draining s.adders ≡ (if s.draining_pending then 1 else 0)
    -- Reports wait only while there is no handler or a thread drains.
    pub idle_empty : s.draining_pending ≡ false → 0 < s.handler_count → s.pending_reports ≡ []
    -- A report that is being handed over has none behind it.
    pub alone : is_some s.publishing ≡ true → (gather s.adders ≡ []) × (s.pending_reports ≡ [])
    pub bounded : length s.pending_reports ≤ maximum_pending

  pub initial-Inv : Inv initial
  unfolding initial
  initial-Inv = ground (arith, total-nil (is_holding {R = R}), total-nil is_draining, gather-nil)

  pub draining-le-holding : (a : Adder R) → is_draining a ≤ is_holding a
  draining-le-holding (draining rs e) = omega arith
  draining-le-holding withdrawing = omega arith
  draining-le-holding gone = omega arith

  -- The caller passes ReportReceived(token) a token that it was given and has not given back.
  abbrev pub Legal : Subscription R → Event R → Type 0
  Legal s removes = 0 < s.tokens
  Legal s _ = Unit

  join :
      (w : Adder R → ℕ) (ts : List (Adder R)) (t : Adder R)
      → total w (ts ++ t ∷ []) ≡ total w ts + w t
  join w ts t = omega (arith, total-append w ts (t ∷ []), total-cons w t [], total-nil w)

  -- The adder that drains is the only one.
  pub only_drainer :
      (s : Subscription R) (i : ℕ) (rs : List R) (x : Bool)
      → get_elem? s.adders i ≡ some (draining rs x)
      → Inv s
      → (total is_draining s.adders ≡ 1) × (s.draining_pending ≡ true) × (gather s.adders ≡ rs)
  only_drainer s i rs x h v = ground (
    arith,
    total-set is_draining s.adders i (draining rs x) gone h,
    gather-set s.adders i (draining rs x) gone h,
  )

  deliver-Inv :
      (s : Subscription R) (i : ℕ) (throws : Bool) (o : Option (Adder R))
      → get_elem? s.adders i ≡ o
      → Inv s
      → Inv (deliver_at o i throws s)
  unfolding deliver_at deliver
  deliver-Inv s i throws (some (draining (r ∷ rs) x)) h v =
      let y : Adder R = draining rs (x || throws) in
      ground (
        arith,
        total-set is_draining s.adders i (draining (r ∷ rs) x) y h,
        total-set is_holding s.adders i (draining (r ∷ rs) x) y h,
        gather-set s.adders i (draining (r ∷ rs) x) y h,
        only_drainer s i (r ∷ rs) x h v,
      )
  deliver-Inv s i throws (some (draining [] x)) h v = v
  deliver-Inv s i throws (some withdrawing) h v = v
  deliver-Inv s i throws (some gone) h v = v
  deliver-Inv s i throws none h v = v

  swap-Inv :
      (s : Subscription R) (i : ℕ) (o : Option (Adder R))
      → get_elem? s.adders i ≡ o
      → Inv s
      → Inv (swap_at o i s)
  unfolding swap_at swap
  swap-Inv s i (some (draining [] x)) h v =
      let y : Adder R = draining s.pending_reports x in
      ground (
        arith,
        total-set is_draining s.adders i (draining [] x) y h,
        total-set is_holding s.adders i (draining [] x) y h,
        gather-set s.adders i (draining [] x) y h,
        total-set is_draining s.adders i (draining [] x) gone h,
        total-set is_holding s.adders i (draining [] x) gone h,
        gather-set s.adders i (draining [] x) gone h,
        total-set is_draining s.adders i (draining [] x) withdrawing h,
        total-set is_holding s.adders i (draining [] x) withdrawing h,
        gather-set s.adders i (draining [] x) withdrawing h,
        only_drainer s i [] x h v,
      )
  swap-Inv s i (some (draining (r ∷ rs) x)) h v = v
  swap-Inv s i (some withdrawing) h v = v
  swap-Inv s i (some gone) h v = v
  swap-Inv s i none h v = v

  withdraw-Inv :
      (s : Subscription R) (i : ℕ) (o : Option (Adder R))
      → get_elem? s.adders i ≡ o
      → Inv s
      → Inv (withdraw_at o i s)
  unfolding withdraw_at withdraw
  withdraw-Inv s i (some (draining rs x)) h v = v
  withdraw-Inv s i (some withdrawing) h v = ground (
    arith,
    total-set is_draining s.adders i withdrawing gone h,
    total-set is_holding s.adders i withdrawing gone h,
    gather-set_idle s.adders i withdrawing gone h,
  )
  withdraw-Inv s i (some gone) h v = v
  withdraw-Inv s i none h v = v

  -- Every atomic block of every thread keeps the counters right.
  pub step-Inv : (s : Subscription R) (e : Event R) → Legal s e → Inv s → Inv (step s e)
  unfolding step
  step-Inv s adds l v = ground (
    arith,
    join is_holding s.adders (draining s.pending_reports false),
    join is_draining s.adders (draining s.pending_reports false),
    total_mono is_draining is_holding s.adders draining-le-holding,
    gather_idle s.adders,
    gather-append s.adders (draining s.pending_reports false),
  )
  step-Inv s removes l v = ground arith
  step-Inv s closes l v = ground arith
  step-Inv s (publishes r) l v = ground (
    arith,
    length-append s.pending_reports (r ∷ []),
    length-append (drop 1 s.pending_reports) (r ∷ []),
    length-drop_one s.pending_reports,
    gather_idle s.adders,
  )
  step-Inv s hands_over l v = ground arith
  step-Inv s (delivers i throws) l v = deliver-Inv s i throws (get_elem? s.adders i) refl v
  step-Inv s (swaps i) l v = swap-Inv s i (get_elem? s.adders i) refl v
  step-Inv s (withdraws i) l v = withdraw-Inv s i (get_elem? s.adders i) refl v
