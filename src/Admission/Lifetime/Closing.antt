-- ===== src/Admission/Lifetime/Closing.antt =====
-- The closing flag of RuntimeOperationAdmission (winrt/Projection.cpp) and the leases after it.
use matter_winrt.Base.{
  ℕ, ◌≤◌, ◌≡◌, true, some, List, [], ◌∷◌, get_elem?, total, total-set, arith, Option-cases, inl,
  inr,
}
use matter_winrt.Admission.Lifetime.{
  Thread, trying, owning, leased, gone, Lifetime, Event, arrives, tries, looks, gives_up, ends,
  starts_closing, shuts_down, try_lock, look, give_up, end_lease, step, run,
}

abbrev pub is_leased : Thread → ℕ
is_leased (leased alone) = 1
is_leased _ = 0

-- After the closing flag is set.
record Closed (n : ℕ) (t : Lifetime) : Type 0 where
  closed : t.closing ≡ true
  leases : total is_leased t.threads ≤ n

try_lock-Closed :
    (n i : ℕ) (x : Thread) (t : Lifetime)
    → get_elem? t.threads i ≡ some x
    → Closed n t
    → Closed n (try_lock i x t)
unfolding try_lock
try_lock-Closed n i (trying a) t h v =
    ground (arith, total-set is_leased t.threads i (trying a) (owning a) h)
try_lock-Closed n i (owning a) t h v = v
try_lock-Closed n i (leased a) t h v = v
try_lock-Closed n i gone t h v = v

look-Closed :
    (n i : ℕ) (x : Thread) (t : Lifetime)
    → get_elem? t.threads i ≡ some x
    → Closed n t
    → Closed n (look i x t)
unfolding look
look-Closed n i (trying a) t h v = ground (arith, total-set is_leased t.threads i (trying a) gone h)
look-Closed n i (owning a) t h v = ground (arith, total-set is_leased t.threads i (owning a) gone h)
look-Closed n i (leased a) t h v = v
look-Closed n i gone t h v = v

give_up-Closed :
    (n i : ℕ) (x : Thread) (t : Lifetime)
    → get_elem? t.threads i ≡ some x
    → Closed n t
    → Closed n (give_up i x t)
unfolding give_up
give_up-Closed n i (trying a) t h v =
    ground (arith, total-set is_leased t.threads i (trying a) gone h)
give_up-Closed n i (owning a) t h v =
    ground (arith, total-set is_leased t.threads i (owning a) gone h)
give_up-Closed n i (leased a) t h v = v
give_up-Closed n i gone t h v = v

end_lease-Closed :
    (n i : ℕ) (x : Thread) (t : Lifetime)
    → get_elem? t.threads i ≡ some x
    → Closed n t
    → Closed n (end_lease i x t)
unfolding end_lease
end_lease-Closed n i (leased a) t h v =
    ground (arith, total-set is_leased t.threads i (leased a) gone h)
end_lease-Closed n i (trying a) t h v = v
end_lease-Closed n i (owning a) t h v = v
end_lease-Closed n i gone t h v = v

step-Closed : (n : ℕ) (t : Lifetime) (e : Event) → Closed n t → Closed n (step t e)
unfolding step
step-Closed n t (arrives a) v = ground arith
step-Closed n t (tries i) v = elim (Option-cases (get_elem? t.threads i)) [
  | inl h ↦ ground arith
  | inr (x, h) ↦ ground (arith, try_lock-Closed n i x t h v)
]
step-Closed n t (looks i) v = elim (Option-cases (get_elem? t.threads i)) [
  | inl h ↦ ground arith
  | inr (x, h) ↦ ground (arith, look-Closed n i x t h v)
]
step-Closed n t (gives_up i) v = elim (Option-cases (get_elem? t.threads i)) [
  | inl h ↦ ground arith
  | inr (x, h) ↦ ground (arith, give_up-Closed n i x t h v)
]
step-Closed n t (ends i) v = elim (Option-cases (get_elem? t.threads i)) [
  | inl h ↦ ground arith
  | inr (x, h) ↦ ground (arith, end_lease-Closed n i x t h v)
]
step-Closed n t starts_closing v = ground arith
step-Closed n t shuts_down v = ground arith

run-Closed : (n : ℕ) (t : Lifetime) (es : List Event) → Closed n t → Closed n (run t es)
unfolding run
run-Closed n t [] v = v
run-Closed n t (e ∷ es) v = run-Closed n (step t e) es (step-Closed n t e v)

-- From the moment the closing flag is set, whatever the threads do, the flag stays set and the number
-- of leases never grows.
pub closing_grants_none :
    (t : Lifetime) (es : List Event)
    → t.closing ≡ true
    → ((run t es).closing ≡ true) × (total is_leased (run t es).threads ≤ total is_leased t.threads)
closing_grants_none t es h =
    let v = run-Closed (total is_leased t.threads) t es (ground arith) in (v.closed, v.leases)
