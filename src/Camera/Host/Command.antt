-- ===== src/Camera/Host/Command.antt =====
-- winrt/CameraControllerRuntime.h, CommandOperation and Send: one command of a camera session, sent
-- once the device is connected, and the loop that waits for its result. Times are in milliseconds; the
-- two limits on ICE servers are the SDK's and are parameters.
use matter_winrt.Base.{
  ℕ, suc, ◌+◌, ◌*◌, ◌≤◌, ◌<◌, ◌≡◌, ◌↔◌, refl, Bool, true, false, not, ◌&&◌, All, length, ltb, leb,
  Option, none, some, List, [], ◌∷◌, if◌then◌else◌, is_some, arith,
}
use matter_winrt.Chip.{
  ChipError, no_error, invalid_argument, not_found, cancelled, timeout, is_error,
}
use matter_winrt.Camera.Host.{Host, validate}
use matter_winrt.Poll.{poll, poll_first, poll_returns}

pub data Command : Type 0 where
  offer candidates finish : Command

-- What the calls of Connected return, and the number of URLs of each ICE server.
pub record Calls : Type 0 where
  pub session_info : ChipError
  pub session_info_for_end : ChipError
  pub send_offer : ChipError
  pub send_candidates : ChipError
  pub send_end : ChipError
  pub ice_servers : List ℕ

-- The loop of Connected over the servers.
pub servers_error : ℕ → List ℕ → ChipError
servers_error max_urls [] = no_error
servers_error max_urls (urls ∷ rest) =
    let others = servers_error max_urls rest in
    if ltb max_urls urls then invalid_argument else others

pub ice_error : ℕ → ℕ → List ℕ → ChipError
unfolding servers_error
ice_error max_servers max_urls servers =
    if ltb max_servers (length servers) then invalid_argument else servers_error max_urls servers

-- The connection error after Connected.
pub connected : ℕ → ℕ → Command → Calls → ChipError
unfolding ice_error
connected max_servers max_urls offer c =
    let e = ice_error max_servers max_urls c.ice_servers in
    if is_error c.session_info then c.session_info else if is_error e then e else c.send_offer
connected max_servers max_urls candidates c =
    if is_error c.session_info then c.session_info else c.send_candidates
connected max_servers max_urls finish c =
    if is_error c.session_info_for_end then c.session_info_for_end else c.send_end

pub record Observation : Type 0 where
  pub canceled : Bool
  pub connection_error : ChipError
  pub result : Option ChipError
  pub now : ℕ

-- One round of Run.
unfoldable pub command_round : ℕ → Observation → Option ChipError
command_round deadline o =
    if o.canceled
    then some cancelled
    else if is_error o.connection_error
    then some o.connection_error
    else elim o.result [
      | some error ↦ some error
      | none ↦ if leb deadline o.now then some timeout else none
    ]

abbrev pub pause : ℕ
pause = 10

-- Run, by the error of GetConnectedDevice.
unfoldable pub run_command : ChipError → ℕ → (ℕ → Observation) → ℕ → Option ChipError
run_command get_connected deadline seen rounds =
    if is_error get_connected
    then some get_connected
    else poll rounds (λ i. command_round deadline (seen i)) 0

-- What Send learns of the session: the error of GetSessionInfo or GetSessionInfoForEnd, and whether
-- the session has a protocol identity.
pub record Info : Type 0 where
  pub error : ChipError
  pub has_protocol : Bool

abbrev pub is_finish : Command → Bool
is_finish finish = true
is_finish _ = false

abbrev pub is_not_found : ChipError → Bool
is_not_found not_found = true
is_not_found _ = false

-- The early returns of Send; `none` goes on to Run.
unfoldable pub send_early : Host → ℕ → Command → Info → Option ChipError
send_early h handle command info =
    let invalid = validate handle h in
    if is_error invalid
    then some invalid
    else if is_finish command && is_not_found info.error
    then some no_error
    else if is_error info.error
    then some info.error
    else if is_finish command && not info.has_protocol
    then some no_error
    else none

unfoldable pub send :
    Host → ℕ → Command → Info → ChipError → ℕ → (ℕ → Observation) → ℕ → Option ChipError
unfolding send_early run_command
send h handle command info get_connected deadline seen rounds =
    elim (send_early h handle command info) [
      | some error ↦ some error
      | none ↦ run_command get_connected deadline seen rounds
    ]

servers_iff :
    (max_urls : ℕ) (servers : List ℕ)
    → (servers_error max_urls servers ≡ no_error) ↔ All (λ n. n ≤ max_urls) servers
unfolding servers_error
servers_iff max_urls [] = (λ h. tt, λ h. refl)
servers_iff max_urls (n ∷ ns) =
    let ih = servers_iff max_urls ns in
    (λ h. (ground arith, ih.0 (ground arith)), λ h. ground (arith, ih.1 h.1, h.0))

-- The servers of an offer pass exactly if there are no more of them, and of their URLs, than the SDK's
-- arrays hold, so no array is written past its end.
pub ice_servers_fit :
    (max_servers max_urls : ℕ) (servers : List ℕ)
    → (ice_error max_servers max_urls servers ≡ no_error)
      ↔ ((length servers ≤ max_servers) × All (λ n. n ≤ max_urls) servers)
unfolding ice_error
ice_servers_fit max_servers max_urls servers =
    let v = servers_iff max_urls servers in
    (λ h. (ground arith, v.0 (ground arith)), λ h. ground (arith, v.1 h.1, h.0))

module _ (seen : ℕ → Observation) (deadline : ℕ) where
  -- Each pause lasts its full time.
  abbrev pub Pauses : Type 0
  Pauses = (k : ℕ) → (seen k).now + pause ≤ (seen (suc k)).now

  going_on : (k : ℕ) → command_round deadline (seen k) ≡ none → (seen k).now < deadline
  unfolding command_round
  going_on k h = ground arith

  -- Send returns, whatever the session and the device do: it returns early, or its loop ends within
  -- the pauses that fit before the deadline.
  pub send_returns :
      (h : Host) (handle : ℕ) (command : Command) (info : Info) (get_connected : ChipError) (n : ℕ)
      → Pauses
      → deadline ≤ (seen 0).now + n * pause
      → is_some (send h handle command info get_connected deadline seen (suc n)) ≡ true
  unfolding send run_command
  send_returns h handle command info get_connected n moves l =
      let e =
        poll_returns n (λ i. command_round deadline (seen i)) (λ i. (seen i).now) deadline pause 0
          going_on (λ k q. omega (arith, moves k)) l in
      ground arith

  fine_round :
      (k : ℕ)
      → command_round deadline (seen k) ≡ some no_error
      → ((seen k).canceled ≡ false)
        × ((seen k).connection_error ≡ no_error)
        × ((seen k).result ≡ some no_error)
  unfolding command_round
  fine_round k h = ground arith

  looped :
      (rounds : ℕ)
      → run_command no_error deadline seen rounds ≡ some no_error
      → poll rounds (λ i. command_round deadline (seen i)) 0 ≡ some no_error
  unfolding run_command
  looped rounds h = ground arith

  -- A connected command succeeds only in a round in which the client has its success, there is no
  -- connection error and the caller has not canceled; every earlier round went on.
  pub command_succeeds_only_if :
      (rounds : ℕ)
      → run_command no_error deadline seen rounds ≡ some no_error
      → (k : ℕ) × ((seen k).canceled ≡ false)
        × ((seen k).connection_error ≡ no_error)
        × ((seen k).result ≡ some no_error)
        × ((j : ℕ) → j < k → command_round deadline (seen j) ≡ none)
  command_succeeds_only_if rounds h =
      let (k, l, e, b) =
        poll_first rounds (λ i. command_round deadline (seen i)) 0 no_error (looped rounds h) in
      let (c, x, r) = fine_round k e in (k, c, x, r, λ j q. b j (omega arith) q)
