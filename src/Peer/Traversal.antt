-- ===== src/Peer/Traversal.antt =====
-- The way to a peer through its candidates, in internal/peer/internet.go: `ConnectWithCandidates`
-- with its five stages. What the network does is an argument: whether there is a session for the
-- peer after each attempt.
pub mod Waits
pub mod Bounded
mod Tests
use korik.Prelude.{
  Bool, List, Str, [], bytes, drop, false, if◌then◌else◌, leb, not, reverse, str_eq, suc, true, ℕ,
  ◌&&◌, ◌++◌, ◌+◌, ◌||◌, ◌∷◌, ◌≟◌,
}
use korik.Status.{Phase, connecting, failed_phase, traversing}
use korik.Candidates.{
  Candidate, Net, StrategyStep, address, prioritize, same_type, srflx, step_direct_lan, step_failed,
  step_for, step_ipv6, step_public_udp, step_punching,
}

-- What the stages do, in order.
pub data Action : Type 0 where
  connects_to : Str → Action
  punches : Str → Action
  waits_for_peer : ℕ → Action
  reports : StrategyStep → Action

-- The attempts so far count which answer of the network is the next one.
pub record Course : Type 0 where
  pub actions : List Action
  pub waited : ℕ

-- What each wait for the peer gives.
abbrev pub Network : Type 0
Network = ℕ → Bool

unfoldable pub phase_for_step : StrategyStep → Phase
phase_for_step step_direct_lan = connecting
phase_for_step step_ipv6 = connecting
phase_for_step step_public_udp = traversing
phase_for_step step_punching = traversing
phase_for_step step_failed = failed_phase

unfoldable pub strip_brackets : Str → Str
strip_brackets [] = []
strip_brackets (c ∷ s) =
    let inner = reverse (drop 1 (reverse s)) in
    if (c ≟ 91) && elim (reverse s) [ [] ↦ false | d ∷ _ ↦ d ≟ 93 ] then inner else c ∷ s

unfoldable pub same_step : StrategyStep → StrategyStep → Bool
same_step step_direct_lan step_direct_lan = true
same_step step_ipv6 step_ipv6 = true
same_step step_public_udp step_public_udp = true
same_step step_punching step_punching = true
same_step step_failed step_failed = true
same_step _ _ = false

abbrev pub act : Course → List Action → Course
act k actions = record k { actions = k.actions ++ actions }

-- `waitForPeerJID`, with a deadline after so many seconds: it asks, and sleeps 100 milliseconds, as long
-- as the deadline has not passed.
unfoldable pub wait_for_peer : Network → Course → ℕ → Course × Bool
wait_for_peer network k seconds = (
  record { actions = k.actions ++ waits_for_peer seconds ∷ []; waited = k.waited + 1 },
  network k.waited,
)

module _ (net : Net) (network : Network) where
  -- The loop of `tryTCP`, with the number of candidates that it tried.
  unfoldable pub try_tcp : StrategyStep → ℕ → Course → List Candidate → Course × Bool
  unfolding wait_for_peer
  try_tcp step tried k [] = (k, false)
  try_tcp step tried k (c ∷ cands) =
      let skipped = try_tcp step tried k cands in
      let (k', up) =
        wait_for_peer network (act k (reports step ∷ connects_to (address net c) ∷ [])) 2 in
      let rest = try_tcp step (suc tried) k' cands in
      if not (same_step (step_for net c) step) || not (str_eq c.transport (bytes "tcp"))
      then skipped
      else if leb 3 tried
      then (k, false)
      else if up
      then (act k' (reports step ∷ []), true)
      else rest

  -- Stage 3: only the first candidate that fits.
  unfoldable pub try_best_srflx : Course → List Candidate → Course × Bool
  unfolding wait_for_peer
  try_best_srflx k [] = (k, false)
  try_best_srflx k (c ∷ cands) =
      let skipped = try_best_srflx k cands in
      let (k', up) =
        wait_for_peer network (act k (reports step_public_udp ∷ punches (address net c) ∷ [])) 3 in
      if not (same_type c.kind srflx) || not (str_eq c.transport (bytes "udp"))
      then skipped
      else if up
      then (act k' (reports step_public_udp ∷ []), true)
      else (k', false)

  -- the targets of stage 4
  unfoldable pub punch_all : List Candidate → List Action
  punch_all [] = []
  punch_all (c ∷ cands) =
      let rest = punch_all cands in
      if str_eq c.transport (bytes "udp") then punches (address net c) ∷ rest else rest

  unfoldable pub try_punching : Course → List Candidate → Course × Bool
  unfolding punch_all wait_for_peer
  try_punching k cands = elim (punch_all cands) [
    | [] ↦ (k, false)
    | a ∷ actions ↦
        let (k', up) = wait_for_peer network (act k (reports step_punching ∷ a ∷ actions)) 5 in
        if up then (act k' (reports step_punching ∷ []), true) else (k', false)
  ]

  -- from stage 3 on
  unfoldable pub connect_by_udp : Course → List Candidate → Course × Bool
  unfolding try_best_srflx try_punching
  connect_by_udp k cands =
      let (k', up) = try_best_srflx k cands in
      let (k'', up') = try_punching k' cands in
      if up
      then (k', true)
      else if up'
      then (k'', true)
      else (act k'' (reports step_failed ∷ []), false)

  -- `true` is a session for the peer, `false` an error.
  unfoldable pub connect_with_candidates : Bool → List Candidate → Course × Bool
  unfolding try_tcp connect_by_udp
  connect_with_candidates internet_mode candidates =
      let cands = prioritize candidates in
      let (k, lan) = try_tcp step_direct_lan 0 (record { actions = []; waited = 0 }) cands in
      let (k', v6) = try_tcp step_ipv6 0 k cands in
      if lan
      then (k, true)
      else if v6
      then (k', true)
      else if not internet_mode
      then (act k' (reports step_failed ∷ []), false)
      else connect_by_udp k' cands
