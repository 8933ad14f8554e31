-- ===== src/Peer/Traversal/Bounded.antt =====
-- How long the way through the candidates of internal/peer/internet.go is, and what its result says.
use korik.Prelude.{
  Bool, Bool-cases, List, [], arith, bytes, false, if◌then◌else◌, inl, inr, leb, not, refl, str_eq,
  suc, true, ℕ, ◌*◌, ◌+◌, ◌-◌, ◌<◌, ◌||◌, ◌∷◌, ◌≡◌, ◌≤◌,
}
use korik.Candidates.{
  Candidate, Net, StrategyStep, address, prioritize, same_type, srflx, step_direct_lan, step_failed,
  step_for, step_ipv6, step_public_udp, step_punching,
}
use korik.Peer.Traversal.{
  Action, Course, Network, act, connect_by_udp, connect_with_candidates, connects_to, punch_all,
  punches, reports, same_step, try_best_srflx, try_punching, try_tcp, wait_for_peer,
}
use korik.Peer.Traversal.Waits.{
  Follows, Fruitless, attempt-Follows, fail-Follows, if-Follows, later-Follows, milliseconds,
  stage-Follows, stop-Follows,
}

module _ (net : Net) (network : Network) where
  try_tcp-Follows :
      (step : StrategyStep) (tried : ℕ) (k : Course) (cands : List Candidate)
      → Fruitless network k
      → Follows network k (4_100 * (3 - tried)) (try_tcp net network step tried k cands)
  unfolding try_tcp milliseconds
  try_tcp-Follows step tried k [] f = stop-Follows network k (4_100 * (3 - tried)) f
  try_tcp-Follows step tried k (c ∷ cands) f =
      let limit = 4_100 * (3 - tried) in
      let actions = reports step ∷ connects_to (address net c) ∷ [] in
      let (k', up) = wait_for_peer network (act k actions) 2 in
      let rest = try_tcp net network step (suc tried) k' cands in
      let next = if up then (act k' (reports step ∷ []), true) else rest in
      let skipped = try_tcp net network step tried k cands in
      let attempt =
        attempt-Follows network k actions (reports step ∷ []) 2_000 2 (4_100 * (3 - suc tried)) rest
          f refl refl (try_tcp-Follows step (suc tried) k' cands) in
      if-Follows network
        (not (same_step (step_for net c) step) || not (str_eq c.transport (bytes "tcp"))) k limit
        skipped (if leb 3 tried then (k, false) else next)
        (λ skips. try_tcp-Follows step tried k cands f)
        (λ fits.
          if-Follows network (leb 3 tried) k limit (k, false) next
            (λ enough. stop-Follows network k limit f)
            (λ more.
              later-Follows network k k next limit (4_100 + 4_100 * (3 - suc tried))
                (ground (arith, more)) attempt))

  try_best_srflx-Follows :
      (k : Course) (cands : List Candidate)
      → Fruitless network k
      → Follows network k 3_100 (try_best_srflx net network k cands)
  unfolding try_best_srflx milliseconds
  try_best_srflx-Follows k [] f = stop-Follows network k 3_100 f
  try_best_srflx-Follows k (c ∷ cands) f =
      let actions = reports step_public_udp ∷ punches (address net c) ∷ [] in
      let (k', up) = wait_for_peer network (act k actions) 3 in
      let next = if up then (act k' (reports step_public_udp ∷ []), true) else (k', false) in
      if-Follows network (not (same_type c.kind srflx) || not (str_eq c.transport (bytes "udp"))) k
        3_100 (try_best_srflx net network k cands) next (λ skips. try_best_srflx-Follows k cands f)
        (λ fits.
          attempt-Follows network k actions (reports step_public_udp ∷ []) 0 3 0 (k', false) f refl
            refl (stop-Follows network k' 0))

  milliseconds-punch_all : (cands : List Candidate) → milliseconds (punch_all net network cands) ≡ 0
  unfolding punch_all milliseconds
  milliseconds-punch_all [] = refl
  milliseconds-punch_all (c ∷ cands) = elim (Bool-cases (str_eq c.transport (bytes "udp"))) [
    | inl udp ↦ rw udp (milliseconds-punch_all cands)
    | inr other ↦ rw other (milliseconds-punch_all cands)
  ]

  try_punching-Follows :
      (k : Course) (cands : List Candidate)
      → Fruitless network k
      → Follows network k 5_100 (try_punching net network k cands)
  unfolding try_punching milliseconds
  try_punching-Follows k cands f = go (punch_all net network cands) (milliseconds-punch_all cands)
    where
      go :
          (targets : List Action)
          → milliseconds targets ≡ 0
          → Follows network k 5_100 (elim targets [
            | [] ↦ (k, false)
            | a ∷ actions ↦
                let (k', up) =
                  wait_for_peer network (act k (reports step_punching ∷ a ∷ actions)) 5 in
                if up then (act k' (reports step_punching ∷ []), true) else (k', false)
          ])
      go [] none_yet = stop-Follows network k 5_100 f
      go (a ∷ actions) none_yet =
          let k' = (wait_for_peer network (act k (reports step_punching ∷ a ∷ actions)) 5).0 in
          attempt-Follows network k (reports step_punching ∷ a ∷ actions)
            (reports step_punching ∷ []) 0 5 0 (k', false) f none_yet refl
            (stop-Follows network k' 0)

  connect_by_udp-Follows :
      (k : Course) (cands : List Candidate)
      → Fruitless network k
      → Follows network k 8_200 (connect_by_udp net network k cands)
  unfolding connect_by_udp
  connect_by_udp-Follows k cands f =
      let r = try_best_srflx net network k cands in
      let r' = try_punching net network r.0 cands in
      stage-Follows network k r
        (if r'.1 then (r'.0, true) else (act r'.0 (reports step_failed ∷ []), false)) 3_100 5_100
        (try_best_srflx-Follows k cands f)
        (λ f'.
          stage-Follows network r.0 r' (act r'.0 (reports step_failed ∷ []), false) 5_100 0
            (try_punching-Follows r.0 cands f') (fail-Follows network r'.0 0))

-- Whatever candidates a peer has and whatever the network does, the five stages take 32.8 seconds at
-- most in all: at most 6 dials, each cut off after 2 seconds, and the waits, each of which can end 0.1
-- seconds after its deadline. The time to resolve a name for a punch is not counted. The result is a
-- session exactly if the last wait found the peer; if it is an error, then no wait of any stage found
-- it.
pub connect_with_candidates-ends :
    (net : Net) (network : Network) (internet_mode : Bool) (candidates : List Candidate)
    → let (k, up) = connect_with_candidates net network internet_mode candidates in
      (milliseconds k.actions ≤ 32_800)
      × (up ≡ false → (i : ℕ) → i < k.waited → network i ≡ false)
      × (up ≡ true → (0 < k.waited) × (network (k.waited - 1) ≡ true))
unfolding connect_with_candidates milliseconds
connect_with_candidates-ends net network internet_mode candidates =
    let k : Course = record { actions = []; waited = 0 } in
    let cands = prioritize candidates in
    let lan = try_tcp net network step_direct_lan 0 k cands in
    let v6 = try_tcp net network step_ipv6 0 lan.0 cands in
    let r = connect_by_udp net network v6.0 cands in
    let last = if not internet_mode then (act v6.0 (reports step_failed ∷ []), false) else r in
    stage-Follows network k lan (if v6.1 then (v6.0, true) else last) 12_300 20_500
      (try_tcp-Follows net network step_direct_lan 0 k cands (λ i lt. ground (arith, lt)))
      (λ f.
        stage-Follows network lan.0 v6 last 12_300 8_200
          (try_tcp-Follows net network step_ipv6 0 lan.0 cands f)
          (λ f'.
            if-Follows network (not internet_mode) v6.0 8_200
              (act v6.0 (reports step_failed ∷ []), false) r
              (λ local. fail-Follows network v6.0 8_200 f')
              (λ wide. connect_by_udp-Follows net network v6.0 cands f')))
