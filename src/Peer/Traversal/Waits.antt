-- ===== src/Peer/Traversal/Waits.antt =====
-- How long a course through the stages of internal/peer/internet.go waits, and what its result says.
use korik.Prelude.{
  Bool, Bool-cases, List, [], arith, false, if◌then◌else◌, inl, inr, refl, true, ℕ, ◌*◌, ◌++◌, ◌+◌,
  ◌-◌, ◌<◌, ◌∷◌, ◌≟◌, ◌≡◌, ◌≤◌,
}
use korik.Candidates.{step_failed}
use korik.Peer.Traversal.{
  Action, Course, Network, act, connects_to, punches, reports, wait_for_peer, waits_for_peer,
}

-- The milliseconds that the actions take at most. A dial of `ConnectTo` has a timeout of 2 seconds. A
-- wait tests its deadline before each sleep of 100 milliseconds, so it can end so much later. Punching
-- goes on in a goroutine; the time to resolve a name for it is not counted.
unfoldable pub milliseconds : List Action → ℕ
milliseconds [] = 0
milliseconds (waits_for_peer s ∷ actions) = s * 1_000 + 100 + milliseconds actions
milliseconds (connects_to addr ∷ actions) = 2_000 + milliseconds actions
milliseconds (punches addr ∷ actions) = milliseconds actions
milliseconds (reports step ∷ actions) = milliseconds actions

milliseconds-append : (a b : List Action) → milliseconds (a ++ b) ≡ milliseconds a + milliseconds b
unfolding milliseconds
milliseconds-append [] b = omega arith
milliseconds-append (waits_for_peer s ∷ a) b = omega (arith, milliseconds-append a b)
milliseconds-append (connects_to addr ∷ a) b = omega (arith, milliseconds-append a b)
milliseconds-append (punches addr ∷ a) b = milliseconds-append a b
milliseconds-append (reports step ∷ a) b = milliseconds-append a b

-- A course in which the peer was not there so far.
abbrev pub Fruitless : Network → Course → Type 0
Fruitless network k = (i : ℕ) → i < k.waited → network i ≡ false

-- From the course `k` the result follows: it is a session exactly if the last wait found the peer, no
-- wait before that did, and the actions since `k` take no more milliseconds than the limit.
abbrev pub Follows : Network → Course → ℕ → Course × Bool → Type 0
Follows network k limit (k', up) =
    (milliseconds k'.actions ≤ milliseconds k.actions + limit)
    × (up ≡ false → Fruitless network k')
    × (up ≡ true → (0 < k'.waited) × (network (k'.waited - 1) ≡ true))

module _ (network : Network) where
  milliseconds-act :
      (k : Course) (actions : List Action)
      → milliseconds (act k actions).actions ≡ milliseconds k.actions + milliseconds actions
  milliseconds-act k actions = milliseconds-append k.actions actions

  -- One wait, after actions that take so long.
  wait-Follows :
      (k : Course) (actions : List Action) (cost s : ℕ)
      → Fruitless network k
      → milliseconds actions ≡ cost
      → Follows network k (cost + (s * 1_000 + 100)) (wait_for_peer network (act k actions) s)
  unfolding wait_for_peer milliseconds
  wait-Follows k actions cost s f none_yet = (
    ground (
      arith,
      none_yet,
      milliseconds-append k.actions actions,
      milliseconds-append (k.actions ++ actions) (waits_for_peer s ∷ []),
    ),
    λ down i lt. elim (Bool-cases (i ≟ k.waited)) [
      | inl last ↦ let e : i ≡ k.waited = ground (arith, last) in rw e down
      | inr other ↦ f i (ground (arith, other, lt))
    ],
    λ up. let e : k.waited + 1 - 1 ≡ k.waited = omega arith in (omega arith, rw e up),
  )

  pub act-Follows :
      (k : Course) (limit : ℕ) (k' : Course) (up : Bool) (actions : List Action)
      → milliseconds actions ≡ 0
      → Follows network k limit (k', up)
      → Follows network k limit (act k' actions, up)
  act-Follows k limit k' up actions none_yet (le, none_before, was_found) =
      (omega (arith, none_yet, le, milliseconds-append k'.actions actions), none_before, was_found)

  pub stop-Follows :
      (k : Course) (limit : ℕ) → Fruitless network k → Follows network k limit (k, false)
  stop-Follows k limit f = (omega arith, λ down. f, λ up. ground (arith, up))

  -- What follows from a later course follows from an earlier one.
  pub later-Follows :
      (k k' : Course) (r : Course × Bool) (limit limit' : ℕ)
      → milliseconds k'.actions + limit' ≤ milliseconds k.actions + limit
      → Follows network k' limit' r
      → Follows network k limit r
  later-Follows k k' (k'', up) limit limit' le (le', none_before, was_found) =
      (omega (arith, le, le'), none_before, was_found)

  pub if-Follows :
      (b : Bool) (k : Course) (limit : ℕ) (r r' : Course × Bool)
      → (b ≡ true → Follows network k limit r)
      → (b ≡ false → Follows network k limit r')
      → Follows network k limit (if b then r else r')
  if-Follows true k limit r r' holds fails = holds refl
  if-Follows false k limit r r' holds fails = fails refl

  -- An attempt: actions, a wait, and then either the session or what comes next.
  pub attempt-Follows :
      (k : Course) (actions after : List Action) (cost s limit : ℕ) (next : Course × Bool)
      → Fruitless network k
      → milliseconds actions ≡ cost
      → milliseconds after ≡ 0
      → let (k', up) = wait_for_peer network (act k actions) s in
        (Fruitless network k' → Follows network k' limit next)
        → Follows network k
            (cost + (s * 1_000 + 100) + limit)
            (if up then (act k' after, true) else next)
  unfolding wait_for_peer
  attempt-Follows k actions after cost s limit next f none_yet none_after goes_on =
      let k' = (wait_for_peer network (act k actions) s).0 in
      let (le, none_before, was_found) = wait-Follows k actions cost s f none_yet in
      if-Follows (network k.waited) k (cost + (s * 1_000 + 100) + limit) (act k' after, true) next
        (λ up.
          act-Follows k (cost + (s * 1_000 + 100) + limit) k' true after none_after
            (omega (arith, le), (λ down. ground (arith, down)), (λ e. was_found up)))
        (λ down.
          later-Follows k k' next (cost + (s * 1_000 + 100) + limit) limit (omega (arith, le))
            (goes_on (none_before down)))

  -- A stage, and what comes after it where it has no session.
  pub stage-Follows :
      (k : Course) (r next : Course × Bool) (limit limit' : ℕ)
      → Follows network k limit r
      → (Fruitless network r.0 → Follows network r.0 limit' next)
      → Follows network k (limit + limit') (if r.1 then (r.0, true) else next)
  stage-Follows k (k', true) next limit limit' (le, none_before, was_found) goes_on =
      (omega (arith, le), none_before, was_found)
  stage-Follows k (k', false) next limit limit' (le, none_before, was_found) goes_on =
      later-Follows k k' next (limit + limit') limit' (omega (arith, le))
        (goes_on (none_before refl))

  pub fail-Follows :
      (k : Course) (limit : ℕ)
      → Fruitless network k
      → Follows network k limit (act k (reports step_failed ∷ []), false)
  unfolding milliseconds
  fail-Follows k limit f =
      act-Follows k limit k false (reports step_failed ∷ []) refl (stop-Follows k limit f)
