-- ===== src/Peer/Connect/Attempts.antt =====
-- How often `ConnectWithRetry` of internal/peer/node.go dials, and how it ends.
use korik.Prelude.{
  Bool, Bool-cases, List, Option-cases, Str, [], ap, arith, false, if◌then◌else◌, inl, inr, leb,
  length, none, pos, refl, some, suc, true, zero, ℕ, ℤ, ◌+◌, ◌∷◌, ◌≡◌, ◌≤◌,
}
use korik.Status.{retry_plan, retrying}
use korik.Peer.Connect.{
  Attempt, Dialer, RetryResult, connect_to, connect_with_retry, dial, gave_up, retry_round,
  session_ready, skips, told,
}

-- The delays before the attempts from number `attempt` + 2 on.
unfoldable pub delays : ℕ → ℕ → List ℕ
delays attempt zero = []
delays attempt (suc n) = retry_plan (pos (suc attempt)) ∷ delays (suc attempt) n

connect_to-dialed :
    (d : Dialer) (addr : Str) (a : Attempt)
    → length (connect_to d addr a).0.dialed ≤ length d.dialed + 1
unfolding connect_to skips dial
connect_to-dialed d addr a = ground arith

module _ (auto : Bool) (addr : Str) (meets : ℕ → Attempt) where
  retry_round-dialed :
      (max : ℤ) (d : Dialer) (n : ℕ)
      → length (retry_round max auto addr (meets n) d n).0.dialed ≤ length d.dialed + 1
  unfolding retry_round
  retry_round-dialed max d n = ground (arith, connect_to-dialed (told d retrying) addr (meets n))

  retry_round-result :
      (m : ℕ) (d : Dialer) (n : ℕ)
      → (meets n).ready ≡ false
      → (retry_round (pos (suc m)) auto addr (meets n) d n).1
        ≡ (if leb (suc m) n then some (gave_up n) else none)
  unfolding retry_round
  retry_round-result m d n h = ground (arith, h)

  retry_round-last :
      (m : ℕ) (d : Dialer) (n : ℕ)
      → suc m ≤ n
      → (r : RetryResult) × ((retry_round (pos (suc m)) auto addr (meets n) d n).1 ≡ some r)
  unfolding retry_round
  retry_round-last m d n h =
      let (d', error) = connect_to (told d retrying) addr (meets n) in
      let last : leb (suc m) n ≡ true = ground arith in
      elim (Option-cases error) [
        | inr (e, failed) ↦ (gave_up n, ground (arith, failed, last))
        | inl fine ↦ elim (Bool-cases (meets n).ready) [
          | inl up ↦ (session_ready, ground (arith, fine, up))
          | inr down ↦ (gave_up n, ground (arith, fine, down, last))
        ]
      ]

  -- What the loop gives, if its first round ends it, and if not.
  ends_now :
      (rounds : ℕ) (max : ℤ) (d : Dialer) (attempt : ℕ) (r : RetryResult)
      → (retry_round max auto addr (meets (suc attempt)) d (suc attempt)).1 ≡ some r
      → connect_with_retry (suc rounds) max auto addr meets d attempt
        ≡ (((retry_round max auto addr (meets (suc attempt)) d (suc attempt)).0, []), some r)
  unfolding connect_with_retry
  ends_now rounds max d attempt r h = ground (arith, h)

  goes_on :
      (rounds : ℕ) (max : ℤ) (d : Dialer) (attempt : ℕ)
      → let (d', result) = retry_round max auto addr (meets (suc attempt)) d (suc attempt) in
        let ((d'', slept), rest) = connect_with_retry rounds max auto addr meets d' (suc attempt) in
        result ≡ none
        → connect_with_retry (suc rounds) max auto addr meets d attempt
          ≡ ((d'', retry_plan (pos (suc attempt)) ∷ slept), rest)
  unfolding connect_with_retry
  goes_on rounds max d attempt h = ground (arith, h)

  -- Whatever each attempt meets, a call with a positive number of attempts ends within that number
  -- of rounds, and dials no more often. If no attempt gets a session, it makes them all: it gives up
  -- after the last one, and has slept the delays of `RetryPlan` between them.
  pub connect_with_retry-ends :
      (rounds m : ℕ) (d : Dialer) (attempt : ℕ)
      → attempt + suc rounds ≡ suc m
      → let ((d', slept), result) =
          connect_with_retry (suc rounds) (pos (suc m)) auto addr meets d attempt in
        (length d'.dialed ≤ length d.dialed + suc rounds)
        × ((r : RetryResult) × (result ≡ some r))
        × (((n : ℕ) → (meets n).ready ≡ false)
            → (result ≡ some (gave_up (suc m))) × (slept ≡ delays attempt rounds))
  unfolding delays
  connect_with_retry-ends zero m d attempt e =
      let n = suc attempt in
      let last : n ≡ suc m = omega arith in
      let (r, done) = retry_round-last m d n (omega arith) in
      let now = ends_now zero (pos (suc m)) d attempt r done in
      let fewer = retry_round-dialed (pos (suc m)) d n in
      rw now (
        fewer,
        (r, refl),
        λ never. (ground (arith, done, retry_round-result m d n (never n), last), refl),
      )
  connect_with_retry-ends (suc rounds) m d attempt e =
      let n = suc attempt in
      let (d', result) = retry_round (pos (suc m)) auto addr (meets n) d n in
      let fewer = retry_round-dialed (pos (suc m)) d n in
      elim (Option-cases result) [
        | inr (r, done) ↦ rw (ends_now (suc rounds) (pos (suc m)) d attempt r done) (
          omega (arith, fewer),
          (r, refl),
          λ never. absurd (ground (arith, done, retry_round-result m d n (never n))),
        )
        | inl going ↦
            let (count, ends, never) = connect_with_retry-ends rounds m d' n (omega arith) in
            rw (goes_on (suc rounds) (pos (suc m)) d attempt going) (
              omega (arith, fewer, count),
              ends,
              λ all. let (gave, slept) = never all in (gave, ap (◌∷◌ (retry_plan (pos n))) slept),
            )
      ]
