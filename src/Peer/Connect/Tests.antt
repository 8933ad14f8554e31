-- ===== src/Peer/Connect/Tests.antt =====
-- Dials that fail, and the delays between them.
use korik.Prelude.{
  [], arith, bytes, contains, false, length, lower_byte, ltb_ℤ, min, negsuc, none, pos, refl, some,
  starts_with, str_eq, to_lower, true, ℕ, ◌*◌, ◌+◌, ◌^◌, ◌∷◌, ◌≡◌, ◌≤◌,
}
use korik.Status.{first_hint, humanize_error, retry_plan, second, timeout_hint}
use korik.Status.Delays.{retry_plan-doubles}
use korik.Peer.Connect.{Attempt, Dialer, RetryResult, connect_with_retry, gave_up}
use korik.Peer.Connect.Attempts.{connect_with_retry-ends, delays}

abbrev refused : ℕ → Attempt
refused n = record { exists = false; dials = false; ready = false; now = n }

abbrev dialer : Dialer
dialer = record { breaker = none; dialed = []; phases = [] }

connect_with_retry-ends_example :
    let ((d', slept), result) =
      connect_with_retry 3 (pos 3) true (bytes "10.0.0.1:7777") refused dialer 0 in
    (length d'.dialed ≤ 0 + 3)
    × ((r : RetryResult) × (result ≡ some r))
    × (((n : ℕ) → (refused n).ready ≡ false) → (result ≡ some (gave_up 3)) × (slept ≡ delays 0 2))
connect_with_retry-ends_example =
    connect_with_retry-ends true (bytes "10.0.0.1:7777") refused 2 2 dialer 0 (omega arith)

-- A second and two seconds.
delays_two : delays 0 2 ≡ 1_000_000_000 ∷ 2_000_000_000 ∷ []
unfolding delays retry_plan
delays_two = refl

retry_plan-doubles_test :
    (retry_plan (pos 4) ≡ min (30 * second) (second * 2 ^ 3))
    × (ltb_ℤ (negsuc 2) (pos 1) ≡ true → retry_plan (negsuc 2) ≡ second)
    × (2 ≤ 3 → retry_plan (pos 3) ≤ retry_plan (pos 4))
retry_plan-doubles_test = retry_plan-doubles 3 2 (negsuc 2)

-- The hint of a text with two of the words is that of the first case.
humanize_two : humanize_error (some (bytes "STUN: i/o timeout")) ≡ timeout_hint
unfolding humanize_error first_hint to_lower lower_byte contains starts_with str_eq
humanize_two = refl
