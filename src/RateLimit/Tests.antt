-- ===== src/RateLimit/Tests.antt =====
-- The theorems about internal/ratelimit/ratelimit.go at concrete limiters.
use korik.RateLimit.{key_of}
use korik.RateLimit.Bucket.{passed, refill, spend}
use korik.RateLimit.Limiter.{
  Limiter, allow as limiter_allow, allow-reset, meter as limiter_meter, passed-le-burst, reset,
}
use korik.RateLimit.PeerGuard.{
  PeerGuard, allow, is_blocked, meter, passed-le-peer_rate, strikes, unblock,
}
use korik.RateLimit.PeerGuard.Strikes.{
  IsValid, allow-IsValid, blocked-run, blocked_until_unblock, refused, run, strikes-run,
}
use korik.RateLimit.PeerGuard.Flood.{burst, paced, passed-flood}
use korik.RateLimit.ConnectionGuard.{
  allow as connection_allow, meter as connection_meter, passed-le-connection_rate,
}
use korik.Prelude.{
  Str, [], arith, bytes, false, leb, min, refl, str_eq, str_key, true, ◌*◌, ◌++◌, ◌+◌, ◌-◌, ◌∷◌,
  ◌≡◌, ◌≤◌,
}
use korik.GoMap.{get, put, remove}

program : Unit {0}
unfolding limiter_allow connection_allow reset allow unblock strikes is_blocked passed refused run
    get put remove str_eq spend refill
program = tt

abbrev peer : Str
peer = bytes "korik:1"

-- TestBurstThenThrottle
abbrev three : Limiter
three = record { rate = 1000; burst = 3; states = [] }

burst_then_throttle :
    passed limiter_meter peer three ((peer, 0) ∷ (peer, 0) ∷ (peer, 0) ∷ (peer, 0) ∷ []) ≡ 3
unfolding program
burst_then_throttle = refl

passed-le-burst_test :
    passed limiter_meter peer three ((peer, 5) ∷ (peer, 6) ∷ []) * 1_000_000_000
    ≤ 3 * 1_000_000_000 + (9 - 5) * 1000
passed-le-burst_test = passed-le-burst peer three 5 9 ((peer, 5) ∷ (peer, 6) ∷ []) (omega arith)

allow-reset_test : (limiter_allow (reset three peer) peer 7).1 ≡ true
unfolding str_eq
allow-reset_test = allow-reset three peer 7 (omega arith) refl

-- a peer with an empty bucket and two strikes
abbrev drained : PeerGuard
drained = record {
  peers = (peer, record { tokens = 0; last = 5; strikes = 2; blocked = false }) ∷ [];
}

drained-IsValid : IsValid drained
unfolding get str_eq
drained-IsValid = record {
  each = λ name ps h. record {
    capped = ground arith;
    blocking = ground arith;
    bounded = ground arith;
  };
}

passed-le-peer_rate_example :
    passed meter peer drained ((peer, 5) ∷ (peer, 6) ∷ []) * 60_000_000_000
    ≤ 100 * 60_000_000_000 + (9 - 5) * 100
passed-le-peer_rate_example =
    passed-le-peer_rate peer drained 5 9 ((peer, 5) ∷ (peer, 6) ∷ []) (omega arith)

passed-le-connection_rate_test :
    passed connection_meter peer (record { states = [] }) ((peer, 5) ∷ []) * 60_000_000_000
    ≤ 10 * 60_000_000_000 + (9 - 5) * 10
passed-le-connection_rate_test =
    passed-le-connection_rate peer (record { states = [] }) 5 9 ((peer, 5) ∷ []) (omega arith)

strikes-run_test :
    strikes (run drained ((peer, 6) ∷ (peer, 7) ∷ [])) peer
    ≡ min 3 (strikes drained peer + refused peer drained ((peer, 6) ∷ (peer, 7) ∷ []))
strikes-run_test = strikes-run drained ((peer, 6) ∷ (peer, 7) ∷ []) peer drained-IsValid

allow-IsValid_test : IsValid (allow drained peer 6).0
allow-IsValid_test = allow-IsValid drained peer 6 drained-IsValid

abbrev stranger : PeerGuard
stranger = record { peers = [] }

blocked-run_test :
    is_blocked (run stranger ((peer, 6) ∷ (peer, 7) ∷ [])) peer
    ≡ leb 3 (refused peer stranger ((peer, 6) ∷ (peer, 7) ∷ []))
unfolding strikes get
blocked-run_test =
    blocked-run stranger ((peer, 6) ∷ (peer, 7) ∷ []) peer
      (record { each = λ name ps h. ground arith }) refl

abbrev banned : PeerGuard
banned = record {
  peers = (peer, record { tokens = 0; last = 5; strikes = 3; blocked = true }) ∷ [];
}

blocked_until_unblock_test :
    (passed meter peer banned ((peer, 900_000_000_000) ∷ []) ≡ 0)
    × (is_blocked (run banned ((peer, 900_000_000_000) ∷ [])) peer ≡ true)
    × ((allow (unblock (run banned ((peer, 900_000_000_000) ∷ [])) peer) peer 6).1 ≡ true)
unfolding is_blocked get str_eq
blocked_until_unblock_test =
    blocked_until_unblock banned peer 6 ((peer, 900_000_000_000) ∷ []) refl refl

passed-flood_test :
    passed meter (key_of peer) stranger (burst peer 0 100 ++ paced peer 0 100) ≡ 100 + 100
unfolding get
passed-flood_test = passed-flood peer stranger 0 100 refl
