-- ===== src/RateLimit/PeerGuard.antt =====
-- `PeerGuard` of internal/ratelimit/ratelimit.go. A token is 6 * 10^10 fractions: a rate of 100
-- tokens each minute gains 100 fractions each nanosecond.
pub mod Strikes
pub mod Flood
use korik.RateLimit.{key_of, max_strikes_before_block, message_rate_per_minute}
use korik.RateLimit.Bucket.{
  Between, Bucket, Meter, Rate, credit, credit-spend, passed, passed-le-cap, spend,
}
use korik.Prelude.{
  Bool, List, Option, Str, [], arith, false, if◌then◌else◌, leb, none, refl, some, str_eq,
  str_eq_iff, str_key, true, ℕ, ◌*◌, ◌+◌, ◌-◌, ◌≡◌, ◌≤◌,
}
use korik.GoMap.{Map, get, get-put, put, remove}

pub record PeerState : Type 0 where
  pub tokens : ℕ
  pub last : ℕ
  pub strikes : ℕ
  pub blocked : Bool

pub record PeerGuard : Type 0 where
  pub peers : Map Str PeerState

abbrev pub peer_rate : Rate
peer_rate = record {
  gain = message_rate_per_minute;
  one = 60_000_000_000;
  cap = message_rate_per_minute * 60_000_000_000;
}

unfoldable pub new : PeerGuard
new = record { peers = [] }

abbrev pub fresh : ℕ → PeerState
fresh now = record { tokens = peer_rate.cap; last = now; strikes = 0; blocked = false }

-- The part of `Allow` after the look-up: the peer's new state, and the answer.
unfoldable pub charge : PeerState → ℕ → PeerState × Bool
charge ps now =
    let (b, ok) = spend peer_rate now (record { tokens = ps.tokens; last = ps.last }) in
    if ps.blocked
    then (ps, false)
    else if ok
    then (record ps { tokens = b.tokens; last = b.last }, true)
    else (
      record ps {
        tokens = b.tokens;
        last = b.last;
        strikes = ps.strikes + 1;
        blocked = leb max_strikes_before_block (ps.strikes + 1);
      },
      false,
    )

abbrev pub peer : PeerGuard → ℕ → Str → PeerState
peer g now name = elim (get g.peers name) [ none ↦ fresh now | some ps ↦ ps ]

unfoldable pub allow : PeerGuard → Str → ℕ → PeerGuard × Bool
unfolding key_of charge
allow g peer_jid now =
    let name = key_of peer_jid in
    let (ps, ok) = charge (peer g now name) now in (record { peers = put g.peers name ps }, ok)

unfoldable pub is_blocked : PeerGuard → Str → Bool
is_blocked g peer_jid = elim (get g.peers peer_jid) [ none ↦ false | some ps ↦ ps.blocked ]

unfoldable pub strikes : PeerGuard → Str → ℕ
strikes g peer_jid = elim (get g.peers peer_jid) [ none ↦ 0 | some ps ↦ ps.strikes ]

unfoldable pub unblock : PeerGuard → Str → PeerGuard
unblock g peer_jid = record { peers = remove g.peers peer_jid }

abbrev pub bucket_of : PeerState → Bucket
bucket_of ps = record { tokens = ps.tokens; last = ps.last }

pub bucket : PeerGuard → Str → Option Bucket
bucket g name = elim (get g.peers name) [ none ↦ none | some ps ↦ some (bucket_of ps) ]

charge-paid :
    (ps : PeerState) (now : ℕ)
    → credit peer_rate now (some (bucket_of (charge ps now).0))
        + (if (charge ps now).1 then 60_000_000_000 else 0)
      ≤ credit peer_rate now (some (bucket_of ps))
unfolding charge
charge-paid ps now = ground (arith, credit-spend peer_rate now (some (bucket_of ps)))

module _ (g : PeerGuard) (jid : Str) (now : ℕ) where
  pub get-allow :
      (other : Str)
      → get (allow g jid now).0.peers other ≡ (
          if str_eq (key_of jid) other
          then some (charge (peer g now (key_of jid)) now).0
          else get g.peers other)
  unfolding allow
  get-allow other = get-put g.peers (key_of jid) other _

  pub allow-paid :
      credit peer_rate now (bucket (allow g jid now).0 (key_of jid))
        + (if (allow g jid now).1 then 60_000_000_000 else 0)
      ≤ credit peer_rate now (bucket g (key_of jid))
  unfolding bucket allow
  allow-paid = ground (
    arith,
    str_eq_iff (key_of jid) (key_of jid),
    get-allow (key_of jid),
    charge-paid (peer g now (key_of jid)) now,
    credit-fresh now,
  )
    where
      credit-fresh :
          (now : ℕ)
          → credit peer_rate now (some (bucket_of (fresh now))) ≤ credit peer_rate now none
      credit-fresh now = unfold credit in ground arith

  pub allow-apart :
      (other : Str)
      → str_eq (key_of jid) other ≡ false
      → bucket (allow g jid now).0 other ≡ bucket g other
  unfolding bucket
  allow-apart other h = ground (arith, get-allow other)

abbrev pub meter : Meter PeerGuard
meter = record {
  rate = λ g. peer_rate;
  allow = allow;
  bucket = bucket;
  same_rate = λ g jid now. refl;
  paid = allow-paid;
  apart = λ g jid other now h. allow-apart g jid now other h;
}

-- Of a peer's messages between two times, no more pass than 100 and the 100 for each minute in
-- between, whatever the other peers send. (One message costs 6 * 10^10 fractions of a token.)
pub passed-le-peer_rate :
    (jid : Str) (g : PeerGuard) (start stop : ℕ) (calls : List (Str × ℕ))
    → Between start stop calls
    → passed meter jid g calls * 60_000_000_000 ≤ 100 * 60_000_000_000 + (stop - start) * 100
passed-le-peer_rate = passed-le-cap meter
