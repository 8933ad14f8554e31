-- ===== src/RateLimit/ConnectionGuard.antt =====
-- `ConnectionGuard` of internal/ratelimit/ratelimit.go. A token is 6 * 10^10 fractions: a rate of 10
-- tokens each minute gains 10 fractions each nanosecond.
use korik.RateLimit.{connection_rate_per_minute, key_of}
use korik.RateLimit.Bucket.{
  Between, Bucket, Meter, Rate, credit, credit-spend, entry, passed, passed-le-cap, spend,
}
use korik.Prelude.{
  Bool, List, Option, Str, [], arith, false, if◌then◌else◌, refl, some, str_eq, str_eq_iff, str_key,
  ℕ, ◌*◌, ◌+◌, ◌-◌, ◌≡◌, ◌≤◌,
}
use korik.GoMap.{Map, get, get-put, put}

pub record ConnectionGuard : Type 0 where
  pub states : Map Str Bucket

abbrev pub connection_rate : Rate
connection_rate = record {
  gain = connection_rate_per_minute;
  one = 60_000_000_000;
  cap = connection_rate_per_minute * 60_000_000_000;
}

unfoldable pub new : ConnectionGuard
new = record { states = [] }

unfoldable pub allow : ConnectionGuard → Str → ℕ → ConnectionGuard × Bool
unfolding key_of
allow g ip now =
    let name = key_of ip in
    let (cs, ok) = spend connection_rate now (entry connection_rate now (get g.states name)) in
    (record { states = put g.states name cs }, ok)

pub bucket : ConnectionGuard → Str → Option Bucket
bucket g name = get g.states name

module _ (g : ConnectionGuard) (ip : Str) (now : ℕ) where
  bucket-allow :
      (other : Str)
      → bucket (allow g ip now).0 other ≡ (
          if str_eq (key_of ip) other
          then some (spend connection_rate now (entry connection_rate now (bucket g (key_of ip)))).0
          else bucket g other)
  unfolding bucket allow
  bucket-allow other = get-put g.states (key_of ip) other _

  pub allow-paid :
      credit connection_rate now (bucket (allow g ip now).0 (key_of ip))
        + (if (allow g ip now).1 then 60_000_000_000 else 0)
      ≤ credit connection_rate now (bucket g (key_of ip))
  unfolding allow bucket
  allow-paid = ground (
    arith,
    str_eq_iff (key_of ip) (key_of ip),
    bucket-allow (key_of ip),
    credit-spend connection_rate now (get g.states (key_of ip)),
  )

  pub allow-apart :
      (other : Str)
      → str_eq (key_of ip) other ≡ false
      → bucket (allow g ip now).0 other ≡ bucket g other
  allow-apart other h = rw (bucket-allow, h)

abbrev pub meter : Meter ConnectionGuard
meter = record {
  rate = λ g. connection_rate;
  allow = allow;
  bucket = bucket;
  same_rate = λ g ip now. refl;
  paid = allow-paid;
  apart = λ g ip now other h. allow-apart g ip other now h;
}

-- Of the connections from an address between two times, no more are accepted than 10 and the 10 for
-- each minute in between. (One connection costs 6 * 10^10 fractions of a token.)
pub passed-le-connection_rate :
    (ip : Str) (g : ConnectionGuard) (start stop : ℕ) (calls : List (Str × ℕ))
    → Between start stop calls
    → passed meter ip g calls * 60_000_000_000 ≤ 10 * 60_000_000_000 + (stop - start) * 10
passed-le-connection_rate = passed-le-cap meter
