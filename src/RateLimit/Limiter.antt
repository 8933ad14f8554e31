-- ===== src/RateLimit/Limiter.antt =====
-- `Limiter` of internal/ratelimit/ratelimit.go, for rates and bursts that are whole numbers, as the
-- callers' are. A token is 10^9 fractions: a rate of r tokens each second gains r fractions each
-- nanosecond.
use korik.RateLimit.{key_of}
use korik.RateLimit.Bucket.{
  Between, Bucket, Meter, Rate, credit, credit-spend, entry, passed, passed-le-cap, spend,
  spend-answer,
}
use korik.Prelude.{
  Bool, List, Option, Str, [], arith, false, if◌then◌else◌, none, positive_or, refl, some, str_eq,
  str_eq_iff, str_key, true, ℕ, ℤ, ◌*◌, ◌+◌, ◌-◌, ◌<◌, ◌∙◌, ◌≡◌, ◌≤◌,
}
use korik.GoMap.{Map, get, get-put, get-remove, put, remove}

pub record Limiter : Type 0 where
  pub rate : ℕ
  pub burst : ℕ
  pub states : Map Str Bucket

unfoldable pub new : ℤ → ℤ → Limiter
new rate_per_sec burst = record {
  rate = positive_or rate_per_sec 20;
  burst = positive_or burst 40;
  states = [];
}

abbrev pub rate_of : Limiter → Rate
rate_of l = record { gain = l.rate; one = 1_000_000_000; cap = l.burst * 1_000_000_000 }

unfoldable pub allow : Limiter → Str → ℕ → Limiter × Bool
unfolding key_of
allow l key now =
    let name = key_of key in
    let (b, ok) = spend (rate_of l) now (entry (rate_of l) now (get l.states name)) in
    (record l { states = put l.states name b }, ok)

unfoldable pub reset : Limiter → Str → Limiter
reset l key = record l { states = remove l.states key }

pub bucket : Limiter → Str → Option Bucket
bucket l key = get l.states key

module _ (l : Limiter) (key : Str) (now : ℕ) where
  pub bucket-allow :
      (other : Str)
      → bucket (allow l key now).0 other ≡ (
          if str_eq (key_of key) other
          then some (spend (rate_of l) now (entry (rate_of l) now (bucket l (key_of key)))).0
          else bucket l other)
  unfolding bucket allow
  bucket-allow other = get-put l.states (key_of key) other _

  pub allow-paid :
      credit (rate_of l) now (bucket (allow l key now).0 (key_of key))
        + (if (allow l key now).1 then 1_000_000_000 else 0)
      ≤ credit (rate_of l) now (bucket l (key_of key))
  unfolding allow bucket
  allow-paid = ground (
    arith,
    str_eq_iff (key_of key) (key_of key),
    bucket-allow (key_of key),
    credit-spend (rate_of l) now (get l.states (key_of key)),
  )

  pub rate-allow : rate_of (allow l key now).0 ≡ rate_of l
  unfolding allow
  rate-allow = refl

  pub allow-apart :
      (other : Str)
      → str_eq (key_of key) other ≡ false
      → bucket (allow l key now).0 other ≡ bucket l other
  allow-apart other h = rw (bucket-allow, h)

abbrev pub meter : Meter Limiter
meter = record {
  rate = rate_of;
  allow = allow;
  bucket = bucket;
  same_rate = rate-allow;
  paid = allow-paid;
  apart = λ l key other now h. allow-apart l key now other h;
}

-- Of the calls for a key between two times, no more proceed than a burst and what the rate adds in
-- between, whatever the calls for other keys are. (One event costs 10^9 fractions of a token.)
pub passed-le-burst :
    (key : Str) (l : Limiter) (start stop : ℕ) (calls : List (Str × ℕ))
    → Between start stop calls
    → passed meter key l calls * 1_000_000_000 ≤ l.burst * 1_000_000_000 + (stop - start) * l.rate
passed-le-burst = passed-le-cap meter

-- After a reset of a key that is not empty, its next event may proceed, whatever came before.
pub allow-reset :
    (l : Limiter) (key : Str) (now : ℕ)
    → 0 < l.burst
    → str_eq key [] ≡ false
    → (allow (reset l key) key now).1 ≡ true
unfolding allow reset key_of
allow-reset l key now positive named = rw named (
    rw get-remove (
      rw ((str_eq_iff key key).1 refl)
        (spend-answer (rate_of l) now none ∙ unfold credit in ground arith)))
