-- ===== src/RateLimit/Bucket.antt =====
-- The token bucket that the three limiters of internal/ratelimit/ratelimit.go share, and what any of
-- them lets through in a span of time.
use native.Mathlib.Nat.{mul-le-mul_right}
use korik.RateLimit.{key_of}
use korik.Prelude.{
  Bool, Bool-cases, List, Option, Str, [], ap, arith, false, if◌then◌else◌, inl, inr, leb, ltb,
  none, some, str_eq, str_eq_iff, true, ℕ, ◌&&◌, ◌*◌, ◌+◌, ◌-◌, ◌∷◌, ◌≡◌, ◌≤◌,
}

pub record Bucket : Type 0 where
  pub tokens : ℕ
  pub last : ℕ

-- What a bucket gains in a nanosecond, what an event costs, and what a bucket holds at most.
pub record Rate : Type 0 where
  pub gain : ℕ
  pub one : ℕ
  pub cap : ℕ

-- `tokens += elapsed * rate; if tokens > burst { tokens = burst }`
unfoldable pub refill : Rate → ℕ → Bucket → ℕ
refill r now b =
    let tokens = b.tokens + (now - b.last) * r.gain in if ltb r.cap tokens then r.cap else tokens

-- a new entry of the map: full
abbrev pub full : Rate → ℕ → Bucket
full r now = record { tokens = r.cap; last = now }

abbrev pub entry : Rate → ℕ → Option Bucket → Bucket
entry r now none = full r now
entry r now (some b) = b

-- from the refill on: the bucket afterwards, and whether the event may proceed
unfoldable pub spend : Rate → ℕ → Bucket → Bucket × Bool
unfolding refill
spend r now b =
    let tokens = refill r now b in
    if ltb tokens r.one
    then (record { tokens = tokens; last = now }, false)
    else (record { tokens = tokens - r.one; last = now }, true)

-- What an event at `now` finds in the bucket; there is a full one for each new key.
unfoldable pub credit : Rate → ℕ → Option Bucket → ℕ
unfolding refill
credit r now none = r.cap
credit r now (some b) = refill r now b

pub credit-le-cap : (r : Rate) (now : ℕ) (o : Option Bucket) → credit r now o ≤ r.cap
unfolding credit
credit-le-cap r now none = omega arith
credit-le-cap r now (some b) = ground arith

sub_le_add : (gain last t u : ℕ) → t ≤ u → (u - last) * gain ≤ (t - last) * gain + (u - t) * gain
sub_le_add gain last t u h =
    let le : u - last ≤ (t - last) + (u - t) = omega arith in
    omega (arith, mul-le-mul_right gain le)

-- Time adds no more than the rate says.
credit-le-add :
    (r : Rate) (t u : ℕ) (o : Option Bucket)
    → t ≤ u
    → credit r u o ≤ credit r t o + (u - t) * r.gain
unfolding credit
credit-le-add r t u none h = omega arith
credit-le-add r t u (some b) h = ground (arith, sub_le_add r.gain b.last t u h)

-- What `spend` leaves, with the price of the event, is what it found.
pub credit-spend :
    (r : Rate) (now : ℕ) (o : Option Bucket)
    → credit r now (some (spend r now (entry r now o)).0)
        + (if (spend r now (entry r now o)).1 then r.one else 0)
      ≡ credit r now o
unfolding credit spend
credit-spend r now none = ground arith
credit-spend r now (some b) = ground arith

-- An event may proceed exactly if the bucket can pay for it.
pub spend-answer :
    (r : Rate) (now : ℕ) (o : Option Bucket)
    → (spend r now (entry r now o)).1 ≡ leb r.one (credit r now o)
unfolding credit spend
spend-answer r now none = ground arith
spend-answer r now (some b) = ground arith

-- A limiter as its clients see it: the answer for a key at a time, and the bucket of each key. An
-- empty key stands for another one, `key_of` says which.
pub record Meter {ℓ} (S : Type ℓ) : Type ℓ where
  pub rate : S → Rate
  pub allow : S → Str → ℕ → S × Bool
  pub bucket : S → Str → Option Bucket
  pub same_rate : (s : S) (key : Str) (now : ℕ) → rate (allow s key now).0 ≡ rate s
  -- An event that may proceed is paid for, and one that may not costs nothing.
  pub paid :
      (s : S) (key : Str) (now : ℕ)
      → credit (rate s) now (bucket (allow s key now).0 (key_of key))
          + (if (allow s key now).1 then (rate s).one else 0)
        ≤ credit (rate s) now (bucket s (key_of key))
  -- Keys have buckets of their own.
  pub apart :
      (s : S) (key other : Str) (now : ℕ)
      → str_eq (key_of key) other ≡ false
      → bucket (allow s key now).0 other ≡ bucket s other

-- The times of the calls do not fall, and lie between `start` and `stop`.
abbrev pub Between : ℕ → ℕ → List (Str × ℕ) → Type 0
Between start stop [] = start ≤ stop
Between start stop ((_, now) ∷ calls) = (start ≤ now) × Between now stop calls

Between-le : (start stop : ℕ) (calls : List (Str × ℕ)) → Between start stop calls → start ≤ stop
Between-le start stop [] h = h
Between-le start stop ((k, now) ∷ calls) h = omega (arith, Between-le now stop calls h.1)

span :
    (gain start now stop : ℕ)
    → start ≤ now
    → now ≤ stop
    → (stop - start) * gain ≡ (stop - now) * gain + (now - start) * gain
span gain start now stop h k =
    let e : stop - start ≡ (stop - now) + (now - start) = omega arith in
    omega (arith, ap (λ (t : ℕ). t * gain) e)

module _ {ℓ} {S : Type ℓ} (m : Meter S) where
  open m use {rate, allow, bucket, same_rate, paid, apart}

  -- How many of the calls for a key may proceed.
  unfoldable pub passed : Str → S → List (Str × ℕ) → ℕ
  passed key s [] = 0
  passed key s ((other, now) ∷ calls) =
      let (s', ok) = allow s other now in
      (if str_eq (key_of other) key && ok then 1 else 0) + passed key s' calls

  passed-le :
      (key : Str) (s : S) (start stop : ℕ) (calls : List (Str × ℕ))
      → Between start stop calls
      → passed key s calls * (rate s).one
        ≤ credit (rate s) start (bucket s key) + (stop - start) * (rate s).gain
  unfolding passed
  passed-le key s start stop [] h = omega arith
  passed-le key s start stop ((other, now) ∷ calls) h =
      let (s', ok) = allow s other now in
      let ih = rw same_rate at (passed-le key s' now stop calls h.1) in
      let gained = credit-le-add (rate s) start now (bucket s key) h.0 in
      let waited = span (rate s).gain start now stop h.0 (Between-le now stop calls h.1) in
      elim (Bool-cases (str_eq (key_of other) key)) [
        | inr differs ↦
            rw differs (ground (arith, ih, gained, waited, apart s other key now differs))
        | inl is ↦
            let cost = rw ((str_eq_iff (key_of other) key).0 is) at (paid s other now) in
            rw is (ground (arith, ih, gained, waited, cost))
      ]

  -- In any span of time a limiter lets through no more than a full bucket and what it gains.
  pub passed-le-cap :
      (key : Str) (s : S) (start stop : ℕ) (calls : List (Str × ℕ))
      → Between start stop calls
      → passed key s calls * (rate s).one ≤ (rate s).cap + (stop - start) * (rate s).gain
  passed-le-cap key s start stop calls h =
      omega (arith, passed-le key s start stop calls h, credit-le-cap (rate s) start (bucket s key))
