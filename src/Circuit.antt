-- ===== src/Circuit.antt =====
-- internal/circuit/circuit.go: the breaker that skips addresses whose dials keep failing. Times and
-- durations are numbers of nanoseconds; the clock is an argument of each method that reads it.
pub mod Health
pub mod Runs
mod Tests
use korik.Prelude.{
  Bool, Option, Str, [], false, if◌then◌else◌, leb, ltb, none, positive_or, some, str_key, true, ℕ,
  ℤ, ◌+◌, ◌-◌,
}
use korik.GoMap.{Map, get, put, remove}

pub record Breaker : Type 0 where
  pub failures : Map Str ℕ
  pub blocked_at : Map Str ℕ
  pub threshold : ℕ
  pub cooldown : ℕ

unfoldable pub new : ℤ → ℤ → Breaker
new threshold cooldown = record {
  failures = [];
  blocked_at = [];
  threshold = positive_or threshold 5;
  cooldown = positive_or cooldown 60_000_000_000;
}

-- "circuit open for %s after %d failures, cooling down %s"
pub data OpenError : Type 0 where
  circuit_open : Str → ℕ → ℕ → OpenError

-- b.failures[addr], which is 0 where the map has no entry
unfoldable pub failures : Breaker → Str → ℕ
failures b addr = elim (get b.failures addr) [ none ↦ 0 | some n ↦ n ]

unfoldable pub skip : Breaker → Str → ℕ → Breaker × Bool
skip b addr now = elim (get b.blocked_at addr) [
  | none ↦ (b, false)
  | some since ↦
      if ltb b.cooldown (now - since)
      then (
        record b { blocked_at = remove b.blocked_at addr; failures = remove b.failures addr },
        false,
      )
      else (b, true)
]

unfoldable pub record_success : Breaker → Str → Breaker
record_success b addr = record b {
  failures = remove b.failures addr;
  blocked_at = remove b.blocked_at addr;
}

unfoldable pub record_failure : Breaker → Str → ℕ → Breaker × Option OpenError
unfolding failures
record_failure b addr now =
    let count = failures b addr + 1 in
    let b' = record b { failures = put b.failures addr count } in
    if leb b.threshold count
    then (
      record b' { blocked_at = put b.blocked_at addr now },
      some (circuit_open addr count b.cooldown),
    )
    else (b', none)
