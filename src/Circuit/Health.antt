-- ===== src/Circuit/Health.antt =====
-- The contract of internal/circuit/circuit.go for one address: its circuit is closed after some
-- failures in a row, or open since some time.
use korik.Prelude.{
  Bool-cases, Option-cases, Str, arith, false, if◌then◌else◌, inl, inr, leb, ltb, none, refl, some,
  str_eq, str_eq_iff, str_key, true, ℕ, ℤ, ◌+◌, ◌-◌, ◌<◌, ◌↔◌, ◌≡◌, ◌≤◌,
}
use korik.GoMap.{get, get-put, get-remove, put, remove}
use korik.Circuit.{Breaker, failures, new, record_failure, record_success, skip}

pub data Health : Type 0 where
  closed : ℕ → Health
  opened : ℕ → ℕ → Health

unfoldable pub health : Breaker → Str → Health
unfolding failures
health b addr = elim (get b.blocked_at addr) [
  | none ↦ closed (failures b addr)
  | some since ↦ opened since (failures b addr)
]

-- What the three methods do to the circuit of the address that they name.
abbrev pub on_success : Health → Health
on_success h = closed 0

abbrev pub on_failure : ℕ → ℕ → Health → Health
on_failure threshold now (closed n) =
    if leb threshold (n + 1) then opened now (n + 1) else closed (n + 1)
on_failure threshold now (opened since n) = opened now (n + 1)

abbrev pub on_skip : ℕ → ℕ → Health → Health
on_skip cooldown now (closed n) = closed n
on_skip cooldown now (opened since n) =
    if ltb cooldown (now - since) then closed 0 else opened since n

-- An open circuit has failed as often as the threshold says.
pub record IsConsistent (b : Breaker) : Type 0 where
  pub positive : 0 < b.threshold
  pub counted :
      (addr : Str) (since : ℕ) → get b.blocked_at addr ≡ some since → b.threshold ≤ failures b addr

-- Whatever its arguments, the constructor gives a consistent breaker with all circuits closed.
pub new-IsConsistent :
    (threshold cooldown : ℤ)
    → IsConsistent (new threshold cooldown)
      × ((addr : Str) → health (new threshold cooldown) addr ≡ closed 0)
unfolding new get health
new-IsConsistent threshold cooldown =
    (record { positive = ground arith; counted = λ addr since h. ground arith }, λ addr. refl)

module _ (b : Breaker) (addr : Str) (now : ℕ) where
  failures-remove :
      (other : Str)
      → failures (record b { failures = remove b.failures addr }) other
        ≡ (if str_eq addr other then 0 else failures b other)
  unfolding failures
  failures-remove other = ground (arith, get-remove b.failures addr other)

  failures-put :
      (n : ℕ) (other : Str)
      → failures (record b { failures = put b.failures addr n }) other
        ≡ (if str_eq addr other then n else failures b other)
  unfolding failures
  failures-put n other = ground (arith, get-put b.failures addr other n)

  pub health-record_success :
      (other : Str)
      → health (record_success b addr) other
        ≡ (if str_eq addr other then on_success (health b other) else health b other)
  unfolding health failures record_success
  health-record_success other =
      ground (arith, get-remove b.failures addr other, get-remove b.blocked_at addr other)

  pub health-skip :
      (other : Str)
      → health (skip b addr now).0 other
        ≡ (if str_eq addr other then on_skip b.cooldown now (health b other) else health b other)
  unfolding health failures skip
  health-skip other = ground (
    arith,
    str_eq_iff addr other,
    get-remove b.failures addr other,
    get-remove b.blocked_at addr other,
  )

  not_blocked :
      IsConsistent b → leb b.threshold (failures b addr + 1) ≡ false → get b.blocked_at addr ≡ none
  not_blocked c below = elim (Option-cases (get b.blocked_at addr)) [
    | inl absent ↦ absent
    | inr (since, at) ↦ absurd (ground (arith, c.counted addr since at))
  ]

  pub health-record_failure :
      (other : Str)
      → IsConsistent b
      → health (record_failure b addr now).0 other ≡ (
          if str_eq addr other then on_failure b.threshold now (health b other) else health b other)
  unfolding health failures record_failure
  health-record_failure other c = elim (Bool-cases (leb b.threshold (failures b addr + 1))) [
    | inl reached ↦
        rw (reached, record_failure)
          (ground (
            arith,
            str_eq_iff addr other,
            get-put b.failures addr other (failures b addr + 1),
            get-put b.blocked_at addr other now,
            reached,
          ))
    | inr below ↦
        rw (below, record_failure)
          (ground (
            arith,
            str_eq_iff addr other,
            get-put b.failures addr other (failures b addr + 1),
            below,
            not_blocked c below,
          ))
  ]

  pub record_success-IsConsistent : IsConsistent b → IsConsistent (record_success b addr)
  unfolding record_success failures
  record_success-IsConsistent c = record {
    positive = c.positive;
    counted = λ other since h. ground (
      arith,
      get-remove b.failures addr other,
      get-remove b.blocked_at addr other,
      c.counted other since,
    );
  }

  pub skip-IsConsistent : IsConsistent b → IsConsistent (skip b addr now).0
  unfolding skip failures
  skip-IsConsistent c = record {
    positive = ground (arith, c.positive);
    counted = λ other since h. ground (
      arith,
      get-remove b.failures addr other,
      get-remove b.blocked_at addr other,
      c.counted other since,
    );
  }

  pub failures-record_failure : failures (record_failure b addr now).0 addr ≡ failures b addr + 1
  unfolding record_failure failures
  failures-record_failure =
      ground (arith, str_eq_iff addr addr, get-put b.failures addr addr (failures b addr + 1))

  pub record_failure-IsConsistent : IsConsistent b → IsConsistent (record_failure b addr now).0
  unfolding record_failure failures
  record_failure-IsConsistent c = record {
    positive = ground (arith, c.positive);
    counted = λ other since h. ground (
      arith,
      str_eq_iff addr other,
      get-put b.failures addr other (failures b addr + 1),
      get-put b.blocked_at addr other now,
      c.counted other since,
    );
  }

  -- `Skip` says yes exactly while the circuit is open and the cooldown has not passed.
  pub skip_iff :
      ((skip b addr now).1 ≡ true)
      ↔ ((since : ℕ) × (get b.blocked_at addr ≡ some since) × (now - since ≤ b.cooldown))
  unfolding skip
  skip_iff = elim (Option-cases (get b.blocked_at addr)) [
    | inl absent ↦ rw absent (λ h. cc, λ h. ground arith)
    | inr (since, at) ↦ (λ h. (since, at, ground arith), λ h. ground arith)
  ]
