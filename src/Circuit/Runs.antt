-- ===== src/Circuit/Runs.antt =====
-- internal/circuit/circuit.go over whole runs of calls: each address has a circuit of its own.
use korik.Prelude.{
  Bool-cases, List, Str, [], ap, arith, false, if◌then◌else◌, inl, inr, leb, leb→le, length, refl,
  str_eq, str_eq_iff, ℕ, ◌&&◌, ◌++◌, ◌+◌, ◌-◌, ◌∙◌, ◌∷◌, ◌≡◌, ◌≤◌,
}
use korik.Circuit.{Breaker, record_failure, record_success, skip}
use korik.Circuit.Health.{
  Health, IsConsistent, closed, health, health-record_failure, health-record_success, health-skip,
  on_failure, on_skip, on_success, opened, record_failure-IsConsistent, record_success-IsConsistent,
  skip-IsConsistent,
}

-- A call of a method that changes the breaker, at the time at which it is made.
pub data Call : Type 0 where
  succeed : Call
  fail : ℕ → Call
  ask : ℕ → Call

unfoldable pub perform : Breaker → Str × Call → Breaker
perform b (addr, succeed) = record_success b addr
perform b (addr, fail now) = (record_failure b addr now).0
perform b (addr, ask now) = (skip b addr now).0

unfoldable pub run : Breaker → List (Str × Call) → Breaker
unfolding perform
run b [] = b
run b (call ∷ calls) = run (perform b call) calls

-- The calls for one address, in order.
unfoldable pub calls_for : Str → List (Str × Call) → List Call
calls_for addr [] = []
calls_for addr ((other, call) ∷ calls) =
    let rest = calls_for addr calls in if str_eq other addr then call ∷ rest else rest

unfoldable pub react : ℕ → ℕ → Health → Call → Health
react threshold cooldown h succeed = on_success h
react threshold cooldown h (fail now) = on_failure threshold now h
react threshold cooldown h (ask now) = on_skip cooldown now h

unfoldable pub react_all : ℕ → ℕ → Health → List Call → Health
unfolding react
react_all threshold cooldown h [] = h
react_all threshold cooldown h (call ∷ calls) =
    react_all threshold cooldown (react threshold cooldown h call) calls

perform-IsConsistent :
    (b : Breaker) (call : Str × Call) → IsConsistent b → IsConsistent (perform b call)
unfolding perform
perform-IsConsistent b (addr, succeed) c = record_success-IsConsistent b addr 0 c
perform-IsConsistent b (addr, fail now) c = record_failure-IsConsistent b addr now c
perform-IsConsistent b (addr, ask now) c = skip-IsConsistent b addr now c

settings-perform :
    (b : Breaker) (call : Str × Call)
    → ((perform b call).threshold ≡ b.threshold) × ((perform b call).cooldown ≡ b.cooldown)
unfolding perform record_success record_failure skip
settings-perform b (addr, succeed) = (refl, refl)
settings-perform b (addr, fail now) = ground arith
settings-perform b (addr, ask now) = ground arith

health-perform :
    (b : Breaker) (other : Str) (call : Call) (addr : Str)
    → IsConsistent b
    → health (perform b (other, call)) addr ≡ (
        if str_eq other addr
        then react b.threshold b.cooldown (health b addr) call
        else health b addr)
unfolding perform react
health-perform b other succeed addr c = health-record_success b other 0 addr
health-perform b other (fail now) addr c = health-record_failure b other now addr c
health-perform b other (ask now) addr c = health-skip b other now addr

-- In a run from a consistent breaker, the circuit of an address goes through the states of the
-- contract under the calls for that address, and the calls for other addresses do not touch it.
pub health-run :
    (b : Breaker) (calls : List (Str × Call)) (addr : Str)
    → IsConsistent b
    → health (run b calls) addr
      ≡ react_all b.threshold b.cooldown (health b addr) (calls_for addr calls)
unfolding run react_all calls_for
health-run b [] addr c = refl
health-run b ((other, call) ∷ calls) addr c =
    let b' = perform b (other, call) in
    let ih = health-run b' calls addr (perform-IsConsistent b (other, call) c) in
    ground (arith, ih, health-perform b other call addr c, settings-perform b (other, call))

-- The calls that report failures at the given times.
unfoldable pub failing : Str → List ℕ → List (Str × Call)
failing addr [] = []
failing addr (t ∷ times) = (addr, fail t) ∷ failing addr times

fails : List ℕ → List Call
fails [] = []
fails (t ∷ times) = fail t ∷ fails times

calls_for-failing :
    (addr : Str) (times : List ℕ) → calls_for addr (failing addr times) ≡ fails times
unfolding calls_for failing fails
calls_for-failing addr [] = refl
calls_for-failing addr (t ∷ times) =
    ground (arith, str_eq_iff addr addr, calls_for-failing addr times)

-- After some failures in a row the circuit is open since the last of them, if they are enough.
abbrev after_failures : ℕ → ℕ → ℕ → Health
after_failures threshold t n = if leb threshold n then opened t n else closed n

abbrev count : Health → ℕ
count (closed n) = n
count (opened since n) = n

abbrev IsEnough : ℕ → Health → Type 0
IsEnough threshold (closed n) = Unit
IsEnough threshold (opened since n) = threshold ≤ n

on_failure-IsEnough :
    (threshold u : ℕ) (h : Health)
    → IsEnough threshold h
    → IsEnough threshold (on_failure threshold u h)
      × (count (on_failure threshold u h) ≡ count h + 1)
on_failure-IsEnough threshold u (closed n) e = elim (Bool-cases (leb threshold (n + 1))) [
  | inl reached ↦ rw reached (leb→le threshold (n + 1) reached, refl)
  | inr below ↦ rw below (tt, refl)
]
on_failure-IsEnough threshold u (opened since n) e = (omega arith, refl)

react_all-fails :
    (threshold cooldown : ℕ) (h : Health) (times : List ℕ) (t : ℕ)
    → IsEnough threshold h
    → react_all threshold cooldown h (fails (times ++ t ∷ []))
      ≡ after_failures threshold t (count h + length times + 1)
unfolding react_all react fails
react_all-fails threshold cooldown (closed n) [] t e = ground arith
react_all-fails threshold cooldown (opened since n) [] t e = ground arith
react_all-fails threshold cooldown h (u ∷ times) t e =
    let (enough, one) = on_failure-IsEnough threshold u h e in
    react_all-fails threshold cooldown (on_failure threshold u h) times t enough
    ∙ ap (after_failures threshold t) (omega (arith, one))

answer-skip :
    (b : Breaker) (addr : Str) (now : ℕ)
    → (skip b addr now).1
      ≡ elim (health b addr) [ closed _ ↦ false | opened since _ ↦ leb (now - since) b.cooldown ]
unfolding skip health
answer-skip b addr now = ground arith

cooldown-run : (b : Breaker) (calls : List (Str × Call)) → (run b calls).cooldown ≡ b.cooldown
unfolding run
cooldown-run b [] = refl
cooldown-run b (call ∷ calls) = cooldown-run (perform b call) calls ∙ (settings-perform b call).1

-- An address that failed in a row, the last time at `t`, is skipped exactly if the failures reach
-- the threshold and the cooldown since `t` has not passed.
pub skip-failing :
    (b : Breaker) (addr : Str) (times : List ℕ) (t now : ℕ)
    → IsConsistent b
    → health b addr ≡ closed 0
    → (skip (run b (failing addr (times ++ t ∷ []))) addr now).1
      ≡ leb b.threshold (length times + 1) && leb (now - t) b.cooldown
skip-failing b addr times t now c fresh =
    let calls = failing addr (times ++ t ∷ []) in
    let h : health (run b calls) addr ≡ after_failures b.threshold t (0 + length times + 1) =
      health-run b calls addr c
      ∙ rw (calls_for-failing, fresh)
          (react_all-fails b.threshold b.cooldown (closed 0) times t tt) in
    answer-skip (run b calls) addr now ∙ rw h (ground (arith, cooldown-run b calls))
