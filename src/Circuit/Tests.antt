-- ===== src/Circuit/Tests.antt =====
-- internal/circuit/circuit_test.go, and the theorems at concrete breakers.
use korik.Prelude.{
  Str, [], arith, bytes, false, leb, length, pos, refl, some, str_eq, str_key, true, ℕ, ◌&&◌, ◌+◌,
  ◌-◌, ◌↔◌, ◌∷◌, ◌≡◌, ◌≤◌,
}
use korik.GoMap.{get, put, remove}
use korik.Circuit.{Breaker, failures, new, record_failure, record_success, skip}
use korik.Circuit.Health.{IsConsistent, closed, health, new-IsConsistent, skip_iff}
use korik.Circuit.Runs.{
  calls_for, fail, failing, health-run, react, react_all, run, skip-failing, succeed,
}

program : Unit {0}
unfolding new failures skip record_success record_failure health run failing calls_for react_all
    react get put remove str_eq
program = tt

abbrev peer : Str
peer = bytes "10.0.0.1:9999"

abbrev fresh : Breaker
fresh = record { failures = []; blocked_at = []; threshold = 3; cooldown = 50 }

opens_after_threshold : (skip (run fresh (failing peer (1 ∷ 2 ∷ []))) peer 3).1 ≡ false
unfolding program
opens_after_threshold = refl

fresh-IsConsistent : IsConsistent fresh
unfolding get
fresh-IsConsistent = record { positive = omega arith; counted = λ addr since h. ground arith }

new-IsConsistent_test :
    IsConsistent (new (pos 3) (pos 50))
    × ((addr : Str) → health (new (pos 3) (pos 50)) addr ≡ closed 0)
new-IsConsistent_test = new-IsConsistent (pos 3) (pos 50)

skip_iff_test : ((skip (run fresh (failing peer (1 ∷ 2 ∷ 3 ∷ []))) peer 53).1 ≡ true) ↔ (
    (since : ℕ) × (get (run fresh (failing peer (1 ∷ 2 ∷ 3 ∷ []))).blocked_at peer ≡ some since)
    × (53 - since ≤ (run fresh (failing peer (1 ∷ 2 ∷ 3 ∷ []))).cooldown))
skip_iff_test = skip_iff (run fresh (failing peer (1 ∷ 2 ∷ 3 ∷ []))) peer 53

health-run_example :
    health (run fresh ((peer, fail 1) ∷ (bytes "b", fail 2) ∷ (peer, succeed) ∷ [])) peer
    ≡ react_all 3 50
        (health fresh peer)
        (calls_for peer ((peer, fail 1) ∷ (bytes "b", fail 2) ∷ (peer, succeed) ∷ []))
health-run_example =
    health-run fresh ((peer, fail 1) ∷ (bytes "b", fail 2) ∷ (peer, succeed) ∷ []) peer
      fresh-IsConsistent

skip-failing_test :
    (skip (run fresh (failing peer (1 ∷ 2 ∷ 3 ∷ []))) peer 40).1
    ≡ leb 3 (length {A = ℕ} (1 ∷ 2 ∷ []) + 1) && leb (40 - 3) 50
unfolding health failures get
skip-failing_test = skip-failing fresh peer (1 ∷ 2 ∷ []) 3 40 fresh-IsConsistent refl
