-- ===== src/Status/Delays.antt =====
-- The delays of `RetryPlan` in internal/status/status.go.
use native.Mathlib.Nat.{pow-le-pow_right}
use korik.Prelude.{
  Bool-cases, ap, arith, false, inl, inr, leb, ltb_ℤ, min, pos, suc, true, ℕ, ℤ, ◌*◌, ◌-◌, ◌^◌, ◌≡◌,
  ◌≤◌,
}
use korik.Status.{retry_plan, second}

retry_plan-min : (k : ℕ) → retry_plan (pos (suc k)) ≡ min (30 * second) (second * 2 ^ k)
unfolding retry_plan
retry_plan-min k =
    let e : suc k - 1 ≡ k = omega arith in
    elim (Bool-cases (leb 5 k)) [
      | inl long ↦
          let large : 32 ≤ 2 ^ k =
            pow-le-pow_right {n = 2} (omega arith) {i = 5} {j = k} (ground (arith, long)) in
          let past : leb 6 (suc k) ≡ true = ground (arith, long) in ground (arith, past, large)
      | inr short ↦
          let small : 2 ^ k ≤ 16 =
            pow-le-pow_right {n = 2} (omega arith) {i = k} {j = 4} (ground (arith, short)) in
          let before : leb 6 (suc k) ≡ false = ground (arith, short) in
          let p : second * 2 ^ (suc k - 1) ≡ second * 2 ^ k = ap (λ x. second * 2 ^ x) e in
          ground (arith, before, p, small)
    ]

min_monotone : (a b c : ℕ) → b ≤ c → min a b ≤ min a c
min_monotone a b c h = omega arith

retry_plan-monotone : (j k : ℕ) → j ≤ k → retry_plan (pos (suc j)) ≤ retry_plan (pos (suc k))
retry_plan-monotone j k h =
    let e : second * 2 ^ j ≤ second * 2 ^ k =
      omega (arith, pow-le-pow_right {n = 2} (omega arith) {i = j} {j = k} h) in
    rw (retry_plan-min j, retry_plan-min k)
      (min_monotone (30 * second) (second * 2 ^ j) (second * 2 ^ k) e)

-- The delay before a retry is a second, doubled with each attempt and never more than 30 seconds; an
-- attempt below 1 counts as the first. It never gets shorter.
pub retry_plan-doubles :
    (k j : ℕ) (n : ℤ)
    → (retry_plan (pos (suc k)) ≡ min (30 * second) (second * 2 ^ k))
      × (ltb_ℤ n (pos 1) ≡ true → retry_plan n ≡ second)
      × (j ≤ k → retry_plan (pos (suc j)) ≤ retry_plan (pos (suc k)))
unfolding retry_plan
retry_plan-doubles k j n =
    (retry_plan-min k, λ first. ground (arith, first), retry_plan-monotone j k)
