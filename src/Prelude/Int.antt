-- ===== src/Prelude/Int.antt =====
-- Signed integers, for parameters that the code tests against 0, and their comparisons.
use Prim.Native.Nat.{ℕ, zero, suc, ◌+◌}
use mathlib.Core.Bool.{Bool, true, false}
use mathlib.Core.Path.{◌≡◌, refl}
use mathlib.Core.Logic.{◌↔◌}
use native.Mathlib.Omega.{arith}
use korik.Prelude.Keys.{Comparable}
use korik.Prelude.Tests.{if◌then◌else◌, leb, ltb, ◌≟◌}

-- `negsuc n` is -(n + 1).
pub data ℤ : Type 0 where
  pos : ℕ → ℤ
  negsuc : ℕ → ℤ

abbrev pub pos_part : ℤ → ℕ
pos_part (pos n) = n
pos_part (negsuc n) = 0

abbrev pub neg_part : ℤ → ℕ
neg_part (pos n) = 0
neg_part (negsuc n) = suc n

-- a < b
abbrev pub ltb_ℤ : ℤ → ℤ → Bool
ltb_ℤ (pos a) (pos b) = ltb a b
ltb_ℤ (pos a) (negsuc b) = false
ltb_ℤ (negsuc a) (pos b) = true
ltb_ℤ (negsuc a) (negsuc b) = ltb b a

-- a ≤ b
abbrev pub leb_ℤ : ℤ → ℤ → Bool
leb_ℤ (pos a) (pos b) = leb a b
leb_ℤ (pos a) (negsuc b) = false
leb_ℤ (negsuc a) (pos b) = true
leb_ℤ (negsuc a) (negsuc b) = leb b a

-- n + 1 and n - 1
abbrev pub suc_ℤ : ℤ → ℤ
suc_ℤ (pos n) = pos (n + 1)
suc_ℤ (negsuc zero) = pos 0
suc_ℤ (negsuc (suc n)) = negsuc n

abbrev pub pred_ℤ : ℤ → ℤ
pred_ℤ (pos zero) = negsuc 0
pred_ℤ (pos (suc n)) = pos n
pred_ℤ (negsuc n) = negsuc (suc n)

-- `if n <= 0 { n = d }`, for a value that is positive from then on.
abbrev pub positive_or : ℤ → ℕ → ℕ
positive_or n d = if leb_ℤ n (pos 0) then d else pos_part n

unfoldable pub int_eq : ℤ → ℤ → Bool
int_eq (pos a) (pos b) = a ≟ b
int_eq (negsuc a) (negsuc b) = a ≟ b
int_eq _ _ = false

pub int_eq_iff : (a b : ℤ) → (int_eq a b ≡ true) ↔ (a ≡ b)
unfolding int_eq
int_eq_iff (pos a) (pos b) = ground arith
int_eq_iff (negsuc a) (negsuc b) = ground arith
int_eq_iff _ _ = ground arith

instance abbrev pub int_key : Comparable ℤ
int_key = record { same = int_eq; same_iff = int_eq_iff }

pub int_eq-pos : (a b : ℕ) → int_eq (pos a) (pos b) ≡ (a ≟ b)
unfolding int_eq
int_eq-pos a b = refl
