-- ===== src/Prelude/Keys.antt =====
-- Equality of map keys as an interface, with its instances: Go strings, as lists of bytes, and
-- numbers.
use Prim.Native.Char.{code}
use Prim.Native.Nat.{ℕ}
use Prim.Native.String.{String}
use mathlib.Core.Path.{◌≡◌, refl}
use mathlib.Core.Logic.{◌↔◌}
use mathlib.Core.Bool.{Bool, true, false, ◌&&◌}
use mathlib.Core.List.{List, [], ◌∷◌}
use native.Mathlib.Omega.{arith}
use korik.Prelude.Lists.{length, take}
use korik.Prelude.Tests.{leb, ≟_iff, ◌≟◌}

-- A Go string: its bytes.
abbrev pub Str : Type 0
Str = List ℕ

-- The bytes of an ASCII literal.
abbrev pub bytes : String → Str
bytes String.[] = []
bytes (String.◌∷◌ c s) = code c ∷ bytes s

unfoldable pub str_eq : Str → Str → Bool
str_eq [] [] = true
str_eq (a ∷ s) (b ∷ t) = a ≟ b && str_eq s t
str_eq _ _ = false

pub str_eq_iff : (s t : Str) → (str_eq s t ≡ true) ↔ (s ≡ t)
unfolding str_eq
str_eq_iff [] [] = (λ _. refl, λ _. refl)
str_eq_iff (a ∷ s) (b ∷ t) = ground (arith, str_eq_iff s t)
str_eq_iff _ _ = ground arith

-- What a Go map asks of its key type: `==` decides equality.
pub record Comparable {ℓ} (K : Type ℓ) : Type ℓ where
  pub same : K → K → Bool
  pub same_iff : (j k : K) → (same j k ≡ true) ↔ (j ≡ k)

abbrev pub ◌==◌ {ℓ} : {K : Type ℓ} ⦃c : Comparable K⦄ → K → K → Bool
◌==◌ ⦃c⦄ j k = c.same j k

infix 50 ◌==◌
instance abbrev pub str_key : Comparable Str
str_key = record { same = str_eq; same_iff = str_eq_iff }

instance abbrev pub nat_key : Comparable ℕ
nat_key = record { same = ◌≟◌; same_iff = ≟_iff }

-- len(s) >= len(prefix) && s[:len(prefix)] == prefix
unfoldable pub starts_with : Str → Str → Bool
unfolding str_eq
starts_with s prefix = leb (length prefix) (length s) && str_eq (take (length prefix) s) prefix
