-- ===== src/Prelude/Hex.antt =====
-- encoding/hex on lists of bytes: the digits are written in lower case and read in either.
use Prim.Native.Nat.{ℕ, ◌+◌, ◌-◌, ◌*◌, ◌/◌, ◌%◌, ◌<◌}
use mathlib.Core.Path.{◌≡◌, refl}
use mathlib.Core.Bool.{◌&&◌}
use mathlib.Core.List.{List, [], ◌∷◌, map}
use mathlib.Core.Option.{Option, none, some}
use native.Mathlib.Omega.{arith}
use korik.Prelude.Tests.{if◌then◌else◌, leb, ltb, ◌>>=◌}
use korik.Prelude.Lists.{All}
use korik.Prelude.Keys.{Str}

abbrev pub hex_digit : ℕ → ℕ
hex_digit d = if ltb d 10 then 48 + d else 87 + d

-- hex.EncodeToString, which is also %x
unfoldable pub hex : List ℕ → Str
hex [] = []
hex (b ∷ bs) = hex_digit (b / 16) ∷ hex_digit (b % 16) ∷ hex bs

unfoldable pub hex_value : ℕ → Option ℕ
hex_value c =
    if leb 48 c && leb c 57
    then some (c - 48)
    else if leb 97 c && leb c 102
    then some (c - 87)
    else if leb 65 c && leb c 70
    then some (c - 55)
    else none

-- hex.DecodeString
unfoldable pub unhex : Str → Option (List ℕ)
unfolding hex_value
unhex [] = some []
unhex (a ∷ []) = none
unhex (a ∷ b ∷ s) = do x ← hex_value a; y ← hex_value b; rest ← unhex s; some ((16 * x + y) ∷ rest)

hex_value-hex_digit : (d : ℕ) → d < 16 → hex_value (hex_digit d) ≡ some d
unfolding hex_value
hex_value-hex_digit d lt = ground (arith, lt)

pub unhex-hex : (bs : List ℕ) → All (λ b. b < 256) bs → unhex (hex bs) ≡ some bs
unfolding unhex hex
unhex-hex [] h = refl
unhex-hex (b ∷ bs) h =
    let e : 16 * (b / 16) + b % 16 ≡ b = omega arith in
    rw
      (
        hex_value-hex_digit (b / 16) (omega (arith, h.0)),
        hex_value-hex_digit (b % 16) (omega arith),
        unhex-hex bs h.1,
        e,
      )
      refl

-- The digits from a to f in upper case; other bytes stay.
unfoldable pub upper_digit : ℕ → ℕ
upper_digit c = if leb 97 c && leb c 102 then c - 32 else c

hex_value-upper_digit : (c : ℕ) → hex_value (upper_digit c) ≡ hex_value c
unfolding hex_value upper_digit
hex_value-upper_digit c = ground arith

-- Another spelling of the same bytes.
pub unhex-upper : (s : Str) → unhex (map upper_digit s) ≡ unhex s
unfolding unhex
unhex-upper [] = refl
unhex-upper (a ∷ []) = refl
unhex-upper (a ∷ b ∷ s) = rw (hex_value-upper_digit a, hex_value-upper_digit b, unhex-upper s) refl
