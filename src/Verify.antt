-- ===== src/Verify.antt =====
-- internal/verify/verify.go: the numbers that people compare to know a key. SHA-256 is a parameter, and
-- so is strconv.Atoi.
pub mod Printed
mod Tests
use korik.Prelude.{
  Bool, List, Option, Str, [], bytes, fields_from, get_elem?, if◌then◌else◌, join, length, ltb_ℤ,
  map, none, pos, some, str_eq, suc, zero, ℕ, ℤ, ◌%◌, ◌*◌, ◌+◌, ◌/◌, ◌>>=◌, ◌^◌, ◌||◌, ◌∷◌,
}
use korik.Prelude.Hex.{unhex}

-- three bytes as a number; `|` adds, since the low bits are 0
unfoldable pub shift_in : ℕ → ℕ → ℕ
shift_in v b = (v * 256) % 2 ^ 32 + b

-- hash[i % len(hash)]: `none` is the panic on an empty hash, which divides by zero.
unfoldable pub byte_at : List ℕ → ℕ → Option ℕ
byte_at [] i = none
byte_at (b ∷ hash) i = get_elem? (b ∷ hash) (i % length (b ∷ hash))

-- one group, or the panic
unfoldable pub group : List ℕ → ℕ → Option ℕ
unfolding shift_in byte_at
group hash i = do
  a ← byte_at hash (i * 3)
  b ← byte_at hash (i * 3 + 1)
  c ← byte_at hash (i * 3 + 2)
  some (shift_in (shift_in (shift_in 0 a) b) c)

unfoldable pub digit : ℕ → ℕ → ℕ
digit place v = 48 + (v / place) % 10

-- %05d of a number below 100000
unfoldable pub five_digits : ℕ → Str
unfolding digit
five_digits v = digit 10_000 v ∷ digit 1_000 v ∷ digit 100 v ∷ digit 10 v ∷ digit 1 v ∷ []

-- The groups from the index i on, or the panic.
unfoldable pub group_values : List ℕ → ℕ → ℕ → Option (List ℕ)
unfolding group
group_values hash i zero = some []
group_values hash i (suc n) = do
  v ← group hash i
  rest ← group_values hash (i + 1) n
  some ((v % 100_000) ∷ rest)

-- `none` is the panic
unfoldable pub format_fingerprint : List ℕ → Option Str
unfolding group_values five_digits
format_fingerprint hash = do
  groups ← group_values hash 0 12
  some (join 32 (map five_digits groups))

pub data SafetyNumber : Type 0 where
  safety : Str → SafetyNumber
  invalid_key : SafetyNumber
  panics : SafetyNumber

unfoldable pub safety_number : (List ℕ → List ℕ) → Str → SafetyNumber
unfolding format_fingerprint
safety_number sha256 public_key_hex = elim (unhex public_key_hex) [
  | none ↦ invalid_key
  | some raw ↦ elim (format_fingerprint (sha256 raw)) [ none ↦ panics | some text ↦ safety text ]
]

unfoldable pub norm : Str → Str
norm s = join 32 (fields_from [] s)

unfoldable pub compare_numbers : Str → Str → Bool
unfolding norm
compare_numbers a b = str_eq (norm a) (norm b)

-- The loop of `ParseGroups`. `none` is the error for a group that is not a number from 0 to 99999.
unfoldable pub parse_fields : (Str → Option ℤ) → List Str → Option (List ℤ)
parse_fields atoi [] = some []
parse_fields atoi (f ∷ fields) =
    let rest = parse_fields atoi fields in
    elim (atoi f) [
      | none ↦ none
      | some n ↦
          if ltb_ℤ n (pos 0) || ltb_ℤ (pos 99_999) n
          then none
          else elim rest [ none ↦ none | some out ↦ some (n ∷ out) ]
    ]

unfoldable pub parse_groups : (Str → Option ℤ) → Str → Option (List ℤ)
unfolding parse_fields
parse_groups atoi input = elim (fields_from [] input) [
  | [] ↦ none
  | f ∷ fields ↦ parse_fields atoi (f ∷ fields)
]

-- The digits of the first three of the 32 bytes of a SHA-256; there are no other cases in Go.
unfoldable pub code_of : List ℕ → Str
unfolding digit
code_of (a ∷ b ∷ c ∷ sum) =
    let v = (a * 65_536 + b * 256 + c) % 1_000_000 in
    digit 100_000 v ∷ digit 10_000 v ∷ digit 1_000 v ∷ digit 100 v ∷ digit 10 v ∷ digit 1 v ∷ []
code_of _ = []

unfoldable pub short_code : (List ℕ → List ℕ) → Str → Str
unfolding code_of
short_code sha256 public_key_hex = elim (unhex public_key_hex) [
  | none ↦ bytes "000000"
  | some raw ↦ elim raw [ [] ↦ bytes "000000" | b ∷ rest ↦ code_of (sha256 (b ∷ rest)) ]
]
