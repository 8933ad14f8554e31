-- ===== src/Verify/Tests.antt =====
-- internal/verify/verify_test.go: the number of a fingerprint of three bytes.
use korik.Prelude.{
  All, List, Option, Str, [], ap, arith, bytes, fields_from, get_elem?, is_space, join, length, map,
  none, pos, refl, some, str_eq, true, ℕ, ℤ, ◌%◌, ◌*◌, ◌+◌, ◌-◌, ◌/◌, ◌<◌, ◌∷◌, ◌≡◌,
}
use korik.Verify.{
  byte_at, code_of, compare_numbers, digit, five_digits, format_fingerprint, group, group_values,
  norm, parse_groups, shift_in, short_code,
}
use korik.Prelude.Hex.{unhex}
use korik.Verify.Printed.{IsGroup, IsGroupOf, ReadsDigits, parse_groups-format_fingerprint}

-- Five digits as a number.
abbrev atoi : Str → Option ℤ
atoi (a ∷ b ∷ c ∷ d ∷ e ∷ []) =
    some (pos ((a - 48) * 10_000 + (b - 48) * 1_000 + (c - 48) * 100 + (d - 48) * 10 + (e - 48)))
atoi _ = none

atoi-ReadsDigits : ReadsDigits atoi
unfolding five_digits digit
atoi-ReadsDigits v lt =
    let a = (v / 10_000) % 10 in
    let b = (v / 1_000) % 10 in
    let c = (v / 100) % 10 in
    let d = (v / 10) % 10 in
    let e = (v / 1) % 10 in
    let same : (48 + a - 48) * 10_000
          + (48 + b - 48) * 1_000
          + (48 + c - 48) * 100
          + (48 + d - 48) * 10
          + (48 + e - 48)
        ≡ v =
      omega (arith, lt) in
    ap (λ n. some (pos n)) same

parse_groups-format_fingerprint_example :
    (vs : List ℕ) × (text : Str) × (format_fingerprint (1 ∷ 2 ∷ 3 ∷ []) ≡ some text)
    × (parse_groups atoi text ≡ some (map pos vs))
    × (length vs ≡ 12)
    × All IsGroup vs
    × ((j : ℕ) → j < 12 → (v : ℕ) × (get_elem? vs j ≡ some v) × IsGroupOf (1 ∷ 2 ∷ 3 ∷ []) j v)
parse_groups-format_fingerprint_example =
    parse_groups-format_fingerprint atoi 1 (2 ∷ 3 ∷ []) atoi-ReadsDigits
      (omega arith, (omega arith, (omega arith, tt)))

first_group :
    (group (1 ∷ 2 ∷ 3 ∷ []) 0 ≡ some 66_051)
    × (byte_at (1 ∷ 2 ∷ 3 ∷ []) 4 ≡ some 2)
    × (format_fingerprint [] ≡ none)
unfolding group shift_in byte_at format_fingerprint group_values
first_group = (refl, refl, refl)

compared : compare_numbers (bytes " 12345  67890") (bytes "12345 67890") ≡ true
unfolding compare_numbers norm fields_from is_space join str_eq
compared = refl

-- With a hash that keeps its argument.
coded : short_code (λ raw. raw) (bytes "010203") ≡ bytes "066051"
unfolding short_code code_of unhex digit
coded = refl
