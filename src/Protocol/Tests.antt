-- ===== src/Protocol/Tests.antt =====
-- internal/protocol/protocol_test.go, and the theorems at concrete versions.
use korik.Prelude.{
  Option, Str, [], bytes, if◌then◌else◌, int_eq, leb_ℤ, ltb_ℤ, none, pos, refl, some, ℕ, ℤ, ◌&&◌,
  ◌-◌, ◌∷◌, ◌≡◌,
}
use korik.Protocol.{
  Version, compare_versions, compat, invalid, invalid_format, is_major_match, negotiate, normal,
  parse_parts, parse_version, split, version,
}
use korik.Protocol.Negotiation.{negotiate_lem}

program : Unit {0}
unfolding parse_version split parse_parts compare_versions negotiate is_major_match int_eq
program = tt

abbrev v : ℕ → ℕ → ℕ → Version
v a b c = record { major = pos a; minor = pos b; patch = pos c }

-- one digit
abbrev digit : Str → Option ℤ
digit [] = none
digit (c ∷ []) = some (pos (c - 48))
digit (_ ∷ _ ∷ _) = none

parses : parse_version digit (bytes "1.2.3") ≡ version (v 1 2 3)
unfolding program
parses = refl

two_parts : parse_version digit (bytes "1.2") ≡ invalid invalid_format
unfolding program
two_parts = refl

newer_patch : negotiate (v 1 0 0) (v 1 0 0) (v 1 0 5) ≡ some (v 1 0 0, normal)
unfolding program
newer_patch = refl

newer_minor : negotiate (v 1 0 0) (v 1 0 0) (v 1 3 0) ≡ some (v 1 0 0, compat)
unfolding program
newer_minor = refl

negotiate_lem_test : negotiate (v 1 2 0) (v 1 0 0) (v 1 1 7) ≡ (
    if is_major_match (v 1 2 0) (v 1 1 7) && leb_ℤ (pos 0) (compare_versions (v 1 1 7) (v 1 0 0))
    then some (
      if ltb_ℤ (compare_versions (v 1 1 7) (v 1 2 0)) (pos 0) then v 1 1 7 else v 1 2 0,
      if int_eq (pos 1) (pos 2) then normal else compat,
    )
    else none)
negotiate_lem_test = negotiate_lem (v 1 2 0) (v 1 0 0) (v 1 1 7)
