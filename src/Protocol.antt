-- ===== src/Protocol.antt =====
-- internal/protocol/protocol.go: versions and what two peers settle on. `atoi` is strconv.Atoi.
use korik.Prelude.{
  Bool, List, Option, Str, [], bytes, false, if◌then◌else◌, int_eq, leb_ℤ, ltb_ℤ, negsuc, none, not,
  pos, some, ℤ, ◌&&◌, ◌++◌, ◌∷◌, ◌≟◌,
}
pub mod Negotiation
mod Tests

pub record Version : Type 0 where
  pub major : ℤ
  pub minor : ℤ
  pub patch : ℤ

-- CurrentVersion and MinSupportedVersion
abbrev pub current_version : Str
current_version = bytes "1.0.0"

abbrev pub min_supported_version : Str
min_supported_version = bytes "1.0.0"

-- strings.Split(s, "."): the part that ends first is given in front
unfoldable pub split : Str → Str → List Str
split part [] = part ∷ []
split part (c ∷ s) =
    let cut = part ∷ split [] s in
    let more = split (part ++ c ∷ []) s in if c ≟ 46 then cut else more

pub data ParseError : Type 0 where
  invalid_format invalid_major invalid_minor invalid_patch : ParseError

pub data Parsed : Type 0 where
  version : Version → Parsed
  invalid : ParseError → Parsed

unfoldable pub parse_parts : (Str → Option ℤ) → List Str → Parsed
parse_parts atoi (a ∷ b ∷ c ∷ []) = elim (atoi a) [
  | none ↦ invalid invalid_major
  | some major ↦ elim (atoi b) [
    | none ↦ invalid invalid_minor
    | some minor ↦ elim (atoi c) [
      | none ↦ invalid invalid_patch
      | some patch ↦ version (record { major = major; minor = minor; patch = patch })
    ]
  ]
]
parse_parts atoi _ = invalid invalid_format

unfoldable pub parse_version : (Str → Option ℤ) → Str → Parsed
unfolding split parse_parts
parse_version atoi s = parse_parts atoi (split [] s)

unfoldable pub compare_versions : Version → Version → ℤ
compare_versions a b =
    if not (int_eq a.major b.major)
    then (if ltb_ℤ b.major a.major then pos 1 else negsuc 0)
    else if not (int_eq a.minor b.minor)
    then (if ltb_ℤ b.minor a.minor then pos 1 else negsuc 0)
    else if not (int_eq a.patch b.patch)
    then (if ltb_ℤ b.patch a.patch then pos 1 else negsuc 0)
    else pos 0

unfoldable pub is_major_match : Version → Version → Bool
is_major_match a b = int_eq a.major b.major

unfoldable pub is_compatible : (Str → Option ℤ) → Version → Bool
unfolding parse_version compare_versions is_major_match
is_compatible atoi peer = elim (parse_version atoi current_version) [
  | invalid _ ↦ false
  | version current ↦ elim (parse_version atoi min_supported_version) [
    | invalid _ ↦ false
    | version least ↦ leb_ℤ (pos 0) (compare_versions peer least) && is_major_match current peer
  ]
]

pub data Mode : Type 0 where
  normal compat : Mode

-- What `NegotiateVersion` does once the two constants are parsed; `none` is a nil version.
unfoldable pub negotiate : Version → Version → Version → Option (Version × Mode)
unfolding compare_versions is_major_match
negotiate current least peer =
    let same_minor = int_eq peer.major current.major && int_eq peer.minor current.minor in
    if not (is_major_match current peer)
    then none
    else if ltb_ℤ (compare_versions peer least) (pos 0)
    then none
    else if same_minor && int_eq peer.patch current.patch
    then some (current, normal)
    else if same_minor
    then (if ltb_ℤ peer.patch current.patch then some (peer, normal) else some (current, normal))
    else if int_eq peer.major current.major && ltb_ℤ peer.minor current.minor
    then some (peer, compat)
    else if int_eq peer.major current.major && ltb_ℤ current.minor peer.minor
    then some (current, compat)
    else some (current, normal)
