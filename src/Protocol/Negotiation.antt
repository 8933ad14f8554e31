-- ===== src/Protocol/Negotiation.antt =====
-- What `NegotiateVersion` of internal/protocol/protocol.go settles on.
use korik.Prelude.{
  Bool, Bool-cases, Option, Str, arith, bytes, false, if◌then◌else◌, inl, inr, int_eq, leb_ℤ, ltb,
  ltb_ℤ, negsuc, none, not, pos, refl, some, true, ℕ, ℤ, ◌&&◌, ◌≟◌, ◌≡◌,
}
use korik.Protocol.{
  Mode, Version, compare_versions, compat, current_version, is_compatible, is_major_match,
  negotiate, normal, parse_parts, parse_version, split, version,
}

-- How two integers compare, as the tests of the code see it.
data Compared (equal less greater equal_back : Bool) : Type 0 where
  same :
      equal ≡ true
      → less ≡ false
      → greater ≡ false
      → equal_back ≡ true
      → Compared equal less greater equal_back
  before :
      equal ≡ false
      → less ≡ true
      → greater ≡ false
      → equal_back ≡ false
      → Compared equal less greater equal_back
  after :
      equal ≡ false
      → less ≡ false
      → greater ≡ true
      → equal_back ≡ false
      → Compared equal less greater equal_back

natural : (a b : ℕ) → Compared (a ≟ b) (ltb a b) (ltb b a) (b ≟ a)
natural a b = elim (Bool-cases (a ≟ b)) [
  | inl e ↦ same e (ground (arith, e)) (ground (arith, e)) (ground (arith, e))
  | inr e ↦ elim (Bool-cases (ltb a b)) [
    | inl l ↦ before e l (ground (arith, l)) (ground (arith, l))
    | inr l ↦ after e l (ground (arith, e, l)) (ground (arith, e, l))
  ]
]

integer : (a b : ℤ) → Compared (int_eq a b) (ltb_ℤ a b) (ltb_ℤ b a) (int_eq b a)
unfolding int_eq
integer (pos a) (pos b) = natural a b
integer (pos a) (negsuc b) = after refl refl refl refl
integer (negsuc a) (pos b) = before refl refl refl refl
integer (negsuc a) (negsuc b) = elim (natural a b) [
  | same e l g back ↦ same e g l back
  | before e l g back ↦ after e g l back
  | after e l g back ↦ before e g l back
]

sign : (x : ℤ) → leb_ℤ (pos 0) x ≡ not (ltb_ℤ x (pos 0))
sign (pos n) = ground arith
sign (negsuc n) = refl

-- The comparison of the versions of one major version.
unfoldable older : Version → Version → Bool
older a b = if int_eq a.minor b.minor then ltb_ℤ a.patch b.patch else ltb_ℤ a.minor b.minor

compare_versions-older :
    (a b : Version)
    → int_eq a.major b.major ≡ true
    → ltb_ℤ (compare_versions a b) (pos 0) ≡ older a b
unfolding compare_versions older
compare_versions-older a b h = elim (integer a.minor b.minor) [
  | same e l g back ↦ elim (integer a.patch b.patch) [
    | same e' l' g' back' ↦ rw (h, e, e', l') refl
    | before e' l' g' back' ↦ rw (h, e, e', l', g') refl
    | after e' l' g' back' ↦ rw (h, e, e', l', g') refl
  ]
  | before e l g back ↦ rw (h, e, l, g) refl
  | after e l g back ↦ rw (h, e, l, g) refl
]

-- Two peers with the same major version, the other of which is not too old, settle on the older of
-- their versions, in the normal mode exactly if the minor versions are the same; otherwise on none.
pub negotiate_lem :
    (current least peer : Version)
    → negotiate current least peer ≡ (
        if is_major_match current peer && leb_ℤ (pos 0) (compare_versions peer least)
        then some (
          if ltb_ℤ (compare_versions peer current) (pos 0) then peer else current,
          if int_eq peer.minor current.minor then normal else compat,
        )
        else none)
unfolding negotiate is_major_match older
negotiate_lem current least peer = elim (integer current.major peer.major) [
  | before e l g back ↦ ground (arith, e)
  | after e l g back ↦ ground (arith, e)
  | same e l g back ↦
      let least_sign = sign (compare_versions peer least) in
      let order = compare_versions-older peer current back in
      elim (integer peer.minor current.minor) [
        | same e' l' g' back' ↦ elim (integer peer.patch current.patch) [
          | same e'' l'' g'' back'' ↦ ground (arith, e, back, least_sign, order, e', e'', l'')
          | before e'' l'' g'' back'' ↦ ground (arith, e, back, least_sign, order, e', e'', l'')
          | after e'' l'' g'' back'' ↦ ground (arith, e, back, least_sign, order, e', e'', l'')
        ]
        | before e' l' g' back' ↦ ground (arith, e, back, least_sign, order, e', l')
        | after e' l' g' back' ↦ ground (arith, e, back, least_sign, order, e', l', g')
      ]
]

abbrev pub first_version : Version
first_version = record { major = pos 1; minor = pos 0; patch = pos 0 }

abbrev is_some : Option (Version × Mode) → Bool
is_some none = false
is_some (some _) = true

parse-current :
    (atoi : Str → Option ℤ)
    → atoi (bytes "1") ≡ some (pos 1)
    → atoi (bytes "0") ≡ some (pos 0)
    → parse_version atoi current_version ≡ version first_version
unfolding parse_version split parse_parts
parse-current atoi one nought = ground (arith, one, nought)

-- A peer is compatible exactly if there is a version to settle on.
pub is_compatible-negotiate :
    (atoi : Str → Option ℤ) (peer : Version)
    → atoi (bytes "1") ≡ some (pos 1)
    → atoi (bytes "0") ≡ some (pos 0)
    → is_compatible atoi peer ≡ is_some (negotiate first_version first_version peer)
unfolding is_compatible
is_compatible-negotiate atoi peer one nought =
    let e = parse-current atoi one nought in
    let settled = negotiate_lem first_version first_version peer in ground (arith, e, settled)
