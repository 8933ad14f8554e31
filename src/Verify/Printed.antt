-- ===== src/Verify/Printed.antt =====
-- A safety number of internal/verify/verify.go that is typed in again.
use mathlib.Core.List.{reverse-cons}
use native.Mathlib.Nat.{mod-lt}
use mathlib.Core.Path.{subst}
use korik.Prelude.{
  All, List, Option, Str, [], ap, append-nil, append_assoc, arith, false, fields_from, get_elem?,
  get_elem?-there, is_space, join, length, ltb, map, none, pos, refl, reverse, some, suc, sym, zero,
  ℕ, ℤ, ◌%◌, ◌*◌, ◌++◌, ◌+◌, ◌/◌, ◌<◌, ◌∙◌, ◌∷◌, ◌≡◌,
}
use korik.Candidates.Sharing.{NoSpace}
use korik.Verify.{
  byte_at, digit, five_digits, format_fingerprint, group, group_values, parse_fields, parse_groups,
  shift_in,
}

fields_from-part :
    (word part rest : Str) (c : ℕ)
    → NoSpace part
    → fields_from (c ∷ word) (part ++ 32 ∷ rest)
      ≡ (reverse (c ∷ word) ++ part) ∷ fields_from [] rest
unfolding fields_from is_space
fields_from-part word [] rest c h =
    ap (λ w. w ∷ fields_from [] rest) (sym (append-nil (reverse (c ∷ word))))
fields_from-part word (d ∷ part) rest c h = rw h.0 (
    fields_from-part (c ∷ word) part rest d h.1
    ∙ ap (λ w. w ∷ fields_from [] rest)
        (ap (λ w. w ++ part) (reverse-cons d (c ∷ word))
          ∙ append_assoc (reverse (c ∷ word)) (d ∷ []) part))

fields_from-last :
    (word part : Str) (c : ℕ)
    → NoSpace part
    → fields_from (c ∷ word) part ≡ (reverse (c ∷ word) ++ part) ∷ []
unfolding fields_from is_space
fields_from-last word [] c h = ap (λ w. w ∷ []) (sym (append-nil (reverse (c ∷ word))))
fields_from-last word (d ∷ part) c h = rw h.0 (
    fields_from-last (c ∷ word) part d h.1
    ∙ ap (λ w. w ∷ [])
        (ap (λ w. w ++ part) (reverse-cons d (c ∷ word))
          ∙ append_assoc (reverse (c ∷ word)) (d ∷ []) part))

above-NoSpace : (x : ℕ) → is_space (48 + x) ≡ false
unfolding is_space
above-NoSpace x = ground arith

-- The digits of a group after its first one.
abbrev more_digits : ℕ → Str
more_digits v = digit 1_000 v ∷ digit 100 v ∷ digit 10 v ∷ digit 1 v ∷ []

more_digits-NoSpace : (v : ℕ) → NoSpace (more_digits v)
unfolding digit
more_digits-NoSpace v = (
  above-NoSpace ((v / 1_000) % 10),
  (
    above-NoSpace ((v / 100) % 10),
    (above-NoSpace ((v / 10) % 10), (above-NoSpace ((v / 1) % 10), tt)),
  ),
)

digit-NoSpace : (place v : ℕ) → is_space (digit place v) ≡ false
unfolding digit
digit-NoSpace place v = above-NoSpace ((v / place) % 10)

fields_from-join :
    (v : ℕ) (vs : List ℕ)
    → fields_from [] (join 32 (map five_digits (v ∷ vs))) ≡ map five_digits (v ∷ vs)
unfolding fields_from five_digits join
fields_from-join v [] =
    rw (digit-NoSpace 10_000 v)
      (fields_from-last [] (more_digits v) (digit 10_000 v) (more_digits-NoSpace v))
fields_from-join v (w ∷ vs) = rw (digit-NoSpace 10_000 v) (
    fields_from-part [] (more_digits v) (join 32 (map five_digits (w ∷ vs))) (digit 10_000 v)
      (more_digits-NoSpace v)
    ∙ ap (λ rest. five_digits v ∷ rest) (fields_from-join w vs))

abbrev pub IsGroup : ℕ → Type 0
IsGroup v = v < 100_000

-- A group of a hash: three bytes from the index `i * 3` on, which begin again at the front of the hash
-- where it ends, as a number below 100000.
abbrev pub IsGroupOf : List ℕ → ℕ → ℕ → Type 0
IsGroupOf hash i v =
    (a : ℕ) × (b : ℕ) × (c : ℕ) × (get_elem? hash (i * 3 % length hash) ≡ some a)
    × (get_elem? hash ((i * 3 + 1) % length hash) ≡ some b)
    × (get_elem? hash ((i * 3 + 2) % length hash) ≡ some c)
    × (v ≡ (a * 65_536 + b * 256 + c) % 100_000)

All-there : (xs : List ℕ) (i x : ℕ) → All (λ b. b < 256) xs → get_elem? xs i ≡ some x → x < 256
All-there [] i x h e = absurd (ground (arith, e))
All-there (y ∷ xs) zero x h e = ground (arith, e, h.0)
All-there (y ∷ xs) (suc i) x h e = All-there xs i x h.1 e

-- A hash of bytes that is not empty has a byte at every index, and so all its groups.
module _ (b : ℕ) (hash : List ℕ) (small : All (λ x. x < 256) (b ∷ hash)) where
  byte_at-there :
      (i : ℕ)
      → (x : ℕ) × (byte_at (b ∷ hash) i ≡ some x)
        × (get_elem? (b ∷ hash) (i % length (b ∷ hash)) ≡ some x)
        × (x < 256)
  unfolding byte_at
  byte_at-there i =
      let (x, e) = get_elem?-there (b ∷ hash) (i % length (b ∷ hash)) (mod-lt i (omega arith)) in
      (x, e, e, All-there (b ∷ hash) (i % length (b ∷ hash)) x small e)

  shift_in-three :
      (x y z : ℕ)
      → x < 256
      → y < 256
      → shift_in (shift_in (shift_in 0 x) y) z ≡ x * 65_536 + y * 256 + z
  unfolding shift_in
  shift_in-three x y z h k = omega (arith, h, k)

  group-there :
      (i : ℕ) → (v : ℕ) × (group (b ∷ hash) i ≡ some v) × IsGroupOf (b ∷ hash) i (v % 100_000)
  unfolding group
  group-there i =
      let (x, e, there, lt) = byte_at-there (i * 3) in
      let (y, e', there', lt') = byte_at-there (i * 3 + 1) in
      let (z, e'', there'', _) = byte_at-there (i * 3 + 2) in
      (
        shift_in (shift_in (shift_in 0 x) y) z,
        ground (arith, e, e', e''),
        (x, y, z, there, there', there'', ap (λ v. v % 100_000) (shift_in-three x y z lt lt')),
      )

  group_values-there :
      (i n : ℕ)
      → (vs : List ℕ) × (group_values (b ∷ hash) i n ≡ some vs)
        × (length vs ≡ n)
        × All IsGroup vs
        × ((j : ℕ) → j < n → (v : ℕ) × (get_elem? vs j ≡ some v) × IsGroupOf (b ∷ hash) (i + j) v)
  unfolding group_values
  group_values-there i zero = ([], refl, refl, tt, λ j lt. absurd (omega (arith, lt)))
  group_values-there i (suc n) =
      let (v, e, at_i) = group-there i in
      let (vs, e', size, below, at_rest) = group_values-there (i + 1) n in
      (
        (v % 100_000) ∷ vs,
        ground (arith, e, e'),
        ap suc size,
        (omega arith, below),
        λ j lt.
            elim j
                as (λ k.
                  k < suc n
                  → (w : ℕ) × (get_elem? ((v % 100_000) ∷ vs) k ≡ some w)
                    × IsGroupOf (b ∷ hash) (i + k) w) [
                      | zero ↦ λ _.
                          let same : i ≡ i + 0 = omega arith in
                          (
                            v % 100_000,
                            refl,
                            subst (λ k. IsGroupOf (b ∷ hash) k (v % 100_000)) same at_i,
                          )
                      | suc k ↦ λ lt'.
                          let same : (i + 1) + k ≡ i + suc k = omega arith in
                          subst
                            (λ m. (w : ℕ) × (get_elem? vs k ≡ some w) × IsGroupOf (b ∷ hash) m w)
                            same (at_rest k (omega (arith, lt')))
                    ]
              lt,
      )

-- strconv.Atoi reads five digits.
abbrev pub ReadsDigits : (Str → Option ℤ) → Type 0
ReadsDigits atoi = (v : ℕ) → v < 100_000 → atoi (five_digits v) ≡ some (pos v)

parse_fields-five_digits :
    (atoi : Str → Option ℤ) (vs : List ℕ)
    → ReadsDigits atoi
    → All IsGroup vs
    → parse_fields atoi (map five_digits vs) ≡ some (map pos vs)
unfolding parse_fields
parse_fields-five_digits atoi [] reads h = refl
parse_fields-five_digits atoi (v ∷ vs) reads h =
    let small : ltb 99_999 v ≡ false = ground (arith, h.0) in
    let least : ltb v 0 ≡ false = ground arith in
    rw (reads v h.0, least, small, parse_fields-five_digits atoi vs reads h.1) refl

parse_groups-join :
    (atoi : Str → Option ℤ) (v : ℕ) (vs : List ℕ)
    → ReadsDigits atoi
    → All IsGroup (v ∷ vs)
    → parse_groups atoi (join 32 (map five_digits (v ∷ vs))) ≡ some (map pos (v ∷ vs))
unfolding parse_groups
parse_groups-join atoi v vs reads h =
    ap (λ fields. elim fields [ [] ↦ none | f ∷ rest ↦ parse_fields atoi (f ∷ rest) ])
      (fields_from-join v vs)
    ∙ parse_fields-five_digits atoi (v ∷ vs) reads h

parse_groups-values :
    (atoi : Str → Option ℤ) (vs : List ℕ)
    → ReadsDigits atoi
    → All IsGroup vs
    → length vs ≡ 12
    → parse_groups atoi (join 32 (map five_digits vs)) ≡ some (map pos vs)
parse_groups-values atoi [] reads small size = absurd (omega (arith, size))
parse_groups-values atoi (v ∷ vs) reads small size = parse_groups-join atoi v vs reads small

-- The safety number of a fingerprint, a list of bytes that is not empty, is printed without a panic, and
-- is accepted when it is typed in, if Atoi reads five digits: it gives twelve numbers below 100000. Each
-- of them is made of three bytes of the fingerprint, in order, which begin again where it ends.
pub parse_groups-format_fingerprint :
    (atoi : Str → Option ℤ) (b : ℕ) (hash : List ℕ)
    → ReadsDigits atoi
    → All (λ x. x < 256) (b ∷ hash)
    → (vs : List ℕ) × (text : Str) × (format_fingerprint (b ∷ hash) ≡ some text)
      × (parse_groups atoi text ≡ some (map pos vs))
      × (length vs ≡ 12)
      × All IsGroup vs
      × ((j : ℕ) → j < 12 → (v : ℕ) × (get_elem? vs j ≡ some v) × IsGroupOf (b ∷ hash) j v)
unfolding format_fingerprint
parse_groups-format_fingerprint atoi b hash reads small =
    let (vs, e, size, below, at_each) = group_values-there b hash small 0 12 in
    (
      vs,
      join 32 (map five_digits vs),
      ground (arith, e),
      parse_groups-values atoi vs reads below size,
      size,
      below,
      λ j lt.
          let same : 0 + j ≡ j = omega arith in
          subst (λ k. (v : ℕ) × (get_elem? vs j ≡ some v) × IsGroupOf (b ∷ hash) k v) same
            (at_each j lt),
    )
