-- ===== src/Prelude/Strings.antt =====
-- What the code calls of package strings, on texts as lists of bytes. Case is that of ASCII, and
-- white space the six characters of ASCII; other runes are left as they are.
use Prim.Native.Nat.{ℕ, suc, ◌+◌}
use mathlib.Core.Bool.{Bool, not, ◌&&◌, ◌||◌}
use mathlib.Core.List.{List, [], ◌∷◌, ◌++◌, map, reverse}
use mathlib.Core.Option.{Option, none, some}
use korik.Prelude.Tests.{if◌then◌else◌, leb, ◌≟◌}
use korik.Prelude.Keys.{Str, starts_with}

-- strings.Contains
unfoldable pub contains : Str → Str → Bool
contains [] sub = starts_with [] sub
contains (c ∷ s) sub = starts_with (c ∷ s) sub || contains s sub

-- strings.ToLower
unfoldable pub lower_byte : ℕ → ℕ
lower_byte c = if leb 65 c && leb c 90 then c + 32 else c

unfoldable pub to_lower : Str → Str
unfolding lower_byte
to_lower s = map lower_byte s

unfoldable pub is_space : ℕ → Bool
is_space c = (leb 9 c && leb c 13) || (c ≟ 32)

-- strings.TrimLeft for the bytes of a test, and the cuts on both sides
unfoldable pub trim_left : (ℕ → Bool) → Str → Str
trim_left p [] = []
trim_left p (c ∷ s) = let rest = trim_left p s in if p c then rest else c ∷ s

unfoldable pub trim_right : (ℕ → Bool) → Str → Str
unfolding trim_left
trim_right p s = reverse (trim_left p (reverse s))

-- strings.TrimSpace
unfoldable pub trim_space : Str → Str
unfolding is_space trim_right trim_left
trim_space s = trim_right is_space (trim_left is_space s)

-- strings.LastIndex for one byte; `none` is -1
unfoldable pub last_index : Str → ℕ → Option ℕ
last_index [] c = none
last_index (a ∷ s) c = elim (last_index s c) [
  | some i ↦ some (suc i)
  | none ↦ if a ≟ c then some 0 else none
]

-- strings.Split at one byte: the words from here on, with the current one reversed
unfoldable pub split_at : ℕ → Str → Str → List Str
split_at sep word [] = reverse word ∷ []
split_at sep word (c ∷ s) =
    let cut = split_at sep [] s in
    let on = split_at sep (c ∷ word) s in if c ≟ sep then reverse word ∷ cut else on

unfoldable pub split : ℕ → Str → List Str
unfolding split_at
split sep s = split_at sep [] s

-- strings.Join with one byte between
unfoldable pub join : ℕ → List Str → Str
join sep [] = []
join sep (s ∷ []) = s
join sep (s ∷ t ∷ rest) = s ++ sep ∷ join sep (t ∷ rest)

-- strings.Fields: the words, with the current one reversed
unfoldable pub fields_from : Str → Str → List Str
unfolding is_space
fields_from [] [] = []
fields_from (c ∷ word) [] = reverse (c ∷ word) ∷ []
fields_from word (c ∷ s) =
    let on = fields_from (c ∷ word) s in
    let next = fields_from [] s in
    if not (is_space c) then on else elim word [ [] ↦ next | d ∷ w ↦ reverse (d ∷ w) ∷ next ]
