-- ===== src/Shell/Places.antt =====
-- Each key of the editor of internal/shell/shell.go, at a cursor and a place in the history that are in
-- range.
use korik.Prelude.{
  Bool-cases, List, Option, Str, [], ap, arith, drop, get_elem?-there, inl, inr, int_eq-pos, length,
  length-append, length-take, ltb, none, pos, refl, some, suc, take, true, zero, ℕ, ◌++◌, ◌+◌, ◌<◌,
  ◌∙◌, ◌∷◌, ◌≟◌, ◌≡◌, ◌≤◌,
}
use korik.Shell.{Shell, complete}
use korik.Shell.Keys.{
  Editor, Progress, backspace, down, erase, goes_on, index_at, left, panics, put_text, recall,
  right, slice_from, slice_to, tab, type_rune, up,
}

-- The editor with a cursor and a place in the history that are not negative.
abbrev pub at : Str → ℕ → ℕ → Editor
at buf n i = record { buf = buf; pos = pos n; hist_idx = pos i }

-- The cursor is in the line or behind it, and the place in the history is one of its lines or behind
-- the last one; none of them is negative.
pub record IsValid (s : Shell) (e : Editor) : Type 0 where
  pub cursor : (n : ℕ) × (e.pos ≡ pos n) × (n ≤ length e.buf)
  pub place : (i : ℕ) × (e.hist_idx ≡ pos i) × (i ≤ length s.history)

-- The loop goes on with such an editor, or it ends without a panic.
unfoldable pub StaysValid : Shell → Progress → Type 0
StaysValid s (goes_on e) = IsValid s e
StaysValid s panics = ⊥
StaysValid s _ = Unit

-- A valid editor is one with these two places.
pub valid-at : (s : Shell) (e : Editor) (v : IsValid s e) → e ≡ at e.buf v.cursor.0 v.place.0
valid-at s e v =
    ap (λ p. record e { pos = p }) v.cursor.1
    ∙ ap (λ p. record e { pos = pos v.cursor.0; hist_idx = p }) v.place.1

module _ (s : Shell) (buf : Str) (n i : ℕ) (inside : n ≤ length buf)
    (place : i ≤ length s.history) where
  pub at-IsValid : IsValid s (at buf n i)
  at-IsValid = record { cursor = (n, refl, inside); place = (i, refl, place) }

  pub tab-IsValid : IsValid s (tab s (at buf n i))
  unfolding tab put_text
  tab-IsValid = go (complete s buf)
    where
      go :
          (cands : List Str)
          → IsValid s (elim cands [
            | [] ↦ at buf n i
            | c ∷ more ↦ elim more [ [] ↦ put_text (at buf n i) c | _ ∷ _ ↦ at buf n i ]
          ])
      go [] = at-IsValid
      go (c ∷ []) = record { cursor = (length c, refl, omega arith); place = (i, refl, place) }
      go (c ∷ d ∷ cands) = at-IsValid

-- The texts on both sides of a cursor in the line.
module _ (buf : Str) (n : ℕ) (inside : n ≤ length buf) where
  pub slice_to-inside : slice_to buf (pos n) ≡ some (take n buf)
  unfolding slice_to
  slice_to-inside = ground (arith, inside)

  pub slice_from-inside : slice_from buf (pos n) ≡ some (drop n buf)
  unfolding slice_from
  slice_from-inside = ground (arith, inside)

pub type_rune-at :
    (buf : Str) (n i r : ℕ)
    → n ≤ length buf
    → type_rune (at buf n i) r ≡ some (at (take n buf ++ r ∷ drop n buf) (n + 1) i)
unfolding type_rune
type_rune-at buf n i r inside =
    ground (arith, slice_to-inside buf n inside, slice_from-inside buf n inside)

pub erase-at :
    (buf : Str) (n i : ℕ)
    → suc n ≤ length buf
    → erase (at buf (suc n) i) ≡ some (at (take n buf ++ drop (suc n) buf) n i)
unfolding erase
erase-at buf n i inside =
    ground
      (arith, slice_to-inside buf n (omega (arith, inside)), slice_from-inside buf (suc n) inside)

-- A key does not panic, and gives a valid editor.
unfoldable pub KeepsValid : Shell → Option Editor → Type 0
KeepsValid s none = ⊥
KeepsValid s (some e) = IsValid s e

module _ (s : Shell) (buf : Str) where
  pub backspace-KeepsValid :
      (n i : ℕ) → n ≤ length buf → i ≤ length s.history → KeepsValid s (backspace (at buf n i))
  unfolding backspace KeepsValid
  backspace-KeepsValid zero i inside place = at-IsValid s buf 0 i inside place
  backspace-KeepsValid (suc n) i inside place =
      let more : ltb 0 (suc n) ≡ true = ground arith in
      let le : n ≤ length (take n buf ++ drop (suc n) buf) =
        omega (arith, inside, length-append (take n buf) (drop (suc n) buf), length-take n buf) in
      rw (more, erase-at buf n i inside)
        (at-IsValid s (take n buf ++ drop (suc n) buf) n i le place)

  pub type_rune-KeepsValid :
      (n i r : ℕ) → n ≤ length buf → i ≤ length s.history → KeepsValid s (type_rune (at buf n i) r)
  unfolding KeepsValid
  type_rune-KeepsValid n i r inside place =
      let text = take n buf ++ r ∷ drop n buf in
      let le : n + 1 ≤ length text =
        omega (arith, inside, length-append (take n buf) (r ∷ drop n buf), length-take n buf) in
      rw (type_rune-at buf n i r inside) (at-IsValid s text (n + 1) i le place)

  recall-KeepsValid :
      (n i j : ℕ) → j < length s.history → KeepsValid s (recall s (at buf n i) (pos j))
  unfolding recall put_text index_at KeepsValid
  recall-KeepsValid n i j lt =
      let (text, there) = get_elem?-there s.history j lt in
      rw there (at-IsValid s text (length text) j (omega arith) (omega (arith, lt)))

  pub up-KeepsValid :
      (n i : ℕ) → n ≤ length buf → i ≤ length s.history → KeepsValid s (up s (at buf n i))
  unfolding up KeepsValid
  up-KeepsValid n zero inside place = at-IsValid s buf n 0 inside place
  up-KeepsValid n (suc i) inside place =
      let more : ltb 0 (suc i) ≡ true = ground arith in
      rw more (recall-KeepsValid n (suc i) i (omega (arith, place)))

  pub down-KeepsValid :
      (n i : ℕ) → n ≤ length buf → i ≤ length s.history → KeepsValid s (down s (at buf n i))
  unfolding down put_text KeepsValid
  down-KeepsValid n i inside place = elim (Bool-cases (ltb i (length s.history))) [
    | inr newest ↦ rw newest (at-IsValid s buf n i inside place)
    | inl newer ↦ elim (Bool-cases (i + 1 ≟ length s.history)) [
      | inl behind ↦
          rw (newer, int_eq-pos (i + 1) (length s.history), behind)
            (at-IsValid s [] 0 (i + 1) (omega arith) (ground (arith, newer)))
      | inr line_there ↦
          rw (newer, int_eq-pos (i + 1) (length s.history), line_there)
            (recall-KeepsValid n i (i + 1) (ground (arith, newer, line_there)))
    ]
  ]

  pub right-IsValid :
      (n i : ℕ) → n ≤ length buf → i ≤ length s.history → IsValid s (right (at buf n i))
  unfolding right
  right-IsValid n i inside place = elim (Bool-cases (ltb n (length buf))) [
    | inr at_end ↦ rw at_end (at-IsValid s buf n i inside place)
    | inl before ↦ rw before (at-IsValid s buf (n + 1) i (ground (arith, before)) place)
  ]

  pub left-IsValid :
      (n i : ℕ) → n ≤ length buf → i ≤ length s.history → IsValid s (left (at buf n i))
  unfolding left
  left-IsValid zero i inside place = at-IsValid s buf 0 i inside place
  left-IsValid (suc n) i inside place =
      let more : ltb 0 (suc n) ≡ true = ground arith in
      rw more (at-IsValid s buf n i (omega (arith, inside)) place)
