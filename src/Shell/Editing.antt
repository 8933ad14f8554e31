-- ===== src/Shell/Editing.antt =====
-- What typing does to a line, in internal/shell/shell.go.
use mathlib.Core.Path.{subst}
use korik.Prelude.{
  All, List, Str, [], ap, append_assoc, arith, drop, drop-append_length, length, length-append,
  length-take, map, pos_part, sym, take, take-append-drop, take-append_length, true, ℕ, ◌++◌, ◌+◌,
  ◌∙◌, ◌∷◌, ◌≡◌, ◌≤◌,
}
use korik.Shell.{Shell, is_line_end}
use korik.Shell.Keys.{
  Editor, end_of_input, goes_on, is_printable, line, next_round, panics, read_error, read_on, step,
  type_rune,
}
use korik.Shell.Places.{IsValid, at, type_rune-at, valid-at}

module _ (text after : Str) (b n : ℕ) (at_cursor : length text ≡ n) where
  drop-typed : drop (n + 1) (text ++ b ∷ after) ≡ after
  drop-typed =
      ap (drop (n + 1)) (sym (append_assoc text (b ∷ []) after))
      ∙ drop-append_length (text ++ b ∷ []) after (n + 1)
          (omega (arith, at_cursor, length-append text (b ∷ [])))

  take-typed : take (n + 1) (text ++ b ∷ after) ≡ text ++ b ∷ []
  take-typed =
      ap (take (n + 1)) (sym (append_assoc text (b ∷ []) after))
      ∙ take-append_length (text ++ b ∷ []) after (n + 1)
          (omega (arith, at_cursor, length-append text (b ∷ [])))

module _ (s : Shell) where
  step-printable :
      (e : Editor) (b : ℕ) (more : Str)
      → is_printable b ≡ true
      → step s e (b ∷ more) ≡ next_round (type_rune e b)
  unfolding step is_line_end is_printable
  step-printable e b more h = ground (arith, h)

  read_on-goes_on :
      (e e' : Editor) (bytes_read : Str) (reads : List Str)
      → step s e bytes_read ≡ goes_on e'
      → read_on s e (bytes_read ∷ reads) ≡ read_on s e' reads
  unfolding read_on
  read_on-goes_on e e' bytes_read reads h =
      ap
        (λ p. elim p [
          | goes_on e'' ↦ read_on s e'' reads
          | line text ↦ line text
          | end_of_input ↦ end_of_input
          | read_error ↦ read_error
          | panics ↦ panics
        ])
        h

  step-typed :
      (buf : Str) (n i b : ℕ) (more : Str)
      → n ≤ length buf
      → is_printable b ≡ true
      → step s (at buf n i) (b ∷ more) ≡ goes_on (at (take n buf ++ b ∷ drop n buf) (n + 1) i)
  unfolding next_round
  step-typed buf n i b more inside h =
      step-printable (at buf n i) b more h ∙ ap next_round (type_rune-at buf n i b inside)

  read_on-typed_at :
      (keys : List (ℕ × Str)) (buf : Str) (n i : ℕ)
      → n ≤ length buf
      → All (λ key. is_printable key.0 ≡ true) keys
      → read_on s (at buf n i) (map (λ key. key.0 ∷ key.1) keys ++ (13 ∷ []) ∷ [])
        ≡ line (take n buf ++ (map (λ key. key.0) keys ++ drop n buf))
  unfolding read_on step is_line_end
  read_on-typed_at [] buf n i inside h = ap line (sym (take-append-drop n buf))
  read_on-typed_at ((b, more) ∷ keys) buf n i inside h =
      let before = take n buf in
      let after = drop n buf in
      let size : length before ≡ n = omega (arith, length-take n buf, inside) in
      let le : n + 1 ≤ length (before ++ b ∷ after) =
        omega (arith, size, length-append before (b ∷ after)) in
      let typed = map (λ key. key.0) keys in
      read_on-goes_on (at buf n i) (at (before ++ b ∷ after) (n + 1) i) (b ∷ more)
        (map (λ key. key.0 ∷ key.1) keys ++ (13 ∷ []) ∷ []) (step-typed buf n i b more inside h.0)
      ∙ (read_on-typed_at keys (before ++ b ∷ after) (n + 1) i le h.1
          ∙ ap line (
              rw (take-typed before after b n size) (
                rw (drop-typed before after b n size)
                  (append_assoc before (b ∷ []) (typed ++ after)))))

  -- Of what one read gives, only the first byte is typed. A line that is read with printable bytes at
  -- the front of each read, and then Enter, has these bytes where the cursor was, in order; what a
  -- read brings with its first byte, as of a text that is pasted, is lost. The editor is one whose
  -- cursor is in range.
  pub read_on-typed :
      (keys : List (ℕ × Str)) (e : Editor)
      → IsValid s e
      → All (λ key. is_printable key.0 ≡ true) keys
      → read_on s e (map (λ key. key.0 ∷ key.1) keys ++ (13 ∷ []) ∷ [])
        ≡ line (
            take (pos_part e.pos) e.buf ++ (map (λ key. key.0) keys ++ drop (pos_part e.pos) e.buf))
  read_on-typed keys e v h =
      subst
        (λ e'.
          read_on s e' (map (λ key. key.0 ∷ key.1) keys ++ (13 ∷ []) ∷ [])
          ≡ line (
              take (pos_part e'.pos) e'.buf
              ++ (map (λ key. key.0) keys ++ drop (pos_part e'.pos) e'.buf)))
        (sym (valid-at s e v)) (read_on-typed_at keys e.buf v.cursor.0 v.place.0 v.cursor.2 h)
