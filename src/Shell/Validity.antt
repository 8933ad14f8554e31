-- ===== src/Shell/Validity.antt =====
-- No key takes the editor of internal/shell/shell.go out of its line or of its history.
use mathlib.Core.Path.{subst}
use korik.Prelude.{
  Bool, List, Option, Str, [], arith, false, if◌then◌else◌, length, none, not, some, sym, true, ℕ,
  ◌||◌, ◌∷◌, ◌≟◌, ◌≢◌, ◌≤◌,
}
use korik.Shell.{Shell, is_line_end}
use korik.Shell.Keys.{
  Editor, Progress, backspace, end_of_input, escape, goes_on, is_printable, line, next_round,
  panics, read_error, read_line, read_on, start, step, type_rune,
}
use korik.Shell.Places.{
  IsValid, KeepsValid, StaysValid, at, at-IsValid, backspace-KeepsValid, down-KeepsValid,
  left-IsValid, right-IsValid, tab-IsValid, type_rune-KeepsValid, up-KeepsValid, valid-at,
}

module _ (s : Shell) (buf : Str) where
  if-KeepsValid :
      (b : Bool) (o o' : Option Editor)
      → KeepsValid s o
      → KeepsValid s o'
      → KeepsValid s (if b then o else o')
  if-KeepsValid true o o' v v' = v
  if-KeepsValid false o o' v v' = v'

  escape-KeepsValid :
      (n i : ℕ) (more : Str)
      → n ≤ length buf
      → i ≤ length s.history
      → KeepsValid s (escape s (at buf n i) more)
  unfolding escape KeepsValid
  escape-KeepsValid n i [] inside place = at-IsValid s buf n i inside place
  escape-KeepsValid n i (a ∷ []) inside place = at-IsValid s buf n i inside place
  escape-KeepsValid n i (a ∷ c ∷ more) inside place =
      let stays = at-IsValid s buf n i inside place in
      if-KeepsValid (not (a ≟ 91)) _ _ stays (
        if-KeepsValid (c ≟ 65) _ _ (up-KeepsValid s buf n i inside place) (
          if-KeepsValid (c ≟ 66) _ _ (down-KeepsValid s buf n i inside place) (
            if-KeepsValid (c ≟ 67) _ _ (right-IsValid s buf n i inside place)
              (if-KeepsValid (c ≟ 68) _ _ (left-IsValid s buf n i inside place) stays))))

  next_round-StaysValid : (o : Option Editor) → KeepsValid s o → StaysValid s (next_round o)
  unfolding next_round StaysValid KeepsValid
  next_round-StaysValid none v = v
  next_round-StaysValid (some e) v = v

  if-StaysValid :
      (b : Bool) (p q : Progress)
      → StaysValid s p
      → StaysValid s q
      → StaysValid s (if b then p else q)
  if-StaysValid true p q v v' = v
  if-StaysValid false p q v v' = v'

  step-at :
      (n i : ℕ) (bytes_read : Str)
      → n ≤ length buf
      → i ≤ length s.history
      → StaysValid s (step s (at buf n i) bytes_read)
  unfolding step StaysValid
  step-at n i [] inside place = at-IsValid s buf n i inside place
  step-at n i (b ∷ more) inside place =
      let stays = at-IsValid s buf n i inside place in
      if-StaysValid (is_line_end b) _ _ tt (
        if-StaysValid ((b ≟ 3) || (b ≟ 4)) _ _ (interrupted buf stays) (
          if-StaysValid (b ≟ 9) _ _ (tab-IsValid s buf n i inside place) (
            if-StaysValid ((b ≟ 127) || (b ≟ 8)) _ _
              (next_round-StaysValid (backspace (at buf n i))
                (backspace-KeepsValid s buf n i inside place))
              (if-StaysValid (b ≟ 27) _ _
                (next_round-StaysValid (escape s (at buf n i) more)
                  (escape-KeepsValid n i more inside place))
                (if-StaysValid (is_printable b) _ _
                  (next_round-StaysValid (type_rune (at buf n i) b)
                    (type_rune-KeepsValid s buf n i b inside place))
                  stays)))))
    where
      interrupted :
          (text : Str)
          → IsValid s (at buf n i)
          → StaysValid s (elim text [ [] ↦ end_of_input | _ ∷ _ ↦ goes_on (at buf n i) ])
      interrupted [] v = tt
      interrupted (c ∷ text) v = v

module _ (s : Shell) where
  -- From an editor whose cursor and place in the history are not negative and in range, one round of
  -- the loop does not panic, whatever was read, and leaves the editor so.
  pub step-StaysValid :
      (e : Editor) (bytes_read : Str) → IsValid s e → StaysValid s (step s e bytes_read)
  step-StaysValid e bytes_read v =
      subst (λ e'. StaysValid s (step s e' bytes_read)) (sym (valid-at s e v))
        (step-at s e.buf v.cursor.0 v.place.0 bytes_read v.cursor.2 v.place.2)

  read_on-safe : (e : Editor) (reads : List Str) → IsValid s e → read_on s e reads ≢ panics
  unfolding read_on StaysValid
  read_on-safe e [] v = λ bad. ground (arith, bad)
  read_on-safe e (bytes_read ∷ reads) v =
      go (λ e' v'. read_on-safe e' reads v') (step s e bytes_read) (step-StaysValid e bytes_read v)
    where
      go :
          ((e' : Editor) → IsValid s e' → read_on s e' reads ≢ panics)
          → (p : Progress) → StaysValid s p
          → elim p [
            | goes_on e' ↦ read_on s e' reads
            | line text ↦ line text
            | end_of_input ↦ end_of_input
            | read_error ↦ read_error
            | panics ↦ panics
          ]
            ≢ panics
      go later (goes_on e') v' = later e' v'
      go later (line text) v' = λ bad. ground (arith, bad)
      go later end_of_input v' = λ bad. ground (arith, bad)
      go later read_error v' = λ bad. ground (arith, bad)
      go later panics v' = absurd v'

  -- `ReadLine` on a terminal never panics, whatever the terminal reads.
  pub read_line-safe : (reads : List Str) → read_line s reads ≢ panics
  unfolding read_line start
  read_line-safe reads =
      read_on-safe (start s) reads
        (at-IsValid s [] 0 (length s.history) (omega arith) (omega arith))
