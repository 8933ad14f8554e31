-- ===== src/Shell/Recall.antt =====
-- The history of lines in internal/shell/shell.go: what is kept of it on disk.
use mathlib.Core.List.{reverse-cons, reverse-reverse}
use korik.Prelude.{
  All, All-append, All-drop, All-reverse, Bool, Bool-cases, List, Str, [], ap, append-nil,
  append_assoc, arith, false, inl, inr, join, lasts, length, length-drop, none, refl, reverse,
  split, split_at, str_eq, sym, trim_left, trim_right, trim_space, true, ℕ, ◌++◌, ◌-◌, ◌∙◌, ◌∷◌,
  ◌≟◌, ◌≡◌, ◌≤◌,
}
use korik.Shell.{
  Shell, add_history, is_blank, is_last, is_line_end, keep_lines, load_history, max_lines, new,
  save_history, written,
}
use korik.Storage.{written}

-- A line of the history fills one line of the file and is not blank.
pub record IsLine (text : Str) : Type 0 where
  pub one_line : All (λ c. (c ≟ 10) ≡ false) text
  pub no_return : trim_right (λ c. c ≟ 13) text ≡ text
  pub not_blank : is_blank text ≡ false

-- A new shell with the same file has the same history.
pub record IsStored (s : Shell) : Type 0 where
  pub lines : All IsLine s.history
  pub bounded : length s.history ≤ max_lines
  pub reloads : new s.file s.commands ≡ record s { contacts = none }

split_at-line :
    (word text rest : Str)
    → All (λ c. (c ≟ 10) ≡ false) text
    → split_at 10 word (text ++ 10 ∷ rest) ≡ (reverse word ++ text) ∷ split_at 10 [] rest
unfolding split_at
split_at-line word [] rest h = ap (λ w. w ∷ split_at 10 [] rest) (sym (append-nil (reverse word)))
split_at-line word (c ∷ text) rest h = rw h.0 (
    split_at-line (c ∷ word) text rest h.1
    ∙ ap (λ w. w ∷ split_at 10 [] rest)
        (ap (λ w. w ++ text) (reverse-cons c word) ∙ append_assoc (reverse word) (c ∷ []) text))

-- The file has a line for each of the texts, and an empty one behind the last line end.
split-join :
    (text : Str) (texts : List Str)
    → All IsLine (text ∷ texts)
    → split 10 (join 10 (text ∷ texts) ++ 10 ∷ []) ≡ (text ∷ texts) ++ [] ∷ []
unfolding split join
split-join text [] h = split_at-line [] text [] h.0.one_line
split-join text (t ∷ texts) h =
    ap (split_at 10 []) (append_assoc text (10 ∷ join 10 (t ∷ texts)) (10 ∷ []))
    ∙ (split_at-line [] text (join 10 (t ∷ texts) ++ 10 ∷ []) h.0.one_line
        ∙ ap (λ lines. text ∷ lines) (split-join t texts h.1))

keep_lines-lines : (texts : List Str) → All IsLine texts → keep_lines (texts ++ [] ∷ []) ≡ texts
unfolding keep_lines str_eq trim_space
keep_lines-lines [] h = refl
keep_lines-lines (text ∷ texts) h =
    rw (h.0.no_return, h.0.not_blank) (ap (λ lines. text ∷ lines) (keep_lines-lines texts h.1))

module _ (p q : ℕ → Bool) (le : (c : ℕ) → p c ≡ true → q c ≡ true) where
  trim_left-trim_left : (text : Str) → trim_left p (trim_left q text) ≡ trim_left q text
  unfolding trim_left
  trim_left-trim_left [] = refl
  trim_left-trim_left (c ∷ text) = elim (Bool-cases (q c)) [
    | inl cut ↦ rw cut (trim_left-trim_left text)
    | inr kept ↦
        let kept' : p c ≡ false = elim (Bool-cases (p c)) [
          | inl bad ↦ ground (arith, le c bad, kept)
          | inr good ↦ good
        ] in
        rw (kept, kept') refl
  ]

  trim_right-trim_right : (text : Str) → trim_right p (trim_right q text) ≡ trim_right q text
  unfolding trim_right
  trim_right-trim_right text =
      rw (reverse-reverse (trim_left q (reverse text)))
        (ap reverse (trim_left-trim_left (reverse text)))

All-trim_left : (P : ℕ → Type 0) (p : ℕ → Bool) (text : Str) → All P text → All P (trim_left p text)
unfolding trim_left
All-trim_left P p [] h = tt
All-trim_left P p (c ∷ text) h = elim (Bool-cases (p c)) [
  | inl cut ↦ rw cut (All-trim_left P p text h.1)
  | inr kept ↦ rw kept h
]

All-trim_right :
    (P : ℕ → Type 0) (p : ℕ → Bool) (text : Str) → All P text → All P (trim_right p text)
unfolding trim_right
All-trim_right P p text h =
    All-reverse P (trim_left p (reverse text))
      (All-trim_left P p (reverse text) (All-reverse P text h))

lasts-all {ℓ} : {A : Type ℓ} (n : ℕ) (xs : List A) → length xs ≤ n → lasts n xs ≡ xs
lasts-all n xs h = let e : length xs - n ≡ 0 = omega (arith, h) in rw e refl

reread-lines :
    (texts : List Str) → All IsLine texts → keep_lines (split 10 (join 10 texts ++ 10 ∷ [])) ≡ texts
unfolding keep_lines split split_at join is_blank str_eq trim_space trim_left trim_right
reread-lines [] h = refl
reread-lines (text ∷ texts) h =
    ap keep_lines (split-join text texts h) ∙ keep_lines-lines (text ∷ texts) h

-- What is stored is read again.
reload :
    (s : Shell)
    → All IsLine s.history
    → length s.history ≤ max_lines
    → new (save_history s written).file s.commands
      ≡ record (save_history s written) { contacts = none }
unfolding save_history new load_history
reload s lines bounded =
    let e : lasts max_lines (keep_lines (split 10 (join 10 (lasts max_lines s.history) ++ 10 ∷ [])))
        ≡ s.history =
      ap (λ texts. lasts max_lines (keep_lines (split 10 (join 10 texts ++ 10 ∷ []))))
        (lasts-all max_lines s.history bounded)
      ∙ (ap (lasts max_lines) (reread-lines s.history lines)
          ∙ lasts-all max_lines s.history bounded) in
    ap (λ lines'. record (save_history s written) { contacts = none; history = lines' }) e

save_history-IsStored :
    (s : Shell)
    → All IsLine s.history
    → length s.history ≤ max_lines
    → IsStored (save_history s written)
unfolding save_history
save_history-IsStored s lines bounded = record {
  lines = lines;
  bounded = bounded;
  reloads = reload s lines bounded;
}

added-IsLine :
    (input : Str)
    → All (λ c. (c ≟ 10) ≡ false) input
    → is_blank (trim_right is_line_end input) ≡ false
    → IsLine (trim_right is_line_end input)
unfolding is_line_end
added-IsLine input one_line not_blank = record {
  one_line = All-trim_right (λ c. (c ≟ 10) ≡ false) is_line_end input one_line;
  no_return = trim_right-trim_right (λ c. c ≟ 13) is_line_end (λ c h. ground (arith, h)) input;
  not_blank = not_blank;
}

-- A history of at most 500 lines that is as its file says is so again after any line is added, once
-- the file is written: a shell that is opened later has the same lines, none of them cut in two,
-- changed or left out.
pub add_history-IsStored :
    (s : Shell) (input : Str)
    → IsStored s
    → All (λ c. (c ≟ 10) ≡ false) input
    → IsStored (add_history s input written)
unfolding add_history
add_history-IsStored s input v one_line =
    let text = trim_right is_line_end input in
    let more = record s { history = lasts max_lines (s.history ++ text ∷ []) } in
    elim (Bool-cases (is_blank text)) [
      | inl blank ↦ rw blank v
      | inr not_blank ↦ elim (Bool-cases (is_last s.history text)) [
        | inl again ↦ rw (not_blank, again) v
        | inr fresh ↦
            rw (not_blank, fresh)
              (save_history-IsStored more
                (All-drop IsLine _ (s.history ++ text ∷ []) (
                  All-append IsLine s.history (text ∷ []) v.lines
                    (added-IsLine input one_line not_blank, tt)))
                (omega (
                  arith,
                  length-drop (length (s.history ++ text ∷ []) - max_lines)
                      (s.history ++ text ∷ []),
                )))
      ]
    ]
