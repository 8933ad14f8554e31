-- ===== src/Shell/Tests.antt =====
-- A shell with one line of history, lines that are typed and pasted, and completions.
use korik.Prelude.{
  List, Str, [], arith, bytes, contains, fields_from, is_space, last_index, none, pos, refl, some,
  split, split_at, starts_with, str_eq, trim_left, trim_right, trim_space, true, ℕ, ◌++◌, ◌∷◌, ◌≡◌,
  ◌≢◌,
}
use korik.Candidates.{str_lt}
use korik.Shell.{
  Shell, add_history, complete, complete_command, dir_of, insert_string, is_blank, keep_lines,
  load_history, new, sort_strings, written,
}
use korik.Shell.Keys.{
  index_at, is_printable, line, panics, put_text, read_line, read_on, read_plain, recall, start,
  step, up,
}
use korik.Shell.Places.{IsValid, StaysValid}
use korik.Shell.Validity.{read_line-safe, step-StaysValid}
use korik.Shell.Editing.{read_on-typed}
use korik.Shell.Recall.{IsStored, add_history-IsStored}
use korik.Storage.{written}

abbrev shell : Shell
shell = record {
  history = bytes "/who" ∷ [];
  commands = bytes "/who" ∷ bytes "/quit" ∷ [];
  contacts = none;
  file = some (bytes "/who" ++ 10 ∷ []);
}

start-IsValid : IsValid shell (start shell)
unfolding start
start-IsValid = record { cursor = (0, refl, omega arith); place = (1, refl, omega arith) }

-- The letter h is typed, then text is pasted that begins with the letter i.
abbrev keys : List (ℕ × Str)
keys = (104, []) ∷ (105, bytes "xy") ∷ []

printable : (is_printable 104 ≡ true) × (is_printable 105 ≡ true)
unfolding is_printable
printable = (refl, refl)

read_on-typed_example :
    read_on shell (start shell) ((104 ∷ []) ∷ (105 ∷ bytes "xy") ∷ (13 ∷ []) ∷ [])
    ≡ line (bytes "hi")
unfolding start
read_on-typed_example =
    read_on-typed shell keys (start shell) start-IsValid (printable.0, (printable.1, tt))

step-StaysValid_example : StaysValid shell (step shell (start shell) (27 ∷ 91 ∷ 65 ∷ []))
step-StaysValid_example = step-StaysValid shell (start shell) (27 ∷ 91 ∷ 65 ∷ []) start-IsValid

read_line-safe_example :
    read_line shell ((27 ∷ 91 ∷ 68 ∷ []) ∷ (127 ∷ []) ∷ (120 ∷ []) ∷ (13 ∷ []) ∷ []) ≢ panics
read_line-safe_example =
    read_line-safe shell ((27 ∷ 91 ∷ 68 ∷ []) ∷ (127 ∷ []) ∷ (120 ∷ []) ∷ (13 ∷ []) ∷ [])

-- The arrow shows the last line, and the tabulator completes a command.
recalled :
    up shell (start shell) ≡ some (record { buf = bytes "/who"; pos = pos 4; hist_idx = pos 0 })
unfolding up start put_text recall index_at
recalled = refl

completed : complete shell (bytes "/q") ≡ bytes "/quit" ∷ []
unfolding complete complete_command starts_with contains str_eq fields_from is_space sort_strings
    insert_string str_lt
completed = refl

shell-IsStored : IsStored shell
unfolding new load_history keep_lines split split_at is_blank str_eq trim_space trim_right trim_left
    is_space
shell-IsStored = record {
  lines = (
    record { one_line = (refl, (refl, (refl, (refl, tt)))); no_return = refl; not_blank = refl },
    tt,
  );
  bounded = omega arith;
  reloads = refl;
}

add_history-IsStored_example : IsStored (add_history shell (bytes "hi" ++ 13 ∷ []) written)
add_history-IsStored_example =
    add_history-IsStored shell (bytes "hi" ++ 13 ∷ []) shell-IsStored (refl, (refl, (refl, tt)))

-- The other ways to read a line, and the directory of the file.
plain : read_plain [] (bytes "hi" ++ 13 ∷ 10 ∷ bytes "on") ≡ line (bytes "hi")
unfolding read_plain
plain = refl

directory : dir_of (bytes "/home/u/history") ≡ bytes "/home/u"
unfolding dir_of last_index
directory = refl
