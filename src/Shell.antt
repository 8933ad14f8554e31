-- ===== src/Shell.antt =====
-- internal/shell/shell.go: the reader of lines on a terminal, with its history on disk and its
-- completions. Texts are lists of runes here, of valid UTF-8; case and white space are those of ASCII.
-- What is drawn on the terminal is left out.
pub mod Keys
pub mod Places
pub mod Validity
pub mod Editing
pub mod Recall
mod Tests
use korik.Prelude.{
  Bool, List, Option, Str, [], bytes, contains, drop, false, fields_from, filterb, if◌then◌else◌,
  join, last_index, lasts, leb, length, map, none, not, reverse, some, split, starts_with, str_eq,
  take, to_lower, trim_right, trim_space, ℕ, ◌&&◌, ◌++◌, ◌+◌, ◌/◌, ◌||◌, ◌∷◌, ◌≟◌,
}
use korik.Candidates.{str_lt}

-- The contact provider is the names that it returns. The file is what stands at the history path.
pub record Shell : Type 0 where
  pub history : List Str
  pub commands : List Str
  pub contacts : Option (List Str)
  pub file : Option Str

-- An attempt to write the file whose error is ignored: it may leave anything.
pub data Write : Type 0 where
  written : Write
  not_written : Option Str → Write

-- the bound on the history
abbrev pub max_lines : ℕ
max_lines = 500

unfoldable pub is_blank : Str → Bool
is_blank line = str_eq (trim_space line) []

unfoldable pub is_line_end : ℕ → Bool
is_line_end c = (c ≟ 13) || (c ≟ 10)

-- the loop of `loadHistory`
unfoldable pub keep_lines : List Str → List Str
unfolding is_blank
keep_lines [] = []
keep_lines (l ∷ lines) =
    let rest = keep_lines lines in
    let line = trim_right (λ c. c ≟ 13) l in if is_blank line then rest else line ∷ rest

unfoldable pub load_history : Shell → Shell
unfolding keep_lines
load_history s = elim s.file [
  | none ↦ s
  | some content ↦ record s {
    history = lasts max_lines (s.history ++ keep_lines (split 10 content));
  }
]

unfoldable pub new : Option Str → List Str → Shell
unfolding load_history
new file commands =
    load_history (record { history = []; commands = commands; contacts = none; file = file })

unfoldable pub set_contact_provider : Shell → List Str → Shell
set_contact_provider s names = record s { contacts = some names }

unfoldable pub save_history : Shell → Write → Shell
save_history s written = record s { file = some (join 10 (lasts max_lines s.history) ++ 10 ∷ []) }
save_history s (not_written left) = record s { file = left }

unfoldable pub is_last : List Str → Str → Bool
is_last lines line = elim (reverse lines) [ [] ↦ false | last ∷ _ ↦ str_eq last line ]

unfoldable pub add_history : Shell → Str → Write → Shell
unfolding is_line_end is_blank is_last save_history
add_history s input w =
    let line = trim_right is_line_end input in
    if is_blank line
    then s
    else if is_last s.history line
    then s
    else save_history (record s { history = lasts max_lines (s.history ++ line ∷ []) }) w

-- sort.Strings
unfoldable pub insert_string : Str → List Str → List Str
insert_string s [] = s ∷ []
insert_string s (t ∷ rest) =
    let further = insert_string s rest in if str_lt t s then t ∷ further else s ∷ t ∷ rest

unfoldable pub sort_strings : List Str → List Str
unfolding insert_string
sort_strings [] = []
sort_strings (s ∷ rest) = insert_string s (sort_strings rest)

unfoldable pub has_prefix_fold : Str → Str → Bool
has_prefix_fold name prefix = starts_with (to_lower name) (to_lower prefix)

-- the name of a command, then the names of contacts as its argument
unfoldable pub complete_command : Shell → Str → List Str
unfolding fields_from sort_strings has_prefix_fold
complete_command s buffer =
    let fields = fields_from [] buffer in
    if leb (length fields) 1 && not (contains buffer (bytes " "))
    then sort_strings (filterb (λ c. starts_with c buffer) s.commands)
    else elim s.contacts [
      | none ↦ []
      | some names ↦ elim fields [
        | [] ↦ []
        | first ∷ more ↦
            let last =
              if starts_with (reverse buffer) (bytes " ")
              then []
              else elim (reverse (first ∷ more)) [ [] ↦ [] | f ∷ _ ↦ f ] in
            sort_strings (
              map (λ name. first ++ bytes " " ++ name)
                (filterb (λ name. str_eq last [] || has_prefix_fold name last) names))
      ]
    ]

-- a contact that a message mentions
unfoldable pub complete_mention : Shell → Str → List Str
unfolding has_prefix_fold
complete_mention s buffer = elim s.contacts [
  | none ↦ []
  | some names ↦ elim (last_index buffer 64) [
    | none ↦ []
    | some idx ↦
        let prefix = drop (idx + 1) buffer in
        if contains prefix (bytes " ")
        then []
        else map (λ name. take (idx + 1) buffer ++ name)
            (filterb (λ name. has_prefix_fold name prefix) names)
  ]
]

unfoldable pub complete : Shell → Str → List Str
unfolding complete_command complete_mention
complete s buffer =
    if starts_with buffer (bytes "/") then complete_command s buffer else complete_mention s buffer

-- dirOf
unfoldable pub dir_of : Str → Str
dir_of path = elim (last_index path 47) [
  | none ↦ bytes "."
  | some idx ↦ if idx ≟ 0 then bytes "/" else take idx path
]
