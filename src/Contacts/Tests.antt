-- ===== src/Contacts/Tests.antt =====
-- internal/contacts/contacts_test.go, and the theorems at concrete books.
use korik.Prelude.{
  List, [], bytes, false, none, refl, some, str_eq, true, ℕ, ◌-◌, ◌∷◌, ◌≡◌, ◌≤◌, ◌⊎◌,
}
use korik.GoMap.{get, put, remove}
use korik.Storage.{Codec, Outcome, no_directory, save, written}
use korik.Contacts.{
  Contact, ContactBook, add, delete, drop_tag, fuzzy_score, is_blocked, new_contact, save_book,
  score_from, set_blocked,
}
use korik.Contacts.Blocking.{
  Call, adds, blocks, contact, perform, react, react_all, run, standing, standing-run,
}
use korik.Contacts.Fuzzy.{IsShortest, fuzzy_score_lem, within}

program : Unit {0}
unfolding str_eq get put remove fuzzy_score score_from within perform run standing react react_all
    is_blocked add set_blocked delete save_book save new_contact drop_tag
program = tt

abbrev empty : ContactBook
empty = record { contacts = []; file = none }

abbrev codec : Codec (List Contact)
codec = record { encode = λ contacts. bytes "C"; decode = λ text. none }

-- "jo" finds "john" at once, and "jh" skips a letter.
scores :
    (fuzzy_score (bytes "jo") (bytes "john") ≡ some 0)
    × (fuzzy_score (bytes "jh") (bytes "john") ≡ some 1)
    × (fuzzy_score (bytes "oj") (bytes "john") ≡ none)
unfolding program
scores = (refl, refl, refl)

-- Only the first of the equal tags goes.
first_tag :
    drop_tag (bytes "a" ∷ bytes "b" ∷ bytes "a" ∷ []) (bytes "a") ≡ bytes "b" ∷ bytes "a" ∷ []
unfolding program
first_tag = refl

abbrev calls : List (Call × Outcome)
calls =
    (adds (bytes "korik:a") (bytes "ann") 3, written)
    ∷ (blocks (bytes "korik:a") true, no_directory)
    ∷ (adds (bytes "korik:a") (bytes "anna") 5, written)
    ∷ []

standing-run_example :
    (standing (run codec empty calls) (bytes "korik:a") ≡ contact true)
    × (is_blocked (run codec empty calls) (bytes "korik:a") ≡ true)
unfolding program
standing-run_example = standing-run codec empty calls (bytes "korik:a")

fuzzy_score_lem_test :
    ((fuzzy_score (bytes "jh") (bytes "john") ≡ none)
      × (within (bytes "jh") (bytes "john") ≡ false))
    ⊎ ((n : ℕ) × (fuzzy_score (bytes "jh") (bytes "john") ≡ some (n - 2))
        × (2 ≤ n)
        × IsShortest (bytes "jh") (bytes "john") n)
fuzzy_score_lem_test = fuzzy_score_lem 106 (104 ∷ []) (bytes "john")
