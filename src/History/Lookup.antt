-- ===== src/History/Lookup.antt =====
-- `FindByIDPrefix` of internal/history/history.go: which message an identifier or a prefix finds.
use korik.Prelude.{
  All, List, Str, [], append-nil, arith, false, filterb, if◌then◌else◌, leb, length, none, not,
  refl, some, starts_with, str_eq, true, ◌&&◌, ◌++◌, ◌∙◌, ◌∷◌, ◌≡◌,
}
use korik.History.{ChatMessage, History, find_by_id_prefix, find_from}

module _ (prefix : Str) where
  -- The messages whose identifiers begin with the prefix.
  pub hits : List ChatMessage → List ChatMessage
  hits = filterb (λ m. not (str_eq prefix []) && starts_with m.id prefix)

  -- No message has the whole text for its identifier.
  abbrev pub Inexact : List ChatMessage → Type 0
  Inexact = All (λ (m : ChatMessage). str_eq m.id prefix ≡ false)

  find-matched :
      (x : ChatMessage) (before rest : List ChatMessage)
      → Inexact before
      → find_from prefix (some x) (before ++ rest)
        ≡ elim (hits before) [ [] ↦ find_from prefix (some x) rest | _ ∷ _ ↦ none ]
  unfolding find_from hits
  find-matched x [] rest h = refl
  find-matched x (m ∷ before) rest h = ground (arith, h.0, find-matched x before rest h.1)

  find-unmatched :
      (before rest : List ChatMessage)
      → Inexact before
      → find_from prefix none (before ++ rest) ≡ elim (hits before) [
        | [] ↦ find_from prefix none rest
        | m ∷ ms ↦ elim ms [ [] ↦ find_from prefix (some m) rest | _ ∷ _ ↦ none ]
      ]
  unfolding find_from hits
  find-unmatched [] rest h = refl
  find-unmatched (m ∷ before) rest h =
      ground (arith, h.0, find-unmatched before rest h.1, find-matched m before rest h.1)

  module _ (h : History) where
    -- Where no message has the whole text for its identifier, it finds the message whose identifier
    -- begins with it, if there is exactly one such message, and nothing otherwise.
    pub find_by_prefix :
        Inexact h.messages
        → find_by_id_prefix h prefix
          ≡ elim (hits h.messages) [ [] ↦ none | m ∷ ms ↦ elim ms [ [] ↦ some m | _ ∷ _ ↦ none ] ]
    unfolding find_by_id_prefix
    find_by_prefix inexact = let e = find-unmatched h.messages [] inexact in rw append-nil at e

    -- The first message that has the whole text for its identifier is found exactly if at most one
    -- message before it has an identifier that begins with the text; with two or more of them there
    -- is no answer, although the identifier is given in full.
    pub find_by_id :
        (before after : List ChatMessage) (m : ChatMessage)
        → h.messages ≡ before ++ m ∷ after
        → Inexact before
        → str_eq m.id prefix ≡ true
        → find_by_id_prefix h prefix ≡ (if leb (length (hits before)) 1 then some m else none)
    unfolding find_by_id_prefix find_from
    find_by_id before after m e inexact exact =
        rw e (find-unmatched before (m ∷ after) inexact ∙ ground (arith, exact))
