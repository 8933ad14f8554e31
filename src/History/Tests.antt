-- ===== src/History/Tests.antt =====
-- The theorems about internal/history/history.go at concrete histories.
use korik.Prelude.{
  All, List, Str, [], arith, bytes, false, if◌then◌else◌, lasts, leb, length, none, pos, refl, some,
  starts_with, str_eq, take, ℕ, ◌*◌, ◌++◌, ◌+◌, ◌∷◌, ◌≡◌, ◌≤◌,
}
use korik.History.{
  ChatMessage, History, add, append_pruned, find_by_id_prefix, find_from, get_last, get_page, new,
  new_with_tail, opened, prune_expired_locked, save_history, trim,
}
use korik.History.Window.{Fits, Fresh, IsValid, IsWritten, Kept, Stays, add_keeps, messages-add}
use korik.History.Reading.{get_last-lasts, pages, pages-take}
use korik.History.Lookup.{find_by_id, find_by_prefix, hits}
use korik.History.TailLoss.{add_overwrites_older, new-add, tail_of}
use korik.Storage.{Codec, found, load, save, written}

program : Unit {0}
unfolding new_with_tail new opened add append_pruned trim prune_expired_locked get_last get_page
    find_by_id_prefix find_from save_history save load str_eq starts_with
program = tt

message : Str → ℕ → ChatMessage
message id time = record {
  id = id;
  sender = bytes "bob";
  jid = bytes "korik:1";
  lid = bytes "1";
  sender_device = [];
  seq = 0;
  group_id = [];
  reply_to = [];
  body = bytes "hi";
  timestamp = time;
  direction = bytes "received";
  expires_at = 0;
}

abbrev three : List ChatMessage
three = message (bytes "ab1") 1 ∷ message (bytes "ab2") 2 ∷ message (bytes "ab") 3 ∷ []

abbrev history : History
history = record {
  max_size = pos 2;
  messages = three;
  ttl = pos 0;
  total_stored = 3;
  tail_only = false;
  file = none;
}

-- A full identifier that is not found: two identifiers before it begin with it.
full_id_not_found : find_by_id_prefix history (bytes "ab") ≡ none
unfolding program message
full_id_not_found = refl

full_id_found : find_by_id_prefix history (bytes "ab2") ≡ some (message (bytes "ab2") 2)
unfolding program message
full_id_found = refl

find_by_id_test : find_by_id_prefix history (bytes "ab") ≡ (
    if leb (length (hits (bytes "ab") (message (bytes "ab1") 1 ∷ message (bytes "ab2") 2 ∷ []))) 1
    then some (message (bytes "ab") 3)
    else none)
unfolding message str_eq
find_by_id_test =
    find_by_id (bytes "ab") history (message (bytes "ab1") 1 ∷ message (bytes "ab2") 2 ∷ []) []
      (message (bytes "ab") 3) refl (refl, (refl, tt)) refl

find_by_prefix_test :
    find_by_id_prefix history (bytes "a")
    ≡ elim (hits (bytes "a") three) [ [] ↦ none | m ∷ ms ↦ elim ms [ [] ↦ some m | _ ∷ _ ↦ none ] ]
unfolding message str_eq
find_by_prefix_test = find_by_prefix (bytes "a") history (refl, (refl, (refl, tt)))

abbrev codec : Codec (List ChatMessage)
codec = record {
  encode = λ ms. length ms ∷ [];
  decode = λ text.
      some (
        if str_eq text (2 ∷ [])
        then message (bytes "ab") 3 ∷ message (bytes "n") 4 ∷ []
        else three);
}

messages-add_example :
    let ms = (add codec history (message (bytes "n") 4) 9 written).0.messages in
    (new : ChatMessage) × (kept : List ChatMessage) × IsWritten
      (pos 0)
      9
      (message (bytes "n") 4)
      new
    × Kept 9 (three ++ new ∷ []) kept
    × (ms ≡ lasts 2 kept)
    × (Stays 9 new → (before : List ChatMessage) × (ms ≡ before ++ new ∷ []))
messages-add_example = messages-add codec history (message (bytes "n") 4) 9 written refl

add_keeps_test :
    All (Fresh 9) (add codec history (message (bytes "n") 4) 9 written).0.messages
    × Fits (add codec history (message (bytes "n") 4) 9 written).0
    × IsValid (add codec history (message (bytes "n") 4) 9 written).0
add_keeps_test =
    add_keeps codec history (message (bytes "n") 4) 9 written (record { counted = omega arith })

new-add_test :
    new codec (add codec history (message (bytes "n") 4) 9 written).0.file (pos 2) 9
    ≡ some (
        opened
          (add codec history (message (bytes "n") 4) 9 written).0.file
          (pos 2)
          (pos 0)
          (add codec history (message (bytes "n") 4) 9 written).0.messages
          (length (add codec history (message (bytes "n") 4) 9 written).0.messages))
unfolding program message
new-add_test =
    new-add codec history (message (bytes "n") 4) 9 refl (pos 2) (record { counted = omega arith })

abbrev text : Str
text = 3 ∷ []

add_overwrites_older_test :
    (new_with_tail codec (some text) (pos 100) (pos 1) 9
      ≡ some (tail_of (some text) (pos 100) 1 9 three))
    × (load codec
          (add codec
            (tail_of (some text) (pos 100) 1 9 three)
            (message (bytes "n") 4)
            9
            written).0.file
        ≡ found
            (add codec
              (tail_of (some text) (pos 100) 1 9 three)
              (message (bytes "n") 4)
              9
              written).0.messages)
    × (length
          (add codec
            (tail_of (some text) (pos 100) 1 9 three)
            (message (bytes "n") 4)
            9
            written).0.messages
        ≤ 1 + 1)
unfolding program message
add_overwrites_older_test =
    add_overwrites_older codec text three (pos 100) 1 9 (message (bytes "n") 4) refl (omega arith)
      refl

pages-take_test : pages history 2 2 ≡ take (2 * 2) three
pages-take_test = pages-take history 2 2 (omega arith)

get_last-lasts_test : get_last history (pos 2) ≡ lasts 2 three
get_last-lasts_test = get_last-lasts history (pos 2)
