-- ===== src/Queue/Tests.antt =====
-- internal/queue/queue_test.go, and the theorems at concrete queues.
use korik.Prelude.{
  List, Str, [], arith, bytes, inl, lasts, none, refl, some, str_eq, str_key, ℕ, ◌++◌, ◌∷◌, ◌≡◌,
}
use korik.Queue.{
  OutgoingMessage, Queue, cap_messages, enqueue, mark_attempt, new, remove, save_locked, with_id,
}
use korik.Queue.Bounds.{enqueue_all, items-enqueue_all, named}
use korik.Queue.Persistence.{change, enqueued, new-change, new-change_failed}
use korik.Queue.Removal.{Lacks, remove-enqueue}
use korik.Storage.{Codec, load, no_directory, save, written}

program : Unit {0}
unfolding new save_locked enqueue with_id cap_messages remove mark_attempt change enqueue_all named
    save load str_eq
program = tt

abbrev hello : OutgoingMessage
hello = record {
  id = bytes "m1";
  to_jid = bytes "korik:abc";
  body = bytes "hello";
  created_at = 7;
  attempts = 0;
}

abbrev empty : Queue
empty = record { items = []; file = none }

-- A codec that knows one list of messages, and the text "M" for it.
abbrev codec : Codec (List OutgoingMessage)
codec = record { encode = λ items. bytes "M"; decode = λ text. some (hello ∷ []) }

abbrev format : ℕ → Str
format n = bytes "now"

-- TestQueuePersistsAcrossReload
persists_across_reload :
    (new codec (enqueue codec format empty hello written).0.file).items ≡ hello ∷ []
unfolding program
persists_across_reload = refl

default_identifier : (with_id format (record hello { id = [] })).id ≡ bytes "korik:abc:now"
unfolding program
default_identifier = refl

items-enqueue_all_example :
    (enqueue_all codec format empty ((hello, written) ∷ (hello, no_directory) ∷ [])).items
    ≡ lasts 1000 ([] ++ named format ((hello, written) ∷ (hello, no_directory) ∷ []))
items-enqueue_all_example =
    items-enqueue_all codec format empty ((hello, written) ∷ (hello, no_directory) ∷ [])
      (omega arith)

new-change_test :
    new codec (change codec format empty (enqueued hello) written).file
    ≡ change codec format empty (enqueued hello) written
unfolding program
new-change_test = new-change codec format empty (enqueued hello) refl

new-change_failed_test :
    ((change codec format empty (enqueued hello) no_directory).file ≡ none)
    × ((change codec format empty (enqueued hello) no_directory).items
        ≡ (change codec format empty (enqueued hello) written).items)
new-change_failed_test =
    new-change_failed codec format empty (enqueued hello) no_directory (inl refl)

remove-enqueue_test :
    ((remove codec (enqueue codec format empty hello written).0 (bytes "m1") written).0.items ≡ [])
    × Lacks (bytes "m1") (remove codec empty (bytes "m1") written).0.items
unfolding str_eq
remove-enqueue_test = remove-enqueue codec format empty hello written written (omega arith) refl tt
