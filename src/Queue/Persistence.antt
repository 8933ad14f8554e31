-- ===== src/Queue/Persistence.antt =====
-- The file of internal/queue/queue.go: what a process that opens the queue again finds.
use korik.Prelude.{List, Str, arith, some, str_key, ℕ, ◌≡◌, ◌⊎◌}
use korik.Storage.{Codec, Outcome, load, no_directory, not_encoded, save, written}
use korik.Queue.{OutgoingMessage, Queue, enqueue, mark_attempt, new, remove, save_locked}

-- The methods that change the queue.
pub data Change : Type 0 where
  enqueued : OutgoingMessage → Change
  removed : Str → Change
  attempted : Str → Change

module _ (codec : Codec (List OutgoingMessage)) (format : ℕ → Str) where
  unfoldable pub change : Queue → Change → Outcome → Queue
  change q (enqueued msg) o = (enqueue codec format q msg o).0
  change q (removed id) o = (remove codec q id o).0
  change q (attempted id) o = mark_attempt codec q id o

  reload-save_locked :
      (q : Queue)
      → codec.decode (codec.encode q.items) ≡ some q.items
      → new codec (save_locked codec q written).0.file ≡ (save_locked codec q written).0
  unfolding save_locked new save load
  reload-save_locked q h = ground (arith, h)

  -- A queue that is opened again after a change which reached the disk is the queue as it was after
  -- the change, if the encoding keeps its messages.
  pub new-change :
      (q : Queue) (c : Change)
      → codec.decode (codec.encode (change q c written).items) ≡ some (change q c written).items
      → new codec (change q c written).file ≡ change q c written
  unfolding change enqueue remove mark_attempt
  new-change q (enqueued msg) h = reload-save_locked _ h
  new-change q (removed id) h = reload-save_locked _ h
  new-change q (attempted id) h = reload-save_locked _ h

  -- A change whose directory cannot be made, or whose messages cannot be encoded, leaves the file as
  -- it was: what is read again is the queue before the change. In memory the change is made.
  pub new-change_failed :
      (q : Queue) (c : Change) (o : Outcome)
      → ((o ≡ no_directory) ⊎ (o ≡ not_encoded))
      → ((change q c o).file ≡ q.file) × ((change q c o).items ≡ (change q c written).items)
  unfolding change enqueue remove mark_attempt save
  new-change_failed q (enqueued msg) o h = ground arith
  new-change_failed q (removed id) o h = ground arith
  new-change_failed q (attempted id) o h = ground arith
