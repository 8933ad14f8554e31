-- ===== src/Queue.antt =====
-- internal/queue/queue.go: the messages that wait for their peers. `format` is time.Time's method
-- Format at RFC3339Nano, and the codec is encoding/json at a list of messages.
pub mod Bounds
pub mod Persistence
pub mod Removal
mod Tests
use korik.Prelude.{
  List, Option, Str, [], bytes, drop, filterb, if◌then◌else◌, length, ltb, map, not, str_eq,
  str_key, ℕ, ◌++◌, ◌+◌, ◌-◌, ◌∷◌,
}
use korik.Storage.{Codec, Outcome, SaveError, absent, broken, found, load, save}

pub record OutgoingMessage : Type 0 where
  pub id : Str
  pub to_jid : Str
  pub body : Str
  pub created_at : ℕ
  pub attempts : ℕ

-- `file` is what stands at the queue's path.
pub record Queue : Type 0 where
  pub items : List OutgoingMessage
  pub file : Option Str

abbrev pub max_messages : ℕ
max_messages = 1000

unfoldable pub with_id : (ℕ → Str) → OutgoingMessage → OutgoingMessage
with_id format msg =
    if str_eq msg.id []
    then record msg { id = msg.to_jid ++ bytes ":" ++ format msg.created_at }
    else msg

-- if len(q.items) > MaxMessages { q.items = q.items[len(q.items)-MaxMessages:] }
unfoldable pub cap_messages : List OutgoingMessage → List OutgoingMessage
cap_messages items =
    if ltb max_messages (length items) then drop (length items - max_messages) items else items

module _ (codec : Codec (List OutgoingMessage)) where
  unfoldable pub new : Option Str → Queue
  new file = record {
    items = elim (load codec file) [ absent ↦ [] | broken ↦ [] | found items ↦ items ];
    file = file;
  }

  unfoldable pub save_locked : Queue → Outcome → Queue × Option SaveError
  save_locked q o =
      let (file, error) = save codec q.items o q.file in (record q { file = file }, error)

  unfoldable pub enqueue : (ℕ → Str) → Queue → OutgoingMessage → Outcome → Queue × Option SaveError
  unfolding save_locked
  enqueue format q msg o =
      save_locked (record q { items = cap_messages (q.items ++ with_id format msg ∷ []) }) o

  unfoldable pub remove : Queue → Str → Outcome → Queue × Option SaveError
  unfolding save_locked
  remove q id o = save_locked (record q { items = filterb (λ m. not (str_eq m.id id)) q.items }) o

  unfoldable pub mark_attempt : Queue → Str → Outcome → Queue
  unfolding save_locked
  mark_attempt q id o =
      (save_locked
        (record q {
          items =
              map (λ m. if str_eq m.id id then record m { attempts = m.attempts + 1 } else m)
                q.items;
        })
        o).0

unfoldable pub pending : Queue → List OutgoingMessage
pending q = q.items

unfoldable pub len : Queue → ℕ
len q = length q.items
