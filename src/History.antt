-- ===== src/History.antt =====
-- internal/history/history.go: the stored chat history. A time is a number of nanoseconds, 0 is the
-- zero time; the codec is encoding/json at a list of messages.
pub mod Window
pub mod Reading
pub mod Lookup
pub mod TailLoss
mod Tests
use korik.Prelude.{
  Bool, List, Option, Str, [], drop, filterb, if◌then◌else◌, leb, leb_ℤ, length, ltb, ltb_ℤ, none,
  not, pos, pos_part, some, starts_with, str_eq, take, ℕ, ℤ, ◌&&◌, ◌*◌, ◌++◌, ◌+◌, ◌-◌, ◌||◌, ◌∷◌,
  ◌≟◌,
}
use korik.Storage.{Codec, Outcome, SaveError, absent, broken, found, load, save}

pub record ChatMessage : Type 0 where
  pub id : Str
  pub sender : Str
  pub jid : Str
  pub lid : Str
  pub sender_device : Str
  pub seq : ℕ
  pub group_id : Str
  pub reply_to : Str
  pub body : Str
  pub timestamp : ℕ
  pub direction : Str
  pub expires_at : ℕ

-- `file` is what stands at the history's path.
pub record History : Type 0 where
  pub max_size : ℤ
  pub messages : List ChatMessage
  pub ttl : ℤ
  pub total_stored : ℕ
  pub tail_only : Bool
  pub file : Option Str

-- !m.ExpiresAt.IsZero() && now.After(m.ExpiresAt)
abbrev pub expired : ℕ → ChatMessage → Bool
expired now m = not (m.expires_at ≟ 0) && ltb m.expires_at now

unfoldable pub prune_expired_locked : ℕ → List ChatMessage → List ChatMessage
prune_expired_locked now = filterb (λ m. not (expired now m))

-- if h.totalStored < len(h.messages) { h.totalStored = len(h.messages) }
abbrev pub at_least : ℕ → ℕ → ℕ
at_least total size = if ltb total size then size else total

-- The part of `Add` that trims what exceeds the maximum.
unfoldable pub trim : History → History
trim h =
    let size = length h.messages in
    let max = pos_part h.max_size in
    let dropped = size - max in
    if ltb_ℤ (pos 0) h.max_size && ltb max size
    then record h {
      messages = drop dropped h.messages;
      total_stored = at_least (h.total_stored - dropped) (length (drop dropped h.messages));
    }
    else h

abbrev pub with_expiry : ℤ → ℕ → ChatMessage → ChatMessage
with_expiry ttl now msg =
    if ltb_ℤ (pos 0) ttl && (msg.expires_at ≟ 0)
    then record msg { expires_at = now + pos_part ttl }
    else msg

-- `Add` up to the trimming: the message is appended, and what has expired is dropped.
unfoldable pub append_pruned : History → ChatMessage → ℕ → History
unfolding prune_expired_locked
append_pruned h msg now = record h {
  messages = prune_expired_locked now (h.messages ++ with_expiry h.ttl now msg ∷ []);
  total_stored = h.total_stored + 1;
}

-- The history that `NewWithTail` returns once its messages are loaded.
unfoldable pub opened : Option Str → ℤ → ℤ → List ChatMessage → ℕ → History
opened file max_size tail_limit messages total =
    let limit = pos_part tail_limit in
    let long = ltb_ℤ (pos 0) tail_limit && ltb limit (length messages) in
    record {
      max_size = max_size;
      messages = if long then drop (length messages - limit) messages else messages;
      ttl = pos 0;
      total_stored = total;
      tail_only = long;
      file = file;
    }

module _ (codec : Codec (List ChatMessage)) where
  -- `load` and its caller: `none` is the error that `New` returns
  unfoldable pub new_with_tail : Option Str → ℤ → ℤ → ℕ → Option History
  unfolding prune_expired_locked opened
  new_with_tail file max_size tail_limit now = elim (load codec file) [
    | absent ↦ some (opened file max_size tail_limit [] 0)
    | broken ↦ none
    | found messages ↦
        some (opened file max_size tail_limit (prune_expired_locked now messages) (length messages))
  ]

  unfoldable pub new : Option Str → ℤ → ℕ → Option History
  unfolding new_with_tail
  new file max_size now = new_with_tail file max_size (pos 0) now

  unfoldable pub save_history : History → Outcome → History × Option SaveError
  save_history h o =
      let (file, error) = save codec h.messages o h.file in (record h { file = file }, error)

  unfoldable pub add : History → ChatMessage → ℕ → Outcome → History × Option SaveError
  unfolding append_pruned trim save_history
  add h msg now o = save_history (trim (append_pruned h msg now)) o

  unfoldable pub prune_expired : History → ℕ → Outcome → History × ℕ
  unfolding prune_expired_locked save_history
  prune_expired h now o =
      let kept = prune_expired_locked now h.messages in
      let removed = length h.messages - length kept in
      if ltb 0 removed
      then (
        (save_history
            (record h {
              messages = kept;
              total_stored = at_least (h.total_stored - removed) (length kept);
            })
            o).0,
        removed,
      )
      else (record h { messages = kept }, removed)

  unfoldable pub clear : History → Outcome → History × Option SaveError
  unfolding save_history
  clear h o = save_history (record h { messages = []; total_stored = 0 }) o

  unfoldable pub load_older : History → ℤ → ℤ → List ChatMessage
  load_older h offset limit = elim (load codec h.file) [
    | absent ↦ []
    | broken ↦ []
    | found stored ↦
        let start = pos_part offset in
        let count = pos_part limit in
        if leb (length stored) start || leb_ℤ limit (pos 0)
        then []
        else (let stop =
              if ltb (length stored) (start + count) then length stored else start + count in
            take (stop - start) (drop start stored))
  ]

unfoldable pub set_ttl : History → ℤ → History
set_ttl h ttl = record h { ttl = ttl }

unfoldable pub get_all : History → List ChatMessage
get_all h = h.messages

unfoldable pub get_last : History → ℤ → List ChatMessage
get_last h n =
    let size = length h.messages in
    if leb_ℤ n (pos 0) || (size ≟ 0)
    then []
    else (let start = if ltb (pos_part n) size then size - pos_part n else 0 in
        drop start h.messages)

unfoldable pub get_since : History → ℕ → List ChatMessage
get_since h since = filterb (λ m. ltb since m.timestamp) h.messages

unfoldable pub get_page : History → ℤ → ℤ → List ChatMessage
get_page h page page_size =
    let size = length h.messages in
    let start = pos_part page * pos_part page_size in
    let stop = start + pos_part page_size in
    if leb_ℤ page_size (pos 0) || ltb_ℤ page (pos 0) || (size ≟ 0)
    then []
    else if leb size start
    then []
    else take ((if ltb size stop then size else stop) - start) (drop start h.messages)

-- the loop of `FindByIDPrefix`, with its variable `match`
unfoldable pub find_from : Str → Option ChatMessage → List ChatMessage → Option ChatMessage
find_from prefix match [] = match
find_from prefix match (m ∷ rest) =
    let first = find_from prefix (some m) rest in
    let skip = find_from prefix match rest in
    if str_eq m.id prefix
    then some m
    else if not (str_eq prefix []) && starts_with m.id prefix
    then elim match [ some _ ↦ none | none ↦ first ]
    else skip

unfoldable pub find_by_id_prefix : History → Str → Option ChatMessage
unfolding find_from
find_by_id_prefix h prefix = find_from prefix none h.messages

unfoldable pub total_stored : History → ℕ
total_stored h = if h.tail_only then h.total_stored else length h.messages
