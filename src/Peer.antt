-- ===== src/Peer.antt =====
-- internal/peer/node.go: what a node does with the messages that arrive on a connection. Only what
-- the node keeps and what its callbacks are told is modelled; the lines on the console are not.
use korik.Prelude.{
  Bool, List, Option, Str, [], bytes, false, if◌then◌else◌, int_key, none, not, some, str_eq,
  str_key, true, ℕ, ℤ, ◌&&◌, ◌++◌,
}
use korik.GoMap.{Map}
use korik.Storage.{Codec, Outcome}
use korik.Envelope.{Primitives}
use korik.Dedup.{Seen}
use korik.RateLimit.Limiter.{Limiter}
use korik.Contacts.{Contact, ContactBook}
use korik.History.{ChatMessage, History}
use korik.Group.{Room, Store}
use korik.Dedup as Dedup
use korik.RateLimit.Limiter as Limits
use korik.Contacts as Book
use korik.History as Log
use korik.Group as Rooms
pub mod Inbound
pub mod Replay
pub mod Once
pub mod Blocked
pub mod Sync
pub mod Outbox
pub mod Flush
pub mod Samples
pub mod Rekey
pub mod Hello
pub mod Files
pub mod Connect
pub mod Discovery
pub mod Traversal
pub mod Broadcast
pub mod GroupChat
pub mod Invites
mod Tests

pub data MsgType : Type 0 where
  msg_hello msg_chat msg_ping msg_heartbeat msg_typing msg_read_receipt msg_rekey : MsgType
  msg_file_offer msg_file_accept msg_file_reject msg_file_chunk msg_file_complete
        msg_chunk_request :
      MsgType
  msg_group_invite msg_group_chat msg_group_leave msg_sync_request msg_sync_data : MsgType

-- the fields that the handlers below read
pub record Message : Type 0 where
  pub kind : MsgType
  pub id : Str
  pub seq : ℕ
  pub jid : Str
  pub device_id : Str
  pub body : Str
  pub group_id : Str
  pub reply_to : Str
  pub compressed : Bool
  pub sync_since : ℤ

pub record PeerConn : Type 0 where
  pub name : Str
  pub jid : Str
  pub lid : Str
  pub device_id : Str
  pub addr : Str
  pub session_key : Option Str

-- A part that is not wired is `none`.
pub record Node : Type 0 where
  pub jid : Str
  pub seen : Option Seen
  pub limiter : Option Limiter
  pub contact_book : Option ContactBook
  pub history : Option History
  pub groups : Option Store
  pub last_beat : Map Str ℕ

-- What OnChat and OnGroupChat are told, with the identifier of the message.
pub data Event : Type 0 where
  shows : Str → Str → Str → Event
  shows_in_group : Str → Str → Str → Str → Event

-- The time of a call, and the outcomes of the writes in it.
pub record Turn : Type 0 where
  pub now : ℕ
  pub book_saved : Outcome
  pub history_saved : Outcome
  pub groups_saved : Outcome

pub record Codecs : Type 0 where
  pub primitives : Primitives
  pub books : Codec (List Contact)
  pub histories : Codec (List ChatMessage)
  pub rooms : Codec (List (Option Room))

unfoldable pub rate_key : PeerConn → Str
rate_key pc = if not (str_eq pc.jid []) then bytes "jid:" ++ pc.jid else bytes "addr:" ++ pc.addr

unfoldable pub allow_inbound : Node → PeerConn → ℕ → Node × Bool
allow_inbound n pc now = elim n.limiter [
  | none ↦ (n, true)
  | some l ↦ let (l', ok) = Limits.allow l (rate_key pc) now in (record n { limiter = some l' }, ok)
]

-- the two cases of the first switch of `handleMessage`
unfoldable pub is_deduplicated : MsgType → Bool
is_deduplicated msg_hello = false
is_deduplicated msg_ping = false
is_deduplicated msg_heartbeat = false
is_deduplicated msg_typing = false
is_deduplicated _ = true

-- The first switch of `handleMessage`: may the message be processed?
unfoldable pub accepts : Node → Message → ℕ → Node × Bool
unfolding is_deduplicated
accepts n msg now =
    if is_deduplicated msg.kind && not (str_eq msg.id [])
    then elim n.seen [
      | none ↦ (n, true)
      | some s ↦ let (s', fresh) = Dedup.add s msg.id now in (record n { seen = some s' }, fresh)
    ]
    else (n, true)

unfoldable pub is_blocked_by : Option ContactBook → Str → Bool
is_blocked_by none jid = false
is_blocked_by (some cb) jid = Book.is_blocked cb jid

-- n.Groups.IsMember(msg.GroupID, jid)
abbrev pub both_members : Store → Str → Str → Str → Bool
both_members s group_id peer self =
    Rooms.is_member s group_id peer && Rooms.is_member s group_id self
