-- ===== src/Peer/Inbound.antt =====
-- `handleMessage` of internal/peer/node.go: the cases for chat, rooms, missed messages and signs of
-- life, behind the switch that drops what was seen.
use korik.Prelude.{
  List, Option, Str, [], bytes, if◌then◌else◌, none, not, some, str_eq, str_key, ◌∷◌,
}
use korik.GoMap.{put}
use korik.Envelope.{decrypt_session_body}
use korik.History.{ChatMessage}
use korik.Group.{Room}
use korik.Peer.{
  Codecs, Event, Message, MsgType, Node, PeerConn, Turn, accepts, allow_inbound, both_members,
  is_blocked_by, msg_chat, msg_group_chat, msg_group_leave, msg_heartbeat, msg_ping, msg_sync_data,
  shows, shows_in_group,
}
use korik.Contacts as Book
use korik.History as Log
use korik.Group as Rooms

module _ (c : Codecs) where
  unfoldable pub count_message : Node → Str → Turn → Node
  count_message n jid t = elim n.contact_book [
    | none ↦ n
    | some cb ↦ record n {
      contact_book = some (Book.increment_message_count c.books cb jid t.book_saved);
    }
  ]

  -- n.History.Add for a message that was received
  unfoldable pub remember : Node → PeerConn → Message → Str → Str → Turn → Node
  remember n pc msg group_id text t = elim n.history [
    | none ↦ n
    | some h ↦
        let m : ChatMessage = record {
          id = msg.id;
          sender = pc.name;
          jid = pc.jid;
          lid = pc.lid;
          sender_device = msg.device_id;
          seq = msg.seq;
          group_id = group_id;
          reply_to = msg.reply_to;
          body = text;
          timestamp = t.now;
          direction = bytes "received";
          expires_at = 0;
        } in
        record n { history = some (Log.add c.histories h m t.now t.history_saved).0 }
  ]

  -- case MsgChat
  unfoldable pub handle_chat : Node → PeerConn → Message → Turn → Node × List Event
  unfolding count_message remember allow_inbound
  handle_chat n pc msg t =
      let (n', ok) = allow_inbound n pc t.now in
      if not ok then (n', []) else elim pc.session_key [
        | none ↦ (n', [])
        | some key ↦
            if is_blocked_by n'.contact_book pc.jid
            then (n', [])
            else elim (decrypt_session_body c.primitives (some key) msg.body msg.compressed) [
              | none ↦ (n', [])
              | some text ↦ (
                remember (count_message n' pc.jid t) pc msg [] text t,
                shows msg.id pc.jid text ∷ [],
              )
            ]
      ]

  unfoldable pub handle_sync_data : Node → PeerConn → Message → Turn → Node × List Event
  unfolding remember
  handle_sync_data n pc msg t =
      elim (decrypt_session_body c.primitives pc.session_key msg.body msg.compressed) [
        | none ↦ (n, [])
        | some text ↦ (remember n pc msg [] text t, shows msg.id pc.jid text ∷ [])
      ]

  -- from the room on
  unfoldable pub open_group_chat : Node → PeerConn → Message → Turn → Room → Node × List Event
  unfolding count_message remember
  open_group_chat n pc msg t room =
      elim (decrypt_session_body c.primitives (some room.key) msg.body msg.compressed) [
        | none ↦ (n, [])
        | some text ↦ (
          remember (count_message n pc.jid t) pc msg msg.group_id text t,
          shows_in_group msg.id msg.group_id pc.jid text ∷ [],
        )
      ]

  unfoldable pub handle_group_chat : Node → PeerConn → Message → Turn → Node × List Event
  unfolding open_group_chat allow_inbound
  handle_group_chat n pc msg t =
      let (n', ok) = allow_inbound n pc t.now in
      if not ok then (n', []) else elim n'.groups [
        | none ↦ (n', [])
        | some s ↦
            if str_eq msg.group_id [] then (n', []) else elim (Rooms.get_room s msg.group_id) [
              | none ↦ (n', [])
              | some room ↦
                  if not (both_members s msg.group_id pc.jid n'.jid)
                  then (n', [])
                  else open_group_chat n' pc msg t room
            ]
      ]

  -- case MsgGroupLeave
  unfoldable pub handle_group_leave : Node → PeerConn → Message → Turn → Node × List Event
  handle_group_leave n pc msg t = if str_eq msg.group_id [] then (n, []) else elim n.groups [
    | none ↦ (n, [])
    | some s ↦ (
      record n {
        groups = some (Rooms.remove_member c.rooms s msg.group_id msg.jid t.groups_saved).0;
      },
      [],
    )
  ]

  -- case MsgPing, MsgHeartbeat
  unfoldable pub handle_heartbeat : Node → PeerConn → Message → Turn → Node × List Event
  handle_heartbeat n pc msg t =
      if not (str_eq pc.jid [])
      then (record n { last_beat = put n.last_beat pc.jid t.now }, [])
      else (n, [])

-- The second switch of `handleMessage`, for the cases above.
pub data Handler : Type 0 where
  chats group_chats syncs leaves beats : Handler

unfoldable pub handle : Codecs → Handler → Node → PeerConn → Message → Turn → Node × List Event
handle c chats = handle_chat c
handle c group_chats = handle_group_chat c
handle c syncs = handle_sync_data c
handle c leaves = handle_group_leave c
handle c beats = handle_heartbeat c

-- Which of these cases a kind of message has; `none` is another case of the switch.
unfoldable pub handler_of : MsgType → Option Handler
handler_of msg_chat = some chats
handler_of msg_group_chat = some group_chats
handler_of msg_sync_data = some syncs
handler_of msg_group_leave = some leaves
handler_of msg_ping = some beats
handler_of msg_heartbeat = some beats
handler_of _ = none

-- Both switches, for a message whose case is `h`. The case of a kind is the one that `handler_of` gives;
-- what is stated for every `h` is stated for it.
unfoldable pub handle_message :
    Codecs → Handler → Node → PeerConn → Message → Turn → Node × List Event
unfolding accepts handle
handle_message c h n pc msg t =
    let (n', fresh) = accepts n msg t.now in
    let done = handle c h n' pc msg t in if not fresh then (n', []) else done
