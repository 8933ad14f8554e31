-- ===== src/Peer/GroupChat.antt =====
-- The rooms of a node, in internal/peer/node.go: `CreateRoom`, `SendGroup` and `LeaveRoom`. `nonce`
-- is what an encryption draws.
pub mod Members
pub mod Leaving
mod Tests
use korik.Prelude.{
  Bool, List, Option, Str, [], false, if◌then◌else◌, none, not, some, str_eq, ℕ, ◌>>=◌, ◌||◌, ◌∷◌,
}
use korik.Storage.{Codec, Outcome}
use korik.Envelope.{Primitives, compress, encrypt}
use korik.Group.{GroupError, Room, has_member}
use korik.Peer.{MsgType, Node, msg_group_chat, msg_group_leave}
use korik.Peer.Broadcast.{Conns, Output, Sent}
use korik.Group as Rooms

pub data RoomError : Type 0 where
  no_group_store unknown_group not_a_member no_member_online : RoomError
  member_not_ready no_payload : RoomError
  from_store : GroupError → RoomError

-- the loop of `SendGroup`
unfoldable pub send_to_members : Str → List Str → Sent → Conns → Output
send_to_members self members sent [] = []
send_to_members self members sent ((addr, pc) ∷ conns) =
    let rest = send_to_members self members sent conns in
    if not (has_member members pc.jid) || str_eq pc.jid self
    then rest
    else elim pc.session_key [ none ↦ rest | some _ ↦ (addr, sent) ∷ rest ]

unfoldable pub group_chat_for : Node → Str → Str → Str → Str × Bool → Sent
group_chat_for n group_id envelope_id reply_to (body, compressed) = record {
  kind = msg_group_chat;
  id = envelope_id;
  jid = n.jid;
  group_id = group_id;
  reply_to = reply_to;
  body = body;
  compressed = compressed;
}

module _ (p : Primitives) where
  unfoldable pub seal_for_room : Room → Str → Str → Option (Str × Bool)
  seal_for_room room nonce text = do
    (payload, compressed) ← compress p text
    sealed ← encrypt p room.key nonce payload
    some (p.encode64 sealed, compressed)

  unfoldable pub send_group : Node → Conns → Str → Str → Str → Str → Str → Output × Option RoomError
  unfolding send_to_members seal_for_room group_chat_for
  send_group n conns room_id text reply_to envelope_id nonce = elim n.groups [
    | none ↦ ([], some no_group_store)
    | some s ↦ elim (Rooms.get_room s room_id) [
      | none ↦ ([], some unknown_group)
      | some room ↦
          if not (Rooms.is_member s room_id n.jid)
          then ([], some not_a_member)
          else elim (seal_for_room room nonce text) [
            | none ↦ ([], some no_payload)
            | some sealed ↦
                let sent = group_chat_for n room.id envelope_id reply_to sealed in
                let out = send_to_members n.jid room.members sent conns in
                (out, elim out [ [] ↦ some no_member_online | _ ∷ _ ↦ none ])
          ]
    ]
  ]

abbrev pub bare : Node → MsgType → Str → Str → Sent
bare n kind group_id body = record {
  kind = kind;
  id = [];
  jid = n.jid;
  group_id = group_id;
  reply_to = [];
  body = body;
  compressed = false;
}

-- the loop of `LeaveRoom`
unfoldable pub tell_all : Conns → Sent → Output
tell_all [] sent = []
tell_all ((addr, _) ∷ conns) sent = (addr, sent) ∷ tell_all conns sent

unfoldable pub leave_room :
    Codec (List (Option Room)) → Node → Conns → Str → Outcome → (Node × Output) × Option RoomError
unfolding tell_all
leave_room rooms n conns room_id o = elim n.groups [
  | none ↦ ((n, []), some no_group_store)
  | some s ↦ elim (Rooms.get_room s room_id) [
    | none ↦ ((n, []), some unknown_group)
    | some room ↦ (
      (
        record n { groups = some (Rooms.remove_member rooms s room.id n.jid o).0 },
        tell_all conns (bare n msg_group_leave room.id []),
      ),
      none,
    )
  ]
]

-- `CreateRoom`
unfoldable pub create_room :
    Codec (List (Option Room))
    → Node
    → Str
    → Option (List ℕ)
    → Option (List ℕ)
    → ℕ
    → Outcome
    → Node × Option Room × Option RoomError
create_room rooms n name key id_bytes now o = elim n.groups [
  | none ↦ (n, none, some no_group_store)
  | some s ↦
      let (s', room, error) = Rooms.create rooms s name n.jid key id_bytes now o in
      (
        record n { groups = some s' },
        room,
        elim error [ none ↦ none | some e ↦ some (from_store e) ],
      )
]
