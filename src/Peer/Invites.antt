-- ===== src/Peer/Invites.antt =====
-- Invites to rooms, in internal/peer/node.go: `InviteToRoom`, `RekeyRoom` and `handleGroupInvite`.
-- `nonce` is what an encryption draws; the encoding of an invite does not fail.
pub mod Joining
use korik.Prelude.{
  List, Option, Str, [], if◌then◌else◌, length, none, not, some, str_eq, ℕ, ◌++◌, ◌>>=◌, ◌||◌, ◌∷◌,
  ◌≟◌,
}
use korik.Storage.{Codec, Outcome}
use korik.Envelope.{Primitives, decrypt_session_body, encrypt}
use korik.Group.{Room, Store, has_member}
use korik.Peer.{Codecs, Message, Node, PeerConn, Turn, allow_inbound, msg_group_invite}
use korik.Peer.Broadcast.{Conns, Output}
use korik.Peer.GroupChat.{
  RoomError, bare, from_store, member_not_ready, no_group_store, no_payload, unknown_group,
}
use korik.Group as Rooms

pub record Invite : Type 0 where
  pub group_id : Str
  pub group_name : Str
  pub group_key : Str
  pub members : List Str

-- the range of `InviteToRoom`: the address and the session key
unfoldable pub find_ready : Conns → Str → Option (Str × Str)
find_ready [] jid = none
find_ready ((addr, pc) ∷ conns) jid =
    let rest = find_ready conns jid in
    if str_eq pc.jid jid
    then elim pc.session_key [ none ↦ rest | some key ↦ some (addr, key) ]
    else rest

unfoldable pub invite_for : Primitives → Room → Invite
invite_for p room = record {
  group_id = room.id;
  group_name = room.name;
  group_key = p.encode64 room.key;
  members = room.members;
}

module _ (p : Primitives) (invites : Codec Invite) (rooms : Codec (List (Option Room))) where
  -- from the room and the connection on; the encoding of an invite does not fail
  unfoldable pub invite_ready :
      Node → Store → Room → Str → Str → Str → Str → Outcome → (Node × Output) × Option RoomError
  unfolding invite_for
  invite_ready n s room member_jid addr key nonce o =
      elim (encrypt p key nonce (invites.encode (invite_for p room))) [
        | none ↦ ((n, []), some no_payload)
        | some sealed ↦ (
          (
            record n { groups = some (Rooms.add_member rooms s room.id member_jid o).0 },
            (addr, bare n msg_group_invite [] (p.encode64 sealed)) ∷ [],
          ),
          none,
        )
      ]

  unfoldable pub invite_to_room :
      Node → Conns → Str → Str → Str → Outcome → (Node × Output) × Option RoomError
  unfolding find_ready invite_ready
  invite_to_room n conns room_id member_jid nonce o = elim n.groups [
    | none ↦ ((n, []), some no_group_store)
    | some s ↦ elim (Rooms.get_room s room_id) [
      | none ↦ ((n, []), some unknown_group)
      | some room ↦ elim (find_ready conns member_jid) [
        | none ↦ ((n, []), some member_not_ready)
        | some (addr, key) ↦ invite_ready n s room member_jid addr key nonce o
      ]
    ]
  ]

  -- the loop of `RekeyRoom`, with the nonce for each member
  unfoldable pub invite_members :
      Node → Conns → Str → List Str → (Str → Str) → Outcome → Node × Output
  unfolding invite_to_room
  invite_members n conns room_id [] draw o = (n, [])
  invite_members n conns room_id (m ∷ members) draw o =
      let skipped = invite_members n conns room_id members draw o in
      let ((n', out), _) = invite_to_room n conns room_id m (draw m) o in
      let (n'', rest) = invite_members n' conns room_id members draw o in
      if str_eq m n.jid then skipped else (n'', out ++ rest)

  unfoldable pub rekey_room :
      Node
      → Conns
      → Str
      → Option (List ℕ)
      → (Str → Str)
      → Outcome
      → (Node × Output) × Option RoomError
  unfolding invite_members
  rekey_room n conns room_id key draw o = elim n.groups [
    | none ↦ ((n, []), some no_group_store)
    | some s ↦
        let (s', rekeyed, error) = Rooms.rekey rooms s room_id key o in
        let n' = record n { groups = some s' } in
        elim error [
          | some e ↦ ((n', []), some (from_store e))
          | none ↦ elim rekeyed [
            | none ↦ ((n', []), none)
            | some room ↦ (invite_members n' conns room.id room.members draw o, none)
          ]
        ]
  ]

-- the room that `handleGroupInvite` builds, whose loop looks for the node itself
unfoldable pub invited_room : Node → Message → Invite → List ℕ → ℕ → Room
invited_room n msg inner key now = record {
  id = inner.group_id;
  name = inner.group_name;
  creator = msg.jid;
  key = key;
  members = if has_member inner.members n.jid then inner.members else inner.members ++ n.jid ∷ [];
  created_at = now;
}

module _ (c : Codecs) (invites : Codec Invite) where
  -- json.Unmarshal and the checks of the invite: the invite and its key
  unfoldable pub open_invite : PeerConn → Message → Option (Invite × List ℕ)
  open_invite pc msg = do
    text ← decrypt_session_body c.primitives pc.session_key msg.body msg.compressed
    inner ← invites.decode text
    key ← c.primitives.decode64 inner.group_key
    if not (length key ≟ 32) || str_eq inner.group_id [] then none else some (inner, key)

  unfoldable pub handle_group_invite : Node → PeerConn → Message → Turn → Node
  unfolding open_invite invited_room allow_inbound
  handle_group_invite n pc msg t =
      let (n', ok) = allow_inbound n pc t.now in
      if not ok then n' else elim n'.groups [
        | none ↦ n'
        | some s ↦ elim (open_invite pc msg) [
          | none ↦ n'
          | some (inner, key) ↦ record n' {
            groups =
                some
                  (Rooms.add c.rooms s (some (invited_room n' msg inner key t.now))
                    t.groups_saved).0;
          }
        ]
      ]
