-- ===== src/Peer/Invites/Joining.antt =====
-- An invite to a room on its way from one node to another, in internal/peer/node.go.
use korik.Prelude.{
  List, Option, Str, [], arith, false, length, some, str_eq, str_key, true, ℕ, ◌∷◌, ◌≡◌, ◌≤◌,
}
use korik.GoMap.{get, get-put}
use korik.Storage.{Codec, Outcome}
use korik.Group.{Room, Store}
use korik.Peer.{Codecs, Message, Node, PeerConn, Turn, allow_inbound, msg_group_invite}
use korik.Peer.Invites.{
  Invite, find_ready, handle_group_invite, invite_for, invite_ready, invite_to_room, invited_room,
  open_invite,
}
use korik.Envelope.Roundtrip.{IsSound, decrypt_session_body-encrypt}
use korik.Group.Members.{joined}
use korik.Peer.Broadcast.{Conns, Sent}
use korik.Peer.Broadcast.Reach.{arriving}
use korik.Peer.GroupChat.{bare}
use korik.Envelope.{encrypt, max_decompressed, nonce_size}
use korik.Group as Rooms

-- A room that is added stands in the store, in whatever way the write to disk ends.
get-add :
    (rooms : Codec (List (Option Room))) (s : Store) (room : Room) (o : Outcome)
    → str_eq room.id [] ≡ false
    → length room.key ≡ 32
    → get (Rooms.add rooms s (some room) o).0.rooms room.id ≡ some room
unfolding Rooms.add Rooms.save_locked
get-add rooms s room o h k =
    ground (arith, h, k, get-put s.rooms room.id room.id room, str_key.same_iff room.id room.id)

-- An invite that opens makes the room that it describes the room of that identifier, in whatever way
-- the write to disk ends and whatever room the node had under it: its key, its members and its
-- creator are those of the peer who sent the invite.
pub handle_group_invite-replaces :
    (c : Codecs) (invites : Codec Invite) (n : Node) (pc : PeerConn) (msg : Message) (t : Turn)
    (s : Store) (inner : Invite) (key : List ℕ)
    → n.groups ≡ some s
    → (allow_inbound n pc t.now).1 ≡ true
    → open_invite c invites pc msg ≡ some (inner, key)
    → length key ≡ 32
    → str_eq inner.group_id [] ≡ false
    → (s' : Store) × ((handle_group_invite c invites n pc msg t).groups ≡ some s')
      × (get s'.rooms inner.group_id ≡ some (invited_room n msg inner key t.now))
unfolding handle_group_invite allow_inbound invited_room
handle_group_invite-replaces c invites n pc msg t s inner key g allowed e size h =
    let room = invited_room n msg inner key t.now in
    (
      (Rooms.add c.rooms s (some room) t.groups_saved).0,
      ground (arith, g, allowed, e),
      get-add c.rooms s room t.groups_saved h size,
    )

-- A node that is invited to a room, over a session that both ends have the key of, and is within its
-- limit, has that room from then on: its identifier, its name, its key and its members, with the
-- node itself. The creator is the peer who sent the invite, whoever created the room. The invite is
-- the only message that the inviting node sends.
pub handle_group_invite-invite_to_room :
    (c : Codecs) (sound : IsSound c.primitives) (invites : Codec Invite) (n m : Node)
    (conns : Conns) (member_jid nonce addr key sealed device_id : Str) (seq : ℕ) (o : Outcome)
    (turn : Turn) (s t : Store) (room : Room) (back : PeerConn)
    → n.groups ≡ some s
    → Rooms.get_room s room.id ≡ some room
    → find_ready conns member_jid ≡ some (addr, key)
    → length nonce ≡ nonce_size
    → encrypt c.primitives key nonce (invites.encode (invite_for c.primitives room)) ≡ some sealed
    → invites.decode (invites.encode (invite_for c.primitives room))
      ≡ some (invite_for c.primitives room)
    → length (invites.encode (invite_for c.primitives room)) ≤ max_decompressed
    → length room.key ≡ 32
    → str_eq room.id [] ≡ false
    → m.groups ≡ some t
    → (allow_inbound m back turn.now).1 ≡ true
    → back.session_key ≡ some key
    → (sent : Sent) × ((invite_to_room c.primitives invites c.rooms n conns room.id member_jid nonce
          o).0.1
        ≡ (addr, sent) ∷ [])
      × ((t' : Store) × ((handle_group_invite c invites m back
              (arriving sent device_id seq)
              turn).groups
            ≡ some t')
          × (get t'.rooms room.id
              ≡ some (record room {
                creator = n.jid;
                members = joined m.jid room.members;
                created_at = turn.now;
              })))
unfolding invite_to_room invite_ready invited_room open_invite invite_for
handle_group_invite-invite_to_room c sound invites n m conns member_jid nonce addr key sealed
      device_id seq o turn s t room back g r ready size e coded fits k h g' allowed ready' =
    let p = c.primitives in
    let inner = invite_for p room in
    let sent = bare n msg_group_invite [] (p.encode64 sealed) in
    let msg = arriving sent device_id seq in
    let opened : open_invite c invites back msg ≡ some (inner, room.key) = ground (
      arith,
      open_invite,
      ready',
      k,
      h,
      coded,
      sound.base64_back room.key,
      decrypt_session_body-encrypt p sound key nonce (invites.encode inner) sealed size e fits,
    ) in
    (
      sent,
      ground (arith, g, r, ready, e),
      handle_group_invite-replaces c invites m back msg turn t inner room.key g' allowed opened k h,
    )
