-- ===== src/Peer/GroupChat/Leaving.antt =====
-- Rooms by a prefix of their identifier, and who leaves a room, in internal/peer/node.go.
use korik.Prelude.{
  List, Option, Str, [], arith, false, none, refl, some, str_eq, str_eq_iff, str_key, ◌∷◌, ◌≡◌,
}
use korik.GoMap.{IsMap, get}
use korik.Storage.{Codec, Outcome}
use korik.Envelope.{Primitives}
use korik.Group.{Room, Store, get_room, is_member, remove_member}
use korik.Group.Members.{get-remove_member, has_member-filterb, with_members, without}
use korik.Peer.{Codecs, Message, Node, PeerConn, Turn, msg_group_leave}
use korik.Peer.Broadcast.{Conns, Sent}
use korik.Peer.Broadcast.Reach.{received}
use korik.Peer.GroupChat.{bare, leave_room, not_a_member, send_group, tell_all}
use korik.Peer.Inbound.{handle_group_leave}
use korik.Group as Rooms

-- `SendGroup` finds a room by a prefix of its identifier, and then asks under the prefix whether the
-- node is a member: a prefix that is not itself an identifier is refused, and nothing is sent,
-- whatever room it names and whoever its members are.
pub send_group-prefix :
    (p : Primitives) (n : Node) (conns : Conns) (prefix text reply_to envelope_id nonce : Str)
    (s : Store) (room : Room)
    → n.groups ≡ some s
    → Rooms.get_room s prefix ≡ some room
    → get s.rooms prefix ≡ none
    → send_group p n conns prefix text reply_to envelope_id nonce ≡ ([], some not_a_member)
unfolding send_group is_member
send_group-prefix p n conns prefix text reply_to envelope_id nonce s room g r h =
    ground (arith, g, r, h)

tell_all_absent :
    (conns : Conns) (sent : Sent) (addr : Str)
    → get conns addr ≡ none
    → received (tell_all conns sent) addr ≡ []
unfolding tell_all received get
tell_all_absent [] sent addr h = refl
tell_all_absent ((a, b) ∷ conns) sent addr h = ground (arith, h, tell_all_absent conns sent addr)

received-tell_all :
    (conns : Conns) (sent : Sent) (addr : Str) (pc : PeerConn)
    → IsMap conns
    → get conns addr ≡ some pc
    → received (tell_all conns sent) addr ≡ sent ∷ []
unfolding tell_all received get
received-tell_all [] sent addr pc d h = absurd (ground (arith, h))
received-tell_all ((a, b) ∷ conns) sent addr pc d h = ground (
  arith,
  h,
  d,
  str_key.same_iff a addr,
  tell_all_absent conns sent addr,
  received-tell_all conns sent addr pc d.1,
)

-- A node that leaves a room is not a member of it any more, in whatever way the write to disk ends;
-- the room stays in its store, with its key. Every connection is told, also those of peers who are
-- not members of the room.
pub leave_room-stays :
    (rooms : Codec (List (Option Room))) (n : Node) (conns : Conns) (s : Store) (room : Room)
    (o : Outcome) (addr : Str) (pc : PeerConn)
    → IsMap conns
    → n.groups ≡ some s
    → get s.rooms room.id ≡ some room
    → get conns addr ≡ some pc
    → let ((n', out), _) = leave_room rooms n conns room.id o in
      (received out addr ≡ bare n msg_group_leave room.id [] ∷ [])
      × ((s' : Store) × (n'.groups ≡ some s')
          × (is_member s' room.id n.jid ≡ false)
          × (get s'.rooms room.id ≡ some (with_members (without n.jid) room)))
unfolding leave_room get_room is_member
leave_room-stays rooms n conns s room o addr pc d g r there =
    let s' = (remove_member rooms s room.id n.jid o).0 in
    let after : get s'.rooms room.id ≡ some (with_members (without n.jid) room) =
      ground
        (arith, r, get-remove_member rooms s room.id n.jid room.id o, str_eq_iff room.id room.id) in
    (
      ground (
        arith,
        g,
        r,
        received-tell_all conns (bare n msg_group_leave room.id []) addr pc d there,
      ),
      (
        s',
        ground (arith, g, r),
        ground (arith, after, has_member-filterb room.members n.jid n.jid, str_eq_iff n.jid n.jid),
        after,
      ),
    )

-- Whoever sends a departure, it takes effect for the member that it names: a peer that is connected
-- removes any member from any room of the node, without being a member of it, or the one who leaves.
pub handle_group_leave-anyone :
    (c : Codecs) (n : Node) (pc : PeerConn) (msg : Message) (t : Turn) (s : Store) (room : Room)
    → n.groups ≡ some s
    → get s.rooms msg.group_id ≡ some room
    → str_eq msg.group_id [] ≡ false
    → (s' : Store) × ((handle_group_leave c n pc msg t).0.groups ≡ some s')
      × (is_member s' msg.group_id msg.jid ≡ false)
unfolding handle_group_leave is_member
handle_group_leave-anyone c n pc msg t s room g r h = (
  (remove_member c.rooms s msg.group_id msg.jid t.groups_saved).0,
  ground (arith, g, h),
  ground (
    arith,
    r,
    get-remove_member c.rooms s msg.group_id msg.jid msg.group_id t.groups_saved,
    str_eq_iff msg.group_id msg.group_id,
    has_member-filterb room.members msg.jid msg.jid,
    str_eq_iff msg.jid msg.jid,
  ),
)
