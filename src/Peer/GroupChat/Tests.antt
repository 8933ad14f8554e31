-- ===== src/Peer/GroupChat/Tests.antt =====
-- Broadcasts, rooms and invites between small nodes.
use korik.Prelude.{
  [], arith, bytes, false, inl, none, refl, some, starts_with, str_eq, str_key, ◌++◌, ◌∷◌, ◌≡◌,
}
use korik.GoMap.{IsMap, get}
use korik.Storage.{Codec, written}
use korik.Envelope.{compress, decompress, decrypt, decrypt_session_body, encrypt, encrypt_for_send}
use korik.Group.{Room, Store, get_room, has_member, is_member, matches, scan}
use korik.Group.Members.{joined, with_members, without}
use korik.Peer.{
  Message, Node, PeerConn, allow_inbound, is_blocked_by, msg_group_invite, msg_group_leave, shows,
  shows_in_group,
}
use korik.Peer.Samples.{
  empty_node, node_with, open_primitives, open_primitives-IsSound, ready_conn, room_of,
  sample_codecs, sample_key, sample_message, sample_turn, store_of, twelve_bytes,
}
use korik.Peer.Broadcast.{Conns, Sent, broadcast_with_reply}
use korik.Peer.Broadcast.Reach.{arriving, broadcast-skips, handle_chat-broadcast, received}
use korik.Peer.GroupChat.{bare, leave_room, not_a_member, send_group}
use korik.Peer.GroupChat.Members.{handle_group_chat-send_group, send_group-outsiders}
use korik.Peer.GroupChat.Leaving.{handle_group_leave-anyone, leave_room-stays, send_group-prefix}
use korik.Peer.Inbound.{handle_chat, handle_group_chat, handle_group_leave}
use korik.Peer.Invites.{
  Invite, find_ready, handle_group_invite, invite_for, invite_to_room, invited_room, open_invite,
}
use korik.Peer.Invites.Joining.{handle_group_invite-invite_to_room, handle_group_invite-replaces}

program : Unit {0}
unfolding encrypt_for_send compress encrypt allow_inbound is_blocked_by received find_ready
    invite_for get str_eq has_member is_member get_room scan matches starts_with
    decrypt_session_body decrypt decompress open_invite
program = tt

abbrev ann_room : Room
ann_room = room_of (bytes "ann" ∷ bytes "bob" ∷ [])

abbrev ann : Node
ann = node_with (bytes "ann") ann_room

abbrev bob : Node
bob = node_with (bytes "bob") ann_room

abbrev to_bob : PeerConn
to_bob = ready_conn (bytes "bob")

abbrev to_ann : PeerConn
to_ann = ready_conn (bytes "ann")

-- Ann is connected to bob, who is a member of her room, and to eve, who is not.
abbrev conns : Conns
conns = (bytes "b", to_bob) ∷ (bytes "e", ready_conn (bytes "eve")) ∷ []

conns-IsMap : IsMap conns
unfolding program
conns-IsMap = (refl, (refl, tt))

broadcast-skips_test :
    received
      (broadcast_with_reply open_primitives ann
        ((bytes "b", record to_bob { session_key = none }) ∷ [])
        (bytes "hi")
        []
        (bytes "env-1")
        (λ addr. twelve_bytes))
      (bytes "b")
    ≡ []
unfolding program
broadcast-skips_test =
    broadcast-skips open_primitives ann (bytes "hi") [] (bytes "env-1") (λ addr. twelve_bytes)
      ((bytes "b", record to_bob { session_key = none }) ∷ []) (bytes "b")
      (record to_bob { session_key = none }) (refl, tt) refl (inl refl)

handle_chat-broadcast_example :
    (sent : Sent) × (received
        (broadcast_with_reply open_primitives ann conns
          (bytes "hi")
          []
          (bytes "env-1")
          (λ addr. twelve_bytes))
        (bytes "b")
      ≡ sent ∷ [])
    × ((handle_chat sample_codecs bob to_ann (arriving sent [] 1) sample_turn).1
        ≡ shows (bytes "env-1") (bytes "ann") (bytes "hi") ∷ [])
unfolding program
handle_chat-broadcast_example =
    handle_chat-broadcast sample_codecs open_primitives-IsSound ann bob (bytes "hi") []
      (bytes "env-1") (bytes "key") (λ addr. twelve_bytes) conns (bytes "b") to_bob to_ann [] 1
      sample_turn (twelve_bytes ++ bytes "hi", false) conns-IsMap refl refl refl refl refl
      (omega arith) refl refl refl

send_group-outsiders_example :
    received
      (send_group open_primitives ann conns
        (bytes "grp-12")
        (bytes "hi")
        []
        (bytes "env-1")
        twelve_bytes).0
      (bytes "e")
    ≡ []
unfolding program
send_group-outsiders_example =
    send_group-outsiders open_primitives ann conns (bytes "grp-12") (bytes "hi") [] (bytes "env-1")
      twelve_bytes (bytes "e") (store_of ann_room) ann_room (ready_conn (bytes "eve")) conns-IsMap
      refl refl refl (inl refl)

handle_group_chat-send_group_example :
    (sent : Sent) × (received
        (send_group open_primitives ann conns
          (bytes "grp-12")
          (bytes "hi")
          []
          (bytes "env-1")
          twelve_bytes).0
        (bytes "b")
      ≡ sent ∷ [])
    × ((handle_group_chat sample_codecs bob to_ann (arriving sent [] 1) sample_turn).1
        ≡ shows_in_group (bytes "env-1") (bytes "grp-12") (bytes "ann") (bytes "hi") ∷ [])
unfolding program
handle_group_chat-send_group_example =
    handle_group_chat-send_group sample_codecs open_primitives-IsSound ann bob conns (bytes "hi") []
      (bytes "env-1") twelve_bytes (bytes "b") (store_of ann_room) (store_of ann_room) ann_room
      ann_room to_bob to_ann [] 1 sample_turn (twelve_bytes ++ bytes "hi", false) conns-IsMap refl
      refl refl refl refl refl refl (omega arith) refl refl refl refl refl refl

send_group-prefix_test :
    send_group open_primitives ann conns
      (bytes "grp-1")
      (bytes "hi")
      []
      (bytes "env-1")
      twelve_bytes
    ≡ ([], some not_a_member)
unfolding program
send_group-prefix_test =
    send_group-prefix open_primitives ann conns (bytes "grp-1") (bytes "hi") [] (bytes "env-1")
      twelve_bytes (store_of ann_room) ann_room refl refl refl

leave_room-stays_test :
    let ((n', out), _) = leave_room sample_codecs.rooms ann conns (bytes "grp-12") written in
    (received out (bytes "e") ≡ bare ann msg_group_leave (bytes "grp-12") [] ∷ [])
    × ((s' : Store) × (n'.groups ≡ some s')
        × (is_member s' (bytes "grp-12") (bytes "ann") ≡ false)
        × (get s'.rooms (bytes "grp-12") ≡ some (with_members (without (bytes "ann")) ann_room)))
unfolding program
leave_room-stays_test =
    leave_room-stays sample_codecs.rooms ann conns (store_of ann_room) ann_room written (bytes "e")
      (ready_conn (bytes "eve")) conns-IsMap refl refl refl

-- Eve, who is in no room, sends that bob has left.
handle_group_leave-anyone_test :
    (s' : Store) × ((handle_group_leave sample_codecs ann
        (ready_conn (bytes "eve"))
        (sample_message msg_group_leave)
        sample_turn).0.groups
      ≡ some s')
    × (is_member s' (bytes "grp-12") (bytes "bob") ≡ false)
unfolding program
handle_group_leave-anyone_test =
    handle_group_leave-anyone sample_codecs ann (ready_conn (bytes "eve"))
      (sample_message msg_group_leave) sample_turn (store_of ann_room) ann_room refl refl refl

-- Every text decodes to the invite to the room.
abbrev invites : Codec Invite
invites = record { encode = λ i. []; decode = λ text. some (invite_for open_primitives ann_room) }

-- The body is a text of twelve bytes for the nonce.
abbrev invitation : Message
invitation = record (sample_message msg_group_invite) { body = twelve_bytes }

handle_group_invite-replaces_test :
    (s' : Store) × ((handle_group_invite sample_codecs invites bob to_ann invitation
        sample_turn).groups
      ≡ some s')
    × (get s'.rooms (bytes "grp-12")
        ≡ some (invited_room bob invitation (invite_for open_primitives ann_room) sample_key 7))
unfolding program
handle_group_invite-replaces_test =
    handle_group_invite-replaces sample_codecs invites bob to_ann invitation sample_turn
      (store_of ann_room) (invite_for open_primitives ann_room) sample_key refl refl refl refl refl

-- Carl is invited by ann.
abbrev carl : Node
carl = record (empty_node (bytes "carl")) { groups = some (record { rooms = []; file = none }) }

handle_group_invite-invite_to_room_example :
    (sent : Sent) × ((invite_to_room open_primitives invites sample_codecs.rooms ann conns
        (bytes "grp-12")
        (bytes "eve")
        twelve_bytes
        written).0.1
      ≡ (bytes "e", sent) ∷ [])
    × ((t' : Store) × ((handle_group_invite sample_codecs invites carl to_ann
            (arriving sent [] 1)
            sample_turn).groups
          ≡ some t')
        × (get t'.rooms (bytes "grp-12")
            ≡ some (record ann_room {
              creator = bytes "ann";
              members = joined (bytes "carl") ann_room.members;
              created_at = 7;
            })))
unfolding program
handle_group_invite-invite_to_room_example =
    handle_group_invite-invite_to_room sample_codecs open_primitives-IsSound invites ann carl conns
      (bytes "eve") twelve_bytes (bytes "e") (bytes "key") twelve_bytes [] 1 written sample_turn
      (store_of ann_room) (record { rooms = []; file = none }) ann_room to_ann refl refl refl refl
      refl refl (omega arith) refl refl refl refl refl
