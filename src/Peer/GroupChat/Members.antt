-- ===== src/Peer/GroupChat/Members.antt =====
-- Who gets a message for a room and who shows it, in internal/peer/node.go: `SendGroup` and
-- `handleGroupChat`.
use korik.Prelude.{
  Bool, Option-cases, Str, [], arith, false, if◌then◌else◌, inl, inr, length, none, not, refl, some,
  str_eq, str_key, true, ℕ, ◌&&◌, ◌∷◌, ◌≡◌, ◌≤◌, ◌⊎◌,
}
use korik.GoMap.{IsMap, get}
use korik.Envelope.{Primitives, compress, encrypt, encrypt_for_send, max_decompressed, nonce_size}
use korik.Group.{Room, Store, has_member}
use korik.Peer.{Codecs, Node, PeerConn, Turn, allow_inbound, both_members, shows_in_group}
use korik.Peer.Broadcast.{Conns, Sent}
use korik.Peer.Broadcast.Reach.{arriving, received}
use korik.Peer.GroupChat.{group_chat_for, seal_for_room, send_group, send_to_members}
use korik.Peer.Inbound.{handle_group_chat, open_group_chat}
use korik.Envelope.Roundtrip.{IsSound, decrypt-encrypt_for_send}
use korik.Group as Rooms

-- Is this connection one that `SendGroup` writes to?
abbrev pub is_recipient : Str → Room → PeerConn → Bool
is_recipient self room pc =
    has_member room.members pc.jid
    && not (str_eq pc.jid self)
    && elim pc.session_key [ none ↦ false | some _ ↦ true ]

module _ (self : Str) (room : Room) (sent : Sent) where
  members_absent :
      (conns : Conns) (addr : Str)
      → get conns addr ≡ none
      → received (send_to_members self room.members sent conns) addr ≡ []
  unfolding send_to_members received get
  members_absent [] addr h = refl
  members_absent ((a, pc) ∷ conns) addr h = ground (arith, h, members_absent conns addr)

  received-members :
      (conns : Conns) (addr : Str) (pc : PeerConn)
      → IsMap conns
      → get conns addr ≡ some pc
      → received (send_to_members self room.members sent conns) addr
        ≡ (if is_recipient self room pc then sent ∷ [] else [])
  unfolding send_to_members received get
  received-members [] addr pc d h = absurd (ground (arith, h))
  received-members ((a, b) ∷ conns) addr pc d h = ground (
    arith,
    h,
    d,
    str_key.same_iff a addr,
    members_absent conns addr,
    received-members conns addr pc d.1,
  )

-- A message for a room goes to no connection of a peer who is not a member of it, whatever else is
-- connected, and to none that has no session key.
pub send_group-outsiders :
    (p : Primitives) (n : Node) (conns : Conns) (room_id text reply_to envelope_id nonce addr : Str)
    (s : Store) (room : Room) (pc : PeerConn)
    → IsMap conns
    → n.groups ≡ some s
    → Rooms.get_room s room_id ≡ some room
    → get conns addr ≡ some pc
    → (has_member room.members pc.jid ≡ false) ⊎ (pc.session_key ≡ none)
    → received (send_group p n conns room_id text reply_to envelope_id nonce).0 addr ≡ []
unfolding send_group received
send_group-outsiders p n conns room_id text reply_to envelope_id nonce addr s room pc d g r there
      out =
    elim (Option-cases (seal_for_room p room nonce text)) [
      | inl failed ↦ ground (arith, g, r, failed)
      | inr (sealed, done) ↦
          let sent = group_chat_for n room.id envelope_id reply_to sealed in
          let e = received-members n.jid room sent conns addr pc d there in
          elim out [
            | inl outside ↦ ground (arith, g, r, done, e, outside)
            | inr no_key ↦ ground (arith, g, r, done, e, no_key)
          ]
    ]

-- A room seals a text as a session with its key would.
seal-encrypt_for_send :
    (p : Primitives) (room : Room) (nonce text out : Str) (flag : Bool)
    → encrypt_for_send p room.key nonce text ≡ some (out, flag)
    → seal_for_room p room nonce text ≡ some (p.encode64 out, flag)
unfolding seal_for_room encrypt_for_send
seal-encrypt_for_send p room nonce text out flag e = elim (Option-cases (compress p text)) [
  | inl failed ↦ absurd (ground (arith, e, failed))
  | inr ((payload, c), packed) ↦ elim (Option-cases (encrypt p room.key nonce payload)) [
    | inl failed ↦ absurd (ground (arith, e, packed, failed))
    | inr (sealed, ok) ↦ ground (arith, e, packed, ok)
  ]
]

-- A text of at most 1 MiB that a member sends to a room, named by its full identifier, is sent once to
-- each connection with a session key of another member, under the identifier of the message. The node
-- at the other end, where the room has the same key and both are members of it, and which is within
-- its limit, shows the text once, in that room and under that identifier. So it does whatever its
-- contact book says: also a sender that it has blocked is shown in a room.
pub handle_group_chat-send_group :
    (c : Codecs) (sound : IsSound c.primitives) (n m : Node) (conns : Conns)
    (text reply_to envelope_id nonce addr : Str) (s t : Store) (room copy : Room)
    (pc back : PeerConn) (device_id : Str) (seq : ℕ) (turn : Turn) (sealed : Str × Bool)
    → IsMap conns
    → n.groups ≡ some s
    → Rooms.get_room s room.id ≡ some room
    → Rooms.is_member s room.id n.jid ≡ true
    → get conns addr ≡ some pc
    → is_recipient n.jid room pc ≡ true
    → length nonce ≡ nonce_size
    → encrypt_for_send c.primitives room.key nonce text ≡ some sealed
    → length text ≤ max_decompressed
    → str_eq room.id [] ≡ false
    → (allow_inbound m back turn.now).1 ≡ true
    → m.groups ≡ some t
    → Rooms.get_room t room.id ≡ some copy
    → copy.key ≡ room.key
    → both_members t room.id back.jid m.jid ≡ true
    → (sent : Sent) × (received
          (send_group c.primitives n conns room.id text reply_to envelope_id nonce).0
          addr
        ≡ sent ∷ [])
      × ((handle_group_chat c m back (arriving sent device_id seq) turn).1
          ≡ shows_in_group envelope_id room.id back.jid text ∷ [])
unfolding send_group group_chat_for handle_group_chat open_group_chat allow_inbound
handle_group_chat-send_group c sound n m conns text reply_to envelope_id nonce addr s t room copy pc
      back device_id seq turn (out, flag) d g r self there to_us size e fits has_id allowed g' r'
      same both =
    let done = seal-encrypt_for_send c.primitives room nonce text out flag e in
    let sent = group_chat_for n room.id envelope_id reply_to (c.primitives.encode64 out, flag) in
    (
      sent,
      ground
          (arith, g, r, self, done, to_us, received-members n.jid room sent conns addr pc d there),
      ground (
        arith,
        allowed,
        g',
        r',
        same,
        both,
        fits,
        has_id,
        decrypt-encrypt_for_send c.primitives sound room.key nonce text out flag size e,
      ),
    )
