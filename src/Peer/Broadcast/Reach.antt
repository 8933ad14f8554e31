-- ===== src/Peer/Broadcast/Reach.antt =====
-- Whom a broadcast reaches, in internal/peer/node.go, and what is shown there.
use korik.Prelude.{
  Bool, List, Option, Str, [], arith, false, if◌then◌else◌, inl, inr, int_key, length, none, pos,
  refl, some, str_key, true, ℕ, ◌==◌, ◌∷◌, ◌≡◌, ◌≤◌, ◌⊎◌,
}
use korik.GoMap.{IsMap, get}
use korik.Envelope.{Primitives, encrypt_for_send, max_decompressed, nonce_size}
use korik.Envelope.Roundtrip.{IsSound, decrypt-encrypt_for_send}
use korik.Peer.{Codecs, Message, Node, PeerConn, Turn, allow_inbound, is_blocked_by, shows}
use korik.Peer.Broadcast.{Conns, Output, Sent, broadcast_one, broadcast_with_reply, chat_for}
use korik.Peer.Inbound.{handle_chat}

-- What is sent to an address, in order.
unfoldable pub received : Output → Str → List Sent
received [] addr = []
received ((a, sent) ∷ out) addr =
    let rest = received out addr in if a == addr then sent ∷ rest else rest

abbrev pub at_most_one : Option Sent → List Sent
at_most_one none = []
at_most_one (some sent) = sent ∷ []

-- The message that arrives; the fields that `sendRaw` adds do not matter to the handlers below.
abbrev pub arriving : Sent → Str → ℕ → Message
arriving sent device_id seq = record {
  kind = sent.kind;
  id = sent.id;
  seq = seq;
  jid = sent.jid;
  device_id = device_id;
  body = sent.body;
  group_id = sent.group_id;
  reply_to = sent.reply_to;
  compressed = sent.compressed;
  sync_since = pos 0;
}

module _ (p : Primitives) (n : Node) (text reply_to envelope_id : Str) (draw : Str → Str) where
  received_absent :
      (conns : Conns) (addr : Str)
      → get conns addr ≡ none
      → received (broadcast_with_reply p n conns text reply_to envelope_id draw) addr ≡ []
  unfolding broadcast_with_reply received get
  received_absent [] addr h = refl
  received_absent ((a, pc) ∷ conns) addr h = ground (arith, h, received_absent conns addr)

  -- Each connection is sent what its round gives, once.
  received-broadcast :
      (conns : Conns) (addr : Str) (pc : PeerConn)
      → IsMap conns
      → get conns addr ≡ some pc
      → received (broadcast_with_reply p n conns text reply_to envelope_id draw) addr
        ≡ at_most_one (broadcast_one p n text reply_to envelope_id (draw addr) pc)
  unfolding broadcast_with_reply received get
  received-broadcast [] addr pc d h = absurd (ground (arith, h))
  received-broadcast ((a, b) ∷ conns) addr pc d h = ground (
    arith,
    h,
    d,
    str_key.same_iff a addr,
    received_absent conns addr,
    received-broadcast conns addr pc d.1,
  )

-- A broadcast skips the connections without a session key and those of blocked contacts: nothing is
-- sent there, whatever the text is.
pub broadcast-skips :
    (p : Primitives) (n : Node) (text reply_to envelope_id : Str) (draw : Str → Str) (conns : Conns)
    (addr : Str) (pc : PeerConn)
    → IsMap conns
    → get conns addr ≡ some pc
    → (pc.session_key ≡ none) ⊎ (is_blocked_by n.contact_book pc.jid ≡ true)
    → received (broadcast_with_reply p n conns text reply_to envelope_id draw) addr ≡ []
unfolding broadcast_one
broadcast-skips p n text reply_to envelope_id draw conns addr pc d there (inl h) =
    ground (arith, h, received-broadcast p n text reply_to envelope_id draw conns addr pc d there)
broadcast-skips p n text reply_to envelope_id draw conns addr pc d there (inr h) =
    ground (arith, h, received-broadcast p n text reply_to envelope_id draw conns addr pc d there)

-- A text of at most 1 MiB that is broadcast, with a session key that seals it, is sent once to a
-- connection that has this key and is not blocked, under the identifier of the broadcast. The node at
-- the other end, which has the same key for its own connection, is within its limit and has not
-- blocked the sender, shows the text once, under that identifier.
pub handle_chat-broadcast :
    (c : Codecs) (sound : IsSound c.primitives) (n m : Node) (text reply_to envelope_id key : Str)
    (draw : Str → Str) (conns : Conns) (addr : Str) (pc back : PeerConn) (device_id : Str) (seq : ℕ)
    (t : Turn) (sealed : Str × Bool)
    → IsMap conns
    → get conns addr ≡ some pc
    → pc.session_key ≡ some key
    → is_blocked_by n.contact_book pc.jid ≡ false
    → length (draw addr) ≡ nonce_size
    → encrypt_for_send c.primitives key (draw addr) text ≡ some sealed
    → length text ≤ max_decompressed
    → back.session_key ≡ some key
    → (allow_inbound m back t.now).1 ≡ true
    → is_blocked_by m.contact_book back.jid ≡ false
    → (sent : Sent) × (received
          (broadcast_with_reply c.primitives n conns text reply_to envelope_id draw)
          addr
        ≡ sent ∷ [])
      × ((handle_chat c m back (arriving sent device_id seq) t).1
          ≡ shows envelope_id back.jid text ∷ [])
unfolding broadcast_one chat_for handle_chat allow_inbound
handle_chat-broadcast c sound n m text reply_to envelope_id key draw conns addr pc back device_id
      seq t (out, flag) d there ready open_to_us size e fits ready' allowed open_to_them =
    (
      chat_for n envelope_id reply_to (c.primitives.encode64 out, flag),
      ground (
        arith,
        ready,
        open_to_us,
        e,
        received-broadcast c.primitives n text reply_to envelope_id draw conns addr pc d there,
      ),
      ground (
        arith,
        ready',
        allowed,
        open_to_them,
        fits,
        decrypt-encrypt_for_send c.primitives sound key (draw addr) text out flag size e,
      ),
    )
