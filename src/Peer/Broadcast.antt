-- ===== src/Peer/Broadcast.antt =====
-- What goes to every peer, in internal/peer/node.go: `broadcastWithReply`. A message that is sent is
-- the fields that its sender sets, with the address of its connection; what `sendRaw` adds (device,
-- sequence number, time) is left out.
pub mod Reach
use korik.Prelude.{Bool, List, Option, Str, [], if◌then◌else◌, none, some, str_key, ◌∷◌}
use korik.GoMap.{Map}
use korik.Envelope.{Primitives, encrypt_for_send}
use korik.Peer.{MsgType, Node, PeerConn, is_blocked_by, msg_chat}

-- the fields that the functions below set
pub record Sent : Type 0 where
  pub kind : MsgType
  pub id : Str
  pub jid : Str
  pub group_id : Str
  pub reply_to : Str
  pub body : Str
  pub compressed : Bool

-- `conns`, in the order of a range
abbrev pub Conns : Type 0
Conns = Map Str PeerConn

abbrev pub Output : Type 0
Output = List (Str × Sent)

unfoldable pub chat_for : Node → Str → Str → Str × Bool → Sent
chat_for n envelope_id reply_to (body, compressed) = record {
  kind = msg_chat;
  id = envelope_id;
  jid = n.jid;
  group_id = [];
  reply_to = reply_to;
  body = body;
  compressed = compressed;
}

module _ (p : Primitives) where
  -- One round of the loop of `broadcastWithReply`: what the connection is sent.
  unfoldable pub broadcast_one : Node → Str → Str → Str → Str → PeerConn → Option Sent
  unfolding chat_for
  broadcast_one n text reply_to envelope_id nonce pc = elim pc.session_key [
    | none ↦ none
    | some key ↦
        if is_blocked_by n.contact_book pc.jid
        then none
        else elim (encrypt_for_send p key nonce text) [
          | none ↦ none
          | some (sealed, compressed) ↦
              some (chat_for n envelope_id reply_to (p.encode64 sealed, compressed))
        ]
  ]

  -- `draw` gives the nonce for each address.
  unfoldable pub broadcast_with_reply : Node → Conns → Str → Str → Str → (Str → Str) → Output
  unfolding broadcast_one
  broadcast_with_reply n [] text reply_to envelope_id draw = []
  broadcast_with_reply n ((addr, pc) ∷ conns) text reply_to envelope_id draw =
      let rest = broadcast_with_reply n conns text reply_to envelope_id draw in
      elim (broadcast_one n text reply_to envelope_id (draw addr) pc) [
        | none ↦ rest
        | some sent ↦ (addr, sent) ∷ rest
      ]
