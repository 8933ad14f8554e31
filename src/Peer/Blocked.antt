-- ===== src/Peer/Blocked.antt =====
-- The block list in internal/peer/node.go.
use korik.Prelude.{Option, [], arith, none, some, true, ◌∷◌, ◌≡◌}
use korik.Envelope.{decrypt_session_body}
use korik.Contacts.{ContactBook}
use korik.Peer.Inbound.{handle_chat, handle_sync_data, remember}
use korik.Peer.{Codecs, Message, Node, PeerConn, Turn, allow_inbound, is_blocked_by, shows}
use korik.Contacts as Book

-- A chat message of a blocked contact is not shown, and neither the history, the contact book nor
-- the rooms change, whatever the message is.
pub handle_chat-blocked :
    (c : Codecs) (n : Node) (pc : PeerConn) (msg : Message) (t : Turn) (cb : ContactBook)
    → n.contact_book ≡ some cb
    → Book.is_blocked cb pc.jid ≡ true
    → let (n', events) = handle_chat c n pc msg t in
      (events ≡ [])
      × (n'.history ≡ n.history)
      × (n'.contact_book ≡ n.contact_book)
      × (n'.groups ≡ n.groups)
unfolding handle_chat allow_inbound is_blocked_by
handle_chat-blocked c n pc msg t cb there blocked = ground (arith, there, blocked)

-- The other ways to a reader do not ask the block list: what a contact sends as missed messages is
-- shown and stored as if the contact were not blocked, whatever the contact book is.
pub handle_sync_data-blocked :
    (c : Codecs) (n : Node) (pc : PeerConn) (msg : Message) (t : Turn) (book : Option ContactBook)
    → let (n', events) = handle_sync_data c n pc msg t in
      let (m, shown) = handle_sync_data c (record n { contact_book = book }) pc msg t in
      (shown ≡ events)
      × (m.history ≡ n'.history)
      × (events ≡ elim (decrypt_session_body c.primitives pc.session_key msg.body msg.compressed) [
        | none ↦ []
        | some text ↦ shows msg.id pc.jid text ∷ []
      ])
unfolding handle_sync_data remember
handle_sync_data-blocked c n pc msg t book = ground arith
