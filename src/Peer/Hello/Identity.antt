-- ===== src/Peer/Hello/Identity.antt =====
-- Who a connection can say it is, in internal/peer/node.go.
use korik.Prelude.{List, Str, [], arith, false, none, some, str_eq, str_key, true, ◌∷◌, ◌≡◌}
use korik.GoMap.{get, get-put, put}
use korik.Storage.{Codec}
use korik.Queue.{OutgoingMessage}
use korik.Peer.{Codecs}
use korik.Peer.Outbox.{Link}
use korik.Peer.Hello.{Hello, HelloTurn, Host, KeyAgreement, closed, handle_hello, identified}

module _ (c : Codecs) (codec : Codec (List OutgoingMessage)) (k : KeyAgreement) where
  -- A hello whose identifier is not the fingerprint of its public key changes nothing at the node:
  -- no connection gets a name or a session key, nothing is sent and no contact is made. If the key
  -- can be parsed, the connection is closed.
  pub handle_hello-spoofed :
      (h : Host) (addr : Str) (l : Link) (msg : Hello) (t : HelloTurn)
      → str_eq (k.fingerprint msg.pub_key) msg.jid ≡ false
      → let (h', events) = handle_hello c codec k h addr l msg t in
        (h' ≡ h) × (events ≡ elim (k.parse msg.pub_key) [ none ↦ [] | some _ ↦ closed ∷ [] ])
  unfolding handle_hello
  handle_hello-spoofed h addr l msg t e = ground (arith, e)

  -- A hello on a connection that has a session sets its session key to the one derived from the
  -- public keys, whatever the key was, also where it has been rotated since; nothing else than this
  -- connection changes, and nothing is told.
  pub handle_hello-again :
      (h : Host) (addr : Str) (l : Link) (msg : Hello) (t : HelloTurn) (their_pub key derived : Str)
      → k.parse msg.pub_key ≡ some their_pub
      → str_eq (k.fingerprint msg.pub_key) msg.jid ≡ true
      → k.derive their_pub ≡ some derived
      → l.peer.session_key ≡ some key
      → let (h', events) = handle_hello c codec k h addr l msg t in
        (events ≡ [])
        × (h' ≡ record h { links = h'.links })
        × (get h'.links addr ≡ some (record l { peer = identified l.peer msg derived }))
        × ((identified l.peer msg derived).session_key ≡ some derived)
  unfolding handle_hello identified
  handle_hello-again h addr l msg t their_pub key derived parses real derives there =
      let e : handle_hello c codec k h addr l msg t ≡ (
        record h { links = put h.links addr (record l { peer = identified l.peer msg derived }) },
        [],
      ) =
        ground (arith, parses, real, derives, there) in
      ground (
        arith,
        e,
        get-put h.links addr addr (record l { peer = identified l.peer msg derived }),
        str_key.same_iff addr addr,
      )
