-- ===== src/Peer/Hello.antt =====
-- The handshake of a connection in internal/peer/node.go: the case for MsgHello of `handleMessage`.
-- The parser of public keys, the fingerprint and the derivation of the session key are a parameter,
-- and what a goroutine does later (the two sides of a delta sync) is told as an event.
pub mod Identity
pub mod Delivery
mod Tests
use korik.Prelude.{
  Bool, List, Option, Str, [], if◌then◌else◌, none, not, some, str_eq, str_key, ℕ, ◌&&◌, ◌+◌, ◌∷◌,
  ◌≟◌,
}
use korik.GoMap.{put}
use korik.Storage.{Codec, Outcome}
use korik.Contacts.{ContactBook}
use korik.Queue.{OutgoingMessage, Queue, pending}
use korik.Peer.{Codecs, Node, PeerConn, rate_key}
use korik.Peer.Outbox.{Link, Links, send_to_with_id}
use korik.Circuit as Circuit
use korik.Queue as Queue
use korik.Contacts as Book
use korik.RateLimit.Limiter as Limits

-- identity.ParsePeerPublicKey, identity.JIDFromPublicKeyHex, and DeriveSessionKey with the private
-- key of the node
pub record KeyAgreement : Type 0 where
  pub parse : Str → Option Str
  pub fingerprint : Str → Str
  pub derive : Str → Option Str

pub record Hello : Type 0 where
  pub sender : Str
  pub jid : Str
  pub lid : Str
  pub device_id : Str
  pub pub_key : Str

-- the parts of a node that the case changes
pub record Host : Type 0 where
  pub node : Node
  pub device_id : Str
  pub breaker : Option Circuit.Breaker
  pub queue : Option Queue
  pub links : Links

pub data HelloEvent : Type 0 where
  closed : HelloEvent
  joined : Str → Str → Str → Str → HelloEvent
  syncs_since : ℕ → HelloEvent

-- What the case is given for a connection: the outcomes are those of the writes in it. The loop over
-- the queue meets a write and a nonce of its own in each of its rounds, which are numbered from 0.
pub record HelloTurn : Type 0 where
  pub now : ℕ
  pub book_saved : Outcome
  pub queue_saved : ℕ → Outcome
  pub nonces : ℕ → Str

-- the writes to `pc`
unfoldable pub identified : PeerConn → Hello → Str → PeerConn
identified pc msg session_key = record pc {
  name = msg.sender;
  jid = msg.jid;
  lid = msg.lid;
  device_id = msg.device_id;
  session_key = some session_key;
}

unfoldable pub is_linked_device : Host → Hello → Bool
is_linked_device h msg =
    str_eq msg.jid h.node.jid
    && not (str_eq msg.device_id [])
    && not (str_eq msg.device_id h.device_id)

-- c.LastSeen of the contact before it is refreshed, 0 if there is none
unfoldable pub prev_seen : Option ContactBook → Str → ℕ
prev_seen none jid = 0
prev_seen (some cb) jid = elim (Book.find cb jid) [ none ↦ 0 | some c ↦ c.last_seen ]

module _ (c : Codecs) where
  unfoldable pub refresh_contact : Host → Hello → Str → HelloTurn → Option ContactBook
  unfolding is_linked_device
  refresh_contact h msg addr t = elim h.node.contact_book [
    | none ↦ none
    | some cb ↦
        let cb' = (Book.add c.books cb msg.jid msg.sender t.now t.book_saved).0 in
        if is_linked_device h msg
        then some cb
        else some (Book.update_last_seen c.books cb' msg.jid addr t.now t.book_saved)
  ]

  module _ (codec : Codec (List OutgoingMessage)) where
    -- One round of the loop that delivers the queue, with what its encryption and its write draw.
    unfoldable pub deliver_one :
        Str → Str → Outcome → Links × Queue → OutgoingMessage → Links × Queue
    deliver_one jid nonce o (links, q) m =
        let (links', error) = send_to_with_id c.primitives links m.to_jid m.body m.id nonce in
        if str_eq m.to_jid jid
        then elim error [ none ↦ (links', (Queue.remove codec q m.id o).0) | some _ ↦ (links', q) ]
        else (links, q)

    -- The rounds from the one with the number `i` on.
    unfoldable pub deliver_all :
        Str → HelloTurn → ℕ → Links × Queue → List OutgoingMessage → Links × Queue
    unfolding deliver_one
    deliver_all jid t i state [] = state
    deliver_all jid t i state (m ∷ pending) =
        deliver_all jid t (i + 1) (deliver_one jid (t.nonces i) (t.queue_saved i) state m) pending

    unfoldable pub deliver_pending : Host → Str → HelloTurn → Host
    unfolding deliver_all
    deliver_pending h jid t = elim h.queue [
      | none ↦ h
      | some q ↦
          let (links', q') = deliver_all jid t 0 (h.links, q) (Queue.pending q) in
          record h { links = links'; queue = some q' }
    ]

    -- from the first hello of a connection on
    unfoldable pub first_hello : Host → Link → Hello → HelloTurn → Host × List HelloEvent
    unfolding refresh_contact deliver_pending
    first_hello h l msg t =
        let pc = l.peer in
        let prev = prev_seen h.node.contact_book msg.jid in
        let n = record h.node {
          limiter = elim h.node.limiter [
            | none ↦ none
            | some m ↦ some (Limits.reset m (rate_key pc))
          ];
          contact_book = refresh_contact h msg pc.addr t;
        } in
        let h' = record h {
          node = n;
          breaker = elim h.breaker [
            | none ↦ none
            | some b ↦ some (Circuit.record_success b pc.addr)
          ];
        } in
        (
          deliver_pending h' msg.jid t,
          joined msg.lid msg.jid msg.sender pc.addr
              ∷ (if prev ≟ 0 then [] else syncs_since prev ∷ []),
        )

    -- case MsgHello, for the connection under the address `addr`
    unfoldable pub handle_hello :
        KeyAgreement → Host → Str → Link → Hello → HelloTurn → Host × List HelloEvent
    unfolding first_hello identified
    handle_hello k h addr l msg t = elim (k.parse msg.pub_key) [
      | none ↦ (h, [])
      | some their_pub ↦
          if not (str_eq (k.fingerprint msg.pub_key) msg.jid)
          then (h, closed ∷ [])
          else elim (k.derive their_pub) [
            | none ↦ (h, [])
            | some session_key ↦
                let l' = record l { peer = identified l.peer msg session_key } in
                let h' = record h { links = put h.links addr l' } in
                elim l.peer.session_key [ some _ ↦ (h', []) | none ↦ first_hello h' l' msg t ]
          ]
    ]
