-- ===== src/Peer/Outbox.antt =====
-- The sending side of internal/peer/node.go: `SendToWithID`, `QueueOrSend` and `FlushQueue`. What is
-- written to a connection is its output; `sendRaw` ignores the errors of a write, so a connection
-- that is `dead` takes what is sent and delivers nothing.
use korik.Prelude.{
  Bool, List, Option, Str, [], if◌then◌else◌, none, not, some, str_eq, str_key, ℕ, ◌&&◌, ◌++◌, ◌+◌,
  ◌∷◌,
}
use korik.GoMap.{Map, put}
use korik.Storage.{Codec, Outcome}
use korik.Envelope.{Primitives, encrypt_for_send}
use korik.Queue.{OutgoingMessage, Queue, pending}
use korik.Peer.{PeerConn}
use korik.Queue as Queue

pub record Link : Type 0 where
  pub peer : PeerConn
  pub dead : Bool
  pub output : List (Str × Str × Bool)

pub data SendError : Type 0 where
  not_connected session_not_ready not_encrypted : SendError
  queued : SendError

-- `conns`, in the order of a range
abbrev pub Links : Type 0
Links = Map Str Link

-- the range of `SendToWithID`
unfoldable pub find_link : Links → Str → Option (Str × Link)
find_link [] jid = none
find_link ((addr, l) ∷ links) jid =
    let rest = find_link links jid in if str_eq l.peer.jid jid then some (addr, l) else rest

-- the write of `sendRaw`, and the identifier, the body and the flag of the message
abbrev pub send_raw : Links → Str → Link → Str → Str → Bool → Links
send_raw links addr l id body compressed =
    put links addr
      (record l { output = if l.dead then l.output else l.output ++ (id, body, compressed) ∷ [] })

-- What one round of `FlushQueue` meets: the nonce that the encryption draws, the outcomes of the writes
-- of `MarkAttempt` and `Remove`, and whether the callback `deliver` would return nil.
pub record FlushRound : Type 0 where
  pub nonce : Str
  pub marked : Outcome
  pub removed : Outcome
  pub accepts : Str → Str → Bool

module _ (p : Primitives) where
  -- `nonce` is what the encryption draws.
  unfoldable pub send_to_with_id : Links → Str → Str → Str → Str → Links × Option SendError
  unfolding find_link
  send_to_with_id links jid text envelope_id nonce = elim (find_link links jid) [
    | none ↦ (links, some not_connected)
    | some (addr, l) ↦ elim l.peer.session_key [
      | none ↦ (links, some session_not_ready)
      | some key ↦ elim (encrypt_for_send p key nonce text) [
        | none ↦ (links, some not_encrypted)
        | some (sealed, compressed) ↦
            (send_raw links addr l envelope_id (p.encode64 sealed) compressed, none)
      ]
    ]
  ]

  module _ (codec : Codec (List OutgoingMessage)) (format : ℕ → Str) where
    -- with a queue
    unfoldable pub queue_or_send :
        Links → Queue → Str → Str → Str → Str → ℕ → Outcome → (Links × Queue) × Option SendError
    unfolding send_to_with_id
    queue_or_send links q jid body envelope_id nonce now o =
        let (links', error) = send_to_with_id links jid body envelope_id nonce in
        let message : OutgoingMessage = record {
          id = envelope_id;
          to_jid = jid;
          body = body;
          created_at = now;
          attempts = 0;
        } in
        elim error [
          | none ↦ ((links', q), none)
          | some _ ↦ ((links', (Queue.enqueue codec format q message o).0), some queued)
        ]

    -- One round of the loop of `FlushQueue`; `deliver` says whether the callback is not nil. The
    -- callback is taken to leave the connections and the queue alone. The number counts what was sent.
    unfoldable pub flush_one :
        Str → Bool → FlushRound → (Links × Queue) × ℕ → OutgoingMessage → (Links × Queue) × ℕ
    unfolding send_to_with_id
    flush_one jid deliver r ((links, q), sent) m =
        let q' = Queue.mark_attempt codec q m.id r.marked in
        let (links', error) = send_to_with_id links m.to_jid m.body m.id r.nonce in
        let gone : (Links × Queue) × ℕ =
          ((links', (Queue.remove codec q' m.id r.removed).0), sent + 1) in
        if not (str_eq m.to_jid jid) then ((links, q), sent) else elim error [
          | none ↦ gone
          | some _ ↦ if deliver && r.accepts m.to_jid m.body then gone else ((links', q'), sent)
        ]

    -- The rounds from the one with the number `i` on.
    unfoldable pub flush_from :
        Str
        → Bool
        → (ℕ → FlushRound)
        → ℕ
        → (Links × Queue) × ℕ
        → List OutgoingMessage
        → (Links × Queue) × ℕ
    unfolding flush_one
    flush_from jid deliver rounds i state [] = state
    flush_from jid deliver rounds i state (m ∷ pending) =
        flush_from jid deliver rounds (i + 1) (flush_one jid deliver (rounds i) state m) pending

    -- with a queue
    unfoldable pub flush_queue : Links → Queue → Str → Bool → (ℕ → FlushRound) → (Links × Queue) × ℕ
    unfolding flush_from
    flush_queue links q jid deliver rounds =
        flush_from jid deliver rounds 0 ((links, q), 0) (Queue.pending q)
