-- ===== src/Peer/Sync.antt =====
-- Delta sync in internal/peer/node.go: what a peer gets that asks for what it missed.
use korik.Prelude.{
  Bool, List, Option, Str, [], bytes, filterb, if◌then◌else◌, leb, leb_ℤ, ltb, none, not, pos,
  pos_part, some, str_eq, take, ℕ, ◌&&◌, ◌*◌, ◌+◌, ◌||◌, ◌∷◌,
}
use korik.Envelope.{Primitives, encrypt_for_send}
use korik.History.{ChatMessage, History}
use korik.Peer.{Message, Node, PeerConn}
use korik.History as Log

module _ (p : Primitives) (nonces : ℕ → Str) where
  -- `sendSyncData` with its nonce: the body, the quoted identifier and the flag of the message that is
  -- written to the connection, or its error.
  unfoldable pub send_sync_data : PeerConn → Str → Str → Str → Option (Str × Str × Bool)
  send_sync_data pc nonce body reply_to = elim pc.session_key [
    | none ↦ none
    | some key ↦ elim (encrypt_for_send p key nonce body) [
      | none ↦ none
      | some (sealed, compressed) ↦ some (p.encode64 sealed, reply_to, compressed)
    ]
  ]

  -- The loop of `handleSyncRequest`, with the number of messages that were sent. A send that fails
  -- counts as well. The nonce is that of the message with this number.
  unfoldable pub sync_from : PeerConn → ℕ → List ChatMessage → List (Str × Str × Bool)
  unfolding send_sync_data
  sync_from pc sent [] = []
  sync_from pc sent (m ∷ messages) =
      let skipped = sync_from pc sent messages in
      let rest = sync_from pc (sent + 1) messages in
      if not (str_eq m.direction (bytes "sent")) || not (str_eq m.group_id []) || leb 50 sent
      then skipped
      else elim (send_sync_data pc (nonces sent) m.body m.reply_to) [
        | none ↦ rest
        | some out ↦ out ∷ rest
      ]

  -- What is written to the connection. time.Unix(msg.SyncSince, 0), in nanoseconds
  unfoldable pub handle_sync_request : Node → PeerConn → Message → List (Str × Str × Bool)
  unfolding sync_from
  handle_sync_request n pc msg = elim n.history [
    | none ↦ []
    | some h ↦
        if leb_ℤ msg.sync_since (pos 0)
        then []
        else sync_from pc 0 (Log.get_since h (pos_part msg.sync_since * 1_000_000_000))
  ]

  -- The messages sealed with a key one after the other, without those that cannot be sealed.
  unfoldable pub sealed_from : Str → ℕ → List ChatMessage → List (Str × Str × Bool)
  sealed_from key i [] = []
  sealed_from key i (m ∷ messages) =
      let rest = sealed_from key (i + 1) messages in
      elim (encrypt_for_send p key (nonces i) m.body) [
        | none ↦ rest
        | some (sealed, compressed) ↦ (p.encode64 sealed, m.reply_to, compressed) ∷ rest
      ]

  abbrev pub is_direct_sent : ChatMessage → Bool
  is_direct_sent m = str_eq m.direction (bytes "sent") && str_eq m.group_id []

  -- What the node sent to anyone after a time, without rooms, oldest first and 50 at most.
  abbrev pub missed : History → ℕ → List ChatMessage
  missed h since =
      take 50 (filterb is_direct_sent (filterb (λ m. ltb since m.timestamp) h.messages))
