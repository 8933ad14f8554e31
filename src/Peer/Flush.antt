-- ===== src/Peer/Flush.antt =====
-- The queue of messages against the connections in internal/peer/node.go: what `FlushQueue` keeps
-- and what it loses.
use korik.Prelude.{
  Bool, Bool-cases, List, Str, [], arith, false, if◌then◌else◌, inl, inr, map, none, refl, some,
  str_eq, str_eq_iff, str_key, suc, true, ℕ, ◌+◌, ◌∙◌, ◌∷◌, ◌≡◌,
}
use korik.GoMap.{IsMap, get, put, put-get}
use korik.Storage.{Codec, Outcome}
use korik.Envelope.{Primitives, encrypt_for_send}
use korik.Queue.{OutgoingMessage, Queue, pending}
use korik.Queue.Removal.{Lacks, remove-Lacks}
use korik.Peer.Outbox.{
  FlushRound, Link, Links, find_link, flush_from, flush_one, flush_queue, send_to_with_id,
}
use korik.Queue as Queue

-- The messages without their counters of attempts.
abbrev pub contents : List OutgoingMessage → List (Str × Str × Str × ℕ)
contents = map (λ m. (m.id, m.to_jid, m.body, m.created_at))

module _ (p : Primitives) (codec : Codec (List OutgoingMessage)) (format : ℕ → Str) where
  contents-mark_attempt :
      (q : Queue) (id : Str) (o : Outcome)
      → contents (Queue.mark_attempt codec q id o).items ≡ contents q.items
  unfolding Queue.mark_attempt Queue.save_locked
  contents-mark_attempt q id o = all q.items
    where
      all :
          (items : List OutgoingMessage)
          → contents (
              map (λ m. if str_eq m.id id then record m { attempts = m.attempts + 1 } else m) items)
            ≡ contents items
      all [] = refl
      all (m ∷ items) = ground (arith, all items)

  abbrev attempted : Str → Queue → OutgoingMessage → Outcome → Queue
  attempted jid q m o = if str_eq m.to_jid jid then Queue.mark_attempt codec q m.id o else q

  flush_one-offline :
      (links : Links) (jid : Str) (r : FlushRound) (q : Queue) (sent : ℕ) (m : OutgoingMessage)
      → find_link links jid ≡ none
      → flush_one p codec format jid false r ((links, q), sent) m
        ≡ ((links, attempted jid q m r.marked), sent)
  unfolding flush_one send_to_with_id
  flush_one-offline links jid r q sent m h = elim (Bool-cases (str_eq m.to_jid jid)) [
    | inl ours ↦
        let same : m.to_jid ≡ jid = (str_eq_iff m.to_jid jid).0 ours in
        let gone : find_link links m.to_jid ≡ none = rw same h in ground (arith, ours, gone)
    | inr other ↦ ground (arith, other)
  ]

  contents-attempted :
      (jid : Str) (q : Queue) (m : OutgoingMessage) (o : Outcome)
      → contents (attempted jid q m o).items ≡ contents q.items
  contents-attempted jid q m o = elim (Bool-cases (str_eq m.to_jid jid)) [
    | inl ours ↦ rw ours (contents-mark_attempt q m.id o)
    | inr other ↦ rw other refl
  ]

  flush_from-offline :
      (links : Links) (jid : Str) (rounds : ℕ → FlushRound) (i : ℕ) (q : Queue) (sent : ℕ)
      (pending : List OutgoingMessage)
      → find_link links jid ≡ none
      → let ((links', q'), sent') =
          flush_from p codec format jid false rounds i ((links, q), sent) pending in
        (links' ≡ links) × (contents q'.items ≡ contents q.items) × (sent' ≡ sent)
  unfolding flush_from
  flush_from-offline links jid rounds i q sent [] h = (refl, refl, refl)
  flush_from-offline links jid rounds i q sent (m ∷ pending) h =
      let (same, kept, count) =
        flush_from-offline links jid rounds (i + 1) (attempted jid q m (rounds i).marked) sent
          pending h in
      rw (flush_from, flush_one-offline links jid (rounds i) q sent m h)
        (same, kept ∙ contents-attempted jid q m (rounds i).marked, count)

  -- While the peer is not connected, a flush without another way to deliver (with a nil callback)
  -- takes nothing out of the queue, for that peer or another one, in whatever way the writes to disk
  -- end; nothing is sent, and none is counted.
  pub flush_queue-offline :
      (links : Links) (q : Queue) (jid : Str) (rounds : ℕ → FlushRound)
      → find_link links jid ≡ none
      → let ((links', q'), sent) = flush_queue p codec format links q jid false rounds in
        (links' ≡ links) × (contents q'.items ≡ contents q.items) × (sent ≡ 0)
  unfolding flush_queue
  flush_queue-offline links q jid rounds h =
      flush_from-offline links jid rounds 0 q 0 (Queue.pending q) h

  get-find_link :
      (links : Links) (jid addr : Str) (l : Link)
      → IsMap links
      → find_link links jid ≡ some (addr, l)
      → get links addr ≡ some l
  unfolding find_link get
  get-find_link [] jid addr l d h = absurd (ground (arith, h))
  get-find_link ((a, l') ∷ links) jid addr l (unseen, d) h =
      elim (Bool-cases (str_eq l'.peer.jid jid)) [
        | inl ours ↦ ground (arith, ours, h, str_eq_iff a addr)
        | inr other ↦
            let rest : find_link links jid ≡ some (addr, l) = ground (arith, other, h) in
            ground (arith, unseen, str_eq_iff a addr, get-find_link links jid addr l d rest)
      ]

  -- A message for a peer whose connection is dead, but not yet removed, and has a session key: if its
  -- body can be sealed, then the flush takes it out of the queue and counts it as sent, and it
  -- reaches no one: the connections are as before. The message is lost.
  pub flush_one-dead :
      (links : Links) (q : Queue) (sent : ℕ) (jid addr key : Str) (l : Link) (m : OutgoingMessage)
      (sealed : Str × Bool) (deliver : Bool) (r : FlushRound)
      → IsMap links
      → m.to_jid ≡ jid
      → find_link links jid ≡ some (addr, l)
      → l.dead ≡ true
      → l.peer.session_key ≡ some key
      → encrypt_for_send p key r.nonce m.body ≡ some sealed
      → let ((links', q'), sent') = flush_one p codec format jid deliver r ((links, q), sent) m in
        (links' ≡ links) × Lacks m.id q'.items × (sent' ≡ suc sent)
  unfolding flush_one send_to_with_id
  flush_one-dead links q sent jid addr key l m sealed deliver r d ours there dead ready ok =
      let found : find_link links m.to_jid ≡ some (addr, l) = rw ours there in
      let back : put links addr l ≡ links =
        put-get links addr l (get-find_link links jid addr l d there) in
      let sent_off : send_to_with_id p links m.to_jid m.body m.id r.nonce ≡ (links, none) =
        ground (arith, found, dead, ready, ok, back) in
      let ours' : str_eq m.to_jid jid ≡ true = (str_eq_iff m.to_jid jid).1 ours in
      let step : flush_one p codec format jid deliver r ((links, q), sent) m ≡ (
        (links, (Queue.remove codec (Queue.mark_attempt codec q m.id r.marked) m.id r.removed).0),
        sent + 1,
      ) =
        ground (arith, ours', sent_off) in
      rw step (
        refl,
        remove-Lacks codec format (Queue.mark_attempt codec q m.id r.marked) m.id r.removed,
        omega arith,
      )
