-- ===== src/Peer/Hello/Delivery.antt =====
-- What waits in the queue for a peer that joins, in internal/peer/node.go.
use korik.Prelude.{
  All, Bool, Bool-cases, List, Str, [], ap, append-nil, append_assoc, arith, false, filterb,
  if◌then◌else◌, inl, inr, none, not, refl, some, str_eq, str_eq_iff, str_key, sym, true, ℕ, ◌&&◌,
  ◌++◌, ◌+◌, ◌∷◌, ◌≡◌,
}
use korik.GoMap.{IsMap, get, put, put-IsMap}
use korik.Envelope.{Primitives, encrypt_for_send}
use korik.Queue.{OutgoingMessage, Queue}
use korik.Peer.Outbox.{Link, Links, find_link, send_to_with_id}
use korik.Storage.{Codec, Outcome}
use korik.Peer.{Codecs}
use korik.Peer.Hello.{
  Hello, HelloTurn, Host, KeyAgreement, deliver_all, deliver_one, deliver_pending, first_hello,
  handle_hello, identified,
}
use korik.Queue as Queue

find_link-get :
    (links : Links) (jid addr : Str) (l : Link)
    → IsMap links
    → find_link links jid ≡ some (addr, l)
    → get links addr ≡ some l
unfolding find_link get
find_link-get [] jid addr l d h = absurd (ground (arith, h))
find_link-get ((a, b) ∷ links) jid addr l d h =
    ground (arith, h, d, str_key.same_iff a addr, find_link-get links jid addr l d.1)

-- A connection that is written to is still the first one of its peer.
find_link-put :
    (links : Links) (jid addr : Str) (l l' : Link)
    → IsMap links
    → find_link links jid ≡ some (addr, l)
    → l'.peer.jid ≡ l.peer.jid
    → find_link (put links addr l') jid ≡ some (addr, l')
unfolding find_link put
find_link-put [] jid addr l l' d h e = absurd (ground (arith, h))
find_link-put ((a, b) ∷ links) jid addr l l' d h e = ground (
  arith,
  h,
  d,
  e,
  str_key.same_iff a addr,
  find_link-put links jid addr l l' d.1,
  find_link-get links jid addr l d.1,
)

-- The messages for a peer, in order, as they are sent: each with the nonce of its round.
unfoldable pub sealed_for :
    Primitives → Str → (ℕ → Str) → ℕ → Str → List OutgoingMessage → List (Str × Str × Bool)
sealed_for p key nonces i jid [] = []
sealed_for p key nonces i jid (m ∷ items) =
    let rest = sealed_for p key nonces (i + 1) jid items in
    if str_eq m.to_jid jid
    then elim (encrypt_for_send p key (nonces i) m.body) [
      | none ↦ rest
      | some (sealed, compressed) ↦ (m.id, p.encode64 sealed, compressed) ∷ rest
    ]
    else rest

-- Does one of these messages for the peer have the identifier?
unfoldable pub sent_id : Str → List OutgoingMessage → Str → Bool
sent_id jid [] id = false
sent_id jid (m ∷ items) id =
    let rest = sent_id jid items id in
    if str_eq m.to_jid jid then (if str_eq id m.id then true else rest) else rest

module _ {ℓ} {A : Type ℓ} where
  filterb-all : (xs : List A) → filterb (λ x. true) xs ≡ xs
  filterb-all [] = refl
  filterb-all (x ∷ xs) = ap (◌∷◌ x) (filterb-all xs)

  filterb-filterb :
      (p q r : A → Bool) (xs : List A)
      → ((x : A) → r x ≡ (p x && q x))
      → filterb q (filterb p xs) ≡ filterb r xs
  filterb-filterb p q r [] h = refl
  filterb-filterb p q r (x ∷ xs) h = ground (arith, h x, filterb-filterb p q r xs h)

-- Whatever nonce is drawn, every body can be sealed.
abbrev pub Seals : Primitives → Str → (ℕ → Str) → Type 0
Seals p key nonces =
    (i : ℕ) (s : Str) → (out : Str × Bool) × (encrypt_for_send p key (nonces i) s ≡ some out)

module _ (c : Codecs) (codec : Codec (List OutgoingMessage)) (jid key addr : Str)
    (t : HelloTurn) where
  deliver_one-live :
      (links : Links) (q : Queue) (l : Link) (m : OutgoingMessage) (sealed : Str) (flag : Bool)
      (nonce : Str) (o : Outcome)
      → find_link links jid ≡ some (addr, l)
      → l.peer.session_key ≡ some key
      → l.dead ≡ false
      → encrypt_for_send c.primitives key nonce m.body ≡ some (sealed, flag)
      → str_eq m.to_jid jid ≡ true
      → deliver_one c codec jid nonce o (links, q) m ≡ (
        put links addr
            (record l { output = l.output ++ (m.id, c.primitives.encode64 sealed, flag) ∷ [] }),
        (Queue.remove codec q m.id o).0,
      )
  unfolding deliver_one send_to_with_id
  deliver_one-live links q l m sealed flag nonce o h ready live e ours =
      let same : find_link links m.to_jid ≡ some (addr, l) =
        rw ((str_eq_iff m.to_jid jid).0 ours) h in
      ground (arith, same, ready, live, e, ours)

  deliver_all-live :
      (i : ℕ) (links : Links) (q : Queue) (l : Link) (items : List OutgoingMessage)
      → IsMap links
      → find_link links jid ≡ some (addr, l)
      → l.peer.session_key ≡ some key
      → l.dead ≡ false
      → Seals c.primitives key t.nonces
      → let (links', q') = deliver_all c codec jid t i (links, q) items in
        (find_link links' jid
          ≡ some (
            addr,
            record l { output = l.output ++ sealed_for c.primitives key t.nonces i jid items },
          ))
        × (q'.items ≡ filterb (λ m. not (sent_id jid items m.id)) q.items)
  unfolding deliver_all deliver_one sealed_for sent_id Queue.remove Queue.save_locked
  deliver_all-live i links q l [] d h ready live seals =
      (rw (append-nil l.output) h, sym (filterb-all q.items))
  deliver_all-live i links q l (m ∷ items) d h ready live seals =
      elim (Bool-cases (str_eq m.to_jid jid)) [
        | inl ours ↦
            let ((sealed, flag), e) = seals i m.body in
            let l' = record l {
              output = l.output ++ (m.id, c.primitives.encode64 sealed, flag) ∷ [];
            } in
            let q' = (Queue.remove codec q m.id (t.queue_saved i)).0 in
            let step =
              deliver_one-live links q l m sealed flag (t.nonces i) (t.queue_saved i) h ready live e
                ours in
            let rest =
              deliver_all-live (i + 1) (put links addr l') q' l' items (put-IsMap links addr l' d)
                (find_link-put links jid addr l l' d h refl) ready live seals in
            ground (
              arith,
              step,
              rest,
              ours,
              e,
              append_assoc l.output ((m.id, c.primitives.encode64 sealed, flag) ∷ [])
                  (sealed_for c.primitives key t.nonces (i + 1) jid items),
              filterb-filterb (λ x. not (str_eq x.id m.id)) (λ x. not (sent_id jid items x.id))
                  (λ x. not (sent_id jid (m ∷ items) x.id)) q.items (λ x. ground (arith, ours)),
            )
        | inr other ↦
            let step : deliver_one c codec jid (t.nonces i) (t.queue_saved i) (links, q) m
                ≡ (links, q) =
              ground (arith, other) in
            ground
              (arith, step, other, deliver_all-live (i + 1) links q l items d h ready live seals)
      ]

-- What is left has nothing for the peer.
left_over :
    (jid : Str) (sent items : List OutgoingMessage)
    → ((id : Str) → sent_id jid items id ≡ true → sent_id jid sent id ≡ true)
    → All (λ m. str_eq m.to_jid jid ≡ false) (filterb (λ m. not (sent_id jid sent m.id)) items)
unfolding sent_id
left_over jid sent [] sub = tt
left_over jid sent (m ∷ items) sub =
    let rest = left_over jid sent items (λ id e. sub id (ground (arith, e))) in
    elim (Bool-cases (str_eq m.to_jid jid)) [
      | inl ours ↦
          let gone : sent_id jid sent m.id ≡ true =
            sub m.id (ground (arith, ours, str_eq_iff m.id m.id)) in
          ground (arith, gone, rest)
      | inr other ↦ elim (Bool-cases (sent_id jid sent m.id)) [
        | inl gone ↦ ground (arith, gone, rest)
        | inr stays ↦ ground (arith, stays, other, rest)
      ]
    ]

-- A peer that joins with its first hello, on a connection that works and is the first one of its
-- identifier, gets every message that waits for it in the queue, in order, each under the identifier
-- that it was queued with and sealed with the new session key and a nonce of its own. The bodies are
-- ones that can be sealed with whatever nonce is drawn. What stays in the queue is for other
-- peers, and it is all that has not the identifier of a message that was sent.
pub handle_hello-delivers :
    (c : Codecs) (codec : Codec (List OutgoingMessage)) (k : KeyAgreement) (h : Host) (addr : Str)
    (l : Link) (msg : Hello) (t : HelloTurn) (q : Queue) (their_pub key : Str)
    → k.parse msg.pub_key ≡ some their_pub
    → str_eq (k.fingerprint msg.pub_key) msg.jid ≡ true
    → k.derive their_pub ≡ some key
    → l.peer.session_key ≡ none
    → l.dead ≡ false
    → h.queue ≡ some q
    → IsMap h.links
    → let joined_link = record l { peer = identified l.peer msg key } in
      find_link (put h.links addr joined_link) msg.jid ≡ some (addr, joined_link)
      → Seals c.primitives key t.nonces
      → let h' = (handle_hello c codec k h addr l msg t).0 in
        (l' : Link) × (q' : Queue) × (find_link h'.links msg.jid ≡ some (addr, l'))
        × (l'.output ≡ l.output ++ sealed_for c.primitives key t.nonces 0 msg.jid q.items)
        × (h'.queue ≡ some q')
        × (q'.items ≡ filterb (λ m. not (sent_id msg.jid q.items m.id)) q.items)
        × All (λ m. str_eq m.to_jid msg.jid ≡ false) q'.items
unfolding handle_hello first_hello deliver_pending identified Queue.pending
handle_hello-delivers c codec k h addr l msg t q their_pub key parses real derives fresh live waits
      d first seals =
    let l' = record l { peer = identified l.peer msg key } in
    let links = put h.links addr l' in
    let (out, left) =
      deliver_all-live c codec msg.jid key addr t 0 links q l' q.items (put-IsMap h.links addr l' d)
        first refl live seals in
    let state = deliver_all c codec msg.jid t 0 (links, q) q.items in
    (
      record l' { output = l.output ++ sealed_for c.primitives key t.nonces 0 msg.jid q.items },
      state.1,
      ground (arith, parses, real, derives, fresh, waits, out),
      refl,
      ground (arith, parses, real, derives, fresh, waits),
      left,
      rw left (left_over msg.jid q.items q.items (λ id e. e)),
    )
