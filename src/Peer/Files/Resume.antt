-- ===== src/Peer/Files/Resume.antt =====
-- A transfer that was interrupted, from `RequestResume` of the receiver to `resendChunks` of the
-- sender, in internal/peer/node.go.
use korik.Prelude.{
  Bool, Bool-cases, List, Option-cases, Str, [], ap, arith, false, inl, inr, int_eq-pos, int_key,
  leb, length, ltb, map, none, pos, refl, some, str_key, suc, sym, true, zero, ℕ, ℤ, ≟_iff, ◌++◌,
  ◌+◌, ◌<◌, ◌||◌, ◌∷◌, ◌≟◌, ◌≡◌, ◌≤◌,
}
use korik.GoMap.{Map, get, get-put, put}
use korik.FileTransfer.{
  Transfer, chunk_at, chunk_size, create_receive_transfer, is_complete, missing_chunks,
  missing_from, read_chunk_at, receive, send, write_chunk, write_chunks,
}
use korik.FileTransfer.Chunking.{chunk_count, cut}
use korik.Peer.Files.{FileMessage, Manager, file_chunk, resend_chunks, resend_from}
use korik.FileTransfer.Delivery.{arrived, chunks-deliver, create-Receives, deliver, delivered}

-- The receiver writes the chunks of the messages that arrive, one after the other.
unfoldable pub take_chunks : Transfer → ℕ → List FileMessage → Transfer
take_chunks t now [] = t
take_chunks t now (file_chunk id index total payload ∷ messages) =
    take_chunks (write_chunk t index payload now).0 now messages
take_chunks t now (_ ∷ messages) = take_chunks t now messages

module _ (t : Transfer) (id : Str) (content : List ℕ) where
  abbrev pub chunk_message : ℕ → FileMessage
  chunk_message i = file_chunk id (pos i) t.chunk_total (cut chunk_size content i)

  read_chunk_at_place :
      (i total : ℕ)
      → t.direction ≡ send
      → t.chunk_total ≡ pos total
      → i < total
      → read_chunk_at t (some content) (pos i) ≡ chunk_at (cut chunk_size content i)
  unfolding read_chunk_at
  read_chunk_at_place i total sends e lt =
      let not_negative : ltb i 0 ≡ false = ground arith in
      let within : leb total i ≡ false = ground arith in
      rw (read_chunk_at, sends, e, not_negative, within) refl

  resend-missing_from :
      (chunks : Map ℤ (List ℕ)) (seen : Map ℤ Bool) (i n : ℕ)
      → t.direction ≡ send
      → t.chunk_total ≡ pos (i + n)
      → ((k : ℕ) → i ≤ k → get seen (pos k) ≡ none)
      → resend_from t id (some content) seen (map pos (missing_from chunks i n))
        ≡ map chunk_message (missing_from chunks i n)
  unfolding resend_from missing_from
  resend-missing_from chunks seen i zero sends total h = refl
  resend-missing_from chunks seen i (suc n) sends total h =
      let later : t.chunk_total ≡ pos (suc i + n) = rw total (ap pos (omega arith)) in
      elim (Option-cases (get chunks (pos i))) [
        | inl missing ↦ ground (
          arith,
          missing,
          h i (omega arith),
          read_chunk_at_place i (i + suc n) sends total (omega arith),
          resend-missing_from chunks (put seen (pos i) true) (suc i) n sends later (λ k le.
              ground (arith, get-put seen (pos i) (pos k) true, int_eq-pos i k, h k (omega arith))),
        )
        | inr (payload, there) ↦ ground (
          arith,
          there,
          resend-missing_from chunks seen (suc i) n sends later (λ k le. h k (omega arith)),
        )
      ]

  resend-all :
      (m : Manager) (chunks : Map ℤ (List ℕ)) (n : ℕ)
      → get m.transfers id ≡ some t
      → t.direction ≡ send
      → t.chunk_total ≡ pos n
      → resend_chunks m id (some content) (map pos (missing_from chunks 0 n))
        ≡ map chunk_message (missing_from chunks 0 n)
  unfolding resend_chunks get
  resend-all m chunks n there sends total =
      let total' : t.chunk_total ≡ pos (0 + n) = rw total (ap pos (omega arith)) in
      let e = resend-missing_from chunks [] 0 n sends total' (λ k le. refl) in
      rw (resend_chunks, there) e

  take-chunk_messages :
      (r : Transfer) (now : ℕ) (is : List ℕ)
      → take_chunks r now (map chunk_message is) ≡ deliver content now r is
  unfolding take_chunks deliver
  take-chunk_messages r now [] = refl
  take-chunk_messages r now (i ∷ is) =
      take-chunk_messages (write_chunk r (pos i) (cut chunk_size content i) now).0 now is

length-map {ℓ} : {A B : Type ℓ} (f : A → B) (xs : List A) → length (map f xs) ≡ length xs
length-map f [] = refl
length-map f (x ∷ xs) = ap suc (length-map f xs)

deliver-append :
    (content : List ℕ) (now : ℕ) (t : Transfer) (js is : List ℕ)
    → deliver content now t (js ++ is) ≡ deliver content now (deliver content now t js) is
unfolding deliver
deliver-append content now t [] is = refl
deliver-append content now t (j ∷ js) is =
    deliver-append content now (write_chunk t (pos j) (cut chunk_size content j) now).0 js is

arrived-append : (js is : List ℕ) (i : ℕ) → arrived (js ++ is) i ≡ (arrived js i || arrived is i)
arrived-append [] is i = refl
arrived-append (j ∷ js) is i = ground (arith, arrived-append js is i)

-- A place without a chunk is missing.
arrived-missing_from :
    (chunks : Map ℤ (List ℕ)) (i n k : ℕ)
    → i ≤ k
    → k < i + n
    → get chunks (pos k) ≡ none
    → arrived (missing_from chunks i n) k ≡ true
unfolding missing_from
arrived-missing_from chunks i zero k le lt h = absurd (omega arith)
arrived-missing_from chunks i (suc n) k le lt h = elim (Bool-cases (i ≟ k)) [
  | inl here ↦
      let e : get chunks (pos i) ≡ none = rw ((≟_iff i k).0 here) h in ground (arith, e, here)
  | inr other ↦
      let rest : arrived (missing_from chunks (suc i) n) k ≡ true =
        arrived-missing_from chunks (suc i) n k (ground (arith, other)) (omega arith) h in
      ground (arith, rest)
]

missing_chunks-missing_from :
    (t : Transfer) (n : ℕ)
    → t.direction ≡ receive
    → t.chunk_total ≡ pos n
    → missing_chunks t ≡ missing_from t.chunks 0 n
unfolding missing_chunks
missing_chunks-missing_from t n r e = rw (missing_chunks, r, e) refl

-- A receiver of a file has got some of its chunks, in whatever order and however often, when the
-- transfer is interrupted. It asks for the chunks that are missing, and the sender, whose file is as
-- it was, sends each of them once. When they have arrived the transfer is complete, nothing is
-- missing, and writing the chunks in order gives the file.
pub resend_chunks-completes :
    (m : Manager) (sender : Transfer) (id name jid : Str) (size : ℤ) (content : List ℕ) (now : ℕ)
    (js : List ℕ)
    → get m.transfers id ≡ some sender
    → sender.direction ≡ send
    → sender.chunk_total ≡ pos (chunk_count content)
    → let start = create_receive_transfer id name jid size (pos (chunk_count content)) now in
      let interrupted = deliver content now start js in
      let asked = missing_chunks interrupted in
      let sent = resend_chunks m id (some content) (map pos asked) in
      let t = take_chunks interrupted now sent in
      (length sent ≡ length asked)
      × (is_complete t ≡ true)
      × (missing_chunks t ≡ [])
      × (write_chunks t.chunks (λ k. false) 0 (chunk_count content) [] ≡ (content, none))
unfolding create_receive_transfer get
resend_chunks-completes m sender id name jid size content now js there sends total =
    let start = create_receive_transfer id name jid size (pos (chunk_count content)) now in
    let interrupted = deliver content now start js in
    let asked = missing_chunks interrupted in
    let (r, places) =
      chunks-deliver content now start js (create-Receives id name jid size content now) in
    let e : asked ≡ missing_from interrupted.chunks 0 (chunk_count content) =
      missing_chunks-missing_from interrupted (chunk_count content) r.receives r.total in
    let sent : resend_chunks m id (some content) (map pos asked)
        ≡ map (chunk_message sender id content) asked =
      rw e (
        resend-all sender id content m interrupted.chunks (chunk_count content) there sends
          total) in
    let all : (i : ℕ) → i < chunk_count content → arrived (js ++ asked) i ≡ true = λ i lt.
      elim (Bool-cases (arrived js i)) [
        | inl before ↦ ground (arith, before, arrived-append js asked i)
        | inr not_yet ↦
            let gone : get interrupted.chunks (pos i) ≡ none = ground (arith, places i, not_yet) in
            ground (
              arith,
              arrived-append js asked i,
              e,
              arrived-missing_from interrupted.chunks 0 (chunk_count content) i (omega arith)
                  (omega arith) gone,
            )
      ] in
    let same : take_chunks interrupted now (resend_chunks m id (some content) (map pos asked))
        ≡ deliver content now start (js ++ asked) =
      rw (sent, take-chunk_messages sender id content interrupted now asked)
        (sym (deliver-append content now start js asked)) in
    let (complete, nothing, whole) = delivered id name jid size content now (js ++ asked) all in
    (
      rw sent (length-map (chunk_message sender id content) asked),
      rw same complete,
      rw same nothing,
      rw same whole,
    )
