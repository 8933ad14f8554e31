-- ===== src/FileTransfer/Chunking.antt =====
-- The sending side of internal/filetransfer/filetransfer.go: how a file is cut into chunks.
use korik.Prelude.{
  List, Str, [], ap, arith, drop, drop-drop, false, leb_ℤ, length, length-drop, length-take, pos,
  refl, some, suc, sym, take, take-add, take-all, take-length, true, zero, ℕ, ◌*◌, ◌++◌, ◌+◌, ◌-◌,
  ◌/◌, ◌<◌, ◌∙◌, ◌∷◌, ◌≡◌,
}
use korik.FileTransfer.{
  OpenFile, Transfer, after_read, chunk, chunk_size, completed, create_send_transfer, end_of_file,
  not_a_send_transfer, read_chunk, read_error, read_file, send,
}

-- The bytes of the place `index`, for chunks of `size` bytes.
abbrev pub cut : ℕ → List ℕ → ℕ → List ℕ
cut size content index = take size (drop (index * size) content)

-- `n` chunks, from the place `index` on.
unfoldable pub cuts : ℕ → List ℕ → ℕ → ℕ → List (List ℕ × ℕ)
cuts size content index zero = []
cuts size content index (suc n) = (cut size content index, index) ∷ cuts size content (suc index) n

unfoldable pub joined : List (List ℕ × ℕ) → List ℕ
joined [] = []
joined ((payload, _) ∷ rest) = payload ++ joined rest

joined-cuts :
    (size : ℕ) (content : List ℕ) (index n : ℕ)
    → joined (cuts size content index n) ≡ take (n * size) (drop (index * size) content)
unfolding joined cuts
joined-cuts size content index zero = let e : 0 * size ≡ 0 = omega arith in rw e
joined-cuts size content index (suc n) =
    let e : suc n * size ≡ size + n * size = omega arith in
    let d : suc index * size ≡ index * size + size = omega arith in
    rw (joined-cuts size content (suc index) n, d, ← drop-drop size (index * size) content, e)
      (sym (take-add size (n * size) (drop (index * size) content)))

-- The number of chunks of a file.
abbrev pub chunk_count : List ℕ → ℕ
chunk_count content = (length content + chunk_size - 1) / chunk_size

-- A sending transfer that has read `k` chunks of its file.
pub record HasRead (t : Transfer) (content : List ℕ) (k : ℕ) : Type 0 where
  pub sends : t.direction ≡ send
  pub total : t.chunk_total ≡ pos (chunk_count content)
  pub sent : t.chunks_sent ≡ k
  pub handle :
      k < chunk_count content
      → t.file ≡ some (record { content = content; offset = k * chunk_size; closed = false })
  pub finish : 0 < k → k ≡ chunk_count content → t.status ≡ completed

pub create-HasRead :
    (id path base_name jid : Str) (content : List ℕ) (now : ℕ)
    → HasRead (create_send_transfer id path base_name jid content now) content 0
unfolding create_send_transfer
create-HasRead id path base_name jid content now = record {
  sends = refl;
  total = refl;
  sent = refl;
  handle = λ h. refl;
  finish = λ h e. absurd (omega arith);
}

length-cut :
    (content : List ℕ) (k : ℕ)
    → suc k < chunk_count content
    → k * chunk_size + length (cut chunk_size content k) ≡ suc k * chunk_size
length-cut content k h = omega (
  arith,
  length-take chunk_size (drop (k * chunk_size) content),
  length-drop (k * chunk_size) content,
)

abbrev at_place : List ℕ → ℕ → OpenFile
at_place content k = record { content = content; offset = k * chunk_size; closed = false }

abbrev past_place : List ℕ → ℕ → OpenFile
past_place content k = record (at_place content k) {
  offset = k * chunk_size + length (cut chunk_size content k);
}

read_file_at :
    (content : List ℕ) (k : ℕ)
    → read_file (some (at_place content k)) ≡ some (past_place content k, cut chunk_size content k)
unfolding read_file
read_file_at content k = refl

-- What one more read does.
module _ (t : Transfer) (content : List ℕ) (k now : ℕ) (r : HasRead t content k)
    (h : k < chunk_count content) where
  read_chunk-after_read : read_chunk t now ≡ (
    after_read t (past_place content k) (cut chunk_size content k) now,
    chunk (cut chunk_size content k) k,
  )
  unfolding read_chunk
  read_chunk-after_read =
      let e : read_file t.file ≡ some (past_place content k, cut chunk_size content k) =
        rw (r.handle h) (read_file_at content k) in
      let more : leb_ℤ t.chunk_total (pos t.chunks_sent) ≡ false =
        rw (r.total, r.sent) (ground arith) in
      ground (arith, e, more, r.sends, r.sent)

  after_read-HasRead :
      HasRead (after_read t (past_place content k) (cut chunk_size content k) now) content (suc k)
  unfolding after_read
  after_read-HasRead = record {
    sends = r.sends;
    total = r.total;
    sent = omega (arith, r.sent);
    handle = λ next.
        let open_still : leb_ℤ t.chunk_total (pos (t.chunks_sent + 1)) ≡ false =
          rw (r.total, r.sent) (ground arith) in
        rw (length-cut content k next, open_still);
    finish = λ some_read last.
        let done : leb_ℤ t.chunk_total (pos (t.chunks_sent + 1)) ≡ true =
          rw (r.total, r.sent) (ground arith) in
        rw done;
  }

-- The loop of a sender: it reads until there is no next chunk, `rounds` times at most.
unfoldable pub read_all : ℕ → Transfer → ℕ → List (List ℕ × ℕ) × Transfer
read_all zero t now = ([], t)
read_all (suc rounds) t now =
    let (t', result) = read_chunk t now in
    let (rest, last) = read_all rounds t' now in
    elim result [
      | chunk payload index ↦ ((payload, index) ∷ rest, last)
      | not_a_send_transfer ↦ ([], t')
      | end_of_file _ ↦ ([], t')
      | read_error _ ↦ ([], t')
    ]

read_all-chunk :
    (rounds now : ℕ) (t t' : Transfer) (payload : List ℕ) (index : ℕ)
    → read_chunk t now ≡ (t', chunk payload index)
    → read_all (suc rounds) t now
      ≡ ((payload, index) ∷ (read_all rounds t' now).0, (read_all rounds t' now).1)
unfolding read_all
read_all-chunk rounds now t t' payload index e = ground (arith, e)

read_all-end :
    (rounds now : ℕ) (t t' : Transfer) (index : ℕ)
    → read_chunk t now ≡ (t', end_of_file index)
    → read_all (suc rounds) t now ≡ ([], t')
unfolding read_all
read_all-end rounds now t t' index e = ground (arith, e)

read_chunk_end :
    (t : Transfer) (content : List ℕ) (k now : ℕ)
    → HasRead t content k
    → k ≡ chunk_count content
    → read_chunk t now ≡ (t, end_of_file t.chunks_sent)
unfolding read_chunk
read_chunk_end t content k now r e =
    let done : leb_ℤ t.chunk_total (pos t.chunks_sent) ≡ true =
      rw (r.total, r.sent) (ground arith) in
    ground (arith, done, r.sends)

read_all-HasRead :
    (n rounds : ℕ) (t : Transfer) (content : List ℕ) (k now : ℕ)
    → HasRead t content k
    → k + n ≡ chunk_count content
    → n < rounds
    → ((read_all rounds t now).0 ≡ cuts chunk_size content k n)
      × HasRead (read_all rounds t now).1 content (chunk_count content)
unfolding cuts
read_all-HasRead n zero t content k now r e h = absurd (omega arith)
read_all-HasRead zero (suc rounds) t content k now r e h =
    let all : k ≡ chunk_count content = omega arith in
    rw (read_all-end rounds now t t t.chunks_sent (read_chunk_end t content k now r all))
      (refl, rw all at r)
read_all-HasRead (suc n) (suc rounds) t content k now r e h =
    let more : k < chunk_count content = omega arith in
    let t' = after_read t (past_place content k) (cut chunk_size content k) now in
    let step = read_chunk-after_read t content k now r more in
    let next = after_read-HasRead t content k now r more in
    let (rest, last) =
      read_all-HasRead n rounds t' content (suc k) now next (omega arith) (omega arith) in
    rw (read_all-chunk rounds now t t' (cut chunk_size content k) k step)
      (ap (◌∷◌ (cut chunk_size content k, k)) rest, last)

pub joined_whole :
    (content : List ℕ) → joined (cuts chunk_size content 0 (chunk_count content)) ≡ content
joined_whole content =
    joined-cuts chunk_size content 0 (chunk_count content)
    ∙ take-all (chunk_count content * chunk_size) (length content) content (omega arith)
        (omega arith)
    ∙ take-length content

-- A sender that reads until the end of its file, one round more than there are chunks being enough,
-- sends the chunks 0, 1, 2, ... in order; together they are the file, no byte twice and none left
-- out, and a file that is not empty leaves the transfer completed.
pub read_all-create :
    (id path base_name jid : Str) (content : List ℕ) (now rounds : ℕ)
    → chunk_count content < rounds
    → let t = create_send_transfer id path base_name jid content now in
      ((read_all rounds t now).0 ≡ cuts chunk_size content 0 (chunk_count content))
      × (joined (read_all rounds t now).0 ≡ content)
      × (0 < length content → (read_all rounds t now).1.status ≡ completed)
read_all-create id path base_name jid content now rounds enough =
    let t = create_send_transfer id path base_name jid content now in
    let (all, last) =
      read_all-HasRead (chunk_count content) rounds t content 0 now
        (create-HasRead id path base_name jid content now) (omega arith) enough in
    (all, rw all (joined_whole content), λ positive. last.finish (omega arith) refl)
