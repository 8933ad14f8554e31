-- ===== src/FileTransfer/Receiving.antt =====
-- The receiving side of internal/filetransfer/filetransfer.go: what the count of chunks says about
-- the chunks that are there.
use korik.Prelude.{
  Bool, List, Str, [], arith, false, if◌then◌else◌, int_eq_iff, int_key, leb, leb_ℤ, length, ltb,
  ltb_ℤ, negsuc, none, not, pos, pos_part, refl, str_key, suc, true, zero, ℕ, ℤ, ◌&&◌, ◌+◌, ◌↔◌,
  ◌∷◌, ◌≡◌, ◌≤◌,
}
use korik.GoMap.{IsMap, Map, get, get-put, length-put_new, put, put-IsMap}
use korik.FileTransfer.{
  Transfer, create_receive_transfer, is_complete, missing_chunks, missing_from, receive,
  write_chunk,
}

unfoldable pub total_bytes : Map ℤ (List ℕ) → ℕ
total_bytes [] = 0
total_bytes ((_, payload) ∷ m) = length payload + total_bytes m

-- The counters of a receiving transfer count what its map of chunks holds.
pub record IsValid (t : Transfer) : Type 0 where
  pub distinct : IsMap t.chunks
  pub counted : t.chunks_recv ≡ length t.chunks
  pub sized : t.bytes_sent ≡ total_bytes t.chunks

pub create-IsValid :
    (id name jid : Str) (size total : ℤ) (now : ℕ)
    → IsValid (create_receive_transfer id name jid size total now)
unfolding create_receive_transfer total_bytes
create-IsValid id name jid size total now = record { distinct = tt; counted = refl; sized = refl }

total-put_new :
    (m : Map ℤ (List ℕ)) (k : ℤ) (payload : List ℕ)
    → get m k ≡ none
    → total_bytes (put m k payload) ≡ total_bytes m + length payload
unfolding total_bytes put get
total-put_new [] k payload h = omega arith
total-put_new ((j, w) ∷ m) k payload h = ground (arith, total-put_new m k payload)

-- `WriteChunk` keeps the counters right, whatever index it is
-- given; a chunk whose index was received before changes nothing, not even with other bytes.
pub write_chunk-IsValid :
    (t : Transfer) (index : ℤ) (payload : List ℕ) (now : ℕ)
    → IsValid t
    → IsValid (write_chunk t index payload now).0
      × ((other : List ℕ) (later : ℕ)
          → (write_chunk (write_chunk t index payload now).0 index other later).0
            ≡ (write_chunk t index payload now).0)
unfolding write_chunk
write_chunk-IsValid t index payload now v =
    let new = put-IsMap t.chunks index payload v.distinct in
    let size = length-put_new t.chunks index payload in
    let bytes_of = total-put_new t.chunks index payload in
    (
      record {
        distinct = ground (arith, new);
        counted = ground (arith, size, v.counted);
        sized = ground (arith, bytes_of, v.sized);
      },
      λ other later. ground (arith, get-put t.chunks index index payload, int_eq_iff index index),
    )

pub in_range : ℕ → ℤ → Bool
in_range n (pos j) = ltb j n
in_range n (negsuc j) = false

-- How many of the chunks have an index that the file has no place for.
unfoldable pub strays : ℕ → Map ℤ (List ℕ) → ℕ
unfolding in_range
strays n [] = 0
strays n ((k, _) ∷ m) = (if in_range n k then 0 else 1) + strays n m

missing-empty : (i r : ℕ) → length (missing_from [] i r) ≡ r
unfolding missing_from get
missing-empty i zero = refl
missing-empty i (suc r) = omega (arith, missing-empty (suc i) r)

-- A chunk with index j fills the place j, if it is among the places i, ..., i + r - 1.
missing-cons :
    (m : Map ℤ (List ℕ)) (k : ℤ) (payload : List ℕ) (i r : ℕ)
    → get m k ≡ none
    → length (missing_from ((k, payload) ∷ m) i r)
        + (if not (ltb_ℤ k (pos i)) && in_range (i + r) k then 1 else 0)
      ≡ length (missing_from m i r)
unfolding missing_from get in_range
missing-cons m (pos j) payload i zero h = ground arith
missing-cons m (negsuc j) payload i zero h = omega arith
missing-cons m k payload i (suc r) h =
    ground (arith, int_eq_iff k (pos i), missing-cons m k payload (suc i) r h)

-- Every place of the file is missing or filled by a chunk, and every chunk fills one or is a stray.
length-missing_from :
    (n : ℕ) (m : Map ℤ (List ℕ)) → IsMap m → length (missing_from m 0 n) + length m ≡ n + strays n m
unfolding strays in_range
length-missing_from n [] d = omega (arith, missing-empty 0 n)
length-missing_from n ((pos j, payload) ∷ m) d =
    ground (arith, missing-cons m (pos j) payload 0 n d.0, length-missing_from n m d.1)
length-missing_from n ((negsuc j, payload) ∷ m) d =
    ground (arith, missing-cons m (negsuc j) payload 0 n d.0, length-missing_from n m d.1)

leb-pos_part : (total : ℤ) (n : ℕ) → leb_ℤ total (pos n) ≡ leb (pos_part total) n
leb-pos_part (pos k) n = refl
leb-pos_part (negsuc k) n = ground arith

module _ (t : Transfer) (v : IsValid t) (receiving : t.direction ≡ receive) where
  -- The missing places and the chunks received add up to the places of the file, if no index is out
  -- of range; each index out of range makes the count of received chunks one too high.
  pub length-missing_chunks :
      length (missing_chunks t) + t.chunks_recv
      ≡ pos_part t.chunk_total + strays (pos_part t.chunk_total) t.chunks
  unfolding missing_chunks
  length-missing_chunks =
      let e = length-missing_from (pos_part t.chunk_total) t.chunks v.distinct in
      ground (arith, e, v.counted, receiving)

  -- A transfer passes for complete exactly if no more places are missing than there are chunks with
  -- an index out of range: without such chunks, exactly if nothing is missing.
  pub is_complete_iff :
      (is_complete t ≡ true)
      ↔ (length (missing_chunks t) ≤ strays (pos_part t.chunk_total) t.chunks)
  unfolding is_complete
  is_complete_iff = ground (arith, leb-pos_part t.chunk_total t.chunks_recv, length-missing_chunks)
