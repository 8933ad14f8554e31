-- ===== src/FileTransfer/Tests.antt =====
-- The theorems on internal/filetransfer/filetransfer.go at concrete transfers.
use korik.Prelude.{
  List, Option, Str, [], arith, bytes, false, int_eq, int_key, length, negsuc, none, pos, refl,
  some, str_eq, str_key, true, ℕ, ℤ, ◌+◌, ◌<◌, ◌↔◌, ◌∷◌, ◌≡◌, ◌≤◌, ◌⊎◌,
}
use korik.GoMap.{get, put}
use korik.FileTransfer.{
  Transfer, chunk_size, completed, create_receive_transfer, create_send_transfer, is_complete,
  missing_chunks, missing_from, write_chunk, write_chunks,
}
use korik.FileTransfer.Chunking.{cuts, joined, read_all, read_all-create}
use korik.FileTransfer.Receiving.{
  IsValid, create-IsValid, is_complete_iff, length-missing_chunks, strays, write_chunk-IsValid,
}
use korik.FileTransfer.Delivery.{deliver, delivered}
use korik.Storage.{written}
use korik.FileTransfer.Checkpoint.{
  Formats, IsSound, checkpoint, combine, meta_of, restore_partial, restore_partial-checkpoint,
}
use korik.FileTransfer.Saving.{save_file, save_file_waits, unlocked, waits, write_locked}

program : Unit {0}
unfolding create_receive_transfer write_chunk put get is_complete missing_chunks missing_from strays
    deliver int_eq
program = tt

-- A file of two chunks is announced.
abbrev announced : Transfer
announced =
    create_receive_transfer (bytes "t1") (bytes "a.txt") (bytes "korik:a") (pos 70000) (pos 2) 5

announced-IsValid : IsValid announced
announced-IsValid =
    create-IsValid (bytes "t1") (bytes "a.txt") (bytes "korik:a") (pos 70000) (pos 2) 5

-- A chunk that the file has no place for, and then the chunk 1.
abbrev with_stray : Transfer
with_stray = (write_chunk (write_chunk announced (pos 9) (7 ∷ []) 6).0 (pos 1) (1 ∷ 2 ∷ []) 7).0

with_stray-IsValid : IsValid with_stray
with_stray-IsValid =
    (write_chunk-IsValid (write_chunk announced (pos 9) (7 ∷ []) 6).0 (pos 1) (1 ∷ 2 ∷ []) 7
      (write_chunk-IsValid announced (pos 9) (7 ∷ []) 6 announced-IsValid).0).0

-- The transfer passes for complete, and the chunk 0 is missing.
complete_with_a_hole : (is_complete with_stray ≡ true) × (missing_chunks with_stray ≡ 0 ∷ [])
unfolding program
complete_with_a_hole = (refl, refl)

write_chunk-IsValid_test :
    IsValid (write_chunk announced (pos 1) (1 ∷ 2 ∷ []) 6).0
    × ((other : List ℕ) (later : ℕ)
        → (write_chunk (write_chunk announced (pos 1) (1 ∷ 2 ∷ []) 6).0 (pos 1) other later).0
          ≡ (write_chunk announced (pos 1) (1 ∷ 2 ∷ []) 6).0)
write_chunk-IsValid_test = write_chunk-IsValid announced (pos 1) (1 ∷ 2 ∷ []) 6 announced-IsValid

length-missing_chunks_test : length (missing_chunks with_stray) + 2 ≡ 2 + strays 2 with_stray.chunks
unfolding program
length-missing_chunks_test = length-missing_chunks with_stray with_stray-IsValid refl

is_complete_iff_test :
    (is_complete with_stray ≡ true)
    ↔ (length (missing_chunks with_stray) ≤ strays 2 with_stray.chunks)
unfolding program
is_complete_iff_test = is_complete_iff with_stray with_stray-IsValid refl

read_all-create_example :
    let t =
      create_send_transfer
        (bytes "t1")
        (bytes "/a.txt")
        (bytes "a.txt")
        (bytes "korik:a")
        (1 ∷ 2 ∷ 3 ∷ [])
        6 in
    ((read_all 2 t 6).0 ≡ cuts chunk_size (1 ∷ 2 ∷ 3 ∷ []) 0 1)
    × (joined (read_all 2 t 6).0 ≡ 1 ∷ 2 ∷ 3 ∷ [])
    × (0 < 3 → (read_all 2 t 6).1.status ≡ completed)
read_all-create_example =
    read_all-create (bytes "t1") (bytes "/a.txt") (bytes "a.txt") (bytes "korik:a") (1 ∷ 2 ∷ 3 ∷ [])
      6 2 (omega arith)

delivered_example :
    let t =
      deliver
        (1 ∷ 2 ∷ 3 ∷ [])
        6
        (create_receive_transfer (bytes "t1") (bytes "a.txt") (bytes "korik:a") (pos 3) (pos 1) 6)
        (0 ∷ 0 ∷ []) in
    (is_complete t ≡ true)
    × (missing_chunks t ≡ [])
    × (write_chunks t.chunks (λ k. false) 0 1 [] ≡ ((1 ∷ 2 ∷ 3 ∷ []), none))
delivered_example =
    delivered (bytes "t1") (bytes "a.txt") (bytes "korik:a") (pos 3) (1 ∷ 2 ∷ 3 ∷ []) 6 (0 ∷ 0 ∷ [])
      (λ i h. let e : i ≡ 0 = omega arith in rw e refl)

save_file_waits_example :
    ((unlocked ≡ unlocked) × (save_file unlocked announced (λ k. false) ≡ waits write_locked))
    ⊎ (save_file unlocked announced (λ k. false) ≡ waits unlocked)
unfolding create_receive_transfer
save_file_waits_example = save_file_waits unlocked announced (λ k. false) refl

-- An index is its own text, after a zero if it is negative; a chunk is its own text.
abbrev index_text : ℤ → Str
index_text (pos n) = n ∷ []
index_text (negsuc n) = 0 ∷ n ∷ []

abbrev text_index : Str → Option ℤ
text_index [] = none
text_index (n ∷ []) = some (pos n)
text_index (_ ∷ n ∷ _) = some (negsuc n)

-- Codecs that know one value.
abbrev formats : Formats
formats = record {
  itoa = index_text;
  atoi = text_index;
  encode_chunk = λ v. v;
  decode_chunk = λ v. some v;
  metas = record { encode = λ meta. []; decode = λ text. some (meta_of announced) };
  maps = record {
    encode = λ combined. [];
    decode = λ text. some ((9 ∷ [], 7 ∷ []) ∷ (1 ∷ [], 1 ∷ 2 ∷ []) ∷ []);
  };
}

text_index-index_text : (k : ℤ) → text_index (index_text k) ≡ some k
text_index-index_text (pos n) = refl
text_index-index_text (negsuc n) = refl

formats-IsSound : IsSound formats
formats-IsSound = record { index_back = text_index-index_text; chunk_back = λ v. refl }

restore_partial-checkpoint_example :
    restore_partial formats
      (checkpoint formats with_stray written written (record { meta = none; chunks = none })).0
      9
    ≡ some (record announced {
      started_at = 9;
      last_update = 9;
      chunks = with_stray.chunks;
      chunks_recv = 2;
      bytes_sent = 3;
    })
unfolding program combine str_eq
restore_partial-checkpoint_example =
    restore_partial-checkpoint formats formats-IsSound with_stray
      (record { meta = none; chunks = none }) 9 with_stray-IsValid refl refl refl
