-- ===== src/Peer/Files/Tests.antt =====
-- File transfers between small nodes.
use korik.Prelude.{
  All, [], bytes, false, int_key, length, map, none, pos, refl, some, str_eq, str_key, true, ◌∷◌,
  ◌≡◌,
}
use korik.GoMap.{get, put}
use korik.Storage.{written}
use korik.FileTransfer.{
  Transfer, create_receive_transfer, create_send_transfer, is_complete, missing_chunks, write_chunk,
  write_chunks,
}
use korik.FileTransfer.Chunking.{chunk_count}
use korik.FileTransfer.Delivery.{deliver}
use korik.FileTransfer.Checkpoint.{Formats}
use korik.FileTransfer.Saving.{unlocked, waits, write_locked}
use korik.Peer.Samples.{ready_conn}
use korik.Peer.Broadcast.{Conns}
use korik.Peer.Files.{
  Manager, accept_file, first_ready, handle_file_chunk, handle_file_offer, reject_file,
  resend_chunks,
}
use korik.Peer.Files.Resume.{resend_chunks-completes, take_chunks}
use korik.Peer.Files.Answers.{accept_file-first, handle_file_chunk-waits, handle_file_offer-again}

program : Unit {0}
unfolding first_ready get put str_eq create_send_transfer create_receive_transfer write_chunk
    is_complete deliver
program = tt

-- A file of one chunk, of which nothing has arrived.
abbrev sender : Transfer
unfolding create_send_transfer
sender = create_send_transfer (bytes "f1") [] (bytes "a.txt") (bytes "bob") (1 ∷ 2 ∷ []) 0

abbrev manager : Manager
manager = record { transfers = (bytes "f1", sender) ∷ []; partials = [] }

resend_chunks-completes_example :
    let start =
      create_receive_transfer
        (bytes "f1")
        (bytes "a.txt")
        (bytes "ann")
        (pos 2)
        (pos (chunk_count (1 ∷ 2 ∷ [])))
        0 in
    let interrupted = deliver (1 ∷ 2 ∷ []) 0 start [] in
    let asked = missing_chunks interrupted in
    let sent = resend_chunks manager (bytes "f1") (some (1 ∷ 2 ∷ [])) (map pos asked) in
    let t = take_chunks interrupted 0 sent in
    (length sent ≡ length asked)
    × (is_complete t ≡ true)
    × (missing_chunks t ≡ [])
    × (write_chunks t.chunks (λ k. false) 0 (chunk_count (1 ∷ 2 ∷ [])) [] ≡ (1 ∷ 2 ∷ [], none))
unfolding program
resend_chunks-completes_example =
    resend_chunks-completes manager sender (bytes "f1") (bytes "a.txt") (bytes "ann") (pos 2)
      (1 ∷ 2 ∷ []) 0 [] refl refl refl

abbrev formats : Formats
formats = record {
  itoa = λ k. [];
  atoi = λ s. some (pos 0);
  encode_chunk = λ v. v;
  decode_chunk = λ s. some s;
  metas = record { encode = λ x. []; decode = λ s. none };
  maps = record { encode = λ x. []; decode = λ s. none };
}

handle_file_offer-again_test :
    let m' =
      (handle_file_offer formats
        (record { transfers = []; partials = [] })
        (ready_conn (bytes "bob"))
        (bytes "f1")
        (bytes "a.txt")
        (pos 2)
        (pos 1)
        5).0 in
    handle_file_offer formats m'
      (ready_conn (bytes "eve"))
      (bytes "f1")
      (bytes "b.exe")
      (pos 9)
      (pos 1)
      6
    ≡ (m', false)
handle_file_offer-again_test =
    handle_file_offer-again formats (record { transfers = []; partials = [] })
      (ready_conn (bytes "bob")) (ready_conn (bytes "eve")) (bytes "f1") (bytes "a.txt")
      (bytes "b.exe") (pos 2) (pos 1) (pos 9) (pos 1) 5 6

-- Bob, at the second address, made the offer.
abbrev two_conns : Conns
two_conns = (bytes "e", ready_conn (bytes "eve")) ∷ (bytes "b", ready_conn (bytes "bob")) ∷ []

accept_file-first_test :
    (All (λ sent. str_eq sent.0 (bytes "b") ≡ false) (accept_file two_conns (bytes "f1")).0)
    × (All (λ sent. str_eq sent.0 (bytes "b") ≡ false) (reject_file two_conns (bytes "f1")).0)
unfolding program
accept_file-first_test = accept_file-first two_conns (bytes "b") (bytes "e") (bytes "f1") refl refl

abbrev receiver : Manager
unfolding create_receive_transfer
receiver = record {
  transfers =
      (
        bytes "f1",
        create_receive_transfer (bytes "f1") (bytes "a.txt") (bytes "ann") (pos 2) (pos 1) 0,
      )
      ∷ [];
  partials = [];
}

handle_file_chunk-waits_test :
    let (m', call) =
      handle_file_chunk formats receiver unlocked
        (bytes "f1")
        (pos 0)
        (some (1 ∷ 2 ∷ []))
        3
        written
        written
        (λ i. false) in
    (get m'.transfers (bytes "f1")
      ≡ some
          (write_chunk
            (create_receive_transfer (bytes "f1") (bytes "a.txt") (bytes "ann") (pos 2) (pos 1) 0)
            (pos 0)
            (1 ∷ 2 ∷ [])
            3).0)
    × (call ≡ waits write_locked)
unfolding program
handle_file_chunk-waits_test =
    handle_file_chunk-waits formats receiver
      (create_receive_transfer (bytes "f1") (bytes "a.txt") (bytes "ann") (pos 2) (pos 1) 0)
      (bytes "f1") (pos 0) (1 ∷ 2 ∷ []) 3 written written (λ i. false) refl refl refl
