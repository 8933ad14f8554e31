-- ===== src/Peer/Files.antt =====
-- The messages of file transfers in internal/peer/node.go: offers, answers, chunks and what is asked
-- for again. The base64 of a chunk and the goroutines are left out: a chunk that does not decode is
-- `none`, and what a goroutine sends is the output of the function that it runs.
pub mod Resume
pub mod Answers
mod Tests
use korik.Prelude.{
  Bool, List, Option, Str, [], bytes, false, if◌then◌else◌, int_key, none, some, str_eq, str_key,
  true, ℕ, ℤ, ◌∷◌,
}
use korik.GoMap.{Map, get, put, remove}
use korik.Storage.{Outcome}
use korik.FileTransfer.{
  Transfer, cancel, chunk_at, completed, create_receive_transfer, is_complete, missing_chunks,
  not_reopened, not_sending, out_of_range, read_chunk_at, write_chunk,
}
use korik.FileTransfer.Checkpoint.{Formats, Partial, checkpoint, restore_partial}
use korik.FileTransfer.Saving.{
  Call, Lock, lock, returns, save_failed, save_file, saved, unlocked, waits,
}
use korik.Peer.{PeerConn}
use korik.Peer.Broadcast.{Conns}

-- `Manager`: its transfers and what stands in its directory of partial transfers.
pub record Manager : Type 0 where
  pub transfers : Map Str Transfer
  pub partials : Map Str Partial

-- The messages that the functions below send, with the fields that they set.
pub data FileMessage : Type 0 where
  file_offer : Str → Str → ℤ → ℤ → FileMessage
  file_accept file_reject file_complete : Str → FileMessage
  file_chunk : Str → ℤ → ℤ → List ℕ → FileMessage
  chunk_request : Str → List ℕ → FileMessage

pub data FileError : Type 0 where
  no_peer_connected unknown_transfer nothing_to_resume no_such_peer not_opened : FileError

-- the range of `AcceptFile`, `RejectFile` and `RequestResume`
unfoldable pub first_ready : Conns → Option Str
first_ready [] = none
first_ready ((addr, pc) ∷ conns) =
    let rest = first_ready conns in elim pc.session_key [ none ↦ rest | some _ ↦ some addr ]

unfoldable pub answer_offer : Conns → FileMessage → List (Str × FileMessage) × Option FileError
unfolding first_ready
answer_offer conns msg = elim (first_ready conns) [
  | none ↦ ([], some no_peer_connected)
  | some addr ↦ ((addr, msg) ∷ [], none)
]

unfoldable pub accept_file : Conns → Str → List (Str × FileMessage) × Option FileError
unfolding answer_offer
accept_file conns id = answer_offer conns (file_accept id)

unfoldable pub reject_file : Conns → Str → List (Str × FileMessage) × Option FileError
unfolding answer_offer
reject_file conns id = answer_offer conns (file_reject id)

-- The loop of `resendChunks`, with the indices that it has seen; `source` is the file that
-- `ReadChunkAt` opens.
unfoldable pub resend_from :
    Transfer → Str → Option (List ℕ) → Map ℤ Bool → List ℤ → List FileMessage
resend_from t id source seen [] = []
resend_from t id source seen (index ∷ missing) =
    let rest = resend_from t id source (put seen index true) missing in
    let skipped = resend_from t id source seen missing in
    elim (get seen index) [
      | some _ ↦ skipped
      | none ↦ elim (read_chunk_at t source index) [
        | chunk_at payload ↦ file_chunk id index t.chunk_total payload ∷ rest
        | not_sending ↦ rest
        | out_of_range ↦ rest
        | not_reopened ↦ rest
      ]
    ]

unfoldable pub resend_chunks : Manager → Str → Option (List ℕ) → List ℤ → List FileMessage
unfolding resend_from
resend_chunks m id source missing = elim (get m.transfers id) [
  | none ↦ []
  | some t ↦ resend_from t id source [] missing
]

-- case MsgChunkRequest, with what its goroutine sends
unfoldable pub handle_chunk_request : Manager → Str → Option (List ℕ) → List ℤ → List FileMessage
unfolding resend_chunks
handle_chunk_request m id source missing = elim missing [
  | [] ↦ []
  | i ∷ is ↦ resend_chunks m id source (i ∷ is)
]

module _ (f : Formats) where
  -- GetTransfer, and RestorePartial where it finds nothing
  unfoldable pub find_or_restore : Manager → Str → ℕ → Manager × Option Transfer
  find_or_restore m id now = elim (get m.transfers id) [
    | some t ↦ (m, some t)
    | none ↦ elim (get m.partials id) [
      | none ↦ (m, none)
      | some files ↦ elim (restore_partial f files now) [
        | none ↦ (m, none)
        | some t ↦ (record m { transfers = put m.transfers id t }, some t)
      ]
    ]
  ]

  unfoldable pub request_resume :
      Manager → Conns → Str → ℕ → (Manager × List (Str × FileMessage)) × Option FileError
  unfolding find_or_restore first_ready
  request_resume m conns id now =
      let (m', looked_up) = find_or_restore m id now in
      elim looked_up [
        | none ↦ ((m', []), some unknown_transfer)
        | some t ↦ elim (missing_chunks t) [
          | [] ↦ ((m', []), some nothing_to_resume)
          | i ∷ is ↦ elim (first_ready conns) [
            | none ↦ ((m', []), some no_peer_connected)
            | some addr ↦ ((m', (addr, chunk_request id (i ∷ is)) ∷ []), none)
          ]
        ]
      ]

  -- case MsgFileOffer: the manager, and whether the user is asked
  unfoldable pub handle_file_offer : Manager → PeerConn → Str → Str → ℤ → ℤ → ℕ → Manager × Bool
  unfolding find_or_restore
  handle_file_offer m pc id name size total now =
      let (m', looked_up) = find_or_restore m id now in
      if str_eq id [] then (m, false) else elim looked_up [
        | some _ ↦ (m', false)
        | none ↦ (
          record m' {
            transfers = put m'.transfers id (create_receive_transfer id name pc.jid size total now);
          },
          true,
        )
      ]

  -- the end of a transfer that is complete
  unfoldable pub saved_chunk :
      Manager → Transfer → Str → (ℕ → Bool) → Manager × Call (List FileMessage)
  saved_chunk m t id fails = elim (save_file unlocked t fails) [
    | waits l ↦ (m, waits l)
    | returns (t', save_failed e) ↦ (record m { transfers = put m.transfers id t' }, returns [])
    | returns (t', saved _) ↦ (
      record { transfers = put m.transfers id t'; partials = remove m.partials id },
      returns (file_complete id ∷ []),
    )
  ]

  -- What becomes of a chunk once its transfer is found, whose lock is in the given state; the outcomes
  -- are those of the writes of the checkpoint, and `fails` those of the file. `WriteChunk` takes the
  -- lock and gives it back. With the state: the messages that are sent, or the lock that is waited for.
  unfoldable pub store_chunk :
      Manager
      → Lock
      → Transfer
      → Str
      → ℤ
      → List ℕ
      → ℕ
      → Outcome
      → Outcome
      → (ℕ → Bool)
      → Manager × Call (List FileMessage)
  unfolding saved_chunk
  store_chunk m l t id index payload now o o' fails =
      let (t', error) = write_chunk t index payload now in
      let files : Partial = elim (get m.partials t.id) [
        | none ↦ record { meta = none; chunks = none }
        | some p ↦ p
      ] in
      let m' : Manager = record {
        transfers = put m.transfers id t';
        partials = put m.partials t.id (checkpoint f t' o o' files).0;
      } in
      elim (lock l) [
        | none ↦ (m, waits l)
        | some _ ↦ elim error [
          | some _ ↦ (m, returns [])
          | none ↦ if is_complete t' then saved_chunk m' t' id fails else (m', returns [])
        ]
      ]

  -- case MsgFileChunk
  unfoldable pub handle_file_chunk :
      Manager
      → Lock
      → Str
      → ℤ
      → Option (List ℕ)
      → ℕ
      → Outcome
      → Outcome
      → (ℕ → Bool)
      → Manager × Call (List FileMessage)
  unfolding find_or_restore store_chunk
  handle_file_chunk m l id index payload now o o' fails =
      let (m', looked_up) = find_or_restore m id now in
      elim looked_up [
        | none ↦ (m', returns [])
        | some t ↦ elim payload [
          | none ↦ (m', returns [])
          | some bytes ↦ store_chunk m' l t id index bytes now o o' fails
        ]
      ]

-- case MsgFileReject
unfoldable pub handle_file_reject : Manager → Str → Manager
handle_file_reject m id = elim (get m.transfers id) [
  | none ↦ m
  | some t ↦ record m { transfers = put m.transfers id (cancel t) }
]

-- case MsgFileComplete
unfoldable pub handle_file_complete : Manager → Str → Manager
handle_file_complete m id = elim (get m.transfers id) [
  | none ↦ m
  | some t ↦ record m { transfers = put m.transfers id (record t { status = completed }) }
]
