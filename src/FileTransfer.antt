-- ===== src/FileTransfer.antt =====
-- internal/filetransfer/filetransfer.go: transfers in chunks. A file is its bytes; the files of the
-- sender are regular ones, whose reads return as many bytes as are asked for and are left. A chunk
-- index that comes from the network is any integer.
pub mod Chunking
pub mod Receiving
pub mod Delivery
pub mod Saving
pub mod Checkpoint
mod Tests
use korik.Prelude.{
  Bool, List, Option, Str, [], drop, false, if◌then◌else◌, int_key, leb_ℤ, length, ltb_ℤ, none, pos,
  pos_part, some, str_key, suc, take, true, zero, ℕ, ℤ, ◌*◌, ◌++◌, ◌+◌, ◌-◌, ◌/◌, ◌||◌, ◌∷◌,
}
use korik.GoMap.{Map, get, put}

abbrev pub chunk_size : ℕ
chunk_size = 64 * 1024

pub data Direction : Type 0 where
  send receive : Direction

pub data Status : Type 0 where
  pending active completed failed canceled : Status

-- *os.File of a file that is read
pub record OpenFile : Type 0 where
  pub content : List ℕ
  pub offset : ℕ
  pub closed : Bool

pub record Transfer : Type 0 where
  pub id : Str
  pub file_name : Str
  pub file_size : ℤ
  pub chunk_total : ℤ
  pub direction : Direction
  pub peer_jid : Str
  pub started_at : ℕ
  pub last_update : ℕ
  pub bytes_total : ℤ
  pub bytes_sent : ℕ
  pub status : Status
  pub chunks : Map ℤ (List ℕ)
  pub chunks_recv : ℕ
  pub file : Option OpenFile
  pub chunks_sent : ℕ
  pub source_path : Str

-- What `CreateSendTransfer` builds from a file that was opened; the identifier comes from a hash.
unfoldable pub create_send_transfer : Str → Str → Str → Str → List ℕ → ℕ → Transfer
create_send_transfer id path base_name peer_jid content now = record {
  id = id;
  file_name = base_name;
  file_size = pos (length content);
  chunk_total = pos ((length content + chunk_size - 1) / chunk_size);
  direction = send;
  peer_jid = peer_jid;
  started_at = now;
  last_update = now;
  bytes_total = pos (length content);
  bytes_sent = 0;
  status = pending;
  chunks = [];
  chunks_recv = 0;
  file = some (record { content = content; offset = 0; closed = false });
  chunks_sent = 0;
  source_path = path;
}

unfoldable pub create_receive_transfer : Str → Str → Str → ℤ → ℤ → ℕ → Transfer
create_receive_transfer id file_name peer_jid file_size chunk_total now = record {
  id = id;
  file_name = file_name;
  file_size = file_size;
  chunk_total = chunk_total;
  direction = receive;
  peer_jid = peer_jid;
  started_at = now;
  last_update = now;
  bytes_total = file_size;
  bytes_sent = 0;
  status = active;
  chunks = [];
  chunks_recv = 0;
  file = none;
  chunks_sent = 0;
  source_path = [];
}

pub data ReadResult : Type 0 where
  chunk : List ℕ → ℕ → ReadResult
  not_a_send_transfer : ReadResult
  end_of_file : ℕ → ReadResult
  read_error : ℕ → ReadResult

-- t.file.Read(chunk), for a buffer of one chunk
unfoldable pub read_file : Option OpenFile → Option (OpenFile × List ℕ)
read_file none = none
read_file (some f) =
    let got = take chunk_size (drop f.offset f.content) in
    if f.closed then none else some (record f { offset = f.offset + length got }, got)

-- The end of `ReadChunk`: what is set once the bytes are read.
unfoldable pub after_read : Transfer → OpenFile → List ℕ → ℕ → Transfer
after_read t f got now =
    let sent = t.chunks_sent + 1 in
    let done = leb_ℤ t.chunk_total (pos sent) in
    record t {
      chunks_sent = sent;
      bytes_sent = t.bytes_sent + length got;
      last_update = now;
      status = if done then completed else active;
      file = some (record f { closed = f.closed || done });
    }

unfoldable pub read_chunk : Transfer → ℕ → Transfer × ReadResult
read_chunk t now = elim t.direction [
  | receive ↦ (t, not_a_send_transfer)
  | send ↦
      if leb_ℤ t.chunk_total (pos t.chunks_sent)
      then (t, end_of_file t.chunks_sent)
      else elim (read_file t.file) [
        | none ↦ (t, read_error t.chunks_sent)
        | some (f, got) ↦ (after_read t f got now, chunk got t.chunks_sent)
      ]
]

pub data ReadAtResult : Type 0 where
  chunk_at : List ℕ → ReadAtResult
  not_sending out_of_range not_reopened : ReadAtResult

-- `source` is what stands at the source path when the file is opened again.
unfoldable pub read_chunk_at : Transfer → Option (List ℕ) → ℤ → ReadAtResult
read_chunk_at t source index = elim t.direction [
  | receive ↦ not_sending
  | send ↦ if ltb_ℤ index (pos 0) || leb_ℤ t.chunk_total index then out_of_range else elim source [
    | none ↦ not_reopened
    | some content ↦ chunk_at (take chunk_size (drop (pos_part index * chunk_size) content))
  ]
]

pub data TransferError : Type 0 where
  not_a_receive_transfer : TransferError
  not_complete : TransferError
  missing_chunk : ℕ → TransferError
  write_failed : ℕ → TransferError

unfoldable pub write_chunk : Transfer → ℤ → List ℕ → ℕ → Transfer × Option TransferError
write_chunk t index payload now = elim t.direction [
  | send ↦ (t, some not_a_receive_transfer)
  | receive ↦ elim (get t.chunks index) [
    | some _ ↦ (t, none)
    | none ↦ (
      record t {
        chunks = put t.chunks index payload;
        chunks_recv = t.chunks_recv + 1;
        bytes_sent = t.bytes_sent + length payload;
        last_update = now;
      },
      none,
    )
  ]
]

unfoldable pub is_complete : Transfer → Bool
is_complete t = leb_ℤ t.chunk_total (pos t.chunks_recv)

-- the loop of `MissingChunks` from index i on, with so many rounds left
unfoldable pub missing_from : Map ℤ (List ℕ) → ℕ → ℕ → List ℕ
missing_from chunks i zero = []
missing_from chunks i (suc rounds) =
    let rest = missing_from chunks (suc i) rounds in
    elim (get chunks (pos i)) [ none ↦ i ∷ rest | some _ ↦ rest ]

unfoldable pub missing_chunks : Transfer → List ℕ
unfolding missing_from
missing_chunks t = elim t.direction [
  | send ↦ []
  | receive ↦ missing_from t.chunks 0 (pos_part t.chunk_total)
]

unfoldable pub cancel : Transfer → Transfer
cancel t = record t {
  status = canceled;
  file = elim t.file [ none ↦ none | some f ↦ some (record f { closed = true }) ];
}

-- The loop of `SaveFile` that writes the chunks in order, from index i on: the bytes of the file, or
-- the error that ends it. `fails` says which of the writes fail.
unfoldable pub write_chunks :
    Map ℤ (List ℕ) → (ℕ → Bool) → ℕ → ℕ → List ℕ → List ℕ × Option TransferError
write_chunks chunks fails i zero out = (out, none)
write_chunks chunks fails i (suc rounds) out = elim (get chunks (pos i)) [
  | none ↦ (out, some (missing_chunk i))
  | some payload ↦
      if fails i
      then (out, some (write_failed i))
      else write_chunks chunks fails (suc i) rounds (out ++ payload)
]
