-- ===== src/FileTransfer/Checkpoint.antt =====
-- `Checkpoint` and `RestorePartial` of internal/filetransfer/filetransfer.go: a transfer that was
-- interrupted goes on from what is on disk. JSON, base64 and the decimal form of an index are
-- parameters; `ClearPartial` and the age of a checkpoint are not modelled.
use mathlib.Core.List.{map-append}
use korik.Prelude.{
  Bool-cases, List, Option, Str, [], ap, append-nil, append_assoc, arith, inl, inr, int_eq,
  int_eq_iff, int_key, length, map, none, refl, some, str_eq, str_eq_iff, str_key, sym, ℕ, ℤ, ◌++◌,
  ◌+◌, ◌∙◌, ◌∷◌, ◌≡◌,
}
use korik.GoMap.{IsMap, IsMap-middle, Map, get, put, put_new}
use korik.Storage.{Codec, Outcome, SaveError, absent, broken, found, load, save, written}
use korik.FileTransfer.{Transfer, create_receive_transfer, receive, send}
use korik.FileTransfer.Receiving.{IsValid, total_bytes}

-- the two structs that are called `meta`
pub record Meta : Type 0 where
  pub id : Str
  pub file_name : Str
  pub file_size : ℤ
  pub chunk_total : ℤ
  pub peer_jid : Str

abbrev pub meta_of : Transfer → Meta
meta_of t = record {
  id = t.id;
  file_name = t.file_name;
  file_size = t.file_size;
  chunk_total = t.chunk_total;
  peer_jid = t.peer_jid;
}

-- the files of one transfer
pub record Partial : Type 0 where
  pub meta : Option Str
  pub chunks : Option Str

pub record Formats : Type 0 where
  pub itoa : ℤ → Str
  pub atoi : Str → Option ℤ
  pub encode_chunk : List ℕ → Str
  pub decode_chunk : Str → Option (List ℕ)
  pub metas : Codec Meta
  pub maps : Codec (Map Str Str)

module _ (f : Formats) where
  -- the range of `Checkpoint` that fills `combined`
  unfoldable pub combine : Map ℤ (List ℕ) → Map Str Str → Map Str Str
  combine [] combined = combined
  combine ((k, v) ∷ chunks) combined = combine chunks (put combined (f.itoa k) (f.encode_chunk v))

  -- the range of `RestorePartial`
  unfoldable pub restore_chunks : Map Str Str → Transfer → Transfer
  restore_chunks [] t = t
  restore_chunks ((k, v) ∷ combined) t =
      let skip = restore_chunks combined t in
      elim (f.atoi k) [
        | none ↦ skip
        | some index ↦ elim (f.decode_chunk v) [
          | none ↦ skip
          | some raw ↦ restore_chunks combined (record t {
            chunks = put t.chunks index raw;
            chunks_recv = t.chunks_recv + 1;
            bytes_sent = t.bytes_sent + length raw;
          })
        ]
      ]

  -- The outcomes of the two writes; where the first fails there is no second.
  unfoldable pub checkpoint : Transfer → Outcome → Outcome → Partial → Partial × Option SaveError
  unfolding combine
  checkpoint t o o' files = elim t.direction [
    | send ↦ (files, none)
    | receive ↦
        let (meta_file, error) = save f.metas (meta_of t) o files.meta in
        let (chunk_file, error') = save f.maps (combine t.chunks []) o' files.chunks in
        elim error [
          | some e ↦ (record files { meta = meta_file }, some e)
          | none ↦ (record { meta = meta_file; chunks = chunk_file }, error')
        ]
  ]

  unfoldable pub restore_partial : Partial → ℕ → Option Transfer
  unfolding restore_chunks
  restore_partial files now = elim (load f.metas files.meta) [
    | absent ↦ none
    | broken ↦ none
    | found meta ↦ elim (load f.maps files.chunks) [
      | absent ↦ none
      | broken ↦ none
      | found combined ↦ some (
          restore_chunks combined (
            create_receive_transfer meta.id meta.file_name meta.peer_jid meta.file_size
              meta.chunk_total now))
    ]
  ]

  abbrev encoded : ℤ × List ℕ → Str × Str
  encoded (k, v) = (f.itoa k, f.encode_chunk v)

-- What the documentation of strconv and of encoding/base64 promises.
pub record IsSound (f : Formats) : Type 0 where
  pub index_back : (k : ℤ) → f.atoi (f.itoa k) ≡ some k
  pub chunk_back : (v : List ℕ) → f.decode_chunk (f.encode_chunk v) ≡ some v

module _ (f : Formats) (sound : IsSound f) where
  itoa_same : (j k : ℤ) → str_eq (f.itoa j) (f.itoa k) ≡ int_eq j k
  itoa_same j k = elim (Bool-cases (int_eq j k)) [
    | inl same ↦
        let e : j ≡ k = (int_eq_iff j k).0 same in
        rw (same, e) ((str_eq_iff (f.itoa k) (f.itoa k)).1 refl)
    | inr other ↦ elim (Bool-cases (str_eq (f.itoa j) (f.itoa k))) [
      | inr differ ↦ rw other differ
      | inl same ↦
          let e : f.itoa j ≡ f.itoa k = (str_eq_iff (f.itoa j) (f.itoa k)).0 same in
          let back : f.atoi (f.itoa k) ≡ some j = rw (← e) (sound.index_back j) in
          absurd (ground (arith, back, sound.index_back k, other, int_eq_iff j k))
    ]
  ]

  get-encoded :
      (chunks : Map ℤ (List ℕ)) (k : ℤ)
      → get chunks k ≡ none
      → get (map (encoded f) chunks) (f.itoa k) ≡ none
  unfolding get
  get-encoded [] k h = refl
  get-encoded ((j, v) ∷ chunks) k h = ground (arith, h, itoa_same j k, get-encoded chunks k)

  combine-map :
      (before chunks : Map ℤ (List ℕ))
      → IsMap (before ++ chunks)
      → combine f chunks (map (encoded f) before) ≡ map (encoded f) (before ++ chunks)
  unfolding combine
  combine-map before [] d = rw append-nil refl
  combine-map before ((k, v) ∷ chunks) d =
      let unseen = get-encoded before k (IsMap-middle before chunks k v d) in
      let assoc = append_assoc before ((k, v) ∷ []) chunks in
      ap (combine f chunks) (
        put_new (map (encoded f) before) (f.itoa k) (f.encode_chunk v) unseen
        ∙ sym (map-append (encoded f) before ((k, v) ∷ [])))
      ∙ combine-map (before ++ (k, v) ∷ []) chunks (rw assoc d)
      ∙ ap (map (encoded f)) assoc

  restore_chunks-map :
      (chunks : Map ℤ (List ℕ)) (t : Transfer)
      → IsMap (t.chunks ++ chunks)
      → restore_chunks f (map (encoded f) chunks) t ≡ record t {
        chunks = t.chunks ++ chunks;
        chunks_recv = t.chunks_recv + length chunks;
        bytes_sent = t.bytes_sent + total_bytes chunks;
      }
  unfolding restore_chunks total_bytes
  restore_chunks-map [] t d = ground (arith, append-nil t.chunks)
  restore_chunks-map ((k, v) ∷ chunks) t d =
      let new : put t.chunks k v ≡ t.chunks ++ (k, v) ∷ [] =
        put_new t.chunks k v (IsMap-middle t.chunks chunks k v d) in
      let assoc = append_assoc t.chunks ((k, v) ∷ []) chunks in
      let next : Transfer = record t {
        chunks = t.chunks ++ (k, v) ∷ [];
        chunks_recv = t.chunks_recv + 1;
        bytes_sent = t.bytes_sent + length v;
      } in
      let ih = restore_chunks-map chunks next (rw assoc d) in
      let here : restore_chunks f (map (encoded f) ((k, v) ∷ chunks)) t
          ≡ restore_chunks f (map (encoded f) chunks) next =
        ground (arith, sound.index_back k, sound.chunk_back v, new) in
      here ∙ ih ∙ ground (arith, assoc)

  -- A checkpoint of a receiving transfer with right counters, once it is written, restores it: the
  -- same chunks and counters, so the same chunks are missing, if JSON keeps what is written; only the
  -- times and the status are those of a new transfer.
  pub restore_partial-checkpoint :
      (t : Transfer) (files : Partial) (now : ℕ)
      → IsValid t
      → t.direction ≡ receive
      → f.metas.decode (f.metas.encode (meta_of t)) ≡ some (meta_of t)
      → f.maps.decode (f.maps.encode (combine f t.chunks [])) ≡ some (combine f t.chunks [])
      → restore_partial f (checkpoint f t written written files).0 now
        ≡ some
            (record (create_receive_transfer t.id t.file_name t.peer_jid t.file_size t.chunk_total
              now) { chunks = t.chunks; chunks_recv = t.chunks_recv; bytes_sent = t.bytes_sent })
  unfolding restore_partial checkpoint save load create_receive_transfer
  restore_partial-checkpoint t files now v receives kept kept' =
      let fresh =
        create_receive_transfer t.id t.file_name t.peer_jid t.file_size t.chunk_total now in
      let comb : combine f t.chunks [] ≡ map (encoded f) t.chunks =
        combine-map [] t.chunks v.distinct in
      let back : restore_chunks f (combine f t.chunks []) fresh ≡ record fresh {
        chunks = t.chunks;
        chunks_recv = t.chunks_recv;
        bytes_sent = t.bytes_sent;
      } =
        ap (λ (m : Map Str Str). restore_chunks f m fresh) comb
        ∙ restore_chunks-map t.chunks fresh v.distinct
        ∙ ground (arith, v.counted, v.sized) in
      ground (arith, receives, kept, kept', back)
