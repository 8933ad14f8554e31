-- ===== src/FileTransfer/Delivery.antt =====
-- A file from the sender to the receiver of internal/filetransfer/filetransfer.go: the chunks may
-- arrive in any order, and more than once.
use korik.Prelude.{
  Bool, Bool-cases, List, Option, Str, [], ap, append-nil, append_assoc, arith, false,
  if◌then◌else◌, inl, inr, int_eq, int_eq-pos, int_key, none, pos, refl, some, str_key, suc, true,
  zero, ℕ, ℤ, ≟_iff, ◌++◌, ◌+◌, ◌<◌, ◌||◌, ◌∙◌, ◌∷◌, ◌≟◌, ◌≡◌, ◌⊎◌,
}
use korik.GoMap.{Map, get, get-put, put}
use korik.FileTransfer.{
  Transfer, chunk_size, create_receive_transfer, is_complete, missing_chunks, missing_from, receive,
  write_chunk, write_chunks,
}
use korik.FileTransfer.Receiving.{IsValid, create-IsValid, is_complete_iff, write_chunk-IsValid}
use korik.FileTransfer.Chunking.{chunk_count, cut, cuts, joined, joined_whole}

-- The chunks of the file with these indices arrive one after the other.
unfoldable pub deliver : List ℕ → ℕ → Transfer → List ℕ → Transfer
deliver content now t [] = t
deliver content now t (j ∷ js) =
    deliver content now (write_chunk t (pos j) (cut chunk_size content j) now).0 js

abbrev pub arrived : List ℕ → ℕ → Bool
arrived [] i = false
arrived (j ∷ js) i = (j ≟ i) || arrived js i

-- What a receiving transfer of the file has at the place i is the chunk i, if anything.
pub record Receives (t : Transfer) (content : List ℕ) : Type 0 where
  pub receives : t.direction ≡ receive
  pub total : t.chunk_total ≡ pos (chunk_count content)
  pub valid : IsValid t
  pub genuine :
      (i : ℕ)
      → (get t.chunks (pos i) ≡ none) ⊎ (get t.chunks (pos i) ≡ some (cut chunk_size content i))

write_new :
    (t : Transfer) (k : ℤ) (payload : List ℕ) (now : ℕ)
    → t.direction ≡ receive
    → get t.chunks k ≡ none
    → (write_chunk t k payload now).0.chunks ≡ put t.chunks k payload
unfolding write_chunk
write_new t k payload now r h = ground (arith, r, h)

write_again :
    (t : Transfer) (k : ℤ) (payload : List ℕ) (now : ℕ) {old : List ℕ}
    → get t.chunks k ≡ some old
    → (write_chunk t k payload now).0 ≡ t
unfolding write_chunk
write_again t k payload now h = ground (arith, h)

module _ (content : List ℕ) (now : ℕ) where
  chunks-write_chunk :
      (t : Transfer) (j i : ℕ)
      → Receives t content
      → get (write_chunk t (pos j) (cut chunk_size content j) now).0.chunks (pos i)
        ≡ (if j ≟ i then some (cut chunk_size content i) else get t.chunks (pos i))
  chunks-write_chunk t j i r = elim (r.genuine j) [
    | inl unseen ↦ rw (write_new t (pos j) (cut chunk_size content j) now r.receives unseen) (
        get-put t.chunks (pos j) (pos i) (cut chunk_size content j)
        ∙ same_place j i (get t.chunks (pos i)))
    | inr there ↦
        rw (write_again t (pos j) (cut chunk_size content j) now there)
          (already j i (get t.chunks (pos i)) λ e. rw (← e) there)
  ]
    where
      same_place :
          (j i : ℕ) (o : Option (List ℕ))
          → (if int_eq (pos j) (pos i) then some (cut chunk_size content j) else o)
            ≡ (if j ≟ i then some (cut chunk_size content i) else o)
      same_place j i o = elim (Bool-cases (j ≟ i)) [
        | inl here ↦
            let e : j ≡ i = (≟_iff j i).0 here in
            rw (int_eq-pos, here) (ap (λ (k : ℕ). some (cut chunk_size content k)) e)
        | inr other ↦ rw (int_eq-pos, other)
      ]

      already :
          (j i : ℕ) (o : Option (List ℕ))
          → (j ≡ i → o ≡ some (cut chunk_size content i))
          → o ≡ (if j ≟ i then some (cut chunk_size content i) else o)
      already j i o h = elim (Bool-cases (j ≟ i)) [
        | inl here ↦ rw here (h (ground arith))
        | inr other ↦ rw other
      ]

  write_chunk-Receives :
      (t : Transfer) (j : ℕ)
      → Receives t content
      → Receives (write_chunk t (pos j) (cut chunk_size content j) now).0 content
  write_chunk-Receives t j r = record {
    receives = unfold write_chunk in ground (arith, r.receives);
    total = unfold write_chunk in ground (arith, r.receives, r.total);
    valid = (write_chunk-IsValid t (pos j) (cut chunk_size content j) now r.valid).0;
    genuine = λ i. elim (Bool-cases (j ≟ i)) [
      | inl here ↦ inr (chunks-write_chunk t j i r ∙ rw here)
      | inr other ↦ rw (chunks-write_chunk t j i r, other) (r.genuine i)
    ];
  }

  pub chunks-deliver :
      (t : Transfer) (js : List ℕ)
      → Receives t content
      → Receives (deliver content now t js) content
        × ((i : ℕ)
            → get (deliver content now t js).chunks (pos i)
              ≡ (if arrived js i then some (cut chunk_size content i) else get t.chunks (pos i)))
  unfolding deliver
  chunks-deliver t [] r = (r, λ i. refl)
  chunks-deliver t (j ∷ js) r =
      let (r', places) =
        chunks-deliver (write_chunk t (pos j) (cut chunk_size content j) now).0 js
          (write_chunk-Receives t j r) in
      (r', λ i. ground (arith, places i, chunks-write_chunk t j i r))

-- The chunks from the place i on are all there.
abbrev Present : Map ℤ (List ℕ) → List ℕ → ℕ → ℕ → Type 0
Present m content i zero = Unit
Present m content i (suc n) =
    (get m (pos i) ≡ some (cut chunk_size content i)) × Present m content (suc i) n

missing_none :
    (m : Map ℤ (List ℕ)) (content : List ℕ) (i n : ℕ)
    → Present m content i n
    → missing_from m i n ≡ []
unfolding missing_from
missing_none m content i zero h = refl
missing_none m content i (suc n) h = ground (arith, h.0, missing_none m content (suc i) n h.1)

write_chunks-Present :
    (m : Map ℤ (List ℕ)) (content : List ℕ) (i n : ℕ) (out : List ℕ)
    → Present m content i n
    → write_chunks m (λ k. false) i n out ≡ (out ++ joined (cuts chunk_size content i n), none)
unfolding write_chunks joined cuts
write_chunks-Present m content i zero out h = rw append-nil
write_chunks-Present m content i (suc n) out h =
    let ih = write_chunks-Present m content (suc i) n (out ++ cut chunk_size content i) h.1 in
    ground (
      arith,
      h.0,
      ih,
      append_assoc out (cut chunk_size content i) (joined (cuts chunk_size content (suc i) n)),
    )

Present-get :
    (m : Map ℤ (List ℕ)) (content : List ℕ) (i n : ℕ)
    → ((j : ℕ) → j < i + n → get m (pos j) ≡ some (cut chunk_size content j))
    → Present m content i n
Present-get m content i zero h = tt
Present-get m content i (suc n) h =
    (h i (omega arith), Present-get m content (suc i) n (λ j lt. h j (omega arith)))

pub create-Receives :
    (id name jid : Str) (size : ℤ) (content : List ℕ) (now : ℕ)
    → Receives (create_receive_transfer id name jid size (pos (chunk_count content)) now) content
unfolding create_receive_transfer get
create-Receives id name jid size content now = record {
  receives = refl;
  total = refl;
  valid = create-IsValid id name jid size (pos (chunk_count content)) now;
  genuine = λ i. inl refl;
}

-- If every chunk of a file arrives, in whatever order and however often, then the transfer is
-- complete, no chunk is missing, and writing the chunks in order gives the file.
pub delivered :
    (id name jid : Str) (size : ℤ) (content : List ℕ) (now : ℕ) (js : List ℕ)
    → ((i : ℕ) → i < chunk_count content → arrived js i ≡ true)
    → let t =
        deliver content now
          (create_receive_transfer id name jid size (pos (chunk_count content)) now)
          js in
      (is_complete t ≡ true)
      × (missing_chunks t ≡ [])
      × (write_chunks t.chunks (λ k. false) 0 (chunk_count content) [] ≡ (content, none))
delivered id name jid size content now js all =
    let start = create_receive_transfer id name jid size (pos (chunk_count content)) now in
    let t = deliver content now start js in
    let (r, places) =
      chunks-deliver content now start js (create-Receives id name jid size content now) in
    let there : Present t.chunks content 0 (chunk_count content) =
      Present-get t.chunks content 0 (chunk_count content)
        (λ j lt. places j ∙ rw (all j (omega arith))) in
    let nothing : missing_chunks t ≡ [] =
      unfold missing_chunks in
      ground
        (arith, r.receives, r.total, missing_none t.chunks content 0 (chunk_count content) there) in
    (
      (is_complete_iff t r.valid r.receives).1 (rw nothing (omega arith)),
      nothing,
      write_chunks-Present t.chunks content 0 (chunk_count content) [] there
          ∙ ap (λ (out : List ℕ). (out, none)) (joined_whole content),
    )
