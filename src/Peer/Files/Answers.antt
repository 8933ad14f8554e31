-- ===== src/Peer/Files/Answers.antt =====
-- Offers of files and who is answered, and the last chunk of a file, in internal/peer/node.go.
use korik.Prelude.{
  All, Bool, Bool-cases, List, Option-cases, Str, [], arith, false, inl, inr, int_key, none, some,
  str_eq, str_eq_iff, str_key, true, ℕ, ℤ, ◌≡◌,
}
use korik.GoMap.{get, get-put}
use korik.Storage.{Outcome}
use korik.FileTransfer.{Transfer, create_receive_transfer, is_complete, receive, write_chunk}
use korik.FileTransfer.Checkpoint.{Formats, restore_partial}
use korik.FileTransfer.Saving.{lock, save_file_unlocked, unlocked, waits, write_locked}
use korik.Peer.{PeerConn}
use korik.Peer.Broadcast.{Conns}
use korik.Peer.Files.{
  Manager, accept_file, answer_offer, find_or_restore, first_ready, handle_file_chunk,
  handle_file_offer, reject_file, saved_chunk, store_chunk,
}

module _ (f : Formats) where
  found_again :
      (m : Manager) (id : Str) (now : ℕ) (t : Transfer)
      → get m.transfers id ≡ some t
      → find_or_restore f m id now ≡ (m, some t)
  unfolding find_or_restore
  found_again m id now t h = ground (arith, h)

  -- After an offer with an identifier there is a transfer of that identifier.
  offered :
      (m : Manager) (pc : PeerConn) (id name : Str) (size total : ℤ) (now : ℕ)
      → str_eq id [] ≡ false
      → (t : Transfer) × (get (handle_file_offer f m pc id name size total now).0.transfers id
          ≡ some t)
  unfolding handle_file_offer find_or_restore
  offered m pc id name size total now named = elim (Option-cases (get m.transfers id)) [
    | inr (t, there) ↦ (t, ground (arith, named, there))
    | inl new ↦
        let fresh = create_receive_transfer id name pc.jid size total now in
        let e = get-put m.transfers id id fresh in
        let same = str_eq_iff id id in
        elim (Option-cases (get m.partials id)) [
          | inl no_files ↦ (fresh, ground (arith, named, new, no_files, e, same))
          | inr (files, there) ↦ elim (Option-cases (restore_partial f files now)) [
            | inl lost ↦ (fresh, ground (arith, named, new, there, lost, e, same))
            | inr (t, restored) ↦
                (t, ground (arith, named, new, there, restored, get-put m.transfers id id t, same))
          ]
        ]
  ]

  -- An offer that comes again under its identifier changes nothing and does not ask the user a
  -- second time, from whichever connection and with whatever it says.
  pub handle_file_offer-again :
      (m : Manager) (pc other : PeerConn) (id name name' : Str) (size total size' total' : ℤ)
      (now later : ℕ)
      → let m' = (handle_file_offer f m pc id name size total now).0 in
        handle_file_offer f m' other id name' size' total' later ≡ (m', false)
  unfolding handle_file_offer
  handle_file_offer-again m pc other id name name' size total size' total' now later =
      elim (Bool-cases (str_eq id [])) [
        | inl empty ↦ ground (arith, empty)
        | inr named ↦
            let m' = (handle_file_offer f m pc id name size total now).0 in
            let (t, there) = offered m pc id name size total now named in
            ground (arith, named, found_again m' id later t there)
      ]

-- The answer to an offer goes to the first connection that has a session: a peer who is not that one
-- never hears whether the file that it offered is accepted or rejected.
pub accept_file-first :
    (conns : Conns) (addr first : Str) (id : Str)
    → first_ready conns ≡ some first
    → str_eq first addr ≡ false
    → (All (λ sent. str_eq sent.0 addr ≡ false) (accept_file conns id).0)
      × (All (λ sent. str_eq sent.0 addr ≡ false) (reject_file conns id).0)
unfolding accept_file reject_file answer_offer
accept_file-first conns addr first id h other = ground (arith, h, other)

write_chunk-receives :
    (t : Transfer) (index : ℤ) (payload : List ℕ) (now : ℕ)
    → t.direction ≡ receive
    → let (t', error) = write_chunk t index payload now in (error ≡ none) × (t'.direction ≡ receive)
unfolding write_chunk
write_chunk-receives t index payload now r = ground (arith, r)

-- The chunk that completes a file is written to its transfer, whose lock is free, and then the handler
-- never returns: it waits in `SaveFile`, which holds the lock of the transfer. So nothing else that the
-- connection brings is handled, in whatever way the writes end.
pub handle_file_chunk-waits :
    (f : Formats) (m : Manager) (t : Transfer) (id : Str) (index : ℤ) (payload : List ℕ) (now : ℕ)
    (o o' : Outcome) (fails : ℕ → Bool)
    → get m.transfers id ≡ some t
    → t.direction ≡ receive
    → is_complete (write_chunk t index payload now).0 ≡ true
    → let (m', call) = handle_file_chunk f m unlocked id index (some payload) now o o' fails in
      (get m'.transfers id ≡ some (write_chunk t index payload now).0) × (call ≡ waits write_locked)
unfolding handle_file_chunk store_chunk saved_chunk lock
handle_file_chunk-waits f m t id index payload now o o' fails there r complete =
    let t' = (write_chunk t index payload now).0 in
    let (no_error, r') = write_chunk-receives t index payload now r in
    let stuck = save_file_unlocked t' fails r' in
    let same = str_eq_iff id id in
    let put_there = get-put m.transfers id id t' in
    (
      ground (arith, found_again f m id now t there, no_error, complete, stuck, put_there, same),
      ground (arith, found_again f m id now t there, no_error, complete, stuck),
    )
