-- ===== src/History/TailLoss.antt =====
-- What internal/history/history.go has on disk after `Add`: the window in memory, and no more.
use korik.Prelude.{
  All, List, Option, Str, [], arith, length, length-append, length-drop, length-filterb-le, not,
  pos, pos_part, refl, some, ℕ, ℤ, ◌++◌, ◌+◌, ◌-◌, ◌<◌, ◌∷◌, ◌≡◌, ◌≤◌,
}
use korik.History.{
  ChatMessage, History, add, append_pruned, expired, new, new_with_tail, opened,
  prune_expired_locked, save_history, trim, with_expiry,
}
use korik.History.Window.{Fresh, IsValid, add_keeps}
use korik.Storage.{Codec, found, load, load-save, save, written}

prune-Fresh :
    (now : ℕ) (ms : List ChatMessage) → All (Fresh now) ms → prune_expired_locked now ms ≡ ms
unfolding prune_expired_locked
prune-Fresh now [] a = refl
prune-Fresh now (m ∷ ms) a = ground (arith, a.0, prune-Fresh now ms a.1)

length-trim-le : (h : History) → length (trim h).messages ≤ length h.messages
unfolding trim
length-trim-le h = ground (arith, length-drop (length h.messages - pos_part h.max_size) h.messages)

length-pruned-le :
    (h : History) (msg : ChatMessage) (now : ℕ)
    → length (append_pruned h msg now).messages ≤ length h.messages + 1
unfolding append_pruned prune_expired_locked
length-pruned-le h msg now = omega (
  arith,
  length-filterb-le (λ (m : ChatMessage). not (expired now m))
      (h.messages ++ with_expiry h.ttl now msg ∷ []),
  length-append h.messages (with_expiry h.ttl now msg ∷ []),
)

-- The history that is opened with a limit on the tail, from a file that holds `stored`.
abbrev pub tail_of : Option Str → ℤ → ℕ → ℕ → List ChatMessage → History
tail_of file max_size limit now stored =
    opened file max_size (pos limit) (prune_expired_locked now stored) (length stored)

module _ (codec : Codec (List ChatMessage)) (h : History) (msg : ChatMessage) (now : ℕ)
    (kept : codec.decode (codec.encode (add codec h msg now written).0.messages)
      ≡ some (add codec h msg now written).0.messages) where
  load-add :
      load codec (add codec h msg now written).0.file
      ≡ found (add codec h msg now written).0.messages
  unfolding add save_history
  load-add =
      let t = trim (append_pruned h msg now) in
      load-save codec t.messages written t.file kept (unfold save in refl)

  -- A process that opens the history again in the instant after an `Add` that reached the disk has
  -- the window that the `Add` left, if the encoding keeps its messages.
  pub new-add :
      (max_size : ℤ)
      → IsValid h
      → new codec (add codec h msg now written).0.file max_size now
        ≡ some (
            opened
              (add codec h msg now written).0.file
              max_size
              (pos 0)
              (add codec h msg now written).0.messages
              (length (add codec h msg now written).0.messages))
  unfolding new load add save
  new-add max_size v =
      let fresh = (add_keeps codec h msg now written v).0 in
      rw (load-add, prune-Fresh now (add codec h msg now written).0.messages fresh)

module _ (codec : Codec (List ChatMessage)) (text : Str) (stored : List ChatMessage) (max_size : ℤ)
    (limit now : ℕ) (msg : ChatMessage) (reads : codec.decode text ≡ some stored) where
  -- Where a file holds more live messages than the limit on the tail, the history opens with the
  -- tail; the first `Add` that reaches the disk then leaves the tail and the new message in the
  -- file, at most: every older message is gone from it.
  pub add_overwrites_older :
      0 < limit
      → codec.decode (
          codec.encode
            (add codec (tail_of (some text) max_size limit now stored) msg now written).0.messages)
        ≡ some
            (add codec (tail_of (some text) max_size limit now stored) msg now written).0.messages
      → (new_with_tail codec (some text) max_size (pos limit) now
          ≡ some (tail_of (some text) max_size limit now stored))
        × (load codec
              (add codec (tail_of (some text) max_size limit now stored) msg now written).0.file
            ≡ found
                (add codec
                  (tail_of (some text) max_size limit now stored)
                  msg
                  now
                  written).0.messages)
        × (length
              (add codec (tail_of (some text) max_size limit now stored) msg now written).0.messages
            ≤ limit + 1)
  add_overwrites_older positive kept =
      let h = tail_of (some text) max_size limit now stored in
      (opened_tail, load-add codec h msg now kept, bound)
    where
      opened_tail :
          new_with_tail codec (some text) max_size (pos limit) now
          ≡ some (tail_of (some text) max_size limit now stored)
      opened_tail = unfold new_with_tail load in ground (arith, reads)

      window : length (tail_of (some text) max_size limit now stored).messages ≤ limit
      window =
          unfold opened in
          ground (
            arith,
            length-drop (length (prune_expired_locked now stored) - limit)
                (prune_expired_locked now stored),
          )

      bound :
          length
            (add codec (tail_of (some text) max_size limit now stored) msg now written).0.messages
          ≤ limit + 1
      bound =
          let h = tail_of (some text) max_size limit now stored in
          unfold add save_history in
          omega
            (arith, length-trim-le (append_pruned h msg now), length-pruned-le h msg now, window)
