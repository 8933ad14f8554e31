-- ===== src/FileTransfer/Saving.antt =====
-- `SaveFile` of internal/filetransfer/filetransfer.go, with the lock of the transfer. Go's
-- sync.RWMutex is not reentrant: who waits for a lock that its own goroutine holds, waits for ever.
use korik.Prelude.{
  Bool, List, Option, [], arith, if◌then◌else◌, inl, inr, none, pos_part, refl, some, ℕ, ◌+◌, ◌≡◌,
  ◌⊎◌,
}
use korik.FileTransfer.{
  Transfer, TransferError, completed, is_complete, not_a_receive_transfer, not_complete, receive,
  send, write_chunks,
}

-- The state of a sync.RWMutex: free, held for writing, or held for reading by so many.
pub data Lock : Type 0 where
  unlocked : Lock
  write_locked : Lock
  read_locked : ℕ → Lock

-- mu.Lock() and mu.RLock(); `none` means that the caller waits
unfoldable pub lock : Lock → Option Lock
lock unlocked = some write_locked
lock write_locked = none
lock (read_locked n) = none

unfoldable pub r_lock : Lock → Option Lock
r_lock unlocked = some (read_locked 1)
r_lock write_locked = none
r_lock (read_locked n) = some (read_locked (n + 1))

-- How a call ends: it returns, or it waits with the lock in the given state.
pub data Call (A : Type 0) : Type 0 where
  returns : A → Call A
  waits : Lock → Call A

-- `IsComplete`, which takes the lock for reading and gives it back.
unfoldable pub is_complete_locked : Lock → Transfer → Call Bool
is_complete_locked l t = elim (r_lock l) [ none ↦ waits l | some _ ↦ returns (is_complete t) ]

pub data Saved : Type 0 where
  saved : List ℕ → Saved
  save_failed : TransferError → Saved

-- `SaveFile`, from the point where the path is chosen and the file is created, if it comes so far.
unfoldable pub finish_save : Transfer → (ℕ → Bool) → Transfer × Saved
finish_save t fails =
    let (out, error) = write_chunks t.chunks fails 0 (pos_part t.chunk_total) [] in
    elim error [ some e ↦ (t, save_failed e) | none ↦ (record t { status = completed }, saved out) ]

unfoldable pub save_file : Lock → Transfer → (ℕ → Bool) → Call (Transfer × Saved)
unfolding lock r_lock is_complete_locked
save_file l t fails = elim (lock l) [
  | none ↦ waits l
  | some held ↦ elim t.direction [
    | send ↦ returns (t, save_failed not_a_receive_transfer)
    | receive ↦ elim (is_complete_locked held t) [
      | waits stuck ↦ waits stuck
      | returns complete ↦
          if complete then returns (finish_save t fails) else returns (t, save_failed not_complete)
    ]
  ]
]

-- Where the lock is free, `SaveFile` takes it and then waits for itself.
pub save_file_unlocked :
    (t : Transfer) (fails : ℕ → Bool)
    → t.direction ≡ receive
    → save_file unlocked t fails ≡ waits write_locked
unfolding save_file
save_file_unlocked t fails r = ground (arith, r)

-- `SaveFile` never returns for a receiving transfer, whatever chunks it has: where the lock is
-- free it takes it for writing and then waits, holding it, for itself in `IsComplete`; where the
-- lock is held, it waits for that lock, which it leaves as it is.
pub save_file_waits :
    (l : Lock) (t : Transfer) (fails : ℕ → Bool)
    → t.direction ≡ receive
    → ((l ≡ unlocked) × (save_file l t fails ≡ waits write_locked))
      ⊎ (save_file l t fails ≡ waits l)
unfolding save_file
save_file_waits unlocked t fails r = inl (refl, save_file_unlocked t fails r)
save_file_waits write_locked t fails r = inr refl
save_file_waits (read_locked n) t fails r = inr refl
