-- ===== src/Queue/Bounds.antt =====
-- The bound of internal/queue/queue.go: the queue holds the newest messages that fit.
use korik.Prelude.{
  Bool-cases, List, Str, [], append-nil, append_assoc, arith, inl, inr, lasts, lasts-append, length,
  length-append, length-drop, ltb, ℕ, ◌++◌, ◌-◌, ◌∙◌, ◌∷◌, ◌≡◌, ◌≤◌,
}
use korik.Queue.{OutgoingMessage, Queue, cap_messages, enqueue, max_messages, with_id}
use korik.Storage.{Codec, Outcome}

pub cap-lasts : (xs : List OutgoingMessage) → cap_messages xs ≡ lasts max_messages xs
unfolding cap_messages
cap-lasts xs = elim (Bool-cases (ltb max_messages (length xs))) [
  | inl over ↦ rw over
  | inr fits ↦ let e : length xs - max_messages ≡ 0 = ground arith in rw (fits, e)
]

-- What is enqueued one after the other, with the fate of each attempt to write.
unfoldable pub enqueue_all :
    Codec (List OutgoingMessage) → (ℕ → Str) → Queue → List (OutgoingMessage × Outcome) → Queue
enqueue_all codec format q [] = q
enqueue_all codec format q ((msg, o) ∷ rest) =
    enqueue_all codec format (enqueue codec format q msg o).0 rest

-- The messages with the identifiers under which they are kept.
unfoldable pub named : (ℕ → Str) → List (OutgoingMessage × Outcome) → List OutgoingMessage
named format [] = []
named format ((msg, _) ∷ rest) = with_id format msg ∷ named format rest

module _ (codec : Codec (List OutgoingMessage)) (format : ℕ → Str) where
  pub items-enqueue :
      (q : Queue) (msg : OutgoingMessage) (o : Outcome)
      → (enqueue codec format q msg o).0.items
        ≡ lasts max_messages (q.items ++ with_id format msg ∷ [])
  unfolding enqueue
  items-enqueue q msg o = cap-lasts (q.items ++ with_id format msg ∷ [])

  fits_after :
      (q : Queue) (msg : OutgoingMessage) (o : Outcome)
      → length (enqueue codec format q msg o).0.items ≤ max_messages
  fits_after q msg o = rw items-enqueue (
      omega (
        arith,
        length-drop (length (q.items ++ with_id format msg ∷ []) - max_messages)
            (q.items ++ with_id format msg ∷ []),
      ))

  -- A queue of at most 1000 messages holds, after any number of messages more, the newest 1000 of all
  -- that it held and was given, in order, whether or not the writes to disk succeeded: the oldest go
  -- first, and never too many. The 1000 are for all peers together, so the messages for one peer can
  -- push out those for another.
  pub items-enqueue_all :
      (q : Queue) (msgs : List (OutgoingMessage × Outcome))
      → length q.items ≤ max_messages
      → (enqueue_all codec format q msgs).items ≡ lasts max_messages (q.items ++ named format msgs)
  unfolding enqueue_all named
  items-enqueue_all q [] fits =
      let e : length (q.items ++ []) - max_messages ≡ 0 = omega (arith, length-append q.items []) in
      rw (e, append-nil)
  items-enqueue_all q ((msg, o) ∷ rest) fits =
      let m = with_id format msg in
      let q' = (enqueue codec format q msg o).0 in
      items-enqueue_all q' rest (fits_after q msg o)
      ∙ rw items-enqueue
          (lasts-append max_messages (q.items ++ m ∷ []) (named format rest) ∙ rw append_assoc)
