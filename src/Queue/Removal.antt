-- ===== src/Queue/Removal.antt =====
-- `Remove` and `MarkAttempt` of internal/queue/queue.go: what they take and what they leave.
use korik.Prelude.{
  All, Bool-cases, List, Str, [], ap, append-nil, arith, false, filterb, inl, inr, length,
  length-append, not, refl, str_eq, str_eq_iff, str_key, ℕ, ◌++◌, ◌-◌, ◌<◌, ◌∙◌, ◌∷◌, ◌≡◌,
}
use korik.Queue.{OutgoingMessage, Queue, enqueue, max_messages, remove, with_id}
use korik.Queue.Bounds.{items-enqueue}
use korik.Storage.{Codec, Outcome}

-- No message of the list has this identifier.
abbrev pub Lacks : Str → List OutgoingMessage → Type 0
Lacks id = All (λ (m : OutgoingMessage). str_eq m.id id ≡ false)

module _ (id : Str) where
  without : List OutgoingMessage → List OutgoingMessage
  without = filterb (λ (m : OutgoingMessage). not (str_eq m.id id))

  filterb-Lacks : (items : List OutgoingMessage) → Lacks id (without items)
  unfolding without
  filterb-Lacks [] = tt
  filterb-Lacks (m ∷ items) = elim (Bool-cases (str_eq m.id id)) [
    | inl same ↦ rw (same, filterb) (filterb-Lacks items)
    | inr other ↦ rw (other, filterb) (other, filterb-Lacks items)
  ]

  without_absent : (items : List OutgoingMessage) → Lacks id items → without items ≡ items
  unfolding without
  without_absent [] h = refl
  without_absent (m ∷ items) h = ground (arith, h.0, without_absent items h.1)

  without-append : (xs ys : List OutgoingMessage) → without (xs ++ ys) ≡ without xs ++ without ys
  unfolding without
  without-append [] ys = refl
  without-append (m ∷ xs) ys = ground (arith, without-append xs ys)

module _ (codec : Codec (List OutgoingMessage)) (format : ℕ → Str) where
  -- A message with an identifier of its own, enqueued where there is room and then removed, leaves
  -- the queue with the messages that it had; and after any removal no message has the identifier.
  pub remove-enqueue :
      (q : Queue) (msg : OutgoingMessage) (o p : Outcome)
      → length q.items < max_messages
      → str_eq msg.id [] ≡ false
      → Lacks msg.id q.items
      → ((remove codec (enqueue codec format q msg o).0 msg.id p).0.items ≡ q.items)
        × Lacks msg.id (remove codec q msg.id p).0.items
  unfolding remove with_id without
  remove-enqueue q msg o p room labelled lacks =
      let items = q.items ++ with_id format msg ∷ [] in
      let e : length items - max_messages ≡ 0 =
        omega (arith, length-append q.items (with_id format msg ∷ [])) in
      let kept : (enqueue codec format q msg o).0.items ≡ q.items ++ msg ∷ [] =
        items-enqueue codec format q msg o ∙ rw (e, labelled) in
      let gone : without msg.id (msg ∷ []) ≡ [] = ground (arith, str_eq_iff msg.id msg.id) in
      let back : without msg.id (q.items ++ msg ∷ []) ≡ q.items =
        rw (without-append msg.id q.items (msg ∷ []), gone, append-nil)
          (without_absent msg.id q.items lacks) in
      (ap (without msg.id) kept ∙ back, filterb-Lacks msg.id q.items)

  pub remove-Lacks : (q : Queue) (id : Str) (o : Outcome) → Lacks id (remove codec q id o).0.items
  unfolding remove without
  remove-Lacks q id o = filterb-Lacks id q.items
