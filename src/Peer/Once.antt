-- ===== src/Peer/Once.antt =====
-- Delivery in internal/peer/node.go: an envelope is shown once at most.
use korik.Prelude.{
  Bool, Bool-cases, List, Str, [], ap, arith, false, if◌then◌else◌, inl, inr, length, not, some,
  str_eq, str_eq_iff, true, ℕ, ◌&&◌, ◌++◌, ◌+◌, ◌<◌, ◌||◌, ◌∙◌, ◌∷◌, ◌≡◌, ◌≤◌, ◌⊎◌,
}
use korik.Dedup.{Seen}
use korik.Dedup.Duplicates.{known, known-add, length-add-le}
use korik.Peer.Replay.{accepts-known, seen-accepts, seen-handle_message}
use korik.Peer.Inbound.{
  Handler, beats, chats, group_chats, handle, handle_chat, handle_group_chat, handle_group_leave,
  handle_heartbeat, handle_message, handle_sync_data, leaves, open_group_chat, syncs,
}
use korik.Peer.{
  Codecs, Event, Message, Node, PeerConn, Turn, accepts, is_deduplicated, shows, shows_in_group,
}
use korik.Dedup as Dedup

-- Messages that arrive one after the other, each with its connection.
abbrev pub Arrival : Type 0
Arrival = Handler × PeerConn × Message × Turn

unfoldable pub shown_ids : List Event → List Str
shown_ids [] = []
shown_ids (shows id _ _ ∷ events) = id ∷ shown_ids events
shown_ids (shows_in_group id _ _ _ ∷ events) = id ∷ shown_ids events

unfoldable pub receive_all : Codecs → Node → List Arrival → Node × List Event
receive_all c n [] = (n, [])
receive_all c n ((h, pc, msg, t) ∷ arrivals) =
    let (n', events) = handle_message c h n pc msg t in
    let (last, rest) = receive_all c n' arrivals in (last, events ++ rest)

unfoldable pub count_id : Str → List Str → ℕ
count_id id [] = 0
count_id id (j ∷ ids) = (if str_eq j id then 1 else 0) + count_id id ids

count_shown : Str → List Event → ℕ
unfolding shown_ids count_id
count_shown id events = count_id id (shown_ids events)

-- Each message has an identifier and is of a kind that is deduplicated.
abbrev pub Enveloped : List Arrival → Type 0
Enveloped [] = Unit
Enveloped ((_, _, msg, _) ∷ arrivals) =
    (is_deduplicated msg.kind ≡ true) × (str_eq msg.id [] ≡ false) × Enveloped arrivals

-- A handler shows no more than the message itself.
count-handle :
    (c : Codecs) (h : Handler) (n : Node) (pc : PeerConn) (msg : Message) (t : Turn) (id : Str)
    → count_shown id (handle c h n pc msg t).1 ≤ (if str_eq msg.id id then 1 else 0)
unfolding handle handle_chat handle_sync_data handle_group_chat open_group_chat handle_group_leave
    handle_heartbeat count_shown
count-handle c chats n pc msg t id = ground arith
count-handle c group_chats n pc msg t id = ground arith
count-handle c syncs n pc msg t id = ground arith
count-handle c leaves n pc msg t id = ground arith
count-handle c beats n pc msg t id = ground arith

count_shown-append :
    (id : Str) (xs ys : List Event)
    → count_shown id (xs ++ ys) ≡ count_shown id xs + count_shown id ys
unfolding count_shown shown_ids count_id
count_shown-append id [] ys = omega arith
count_shown-append id (shows j _ _ ∷ xs) ys = omega (arith, count_shown-append id xs ys)
count_shown-append id (shows_in_group j _ _ _ ∷ xs) ys = omega (arith, count_shown-append id xs ys)

count-handle_message :
    (c : Codecs) (h : Handler) (n : Node) (pc : PeerConn) (msg : Message) (t : Turn) (id : Str)
    (s : Seen)
    → n.seen ≡ some s
    → is_deduplicated msg.kind ≡ true
    → str_eq msg.id [] ≡ false
    → count_shown id (handle_message c h n pc msg t).1
      ≤ (if str_eq msg.id id && not (known s msg.id) then 1 else 0)
unfolding handle_message count_shown shown_ids count_id
count-handle_message c h n pc msg t id s there kind named = elim (Bool-cases (known s msg.id)) [
  | inl old ↦ rw (accepts-known n msg t.now s there old kind named, old) (ground arith)
  | inr fresh ↦ ground (arith, fresh, count-handle c h (accepts n msg t.now).0 pc msg t id)
]

same_known : (s : Seen) (j id : Str) → (known s j ≡ known s id) ⊎ (str_eq j id ≡ false)
same_known s j id = elim (Bool-cases (str_eq j id)) [
  | inl same ↦ inl (ap (λ k. known s k) ((str_eq_iff j id).0 same))
  | inr other ↦ inr other
]

at_most_once :
    (same was_known known_before known_after : Bool) (total now later : ℕ)
    → total ≡ now + later
    → now ≤ (if same && not was_known then 1 else 0)
    → known_after ≡ same || known_before
    → later ≤ (if known_after then 0 else 1)
    → (was_known ≡ known_before) ⊎ (same ≡ false)
    → total ≤ (if known_before then 0 else 1)
at_most_once true true true known_after total now later e a b c (inl k) = ground (arith, e, a, b, c)
at_most_once true true false known_after total now later e a b c (inl k) =
    absurd (ground (arith, k))
at_most_once true false true known_after total now later e a b c (inl k) =
    absurd (ground (arith, k))
at_most_once true false false known_after total now later e a b c (inl k) =
    ground (arith, e, a, b, c)
at_most_once true was_known known_before known_after total now later e a b c (inr k) =
    absurd (ground (arith, k))
at_most_once false was_known known_before known_after total now later e a b c k =
    ground (arith, e, a, b, c)

-- From a node whose store of identifiers has room for all the messages that arrive, each of which
-- has an identifier and is of a kind that is deduplicated: an identifier that is not empty is shown
-- once at most, by whichever connections its messages come and whatever they say, and not at all if
-- it was seen before.
pub count-receive_all :
    (c : Codecs) (n : Node) (s : Seen) (arrivals : List Arrival) (id : Str)
    → n.seen ≡ some s
    → Enveloped arrivals
    → length s.ids + length arrivals ≤ s.max
    → str_eq id [] ≡ false
    → count_id id (shown_ids (receive_all c n arrivals).1) ≤ (if known s id then 0 else 1)
unfolding receive_all count_shown
count-receive_all c n s [] id there env fits named = omega arith
count-receive_all c n s ((h, pc, msg, t) ∷ arrivals) id there (kind, has_id, env) fits named =
    let n' = (handle_message c h n pc msg t).0 in
    let s' = (Dedup.add s msg.id t.now).0 in
    let room : length s.ids < s.max = omega arith in
    let kept : n'.seen ≡ some s' =
      seen-handle_message c h n pc msg t ∙ seen-accepts n msg t.now s there kind has_id in
    let (grew, same) = length-add-le s msg.id t.now room in
    let ih = count-receive_all c n' s' arrivals id kept env (omega arith) named in
    let now = count-handle_message c h n pc msg t id s there kind has_id in
    let after = known-add s msg.id t.now id room named in
    let e : known s msg.id ≡ known s id ⊎ str_eq msg.id id ≡ false = same_known s msg.id id in
    at_most_once (str_eq msg.id id) (known s msg.id) (known s id) (known s' id) _ _ _
      (count_shown-append id (handle_message c h n pc msg t).1 (receive_all c n' arrivals).1) now
      after ih e
