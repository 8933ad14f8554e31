-- ===== src/Peer/Replay.antt =====
-- Replays in internal/peer/node.go: an envelope that was seen is not processed again.
use korik.Prelude.{Option, [], ap, arith, false, refl, some, str_eq, sym, true, ℕ, ◌∙◌, ◌≡◌}
use korik.Dedup.{Seen}
use korik.Dedup.Duplicates.{add_answer, known}
use korik.Peer.Inbound.{
  Handler, beats, chats, count_message, group_chats, handle, handle_chat, handle_group_chat,
  handle_group_leave, handle_heartbeat, handle_message, handle_sync_data, leaves, open_group_chat,
  remember, syncs,
}
use korik.Peer.{Codecs, Message, Node, PeerConn, Turn, accepts, allow_inbound, is_deduplicated}
use korik.Dedup as Dedup

-- Only the first switch of `handleMessage` changes what was seen.
seen-handle :
    (c : Codecs) (h : Handler) (n : Node) (pc : PeerConn) (msg : Message) (t : Turn)
    → (handle c h n pc msg t).0.seen ≡ n.seen
unfolding handle handle_chat handle_sync_data handle_group_chat open_group_chat handle_group_leave
    handle_heartbeat remember count_message allow_inbound
seen-handle c chats n pc msg t = ground arith
seen-handle c group_chats n pc msg t = ground arith
seen-handle c syncs n pc msg t = ground arith
seen-handle c leaves n pc msg t = ground arith
seen-handle c beats n pc msg t = ground arith

pub accepts-known :
    (n : Node) (msg : Message) (now : ℕ) (s : Seen)
    → n.seen ≡ some s
    → known s msg.id ≡ true
    → is_deduplicated msg.kind ≡ true
    → str_eq msg.id [] ≡ false
    → accepts n msg now ≡ (n, false)
unfolding accepts
accepts-known n msg now s there seen_before kind named =
    let (answer, same, _) = add_answer s msg.id now in
    let dup : (Dedup.add s msg.id now).1 ≡ false = ground (arith, answer, seen_before, named) in
    let back : record n { seen = some s } ≡ n =
      ap (λ (o : Option Seen). record n { seen = o }) (sym there) in
    ground (arith, there, kind, named, dup, same dup, back)

pub seen-accepts :
    (n : Node) (msg : Message) (now : ℕ) (s : Seen)
    → n.seen ≡ some s
    → is_deduplicated msg.kind ≡ true
    → str_eq msg.id [] ≡ false
    → (accepts n msg now).0.seen ≡ some (Dedup.add s msg.id now).0
unfolding accepts
seen-accepts n msg now s there kind named = ground (arith, there, kind, named)

pub seen-handle_message :
    (c : Codecs) (h : Handler) (n : Node) (pc : PeerConn) (msg : Message) (t : Turn)
    → (handle_message c h n pc msg t).0.seen ≡ (accepts n msg t.now).0.seen
unfolding handle_message
seen-handle_message c h n pc msg t =
    ground (arith, seen-handle c h (accepts n msg t.now).0 pc msg t)

-- An envelope with an identifier, of a kind that is deduplicated, has been handled by a node that
-- keeps identifiers: the next one with that identifier, whenever and from whomever it comes and
-- whatever it says, changes nothing and shows nothing. So it is even if the first one was dropped,
-- because the peer was over its limit, its session had no key yet or its body could not be opened: a
-- retry under the same identifier is lost.
pub handle_message-replay :
    (c : Codecs) (h h' : Handler) (n : Node) (pc pc' : PeerConn) (msg msg' : Message) (t t' : Turn)
    (s : Seen)
    → n.seen ≡ some s
    → is_deduplicated msg.kind ≡ true
    → is_deduplicated msg'.kind ≡ true
    → str_eq msg.id [] ≡ false
    → msg'.id ≡ msg.id
    → let n' = (handle_message c h n pc msg t).0 in handle_message c h' n' pc' msg' t' ≡ (n', [])
unfolding handle_message
handle_message-replay c h h' n pc pc' msg msg' t t' s there first next named same =
    let n' = (handle_message c h n pc msg t).0 in
    let s' = (Dedup.add s msg.id t.now).0 in
    let kept : n'.seen ≡ some s' =
      seen-handle_message c h n pc msg t ∙ seen-accepts n msg t.now s there first named in
    let k : known s' msg.id ≡ true = ground (arith, (add_answer s msg.id t.now).2, named) in
    let dup : accepts n' msg' t'.now ≡ (n', false) =
      accepts-known n' msg' t'.now s' kept (rw same k) next (rw same named) in
    rw dup refl
