-- ===== src/Peer/Tests.antt =====
-- The theorems on internal/peer/node.go at a node that is small enough to compute.
use korik.Prelude.{
  List, Str, [], arith, bytes, false, int_key, none, pos, refl, some, str_eq, str_key, true, ℕ, ◌∷◌,
  ◌≡◌, ◌≤◌,
}
use korik.GoMap.{get, put}
use korik.Storage.{Codec, written}
use korik.Envelope.{
  Primitives, compress, decompress, decrypt, decrypt_session_body, encrypt, encrypt_for_send,
}
use korik.Dedup.{Seen}
use korik.Contacts.{Contact, ContactBook}
use korik.History.{History, total_stored}
use korik.Peer.Inbound.{
  chats, count_message, handle, handle_chat, handle_message, handle_sync_data, remember, syncs,
}
use korik.Peer.{
  Codecs, Message, MsgType, Node, PeerConn, Turn, accepts, allow_inbound, is_blocked_by,
  is_deduplicated, msg_chat, msg_sync_data, shows,
}
use korik.Peer.Replay.{handle_message-replay}
use korik.Peer.Once.{count-receive_all, count_id, receive_all, shown_ids}
use korik.Peer.Blocked.{handle_chat-blocked, handle_sync_data-blocked}
use korik.Queue.{OutgoingMessage, Queue}
use korik.Queue.Removal.{Lacks}
use korik.Peer.Outbox.{FlushRound, Links, find_link, flush_one, flush_queue}
use korik.Peer.Flush.{contents, flush_one-dead, flush_queue-offline}
use korik.Peer.Sync.{handle_sync_request, sealed_from, send_sync_data, sync_from}
use korik.Contacts as Book
use korik.History as Log

program : Unit {0}
unfolding handle_message accepts is_deduplicated handle handle_chat handle_sync_data allow_inbound
    is_blocked_by remember count_message decrypt_session_body decrypt decompress str_eq get put
    Book.is_blocked handle_sync_request send_sync_data sync_from sealed_from Log.get_since
    receive_all shown_ids count_id
program = tt

-- Nothing is hidden.
abbrev plain : Primitives
plain = record {
  seal = λ key nonce s. some s;
  unseal = λ key nonce s. some s;
  gzip = λ s. some s;
  gunzip = λ limit s. some s;
  encode64 = λ s. s;
  decode64 = λ s. some s;
}

abbrev codecs : Codecs
codecs = record {
  primitives = plain;
  books = record { encode = λ contacts. []; decode = λ text. none };
  histories = record { encode = λ messages. []; decode = λ text. none };
  rooms = record { encode = λ rooms. []; decode = λ text. none };
}

abbrev nothing_seen : Seen
nothing_seen = record { ids = []; max = 3; ttl = 9 }

abbrev enemy : Contact
enemy = record {
  jid = bytes "korik:b";
  name = bytes "bob";
  display_name = [];
  last_address = [];
  last_seen = 1;
  first_met = 1;
  message_count = 0;
  favorite = false;
  blocked = true;
  notes = [];
  tags = [];
}

abbrev book : ContactBook
book = record { contacts = (bytes "korik:b", enemy) ∷ []; file = none }

abbrev log : History
log = record {
  max_size = pos 9;
  messages =
      record {
        id = bytes "m0";
        sender = bytes "ann";
        jid = bytes "korik:c";
        lid = [];
        sender_device = [];
        seq = 1;
        group_id = [];
        reply_to = [];
        body = bytes "for carl";
        timestamp = 2_000_000_000;
        direction = bytes "sent";
        expires_at = 0;
      }
      ∷ [];
  ttl = pos 0;
  total_stored = 1;
  tail_only = false;
  file = none;
}

abbrev node : Node
node = record {
  jid = bytes "korik:a";
  seen = some nothing_seen;
  limiter = none;
  contact_book = some book;
  history = some log;
  groups = none;
  last_beat = [];
}

abbrev bob : PeerConn
bob = record {
  name = bytes "bob";
  jid = bytes "korik:b";
  lid = bytes "b";
  device_id = [];
  addr = bytes "10.0.0.2:9";
  session_key = some (bytes "key");
}

-- before the handshake
abbrev early : PeerConn
early = record bob { session_key = none }

abbrev letter : MsgType → Message
letter kind = record {
  kind = kind;
  id = bytes "m1";
  seq = 1;
  jid = bytes "korik:b";
  device_id = [];
  body = bytes "twelve byteshello";
  group_id = [];
  reply_to = [];
  compressed = false;
  sync_since = pos 1;
}

abbrev turn : Turn
turn = record { now = 5; book_saved = written; history_saved = written; groups_saved = written }

-- A message that came before the handshake is lost: its retry is not shown.
handle_message-replay_example :
    handle_message codecs chats
      (handle_message codecs chats node early (letter msg_chat) turn).0
      bob
      (letter msg_chat)
      turn
    ≡ ((handle_message codecs chats node early (letter msg_chat) turn).0, [])
unfolding is_deduplicated str_eq
handle_message-replay_example =
    handle_message-replay codecs chats chats node early bob (letter msg_chat) (letter msg_chat) turn
      turn nothing_seen refl refl refl refl refl

count-receive_all_example :
    count_id (bytes "m1") (
      shown_ids
        (receive_all codecs node (
          (syncs, bob, letter msg_sync_data, turn)
          ∷ (syncs, bob, letter msg_sync_data, turn)
          ∷ [])).1)
    ≤ 1
unfolding is_deduplicated str_eq get
count-receive_all_example =
    count-receive_all codecs node nothing_seen
      ((syncs, bob, letter msg_sync_data, turn) ∷ (syncs, bob, letter msg_sync_data, turn) ∷ [])
      (bytes "m1") refl (refl, refl, (refl, refl, tt)) (omega arith) refl

handle_chat-blocked_example :
    let (n', events) = handle_chat codecs node bob (letter msg_chat) turn in
    (events ≡ [])
    × (n'.history ≡ node.history)
    × (n'.contact_book ≡ node.contact_book)
    × (n'.groups ≡ node.groups)
unfolding program
handle_chat-blocked_example =
    handle_chat-blocked codecs node bob (letter msg_chat) turn book refl refl

-- The contact is blocked, and yet the message is shown.
blocked_yet_shown :
    (handle_sync_data codecs node bob (letter msg_sync_data) turn).1
    ≡ shows (bytes "m1") (bytes "korik:b") (bytes "hello") ∷ []
unfolding program
blocked_yet_shown = refl

handle_sync_data-blocked_test :
    let (n', events) = handle_sync_data codecs node bob (letter msg_sync_data) turn in
    let (m, shown) =
      handle_sync_data codecs
        (record node { contact_book = none })
        bob
        (letter msg_sync_data)
        turn in
    (shown ≡ events)
    × (m.history ≡ n'.history)
    × (events
        ≡ elim (decrypt_session_body plain (some (bytes "key")) (bytes "twelve byteshello") false) [
          | none ↦ []
          | some text ↦ shows (bytes "m1") (bytes "korik:b") text ∷ []
        ])
handle_sync_data-blocked_test =
    handle_sync_data-blocked codecs node bob (letter msg_sync_data) turn none

abbrev waiting : OutgoingMessage
waiting = record {
  id = bytes "q1";
  to_jid = bytes "korik:b";
  body = bytes "hello";
  created_at = 3;
  attempts = 0;
}

abbrev queue : Queue
queue = record { items = waiting ∷ []; file = none }

abbrev queues : Codec (List OutgoingMessage)
queues = record { encode = λ items. []; decode = λ text. none }

abbrev format : ℕ → Str
format time = []

-- The connection to Bob has failed, and is not removed yet.
abbrev failed_link : Links
failed_link = (bytes "10.0.0.2:9", record { peer = bob; dead = true; output = [] }) ∷ []

abbrev round : FlushRound
round = record {
  nonce = bytes "twelve bytes";
  marked = written;
  removed = written;
  accepts = λ jid body. false;
}

flush_queue-offline_example :
    let ((links', q'), sent) =
      flush_queue plain queues format [] queue (bytes "korik:b") false (λ i. round) in
    (links' ≡ []) × (contents q'.items ≡ contents queue.items) × (sent ≡ 0)
unfolding find_link
flush_queue-offline_example =
    flush_queue-offline plain queues format [] queue (bytes "korik:b") (λ i. round) refl

flush_one-dead_example :
    let ((links', q'), sent) =
      flush_one plain queues format
        (bytes "korik:b")
        true
        round
        ((failed_link, queue), 0)
        waiting in
    (links' ≡ failed_link) × Lacks (bytes "q1") q'.items × (sent ≡ 1)
unfolding find_link str_eq encrypt_for_send compress encrypt get
flush_one-dead_example =
    flush_one-dead plain queues format failed_link queue 0 (bytes "korik:b") (bytes "10.0.0.2:9")
      (bytes "key") (record { peer = bob; dead = true; output = [] }) waiting
      (bytes "twelve byteshello", false) true round (refl, tt) refl refl refl refl refl
