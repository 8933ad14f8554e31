-- ===== src/Peer/Samples.antt =====
-- Small nodes, connections and codecs on which the theorems of internal/peer/node.go are run.
use korik.Prelude.{List, Str, [], arith, bytes, false, none, pos, refl, some, take, ℕ, ◌∷◌, ◌≡◌}
use korik.Storage.{written}
use korik.Envelope.{Primitives}
use korik.Envelope.Roundtrip.{IsSound}
use korik.Group.{Room, Store}
use korik.Peer.{Codecs, Message, MsgType, Node, PeerConn, Turn}

-- Nothing is hidden and nothing becomes shorter.
abbrev pub open_primitives : Primitives
open_primitives = record {
  seal = λ key nonce s. some s;
  unseal = λ key nonce s. some s;
  gzip = λ s. some s;
  gunzip = λ limit s. some (take limit s);
  encode64 = λ s. s;
  decode64 = λ s. some s;
}

pub open_primitives-IsSound : IsSound open_primitives
open_primitives-IsSound = record {
  base64_back = λ s. refl;
  sealed_back = λ key nonce s sealed e. ground (arith, e);
  gzip_back = λ s packed limit e. let same : s ≡ packed = ground (arith, e) in rw same refl;
}

abbrev pub sample_codecs : Codecs
sample_codecs = record {
  primitives = open_primitives;
  books = record { encode = λ contacts. []; decode = λ text. none };
  histories = record { encode = λ messages. []; decode = λ text. none };
  rooms = record { encode = λ rooms. []; decode = λ text. none };
}

abbrev pub twelve_bytes : Str
twelve_bytes = bytes "twelve bytes"

abbrev pub empty_node : Str → Node
empty_node jid = record {
  jid = jid;
  seen = none;
  limiter = none;
  contact_book = none;
  history = none;
  groups = none;
  last_beat = [];
}

-- a connection with a session key
abbrev pub ready_conn : Str → PeerConn
ready_conn jid = record {
  name = jid;
  jid = jid;
  lid = [];
  device_id = [];
  addr = bytes "10.0.0.1:7777";
  session_key = some (bytes "key");
}

abbrev pub sample_turn : Turn
sample_turn = record {
  now = 7;
  book_saved = written;
  history_saved = written;
  groups_saved = written;
}

abbrev pub sample_key : List ℕ
sample_key = bytes "0123456789abcdef0123456789abcdef"

abbrev pub room_of : List Str → Room
room_of members = record {
  id = bytes "grp-12";
  name = bytes "team";
  creator = bytes "ann";
  key = sample_key;
  members = members;
  created_at = 1;
}

abbrev pub store_of : Room → Store
store_of room = record { rooms = (room.id, room) ∷ []; file = none }

abbrev pub node_with : Str → Room → Node
node_with jid room = record (empty_node jid) { groups = some (store_of room) }

-- What arrives from bob.
abbrev pub sample_message : MsgType → Message
sample_message kind = record {
  kind = kind;
  id = bytes "env-1";
  seq = 1;
  jid = bytes "bob";
  device_id = [];
  body = [];
  group_id = bytes "grp-12";
  reply_to = [];
  compressed = false;
  sync_since = pos 0;
}
