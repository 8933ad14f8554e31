-- ===== src/Peer/Hello/Tests.antt =====
-- A peer joins a small node.
use korik.Prelude.{
  All, Bool-cases, List, Str, [], arith, bytes, false, inl, inr, length, ltb, none, refl, some,
  str_eq, str_key, suc, zero, ◌++◌, ◌∷◌, ◌≡◌,
}
use korik.GoMap.{get, put}
use korik.Storage.{Codec, written}
use korik.Envelope.{compress, encrypt, encrypt_for_send}
use korik.Queue.{OutgoingMessage, Queue}
use korik.Peer.{rate_key}
use korik.Peer.Outbox.{Link, find_link, send_to_with_id}
use korik.Peer.Samples.{empty_node, open_primitives, ready_conn, sample_codecs, twelve_bytes}
use korik.Peer.Hello.{
  Hello, HelloTurn, Host, KeyAgreement, closed, deliver_all, deliver_one, deliver_pending,
  first_hello, handle_hello, identified, prev_seen, refresh_contact,
}
use korik.Peer.Hello.Identity.{handle_hello-again, handle_hello-spoofed}
use korik.Peer.Hello.Delivery.{Seals, handle_hello-delivers, sealed_for, sent_id}
use korik.Queue as Queue

program : Unit {0}
unfolding handle_hello first_hello identified refresh_contact prev_seen deliver_pending deliver_all
    deliver_one send_to_with_id find_link encrypt_for_send compress encrypt sealed_for sent_id get
    put str_eq rate_key Queue.pending Queue.remove Queue.save_locked
program = tt

-- The fingerprint of a key is the key.
abbrev keys : KeyAgreement
keys = record { parse = λ s. some s; fingerprint = λ s. s; derive = λ s. some (bytes "key") }

abbrev message_to : Str → Str → OutgoingMessage
message_to id jid = record {
  id = id;
  to_jid = jid;
  body = bytes "hi";
  created_at = 1;
  attempts = 0;
}

abbrev waiting : Queue
waiting = record {
  items =
      message_to (bytes "1") (bytes "bob")
      ∷ message_to (bytes "2") (bytes "eve")
      ∷ message_to (bytes "3") (bytes "bob")
      ∷ [];
  file = none;
}

abbrev fresh_link : Link
fresh_link = record {
  peer = record (ready_conn []) { session_key = none };
  dead = false;
  output = [];
}

abbrev host : Host
host = record {
  node = empty_node (bytes "ann");
  device_id = bytes "d1";
  breaker = none;
  queue = some waiting;
  links = (bytes "b", fresh_link) ∷ [];
}

abbrev hello : Hello
hello = record {
  sender = bytes "Bob";
  jid = bytes "bob";
  lid = [];
  device_id = bytes "d2";
  pub_key = bytes "bob";
}

-- A second nonce.
abbrev other_bytes : Str
other_bytes = bytes "abcdefghijkl"

abbrev hello_turn : HelloTurn
hello_turn = record {
  now = 7;
  book_saved = written;
  queue_saved = λ i. written;
  nonces = λ i. elim i [ zero ↦ twelve_bytes | suc n ↦ other_bytes ];
}

abbrev codec : Codec (List OutgoingMessage)
codec = record { encode = λ items. []; decode = λ text. none }

seals : Seals open_primitives (bytes "key") hello_turn.nonces
unfolding program
seals i s = elim (Bool-cases (ltb (length s) 1024)) [
  | inl short ↦ ((hello_turn.nonces i ++ s, false), ground (arith, short))
  | inr long ↦ ((hello_turn.nonces i ++ s, false), ground (arith, long))
]

handle_hello-delivers_example :
    let h' =
      (handle_hello sample_codecs codec keys host (bytes "b") fresh_link hello hello_turn).0 in
    (l' : Link) × (q' : Queue) × (find_link h'.links (bytes "bob") ≡ some (bytes "b", l'))
    × (l'.output
        ≡ (bytes "1", twelve_bytes ++ bytes "hi", false)
          ∷ (bytes "3", other_bytes ++ bytes "hi", false)
          ∷ [])
    × (h'.queue ≡ some q')
    × (q'.items ≡ message_to (bytes "2") (bytes "eve") ∷ [])
    × All (λ m. str_eq m.to_jid (bytes "bob") ≡ false) q'.items
unfolding program
handle_hello-delivers_example =
    handle_hello-delivers sample_codecs codec keys host (bytes "b") fresh_link hello hello_turn
      waiting (bytes "bob") (bytes "key") refl refl refl refl refl refl (refl, tt) refl seals

abbrev impostor : Hello
impostor = record hello { pub_key = bytes "eve" }

handle_hello-spoofed_test :
    let (h', events) =
      handle_hello sample_codecs codec keys host (bytes "b") fresh_link impostor hello_turn in
    (h' ≡ host) × (events ≡ closed ∷ [])
unfolding program
handle_hello-spoofed_test =
    handle_hello-spoofed sample_codecs codec keys host (bytes "b") fresh_link impostor hello_turn
      refl

-- A connection whose key has been rotated.
abbrev rotated : Link
rotated = record fresh_link { peer = record (ready_conn (bytes "bob")) { session_key = some [] } }

handle_hello-again_test :
    let (h', events) =
      handle_hello sample_codecs codec keys host (bytes "b") rotated hello hello_turn in
    (events ≡ [])
    × (h' ≡ record host { links = h'.links })
    × (get h'.links (bytes "b")
        ≡ some (record rotated { peer = identified rotated.peer hello (bytes "key") }))
    × ((identified rotated.peer hello (bytes "key")).session_key ≡ some (bytes "key"))
unfolding program
handle_hello-again_test =
    handle_hello-again sample_codecs codec keys host (bytes "b") rotated hello hello_turn
      (bytes "bob") [] (bytes "key") refl refl refl refl
