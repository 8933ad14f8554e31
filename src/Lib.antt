-- ===== src/Lib.antt =====
-- Models and proofs for korik, a peer-to-peer chat program in Go. Each file under this one models a
-- package under internal/, as the code stands; paths are from the root of the repository.
--
-- The parts and how they meet. A node (internal/peer/node.go) holds connections to peers. What comes
-- in passes a store of identifiers (internal/dedup), a limiter (internal/ratelimit), the block list
-- of the contact book (internal/contacts) and the decryption of its body (internal/crypto and
-- internal/compress); then it is shown, counted and kept in the history (internal/history). Rooms
-- (internal/group) have a key and members of their own. What goes out is sealed for a peer or waits
-- in a queue on disk (internal/queue) until the peer is connected again; files go in chunks
-- (internal/filetransfer). A breaker (internal/circuit) skips addresses that keep failing. Nodes find
-- each other by announcements (internal/peer/discovery.go), or by candidates (internal/nat) that their
-- users exchange; the first message of a connection is a hello, which makes a session key of the keys
-- of the two identities (internal/identity), and the key is rotated from then on.
--
-- Which file models which part:
--   Dedup: internal/dedup/dedup.go. `Seen` with `new`, `add`, `has`, `len`; the loops of `Add` are
--     `drop_expired`, `scan_oldest` and `evict`.
--   Circuit: internal/circuit/circuit.go. `Breaker` with `skip`, `record_success`, `record_failure`.
--   RateLimit: internal/ratelimit/ratelimit.go. RateLimit/Bucket is the token bucket, in whole
--     fractions of a token instead of float64; RateLimit/Limiter, RateLimit/PeerGuard and
--     RateLimit/ConnectionGuard are the three types that use it.
--   Queue: internal/queue/queue.go. `Queue` with `new`, `enqueue`, `pending`, `remove`,
--     `mark_attempt`, `len`.
--   History: internal/history/history.go. `History` with all of its methods; `trim` and
--     `append_pruned` are parts of `Add`, `find_from` is the loop of `FindByIDPrefix`.
--   Group: internal/group/group.go. `Store` with all of its methods; `scan` is the range of `Get`,
--     `sink` and `sort_rooms` are the loops of `List`.
--   Contacts: internal/contacts/contacts.go. `ContactBook` with the methods that change it, the
--     block list, and `fuzzy_score` with its loop `score_from`.
--   FileTransfer: internal/filetransfer/filetransfer.go. `Transfer` with the reading and the writing
--     of chunks; FileTransfer/Checkpoint is `Checkpoint` and `RestorePartial`, FileTransfer/Saving
--     is `SaveFile` with the lock of the transfer, and `read_all` of FileTransfer/Chunking is the
--     loop of `startFileSend` in internal/peer/node.go.
--   Envelope: internal/compress/compress.go, internal/crypto/crypto.go, and `encryptForSend` and
--     `decryptSessionBody` of internal/peer/node.go.
--   Peer: internal/peer/node.go and internal/peer/message.go. `accepts` is the first switch of
--     `handleMessage`, and the handlers of Peer/Inbound are cases of the second; Peer/Sync answers
--     a request for missed messages; Peer/Outbox is `SendToWithID`, `QueueOrSend` and `FlushQueue`.
--   Peer/Rekey: the rotation of session keys, `initiateRekey`, `maybeRekey` and the case for a rekey
--     message; Peer/Rekey/Pair is two nodes and the messages between them. Peer/Hello: the case for a
--     hello, with the delivery of what waits. Peer/Broadcast: `broadcastWithReply`. Peer/GroupChat and
--     Peer/Invites: `SendGroup`, `LeaveRoom`, `CreateRoom`, `InviteToRoom`, `RekeyRoom` and
--     `handleGroupInvite`. Peer/Files: offers, chunks and resuming. Peer/Connect: `ConnectTo` and
--     `ConnectWithRetry`. Peer/Traversal: `ConnectWithCandidates` of internal/peer/internet.go.
--     Peer/Discovery: internal/peer/discovery.go, the announcements without the sockets.
--     Peer/Samples has the nodes that the tests share.
--   Protocol: internal/protocol/protocol.go. `compare_versions` is `Compare`, and `negotiate` is
--     `NegotiateVersion` once its two constants are parsed.
--   Status: internal/status/status.go. `retry_plan` is `RetryPlan`.
--   Stun: internal/nat/stun.go, the messages without the socket. Candidates:
--     internal/nat/candidate.go, without the reading of interfaces.
--   Updates: internal/autoupdate/autoupdate.go. `Checker` with all of its methods.
--   Identity: internal/identity/identity.go. Verify: internal/verify/verify.go.
--   Shell: internal/shell/shell.go. The history and the completions; Shell/Keys is `ReadLine`,
--     with the cursor and the place in the history as integers.
--   Prelude, GoMap and Storage are shared: lists, strings as lists of bytes and what the code calls of
--     package strings, exclusive or, hexadecimal, integers; Go's `map` as a list of entries in the
--     order of a `range`; what a write to disk leaves and what is read back.
--
-- Conventions. A method that changes its receiver returns the new state first. Times are nanoseconds
-- on a clock that is an argument, and the zero time is 0. An `int` is an integer without a bound:
-- no count in these packages comes near 2^63, and a size or an index that comes from the network is
-- any integer, negative ones included. Locks are left out where a method is one critical section;
-- where the lock matters (FileTransfer/Saving) it is modelled. Every theorem about a `range` over a
-- map is for each order of its entries.
-- A panic is a value where the code could meet it: an index or a slice out of range in Shell/Keys, and
-- an empty hash in Verify. Where a loop seals messages or writes to disk, each of its rounds has a
-- nonce and an outcome of its own.
--
-- Parameters stand for the standard library: JSON and the file system (Codec and Outcome of Storage),
-- AES-GCM, gzip and base64 (Primitives of Envelope), the agreement of X25519, the parser of public
-- keys and SHA-256 (Peer/Hello and Peer/Rekey), net.ParseIP, strconv.Atoi, random bytes, and the
-- format of a time. What a server, a disk or a connection does is an argument. What the theorems ask
-- of parameters is a hypothesis of theirs, such as that what was encoded is decoded again, for the
-- value at hand or, for Envelope and FileTransfer/Checkpoint, as their IsSound says.
--
-- Fuel. `evict` of Dedup gets the size of the map: each of its rounds deletes an entry. `read_all`
-- gets a number of rounds that the theorem asks to be greater than the number of chunks. The walk over
-- the attributes of Stun gets one round for each byte and one more, and each round takes 4 bytes at
-- least. `retry_round` of Peer/Connect gets as many rounds as there are attempts. All other loops are
-- recursions over the list or the count that the code walks.
--
-- Not modelled: sockets and goroutines, the terminal, typing indicators and receipts, the age of
-- checkpoints, FuzzySearch over the fields of a contact, FuzzyFilter of the shell, the tester of
-- internal/nat, and the packages validate, cryptobox, config, backup, setup, ui, audit, debug and
-- notify. They are not the core of a chat, or not yet done.
mod Prelude
mod GoMap
pub mod Dedup
pub mod Circuit
pub mod RateLimit
mod Storage
pub mod Queue
pub mod History
pub mod FileTransfer
pub mod Group
pub mod Contacts
pub mod Envelope
pub mod Peer
pub mod Protocol
pub mod Status
pub mod Stun
pub mod Candidates
pub mod Updates
pub mod Shell
pub mod Identity
pub mod Verify
