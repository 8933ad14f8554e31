-- ===== src/Peer/Rekey.antt =====
-- The rotation of session keys in internal/peer/node.go: `maybeRekey`, `initiateRekey`, `rekeySlots`
-- and the case for MsgRekey. X25519, the key parser and SHA-256 are a parameter; what a call draws
-- at random is an argument of it.
use korik.Prelude.{
  Bool, List, Option, Str, [], bytes, if◌then◌else◌, ltb, none, some, str_key, true, ℕ, ◌++◌, ◌+◌,
  ◌∷◌,
}
use korik.GoMap.{Map, get, put, remove}
pub mod Pair
pub mod Agreement
pub mod Stale
pub mod Timer
mod Tests

-- A private key, the hex of its public key, the parser of such a text, what two keys share, and the hash.
pub record Curve : Type 0 where
  pub public_hex : Str → Str
  pub parse : Str → Option Str
  pub ecdh : Str → Str → Option Str
  pub sha256 : Str → Str

-- The session key of each connection, by its address (`none` before the handshake), the ephemeral
-- key of each exchange that waits for its answer, and the time of the last rotation.
pub record Keys : Type 0 where
  pub sessions : Map Str (Option Str)
  pub slots : Map Str Str
  pub last_rekey : Map Str ℕ

abbrev pub session_key : Keys → Str → Option Str
session_key n addr = elim (get n.sessions addr) [ none ↦ none | some key ↦ key ]

-- the keys of `conns`
abbrev pub addresses : Map Str (Option Str) → List Str
addresses [] = []
addresses ((addr, _) ∷ m) = addr ∷ addresses m

-- `removePeer`: the connection goes, and its waiting exchange stays.
unfoldable pub remove_peer : Keys → Str → Keys
remove_peer n addr = record n { sessions = remove n.sessions addr }

-- pc.sessionKey = sessionKey, in the case for MsgHello of a connection from `addr`
unfoldable pub start_session : Keys → Str → Str → Keys
start_session n addr key = record n { sessions = put n.sessions addr (some key) }

-- last.IsZero() || now.Sub(last) > 10*time.Minute, with times in seconds
unfoldable pub is_due : Keys → Str → ℕ → Bool
is_due n addr now = elim (get n.last_rekey addr) [ none ↦ true | some last ↦ ltb (last + 600) now ]

module _ (c : Curve) where
  unfoldable pub mix_keys : Str → Str → Str
  mix_keys old_key fresh_key =
      c.sha256 (bytes "korik-rekey-v1:" ++ old_key ++ bytes "|" ++ fresh_key)

  -- The state, and the public key that is sent; `none` is the error "no session yet".
  unfoldable pub initiate_rekey : Keys → Str → Str → Keys × Option Str
  initiate_rekey n addr ephemeral = elim (session_key n addr) [
    | none ↦ (n, none)
    | some _ ↦ (record n { slots = put n.slots addr ephemeral }, some (c.public_hex ephemeral))
  ]

  -- the end of the case for MsgRekey
  unfoldable pub rotate : Keys → Str → Str → Str → ℕ → Keys
  rotate n addr old_key shared now = record n {
    sessions = put n.sessions addr (some (mix_keys old_key shared));
    last_rekey = put n.last_rekey addr now;
  }

  -- from the parsed public key on
  unfoldable pub exchange : Keys → Str → Str → Str → Str → ℕ → Keys × Option Str
  unfolding rotate
  exchange n addr old_key their_pub response now =
      let n' = record n { slots = remove n.slots addr } in
      elim (get n.slots addr) [
        | some our_ephemeral ↦ elim (c.ecdh our_ephemeral their_pub) [
          | none ↦ (n', none)
          | some shared ↦ (rotate n' addr old_key shared now, none)
        ]
        | none ↦ elim (c.ecdh response their_pub) [
          | none ↦ (n, none)
          | some shared ↦ (rotate n addr old_key shared now, some (c.public_hex response))
        ]
      ]

  -- case MsgRekey, for a message with the given public key, and what is sent back
  unfoldable pub handle_rekey : Keys → Str → Str → Str → ℕ → Keys × Option Str
  unfolding exchange
  handle_rekey n addr pub_key response now = elim (c.parse pub_key) [
    | none ↦ (n, none)
    | some their_pub ↦ elim (session_key n addr) [
      | none ↦ (n, none)
      | some old_key ↦ exchange n addr old_key their_pub response now
    ]
  ]

  -- One round of the loop of `maybeRekey`, and the public keys sent so far, with their addresses.
  unfoldable pub rekey_one :
      (Str → Str) → ℕ → Keys × List (Str × Str) → Str → Keys × List (Str × Str)
  unfolding initiate_rekey is_due
  rekey_one draw now (n, sent) addr =
      let (n', message) = initiate_rekey n addr (draw addr) in
      if is_due n addr now
      then elim message [
        | none ↦ (n', sent)
        | some m ↦ (record n' { last_rekey = put n'.last_rekey addr now }, (addr, m) ∷ sent)
      ]
      else (n, sent)

  unfoldable pub rekey_all :
      (Str → Str) → ℕ → Keys × List (Str × Str) → List Str → Keys × List (Str × Str)
  unfolding rekey_one
  rekey_all draw now state [] = state
  rekey_all draw now state (addr ∷ addrs) = rekey_all draw now (rekey_one draw now state addr) addrs

  -- over the connections, in the order of a range
  unfoldable pub maybe_rekey : (Str → Str) → ℕ → Keys → Keys × List (Str × Str)
  unfolding rekey_all
  maybe_rekey draw now n = rekey_all draw now (n, []) (addresses n.sessions)
