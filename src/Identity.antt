-- ===== src/Identity.antt =====
-- internal/identity/identity.go: the identity of a node, its file and the identifiers that are made of a
-- public key. X25519 and JSON are parameters, and so is what random bytes give. `none` for a hex text
-- or a key is its error.
pub mod Restored
pub mod Spelling
mod Tests
use korik.Prelude.Hex.{hex, unhex}
use korik.Storage.{Codec, Outcome, SaveError, absent, broken, found, load, save}
use korik.Prelude.{
  Bool, List, Option, Str, bytes, if◌then◌else◌, length, ltb, none, some, take, ℕ, ◌++◌, ◌>>=◌,
}

-- ecdh.X25519: the public key to the bytes of a private one, and the test of the bytes of a public one
pub record X25519 : Type 0 where
  pub public_of : List ℕ → Option (List ℕ)
  pub is_public : List ℕ → Bool

pub record Identity : Type 0 where
  pub raw_priv : List ℕ
  pub raw_public : List ℕ
  pub jid : Str
  pub lid : Str

pub data IdentityError : Type 0 where
  bad_json bad_hex bad_key : IdentityError
  not_saved : SaveError → IdentityError

pub data Loaded : Type 0 where
  identity : Identity → Loaded
  failed : IdentityError → Loaded

unfoldable pub jid_from_public_key_hex : Str → Str
jid_from_public_key_hex hex_text = bytes "korik:" ++ hex_text

unfoldable pub lid_from_public_key_hex : Str → Str
lid_from_public_key_hex hex_text = if ltb (length hex_text) 8 then hex_text else take 8 hex_text

unfoldable pub public_key_hex : Identity → Str
public_key_hex i = hex i.raw_public

unfoldable pub raw_private_hex : Identity → Str
raw_private_hex i = hex i.raw_priv

-- the result of `fromRawPrivate`
unfoldable pub identity_of : List ℕ → List ℕ → Identity
identity_of raw_priv raw_public = record {
  raw_priv = raw_priv;
  raw_public = raw_public;
  jid = bytes "korik:" ++ hex raw_public;
  lid = take 8 (hex raw_public);
}

module _ (curve : X25519) where
  -- ParsePeerPublicKey
  unfoldable pub parse_peer_public_key : Str → Option (List ℕ)
  parse_peer_public_key hex_text = do
    raw ← unhex hex_text
    if curve.is_public raw then some raw else none

  unfoldable pub from_raw_private : List ℕ → Loaded
  unfolding identity_of
  from_raw_private raw_priv = elim (curve.public_of raw_priv) [
    | none ↦ failed bad_key
    | some raw_public ↦ identity (identity_of raw_priv raw_public)
  ]

  unfoldable pub from_hex : Str → Loaded
  unfolding from_raw_private
  from_hex text = elim (unhex text) [ none ↦ failed bad_hex | some raw ↦ from_raw_private raw ]

  module _ (codec : Codec Str) where
    -- the end of `LoadOrCreate` and of `RestoreFromHex`: the file holds the private key
    unfoldable pub keep : Loaded → Outcome → Option Str → Option Str × Loaded
    keep (failed e) o file = (file, failed e)
    keep (identity i) o file =
        let (file', error) = save codec (hex i.raw_priv) o file in
        (file', elim error [ none ↦ identity i | some e ↦ failed (not_saved e) ])

    unfoldable pub restore_from_hex : Str → Outcome → Option Str → Option Str × Loaded
    unfolding from_hex keep
    restore_from_hex private_hex o file = keep (from_hex private_hex) o file

    -- `generated` is the private key that is drawn where there is no file.
    unfoldable pub load_or_create : List ℕ → Outcome → Option Str → Option Str × Loaded
    unfolding from_raw_private from_hex keep
    load_or_create generated o file = elim (load codec file) [
      | found text ↦ (file, from_hex text)
      | broken ↦ (file, failed bad_json)
      | absent ↦ keep (from_raw_private generated) o file
    ]
