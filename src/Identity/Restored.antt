-- ===== src/Identity/Restored.antt =====
-- Identities that come back from a backup or from their file, in internal/identity/identity.go.
use korik.Prelude.Hex.{hex, unhex-hex}
use korik.Storage.{Codec, Outcome, load, save, written}
use korik.Identity.{
  X25519, from_hex, from_raw_private, identity, identity_of, keep, load_or_create, raw_private_hex,
  restore_from_hex,
}
use korik.Prelude.{All, List, Option, Str, arith, refl, some, ℕ, ◌<◌, ◌≡◌}

module _ (curve : X25519) (codec : Codec Str) (raw raw_public : List ℕ) where
  from_hex-hex :
      All (λ b. b < 256) raw
      → curve.public_of raw ≡ some raw_public
      → from_hex curve (hex raw) ≡ identity (identity_of raw raw_public)
  unfolding from_hex from_raw_private
  from_hex-hex h there = ground (arith, unhex-hex raw h, there)

  restore-written :
      (file : Option Str)
      → All (λ b. b < 256) raw
      → curve.public_of raw ≡ some raw_public
      → restore_from_hex curve codec (hex raw) written file
        ≡ (some (codec.encode (hex raw)), identity (identity_of raw raw_public))
  unfolding restore_from_hex keep save identity_of
  restore-written file h there = rw (from_hex-hex h there) refl

  load-written :
      (generated : List ℕ) (o : Outcome)
      → All (λ b. b < 256) raw
      → curve.public_of raw ≡ some raw_public
      → codec.decode (codec.encode (hex raw)) ≡ some (hex raw)
      → load_or_create curve codec generated o (some (codec.encode (hex raw)))
        ≡ (some (codec.encode (hex raw)), identity (identity_of raw raw_public))
  unfolding load_or_create load
  load-written generated o h there back = ground (arith, back, from_hex-hex h there)

  -- The private key of an identity, as it is exposed for a backup, restores this identity, and writes it
  -- to the file, where every start of the program finds it, whatever it would draw. The bytes of the
  -- key are below 256, its public key is given, and JSON keeps the text of the key.
  pub restore_from_hex-raw_private_hex :
      (file : Option Str)
      → All (λ b. b < 256) raw
      → curve.public_of raw ≡ some raw_public
      → codec.decode (codec.encode (hex raw)) ≡ some (hex raw)
      → let i = identity_of raw raw_public in
        let (file', restored) = restore_from_hex curve codec (raw_private_hex i) written file in
        (restored ≡ identity i)
        × ((generated : List ℕ) (o : Outcome)
            → load_or_create curve codec generated o file' ≡ (file', identity i))
  unfolding raw_private_hex identity_of
  restore_from_hex-raw_private_hex file h there back =
      rw (restore-written file h there) (refl, λ generated o. load-written generated o h there back)
