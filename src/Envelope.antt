-- ===== src/Envelope.antt =====
-- The body of a message on its way: internal/compress/compress.go, `Encrypt` and `Decrypt` of
-- internal/crypto/crypto.go, and `encryptForSend` and `decryptSessionBody` of internal/peer/node.go.
-- AES-GCM, gzip and base64 are parameters; `none` is an error.
use korik.Prelude.{
  Bool, Option, Str, drop, false, if◌then◌else◌, leb, length, ltb, none, some, take, true, ℕ, ◌++◌,
  ◌+◌, ◌>>=◌,
}
pub mod Roundtrip
mod Tests

-- crypto/aes and crypto/cipher, compress/gzip (reading no more than so many bytes of the output) and
-- encoding/base64
pub record Primitives : Type 0 where
  pub seal : Str → Str → Str → Option Str
  pub unseal : Str → Str → Str → Option Str
  pub gzip : Str → Option Str
  pub gunzip : ℕ → Str → Option Str
  pub encode64 : Str → Str
  pub decode64 : Str → Option Str

abbrev pub nonce_size : ℕ
nonce_size = 12

abbrev pub threshold : ℕ
threshold = 1024

abbrev pub max_decompressed : ℕ
max_decompressed = 1_048_576

module _ (p : Primitives) where
  -- with the nonce that was drawn
  unfoldable pub encrypt : Str → Str → Str → Option Str
  encrypt key nonce plaintext = elim (p.seal key nonce plaintext) [
    | none ↦ none
    | some sealed ↦ some (nonce ++ sealed)
  ]

  unfoldable pub decrypt : Str → Str → Option Str
  decrypt key raw =
      if ltb (length raw) nonce_size
      then none
      else p.unseal key (take nonce_size raw) (drop nonce_size raw)

  unfoldable pub compress : Str → Option (Str × Bool)
  compress plain =
      if ltb (length plain) threshold then some (plain, false) else elim (p.gzip plain) [
        | none ↦ none
        | some packed ↦
            if leb (length plain) (length packed) then some (plain, false) else some (packed, true)
      ]

  unfoldable pub decompress : Str → Bool → Option Str
  decompress payload false = if ltb max_decompressed (length payload) then none else some payload
  decompress payload true = elim (p.gunzip (max_decompressed + 1) payload) [
    | none ↦ none
    | some out ↦ if ltb max_decompressed (length out) then none else some out
  ]

  unfoldable pub encrypt_for_send : Str → Str → Str → Option (Str × Bool)
  unfolding compress encrypt
  encrypt_for_send key nonce plaintext = do
    (payload, compressed) ← compress plaintext
    sealed ← encrypt key nonce payload
    some (sealed, compressed)

  -- `none` is also the session that has no key yet
  unfoldable pub decrypt_session_body : Option Str → Str → Bool → Option Str
  unfolding decrypt decompress
  decrypt_session_body none body compressed = none
  decrypt_session_body (some key) body compressed = do
    raw ← p.decode64 body
    plaintext ← decrypt key raw
    decompress plaintext compressed
