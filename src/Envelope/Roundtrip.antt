-- ===== src/Envelope/Roundtrip.antt =====
-- What was sealed is opened again: internal/compress, internal/crypto and internal/peer/node.go.
use korik.Prelude.{
  Bool, Bool-cases, Option-cases, Str, arith, drop-append_length, false, if◌then◌else◌, inl, inr,
  leb, length, length-append, length-take, ltb, none, some, take, take-all, take-append_length,
  take-length, true, ℕ, ◌++◌, ◌+◌, ◌∙◌, ◌≡◌, ◌≤◌,
}
use korik.Envelope.{
  Primitives, compress, decompress, decrypt, decrypt_session_body, encrypt, encrypt_for_send,
  max_decompressed, nonce_size,
}

-- What the documentation of the primitives promises.
pub record IsSound (p : Primitives) : Type 0 where
  pub base64_back : (s : Str) → p.decode64 (p.encode64 s) ≡ some s
  pub sealed_back :
      (key nonce s sealed : Str)
      → p.seal key nonce s ≡ some sealed
      → p.unseal key nonce sealed ≡ some s
  pub gzip_back :
      (s packed : Str) (limit : ℕ)
      → p.gzip s ≡ some packed
      → p.gunzip limit packed ≡ some (take limit s)

-- What is left of a text that was read up to one byte past the limit.
bounded :
    (max : ℕ) (s : Str)
    → (if ltb max (length (take (max + 1) s)) then none else some (take (max + 1) s))
      ≡ (if leb (length s) max then some s else none)
bounded max s = elim (Bool-cases (leb (length s) max)) [
  | inl fits ↦
      let whole : take (max + 1) s ≡ s =
        take-all (max + 1) (length s) s (ground (arith, fits)) (omega arith) ∙ take-length s in
      rw (whole, fits) (ground (arith, fits))
  | inr long ↦ ground (arith, long, length-take (max + 1) s)
]

module _ (p : Primitives) (sound : IsSound p) where
  decrypt-encrypt :
      (key nonce s out : Str)
      → length nonce ≡ nonce_size
      → encrypt p key nonce s ≡ some out
      → decrypt p key out ≡ some s
  unfolding encrypt decrypt
  decrypt-encrypt key nonce s out size e = elim (Option-cases (p.seal key nonce s)) [
    | inl failed ↦ absurd (ground (arith, e, failed))
    | inr (sealed, ok) ↦
        let whole : out ≡ nonce ++ sealed = ground (arith, e, ok) in
        ground (
          arith,
          whole,
          size,
          length-append nonce sealed,
          take-append_length nonce sealed 12 size,
          drop-append_length nonce sealed 12 size,
          sound.sealed_back key nonce s sealed ok,
        )
  ]

  decompress_packed :
      (s packed : Str)
      → p.gzip s ≡ some packed
      → decompress p packed true ≡ (if leb (length s) max_decompressed then some s else none)
  unfolding decompress
  decompress_packed s packed ok =
      rw (decompress, sound.gzip_back s packed (max_decompressed + 1) ok)
        (bounded max_decompressed s)

  decompress_plain :
      (s : Str) → decompress p s false ≡ (if leb (length s) max_decompressed then some s else none)
  unfolding decompress
  decompress_plain s = ground arith

  -- A text comes back from its compressed form exactly if it has no more than 1 MiB.
  decompress-compress :
      (s payload : Str) (compressed : Bool)
      → compress p s ≡ some (payload, compressed)
      → decompress p payload compressed ≡ (if leb (length s) max_decompressed then some s else none)
  unfolding compress
  decompress-compress s payload true e = elim (Option-cases (p.gzip s)) [
    | inl failed ↦ absurd (ground (arith, e, failed))
    | inr (packed, ok) ↦
        let same : payload ≡ packed = ground (arith, e, ok) in
        rw same (decompress_packed s packed ok)
  ]
  decompress-compress s payload false e =
      let same : payload ≡ s = ground (arith, e) in rw same (decompress_plain s)

  -- A body that was compressed and encrypted for a peer is opened by that peer, who has the same
  -- key, exactly if the text has no more than 1 MiB: a longer one is sent and then dropped there.
  pub decrypt-encrypt_for_send :
      (key nonce s out : Str) (compressed : Bool)
      → length nonce ≡ nonce_size
      → encrypt_for_send p key nonce s ≡ some (out, compressed)
      → decrypt_session_body p (some key) (p.encode64 out) compressed
        ≡ (if leb (length s) max_decompressed then some s else none)
  unfolding encrypt_for_send decrypt_session_body
  decrypt-encrypt_for_send key nonce s out compressed size e = elim (Option-cases (compress p s)) [
    | inl failed ↦ absurd (ground (arith, e, failed))
    | inr ((payload, c), ok) ↦ elim (Option-cases (encrypt p key nonce payload)) [
      | inl failed ↦ absurd (ground (arith, e, ok, failed))
      | inr (sealed, done) ↦
          let same : sealed ≡ out = ground (arith, e, ok, done) in
          let flag : c ≡ compressed = ground (arith, e, ok, done) in
          ground (
            arith,
            same,
            flag,
            sound.base64_back out,
            decrypt-encrypt key nonce payload sealed size done,
            decompress-compress s payload c ok,
          )
    ]
  ]

  -- A text that was encrypted without compression comes back, up to the limit of the decoder.
  pub decrypt_session_body-encrypt :
      (key nonce s out : Str)
      → length nonce ≡ nonce_size
      → encrypt p key nonce s ≡ some out
      → length s ≤ max_decompressed
      → decrypt_session_body p (some key) (p.encode64 out) false ≡ some s
  unfolding decrypt_session_body
  decrypt_session_body-encrypt key nonce s out size e fits = ground (
    arith,
    sound.base64_back out,
    decrypt-encrypt key nonce s out size e,
    decompress_plain s,
    fits,
  )
