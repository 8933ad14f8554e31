-- ===== src/Envelope/Tests.antt =====
-- The theorems on sealed bodies at primitives that are easy to compute.
use korik.Prelude.{Str, arith, bytes, false, refl, some, take, ◌++◌, ◌≡◌}
use korik.Envelope.{
  Primitives, compress, decompress, decrypt, decrypt_session_body, encrypt, encrypt_for_send,
}
use korik.Envelope.Roundtrip.{IsSound, decrypt-encrypt_for_send}

program : Unit {0}
unfolding encrypt_for_send decrypt_session_body compress encrypt decrypt decompress
program = tt

-- Nothing is hidden and nothing becomes shorter.
abbrev plain : Primitives
plain = record {
  seal = λ key nonce s. some s;
  unseal = λ key nonce s. some s;
  gzip = λ s. some s;
  gunzip = λ limit s. some (take limit s);
  encode64 = λ s. s;
  decode64 = λ s. some s;
}

plain-IsSound : IsSound plain
plain-IsSound = record {
  base64_back = λ s. refl;
  sealed_back = λ key nonce s sealed e. ground (arith, e);
  gzip_back = λ s packed limit e. let same : s ≡ packed = ground (arith, e) in rw same refl;
}

abbrev nonce : Str
nonce = bytes "twelve bytes"

decrypt-encrypt_for_send_example :
    decrypt_session_body plain (some (bytes "key")) (nonce ++ bytes "hello") false
    ≡ some (bytes "hello")
unfolding program
decrypt-encrypt_for_send_example =
    decrypt-encrypt_for_send plain plain-IsSound (bytes "key") nonce (bytes "hello")
      (nonce ++ bytes "hello") false refl refl
