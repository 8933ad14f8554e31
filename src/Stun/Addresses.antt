-- ===== src/Stun/Addresses.antt =====
-- The address in a STUN answer, as a server writes it and as internal/nat/stun.go reads it.
use Prim.Native.Nat.{bit_xor}
use korik.Prelude.{List, [], arith, refl, some, ℕ, ◌%◌, ◌*◌, ◌++◌, ◌+◌, ◌/◌, ◌<◌, ◌∷◌, ◌≡◌}
use korik.Prelude.Xor.{bit_xor_lt, bit_xor_twice}
use korik.Stun.{magic_cookie, parse_xor_mapped_address, put16, put32}

abbrev number32 : ℕ → ℕ → ℕ → ℕ → ℕ
number32 a b c d = (a * 256 + b) * 65_536 + (c * 256 + d)

-- XOR-MAPPED-ADDRESS of RFC 5389 for an IPv4 address and a port
abbrev pub xor_mapped : ℕ → ℕ → ℕ → ℕ → ℕ → List ℕ
xor_mapped a b c d port =
    0 ∷ 1 ∷ put16 (bit_xor port 0x2112) ++ put32 (bit_xor (number32 a b c d) magic_cookie)

pub put16_back : (n : ℕ) → n < 65_536 → n / 256 % 256 * 256 + n % 256 ≡ n
put16_back n h = omega arith

put32_back :
    (n : ℕ)
    → n < 4_294_967_296
    → number32 (n / 16_777_216 % 256) (n / 65_536 % 256) (n / 256 % 256) (n % 256) ≡ n
put32_back n h = omega arith

put32-number32 :
    (a b c d : ℕ)
    → a < 256
    → b < 256
    → c < 256
    → d < 256
    → put32 (number32 a b c d) ≡ a ∷ b ∷ c ∷ d ∷ []
put32-number32 a b c d ha hb hc hd =
    let p : number32 a b c d / 16_777_216 % 256 ≡ a = omega arith in
    let q : number32 a b c d / 65_536 % 256 ≡ b = omega arith in
    let r : number32 a b c d / 256 % 256 ≡ c = omega arith in
    let s : number32 a b c d % 256 ≡ d = omega arith in rw (p, q, r, s) refl

number32_lt :
    (a b c d : ℕ) → a < 256 → b < 256 → c < 256 → d < 256 → number32 a b c d < 4_294_967_296
number32_lt a b c d ha hb hc hd = omega arith

-- The client reads the address that the server wrote.
pub parse-xor_mapped :
    (a b c d port : ℕ) (tx_id : List ℕ)
    → a < 256
    → b < 256
    → c < 256
    → d < 256
    → port < 65_536
    → parse_xor_mapped_address (xor_mapped a b c d port) tx_id
      ≡ some (record { ip = a ∷ b ∷ c ∷ d ∷ []; port = port })
unfolding parse_xor_mapped_address
parse-xor_mapped a b c d port tx_id ha hb hc hd hp =
    let x = bit_xor port 0x2112 in
    let y = bit_xor (number32 a b c d) magic_cookie in
    let small : x < 65_536 = bit_xor_lt 16 port 0x2112 hp (omega arith) in
    let low : y < 4_294_967_296 =
      bit_xor_lt 32 (number32 a b c d) magic_cookie (number32_lt a b c d ha hb hc hd)
        (omega arith) in
    let port_back : bit_xor (x / 256 % 256 * 256 + x % 256) 0x2112 ≡ port =
      rw (put16_back x small) (bit_xor_twice port 0x2112) in
    let ip_back : put32 (
          bit_xor (number32 (y / 16_777_216 % 256) (y / 65_536 % 256) (y / 256 % 256) (y % 256))
            magic_cookie)
        ≡ a ∷ b ∷ c ∷ d ∷ [] =
      rw (put32_back y low, bit_xor_twice (number32 a b c d) magic_cookie)
        (put32-number32 a b c d ha hb hc hd) in
    λ i. some (record { ip = ip_back i; port = port_back i })
