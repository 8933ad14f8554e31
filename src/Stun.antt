-- ===== src/Stun.antt =====
-- internal/nat/stun.go: the messages of a STUN client. A packet is its bytes, each below 256; an
-- address is the bytes of its `net.IP`, whose text form is left to the standard library.
pub mod Attributes
pub mod Addresses
pub mod Answers
mod Tests
use Prim.Native.Nat.{bit_xor}
use korik.Prelude.{
  List, Option, [], drop, get_elem?, if◌then◌else◌, length, ltb, min, none, not, some, str_eq, suc,
  take, zero, ℕ, ◌%◌, ◌*◌, ◌++◌, ◌+◌, ◌-◌, ◌/◌, ◌||◌, ◌∷◌, ◌≟◌,
}

abbrev pub magic_cookie : ℕ
magic_cookie = 0x2112A442

abbrev pub binding_request : ℕ
binding_request = 0x0001

abbrev pub binding_success : ℕ
binding_success = 0x0101

-- binary.BigEndian.PutUint16, PutUint32 and Uint16, Uint32
abbrev pub put16 : ℕ → List ℕ
put16 n = n / 256 % 256 ∷ n % 256 ∷ []

abbrev pub put32 : ℕ → List ℕ
put32 n = n / 16_777_216 % 256 ∷ n / 65_536 % 256 ∷ n / 256 % 256 ∷ n % 256 ∷ []

-- The number of the first bytes; a byte that is not there counts as 0, where the code has looked at
-- the length before.
abbrev pub byte_at : List ℕ → ℕ → ℕ
byte_at bs i = elim (get_elem? bs i) [ none ↦ 0 | some b ↦ b ]

abbrev pub uint16_at : List ℕ → ℕ → ℕ
uint16_at bs i = byte_at bs i * 256 + byte_at bs (i + 1)

abbrev pub uint32_at : List ℕ → ℕ → ℕ
uint32_at bs i = uint16_at bs i * 65_536 + uint16_at bs (i + 2)

pub record PublicAddr : Type 0 where
  pub ip : List ℕ
  pub port : ℕ

unfoldable pub build_binding_request : List ℕ → List ℕ
build_binding_request tx_id =
    put16 binding_request ++ put16 0 ++ put32 magic_cookie ++ take 12 tx_id

-- raw[i] = val[4+i] ^ mask[i]
unfoldable pub xor_bytes : List ℕ → List ℕ → List ℕ
xor_bytes [] mask = []
xor_bytes (b ∷ bs) [] = []
xor_bytes (b ∷ bs) (m ∷ mask) = bit_xor b m ∷ xor_bytes bs mask

unfoldable pub parse_xor_mapped_address : List ℕ → List ℕ → Option PublicAddr
parse_xor_mapped_address val tx_id =
    let port = bit_xor (uint16_at val 2) (magic_cookie / 65_536) in
    if ltb (length val) 4
    then none
    else if byte_at val 1 ≟ 1
    then if ltb (length val) 8
      then none
      else some (record { ip = put32 (bit_xor (uint32_at val 4) magic_cookie); port = port })
    else if byte_at val 1 ≟ 2
    then if ltb (length val) 20 || not (length tx_id ≟ 12)
      then none
      else some (record {
        ip = xor_bytes (take 16 (drop 4 val)) (put32 magic_cookie ++ tx_id);
        port = port;
      })
    else none

unfoldable pub parse_mapped_address : List ℕ → Option PublicAddr
parse_mapped_address val =
    let port = uint16_at val 2 in
    if ltb (length val) 4
    then none
    else if byte_at val 1 ≟ 1
    then if ltb (length val) 8
      then none
      else some (record { ip = take 4 (drop 4 val); port = port })
    else if byte_at val 1 ≟ 2
    then if ltb (length val) 20
      then none
      else some (record { ip = take 16 (drop 4 val); port = port })
    else none

-- the switch of `parseMappedAttribute`
unfoldable pub read_attribute : ℕ → List ℕ → List ℕ → Option PublicAddr → Option PublicAddr
read_attribute attr_type val tx_id mapped =
    if attr_type ≟ 0x0020
    then elim (parse_xor_mapped_address val tx_id) [ some addr ↦ some addr | none ↦ mapped ]
    else if attr_type ≟ 0x0001
    then elim mapped [ some addr ↦ some addr | none ↦ parse_mapped_address val ]
    else mapped

-- The length with its padding.
abbrev pub padded : ℕ → ℕ
padded n = if n % 4 ≟ 0 then n else n + (4 - n % 4)

-- The loop of `parseMappedAttribute`, for so many rounds at most. The slice ends at `4+attrLen`, a
-- sum of 16 bits.
unfoldable pub walk_attributes :
    ℕ → List ℕ → List ℕ → Option PublicAddr → Option (Option PublicAddr)
walk_attributes zero body tx_id mapped = none
walk_attributes (suc rounds) body tx_id mapped =
    let attr_len = uint16_at body 2 in
    let slice_end = (4 + attr_len) % 65_536 in
    let val = take (slice_end - 4) (drop 4 body) in
    let mapped' = read_attribute (uint16_at body 0) val tx_id mapped in
    let rest = walk_attributes rounds (drop (4 + padded attr_len) body) tx_id mapped' in
    if ltb (length body) 4
    then some mapped
    else if ltb (length body) (attr_len + 4)
    then some mapped
    else if ltb (length body) (padded attr_len + 4)
    then some mapped'
    else rest

pub data StunError : Type 0 where
  response_too_short cookie_mismatch not_successful wrong_transaction no_address : StunError

pub data Parsed : Type 0 where
  mapped_to : PublicAddr → Parsed
  rejected : StunError → Parsed
  unfinished : Parsed

-- from the checks of the header on
unfoldable pub parse_body : List ℕ → List ℕ → ℕ → Parsed
parse_body body tx_id declared =
    let cut = take (min declared (length body)) body in
    elim (walk_attributes (suc (length cut)) cut tx_id none) [
      | none ↦ unfinished
      | some none ↦ rejected no_address
      | some (some addr) ↦ mapped_to addr
    ]

-- The expected identifier has 12 bytes.
unfoldable pub parse_binding_response : List ℕ → List ℕ → Parsed
parse_binding_response response expected_tx_id =
    let tx_id = take 12 (drop 8 response) in
    if ltb (length response) 20
    then rejected response_too_short
    else if not (uint32_at response 4 ≟ magic_cookie)
    then rejected cookie_mismatch
    else if not (uint16_at response 0 ≟ binding_success)
    then rejected not_successful
    else if not (str_eq tx_id expected_tx_id)
    then rejected wrong_transaction
    else parse_body (drop 20 response) tx_id (uint16_at response 2)
