-- ===== src/Stun/Answers.antt =====
-- What a STUN server answers, and what the client of internal/nat/stun.go reads.
use korik.Prelude.{
  All, Bool-cases, List, Option, Option-cases, [], arith, drop, drop-append_length, false, inl, inr,
  length, length-append, ltb, min, none, refl, some, str_eq, str_eq_iff, suc, take, take-all,
  take-append_length, take-length, true, ℕ, ◌*◌, ◌++◌, ◌+◌, ◌-◌, ◌<◌, ◌∙◌, ◌∷◌, ◌≟◌, ◌≡◌, ◌≢◌, ◌≤◌,
}
use korik.Stun.{
  PublicAddr, StunError, binding_success, cookie_mismatch, magic_cookie, mapped_to, not_successful,
  padded, parse_binding_response, parse_body, parse_xor_mapped_address, put16, put32,
  read_attribute, rejected, response_too_short, uint16_at, uint32_at, unfinished, wrong_transaction,
}
use korik.Stun.Attributes.{
  IsAttribute, attribute, attributes, read_all, walk-attributes, walk_attributes-ends, zeros,
}
use korik.Stun.Addresses.{parse-xor_mapped, put16_back, xor_mapped}

-- A success response with the given attributes.
abbrev pub binding_response : List ℕ → List (ℕ × List ℕ) → List ℕ
binding_response tx_id attrs =
    put16 binding_success
    ++ put16 (length (attributes attrs))
    ++ put32 magic_cookie
    ++ tx_id
    ++ attributes attrs

-- No attribute is an XOR-MAPPED-ADDRESS.
abbrev pub NoXor : List (ℕ × List ℕ) → Type 0
NoXor = All (λ attr. (attr.0 ≟ 0x0020) ≡ false)

read_all-append :
    (before after : List (ℕ × List ℕ)) (tx_id : List ℕ) (mapped : Option PublicAddr)
    → read_all (before ++ after) tx_id mapped ≡ read_all after tx_id (read_all before tx_id mapped)
unfolding read_all
read_all-append [] after tx_id mapped = refl
read_all-append ((t, val) ∷ before) after tx_id mapped =
    read_all-append before after tx_id (read_attribute t val tx_id mapped)

-- An address that was read stays, if no XOR-MAPPED-ADDRESS follows.
read_all_stays :
    (after : List (ℕ × List ℕ)) (tx_id : List ℕ) (addr : PublicAddr)
    → NoXor after
    → read_all after tx_id (some addr) ≡ some addr
unfolding read_all
read_all_stays [] tx_id addr h = refl
read_all_stays ((t, val) ∷ after) tx_id addr h =
    let same : read_attribute t val tx_id (some addr) ≡ some addr =
      unfold read_attribute in ground (arith, h.0) in
    rw same (read_all_stays after tx_id addr h.1)

read_xor :
    (val tx_id : List ℕ) (mapped : Option PublicAddr) (addr : PublicAddr)
    → parse_xor_mapped_address val tx_id ≡ some addr
    → read_attribute 0x0020 val tx_id mapped ≡ some addr
unfolding read_attribute
read_xor val tx_id mapped addr e = ground (arith, e)

length-attributes : (attrs : List (ℕ × List ℕ)) → 4 * length attrs ≤ length (attributes attrs)
unfolding attributes attribute
length-attributes [] = omega arith
length-attributes ((t, val) ∷ attrs) = omega (
  arith,
  length-attributes attrs,
  length-append (val ++ zeros (padded (length val) - length val)) (attributes attrs),
)

parse_body-attributes :
    (attrs : List (ℕ × List ℕ)) (tx_id : List ℕ) (addr : PublicAddr)
    → All IsAttribute attrs
    → read_all attrs tx_id none ≡ some addr
    → parse_body (attributes attrs) tx_id (length (attributes attrs)) ≡ mapped_to addr
unfolding parse_body
parse_body-attributes attrs tx_id addr h e =
    let body = attributes attrs in
    let whole : take (min (length body) (length body)) body ≡ body =
      take-all (min (length body) (length body)) (length body) body (omega arith) (omega arith)
      ∙ take-length body in
    let walked =
      walk-attributes attrs (suc (length body)) tx_id none h
        (omega (arith, length-attributes attrs)) in
    ground (arith, whole, walked, e)

parse-header :
    (tx_id body : List ℕ)
    → length tx_id ≡ 12
    → length body < 65_536
    → parse_binding_response
        (put16 binding_success ++ put16 (length body) ++ put32 magic_cookie ++ tx_id ++ body)
        tx_id
      ≡ parse_body body tx_id (length body)
unfolding parse_binding_response
parse-header tx_id body h k =
    let tx_back : take 12 (tx_id ++ body) ≡ tx_id = take-append_length tx_id body 12 h in
    let body_back : drop 12 (tx_id ++ body) ≡ body = drop-append_length tx_id body 12 h in
    let size : length (tx_id ++ body) ≡ 12 + length body =
      omega (arith, length-append tx_id body) in
    let same : str_eq tx_id tx_id ≡ true = (str_eq_iff tx_id tx_id).1 refl in
    let long : ltb (suc (suc (suc (suc (suc (suc (suc (suc (length (tx_id ++ body)))))))))) 20
        ≡ false =
      ground (arith, size) in
    rw (put16_back (length body) k, tx_back, body_back, same, long) refl

-- A client reads from the answer to its own request the IPv4 address and the port that the server
-- wrote into it as XOR-MAPPED-ADDRESS, whatever other attributes stand before and after it, plain
-- MAPPED-ADDRESSes too, if no other XOR-MAPPED-ADDRESS follows.
pub parse_binding_response-binding_response :
    (tx_id : List ℕ) (before after : List (ℕ × List ℕ)) (a b c d port : ℕ)
    → length tx_id ≡ 12
    → a < 256
    → b < 256
    → c < 256
    → d < 256
    → port < 65_536
    → NoXor after
    → let attrs = before ++ (0x0020, xor_mapped a b c d port) ∷ after in
      All IsAttribute attrs
      → length (attributes attrs) < 65_536
      → parse_binding_response (binding_response tx_id attrs) tx_id
        ≡ mapped_to (record { ip = a ∷ b ∷ c ∷ d ∷ []; port = port })
unfolding read_all
parse_binding_response-binding_response tx_id before after a b c d port size ha hb hc hd hp no_xor h
      k =
    let attrs = before ++ (0x0020, xor_mapped a b c d port) ∷ after in
    let addr : PublicAddr = record { ip = a ∷ b ∷ c ∷ d ∷ []; port = port } in
    let found_it : read_all attrs tx_id none ≡ some addr =
      read_all-append before ((0x0020, xor_mapped a b c d port) ∷ after) tx_id none
      ∙ rw
          (read_xor (xor_mapped a b c d port) tx_id (read_all before tx_id none) addr
            (parse-xor_mapped a b c d port tx_id ha hb hc hd hp))
          (read_all_stays after tx_id addr no_xor) in
    parse-header tx_id (attributes attrs) size k ∙ parse_body-attributes attrs tx_id addr h found_it

parse_body-ends : (body tx_id : List ℕ) (declared : ℕ) → parse_body body tx_id declared ≢ unfinished
unfolding parse_body
parse_body-ends body tx_id declared e =
    let cut = take (min declared (length body)) body in
    let (r, walked) = walk_attributes-ends (suc (length cut)) cut tx_id none (omega arith) in
    elim (Option-cases r) [
      | inl nothing ↦ ground (arith, e, walked, nothing)
      | inr (addr, something) ↦ ground (arith, e, walked, something)
    ]

-- Whatever arrives, the client comes to an end with it: it reads an address or reports one of the
-- errors. A packet with another transaction identifier is never read as an answer.
pub parse_binding_response-ends :
    (packet tx_id : List ℕ)
    → (parse_binding_response packet tx_id ≢ unfinished)
      × (str_eq (take 12 (drop 8 packet)) tx_id ≡ false
          → (e : StunError) × (parse_binding_response packet tx_id ≡ rejected e))
unfolding parse_binding_response
parse_binding_response-ends packet tx_id = (
  λ e.
      ground
        (arith, e, parse_body-ends (drop 20 packet) (take 12 (drop 8 packet)) (uint16_at packet 2)),
  λ other. elim (Bool-cases (ltb (length packet) 20)) [
    | inl short ↦ (response_too_short, ground (arith, short))
    | inr long ↦ elim (Bool-cases (uint32_at packet 4 ≟ magic_cookie)) [
      | inr no_cookie ↦ (cookie_mismatch, ground (arith, long, no_cookie))
      | inl cookie ↦ elim (Bool-cases (uint16_at packet 0 ≟ binding_success)) [
        | inr failed ↦ (not_successful, ground (arith, long, cookie, failed))
        | inl success ↦ (wrong_transaction, ground (arith, long, cookie, success, other))
      ]
    ]
  ],
)
