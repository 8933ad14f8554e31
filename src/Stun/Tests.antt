-- ===== src/Stun/Tests.antt =====
-- A STUN answer with an attribute before and one after the address.
use korik.Prelude.{List, [], arith, drop, false, length, refl, str_eq, take, ℕ, ◌++◌, ◌∷◌, ◌≡◌, ◌≢◌}
use korik.Stun.{
  StunError, build_binding_request, mapped_to, parse_binding_response, rejected, unfinished,
}
use korik.Stun.Attributes.{attribute, attributes, zeros}
use korik.Stun.Addresses.{xor_mapped}
use korik.Stun.Answers.{
  binding_response, parse_binding_response-binding_response, parse_binding_response-ends,
}

program : Unit {0}
unfolding attributes attribute zeros
program = tt

abbrev tx : List ℕ
tx = 1 ∷ 2 ∷ 3 ∷ 4 ∷ 5 ∷ 6 ∷ 7 ∷ 8 ∷ 9 ∷ 10 ∷ 11 ∷ 12 ∷ []

-- SOFTWARE before, MAPPED-ADDRESS after
abbrev before : List (ℕ × List ℕ)
before = (0x8022, 7 ∷ []) ∷ []

abbrev after : List (ℕ × List ℕ)
after = (0x0001, 0 ∷ 1 ∷ 0 ∷ 9 ∷ 10 ∷ 0 ∷ 0 ∷ 1 ∷ []) ∷ []

parse_binding_response-binding_response_example :
    parse_binding_response
      (binding_response tx (before ++ (0x0020, xor_mapped 192 0 2 1 32_853) ∷ after))
      tx
    ≡ mapped_to (record { ip = 192 ∷ 0 ∷ 2 ∷ 1 ∷ []; port = 32_853 })
unfolding program
parse_binding_response-binding_response_example =
    parse_binding_response-binding_response tx before after 192 0 2 1 32_853 refl (omega arith)
      (omega arith) (omega arith) (omega arith) (omega arith) (refl, tt)
      ((omega arith, omega arith), ((omega arith, omega arith), ((omega arith, omega arith), tt)))
      (omega arith)

parse_binding_response-ends_test :
    (parse_binding_response (1 ∷ []) tx ≢ unfinished)
    × (str_eq (take 12 (drop 8 (1 ∷ []))) tx ≡ false
        → (e : StunError) × (parse_binding_response (1 ∷ []) tx ≡ rejected e))
parse_binding_response-ends_test = parse_binding_response-ends (1 ∷ []) tx

request : length (build_binding_request tx) ≡ 20
unfolding build_binding_request
request = refl
