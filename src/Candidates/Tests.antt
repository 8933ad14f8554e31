-- ===== src/Candidates/Tests.antt =====
-- Candidates of one node, sorted and shared.
use korik.Prelude.{
  All, List, Permᴰ, Str, [], arith, bytes, contains, int_eq, int_key, is_space, lower_byte, none,
  pos, pos_part, refl, some, starts_with, str_eq, str_key, to_lower, ℤ, ◌++◌, ◌∷◌, ◌≡◌, ◌≤◌,
}
use korik.GoMap.{get, put}
use korik.Storage.{Codec}
use korik.Candidates.{
  Base64, Bundle, Candidate, Net, address, decode_bundle, decoded, dedup_from, dedup_key,
  deduplicate, encode_bundle, goes_first, host, insert, prioritize,
}
use korik.Candidates.Order.{IsCovered, IsSorted, count_key, deduplicate-prioritize}
use korik.Candidates.Sharing.{IsShareable, bundle_of, decode_bundle-encode_bundle}

-- No address parses, and a port is its bytes.
abbrev net : Net
net = record { parse_ip = λ s. none; itoa = λ n. pos_part n ∷ [] }

abbrev candidate : Str → ℤ → Candidate
candidate id priority = record {
  id = id;
  kind = host;
  ip = bytes "10.0.0.1";
  port = pos 7777;
  iface = [];
  transport = bytes "tcp";
  priority = priority;
}

abbrev candidates : List Candidate
candidates = candidate (bytes "a") (pos 5) ∷ candidate (bytes "b") (pos 9) ∷ []

deduplicate-prioritize_example :
    let sorted = prioritize candidates in
    Permᴰ sorted candidates
    × IsSorted sorted
    × (count_key net (bytes "k") (deduplicate net sorted) ≤ 1)
    × All (IsCovered net (deduplicate net sorted)) sorted
deduplicate-prioritize_example = deduplicate-prioritize net candidates (bytes "k")

-- The one of the higher priority is left.
deduplicated : deduplicate net (prioritize candidates) ≡ candidate (bytes "b") (pos 9) ∷ []
unfolding deduplicate dedup_from prioritize insert goes_first dedup_key address str_eq to_lower
    lower_byte contains starts_with int_eq get put
deduplicated = refl

-- A bundle is written as the letter b, whatever it is.
abbrev bundle : Bundle
bundle = bundle_of (bytes "korik:a") [] candidates

abbrev base64 : Base64
base64 = record { encode_raw = λ s. s; decode_raw = λ s. some s; decode_padded = λ s. none }

abbrev json : Codec Bundle
json = record { encode = λ b. bytes "b"; decode = λ s. some bundle }

bundle-IsShareable : IsShareable base64 json bundle
unfolding is_space
bundle-IsShareable = record {
  base64_back = refl;
  json_back = refl;
  no_space = (refl, tt);
  not_empty = λ e. ground (arith, e);
}

decode_bundle-encode_bundle_example :
    decode_bundle base64 json
      (bytes " " ++ (encode_bundle base64 json (bytes "korik:a") [] candidates ++ 10 ∷ []))
    ≡ decoded bundle
unfolding is_space
decode_bundle-encode_bundle_example =
    decode_bundle-encode_bundle base64 json (bytes "korik:a") [] (candidate (bytes "a") (pos 5))
      (candidate (bytes "b") (pos 9) ∷ []) (bytes " ") (10 ∷ []) bundle-IsShareable (refl, tt)
      (refl, tt)
