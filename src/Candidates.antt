-- ===== src/Candidates.antt =====
-- internal/nat/candidate.go: the addresses by which a node can be reached, their order, and the text
-- in which they are shared. The parser of IP addresses, the decimal form of a port, base64 and JSON
-- are parameters.
pub mod Order
pub mod Sharing
mod Tests
use korik.Prelude.{
  Bool, List, Option, Str, [], bytes, contains, false, filterb, if◌then◌else◌, int_eq, int_key, ltb,
  ltb_ℤ, none, not, pos, some, starts_with, str_eq, str_key, to_lower, trim_space, true, ℕ, ℤ, ◌&&◌,
  ◌++◌, ◌+◌, ◌∷◌, ◌≟◌,
}
use korik.GoMap.{Map, get, put}
use korik.Storage.{Codec}

pub data CandidateType : Type 0 where
  host srflx other_type : CandidateType

pub record Candidate : Type 0 where
  pub id : Str
  pub kind : CandidateType
  pub ip : Str
  pub port : ℤ
  pub iface : Str
  pub transport : Str
  pub priority : ℤ

-- What package net says of an address: net.ParseIP(s) is nil or has To4, IsPrivate, IsGlobalUnicast.
pub record Ip : Type 0 where
  pub is_v4 : Bool
  pub is_private : Bool
  pub is_global_unicast : Bool

pub record Net : Type 0 where
  pub parse_ip : Str → Option Ip
  pub itoa : ℤ → Str

pub data StrategyStep : Type 0 where
  step_direct_lan step_ipv6 step_public_udp step_punching step_failed : StrategyStep

unfoldable pub same_type : CandidateType → CandidateType → Bool
same_type host host = true
same_type srflx srflx = true
same_type _ _ = false

unfoldable pub is_v6 : Net → Str → Bool
is_v6 net ip = elim (net.parse_ip ip) [
  | none ↦ false
  | some parsed ↦ not parsed.is_v4 && contains ip (bytes ":")
]

unfoldable pub step_for : Net → Candidate → StrategyStep
unfolding same_type is_v6
step_for net c =
    let v6 = is_v6 net c.ip in
    if same_type c.kind host && not v6
    then step_direct_lan
    else if same_type c.kind host && v6
    then step_ipv6
    else if same_type c.kind srflx && not v6
    then step_public_udp
    else if same_type c.kind srflx && v6
    then step_public_udp
    else step_punching

unfoldable pub priority_for : CandidateType → Ip → Str → ℕ
unfolding same_type
priority_for kind ip transport =
    let base =
      if same_type kind host
      then (if ip.is_v4 then 1000 else 900)
      else (if ip.is_v4 then 700 else 650) in
    base
    + (if str_eq transport (bytes "tcp") then 10 else 0)
    + (if ip.is_private then 5 else 0)
    + (if ip.is_global_unicast && not ip.is_private && same_type kind host then 2 else 0)

-- Candidate.Address
unfoldable pub address : Net → Candidate → Str
address net c =
    if contains c.ip (bytes ":") && not (starts_with c.ip (bytes "["))
    then bytes "[" ++ c.ip ++ bytes "]:" ++ net.itoa c.port
    else c.ip ++ bytes ":" ++ net.itoa c.port

-- a < b in the order of the bytes
unfoldable pub str_lt : Str → Str → Bool
str_lt [] [] = false
str_lt [] (b ∷ t) = true
str_lt (a ∷ s) [] = false
str_lt (a ∷ s) (b ∷ t) = let rest = str_lt s t in if a ≟ b then rest else ltb a b

-- the comparison of `Prioritize`
unfoldable pub goes_first : Candidate → Candidate → Bool
unfolding str_lt
goes_first a b =
    if not (int_eq a.priority b.priority) then ltb_ℤ b.priority a.priority else str_lt a.id b.id

-- sort.SliceStable, as an insertion from the front: an element passes those that go first, and stays
-- before those that it ties with.
unfoldable pub insert : Candidate → List Candidate → List Candidate
insert c [] = c ∷ []
insert c (d ∷ cands) =
    let rest = insert c cands in if goes_first d c then d ∷ rest else c ∷ d ∷ cands

unfoldable pub prioritize : List Candidate → List Candidate
unfolding insert
prioritize [] = []
prioritize (c ∷ cands) = insert c (prioritize cands)

-- the key of `Deduplicate`
unfoldable pub dedup_key : Net → Candidate → Str
dedup_key net c = c.transport ++ bytes "|" ++ to_lower (address net c)

-- the loop of `Deduplicate`, with the keys that it has seen
unfoldable pub dedup_from : Net → Map Str Bool → List Candidate → List Candidate
dedup_from net seen [] = []
dedup_from net seen (c ∷ cands) =
    let key = dedup_key net c in
    let skipped = dedup_from net seen cands in
    let rest = dedup_from net (put seen key true) cands in
    elim (get seen key) [ some _ ↦ skipped | none ↦ c ∷ rest ]

unfoldable pub deduplicate : Net → List Candidate → List Candidate
unfolding dedup_from
deduplicate net cands = dedup_from net [] cands

pub record Bundle : Type 0 where
  pub version : ℤ
  pub jid : Str
  pub device_id : Str
  pub candidates : List Candidate

-- base64.RawURLEncoding and base64.URLEncoding
pub record Base64 : Type 0 where
  pub encode_raw : Str → Str
  pub decode_raw : Str → Option Str
  pub decode_padded : Str → Option Str

pub data BundleError : Type 0 where
  not_base64 corrupted_json no_candidates : BundleError
  unsupported_version : ℤ → BundleError

pub data Decoded : Type 0 where
  decoded : Bundle → Decoded
  refused : BundleError → Decoded

-- the text without white space around it, and without newlines and blanks within
unfoldable pub cleaned : Str → Str
cleaned text = filterb (λ c. not (c ≟ 32)) (filterb (λ c. not (c ≟ 10)) (trim_space text))

unfoldable pub check_bundle : Bundle → Decoded
check_bundle bundle =
    if not (int_eq bundle.version (pos 1))
    then refused (unsupported_version bundle.version)
    else elim bundle.candidates [ [] ↦ refused no_candidates | _ ∷ _ ↦ decoded bundle ]

module _ (b : Base64) (json : Codec Bundle) where
  unfoldable pub encode_bundle : Str → Str → List Candidate → Str
  encode_bundle jid device_id cands = b.encode_raw (
      json.encode
        (record { version = pos 1; jid = jid; device_id = device_id; candidates = cands }))

  unfoldable pub decode_bundle : Str → Decoded
  unfolding check_bundle
  decode_bundle text =
      let raw : Option Str = elim (b.decode_raw (cleaned text)) [
        | some raw ↦ some raw
        | none ↦ b.decode_padded (cleaned text)
      ] in
      elim raw [
        | none ↦ refused not_base64
        | some r ↦ elim (json.decode r) [
          | none ↦ refused corrupted_json
          | some bundle ↦ check_bundle bundle
        ]
      ]
