-- ===== src/Peer/Discovery.antt =====
-- The announcements by which nodes find each other, in internal/peer/discovery.go: their texts and what
-- a node does with one. net.ParseIP, strconv.Atoi and the decimal form of a port are parameters.
pub mod Announced
mod Tests
use korik.Prelude.{
  Bool, List, Option, Str, [], bytes, contains, false, if◌then◌else◌, join, ltb_ℤ, none, not, pos,
  some, split, starts_with, str_eq, to_lower, trim_left, trim_right, trim_space, ℕ, ℤ, ◌&&◌, ◌++◌,
  ◌||◌, ◌∷◌, ◌≟◌,
}

pub record Texts : Type 0 where
  pub is_ip : Str → Bool
  pub atoi : Str → Option ℤ
  pub itoa : ℤ → Str

pub record ParsedDiscovery : Type 0 where
  pub jid : Str
  pub transport : Str
  pub ip : Str
  pub port : Str
  pub device_id : Str

-- ParsedDiscovery.DialAddress
unfoldable pub dial_address : ParsedDiscovery → Str → Str
dial_address d fallback_ip =
    let ip = if str_eq d.ip [] then fallback_ip else d.ip in
    if contains ip (bytes ":") && not (starts_with ip (bytes "["))
    then bytes "[" ++ ip ++ bytes "]:" ++ d.port
    else ip ++ bytes ":" ++ d.port

unfoldable pub is_transport : Str → Bool
is_transport transport = str_eq transport (bytes "tcp") || str_eq transport (bytes "udp")

unfoldable pub build_discovery_payload : Texts → Str → Str → Str → ℤ → Str → Str
unfolding is_transport
build_discovery_payload t jid transport ip port device_id =
    let sent = if is_transport transport then transport else bytes "tcp" in
    join 124 (bytes "korik" ∷ jid ∷ sent ∷ ip ∷ t.itoa port ∷ device_id ∷ [])

-- the text up to the first '%', if there is one
unfoldable pub before_zone : Str → Option Str
before_zone [] = none
before_zone (c ∷ ip) = elim (before_zone ip) [
  | some rest ↦ if c ≟ 37 then some [] else some (c ∷ rest)
  | none ↦ if c ≟ 37 then some [] else none
]

unfoldable pub is_bracket : ℕ → Bool
is_bracket c = (c ≟ 91) || (c ≟ 93)

unfoldable pub strip_zone : Str → Str
unfolding before_zone is_bracket
strip_zone ip = elim (before_zone ip) [
  | some rest ↦ rest
  | none ↦ trim_right is_bracket (trim_left is_bracket ip)
]

unfoldable pub valid_port : Texts → Str → Bool
valid_port t port = elim (t.atoi port) [
  | none ↦ false
  | some n ↦ ltb_ℤ (pos 0) n && not (ltb_ℤ (pos 65_535) n)
]

-- the last test of `ParseDiscoveryPayload`
unfoldable pub with_port : Texts → ParsedDiscovery → Option ParsedDiscovery
unfolding valid_port
with_port t d = if valid_port t d.port then some d else none

-- the two cases of the new format
unfoldable pub with_address : Texts → Str → Str → Str → Str → Str → Option ParsedDiscovery
unfolding is_transport strip_zone with_port
with_address t jid transport ip port device_id =
    let d : ParsedDiscovery = record {
      jid = jid;
      transport = to_lower (trim_space transport);
      ip = trim_space ip;
      port = trim_space port;
      device_id = device_id;
    } in
    if not (is_transport d.transport)
    then none
    else if not (t.is_ip (strip_zone d.ip))
    then none
    else with_port t d

unfoldable pub legacy : Texts → Str → Str → Str → Option ParsedDiscovery
unfolding with_port
legacy t jid port device_id = with_port t (record {
  jid = jid;
  transport = bytes "tcp";
  ip = [];
  port = trim_space port;
  device_id = device_id;
})

-- the switch over the number of parts, from the third one on
unfoldable pub parse_parts : Texts → Str → List Str → Option ParsedDiscovery
unfolding with_address legacy
parse_parts t jid [] = none
parse_parts t jid (a ∷ []) = legacy t jid a []
parse_parts t jid (a ∷ b ∷ []) = legacy t jid a (trim_space b)
parse_parts t jid (a ∷ b ∷ c ∷ []) = with_address t jid a b c []
parse_parts t jid (a ∷ b ∷ c ∷ d ∷ more) = with_address t jid a b c (trim_space d)

-- `ParseDiscoveryPayload` once the payload is split
unfoldable pub parse_fields : Texts → List Str → Option ParsedDiscovery
unfolding parse_parts
parse_fields t [] = none
parse_fields t (prefix ∷ []) = none
parse_fields t (prefix ∷ jid ∷ parts) =
    let parsed = parse_parts t (trim_space jid) parts in
    if not (str_eq prefix (bytes "korik")) || str_eq (trim_space jid) [] then none else parsed

unfoldable pub parse_discovery_payload : Texts → Str → Option ParsedDiscovery
unfolding parse_fields
parse_discovery_payload t payload = parse_fields t (split 124 (trim_space payload))

-- What the loop of `listenDiscoveryFamily` does with an announcement.
pub data Reaction : Type 0 where
  ignores : Reaction
  dials punches : Str → Reaction

unfoldable pub react_on : Str → Str → Bool → (Str → Bool) → Str → Option ParsedDiscovery → Reaction
unfolding dial_address
react_on jid device_id internet_mode is_connected remote_ip none = ignores
react_on jid device_id internet_mode is_connected remote_ip (some d) =
    let addr = dial_address d remote_ip in
    if str_eq d.jid jid && (str_eq d.device_id [] || str_eq d.device_id device_id)
    then ignores
    else if is_connected addr
    then ignores
    else if str_eq d.transport (bytes "udp") && internet_mode
    then punches addr
    else dials addr

unfoldable pub react_to : Texts → Str → Str → Bool → (Str → Bool) → Str → Str → Reaction
unfolding parse_discovery_payload react_on
react_to t jid device_id internet_mode is_connected payload remote_ip =
    react_on jid device_id internet_mode is_connected remote_ip (parse_discovery_payload t payload)
