-- ===== src/Peer/Discovery/Tests.antt =====
-- internal/peer/discovery_test.go: an announcement of a node, and the older formats.
use korik.Prelude.{
  Bool, Str, [], bytes, contains, false, if◌then◌else◌, is_space, join, lower_byte, none, pos,
  pos_part, refl, some, split, split_at, starts_with, str_eq, to_lower, trim_left, trim_right,
  trim_space, true, ◌&&◌, ◌∷◌, ◌≡◌,
}
use korik.Peer.Discovery.{
  Texts, before_zone, build_discovery_payload, dial_address, dials, ignores, is_bracket,
  is_transport, legacy, parse_discovery_payload, parse_fields, parse_parts, punches, react_on,
  react_to, strip_zone, valid_port, with_address, with_port,
}
use korik.Peer.Discovery.Announced.{IsAnnounceable, announced, parse-build_discovery_payload}

-- Every text is an address, and a port is one byte.
abbrev texts : Texts
texts = record {
  is_ip = λ s. true;
  atoi = λ s. elim s [ [] ↦ none | c ∷ more ↦ some (pos c) ];
  itoa = λ n. pos_part n ∷ [];
}

abbrev jid : Str
jid = bytes "ka"

abbrev ip : Str
ip = bytes "::1"

abbrev device_id : Str
device_id = bytes "d"

announceable : IsAnnounceable texts jid ip device_id (pos 77)
unfolding is_space str_eq
announceable = record {
  fields = (
    record { no_bar = (refl, (refl, tt)); no_space = (refl, (refl, tt)) },
    record { no_bar = (refl, (refl, (refl, tt))); no_space = (refl, (refl, (refl, tt))) },
    record { no_bar = (refl, tt); no_space = (refl, tt) },
    record { no_bar = (refl, tt); no_space = (refl, tt) },
  );
  has_jid = refl;
  address = refl;
  port_back = refl;
  in_range = (refl, refl);
}

abbrev payload : Str
payload = build_discovery_payload texts jid (bytes "udp") ip (pos 77) device_id

parse-build_discovery_payload_example :
    let d = announced texts jid (bytes "udp") ip device_id (pos 77) in
    (parse_discovery_payload texts payload ≡ some d)
    × ((other other_device remote_ip : Str) (internet_mode : Bool) (is_connected : Str → Bool)
        → str_eq jid other ≡ false
        → is_connected (dial_address d remote_ip) ≡ false
        → react_to texts other other_device internet_mode is_connected payload remote_ip ≡ (
            if str_eq d.transport (bytes "udp") && internet_mode
            then punches (dial_address d remote_ip)
            else dials (dial_address d remote_ip)))
    × ((remote_ip : Str) (internet_mode : Bool) (is_connected : Str → Bool)
        → react_to texts jid device_id internet_mode is_connected payload remote_ip ≡ ignores)
parse-build_discovery_payload_example =
    parse-build_discovery_payload texts jid (bytes "udp") ip device_id (pos 77) announceable

texts_of :
    (payload ≡ bytes "korik|ka|udp|::1|M|d")
    × (react_to texts (bytes "kb") [] true (λ addr. false) payload [] ≡ punches (bytes "[::1]:M"))
    × (react_to texts (bytes "kb") [] true (λ addr. false) (bytes "korik|ka|M") (bytes "10.1")
        ≡ dials (bytes "10.1:M"))
unfolding build_discovery_payload is_transport str_eq join react_to react_on parse_discovery_payload
    parse_fields parse_parts legacy with_address with_port valid_port strip_zone before_zone
    dial_address split split_at trim_space is_space to_lower contains starts_with trim_right
    trim_left is_bracket lower_byte
texts_of = (refl, refl, refl)
