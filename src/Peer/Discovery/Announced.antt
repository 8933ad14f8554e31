-- ===== src/Peer/Discovery/Announced.antt =====
-- An announcement of internal/peer/discovery.go that a node makes is what another one reads.
use mathlib.Core.List.{reverse-cons}
use mathlib.Core.Path.{subst}
use korik.Prelude.{
  All, All-append, Bool, Bool-cases, List, Str, [], ap, append-nil, append_assoc, arith, bytes,
  false, if◌then◌else◌, inl, inr, is_space, join, lower_byte, ltb_ℤ, pos, refl, reverse, some,
  split, split_at, str_eq, str_eq_iff, sym, to_lower, trim_space, true, ℕ, ℤ, ◌&&◌, ◌++◌, ◌∙◌, ◌∷◌,
  ◌≟◌, ◌≡◌,
}
use korik.Candidates.Sharing.{NoSpace, trim_space-padded}
use korik.Peer.Discovery.{
  ParsedDiscovery, Texts, build_discovery_payload, dial_address, dials, ignores, is_transport,
  parse_discovery_payload, parse_fields, parse_parts, punches, react_on, react_to, strip_zone,
  valid_port, with_address, with_port,
}

-- A text that neither separates fields nor is trimmed.
pub record IsField (s : Str) : Type 0 where
  pub no_bar : All (λ c. (c ≟ 124) ≡ false) s
  pub no_space : NoSpace s

module _ (sep : ℕ) where
  split_at-part :
      (word part rest : Str)
      → All (λ c. (c ≟ sep) ≡ false) part
      → split_at sep word (part ++ sep ∷ rest) ≡ (reverse word ++ part) ∷ split_at sep [] rest
  unfolding split_at
  split_at-part word [] rest h =
      let same : (sep ≟ sep) ≡ true = ground arith in
      rw same (ap (λ w. w ∷ split_at sep [] rest) (sym (append-nil (reverse word))))
  split_at-part word (c ∷ part) rest h = rw h.0 (
      split_at-part (c ∷ word) part rest h.1
      ∙ ap (λ w. w ∷ split_at sep [] rest)
          (ap (λ w. w ++ part) (reverse-cons c word) ∙ append_assoc (reverse word) (c ∷ []) part))

  split_at-last :
      (word part : Str)
      → All (λ c. (c ≟ sep) ≡ false) part
      → split_at sep word part ≡ (reverse word ++ part) ∷ []
  unfolding split_at
  split_at-last word [] h = ap (λ w. w ∷ []) (sym (append-nil (reverse word)))
  split_at-last word (c ∷ part) h = rw h.0 (
      split_at-last (c ∷ word) part h.1
      ∙ ap (λ w. w ∷ [])
          (ap (λ w. w ++ part) (reverse-cons c word) ∙ append_assoc (reverse word) (c ∷ []) part))

  pub split-join_parts :
      (part : Str) (parts : List Str)
      → All (All (λ c. (c ≟ sep) ≡ false)) (part ∷ parts)
      → split sep (join sep (part ∷ parts)) ≡ part ∷ parts
  unfolding split join
  split-join_parts part [] h = split_at-last [] part h.0
  split-join_parts part (p ∷ parts) h =
      split_at-part [] part (join sep (p ∷ parts)) h.0
      ∙ ap (λ rest. part ∷ rest) (split-join_parts p parts h.1)

join-NoSpace :
    (sep : ℕ) (parts : List Str)
    → is_space sep ≡ false
    → All NoSpace parts
    → NoSpace (join sep parts)
unfolding join
join-NoSpace sep [] e h = tt
join-NoSpace sep (part ∷ []) e h = h.0
join-NoSpace sep (part ∷ p ∷ parts) e h =
    All-append (λ c. is_space c ≡ false) part (sep ∷ join sep (p ∷ parts)) h.0
      (e, join-NoSpace sep (p ∷ parts) e h.1)

trim_space-NoSpace : (s : Str) → NoSpace s → trim_space s ≡ s
unfolding trim_space
trim_space-NoSpace [] h = refl
trim_space-NoSpace (c ∷ s) h =
    ap trim_space (sym (append-nil (c ∷ s)))
    ∙ trim_space-padded [] (c ∷ s) [] tt h (λ e. ground (arith, e)) tt

-- The transport that is sent.
IsTag : Str → Type 0
IsTag s = (is_transport s ≡ true) × (to_lower s ≡ s) × IsField s

tcp-IsTag : IsTag (bytes "tcp")
unfolding IsTag is_transport to_lower lower_byte str_eq is_space
tcp-IsTag = (
  refl,
  refl,
  record { no_bar = (refl, (refl, (refl, tt))); no_space = (refl, (refl, (refl, tt))) },
)

udp-IsTag : IsTag (bytes "udp")
unfolding IsTag is_transport to_lower lower_byte str_eq is_space
udp-IsTag = (
  refl,
  refl,
  record { no_bar = (refl, (refl, (refl, tt))); no_space = (refl, (refl, (refl, tt))) },
)

sent-IsTag : (transport : Str) → IsTag (if is_transport transport then transport else bytes "tcp")
unfolding is_transport
sent-IsTag transport = elim (Bool-cases (str_eq transport (bytes "tcp"))) [
  | inl tcp ↦
      let e : transport ≡ bytes "tcp" = (str_eq_iff transport (bytes "tcp")).0 tcp in
      rw tcp (subst IsTag (sym e) tcp-IsTag)
  | inr other ↦ elim (Bool-cases (str_eq transport (bytes "udp"))) [
    | inl udp ↦
        let e : transport ≡ bytes "udp" = (str_eq_iff transport (bytes "udp")).0 udp in
        rw (other, udp) (subst IsTag (sym e) udp-IsTag)
    | inr neither ↦ rw (other, neither) tcp-IsTag
  ]
]

-- What a node announces: fields of a payload, an address that parses, and a port in range that Atoi reads.
pub record IsAnnounceable (t : Texts) (jid ip device_id : Str) (port : ℤ) : Type 0 where
  pub fields : IsField jid × IsField ip × IsField (t.itoa port) × IsField device_id
  pub has_jid : str_eq jid [] ≡ false
  pub address : t.is_ip (strip_zone ip) ≡ true
  pub port_back : t.atoi (t.itoa port) ≡ some port
  pub in_range : (ltb_ℤ (pos 0) port ≡ true) × (ltb_ℤ (pos 65_535) port ≡ false)

module _ (t : Texts) (jid transport ip device_id : Str) (port : ℤ) where
  abbrev pub announced : ParsedDiscovery
  announced = record {
    jid = jid;
    transport = if is_transport transport then transport else bytes "tcp";
    ip = ip;
    port = t.itoa port;
    device_id = device_id;
  }

  valid_port-itoa : IsAnnounceable t jid ip device_id port → valid_port t (t.itoa port) ≡ true
  unfolding valid_port
  valid_port-itoa a = ground (arith, a.port_back, a.in_range.0, a.in_range.1)

  with_address-sent :
      (sent : Str)
      → IsTag sent
      → IsAnnounceable t jid ip device_id port
      → with_address t jid sent ip (t.itoa port) device_id
        ≡ some (record announced { transport = sent })
  unfolding with_address with_port IsTag
  with_address-sent sent s a =
      let (f_jid, f_ip, f_port, f_device) = a.fields in
      let (is_sent, lower, f_sent) = s in
      rw
        (
          trim_space-NoSpace sent f_sent.no_space,
          lower,
          trim_space-NoSpace ip f_ip.no_space,
          trim_space-NoSpace (t.itoa port) f_port.no_space,
          is_sent,
          a.address,
          valid_port-itoa a,
        )
        refl

  payload-NoSpace :
      (sent : Str)
      → IsTag sent
      → IsAnnounceable t jid ip device_id port
      → let parts = bytes "korik" ∷ jid ∷ sent ∷ ip ∷ t.itoa port ∷ device_id ∷ [] in
        (split 124 (trim_space (join 124 parts)) ≡ parts)
  unfolding IsTag is_space
  payload-NoSpace sent (is_sent, lower, f_sent) a =
      let parts = bytes "korik" ∷ jid ∷ sent ∷ ip ∷ t.itoa port ∷ device_id ∷ [] in
      let (f_jid, f_ip, f_port, f_device) = a.fields in
      ap (split 124) (
        trim_space-NoSpace (join 124 parts) (
          join-NoSpace 124 parts refl (
            (refl, (refl, (refl, (refl, (refl, tt))))),
            (
              f_jid.no_space,
              (f_sent.no_space, (f_ip.no_space, (f_port.no_space, (f_device.no_space, tt)))),
            ),
          )))
      ∙ split-join_parts 124 (bytes "korik") (jid ∷ sent ∷ ip ∷ t.itoa port ∷ device_id ∷ []) (
        (refl, (refl, (refl, (refl, (refl, tt))))),
        (f_jid.no_bar, (f_sent.no_bar, (f_ip.no_bar, (f_port.no_bar, (f_device.no_bar, tt))))),
      )

  parse-announced :
      IsAnnounceable t jid ip device_id port
      → parse_discovery_payload t (build_discovery_payload t jid transport ip port device_id)
        ≡ some announced
  unfolding parse_discovery_payload build_discovery_payload parse_fields parse_parts str_eq
  parse-announced a =
      let s = sent-IsTag transport in
      let (f_jid, f_ip, f_port, f_device) = a.fields in
      ap (parse_fields t) (payload-NoSpace announced.transport s a)
      ∙ rw
          (
            trim_space-NoSpace jid f_jid.no_space,
            a.has_jid,
            trim_space-NoSpace device_id f_device.no_space,
            with_address-sent announced.transport s a,
          )
          refl

  -- What a node announces, with fields that have no bar and no white space, an address that parses and
  -- a port in range, is read back whole, with the transport that was sent. A node with another
  -- identifier that is not connected to the address dials it, or punches it if the transport is udp and
  -- its internet mode is on; the node itself ignores it.
  pub parse-build_discovery_payload :
      IsAnnounceable t jid ip device_id port
      → let payload = build_discovery_payload t jid transport ip port device_id in
        (parse_discovery_payload t payload ≡ some announced)
        × ((other other_device remote_ip : Str) (internet_mode : Bool) (is_connected : Str → Bool)
            → str_eq jid other ≡ false
            → is_connected (dial_address announced remote_ip) ≡ false
            → react_to t other other_device internet_mode is_connected payload remote_ip ≡ (
                if str_eq announced.transport (bytes "udp") && internet_mode
                then punches (dial_address announced remote_ip)
                else dials (dial_address announced remote_ip)))
        × ((remote_ip : Str) (internet_mode : Bool) (is_connected : Str → Bool)
            → react_to t jid device_id internet_mode is_connected payload remote_ip ≡ ignores)
  unfolding react_to react_on
  parse-build_discovery_payload a = (
    parse-announced a,
    λ other other_device remote_ip internet_mode is_connected stranger free.
        ap (react_on other other_device internet_mode is_connected remote_ip) (parse-announced a)
        ∙ rw (stranger, free) refl,
    λ remote_ip internet_mode is_connected.
        ap (react_on jid device_id internet_mode is_connected remote_ip) (parse-announced a)
        ∙ rw ((str_eq_iff jid jid).1 refl, (str_eq_iff device_id device_id).1 refl) (ground arith),
  )
