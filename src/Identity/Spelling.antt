-- ===== src/Identity/Spelling.antt =====
-- Two spellings of one public key, for internal/identity/identity.go and the block list of
-- internal/contacts/contacts.go.
use korik.Prelude.Hex.{unhex-upper, upper_digit}
use korik.GoMap.{get, get-put}
use korik.Storage.{Codec, Outcome}
use korik.Contacts.{Contact, ContactBook, is_blocked, save_book, set_blocked}
use korik.Identity.{X25519, jid_from_public_key_hex, parse_peer_public_key}
use korik.Prelude.{
  Bool, List, Option-cases, Str, [], ap, arith, drop, if◌then◌else◌, inl, inr, map, none, some,
  str_eq_iff, str_key, sym, ℕ, ◌++◌, ◌>>=◌, ◌∷◌, ◌≡◌, ◌≢◌, ◌≤◌,
}

unfoldable pub upper_hex : Str → Str
unfolding upper_digit
upper_hex s = map upper_digit s

upper-differs :
    (before after : Str) (c : ℕ)
    → 97 ≤ c
    → c ≤ 102
    → upper_hex (before ++ c ∷ after) ≢ before ++ c ∷ after
unfolding upper_hex upper_digit
upper-differs [] after c ge le e =
    let same : upper_digit c ≡ c = ap (λ s. elim s [ [] ↦ c | b ∷ t ↦ b ]) e in
    ground (arith, ge, le, same)
upper-differs (b ∷ before) after c ge le e = upper-differs before after c ge le (ap (drop 1) e)

is_blocked-other :
    (codec : Codec (List Contact)) (cb : ContactBook) (jid other : Str) (b : Bool) (o : Outcome)
    → jid ≢ other
    → is_blocked (set_blocked codec cb jid b o).0 other ≡ is_blocked cb other
unfolding is_blocked set_blocked save_book
is_blocked-other codec cb jid other b o n = elim (Option-cases (get cb.contacts jid)) [
  | inl unknown ↦ ground (arith, unknown)
  | inr (c, there) ↦ ground (
    arith,
    there,
    n,
    str_eq_iff jid other,
    get-put cb.contacts jid other (record c { blocked = b }),
  )
]

-- The text of a public key that has one of the letters from a to f has a second spelling, in upper
-- case, which parses to the same key; but the identifier that is made of it is another one. So a peer
-- has two identifiers for one key, and blocking one of them says nothing of the other.
pub jid_from_public_key_hex-upper :
    (curve : X25519) (codec : Codec (List Contact)) (cb : ContactBook) (before after : Str) (c : ℕ)
    (b : Bool) (o : Outcome)
    → 97 ≤ c
    → c ≤ 102
    → let hex_text = before ++ c ∷ after in
      let jid = jid_from_public_key_hex hex_text in
      let other = jid_from_public_key_hex (upper_hex hex_text) in
      (parse_peer_public_key curve (upper_hex hex_text) ≡ parse_peer_public_key curve hex_text)
      × (jid ≢ other)
      × (is_blocked (set_blocked codec cb jid b o).0 other ≡ is_blocked cb other)
unfolding parse_peer_public_key jid_from_public_key_hex upper_hex
jid_from_public_key_hex-upper curve codec cb before after c b o ge le =
    let hex_text = before ++ c ∷ after in
    let jid = jid_from_public_key_hex hex_text in
    let other = jid_from_public_key_hex (upper_hex hex_text) in
    let n : jid ≢ other = λ e. upper-differs before after c ge le (sym (ap (drop 6) e)) in
    (
      ap (λ raw'. ◌>>=◌ raw' (λ raw. if curve.is_public raw then some raw else none))
          (unhex-upper hex_text),
      n,
      is_blocked-other codec cb jid other b o n,
    )
