-- ===== src/Identity/Tests.antt =====
-- An identity with a key of two bytes, and the other spelling of a key of one byte.
use korik.Prelude.Hex.{hex, unhex}
use korik.Prelude.{
  List, Option, Str, [], arith, bytes, none, refl, reverse, some, true, ℕ, ◌∷◌, ◌≡◌, ◌≢◌,
}
use korik.Storage.{Codec, Outcome, save, written}
use korik.Contacts.{Contact, ContactBook, is_blocked, set_blocked}
use korik.Identity.{
  Loaded, X25519, from_hex, from_raw_private, identity, identity_of, jid_from_public_key_hex, keep,
  load_or_create, parse_peer_public_key, raw_private_hex, restore_from_hex,
}
use korik.Identity.Restored.{restore_from_hex-raw_private_hex}
use korik.Identity.Spelling.{jid_from_public_key_hex-upper, upper_hex}

-- The public key is the private one turned around.
abbrev curve : X25519
curve = record { public_of = λ raw. some (reverse raw); is_public = λ raw. true }

abbrev codec : Codec Str
codec = record { encode = λ text. text; decode = λ text. some text }

abbrev raw : List ℕ
raw = 171 ∷ 5 ∷ []

abbrev backup : Option Str × Loaded
backup = restore_from_hex curve codec (raw_private_hex (identity_of raw (reverse raw))) written none

restore_from_hex-raw_private_hex_example :
    (backup.1 ≡ identity (identity_of raw (reverse raw)))
    × ((generated : List ℕ) (o : Outcome)
        → load_or_create curve codec generated o backup.0
          ≡ (backup.0, identity (identity_of raw (reverse raw))))
restore_from_hex-raw_private_hex_example =
    restore_from_hex-raw_private_hex curve codec raw (reverse raw) none
      (omega arith, (omega arith, tt)) refl refl

the_file : backup.0 ≡ some (bytes "ab05")
unfolding restore_from_hex from_hex from_raw_private keep raw_private_hex identity_of hex unhex save
the_file = refl

abbrev book_codec : Codec (List Contact)
book_codec = record { encode = λ contacts. bytes "C"; decode = λ text. none }

abbrev book : ContactBook
book = record { contacts = []; file = none }

jid_from_public_key_hex-upper_example :
    (parse_peer_public_key curve (upper_hex (bytes "ab"))
      ≡ parse_peer_public_key curve (bytes "ab"))
    × (jid_from_public_key_hex (bytes "ab") ≢ jid_from_public_key_hex (upper_hex (bytes "ab")))
    × (is_blocked
          (set_blocked book_codec book (jid_from_public_key_hex (bytes "ab")) true written).0
          (jid_from_public_key_hex (upper_hex (bytes "ab")))
        ≡ is_blocked book (jid_from_public_key_hex (upper_hex (bytes "ab"))))
jid_from_public_key_hex-upper_example =
    jid_from_public_key_hex-upper curve book_codec book [] (bytes "b") 97 true written (omega arith)
      (omega arith)

spelled :
    (jid_from_public_key_hex (upper_hex (bytes "ab")) ≡ bytes "korik:AB")
    × (parse_peer_public_key curve (bytes "AB") ≡ some (171 ∷ []))
unfolding jid_from_public_key_hex upper_hex parse_peer_public_key unhex
spelled = (refl, refl)
