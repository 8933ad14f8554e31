-- ===== src/Contacts/Blocking.antt =====
-- The block list of internal/contacts/contacts.go: what the book answers for one contact after any
-- calls.
use korik.Prelude.{
  Bool, List, Option-cases, Str, [], ap, arith, false, if◌then◌else◌, inl, inr, none, not, refl,
  some, str_eq, str_eq_iff, str_key, ℕ, ◌++◌, ◌+◌, ◌∙◌, ◌∷◌, ◌≡◌,
}
use korik.GoMap.{get, get-put, get-remove}
use korik.Storage.{Codec, Outcome}
use korik.Contacts.{
  Contact, ContactBook, add, add_tag, delete, drop_tag, increment_message_count, is_blocked,
  new_contact, remove_tag, save_book, set_blocked, set_display_name, set_favorite, update_last_seen,
}

-- The methods that change the book.
pub data Call : Type 0 where
  adds : Str → Str → ℕ → Call
  sees : Str → Str → ℕ → Call
  counts : Str → Call
  renames : Str → Str → Call
  favors : Str → Bool → Call
  blocks : Str → Bool → Call
  tags untags : Str → Str → Call
  deletes : Str → Call

-- Of a contact: not in the book, or in it, blocked or not.
pub data Standing : Type 0 where
  stranger : Standing
  contact : Bool → Standing

unfoldable pub standing : ContactBook → Str → Standing
standing cb jid = elim (get cb.contacts jid) [ none ↦ stranger | some c ↦ contact c.blocked ]

abbrev pub says_blocked : Standing → Bool
says_blocked stranger = false
says_blocked (contact b) = b

is_blocked-standing :
    (cb : ContactBook) (jid : Str) → is_blocked cb jid ≡ says_blocked (standing cb jid)
unfolding is_blocked standing
is_blocked-standing cb jid = ground arith

-- What a call makes of the standing of `jid`.
unfoldable pub react : Str → Standing → Call → Standing
react jid st (adds j _ _) =
    if str_eq j jid then elim st [ stranger ↦ contact false | contact b ↦ contact b ] else st
react jid st (blocks j b) =
    if str_eq j jid then elim st [ stranger ↦ stranger | contact _ ↦ contact b ] else st
react jid st (deletes j) = if str_eq j jid then stranger else st
react jid st _ = st

unfoldable pub react_all : Str → Standing → List (Call × Outcome) → Standing
unfolding react
react_all jid st [] = st
react_all jid st ((c, _) ∷ calls) = react_all jid (react jid st c) calls

module _ (codec : Codec (List Contact)) where
  unfoldable pub perform : ContactBook → Call → Outcome → ContactBook
  perform cb (adds jid name now) o = (add codec cb jid name now o).0
  perform cb (sees jid address now) o = update_last_seen codec cb jid address now o
  perform cb (counts jid) o = increment_message_count codec cb jid o
  perform cb (renames jid name) o = (set_display_name codec cb jid name o).0
  perform cb (favors jid favorite) o = (set_favorite codec cb jid favorite o).0
  perform cb (blocks jid blocked) o = (set_blocked codec cb jid blocked o).0
  perform cb (tags jid tag) o = (add_tag codec cb jid tag o).0
  perform cb (untags jid tag) o = (remove_tag codec cb jid tag o).0
  perform cb (deletes jid) o = (delete codec cb jid o).0

  unfoldable pub run : ContactBook → List (Call × Outcome) → ContactBook
  unfolding perform
  run cb [] = cb
  run cb ((c, o) ∷ calls) = run (perform cb c o) calls

  standing-perform :
      (cb : ContactBook) (c : Call) (o : Outcome) (jid : Str)
      → standing (perform cb c o) jid ≡ react jid (standing cb jid) c
  unfolding perform react standing save_book new_contact add update_last_seen
      increment_message_count set_display_name set_favorite set_blocked add_tag remove_tag delete
  standing-perform cb (adds j name now) o jid = elim (Option-cases (get cb.contacts j)) [
    | inl unknown ↦
        ground
          (arith, unknown, str_eq_iff j jid, get-put cb.contacts j jid (new_contact j name now))
    | inr (c, there) ↦ ground (
      arith,
      there,
      str_eq_iff j jid,
      get-put cb.contacts j jid (record c { name = name; last_seen = now }),
    )
  ]
  standing-perform cb (sees j address now) o jid = elim (Option-cases (get cb.contacts j)) [
    | inl unknown ↦ ground (arith, unknown, str_eq_iff j jid)
    | inr (c, there) ↦ ground (
      arith,
      there,
      str_eq_iff j jid,
      get-put cb.contacts j jid (record c {
        last_seen = now;
        last_address = if not (str_eq address []) then address else c.last_address;
      }),
    )
  ]
  standing-perform cb (counts j) o jid = elim (Option-cases (get cb.contacts j)) [
    | inl unknown ↦ ground (arith, unknown, str_eq_iff j jid)
    | inr (c, there) ↦ ground (
      arith,
      there,
      str_eq_iff j jid,
      get-put cb.contacts j jid (record c { message_count = c.message_count + 1 }),
    )
  ]
  standing-perform cb (renames j name) o jid = elim (Option-cases (get cb.contacts j)) [
    | inl unknown ↦ ground (arith, unknown, str_eq_iff j jid)
    | inr (c, there) ↦ ground (
      arith,
      there,
      str_eq_iff j jid,
      get-put cb.contacts j jid (record c { display_name = name }),
    )
  ]
  standing-perform cb (favors j favorite) o jid = elim (Option-cases (get cb.contacts j)) [
    | inl unknown ↦ ground (arith, unknown, str_eq_iff j jid)
    | inr (c, there) ↦ ground (
      arith,
      there,
      str_eq_iff j jid,
      get-put cb.contacts j jid (record c { favorite = favorite }),
    )
  ]
  standing-perform cb (blocks j blocked) o jid = elim (Option-cases (get cb.contacts j)) [
    | inl unknown ↦ ground (arith, unknown, str_eq_iff j jid)
    | inr (c, there) ↦
        ground (
          arith,
          there,
          str_eq_iff j jid,
          get-put cb.contacts j jid (record c { blocked = blocked }),
        )
  ]
  standing-perform cb (tags j tag) o jid = elim (Option-cases (get cb.contacts j)) [
    | inl unknown ↦ ground (arith, unknown, str_eq_iff j jid)
    | inr (c, there) ↦ ground (
      arith,
      there,
      str_eq_iff j jid,
      get-put cb.contacts j jid (record c { tags = c.tags ++ tag ∷ [] }),
    )
  ]
  standing-perform cb (untags j tag) o jid = elim (Option-cases (get cb.contacts j)) [
    | inl unknown ↦ ground (arith, unknown, str_eq_iff j jid)
    | inr (c, there) ↦ ground (
      arith,
      there,
      str_eq_iff j jid,
      get-put cb.contacts j jid (record c { tags = drop_tag c.tags tag }),
    )
  ]
  standing-perform cb (deletes j) o jid = elim (Option-cases (get cb.contacts j)) [
    | inl unknown ↦ ground (arith, unknown, str_eq_iff j jid)
    | inr (c, there) ↦ ground (arith, there, str_eq_iff j jid, get-remove cb.contacts j jid)
  ]

  -- After any calls, saved or not, a contact is blocked as the calls for it say: `SetBlocked` sets
  -- it while the contact is in the book, a contact that is added anew is not blocked, and no other
  -- call for it, and no call for another contact, changes it.
  pub standing-run :
      (cb : ContactBook) (calls : List (Call × Outcome)) (jid : Str)
      → (standing (run cb calls) jid ≡ react_all jid (standing cb jid) calls)
        × (is_blocked (run cb calls) jid ≡ says_blocked (react_all jid (standing cb jid) calls))
  unfolding run react_all
  standing-run cb calls jid =
      let e = all cb calls in (e, is_blocked-standing (run cb calls) jid ∙ ap says_blocked e)
    where
      all :
          (cb : ContactBook) (calls : List (Call × Outcome))
          → standing (run cb calls) jid ≡ react_all jid (standing cb jid) calls
      all cb [] = refl
      all cb ((c, o) ∷ calls) =
          all (perform cb c o) calls
          ∙ ap (λ st. react_all jid st calls) (standing-perform cb c o jid)
