-- ===== src/Contacts.antt =====
-- internal/contacts/contacts.go: the book of contacts. A pointer to a contact is the contact; a
-- failed save is ignored by every method, so its outcome shows in the file only. The zero time is 0.
use korik.Prelude.{
  Bool, List, Option, Str, [], bytes, false, if◌then◌else◌, ltb, map, none, not, some, str_eq,
  str_key, true, ℕ, ◌*◌, ◌++◌, ◌+◌, ◌-◌, ◌∷◌, ◌≟◌,
}
use korik.GoMap.{Map, get, put, remove}
use korik.Storage.{Codec, Outcome, absent, broken, found, load, save}
pub mod Blocking
pub mod Fuzzy
mod Tests

pub record Contact : Type 0 where
  pub jid : Str
  pub name : Str
  pub display_name : Str
  pub last_address : Str
  pub last_seen : ℕ
  pub first_met : ℕ
  pub message_count : ℕ
  pub favorite : Bool
  pub blocked : Bool
  pub notes : Str
  pub tags : List Str

pub record ContactBook : Type 0 where
  pub contacts : Map Str Contact
  pub file : Option Str

-- os.ErrNotExist
pub data ContactError : Type 0 where
  not_exist : ContactError

unfoldable pub new_contact : Str → Str → ℕ → Contact
new_contact jid name now = record {
  jid = jid;
  name = name;
  display_name = [];
  last_address = [];
  last_seen = now;
  first_met = now;
  message_count = 0;
  favorite = false;
  blocked = false;
  notes = [];
  tags = [];
}

unfoldable pub find : ContactBook → Str → Option Contact
find cb jid = get cb.contacts jid

unfoldable pub is_blocked : ContactBook → Str → Bool
is_blocked cb jid = elim (get cb.contacts jid) [ none ↦ false | some c ↦ c.blocked ]

-- the loop of `AddTag`
unfoldable pub has_tag : List Str → Str → Bool
has_tag [] tag = false
has_tag (t ∷ tags) tag = if str_eq t tag then true else has_tag tags tag

-- the loop of `RemoveTag`, which ends at the first of the tags that is equal
unfoldable pub drop_tag : List Str → Str → List Str
drop_tag [] tag = []
drop_tag (t ∷ tags) tag = let rest = drop_tag tags tag in if str_eq t tag then tags else t ∷ rest

unfoldable pub get_display_name : Contact → Str
get_display_name c = if not (str_eq c.display_name []) then c.display_name else c.name

-- the loop of `load`
unfoldable pub stored_contacts : List Contact → Map Str Contact → Map Str Contact
stored_contacts [] contacts = contacts
stored_contacts (c ∷ rest) contacts = stored_contacts rest (put contacts c.jid c)

-- the range of `List`, before the results are sorted by `last_seen`
unfoldable pub listed : Str → ℕ → Map Str Contact → List Contact
listed filter now [] = []
listed filter now ((_, c) ∷ contacts) =
    let rest = listed filter now contacts in
    let week = 7 * 24 * 3600 * 1000000000 in
    if str_eq filter (bytes "favorites")
    then (if c.favorite then c ∷ rest else rest)
    else if str_eq filter (bytes "blocked")
    then (if c.blocked then c ∷ rest else rest)
    else if str_eq filter (bytes "recent")
    then (if ltb (now - c.last_seen) week then c ∷ rest else rest)
    else if not c.blocked
    then c ∷ rest
    else rest

module _ (codec : Codec (List Contact)) where
  -- `none` is the error of a file that cannot be decoded
  unfoldable pub new_contact_book : Option Str → Option ContactBook
  unfolding stored_contacts
  new_contact_book file = elim (load codec file) [
    | absent ↦ some (record { contacts = []; file = file })
    | broken ↦ none
    | found stored ↦ some (record { contacts = stored_contacts stored []; file = file })
  ]

  unfoldable pub save_book : ContactBook → Outcome → ContactBook
  save_book cb o = record cb { file = (save codec (map (λ e. e.1) cb.contacts) o cb.file).0 }

  -- `_ = cb.save()` after the contact was changed
  abbrev pub store : ContactBook → Str → Contact → Outcome → ContactBook
  store cb jid c o = save_book (record cb { contacts = put cb.contacts jid c }) o

  unfoldable pub add : ContactBook → Str → Str → ℕ → Outcome → ContactBook × Contact
  unfolding save_book new_contact
  add cb jid name now o =
      let c : Contact = elim (get cb.contacts jid) [
        | some c ↦ record c { name = name; last_seen = now }
        | none ↦ new_contact jid name now
      ] in
      (store cb jid c o, c)

  unfoldable pub update_last_seen : ContactBook → Str → Str → ℕ → Outcome → ContactBook
  unfolding save_book
  update_last_seen cb jid address now o = elim (get cb.contacts jid) [
    | none ↦ cb
    | some c ↦
        store cb jid
          (record c {
            last_seen = now;
            last_address = if not (str_eq address []) then address else c.last_address;
          })
          o
  ]

  unfoldable pub increment_message_count : ContactBook → Str → Outcome → ContactBook
  unfolding save_book
  increment_message_count cb jid o = elim (get cb.contacts jid) [
    | none ↦ cb
    | some c ↦ store cb jid (record c { message_count = c.message_count + 1 }) o
  ]

  unfoldable pub set_display_name :
      ContactBook → Str → Str → Outcome → ContactBook × Option ContactError
  unfolding save_book
  set_display_name cb jid display_name o = elim (get cb.contacts jid) [
    | none ↦ (cb, some not_exist)
    | some c ↦ (store cb jid (record c { display_name = display_name }) o, none)
  ]

  unfoldable pub set_favorite :
      ContactBook → Str → Bool → Outcome → ContactBook × Option ContactError
  unfolding save_book
  set_favorite cb jid favorite o = elim (get cb.contacts jid) [
    | none ↦ (cb, some not_exist)
    | some c ↦ (store cb jid (record c { favorite = favorite }) o, none)
  ]

  unfoldable pub set_blocked :
      ContactBook → Str → Bool → Outcome → ContactBook × Option ContactError
  unfolding save_book
  set_blocked cb jid blocked o = elim (get cb.contacts jid) [
    | none ↦ (cb, some not_exist)
    | some c ↦ (store cb jid (record c { blocked = blocked }) o, none)
  ]

  unfoldable pub add_tag : ContactBook → Str → Str → Outcome → ContactBook × Option ContactError
  unfolding save_book has_tag
  add_tag cb jid tag o = elim (get cb.contacts jid) [
    | none ↦ (cb, some not_exist)
    | some c ↦
        if has_tag c.tags tag
        then (cb, none)
        else (store cb jid (record c { tags = c.tags ++ tag ∷ [] }) o, none)
  ]

  unfoldable pub remove_tag : ContactBook → Str → Str → Outcome → ContactBook × Option ContactError
  unfolding save_book drop_tag
  remove_tag cb jid tag o = elim (get cb.contacts jid) [
    | none ↦ (cb, some not_exist)
    | some c ↦ (store cb jid (record c { tags = drop_tag c.tags tag }) o, none)
  ]

  unfoldable pub delete : ContactBook → Str → Outcome → ContactBook × Option ContactError
  unfolding save_book
  delete cb jid o = elim (get cb.contacts jid) [
    | none ↦ (cb, some not_exist)
    | some _ ↦ (save_book (record cb { contacts = remove cb.contacts jid }) o, none)
  ]

-- The loop of `fuzzyScore`, from the byte `ti` of the target on: what is left of the target and of
-- the query, the score, and `lastMatch + 1` (0 if there is no match yet).
unfoldable pub score_from : Str → Str → ℕ → ℕ → ℕ → Option ℕ
score_from target [] ti score last = some score
score_from [] (q ∷ query) ti score last = none
score_from (c ∷ target) (q ∷ query) ti score last =
    let hit = score_from target query (ti + 1) (score + (ti - last)) (ti + 1) in
    let miss = score_from target (q ∷ query) (ti + 1) score last in if c ≟ q then hit else miss

unfoldable pub fuzzy_score : Str → Str → Option ℕ
unfolding score_from
fuzzy_score query target = score_from target query 0 0 0
