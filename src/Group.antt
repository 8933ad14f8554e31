-- ===== src/Group.antt =====
-- internal/group/group.go: the rooms that a node knows. The random bytes of `Create` and `Rekey` are
-- arguments, `none` where the source of randomness fails; a stored list may have null entries.
use korik.Prelude.{
  Bool, List, Option, Str, [], bytes, false, filterb, if◌then◌else◌, leb, length, ltb, map, none,
  not, reverse, some, starts_with, str_eq, str_key, true, ℕ, ◌&&◌, ◌++◌, ◌||◌, ◌∷◌, ◌≟◌,
}
use korik.GoMap.{Map, get, put}
use korik.Prelude.Hex.{hex}
use korik.Storage.{Codec, Outcome, SaveError, absent, broken, found, load, save}
pub mod Lookup
pub mod Members
pub mod Listing
pub mod Saved
mod Tests

pub record Room : Type 0 where
  pub id : Str
  pub name : Str
  pub creator : Str
  pub key : List ℕ
  pub members : List Str
  pub created_at : ℕ

pub record Store : Type 0 where
  pub rooms : Map Str Room
  pub file : Option Str

pub data GroupError : Type 0 where
  empty_name no_randomness invalid_room unknown_room : GroupError
  not_saved : SaveError → GroupError

-- the loop of `New` over the stored rooms
unfoldable pub stored_rooms : List (Option Room) → Map Str Room → Map Str Room
stored_rooms [] rooms = rooms
stored_rooms (none ∷ rest) rooms = stored_rooms rest rooms
stored_rooms (some r ∷ rest) rooms =
    stored_rooms rest (if not (str_eq r.id []) then put rooms r.id r else rooms)

-- the prefix test of `Get`
unfoldable pub matches : Str → Str → Bool
matches ref id = leb 4 (length ref) && starts_with id ref

-- the range of `Get`, with its variable `match`
unfoldable pub scan : Str → Option Room → Map Str Room → Option Room
scan ref match [] = match
scan ref match ((id, r) ∷ rooms) =
    let first = scan ref (some r) rooms in
    let skip = scan ref match rooms in
    if matches ref id then elim match [ some _ ↦ none | none ↦ first ] else skip

unfoldable pub get_room : Store → Str → Option Room
unfolding scan
get_room s ref = elim (get s.rooms ref) [ some r ↦ some r | none ↦ scan ref none s.rooms ]

unfoldable pub named : Str → Map Str Room → Option Room
named name [] = none
named name ((_, r) ∷ rooms) = if str_eq r.name name then some r else named name rooms

unfoldable pub get_by_name : Store → Str → Option Room
get_by_name s name = named name s.rooms

unfoldable pub resolve : Store → Str → Option Room
unfolding get_room get_by_name
resolve s ref = elim (get_room s ref) [ some r ↦ some r | none ↦ get_by_name s ref ]

-- The inner loop of `List`: the element that stands after the sorted ones moves to the front past
-- those created later. The sorted ones are given from the last to the first.
unfoldable pub sink : Room → List Room → List Room
sink r [] = r ∷ []
sink r (before ∷ rest) =
    if ltb r.created_at before.created_at then before ∷ sink r rest else r ∷ before ∷ rest

-- the outer loop, with the sorted ones from the last to the first
unfoldable pub sort_rooms : List Room → List Room → List Room
sort_rooms sorted [] = sorted
sort_rooms sorted (r ∷ rest) = sort_rooms (sink r sorted) rest

unfoldable pub list : Store → List Room
unfolding sort_rooms
list s = reverse (sort_rooms [] (map (λ e. e.1) s.rooms))

-- the loops that look for a member
unfoldable pub has_member : List Str → Str → Bool
has_member [] jid = false
has_member (m ∷ members) jid = if str_eq m jid then true else has_member members jid

unfoldable pub is_member : Store → Str → Str → Bool
is_member s room_id jid = elim (get s.rooms room_id) [
  | none ↦ false
  | some r ↦ has_member r.members jid
]

module _ (codec : Codec (List (Option Room))) where
  -- `none` is the error of a file that cannot be decoded
  unfoldable pub new : Option Str → Option Store
  unfolding stored_rooms
  new file = elim (load codec file) [
    | absent ↦ some (record { rooms = []; file = file })
    | broken ↦ none
    | found stored ↦ some (record { rooms = stored_rooms stored []; file = file })
  ]

  unfoldable pub save_locked : Store → Outcome → Store × Option GroupError
  save_locked s o =
      let (file, error) = save codec (map (λ e. some e.1) s.rooms) o s.file in
      (record s { file = file }, elim error [ none ↦ none | some e ↦ some (not_saved e) ])

  unfoldable pub create :
      Store
      → Str
      → Str
      → Option (List ℕ)
      → Option (List ℕ)
      → ℕ
      → Outcome
      → Store × Option Room × Option GroupError
  unfolding save_locked
  create s name creator_jid key id_bytes now o =
      if str_eq name [] then (s, none, some empty_name) else elim key [
        | none ↦ (s, none, some no_randomness)
        | some k ↦ elim id_bytes [
          | none ↦ (s, none, some no_randomness)
          | some raw ↦
              let room : Room = record {
                id = bytes "grp-" ++ hex raw;
                name = name;
                creator = creator_jid;
                key = k;
                members = creator_jid ∷ [];
                created_at = now;
              } in
              let (s', error) = save_locked (record s { rooms = put s.rooms room.id room }) o in
              (s', some room, error)
        ]
      ]

  -- a nil room is `none`
  unfoldable pub add : Store → Option Room → Outcome → Store × Option GroupError
  unfolding save_locked
  add s none o = (s, some invalid_room)
  add s (some room) o =
      if str_eq room.id [] || not (length room.key ≟ 32)
      then (s, some invalid_room)
      else save_locked (record s { rooms = put s.rooms room.id room }) o

  unfoldable pub add_member : Store → Str → Str → Outcome → Store × Option GroupError
  unfolding save_locked has_member
  add_member s room_id jid o = elim (get s.rooms room_id) [
    | none ↦ (s, some unknown_room)
    | some r ↦
        if has_member r.members jid
        then (s, none)
        else save_locked
            (record s {
              rooms = put s.rooms room_id (record r { members = r.members ++ jid ∷ [] });
            })
            o
  ]

  unfoldable pub remove_member : Store → Str → Str → Outcome → Store × Option GroupError
  unfolding save_locked
  remove_member s room_id jid o = elim (get s.rooms room_id) [
    | none ↦ (s, some unknown_room)
    | some r ↦
        save_locked
          (record s {
            rooms =
                put s.rooms room_id
                  (record r { members = filterb (λ m. not (str_eq m jid)) r.members });
          })
          o
  ]

  unfoldable pub rekey :
      Store → Str → Option (List ℕ) → Outcome → Store × Option Room × Option GroupError
  unfolding save_locked
  rekey s room_id key o = elim (get s.rooms room_id) [
    | none ↦ (s, none, some unknown_room)
    | some r ↦ elim key [
      | none ↦ (s, none, some no_randomness)
      | some k ↦
          let r' = record r { key = k } in
          let (s', error) = save_locked (record s { rooms = put s.rooms room_id r' }) o in
          (s', some r', error)
    ]
  ]
