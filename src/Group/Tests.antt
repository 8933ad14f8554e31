-- ===== src/Group/Tests.antt =====
-- internal/group/group_test.go, and the theorems at concrete stores.
use korik.Prelude.{
  List, Option, Permᴰ, Str, [], bytes, map, none, refl, some, starts_with, str_eq, str_key, true, ℕ,
  ◌∷◌, ◌≡◌,
}
use korik.GoMap.{get, put}
use korik.Storage.{Codec, load, no_directory, save, written}
use korik.Prelude.Hex.{hex}
use korik.Group.{
  Room, Store, add, add_member, create, get_by_name, get_room, has_member, is_member, list, matches,
  named, new, rekey, remove_member, resolve, save_locked, scan, sink, sort_rooms, stored_rooms,
}
use korik.Group.Lookup.{candidates, get_room-Permᴰ, get_room-only_one, only_one}
use korik.Group.Members.{get-rekey, is_member-run, joins, perform, run, set_after}
use korik.Group.Saved.{
  IsValid, Operation, creates, new-IsValid, new-operate, operate, operate-IsValid,
}
use korik.Group.Listing.{IsSorted, list-IsSorted}

program : Unit {0}
unfolding str_eq starts_with get put get_room scan matches candidates resolve get_by_name named list
    sort_rooms sink create hex save_locked save load new add add_member remove_member rekey
    has_member is_member operate perform run set_after stored_rooms
program = tt

abbrev room : Str → ℕ → Room
room id at = record {
  id = id;
  name = bytes "team";
  creator = bytes "korik:a";
  key = [];
  members = bytes "korik:a" ∷ [];
  created_at = at;
}

abbrev ours : Store
ours = record {
  rooms =
      (bytes "grp-12", room (bytes "grp-12") 9) ∷ (bytes "grp-34", room (bytes "grp-34") 4) ∷ [];
  file = none;
}

abbrev theirs : Store
theirs = record {
  rooms =
      (bytes "grp-34", room (bytes "grp-34") 4) ∷ (bytes "grp-12", room (bytes "grp-12") 9) ∷ [];
  file = none;
}

abbrev empty : Store
empty = record { rooms = []; file = none }

abbrev created : Operation
created = creates (bytes "team") (bytes "korik:a") (some []) (some (171 ∷ [])) 3

abbrev team : Room
team = room (bytes "grp-ab") 3

-- A codec that knows one list of rooms, and the text "R" for it.
abbrev codec : Codec (List (Option Room))
codec = record { encode = λ rooms. bytes "R"; decode = λ text. some (some team ∷ []) }

unique_prefix : get_room ours (bytes "grp-3") ≡ some (room (bytes "grp-34") 4)
unfolding program
unique_prefix = refl

ambiguous_prefix : get_room ours (bytes "grp-") ≡ none
unfolding program
ambiguous_prefix = refl

by_name : resolve ours (bytes "team") ≡ some (room (bytes "grp-12") 9)
unfolding program
by_name = refl

oldest_first : list ours ≡ room (bytes "grp-34") 4 ∷ room (bytes "grp-12") 9 ∷ []
unfolding program
oldest_first = refl

empty-IsValid : IsValid empty
unfolding program
empty-IsValid = new-IsValid codec none empty refl

get_room-only_one_test :
    get_room ours (bytes "grp-") ≡ only_one (candidates (bytes "grp-") ours.rooms)
unfolding program
get_room-only_one_test = get_room-only_one ours (bytes "grp-")

get_room-Permᴰ_test : get_room ours (bytes "grp-1") ≡ get_room theirs (bytes "grp-1")
unfolding program
get_room-Permᴰ_test =
    get_room-Permᴰ ours theirs (bytes "grp-1") (refl, (refl, tt)) (Permᴰ.swap refl refl)

list-IsSorted_test : IsSorted (list ours) × Permᴰ (list ours) (map (λ e. e.1) ours.rooms)
list-IsSorted_test = list-IsSorted ours

is_member-run_example :
    is_member
      (run codec ours ((joins (bytes "grp-12") (bytes "b"), no_directory) ∷ []))
      (bytes "grp-12")
      (bytes "b")
    ≡ true
unfolding program
is_member-run_example =
    is_member-run codec ours ((joins (bytes "grp-12") (bytes "b"), no_directory) ∷ [])
      (bytes "grp-12") (bytes "b") refl

get-rekey_test :
    get (rekey codec ours (bytes "grp-12") (some (7 ∷ [])) written).0.rooms (bytes "grp-34")
    ≡ some (room (bytes "grp-34") 4)
unfolding program
get-rekey_test = get-rekey codec ours (bytes "grp-12") (bytes "grp-34") (7 ∷ []) written

opened-IsValid : IsValid (record { rooms = (bytes "grp-ab", team) ∷ []; file = some (bytes "R") })
unfolding program
opened-IsValid =
    new-IsValid codec (some (bytes "R"))
      (record { rooms = (bytes "grp-ab", team) ∷ []; file = some (bytes "R") }) refl

operate-IsValid_test : IsValid (operate codec empty created no_directory)
operate-IsValid_test = operate-IsValid codec empty created no_directory empty-IsValid

new-operate_test :
    new codec (operate codec empty created written).file
    ≡ some (operate codec empty created written)
unfolding program
new-operate_test = new-operate codec empty created empty-IsValid refl refl
