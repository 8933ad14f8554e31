-- ===== src/Group/Members.antt =====
-- `AddMember`, `RemoveMember`, `IsMember` and `Rekey` of internal/group/group.go: to who asks, the
-- members of a room are a set.
use korik.Prelude.{
  Bool, Bool-cases, List, Option, Option-cases, Str, [], ap, arith, false, filterb, if◌then◌else◌,
  inl, inr, none, not, refl, some, str_eq, str_eq_iff, str_key, true, ℕ, ◌&&◌, ◌++◌, ◌||◌, ◌∙◌, ◌∷◌,
  ◌≡◌,
}
use korik.GoMap.{get, get-put}
use korik.Storage.{Codec, Outcome}
use korik.Group.{Room, Store, add_member, has_member, is_member, rekey, remove_member, save_locked}

pub data Change : Type 0 where
  joins : Str → Str → Change
  leaves : Str → Str → Change

-- the answer for one identifier after one change
abbrev answer_after : Str → Str → Bool → Change → Bool
answer_after room jid is_in (joins r j) = is_in || (str_eq r room && str_eq j jid)
answer_after room jid is_in (leaves r j) = is_in && not (str_eq r room && str_eq j jid)

-- The set that changes leave: is `jid` in it, as a member of `room`?
unfoldable pub set_after : Str → Str → Bool → List (Change × Outcome) → Bool
set_after room jid is_in [] = is_in
set_after room jid is_in ((c, _) ∷ changes) =
    set_after room jid (answer_after room jid is_in c) changes

has_member-append :
    (members : List Str) (jid other : Str)
    → has_member (members ++ jid ∷ []) other ≡ (has_member members other || str_eq jid other)
unfolding has_member
has_member-append [] jid other = ground arith
has_member-append (m ∷ members) jid other = ground (arith, has_member-append members jid other)

pub has_member-filterb :
    (members : List Str) (jid other : Str)
    → has_member (filterb (λ m. not (str_eq m jid)) members) other
      ≡ (has_member members other && not (str_eq jid other))
unfolding has_member
has_member-filterb [] jid other = refl
has_member-filterb (m ∷ members) jid other = ground (
  arith,
  str_eq_iff m jid,
  str_eq_iff m other,
  str_eq_iff jid other,
  has_member-filterb members jid other,
)

has_member_there :
    (members : List Str) (jid other : Str)
    → has_member members jid ≡ true
    → (has_member members other || str_eq jid other) ≡ has_member members other
has_member_there members jid other h = ground (arith, str_eq_iff jid other)

-- who is a member after one joins or leaves
abbrev pub joined : Str → List Str → List Str
joined j members = if has_member members j then members else members ++ j ∷ []

abbrev pub without : Str → List Str → List Str
without j members = filterb (λ m. not (str_eq m j)) members

abbrev pub with_members : (List Str → List Str) → Room → Room
with_members f r = record r { members = f r.members }

abbrev pub mapped : (Room → Room) → Option Room → Option Room
mapped f none = none
mapped f (some r) = some (f r)

module _ (codec : Codec (List (Option Room))) where
  unfoldable pub perform : Store → Change × Outcome → Store
  perform s (joins room jid, o) = (add_member codec s room jid o).0
  perform s (leaves room jid, o) = (remove_member codec s room jid o).0

  unfoldable pub run : Store → List (Change × Outcome) → Store
  unfolding perform
  run s [] = s
  run s (c ∷ changes) = run (perform s c) changes

  abbrev pub known : Store → Str → Bool
  known s room = elim (get s.rooms room) [ none ↦ false | some _ ↦ true ]

  pub get-add_member :
      (s : Store) (r j room : Str) (o : Outcome)
      → get (add_member codec s r j o).0.rooms room
        ≡ mapped (if str_eq r room then with_members (joined j) else (λ x. x)) (get s.rooms room)
  unfolding add_member save_locked
  get-add_member s r j room o = elim (Option-cases (get s.rooms r)) [
    | inl unknown ↦ ground (arith, unknown, str_eq_iff r room)
    | inr (x, there) ↦ elim (Bool-cases (has_member x.members j)) [
      | inl in_it ↦ ground (arith, there, in_it, str_eq_iff r room)
      | inr out ↦ ground (
        arith,
        there,
        out,
        str_eq_iff r room,
        get-put s.rooms r room (record x { members = x.members ++ j ∷ [] }),
      )
    ]
  ]

  pub get-remove_member :
      (s : Store) (r j room : Str) (o : Outcome)
      → get (remove_member codec s r j o).0.rooms room
        ≡ mapped (if str_eq r room then with_members (without j) else (λ x. x)) (get s.rooms room)
  unfolding remove_member save_locked
  get-remove_member s r j room o = elim (Option-cases (get s.rooms r)) [
    | inl unknown ↦ ground (arith, unknown, str_eq_iff r room)
    | inr (x, there) ↦ ground (
      arith,
      there,
      str_eq_iff r room,
      get-put s.rooms r room (record x { members = without j x.members }),
    )
  ]

  perform_lem :
      (s : Store) (c : Change) (o : Outcome) (room jid : Str)
      → known s room ≡ true
      → (is_member (perform s (c, o)) room jid ≡ answer_after room jid (is_member s room jid) c)
        × (known (perform s (c, o)) room ≡ true)
  unfolding perform is_member
  perform_lem s (joins r j) o room jid h = elim (Option-cases (get s.rooms room)) [
    | inl unknown ↦ ground (arith, h, unknown)
    | inr (x, there) ↦ ground (
      arith,
      there,
      get-add_member s r j room o,
      has_member-append x.members j jid,
      has_member_there x.members j jid,
    )
  ]
  perform_lem s (leaves r j) o room jid h = elim (Option-cases (get s.rooms room)) [
    | inl unknown ↦ ground (arith, h, unknown)
    | inr (x, there) ↦
        ground (arith, there, get-remove_member s r j room o, has_member-filterb x.members j jid)
  ]

  -- After any changes, saved or not, who is a member of a room that the store knows is what a set
  -- says that starts with its members, takes in who joins and drops who leaves; changes of other
  -- rooms do not count.
  pub is_member-run :
      (s : Store) (changes : List (Change × Outcome)) (room jid : Str)
      → known s room ≡ true
      → is_member (run s changes) room jid ≡ set_after room jid (is_member s room jid) changes
  unfolding run set_after
  is_member-run s [] room jid h = refl
  is_member-run s ((c, o) ∷ changes) room jid h =
      let (now, still) = perform_lem s c o room jid h in
      is_member-run (perform s (c, o)) changes room jid still
      ∙ ap (λ is_in. set_after room jid is_in changes) now

  -- A new key is set for the room and for no other, and changes nothing else of any room: who was a
  -- member stays one.
  pub get-rekey :
      (s : Store) (r room : Str) (key : List ℕ) (o : Outcome)
      → get (rekey codec s r (some key) o).0.rooms room
        ≡ mapped
            (if str_eq r room then (λ x. record x { key = key }) else (λ x. x))
            (get s.rooms room)
  unfolding rekey save_locked
  get-rekey s r room key o = elim (Option-cases (get s.rooms r)) [
    | inl unknown ↦ ground (arith, unknown, str_eq_iff r room)
    | inr (x, there) ↦
        ground (arith, there, str_eq_iff r room, get-put s.rooms r room (record x { key = key }))
  ]
