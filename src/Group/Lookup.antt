-- ===== src/Group/Lookup.antt =====
-- `Get` and `Resolve` of internal/group/group.go, whose ranges over a map have no fixed order.
use korik.Prelude.{
  Bool-cases, List, Option, Permᴰ, Str, [], ap, arith, filterb, if◌then◌else◌, inl, inr, length,
  none, refl, some, str_eq_iff, str_key, ◌∙◌, ◌∷◌, ◌≟◌, ◌≡◌,
}
use korik.GoMap.{IsMap, Map, get}
use korik.Group.{Room, Store, get_room, matches, scan}

-- The rooms that a reference is a prefix for.
unfoldable pub candidates : Str → Map Str Room → List (Str × Room)
candidates ref = filterb (λ e. matches ref e.0)

-- The only one, if there is just one.
abbrev pub only_one : List (Str × Room) → Option Room
only_one [] = none
only_one ((_, r) ∷ []) = some r
only_one (_ ∷ _ ∷ _) = none

only_one-cons :
    (id : Str) (r : Room) (cs : List (Str × Room))
    → only_one ((id, r) ∷ cs) ≡ (if length cs ≟ 0 then some r else none)
only_one-cons id r [] = refl
only_one-cons id r (c ∷ cs) = ground arith

scan-candidates :
    (ref : Str) (rooms : Map Str Room)
    → (scan ref none rooms ≡ only_one (candidates ref rooms))
      × ((r : Room)
          → scan ref (some r) rooms ≡ (if length (candidates ref rooms) ≟ 0 then some r else none))
unfolding scan candidates
scan-candidates ref [] = (refl, λ r. refl)
scan-candidates ref ((id, r) ∷ rooms) =
    let (alone, after) = scan-candidates ref rooms in
    (
      elim (Bool-cases (matches ref id)) [
        | inl here ↦ ground (arith, here, after r, only_one-cons id r (candidates ref rooms))
        | inr other ↦ ground (arith, other, alone)
      ],
      λ r'. ground (arith, after r'),
    )

abbrev or_else : Option Room → Option Room → Option Room
or_else (some r) o = some r
or_else none o = o

-- `Get` finds the room with the identifier if there is one; otherwise it takes a reference of four
-- bytes or more for a prefix and finds the room if just one identifier begins with it.
pub get_room-only_one :
    (s : Store) (ref : Str)
    → get_room s ref ≡ or_else (get s.rooms ref) (only_one (candidates ref s.rooms))
unfolding get_room candidates
get_room-only_one s ref = ground (arith, (scan-candidates ref s.rooms).0)

-- The entries of one map in another order.
Permᴰ-get :
    {m m' : Map Str Room} → Permᴰ m m' → IsMap m → IsMap m' × ((k : Str) → get m k ≡ get m' k)
unfolding get
Permᴰ-get Permᴰ.nil d = (d, λ k. refl)
Permᴰ-get (Permᴰ.cons {a} {b} {l₁} {l₂} e p) (unseen, d) =
    let (d', same) = Permᴰ-get p d in ((rw (← e, ← same a.0) unseen, d'), λ k. rw (e, same k))
Permᴰ-get (Permᴰ.swap {a} {b} {a'} {b'} {l} e f) (unseen, (unseen', d)) =
    rw (← e, ← f)
      (
        ground (arith, unseen, unseen', d, str_eq_iff b.0 a.0, str_eq_iff a.0 b.0),
        λ k. ground (arith, unseen, str_eq_iff a.0 k, str_eq_iff b.0 k, str_eq_iff b.0 a.0),
      )
Permᴰ-get (Permᴰ.trans p q) d =
    let (d', same) = Permᴰ-get p d in
    let (d'', same') = Permᴰ-get q d' in (d'', λ k. same k ∙ same' k)

-- Two orders in which a range may visit the same map.
scan-Permᴰ :
    (ref : Str) {m m' : Map Str Room}
    → Permᴰ m m'
    → (o : Option Room) → scan ref o m ≡ scan ref o m'
unfolding scan
scan-Permᴰ ref Permᴰ.nil o = refl
scan-Permᴰ ref (Permᴰ.cons {a} {b} {l₁} {l₂} e p) o =
    ap (λ x. scan ref o (x ∷ l₁)) e
    ∙ ground (arith, scan-Permᴰ ref p o, scan-Permᴰ ref p (some b.1))
scan-Permᴰ ref (Permᴰ.swap {a} {b} {a'} {b'} {l} e f) o =
    ground arith ∙ ap (λ x. scan ref o (x ∷ a ∷ l)) f ∙ ap (λ x. scan ref o (a' ∷ x ∷ l)) e
scan-Permᴰ ref (Permᴰ.trans p q) o = scan-Permᴰ ref p o ∙ scan-Permᴰ ref q o

-- `Get` gives the same room, or none, in whatever order the range visits the map.
pub get_room-Permᴰ :
    (s s' : Store) (ref : Str)
    → IsMap s.rooms
    → Permᴰ s.rooms s'.rooms
    → get_room s ref ≡ get_room s' ref
unfolding get_room
get_room-Permᴰ s s' ref d p =
    let same = (Permᴰ-get p d).1 ref in ground (arith, same, scan-Permᴰ ref p none)
