-- ===== src/Group/Listing.antt =====
-- `List` of internal/group/group.go: the insertion sort of the rooms by their time of creation.
use mathlib.Core.List.{reverse_aux}
use mathlib.Core.List.Permᴰ
use korik.Prelude.{
  Bool, List, Permᴰ, [], arith, false, if◌then◌else◌, ltb, map, refl, true, ℕ, ◌++◌, ◌∷◌, ◌≤◌,
}
use korik.Group.{Room, Store, list, sink, sort_rooms}

abbrev AtMost : ℕ → List Room → Type 0
AtMost t [] = Unit
AtMost t (r ∷ _) = r.created_at ≤ t

abbrev AtLeast : ℕ → List Room → Type 0
AtLeast t [] = Unit
AtLeast t (r ∷ _) = t ≤ r.created_at

-- From the newest to the oldest.
abbrev IsFalling : List Room → Type 0
IsFalling [] = Unit
IsFalling (r ∷ rest) = AtMost r.created_at rest × IsFalling rest

-- From the oldest to the newest.
abbrev pub IsSorted : List Room → Type 0
IsSorted [] = Unit
IsSorted (r ∷ rest) = AtLeast r.created_at rest × IsSorted rest

AtMost-sink :
    (t : ℕ) (r : Room) (rest : List Room)
    → r.created_at ≤ t
    → AtMost t rest
    → AtMost t (sink r rest)
unfolding sink
AtMost-sink t r [] h k = h
AtMost-sink t r (x ∷ rest) h k = ground (arith, h, k)

sink-IsFalling : (r : Room) (sorted : List Room) → IsFalling sorted → IsFalling (sink r sorted)
unfolding sink
sink-IsFalling r [] f = (tt, tt)
sink-IsFalling r (x ∷ rest) (le, f) =
    ground (arith, le, f, sink-IsFalling r rest f, AtMost-sink x.created_at r rest)

sort_rooms-IsFalling :
    (sorted rooms : List Room) → IsFalling sorted → IsFalling (sort_rooms sorted rooms)
unfolding sort_rooms
sort_rooms-IsFalling sorted [] f = f
sort_rooms-IsFalling sorted (r ∷ rooms) f =
    sort_rooms-IsFalling (sink r sorted) rooms (sink-IsFalling r sorted f)

abbrev Linked : List Room → List Room → Type 0
Linked [] ys = Unit
Linked (x ∷ _) ys = AtLeast x.created_at ys

reverse_aux-IsSorted :
    (xs ys : List Room) → IsFalling xs → IsSorted ys → Linked xs ys → IsSorted (reverse_aux xs ys)
reverse_aux-IsSorted [] ys f s l = s
reverse_aux-IsSorted (x ∷ []) ys (le, f) s l = (l, s)
reverse_aux-IsSorted (x ∷ x' ∷ xs) ys (le, f) s l =
    reverse_aux-IsSorted (x' ∷ xs) (x ∷ ys) f (l, s) le

sink-Permᴰ : (r : Room) (sorted : List Room) → Permᴰ (sink r sorted) (r ∷ sorted)
unfolding sink
sink-Permᴰ r [] = Permᴰ.refl (r ∷ [])
sink-Permᴰ r (x ∷ rest) = step (sink-Permᴰ r rest) (ltb r.created_at x.created_at)
  where
    step :
        Permᴰ (sink r rest) (r ∷ rest)
        → (earlier : Bool)
        → Permᴰ (if earlier then x ∷ sink r rest else r ∷ x ∷ rest) (r ∷ x ∷ rest)
    step sunk true = Permᴰ.trans (Permᴰ.cons refl sunk) (Permᴰ.swap refl refl)
    step sunk false = Permᴰ.refl (r ∷ x ∷ rest)

sort_rooms-Permᴰ : (sorted rooms : List Room) → Permᴰ (sort_rooms sorted rooms) (sorted ++ rooms)
unfolding sort_rooms
sort_rooms-Permᴰ sorted [] = Permᴰ.symm (Permᴰ.append-nil sorted)
sort_rooms-Permᴰ sorted (r ∷ rooms) = Permᴰ.trans (sort_rooms-Permᴰ (sink r sorted) rooms) (
    Permᴰ.trans (Permᴰ.append_right rooms (sink-Permᴰ r sorted))
      (Permᴰ.symm (Permᴰ.middle r sorted rooms)))

-- `List` gives every room of the store once, from the one that was created first to the last.
pub list-IsSorted : (s : Store) → IsSorted (list s) × Permᴰ (list s) (map (λ e. e.1) s.rooms)
unfolding list
list-IsSorted s =
    let rooms = map (λ e. e.1) s.rooms in
    (
      reverse_aux-IsSorted (sort_rooms [] rooms) [] (sort_rooms-IsFalling [] rooms tt) tt
          (linked (sort_rooms [] rooms)),
      Permᴰ.trans (Permᴰ.reverse (sort_rooms [] rooms)) (sort_rooms-Permᴰ [] rooms),
    )
  where
    linked : (xs : List Room) → Linked xs []
    linked [] = tt
    linked (x ∷ xs) = tt
