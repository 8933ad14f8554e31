-- ===== src/Dedup/Duplicates.antt =====
-- internal/dedup/dedup.go against a reference that remembers every identifier.
use korik.Prelude.{
  Bool, List, Str, [], arith, false, int_key, length, none, not, positive_or, refl, some, str_eq,
  str_eq_iff, str_key, true, ℕ, ℤ, ◌+◌, ◌<◌, ◌||◌, ◌∷◌, ◌≡◌, ◌≤◌,
}
use korik.GoMap.{get, get-put, length-put-le}
use korik.Dedup.{Seen, add, make_room, new}
use korik.Dedup.Validity.{make_room_spare}

abbrev pub known : Seen → Str → Bool
known s k = elim (get s.ids k) [ none ↦ false | some _ ↦ true ]

-- `Add` reports a duplicate exactly if the identifier has bytes and stands in the store, however
-- old its entry is; the identifier stands in the store afterwards, and a duplicate changes nothing.
pub add_answer :
    (s : Seen) (id : Str) (now : ℕ)
    → ((add s id now).1 ≡ not (known s id) || str_eq id [])
      × ((add s id now).1 ≡ false → (add s id now).0 ≡ s)
      × (known (add s id now).0 id ≡ not (str_eq id []) || known s id)
unfolding add
add_answer s id now = ground (arith, str_eq_iff id id, get-put (make_room s now) id id now)

-- The answers of `Add` to identifiers that arrive one after the other.
unfoldable pub answers : Seen → List (Str × ℕ) → List Bool
answers s [] = []
answers s ((id, now) ∷ rest) = let (s', fresh) = add s id now in fresh ∷ answers s' rest

contains : List Str → Str → Bool
contains [] k = false
contains (j ∷ before) k = str_eq j k || contains before k

-- The reference: fresh is what has no bytes, or did not arrive before.
unfoldable pub first_arrivals : List Str → List (Str × ℕ) → List Bool
unfolding contains
first_arrivals before [] = []
first_arrivals before ((id, _) ∷ rest) =
    (str_eq id [] || not (contains before id)) ∷ first_arrivals (id ∷ before) rest

abbrev Agrees : Seen → List Str → Type 0
Agrees s before = (k : Str) → str_eq k [] ≡ false → known s k ≡ contains before k

pub known-add :
    (s : Seen) (id : Str) (now : ℕ) (k : Str)
    → length s.ids < s.max
    → str_eq k [] ≡ false
    → known (add s id now).0 k ≡ str_eq id k || known s k
unfolding add
known-add s id now k room named = ground (
  arith,
  make_room_spare s now room,
  get-put s.ids id k now,
  str_eq_iff id k,
  str_eq_iff id [],
  str_eq_iff k [],
)

pub length-add-le :
    (s : Seen) (id : Str) (now : ℕ)
    → length s.ids < s.max
    → (length (add s id now).0.ids ≤ length s.ids + 1) × ((add s id now).0.max ≡ s.max)
unfolding add
length-add-le s id now room = ground (arith, make_room_spare s now room, length-put-le s.ids id now)

answers-first_arrivals :
    (s : Seen) (before : List Str) (arrivals : List (Str × ℕ))
    → Agrees s before
    → length s.ids + length arrivals ≤ s.max
    → answers s arrivals ≡ first_arrivals before arrivals
unfolding answers first_arrivals
answers-first_arrivals s before [] agree fits = refl
answers-first_arrivals s before ((id, now) ∷ rest) agree fits =
    let room : length s.ids < s.max = omega arith in
    let (s', fresh) = add s id now in
    let (grew, same) = length-add-le s id now room in
    let ih : answers (add s id now).0 rest ≡ first_arrivals (id ∷ before) rest =
      answers-first_arrivals (add s id now).0 (id ∷ before) rest
        (λ k named. ground (arith, known-add s id now k room named, agree k named)) (omega arith) in
    ground (arith, ih, (add_answer s id now).0, agree id)

-- In a new store, as many arrivals as its capacity get the answers of a store that never forgets:
-- each identifier is fresh once.
pub answers-new :
    (capacity ttl : ℤ) (arrivals : List (Str × ℕ))
    → length arrivals ≤ positive_or capacity 10000
    → answers (new capacity ttl) arrivals ≡ first_arrivals [] arrivals
unfolding new get
answers-new capacity ttl arrivals fits =
    answers-first_arrivals (new capacity ttl) [] arrivals (λ k named. unfold contains in refl)
      (omega arith)
