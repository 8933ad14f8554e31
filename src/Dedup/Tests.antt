-- ===== src/Dedup/Tests.antt =====
-- internal/dedup/dedup_test.go, and the theorems at concrete stores.
use korik.Prelude.{
  Str, [], arith, bytes, false, length, not, pos, refl, some, str_eq, str_key, true, ℕ, ◌||◌, ◌∷◌,
  ◌≡◌, ◌≢◌, ◌≤◌, ◌⊎◌,
}
use korik.GoMap.{get, put, remove}
use korik.Dedup.{Seen, add, drop_expired, evict, expired, has, len, make_room, new, scan_oldest}
use korik.Dedup.Validity.{IsValid, add-IsValid, has-IsValid, new-IsValid}
use korik.Dedup.Forgetting.{Forgot, add_forgets}
use korik.Dedup.Duplicates.{add_answer, answers, answers-new, first_arrivals, known}

program : Unit {0}
unfolding new add has len make_room evict drop_expired scan_oldest get put remove answers
    first_arrivals str_eq
program = tt

abbrev two : Seen
two = record { ids = (bytes "a", 5) ∷ (bytes "b", 3) ∷ []; max = 2; ttl = 60 }

-- TestCapacityEviction
capacity_eviction : (add two (bytes "c") 9).0.ids ≡ (bytes "a", 5) ∷ (bytes "c", 9) ∷ []
unfolding program
capacity_eviction = refl

-- TestAddOnceThenDuplicate
once_then_duplicate :
    answers (new (pos 10) (pos 60)) ((bytes "id-1", 1) ∷ (bytes "id-1", 2) ∷ []) ≡ true ∷ false ∷ []
unfolding program
once_then_duplicate = refl

two-IsValid : IsValid two
unfolding get str_eq
two-IsValid = record {
  positive = omega arith;
  bounded = omega arith;
  distinct = (refl, (refl, tt));
  unnamed = refl;
}

new-IsValid_test : IsValid (new (pos 10) (pos 60))
new-IsValid_test = new-IsValid (pos 10) (pos 60)

add-IsValid_test : IsValid (add two (bytes "c") 9).0
add-IsValid_test = add-IsValid two (bytes "c") 9 two-IsValid

has-IsValid_test : IsValid (has two (bytes "b") 100).0
has-IsValid_test = has-IsValid two (bytes "b") 100 two-IsValid

Forgot-b : Forgot two (add two (bytes "c") 9).0 (bytes "b") 3
unfolding program
Forgot-b = (refl, refl)

add_forgets_test :
    (2 ≤ length two.ids)
    × ((expired 60 9 3 ≡ true)
        ⊎ ((j : Str) (u : ℕ)
            → j ≢ bytes "c"
            → get (add two (bytes "c") 9).0.ids j ≡ some u
            → 3 ≤ u))
add_forgets_test = add_forgets two (bytes "c") 9 two-IsValid (bytes "b") 3 Forgot-b

add_answer_test :
    ((add two (bytes "a") 900).1 ≡ not (known two (bytes "a")) || str_eq (bytes "a") [])
    × ((add two (bytes "a") 900).1 ≡ false → (add two (bytes "a") 900).0 ≡ two)
    × (known (add two (bytes "a") 900).0 (bytes "a")
        ≡ not (str_eq (bytes "a") []) || known two (bytes "a"))
add_answer_test = add_answer two (bytes "a") 900

answers-new_example :
    answers (new (pos 10) (pos 60)) ((bytes "id-1", 1) ∷ (bytes "id-1", 2) ∷ [])
    ≡ first_arrivals [] ((bytes "id-1", 1) ∷ (bytes "id-1", 2) ∷ [])
answers-new_example =
    answers-new (pos 10) (pos 60) ((bytes "id-1", 1) ∷ (bytes "id-1", 2) ∷ []) (omega arith)
