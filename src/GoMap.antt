-- ===== src/GoMap.antt =====
-- Go's built-in `map`, as a list of entries in the order in which a `range` visits them. Go leaves
-- that order open: the theorems about a `range` are for every order of the entries.
use korik.Prelude.{
  Comparable, List, Option, [], arith, false, if◌then◌else◌, length, none, refl, some, ◌++◌, ◌+◌,
  ◌<◌, ◌==◌, ◌∷◌, ◌≡◌, ◌≤◌,
}

abbrev pub Map {ℓ} : Type ℓ → Type ℓ → Type ℓ
Map K V = List (K × V)

module _ {ℓ} {K V : Type ℓ} ⦃e : Comparable K⦄ where
  -- v, ok := m[k]
  unfoldable pub get : Map K V → K → Option V
  get [] k = none
  get ((j, v) ∷ m) k = if j == k then some v else get m k

  -- m[k] = v
  unfoldable pub put : Map K V → K → V → Map K V
  put [] k v = (k, v) ∷ []
  put ((j, w) ∷ m) k v = if j == k then (k, v) ∷ m else (j, w) ∷ put m k v

  -- delete(m, k)
  unfoldable pub remove : Map K V → K → Map K V
  remove [] k = []
  remove ((j, v) ∷ m) k = if j == k then remove m k else (j, v) ∷ remove m k

  -- No key stands twice.
  abbrev pub IsMap : Map K V → Type ℓ
  IsMap [] = Unit
  IsMap ((k, _) ∷ m) = (get m k ≡ none) × IsMap m

  pub get-put :
      (m : Map K V) (k j : K) (v : V) → get (put m k v) j ≡ (if k == j then some v else get m j)
  unfolding get put
  get-put [] k j v = refl
  get-put ((i, w) ∷ m) k j v =
      ground (arith, e.same_iff i k, e.same_iff i j, e.same_iff k j, get-put m k j v)

  pub get-remove : (m : Map K V) (k j : K) → get (remove m k) j ≡ (if k == j then none else get m j)
  unfolding get remove
  get-remove [] k j = ground arith
  get-remove ((i, w) ∷ m) k j =
      ground (arith, e.same_iff i k, e.same_iff i j, e.same_iff k j, get-remove m k j)

  pub put-IsMap : (m : Map K V) (k : K) (v : V) → IsMap m → IsMap (put m k v)
  unfolding put get
  put-IsMap [] k v h = ground arith
  put-IsMap ((j, w) ∷ m) k v h =
      ground (arith, e.same_iff j k, e.same_iff k j, get-put m k j v, put-IsMap m k v h.1)

  pub remove-IsMap : (m : Map K V) (k : K) → IsMap m → IsMap (remove m k)
  unfolding remove
  remove-IsMap [] k h = tt
  remove-IsMap ((j, w) ∷ m) k h =
      ground (arith, e.same_iff k j, get-remove m k j, remove-IsMap m k h.1)

  pub length-put-le : (m : Map K V) (k : K) (v : V) → length (put m k v) ≤ length m + 1
  unfolding put
  length-put-le [] k v = omega arith
  length-put-le ((j, w) ∷ m) k v = ground (arith, length-put-le m k v)

  -- A new key adds one entry.
  pub length-put_new :
      (m : Map K V) (k : K) (v : V) → get m k ≡ none → length (put m k v) ≡ length m + 1
  unfolding put get
  length-put_new [] k v h = omega arith
  length-put_new ((j, w) ∷ m) k v h = ground (arith, length-put_new m k v)

  pub length-remove-le : (m : Map K V) (k : K) → length (remove m k) ≤ length m
  unfolding remove
  length-remove-le [] k = omega arith
  length-remove-le ((j, w) ∷ m) k = ground (arith, length-remove-le m k)

  -- Removing a key that is there shortens the map.
  pub length-remove-lt :
      (m : Map K V) (k : K) (v : V) → get m k ≡ some v → length (remove m k) < length m
  unfolding remove get
  length-remove-lt [] k v h = ground arith
  length-remove-lt ((j, w) ∷ m) k v h = ground (arith, length-remove-le m k, length-remove-lt m k v)

  pub remove_absent : (m : Map K V) (k : K) → get m k ≡ none → remove m k ≡ m
  unfolding remove get
  remove_absent [] k h = refl
  remove_absent ((j, w) ∷ m) k h = ground (arith, remove_absent m k)

  -- In a map whose keys differ, removing a key drops one entry.
  pub length-remove_one :
      (m : Map K V) (k : K) (v : V)
      → IsMap m
      → get m k ≡ some v
      → length (remove m k) + 1 ≡ length m
  unfolding remove get
  length-remove_one [] k v d h = ground arith
  length-remove_one ((j, w) ∷ m) k v d h =
      ground (arith, e.same_iff j k, remove_absent m k, length-remove_one m k v d.1)

  -- To put what is there already changes nothing.
  pub put-get : (m : Map K V) (k : K) (v : V) → get m k ≡ some v → put m k v ≡ m
  unfolding put get
  put-get [] k v h = absurd (ground (arith, h))
  put-get ((j, w) ∷ m) k v h = ground (arith, h, e.same_iff j k, put-get m k v)

  -- A new key stands last.
  pub put_new : (m : Map K V) (k : K) (v : V) → get m k ≡ none → put m k v ≡ m ++ (k, v) ∷ []
  unfolding put get
  put_new [] k v h = refl
  put_new ((j, w) ∷ m) k v h = ground (arith, put_new m k v)

  get-middle :
      (before after : Map K V) (k j : K) (v : V)
      → get (before ++ (k, v) ∷ after) j ≡ none
      → (k == j) ≡ false
  unfolding get
  get-middle [] after k j v h = ground (arith, h)
  get-middle ((i, _) ∷ before) after k j v h = ground (arith, h, get-middle before after k j v)

  -- A key does not stand before its place.
  pub IsMap-middle :
      (before after : Map K V) (k : K) (v : V)
      → IsMap (before ++ (k, v) ∷ after)
      → get before k ≡ none
  unfolding get
  IsMap-middle [] after k v d = refl
  IsMap-middle ((i, _) ∷ before) after k v (h, d) = ground (
    arith,
    IsMap-middle before after k v d,
    get-middle before after k i v h,
    e.same_iff k i,
    e.same_iff i k,
  )
