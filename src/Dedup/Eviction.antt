-- ===== src/Dedup/Eviction.antt =====
-- What the eviction of internal/dedup/dedup.go removes, and that its loop ends with room to spare.
use korik.Prelude.{
  All, Bool-cases, Str, [], arith, false, if◌then◌else◌, inl, inr, leb, leb→le, length, ltb, ltb→lt,
  min, none, refl, some, str_eq, str_eq_iff, str_key, suc, true, zero, ℕ, ◌-◌, ◌<◌, ◌∷◌, ◌≡◌, ◌≤◌,
  ◌⊎◌,
}
use korik.GoMap.{IsMap, Map, get, get-remove, length-remove_one, remove, remove-IsMap}
use korik.Dedup.{drop_expired, evict, expired, scan_oldest}

abbrev NotBefore : ℕ → Map Str ℕ → Type 0
NotBefore t = All (λ (e : Str × ℕ). t ≤ e.1)

NotBefore-get : (t : ℕ) (m : Map Str ℕ) (k : Str) (u : ℕ) → NotBefore t m → get m k ≡ some u → t ≤ u
unfolding get
NotBefore-get t [] k u h g = ground arith
NotBefore-get t ((j, w) ∷ m) k u h g = ground (arith, NotBefore-get t m k u h.1)

NotBefore-le : (t u : ℕ) (m : Map Str ℕ) → t ≤ u → NotBefore u m → NotBefore t m
NotBefore-le t u [] h a = tt
NotBefore-le t u (e ∷ m) h a = (omega arith, NotBefore-le t u m h a.1)

-- The scan keeps what it has, unless the rest of the map holds something older.
scan_rest :
    (m : Map Str ℕ) (o : Str) (t : ℕ)
    → IsMap m
    → (r : ℕ) × (r ≤ t)
      × NotBefore r m
      × (((scan_oldest m o t false ≡ o) × (r ≡ t)) ⊎ (get m (scan_oldest m o t false) ≡ some r))
unfolding scan_oldest get
scan_rest [] o t d = (t, omega arith, tt, inl (refl, refl))
scan_rest ((key, ts) ∷ m) o t d = elim (Bool-cases (ltb ts t)) [
  | inl older ↦
      let (r, le, nb, found) = scan_rest m key ts d.1 in
      rw older (
        r,
        omega (arith, ltb→lt ts t older),
        (le, nb),
        inr (ground (arith, str_eq_iff key (scan_oldest m key ts false))),
      )
  | inr newer ↦
      let (r, le, nb, found) = scan_rest m o t d.1 in
      rw newer (r, le, (ground arith, nb), ground (arith, str_eq_iff key (scan_oldest m o t false)))
]

-- The scan finds a key of least time.
pub scan-oldest :
    (m : Map Str ℕ)
    → IsMap m
    → 0 < length m
    → (t : ℕ) × (get m (scan_oldest m [] 0 true) ≡ some t)
      × ((k : Str) (u : ℕ) → get m k ≡ some u → t ≤ u)
unfolding scan_oldest get
scan-oldest [] d h = absurd (omega arith)
scan-oldest ((key, ts) ∷ m) d h =
    let (r, le, nb, found) = scan_rest m key ts d.1 in
    (
      r,
      ground (arith, str_eq_iff key (scan_oldest m key ts false)),
      λ k u g. NotBefore-get r ((key, ts) ∷ m) k u (le, nb) g,
    )

-- `m'` is what an eviction leaves of `m`: entries of `m`, as many as fit below `max`, and none of
-- them older than one that is gone.
pub record Evicts (max : ℕ) (m m' : Map Str ℕ) : Type 0 where
  pub kept : (k : Str) (u : ℕ) → get m' k ≡ some u → get m k ≡ some u
  pub older : (k j : Str) (t u : ℕ) → get m k ≡ some t → get m' k ≡ none → get m' j ≡ some u → t ≤ u
  pub distinct : IsMap m'
  pub size : length m' ≡ min (length m) (max - 1)

Evicts-refl : (max : ℕ) (m : Map Str ℕ) → IsMap m → length m < max → Evicts max m m
Evicts-refl max m d h = record {
  kept = λ k u g. g;
  older = λ k j t u g absent found. cc;
  distinct = d;
  size = omega arith;
}

Evicts-remove :
    (max : ℕ) (m m' : Map Str ℕ) (o : Str) (t : ℕ)
    → IsMap m
    → max ≤ length m
    → get m o ≡ some t
    → ((k : Str) (u : ℕ) → get m k ≡ some u → t ≤ u)
    → Evicts max (remove m o) m'
    → Evicts max m m'
Evicts-remove max m m' o t d full at least ev = record {
  kept = λ k u g. ground (arith, get-remove m o k, ev.kept k u g);
  older = λ k j w u g absent found. ground (
    arith,
    str_eq_iff o k,
    get-remove m o k,
    get-remove m o j,
    ev.kept j u found,
    least j u,
    ev.older k j w u,
  );
  distinct = ev.distinct;
  size = omega (arith, ev.size, length-remove_one m o t d at);
}

-- With the size of the map as fuel, the loop ends by its test: it leaves as many entries as fit.
pub evict-Evicts :
    (fuel max : ℕ) (m : Map Str ℕ)
    → 0 < max
    → length m ≤ fuel
    → IsMap m
    → get m [] ≡ none
    → Evicts max m (evict fuel max m)
unfolding evict
evict-Evicts zero max m h f d e = Evicts-refl max m d (omega arith)
evict-Evicts (suc fuel) max m h f d e = elim (Bool-cases (leb max (length m))) [
  | inr room ↦ rw room (Evicts-refl max m d (ground arith))
  | inl full ↦
      let (t, at, least) = scan-oldest m d (ground arith) in
      let o = scan_oldest m [] 0 true in
      let named : str_eq o [] ≡ false = ground (arith, str_eq_iff o []) in
      rw (full, named)
        (Evicts-remove max m (evict fuel max (remove m o)) o t d (leb→le max (length m) full) at
          least
          (evict-Evicts fuel max (remove m o) h (omega (arith, length-remove_one m o t d at))
            (remove-IsMap m o d) (ground (arith, get-remove m o []))))
]

-- The range that drops what has expired.
module _ (ttl now : ℕ) where
  pub get-drop_expired :
      (m : Map Str ℕ) (k : Str)
      → IsMap m
      → get (drop_expired ttl now m) k
        ≡ elim (get m k) [ none ↦ none | some t ↦ if expired ttl now t then none else some t ]
  unfolding drop_expired get
  get-drop_expired [] k d = refl
  get-drop_expired ((j, t) ∷ m) k d = ground (arith, str_eq_iff j k, get-drop_expired m k d.1)

  pub drop_expired-IsMap : (m : Map Str ℕ) → IsMap m → IsMap (drop_expired ttl now m)
  unfolding drop_expired get
  drop_expired-IsMap [] d = tt
  drop_expired-IsMap ((j, t) ∷ m) d =
      ground (arith, get-drop_expired m j d.1, drop_expired-IsMap m d.1)
