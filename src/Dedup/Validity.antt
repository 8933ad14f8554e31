-- ===== src/Dedup/Validity.antt =====
-- The invariant of internal/dedup/dedup.go, and what its methods change.
use korik.Prelude.{
  Bool-cases, Option-cases, Str, [], arith, false, inl, inr, leb, leb→le, length, none, refl, some,
  str_eq, str_key, suc, true, zero, ℕ, ℤ, ◌<◌, ◌≡◌, ◌≤◌,
}
use korik.GoMap.{
  IsMap, Map, get, get-put, get-remove, length-put-le, length-remove-le, put-IsMap, remove-IsMap,
}
use korik.Dedup.{Seen, add, drop_expired, evict, has, make_room, new}
use korik.Dedup.Eviction.{Evicts, drop_expired-IsMap, evict-Evicts, get-drop_expired}

pub record IsValid (s : Seen) : Type 0 where
  pub positive : 0 < s.max
  pub bounded : length s.ids ≤ s.max
  pub distinct : IsMap s.ids
  pub unnamed : get s.ids [] ≡ none

-- The constructor builds a valid, empty store, whatever capacity and lifetime it is given.
pub new-IsValid : (capacity ttl : ℤ) → IsValid (new capacity ttl)
unfolding new get
new-IsValid capacity ttl = record {
  positive = ground arith;
  bounded = omega arith;
  distinct = tt;
  unnamed = refl;
}

-- What room is made of: what is kept was there, is as old as it was, and there is room for one.
pub record Roomy (s : Seen) (now : ℕ) (m : Map Str ℕ) : Type 0 where
  pub kept : (k : Str) (u : ℕ) → get m k ≡ some u → get s.ids k ≡ some u
  pub distinct : IsMap m
  pub room : length m < s.max

pub Roomy-absent :
    (s : Seen) (now : ℕ) (m : Map Str ℕ) (k : Str)
    → Roomy s now m
    → get s.ids k ≡ none
    → get m k ≡ none
Roomy-absent s now m k r h = elim (Option-cases (get m k)) [
  | inl absent ↦ absent
  | inr (u, g) ↦ absurd (ground (arith, r.kept k u g))
]

pub make_room_spare : (s : Seen) (now : ℕ) → length s.ids < s.max → make_room s now ≡ s.ids
unfolding make_room evict
make_room_spare s now h = elim (Bool-cases (leb s.max (length s.ids))) [
  | inl full ↦ absurd (ground arith)
  | inr room ↦ rw room (evict_spare (length s.ids) room)
]
  where
    evict_spare : (fuel : ℕ) → leb s.max (length s.ids) ≡ false → evict fuel s.max s.ids ≡ s.ids
    evict_spare zero h = refl
    evict_spare (suc fuel) h = rw h

pub make_room_full :
    (s : Seen) (now : ℕ)
    → IsValid s
    → s.max ≤ length s.ids
    → Evicts s.max (drop_expired s.ttl now s.ids) (make_room s now)
unfolding make_room
make_room_full s now v full =
    let kept = drop_expired s.ttl now s.ids in
    let test : leb s.max (length s.ids) ≡ true = ground arith in
    rw test (
      evict-Evicts (length kept) s.max kept v.positive (omega arith)
        (drop_expired-IsMap s.ttl now s.ids v.distinct)
        (rw (get-drop_expired s.ttl now s.ids [] v.distinct, v.unnamed)))

pub make_room-Roomy : (s : Seen) (now : ℕ) → IsValid s → Roomy s now (make_room s now)
make_room-Roomy s now v = elim (Bool-cases (leb s.max (length s.ids))) [
  | inl full ↦
      let ev = make_room_full s now v (leb→le s.max (length s.ids) full) in
      record {
        kept =
            λ k u g. ground (arith, ev.kept k u g, get-drop_expired s.ttl now s.ids k v.distinct);
        distinct = ev.distinct;
        room = omega (arith, ev.size, v.positive);
      }
  | inr room ↦
      let spare : length s.ids < s.max = ground arith in
      rw (make_room_spare s now spare)
        (record { kept = λ k u g. g; distinct = v.distinct; room = spare })
]

module _ (s : Seen) (id : Str) (now : ℕ) (v : IsValid s) where
  -- `Add` keeps the invariant: never more entries than the capacity, never an identifier twice.
  pub add-IsValid : IsValid (add s id now).0
  unfolding add
  add-IsValid = elim (Bool-cases (str_eq id [])) [
    | inl unnamed ↦ rw unnamed v
    | inr named ↦ rw named (elim (Option-cases (get s.ids id)) [
      | inr (ts, known) ↦ rw known v
      | inl unseen ↦ rw unseen (
          let r = make_room-Roomy s now v in
          record {
            positive = v.positive;
            bounded = omega (arith, length-put-le (make_room s now) id now, r.room);
            distinct = put-IsMap (make_room s now) id now r.distinct;
            unnamed = ground (
              arith,
              get-put (make_room s now) id [] now,
              Roomy-absent s now (make_room s now) [] r,
            );
          })
    ])
  ]

  -- So does `Has`, which may drop the entry that it looks at.
  pub has-IsValid : IsValid (has s id now).0
  unfolding has
  has-IsValid = ground (
    arith,
    length-remove-le s.ids id,
    remove-IsMap s.ids id v.distinct,
    get-remove s.ids id [],
    v,
  )
