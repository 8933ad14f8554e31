-- ===== src/Dedup/Forgetting.antt =====
-- Which identifiers internal/dedup/dedup.go forgets to make room.
use korik.Prelude.{
  Bool-cases, Option-cases, Str, [], arith, inl, inr, leb, leb→le, length, none, some, str_eq,
  str_eq_iff, str_key, true, ℕ, ◌+◌, ◌≡◌, ◌≢◌, ◌≤◌, ◌⊎◌,
}
use korik.GoMap.{get, get-put}
use korik.Dedup.{Seen, add, expired, make_room}
use korik.Dedup.Eviction.{get-drop_expired}
use korik.Dedup.Validity.{IsValid, make_room-Roomy, make_room_full, make_room_spare}

-- `k`, seen at `t`, is not in the store any more.
abbrev pub Forgot : Seen → Seen → Str → ℕ → Type 0
Forgot s s' k t = (get s.ids k ≡ some t) × (get s'.ids k ≡ none)

module _ (s : Seen) (id : Str) (now : ℕ) (v : IsValid s) where
  -- `Add` of an identifier that is new fills the store up, at most.
  length-make_room-full : s.max ≤ length s.ids → length (make_room s now) + 1 ≤ s.max
  length-make_room-full full = omega (arith, (make_room-Roomy s now v).room)

  get-make_room :
      (k : Str) (t : ℕ)
      → get s.ids k ≡ some t
      → get (make_room s now) k ≡ none
      → (s.max ≤ length s.ids)
        × ((expired s.ttl now t ≡ true)
            ⊎ ((j : Str) (u : ℕ) → get (make_room s now) j ≡ some u → t ≤ u))
  get-make_room k t at gone = elim (Bool-cases (leb s.max (length s.ids))) [
    | inr room ↦ absurd (ground (arith, make_room_spare s now (ground arith)))
    | inl full ↦
        let le = leb→le s.max (length s.ids) full in
        let ev = make_room_full s now v le in
        (
          le,
          elim (Bool-cases (expired s.ttl now t)) [
            | inl old ↦ inl old
            | inr fresh ↦ inr λ j u g.
                ev.older k j t u (rw (get-drop_expired s.ttl now s.ids k v.distinct, at, fresh))
                  gone g
          ],
        )
  ]

  -- `Add` forgets an identifier only if the store was full, and only one that has expired or that
  -- was seen no later than every other identifier which stays.
  pub add_forgets :
      (k : Str) (t : ℕ)
      → Forgot s (add s id now).0 k t
      → (s.max ≤ length s.ids)
        × ((expired s.ttl now t ≡ true)
            ⊎ ((j : Str) (u : ℕ) → j ≢ id → get (add s id now).0.ids j ≡ some u → t ≤ u))
  unfolding add
  add_forgets k t f = elim (Bool-cases (str_eq id [])) [
    | inl unnamed ↦ absurd (ground arith)
    | inr named ↦ elim (Option-cases (get s.ids id)) [
      | inr (ts, known) ↦ absurd (ground arith)
      | inl unseen ↦
          let gone : get (make_room s now) k ≡ none =
            ground (arith, get-put (make_room s now) id k now) in
          let (full, why) = get-make_room k t f.0 gone in
          (
            full,
            elim why [
              | inl old ↦ inl old
              | inr least ↦ inr λ j u ne g.
                  least j u (ground (arith, str_eq_iff id j, get-put (make_room s now) id j now))
            ],
          )
    ]
  ]
