-- ===== src/Group/Saved.antt =====
-- The file of internal/group/group.go: what a process that opens the store again finds, and the
-- invariant that every operation keeps.
use mathlib.Core.Option.{some-injective}
use mathlib.Core.Path.{subst}
use korik.Prelude.{
  Bool-cases, List, Option, Option-cases, Str, [], ap, append-nil, append_assoc, arith, filterb,
  if◌then◌else◌, inl, inr, length, map, none, not, refl, some, str_eq, str_eq_iff, str_key, sym, ℕ,
  ◌++◌, ◌||◌, ◌∙◌, ◌∷◌, ◌≟◌, ◌≡◌, ◌≢◌,
}
use korik.GoMap.{IsMap, IsMap-middle, Map, get, put, put-IsMap, put_new}
use korik.Storage.{Codec, Outcome, Stored, absent, broken, found, load, save, written}
use korik.Group.{
  Room, Store, add, add_member, create, has_member, named, new, rekey, remove_member, save_locked,
  stored_rooms,
}

-- Each room stands under its identifier, which has bytes.
abbrev Keyed : Map Str Room → Type 0
Keyed [] = Unit
Keyed ((id, r) ∷ rooms) = (r.id ≡ id) × (id ≢ []) × Keyed rooms

pub record IsValid (s : Store) : Type 0 where
  pub distinct : IsMap s.rooms
  pub keyed : Keyed s.rooms

put-Keyed :
    (rooms : Map Str Room) (id : Str) (r : Room)
    → Keyed rooms
    → r.id ≡ id
    → id ≢ []
    → Keyed (put rooms id r)
unfolding put
put-Keyed [] id r k e n = (e, n, tt)
put-Keyed ((j, r') ∷ rooms) id r (e', n', k) e n =
    ground (arith, e, n, e', n', k, put-Keyed rooms id r k e n)

get-Keyed :
    (rooms : Map Str Room) (id : Str) (r : Room)
    → Keyed rooms
    → get rooms id ≡ some r
    → (r.id ≡ id) × (id ≢ [])
unfolding get
get-Keyed [] id r k h = absurd (ground arith)
get-Keyed ((j, r') ∷ rooms) id r (e, n, k) h =
    ground (arith, str_eq_iff j id, h, e, n, get-Keyed rooms id r k)

put-IsValid :
    (s : Store) (id : Str) (r : Room) (file : Option Str)
    → IsValid s
    → r.id ≡ id
    → id ≢ []
    → IsValid (record { rooms = put s.rooms id r; file = file })
put-IsValid s id r file v e n = record {
  distinct = put-IsMap s.rooms id r v.distinct;
  keyed = put-Keyed s.rooms id r v.keyed e n;
}

stored_rooms-IsValid :
    (stored : List (Option Room)) (rooms : Map Str Room)
    → IsMap rooms
    → Keyed rooms
    → IsMap (stored_rooms stored rooms) × Keyed (stored_rooms stored rooms)
unfolding stored_rooms
stored_rooms-IsValid [] rooms d k = (d, k)
stored_rooms-IsValid (none ∷ rest) rooms d k = stored_rooms-IsValid rest rooms d k
stored_rooms-IsValid (some r ∷ rest) rooms d k = elim (Bool-cases (str_eq r.id [])) [
  | inl nameless ↦ rw nameless (stored_rooms-IsValid rest rooms d k)
  | inr named ↦ rw named (
      stored_rooms-IsValid rest (put rooms r.id r) (put-IsMap rooms r.id r d)
        (put-Keyed rooms r.id r k refl (λ e. ground (arith, e, named, str_eq_iff r.id []))))
]

-- The rooms of a store are put back in the order in which they were written.
stored_rooms-map :
    (before rooms : Map Str Room)
    → IsMap (before ++ rooms)
    → Keyed rooms
    → stored_rooms (map (λ e. some e.1) rooms) before ≡ before ++ rooms
unfolding stored_rooms
stored_rooms-map before [] d k = sym (append-nil before)
stored_rooms-map before ((id, r) ∷ rooms) d (e, n, k) =
    let step : (if not (str_eq r.id []) then put before r.id r else before)
        ≡ before ++ (id, r) ∷ [] =
      ground
        (arith, e, n, str_eq_iff r.id [], put_new before id r (IsMap-middle before rooms id r d)) in
    let assoc = append_assoc before ((id, r) ∷ []) rooms in
    ap (stored_rooms (map (λ e. some e.1) rooms)) step
    ∙ stored_rooms-map (before ++ (id, r) ∷ []) rooms (rw assoc d) k
    ∙ assoc

-- The operations that change the store, with the random bytes that they get.
pub data Operation : Type 0 where
  creates : Str → Str → Option (List ℕ) → Option (List ℕ) → ℕ → Operation
  adds : Option Room → Operation
  adds_member removes_member : Str → Str → Operation
  rekeys : Str → Option (List ℕ) → Operation

module _ (codec : Codec (List (Option Room))) where
  unfoldable pub operate : Store → Operation → Outcome → Store
  operate s (creates name jid key id_bytes now) o = (create codec s name jid key id_bytes now o).0
  operate s (adds room) o = (add codec s room o).0
  operate s (adds_member room_id jid) o = (add_member codec s room_id jid o).0
  operate s (removes_member room_id jid) o = (remove_member codec s room_id jid o).0
  operate s (rekeys room_id key) o = (rekey codec s room_id key o).0

  -- A store that `New` opens has the invariant, whatever its file says.
  pub new-IsValid : (file : Option Str) (s : Store) → new codec file ≡ some s → IsValid s
  unfolding new
  new-IsValid file s h = opened (load codec file) h
    where
      opened :
          (x : Stored (List (Option Room)))
          → elim x [
            | absent ↦ some (record { rooms = []; file = file })
            | broken ↦ none
            | found stored ↦ some (record { rooms = stored_rooms stored []; file = file })
          ]
            ≡ some s
          → IsValid s
      opened absent e = subst IsValid (some-injective _ _ e) (record { distinct = tt; keyed = tt })
      opened broken e = absurd (ground arith)
      opened (found stored) e =
          let (d, k) = stored_rooms-IsValid stored [] tt tt in
          subst IsValid (some-injective _ _ e) (record { distinct = d; keyed = k })

  -- What an operation does to the store: nothing, or it sets one room and saves.
  data Effect (s : Store) (o : Outcome) (s' : Store) : Type 0 where
    nothing : s' ≡ s → Effect s o s'
    sets :
        (id : Str) (r : Room)
        → r.id ≡ id
        → id ≢ []
        → s' ≡ (save_locked codec (record s { rooms = put s.rooms id r }) o).0
        → Effect s o s'

  set_known :
      (s : Store) (room_id : Str) (o : Outcome) (x : Room) (f : Room → Room)
      → IsValid s
      → get s.rooms room_id ≡ some x
      → ((r : Room) → (f r).id ≡ r.id)
      → Effect s o (save_locked codec (record s { rooms = put s.rooms room_id (f x) }) o).0
  set_known s room_id o x f v there keeps =
      let (e, n) = get-Keyed s.rooms room_id x v.keyed there in
      sets room_id (f x) (keeps x ∙ e) n refl

  operate-Effect :
      (s : Store) (op : Operation) (o : Outcome) → IsValid s → Effect s o (operate s op o)
  unfolding operate create add add_member remove_member rekey
  operate-Effect s (creates name jid none id_bytes now) o v = nothing (ground arith)
  operate-Effect s (creates name jid (some k) none now) o v = nothing (ground arith)
  operate-Effect s (creates name jid (some k) (some raw) now) o v =
      elim (Bool-cases (str_eq name [])) [
        | inl nameless ↦ nothing (ground (arith, nameless))
        | inr fine ↦ rw (operate, fine) (sets _ _ refl (λ e. ground (arith, e)) refl)
      ]
  operate-Effect s (adds none) o v = nothing refl
  operate-Effect s (adds (some r)) o v =
      elim (Bool-cases (str_eq r.id [] || not (length r.key ≟ 32))) [
        | inl bad ↦ nothing (ground (arith, bad))
        | inr fine ↦
            rw (operate, fine)
              (sets r.id r refl (λ e. ground (arith, fine, e, str_eq_iff r.id [])) refl)
      ]
  operate-Effect s (adds_member room_id jid) o v = elim (Option-cases (get s.rooms room_id)) [
    | inl unknown ↦ nothing (ground (arith, unknown))
    | inr (x, there) ↦ elim (Bool-cases (has_member x.members jid)) [
      | inl in_it ↦ nothing (ground (arith, there, in_it))
      | inr out ↦
          rw (operate, there, out)
            (set_known s room_id o x (λ r. record r { members = r.members ++ jid ∷ [] }) v there
              (λ r. refl))
    ]
  ]
  operate-Effect s (removes_member room_id jid) o v = elim (Option-cases (get s.rooms room_id)) [
    | inl unknown ↦ nothing (ground (arith, unknown))
    | inr (x, there) ↦
        rw (operate, there)
          (set_known s room_id o x
            (λ r. record r { members = filterb (λ m. not (str_eq m jid)) r.members }) v there
            (λ r. refl))
  ]
  operate-Effect s (rekeys room_id none) o v = nothing (ground arith)
  operate-Effect s (rekeys room_id (some k)) o v = elim (Option-cases (get s.rooms room_id)) [
    | inl unknown ↦ nothing (ground (arith, unknown))
    | inr (x, there) ↦
        rw (operate, there)
          (set_known s room_id o x (λ r. record r { key = k }) v there (λ r. refl))
  ]

  -- Every operation keeps the invariant, whether or not it is saved: no identifier twice, and each
  -- room under its own identifier, which is not empty.
  pub operate-IsValid :
      (s : Store) (op : Operation) (o : Outcome) → IsValid s → IsValid (operate s op o)
  operate-IsValid s op o v = elim (operate-Effect s op o v) [
    | nothing e ↦ rw e v
    | sets id r e n same ↦ rw same (unfold save_locked in put-IsValid s id r _ v e n)
  ]

  -- A store with the invariant that is what its file says is again what its file says after an
  -- operation whose write succeeds, if the encoding keeps the rooms.
  pub new-operate :
      (s : Store) (op : Operation)
      → IsValid s
      → new codec s.file ≡ some s
      → let s' = operate s op written in
        codec.decode (codec.encode (map (λ e. some e.1) s'.rooms))
          ≡ some (map (λ e. some e.1) s'.rooms)
        → new codec s'.file ≡ some s'
  unfolding new save_locked save load
  new-operate s op v h kept = elim (operate-Effect s op written v) [
    | nothing e ↦ rw e h
    | sets id r e n same ↦ ground (
      arith,
      same,
      kept,
      stored_rooms-map [] (put s.rooms id r) (put-IsMap s.rooms id r v.distinct)
          (put-Keyed s.rooms id r v.keyed e n),
    )
  ]
