-- ===== src/Peer/Rekey/Pair.antt =====
-- Two peers that rotate their session keys, in internal/peer/node.go: the steps of the pair, and what
-- each does to its keys, its waiting exchanges and its messages.
use korik.Prelude.{List, Option, Str, [], append-nil, arith, none, some, str_key, ℕ, ◌++◌, ◌∷◌, ◌≡◌}
use korik.GoMap.{get, get-put, get-remove}
use korik.Peer.Rekey.{
  Curve, Keys, exchange, handle_rekey, initiate_rekey, mix_keys, rotate, session_key,
}

-- What the rotation relies on: the hex of a public key parses, and X25519 gives both sides the same.
pub record IsExchange (c : Curve) : Type 0 where
  pub shared : Str → Str → Str
  pub parsed : Str → Str
  pub parse_public : (e : Str) → c.parse (c.public_hex e) ≡ some (parsed e)
  pub ecdh_public : (e f : Str) → c.ecdh e (parsed f) ≡ some (shared e f)
  pub shared_comm : (e f : Str) → shared e f ≡ shared f e

-- Two nodes, the address that each knows the other by, and the public keys under way, oldest first.
pub record Pair : Type 0 where
  pub left : Keys
  pub right : Keys
  pub right_addr : Str
  pub left_addr : Str
  pub to_right : List Str
  pub to_left : List Str

abbrev pub swap : Pair → Pair
swap p = record {
  left = p.right;
  right = p.left;
  right_addr = p.left_addr;
  left_addr = p.right_addr;
  to_right = p.to_left;
  to_left = p.to_right;
}

abbrev pub left_key : Pair → Option Str
left_key p = session_key p.left p.right_addr

abbrev pub right_key : Pair → Option Str
right_key p = session_key p.right p.left_addr

abbrev pub left_slot : Pair → Option Str
left_slot p = get p.left.slots p.right_addr

abbrev pub right_slot : Pair → Option Str
right_slot p = get p.right.slots p.left_addr

abbrev pub sent : Option Str → List Str
sent none = []
sent (some m) = m ∷ []

-- The keys, the waiting exchanges and the messages of a pair.
abbrev pub View :
    Pair → Option Str → Option Str → Option Str → Option Str → List Str → List Str → Type 0
View p left right left_waits right_waits to_right to_left =
    (left_key p ≡ left)
    × (right_key p ≡ right)
    × (left_slot p ≡ left_waits)
    × (right_slot p ≡ right_waits)
    × (p.to_right ≡ to_right)
    × (p.to_left ≡ to_left)

module _ (c : Curve) where
  -- The left node starts a rotation.
  unfoldable pub left_asks : Pair → Str → Pair
  left_asks p e =
      let (n, m) = initiate_rekey c p.left p.right_addr e in
      record p { left = n; to_right = p.to_right ++ sent m }

  -- The left node takes the message `m`, and `rest` stays under way.
  unfoldable pub left_takes : Pair → Str → List Str → Str → ℕ → Pair
  left_takes p m rest response now =
      let (n, reply) = handle_rekey c p.left p.right_addr m response now in
      record p { left = n; to_left = rest; to_right = p.to_right ++ sent reply }

  -- A step of the left node. It starts a rotation only when none of its own waits for an answer.
  pub data Step (p u : Pair) : Type 0 where
    asks : (e : Str) → left_slot p ≡ none → u ≡ left_asks p e → Step p u
    takes :
        (m : Str) (rest : List Str) (response : Str) (now : ℕ)
        → p.to_left ≡ m ∷ rest
        → u ≡ left_takes p m rest response now
        → Step p u

  pub data Run (p : Pair) : Pair → Type 0 where
    here : Run p p
    left_step : {q u : Pair} → Run p q → Step q u → Run p u
    right_step : {q u : Pair} → Run p q → Step (swap q) (swap u) → Run p u

module _ (c : Curve) (x : IsExchange c) where
  abbrev pub mixed : Str → Str → Str → Str
  mixed k e f = mix_keys c k (x.shared e f)

  handle-slot :
      (n : Keys) (addr k e f response : Str) (now : ℕ)
      → session_key n addr ≡ some k
      → get n.slots addr ≡ some e
      → let (n', reply) = handle_rekey c n addr (c.public_hex f) response now in
        (session_key n' addr ≡ some (mixed k e f)) × (get n'.slots addr ≡ none) × (reply ≡ none)
  unfolding handle_rekey exchange rotate
  handle-slot n addr k e f response now hk hs = ground (
    arith,
    hk,
    hs,
    x.parse_public f,
    x.ecdh_public e f,
    get-put n.sessions addr addr (some (mixed k e f)),
    get-remove n.slots addr addr,
    str_key.same_iff addr addr,
  )

  handle-no_slot :
      (n : Keys) (addr k f response : Str) (now : ℕ)
      → session_key n addr ≡ some k
      → get n.slots addr ≡ none
      → let (n', reply) = handle_rekey c n addr (c.public_hex f) response now in
        (session_key n' addr ≡ some (mixed k response f))
        × (get n'.slots addr ≡ none)
        × (reply ≡ some (c.public_hex response))
  unfolding handle_rekey exchange rotate
  handle-no_slot n addr k f response now hk hs = ground (
    arith,
    hk,
    hs,
    x.parse_public f,
    x.ecdh_public response f,
    get-put n.sessions addr addr (some (mixed k response f)),
    str_key.same_iff addr addr,
  )

  pub View-asks :
      (p : Pair) (k e : Str) (right right_waits : Option Str) (there back : List Str)
      → View p (some k) right none right_waits there back
      → View
          (left_asks c p e)
          (some k)
          right
          (some e)
          right_waits
          (there ++ c.public_hex e ∷ [])
          back
  unfolding left_asks initiate_rekey
  View-asks p k e right right_waits there back (hk, hr, hs, hw, ht, hb) = ground (
    arith,
    hk,
    hr,
    hs,
    hw,
    ht,
    hb,
    get-put p.left.slots p.right_addr p.right_addr e,
    str_key.same_iff p.right_addr p.right_addr,
  )

  pub View-takes_slot :
      (p : Pair) (k e f : Str) (right right_waits : Option Str) (there back : List Str) (m : Str)
      (rest : List Str) (response : Str) (now : ℕ)
      → p.to_left ≡ m ∷ rest
      → View p (some k) right (some e) right_waits there (c.public_hex f ∷ back)
      → View
          (left_takes c p m rest response now)
          (some (mixed k e f))
          right
          none
          right_waits
          there
          back
  unfolding left_takes
  View-takes_slot p k e f right right_waits there back m rest response now h
        (hk, hr, hs, hw, ht, hb) =
      ground (
        arith,
        h,
        hr,
        hw,
        ht,
        hb,
        append-nil there,
        handle-slot p.left p.right_addr k e f response now hk hs,
      )

  pub View-takes :
      (p : Pair) (k f : Str) (right right_waits : Option Str) (there back : List Str) (m : Str)
      (rest : List Str) (response : Str) (now : ℕ)
      → p.to_left ≡ m ∷ rest
      → View p (some k) right none right_waits there (c.public_hex f ∷ back)
      → View
          (left_takes c p m rest response now)
          (some (mixed k response f))
          right
          none
          right_waits
          (there ++ c.public_hex response ∷ [])
          back
  unfolding left_takes
  View-takes p k f right right_waits there back m rest response now h (hk, hr, hs, hw, ht, hb) =
      ground (arith, h, hr, hw, ht, hb, handle-no_slot p.left p.right_addr k f response now hk hs)
