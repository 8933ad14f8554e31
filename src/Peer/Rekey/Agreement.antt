-- ===== src/Peer/Rekey/Agreement.antt =====
-- Two peers that rotate their session keys, in internal/peer/node.go, hold the same key whenever
-- nothing is under way.
use korik.Prelude.{List, Option, Str, [], arith, inl, inr, none, some, sym, ◌∷◌, ◌≡◌, ◌⊎◌}
use korik.Peer.Rekey.{Curve}
use korik.Peer.Rekey.Pair.{
  IsExchange, Pair, Run, Step, View, View-asks, View-takes, View-takes_slot, asks, here, left_asks,
  left_key, left_step, left_takes, mixed, right_key, right_step, swap, takes,
}

module _ (c : Curve) (x : IsExchange c) where
  -- Where a pair stands, seen from the side that asked first.
  data Phase (p : Pair) : Type 0 where
    idle : (k : Str) → View p (some k) (some k) none none [] [] → Phase p
    asked : (k e : Str) → View p (some k) (some k) (some e) none (c.public_hex e ∷ []) [] → Phase p
    answered :
        (k e r : Str)
        → View p (some k) (some (mixed c x k e r)) (some e) none [] (c.public_hex r ∷ [])
        → Phase p
    asked_again :
        (k e r f : Str)
        → View p
            (some k)
            (some (mixed c x k e r))
            (some e)
            (some f)
            []
            (c.public_hex r ∷ c.public_hex f ∷ [])
        → Phase p
    crossed :
        (k e f : Str)
        → View p (some k) (some k) (some e) (some f) (c.public_hex e ∷ []) (c.public_hex f ∷ [])
        → Phase p

  View-swap :
      (p : Pair) {left right left_waits right_waits : Option Str} {there back : List Str}
      → View p left right left_waits right_waits there back
      → View (swap p) right left right_waits left_waits back there
  View-swap p (a, b, d, e, f, g) = (b, a, e, d, g, f)

  -- What the two sides share does not depend on who computes it.
  answered_comm :
      (p : Pair) (k e r : Str)
      → View p (some k) (some (mixed c x k r e)) (some e) none [] (c.public_hex r ∷ [])
      → Phase p
  answered_comm p k e r v = answered k e r (ground (arith, v, x.shared_comm e r))

  -- A step of the side that asked first.
  Step-Phase : (p u : Pair) → Phase p → Step c p u → Phase u ⊎ Phase (swap u)
  Step-Phase p u (idle k v) (asks e h i) = rw i (inl (asked k e (View-asks c x p k e _ _ _ _ v)))
  Step-Phase p u (asked k e v) (asks f h i) = absurd (ground (arith, v, h))
  Step-Phase p u (answered k e r v) (asks f h i) = absurd (ground (arith, v, h))
  Step-Phase p u (asked_again k e r f v) (asks g h i) = absurd (ground (arith, v, h))
  Step-Phase p u (crossed k e f v) (asks g h i) = absurd (ground (arith, v, h))
  Step-Phase p u (idle k v) (takes m rest s now h i) = absurd (ground (arith, v, h))
  Step-Phase p u (asked k e v) (takes m rest s now h i) = absurd (ground (arith, v, h))
  Step-Phase p u (answered k e r v) (takes m rest s now h i) =
      rw i (inl (idle _ (View-takes_slot c x p k e r _ _ _ _ m rest s now h v)))
  Step-Phase p u (asked_again k e r f v) (takes m rest s now h i) =
      let w = View-takes_slot c x p k e r _ _ _ _ m rest s now h v in
      rw i (inr (asked _ f (View-swap (left_takes c p m rest s now) w)))
  Step-Phase p u (crossed k e f v) (takes m rest s now h i) =
      let w = View-takes_slot c x p k e f _ _ _ _ m rest s now h v in
      rw i (inr (answered_comm _ k f e (View-swap (left_takes c p m rest s now) w)))

  -- A step of the other side.
  Step-Phase_other : (p u : Pair) → Phase (swap p) → Step c p u → Phase u ⊎ Phase (swap u)
  Step-Phase_other p u (idle k v) (asks e h i) =
      rw i (inl (asked k e (View-asks c x p k e _ _ _ _ (View-swap (swap p) v))))
  Step-Phase_other p u (asked k e v) (asks f h i) =
      rw i (inl (crossed k f e (View-asks c x p k f _ _ _ _ (View-swap (swap p) v))))
  Step-Phase_other p u (answered k e r v) (asks f h i) =
      let w = View-asks c x p (mixed c x k e r) f _ _ _ _ (View-swap (swap p) v) in
      rw i (inr (asked_again k e r f (View-swap (left_asks c p f) w)))
  Step-Phase_other p u (asked_again k e r f v) (asks g h i) = absurd (ground (arith, v, h))
  Step-Phase_other p u (crossed k e f v) (asks g h i) = absurd (ground (arith, v, h))
  Step-Phase_other p u (idle k v) (takes m rest s now h i) = absurd (ground (arith, v, h))
  Step-Phase_other p u (asked k e v) (takes m rest s now h i) =
      let w = View-takes c x p k e _ _ _ _ m rest s now h (View-swap (swap p) v) in
      rw i (inr (answered_comm _ k e s (View-swap (left_takes c p m rest s now) w)))
  Step-Phase_other p u (answered k e r v) (takes m rest s now h i) = absurd (ground (arith, v, h))
  Step-Phase_other p u (asked_again k e r f v) (takes m rest s now h i) =
      absurd (ground (arith, v, h))
  Step-Phase_other p u (crossed k e f v) (takes m rest s now h i) =
      Step-Phase p u (crossed k f e (View-swap (swap p) v)) (takes m rest s now h i)

  Step-Either : (p u : Pair) → Phase p ⊎ Phase (swap p) → Step c p u → Phase u ⊎ Phase (swap u)
  Step-Either p u (inl h) st = Step-Phase p u h st
  Step-Either p u (inr h) st = Step-Phase_other p u h st

  flip {ℓ} : {A B : Type ℓ} → A ⊎ B → B ⊎ A
  flip (inl a) = inr a
  flip (inr b) = inl b

  Run-Either : (p u : Pair) → Phase p ⊎ Phase (swap p) → Run c p u → Phase u ⊎ Phase (swap u)
  Run-Either p _ h here = h
  Run-Either p u h (left_step {q} r st) = Step-Either q u (Run-Either p q h r) st
  Run-Either p u h (right_step {q} r st) =
      flip (Step-Either (swap q) (swap u) (flip (Run-Either p q h r)) st)

  Phase-agree : (p : Pair) → Phase p → p.to_right ≡ [] → p.to_left ≡ [] → left_key p ≡ right_key p
  Phase-agree p (idle k v) h g = ground (arith, v)
  Phase-agree p (asked k e v) h g = absurd (ground (arith, v, h))
  Phase-agree p (answered k e r v) h g = absurd (ground (arith, v, g))
  Phase-agree p (asked_again k e r f v) h g = absurd (ground (arith, v, g))
  Phase-agree p (crossed k e f v) h g = absurd (ground (arith, v, g))

-- Two peers that begin with the same session key and nothing under way, and then start rotations and
-- take each other's messages in any order, each starting one only when none of its own waits for an
-- answer, hold the same session key whenever no message is under way.
pub keys-agree :
    (c : Curve) (x : IsExchange c) (p u : Pair) (k : Str)
    → View p (some k) (some k) none none [] []
    → Run c p u
    → u.to_right ≡ []
    → u.to_left ≡ []
    → left_key u ≡ right_key u
keys-agree c x p u k start run h g = elim (Run-Either c x p u (inl (idle k start)) run) [
  | inl ph ↦ Phase-agree c x u ph h g
  | inr ph ↦ sym (Phase-agree c x (swap u) ph g h)
]
