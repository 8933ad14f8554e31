-- ===== src/Peer/Rekey/Stale.antt =====
-- A connection that breaks while a rotation is under way, in internal/peer/node.go.
use korik.Prelude.{Str, [], arith, none, some, str_key, ℕ, ◌≡◌}
use korik.GoMap.{get, get-put, remove}
use korik.Peer.Rekey.{Curve, mix_keys, remove_peer, start_session}
use korik.Peer.Rekey.Pair.{
  IsExchange, Pair, View, View-asks, View-takes_slot, left_asks, left_slot, left_takes, swap,
}

-- The pair connects again, with a new session key: the left node dials the address that it has dialed
-- before, and the right node accepts the connection from an address of its own, a new port.
abbrev pub reconnect : Pair → Str → Str → Pair
reconnect p left_addr key = record p {
  left = start_session (remove_peer p.left p.right_addr) p.right_addr key;
  right = start_session (remove_peer p.right p.left_addr) left_addr key;
  left_addr = left_addr;
  to_right = [];
  to_left = [];
}

reconnect-View :
    (p : Pair) (left_addr key e : Str)
    → left_slot p ≡ some e
    → get p.right.slots left_addr ≡ none
    → View (reconnect p left_addr key) (some key) (some key) (some e) none [] []
unfolding start_session remove_peer
reconnect-View p left_addr key e h g = ground (
  arith,
  h,
  g,
  get-put (remove p.left.sessions p.right_addr) p.right_addr p.right_addr (some key),
  get-put (remove p.right.sessions p.left_addr) left_addr left_addr (some key),
  str_key.same_iff p.right_addr p.right_addr,
  str_key.same_iff left_addr left_addr,
)

-- The right node of `p` starts a rotation, and the left one takes its message.
abbrev pub right_rotates : Curve → Pair → Str → Str → ℕ → Pair
right_rotates c p f response now =
    let q = swap (left_asks c (swap p) f) in left_takes c q (c.public_hex f) [] response now

-- A rotation that the dialing side starts, and that the end of the connection cuts off, breaks the next
-- one. It dials the same address again, and the other side, which knows it by any address now where
-- no rotation of its own waits, agrees with it on a new session key. Then the other side's first
-- rotation leaves nothing under way and the two sides with different keys, one mixed and one not,
-- whatever they draw.
pub right_rotates-reconnect :
    (c : Curve) (x : IsExchange c) (p : Pair) (k key e f response left_addr : Str) (now : ℕ)
    → View p (some k) (some k) none none [] []
    → get p.right.slots left_addr ≡ none
    → let u = right_rotates c (reconnect (left_asks c p e) left_addr key) f response now in
      View u (some (mix_keys c key (x.shared e f))) (some key) none (some f) [] []
unfolding left_asks
right_rotates-reconnect c x p k key e f response left_addr now v free =
    let asked = left_asks c p e in
    let (_, _, s, _, _, _) = View-asks c x p k e _ _ _ _ v in
    let there = reconnect asked left_addr key in
    let (a, b, d, g, h, i) = reconnect-View asked left_addr key e s free in
    let q = swap (left_asks c (swap there) f) in
    let (a', b', d', g', h', i') = View-asks c x (swap there) key f _ _ _ _ (b, a, g, d, i, h) in
    View-takes_slot c x q key e f _ _ _ _ (c.public_hex f) [] response now h'
      (b', a', g', d', i', h')
