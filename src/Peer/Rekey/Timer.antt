-- ===== src/Peer/Rekey/Timer.antt =====
-- The timer of the rotations in internal/peer/node.go: `maybeRekey`.
use korik.Prelude.{
  Bool, List, Option, Str, [], arith, false, if◌then◌else◌, none, refl, some, str_key, true, ℕ,
  ◌==◌, ◌∷◌, ◌≡◌,
}
use korik.GoMap.{Map, get, get-put}
use korik.Peer.Rekey.{
  Curve, Keys, addresses, initiate_rekey, is_due, maybe_rekey, rekey_all, rekey_one, session_key,
}

-- Is a rotation with this connection due, and possible?
abbrev pub is_overdue : Keys → Str → ℕ → Bool
is_overdue n addr now = elim (session_key n addr) [ none ↦ false | some _ ↦ is_due n addr now ]

module _ (c : Curve) (draw : Str → Str) (now : ℕ) where
  rekey_one-sessions :
      (state : Keys × List (Str × Str)) (a : Str)
      → (rekey_one c draw now state a).0.sessions ≡ state.0.sessions
  unfolding rekey_one initiate_rekey
  rekey_one-sessions (n, sent) a = ground arith

  -- A round leaves its own connection not overdue, and does not make another one overdue.
  rekey_one-overdue :
      (state : Keys × List (Str × Str)) (a addr : Str)
      → is_overdue (rekey_one c draw now state a).0 addr now
        ≡ (if a == addr then false else is_overdue state.0 addr now)
  unfolding rekey_one initiate_rekey is_due
  rekey_one-overdue (n, sent) a addr =
      ground (arith, get-put n.last_rekey a addr now, str_key.same_iff a addr)

  rekey_one-slot :
      (state : Keys × List (Str × Str)) (a addr : Str)
      → is_overdue state.0 addr now ≡ false
      → get (rekey_one c draw now state a).0.slots addr ≡ get state.0.slots addr
  unfolding rekey_one initiate_rekey is_due
  rekey_one-slot (n, sent) a addr h =
      ground (arith, h, get-put n.slots a addr (draw a), str_key.same_iff a addr)

  abbrev has_addr : List Str → Str → Bool
  has_addr [] addr = false
  has_addr (a ∷ addrs) addr = if a == addr then true else has_addr addrs addr

  rekey_all-overdue :
      (state : Keys × List (Str × Str)) (addrs : List Str) (addr : Str)
      → is_overdue (rekey_all c draw now state addrs).0 addr now
        ≡ (if has_addr addrs addr then false else is_overdue state.0 addr now)
  unfolding rekey_all
  rekey_all-overdue state [] addr = refl
  rekey_all-overdue state (a ∷ addrs) addr =
      let state' = rekey_one c draw now state a in
      ground (arith, rekey_all-overdue state' addrs addr, rekey_one-overdue state a addr)

  rekey_all-slot :
      (state : Keys × List (Str × Str)) (addrs : List Str) (addr : Str)
      → is_overdue state.0 addr now ≡ false
      → get (rekey_all c draw now state addrs).0.slots addr ≡ get state.0.slots addr
  unfolding rekey_all
  rekey_all-slot state [] addr h = refl
  rekey_all-slot state (a ∷ addrs) addr h =
      let state' = rekey_one c draw now state a in
      ground (
        arith,
        h,
        rekey_all-slot state' addrs addr,
        rekey_one-overdue state a addr,
        rekey_one-slot state a addr h,
      )

  addresses-get :
      (m : Map Str (Option Str)) (addr : Str)
      → has_addr (addresses m) addr ≡ false
      → get m addr ≡ none
  unfolding get
  addresses-get [] addr h = refl
  addresses-get ((a, _) ∷ m) addr h = ground (arith, h, addresses-get m addr)

  -- After `maybeRekey` no connection with a session key is due for a rotation, and one that was not
  -- due before keeps the exchange that it waits for, or none, whatever else is due.
  pub maybe_rekey-overdue :
      (n : Keys) (addr : Str)
      → let n' = (maybe_rekey c draw now n).0 in
        (is_overdue n' addr now ≡ false)
        × (is_overdue n addr now ≡ false → get n'.slots addr ≡ get n.slots addr)
  unfolding maybe_rekey
  maybe_rekey-overdue n addr = (
    ground (
      arith,
      rekey_all-overdue (n, []) (addresses n.sessions) addr,
      addresses-get n.sessions addr,
    ),
    rekey_all-slot (n, []) (addresses n.sessions) addr,
  )
