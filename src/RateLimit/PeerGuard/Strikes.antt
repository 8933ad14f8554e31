-- ===== src/RateLimit/PeerGuard/Strikes.antt =====
-- The strikes of `PeerGuard` in internal/ratelimit/ratelimit.go: three refused messages block a peer
-- until it is unblocked.
use korik.RateLimit.{key_of, max_strikes_before_block}
use korik.RateLimit.PeerGuard.{
  PeerGuard, PeerState, allow, charge, fresh, get-allow, is_blocked, meter, peer, peer_rate,
  strikes, unblock,
}
use korik.RateLimit.Bucket.{passed, refill, spend}
use korik.Prelude.{
  Bool-cases, List, Option-cases, Str, [], ap, arith, false, if◌then◌else◌, inl, inr, leb, min,
  none, not, refl, some, str_eq, str_eq_iff, str_key, true, ℕ, ◌&&◌, ◌+◌, ◌∙◌, ◌∷◌, ◌≡◌, ◌≤◌,
}
use korik.GoMap.{get, get-remove}

-- A peer is blocked exactly when it has its three strikes, and its bucket holds 100 tokens at most.
pub record IsJust (ps : PeerState) : Type 0 where
  pub capped : ps.tokens ≤ peer_rate.cap
  pub blocking : ps.blocked ≡ leb max_strikes_before_block ps.strikes
  pub bounded : ps.strikes ≤ max_strikes_before_block

pub record IsValid (g : PeerGuard) : Type 0 where
  pub each : (name : Str) (ps : PeerState) → get g.peers name ≡ some ps → IsJust ps

charge-IsJust : (ps : PeerState) (now : ℕ) → IsJust ps → IsJust (charge ps now).0
unfolding charge spend refill
charge-IsJust ps now v = ground arith

peer-IsJust : (g : PeerGuard) (now : ℕ) (name : Str) → IsValid g → IsJust (peer g now name)
peer-IsJust g now name v = elim (Option-cases (get g.peers name)) [
  | inl unseen ↦
      rw (unseen, peer) (record { capped = omega arith; blocking = refl; bounded = omega arith })
  | inr (ps, at) ↦ rw (at, peer) (v.each name ps at)
]

-- `Allow` keeps every peer's record just: blocked exactly from the third strike on, never more
-- strikes than three, and never more tokens than a full bucket.
pub allow-IsValid : (g : PeerGuard) (jid : Str) (now : ℕ) → IsValid g → IsValid (allow g jid now).0
allow-IsValid g jid now v = record {
  each = λ name ps h. elim (Bool-cases (str_eq (key_of jid) name)) [
    | inr other ↦ v.each name ps (ground (arith, get-allow g jid now name))
    | inl same ↦
        let p = peer g now (key_of jid) in
        let e : (charge p now).0 ≡ ps = ground (arith, get-allow g jid now name) in
        rw (← e) (charge-IsJust p now (peer-IsJust g now (key_of jid) v))
  ];
}

-- The messages of a peer that are refused in a run.
unfoldable pub refused : Str → PeerGuard → List (Str × ℕ) → ℕ
refused name g [] = 0
refused name g ((other, now) ∷ calls) =
    let (g', ok) = allow g other now in
    (if str_eq (key_of other) name && not ok then 1 else 0) + refused name g' calls

unfoldable pub run : PeerGuard → List (Str × ℕ) → PeerGuard
run g [] = g
run g ((jid, now) ∷ calls) = run (allow g jid now).0 calls

charge-strikes :
    (ps : PeerState) (now : ℕ)
    → IsJust ps
    → (charge ps now).0.strikes
      ≡ min max_strikes_before_block (ps.strikes + (if (charge ps now).1 then 0 else 1))
unfolding charge
charge-strikes ps now v = ground (arith, v)

answer-allow :
    (g : PeerGuard) (jid : Str) (now : ℕ)
    → (allow g jid now).1 ≡ (charge (peer g now (key_of jid)) now).1
unfolding allow
answer-allow g jid now = refl

strikes-peer : (g : PeerGuard) (now : ℕ) (name : Str) → strikes g name ≡ (peer g now name).strikes
unfolding strikes
strikes-peer g now name = ground arith

strikes-allow :
    (g : PeerGuard) (jid : Str) (now : ℕ) (name : Str)
    → IsValid g
    → strikes (allow g jid now).0 name
      ≡ min max_strikes_before_block
          (strikes g name + (if str_eq (key_of jid) name && not (allow g jid now).1 then 1 else 0))
strikes-allow g jid now name v = elim (Bool-cases (str_eq (key_of jid) name)) [
  | inr other ↦ rw other (strikes-other other)
  | inl same ↦ rw same (strikes-same same)
]
  where
    p : PeerState
    p = peer g now (key_of jid)

    strikes-other :
        str_eq (key_of jid) name ≡ false
        → strikes (allow g jid now).0 name ≡ min max_strikes_before_block (strikes g name + 0)
    strikes-other other =
        let just = peer-IsJust g now name v in
        let e : strikes (allow g jid now).0 name ≡ strikes g name =
          unfold strikes in ground (arith, get-allow g jid now name) in
        omega (arith, e, just.bounded, strikes-peer g now name)

    strikes-same :
        str_eq (key_of jid) name ≡ true
        → strikes (allow g jid now).0 name
          ≡ min max_strikes_before_block
              (strikes g name + (if true && not (allow g jid now).1 then 1 else 0))
    strikes-same same =
        let e : strikes (allow g jid now).0 name ≡ (charge p now).0.strikes =
          unfold strikes in ground (arith, get-allow g jid now name) in
        ground (
          arith,
          e,
          charge-strikes p now (peer-IsJust g now (key_of jid) v),
          answer-allow g jid now,
          strikes-peer g now name,
          (str_eq_iff (key_of jid) name).0 same,
        )

-- In a run, the strikes of a peer are those that it had and one for each message refused to it, up
-- to three: messages of other peers, and messages that pass, do not count.
pub strikes-run :
    (g : PeerGuard) (calls : List (Str × ℕ)) (name : Str)
    → IsValid g
    → strikes (run g calls) name
      ≡ min max_strikes_before_block (strikes g name + refused name g calls)
unfolding run refused
strikes-run g [] name v =
    let just = peer-IsJust g 0 name v in omega (arith, just.bounded, strikes-peer g 0 name)
strikes-run g ((jid, now) ∷ calls) name v =
    let g' = (allow g jid now).0 in
    let ih = strikes-run g' calls name (allow-IsValid g jid now v) in
    omega (arith, ih, strikes-allow g jid now name v)

run-IsValid : (g : PeerGuard) (calls : List (Str × ℕ)) → IsValid g → IsValid (run g calls)
unfolding run
run-IsValid g [] v = v
run-IsValid g ((jid, now) ∷ calls) v =
    run-IsValid (allow g jid now).0 calls (allow-IsValid g jid now v)

blocked-strikes :
    (g : PeerGuard) (name : Str)
    → IsValid g
    → is_blocked g name ≡ leb max_strikes_before_block (strikes g name)
unfolding is_blocked strikes
blocked-strikes g name v = elim (Option-cases (get g.peers name)) [
  | inl unseen ↦ ground (arith, unseen)
  | inr (ps, at) ↦ ground (arith, at, (v.each name ps at).blocking)
]

-- From a guard that knows no strikes of a peer, a run blocks the peer exactly if it refuses three
-- of its messages or more.
pub blocked-run :
    (g : PeerGuard) (calls : List (Str × ℕ)) (name : Str)
    → IsValid g
    → strikes g name ≡ 0
    → is_blocked (run g calls) name ≡ leb 3 (refused name g calls)
blocked-run g calls name v clean =
    let e = strikes-run g calls name v in
    let b = blocked-strikes (run g calls) name (run-IsValid g calls v) in ground (arith, e, b)

blocked-allow :
    (g : PeerGuard) (jid : Str) (now : ℕ) (name : Str)
    → is_blocked g name ≡ true
    → (is_blocked (allow g jid now).0 name ≡ true)
      × (str_eq (key_of jid) name && (allow g jid now).1 ≡ false)
unfolding is_blocked charge
blocked-allow g jid now name b =
    ground (arith, get-allow g jid now name, answer-allow g jid now, str_eq_iff (key_of jid) name)

passed_blocked :
    (name : Str) (g : PeerGuard) (calls : List (Str × ℕ))
    → is_blocked g name ≡ true
    → (passed meter name g calls ≡ 0) × (is_blocked (run g calls) name ≡ true)
unfolding passed run
passed_blocked name g [] b = (refl, b)
passed_blocked name g ((jid, now) ∷ calls) b =
    let (b', no_pass) = blocked-allow g jid now name b in
    let (none_pass, still) = passed_blocked name (allow g jid now).0 calls b' in
    (rw (no_pass, none_pass) (omega arith), still)

charge-fresh : (now : ℕ) → (charge (fresh now) now).1 ≡ true
unfolding charge spend refill
charge-fresh now = ground arith

-- A blocked peer stays blocked, and nothing that it sends passes, until it is unblocked: then its
-- next message passes, if its identifier is not empty.
pub blocked_until_unblock :
    (g : PeerGuard) (jid : Str) (now : ℕ) (calls : List (Str × ℕ))
    → is_blocked g jid ≡ true
    → str_eq jid [] ≡ false
    → (passed meter jid g calls ≡ 0)
      × (is_blocked (run g calls) jid ≡ true)
      × ((allow (unblock (run g calls) jid) jid now).1 ≡ true)
blocked_until_unblock g jid now calls b named =
    let (none_pass, still) = passed_blocked jid g calls b in
    (none_pass, still, allow-unblock (run g calls))
  where
    name : key_of jid ≡ jid
    name = unfold key_of in rw named

    allow-unblock : (g : PeerGuard) → (allow (unblock g jid) jid now).1 ≡ true
    allow-unblock g =
        let gone : get (unblock g jid).peers jid ≡ none =
          unfold unblock in ground (arith, get-remove g.peers jid jid, str_eq_iff jid jid) in
        let e : peer (unblock g jid) now jid ≡ fresh now = ground (arith, gone) in
        answer-allow (unblock g jid) jid now
        ∙ rw name (ap (λ (p : PeerState). (charge p now).1) e ∙ charge-fresh now)
