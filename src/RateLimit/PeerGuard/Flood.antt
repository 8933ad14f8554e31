-- ===== src/RateLimit/PeerGuard/Flood.antt =====
-- What `PeerGuard` of internal/ratelimit/ratelimit.go lets through: a full bucket at once, and one
-- message each 0.6 seconds after that.
use korik.RateLimit.{key_of}
use korik.RateLimit.PeerGuard.{
  PeerGuard, PeerState, allow, bucket_of, charge, fresh, meter, peer, peer_rate,
}
use korik.RateLimit.Bucket.{passed, refill, spend}
use korik.Prelude.{
  List, Str, [], ap, arith, false, none, refl, some, str_eq_iff, str_key, suc, true, zero, ℕ, ◌*◌,
  ◌++◌, ◌+◌, ◌∙◌, ◌∷◌, ◌≡◌, ◌≤◌,
}
use korik.GoMap.{get, get-put}

-- n messages in the same instant
unfoldable pub burst : Str → ℕ → ℕ → List (Str × ℕ)
burst jid t zero = []
burst jid t (suc n) = (jid, t) ∷ burst jid t n

-- n messages, 0.6 seconds apart, the first of them 0.6 seconds after `t`
unfoldable pub paced : Str → ℕ → ℕ → List (Str × ℕ)
paced jid t zero = []
paced jid t (suc n) = (jid, t + 600_000_000) ∷ paced jid (t + 600_000_000) n

-- The peer is known and not blocked, and had so many tokens when it was last charged, at `t`.
record Holds (g : PeerGuard) (name : Str) (tokens t : ℕ) : Type 0 where
  state : PeerState
  at : get g.peers name ≡ some state
  holds : state.tokens ≡ tokens * 60_000_000_000
  since : state.last ≡ t
  free : state.blocked ≡ false

-- A message that finds a token in the bucket passes, and takes it.
charge_passes :
    (ps : PeerState) (now k : ℕ)
    → ps.blocked ≡ false
    → refill peer_rate now (bucket_of ps) ≡ suc k * 60_000_000_000
    → ((charge ps now).1 ≡ true)
      × ((charge ps now).0.tokens ≡ k * 60_000_000_000)
      × ((charge ps now).0.last ≡ now)
      × ((charge ps now).0.blocked ≡ false)
unfolding charge spend
charge_passes ps now k free found = ground arith

refilled :
    (ps : PeerState) (t : ℕ)
    → ps.tokens ≡ 0
    → ps.last ≡ t
    → refill peer_rate (t + 600_000_000) (bucket_of ps) ≡ 1 * 60_000_000_000
unfolding refill
refilled ps t h k = ground arith

unspent :
    (ps : PeerState) (t k : ℕ)
    → ps.tokens ≡ k * 60_000_000_000
    → ps.last ≡ t
    → k ≤ 100
    → refill peer_rate t (bucket_of ps) ≡ k * 60_000_000_000
unfolding refill
unspent ps t k h l le = ground arith

module _ (jid : Str) where
  Holds-allow :
      (g : PeerGuard) (now k : ℕ)
      → (peer g now (key_of jid)).blocked ≡ false
      → refill peer_rate now (bucket_of (peer g now (key_of jid))) ≡ suc k * 60_000_000_000
      → ((allow g jid now).1 ≡ true) × Holds (allow g jid now).0 (key_of jid) k now
  unfolding allow
  Holds-allow g now k free found =
      let ps = peer g now (key_of jid) in
      let (pass, tokens, last, blocked) = charge_passes ps now k free found in
      (
        pass,
        record {
          state = (charge ps now).0;
          at = ground (
            arith,
            get-put g.peers (key_of jid) (key_of jid) (charge ps now).0,
            str_eq_iff (key_of jid) (key_of jid),
          );
          holds = tokens;
          since = last;
          free = blocked;
        },
      )

  passed-paced :
      (g : PeerGuard) (t n : ℕ)
      → Holds g (key_of jid) 0 t
      → passed meter (key_of jid) g (paced jid t n) ≡ n
  unfolding passed paced
  passed-paced g t zero h = refl
  passed-paced g t (suc n) h =
      let now = t + 600_000_000 in
      let e : peer g now (key_of jid) ≡ h.state = ground (arith, h.at) in
      let (pass, h') =
        Holds-allow g now 0 (ap (λ (p : PeerState). p.blocked) e ∙ h.free)
          (rw e (refilled h.state t h.holds h.since)) in
      let rest = passed-paced (allow g jid now).0 now n h' in
      rw (pass, (str_eq_iff (key_of jid) (key_of jid)).1 refl, rest) (omega arith)

  passed-burst :
      (g : PeerGuard) (t k n : ℕ)
      → k ≤ 100
      → Holds g (key_of jid) k t
      → passed meter (key_of jid) g (burst jid t k ++ paced jid t n) ≡ k + n
  unfolding passed burst
  passed-burst g t zero n le h = passed-paced g t n h ∙ omega arith
  passed-burst g t (suc k) n le h =
      let e : peer g t (key_of jid) ≡ h.state = ground (arith, h.at) in
      let (pass, h') =
        Holds-allow g t k (ap (λ (p : PeerState). p.blocked) e ∙ h.free)
          (rw e (unspent h.state t (suc k) h.holds h.since le)) in
      let rest = passed-burst (allow g jid t).0 t k n (omega arith) h' in
      rw (pass, (str_eq_iff (key_of jid) (key_of jid)).1 refl, rest) (omega arith)

  first_burst :
      (g : PeerGuard) (t k n : ℕ)
      → k ≡ 99
      → get g.peers (key_of jid) ≡ none
      → passed meter (key_of jid) g (burst jid t (suc k) ++ paced jid t n) ≡ suc k + n
  unfolding passed burst
  first_burst g t k n all unknown =
      let e : peer g t (key_of jid) ≡ fresh t = ground (arith, unknown) in
      let (pass, h') =
        Holds-allow g t k (ap (λ (p : PeerState). p.blocked) e)
          (rw e (unfold refill in ground arith)) in
      let rest = passed-burst (allow g jid t).0 t k n (omega arith) h' in
      rw (pass, (str_eq_iff (key_of jid) (key_of jid)).1 refl, rest) (omega arith)

  -- A peer that the guard does not know may send 100 messages at once and then one every 0.6
  -- seconds for ever: all of them pass. In its first minute that makes 200.
  pub passed-flood :
      (g : PeerGuard) (t n : ℕ)
      → get g.peers (key_of jid) ≡ none
      → passed meter (key_of jid) g (burst jid t 100 ++ paced jid t n) ≡ 100 + n
  passed-flood g t n unknown = first_burst g t 99 n refl unknown
