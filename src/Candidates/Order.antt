-- ===== src/Candidates/Order.antt =====
-- The order of candidates in internal/nat/candidate.go, and which of them stay.
use mathlib.Core.List.Permᴰ
use korik.Prelude.{
  All, Bool, Bool-cases, List, Option, Permᴰ, Str, [], arith, false, if◌then◌else◌, inl, inr,
  int_eq_iff, int_key, leb_ℤ, ltb_ℤ, negsuc, none, pos, refl, some, str_eq, str_eq_iff, str_key,
  true, ℕ, ℤ, ◌+◌, ◌∙◌, ◌∷◌, ◌≡◌, ◌≤◌,
}
use korik.Candidates.{
  Candidate, Net, dedup_from, dedup_key, deduplicate, goes_first, insert, prioritize,
}
use korik.GoMap.{Map, get, get-put, put}

abbrev AtMost : ℤ → Candidate → Type 0
AtMost p c = leb_ℤ c.priority p ≡ true

-- From the highest priority to the lowest.
abbrev pub IsSorted : List Candidate → Type 0
IsSorted [] = Unit
IsSorted (c ∷ cands) = All (AtMost c.priority) cands × IsSorted cands

leb_ℤ_trans : (a b c : ℤ) → leb_ℤ a b ≡ true → leb_ℤ b c ≡ true → leb_ℤ a c ≡ true
leb_ℤ_trans (pos a) (pos b) (pos c) h k = ground arith
leb_ℤ_trans (pos a) (pos b) (negsuc c) h k = absurd (ground (arith, k))
leb_ℤ_trans (pos a) (negsuc b) c h k = absurd (ground (arith, h))
leb_ℤ_trans (negsuc a) b (pos c) h k = refl
leb_ℤ_trans (negsuc a) (pos b) (negsuc c) h k = absurd (ground (arith, k))
leb_ℤ_trans (negsuc a) (negsuc b) (negsuc c) h k = ground arith

leb_ℤ_refl : (a : ℤ) → leb_ℤ a a ≡ true
leb_ℤ_refl (pos a) = ground arith
leb_ℤ_refl (negsuc a) = ground arith

not_before : (a b : ℤ) → ltb_ℤ b a ≡ false → leb_ℤ a b ≡ true
not_before (pos a) (pos b) h = ground arith
not_before (pos a) (negsuc b) h = absurd (ground (arith, h))
not_before (negsuc a) (pos b) h = refl
not_before (negsuc a) (negsuc b) h = ground arith

before : (a b : ℤ) → ltb_ℤ a b ≡ true → leb_ℤ a b ≡ true
before (pos a) (pos b) h = ground arith
before (pos a) (negsuc b) h = absurd (ground (arith, h))
before (negsuc a) (pos b) h = refl
before (negsuc a) (negsuc b) h = ground arith

-- Who goes first has no lower priority.
goes_first-AtMost : (c d : Candidate) → goes_first d c ≡ true → AtMost d.priority c
unfolding goes_first
goes_first-AtMost c d h = ground (
  arith,
  h,
  before c.priority d.priority,
  int_eq_iff d.priority c.priority,
  leb_ℤ_refl c.priority,
)

stays_behind : (c d : Candidate) → goes_first d c ≡ false → AtMost c.priority d
unfolding goes_first
stays_behind c d h = ground (
  arith,
  h,
  not_before d.priority c.priority,
  int_eq_iff d.priority c.priority,
  leb_ℤ_refl c.priority,
)

All-mono :
    {P Q : Candidate → Type 0} (cands : List Candidate)
    → ((c : Candidate) → P c → Q c)
    → All P cands
    → All Q cands
All-mono [] f h = tt
All-mono (c ∷ cands) f h = (f c h.0, All-mono cands f h.1)

All-insert :
    (P : Candidate → Type 0) (c : Candidate) (cands : List Candidate)
    → P c
    → All P cands
    → All P (insert c cands)
unfolding insert
All-insert P c [] p h = (p, tt)
All-insert P c (d ∷ cands) p h = step (All-insert P c cands p h.1) (goes_first d c)
  where
    step :
        All P (insert c cands)
        → (first : Bool) → All P (if first then d ∷ insert c cands else c ∷ d ∷ cands)
    step rest true = (h.0, rest)
    step rest false = (p, h)

insert-IsSorted :
    (c : Candidate) (cands : List Candidate) → IsSorted cands → IsSorted (insert c cands)
unfolding insert
insert-IsSorted c [] s = (tt, tt)
insert-IsSorted c (d ∷ cands) s =
    step (insert-IsSorted c cands s.1) (goes_first d c) (goes_first-AtMost c d) (stays_behind c d)
  where
    step :
        IsSorted (insert c cands)
        → (first : Bool) → (first ≡ true → AtMost d.priority c)
        → (first ≡ false → AtMost c.priority d)
        → IsSorted (if first then d ∷ insert c cands else c ∷ d ∷ cands)
    step rest true le _ = (All-insert (AtMost d.priority) c cands (le refl) s.0, rest)
    step rest false _ le = (
      (
        le refl,
        All-mono cands (λ e h. leb_ℤ_trans e.priority d.priority c.priority h (le refl)) s.0,
      ),
      s,
    )

insert-Permᴰ : (c : Candidate) (cands : List Candidate) → Permᴰ (insert c cands) (c ∷ cands)
unfolding insert
insert-Permᴰ c [] = Permᴰ.refl (c ∷ [])
insert-Permᴰ c (d ∷ cands) = step (insert-Permᴰ c cands) (goes_first d c)
  where
    step :
        Permᴰ (insert c cands) (c ∷ cands)
        → (first : Bool)
        → Permᴰ (if first then d ∷ insert c cands else c ∷ d ∷ cands) (c ∷ d ∷ cands)
    step rest true = Permᴰ.trans (Permᴰ.cons refl rest) (Permᴰ.swap refl refl)
    step rest false = Permᴰ.refl (c ∷ d ∷ cands)

prioritize-Permᴰ : (cands : List Candidate) → Permᴰ (prioritize cands) cands
unfolding prioritize
prioritize-Permᴰ [] = Permᴰ.refl []
prioritize-Permᴰ (c ∷ cands) =
    Permᴰ.trans (insert-Permᴰ c (prioritize cands)) (Permᴰ.cons refl (prioritize-Permᴰ cands))

prioritize-IsSorted : (cands : List Candidate) → IsSorted (prioritize cands)
unfolding prioritize
prioritize-IsSorted [] = tt
prioritize-IsSorted (c ∷ cands) = insert-IsSorted c (prioritize cands) (prioritize-IsSorted cands)

module _ (net : Net) where
  -- The first candidate with a key.
  unfoldable pub first_with : Str → List Candidate → Option Candidate
  first_with key [] = none
  first_with key (c ∷ cands) =
      let rest = first_with key cands in if str_eq (dedup_key net c) key then some c else rest

  unfoldable pub count_key : Str → List Candidate → ℕ
  count_key key [] = 0
  count_key key (c ∷ cands) = (if str_eq (dedup_key net c) key then 1 else 0) + count_key key cands

  -- The first candidate of each key stays, if the key was not seen before.
  first_with-dedup :
      (seen : Map Str Bool) (cands : List Candidate) (key : Str)
      → first_with key (dedup_from net seen cands)
        ≡ elim (get seen key) [ some _ ↦ none | none ↦ first_with key cands ]
  unfolding first_with dedup_from
  first_with-dedup seen [] key = ground arith
  first_with-dedup seen (c ∷ cands) key = ground (
    arith,
    first_with-dedup seen cands key,
    first_with-dedup (put seen (dedup_key net c) true) cands key,
    get-put seen (dedup_key net c) key true,
    str_eq_iff (dedup_key net c) key,
  )

  count-dedup :
      (seen : Map Str Bool) (cands : List Candidate) (key : Str)
      → count_key key (dedup_from net seen cands) ≤ elim (get seen key) [ some _ ↦ 0 | none ↦ 1 ]
  unfolding count_key dedup_from
  count-dedup seen [] key = ground arith
  count-dedup seen (c ∷ cands) key = ground (
    arith,
    count-dedup seen cands key,
    count-dedup (put seen (dedup_key net c) true) cands key,
    get-put seen (dedup_key net c) key true,
    str_eq_iff (dedup_key net c) key,
  )

  -- Some candidate with this one's key is there, with no lower priority.
  abbrev pub IsCovered : List Candidate → Candidate → Type 0
  IsCovered out c =
      (d : Candidate) × (first_with (dedup_key net c) out ≡ some d)
      × (leb_ℤ c.priority d.priority ≡ true)

  covered : (cands : List Candidate) → IsSorted cands → All (IsCovered cands) cands
  unfolding first_with
  covered [] s = tt
  covered (c ∷ cands) s = (
    (c, ground (arith, str_eq_iff (dedup_key net c) (dedup_key net c)), leb_ℤ_refl c.priority),
    later cands s.0 (covered cands s.1),
  )
    where
      later :
          (rest : List Candidate)
          → All (AtMost c.priority) rest
          → All (IsCovered cands) rest
          → All (IsCovered (c ∷ cands)) rest
      later [] h k = tt
      later (e ∷ rest) h ((d, found_it, le), k) = (
        elim (Bool-cases (str_eq (dedup_key net c) (dedup_key net e))) [
          | inl same ↦ (c, ground (arith, same), h.0)
          | inr other ↦ (d, ground (arith, other, found_it), le)
        ],
        later rest h.1 k,
      )

  -- The candidates of a node, in order: `Prioritize` gives all of them, each as often as before, from
  -- the highest priority to the lowest, and after `Deduplicate` there is one for each transport and
  -- address that occurs among them, one of the highest priority.
  pub deduplicate-prioritize :
      (cands : List Candidate) (key : Str)
      → let sorted = prioritize cands in
        Permᴰ sorted cands
        × IsSorted sorted
        × (count_key key (deduplicate net sorted) ≤ 1)
        × All (IsCovered (deduplicate net sorted)) sorted
  unfolding deduplicate get
  deduplicate-prioritize cands key =
      let sorted = prioritize cands in
      (
        prioritize-Permᴰ cands,
        prioritize-IsSorted cands,
        count-dedup [] sorted key,
        All-mono sorted
            (λ c (d, first, le). (d, first_with-dedup [] sorted (dedup_key net c) ∙ first, le))
            (covered sorted (prioritize-IsSorted cands)),
      )
