-- ===== src/Contacts/Fuzzy.antt =====
-- `fuzzyScore` of internal/contacts/contacts.go against subsequences.
use korik.Prelude.{
  Bool, Bool-cases, Option, Str, [], ap, arith, false, inl, inr, length, none, refl, some, suc,
  take, true, zero, ℕ, ◌&&◌, ◌+◌, ◌-◌, ◌<◌, ◌||◌, ◌∷◌, ◌≟◌, ◌≡◌, ◌≤◌, ◌⊎◌,
}
use korik.Contacts.{fuzzy_score, score_from}

-- The letters of the query stand in the text, in order: a test that tries every way to place them.
unfoldable pub within : Str → Str → Bool
within [] text = true
within (q ∷ query) [] = false
within (q ∷ query) (c ∷ text) = (c ≟ q && within query text) || within (q ∷ query) text

within-cons : (q : ℕ) (query text : Str) → within (q ∷ query) text ≡ true → within query text ≡ true
unfolding within
within-cons q query [] h = absurd (ground (arith, h))
within-cons q [] (c ∷ text) h = refl
within-cons q (p ∷ query) (c ∷ text) h =
    ground (arith, h, within-cons q (p ∷ query) text, within-cons p query text)

-- The first n letters of the text are the shortest beginning of it that has the query within it.
pub record IsShortest (query text : Str) (n : ℕ) : Type 0 where
  pub inside : n ≤ length text
  pub has : within query (take n text) ≡ true
  pub lacks : (m : ℕ) → m < n → within query (take m text) ≡ false

not-within-cons :
    (q : ℕ) (query text : Str) → within query text ≡ false → within (q ∷ query) text ≡ false
not-within-cons q query text h = ground (arith, h, within-cons q query text)

-- The first letter of the text is taken for the first one of the query, or passed over.
IsShortest-taken :
    (c q : ℕ) (query text : Str) (n : ℕ)
    → c ≡ q
    → IsShortest query text n
    → IsShortest (q ∷ query) (c ∷ text) (suc n)
unfolding within
IsShortest-taken c q query text n e s = record {
  inside = omega (arith, s.inside);
  has = ground (arith, e, s.has);
  lacks = λ m. elim m as (λ m. m < suc n → within (q ∷ query) (take m (c ∷ text)) ≡ false) [
    | zero ↦ λ h. refl
    | suc k ↦ λ h. ground (arith, s.lacks k (omega arith), not-within-cons q query (take k text))
  ];
}

IsShortest-passed :
    (c q : ℕ) (query text : Str) (n : ℕ)
    → (c ≟ q) ≡ false
    → IsShortest (q ∷ query) text n
    → IsShortest (q ∷ query) (c ∷ text) (suc n)
unfolding within
IsShortest-passed c q query text n e s = record {
  inside = omega (arith, s.inside);
  has = ground (arith, e, s.has);
  lacks = λ m. elim m as (λ m. m < suc n → within (q ∷ query) (take m (c ∷ text)) ≡ false) [
    | zero ↦ λ h. refl
    | suc k ↦ λ h. ground (arith, e, s.lacks k (omega arith))
  ];
}

-- What `fuzzyScore` answers when it starts with a debt: no match, or a score which is, with the size
-- of the query, that debt and the size of the shortest beginning with a match.
abbrev Scores : Str → Str → ℕ → Option ℕ → Type 0
Scores query text debt answer =
    ((answer ≡ none) × (within query text ≡ false))
    ⊎ ((n : ℕ) × (score : ℕ) × (answer ≡ some score)
        × (score + length query ≡ debt + n)
        × IsShortest query text n)

passed :
    (c : ℕ) (text : Str) (q : ℕ) (query : Str) (ti score last : ℕ)
    → last ≤ ti
    → (c ≟ q) ≡ false
    → Scores
        (q ∷ query)
        text
        (score + (ti + 1 - last))
        (score_from text (q ∷ query) (ti + 1) score last)
    → Scores
        (q ∷ query)
        (c ∷ text)
        (score + (ti - last))
        (score_from (c ∷ text) (q ∷ query) ti score last)
unfolding score_from within
passed c text q query ti score last h miss (inl (e, w)) =
    inl (ground (arith, miss, e), ground (arith, miss, w))
passed c text q query ti score last h miss (inr (n, s, e, total, shortest)) = inr (
  suc n,
  s,
  ground (arith, miss, e),
  omega (arith, total, h),
  IsShortest-passed c q query text n miss shortest,
)

taken :
    (c : ℕ) (text : Str) (q p : ℕ) (query : Str) (ti score last : ℕ)
    → (c ≟ q) ≡ true
    → Scores
        (p ∷ query)
        text
        (score + (ti - last) + (ti + 1 - (ti + 1)))
        (score_from text (p ∷ query) (ti + 1) (score + (ti - last)) (ti + 1))
    → Scores
        (q ∷ p ∷ query)
        (c ∷ text)
        (score + (ti - last))
        (score_from (c ∷ text) (q ∷ p ∷ query) ti score last)
unfolding score_from within
taken c text q p query ti score last hit (inl (e, w)) =
    inl (ground (arith, hit, e), ground (arith, hit, w, not-within-cons q (p ∷ query) text))
taken c text q p query ti score last hit (inr (n, s, e, total, shortest)) = inr (
  suc n,
  s,
  ground (arith, hit, e),
  omega (arith, total),
  IsShortest-taken c q (p ∷ query) text n (ground (arith, hit)) shortest,
)

taken_last :
    (c : ℕ) (text : Str) (q ti score last : ℕ)
    → (c ≟ q) ≡ true
    → Scores
        (q ∷ [])
        (c ∷ text)
        (score + (ti - last))
        (score_from (c ∷ text) (q ∷ []) ti score last)
unfolding score_from within
taken_last c text q ti score last hit = inr (
  1,
  score + (ti - last),
  ground (arith, hit),
  omega arith,
  record {
    inside = omega arith;
    has = ground (arith, hit);
    lacks = λ m. elim m as (λ m. m < 1 → within (q ∷ []) (take m (c ∷ text)) ≡ false) [
      | zero ↦ λ h. refl
      | suc k ↦ λ h. absurd (omega arith)
    ];
  },
)

score_from_lem :
    (text : Str) (q : ℕ) (query : Str) (ti score last : ℕ)
    → last ≤ ti
    → Scores (q ∷ query) text (score + (ti - last)) (score_from text (q ∷ query) ti score last)
unfolding score_from within
score_from_lem [] q query ti score last h = inl (refl, refl)
score_from_lem (c ∷ text) q [] ti score last h = elim (Bool-cases (c ≟ q)) [
  | inl hit ↦ taken_last c text q ti score last hit
  | inr miss ↦
      passed c text q [] ti score last h miss
        (score_from_lem text q [] (ti + 1) score last (omega arith))
]
score_from_lem (c ∷ text) q (p ∷ query) ti score last h = elim (Bool-cases (c ≟ q)) [
  | inl hit ↦
      taken c text q p query ti score last hit
        (score_from_lem text p query (ti + 1) (score + (ti - last)) (ti + 1) (omega arith))
  | inr miss ↦
      passed c text q (p ∷ query) ti score last h miss
        (score_from_lem text q (p ∷ query) (ti + 1) score last (omega arith))
]

-- `fuzzyScore` finds a query that is not empty exactly if its bytes stand in the target, in order;
-- the score is then the size of the shortest beginning of the target that has them, less the size
-- of the query: greedy matching finds the best end.
pub fuzzy_score_lem :
    (q : ℕ) (query target : Str)
    → ((fuzzy_score (q ∷ query) target ≡ none) × (within (q ∷ query) target ≡ false))
      ⊎ ((n : ℕ) × (fuzzy_score (q ∷ query) target ≡ some (n - length (q ∷ query)))
          × (length (q ∷ query) ≤ n)
          × IsShortest (q ∷ query) target n)
unfolding fuzzy_score
fuzzy_score_lem q query target = elim (score_from_lem target q query 0 0 0 (omega arith)) [
  | inl none_there ↦ inl none_there
  | inr (n, s, e, total, shortest) ↦ inr (
    n,
    rw e (let same : s ≡ n - length (q ∷ query) = omega (arith, total) in ap some same),
    omega (arith, total),
    shortest,
  )
]
