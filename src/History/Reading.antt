-- ===== src/History/Reading.antt =====
-- What the readers of internal/history/history.go return.
use korik.Prelude.{
  Bool-cases, List, [], ap, arith, drop, drop-all, if◌then◌else◌, inl, inr, lasts, leb, leb→le,
  length, length-drop, ltb, ltb→lt, negsuc, pos, pos_part, suc, sym, take, take-add, take-all,
  take-nil, zero, ℕ, ℤ, ◌*◌, ◌++◌, ◌+◌, ◌-◌, ◌<◌, ◌||◌, ◌≟◌, ◌≡◌, ◌≤◌,
}
use korik.History.{ChatMessage, History, get_last, get_page}

module _ (h : History) where
  -- `GetLast` returns the last n messages, all of them if there are fewer, none if n is not positive.
  pub get_last-lasts : (n : ℤ) → get_last h n ≡ lasts (pos_part n) h.messages
  unfolding get_last
  get_last-lasts (negsuc n) = sym (drop-all (length h.messages - 0) h.messages (omega arith))
  get_last-lasts (pos n) = elim (Bool-cases (leb n 0 || (length h.messages ≟ 0))) [
    | inl nothing ↦ rw nothing (sym (drop-all (length h.messages - n) h.messages (ground arith)))
    | inr some_of_it ↦ rw some_of_it (ap (λ (k : ℕ). drop k h.messages) (start n))
  ]
    where
      start :
          (n : ℕ)
          → (if ltb n (length h.messages) then length h.messages - n else 0) ≡ length h.messages - n
      start n = ground arith

  -- A page is a cut of the window.
  get_page-drop : (p s : ℕ) → 0 < s → get_page h (pos p) (pos s) ≡ take s (drop (p * s) h.messages)
  unfolding get_page
  get_page-drop p s positive = elim (Bool-cases (leb s 0 || ltb p 0 || (length h.messages ≟ 0))) [
    | inl nothing ↦ rw nothing (sym (past (ground arith)))
    | inr page ↦ rw page (elim (Bool-cases (leb (length h.messages) (p * s))) [
      | inl out ↦ rw out (sym (past (leb→le (length h.messages) (p * s) out)))
      | inr within ↦ rw within (cut (ground arith))
    ])
  ]
    where
      past : length h.messages ≤ p * s → take s (drop (p * s) h.messages) ≡ []
      past le = rw (drop-all (p * s) h.messages le) (take-nil s)

      cut :
          p * s ≤ length h.messages
          → take
              ((if ltb (length h.messages) (p * s + s) then length h.messages else p * s + s)
                - p * s)
              (drop (p * s) h.messages)
            ≡ take s (drop (p * s) h.messages)
      cut le = elim (Bool-cases (ltb (length h.messages) (p * s + s))) [
        | inl short ↦ rw short (
            take-all (length h.messages - p * s) s (drop (p * s) h.messages)
              (omega (arith, length-drop (p * s) h.messages))
              (omega (
                arith,
                length-drop (p * s) h.messages,
                ltb→lt (length h.messages) (p * s + s) short,
              )))
        | inr full ↦ let e : p * s + s - p * s ≡ s = omega arith in rw (full, e)
      ]

  unfoldable pub pages : ℕ → ℕ → List ChatMessage
  pages s zero = []
  pages s (suc n) = pages s n ++ get_page h (pos n) (pos s)

  -- The first n pages, one after the other, are the oldest n * s messages of the window: pages
  -- neither overlap nor leave a message out.
  pub pages-take : (s n : ℕ) → 0 < s → pages s n ≡ take (n * s) h.messages
  unfolding pages
  pages-take s zero positive = let e : 0 * s ≡ 0 = omega arith in rw e
  pages-take s (suc n) positive =
      let e : suc n * s ≡ n * s + s = omega arith in
      rw (get_page-drop n s positive, pages-take s n positive, e)
        (sym (take-add (n * s) s h.messages))
