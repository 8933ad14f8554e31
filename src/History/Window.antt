-- ===== src/History/Window.antt =====
-- The window that internal/history/history.go keeps: the newest messages that have not expired.
use korik.Prelude.{
  All, All-drop, Bool-cases, List, [], ap, arith, drop, drop-append, false, filterb, inl, inr,
  lasts, length, length-append, length-drop, length-filterb-le, ltb, ltb_ℤ, negsuc, not, pos,
  pos_part, refl, true, ℕ, ℤ, ◌&&◌, ◌++◌, ◌+◌, ◌-◌, ◌<◌, ◌∙◌, ◌∷◌, ◌≟◌, ◌≡◌, ◌≤◌, ◌⊎◌,
}
use korik.History.{
  ChatMessage, History, add, append_pruned, expired, prune_expired_locked, save_history, trim,
  with_expiry,
}
use korik.Storage.{Codec, Outcome}

abbrev pub Fresh : ℕ → ChatMessage → Type 0
Fresh now m = expired now m ≡ false

prune-All : (now : ℕ) (ms : List ChatMessage) → All (Fresh now) (prune_expired_locked now ms)
unfolding prune_expired_locked
prune-All now [] = tt
prune-All now (m ∷ ms) = elim (Bool-cases (expired now m)) [
  | inl old ↦ rw (old, filterb) (prune-All now ms)
  | inr fresh ↦ rw (fresh, filterb) (fresh, prune-All now ms)
]

-- The stored total counts the messages of the window, at least.
pub record IsValid (h : History) : Type 0 where
  pub counted : length h.messages ≤ h.total_stored

-- The limit on the window, if there is one.
abbrev pub Fits : History → Type 0
Fits h = ltb_ℤ (pos 0) h.max_size ≡ true → length h.messages ≤ pos_part h.max_size

messages-trim :
    (h : History)
    → ltb_ℤ (pos 0) h.max_size ≡ true
    → (trim h).messages ≡ lasts (pos_part h.max_size) h.messages
unfolding trim
messages-trim h limited = elim (Bool-cases (ltb (pos_part h.max_size) (length h.messages))) [
  | inl over ↦ ground (arith, over)
  | inr fits ↦
      let e : length h.messages - pos_part h.max_size ≡ 0 = ground arith in
      rw e (ground (arith, fits))
]

trim-IsValid : (h : History) → IsValid h → IsValid (trim h)
unfolding trim
trim-IsValid h v = record { counted = ground (arith, v.counted) }

trim-Fits : (h : History) → Fits (trim h)
unfolding trim
trim-Fits h =
    λ limited. ground (arith, length-drop (length h.messages - pos_part h.max_size) h.messages)

trim-All : (P : ChatMessage → Type 0) (h : History) → All P h.messages → All P (trim h).messages
unfolding trim
trim-All P h a =
    elim (Bool-cases (ltb_ℤ (pos 0) h.max_size && ltb (pos_part h.max_size) (length h.messages))) [
      | inl over ↦
          rw (over, trim) (All-drop P (length h.messages - pos_part h.max_size) h.messages a)
      | inr fits ↦ rw (fits, trim) a
    ]

pruned-IsValid :
    (h : History) (msg : ChatMessage) (now : ℕ) → IsValid h → IsValid (append_pruned h msg now)
unfolding append_pruned prune_expired_locked
pruned-IsValid h msg now v = record {
  counted = omega (
    arith,
    length-filterb-le (λ (m : ChatMessage). not (expired now m))
        (h.messages ++ with_expiry h.ttl now msg ∷ []),
    length-append h.messages (with_expiry h.ttl now msg ∷ []),
    v.counted,
  );
}

-- A message has no time of expiry, or that time has not passed.
abbrev pub Stays : ℕ → ChatMessage → Type 0
Stays now m = (m.expires_at ≡ 0) ⊎ (now ≤ m.expires_at)

-- What is kept of a list of messages: those that have not expired, in order.
pub data Kept (now : ℕ) : List ChatMessage → List ChatMessage → Type 0 where
  none_left : Kept now [] []
  keeps :
      {m : ChatMessage} {ms ks : List ChatMessage}
      → Stays now m
      → Kept now ms ks
      → Kept now (m ∷ ms) (m ∷ ks)
  drops :
      {m : ChatMessage} {ms ks : List ChatMessage}
      → 0 < m.expires_at
      → m.expires_at < now
      → Kept now ms ks
      → Kept now (m ∷ ms) ks

-- The message that is stored for `msg`: with a time of its own it keeps it, and else the time to live
-- of the history counts from now on, if it has one.
pub record IsWritten (ttl : ℤ) (now : ℕ) (msg new : ChatMessage) : Type 0 where
  pub same : new ≡ record msg { expires_at = new.expires_at }
  pub own_time : 0 < msg.expires_at → new.expires_at ≡ msg.expires_at
  pub counts :
      (live : ℕ) → ttl ≡ pos live → 0 < live → msg.expires_at ≡ 0 → new.expires_at ≡ now + live
  pub no_ttl : ltb_ℤ (pos 0) ttl ≡ false → new.expires_at ≡ msg.expires_at

Stays-expired : (now : ℕ) (m : ChatMessage) → expired now m ≡ false → Stays now m
Stays-expired now m h = elim (Bool-cases (m.expires_at ≟ 0)) [
  | inl never ↦ inl (ground (arith, never))
  | inr some_time ↦ inr (ground (arith, h, some_time))
]

prune-Kept : (now : ℕ) (ms : List ChatMessage) → Kept now ms (prune_expired_locked now ms)
unfolding prune_expired_locked
prune-Kept now [] = none_left
prune-Kept now (m ∷ ms) = elim (Bool-cases (expired now m)) [
  | inl old ↦
      rw (old, filterb) (drops (ground (arith, old)) (ground (arith, old)) (prune-Kept now ms))
  | inr fresh ↦ rw (fresh, filterb) (keeps (Stays-expired now m fresh) (prune-Kept now ms))
]

with_expiry-IsWritten :
    (ttl : ℤ) (now : ℕ) (msg : ChatMessage) → IsWritten ttl now msg (with_expiry ttl now msg)
with_expiry-IsWritten (pos live) now msg = record {
  same = elim (Bool-cases (ltb 0 live && (msg.expires_at ≟ 0))) [
    | inl timed ↦ rw timed refl
    | inr untimed ↦ rw untimed refl
  ];
  own_time = λ h. ground (arith, h);
  counts = λ live' e positive untimed. ground (arith, ap pos_part e, positive, untimed);
  no_ttl = λ h. ground (arith, h);
}
with_expiry-IsWritten (negsuc n) now msg = record {
  same = refl;
  own_time = λ h. refl;
  counts = λ live e positive. absurd (omega (arith, positive, ap pos_part e));
  no_ttl = λ h. refl;
}

-- The last message of what is kept, if it has not expired.
Kept-last :
    (now : ℕ) (ms ks : List ChatMessage) (m : ChatMessage)
    → Kept now (ms ++ m ∷ []) ks
    → Stays now m
    → (before : List ChatMessage) × (ks ≡ before ++ m ∷ [])
Kept-last now [] _ m (keeps stays none_left) s = ([], refl)
Kept-last now [] _ m (drops some_time past rest) (inl never) =
    absurd (omega (arith, some_time, never))
Kept-last now [] _ m (drops some_time past rest) (inr later) = absurd (omega (arith, past, later))
Kept-last now (a ∷ ms) _ m (keeps stays rest) s =
    let (before, e) = Kept-last now ms _ m rest s in (a ∷ before, ap (◌∷◌ a) e)
Kept-last now (a ∷ ms) _ m (drops some_time past rest) s = Kept-last now ms _ m rest s

lasts-snoc :
    (n : ℕ) (before : List ChatMessage) (m : ChatMessage)
    → 0 < n
    → lasts n (before ++ m ∷ []) ≡ drop (length before + 1 - n) before ++ m ∷ []
lasts-snoc n before m positive =
    let e : length (before ++ m ∷ []) - n ≡ length before + 1 - n =
      omega (arith, length-append before (m ∷ [])) in
    rw e (drop-append (length before + 1 - n) before (m ∷ []) (omega (arith, positive)))

module _ (codec : Codec (List ChatMessage)) (h : History) (msg : ChatMessage) (now : ℕ)
    (o : Outcome) where
  -- `Add` with a limit stores the message with its time of expiry, or with the time to live of the
  -- history from now on. It keeps the newest messages, as many as the limit says, of those that have
  -- not expired, in order; the new one is the last of them, unless it has expired itself.
  pub messages-add :
      ltb_ℤ (pos 0) h.max_size ≡ true
      → let ms = (add codec h msg now o).0.messages in
        (new : ChatMessage) × (kept : List ChatMessage) × IsWritten h.ttl now msg new
        × Kept now (h.messages ++ new ∷ []) kept
        × (ms ≡ lasts (pos_part h.max_size) kept)
        × (Stays now new → (before : List ChatMessage) × (ms ≡ before ++ new ∷ []))
  unfolding add append_pruned
  messages-add limited =
      let new = with_expiry h.ttl now msg in
      let kept = prune_expired_locked now (h.messages ++ new ∷ []) in
      let found = messages-trim (append_pruned h msg now) limited in
      (
        new,
        kept,
        with_expiry-IsWritten h.ttl now msg,
        prune-Kept now (h.messages ++ new ∷ []),
        found,
        λ stays.
            let (before, e) =
              Kept-last now h.messages kept new (prune-Kept now (h.messages ++ new ∷ [])) stays in
            (
              drop (length before + 1 - pos_part h.max_size) before,
              found
                  ∙ (ap (lasts (pos_part h.max_size)) e
                      ∙ lasts-snoc (pos_part h.max_size) before new (ground (arith, limited))),
            ),
      )

  -- Whatever its state was, after `Add` no expired message is in the window, the window fits its
  -- limit, and the total is at least the size of the window.
  pub add_keeps :
      IsValid h
      → All (Fresh now) (add codec h msg now o).0.messages
        × Fits (add codec h msg now o).0
        × IsValid (add codec h msg now o).0
  unfolding add save_history
  add_keeps v =
      let p = append_pruned h msg now in
      (
        trim-All (Fresh now) p
            (unfold append_pruned in prune-All now (h.messages ++ with_expiry h.ttl now msg ∷ [])),
        trim-Fits p,
        record { counted = (trim-IsValid p (pruned-IsValid h msg now v)).counted },
      )
