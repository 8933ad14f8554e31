-- ===== src/Status.antt =====
-- internal/status/status.go: the phase of a connection, the delays between retries and the hints for
-- errors. Durations are nanoseconds; the texts are constructors, since nothing reads them.
pub mod Delays
use korik.Prelude.{
  List, Option, Str, [], bytes, contains, if◌then◌else◌, leb, ltb_ℤ, none, not, pos, pos_part, some,
  to_lower, ℕ, ℤ, ◌*◌, ◌-◌, ◌^◌, ◌∷◌,
}
use korik.Storage.{broken, found}

pub data Phase : Type 0 where
  idle discovering connecting traversing handshaking connected retrying failed_phase : Phase

-- The phase with its detail, and what `OnChange` was told, the last first.
pub record Tracker : Type 0 where
  pub phase : Phase
  pub detail : Str
  pub updated : ℕ
  pub changes : List (Phase × Str)

unfoldable pub new_tracker : ℕ → Tracker
new_tracker now = record { phase = idle; detail = []; updated = now; changes = [] }

unfoldable pub set : Tracker → Phase → Str → ℕ → Tracker
set t phase detail now = record {
  phase = phase;
  detail = detail;
  updated = now;
  changes = (phase, detail) ∷ t.changes;
}

-- the phase, the detail and the age
unfoldable pub snapshot : Tracker → ℕ → Phase × Str × ℕ
snapshot t now = (t.phase, t.detail, now - t.updated)

pub data Hint : Type 0 where
  no_hint refused_hint resolve_hint timeout_hint unreachable_hint stun_hint : Hint
  disconnected_hint file_hint permission_hint handshake_hint other_hint : Hint

-- The cases of the switch of `HumanizeError`, in order: what a message has to contain.
abbrev pub hints : List (Str × Hint)
hints =
    (bytes "connection refused", refused_hint)
    ∷ (bytes "no such host", resolve_hint)
    ∷ (bytes "name resolution", resolve_hint)
    ∷ (bytes "dns", resolve_hint)
    ∷ (bytes "timeout", timeout_hint)
    ∷ (bytes "deadline exceeded", timeout_hint)
    ∷ (bytes "network is unreachable", unreachable_hint)
    ∷ (bytes "stun", stun_hint)
    ∷ (bytes "no stun response", stun_hint)
    ∷ (bytes "eof", disconnected_hint)
    ∷ (bytes "broken pipe", disconnected_hint)
    ∷ (bytes "reset by peer", disconnected_hint)
    ∷ (bytes "file not found", file_hint)
    ∷ (bytes "no such file", file_hint)
    ∷ (bytes "permission", permission_hint)
    ∷ (bytes "e2e", handshake_hint)
    ∷ (bytes "handshake", handshake_hint)
    ∷ []

unfoldable pub first_hint : Str → List (Str × Hint) → Hint
first_hint msg [] = other_hint
first_hint msg ((sub, hint) ∷ cases) =
    let rest = first_hint msg cases in if contains msg sub then hint else rest

-- `none` is the nil error
unfoldable pub humanize_error : Option Str → Hint
unfolding first_hint
humanize_error none = no_hint
humanize_error (some text) = first_hint (to_lower text) hints

abbrev pub second : ℕ
second = 1_000_000_000

unfoldable pub retry_plan : ℤ → ℕ
retry_plan attempt =
    let n = if ltb_ℤ attempt (pos 1) then 1 else pos_part attempt in
    if leb 6 n then 30 * second else second * 2 ^ (n - 1)
