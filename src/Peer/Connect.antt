-- ===== src/Peer/Connect.antt =====
-- Dialing in internal/peer/node.go: `ConnectTo` with the breaker, `ConnectWithRetry`, and the
-- heartbeats that go stale. What the network does with each attempt is an argument.
pub mod Attempts
mod Tests
use korik.Prelude.{
  Bool, List, Option, Str, [], false, if◌then◌else◌, int_key, leb_ℤ, ltb, ltb_ℤ, none, not, pos,
  some, str_key, suc, zero, ℕ, ℤ, ◌&&◌, ◌+◌, ◌∷◌,
}
use korik.GoMap.{Map}
use korik.Status.{Phase, connected, connecting, failed_phase, handshaking, retry_plan, retrying}
use korik.Circuit as Circuit

-- What an attempt meets: whether the address is connected already, whether the dial succeeds, and
-- whether there is a session key within the two seconds of the poll; and its time.
pub record Attempt : Type 0 where
  pub exists : Bool
  pub dials : Bool
  pub ready : Bool
  pub now : ℕ

pub data ConnectError : Type 0 where
  cooling_down dial_failed : ConnectError

-- The breaker, and the addresses that were dialed, the last first.
pub record Dialer : Type 0 where
  pub breaker : Option Circuit.Breaker
  pub dialed : List Str
  pub phases : List Phase

abbrev pub told : Dialer → Phase → Dialer
told d phase = record d { phases = phase ∷ d.phases }

-- n.Breaker != nil && n.Breaker.Skip(addr)
unfoldable pub skips : Dialer → Str → ℕ → Dialer × Bool
skips d addr now = elim d.breaker [
  | none ↦ (d, false)
  | some b ↦ let (b', skip) = Circuit.skip b addr now in (record d { breaker = some b' }, skip)
]

-- the dial and what follows it
unfoldable pub dial : Dialer → Str → Attempt → Dialer × Option ConnectError
dial d addr a =
    let d' = record d { phases = connecting ∷ d.phases; dialed = addr ∷ d.dialed } in
    if a.dials then (told d' handshaking, none) else (
      told
          (record d' {
            breaker = elim d'.breaker [
              | none ↦ none
              | some b ↦ some (Circuit.record_failure b addr a.now).0
            ];
          })
          failed_phase,
      some dial_failed,
    )

unfoldable pub connect_to : Dialer → Str → Attempt → Dialer × Option ConnectError
unfolding skips dial
connect_to d addr a =
    let (d', skip) = skips d addr a.now in
    if a.exists then (d, none) else if skip then (d', some cooling_down) else dial d' addr a

pub data RetryResult : Type 0 where
  session_ready : RetryResult
  gave_up : ℕ → RetryResult
  reconnect_disabled : RetryResult

-- One round of the loop of `ConnectWithRetry` with its number: the result, if it is the last one.
unfoldable pub retry_round : ℤ → Bool → Str → Attempt → Dialer → ℕ → Dialer × Option RetryResult
unfolding connect_to
retry_round max_attempts auto_reconnect addr a d attempt =
    let (d', error) = connect_to (told d retrying) addr a in
    let up : Bool = elim error [ some _ ↦ false | none ↦ a.ready ] in
    if up
    then (told d' connected, some session_ready)
    else if ltb_ℤ (pos 0) max_attempts && leb_ℤ max_attempts (pos attempt)
    then (told d' failed_phase, some (gave_up attempt))
    else if not auto_reconnect && leb_ℤ max_attempts (pos 0)
    then (d', some reconnect_disabled)
    else (d', none)

-- The loop, for so many rounds at most: `none` if it goes on, and the delays that it slept.
unfoldable pub connect_with_retry :
    ℕ → ℤ → Bool → Str → (ℕ → Attempt) → Dialer → ℕ → (Dialer × List ℕ) × Option RetryResult
unfolding retry_round
connect_with_retry zero max_attempts auto_reconnect addr meets d attempt = ((d, []), none)
connect_with_retry (suc rounds) max_attempts auto_reconnect addr meets d attempt =
    let n = suc attempt in
    let (d', result) = retry_round max_attempts auto_reconnect addr (meets n) d n in
    let ((d'', slept), rest) =
      connect_with_retry rounds max_attempts auto_reconnect addr meets d' n in
    elim result [ some r ↦ ((d', []), some r) | none ↦ ((d'', retry_plan (pos n) ∷ slept), rest) ]

-- the range of `StartHeartbeat` over lastBeat, with times in seconds: what is older than 60 s goes
unfoldable pub drop_stale : ℕ → Map Str ℕ → Map Str ℕ
drop_stale now [] = []
drop_stale now ((jid, last) ∷ beats) =
    let rest = drop_stale now beats in if ltb (last + 60) now then rest else (jid, last) ∷ rest
