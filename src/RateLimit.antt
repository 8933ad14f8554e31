-- ===== src/RateLimit.antt =====
-- internal/ratelimit/ratelimit.go: token buckets. The code counts tokens in float64 and gains some
-- of them each second; the model counts them exactly, in fractions of a token so fine that a bucket
-- gains a whole number of them in each nanosecond. Times are numbers of nanoseconds, of a clock that
-- does not run backwards, as Go's monotonic clock.
pub mod Bucket
pub mod Limiter
pub mod PeerGuard
pub mod ConnectionGuard
mod Tests
use korik.Prelude.{Option, Str, [], bytes, if◌then◌else◌, ltb_ℤ, none, pos, some, str_eq, ℕ, ℤ, ◌*◌}

-- message_rate_per_minute and the other constants of the file
abbrev pub message_rate_per_minute : ℕ
message_rate_per_minute = 100

abbrev pub connection_rate_per_minute : ℕ
connection_rate_per_minute = 10

abbrev pub max_strikes_before_block : ℕ
max_strikes_before_block = 3

abbrev pub max_file_transfer_bytes : ℕ
max_file_transfer_bytes = 2 * 1024 * 1024 * 1024

-- "unknown" stands for an empty key
unfoldable pub key_of : Str → Str
key_of key = if str_eq key [] then bytes "unknown" else key

pub data SizeError : Type 0 where
  invalid_size : ℤ → SizeError
  too_large : ℤ → SizeError

unfoldable pub validate_file_size : ℤ → Option SizeError
validate_file_size size =
    if ltb_ℤ size (pos 0)
    then some (invalid_size size)
    else if ltb_ℤ (pos max_file_transfer_bytes) size
    then some (too_large size)
    else none
