-- ===== src/Dedup.antt =====
-- internal/dedup/dedup.go: the store of message identifiers that were seen. Times and durations are
-- numbers of nanoseconds; the clock is an argument of each method.
mod Eviction
pub mod Validity
pub mod Forgetting
pub mod Duplicates
mod Tests
use korik.Prelude.{
  Bool, Str, [], false, filterb, if◌then◌else◌, leb, length, ltb, none, not, positive_or, some,
  str_eq, str_key, suc, true, zero, ℕ, ℤ, ◌-◌, ◌||◌, ◌∷◌,
}
use korik.GoMap.{Map, get, put, remove}

pub record Seen : Type 0 where
  pub ids : Map Str ℕ
  pub max : ℕ
  pub ttl : ℕ

unfoldable pub new : ℤ → ℤ → Seen
new capacity ttl = record {
  ids = [];
  max = positive_or capacity 10000;
  ttl = positive_or ttl 3_600_000_000_000;
}

-- now.Sub(ts) > s.ttl
abbrev pub expired : ℕ → ℕ → ℕ → Bool
expired ttl now ts = ltb ttl (now - ts)

-- the range that deletes what has expired
unfoldable pub drop_expired : ℕ → ℕ → Map Str ℕ → Map Str ℕ
drop_expired ttl now = filterb (λ e. not (expired ttl now e.1))

-- the range that looks for the oldest entry, with its variables `oldest`, `oldestTime` and `first`
unfoldable pub scan_oldest : Map Str ℕ → Str → ℕ → Bool → Str
scan_oldest [] oldest oldest_time first = oldest
scan_oldest ((key, ts) ∷ m) oldest oldest_time first =
    let older = first || ltb ts oldest_time in
    scan_oldest m (if older then key else oldest) (if older then ts else oldest_time)
      (if older then false else first)

-- `for len(s.ids) >= s.max`; each round deletes an entry, so the size of the map is fuel enough
unfoldable pub evict : ℕ → ℕ → Map Str ℕ → Map Str ℕ
evict zero max ids = ids
evict (suc fuel) max ids =
    let oldest = scan_oldest ids [] 0 true in
    let rest = evict fuel max (remove ids oldest) in
    if leb max (length ids) then (if str_eq oldest [] then ids else rest) else ids

-- the entries left when room has been made for one more
unfoldable pub make_room : Seen → ℕ → Map Str ℕ
unfolding drop_expired evict
make_room s now =
    let kept = if leb s.max (length s.ids) then drop_expired s.ttl now s.ids else s.ids in
    evict (length kept) s.max kept

unfoldable pub add : Seen → Str → ℕ → Seen × Bool
add s id now = if str_eq id [] then (s, true) else elim (get s.ids id) [
  | some _ ↦ (s, false)
  | none ↦ (record s { ids = put (make_room s now) id now }, true)
]

unfoldable pub has : Seen → Str → ℕ → Seen × Bool
has s id now = if str_eq id [] then (s, false) else elim (get s.ids id) [
  | none ↦ (s, false)
  | some ts ↦
      if expired s.ttl now ts then (record s { ids = remove s.ids id }, false) else (s, true)
]

unfoldable pub len : Seen → ℕ
len s = length s.ids
