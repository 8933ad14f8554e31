-- ===== src/Updates.antt =====
-- internal/autoupdate/autoupdate.go: the check for a newer release. The answer of the server and what
-- stands in the cache file are arguments; JSON is a parameter. Times are nanoseconds, 0 is none.
pub mod Cache
mod Tests
use korik.Prelude.{
  Bool, Option, Str, [], false, if◌then◌else◌, ltb, none, not, some, str_eq, ℕ, ◌&&◌, ◌-◌, ◌≟◌,
}
use korik.Storage.{Codec, Outcome, absent, broken, found, load, save}

pub record UpdateInfo : Type 0 where
  pub version : Str
  pub released_at : ℕ
  pub notes_url : Str
  pub current_version : Str
  pub has_update : Bool

pub record CacheRecord : Type 0 where
  pub info : UpdateInfo
  pub cached_at : ℕ

-- The file is what stands at the checker's cache path.
pub record Checker : Type 0 where
  pub current_version : Str
  pub no_check : Bool
  pub cached : Option UpdateInfo
  pub cached_time : ℕ
  pub file : Option Str

pub record Release : Type 0 where
  pub tag_name : Str
  pub published_at : ℕ
  pub html_url : Str

-- What the request for the latest release gives.
pub data Answer : Type 0 where
  no_answer unreadable malformed : Answer
  wrong_status : ℕ → Answer
  release : Release → Answer

pub data UpdateError : Type 0 where
  check_failed : Answer → UpdateError

pub data Checked : Type 0 where
  checked : UpdateInfo → Checked
  check_error : UpdateError → Checked
  switched_off : Checked

-- 24 * time.Hour
abbrev pub cache_duration : ℕ
cache_duration = 86_400_000_000_000

unfoldable pub set_no_check : Checker → Bool → Checker
set_no_check c no_check = record c { no_check = no_check }

unfoldable pub get_cached : Checker → ℕ → Option UpdateInfo
get_cached c now = elim c.cached [
  | none ↦ none
  | some info ↦ if ltb cache_duration (now - c.cached_time) then none else some info
]

unfoldable pub info_of : Checker → Release → UpdateInfo
info_of c r = record {
  version = r.tag_name;
  released_at = r.published_at;
  notes_url = r.html_url;
  current_version = c.current_version;
  has_update = not (str_eq r.tag_name []) && not (str_eq r.tag_name c.current_version);
}

unfoldable pub fetch_latest : Checker → Answer → Checked
unfolding info_of
fetch_latest c (release r) = checked (info_of c r)
fetch_latest c answer = check_error (check_failed answer)

-- What the goroutine of `CheckAsync` sends, or that it reads a nil pointer.
pub data Sent : Type 0 where
  sends_info : UpdateInfo → Sent
  sends_error : UpdateError → Sent
  nil_dereference : Sent

module _ (codec : Codec CacheRecord) where
  unfoldable pub load_cache : Checker → ℕ → Checker
  load_cache c now = elim (load codec c.file) [
    | absent ↦ c
    | broken ↦ c
    | found r ↦
        if r.cached_at ≟ 0
        then c
        else if ltb cache_duration (now - r.cached_at)
        then c
        else record c { cached = some r.info; cached_time = r.cached_at }
  ]

  unfoldable pub new_checker : Str → Option Str → ℕ → Checker
  unfolding load_cache
  new_checker current_version file now =
      load_cache
        (record {
          current_version = current_version;
          no_check = false;
          cached = none;
          cached_time = 0;
          file = file;
        })
        now

  unfoldable pub save_cache : Checker → UpdateInfo → ℕ → Outcome → Checker
  save_cache c info now o = record c {
    cached = some info;
    cached_time = now;
    file = (save codec (record { info = info; cached_at = now }) o c.file).0;
  }

  -- the end of both checks
  unfoldable pub fetch_and_save : Checker → Answer → ℕ → Outcome → Checker × Checked
  unfolding save_cache
  fetch_and_save c answer now o = elim (fetch_latest c answer) [
    | checked info ↦ (save_cache c info now o, checked info)
    | check_error e ↦ (c, check_error e)
    | switched_off ↦ (c, switched_off)
  ]

  unfoldable pub check_for_update : Checker → Answer → ℕ → Outcome → Checker × Checked
  unfolding fetch_and_save
  check_for_update c answer now o =
      if c.no_check then (c, switched_off) else elim (get_cached c now) [
        | some info ↦ (c, checked info)
        | none ↦ fetch_and_save c answer now o
      ]

  unfoldable pub force_check : Checker → Answer → ℕ → Outcome → Checker × Checked
  unfolding fetch_and_save
  force_check c answer now o =
      if c.no_check then (c, switched_off) else fetch_and_save c answer now o

  unfoldable pub check_async : Checker → Answer → ℕ → Outcome → Checker × Sent
  unfolding check_for_update
  check_async c answer now o =
      let (c', result) = check_for_update c answer now o in
      elim result [
        | checked info ↦ (c', sends_info info)
        | check_error e ↦ (c', sends_error e)
        | switched_off ↦ (c', nil_dereference)
      ]
