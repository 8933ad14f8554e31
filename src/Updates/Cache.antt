-- ===== src/Updates/Cache.antt =====
-- What is remembered of a check for updates in internal/autoupdate/autoupdate.go, and for how long.
use korik.Prelude.{Str, [], arith, false, none, refl, some, str_eq, true, ℕ, ◌+◌, ◌<◌, ◌≡◌, ◌≤◌}
use korik.Storage.{Codec, Outcome, load, save, written}
use korik.Updates.{
  Answer, CacheRecord, Checker, Release, UpdateInfo, cache_duration, check_async, check_for_update,
  checked, fetch_and_save, fetch_latest, get_cached, info_of, load_cache, new_checker,
  nil_dereference, release, save_cache, set_no_check,
}

module _ (codec : Codec CacheRecord) where
  -- A check that got an answer is not repeated for 24 hours: until then it gives the same again,
  -- whatever the server would answer, and whether or not the answer could be written to the file;
  -- after that, the server is asked again.
  pub check_for_update-cached :
      (c : Checker) (r : Release) (reply : Answer) (now later : ℕ) (o o' : Outcome)
      → c.no_check ≡ false
      → get_cached c now ≡ none
      → let (c', first) = check_for_update codec c (release r) now o in
        (first ≡ checked (info_of c r))
        × (later ≤ now + cache_duration
            → check_for_update codec c' reply later o' ≡ (c', checked (info_of c r)))
        × (now + cache_duration < later
            → check_for_update codec c' reply later o' ≡ fetch_and_save codec c' reply later o')
  unfolding check_for_update get_cached fetch_and_save fetch_latest save_cache
  check_for_update-cached c r reply now later o o' on fresh = (
    ground (arith, on, fresh),
    λ soon. ground (arith, on, fresh, soon),
    λ late. ground (arith, on, fresh, late),
  )

  -- With checks switched off, the goroutine of `CheckAsync` reads through a nil pointer, whatever the
  -- server would answer: the program panics instead of getting a result.
  pub check_async-no_check :
      (c : Checker) (reply : Answer) (now : ℕ) (o : Outcome)
      → check_async codec (set_no_check c true) reply now o ≡ (set_no_check c true, nil_dereference)
  unfolding check_async check_for_update set_no_check
  check_async-no_check c reply now o = refl

  file-check_for_update :
      (c : Checker) (r : Release) (now : ℕ)
      → c.no_check ≡ false
      → get_cached c now ≡ none
      → (check_for_update codec c (release r) now written).0.file
        ≡ some (codec.encode (record { info = info_of c r; cached_at = now }))
  unfolding check_for_update fetch_and_save fetch_latest save_cache save
  file-check_for_update c r now on fresh = ground (arith, on, fresh)

  new_checker-found :
      (current_version : Str) (entry : CacheRecord) (later : ℕ)
      → 0 < entry.cached_at
      → later ≤ entry.cached_at + cache_duration
      → codec.decode (codec.encode entry) ≡ some entry
      → new_checker codec current_version (some (codec.encode entry)) later ≡ record {
        current_version = current_version;
        no_check = false;
        cached = some entry.info;
        cached_time = entry.cached_at;
        file = some (codec.encode entry);
      }
  unfolding new_checker load_cache load
  new_checker-found current_version entry later h soon back = ground (arith, back)

  check-cached :
      (c : Checker) (info : UpdateInfo) (reply : Answer) (later : ℕ) (o : Outcome)
      → c.no_check ≡ false
      → c.cached ≡ some info
      → later ≤ c.cached_time + cache_duration
      → (check_for_update codec c reply later o).1 ≡ checked info
  unfolding check_for_update get_cached
  check-cached c info reply later o on there soon = ground (arith, on, there)

  -- Who installs the release that a check found, and starts it within 24 hours of that check, is told
  -- that it is available as an update, under the version that now runs.
  pub check_for_update-installed :
      (c : Checker) (r : Release) (reply : Answer) (now later : ℕ) (o' : Outcome)
      → c.no_check ≡ false
      → get_cached c now ≡ none
      → 0 < now
      → later ≤ now + cache_duration
      → str_eq r.tag_name [] ≡ false
      → str_eq r.tag_name c.current_version ≡ false
      → codec.decode (codec.encode (record { info = info_of c r; cached_at = now }))
        ≡ some (record { info = info_of c r; cached_at = now })
      → let old = (check_for_update codec c (release r) now written).0 in
        let new = new_checker codec r.tag_name old.file later in
        (info : UpdateInfo) × ((check_for_update codec new reply later o').1 ≡ checked info)
        × (info.version ≡ new.current_version)
        × (info.has_update ≡ true)
  unfolding info_of
  check_for_update-installed c r reply now later o' on fresh set_time soon named newer back =
      let entry : CacheRecord = record { info = info_of c r; cached_at = now } in
      let saved = file-check_for_update c r now on fresh in
      let loaded = new_checker-found r.tag_name entry later set_time soon back in
      (
        info_of c r,
        ground (
          arith,
          saved,
          loaded,
          check-cached
              (record {
                current_version = r.tag_name;
                no_check = false;
                cached = some (info_of c r);
                cached_time = now;
                file = some (codec.encode entry);
              })
              (info_of c r) reply later o' refl refl soon,
        ),
        ground (arith, saved, loaded),
        ground (arith, named, newer),
      )
