-- ===== src/Updates/Tests.antt =====
-- Checks for updates, run.
use korik.Prelude.{[], arith, bytes, false, none, refl, some, str_eq, true, ◌+◌, ◌<◌, ◌≡◌, ◌≤◌}
use korik.Storage.{Codec, written}
use korik.Updates.{
  CacheRecord, Checker, Release, UpdateInfo, cache_duration, check_async, check_for_update, checked,
  fetch_and_save, get_cached, info_of, new_checker, nil_dereference, no_answer, release,
  set_no_check,
}
use korik.Updates.Cache.{check_async-no_check, check_for_update-cached, check_for_update-installed}

program : Unit {0}
unfolding get_cached info_of str_eq
program = tt

abbrev checker : Checker
checker = record {
  current_version = bytes "v1.0.0";
  no_check = false;
  cached = none;
  cached_time = 0;
  file = none;
}

abbrev newest : Release
newest = record { tag_name = bytes "v1.1.0"; published_at = 3; html_url = [] }

-- Every text is the record of the check below.
abbrev codec : Codec CacheRecord
unfolding info_of str_eq
codec = record {
  encode = λ r. [];
  decode = λ s. some (record { info = info_of checker newest; cached_at = 5 });
}

check_for_update-cached_test :
    let (c', first) = check_for_update codec checker (release newest) 5 written in
    (first ≡ checked (info_of checker newest))
    × (9 ≤ 5 + cache_duration
        → check_for_update codec c' no_answer 9 written ≡ (c', checked (info_of checker newest)))
    × (5 + cache_duration < 9
        → check_for_update codec c' no_answer 9 written
          ≡ fetch_and_save codec c' no_answer 9 written)
unfolding program
check_for_update-cached_test =
    check_for_update-cached codec checker newest no_answer 5 9 written written refl refl

check_async-no_check_test :
    check_async codec (set_no_check checker true) no_answer 5 written
    ≡ (set_no_check checker true, nil_dereference)
check_async-no_check_test = check_async-no_check codec checker no_answer 5 written

check_for_update-installed_example :
    let old = (check_for_update codec checker (release newest) 5 written).0 in
    let new = new_checker codec (bytes "v1.1.0") old.file 9 in
    (info : UpdateInfo) × ((check_for_update codec new no_answer 9 written).1 ≡ checked info)
    × (info.version ≡ new.current_version)
    × (info.has_update ≡ true)
unfolding program
check_for_update-installed_example =
    check_for_update-installed codec checker newest no_answer 5 9 written refl refl (omega arith)
      (omega arith) refl refl refl
