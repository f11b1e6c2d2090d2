-- ===== src/Retry/Tests.antt =====
-- apps/server/src/steam/retry-policy.ts: a wrong password and a busy Steam.
use steam_bee.Common.{◌*◌, ◌≡◌, refl, ◌↔◌, true, none, some}
use steam_bee.Common.Int.{pos, int, other}
use steam_bee.Retry.{
  Thrown, object, number, authentication_results, has, extract_e_result, classify_code,
  classify_steam_failure, session_conflict_delay,
}
use steam_bee.Retry.Laws.{classify_steam_failure_iff}

abbrev wrong_password : Thrown
wrong_password = object (some other) (some (int (pos 5))) none

reads_result : extract_e_result wrong_password ≡ some (pos 5)
unfolding extract_e_result
reads_result = refl

waits_for_busy : (classify_steam_failure (number (int (pos 84)))).minimum_delay_ms ≡ 15 * 60_000
unfolding classify_steam_failure classify_code extract_e_result
waits_for_busy = refl

cools_down : session_conflict_delay 3 ≡ 60 * 60_000
unfolding session_conflict_delay
cools_down = refl

classify_steam_failure_iff_example :
    ((classify_steam_failure wrong_password).terminal ≡ true)
    ↔ (has authentication_results (extract_e_result wrong_password) ≡ true)
classify_steam_failure_iff_example = classify_steam_failure_iff wrong_password
