-- ===== src/Boosting/Tests.antt =====
-- apps/server/src/steam/boost-session-tracker.ts: an account that plays, changes its games and is cut off.
use steam_bee.Common.{ℕ, ◌≡◌, refl, true, Option, some, List, [], ◌∷◌, map, arith}
use steam_bee.Common.Maps.{lookup}
use steam_bee.Worker.{boosting, manual}
use steam_bee.Boosting.{
  Session, Tables, Activity, Outside, Operation, track, seen, restarted, operate_all, operate,
  track_boost_session, start_boost_session, open_session, played_app_ids, normalize_app_ids,
  end_boost_session, mark_seen, close_interrupted,
}
use steam_bee.Boosting.Tracked.{IsTracked, operate_all-IsTracked}
use steam_bee.Boosting.Recorded.{IsRecorded, track_boost_session-IsRecorded}

abbrev at : ℕ → Outside
at now = record { now = now; preset_exists = true; enabled_games = [] }

abbrev plays : List ℕ → Activity
plays app_ids = record { mode = some manual; active_app_ids = some app_ids }

abbrev accounts : List (ℕ × Option ℕ)
accounts = (1, some 5) ∷ []

abbrev day : List Operation
day =
    track (at 10) 1 boosting (plays (570 ∷ 440 ∷ 570 ∷ []))
    ∷ track (at 20) 1 boosting (plays (440 ∷ 570 ∷ []))
    ∷ track (at 30) 1 boosting (plays (730 ∷ []))
    ∷ seen 40
    ∷ restarted
    ∷ []

ends_when_seen :
    map {B = ℕ × Option ℕ}
      (λ (s : Session). (s.started_at, s.ended_at))
      (operate_all day (record { sessions = []; accounts = accounts })).sessions
    ≡ (30, some 40) ∷ (10, some 30) ∷ []
unfolding operate_all operate track_boost_session start_boost_session open_session played_app_ids
    normalize_app_ids end_boost_session mark_seen close_interrupted lookup
ends_when_seen = refl

operate_all-IsTracked_example :
    IsTracked (operate_all day (record { sessions = []; accounts = accounts })).sessions
operate_all-IsTracked_example =
    operate_all-IsTracked day accounts
      (omega arith, (omega arith, (omega arith, (omega arith, tt))))

abbrev empty : Tables
empty = record { sessions = []; accounts = accounts }

track_boost_session-IsRecorded_example :
    IsRecorded
      (at 10)
      1
      boosting
      (plays (570 ∷ []))
      (some 5)
      []
      (track_boost_session (at 10) 1 boosting (plays (570 ∷ [])) empty).sessions
unfolding lookup
track_boost_session-IsRecorded_example =
    track_boost_session-IsRecorded (at 10) 1 boosting (plays (570 ∷ [])) empty (some 5) refl
