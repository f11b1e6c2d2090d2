-- ===== src/Serial/Tests.antt =====
-- apps/server/src/steam/account-operation-state.ts: two calls, of which the first one fails.
use steam_bee.Common.{◌≡◌, refl, true, none, some, List, [], ◌∷◌}
use steam_bee.Serial.{
  Step, runs, begins, ends, settles, cleans, begun, ended, empty_queue, has_settled, begin_job,
  end_job, settle_job, perform, perform_all, remember, metadata,
}
use steam_bee.Serial.Turns.{IsInTurn, perform_all-IsInTurn}

-- The second call also tries to begin while the first one runs.
abbrev two_calls : List Step
two_calls = runs ∷ begins 0 ∷ runs ∷ begins 1 ∷ ends 0 true ∷ settles 0 ∷ cleans 0 ∷ begins 1 ∷ []

both_begin : (perform_all two_calls empty_queue []).1 ≡ begun 1 ∷ ended 0 ∷ begun 0 ∷ []
unfolding perform_all perform begin_job end_job settle_job has_settled
both_begin = refl

perform_all-IsInTurn_example : IsInTurn two_calls (perform_all two_calls empty_queue [])
perform_all-IsInTurn_example = perform_all-IsInTurn two_calls

-- A context is gone when its time is over.
forgotten :
    (metadata 15 (
      remember 10 5 "start"
        (record { correlation_id = none; source = some "api"; action = none })
        none)).1
    ≡ none
unfolding metadata remember
forgotten = refl
