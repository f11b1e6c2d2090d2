-- ===== src/Worker/Tests.antt =====
-- apps/server/src/steam/worker.ts: an account that boosts, is used elsewhere, and is taken over.
use steam_bee.Common.{arith, ℕ, true, false, none, some, List, [], ◌∷◌, ◌≡◌, refl, map}
use steam_bee.Common.Int.{pos}
use steam_bee.Retry.{RetryDecision, classify_steam_failure}
use steam_bee.Worker.{
  Worker, Outside, disconnected, connecting, boosting, running, stopped, set_status, set_desired,
  report_games, clear_health, clear_timers, reset_conflict, enforce_limit, selected_games, play,
  apply_games, schedule_reconnect,
}
use steam_bee.Worker.Commands.{start_now}
use steam_bee.Worker.Events.{logged_on, thrown_of}
use steam_bee.Worker.Operations.{
  Command, Operation, start, resume, command, event, logged_on_event, disconnected_event,
  reconnect_fires, reconnect_runs, perform, perform_all, do_command, do_event, new_worker,
}
use steam_bee.Worker.Sound.{IsSound}
use steam_bee.Worker.Sound.Reached.{perform_all-IsSound}
use steam_bee.Worker.Rest.{Rests, perform_all-Rests}
use steam_bee.Worker.Delays.{IsPlanned, schedule_reconnect-IsPlanned, connecting_never_logs_in}

abbrev outside : Outside
outside = record {
  now = 1000;
  jitter = 7;
  has_token = true;
  enabled_games = 440 ∷ 570 ∷ [];
  farming_resumes = true;
}

abbrev seen : Operation → Outside × Operation
seen op = (outside, op)

-- It logs in and plays.
abbrev playing : List (Outside × Operation)
playing = seen (command start) ∷ seen (event 1 logged_on_event) ∷ []

-- It plays, and the connection is lost.
abbrev dropped : List (Outside × Operation)
dropped =
    seen (command start)
    ∷ seen (event 1 logged_on_event)
    ∷ seen (event 1 (disconnected_event (some (pos 3)) none))
    ∷ []

abbrev fresh : Worker
fresh = new_worker disconnected stopped false

boosts : (perform_all playing fresh).status ≡ boosting
unfolding perform_all perform do_command do_event start_now logged_on set_status set_desired
    apply_games play selected_games enforce_limit report_games clear_health reset_conflict
    clear_timers
boosts = refl

perform_all-IsSound_example : IsSound (perform_all dropped fresh)
perform_all-IsSound_example = perform_all-IsSound dropped disconnected stopped false refl

-- What the client still says after a stop changes nothing.
abbrev late : List (Outside × Operation)
late =
    seen (event 0 logged_on_event)
    ∷ seen (event 0 (disconnected_event none none))
    ∷ seen reconnect_fires
    ∷ seen (reconnect_runs 0)
    ∷ []

perform_all-Rests_example : Rests fresh (perform_all late fresh)
perform_all-Rests_example = perform_all-Rests late fresh (refl, (refl, (refl, (refl, tt)))) refl

abbrev no_connection : RetryDecision
no_connection = classify_steam_failure (thrown_of (some (pos 3)))

schedule_reconnect-IsPlanned_example :
    (at : ℕ) × ((schedule_reconnect outside no_connection fresh).health.next_retry_at ≡ some at)
    × IsPlanned outside no_connection at
schedule_reconnect-IsPlanned_example =
    schedule_reconnect-IsPlanned outside no_connection fresh (omega arith)

abbrev asked : List (Outside × Command)
asked = (outside, start) ∷ (outside, resume) ∷ []

connecting_never_logs_in_example :
    (perform_all
      (map (λ x. (x.0, command x.1)) asked)
      (new_worker connecting running false)).login_attempt
    ≡ 0
connecting_never_logs_in_example = connecting_never_logs_in asked running false (refl, (refl, tt))
