-- ===== src/Safety/Tests.antt =====
-- apps/server/src/steam/safety-coordinator.ts: an account whose session was rotated once.
use steam_bee.Common.{ℕ, ◌+◌, ◌*◌, ◌≤◌, ◌≡◌, refl, ◌↔◌, none, some, List, [], ◌∷◌, arith}
use steam_bee.Safety.{
  selection_changed, session_limit, boosting, running, BoostSession, Policy, Context,
  continuous_session_ms, session_ms, go_back, sort_sessions, place_session, exceeded_cap,
  cap_result, sum_overlap, hold, enforce,
}
use steam_bee.Safety.Chain.{IsContinuous, continuous_session_ms-IsContinuous}
use steam_bee.Safety.Laws.{
  IsWithin, exceeded_cap_iff, IsEnforced, enforce-IsEnforced, enforce-enforce,
}

abbrev minutes : ℕ → ℕ
minutes n = 864_000_000 + n * 60_000

-- The rotation at 30 minutes joins the two; the gap before ten minutes is a break.
abbrev sessions : List BoostSession
sessions =
    record { started_at = minutes 30; ended_at = none; stop_reason = none }
    ∷ record { started_at = minutes 0; ended_at = some (minutes 5); stop_reason = none }
    ∷ record {
      started_at = minutes 10;
      ended_at = some (minutes 30);
      stop_reason = some selection_changed;
    }
    ∷ []

abbrev policy : Policy
policy = record {
  max_session_minutes = some 60;
  max_daily_minutes = some 600;
  max_weekly_minutes = none;
  hold_reason = none;
  status = boosting;
  desired_state = running;
}

abbrev pause : Context
pause = record { reason = session_limit; consumed_minutes = 60; limit_minutes = 60 }

joins_rotation : continuous_session_ms sessions (minutes 70) ≡ 60 * 60_000
unfolding continuous_session_ms session_ms go_back sort_sessions place_session
joins_rotation = refl

pauses : (enforce policy sessions (minutes 70)).1 ≡ some pause
unfolding enforce hold exceeded_cap cap_result continuous_session_ms session_ms go_back
    sort_sessions place_session sum_overlap
pauses = refl

continuous_session_ms-IsContinuous_example :
    IsContinuous
      (λ s. 864_000_000 ≤ s.started_at)
      sessions
      (minutes 70)
      (continuous_session_ms sessions (minutes 70))
continuous_session_ms-IsContinuous_example =
    continuous_session_ms-IsContinuous (λ s. 864_000_000 ≤ s.started_at) sessions (minutes 70)
      (omega arith, (omega arith, (omega arith, tt)))

exceeded_cap_iff_example :
    (exceeded_cap policy sessions (minutes 40) ≡ none) ↔ IsWithin policy sessions (minutes 40)
exceeded_cap_iff_example = exceeded_cap_iff policy sessions (minutes 40)

enforce-IsEnforced_example :
    IsEnforced policy sessions (minutes 70) (enforce policy sessions (minutes 70))
enforce-IsEnforced_example = enforce-IsEnforced policy sessions (minutes 70)

enforce-enforce_example :
    enforce (enforce policy sessions (minutes 70)).0 sessions (minutes 71)
    ≡ ((enforce policy sessions (minutes 70)).0, none)
enforce-enforce_example =
    enforce-enforce policy sessions sessions (minutes 70) (minutes 71) pause pauses
