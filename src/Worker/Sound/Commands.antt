-- ===== src/Worker/Sound/Commands.antt =====
-- apps/server/src/steam/worker.ts: the commands keep a worker sound.
use steam_bee.Common.{
  Bool, true, false, not, ◌||◌, some, List, String, arith, if-intro, ℕ, Option-cases, inl, inr,
}
use steam_bee.Worker.{
  Worker, Outside, Desired, set_status, report_games, clear_farming_selection, set_desired,
  clear_health, clear_timers, reset_conflict, enforce_limit,
}
use steam_bee.Worker.Commands.{
  start_now, stop_now, begin_shutdown, shutdown_now, pause_now, force_disconnect, mark_attention,
  resume_now, resume_for_farming, update_account, apply_farming, start_or_apply,
}
use steam_bee.Worker.Sound.{IsSound, apply_games-IsSound}

pub start_now-IsSound : (o : Outside) (w : Worker) → IsSound w → IsSound (start_now o w)
unfolding start_now set_status set_desired
start_now-IsSound o w v = ground arith

pub stop_now-IsSound : (o : Outside) (w : Worker) → IsSound w → IsSound (stop_now o w)
unfolding stop_now set_status report_games set_desired clear_health reset_conflict clear_timers
    clear_farming_selection
stop_now-IsSound o w v = ground arith

pub begin_shutdown-IsSound : (o : Outside) (w : Worker) → IsSound w → IsSound (begin_shutdown o w)
unfolding begin_shutdown reset_conflict clear_timers clear_farming_selection
begin_shutdown-IsSound o w v = ground arith

pub shutdown_now-IsSound : (o : Outside) (w : Worker) → IsSound w → IsSound (shutdown_now o w)
unfolding shutdown_now set_status report_games set_desired reset_conflict clear_timers
shutdown_now-IsSound o w v = ground arith

pub mark_attention-IsSound :
    (o : Outside) (m : String) (w : Worker) → IsSound w → IsSound (mark_attention o m w)
unfolding mark_attention set_status set_desired reset_conflict clear_timers
mark_attention-IsSound o m w v = ground arith

pub pause_now-IsSound :
    (o : Outside) (a b c : Bool) (w : Worker) → IsSound w → IsSound (pause_now o a b c w)
unfolding pause_now set_status report_games set_desired clear_health reset_conflict clear_timers
    clear_farming_selection
pause_now-IsSound o a b c w v = ground arith

pub force_disconnect-IsSound :
    (o : Outside) (m : String) (a b : Bool) (w : Worker)
    → IsSound w
    → IsSound (force_disconnect o m a b w)
unfolding force_disconnect set_status report_games set_desired clear_health reset_conflict
    clear_timers clear_farming_selection
force_disconnect-IsSound o m a b w v = ground arith

start_or_apply-IsSound : (o : Outside) (w : Worker) → IsSound w → IsSound (start_or_apply o w)
start_or_apply-IsSound o w v =
    if-intro IsSound w.connected (λ e. apply_games-IsSound o true w v)
      (λ e. start_now-IsSound o w v)

pub resume_now-IsSound : (o : Outside) (w : Worker) → IsSound w → IsSound (resume_now o w)
unfolding resume_now set_desired
resume_now-IsSound o w v = start_or_apply-IsSound o _ (ground arith)

pub resume_for_farming-IsSound :
    (o : Outside) (w : Worker) → IsSound w → IsSound (resume_for_farming o w)
unfolding resume_for_farming set_desired
resume_for_farming-IsSound o w v = start_or_apply-IsSound o _ (ground arith)

pub update_account-IsSound :
    (o : Outside) (d : Desired) (titled : Bool) (w : Worker)
    → IsSound w
    → IsSound (update_account o d titled w)
unfolding update_account clear_health reset_conflict clear_timers
update_account-IsSound o d titled w v =
    if-intro IsSound w.quiescing (λ e. ground arith)
      (λ e. apply_games-IsSound o true _ (ground arith))

pub apply_farming-IsSound :
    (o : Outside) (app_ids : List ℕ) (a b c : Bool) (w : Worker)
    → IsSound w
    → IsSound (apply_farming o app_ids a b c w)
unfolding apply_farming clear_farming_selection
apply_farming-IsSound o app_ids a b c w v =
    let chosen = record w { farming_app_ids = some app_ids; awaiting_farming = false } in
    if-intro IsSound
      (not a || (not w.connected || (w.quiescing || (w.manually_paused || w.blocked)))) (λ e. v)
      (λ e.
        elim (Option-cases
          (enforce_limit w.titled (record { titled = false; app_ids = app_ids }))) [
            | inl n ↦ rw n v
            | inr (p, n) ↦ rw n (
                if-intro IsSound b (λ f. apply_games-IsSound o c chosen (ground arith))
                  (λ f. ground arith))
          ])
