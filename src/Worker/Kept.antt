-- ===== src/Worker/Kept.antt =====
-- apps/server/src/steam/worker.ts: which operations keep the hold of the account and its intent.
use steam_bee.Common.{
  ℕ, ◌≡◌, refl, ◌∙◌, Bool, true, false, not, ◌&&◌, ◌||◌, Option, none, some, List, String, arith,
  if-intro, ◌==◌,
}
use steam_bee.Common.Int.{ℤ}
use steam_bee.Retry.{RetryDecision, Thrown, classify_steam_failure}
use steam_bee.Worker.{
  Worker, Outside, Desired, Payload, is_running, clear_farming_selection, set_desired, set_status,
  clear_health, clear_timers, reset_conflict, report_games, apply_games, play, selected_games,
  schedule_reconnect, register_conflict,
}
use steam_bee.Worker.Commands.{
  start_now, start_or_apply, resume_now, resume_for_farming, update_account, apply_farming,
  begin_shutdown, shutdown_now,
}
use steam_bee.Worker.Events.{
  logged_on, block, unblock, terminal_failure, login_conflict, lose_connection, thrown_of, lost,
  failed, retry_conflict, retry_blocked, retry_live, reconnect, is_due, is_live,
}
use steam_bee.Worker.Operations.{
  Event, Operation, logged_on_event, playing_state, disconnected_event, error_event, command, event,
  reconnect_fires, conflict_fires, reconnect_runs, conflict_runs, halts_farming, shutdown_begins,
  shutdown_runs, do_event, perform,
}
use steam_bee.Worker.Rest.{is_command}

play-kept :
    (o : Outside) (applies : Bool) (found : Option Payload) (w : Worker)
    → ((play o applies found w).held ≡ w.held) × ((play o applies found w).desired ≡ w.desired)
unfolding play set_status report_games
play-kept o applies none w = (refl, refl)
play-kept o applies (some p) w = ground arith

pub apply_games-kept :
    (o : Outside) (applies : Bool) (w : Worker)
    → ((apply_games o applies w).held ≡ w.held) × ((apply_games o applies w).desired ≡ w.desired)
unfolding apply_games set_status report_games
apply_games-kept o applies w = ground (arith, play-kept o applies (selected_games o w) w)

pub start_now-held : (o : Outside) (w : Worker) → (start_now o w).held ≡ w.held
unfolding start_now set_status set_desired
start_now-held o w = ground arith

start_or_apply-held : (o : Outside) (w : Worker) → (start_or_apply o w).held ≡ w.held
start_or_apply-held o w = ground (arith, start_now-held o w, apply_games-kept o true w)

pub resume_now-held : (o : Outside) (w : Worker) → (resume_now o w).held ≡ w.held
unfolding resume_now set_desired
resume_now-held o w = start_or_apply-held o _

pub resume_for_farming-held : (o : Outside) (w : Worker) → (resume_for_farming o w).held ≡ w.held
unfolding resume_for_farming set_desired
resume_for_farming-held o w = start_or_apply-held o _

pub update_account-kept :
    (o : Outside) (d : Desired) (titled : Bool) (w : Worker)
    → ((update_account o d titled w).held ≡ w.held) × ((update_account o d titled w).desired ≡ d)
unfolding update_account clear_health clear_timers reset_conflict
update_account-kept o d titled w =
    if-intro (λ (r : Worker). (r.held ≡ w.held) × (r.desired ≡ d)) w.quiescing
      (λ e. (ground arith, refl))
      (λ e. let kept = apply_games-kept o true _ in (kept.0 ∙ ground arith, kept.1))

pub apply_farming-kept :
    (o : Outside) (app_ids : List ℕ) (first second third : Bool) (w : Worker)
    → ((apply_farming o app_ids first second third w).held ≡ w.held)
      × ((apply_farming o app_ids first second third w).desired ≡ w.desired)
unfolding apply_farming clear_farming_selection
apply_farming-kept o app_ids first second third w = ground (
  arith,
  apply_games-kept o third (record w { farming_app_ids = some app_ids; awaiting_farming = false }),
)

module _ (o : Outside) (w : Worker) where
  logged_on-held : (logged_on o w).held ≡ w.held
  unfolding logged_on clear_health clear_timers reset_conflict set_status
  logged_on-held =
      if-intro (λ (r : Worker). r.held ≡ w.held) w.quiescing (λ e. refl)
        (λ e. (apply_games-kept o true _).0)

  block-held : (block o w).held ≡ w.held
  unfolding block set_status report_games set_desired clear_farming_selection register_conflict
  block-held = ground arith

  unblock-held : (unblock o w).held ≡ w.held
  unfolding unblock clear_health reset_conflict
  unblock-held =
      if-intro (λ (r : Worker). r.held ≡ w.held)
        (w.blocked && (not w.manually_paused && is_running w.desired))
        (λ e. (apply_games-kept o true _).0) (λ e. refl)

  lose_connection-held : (d : RetryDecision) → (lose_connection o d w).held ≡ w.held
  unfolding lose_connection clear_farming_selection set_desired
  lose_connection-held d = ground arith

  retry_blocked-held : (found : Option Payload) → (retry_blocked o found w).held ≡ w.held
  unfolding retry_blocked register_conflict report_games
  retry_blocked-held none = refl
  retry_blocked-held (some p) = ground arith

  retry_live-held : (retry_live o w).held ≡ w.held
  unfolding retry_live clear_health reset_conflict
  retry_live-held =
      if-intro (λ (r : Worker). r.held ≡ w.held) w.blocked
        (λ e. retry_blocked-held (selected_games o w)) (λ e. (apply_games-kept o true _).0)

  reconnect-held : (g : ℕ) → (reconnect o g w).held ≡ w.held
  unfolding reconnect
  reconnect-held g = ground (arith, start_now-held o w)

  pub shutdown_now-held : (shutdown_now o w).held ≡ w.held
  unfolding shutdown_now set_status report_games set_desired reset_conflict clear_timers
  shutdown_now-held = ground arith

  pub begin_shutdown-held : (begin_shutdown o w).held ≡ w.held
  unfolding begin_shutdown clear_farming_selection reset_conflict clear_timers
  begin_shutdown-held = ground arith

module _ (o : Outside) (w : Worker) where
  lost-held :
      (eresult : Option ℤ) (message : Option String) → (lost o eresult message w).held ≡ w.held
  unfolding lost terminal_failure login_conflict schedule_reconnect register_conflict set_status
      set_desired clear_timers reset_conflict
  lost-held eresult message =
      ground (arith, lose_connection-held o w (classify_steam_failure (thrown_of eresult)))

  failed-held : (value : Thrown) (message : String) → (failed o value message w).held ≡ w.held
  unfolding failed terminal_failure login_conflict schedule_reconnect register_conflict set_status
      set_desired clear_timers reset_conflict
  failed-held value message =
      ground (arith, lose_connection-held o w (classify_steam_failure value))

  retry_conflict-held : (g : ℕ) (resets : Bool) → (retry_conflict o g resets w).held ≡ w.held
  unfolding retry_conflict
  retry_conflict-held g resets =
      if-intro (λ (r : Worker). r.held ≡ w.held) (is_due g w)
        (λ e.
          if-intro (λ (r : Worker). r.held ≡ w.held) (is_live w.conflict_mode)
            (λ f. retry_live-held o _) (λ f. start_now-held o _))
        (λ e. refl)

  do_event-held : (e : Event) → (do_event o e w).held ≡ w.held
  unfolding do_event
  do_event-held logged_on_event = ground (arith, logged_on-held o w)
  do_event-held (playing_state is_blocked) = ground (arith, block-held o w, unblock-held o w)
  do_event-held (disconnected_event eresult message) = lost-held eresult message
  do_event-held (error_event value message) = failed-held value message

-- No operation but a command changes the hold.
pub perform-held :
    (o : Outside) (op : Operation) (w : Worker)
    → is_command op ≡ false
    → (perform o op w).held ≡ w.held
unfolding perform clear_farming_selection
perform-held o (command c) w n = ground (arith, n)
perform-held o (event g e) w n =
    if-intro (λ (r : Worker). r.held ≡ w.held) (w.quiescing || not (g == w.intent_generation))
      (λ h. refl) (λ h. do_event-held o w e)
perform-held o reconnect_fires w n = refl
perform-held o conflict_fires w n = refl
perform-held o (reconnect_runs g) w n = reconnect-held o w g
perform-held o (conflict_runs g resets) w n = retry_conflict-held o w g resets
perform-held o (halts_farming keeps_awaiting) w n = refl
perform-held o shutdown_begins w n = begin_shutdown-held o w
perform-held o shutdown_runs w n = shutdown_now-held o w
