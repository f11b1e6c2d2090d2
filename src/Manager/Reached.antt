-- ===== src/Manager/Reached.antt =====
-- apps/server/src/steam/manager.ts: every operation keeps an account calm.
use Prim.Native.Nat.{Ordering}
use steam_bee.Common.{
  ℕ, ◌≡◌, refl, Bool, true, not, ◌&&◌, ◌||◌, Option, some, List, [], ◌∷◌, arith, if-intro, All,
}
use steam_bee.Schedule.{WindowId, Parts}
use steam_bee.Coordinator.{OpenWindow}
use steam_bee.Coordinator.Hold.{get_hold_owner}
use steam_bee.Farming.{stopped}
use steam_bee.Worker.{is_running}
use steam_bee.Manager.{
  Account, pause_until, Outside, Result, user, safety, set_hold, clear_hold, pause_now,
  pause_for_safety, always, by_pause, by_resume, by_settings, by_preset,
}
use steam_bee.Manager.Running
use steam_bee.Manager.Running.{run_farming_interruption, set_free}
use steam_bee.Manager.Automatic.{restarted, is_timed}
use steam_bee.Manager.Operations.{
  Operation, starts, stops, pauses, resumes, refreshes, resumes_for_farming, pauses_until,
  applies_preset, applies_games, ends_farming, ticks_schedules, ticks_safety, timer_fires,
  timer_runs, shows, worker_does, invalidates, edits, shutdown_begins, shutdown_runs, restarts,
  tick_schedules, hold_until, end_hold, perform, perform_all,
}
use steam_bee.Manager.Calm.{IsCalm, is_whole, pause_now-IsCalm, pause_for_safety-at_rest}
use steam_bee.Manager.Kept.{
  free-IsCalm, resting-IsCalm, handle_status-IsCalm, worker_does-IsCalm, begin_shutdown-IsCalm,
  shutdown_now-IsCalm, run_farming_interruption-IsCalm, start_now-free, resume_now-free,
  stop_now-free, refresh_worker_now-IsCalm, apply_preset_now-IsCalm, start-IsCalm,
  resume_for_farming-IsCalm, apply_farming_games-IsCalm, end_farming-IsCalm, tick_safety-IsCalm,
  run_actions-IsCalm, auto_start-IsCalm,
}

-- The end of farming is not broken off between its hold and its pause.
abbrev pub is_unbroken : Operation → Bool
is_unbroken op = elim op [ ends_farming answers ↦ is_whole answers | _ ↦ true ]

module _ (compare_windows : OpenWindow → OpenWindow → Ordering) (zoned : ℕ → Option (ℕ → Parts))
    (is_skipped : WindowId → Bool) (compare_ids : ℕ → ℕ → Ordering) where
  tick_schedules-IsCalm :
      (o : Outside) (a : Account)
      → IsCalm a
      → IsCalm (tick_schedules compare_windows zoned is_skipped compare_ids o a)
  unfolding tick_schedules
  tick_schedules-IsCalm o a c =
      if-intro IsCalm a.worker.quiescing (λ e. c)
        (λ e. record { rests = (run_actions-IsCalm o _ a c).rests })

  hold_until-IsCalm :
      (o : Outside) (until : ℕ) (a : Account)
      → IsCalm a
      → IsCalm (hold_until compare_windows zoned is_skipped compare_ids o until a).0
  unfolding hold_until
  hold_until-IsCalm o until a c =
      let owner =
        get_hold_owner compare_windows zoned is_skipped compare_ids o.worker.now
          a.coordinator.active_window a.coordinator.rows in
      let held = set_hold pause_until (some until) owner a in
      let result = pause_for_safety o always safety held in
      let rests = resting-IsCalm result.0 (pause_for_safety-at_rest o safety held) in
      let Keeps : Result → Type 0 = λ r. IsCalm r.0 in
      if-intro Keeps (a.worker.quiescing || not (is_running a.worker.desired)) (λ e. c)
        (λ e.
          if-intro Keeps (not result.1 && is_timed result.0.hold.reason)
            (λ f. record { rests = rests.rests }) (λ f. rests))

  end_hold-IsCalm :
      (o : Outside) (a : Account)
      → IsCalm a
      → IsCalm (end_hold compare_windows zoned is_skipped compare_ids o a)
  unfolding end_hold clear_hold
  end_hold-IsCalm o a c = record {
    rests = λ h.
        ground
          (arith, h, c.rests, resume_now-free o (clear_hold a), start_now-free o (clear_hold a));
  }

  restarted-IsCalm : (a : Account) → IsCalm a → IsCalm (restarted a)
  unfolding restarted
  restarted-IsCalm a c = record { rests = c.rests }

  perform-IsCalm :
      (o : Outside) (op : Operation) (a : Account)
      → is_unbroken op ≡ true
      → IsCalm a
      → IsCalm (perform compare_windows zoned is_skipped compare_ids o op a)
  unfolding perform Running.stop Running.resume Running.refresh_worker Running.apply_preset
  perform-IsCalm o starts a u c = start-IsCalm o a c
  perform-IsCalm o stops a u c =
      run_farming_interruption-IsCalm o stopped (Running.stop_now o) a
        (λ b d. free-IsCalm _ (stop_now-free o b)) c
  perform-IsCalm o pauses a u c =
      run_farming_interruption-IsCalm o by_pause (pause_now o always user) a
        (λ b d. pause_now-IsCalm o user b always refl d) c
  perform-IsCalm o resumes a u c =
      run_farming_interruption-IsCalm o by_resume (Running.resume_now o) a
        (λ b d. free-IsCalm _ (resume_now-free o b)) c
  perform-IsCalm o refreshes a u c =
      run_farming_interruption-IsCalm o by_settings (Running.refresh_worker_now o) a
        (refresh_worker_now-IsCalm o) c
  perform-IsCalm o resumes_for_farming a u c = resume_for_farming-IsCalm o a c
  perform-IsCalm o (pauses_until until) a u c = hold_until-IsCalm o until a c
  perform-IsCalm o (applies_preset id) a u c =
      run_farming_interruption-IsCalm o by_preset (Running.apply_preset_now o id) a
        (apply_preset_now-IsCalm o id) c
  perform-IsCalm o (applies_games app_ids answers) a u c =
      apply_farming_games-IsCalm o app_ids answers a c
  perform-IsCalm o (ends_farming answers) a u c = end_farming-IsCalm o answers a u c
  perform-IsCalm o ticks_schedules a u c = tick_schedules-IsCalm o a c
  perform-IsCalm o ticks_safety a u c = tick_safety-IsCalm o a c
  perform-IsCalm o timer_fires a u c = record { rests = c.rests }
  perform-IsCalm o timer_runs a u c = end_hold-IsCalm o a c
  perform-IsCalm o (shows status cleans_up) a u c = handle_status-IsCalm status cleans_up a c
  perform-IsCalm o (worker_does op) a u c = worker_does-IsCalm o op a c
  perform-IsCalm o invalidates a u c = record { rests = c.rests }
  perform-IsCalm o (edits games titled limits) a u c = record { rests = c.rests }
  perform-IsCalm o shutdown_begins a u c = begin_shutdown-IsCalm o a c
  perform-IsCalm o shutdown_runs a u c = shutdown_now-IsCalm o a c
  perform-IsCalm o restarts a u c =
      auto_start-IsCalm o _ (tick_schedules-IsCalm o _ (restarted-IsCalm a c))

  -- Whatever operations run on a calm account, it is calm.
  pub perform_all-IsCalm :
      (ops : List (Outside × Operation)) (a : Account)
      → All (λ x. is_unbroken x.1 ≡ true) ops
      → IsCalm a
      → IsCalm (perform_all compare_windows zoned is_skipped compare_ids ops a)
  unfolding perform_all
  perform_all-IsCalm [] a u c = c
  perform_all-IsCalm (x ∷ xs) a u c = perform_all-IsCalm xs _ u.1 (perform-IsCalm x.0 x.1 a u.0 c)
