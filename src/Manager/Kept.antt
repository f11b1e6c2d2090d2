-- ===== src/Manager/Kept.antt =====
-- apps/server/src/steam/manager.ts: the operations that users call or that run by themselves keep an
-- account calm.
use steam_bee.Common.{
  ℕ, ◌≡◌, refl, ◌∙◌, sym, Bool, true, false, not, ◌&&◌, ◌||◌, Option, none, some, List, [], ◌∷◌,
  ltb, length, arith, if◌then◌else◌, if-intro,
}
use steam_bee.Coordinator.{Action, apply_preset, resume_or_start, pause}
use steam_bee.Safety.{Context}
use steam_bee.Farming.{Reason}
use steam_bee.Worker.{
  Worker, Status, is_running, clear_farming_selection, clear_health, set_desired, set_status,
  clear_timers, reset_conflict, report_games, is_some, game_limit,
}
use steam_bee.Worker.Commands
use steam_bee.Worker.Commands.{is_on}
use steam_bee.Worker.Operations
use steam_bee.Worker.Rest.{
  Rests, is_command, begin_shutdown-Rests, shutdown_now-Rests, perform-Rests,
}
use steam_bee.Worker.Kept
use steam_bee.Manager.{
  Account, Preset, Outside, Result, user, scheduler, safety, farming, outside_of, halt_farming,
  always, by_start, by_preset, is_held,
}
use steam_bee.Manager.Running
use steam_bee.Manager.Running.{run_farming_interruption, set_free}
use steam_bee.Manager.Automatic.{
  hold_at_limit, tick_safety, resume_or_start_now, run_actions, auto_start, handle_status,
  begin_shutdown, shutdown_now, is_timed, is_manual_pause,
}
use steam_bee.Manager.Calm.{
  IsCalm, is_whole, pause_now-IsCalm, pause_for_safety-IsCalm, pause_for_safety-at_rest,
}

pub free-IsCalm : (a : Account) → a.worker.held ≡ false → IsCalm a
free-IsCalm a e = record { rests = λ h. ground (arith, e, h) }

pub resting-IsCalm : (a : Account) → is_running a.worker.desired ≡ false → IsCalm a
resting-IsCalm a e = record { rests = λ h. e }

pub halt_farming-IsCalm :
    (reason : Reason) (keeps : Bool) (a : Account) → IsCalm a → IsCalm (halt_farming reason keeps a)
unfolding halt_farming clear_farming_selection
halt_farming-IsCalm reason keeps a c = record { rests = c.rests }

-- An operation that keeps the hold and the intent.
pub kept-IsCalm :
    (a : Account) (w : Worker)
    → (w.held ≡ a.worker.held) × (w.desired ≡ a.worker.desired)
    → IsCalm a
    → IsCalm (record a { worker = w })
kept-IsCalm a w k c = record { rests = λ h. ground (arith, k.0, k.1, c.rests, h) }

pub handle_status-IsCalm :
    (status : Status) (cleans_up : Bool) (a : Account)
    → IsCalm a
    → IsCalm (handle_status status cleans_up a)
unfolding handle_status
handle_status-IsCalm status cleans_up a c =
    if-intro IsCalm (is_on status || (is_manual_pause status && cleans_up)) (λ e. c)
      (λ e. halt_farming-IsCalm _ true a c)

-- What the worker does by itself keeps its hold, and does not ask it to run.
pub does-IsCalm :
    (a b : Account)
    → b.worker.held ≡ a.worker.held
    → (is_running a.worker.desired ≡ false → Rests a.worker b.worker)
    → IsCalm a
    → IsCalm b
does-IsCalm a b e r c = record { rests = λ h. (r (c.rests (sym e ∙ h))).at_rest }

pub worker_does-IsCalm :
    (o : Outside) (op : Operations.Operation) (a : Account)
    → IsCalm a
    → IsCalm (
        if is_command op
        then a
        else record a { worker = Operations.perform (outside_of o a) op a.worker })
worker_does-IsCalm o op a c =
    if-intro IsCalm (is_command op) (λ e. c)
      (λ e.
        does-IsCalm a _ (Kept.perform-held (outside_of o a) op a.worker e)
          (perform-Rests (outside_of o a) op a.worker e) c)

pub begin_shutdown-IsCalm : (o : Outside) (a : Account) → IsCalm a → IsCalm (begin_shutdown o a)
unfolding begin_shutdown
begin_shutdown-IsCalm o a =
    does-IsCalm a _ (Kept.begin_shutdown-held o.worker a.worker)
      (begin_shutdown-Rests o.worker a.worker)

pub shutdown_now-IsCalm : (o : Outside) (a : Account) → IsCalm a → IsCalm (shutdown_now o a)
unfolding shutdown_now
shutdown_now-IsCalm o a =
    does-IsCalm a _ (Kept.shutdown_now-held o.worker a.worker)
      (shutdown_now-Rests o.worker a.worker)

module _ (o : Outside) where
  pub run_farming_interruption-IsCalm :
      (reason : Reason) (operation : Account → Result) (a : Account)
      → ((b : Account) → IsCalm b → IsCalm (operation b).0)
      → IsCalm a
      → IsCalm (run_farming_interruption o reason operation a).0
  unfolding run_farming_interruption
  run_farming_interruption-IsCalm reason operation a k c =
      let halted = halt_farming-IsCalm reason false a c in
      let Keeps : Result → Type 0 = λ r. IsCalm r.0 in
      if-intro Keeps a.worker.quiescing (λ e. halted)
        (λ e.
          if-intro Keeps
            ((operation (halt_farming reason false a)).1 && is_some a.worker.farming_app_ids)
            (λ f. pause_for_safety-IsCalm o user _ always refl (k _ halted)) (λ f. k _ halted))

  pub start_now-free : (a : Account) → (Running.start_now o a).0.worker.held ≡ false
  unfolding Running.start_now clear_health
  start_now-free a = Kept.start_now-held _ _

  pub resume_now-free : (a : Account) → (Running.resume_now o a).0.worker.held ≡ false
  unfolding Running.resume_now clear_health
  resume_now-free a = Kept.resume_now-held _ _

  pub stop_now-free : (a : Account) → (Running.stop_now o a).0.worker.held ≡ false
  unfolding Running.stop_now Commands.stop_now set_status report_games set_desired clear_health
      reset_conflict clear_timers clear_farming_selection
  stop_now-free a = refl

  pub refresh_worker_now-IsCalm :
      (a : Account) → IsCalm a → IsCalm (Running.refresh_worker_now o a).0
  unfolding Running.refresh_worker_now
  refresh_worker_now-IsCalm a =
      kept-IsCalm a _ (Kept.update_account-kept (outside_of o a) a.worker.desired a.titled a.worker)

  pub apply_found-IsCalm :
      (found : Option Preset) (a : Account) → IsCalm a → IsCalm (Running.apply_found o found a).0
  unfolding Running.apply_found
  apply_found-IsCalm none a c = c
  apply_found-IsCalm (some p) a c =
      if-intro (λ (r : Result). IsCalm r.0) (ltb (game_limit p.titled) (length p.app_ids)) (λ e. c)
        (λ e.
          refresh_worker_now-IsCalm (record a { games = p.app_ids; titled = p.titled })
            (record { rests = c.rests }))

  pub apply_preset_now-IsCalm :
      (id : ℕ) (a : Account) → IsCalm a → IsCalm (Running.apply_preset_now o id a).0
  unfolding Running.apply_preset_now
  apply_preset_now-IsCalm id a c =
      apply_found-IsCalm (o.presets id) _ (halt_farming-IsCalm by_preset false a c)

  pub start-IsCalm : (a : Account) → IsCalm a → IsCalm (Running.start o a).0
  unfolding Running.start
  start-IsCalm a c =
      if-intro (λ (r : Result). IsCalm r.0)
        (a.worker.connected && (is_some a.worker.farming_app_ids && is_on a.worker.status)) (λ e. c)
        (λ e.
          run_farming_interruption-IsCalm by_start (Running.start_now o) a
            (λ b d. free-IsCalm _ (start_now-free b)) c)

  pub resume_for_farming-IsCalm : (a : Account) → IsCalm a → IsCalm (Running.resume_for_farming o a)
  unfolding Running.resume_for_farming clear_health
  resume_for_farming-IsCalm a c =
      let available = Running.get_farming_availability a in
      if-intro IsCalm (available.allowed || not available.resumable) (λ e. c)
        (λ e. free-IsCalm _ (Kept.resume_for_farming-held _ _))

  pub apply_farming_games-IsCalm :
      (app_ids : List ℕ) (answers : ℕ → Bool) (a : Account)
      → IsCalm a
      → IsCalm (Running.apply_farming_games o app_ids answers a)
  unfolding Running.apply_farming_games
  apply_farming_games-IsCalm app_ids answers a c =
      if-intro IsCalm (answers 0 && ((Running.get_farming_availability a).allowed && answers 1))
        (λ e.
          kept-IsCalm a _
            (Kept.apply_farming-kept (outside_of o a) app_ids (answers 2) (answers 3) (answers 4)
              a.worker)
            c)
        (λ e. c)

  pub end_farming-IsCalm :
      (answers : ℕ → Bool) (a : Account)
      → is_whole answers ≡ true
      → IsCalm a
      → IsCalm (Running.end_farming o answers a)
  unfolding Running.end_farming
  end_farming-IsCalm answers a w c =
      if-intro IsCalm
        (a.worker.quiescing || not (answers 13 && (answers 14 && is_some a.worker.farming_app_ids)))
        (λ e. c) (λ e. pause_for_safety-IsCalm o farming a answers w c)

  pub hold_at_limit-IsCalm :
      (found : Option Context) (a : Account) → IsCalm a → IsCalm (hold_at_limit o found a)
  unfolding hold_at_limit
  hold_at_limit-IsCalm none a c = c
  hold_at_limit-IsCalm (some x) a c = resting-IsCalm _ (pause_for_safety-at_rest o safety _)

  pub tick_safety-IsCalm : (a : Account) → IsCalm a → IsCalm (tick_safety o a)
  unfolding tick_safety
  tick_safety-IsCalm a c =
      if-intro IsCalm (a.worker.quiescing || a.worker.held) (λ e. c)
        (λ e. hold_at_limit-IsCalm _ a c)

  pub resume_or_start_now-free : (a : Account) → (resume_or_start_now o a).0.worker.held ≡ false
  unfolding resume_or_start_now
  resume_or_start_now-free a = ground (arith, resume_now-free a, start_now-free a)

  pub run_actions-IsCalm :
      (actions : List Action) (a : Account) → IsCalm a → IsCalm (run_actions o actions a)
  unfolding run_actions
  run_actions-IsCalm [] a c = c
  run_actions-IsCalm (apply_preset id ∷ actions) a c =
      run_actions-IsCalm actions _ (apply_preset_now-IsCalm id a c)
  run_actions-IsCalm (resume_or_start ∷ actions) a c =
      run_actions-IsCalm actions _ (free-IsCalm _ (resume_or_start_now-free a))
  run_actions-IsCalm (pause ∷ actions) a c =
      run_actions-IsCalm actions _ (pause_now-IsCalm o scheduler a always refl c)

  pub auto_start-IsCalm : (a : Account) → IsCalm a → IsCalm (auto_start o a)
  unfolding auto_start clear_health
  auto_start-IsCalm a c =
      if-intro IsCalm (a.worker.held && (is_timed a.hold.reason && is_some a.hold.until))
        (λ e. record { rests = c.rests })
        (λ e.
          if-intro IsCalm (is_running a.worker.desired && not (is_held a))
            (λ f. free-IsCalm _ (Kept.start_now-held _ (clear_health a.worker) ∙ ground (arith, f)))
            (λ f. c))
