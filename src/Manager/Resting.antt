-- ===== src/Manager/Resting.antt =====
-- apps/server/src/steam/manager.ts: the operations that keep a hold and leave the account at rest.
use steam_bee.Common.{
  ℕ, refl, ◌∙◌, Bool, true, false, not, ◌&&◌, ◌||◌, inl, List, arith, if◌then◌else◌, if-intro,
}
use steam_bee.Worker.{Status, is_some}
use steam_bee.Worker.Commands.{is_on}
use steam_bee.Worker.Operations
use steam_bee.Worker.Rest.{is_command, begin_shutdown-Rests, shutdown_now-Rests, perform-Rests}
use steam_bee.Worker.Kept
use steam_bee.Manager.{
  Hold, Account, Outside, Result, user, farming, outside_of, halt_farming, pause_now, always,
  by_pause,
}
use steam_bee.Manager.Running
use steam_bee.Manager.Running.{run_farming_interruption}
use steam_bee.Manager.Automatic.{
  is_timed, is_after, is_manual_pause, tick_safety, handle_status, begin_shutdown, shutdown_now,
}
use steam_bee.Manager.Operations.{
  Operation, starts, stops, resumes, refreshes, resumes_for_farming, applies_preset, timer_runs,
  restarts,
}
use steam_bee.Manager.Held.{
  StaysHeld, IsHeld, StaysHeld-refl, StaysHeld-trans, IsHeld-after, halt_farming-StaysHeld,
  kept-StaysHeld, pause_now-StaysHeld, pause_for_safety-StaysHeld,
}

-- The operations that ask an account to run, or have it read its row again.
abbrev pub wakes : Operation → Bool
wakes op = elim op [
  | starts ↦ true
  | stops ↦ true
  | resumes ↦ true
  | refreshes ↦ true
  | resumes_for_farming ↦ true
  | applies_preset id ↦ true
  | restarts ↦ true
  | _ ↦ false
]

abbrev pub ends_hold : Operation → Bool
ends_hold op = elim op [ timer_runs ↦ true | _ ↦ false ]

-- An operation that does not wake the account; the end of a timed hold is not run before its time.
abbrev pub is_restful : Hold → Outside × Operation → Bool
is_restful hold x =
    not (wakes x.1)
    && (not (ends_hold x.1) || (not (is_timed hold.reason) || is_after hold.until x.0.worker.now))

module _ (o : Outside) (a : Account) (h : IsHeld a) where
  pub pauses-StaysHeld :
      StaysHeld a (run_farming_interruption o by_pause (pause_now o always user) a).0
  unfolding run_farming_interruption
  pauses-StaysHeld =
      let halted = halt_farming by_pause false a in
      let first = halt_farming-StaysHeld a h by_pause false in
      let paused = pause_now o always user halted in
      let second =
        StaysHeld-trans a halted paused.0 first
          (pause_now-StaysHeld o always user halted (IsHeld-after a halted first)) in
      let Stays : Result → Type 0 = λ r. StaysHeld a r.0 in
      if-intro Stays a.worker.quiescing (λ e. first)
        (λ e.
          if-intro Stays (paused.1 && is_some a.worker.farming_app_ids)
            (λ f.
              StaysHeld-trans a paused.0 _ second (
                pause_for_safety-StaysHeld o always user paused.0 (IsHeld-after a paused.0 second)))
            (λ f. second))

  pub apply_farming_games-StaysHeld :
      (app_ids : List ℕ) (answers : ℕ → Bool)
      → StaysHeld a (Running.apply_farming_games o app_ids answers a)
  unfolding Running.apply_farming_games Running.get_farming_availability
  apply_farming_games-StaysHeld app_ids answers =
      if-intro (StaysHeld a)
        (answers 0 && ((Running.get_farming_availability a).allowed && answers 1))
        (λ e. ground (arith, e, h.0)) (λ e. StaysHeld-refl a h)

  pub end_farming-StaysHeld : (answers : ℕ → Bool) → StaysHeld a (Running.end_farming o answers a)
  unfolding Running.end_farming
  end_farming-StaysHeld answers =
      if-intro (StaysHeld a)
        (a.worker.quiescing || not (answers 13 && (answers 14 && is_some a.worker.farming_app_ids)))
        (λ e. StaysHeld-refl a h) (λ e. pause_for_safety-StaysHeld o answers farming a h)

  pub tick_safety-StaysHeld : StaysHeld a (tick_safety o a)
  unfolding tick_safety
  tick_safety-StaysHeld =
      if-intro (StaysHeld a) (a.worker.quiescing || a.worker.held) (λ e. StaysHeld-refl a h)
        (λ e. ground (arith, e, h.0))

  pub handle_status-StaysHeld :
      (status : Status) (cleans_up : Bool) → StaysHeld a (handle_status status cleans_up a)
  unfolding handle_status
  handle_status-StaysHeld status cleans_up =
      if-intro (StaysHeld a) (is_on status || (is_manual_pause status && cleans_up))
        (λ e. StaysHeld-refl a h) (λ e. halt_farming-StaysHeld a h _ true)

  pub worker_does-StaysHeld :
      (op : Operations.Operation)
      → StaysHeld a (
          if is_command op
          then a
          else record a { worker = Operations.perform (outside_of o a) op a.worker })
  worker_does-StaysHeld op =
      if-intro (StaysHeld a) (is_command op) (λ e. StaysHeld-refl a h)
        (λ e. kept-StaysHeld a _ h (
          Kept.perform-held (outside_of o a) op a.worker e,
          perform-Rests (outside_of o a) op a.worker e h.1,
        ))

  pub begin_shutdown-StaysHeld : StaysHeld a (begin_shutdown o a)
  unfolding begin_shutdown
  begin_shutdown-StaysHeld = record {
    held = Kept.begin_shutdown-held o.worker a.worker ∙ h.0;
    lasting = inl refl;
    quiet = begin_shutdown-Rests o.worker a.worker h.1;
  }

  pub shutdown_now-StaysHeld : StaysHeld a (shutdown_now o a)
  unfolding shutdown_now
  shutdown_now-StaysHeld = record {
    held = Kept.shutdown_now-held o.worker a.worker ∙ h.0;
    lasting = inl refl;
    quiet = shutdown_now-Rests o.worker a.worker h.1;
  }
