-- ===== src/Worker/Sound/Reached.antt =====
-- apps/server/src/steam/worker.ts: a worker is sound after every sequence of operations.
use steam_bee.Common.{Bool, false, not, ◌||◌, List, [], ◌∷◌, ◌≡◌, arith, if-intro, ◌==◌}
use steam_bee.Worker.{
  Status, Desired, Worker, Outside, is_boosting, is_running, clear_farming_selection,
}
use steam_bee.Worker.Operations.{
  Command, Event, Operation, start, stop, pause, force, attend, resume, resume_farming, update,
  farm, logged_on_event, playing_state, disconnected_event, error_event, command, event,
  reconnect_fires, conflict_fires, reconnect_runs, conflict_runs, halts_farming, shutdown_begins,
  shutdown_runs, do_command, do_event, perform, perform_all, new_worker,
}
use steam_bee.Worker.Sound.{IsSound}
use steam_bee.Worker.Sound.Commands.{
  start_now-IsSound, stop_now-IsSound, begin_shutdown-IsSound, shutdown_now-IsSound,
  pause_now-IsSound, force_disconnect-IsSound, mark_attention-IsSound, resume_now-IsSound,
  resume_for_farming-IsSound, update_account-IsSound, apply_farming-IsSound,
}
use steam_bee.Worker.Sound.Events.{
  logged_on-IsSound, block-IsSound, unblock-IsSound, lost-IsSound, failed-IsSound,
  retry_conflict-IsSound, reconnect-IsSound,
}

module _ (o : Outside) (w : Worker) (v : IsSound w) where
  do_command-IsSound : (c : Command) → IsSound (do_command o c w)
  unfolding do_command
  do_command-IsSound start = start_now-IsSound o w v
  do_command-IsSound stop = stop_now-IsSound o w v
  do_command-IsSound (pause a b c) = pause_now-IsSound o a b c w v
  do_command-IsSound (force message a b) = force_disconnect-IsSound o message a b w v
  do_command-IsSound (attend message) = mark_attention-IsSound o message w v
  do_command-IsSound resume = resume_now-IsSound o w v
  do_command-IsSound resume_farming = resume_for_farming-IsSound o w v
  do_command-IsSound (update d titled) = update_account-IsSound o d titled w v
  do_command-IsSound (farm app_ids a b c) = apply_farming-IsSound o app_ids a b c w v

  do_event-IsSound : (e : Event) → IsSound (do_event o e w)
  unfolding do_event
  do_event-IsSound logged_on_event =
      if-intro IsSound (is_running w.desired) (λ h. logged_on-IsSound o w v) (λ h. v)
  do_event-IsSound (playing_state is_blocked) =
      if-intro IsSound is_blocked (λ h. block-IsSound o w v) (λ h. unblock-IsSound o w v)
  do_event-IsSound (disconnected_event eresult message) = lost-IsSound o w v eresult message
  do_event-IsSound (error_event value message) = failed-IsSound o w v value message

  -- Every operation keeps a worker sound.
  perform-IsSound : (op : Operation) → IsSound (perform o op w)
  unfolding perform clear_farming_selection
  perform-IsSound (command c) = if-intro IsSound w.quiescing (λ h. v) (λ h. do_command-IsSound c)
  perform-IsSound (event g e) =
      if-intro IsSound (w.quiescing || not (g == w.intent_generation)) (λ h. v)
        (λ h. do_event-IsSound e)
  perform-IsSound reconnect_fires = ground arith
  perform-IsSound conflict_fires = ground arith
  perform-IsSound (reconnect_runs g) = reconnect-IsSound o g w v
  perform-IsSound (conflict_runs g resets) = retry_conflict-IsSound o g resets w v
  perform-IsSound (halts_farming keeps_awaiting) = ground arith
  perform-IsSound shutdown_begins = begin_shutdown-IsSound o w v
  perform-IsSound shutdown_runs = shutdown_now-IsSound o w v

perform_from-IsSound :
    (ops : List (Outside × Operation)) (w : Worker) → IsSound w → IsSound (perform_all ops w)
unfolding perform_all
perform_from-IsSound [] w v = v
perform_from-IsSound (op ∷ ops) w v =
    perform_from-IsSound ops (perform op.0 op.1 w) (perform-IsSound op.0 w v op.1)

-- After any sequence of commands, events of the client, retries and shutdown, from a worker that is made
-- of a row that is not `boosting`: a worker that shows `boosting` is connected, not blocked and plays
-- something; a conflict of the current login is handled only without a connection; a reconnect and a
-- retry after a conflict are never both planned; and at most 32 games are reported.
pub perform_all-IsSound :
    (ops : List (Outside × Operation)) (status : Status) (d : Desired) (titled : Bool)
    → is_boosting status ≡ false
    → IsSound (perform_all ops (new_worker status d titled))
perform_all-IsSound ops status d titled e = perform_from-IsSound ops _ (ground (arith, e))
