-- ===== src/Worker/Rest.antt =====
-- apps/server/src/steam/worker.ts: an account that is not to run is not logged in by anything but a
-- command.
use steam_bee.Common.{
  ℕ, Bool, true, false, not, ◌||◌, Option, none, some, List, [], ◌∷◌, String, ◌≡◌, refl, ◌∙◌, arith,
  if-intro, ◌==◌, ◌⊎◌, inl, All,
}
use steam_bee.Common.Int.{ℤ}
use steam_bee.Retry.{RetryDecision, Thrown, classify_steam_failure}
use steam_bee.Worker.{
  Worker, Outside, Status, disconnected, status_error, no_games, is_running, report_games,
  clear_farming_selection, set_desired, set_status, clear_timers, reset_conflict, register_conflict,
}
use steam_bee.Worker.Commands.{begin_shutdown, shutdown_now}
use steam_bee.Worker.Events.{
  block, unblock, terminal_failure, login_conflict, lose_connection, thrown_of, lost, failed,
  retry_conflict, reconnect, has_handled, is_replaced, is_due,
}
use steam_bee.Worker.Operations.{
  Event, Operation, logged_on_event, playing_state, disconnected_event, error_event, command, event,
  reconnect_fires, conflict_fires, reconnect_runs, conflict_runs, halts_farming, shutdown_begins,
  shutdown_runs, do_event, perform, perform_all,
}

-- What an operation leaves of a worker that is at rest: it is still not to run, it has not logged in
-- or come to a connection, and it reports the same games or none.
pub record Rests (w r : Worker) : Type 0 where
  pub at_rest : is_running r.desired ≡ false
  pub no_login : r.login_attempt ≡ w.login_attempt
  pub no_link : w.connected ≡ false → r.connected ≡ false
  pub games : (r.reported ≡ w.reported) ⊎ (r.reported ≡ no_games)

pub Rests-refl : (w : Worker) → is_running w.desired ≡ false → Rests w w
Rests-refl w e = record { at_rest = e; no_login = refl; no_link = λ h. h; games = inl refl }

pub Rests-trans : (a b c : Worker) → Rests a b → Rests b c → Rests a c
Rests-trans a b c p q = record {
  at_rest = q.at_rest;
  no_login = q.no_login ∙ p.no_login;
  no_link = λ h. q.no_link (p.no_link h);
  games = ground (arith, p.games, q.games);
}

module _ (o : Outside) (w : Worker) (e : is_running w.desired ≡ false) where
  block-Rests : Rests w (block o w)
  unfolding block set_status report_games set_desired clear_farming_selection register_conflict
  block-Rests = ground (arith, e)

  unblock-Rests : Rests w (unblock o w)
  unfolding unblock
  unblock-Rests = ground (arith, e)

  lose_connection-Rests : (d : RetryDecision) → Rests w (lose_connection o d w)
  unfolding lose_connection clear_farming_selection set_desired
  lose_connection-Rests d = ground (arith, e)

  terminal_failure-Rests :
      (d : RetryDecision) (message : Option String) → Rests w (terminal_failure o d message w)
  unfolding terminal_failure set_status set_desired reset_conflict clear_timers
  terminal_failure-Rests d message = ground (arith, e)

  login_conflict-Rests : (d : RetryDecision) → Rests w (login_conflict o d w)
  unfolding login_conflict register_conflict set_status
  login_conflict-Rests d = ground (arith, e)

  set_status-Rests :
      (status : Status) (message : Option String) → Rests w (set_status o.now status message w)
  unfolding set_status
  set_status-Rests status message = ground (arith, e)

  pub begin_shutdown-Rests : Rests w (begin_shutdown o w)
  unfolding begin_shutdown clear_farming_selection reset_conflict clear_timers
  begin_shutdown-Rests = ground (arith, e)

  pub shutdown_now-Rests : Rests w (shutdown_now o w)
  unfolding shutdown_now set_status report_games set_desired reset_conflict clear_timers
  shutdown_now-Rests = ground (arith, e)

  retry_conflict-Rests : (g : ℕ) (resets : Bool) → Rests w (retry_conflict o g resets w)
  unfolding retry_conflict
  retry_conflict-Rests g resets =
      if-intro (Rests w) (is_due g w) (λ h. ground (arith, h, e)) (λ h. Rests-refl w e)

  reconnect-Rests : (g : ℕ) → Rests w (reconnect o g w)
  unfolding reconnect
  reconnect-Rests g =
      if-intro (Rests w) (is_due g w) (λ h. ground (arith, h, e)) (λ h. Rests-refl w e)

module _ (o : Outside) (w : Worker) (e : is_running w.desired ≡ false) where
  lost-Rests : (eresult : Option ℤ) (message : Option String) → Rests w (lost o eresult message w)
  unfolding lost
  lost-Rests eresult message =
      let d = classify_steam_failure (thrown_of eresult) in
      let gone = lose_connection o d w in
      let r = lose_connection-Rests o w e d in
      if-intro (Rests w) (has_handled w) (λ h. r)
        (λ h.
          if-intro (Rests w) (is_replaced d.error_class)
            (λ f. Rests-trans w gone _ r (login_conflict-Rests o gone r.at_rest d))
            (λ f.
              if-intro (Rests w) d.terminal
                (λ g. Rests-trans w gone _ r (terminal_failure-Rests o gone r.at_rest d _))
                (λ g.
                  if-intro (Rests w) (is_running gone.desired) (λ i. ground (arith, i, r.at_rest))
                    (λ i.
                      Rests-trans w gone _ r
                        (set_status-Rests o gone r.at_rest disconnected none)))))

  failed-Rests : (value : Thrown) (message : String) → Rests w (failed o value message w)
  unfolding failed
  failed-Rests value message =
      let d = classify_steam_failure value in
      let gone = lose_connection o d w in
      let r = lose_connection-Rests o w e d in
      if-intro (Rests w) (has_handled w) (λ h. r)
        (λ h.
          if-intro (Rests w) (is_replaced d.error_class)
            (λ f. Rests-trans w gone _ r (login_conflict-Rests o gone r.at_rest d))
            (λ f.
              if-intro (Rests w) d.terminal
                (λ g. Rests-trans w gone _ r (terminal_failure-Rests o gone r.at_rest d _))
                (λ g.
                  if-intro (Rests w) (is_running gone.desired) (λ i. ground (arith, i, r.at_rest))
                    (λ i.
                      Rests-trans w gone _ r
                        (set_status-Rests o gone r.at_rest status_error (some message))))))

  do_event-Rests : (ev : Event) → Rests w (do_event o ev w)
  unfolding do_event
  do_event-Rests logged_on_event =
      if-intro (Rests w) (is_running w.desired) (λ h. ground (arith, h, e)) (λ h. Rests-refl w e)
  do_event-Rests (playing_state is_blocked) =
      if-intro (Rests w) is_blocked (λ h. block-Rests o w e) (λ h. unblock-Rests o w e)
  do_event-Rests (disconnected_event eresult message) = lost-Rests eresult message
  do_event-Rests (error_event value message) = failed-Rests value message

-- The operations that are no command of a user.
abbrev pub is_command : Operation → Bool
is_command op = elim op [ command c ↦ true | _ ↦ false ]

pub perform-Rests :
    (o : Outside) (op : Operation) (w : Worker)
    → is_command op ≡ false
    → is_running w.desired ≡ false
    → Rests w (perform o op w)
unfolding perform clear_farming_selection
perform-Rests o (command c) w n e = ground (arith, n)
perform-Rests o (event g ev) w n e =
    if-intro (Rests w) (w.quiescing || not (g == w.intent_generation)) (λ h. Rests-refl w e)
      (λ h. do_event-Rests o w e ev)
perform-Rests o reconnect_fires w n e = ground (arith, e)
perform-Rests o conflict_fires w n e = ground (arith, e)
perform-Rests o (reconnect_runs g) w n e = reconnect-Rests o w e g
perform-Rests o (conflict_runs g resets) w n e = retry_conflict-Rests o w e g resets
perform-Rests o (halts_farming keeps_awaiting) w n e = ground (arith, e)
perform-Rests o shutdown_begins w n e = begin_shutdown-Rests o w e
perform-Rests o shutdown_runs w n e = shutdown_now-Rests o w e

-- A worker whose account is paused or stopped stays so under any events of the client, retries,
-- halts of farming and shutdown, whenever they come: it does not log in, it comes to no connection that it
-- did not have, and what it reports stays as it is or becomes nothing.
pub perform_all-Rests :
    (ops : List (Outside × Operation)) (w : Worker)
    → All (λ op. is_command op.1 ≡ false) ops
    → is_running w.desired ≡ false
    → Rests w (perform_all ops w)
unfolding perform_all
perform_all-Rests [] w n e = Rests-refl w e
perform_all-Rests (op ∷ ops) w n e =
    let step = perform-Rests op.0 op.1 w n.0 e in
    Rests-trans w (perform op.0 op.1 w) _ step
      (perform_all-Rests ops (perform op.0 op.1 w) n.1 step.at_rest)
