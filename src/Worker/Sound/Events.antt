-- ===== src/Worker/Sound/Events.antt =====
-- apps/server/src/steam/worker.ts: the events of the client and the retries keep a worker sound.
use steam_bee.Common.{
  Bool, true, false, not, ◌&&◌, Option, none, some, String, arith, if-intro, ℕ, ◌≡◌, refl, length,
  ◌≤◌, ◌⊎◌,
}
use steam_bee.Common.Int.{ℤ}
use steam_bee.Retry.{RetryDecision, Thrown, classify_steam_failure}
use steam_bee.Worker.{
  Status, Worker, Outside, Payload, ConflictSource, live, reconnecting, disconnected, status_error,
  set_status, report_games, clear_farming_selection, set_desired, clear_health, clear_timers,
  reset_conflict, is_running, is_boosting, schedule_reconnect, register_conflict, selected_games,
}
use steam_bee.Worker.Events.{
  logged_on, block, unblock, terminal_failure, login_conflict, lose_connection, thrown_of, lost,
  failed, retry_blocked, retry_live, retry_conflict, reconnect, has_handled, is_replaced, is_live,
  is_due,
}
use steam_bee.Worker.Sound.{IsSound, apply_games-IsSound, selected_games-bounded}
use steam_bee.Worker.Sound.Commands.{start_now-IsSound}

register_conflict-IsSound :
    (o : Outside) (source : ConflictSource) (code : Option ℤ) (w : Worker)
    → IsSound w
    → IsSound (register_conflict o source code w)
unfolding register_conflict
register_conflict-IsSound o source code w v = ground arith

schedule_reconnect-IsSound :
    (o : Outside) (d : RetryDecision) (w : Worker) → IsSound w → IsSound (schedule_reconnect o d w)
unfolding schedule_reconnect reset_conflict clear_timers
schedule_reconnect-IsSound o d w v = ground arith

pub logged_on-IsSound : (o : Outside) (w : Worker) → IsSound w → IsSound (logged_on o w)
unfolding logged_on clear_health reset_conflict clear_timers set_status
logged_on-IsSound o w v =
    if-intro IsSound w.quiescing (λ e. ground arith)
      (λ e. apply_games-IsSound o true _ (ground arith))

pub block-IsSound : (o : Outside) (w : Worker) → IsSound w → IsSound (block o w)
unfolding block set_status report_games set_desired clear_farming_selection
block-IsSound o w v =
    if-intro IsSound (not w.blocked && is_running _)
      (λ e. register_conflict-IsSound o live none _ (ground arith)) (λ e. ground arith)

pub unblock-IsSound : (o : Outside) (w : Worker) → IsSound w → IsSound (unblock o w)
unfolding unblock clear_health reset_conflict
unblock-IsSound o w v =
    if-intro IsSound (w.blocked && (not w.manually_paused && is_running w.desired))
      (λ e. apply_games-IsSound o true _ (ground arith)) (λ e. ground arith)

-- A worker that has lost its connection: nothing that `boosting` needs, but the rest of soundness.
record IsGone (w : Worker) : Type 0 where
  off : w.connected ≡ false
  one : (w.reconnect_timer ≡ none) ⊎ (w.conflict_timer ≡ none)
  small : length w.reported.app_ids ≤ 32

-- What a lost connection keeps of a worker.
record IsKept (w r : Worker) : Type 0 where
  status : r.status ≡ w.status
  attempt : r.login_attempt ≡ w.login_attempt
  handled : r.handled_attempt ≡ w.handled_attempt

lose_connection-IsGone :
    (o : Outside) (d : RetryDecision) (w : Worker) → IsSound w → IsGone (lose_connection o d w)
unfolding lose_connection clear_farming_selection set_desired
lose_connection-IsGone o d w v = ground arith

lose_connection-IsKept :
    (o : Outside) (d : RetryDecision) (w : Worker) → IsKept w (lose_connection o d w)
unfolding lose_connection clear_farming_selection set_desired
lose_connection-IsKept o d w = ground arith

-- A conflict that is handled already: the worker did not show `boosting`.
handled-IsSound :
    (w r : Worker) → has_handled w ≡ true → IsSound w → IsKept w r → IsGone r → IsSound r
handled-IsSound w r h v k g = ground (arith, h, v.linked, v.apart, k.status)

login_conflict-IsSound :
    (o : Outside) (d : RetryDecision) (w : Worker)
    → has_handled w ≡ false
    → IsGone w
    → IsSound (login_conflict o d w)
unfolding login_conflict register_conflict set_status
login_conflict-IsSound o d w h g = ground (arith, h)

terminal_failure-IsSound :
    (o : Outside) (d : RetryDecision) (message : Option String) (w : Worker)
    → IsGone w
    → IsSound (terminal_failure o d message w)
unfolding terminal_failure set_status set_desired reset_conflict clear_timers
terminal_failure-IsSound o d message w g = ground arith

not_handled : (w r : Worker) → IsKept w r → has_handled w ≡ false → has_handled r ≡ false
not_handled w r k h = rw (k.attempt, k.handled) h

shown-IsSound :
    (now : ℕ) (status : Status) (message : Option String) (w : Worker)
    → is_boosting status ≡ false
    → IsGone w
    → IsSound (set_status now status message w)
unfolding set_status
shown-IsSound now status message w e g = ground (arith, e)

module _ (o : Outside) (w : Worker) (v : IsSound w) where
  pub lost-IsSound :
      (eresult : Option ℤ) (message : Option String) → IsSound (lost o eresult message w)
  unfolding lost
  lost-IsSound eresult message =
      let d = classify_steam_failure (thrown_of eresult) in
      let gone = lose_connection o d w in
      let g = lose_connection-IsGone o d w v in
      let k = lose_connection-IsKept o d w in
      if-intro IsSound (has_handled w) (λ h. handled-IsSound w gone h v k g)
        (λ h.
          if-intro IsSound (is_replaced d.error_class)
            (λ e. login_conflict-IsSound o d gone (not_handled w gone k h) g)
            (λ e.
              if-intro IsSound d.terminal (λ f. terminal_failure-IsSound o d _ gone g)
                (λ f.
                  if-intro IsSound (is_running gone.desired)
                    (λ i.
                      schedule_reconnect-IsSound o d _
                        (shown-IsSound o.now reconnecting none gone refl g))
                    (λ i. shown-IsSound o.now disconnected none gone refl g))))

  pub failed-IsSound : (value : Thrown) (message : String) → IsSound (failed o value message w)
  unfolding failed
  failed-IsSound value message =
      let d = classify_steam_failure value in
      let gone = lose_connection o d w in
      let g = lose_connection-IsGone o d w v in
      let k = lose_connection-IsKept o d w in
      let shown = shown-IsSound o.now status_error (some message) gone refl g in
      if-intro IsSound (has_handled w) (λ h. handled-IsSound w gone h v k g)
        (λ h.
          if-intro IsSound (is_replaced d.error_class)
            (λ e. login_conflict-IsSound o d gone (not_handled w gone k h) g)
            (λ e.
              if-intro IsSound d.terminal (λ f. terminal_failure-IsSound o d _ gone g)
                (λ f.
                  if-intro IsSound (is_running gone.desired)
                    (λ i. schedule_reconnect-IsSound o d _ shown) (λ i. shown))))

reset_conflict-IsSound : (w : Worker) → IsSound w → IsSound (clear_health (reset_conflict w))
unfolding clear_health reset_conflict
reset_conflict-IsSound w v = ground arith

retry_blocked-IsSound :
    (o : Outside) (found : Option Payload) (w : Worker)
    → ((p : Payload) → found ≡ some p → length p.app_ids ≤ 32)
    → w.blocked ≡ true
    → IsSound w
    → IsSound (retry_blocked o found w)
unfolding retry_blocked report_games
retry_blocked-IsSound o none w h b v = v
retry_blocked-IsSound o (some p) w h b v =
    if-intro IsSound w.quiescing (λ e. v)
      (λ e. register_conflict-IsSound o live none _ (record {
        linked = v.linked;
        unblocked = v.unblocked;
        playing = λ f. ground (arith, v.unblocked f, b);
        apart = v.apart;
        one_retry = v.one_retry;
        bounded = h p refl;
      }))

retry_live-IsSound : (o : Outside) (w : Worker) → IsSound w → IsSound (retry_live o w)
unfolding retry_live
retry_live-IsSound o w v =
    if-intro IsSound w.blocked
      (λ b. retry_blocked-IsSound o (selected_games o w) w (selected_games-bounded o w) b v)
      (λ b. apply_games-IsSound o true _ (reset_conflict-IsSound w v))

pub retry_conflict-IsSound :
    (o : Outside) (g : ℕ) (resets : Bool) (w : Worker)
    → IsSound w
    → IsSound (retry_conflict o g resets w)
unfolding retry_conflict
retry_conflict-IsSound o g resets w v =
    if-intro IsSound (is_due g w)
      (λ e.
        if-intro IsSound (is_live w.conflict_mode) (λ f. retry_live-IsSound o _ (ground arith))
          (λ f. start_now-IsSound o _ (ground arith)))
      (λ e. v)

pub reconnect-IsSound : (o : Outside) (g : ℕ) (w : Worker) → IsSound w → IsSound (reconnect o g w)
unfolding reconnect
reconnect-IsSound o g w v = if-intro IsSound (is_due g w) (λ e. start_now-IsSound o w v) (λ e. v)
