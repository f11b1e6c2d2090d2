-- ===== src/Worker/Sound.antt =====
-- apps/server/src/steam/worker.ts: what holds of a worker after every operation.
pub mod Commands
pub mod Events
pub mod Reached
use steam_bee.Common.{
  ℕ, suc, ◌≤◌, ◌≡◌, refl, Bool, true, false, not, ◌&&◌, ◌||◌, Option, none, some, List, [], ◌∷◌,
  arith, if◌then◌else◌, if-intro, length, ◌⊎◌, inl, inr, Option-cases, ltb, ◌==◌,
}
use steam_bee.Worker.{
  Status, boosting, online, paused_manual, paused_other_session, Worker, Outside, Payload, Desired,
  ConflictSource, is_boosting, is_empty, is_handled, is_some, no_games, set_status, report_games,
  clear_farming_selection, set_desired, clear_health, clear_timers, reset_conflict, enforce_limit,
  selected_games, play, apply_games, game_limit, schedule_reconnect, register_conflict,
}

-- A worker that shows `boosting` has a connection, is not blocked by another session and plays something;
-- a conflict of the current login is handled without a connection; at most one retry is planned; and at
-- most 32 games are reported.
pub record IsSound (w : Worker) : Type 0 where
  pub linked : is_boosting w.status ≡ true → w.connected ≡ true
  pub unblocked : is_boosting w.status ≡ true → w.blocked ≡ false
  pub playing : is_boosting w.status ≡ true → is_empty w.reported ≡ false
  pub apart : is_handled w.handled_attempt w.login_attempt ≡ true → w.connected ≡ false
  pub one_retry : (w.reconnect_timer ≡ none) ⊎ (w.conflict_timer ≡ none)
  pub bounded : length w.reported.app_ids ≤ 32

-- A status that is not `boosting` needs less.
pub set_status-IsSound :
    (now : ℕ) (status : Status) (message : Option _) (w : Worker)
    → is_boosting status ≡ false
    → (is_handled w.handled_attempt w.login_attempt ≡ true → w.connected ≡ false)
    → ((w.reconnect_timer ≡ none) ⊎ (w.conflict_timer ≡ none))
    → length w.reported.app_ids ≤ 32
    → IsSound (set_status now status message w)
unfolding set_status
set_status-IsSound now status message w e a r b = record {
  linked = λ h. ground (arith, e, h);
  unblocked = λ h. ground (arith, e, h);
  playing = λ h. ground (arith, e, h);
  apart = a;
  one_retry = r;
  bounded = b;
}

enforce_limit-bounded :
    (titled : Bool) (p q : Payload) → enforce_limit titled p ≡ some q → length q.app_ids ≤ 32
unfolding enforce_limit
enforce_limit-bounded titled p q e = ground (arith, e)

pub selected_games-bounded :
    (o : Outside) (w : Worker) (p : Payload) → selected_games o w ≡ some p → length p.app_ids ≤ 32
unfolding selected_games
selected_games-bounded o w p e = elim (Option-cases w.farming_app_ids) [
  | inl n ↦ ground (
    arith,
    e,
    n,
    enforce_limit-bounded w.titled (record { titled = w.titled; app_ids = o.enabled_games }) p,
  )
  | inr (app_ids, f) ↦
      ground (
        arith,
        e,
        f,
        enforce_limit-bounded w.titled (record { titled = false; app_ids = app_ids }) p,
      )
]

play-IsSound :
    (o : Outside) (applies : Bool) (found : Option Payload) (w : Worker)
    → IsSound w
    → w.connected ≡ true
    → w.blocked ≡ false
    → ((p : Payload) → found ≡ some p → length p.app_ids ≤ 32)
    → IsSound (play o applies found w)
unfolding play set_status report_games
play-IsSound o applies none w v c b h = v
play-IsSound o applies (some p) w v c b h =
    if-intro IsSound (w.quiescing || not applies) (λ e. v)
      (λ e. record {
        linked = λ f. c;
        unblocked = λ f. b;
        playing = λ f. ground (arith, f);
        apart = v.apart;
        one_retry = v.one_retry;
        bounded = h p refl;
      })

pub apply_games-IsSound :
    (o : Outside) (applies : Bool) (w : Worker) → IsSound w → IsSound (apply_games o applies w)
unfolding apply_games report_games
apply_games-IsSound o applies w v =
    if-intro IsSound (w.quiescing || not w.connected) (λ e. v)
      (λ e.
        if-intro IsSound w.manually_paused
          (λ f.
            set_status-IsSound o.now paused_manual none _ refl v.apart v.one_retry (omega arith))
          (λ f.
            if-intro IsSound w.blocked
              (λ g.
                set_status-IsSound o.now paused_other_session none _ refl v.apart v.one_retry
                  (omega arith))
              (λ g.
                play-IsSound o applies (selected_games o w) w v (ground (arith, e)) g
                  (selected_games-bounded o w))))
