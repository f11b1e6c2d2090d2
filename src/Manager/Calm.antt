-- ===== src/Manager/Calm.antt =====
-- apps/server/src/steam/manager.ts: an account with a hold is not to run.
use steam_bee.Common.{ℕ, ◌≡◌, Bool, true, false, not, ◌&&◌, ◌||◌, arith}
use steam_bee.Worker.{
  Worker, is_running, clear_farming_selection, set_desired, set_status, clear_health, clear_timers,
  reset_conflict, report_games,
}
use steam_bee.Worker.Commands
use steam_bee.Manager.{
  Account, Outside, Source, set_hold, halt_farming, hold_manually, pause_now, force_disconnect,
  pause_for_safety, always,
}

pub record IsCalm (a : Account) : Type 0 where
  pub rests : a.worker.held ≡ true → is_running a.worker.desired ≡ false

-- `shouldPause` does not come to say no between the manual hold and the pause.
abbrev pub is_whole : (ℕ → Bool) → Bool
is_whole answers = not (answers 2 && answers 3) || (answers 4 && (answers 5 && answers 6))

module _ (o : Outside) (source : Source) (a : Account) where
  pub pause_now-IsCalm :
      (answers : ℕ → Bool)
      → is_whole answers ≡ true
      → IsCalm a
      → IsCalm (pause_now o answers source a).0
  unfolding pause_now halt_farming hold_manually set_hold Commands.pause_now set_desired
      clear_farming_selection clear_health clear_timers reset_conflict set_status report_games
  pause_now-IsCalm answers w c = record { rests = λ h. ground (arith, w, c.rests, h) }

  pub pause_now-at_rest : is_running (pause_now o always source a).0.worker.desired ≡ false
  unfolding pause_now Commands.pause_now set_desired set_status report_games
  pause_now-at_rest = ground arith

-- What keeps the hold of a worker, and does not ask it to run.
record IsMeek (w r : Worker) : Type 0 where
  same_hold : r.held ≡ w.held
  no_run : is_running w.desired ≡ false → is_running r.desired ≡ false

force-IsMeek :
    (o : Outside) (first second : Bool) (w : Worker) → IsMeek w (force_disconnect o first second w)
unfolding force_disconnect Commands.force_disconnect set_desired clear_farming_selection
    clear_health clear_timers reset_conflict set_status report_games
force-IsMeek o first second w = ground arith

module _ (o : Outside) (source : Source) (a : Account) where
  pub pause_for_safety-IsCalm :
      (answers : ℕ → Bool)
      → is_whole answers ≡ true
      → IsCalm a
      → IsCalm (pause_for_safety o answers source a).0
  unfolding pause_for_safety Commands.mark_attention set_desired set_status
  pause_for_safety-IsCalm answers w c =
      let p = pause_now-IsCalm o source a answers w c in
      let f = force-IsMeek o (answers 9) (answers 10) (pause_now o answers source a).0.worker in
      record { rests = λ h. ground (arith, w, c.rests, h, p.rests, f.same_hold, f.no_run) }

  pub pause_for_safety-at_rest :
      is_running (pause_for_safety o always source a).0.worker.desired ≡ false
  unfolding pause_for_safety Commands.mark_attention set_desired set_status
  pause_for_safety-at_rest =
      let p = pause_now-at_rest o source a in
      let f = force-IsMeek o true true (pause_now o always source a).0.worker in
      ground (arith, p, f.no_run)
