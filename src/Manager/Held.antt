-- ===== src/Manager/Held.antt =====
-- apps/server/src/steam/manager.ts: a hold lasts, and the account is at rest meanwhile.
use steam_bee.Common.{
  ℕ, ◌≡◌, refl, ◌∙◌, ap, Bool, true, false, not, ◌&&◌, ◌||◌, String, ◌⊎◌, inl, inr, none, arith,
  if◌then◌else◌, if-intro,
}
use steam_bee.Coordinator.Hold.{HoldOwner, unscheduled}
use steam_bee.Farming.{Reason}
use steam_bee.Worker.{
  Worker, is_running, clear_farming_selection, clear_health, set_desired, set_status, clear_timers,
  reset_conflict, report_games,
}
use steam_bee.Worker.Commands
use steam_bee.Worker.Commands.{is_on}
use steam_bee.Worker.Rest.{Rests, Rests-refl, Rests-trans}
use steam_bee.Manager.{
  Hold, HoldReason, manual, safety_failure, holds_itself, is_farming_source, Account, Outside,
  Source, Result, set_hold, hold_manually, halt_farming, force_disconnect, pause_now,
  pause_for_safety, by_pause,
}
use steam_bee.Manager.Automatic.{is_timed}

-- The account is still held, its hold is the same or one without an end, and its worker rests.
pub record StaysHeld (a b : Account) : Type 0 where
  pub held : b.worker.held ≡ true
  pub lasting : (b.hold ≡ a.hold) ⊎ (is_timed b.hold.reason ≡ false)
  pub quiet : Rests a.worker b.worker

abbrev pub IsHeld : Account → Type 0
IsHeld a = (a.worker.held ≡ true) × (is_running a.worker.desired ≡ false)

pub StaysHeld-refl : (a : Account) → IsHeld a → StaysHeld a a
StaysHeld-refl a h = record { held = h.0; lasting = inl refl; quiet = Rests-refl a.worker h.1 }

last_of :
    (a b c : Account)
    → ((b.hold ≡ a.hold) ⊎ (is_timed b.hold.reason ≡ false))
    → ((c.hold ≡ b.hold) ⊎ (is_timed c.hold.reason ≡ false))
    → (c.hold ≡ a.hold) ⊎ (is_timed c.hold.reason ≡ false)
last_of a b c p (inr q) = inr q
last_of a b c (inl p) (inl q) = inl (q ∙ p)
last_of a b c (inr p) (inl q) = inr (ap (λ (h : Hold). is_timed h.reason) q ∙ p)

pub StaysHeld-trans : (a b c : Account) → StaysHeld a b → StaysHeld b c → StaysHeld a c
StaysHeld-trans a b c p q = record {
  held = q.held;
  lasting = last_of a b c p.lasting q.lasting;
  quiet = Rests-trans a.worker b.worker c.worker p.quiet q.quiet;
}

module _ (o : Outside) (w : Worker) (e : is_running w.desired ≡ false) where
  pause-Rests :
      (first second third : Bool)
      → ((Commands.pause_now o.worker first second third w).held ≡ w.held)
        × Rests w (Commands.pause_now o.worker first second third w)
  unfolding Commands.pause_now set_desired clear_farming_selection clear_health clear_timers
      reset_conflict set_status report_games
  pause-Rests first second third = (ground arith, ground (arith, e))

  force-Rests :
      (first second : Bool)
      → ((force_disconnect o first second w).held ≡ w.held)
        × Rests w (force_disconnect o first second w)
  unfolding force_disconnect Commands.force_disconnect set_desired clear_farming_selection
      clear_health clear_timers reset_conflict set_status report_games
  force-Rests first second = (ground arith, ground (arith, e))

  attention-Rests :
      (message : String)
      → ((Commands.mark_attention o.worker message w).held ≡ w.held)
        × Rests w (Commands.mark_attention o.worker message w)
  unfolding Commands.mark_attention set_desired clear_timers reset_conflict set_status
  attention-Rests message =
      (refl, record { at_rest = refl; no_login = refl; no_link = λ h. refl; games = inl refl })

-- A step that keeps the hold.
pub kept-StaysHeld :
    (a : Account) (w : Worker)
    → IsHeld a
    → (w.held ≡ a.worker.held) × Rests a.worker w
    → StaysHeld a (record a { worker = w })
kept-StaysHeld a w h k = record { held = k.0 ∙ h.0; lasting = inl refl; quiet = k.1 }

pub IsHeld-after : (a b : Account) → StaysHeld a b → IsHeld b
IsHeld-after a b s = (s.held, s.quiet.at_rest)

module _ (a : Account) (h : IsHeld a) where
  pub halt_farming-StaysHeld :
      (reason : Reason) (keeps : Bool) → StaysHeld a (halt_farming reason keeps a)
  unfolding halt_farming clear_farming_selection
  halt_farming-StaysHeld reason keeps = record {
    held = h.0;
    lasting = inl refl;
    quiet = ground (arith, h.1);
  }

  same_quiet : Rests a.worker (record a.worker { held = true })
  same_quiet = record { at_rest = h.1; no_login = refl; no_link = λ g. g; games = inl refl }

  set_hold-StaysHeld :
      (reason : HoldReason) (owner : HoldOwner)
      → is_timed reason ≡ false
      → StaysHeld a (set_hold reason none owner a)
  unfolding set_hold
  set_hold-StaysHeld reason owner n = record { held = refl; lasting = inr n; quiet = same_quiet }

  hold_manually-StaysHeld : (source : Source) → StaysHeld a (hold_manually source a)
  unfolding hold_manually
  hold_manually-StaysHeld source =
      let held = set_hold-StaysHeld manual unscheduled refl in
      if-intro (StaysHeld a) (holds_itself source)
        (λ e. record { held = held.held; lasting = held.lasting; quiet = held.quiet })
        (λ e. StaysHeld-refl a h)

pub pause_now-StaysHeld :
    (o : Outside) (answers : ℕ → Bool) (source : Source) (a : Account)
    → IsHeld a
    → StaysHeld a (pause_now o answers source a).0
unfolding pause_now
pause_now-StaysHeld o answers source a h =
    let halted = if is_farming_source source then a else halt_farming by_pause false a in
    let timeless = record halted { resume_at = none } in
    let first : StaysHeld a halted =
      if-intro (StaysHeld a) (is_farming_source source) (λ e. StaysHeld-refl a h)
        (λ e. halt_farming-StaysHeld a h by_pause false) in
    let second : StaysHeld a timeless = record {
      held = first.held;
      lasting = first.lasting;
      quiet = first.quiet;
    } in
    let held = hold_manually source timeless in
    let third =
      StaysHeld-trans a timeless held second
        (hold_manually-StaysHeld timeless (IsHeld-after a timeless second) source) in
    let fourth = kept-StaysHeld held _ (IsHeld-after a held third) (
      pause-Rests o held.worker third.quiet.at_rest (answers 5) (answers 6)
        (answers 7 && not o.pause_throws)) in
    let Stays : Result → Type 0 = λ r. StaysHeld a r.0 in
    if-intro Stays (not (answers 2)) (λ e. StaysHeld-refl a h)
      (λ e.
        if-intro Stays (not (answers 3)) (λ f. first)
          (λ f.
            if-intro Stays (not (answers 4)) (λ g. third)
              (λ g. StaysHeld-trans a held _ third fourth)))

pub pause_for_safety-StaysHeld :
    (o : Outside) (answers : ℕ → Bool) (source : Source) (a : Account)
    → IsHeld a
    → StaysHeld a (pause_for_safety o answers source a).0
unfolding pause_for_safety
pause_for_safety-StaysHeld o answers source a h =
    let paused = pause_now o answers source a in
    let first = pause_now-StaysHeld o answers source a h in
    let force = force-Rests o paused.0.worker first.quiet.at_rest (answers 9) (answers 10) in
    let forced = record paused.0 {
      worker = force_disconnect o (answers 9) (answers 10) paused.0.worker;
    } in
    let second =
      StaysHeld-trans a paused.0 forced first
        (kept-StaysHeld paused.0 forced.worker (IsHeld-after a paused.0 first) force) in
    let marked = set_hold safety_failure none unscheduled forced in
    let third =
      StaysHeld-trans a forced marked second (
        set_hold-StaysHeld forced (IsHeld-after a forced second) safety_failure unscheduled refl) in
    let fails = answers 9 && (answers 10 && (o.report_throws || o.log_off_throws)) in
    let Stays : Result → Type 0 = λ r. StaysHeld a r.0 in
    if-intro Stays (not (answers 0 && answers 1)) (λ e. StaysHeld-refl a h)
      (λ e.
        if-intro Stays (not (paused.1 && answers 8)) (λ f. first)
          (λ f.
            if-intro Stays (not (fails && answers 12)) (λ g. second)
              (λ g. StaysHeld-trans a marked _ third (
                kept-StaysHeld marked _ (IsHeld-after a marked third)
                  (attention-Rests o marked.worker third.quiet.at_rest _)))))
