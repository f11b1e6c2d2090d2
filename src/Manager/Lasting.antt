-- ===== src/Manager/Lasting.antt =====
-- apps/server/src/steam/manager.ts: a hold lasts through every operation that does not ask the account to
-- run.
use Prim.Native.Nat.{Ordering}
use steam_bee.Common.{
  ℕ, ◌≡◌, refl, ◌∙◌, ap, Bool, true, false, not, ◌&&◌, ◌||◌, inl, inr, Option, List, [], ◌∷◌, arith,
  if-intro, All,
}
use steam_bee.Schedule.{WindowId, Parts}
use steam_bee.Coordinator
use steam_bee.Coordinator.{Coordinator, Action, OpenWindow, transition_account, winner_of}
use steam_bee.Worker.{is_running}
use steam_bee.Manager.{Hold, Account, Outside, Result}
use steam_bee.Manager.Automatic.{is_timed, is_after, found_of, run_actions}
use steam_bee.Manager.Operations.{
  Operation, pauses, pauses_until, applies_games, ends_farming, ticks_schedules, ticks_safety,
  timer_fires, timer_runs, shows, worker_does, invalidates, edits, shutdown_begins, shutdown_runs,
  tick_schedules, hold_until, end_hold, perform, perform_all,
}
use steam_bee.Manager.Kept.{free-IsCalm}
use steam_bee.Manager.Reached.{is_unbroken, perform_all-IsCalm}
use steam_bee.Manager.Held.{StaysHeld, IsHeld, StaysHeld-refl, StaysHeld-trans, IsHeld-after}
use steam_bee.Manager.Resting.{
  is_restful, pauses-StaysHeld, apply_farming_games-StaysHeld, end_farming-StaysHeld,
  tick_safety-StaysHeld, handle_status-StaysHeld, worker_does-StaysHeld, begin_shutdown-StaysHeld,
  shutdown_now-StaysHeld,
}

-- A hold that takes the place of another has no end, so it is waited for no longer than that.
is_restful_after :
    (a b : Account) (x : Outside × Operation)
    → StaysHeld a b
    → is_restful a.hold x ≡ true
    → is_restful b.hold x ≡ true
is_restful_after a b x s r = elim s.lasting [
  | inl e ↦ ap (λ (h : Hold). is_restful h x) e ∙ r
  | inr n ↦ ground (arith, n, r)
]

module _ (compare_windows : OpenWindow → OpenWindow → Ordering) (zoned : ℕ → Option (ℕ → Parts))
    (is_skipped : WindowId → Bool) (compare_ids : ℕ → ℕ → Ordering) where
  held_transition :
      (found : Coordinator.Outside) (now : ℕ) (c : Coordinator)
      → found.held ≡ true
      → (transition_account zoned is_skipped compare_ids found now c).1 ≡ []
  unfolding transition_account
  held_transition found now c e = rw e refl

  module _ (o : Outside) (a : Account) (h : IsHeld a) where
    tick_schedules-StaysHeld :
        StaysHeld a (tick_schedules compare_windows zoned is_skipped compare_ids o a)
    unfolding tick_schedules run_actions
    tick_schedules-StaysHeld =
        let winner = winner_of zoned is_skipped compare_ids o.worker.now a.coordinator.rows in
        let n =
          held_transition (found_of o winner a) o.worker.now a.coordinator (ground (arith, h.0)) in
        let same = StaysHeld-refl a h in
        if-intro (StaysHeld a) a.worker.quiescing (λ e. same)
          (λ e. rw n (record { held = same.held; lasting = same.lasting; quiet = same.quiet }))

    hold_until-StaysHeld :
        (until : ℕ)
        → StaysHeld a (hold_until compare_windows zoned is_skipped compare_ids o until a).0
    unfolding hold_until
    hold_until-StaysHeld until =
        if-intro (λ (r : Result). StaysHeld a r.0)
          (a.worker.quiescing || not (is_running a.worker.desired)) (λ e. StaysHeld-refl a h)
          (λ e. ground (arith, e, h.1))

    end_hold-StaysHeld :
        is_restful a.hold (o, timer_runs) ≡ true
        → StaysHeld a (end_hold compare_windows zoned is_skipped compare_ids o a)
    unfolding end_hold
    end_hold-StaysHeld r =
        let same = StaysHeld-refl a h in
        if-intro (StaysHeld a) (not (a.worker.held && is_timed a.hold.reason)) (λ e. same)
          (λ e.
            if-intro (StaysHeld a) (is_after a.hold.until o.worker.now)
              (λ f. record { held = same.held; lasting = same.lasting; quiet = same.quiet })
              (λ f. ground (arith, e, f, r)))

    perform-StaysHeld :
        (op : Operation)
        → is_restful a.hold (o, op) ≡ true
        → StaysHeld a (perform compare_windows zoned is_skipped compare_ids o op a)
    unfolding perform
    perform-StaysHeld pauses r = pauses-StaysHeld o a h
    perform-StaysHeld (pauses_until until) r = hold_until-StaysHeld until
    perform-StaysHeld (applies_games app_ids answers) r =
        apply_farming_games-StaysHeld o a h app_ids answers
    perform-StaysHeld (ends_farming answers) r = end_farming-StaysHeld o a h answers
    perform-StaysHeld ticks_schedules r = tick_schedules-StaysHeld
    perform-StaysHeld ticks_safety r = tick_safety-StaysHeld o a h
    perform-StaysHeld timer_fires r =
        let same = StaysHeld-refl a h in
        record { held = same.held; lasting = same.lasting; quiet = same.quiet }
    perform-StaysHeld timer_runs r = end_hold-StaysHeld r
    perform-StaysHeld (shows status cleans_up) r = handle_status-StaysHeld o a h status cleans_up
    perform-StaysHeld (worker_does op) r = worker_does-StaysHeld o a h op
    perform-StaysHeld invalidates r =
        let same = StaysHeld-refl a h in
        record { held = same.held; lasting = same.lasting; quiet = same.quiet }
    perform-StaysHeld (edits games titled limits) r =
        let same = StaysHeld-refl a h in
        record { held = same.held; lasting = same.lasting; quiet = same.quiet }
    perform-StaysHeld shutdown_begins r = begin_shutdown-StaysHeld o a h
    perform-StaysHeld shutdown_runs r = shutdown_now-StaysHeld o a h
    perform-StaysHeld _ r = ground (arith, r)

  listed_restful :
      (a b : Account) (ops : List (Outside × Operation))
      → StaysHeld a b
      → All (λ x. is_restful a.hold x ≡ true) ops
      → All (λ x. is_restful b.hold x ≡ true) ops
  listed_restful a b [] s r = r
  listed_restful a b (x ∷ xs) s r = (is_restful_after a b x s r.0, listed_restful a b xs s r.1)

  perform_all-StaysHeld :
      (ops : List (Outside × Operation)) (a : Account)
      → IsHeld a
      → All (λ x. is_restful a.hold x ≡ true) ops
      → StaysHeld a (perform_all compare_windows zoned is_skipped compare_ids ops a)
  unfolding perform_all
  perform_all-StaysHeld [] a h r = StaysHeld-refl a h
  perform_all-StaysHeld (x ∷ xs) a h r =
      let step = perform-StaysHeld x.0 a h x.1 r.0 in
      let next = perform compare_windows zoned is_skipped compare_ids x.0 x.1 a in
      StaysHeld-trans a next _ step (
        perform_all-StaysHeld xs next (IsHeld-after a next step)
          (listed_restful a next xs step r.1))

  -- For an account without a hold, and any operations that leave it with one, where none of them breaks
  -- off the end of farming between its hold and its pause: the account is then not to run; and under any
  -- further operations that do not wake it, with the timed hold not ended before its time, it keeps the
  -- hold or gets one that has no end, does not log in, comes to no connection that it did not have, and
  -- plays the same games or none.
  pub perform_all-lasting :
      (before after : List (Outside × Operation)) (a : Account)
      → a.worker.held ≡ false
      → All (λ x. is_unbroken x.1 ≡ true) before
      → (perform_all compare_windows zoned is_skipped compare_ids before a).worker.held ≡ true
      → All
          (λ x.
            is_restful (perform_all compare_windows zoned is_skipped compare_ids before a).hold x
            ≡ true)
          after
      → StaysHeld (perform_all compare_windows zoned is_skipped compare_ids before a) (
          perform_all compare_windows zoned is_skipped compare_ids after
            (perform_all compare_windows zoned is_skipped compare_ids before a))
  perform_all-lasting before after a f u h r =
      let held = perform_all compare_windows zoned is_skipped compare_ids before a in
      let calm =
        perform_all-IsCalm compare_windows zoned is_skipped compare_ids before a u
          (free-IsCalm a f) in
      perform_all-StaysHeld after held (h, calm.rests h) r
