-- ===== src/Worker/Delays.antt =====
-- apps/server/src/steam/worker.ts: when a lost connection is retried, and the start that is ignored.
use steam_bee.Common.{
  ℕ, suc, ◌+◌, ◌^◌, min, max, ◌≤◌, ◌<◌, ◌≡◌, refl, Bool, true, false, some, List, [], ◌∷◌, arith,
  if-intro, All, map,
}
use native.Mathlib.Nat.{pow-le-pow_right}
use steam_bee.Retry.{RetryDecision}
use steam_bee.Worker.{
  Worker, Outside, Desired, connecting, backoff, reconnect_delay, schedule_reconnect, set_desired,
}
use steam_bee.Worker.Commands.{is_connecting, start_now, resume_now, resume_for_farming}
use steam_bee.Worker.Operations.{
  Command, start, resume, resume_farming, command, do_command, perform, perform_all, new_worker,
}

-- The bounds of a planned reconnect, for the outside `o` and the failure `d`.
pub record IsPlanned (o : Outside) (d : RetryDecision) (at : ℕ) : Type 0 where
  pub not_early : o.now + 20_000 + o.jitter ≤ at
  pub not_before : o.now + d.minimum_delay_ms + o.jitter ≤ at
  pub not_late : at < o.now + max 640_000 d.minimum_delay_ms + 2_500

backoff-bounds : (n : ℕ) → (20_000 ≤ backoff (suc n)) × (backoff (suc n) ≤ 640_000)
backoff-bounds n =
    let high : 2 ^ min (suc n) 6 ≤ 2 ^ 6 =
      pow-le-pow_right {n = 2} (omega arith) {i = min (suc n) 6} {j = 6} (omega arith) in
    let low : 2 ^ 1 ≤ 2 ^ min (suc n) 6 =
      pow-le-pow_right {n = 2} (omega arith) {i = 1} {j = min (suc n) 6} (omega arith) in
    (omega (arith, low), omega (arith, high))

-- After a lost connection, with a random part below 2500 ms, the worker plans a reconnect: at least 20
-- seconds, and at least the failure's own delay, from now; and less than 2500 ms more than 640 seconds, or
-- than the failure's delay where this is longer.
pub schedule_reconnect-IsPlanned :
    (o : Outside) (d : RetryDecision) (w : Worker)
    → o.jitter < 2_500
    → (at : ℕ) × ((schedule_reconnect o d w).health.next_retry_at ≡ some at) × IsPlanned o d at
unfolding schedule_reconnect reconnect_delay
schedule_reconnect-IsPlanned o d w random =
    let b = backoff-bounds w.reconnect_attempt in
    (
      o.now + max (backoff (suc w.reconnect_attempt)) d.minimum_delay_ms + o.jitter,
      refl,
      record {
        not_early = omega (arith, b.0);
        not_before = omega arith;
        not_late = omega (arith, b.1, random);
      },
    )

-- The commands that ask a worker to play.
abbrev pub asks_to_run : Command → Bool
asks_to_run c = elim c [ start ↦ true | resume ↦ true | resume_farming ↦ true | _ ↦ false ]

-- A worker that shows `connecting` and has no connection, as one does that is made after the server was
-- killed during a login.
record IsStuck (w : Worker) : Type 0 where
  shown : is_connecting w.status ≡ true
  off : w.connected ≡ false
  idle : w.login_attempt ≡ 0

ask-IsStuck :
    (o : Outside) (c : Command) (w : Worker)
    → asks_to_run c ≡ true
    → IsStuck w
    → IsStuck (do_command o c w)
unfolding do_command start_now resume_now resume_for_farming set_desired
ask-IsStuck o start w a v = ground (arith, v.shown, v.off, v.idle)
ask-IsStuck o resume w a v = ground (arith, v.shown, v.off, v.idle)
ask-IsStuck o resume_farming w a v = ground (arith, v.shown, v.off, v.idle)
ask-IsStuck o _ w a v = ground (arith, a)

asks-IsStuck :
    (asked : List (Outside × Command)) (w : Worker)
    → All (λ x. asks_to_run x.1 ≡ true) asked
    → IsStuck w
    → IsStuck (perform_all (map (λ x. (x.0, command x.1)) asked) w)
unfolding perform_all perform
asks-IsStuck [] w a v = v
asks-IsStuck (x ∷ xs) w a v =
    asks-IsStuck xs _ a.1 (if-intro IsStuck w.quiescing (λ e. v) (λ e. ask-IsStuck x.0 x.1 w a.0 v))

-- A worker that is made of a row with the status `connecting` never logs in, however often it is started
-- or resumed: `startNow` takes the status for a login that is under way.
pub connecting_never_logs_in :
    (asked : List (Outside × Command)) (d : Desired) (titled : Bool)
    → All (λ x. asks_to_run x.1 ≡ true) asked
    → (perform_all
        (map (λ x. (x.0, command x.1)) asked)
        (new_worker connecting d titled)).login_attempt
      ≡ 0
connecting_never_logs_in asked d titled a =
    (asks-IsStuck asked _ a (record { shown = refl; off = refl; idle = refl })).idle
