-- ===== src/Serial/Turns.antt =====
-- apps/server/src/steam/account-operation-state.ts: no call of an account is passed over, begins early or
-- waits for ever.
use steam_bee.Common.{
  ℕ, suc, ◌+◌, ◌-◌, ◌≤◌, ◌<◌, ◌≡◌, refl, sym, subst, ap, ◌∙◌, Bool, true, false, not, ◌&&◌, Option,
  List, [], ◌∷◌, ◌++◌, arith, length, ◌==◌, if◌then◌else◌, if-intro,
}
use steam_bee.Serial.{
  waiting, Job, Queue, Step, runs, begins, ends, settles, cleans, Seen, begun, empty_queue,
  has_settled, is_free, begin_job, settle_job, is_queue, perform, perform_all,
}
use steam_bee.Serial.Jobs.{
  in_turn, IsDone, no_job, job_done, IsLinked, to_none, to_last, IsSerial, nothing, has_run,
  has_ended, runs_now, waits, settle_done, length-begin_job, length-end_job, length-settle_job,
  IsLinked-kept,
}
use steam_bee.Serial.Order.{perform_all-IsKept}

abbrev pub calls : List Step → ℕ
calls [] = 0
calls (runs ∷ steps) = suc (calls steps)
calls (begins id ∷ steps) = calls steps
calls (ends id fails ∷ steps) = calls steps
calls (settles id ∷ steps) = calls steps
calls (cleans id ∷ steps) = calls steps

length-perform_all :
    (steps : List Step) (q : Queue) (seen : List Seen)
    → length (perform_all steps q seen).0.jobs ≡ calls steps + length q.jobs
unfolding perform_all perform
length-perform_all [] q seen = omega arith
length-perform_all (runs ∷ steps) q seen = omega (arith, length-perform_all steps _ seen)
length-perform_all (begins id ∷ steps) q seen =
    length-perform_all steps _ _ ∙ ap (λ n. calls steps + n) (length-begin_job id q.jobs)
length-perform_all (ends id fails ∷ steps) q seen =
    length-perform_all steps _ _ ∙ ap (λ n. calls steps + n) (length-end_job id fails q.jobs)
length-perform_all (settles id ∷ steps) q seen =
    length-perform_all steps _ _ ∙ ap (λ n. calls steps + n) (length-settle_job id q.jobs)
length-perform_all (cleans id ∷ steps) q seen =
    if-intro
      (λ (r : Queue × List Seen).
        length (perform_all steps r.0 (r.1 ++ seen)).0.jobs ≡ calls steps + length q.jobs)
      (has_settled id q.jobs && is_queue id q.queue) (λ e. length-perform_all steps _ _)
      (λ e. length-perform_all steps _ _)

serial-bounded :
    (jobs : List Job) (n : ℕ) (b : Bool)
    → IsSerial jobs n b
    → (if b then suc n else n) ≤ length jobs
serial-bounded _ _ _ nothing = omega arith
serial-bounded _ _ _ (has_run previous jobs d) = omega arith
serial-bounded _ _ _ (has_ended previous jobs d) = omega arith
serial-bounded _ _ _ (runs_now previous jobs d) = omega arith
serial-bounded _ _ _ (waits previous jobs n b l s) = ground (arith, serial-bounded jobs n b s)

-- When all calls have ended, the last tail settles.
last_settles :
    (jobs : List Job) (n : ℕ) (b : Bool)
    → n ≡ length jobs
    → b ≡ false
    → IsSerial jobs n b
    → IsDone (settle_job (length jobs - 1) jobs)
unfolding settle_job
last_settles _ _ _ e f nothing = no_job
last_settles _ _ _ e f (has_run previous jobs d) = rw (settle_done (suc (length jobs) - 1) jobs d) (
    if-intro IsDone (not (length jobs == (suc (length jobs) - 1))) (λ g. job_done previous jobs d)
      (λ g. job_done previous jobs d))
last_settles _ _ _ e f (has_ended previous jobs d) =
    if-intro IsDone (not (length jobs == (suc (length jobs) - 1))) (λ g. ground (arith, g))
      (λ g. job_done previous jobs d)
last_settles _ _ _ e f (runs_now previous jobs d) = cc
last_settles _ _ _ e f (waits previous jobs n b l s) =
    ground (arith, e, f, serial-bounded jobs n b s)

last_done :
    (jobs : List Job) (id : ℕ) → IsDone jobs → length jobs ≡ suc id → has_settled id jobs ≡ true
unfolding has_settled
last_done _ id no_job e = ground (arith, e)
last_done _ id (job_done previous jobs d) e = ground (arith, e)

done-free :
    (previous : Option ℕ) (jobs : List Job)
    → IsLinked previous jobs
    → IsDone jobs
    → is_free previous jobs ≡ true
done-free _ jobs (to_none _ d) e = refl
done-free _ jobs (to_last id _ f) e = last_done jobs id e f

empty-IsDone : (jobs : List Job) → length jobs ≡ 0 → IsDone jobs
empty-IsDone [] e = no_job
empty-IsDone (job ∷ jobs) e = ground (arith, e)

-- A call that waits begins when all older ones are done; else what begins is older.
begin_behind :
    (previous : Option ℕ) (jobs : List Job) (n : ℕ)
    → ((length jobs == n) ≡ true → IsLinked previous jobs × IsDone jobs)
    → ((length jobs == n) ≡ false → (begin_job n jobs).1 ≡ begun n ∷ [])
    → (begin_job n (record { previous = previous; phase = waiting } ∷ jobs)).1 ≡ begun n ∷ []
unfolding begin_job
begin_behind previous jobs n d o =
    if-intro (λ (r : List Job × List Seen). r.1 ≡ begun n ∷ []) (not (length jobs == n))
      (λ e. o (ground (arith, e)))
      (λ e. let done = d (ground (arith, e)) in rw (done-free previous jobs done.0 done.1) refl)

-- The first call that waits begins after the tail of the one before has settled.
next_begins_after :
    (jobs : List Job) (n : ℕ) (b : Bool)
    → b ≡ false
    → n < length jobs
    → IsSerial jobs n b
    → (begin_job n (settle_job (n - 1) jobs)).1 ≡ begun n ∷ []
unfolding settle_job
next_begins_after _ _ _ f h nothing = ground (arith, h)
next_begins_after _ _ _ f h (has_run previous jobs d) = ground (arith, h)
next_begins_after _ _ _ f h (has_ended previous jobs d) = ground (arith, h)
next_begins_after _ _ _ f h (runs_now previous jobs d) = cc
next_begins_after _ _ _ f h (waits previous jobs n b l s) =
    let older = settle_job (n - 1) jobs in
    let same_length = length-settle_job (n - 1) jobs in
    if-intro (λ (r : List Job). (begin_job n r).1 ≡ begun n ∷ []) (not (length jobs == (n - 1)))
      (λ e.
        begin_behind previous older n
          (λ g.
            let same_n : n ≡ length jobs = ground (arith, g, same_length) in
            (
              IsLinked-kept previous jobs older (λ d. rw (settle_done (n - 1) jobs d) d) same_length
                  l,
              subst (λ k. IsDone (settle_job (k - 1) jobs)) (sym same_n)
                  (last_settles jobs n b same_n f s),
            ))
          (λ g. next_begins_after jobs n b f (ground (arith, g, h, same_length)) s))
      (λ e.
        begin_behind previous jobs n
          (λ g. (l, empty-IsDone jobs (ground (arith, e, g, serial-bounded jobs n b s, f))))
          (λ g. ground (arith, e, g, h, f, serial-bounded jobs n b s)))

-- What the steps of an account's calls come to.
pub record IsInTurn (steps : List Step) (r : Queue × List Seen) : Type 0 where
  pub count : ℕ
  pub busy : Bool
  pub order : r.1 ≡ in_turn count busy
  pub called : (if busy then suc count else count) ≤ calls steps
  pub goes_on :
      busy ≡ false
      → count < calls steps
      → (perform_all (settles (count - 1) ∷ begins count ∷ []) r.0 []).1 ≡ begun count ∷ []

-- Whatever calls, ends (also with an error), and steps of promises come, what is seen of the operations of
-- an account is that they begin and end in turn, in the order of the calls, each after the one before has
-- ended; only calls that were made begin; and while calls are left and none runs, the next one begins
-- after the tail before it has settled.
pub perform_all-IsInTurn : (steps : List Step) → IsInTurn steps (perform_all steps empty_queue [])
unfolding perform_all perform
perform_all-IsInTurn steps =
    let r = perform_all steps empty_queue [] in
    let k = perform_all-IsKept steps empty_queue [] (record {
      count = 0;
      busy = false;
      serial = nothing;
      linked = to_none [] no_job;
      order = refl;
    }) in
    let size = length-perform_all steps empty_queue [] in
    record {
      count = k.count;
      busy = k.busy;
      order = k.order;
      called = omega (arith, serial-bounded r.0.jobs k.count k.busy k.serial, size);
      goes_on = λ e h.
          rw (next_begins_after r.0.jobs k.count k.busy e (omega (arith, h, size)) k.serial) refl;
    }
