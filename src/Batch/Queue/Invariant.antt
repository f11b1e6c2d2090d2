-- ===== src/Batch/Queue/Invariant.antt =====
-- apps/server/src/inventory/batch.ts: an account has at most one running batch.
use steam_bee.Common.{
  ℕ, ◌≤◌, ◌≡◌, ◌≢◌, false, not, ◌&&◌, ◌||◌, Option, some, List, [], ◌∷◌, String, arith, ltb, leb,
  ◌==◌, Bool-cases, Option-cases, Result-cases, if-intro, any, inl, inr, ◌⊎◌, length, ok, Option,
}
use steam_bee.Common.Maps.{
  lookup, insert, retain, delete, lookup-insert, lookup-delete, lookup-retain_of, Distinct,
  Distinct-insert, Distinct-retain, length-retain-le, length-insert-le, length-delete-le,
  length-insert-eq,
}
use steam_bee.Money.{Currency}
use steam_bee.Batch.{Kind, Command, JobValue}
use steam_bee.Batch.Run.{Job, Event, is_finished, step, stop_job}
use steam_bee.Batch.Run.Follows.{step-Follows, stop_job-same, start_job-account}
use steam_bee.Batch.Queue.{
  Answer, prepare, is_of, is_same, Queue, Prepared, Call, creates, confirms, advances, stops,
  stops_account, shuts_down, prune, is_full, is_active, create, put_job, confirm, confirm_entry,
  advance, get, stop, stop_active, stop_account, stop_accounts, shutdown, empty, apply, history,
  is_recent,
}

pub record IsExclusive (q : Queue) : Type 0 where
  pub distinct : Distinct q.jobs
  pub held :
      (id : ℕ) (job : Job)
      → lookup id q.jobs ≡ some job
      → is_finished job.finished_at ≡ false
      → lookup job.account_id q.active ≡ some id
  pub previews_bounded : length q.previews ≤ 200
  pub jobs_bounded : length q.jobs ≤ 200

prune-IsExclusive : (now : ℕ) (q : Queue) → IsExclusive q → IsExclusive (prune now q)
prune-IsExclusive now q v = record {
  distinct = Distinct-retain _ q.jobs v.distinct;
  held = λ id job e. v.held id job (lookup-retain_of _ id q.jobs job v.distinct e);
  previews_bounded = omega (
    arith,
    length-retain-le {0} (λ (e : Prepared). ltb now e.expires_at) q.previews,
    v.previews_bounded,
  );
  jobs_bounded = omega (
    arith,
    length-retain-le {0} (λ (job : Job). is_recent now job.finished_at) q.jobs,
    v.jobs_bounded,
  );
}

with_previews-IsExclusive :
    (q : Queue) (previews : List (ℕ × Prepared))
    → length previews ≤ 200
    → IsExclusive q
    → IsExclusive (record q { previews = previews })
with_previews-IsExclusive q previews l v = record {
  distinct = v.distinct;
  held = v.held;
  previews_bounded = l;
  jobs_bounded = v.jobs_bounded;
}

module _ (id : ℕ) (job : Job) (q : Queue) (v : IsExclusive q) where
  -- The other jobs, when the account of a finished job is released.
  others-held :
      (j : ℕ) (other : Job)
      → id ≢ j
      → lookup j (insert id job q.jobs) ≡ some other
      → is_finished other.finished_at ≡ false
      → lookup other.account_id q.active ≡ some j
  others-held j other d e u = v.held j other (ground (arith, lookup-insert id j job q.jobs)) u

  written :
      (j : ℕ) (other : Job)
      → lookup j (insert id job q.jobs) ≡ some other
      → ((id ≡ j) × (other ≡ job)) ⊎ (id ≢ j)
  written j other e = ground (arith, lookup-insert id j job q.jobs)

  -- A job written back: it is in the map of active accounts until it has finished.
  put_job-IsExclusive :
      length (insert id job q.jobs) ≤ 200
      → (is_finished job.finished_at ≡ false → lookup job.account_id q.active ≡ some id)
      → IsExclusive (put_job id job q)
  unfolding put_job
  put_job-IsExclusive l h =
      let mine = is_same (lookup job.account_id q.active) id in
      elim (Bool-cases (is_finished job.finished_at && mine)) [
        | inr kept ↦ rw kept (record {
          distinct = Distinct-insert id job q.jobs v.distinct;
          held = λ j other e u. ground (arith, written j other e, others-held j other, h);
          previews_bounded = v.previews_bounded;
          jobs_bounded = l;
        })
        | inl released ↦ rw released (record {
          distinct = Distinct-insert id job q.jobs v.distinct;
          held = λ j other e u. ground (
            arith,
            written j other e,
            others-held j other,
            lookup-delete job.account_id other.account_id q.active,
          );
          previews_bounded = v.previews_bounded;
          jobs_bounded = l;
        })
      ]

-- A stop leaves the account and the finish of a job as they are.
stopped-IsExclusive :
    (now id : ℕ) (job : Job) (q : Queue)
    → IsExclusive q
    → lookup id q.jobs ≡ some job
    → IsExclusive (record q { jobs = insert id (stop_job now job) q.jobs })
stopped-IsExclusive now id job q v e = record {
  distinct = Distinct-insert id (stop_job now job) q.jobs v.distinct;
  held = λ j other f u. ground (
    arith,
    written id (stop_job now job) q v j other f,
    others-held id (stop_job now job) q v j other,
    stop_job-same now job,
    v.held id job e,
  );
  previews_bounded = v.previews_bounded;
  jobs_bounded = omega (arith, length-insert-eq {0} id (stop_job now job) q.jobs e, v.jobs_bounded);
}

create-IsExclusive :
    (now token account_id actor : ℕ) (kind : Kind) (currency : Option Currency)
    (commands : List Command) (delay_seconds : ℕ) (q : Queue)
    → IsExclusive q
    → IsExclusive (create now token account_id actor kind currency commands delay_seconds q).0
unfolding create
create-IsExclusive now token account_id actor kind currency commands delay_seconds q v =
    let pruned = prune-IsExclusive now q v in
    let preview = prepare now account_id actor kind currency commands delay_seconds in
    let test = λ (e : Prepared). not (is_of account_id actor e) in
    let others = retain test (prune now q).previews in
    if-intro Fine (is_active account_id q) (λ _. v)
      λ _.
        if-intro Fine (is_full (prune now q)) (λ _. pruned)
          λ room.
            if-intro Fine (length commands == 0 || ltb 50 (length commands)) (λ _. pruned)
              λ _.
                with_previews-IsExclusive (prune now q) (insert token preview others)
                  (ground (
                    arith,
                    length-insert-le token preview others,
                    length-retain-le test (prune now q).previews,
                  ))
                  pruned
  where
    Fine : Answer Prepared → Type 0
    Fine a = IsExclusive a.0

advance-IsExclusive :
    (cut : String → String) (now id : ℕ) (event : Event) (q : Queue)
    → IsExclusive q
    → IsExclusive (advance cut now id event q)
unfolding advance
advance-IsExclusive cut now id event q v = elim (Option-cases (lookup id q.jobs)) [
  | inl missing ↦ rw (missing, advance) v
  | inr (job, found) ↦
      let next = step cut job (now, event) in
      let follows = step-Follows cut job (now, event) in
      rw (found, advance)
        (put_job-IsExclusive id next q v
          (omega (arith, length-insert-eq {0} id next q.jobs found, v.jobs_bounded))
          λ u. rw (follows.0) (v.held id job found (ground (arith, follows.1))))
]

stop_active-IsExclusive :
    (now id : ℕ) (q : Queue) → IsExclusive q → IsExclusive (stop_active now id q)
unfolding stop_active
stop_active-IsExclusive now id q v = elim (Option-cases (lookup id q.jobs)) [
  | inl missing ↦ rw (missing, stop_active) v
  | inr (job, found) ↦ rw (found, stop_active) (stopped-IsExclusive now id job q v found)
]

stop_account-IsExclusive :
    (now account_id : ℕ) (q : Queue) → IsExclusive q → IsExclusive (stop_account now account_id q)
unfolding stop_account
stop_account-IsExclusive now account_id q v =
    let test = λ (e : Prepared). not (e.account_id == account_id) in
    let cleared =
      with_previews-IsExclusive q (retain test q.previews)
        (omega (arith, length-retain-le {0} test q.previews, v.previews_bounded)) v in
    elim (Option-cases (lookup account_id q.active)) [
      | inl missing ↦ rw (missing, stop_account) cleared
      | inr (id, found) ↦ rw (found, stop_account) (stop_active-IsExclusive now id _ cleared)
    ]

stop_accounts-IsExclusive :
    (now : ℕ) (accounts : List (ℕ × ℕ)) (q : Queue)
    → IsExclusive q
    → IsExclusive (stop_accounts now accounts q)
unfolding stop_accounts
stop_accounts-IsExclusive now [] q v = v
stop_accounts-IsExclusive now ((account_id, id) ∷ rest) q v =
    stop_accounts-IsExclusive now rest _ (stop_account-IsExclusive now account_id q v)

pub get-lookup :
    (now account_id actor id : ℕ) (q : Queue) (job : Job)
    → get now account_id actor id q ≡ ok job
    → lookup id q.jobs ≡ some job
unfolding get
get-lookup now account_id actor id q job h = ground arith

stop-IsExclusive :
    (now account_id actor id : ℕ) (q : Queue)
    → IsExclusive q
    → IsExclusive (stop now account_id actor id q).0
unfolding stop
stop-IsExclusive now account_id actor id q v = elim (Result-cases (get now account_id actor id q)) [
  | inr (e, failed) ↦ rw (failed, stop) v
  | inl (job, found) ↦
      rw (found, stop)
        (stopped-IsExclusive now id job q v (get-lookup now account_id actor id q job found))
]

-- A new job of an account that has none.
started-IsExclusive :
    (id account_id : ℕ) (job : Job) (q : Queue)
    → IsExclusive q
    → is_active account_id q ≡ false
    → is_full q ≡ false
    → job.account_id ≡ account_id
    → IsExclusive (put_job id job (record q { active = insert account_id id q.active }))
started-IsExclusive id account_id job q v idle room same =
    put_job-IsExclusive id job (record q { active = insert account_id id q.active })
      (record {
        distinct = v.distinct;
        held = λ j other e u.
            ground
              (arith, v.held j other e u, lookup-insert account_id other.account_id id q.active);
        previews_bounded = v.previews_bounded;
        jobs_bounded = v.jobs_bounded;
      })
      (ground (arith, length-insert-le id job q.jobs))
      λ u. ground (arith, lookup-insert account_id job.account_id id q.active)

confirm_entry-IsExclusive :
    (now id account_id actor token : ℕ) (entry : Prepared) (q : Queue)
    → IsExclusive q
    → IsExclusive (confirm_entry now id account_id actor token entry q).0
unfolding confirm_entry
confirm_entry-IsExclusive now id account_id actor token entry q v =
    let taken =
      with_previews-IsExclusive q (delete token q.previews)
        (omega (arith, length-delete-le {0} token q.previews, v.previews_bounded)) v in
    let pruned = prune-IsExclusive now (record q { previews = delete token q.previews }) taken in
    if-intro Fine (not (is_of account_id actor entry)) (λ _. v)
      λ _.
        if-intro Fine (leb entry.expires_at now) (λ _. taken)
          λ _.
            if-intro Fine (not (any (λ c. c.executable) entry.commands)) (λ _. taken)
              λ _.
                if-intro Fine (is_active account_id q) (λ _. taken)
                  λ idle.
                    if-intro Fine
                      (is_full (prune now (record q { previews = delete token q.previews })))
                      (λ _. pruned)
                      λ room. started-IsExclusive id account_id _ _ pruned idle room (
                        start_job-account now id account_id actor entry.kind entry.commands
                          entry.delay_seconds)
  where
    Fine : Answer JobValue → Type 0
    Fine a = IsExclusive a.0

confirm-IsExclusive :
    (now id account_id actor token : ℕ) (q : Queue)
    → IsExclusive q
    → IsExclusive (confirm now id account_id actor token q).0
unfolding confirm
confirm-IsExclusive now id account_id actor token q v =
    elim (Option-cases (lookup token q.previews)) [
      | inl missing ↦ rw (missing, confirm) v
      | inr (entry, found) ↦
          rw (found, confirm) (confirm_entry-IsExclusive now id account_id actor token entry q v)
    ]

apply-IsExclusive :
    (cut : String → String) (q : Queue) (c : ℕ × Call) → IsExclusive q → IsExclusive (apply cut q c)
unfolding apply shutdown
apply-IsExclusive cut q (now, creates token account_id actor kind currency commands delay) v =
    create-IsExclusive now token account_id actor kind currency commands delay q v
apply-IsExclusive cut q (now, confirms id account_id actor token) v =
    confirm-IsExclusive now id account_id actor token q v
apply-IsExclusive cut q (now, advances id event) v = advance-IsExclusive cut now id event q v
apply-IsExclusive cut q (now, stops account_id actor id) v =
    stop-IsExclusive now account_id actor id q v
apply-IsExclusive cut q (now, stops_account account_id) v =
    stop_account-IsExclusive now account_id q v
apply-IsExclusive cut q (now, shuts_down) v =
    with_previews-IsExclusive _ [] (omega arith) (stop_accounts-IsExclusive now q.active q v)

history-IsExclusive :
    (cut : String → String) (q : Queue) (cs : List (ℕ × Call))
    → IsExclusive q
    → IsExclusive (history cut q cs)
unfolding history
history-IsExclusive cut q [] v = v
history-IsExclusive cut q (c ∷ cs) v =
    history-IsExclusive cut (apply cut q c) cs (apply-IsExclusive cut q c v)

-- After any calls and events, from the empty queue on: an unfinished job is the active job of its
-- account, and there are at most 200 previews and 200 jobs.
pub queue-IsExclusive :
    (cut : String → String) (cs : List (ℕ × Call)) → IsExclusive (history cut empty cs)
unfolding empty lookup
queue-IsExclusive cut cs = history-IsExclusive cut empty cs (record {
  distinct = tt;
  held = λ id job e u. absurd (cc);
  previews_bounded = omega arith;
  jobs_bounded = omega arith;
})

-- After any calls, in any order and at any times, two unfinished batches of the same account are the
-- same batch: no account ever has two.
pub one_batch_per_account :
    (cut : String → String) (cs : List (ℕ × Call)) (i j : ℕ) (a b : Job)
    → lookup i (history cut empty cs).jobs ≡ some a
    → lookup j (history cut empty cs).jobs ≡ some b
    → is_finished a.finished_at ≡ false
    → is_finished b.finished_at ≡ false
    → a.account_id ≡ b.account_id
    → i ≡ j
one_batch_per_account cut cs i j a b ha hb ua ub e =
    let v = queue-IsExclusive cut cs in ground (arith, v.held i a ha ua, v.held j b hb ub)
