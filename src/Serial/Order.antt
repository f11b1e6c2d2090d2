-- ===== src/Serial/Order.antt =====
-- apps/server/src/steam/account-operation-state.ts: the operations of an account run one at a time, in the
-- order of the calls.
use steam_bee.Common.{
  ℕ, suc, ◌≡◌, refl, sym, ap, Bool, true, false, not, ◌&&◌, Option, some, List, [], ◌∷◌, ◌++◌,
  arith, length, ◌==◌, if◌then◌else◌, if-intro,
}
use steam_bee.Serial.{
  waiting, running, Job, Queue, Step, runs, begins, ends, settles, cleans, Seen, begun, ended,
  has_settled, is_free, begin_job, end_job, settle_job, is_queue, perform, perform_all,
}
use steam_bee.Serial.Jobs.{
  in_turn, IsDone, no_job, IsLinked, to_none, to_last, IsSerial, nothing, has_run, has_ended,
  runs_now, waits, settled-IsDone, IsNext, same, next_begins, next_ends, begin_done, end_done,
  settle_done, count_done, length-begin_job, length-end_job, length-settle_job, IsLinked-kept,
}

-- A call that waits hides nothing of the older ones.
behind-IsNext :
    (previous : Option ℕ) (jobs : List Job) (seen : List Seen) (n : ℕ) (b : Bool)
    → IsLinked previous jobs
    → IsNext jobs seen n b
    → IsNext (record { previous = previous; phase = waiting } ∷ jobs) seen n b
behind-IsNext previous _ _ n b l (same jobs _ _ s) = same _ n b (waits previous jobs n b l s)
behind-IsNext previous _ _ _ _ l (next_begins jobs n s) =
    next_begins _ n (waits previous jobs n true l s)
behind-IsNext previous _ _ _ _ l (next_ends jobs n s) =
    next_ends _ n (waits previous jobs (suc n) false l s)

-- The call before is settled only when all calls before are.
freed-IsDone :
    (previous : Option ℕ) (jobs : List Job) (n : ℕ) (b : Bool)
    → IsLinked previous jobs
    → IsSerial jobs n b
    → is_free previous jobs ≡ true
    → IsDone jobs
unfolding has_settled
freed-IsDone _ jobs n b (to_none _ d) s e = d
freed-IsDone _ [] n b (to_last id _ f) s e = no_job
freed-IsDone _ (job ∷ jobs) n b (to_last id _ f) s e =
    settled-IsDone job jobs n b s (ground (arith, e, f))

begin_here :
    (id : ℕ) (previous : Option ℕ) (jobs : List Job) (n : ℕ) (b : Bool)
    → (length jobs == id) ≡ true
    → IsDone jobs
    → IsSerial jobs n b
    → IsNext (record { previous = previous; phase = running } ∷ jobs) (begun id ∷ []) n b
begin_here id previous jobs n b e d s =
    let c = count_done jobs n b d s in
    let same_id : length jobs ≡ id = ground (arith, e) in
    rw (c.0, c.1, sym same_id) (next_begins _ (length jobs) (runs_now previous jobs d))

-- Where both branches keep the jobs, nothing is seen.
kept-IsNext :
    (test : Bool) (jobs : List Job) (n : ℕ) (b : Bool)
    → IsSerial jobs n b
    → (let r = if◌then◌else◌ {A = List Job × List Seen} test (jobs, []) (jobs, []) in
        IsNext r.0 r.1 n b)
kept-IsNext true jobs n b s = same jobs n b s
kept-IsNext false jobs n b s = same jobs n b s

module _ (id : ℕ) where
  begin_job-IsNext :
      (jobs : List Job) (n : ℕ) (b : Bool)
      → IsSerial jobs n b
      → IsNext (begin_job id jobs).0 (begin_job id jobs).1 n b
  unfolding begin_job
  begin_job-IsNext _ _ _ nothing = same [] 0 false nothing
  begin_job-IsNext _ _ _ (has_run previous jobs d) =
      rw (begin_done id jobs d)
        (kept-IsNext (not (length jobs == id)) _ _ _ (has_run previous jobs d))
  begin_job-IsNext _ _ _ (has_ended previous jobs d) =
      rw (begin_done id jobs d)
        (kept-IsNext (not (length jobs == id)) _ _ _ (has_ended previous jobs d))
  begin_job-IsNext _ _ _ (runs_now previous jobs d) =
      rw (begin_done id jobs d)
        (kept-IsNext (not (length jobs == id)) _ _ _ (runs_now previous jobs d))
  begin_job-IsNext _ _ _ (waits previous jobs n b l s) =
      let Next : List Job × List Seen → Type 0 = λ r. IsNext r.0 r.1 n b in
      if-intro Next (not (length jobs == id))
        (λ e.
          behind-IsNext previous _ _ n b
            (IsLinked-kept previous jobs _ (λ d. rw (begin_done id jobs d) d)
              (length-begin_job id jobs) l)
            (begin_job-IsNext jobs n b s))
        (λ e.
          if-intro Next (is_free previous jobs)
            (λ f.
              begin_here id previous jobs n b (ground (arith, e))
                (freed-IsDone previous jobs n b l s f) s)
            (λ f. same _ n b (waits previous jobs n b l s)))

  end_job-IsNext :
      (fails : Bool) (jobs : List Job) (n : ℕ) (b : Bool)
      → IsSerial jobs n b
      → IsNext (end_job id fails jobs).0 (end_job id fails jobs).1 n b
  unfolding end_job
  end_job-IsNext fails _ _ _ nothing = same [] 0 false nothing
  end_job-IsNext fails _ _ _ (has_run previous jobs d) =
      rw (end_done id fails jobs d)
        (kept-IsNext (not (length jobs == id)) _ _ _ (has_run previous jobs d))
  end_job-IsNext fails _ _ _ (has_ended previous jobs d) =
      rw (end_done id fails jobs d)
        (kept-IsNext (not (length jobs == id)) _ _ _ (has_ended previous jobs d))
  end_job-IsNext fails _ _ _ (runs_now previous jobs d) = rw (end_done id fails jobs d) (
      if-intro (λ (r : List Job × List Seen). IsNext r.0 r.1 (length jobs) true)
        (not (length jobs == id)) (λ e. same _ _ _ (runs_now previous jobs d))
        (λ e.
          let same_id : length jobs ≡ id = ground (arith, e) in
          rw (sym same_id) (next_ends _ (length jobs) (has_ended previous jobs d))))
  end_job-IsNext fails _ _ _ (waits previous jobs n b l s) =
      if-intro (λ (r : List Job × List Seen). IsNext r.0 r.1 n b) (not (length jobs == id))
        (λ e.
          behind-IsNext previous _ _ n b
            (IsLinked-kept previous jobs _ (λ d. rw (end_done id fails jobs d) d)
              (length-end_job id fails jobs) l)
            (end_job-IsNext fails jobs n b s))
        (λ e. same _ n b (waits previous jobs n b l s))

  settle_job-IsSerial :
      (jobs : List Job) (n : ℕ) (b : Bool) → IsSerial jobs n b → IsSerial (settle_job id jobs) n b
  unfolding settle_job
  settle_job-IsSerial _ _ _ nothing = nothing
  settle_job-IsSerial _ _ _ (has_run previous jobs d) = rw (settle_done id jobs d) (
      if-intro (λ (r : List Job). IsSerial r (suc (length jobs)) false) (not (length jobs == id))
        (λ e. has_run previous jobs d) (λ e. has_run previous jobs d))
  settle_job-IsSerial _ _ _ (has_ended previous jobs d) = rw (settle_done id jobs d) (
      if-intro (λ (r : List Job). IsSerial r (suc (length jobs)) false) (not (length jobs == id))
        (λ e. has_ended previous jobs d) (λ e. has_run previous jobs d))
  settle_job-IsSerial _ _ _ (runs_now previous jobs d) = rw (settle_done id jobs d) (
      if-intro (λ (r : List Job). IsSerial r (length jobs) true) (not (length jobs == id))
        (λ e. runs_now previous jobs d) (λ e. runs_now previous jobs d))
  settle_job-IsSerial _ _ _ (waits previous jobs n b l s) =
      if-intro (λ (r : List Job). IsSerial r n b) (not (length jobs == id))
        (λ e.
          waits previous (settle_job id jobs) n b
            (IsLinked-kept previous jobs _ (λ d. rw (settle_done id jobs d) d)
              (length-settle_job id jobs) l)
            (settle_job-IsSerial jobs n b s))
        (λ e. waits previous jobs n b l s)

-- The queue and what was seen, after any steps.
pub record IsKept (q : Queue) (seen : List Seen) : Type 0 where
  pub count : ℕ
  pub busy : Bool
  pub serial : IsSerial q.jobs count busy
  pub linked : IsLinked q.queue q.jobs
  pub order : seen ≡ in_turn count busy

IsKept-next :
    (queue : Option ℕ) (jobs : List Job) (news seen : List Seen) (n : ℕ) (b : Bool)
    → IsLinked queue jobs
    → IsNext jobs news n b
    → seen ≡ in_turn n b
    → IsKept (record { queue = queue; jobs = jobs }) (news ++ seen)
IsKept-next queue _ _ seen n b l (same jobs _ _ s) o = record {
  count = n;
  busy = b;
  serial = s;
  linked = l;
  order = o;
}
IsKept-next queue _ _ seen _ _ l (next_begins jobs n s) o = record {
  count = n;
  busy = true;
  serial = s;
  linked = l;
  order = ap (λ xs. begun n ∷ xs) o;
}
IsKept-next queue _ _ seen _ _ l (next_ends jobs n s) o = record {
  count = suc n;
  busy = false;
  serial = s;
  linked = l;
  order = ap (λ xs. ended n ∷ xs) o;
}

cleaned-IsDone :
    (id : ℕ) (queue : Option ℕ) (jobs : List Job) (n : ℕ) (b : Bool)
    → IsLinked queue jobs
    → IsSerial jobs n b
    → (has_settled id jobs && is_queue id queue) ≡ true
    → IsDone jobs
cleaned-IsDone id _ jobs n b (to_none _ d) s e = d
cleaned-IsDone id _ jobs n b (to_last j _ f) s e =
    let same_id : j ≡ id = ground (arith, e) in
    freed-IsDone (some j) jobs n b (to_last j jobs f) s (rw same_id (ground (arith, e)))

perform-IsKept :
    (step : Step) (q : Queue) (seen : List Seen)
    → IsKept q seen
    → IsKept (perform step q).0 ((perform step q).1 ++ seen)
unfolding perform
perform-IsKept runs q seen k = record {
  count = k.count;
  busy = k.busy;
  serial = waits q.queue q.jobs k.count k.busy k.linked k.serial;
  linked = to_last (length q.jobs) _ refl;
  order = k.order;
}
perform-IsKept (begins id) q seen k =
    IsKept-next q.queue _ _ seen k.count k.busy
      (IsLinked-kept q.queue q.jobs _ (λ d. rw (begin_done id q.jobs d) d)
        (length-begin_job id q.jobs) k.linked)
      (begin_job-IsNext id q.jobs k.count k.busy k.serial) k.order
perform-IsKept (ends id fails) q seen k =
    IsKept-next q.queue _ _ seen k.count k.busy
      (IsLinked-kept q.queue q.jobs _ (λ d. rw (end_done id fails q.jobs d) d)
        (length-end_job id fails q.jobs) k.linked)
      (end_job-IsNext id fails q.jobs k.count k.busy k.serial) k.order
perform-IsKept (settles id) q seen k = record {
  count = k.count;
  busy = k.busy;
  serial = settle_job-IsSerial id q.jobs k.count k.busy k.serial;
  linked =
      IsLinked-kept q.queue q.jobs _ (λ d. rw (settle_done id q.jobs d) d)
        (length-settle_job id q.jobs) k.linked;
  order = k.order;
}
perform-IsKept (cleans id) q seen k =
    if-intro (λ (r : Queue × List Seen). IsKept r.0 (r.1 ++ seen))
      (has_settled id q.jobs && is_queue id q.queue)
      (λ e. record {
        count = k.count;
        busy = k.busy;
        serial = k.serial;
        linked =
            to_none q.jobs (cleaned-IsDone id q.queue q.jobs k.count k.busy k.linked k.serial e);
        order = k.order;
      })
      (λ e. k)

pub perform_all-IsKept :
    (steps : List Step) (q : Queue) (seen : List Seen)
    → IsKept q seen
    → IsKept (perform_all steps q seen).0 (perform_all steps q seen).1
unfolding perform_all
perform_all-IsKept [] q seen k = k
perform_all-IsKept (step ∷ steps) q seen k =
    perform_all-IsKept steps _ _ (perform-IsKept step q seen k)
