-- ===== src/Batch/Run/Invariant.antt =====
-- apps/server/src/inventory/batch.ts: what holds of a job between any two of its events.
use steam_bee.Common.{
  subst, sym, ap, Option, keep_if, ℕ, suc, ◌+◌, ◌≡◌, refl, Bool, true, false, not, ◌&&◌, ◌||◌, none,
  some, List, [], ◌∷◌, map, String, arith, length, length-map, All, Bool-cases, inl, inr,
  if◌then◌else◌,
}
use steam_bee.Batch.{
  queued, running, sale, cancel, fulfilled, rejected, job_completed, job_stopped, Command, Item,
  Kind, Outcome,
}
use steam_bee.Batch.Run.{
  Phase, waiting, executing, ended, Job, Event, waited, executed, stop_asked, finish, request_stop,
  should_continue, begin_item, begin_wait, next_command, is_finished, settled_status,
  record_outcome, is_submitted, stops_batch, after_execute, after_wait, stop_job, settle, step, run,
  new_item, new_job, start_job, skip_pending, update_item,
}
use steam_bee.Batch.Run.Items.{
  IsSettled, pending, Fits, FitsFrom, FitsAt, FitsFrom-executable, FitsFrom-skipped,
  length-update_item, FitsAt-started, pending-started, FitsAt-settled, pending-settled,
  skip_pending-IsSettled, settled-pending,
}

-- The end of a job: no item is left to submit, and the status says whether it was stopped.
pub record IsFinal (job : Job) : Type 0 where
  pub all_settled : All IsSettled job.value.items
  pub status_lem :
      job.value.status ≡ (if job.value.stop_requested then job_stopped else job_completed)
  pub no_next : job.value.next_action_at ≡ none
  pub when : ℕ
  pub finished : job.finished_at ≡ some when

abbrev pub FitsPhase : Job → Phase → Type 0
FitsPhase job (waiting index rest) =
    FitsAt index queued rest job.value.items × (job.finished_at ≡ none)
FitsPhase job (executing index rest) =
    FitsAt index running rest job.value.items × (job.finished_at ≡ none)
FitsPhase job ended = IsFinal job

pub record IsConsistent (job : Job) : Type 0 where
  pub counted : job.value.completed_count + pending job.value.items ≡ length job.value.items
  pub total : job.value.total_count ≡ length job.value.items
  pub phased : FitsPhase job job.phase

-- The loop stands before the command at `index`.
pub record IsBefore (job : Job) (index : ℕ) (rest : List Command) : Type 0 where
  pub counted : job.value.completed_count + pending job.value.items ≡ length job.value.items
  pub total : job.value.total_count ≡ length job.value.items
  pub unfinished : job.finished_at ≡ none
  pub fits : FitsFrom index rest job.value.items

finish-IsConsistent :
    (now : ℕ) (job : Job)
    → job.value.total_count ≡ length job.value.items
    → IsConsistent (finish now job)
unfolding finish
finish-IsConsistent now job t =
    let items = map skip_pending job.value.items in
    let settled = skip_pending-IsSettled job.value.items in
    record {
      counted = settled-pending items;
      total = omega (arith, length-map job.value.items skip_pending);
      phased = record {
        all_settled = settled;
        status_lem = refl;
        no_next = refl;
        when = now;
        finished = refl;
      };
    }

module _ (now : ℕ) (job : Job) (index : ℕ) (rest : List Command) where
  begin_item-IsConsistent :
      job.value.completed_count + pending job.value.items ≡ length job.value.items
      → job.value.total_count ≡ length job.value.items
      → job.finished_at ≡ none
      → FitsAt index queued rest job.value.items
      → IsConsistent (begin_item now job index rest)
  unfolding begin_item
  begin_item-IsConsistent c t u f =
      let start : Item → Item = λ item. record item { status = running } in
      let same = length-update_item start index job.value.items in
      record {
        counted =
            omega (arith, same, pending-started start index rest job.value.items (λ x. refl) f);
        total = omega (arith, same);
        phased = (FitsAt-started start index rest job.value.items (λ x. refl) f, u);
      }

  begin_wait-IsConsistent :
      job.value.completed_count + pending job.value.items ≡ length job.value.items
      → job.value.total_count ≡ length job.value.items
      → job.finished_at ≡ none
      → FitsAt index queued rest job.value.items
      → IsConsistent (begin_wait now job index rest)
  unfolding begin_wait
  begin_wait-IsConsistent c t u f = record { counted = c; total = t; phased = (f, u) }

next_command-IsConsistent :
    (now : ℕ) (submitted : Bool) (job : Job) (index : ℕ) (rest : List Command)
    → IsBefore job index rest
    → IsConsistent (next_command now submitted job index rest)
unfolding next_command
next_command-IsConsistent now submitted job index [] b = finish-IsConsistent now job b.total
next_command-IsConsistent now submitted job index (c ∷ rest) b = elim (Bool-cases c.executable) [
  | inr skip ↦ rw skip (
      next_command-IsConsistent now submitted job (suc index) rest (record {
        counted = b.counted;
        total = b.total;
        unfinished = b.unfinished;
        fits = FitsFrom-skipped index c rest job.value.items skip b.fits;
      }))
  | inl go ↦
      let at = FitsFrom-executable index c rest job.value.items go b.fits in
      rw go (elim (Bool-cases (should_continue now job)) [
        | inr halted ↦ rw halted (finish-IsConsistent now (request_stop job) b.total)
        | inl on ↦ rw on (elim (Bool-cases submitted) [
          | inl again ↦
              rw again
                (begin_wait-IsConsistent now job index rest b.counted b.total b.unfinished at)
          | inr first ↦
              rw first
                (begin_item-IsConsistent now job index rest b.counted b.total b.unfinished at)
        ])
      ])
]

pub record_outcome-IsSettled :
    (cut : String → String) (kind : Kind) (outcome : Outcome) (x : Item)
    → IsSettled (record_outcome cut kind outcome x)
unfolding record_outcome settled_status
record_outcome-IsSettled cut sale (fulfilled result) x = ground arith
record_outcome-IsSettled cut cancel (fulfilled result) x = ground arith
record_outcome-IsSettled cut kind (rejected detail) x = ground arith

after_wait-IsConsistent :
    (now : ℕ) (resolved : Bool) (job : Job) (index : ℕ) (rest : List Command)
    → IsConsistent job
    → FitsPhase job (waiting index rest)
    → IsConsistent (after_wait now resolved job index rest)
unfolding after_wait
after_wait-IsConsistent now resolved job index rest v f =
    elim (Bool-cases (resolved && should_continue now job)) [
      | inl on ↦ rw on (begin_item-IsConsistent now job index rest v.counted v.total f.1 f.0)
      | inr off ↦ rw off (finish-IsConsistent now (request_stop job) v.total)
    ]

after_execute-IsConsistent :
    (cut : String → String) (now : ℕ) (outcome : Outcome) (job : Job) (index : ℕ)
    (rest : List Command)
    → IsConsistent job
    → FitsPhase job (executing index rest)
    → IsConsistent (after_execute cut now outcome job index rest)
unfolding after_execute
after_execute-IsConsistent cut now outcome job index rest v f =
    let end = record_outcome cut job.value.kind outcome in
    let settles = record_outcome-IsSettled cut job.value.kind outcome in
    let same = length-update_item end index job.value.items in
    let total : job.value.total_count ≡ length (update_item index end job.value.items) =
      omega (arith, same, v.total) in
    elim (Bool-cases (job.value.stop_requested || stops_batch outcome)) [
      | inl stop ↦ rw stop (finish-IsConsistent now _ total)
      | inr on ↦ rw on (
          next_command-IsConsistent now (is_submitted outcome) _ (suc index) rest (record {
            counted = omega (
              arith,
              same,
              v.counted,
              pending-settled end index rest job.value.items settles f.0,
            );
            total = total;
            unfinished = f.1;
            fits = FitsAt-settled end index rest job.value.items settles f.0;
          }))
    ]

abbrev marked : ℕ → Job → Job
marked now job = record job {
  value = record (job.value) { stop_requested = true; updated_at = now };
  aborted = true;
}

stop_job-unfinished :
    (now : ℕ) (job : Job)
    → IsConsistent job
    → FitsPhase (marked now job) job.phase
    → job.finished_at ≡ none
    → IsConsistent (stop_job now job)
unfolding stop_job
stop_job-unfinished now job v f u =
    let same : stop_job now job ≡ marked now job =
      ap (λ (t : Option ℕ). if is_finished t then job else marked now job) u in
    subst IsConsistent (sym same) (record { counted = v.counted; total = v.total; phased = f })

stop_job-IsConsistent : (now : ℕ) (job : Job) → IsConsistent job → IsConsistent (stop_job now job)
unfolding stop_job
stop_job-IsConsistent now job v = stopped job.phase v.phased refl
  where
    stopped :
        (phase : Phase) → FitsPhase job phase → job.phase ≡ phase → IsConsistent (stop_job now job)
    stopped (waiting index rest) (at, u) e =
        stop_job-unfinished now job v (subst (FitsPhase (marked now job)) (sym e) (at, u)) u
    stopped (executing index rest) (at, u) e =
        stop_job-unfinished now job v (subst (FitsPhase (marked now job)) (sym e) (at, u)) u
    stopped ended f e = simp f.finished v

settle-IsConsistent :
    (cut : String → String) (now : ℕ) (event : Event) (job : Job) (phase : Phase)
    → IsConsistent job
    → FitsPhase job phase
    → IsConsistent (settle cut now event job phase)
unfolding settle
settle-IsConsistent cut now (waited resolved) job (waiting index rest) v f =
    after_wait-IsConsistent now resolved job index rest v f
settle-IsConsistent cut now (executed outcome) job (executing index rest) v f =
    after_execute-IsConsistent cut now outcome job index rest v f
settle-IsConsistent cut now stop_asked job phase v f = stop_job-IsConsistent now job v
settle-IsConsistent cut now (waited resolved) job (executing index rest) v f = v
settle-IsConsistent cut now (waited resolved) job ended v f = v
settle-IsConsistent cut now (executed outcome) job (waiting index rest) v f = v
settle-IsConsistent cut now (executed outcome) job ended v f = v

pub step-IsConsistent :
    (cut : String → String) (job : Job) (e : ℕ × Event)
    → IsConsistent job
    → IsConsistent (step cut job e)
unfolding step
step-IsConsistent cut job (now, event) v =
    settle-IsConsistent cut now event job job.phase v v.phased

run-IsConsistent :
    (cut : String → String) (job : Job) (es : List (ℕ × Event))
    → IsConsistent job
    → IsConsistent (run cut job es)
unfolding run
run-IsConsistent cut job [] v = v
run-IsConsistent cut job (e ∷ es) v =
    run-IsConsistent cut (step cut job e) es (step-IsConsistent cut job e v)

Fits-items : (cs : List Command) → Fits cs (map new_item cs)
Fits-items [] = tt
Fits-items (c ∷ cs) = (refl, Fits-items cs)

pending-items :
    (cs : List Command)
    → length (keep_if (λ c. not c.executable) cs) + pending (map new_item cs)
      ≡ length (map new_item cs)
pending-items [] = omega arith
pending-items (c ∷ cs) = ground (arith, pending-items cs)

pub start_job-IsConsistent :
    (now id account_id actor : ℕ) (kind : Kind) (cs : List Command) (delay_seconds : ℕ)
    → IsConsistent (start_job now id account_id actor kind cs delay_seconds)
unfolding start_job new_job
start_job-IsConsistent now id account_id actor kind cs delay_seconds =
    next_command-IsConsistent now false (new_job now id account_id actor kind cs delay_seconds) 0 cs
      (record {
        counted = pending-items cs;
        total = sym (length-map cs new_item);
        unfinished = refl;
        fits = Fits-items cs;
      })

-- Whatever happens to a confirmed batch, in whatever order promises settle and stops are asked for:
-- the completed count and the items still queued or running add up to all the items, as many as
-- there were commands. While the job waits or executes, the commands behind it are untouched, and
-- exactly the one that is executing is running. Once it has ended, every item has a final status,
-- no further action is announced, and the status is stopped or completed by the stop request.
pub batch-IsConsistent :
    (cut : String → String) (now id account_id actor : ℕ) (kind : Kind) (cs : List Command)
    (delay_seconds : ℕ) (es : List (ℕ × Event))
    → IsConsistent (run cut (start_job now id account_id actor kind cs delay_seconds) es)
batch-IsConsistent cut now id account_id actor kind cs delay_seconds es =
    run-IsConsistent cut _ es (start_job-IsConsistent now id account_id actor kind cs delay_seconds)
