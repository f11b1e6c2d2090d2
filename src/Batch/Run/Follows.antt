-- ===== src/Batch/Run/Follows.antt =====
-- apps/server/src/inventory/batch.ts: what no event changes in a job.
use steam_bee.Common.{
  ℕ, suc, ◌≡◌, refl, Bool, true, false, List, [], ◌∷◌, String, arith, ◌||◌, Bool-cases, inl, inr,
}
use steam_bee.Batch.{Kind, Command}
use steam_bee.Batch.Run.{
  Phase, waiting, executing, ended, Job, Event, waited, executed, stop_asked, is_finished, finish,
  begin_item, begin_wait, next_command, after_wait, after_execute, stop_job, settle, step,
  start_job, new_job, stops_batch, is_submitted,
}

-- The account of a job, and that it has finished, stay.
abbrev pub Follows : Job → Job → Type 0
Follows job after =
    (after.account_id ≡ job.account_id)
    × (is_finished job.finished_at ≡ true → is_finished after.finished_at ≡ true)

next_command-Follows :
    (now : ℕ) (submitted : Bool) (job : Job) (index : ℕ) (rest : List Command)
    → Follows job (next_command now submitted job index rest)
unfolding next_command finish begin_wait begin_item
next_command-Follows now submitted job index [] = (refl, λ _. refl)
next_command-Follows now submitted job index (c ∷ rest) =
    ground (arith, next_command-Follows now submitted job (suc index) rest)

settle-Follows :
    (cut : String → String) (now : ℕ) (event : Event) (job : Job) (phase : Phase)
    → Follows job (settle cut now event job phase)
unfolding settle after_wait after_execute stop_job finish begin_item
settle-Follows cut now (waited resolved) job (waiting index rest) = ground arith
settle-Follows cut now (executed outcome) job (executing index rest) =
    elim (Bool-cases (job.value.stop_requested || stops_batch outcome)) [
      | inl stop ↦ rw stop (refl, λ _. refl)
      | inr on ↦ rw on (next_command-Follows now (is_submitted outcome) _ (suc index) rest)
    ]
settle-Follows cut now stop_asked job phase = ground arith
settle-Follows cut now (waited resolved) job (executing index rest) = (refl, λ h. h)
settle-Follows cut now (waited resolved) job ended = (refl, λ h. h)
settle-Follows cut now (executed outcome) job (waiting index rest) = (refl, λ h. h)
settle-Follows cut now (executed outcome) job ended = (refl, λ h. h)

pub step-Follows :
    (cut : String → String) (job : Job) (e : ℕ × Event) → Follows job (step cut job e)
unfolding step
step-Follows cut job (now, event) = settle-Follows cut now event job job.phase

pub stop_job-same :
    (now : ℕ) (job : Job)
    → ((stop_job now job).account_id ≡ job.account_id)
      × ((stop_job now job).finished_at ≡ job.finished_at)
unfolding stop_job
stop_job-same now job = ground arith

pub start_job-account :
    (now id account_id actor : ℕ) (kind : Kind) (cs : List Command) (delay_seconds : ℕ)
    → (start_job now id account_id actor kind cs delay_seconds).account_id ≡ account_id
unfolding start_job new_job
start_job-account now id account_id actor kind cs delay_seconds =
    (next_command-Follows now false (new_job now id account_id actor kind cs delay_seconds) 0 cs).0
