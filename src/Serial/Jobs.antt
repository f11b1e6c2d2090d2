-- ===== src/Serial/Jobs.antt =====
-- apps/server/src/steam/account-operation-state.ts: the calls of an account, of which those before one have
-- run and the later ones wait for each other.
use steam_bee.Common.{
  ℕ, zero, suc, ◌≡◌, refl, ◌∙◌, Bool, true, false, Option, none, some, List, [], ◌∷◌, arith, length,
}
use steam_bee.Serial.{
  waiting, running, over, settled, Job, Seen, begun, ended, is_settled, begin_job, end_job,
  settle_job,
}

-- What is seen when the calls before `n` have run, each after the one before.
abbrev pub all_run : ℕ → List Seen
all_run zero = []
all_run (suc n) = ended n ∷ begun n ∷ all_run n

-- Then call `n` runs, or nothing.
abbrev pub in_turn : ℕ → Bool → List Seen
in_turn n true = begun n ∷ all_run n
in_turn n false = all_run n

-- Every call has settled.
pub data IsDone : List Job → Type 0 where
  no_job : IsDone []
  job_done :
      (previous : Option ℕ) (jobs : List Job)
      → IsDone jobs
      → IsDone (record { previous = previous; phase = settled } ∷ jobs)

-- A call waits for the one before, or for none where all have settled.
pub data IsLinked : Option ℕ → List Job → Type 0 where
  to_none : (jobs : List Job) → IsDone jobs → IsLinked none jobs
  to_last : (id : ℕ) (jobs : List Job) → length jobs ≡ suc id → IsLinked (some id) jobs

-- The calls before `n` have run, and call `n` runs or not; the others wait for each other.
pub data IsSerial : List Job → ℕ → Bool → Type 0 where
  nothing : IsSerial [] 0 false
  has_run :
      (previous : Option ℕ) (jobs : List Job)
      → IsDone jobs
      → IsSerial (record { previous = previous; phase = settled } ∷ jobs) (suc (length jobs)) false
  has_ended :
      (previous : Option ℕ) (jobs : List Job)
      → IsDone jobs
      → IsSerial (record { previous = previous; phase = over } ∷ jobs) (suc (length jobs)) false
  runs_now :
      (previous : Option ℕ) (jobs : List Job)
      → IsDone jobs
      → IsSerial (record { previous = previous; phase = running } ∷ jobs) (length jobs) true
  waits :
      (previous : Option ℕ) (jobs : List Job) (n : ℕ) (b : Bool)
      → IsLinked previous jobs
      → IsSerial jobs n b
      → IsSerial (record { previous = previous; phase = waiting } ∷ jobs) n b

-- A list whose last call has settled is done.
pub settled-IsDone :
    (job : Job) (jobs : List Job) (n : ℕ) (b : Bool)
    → IsSerial (job ∷ jobs) n b
    → is_settled job.phase ≡ true
    → IsDone (job ∷ jobs)
settled-IsDone _ jobs n b (has_run previous _ d) e = job_done previous jobs d
settled-IsDone _ jobs n b (has_ended previous _ d) e = cc
settled-IsDone _ jobs n b (runs_now previous _ d) e = cc
settled-IsDone _ jobs n b (waits previous _ _ _ l s) e = cc

-- A step of the jobs, and what is seen of it: nothing, the call that is next begins, or it ends.
pub data IsNext : List Job → List Seen → ℕ → Bool → Type 0 where
  same : (jobs : List Job) (n : ℕ) (b : Bool) → IsSerial jobs n b → IsNext jobs [] n b
  next_begins :
      (jobs : List Job) (n : ℕ) → IsSerial jobs n true → IsNext jobs (begun n ∷ []) n false
  next_ends :
      (jobs : List Job) (n : ℕ) → IsSerial jobs (suc n) false → IsNext jobs (ended n ∷ []) n true

pub begin_done : (id : ℕ) (jobs : List Job) → IsDone jobs → begin_job id jobs ≡ (jobs, [])
unfolding begin_job
begin_done id _ no_job = refl
begin_done id _ (job_done previous jobs d) = rw (begin_done id jobs d) (ground arith)

pub end_done :
    (id : ℕ) (fails : Bool) (jobs : List Job) → IsDone jobs → end_job id fails jobs ≡ (jobs, [])
unfolding end_job
end_done id fails _ no_job = refl
end_done id fails _ (job_done previous jobs d) = rw (end_done id fails jobs d) (ground arith)

pub settle_done : (id : ℕ) (jobs : List Job) → IsDone jobs → settle_job id jobs ≡ jobs
unfolding settle_job
settle_done id _ no_job = refl
settle_done id _ (job_done previous jobs d) = rw (settle_done id jobs d) (ground arith)

pub count_done :
    (jobs : List Job) (n : ℕ) (b : Bool)
    → IsDone jobs
    → IsSerial jobs n b
    → (n ≡ length jobs) × (b ≡ false)
count_done _ n b no_job nothing = (refl, refl)
count_done _ n b (job_done previous jobs d) (has_run _ _ e) = (refl, refl)

pub length-begin_job : (id : ℕ) (jobs : List Job) → length (begin_job id jobs).0 ≡ length jobs
unfolding begin_job
length-begin_job id [] = refl
length-begin_job id (job ∷ jobs) = ground (arith, length-begin_job id jobs)

pub length-end_job :
    (id : ℕ) (fails : Bool) (jobs : List Job) → length (end_job id fails jobs).0 ≡ length jobs
unfolding end_job
length-end_job id fails [] = refl
length-end_job id fails (job ∷ jobs) = ground (arith, length-end_job id fails jobs)

pub length-settle_job : (id : ℕ) (jobs : List Job) → length (settle_job id jobs) ≡ length jobs
unfolding settle_job
length-settle_job id [] = refl
length-settle_job id (job ∷ jobs) = ground (arith, length-settle_job id jobs)

pub IsLinked-kept :
    (previous : Option ℕ) (jobs next : List Job)
    → (IsDone jobs → IsDone next)
    → length next ≡ length jobs
    → IsLinked previous jobs
    → IsLinked previous next
IsLinked-kept _ jobs next k e (to_none _ d) = to_none next (k d)
IsLinked-kept _ jobs next k e (to_last id _ f) = to_last id next (e ∙ f)
