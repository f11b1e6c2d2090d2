-- ===== src/Serial.antt =====
-- apps/server/src/steam/account-operation-state.ts: `AccountOperationState`. The calls of `run` for one
-- account are numbered; a promise is a job with its phase, and what `then` and `finally` have queued are
-- steps that come in any order. A context is what `remember` stores for the account.
pub mod Jobs
pub mod Order
pub mod Turns
mod Tests
use steam_bee.Common.{
  ℕ, suc, ◌+◌, Bool, true, false, not, ◌&&◌, ◌||◌, Option, none, some, List, [], ◌∷◌, ◌++◌, String,
  length, ◌==◌, leb, if◌then◌else◌,
}

-- `result` is pending until the operation begins and while it runs; then `tail` settles.
pub data Phase : Type 0 where
  waiting running over settled : Phase

-- `previous` is the tail that `run` found in `queues`.
pub record Job : Type 0 where
  pub previous : Option ℕ
  pub phase : Phase

-- `queue` is the account's entry of `queues`, and the last call comes first.
pub record Queue : Type 0 where
  pub queue : Option ℕ
  pub jobs : List Job

pub data Step : Type 0 where
  runs : Step
  begins : ℕ → Step
  ends : ℕ → Bool → Step
  settles : ℕ → Step
  cleans : ℕ → Step

-- What is seen of the operations.
pub data Seen : Type 0 where
  begun ended : ℕ → Seen

abbrev pub empty_queue : Queue
empty_queue = record { queue = none; jobs = [] }

abbrev pub is_waiting : Phase → Bool
is_waiting p = elim p [ waiting ↦ true | _ ↦ false ]

abbrev pub is_running : Phase → Bool
is_running p = elim p [ running ↦ true | _ ↦ false ]

abbrev pub is_over : Phase → Bool
is_over p = elim p [ over ↦ true | _ ↦ false ]

abbrev pub is_settled : Phase → Bool
is_settled p = elim p [ settled ↦ true | _ ↦ false ]

-- Whether the tail of a call is settled.
unfoldable pub has_settled : ℕ → List Job → Bool
has_settled id [] = false
has_settled id (job ∷ jobs) =
    let older = has_settled id jobs in if length jobs == id then is_settled job.phase else older

-- `queues.get(accountId) ?? Promise.resolve()`
abbrev pub is_free : Option ℕ → List Job → Bool
is_free none jobs = true
is_free (some id) jobs = has_settled id jobs

-- `previous.then(operation, operation)`: the operation begins after `previous`, whose promise is older.
unfoldable pub begin_job : ℕ → List Job → List Job × List Seen
begin_job id [] = ([], [])
begin_job id (job ∷ jobs) =
    let older = begin_job id jobs in
    if not (length jobs == id)
    then (job ∷ older.0, older.1)
    else if is_waiting job.phase && is_free job.previous jobs
    then (record job { phase = running } ∷ jobs, begun id ∷ [])
    else (job ∷ jobs, [])

-- The operation resolves or rejects; `tail` follows `result` in both cases.
unfoldable pub end_job : ℕ → Bool → List Job → List Job × List Seen
end_job id fails [] = ([], [])
end_job id fails (job ∷ jobs) =
    let older = end_job id fails jobs in
    if not (length jobs == id)
    then (job ∷ older.0, older.1)
    else if is_running job.phase
    then (record job { phase = over } ∷ jobs, ended id ∷ [])
    else (job ∷ jobs, [])

unfoldable pub settle_job : ℕ → List Job → List Job
settle_job id [] = []
settle_job id (job ∷ jobs) =
    let older = settle_job id jobs in
    if not (length jobs == id)
    then job ∷ older
    else if is_over job.phase
    then record job { phase = settled } ∷ jobs
    else job ∷ jobs

abbrev pub is_queue : ℕ → Option ℕ → Bool
is_queue id none = false
is_queue id (some j) = j == id

-- A step, and what is seen of it.
unfoldable pub perform : Step → Queue → Queue × List Seen
perform runs q = (
  record {
    queue = some (length q.jobs);
    jobs = record { previous = q.queue; phase = waiting } ∷ q.jobs;
  },
  [],
)
perform (begins id) q = let next = begin_job id q.jobs in (record q { jobs = next.0 }, next.1)
perform (ends id fails) q =
    let next = end_job id fails q.jobs in (record q { jobs = next.0 }, next.1)
perform (settles id) q = (record q { jobs = settle_job id q.jobs }, [])
perform (cleans id) q =
    if has_settled id q.jobs && is_queue id q.queue
    then (record q { queue = none }, [])
    else (q, [])

-- The queue after some steps, and what was seen, the last first.
unfoldable pub perform_all : List Step → Queue → List Seen → Queue × List Seen
perform_all [] q seen = (q, seen)
perform_all (step ∷ steps) q seen =
    let next = perform step q in perform_all steps next.0 (next.1 ++ seen)

-- `OperationContext`, with the names that the class reads.
pub record Context : Type 0 where
  pub correlation_id : Option String
  pub source : Option String
  pub action : Option String

pub record Stored : Type 0 where
  pub context : Context
  pub expires_at : ℕ

abbrev pub or_action : Option String → String → Option String
or_action none fallback = some fallback
or_action (some action) fallback = some action

-- `remember`; no action is empty, so the early return is not taken.
unfoldable pub remember : ℕ → ℕ → String → Context → Option Stored → Option Stored
remember ttl now fallback context found = some (record {
  context = record context { action = or_action context.action fallback };
  expires_at = now + ttl;
})

-- `metadata`: what is left of the stored context, and what the call returns.
unfoldable pub metadata : ℕ → Option Stored → Option Stored × Option Context
metadata now none = (none, none)
metadata now (some s) = if leb s.expires_at now then (none, none) else (some s, some s.context)
