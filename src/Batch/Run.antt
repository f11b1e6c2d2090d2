-- ===== src/Batch/Run.antt =====
-- apps/server/src/inventory/batch.ts: `run`, `finish` and the part of `stop` that acts on a job.
-- The asynchronous loop is cut at its two awaits: `Phase` says where it is suspended, and `settle`
-- runs it from there to the next await or to its end. What the awaited promises give comes with the
-- event; whatever else happens meanwhile (a stop request, time) happens between two events. One
-- stretch between awaits reads the clock once.
pub mod Items
pub mod Invariant
pub mod Stability
pub mod Progress
pub mod Follows
use steam_bee.Common.{
  ℕ, zero, suc, ◌+◌, ◌*◌, Bool, true, false, not, ◌&&◌, ◌||◌, Option, none, some, List, [], ◌∷◌,
  map, String, ltb, if◌then◌else◌, length, keep_if,
}
use steam_bee.Batch.{
  ItemStatus, queued, running, listed, pending_confirmation, cancelled, failed, skipped, Kind, sale,
  cancel, job_running, job_waiting, job_completed, job_stopped, Command, Item, JobValue,
  ActionResult, Outcome, fulfilled, rejected,
}

-- Where the loop is: before it has an await, in the wait before a command, in `execute` of a
-- command, or past the end. `rest` are the commands behind the one at `index`.
pub data Phase : Type 0 where
  waiting : (index : ℕ) (rest : List Command) → Phase
  executing : (index : ℕ) (rest : List Command) → Phase
  ended : Phase

pub record Job : Type 0 where
  pub account_id : ℕ
  pub actor : ℕ
  pub value : JobValue
  pub aborted : Bool
  pub finished_at : Option ℕ
  pub deadline : ℕ
  pub delay_seconds : ℕ
  pub phase : Phase

abbrev pub is_pending : ItemStatus → Bool
is_pending queued = true
is_pending running = true
is_pending _ = false

-- A write past the end of the items does not occur: the index counts the commands.
abbrev pub update_item : ℕ → (Item → Item) → List Item → List Item
update_item i f [] = []
update_item zero f (x ∷ xs) = f x ∷ xs
update_item (suc i) f (x ∷ xs) = x ∷ update_item i f xs

abbrev pub skip_pending : Item → Item
skip_pending item =
    if is_pending item.status
    then record item { status = skipped; message = some "Stopped before this item was submitted." }
    else item

abbrev pub is_settled : Item → Bool
is_settled item = not (is_pending item.status)

unfoldable pub finish : ℕ → Job → Job
finish now job =
    let items = map skip_pending job.value.items in
    record job {
      value = record (job.value) {
        items = items;
        completed_count = length (keep_if is_settled items);
        status = if job.value.stop_requested then job_stopped else job_completed;
        next_action_at = none;
        updated_at = now;
      };
      finished_at = some now;
      phase = ended;
    }

abbrev pub request_stop : Job → Job
request_stop job = record job { value = record (job.value) { stop_requested = true } }

unfoldable pub should_continue : ℕ → Job → Bool
should_continue now job = not job.value.stop_requested && not job.aborted && ltb now job.deadline

unfoldable pub begin_item : ℕ → Job → ℕ → List Command → Job
begin_item now job index rest = record job {
  value = record (job.value) {
    items = update_item index (λ item. record item { status = running }) job.value.items;
    status = job_running;
    next_action_at = none;
    updated_at = now;
  };
  phase = executing index rest;
}

unfoldable pub begin_wait : ℕ → Job → ℕ → List Command → Job
begin_wait now job index rest = record job {
  value = record (job.value) {
    status = job_waiting;
    next_action_at = some (now + job.delay_seconds * 1000);
    updated_at = now;
  };
  phase = waiting index rest;
}

-- The `for` loop from a command on, up to its next await.
unfoldable pub next_command : ℕ → Bool → Job → ℕ → List Command → Job
next_command now submitted job index [] = finish now job
next_command now submitted job index (command ∷ rest) =
    let later = next_command now submitted job (suc index) rest in
    if not command.executable
    then later
    else if not (should_continue now job)
    then finish now (request_stop job)
    else if submitted
    then begin_wait now job index rest
    else begin_item now job index rest

abbrev pub or_else : Option ℕ → Option ℕ → Option ℕ
or_else none b = b
or_else (some a) b = some a

unfoldable pub settled_status : Kind → ActionResult → ItemStatus
settled_status sale result =
    if not result.is_ok
    then failed
    else if result.awaits_confirmation
    then pending_confirmation
    else listed
settled_status cancel result = if not result.is_ok then failed else cancelled

-- `slice(0, 500)` of a text is the parameter of the functions that record an error's message.
unfoldable pub record_outcome : (String → String) → Kind → Outcome → Item → Item
record_outcome cut kind (fulfilled result) item = record item {
  listing_id = or_else result.listing_id item.listing_id;
  status = settled_status kind result;
  message = some result.message;
}
record_outcome cut kind (rejected detail) item = record item {
  status = if detail.not_submitted then skipped else failed;
  message = elim detail.message [
    | none ↦ some "This market item could not be processed."
    | some text ↦ some (cut text)
  ];
}

unfoldable pub is_submitted : Outcome → Bool
is_submitted (fulfilled result) = true
is_submitted (rejected detail) = not detail.not_submitted

unfoldable pub stops_batch : Outcome → Bool
stops_batch (fulfilled result) = false
stops_batch (rejected detail) = detail.stop_batch || detail.is_429

-- The body behind `await command.execute`, and on with the loop.
unfoldable pub after_execute : (String → String) → ℕ → Outcome → Job → ℕ → List Command → Job
after_execute cut now outcome job index rest =
    let value = job.value in
    let done = record job {
      value = record value {
        items = update_item index (record_outcome cut value.kind outcome) value.items;
        stop_requested = value.stop_requested || stops_batch outcome;
        completed_count = value.completed_count + 1;
        updated_at = now;
      };
    } in
    if done.value.stop_requested
    then finish now done
    else next_command now (is_submitted outcome) done (suc index) rest

-- The body behind `await this.wait`; `false` is its rejection.
unfoldable pub after_wait : ℕ → Bool → Job → ℕ → List Command → Job
after_wait now resolved job index rest =
    if resolved && should_continue now job
    then begin_item now job index rest
    else finish now (request_stop job)

-- What happens to a job: a promise settles, or somebody asks for a stop.
pub data Event : Type 0 where
  waited : (resolved : Bool) → Event
  executed : Outcome → Event
  stop_asked : Event

abbrev pub is_finished : Option ℕ → Bool
is_finished none = false
is_finished (some t) = true

-- `stop` and `stopAccount` on the job; a finished job is left alone.
unfoldable pub stop_job : ℕ → Job → Job
stop_job now job = if is_finished job.finished_at then job else record job {
  value = record (job.value) { stop_requested = true; updated_at = now };
  aborted = true;
}

-- An event for another await than the one the loop is in does not occur, and changes nothing.
unfoldable pub settle : (String → String) → ℕ → Event → Job → Phase → Job
settle cut now (waited resolved) job (waiting index rest) = after_wait now resolved job index rest
settle cut now (executed outcome) job (executing index rest) =
    after_execute cut now outcome job index rest
settle cut now stop_asked job phase = stop_job now job
settle cut now (waited resolved) job (executing index rest) = job
settle cut now (waited resolved) job ended = job
settle cut now (executed outcome) job (waiting index rest) = job
settle cut now (executed outcome) job ended = job

unfoldable pub step : (String → String) → Job → ℕ × Event → Job
unfolding settle
step cut job (now, event) = settle cut now event job job.phase

unfoldable pub run : (String → String) → Job → List (ℕ × Event) → Job
run cut job [] = job
run cut job (e ∷ es) = run cut (step cut job e) es

abbrev pub new_item : Command → Item
new_item command = record {
  asset_id = command.row.asset_id;
  variant_id = command.row.variant_id;
  listing_id = command.row.listing_id;
  name = command.row.name;
  quantity = command.row.quantity;
  status = if command.executable then queued else skipped;
  message = command.row.message;
}

-- The job that `confirm` creates; its phase is set when the loop is started.
unfoldable pub new_job : ℕ → ℕ → ℕ → ℕ → Kind → List Command → ℕ → Job
new_job now id account_id actor kind commands delay_seconds = record {
  account_id = account_id;
  actor = actor;
  value = record {
    id = id;
    kind = kind;
    status = job_running;
    created_at = now;
    updated_at = now;
    next_action_at = none;
    items = map new_item commands;
    completed_count = length (keep_if (λ c. not c.executable) commands);
    total_count = length commands;
    stop_requested = false;
  };
  aborted = false;
  finished_at = none;
  deadline = now + 60 * 60_000;
  delay_seconds = delay_seconds;
  phase = ended;
}

-- `confirm` calls `run`, which goes on to its first await.
unfoldable pub start_job : ℕ → ℕ → ℕ → ℕ → Kind → List Command → ℕ → Job
start_job now id account_id actor kind commands delay_seconds =
    next_command now false (new_job now id account_id actor kind commands delay_seconds) 0 commands
