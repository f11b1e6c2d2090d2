-- ===== src/Batch/Tests.antt =====
-- apps/server/src/inventory/batch.ts: runs of small batches.
use steam_bee.Common.{arith, ℕ, ◌≡◌, refl, true, false, none, some, List, [], ◌∷◌, String, ok, err}
use steam_bee.Common.Maps.{lookup, insert, retain, delete}
use steam_bee.Batch.{sale, Row, Command, Outcome, fulfilled, job_stopped}
use steam_bee.Batch.Run.{
  ended, Job, Event, waited, executed, stop_asked, start_job, new_job, next_command, begin_item,
  begin_wait, should_continue, finish, step, run, after_wait, after_execute, record_outcome,
  settled_status, is_submitted, stops_batch, stop_job,
}
use steam_bee.Batch.Run.Invariant.{IsConsistent, batch-IsConsistent, start_job-IsConsistent}
use steam_bee.Batch.Run.Stability.{Keeps, run-Keeps}
use steam_bee.Batch.Run.Progress.{settled_count, batch_ends, EndsOrStays, stop_job-EndsOrStays}
use steam_bee.Batch.Queue.{
  Queue, Prepared, Call, creates, confirms, advances, invalid_preview, create, put_job, confirm,
  confirm_entry, advance, stop_account, empty, apply, history, amount, is_recent,
}
use steam_bee.Batch.Queue.Invariant.{IsExclusive, queue-IsExclusive, one_batch_per_account}
use steam_bee.Batch.Queue.Tokens.{IsConfirmed, confirm-IsConfirmed, confirm-stop_account}

abbrev row : Row
row = record {
  asset_id = some 9;
  variant_id = none;
  listing_id = none;
  name = "Card";
  quantity = 1;
  buyer_pays = some 99;
  seller_receives = some 87;
  message = none;
}

abbrev commands : List Command
commands =
    record { row = row; executable = true }
    ∷ record { row = row; executable = false }
    ∷ record { row = row; executable = true }
    ∷ []

abbrev uncut : String → String
uncut text = text

abbrev success : Outcome
success =
    fulfilled (record {
      is_ok = true;
      listing_id = some 4;
      awaits_confirmation = false;
      message = "Listed.";
    })

abbrev batch : Job
batch = start_job 1000 7 1 2 sale commands 10

abbrev sell_both : List (ℕ × Event)
sell_both = (1500, executed success) ∷ (11_500, waited true) ∷ (12_000, executed success) ∷ []

abbrev sell_and_stop : List (ℕ × Event)
sell_and_stop = (1500, executed success) ∷ (2000, stop_asked) ∷ (2000, waited false) ∷ []

sells_both : (run uncut batch sell_both).value.completed_count ≡ 3
unfolding start_job new_job next_command begin_item begin_wait should_continue finish step run
    after_wait after_execute record_outcome settled_status is_submitted stops_batch stop_job
sells_both = refl

stops_early : (run uncut batch sell_and_stop).value.status ≡ job_stopped
unfolding start_job new_job next_command begin_item begin_wait should_continue finish step run
    after_wait after_execute record_outcome settled_status is_submitted stops_batch stop_job
stops_early = refl

batch-IsConsistent_example : IsConsistent (run uncut batch sell_and_stop)
batch-IsConsistent_example = batch-IsConsistent uncut 1000 7 1 2 sale commands 10 sell_and_stop

run-Keeps_example : Keeps batch.value.items (run uncut batch sell_both).value.items
run-Keeps_example =
    run-Keeps uncut batch sell_both (start_job-IsConsistent 1000 7 1 2 sale commands 10)

all_settle : settled_count uncut batch sell_both ≡ 3
unfolding start_job new_job next_command begin_item begin_wait should_continue finish step run
    after_wait after_execute record_outcome settled_status is_submitted stops_batch stop_job
all_settle = refl

batch_ends_example :
    (settled_count uncut batch sell_both ≡ 3) × ((run uncut batch sell_both).phase ≡ ended)
batch_ends_example =
    batch_ends uncut 1000 7 1 2 sale commands 10 sell_both (omega (arith, all_settle))

stop_job-EndsOrStays_example :
    EndsOrStays batch.phase (run uncut (stop_job 1200 batch) sell_both).phase
unfolding start_job new_job next_command begin_item should_continue
stop_job-EndsOrStays_example = stop_job-EndsOrStays uncut 1200 batch sell_both refl

abbrev calls : List (ℕ × Call)
calls =
    (500, creates 31 1 2 sale none commands 10)
    ∷ (1000, confirms 7 1 2 31)
    ∷ (1500, advances 7 (executed success))
    ∷ []

queue-IsExclusive_example : IsExclusive (history uncut empty calls)
queue-IsExclusive_example = queue-IsExclusive uncut calls

abbrev running : Job
running = step uncut batch (1500, executed success)

found : lookup 7 (history uncut empty calls).jobs ≡ some running
unfolding history apply empty create confirm confirm_entry advance put_job is_recent amount lookup
    insert retain delete start_job new_job next_command begin_item begin_wait should_continue finish
    step after_execute record_outcome settled_status is_submitted stops_batch
found = refl

one_batch_per_account_example : ◌≡◌ {A = ℕ} 7 7
unfolding start_job new_job next_command begin_item begin_wait should_continue finish step
    after_execute is_submitted stops_batch
one_batch_per_account_example =
    one_batch_per_account uncut calls 7 7 running running found found refl refl refl

abbrev previewed : Queue
previewed = (create 500 31 1 2 sale none commands 10 empty).0

confirmed : confirm 1000 7 1 2 31 previewed ≡ ((confirm 1000 7 1 2 31 previewed).0, ok batch.value)
unfolding empty create confirm confirm_entry put_job is_recent amount lookup insert retain delete
    start_job new_job next_command begin_item begin_wait should_continue finish
confirmed = refl

confirm-IsConfirmed_example :
    (entry : Prepared) × (lookup 31 previewed.previews ≡ some entry)
    × IsConfirmed 1000 7 1 2 31 entry previewed (confirm 1000 7 1 2 31 previewed).0
confirm-IsConfirmed_example =
    confirm-IsConfirmed 1000 7 1 2 31 previewed (confirm 1000 7 1 2 31 previewed).0 batch.value
      confirmed

confirm-stop_account_example :
    let stopped = stop_account 600 1 previewed in
    confirm 1000 7 1 2 31 stopped ≡ (stopped, err invalid_preview)
confirm-stop_account_example = confirm-stop_account 600 1000 7 1 2 31 previewed
