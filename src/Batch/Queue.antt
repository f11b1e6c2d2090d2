-- ===== src/Batch/Queue.antt =====
-- apps/server/src/inventory/batch.ts: the public operations of `MarketBatchQueue` on its three
-- maps. An operation returns the state that it leaves, also where it throws. It reads the clock once;
-- `randomUUID()` is the `token` or `id` that it is given.
pub mod Invariant
pub mod Tokens
use steam_bee.Common.{
  ℕ, ◌+◌, ◌-◌, ◌*◌, Bool, true, false, not, ◌&&◌, ◌||◌, Option, none, some, List, [], ◌∷◌, foldl,
  String, ltb, leb, ◌==◌, if◌then◌else◌, length, any, Result, ok, err,
}
use steam_bee.Common.Maps.{lookup, insert, retain, delete}
use steam_bee.Money.{Currency}
use steam_bee.Batch.{Kind, Command, JobValue}
use steam_bee.Batch.Run.{Job, Event, is_finished, start_job, step, stop_job}

pub data BatchError : Type 0 where
  too_many_batches : BatchError
  already_running : BatchError
  bad_item_count : BatchError
  invalid_preview : BatchError
  expired_preview : BatchError
  no_eligible_items : BatchError
  batch_not_found : BatchError

-- A preview with the account and actor that it was made for and its commands.
pub record Prepared : Type 0 where
  pub account_id : ℕ
  pub actor : ℕ
  pub expires_at : ℕ
  pub kind : Kind
  pub currency : Option Currency
  pub commands : List Command
  pub delay_seconds : ℕ
  pub total_buyer_pays : ℕ
  pub total_seller_receives : ℕ

pub record Queue : Type 0 where
  pub previews : List (ℕ × Prepared)
  pub jobs : List (ℕ × Job)
  pub active : List (ℕ × ℕ)

abbrev pub Answer {ℓ} : Type ℓ → Type ℓ
Answer A = Queue × Result BatchError A

abbrev pub is_some {ℓ} : {A : Type ℓ} → Option A → Bool
is_some none = false
is_some (some a) = true

-- Whether a job is kept: not yet finished, or finished for less than an hour.
unfoldable pub is_recent : ℕ → Option ℕ → Bool
is_recent now none = true
is_recent now (some t) = ltb (now - t) (60 * 60_000)

abbrev pub prune : ℕ → Queue → Queue
prune now q = record q {
  previews = retain (λ e. ltb now e.expires_at) q.previews;
  jobs = retain (λ job. is_recent now job.finished_at) q.jobs;
}

abbrev pub is_full : Queue → Bool
is_full q = leb 200 (length q.previews) || leb 200 (length q.jobs)

abbrev pub is_active : ℕ → Queue → Bool
is_active account_id q = is_some (lookup account_id q.active)

unfoldable pub amount : Option ℕ → ℕ
amount none = 0
amount (some n) = n

abbrev pub prepare : ℕ → ℕ → ℕ → Kind → Option Currency → List Command → ℕ → Prepared
prepare now account_id actor kind currency commands delay_seconds = record {
  account_id = account_id;
  actor = actor;
  expires_at = now + 2 * 60_000;
  kind = kind;
  currency = currency;
  commands = commands;
  delay_seconds = delay_seconds;
  total_buyer_pays = foldl (λ sum c. sum + amount c.row.buyer_pays) 0 commands;
  total_seller_receives = foldl (λ sum c. sum + amount c.row.seller_receives) 0 commands;
}

abbrev pub is_of : ℕ → ℕ → Prepared → Bool
is_of account_id actor e = e.account_id == account_id && e.actor == actor

unfoldable pub create :
    ℕ → ℕ → ℕ → ℕ → Kind → Option Currency → List Command → ℕ → Queue → Answer Prepared
create now token account_id actor kind currency commands delay_seconds q =
    let pruned = prune now q in
    let preview = prepare now account_id actor kind currency commands delay_seconds in
    let kept = retain (λ e. not (is_of account_id actor e)) pruned.previews in
    if is_active account_id q
    then (q, err already_running)
    else if is_full pruned
    then (pruned, err too_many_batches)
    else if length commands == 0 || ltb 50 (length commands)
    then (pruned, err bad_item_count)
    else (record pruned { previews = insert token preview kept }, ok preview)

-- `this.active.get(accountId) === id`
abbrev pub is_same : Option ℕ → ℕ → Bool
is_same none id = false
is_same (some j) id = j == id

-- The job back into the map; `finish` has released the account of a finished job.
unfoldable pub put_job : ℕ → Job → Queue → Queue
put_job id job q =
    let jobs = insert id job q.jobs in
    let held = is_same (lookup job.account_id q.active) id in
    if is_finished job.finished_at && held
    then record q { jobs = jobs; active = delete job.account_id q.active }
    else record q { jobs = jobs }

unfoldable pub confirm_entry : ℕ → ℕ → ℕ → ℕ → ℕ → Prepared → Queue → Answer JobValue
confirm_entry now id account_id actor token entry q =
    let taken = record q { previews = delete token q.previews } in
    let pruned = prune now taken in
    let job = start_job now id account_id actor entry.kind entry.commands entry.delay_seconds in
    if not (is_of account_id actor entry)
    then (q, err invalid_preview)
    else if leb entry.expires_at now
    then (taken, err expired_preview)
    else if not (any (λ c. c.executable) entry.commands)
    then (taken, err no_eligible_items)
    else if is_active account_id taken
    then (taken, err already_running)
    else if is_full pruned
    then (pruned, err too_many_batches)
    else (
      put_job id job (record pruned { active = insert account_id id pruned.active }),
      ok job.value,
    )

unfoldable pub confirm : ℕ → ℕ → ℕ → ℕ → ℕ → Queue → Answer JobValue
confirm now id account_id actor token q = elim (lookup token q.previews) [
  | none ↦ (q, err invalid_preview)
  | some entry ↦ confirm_entry now id account_id actor token entry q
]

-- An event of the running job.
unfoldable pub advance : (String → String) → ℕ → ℕ → Event → Queue → Queue
advance cut now id event q = elim (lookup id q.jobs) [
  | none ↦ q
  | some job ↦ put_job id (step cut job (now, event)) q
]

unfoldable pub get : ℕ → ℕ → ℕ → ℕ → Queue → Result BatchError Job
get now account_id actor id q = elim (lookup id q.jobs) [
  | none ↦ err batch_not_found
  | some job ↦
      if job.account_id == account_id && job.actor == actor && is_recent now job.finished_at
      then ok job
      else err batch_not_found
]

unfoldable pub current : ℕ → ℕ → Queue → Option JobValue
current account_id actor q = elim (lookup account_id q.active) [
  | none ↦ none
  | some id ↦ elim (lookup id q.jobs) [
    | none ↦ none
    | some job ↦ if job.actor == actor then some job.value else none
  ]
]

unfoldable pub stop : ℕ → ℕ → ℕ → ℕ → Queue → Answer JobValue
stop now account_id actor id q = elim (get now account_id actor id q) [
  | err e ↦ (q, err e)
  | ok job ↦ (record q { jobs = insert id (stop_job now job) q.jobs }, ok (stop_job now job).value)
]

unfoldable pub stop_active : ℕ → ℕ → Queue → Queue
stop_active now id q = elim (lookup id q.jobs) [
  | none ↦ q
  | some job ↦ record q { jobs = insert id (stop_job now job) q.jobs }
]

unfoldable pub stop_account : ℕ → ℕ → Queue → Queue
stop_account now account_id q =
    let cleared = record q {
      previews = retain (λ e. not (e.account_id == account_id)) q.previews;
    } in
    elim (lookup account_id q.active) [ none ↦ cleared | some id ↦ stop_active now id cleared ]

-- `stopAccount` leaves the active accounts as they are, so the loop runs over them as they were.
unfoldable pub stop_accounts : ℕ → List (ℕ × ℕ) → Queue → Queue
stop_accounts now [] q = q
stop_accounts now ((account_id, id) ∷ rest) q =
    stop_accounts now rest (stop_account now account_id q)

unfoldable pub shutdown : ℕ → Queue → Queue
unfolding stop_accounts
shutdown now q = record (stop_accounts now q.active q) { previews = [] }

unfoldable pub empty : Queue
empty = record { previews = []; jobs = []; active = [] }

-- A call of the queue, or an event of one of its jobs.
pub data Call : Type 0 where
  creates :
      (token account_id actor : ℕ) (kind : Kind) (currency : Option Currency)
      (commands : List Command) (delay_seconds : ℕ)
      → Call
  confirms : (id account_id actor token : ℕ) → Call
  advances : (id : ℕ) (event : Event) → Call
  stops : (account_id actor id : ℕ) → Call
  stops_account : (account_id : ℕ) → Call
  shuts_down : Call

unfoldable pub apply : (String → String) → Queue → ℕ × Call → Queue
apply cut q (now, creates token account_id actor kind currency commands delay_seconds) =
    (create now token account_id actor kind currency commands delay_seconds q).0
apply cut q (now, confirms id account_id actor token) = (confirm now id account_id actor token q).0
apply cut q (now, advances id event) = advance cut now id event q
apply cut q (now, stops account_id actor id) = (stop now account_id actor id q).0
apply cut q (now, stops_account account_id) = stop_account now account_id q
apply cut q (now, shuts_down) = shutdown now q

unfoldable pub history : (String → String) → Queue → List (ℕ × Call) → Queue
history cut q [] = q
history cut q (c ∷ cs) = history cut (apply cut q c) cs
