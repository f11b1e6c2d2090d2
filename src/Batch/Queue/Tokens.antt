-- ===== src/Batch/Queue/Tokens.antt =====
-- apps/server/src/inventory/batch.ts: what a preview's token is good for.
use steam_bee.Common.{
  subst, ℕ, ◌<◌, ◌≡◌, refl, true, false, not, none, some, arith, ltb, leb, ◌==◌, if-intro,
  Option-cases, inl, inr, ok, err, any,
}
use steam_bee.Common.Maps.{
  lookup, insert, retain, delete, lookup-insert, lookup-retain, lookup-Absent, Absent-retain,
  Absent-delete,
}
use steam_bee.Batch.{JobValue}
use steam_bee.Batch.Run.{Job, start_job}
use steam_bee.Batch.Queue.{
  Answer, invalid_preview, Queue, Prepared, prune, is_full, is_active, is_of, put_job, confirm,
  confirm_entry, stop_active, stop_account,
}

-- What a successful `confirm` says of the state that it found and the state that it leaves.
pub record IsConfirmed (now id account_id actor token : ℕ) (entry : Prepared) (before after : Queue)
    : Type 0 where
  pub own_account : entry.account_id ≡ account_id
  pub own_actor : entry.actor ≡ actor
  pub unexpired : now < entry.expires_at
  pub has_work : any (λ c. c.executable) entry.commands ≡ true
  pub was_idle : lookup account_id before.active ≡ none
  pub used : lookup token after.previews ≡ none
  pub started :
      lookup id after.jobs
      ≡ some (start_job now id account_id actor entry.kind entry.commands entry.delay_seconds)

-- What an answer says if it is not an error.
abbrev Confirms : ℕ → ℕ → ℕ → ℕ → ℕ → Prepared → Queue → Answer JobValue → Type 0
Confirms now id account_id actor token entry before (after, err e) = Unit
Confirms now id account_id actor token entry before (after, ok value) =
    IsConfirmed now id account_id actor token entry before after

put_job-previews : (id : ℕ) (job : Job) (q : Queue) → (put_job id job q).previews ≡ q.previews
unfolding put_job
put_job-previews id job q = ground arith

lookup-put_job : (id : ℕ) (job : Job) (q : Queue) → lookup id (put_job id job q).jobs ≡ some job
unfolding put_job
lookup-put_job id job q = ground (arith, lookup-insert id id job q.jobs)

confirm_entry-Confirms :
    (now id account_id actor token : ℕ) (entry : Prepared) (q : Queue)
    → Confirms now id account_id actor token entry q
        (confirm_entry now id account_id actor token entry q)
unfolding confirm_entry
confirm_entry-Confirms now id account_id actor token entry q =
    let C = Confirms now id account_id actor token entry q in
    let taken = record q { previews = delete token q.previews } in
    let job = start_job now id account_id actor entry.kind entry.commands entry.delay_seconds in
    let pruned = prune now taken in
    let started = record pruned { active = insert account_id id pruned.active } in
    let gone : lookup token pruned.previews ≡ none = lookup-Absent token pruned.previews (
      Absent-retain (λ e. ltb now e.expires_at) token taken.previews
        (Absent-delete token q.previews)) in
    if-intro C (not (is_of account_id actor entry)) (λ _. tt)
      λ own.
        if-intro C (leb entry.expires_at now) (λ _. tt)
          λ fresh.
            if-intro C (not (any (λ c. c.executable) entry.commands)) (λ _. tt)
              λ work.
                if-intro C (is_active account_id q) (λ _. tt)
                  λ idle.
                    if-intro C (is_full pruned) (λ _. tt)
                      λ room. record {
                        own_account = ground arith;
                        own_actor = ground arith;
                        unexpired = ground arith;
                        has_work = ground arith;
                        was_idle = ground arith;
                        used = rw (put_job-previews id job started) gone;
                        started = lookup-put_job id job started;
                      }

-- A batch is confirmed only from a preview that stands under the token, by the account and actor
-- that it was made for, before it expires, with something to execute, and while the account has no
-- active batch. The job that runs is that of the preview's commands, and the token is used up.
pub confirm-IsConfirmed :
    (now id account_id actor token : ℕ) (q after : Queue) (value : JobValue)
    → confirm now id account_id actor token q ≡ (after, ok value)
    → (entry : Prepared) × (lookup token q.previews ≡ some entry)
      × IsConfirmed now id account_id actor token entry q after
unfolding confirm
confirm-IsConfirmed now id account_id actor token q after value h =
    elim (Option-cases (lookup token q.previews)) [
      | inl missing ↦ cc (rw (missing, confirm) at h)
      | inr (entry, found) ↦ (
        entry,
        found,
        subst (Confirms now id account_id actor token entry q) (rw (found, confirm) at h)
            (confirm_entry-Confirms now id account_id actor token entry q),
      )
    ]

stop_active-previews : (now id : ℕ) (q : Queue) → (stop_active now id q).previews ≡ q.previews
unfolding stop_active
stop_active-previews now id q = ground arith

stop_account-previews :
    (now account_id : ℕ) (q : Queue)
    → (stop_account now account_id q).previews
      ≡ retain (λ e. not (e.account_id == account_id)) q.previews
unfolding stop_account
stop_account-previews now account_id q = elim (Option-cases (lookup account_id q.active)) [
  | inl missing ↦ rw (missing, stop_account) refl
  | inr (id, found) ↦ rw (found, stop_account) (stop_active-previews now id _)
]

confirm_entry-other :
    (now id account_id actor token : ℕ) (entry : Prepared) (q : Queue)
    → is_of account_id actor entry ≡ false
    → confirm_entry now id account_id actor token entry q ≡ (q, err invalid_preview)
unfolding confirm_entry
confirm_entry-other now id account_id actor token entry q h = rw h refl

-- After `stopAccount`, no token confirms a batch of that account: every confirmation is refused as
-- an invalid preview, and leaves the queue as it is.
pub confirm-stop_account :
    (now later id account_id actor token : ℕ) (q : Queue)
    → let stopped = stop_account now account_id q in
      confirm later id account_id actor token stopped ≡ (stopped, err invalid_preview)
unfolding confirm
confirm-stop_account now later id account_id actor token q =
    let stopped = stop_account now account_id q in
    let test = λ (e : Prepared). not (e.account_id == account_id) in
    elim (Option-cases (lookup token stopped.previews)) [
      | inl missing ↦ rw (missing, confirm) refl
      | inr (entry, found) ↦
          let kept : test entry ≡ true =
            lookup-retain test token q.previews entry
              (rw (stop_account-previews now account_id q) at found) in
          rw (found, confirm)
            (confirm_entry-other later id account_id actor token entry stopped (ground arith))
    ]
