-- ===== src/Batch/Run/Progress.antt =====
-- apps/server/src/inventory/batch.ts: a batch comes to its end, and a stop is obeyed.
use steam_bee.Common.{
  ℕ, suc, ◌+◌, ◌-◌, ◌*◌, ◌≤◌, ◌≡◌, if◌then◌else◌, refl, ◌⊎◌, Bool, true, false, List, [], ◌∷◌,
  String, arith, ◌||◌, Bool-cases, inl, inr,
}
use steam_bee.Batch.{Kind, Command}
use steam_bee.Batch.Run.{
  Phase, waiting, executing, ended, Job, Event, waited, executed, stop_asked, finish,
  should_continue, begin_item, begin_wait, next_command, after_execute, after_wait, stop_job,
  settle, step, run, is_finished, start_job, is_submitted, stops_batch, new_job,
}

-- How many commands can be executed.
abbrev pub executable_count : List Command → ℕ
executable_count [] = 0
executable_count (c ∷ cs) =
    let rest = executable_count cs in if c.executable then suc rest else rest

-- How many promises a batch may still wait for.
abbrev pub left : Phase → ℕ
left (waiting index rest) = 2 * executable_count rest + 2
left (executing index rest) = 2 * executable_count rest + 1
left ended = 0

-- The event settles the promise that the batch waits for.
abbrev pub answers : Event → Phase → ℕ
answers (waited resolved) (waiting index rest) = 1
answers (executed outcome) (executing index rest) = 1
answers _ _ = 0

-- How many promises a sequence of events settles.
abbrev pub settled_count : (String → String) → Job → List (ℕ × Event) → ℕ
settled_count cut job [] = 0
settled_count cut job ((now, event) ∷ es) =
    answers event job.phase + settled_count cut (step cut job (now, event)) es

left-next_command :
    (now : ℕ) (submitted : Bool) (job : Job) (index : ℕ) (rest : List Command)
    → left (next_command now submitted job index rest).phase ≤ 2 * executable_count rest
unfolding next_command finish begin_wait begin_item
left-next_command now submitted job index [] = omega arith
left-next_command now submitted job index (c ∷ rest) =
    ground (arith, left-next_command now submitted job (suc index) rest)

-- The first command has no wait before it.
left-first :
    (now : ℕ) (job : Job) (index : ℕ) (cs : List Command)
    → left (next_command now false job index cs).phase ≤ 2 * executable_count cs - 1
unfolding next_command finish begin_wait begin_item
left-first now job index [] = omega arith
left-first now job index (c ∷ rest) = ground (arith, left-first now job (suc index) rest)

left-settle :
    (cut : String → String) (now : ℕ) (event : Event) (job : Job) (phase : Phase)
    → job.phase ≡ phase
    → left (settle cut now event job phase).phase + answers event phase ≤ left phase
unfolding settle after_wait after_execute stop_job finish begin_item
left-settle cut now (waited resolved) job (waiting index rest) e = ground arith
left-settle cut now (executed outcome) job (executing index rest) e =
    elim (Bool-cases (job.value.stop_requested || stops_batch outcome)) [
      | inl stop ↦ rw stop (omega arith)
      | inr on ↦
          rw on (omega (arith, left-next_command now (is_submitted outcome) _ (suc index) rest))
    ]
left-settle cut now stop_asked job phase e = ground arith
left-settle cut now (waited resolved) job (executing index rest) e = ground arith
left-settle cut now (waited resolved) job ended e = ground arith
left-settle cut now (executed outcome) job (waiting index rest) e = ground arith
left-settle cut now (executed outcome) job ended e = ground arith

left-run :
    (cut : String → String) (job : Job) (es : List (ℕ × Event))
    → left (run cut job es).phase + settled_count cut job es ≤ left job.phase
unfolding run step
left-run cut job [] = omega arith
left-run cut job ((now, event) ∷ es) = omega (
  arith,
  left-settle cut now event job job.phase refl,
  left-run cut (step cut job (now, event)) es,
)

left-eq-zero : (phase : Phase) → left phase ≡ 0 → phase ≡ ended
left-eq-zero (waiting index rest) h = absurd (omega arith)
left-eq-zero (executing index rest) h = absurd (omega arith)
left-eq-zero ended h = refl

-- A confirmed batch waits for two promises for each of its executable commands less one at most,
-- whatever stop requests come in between: if that many have settled, then no more have, and the batch has
-- ended.
pub batch_ends :
    (cut : String → String) (now id account_id actor : ℕ) (kind : Kind) (cs : List Command)
    (delay_seconds : ℕ) (es : List (ℕ × Event))
    → let job = start_job now id account_id actor kind cs delay_seconds in
      2 * executable_count cs - 1 ≤ settled_count cut job es
      → (settled_count cut job es ≡ 2 * executable_count cs - 1) × ((run cut job es).phase ≡ ended)
unfolding start_job new_job
batch_ends cut now id account_id actor kind cs delay_seconds es h =
    let job = start_job now id account_id actor kind cs delay_seconds in
    let first = left-first now (new_job now id account_id actor kind cs delay_seconds) 0 cs in
    let bound = left-run cut job es in
    (
      omega (arith, first, bound, h),
      left-eq-zero (run cut job es).phase (omega (arith, first, bound, h)),
    )

-- `value.stopRequested`
abbrev pub IsStopping : Job → Type 0
IsStopping job = job.value.stop_requested ≡ true

abbrev pub EndsOrStays : Phase → Phase → Type 0
EndsOrStays p q = (q ≡ p) ⊎ (q ≡ ended)

settle-IsStopping :
    (cut : String → String) (now : ℕ) (event : Event) (job : Job) (phase : Phase)
    → job.phase ≡ phase
    → IsStopping job
    → IsStopping (settle cut now event job phase)
      × EndsOrStays phase (settle cut now event job phase).phase
unfolding settle after_wait after_execute stop_job finish should_continue
settle-IsStopping cut now (waited resolved) job (waiting index rest) e h = ground arith
settle-IsStopping cut now (executed outcome) job (executing index rest) e h = ground arith
settle-IsStopping cut now stop_asked job phase e h = ground arith
settle-IsStopping cut now (waited resolved) job (executing index rest) e h = ground arith
settle-IsStopping cut now (waited resolved) job ended e h = ground arith
settle-IsStopping cut now (executed outcome) job (waiting index rest) e h = ground arith
settle-IsStopping cut now (executed outcome) job ended e h = ground arith

EndsOrStays-run :
    (cut : String → String) (job : Job) (es : List (ℕ × Event))
    → IsStopping job
    → EndsOrStays job.phase (run cut job es).phase
unfolding run step
EndsOrStays-run cut job [] h = inl refl
EndsOrStays-run cut job ((now, event) ∷ es) h =
    let first = settle-IsStopping cut now event job job.phase refl h in
    let rest = EndsOrStays-run cut (step cut job (now, event)) es first.0 in ground arith

-- After a stop request on a batch that has not finished, whatever happens: the batch stays at the
-- very await that it was in, or has ended. No further command is begun or waited for.
pub stop_job-EndsOrStays :
    (cut : String → String) (now : ℕ) (job : Job) (es : List (ℕ × Event))
    → is_finished job.finished_at ≡ false
    → EndsOrStays job.phase (run cut (stop_job now job) es).phase
unfolding stop_job
stop_job-EndsOrStays cut now job es u = rw u (EndsOrStays-run cut _ es refl)
