-- ===== src/Batch/Run/Stability.antt =====
-- apps/server/src/inventory/batch.ts: an item that has its final status keeps it.
use steam_bee.Common.{
  ℕ, zero, suc, ◌≡◌, refl, ◌∙◌, Bool, true, subst, sym, List, [], ◌∷◌, map, String, arith, ◌&&◌,
  ◌||◌, Bool-cases, inl, inr,
}
use steam_bee.Batch.{ItemStatus, queued, running, Command, Item}
use steam_bee.Batch.Run.{
  Phase, waiting, executing, ended, Job, Event, waited, executed, stop_asked, finish, request_stop,
  should_continue, begin_item, begin_wait, next_command, record_outcome, is_submitted, stops_batch,
  after_execute, after_wait, stop_job, settle, step, run, skip_pending, update_item, is_pending,
  is_finished,
}
use steam_bee.Batch.Run.Items.{
  IsSettled, FitsFrom, FitsAt, FitsFrom-executable, FitsFrom-skipped, FitsAt-settled,
}
use steam_bee.Batch.Run.Invariant.{
  IsConsistent, FitsPhase, record_outcome-IsSettled, step-IsConsistent,
}

-- The items are as many, and each that was settled is the same.
abbrev pub Keeps : List Item → List Item → Type 0
Keeps [] [] = Unit
Keeps [] (y ∷ ys) = ⊥
Keeps (x ∷ xs) [] = ⊥
Keeps (x ∷ xs) (y ∷ ys) = (IsSettled x → y ≡ x) × Keeps xs ys

Keeps-refl : (xs : List Item) → Keeps xs xs
Keeps-refl [] = tt
Keeps-refl (x ∷ xs) = (λ _. refl, Keeps-refl xs)

Keeps-trans : (xs ys zs : List Item) → Keeps xs ys → Keeps ys zs → Keeps xs zs
Keeps-trans [] [] zs h k = k
Keeps-trans [] (y ∷ ys) zs h k = absurd h
Keeps-trans (x ∷ xs) [] zs h k = absurd h
Keeps-trans (x ∷ xs) (y ∷ ys) [] h k = k
Keeps-trans (x ∷ xs) (y ∷ ys) (z ∷ zs) h k =
    (λ s. k.0 (subst IsSettled (sym (h.0 s)) s) ∙ h.0 s, Keeps-trans xs ys zs h.1 k.1)

Keeps-skip_pending : (xs : List Item) → Keeps xs (map skip_pending xs)
Keeps-skip_pending [] = tt
Keeps-skip_pending (x ∷ xs) = (λ s. ground arith, Keeps-skip_pending xs)

Keeps-update_item :
    (f : Item → Item) (index : ℕ) (st : ItemStatus) (cs : List Command) (xs : List Item)
    → is_pending st ≡ true
    → FitsAt index st cs xs
    → Keeps xs (update_item index f xs)
Keeps-update_item f index st cs [] p h = tt
Keeps-update_item f zero st cs (x ∷ xs) p h = (λ s. ground arith, Keeps-refl xs)
Keeps-update_item f (suc index) st cs (x ∷ xs) p h =
    (λ s. refl, Keeps-update_item f index st cs xs p h.1)

finish-Keeps : (now : ℕ) (job : Job) → Keeps job.value.items (finish now job).value.items
unfolding finish
finish-Keeps now job = Keeps-skip_pending job.value.items

begin_item-Keeps :
    (now : ℕ) (job : Job) (index : ℕ) (rest : List Command)
    → FitsAt index queued rest job.value.items
    → Keeps job.value.items (begin_item now job index rest).value.items
unfolding begin_item
begin_item-Keeps now job index rest f = Keeps-update_item _ index queued rest job.value.items refl f

begin_wait-Keeps :
    (now : ℕ) (job : Job) (index : ℕ) (rest : List Command)
    → Keeps job.value.items (begin_wait now job index rest).value.items
unfolding begin_wait
begin_wait-Keeps now job index rest = Keeps-refl job.value.items

next_command-Keeps :
    (now : ℕ) (submitted : Bool) (job : Job) (index : ℕ) (rest : List Command)
    → FitsFrom index rest job.value.items
    → Keeps job.value.items (next_command now submitted job index rest).value.items
unfolding next_command
next_command-Keeps now submitted job index [] f = finish-Keeps now job
next_command-Keeps now submitted job index (c ∷ rest) f = elim (Bool-cases c.executable) [
  | inr skip ↦ rw skip (
      next_command-Keeps now submitted job (suc index) rest
        (FitsFrom-skipped index c rest job.value.items skip f))
  | inl go ↦ rw go (elim (Bool-cases (should_continue now job)) [
    | inr halted ↦ rw halted (finish-Keeps now (request_stop job))
    | inl on ↦ rw on (elim (Bool-cases submitted) [
      | inl again ↦ rw again (begin_wait-Keeps now job index rest)
      | inr first ↦ rw first (
          begin_item-Keeps now job index rest
            (FitsFrom-executable index c rest job.value.items go f))
    ])
  ])
]

settle-Keeps :
    (cut : String → String) (now : ℕ) (event : Event) (job : Job) (phase : Phase)
    → FitsPhase job phase
    → Keeps job.value.items (settle cut now event job phase).value.items
unfolding settle after_wait after_execute stop_job
settle-Keeps cut now (waited resolved) job (waiting index rest) f =
    elim (Bool-cases (resolved && should_continue now job)) [
      | inl on ↦ rw on (begin_item-Keeps now job index rest f.0)
      | inr off ↦ rw off (finish-Keeps now (request_stop job))
    ]
settle-Keeps cut now (executed outcome) job (executing index rest) f =
    let end = record_outcome cut job.value.kind outcome in
    let ends = update_item index end job.value.items in
    let first : Keeps job.value.items ends =
      Keeps-update_item end index running rest job.value.items refl f.0 in
    elim (Bool-cases (job.value.stop_requested || stops_batch outcome)) [
      | inl stop ↦ rw stop (Keeps-trans job.value.items ends _ first (finish-Keeps now _))
      | inr on ↦ rw on (
          Keeps-trans job.value.items ends _ first (
            next_command-Keeps now (is_submitted outcome) _ (suc index) rest (
              FitsAt-settled end index rest job.value.items
                (record_outcome-IsSettled cut job.value.kind outcome) f.0)))
    ]
settle-Keeps cut now stop_asked job phase f = elim (Bool-cases (is_finished job.finished_at)) [
  | inl done ↦ rw done (Keeps-refl job.value.items)
  | inr on ↦ rw on (Keeps-refl job.value.items)
]
settle-Keeps cut now (waited resolved) job (executing index rest) f = Keeps-refl job.value.items
settle-Keeps cut now (waited resolved) job ended f = Keeps-refl job.value.items
settle-Keeps cut now (executed outcome) job (waiting index rest) f = Keeps-refl job.value.items
settle-Keeps cut now (executed outcome) job ended f = Keeps-refl job.value.items

-- From any state that a batch can be in, whatever happens next: there are as many items as before,
-- and an item that is neither queued nor running stays exactly as it is. So no item is submitted
-- after it was settled, and no recorded result is lost.
pub run-Keeps :
    (cut : String → String) (job : Job) (es : List (ℕ × Event))
    → IsConsistent job
    → Keeps job.value.items (run cut job es).value.items
unfolding run step
run-Keeps cut job [] v = Keeps-refl job.value.items
run-Keeps cut job ((now, event) ∷ es) v =
    Keeps-trans job.value.items (step cut job (now, event)).value.items _
      (settle-Keeps cut now event job job.phase v.phased)
      (run-Keeps cut (step cut job (now, event)) es (step-IsConsistent cut job (now, event) v))
