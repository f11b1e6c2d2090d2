-- ===== src/Farming/Worker/Reached.antt =====
-- apps/server/src/farming/controller.ts: an account has at most one worker, whatever happens to it, and
-- a halt is final for it.
use Prim.Native.Nat.{Ordering}
use steam_bee.Common.{
  ◌<◌, ◌∙◌, ℕ, suc, ◌≡◌, refl, ◌∙◌, Bool, false, Option, none, List, [], ◌∷◌, ◌++◌, String, arith,
  if-intro, ap, sym, subst, inl, inr, All, Bool-cases,
}
use steam_bee.Farming.{Reason, is_active}
use steam_bee.Farming.Session.{Session, halt, new_session}
use steam_bee.Farming.Session.Calls.{
  Origin, ticked, started, settle, returns, Task, Answer, ticked, Moved, is_current, resume,
  returns,
}
use steam_bee.Farming.Session.Steps.{
  Farm, farm, pending, do_call, Step, calls, answers, Reachable, begun, follows,
}
use steam_bee.Farming.Worker.{settle-work, halt-inactive}
use steam_bee.Farming.Worker.Moves.{halt-generation}
use steam_bee.Farming.Worker.Resume.{resume-IsMove}
use steam_bee.Farming.Worker.Sound.{IsSound, IsPast, resumed-IsSound, gone-IsSound}
use steam_bee.Farming.Worker.Calls.{call-IsSound, IsFair-outdated}

-- A task that is not current returns.
pub resume-stale :
    (compare_names : String → String → Ordering) (now : ℕ) (answer : Option Answer) (d : Bool)
    (s : Session) (t : Task)
    → is_current d s t ≡ false
    → resume compare_names now d answer t s ≡ returns t s
unfolding resume
resume-stale compare_names now answer d s t c =
    if-intro (λ m. m ≡ returns t s) (is_current d s t) (λ e. ground (arith, e, c)) (λ e. refl)

answered-IsSound :
    (compare_names : String → String → Ordering) (now : ℕ) (answer : Option Answer) (d : Bool)
    (s : Session) (t : Task) (before after : List Task)
    → IsSound (farm d s (before ++ t ∷ after))
    → IsSound (
        let m = resume compare_names now d answer t s in
        farm d m.0 (before ++ (pending m.1 ++ after)))
unfolding is_current returns
answered-IsSound compare_names now answer d s t before after v =
    elim (Bool-cases (is_current d s t)) [
      | inl c ↦ elim (Bool-cases d) [
        | inl e ↦ ground (arith, c, e)
        | inr e ↦
            let g : s.generation ≡ t.generation = ground (arith, c) in
            subst
              (λ b. IsSound (
                let m = resume compare_names now d answer t s in
                farm b m.0 (before ++ (pending m.1 ++ after))))
              (sym e)
              (resumed-IsSound s t before after _ g
                (subst (λ b. IsSound (farm b s (before ++ t ∷ after))) e v)
                (resume-IsMove compare_names now answer d s t c g))
      ]
      | inr c ↦
          subst (λ (m : Moved). IsSound (farm d m.0 (before ++ (pending m.1 ++ after))))
            (sym (resume-stale compare_names now answer d s t c))
            (gone-IsSound d s _ t before after c v (settle-work t.origin s))
    ]

step-IsSound :
    {compare_names : String → String → Ordering} {f g : Farm}
    → Step compare_names f g
    → IsSound f
    → IsSound g
unfolding do_call
step-IsSound (calls now c f) v = call-IsSound f.shutting_down f.tasks _ now f.session v c
step-IsSound (answers now answer d s t before after) v =
    answered-IsSound _ now answer d s t before after v

-- Whatever calls, timers, answers and failures an account has seen, in whatever order: the timer and
-- the tasks of the current generation are at most one, and exactly one while the worker is active;
-- an inactive worker plays no game and has no timer; a timer is of the current generation; at most 32
-- games are played or are to be played; every task that waits is of the current generation or an
-- earlier one; while a current `scan` waits nothing is played, and while a current `end` waits the
-- worker is not active; and during a shutdown no worker is active.
pub worker-IsSound :
    {compare_names : String → String → Ordering} {f : Farm} → Reachable compare_names f → IsSound f
unfolding new_session
worker-IsSound (begun d config) = record {
  steady = record {
    single = omega arith;
    busy = λ e. ground (arith, e);
    idle_games = λ e. refl;
    idle_timer = λ e. refl;
    fresh = λ g e. ground (arith, e);
    bounded = omega arith;
  };
  fair = tt;
  down = λ e. refl;
}
worker-IsSound (follows r step) = step-IsSound step (worker-IsSound r)

stale-IsCurrent :
    (d : Bool) (s : Session) (t : Task) → t.generation < s.generation → is_current d s t ≡ false
unfolding is_current
stale-IsCurrent d s t l = ground (arith, l)

settle-inactive : (origin : Origin) (s : Session) → is_active s.phase ≡ false → settle origin s ≡ s
unfolding settle
settle-inactive ticked s i = refl
settle-inactive (started is_resumed) s i =
    if-intro (λ r. r ≡ s) (is_active s.phase) (λ e. ground (arith, e, i)) (λ e. refl)

-- After a halt, for whatever reason, every task that was waiting returns at its next step and leaves
-- the halted session as it is, whatever the adapter answers.
pub halt-IsFinal :
    {compare_names : String → String → Ordering} {f : Farm} (reason : Reason)
    → Reachable compare_names f
    → All
        (λ t.
          (now : ℕ) (answer : Option Answer) (d : Bool)
          → resume compare_names now d answer t (halt reason f.session)
            ≡ (halt reason f.session, none))
        f.tasks
unfolding returns
halt-IsFinal reason r = finals _ _ _ (IsFair-outdated _ _ (worker-IsSound r).fair)
  where
    finals :
        (compare_names : String → String → Ordering) (s : Session) (ts : List Task)
        → All (IsPast (suc s.generation)) ts
        → All
            (λ t.
              (now : ℕ) (answer : Option Answer) (d : Bool)
              → resume compare_names now d answer t (halt reason s) ≡ (halt reason s, none))
            ts
    finals compare_names s [] ps = tt
    finals compare_names s (t ∷ ts) ps = (
      λ now answer d.
          resume-stale compare_names now answer d (halt reason s) t (
            stale-IsCurrent d (halt reason s) t
              (omega (arith, ps.0.earlier, halt-generation reason s)))
          ∙ ap (λ x. (x, none)) (settle-inactive t.origin (halt reason s) (halt-inactive reason s)),
      finals compare_names s ts ps.1,
    )
