-- ===== src/Farming/Worker/Moves.antt =====
-- apps/server/src/farming/controller.ts: what a resumed task does to the worker of its session.
use steam_bee.Common.{
  ℕ, suc, ◌+◌, ◌≤◌, ◌≡◌, refl, Bool, true, false, List, [], ◌∷◌, arith, if◌then◌else◌, if-intro,
  length, ap, sym, ◌==◌, All, subst,
}
use steam_bee.Farming.{Reason, is_active, farming, warming}
use steam_bee.Farming.Session.{Session, halt}
use steam_bee.Farming.Session.Calls.{
  Task, Stage, applies, ends, cleans_up, scans, Moved, returns, waits, fail, play, equals, complete,
  has_no_eligible, play_ids,
}
use steam_bee.Farming.Session.Steps.{pending}
use steam_bee.Farming.Worker.{Work, work, IsSteady, IsSteady-timer, settle-work}

-- The tasks of a generation.
abbrev pub current_in : ℕ → List Task → ℕ
current_in g [] = 0
current_in g (t ∷ ts) = (if g == t.generation then 1 else 0) + current_in g ts

abbrev pub IsSmall : Stage → Type 0
IsSmall stage = elim stage [ applies app_ids is_warming ↦ length app_ids ≤ 32 | _ ↦ 0 ≤ 0 ]

abbrev pub is_scan : Stage → Bool
is_scan stage = elim stage [ scans ↦ true | _ ↦ false ]

abbrev pub is_end : Stage → Bool
is_end stage = elim stage [ ends ↦ true | cleans_up ↦ true | _ ↦ false ]

-- A task is of the worker's generation or an earlier one, it is to play at most 32 games, and
-- nothing is played during its `scan`, and the worker has ended at its `end`.
pub record IsFair (w : Work) (t : Task) : Type 0 where
  pub known : t.generation ≤ w.generation
  pub small : IsSmall t.stage
  pub quiet : is_scan t.stage ≡ true → t.generation ≡ w.generation → w.app_ids ≡ []
  pub ended : is_end t.stage ≡ true → t.generation ≡ w.generation → is_active w.phase ≡ false

-- What a step of one task of a generation leaves.
pub record IsMove (g : ℕ) (m : Moved) : Type 0 where
  pub later : g ≤ m.0.generation
  pub steady : IsSteady (work m.0) (current_in m.0.generation (pending m.1))
  pub fair : All (IsFair (work m.0)) (pending m.1)

pub returns-IsMove :
    (g : ℕ) (t : Task) (s : Session)
    → IsSteady (work s) 0
    → g ≤ s.generation
    → IsMove g (returns t s)
unfolding returns
returns-IsMove g t s v l = record {
  later = ground (arith, l, ap (λ (w : Work). w.generation) (settle-work t.origin s));
  steady = subst (λ w. IsSteady w 0) (sym (settle-work t.origin s)) v;
  fair = tt;
}

pub waits-IsMove :
    (stage : Stage) (t : Task) (s : Session)
    → IsSmall stage
    → is_scan stage ≡ false
    → (is_end stage ≡ true → is_active s.phase ≡ false)
    → s.generation ≡ t.generation
    → IsSteady (work s) 1
    → IsMove s.generation (waits stage t s)
waits-IsMove stage t s h i k e v = record {
  later = omega arith;
  steady = subst (λ n. IsSteady (work s) n) (ground (arith, e)) v;
  fair = (
    record {
      known = omega (arith, e);
      small = h;
      quiet = λ f. ground (arith, f, i);
      ended = λ f j. k f;
    },
    tt,
  );
}

-- A halt, with the clean-up that follows when games had been set.
pub halted-IsMove :
    (t : Task) (s r : Session) (has_applied : Bool)
    → s.generation ≡ t.generation
    → r.generation ≡ suc s.generation
    → IsSteady (work r) 0
    → IsMove s.generation (if has_applied then waits cleans_up t r else returns t r)
halted-IsMove t s r has_applied e f v =
    if-intro (IsMove s.generation) has_applied
      (λ h. record {
        later = omega (arith, f);
        steady = subst (λ n. IsSteady (work r) n) (ground (arith, e, f)) v;
        fair = (
          record {
            known = omega (arith, e, f);
            small = omega arith;
            quiet = λ i. ground (arith, i);
            ended = λ i j. ground (arith, e, f, j);
          },
          tt,
        );
      })
      (λ h. returns-IsMove s.generation t r v (omega (arith, f)))

pub halt-generation :
    (reason : Reason) (s : Session) → (halt reason s).generation ≡ suc s.generation
unfolding halt
halt-generation reason s = refl

played-active : (is_warming : Bool) → is_active (if is_warming then warming else farming) ≡ true
played-active true = refl
played-active false = refl

module _ (now : ℕ) (t : Task) (s : Session) (e : s.generation ≡ t.generation) where
  pub play-IsMove :
      (app_ids : List ℕ) (is_warming : Bool)
      → length app_ids ≤ 32
      → IsSteady (work s) 1
      → IsMove s.generation (play now app_ids is_warming t s)
  unfolding play
  play-IsMove app_ids is_warming h v =
      let active = played-active is_warming in
      returns-IsMove s.generation t _
        (record {
          single = omega arith;
          busy = λ f. refl;
          idle_games = λ f. ground (arith, f, active);
          idle_timer = λ f. ground (arith, f, active);
          fresh = λ g f. ground (arith, f, e);
          bounded = h;
        })
        (omega arith)

  complete-IsMove :
      (is_empty : Bool) → IsSteady (work s) 1 → IsMove s.generation (complete is_empty t s)
  unfolding complete
  complete-IsMove is_empty v =
      if-intro (IsMove s.generation) s.applied
        (λ f.
          waits-IsMove ends t _ (omega arith) refl (λ i. refl) e
            (record {
              single = v.single;
              busy = λ h. ground (arith, h);
              idle_games = λ h. refl;
              idle_timer = λ h. IsSteady-timer (work s) v;
              fresh = v.fresh;
              bounded = omega arith;
            }))
        (λ f.
          returns-IsMove s.generation t _
            (record {
              single = omega (arith, v.single);
              busy = λ h. ground (arith, h);
              idle_games = λ h. refl;
              idle_timer = λ h. IsSteady-timer (work s) v;
              fresh = v.fresh;
              bounded = omega arith;
            })
            (omega arith))

  pub fail-IsMove : IsMove s.generation (fail t s)
  unfolding fail halt
  fail-IsMove = halted-IsMove t s _ s.applied e refl (record {
    single = omega arith;
    busy = λ h. ground (arith, h);
    idle_games = λ h. refl;
    idle_timer = λ h. refl;
    fresh = λ g h. ground (arith, h);
    bounded = omega arith;
  })

  pub play_ids-IsMove :
      (is_warming : Bool) (app_ids : List ℕ)
      → length app_ids ≤ 32
      → IsSteady (work s) 1
      → IsMove s.generation (play_ids now is_warming app_ids t s)
  unfolding play_ids
  play_ids-IsMove is_warming [] h v = complete-IsMove (has_no_eligible s.games) v
  play_ids-IsMove is_warming (app_id ∷ app_ids) h v =
      if-intro (IsMove s.generation) (equals (app_id ∷ app_ids) s.active_app_ids)
        (λ f. play-IsMove (app_id ∷ app_ids) is_warming h v)
        (λ f.
          waits-IsMove (applies (app_id ∷ app_ids) is_warming) t _ h refl (λ i. ground (arith, i)) e
            v)
