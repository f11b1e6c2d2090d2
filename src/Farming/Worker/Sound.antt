-- ===== src/Farming/Worker/Sound.antt =====
-- apps/server/src/farming/controller.ts: when the worker of an account is sound, and that a resumed
-- task keeps it so.
use steam_bee.Common.{
  ℕ, ◌+◌, ◌≤◌, ◌<◌, ◌≡◌, refl, Bool, true, false, List, [], ◌∷◌, ◌++◌, arith, ap, sym, subst, All,
}
use steam_bee.Farming.{is_active}
use steam_bee.Farming.Session.{Session}
use steam_bee.Farming.Session.Calls.{Task, Moved, is_current}
use steam_bee.Farming.Session.Steps.{Farm, farm, pending}
use steam_bee.Farming.Worker.{Work, work, IsSteady}
use steam_bee.Farming.Worker.Moves.{current_in, IsSmall, IsFair, IsMove}

pub record IsSound (f : Farm) : Type 0 where
  pub steady : IsSteady (work f.session) (current_in f.session.generation f.tasks)
  pub fair : All (IsFair (work f.session)) f.tasks
  pub down : f.shutting_down ≡ true → is_active f.session.phase ≡ false

-- A task of an earlier generation.
pub record IsPast (g : ℕ) (t : Task) : Type 0 where
  pub earlier : t.generation < g
  pub small : IsSmall t.stage

pub current_in-append :
    (g : ℕ) (xs ys : List Task) → current_in g (xs ++ ys) ≡ current_in g xs + current_in g ys
current_in-append g [] ys = omega arith
current_in-append g (x ∷ xs) ys = omega (arith, current_in-append g xs ys)

module _ {ℓ} (P : Task → Type ℓ) where
  pub All-append : (xs ys : List Task) → All P xs → All P ys → All P (xs ++ ys)
  All-append [] ys ps qs = qs
  All-append (x ∷ xs) ys ps qs = (ps.0, All-append xs ys ps.1 qs)

  All-left : (xs ys : List Task) → All P (xs ++ ys) → All P xs
  All-left [] ys ps = tt
  All-left (x ∷ xs) ys ps = (ps.0, All-left xs ys ps.1)

  All-right : (xs ys : List Task) → All P (xs ++ ys) → All P ys
  All-right [] ys ps = ps
  All-right (x ∷ xs) ys ps = All-right xs ys ps.1

pub past-current : (g h : ℕ) (ts : List Task) → All (IsPast g) ts → g ≤ h → current_in h ts ≡ 0
past-current g h [] ps l = refl
past-current g h (t ∷ ts) ps l = ground (arith, past-current g h ts ps.1 l, ps.0.earlier)

pub past-IsFair :
    (g : ℕ) (w : Work) (ts : List Task) → All (IsPast g) ts → g ≤ w.generation → All (IsFair w) ts
past-IsFair g w [] ps l = tt
past-IsFair g w (t ∷ ts) ps l = (
  record {
    known = omega (arith, ps.0.earlier, l);
    small = ps.0.small;
    quiet = λ f e. ground (arith, ps.0.earlier, e, l);
    ended = λ f e. ground (arith, ps.0.earlier, e, l);
  },
  past-IsFair g w ts ps.1 l,
)

IsFair-IsPast :
    (w : Work) (ts : List Task)
    → All (IsFair w) ts
    → current_in w.generation ts ≡ 0
    → All (IsPast w.generation) ts
IsFair-IsPast w [] ps e = tt
IsFair-IsPast w (t ∷ ts) ps e = (
  record { earlier = ground (arith, ps.0.known, e); small = ps.0.small },
  IsFair-IsPast w ts ps.1 (omega (arith, e)),
)

pub fewer-IsSteady :
    (w : Work) (n m : ℕ) → m ≤ n → (is_active w.phase ≡ true → m ≡ n) → IsSteady w n → IsSteady w m
fewer-IsSteady w n m l e v = record {
  single = omega (arith, v.single, l);
  busy = λ f. omega (arith, v.busy f, e f);
  idle_games = v.idle_games;
  idle_timer = v.idle_timer;
  fresh = v.fresh;
  bounded = v.bounded;
}

-- A current task that is resumed is the only one of its generation.
pub resumed-IsSound :
    (s : Session) (t : Task) (before after : List Task) (m : Moved)
    → s.generation ≡ t.generation
    → IsSound (farm false s (before ++ t ∷ after))
    → (IsFair (work s) t → IsSteady (work s) 1 → IsMove s.generation m)
    → IsSound (farm false m.0 (before ++ (pending m.1 ++ after)))
resumed-IsSound s t before after m e v move =
    let counted = current_in-append s.generation before (t ∷ after) in
    let fair = All-right (IsFair (work s)) before (t ∷ after) v.fair in
    let one : current_in s.generation (before ++ t ∷ after) ≡ 1 =
      ground (arith, v.steady.single, counted, e) in
    let moved = move fair.0 (subst (IsSteady (work s)) one v.steady) in
    let past_before =
      IsFair-IsPast (work s) before (All-left (IsFair (work s)) before (t ∷ after) v.fair)
        (ground (arith, one, counted, e)) in
    let past_after = IsFair-IsPast (work s) after fair.1 (ground (arith, one, counted, e)) in
    let g = m.0.generation in
    let same : current_in g (pending m.1) ≡ current_in g (before ++ (pending m.1 ++ after)) =
      omega (
        arith,
        current_in-append g before (pending m.1 ++ after),
        current_in-append g (pending m.1) after,
        past-current s.generation g before past_before moved.later,
        past-current s.generation g after past_after moved.later,
      ) in
    record {
      steady = subst (IsSteady (work m.0)) same moved.steady;
      fair =
          All-append (IsFair (work m.0)) before (pending m.1 ++ after)
            (past-IsFair s.generation (work m.0) before past_before moved.later)
            (All-append (IsFair (work m.0)) (pending m.1) after moved.fair
              (past-IsFair s.generation (work m.0) after past_after moved.later));
      down = λ f. ground (arith, f);
    }

-- A task that is not current goes and leaves the worker as it is.
pub gone-IsSound :
    (shutting_down : Bool) (s r : Session) (t : Task) (before after : List Task)
    → is_current shutting_down s t ≡ false
    → IsSound (farm shutting_down s (before ++ t ∷ after))
    → work r ≡ work s
    → IsSound (farm shutting_down r (before ++ after))
unfolding is_current
gone-IsSound shutting_down s r t before after c v e =
    let whole = current_in-append s.generation before (t ∷ after) in
    let rest = current_in-append s.generation before after in
    let steady =
      fewer-IsSteady (work s) _ (current_in s.generation (before ++ after))
        (omega (arith, whole, rest)) (λ f. ground (arith, whole, rest, v.down, f, c)) v.steady in
    let fair =
      All-append (IsFair (work s)) before after
        (All-left (IsFair (work s)) before (t ∷ after) v.fair)
        (All-right (IsFair (work s)) before (t ∷ after) v.fair).1 in
    record {
      steady = subst (λ w. IsSteady w (current_in w.generation (before ++ after))) (sym e) steady;
      fair = subst (λ w. All (IsFair w) (before ++ after)) (sym e) fair;
      down = λ f. ground (arith, v.down f, ap (λ (w : Work). is_active w.phase) e);
    }
