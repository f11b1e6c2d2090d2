-- ===== src/Farming/Worker/Calls.antt =====
-- apps/server/src/farming/controller.ts: the public operations keep the worker sound.
use Prim.Native.Nat.{Ordering}
use steam_bee.Common.{
  ◌∙◌, ℕ, suc, ◌≡◌, refl, ◌∙◌, Bool, true, false, not, ◌&&◌, ◌||◌, Option, none, some, List, [],
  ◌∷◌, ◌++◌, String, arith, if-intro, ap, sym, subst, ◌==◌, All,
}
use steam_bee.Farming.{Config, Reason, scanning, is_active, shutdown}
use steam_bee.Farming.Session.{Session, halt, set_config, filter_games, order_games}
use steam_bee.Farming.Session.Calls.{ticked, Task, ticked, asks, Moved, is_current}
use steam_bee.Farming.Session.Steps.{
  Farm, farm, pending, task, Call, scan_asked, start_asked, reconfigured, halted, timer_fired,
  prices_arrived, prices_failed, shutdown_begun, initialized, scan, start, reconfigure, fire,
  select_again, fire_timer, arrive, call, is_outdated, shutting_down_after,
}
use steam_bee.Farming.Worker.{
  Work, work, armed, IsSteady, filter_games-work, set_config-work, halt-IsSteady, halt-inactive,
}
use steam_bee.Farming.Worker.Moves.{current_in, IsSmall, is_end, IsFair, halt-generation}
use steam_bee.Farming.Worker.Sound.{
  IsSound, IsPast, current_in-append, All-append, past-current, past-IsFair,
}

-- The farm after an operation on its session.
abbrev pub after_call : Bool → Moved → List Task → Farm
after_call shutting_down m ts = farm shutting_down m.0 (pending m.1 ++ ts)

pub IsFair-outdated :
    (w : Work) (ts : List Task) → All (IsFair w) ts → All (IsPast (suc w.generation)) ts
IsFair-outdated w [] ps = tt
IsFair-outdated w (t ∷ ts) ps =
    (record { earlier = omega (arith, ps.0.known); small = ps.0.small }, IsFair-outdated w ts ps.1)

same-IsSound :
    (d e : Bool) (s r : Session) (ts : List Task)
    → IsSound (farm d s ts)
    → work r ≡ work s
    → (e ≡ true → is_active s.phase ≡ false)
    → IsSound (farm e r ts)
same-IsSound d e s r ts v h down = record {
  steady = subst (λ w. IsSteady w (current_in w.generation ts)) (sym h) v.steady;
  fair = subst (λ w. All (IsFair w) ts) (sym h) v.fair;
  down = λ f. ap (λ (w : Work). is_active w.phase) h ∙ down f;
}

-- A new generation: the tasks that wait are outdated.
bumped-IsSound :
    (d e : Bool) (s r : Session) (ts : List Task) (next : Option Task)
    → IsSound (farm d s ts)
    → r.generation ≡ suc s.generation
    → IsSteady (work r) (current_in r.generation (pending next))
    → All (IsFair (work r)) (pending next)
    → (e ≡ true → is_active r.phase ≡ false)
    → IsSound (after_call e (r, next) ts)
bumped-IsSound d e s r ts next v h steady fair down =
    let past = IsFair-outdated (work s) ts v.fair in
    let old = past-current (suc s.generation) r.generation ts past (omega (arith, h)) in
    let old_fair = past-IsFair (suc s.generation) (work r) ts past (omega (arith, h)) in
    record {
      steady =
          subst (IsSteady (work r))
            (omega (arith, current_in-append r.generation (pending next) ts, old)) steady;
      fair = All-append (IsFair (work r)) (pending next) ts fair old_fair;
      down = down;
    }

IsFair-unarmed :
    (w : Work) (ts : List Task) → All (IsFair w) ts → All (IsFair (record w { timer = none })) ts
IsFair-unarmed w [] ps = tt
IsFair-unarmed w (t ∷ ts) ps = (
  record { known = ps.0.known; small = ps.0.small; quiet = ps.0.quiet; ended = ps.0.ended },
  IsFair-unarmed w ts ps.1,
)

-- A worker that starts to scan, from one that is not active.
scanning-IsSteady :
    (s : Session) (n : ℕ)
    → is_active s.phase ≡ false
    → IsSteady (work s) n
    → IsSteady (record (work s) { phase = scanning; generation = suc s.generation }) 1
scanning-IsSteady s n i v = record {
  single = ground (arith, ap armed (v.idle_timer i));
  busy = λ f. ground (arith, ap armed (v.idle_timer i));
  idle_games = λ f. v.idle_games i;
  idle_timer = λ f. v.idle_timer i;
  fresh = λ g f. ground (arith, f, v.idle_timer i);
  bounded = v.bounded;
}

module _ (d : Bool) (ts : List Task) where
  -- The timer's place is taken by a task.
  rearmed-IsSound :
      (s : Session) (g : ℕ)
      → s.timer ≡ some g
      → IsSound (farm d s ts)
      → IsSound (
          after_call d (record s { timer = none }, some (task s.generation ticked (asks false))) ts)
  rearmed-IsSound s g e v =
      let on = ap armed e in
      record {
        steady = record {
          single = ground (arith, v.steady.single, on);
          busy = λ f. ground (arith, v.steady.single, on);
          idle_games = v.steady.idle_games;
          idle_timer = λ f. refl;
          fresh = λ h f. ground (arith, f);
          bounded = v.steady.bounded;
        };
        fair = (
          record {
            known = omega arith;
            small = omega arith;
            quiet = λ f. ground (arith, f);
            ended = λ f. ground (arith, f);
          },
          IsFair-unarmed (work s) ts v.fair,
        );
        down = v.down;
      }

  select_again-IsSound :
      (timer : Option ℕ) (s : Session)
      → s.timer ≡ timer
      → IsSound (farm d s ts)
      → IsSound (after_call d (select_again timer s) ts)
  unfolding select_again
  select_again-IsSound none s e v = v
  select_again-IsSound (some g) s e v = rearmed-IsSound s g e v

  fire_timer-IsSound :
      (timer : Option ℕ) (s : Session)
      → s.timer ≡ timer
      → IsSound (farm d s ts)
      → IsSound (after_call d (fire_timer d timer s) ts)
  unfolding fire_timer is_current
  fire_timer-IsSound none s e v = v
  fire_timer-IsSound (some g) s e v =
      if-intro (λ m. IsSound (after_call d m ts)) (not d && (s.generation == g))
        (λ f.
          subst
            (λ h.
              IsSound
                (after_call d (record s { timer = none }, some (task h ticked (asks false))) ts))
            (sym (v.steady.fresh g e)) (rearmed-IsSound s g e v))
        (λ f. ground (arith, f, v.steady.fresh g e, v.down, v.steady.idle_timer, e))

  module _ (compare_names : String → String → Ordering) (now : ℕ) (s : Session)
      (v : IsSound (farm d s ts)) where
    shown-IsSound :
        (config : Config) → IsSound (farm d (set_config compare_names now d config s) ts)
    shown-IsSound config =
        same-IsSound d d s _ ts v (set_config-work compare_names now d config s) v.down

    -- `scan` and `start` begin their task when the worker is not active.
    opened-IsSound :
        (shown r : Session) (t : Task)
        → d ≡ false
        → IsSound (farm d shown ts)
        → is_active shown.phase ≡ false
        → work r ≡ record (work shown) { phase = scanning; generation = suc shown.generation }
        → t.generation ≡ suc shown.generation
        → IsSmall t.stage
        → is_end t.stage ≡ false
        → IsSound (after_call d (r, some t) ts)
    opened-IsSound shown r t e w i same g small not_end =
        let opened = record (work shown) { phase = scanning; generation = suc shown.generation } in
        let fair : IsFair opened t = record {
          known = omega (arith, g);
          small = small;
          quiet = λ h k. w.steady.idle_games i;
          ended = λ h k. ground (arith, h, not_end);
        } in
        bumped-IsSound d d shown r ts (some t) w (ap (λ (x : Work). x.generation) same)
          (subst (λ x. IsSteady x (current_in x.generation (t ∷ []))) (sym same)
            (subst (λ n. IsSteady opened n) (ground (arith, g))
              (scanning-IsSteady shown _ i w.steady)))
          (subst (λ x. IsFair x t) (sym same) fair, tt) (λ h. ground (arith, h, e))

    scan-IsSound :
        (config : Config) (expected : Option ℕ)
        → IsSound (after_call d (scan compare_names now d config expected s) ts)
    unfolding scan
    scan-IsSound config expected =
        let shown = set_config compare_names now d config s in
        let w = shown-IsSound config in
        if-intro (λ m. IsSound (after_call d m ts)) d (λ e. v)
          (λ e.
            if-intro (λ m. IsSound (after_call d m ts))
              (is_outdated expected shown || is_active shown.phase) (λ f. w)
              (λ f. opened-IsSound shown _ _ e w (ground (arith, f)) refl refl (omega arith) refl))

    start-IsSound :
        (config : Config) (expected : Option ℕ) (is_resumed : Bool)
        → IsSound (after_call d (start compare_names now d config expected is_resumed s) ts)
    unfolding start
    start-IsSound config expected is_resumed =
        let shown = set_config compare_names now d config s in
        let w = shown-IsSound config in
        if-intro (λ m. IsSound (after_call d m ts)) d (λ e. v)
          (λ e.
            if-intro (λ m. IsSound (after_call d m ts))
              (is_outdated expected shown || is_active shown.phase) (λ f. w)
              (λ f. opened-IsSound shown _ _ e w (ground (arith, f)) refl refl (omega arith) refl))

    reconfigure-IsSound :
        (config : Config) → IsSound (after_call d (reconfigure compare_names now d config s) ts)
    unfolding reconfigure
    reconfigure-IsSound config =
        let shown = filter_games compare_names now d (record s { config = config }) in
        if-intro (λ m. IsSound (after_call d m ts)) (is_active s.phase)
          (λ e.
            select_again-IsSound shown.timer shown refl
              (same-IsSound d d s shown ts v (filter_games-work compare_names now d _) v.down))
          (λ e. shown-IsSound config)

    halt-IsSound : (reason : Reason) (e : Bool) → IsSound (after_call e (halt reason s, none) ts)
    halt-IsSound reason e =
        bumped-IsSound d e s (halt reason s) ts none v (halt-generation reason s)
          (halt-IsSteady reason s) tt (λ h. halt-inactive reason s)

    pub call-IsSound :
        (c : Call)
        → IsSound (after_call (shutting_down_after c d) (call compare_names now d c s) ts)
    unfolding call arrive order_games fire
    call-IsSound (scan_asked config expected) = scan-IsSound config expected
    call-IsSound (start_asked config expected is_resumed) = start-IsSound config expected is_resumed
    call-IsSound (reconfigured config) = reconfigure-IsSound config
    call-IsSound (halted reason) = halt-IsSound reason d
    call-IsSound timer_fired = fire_timer-IsSound s.timer s refl v
    call-IsSound (prices_arrived values) = same-IsSound d d s _ ts v refl v.down
    call-IsSound prices_failed = same-IsSound d d s _ ts v refl v.down
    call-IsSound shutdown_begun = halt-IsSound shutdown true
    call-IsSound initialized = same-IsSound d false s s ts v refl (λ h. ground (arith, h))
