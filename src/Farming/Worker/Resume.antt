-- ===== src/Farming/Worker/Resume.antt =====
-- apps/server/src/farming/controller.ts: what a task that is resumed does to the worker of its session,
-- from the helpers of `advance` up.
use Prim.Native.Nat.{Ordering}
use steam_bee.Common.{
  ℕ, ◌≤◌, ◌≡◌, refl, ◌∙◌, Bool, true, false, ◌||◌, Option, none, some, List, [], ◌∷◌, String, arith,
  if-intro, length, ap, sym, map, All, length-map, subst,
}
use steam_bee.Farming.{Phase, Config, Game, Availability, is_active, phase_stopped, failed}
use steam_bee.Farming.Games.{select}
use steam_bee.Farming.Games.Laws.{select-IsAllowed}
use steam_bee.Farming.Session.{Session, credit_playtime, update_games, filter_games}
use steam_bee.Farming.Session.Calls.{
  Task, Stage, asks, begins, discovers, applies, ends, cleans_up, scans, Answer, availability_is,
  discovery_is, is_done, Moved, is_current, play_selection, select_and_play, scan_or_play, is_due,
  after_availability, proceed, throw, resume,
}
use steam_bee.Farming.Worker.{
  Work, work, IsSteady, IsSteady-timer, credit_playtime-work, filter_games-work, update_games-work,
  halt-IsSteady,
}
use steam_bee.Farming.Worker.Moves.{
  IsSmall, is_scan, is_end, IsFair, IsMove, returns-IsMove, waits-IsMove, halted-IsMove,
  halt-generation, play-IsMove, fail-IsMove, play_ids-IsMove,
}

-- A helper that leaves the worker as it is, before a move.
after-IsMove :
    (s r : Session) (t : Task) (m : Moved)
    → work r ≡ work s
    → (r.generation ≡ t.generation → IsSteady (work r) 1 → IsMove r.generation m)
    → s.generation ≡ t.generation
    → IsSteady (work s) 1
    → IsMove s.generation m
after-IsMove s r t m e move h v =
    let same = ap (λ (w : Work). w.generation) e in
    subst (λ g. IsMove g m) same (move (same ∙ h) (subst (λ w. IsSteady w 1) (sym e) v))

selected-small :
    (config : Config) (game_limit : ℕ) (games : List Game)
    → length (map (λ (game : Game). game.app_id) (select config game_limit games).games) ≤ 32
selected-small config game_limit games = ground (
  arith,
  length-map (select config game_limit games).games (λ (game : Game). game.app_id),
  (select-IsAllowed config game_limit (λ game. 0 ≤ 0) games (All-any games)).limited,
)
  where
    All-any : (xs : List Game) → All (λ x. 0 ≤ 0) xs
    All-any [] = tt
    All-any (x ∷ xs) = (omega arith, All-any xs)

ended-IsSteady :
    (s : Session) → is_active s.phase ≡ false → IsSteady (work s) 1 → IsSteady (work s) 0
ended-IsSteady s i v = record {
  single = omega (arith, v.single);
  busy = λ h. ground (arith, h, i);
  idle_games = v.idle_games;
  idle_timer = v.idle_timer;
  fresh = v.fresh;
  bounded = v.bounded;
}

-- The end of `scan`.
scanned-IsSteady :
    (s : Session) (phase : Phase)
    → s.active_app_ids ≡ []
    → is_active phase ≡ false
    → IsSteady (work s) 1
    → IsSteady (work (record s { phase = phase })) 0
scanned-IsSteady s phase q i v = record {
  single = omega (arith, v.single);
  busy = λ h. ground (arith, h, i);
  idle_games = λ h. q;
  idle_timer = λ h. IsSteady-timer (work s) v;
  fresh = v.fresh;
  bounded = v.bounded;
}

module _ (compare_names : String → String → Ordering) (now : ℕ) (shutting_down : Bool)
    (t : Task) where
  select_and_play-IsMove :
      (a : Availability) (s : Session)
      → s.generation ≡ t.generation
      → IsSteady (work s) 1
      → IsMove s.generation (select_and_play compare_names now shutting_down a t s)
  unfolding select_and_play play_selection
  select_and_play-IsMove a s =
      let filtered = filter_games compare_names now shutting_down s in
      after-IsMove s filtered t _ (filter_games-work compare_names now shutting_down s) (λ e v.
        play_ids-IsMove now t filtered e _ _
          (selected-small filtered.config a.game_limit filtered.games) v)

  scan_or_play-IsMove :
      (is_forced : Bool) (a : Availability) (s : Session)
      → s.generation ≡ t.generation
      → IsSteady (work s) 1
      → IsMove s.generation (scan_or_play compare_names now shutting_down is_forced a t s)
  unfolding scan_or_play
  scan_or_play-IsMove is_forced a s =
      let credited = credit_playtime now s in
      after-IsMove s credited t _ (credit_playtime-work now s) (λ e v.
        if-intro (IsMove credited.generation) (is_forced || is_due now credited.scanned_at)
          (λ f.
            waits-IsMove (discovers a) t credited (omega arith) refl (λ i. ground (arith, i)) e v)
          (λ f. select_and_play-IsMove a credited e v))

  after_availability-IsMove :
      (is_forced : Bool) (a : Availability) (s : Session)
      → s.generation ≡ t.generation
      → IsSteady (work s) 1
      → IsMove s.generation (after_availability compare_names now shutting_down is_forced a t s)
  unfolding after_availability
  after_availability-IsMove is_forced a s e v =
      if-intro (IsMove s.generation) a.is_allowed
        (λ f.
          if-intro (IsMove s.generation) is_forced
            (λ h. waits-IsMove (begins a) t _ (omega arith) refl (λ i. ground (arith, i)) e v)
            (λ h. scan_or_play-IsMove false a _ e v))
        (λ f. halted-IsMove t s _ s.applied e (halt-generation _ _) (halt-IsSteady _ _))

  throw-IsMove :
      (stage : Stage) (s : Session)
      → (is_scan stage ≡ true → s.active_app_ids ≡ [])
      → s.generation ≡ t.generation
      → IsSteady (work s) 1
      → IsMove s.generation (throw compare_names now shutting_down stage t s)
  unfolding throw
  throw-IsMove scans s q e v =
      returns-IsMove s.generation t _ (scanned-IsSteady s failed (q refl) refl v) (omega arith)
  throw-IsMove (asks is_forced) s q e v = fail-IsMove now t s e
  throw-IsMove (begins a) s q e v = fail-IsMove now t s e
  throw-IsMove (discovers a) s q e v = fail-IsMove now t s e
  throw-IsMove (applies app_ids is_warming) s q e v = fail-IsMove now t s e
  throw-IsMove ends s q e v = fail-IsMove now t s e
  throw-IsMove cleans_up s q e v = fail-IsMove now t s e

  stays-IsMove :
      (s : Session)
      → IsFair (work s) t
      → s.generation ≡ t.generation
      → IsSteady (work s) 1
      → IsMove s.generation (s, some t)
  stays-IsMove s fair e v = record {
    later = omega arith;
    steady = subst (λ n. IsSteady (work s) n) (ground (arith, e)) v;
    fair = (fair, tt);
  }

  proceed-IsMove :
      (stage : Stage) (answer : Answer) (s : Session)
      → IsSmall stage
      → (is_scan stage ≡ true → s.active_app_ids ≡ [])
      → (is_end stage ≡ true → is_active s.phase ≡ false)
      → IsFair (work s) t
      → s.generation ≡ t.generation
      → IsSteady (work s) 1
      → IsMove s.generation (proceed compare_names now shutting_down stage answer t s)
  unfolding proceed
  proceed-IsMove (asks is_forced) (availability_is a) s h q k f e v =
      after_availability-IsMove is_forced a s e v
  proceed-IsMove (asks is_forced) (discovery_is d) s h q k f e v = stays-IsMove s f e v
  proceed-IsMove (asks is_forced) is_done s h q k f e v = stays-IsMove s f e v
  proceed-IsMove (begins a) (availability_is b) s h q k f e v = stays-IsMove s f e v
  proceed-IsMove (begins a) (discovery_is d) s h q k f e v = stays-IsMove s f e v
  proceed-IsMove (begins a) is_done s h q k f e v = scan_or_play-IsMove true a s e v
  proceed-IsMove (discovers a) (availability_is b) s h q k f e v = stays-IsMove s f e v
  proceed-IsMove (discovers a) (discovery_is d) s h q k f e v =
      after-IsMove s (update_games compare_names now shutting_down d s) t _
        (update_games-work compare_names now shutting_down d s) (select_and_play-IsMove a _) e v
  proceed-IsMove (discovers a) is_done s h q k f e v = stays-IsMove s f e v
  proceed-IsMove (applies app_ids is_warming) (availability_is b) s h q k f e v =
      stays-IsMove s f e v
  proceed-IsMove (applies app_ids is_warming) (discovery_is d) s h q k f e v = stays-IsMove s f e v
  proceed-IsMove (applies app_ids is_warming) is_done s h q k f e v =
      play-IsMove now t s e app_ids is_warming h v
  proceed-IsMove ends answer s h q k f e v =
      returns-IsMove s.generation t s (ended-IsSteady s (k refl) v) (omega arith)
  proceed-IsMove cleans_up answer s h q k f e v =
      returns-IsMove s.generation t s (ended-IsSteady s (k refl) v) (omega arith)
  proceed-IsMove scans (availability_is b) s h q k f e v = stays-IsMove s f e v
  proceed-IsMove scans (discovery_is d) s h q k f e v =
      after-IsMove s (update_games compare_names now shutting_down d s) t _
        (update_games-work compare_names now shutting_down d s)
        (λ e2 v2.
          returns-IsMove _ t
            (record (update_games compare_names now shutting_down d s) { phase = phase_stopped })
            (scanned-IsSteady (update_games compare_names now shutting_down d s) phase_stopped
              (ap (λ (w : Work). w.app_ids) (update_games-work compare_names now shutting_down d s)
                ∙ q refl)
              refl v2)
            (omega arith))
        e v
  proceed-IsMove scans is_done s h q k f e v = stays-IsMove s f e v

module _ (compare_names : String → String → Ordering) (now : ℕ) (answer : Option Answer)
    (shutting_down : Bool) (s : Session) (t : Task) where
  pub resume-IsMove :
      is_current shutting_down s t ≡ true
      → s.generation ≡ t.generation
      → IsFair (work s) t
      → IsSteady (work s) 1
      → IsMove s.generation (resume compare_names now shutting_down answer t s)
  unfolding resume
  resume-IsMove c e f v =
      if-intro (IsMove s.generation) (is_current shutting_down s t) (λ h. after answer)
        (λ h. ground (arith, c, h))
    where
      after :
          (answer : Option Answer)
          → IsMove s.generation (elim answer [
            | none ↦ throw compare_names now shutting_down t.stage t s
            | some a ↦ proceed compare_names now shutting_down t.stage a t s
          ])
      after none =
          throw-IsMove compare_names now shutting_down t t.stage s (λ i. f.quiet i (sym e)) e v
      after (some a) =
          proceed-IsMove compare_names now shutting_down t t.stage a s f.small
            (λ i. f.quiet i (sym e)) (λ i. f.ended i (sym e)) f e v
