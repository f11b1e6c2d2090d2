-- ===== src/Farming/Worker.antt =====
-- apps/server/src/farming/controller.ts: what a session shows of its worker, and which helpers leave
-- it as it is.
pub mod Moves
pub mod Resume
pub mod Sound
pub mod Calls
pub mod Reached
use Prim.Native.Nat.{Ordering}
use steam_bee.Common.{
  ℕ, suc, ◌+◌, ◌≤◌, ◌≡◌, refl, ◌∙◌, Bool, true, false, Option, none, some, List, [], ◌∷◌, String,
  arith, if◌then◌else◌, if-intro, length, ap, subst, sym, not, ◌||◌, Option-cases, inl, inr,
  Bool-cases,
}
use steam_bee.Farming.{Phase, Config, Discovery, is_active, Reason}
use steam_bee.Farming.Session.{
  Session, halt, price_games, order_games, filter_games, update_games, set_config, credit_playtime,
  is_by_value, is_user_stop,
}
use steam_bee.Farming.Session.Calls.{Origin, ticked, started, settle}

pub record Work : Type 0 where
  pub phase : Phase
  pub app_ids : List ℕ
  pub generation : ℕ
  pub timer : Option ℕ

abbrev pub work : Session → Work
work s = record {
  phase = s.phase;
  app_ids = s.active_app_ids;
  generation = s.generation;
  timer = s.timer;
}

abbrev pub armed : Option ℕ → ℕ
armed none = 0
armed (some g) = 1

-- A worker with `n` tasks of its generation: these and the timer are at most one, and one while it
-- is active; when it is not, it plays nothing and has no timer.
pub record IsSteady (w : Work) (n : ℕ) : Type 0 where
  pub single : n + armed w.timer ≤ 1
  pub busy : is_active w.phase ≡ true → n + armed w.timer ≡ 1
  pub idle_games : is_active w.phase ≡ false → w.app_ids ≡ []
  pub idle_timer : is_active w.phase ≡ false → w.timer ≡ none
  pub fresh : (g : ℕ) → w.timer ≡ some g → g ≡ w.generation
  pub bounded : length w.app_ids ≤ 32

pub IsSteady-timer : (w : Work) → IsSteady w 1 → w.timer ≡ none
IsSteady-timer w v = elim (Option-cases w.timer) [
  | inl e ↦ e
  | inr (g, e) ↦ ground (arith, v.single, ap armed e)
]

pub price_games-work :
    (now : ℕ) (shutting_down : Bool) (s : Session) → work (price_games now shutting_down s) ≡ work s
unfolding price_games
price_games-work now shutting_down s =
    if-intro (λ (t : Session). work t ≡ work s)
      (s.pricing || shutting_down || not (is_by_value s.config.order)) (λ e. refl) (λ e. refl)

pub credit_playtime-work : (now : ℕ) (s : Session) → work (credit_playtime now s) ≡ work s
unfolding credit_playtime
credit_playtime-work now s = elim (Option-cases s.active_since) [
  | inl e ↦ rw e refl
  | inr (since, e) ↦ rw e refl
]

pub settle-work : (origin : Origin) (s : Session) → work (settle origin s) ≡ work s
unfolding settle
settle-work ticked s = refl
settle-work (started is_resumed) s =
    if-intro (λ (t : Session). work t ≡ work s) (is_active s.phase) (λ e. refl) (λ e. refl)

module _ (compare_names : String → String → Ordering) (now : ℕ) (shutting_down : Bool) where
  pub filter_games-work :
      (s : Session) → work (filter_games compare_names now shutting_down s) ≡ work s
  unfolding filter_games order_games
  filter_games-work s = price_games-work now shutting_down _

  pub update_games-work :
      (d : Discovery) (s : Session)
      → work (update_games compare_names now shutting_down d s) ≡ work s
  unfolding update_games
  update_games-work d s = filter_games-work _

  pub set_config-work :
      (config : Config) (s : Session)
      → work (set_config compare_names now shutting_down config s) ≡ work s
  unfolding set_config
  set_config-work config s =
      if-intro (λ (t : Session). work t ≡ work s) (is_active s.phase) (λ e. refl)
        (λ e. filter_games-work _)

pub halt-inactive : (reason : Reason) (s : Session) → is_active (halt reason s).phase ≡ false
unfolding halt
halt-inactive reason s =
    if-intro (λ phase. is_active phase ≡ false) (is_user_stop reason) (λ e. refl)
      (λ e. if-intro (λ phase. is_active phase ≡ false) (is_active s.phase) (λ f. refl) (λ f. f))

pub halt-IsSteady : (reason : Reason) (s : Session) → IsSteady (work (halt reason s)) 0
unfolding halt
halt-IsSteady reason s = record {
  single = omega arith;
  busy = λ e. ground (arith, halt-inactive reason s);
  idle_games = λ e. refl;
  idle_timer = λ e. refl;
  fresh = λ g e. ground (arith, e);
  bounded = omega arith;
}
