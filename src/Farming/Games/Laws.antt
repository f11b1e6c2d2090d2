-- ===== src/Farming/Games/Laws.antt =====
-- apps/server/src/farming/controller.ts: which games a turn may play.
use steam_bee.Common.{
  Option, none, some, ◌↔◌, ◌+◌, ◌*◌, ◌<◌, not, ◌||◌, if◌then◌else◌, ℕ, zero, suc, ◌≤◌, ◌≡◌, refl,
  Bool, true, false, min, List, [], ◌∷◌, arith, length, if-intro, keep_if, All, inl, inr, ◌⊎◌,
  subst,
}
use steam_bee.Farming.{SkipReason, Config, Game}
use steam_bee.Farming.Games.{
  first_reason, list_reason, purchase_reason, skip_reason_of, or_else, take, limit_of, warm_or_farm,
  choose, select, Selection, is_cold, is_eligible, includes,
}

length-take {ℓ} : {A : Type ℓ} (n : ℕ) (xs : List A) → length (take n xs) ≡ min n (length xs)
unfolding take
length-take zero xs = ground arith
length-take (suc n) [] = ground arith
length-take (suc n) (x ∷ xs) = ground (arith, length-take n xs)

All-take {ℓ κ} : {A : Type ℓ} (P : A → Type κ) (n : ℕ) (xs : List A) → All P xs → All P (take n xs)
unfolding take
All-take P zero xs ps = tt
All-take P (suc n) [] ps = tt
All-take P (suc n) (x ∷ xs) ps = (ps.0, All-take P n xs ps.1)

All-keep_if {ℓ κ} :
    {A : Type ℓ} (P : A → Type κ) (p : A → Bool) (xs : List A)
    → All P xs
    → All (λ x. P x × (p x ≡ true)) (keep_if p xs)
All-keep_if P p [] ps = tt
All-keep_if P p (x ∷ xs) ps =
    if-intro (All (λ y. P y × (p y ≡ true))) (p x) (λ e. ((ps.0, e), All-keep_if P p xs ps.1))
      (λ e. All-keep_if P p xs ps.1)

module _ {ℓ κ} {A : Type ℓ} (P Q : A → Type κ) where
  All-first : (xs : List A) → All (λ x. P x × Q x) xs → All P xs
  All-first [] ps = tt
  All-first (x ∷ xs) ps = (ps.0.0, All-first xs ps.1)

  All-second : (xs : List A) → All (λ x. P x × Q x) xs → All Q xs
  All-second [] ps = tt
  All-second (x ∷ xs) ps = (ps.0.1, All-second xs ps.1)

List-cases {ℓ} : {A : Type ℓ} (xs : List A) → (xs ≡ []) ⊎ ((x : A) × (ys : List A) × (xs ≡ x ∷ ys))
List-cases [] = inl refl
List-cases (x ∷ xs) = inr (x, xs, refl)

-- What a selection keeps to, under a limit and for the games that may be played.
pub record IsAllowed (P : Game → Type 0) (limit : ℕ) (games : List Game) (s : Selection)
    : Type 0 where
  pub limited : length s.games ≤ limit
  pub playable : All P s.games
  pub cold : s.is_warming ≡ true → All (λ game. is_cold game ≡ true) s.games
  pub alone : s.is_warming ≡ false → length s.games ≤ 1
  pub progress : 1 ≤ limit → 1 ≤ length games → 1 ≤ length s.games

module _ (P : Game → Type 0) (limit : ℕ) where
  warm_or_farm-IsAllowed :
      (games : List Game) → All P games → IsAllowed P limit games (warm_or_farm limit games)
  unfolding warm_or_farm
  warm_or_farm-IsAllowed games ps = elim (List-cases (keep_if is_cold games)) [
    | inl none_cold ↦
        rw (warm_or_farm, none_cold)
          (record {
            limited = ground (arith, length-take (min 1 limit) games);
            playable = All-take P (min 1 limit) games ps;
            cold = λ e. ground (arith, e);
            alone = λ e. ground (arith, length-take (min 1 limit) games);
            progress = λ l m. ground (arith, length-take (min 1 limit) games);
          })
    | inr (game, rest, e) ↦
        let both = subst (All (λ x. P x × (is_cold x ≡ true))) e (All-keep_if P is_cold games ps) in
        rw (warm_or_farm, e)
          (record {
            limited = ground (arith, length-take limit (game ∷ rest));
            playable = All-take P limit (game ∷ rest) (All-first P _ (game ∷ rest) both);
            cold = λ f. All-take _ limit (game ∷ rest) (All-second P _ (game ∷ rest) both);
            alone = λ f. ground (arith, f);
            progress = λ l m. ground (arith, length-take limit (game ∷ rest));
          })
  ]

  choose-IsAllowed :
      (config : Config) (games : List Game)
      → All P games
      → IsAllowed P limit games (choose config limit games)
  unfolding choose
  choose-IsAllowed config [] ps = warm_or_farm-IsAllowed [] ps
  choose-IsAllowed config (first ∷ others) ps =
      if-intro (IsAllowed P limit (first ∷ others)) (includes first.app_id config.priority)
        (λ e. record {
          limited = ground (arith, length-take limit (first ∷ []));
          playable = All-take P limit (first ∷ []) (ps.0, tt);
          cold = λ f. ground (arith, f);
          alone = λ f. ground (arith, length-take limit (first ∷ []));
          progress = λ l m. ground (arith, length-take limit (first ∷ []));
        })
        (λ e. warm_or_farm-IsAllowed (first ∷ others) ps)

-- A turn plays games that may be played, at most as many as the limit of 32, of the configuration
-- and of the account, at most one unless it warms them up, only games that need it when it warms
-- them up, and at least one when the limit and the games leave one.
pub select-IsAllowed :
    (config : Config) (game_limit : ℕ) (P : Game → Type 0) (games : List Game)
    → All P games
    → IsAllowed
        (λ game. P game × (is_eligible game ≡ true))
        (limit_of config game_limit)
        (keep_if is_eligible games)
        (select config game_limit games)
unfolding select
select-IsAllowed config game_limit P games ps =
    choose-IsAllowed _ _ config (keep_if is_eligible games) (All-keep_if P is_eligible games ps)

pub record IsListed (config : Config) (app_id : ℕ) : Type 0 where
  pub unbanned : includes app_id config.blacklist ≡ false
  pub wanted : (length config.whitelist ≡ 0) ⊎ (includes app_id config.whitelist ≡ true)

-- The purchase is known and more than fourteen days ago.
pub IsUnrefundable : ℕ → Option ℕ → Type 0
IsUnrefundable now acquired_at =
    (acquired : ℕ) × (acquired_at ≡ some acquired) × (acquired + 14 * 24 * 60 * 60_000 < now)

-- The lists allow the game, and when refundable games are left out it was either played for two hours
-- or bought more than fourteen days ago.
pub IsFree : ℕ → Config → Game → Type 0
IsFree now config game =
    IsListed config game.app_id
    × ((config.skip_refundable ≡ false)
        ⊎ ((120 * 60_000 ≤ or_else game.playtime 0) ⊎ IsUnrefundable now game.acquired_at))

list_reason-none :
    (config : Config) (app_id : ℕ) → list_reason config app_id ≡ none → IsListed config app_id
unfolding list_reason
list_reason-none config app_id e = record {
  unbanned = ground (arith, e);
  wanted = ground (arith, e);
}

list_reason-IsListed :
    (config : Config) (app_id : ℕ) → IsListed config app_id → list_reason config app_id ≡ none
unfolding list_reason
list_reason-IsListed config app_id h = ground (arith, h.unbanned, h.wanted)

purchase_reason-none :
    (now : ℕ) (acquired_at : Option ℕ)
    → purchase_reason now acquired_at ≡ none
    → IsUnrefundable now acquired_at
unfolding purchase_reason IsUnrefundable
purchase_reason-none now none e = ground (arith, e)
purchase_reason-none now (some acquired) e = (acquired, refl, ground (arith, e))

IsUnrefundable-purchase_reason :
    (now : ℕ) (acquired_at : Option ℕ)
    → IsUnrefundable now acquired_at
    → purchase_reason now acquired_at ≡ none
unfolding purchase_reason IsUnrefundable
IsUnrefundable-purchase_reason now none (acquired, e, l) = ground (arith, e)
IsUnrefundable-purchase_reason now (some bought) (acquired, e, l) = ground (arith, e, l)

first_reason-none : (a b : Option SkipReason) → first_reason a b ≡ none → (a ≡ none) × (b ≡ none)
first_reason-none none b e = (refl, e)
first_reason-none (some r) b e = ground (arith, e)

-- A game is not skipped exactly when the lists allow it and, when refundable games are left out, it
-- was played for two hours or bought more than fourteen days ago.
pub skip_reason_of_iff :
    (now : ℕ) (config : Config) (game : Game)
    → (skip_reason_of now config game ≡ none) ↔ IsFree now config game
unfolding skip_reason_of IsFree
skip_reason_of_iff now config game = (
  λ e.
      let both = first_reason-none _ _ e in
      (list_reason-none config game.app_id both.0, free both.1),
  λ h. let listed = list_reason-IsListed config game.app_id h.0 in rw listed (kept h.1),
)
  where
    free :
        (if not config.skip_refundable || not (is_cold game)
            then none
            else purchase_reason now game.acquired_at)
          ≡ none
        → (config.skip_refundable ≡ false)
          ⊎ ((120 * 60_000 ≤ or_else game.playtime 0) ⊎ IsUnrefundable now game.acquired_at)
    free e = ground (arith, e, purchase_reason-none now game.acquired_at)

    kept :
        (config.skip_refundable ≡ false)
          ⊎ ((120 * 60_000 ≤ or_else game.playtime 0) ⊎ IsUnrefundable now game.acquired_at)
        → (if not config.skip_refundable || not (is_cold game)
            then none
            else purchase_reason now game.acquired_at)
          ≡ none
    kept h = ground (arith, h, IsUnrefundable-purchase_reason now game.acquired_at)
