-- ===== src/Boosting/Normal.antt =====
-- apps/server/src/steam/boost-session-tracker.ts: the identifiers that `normalizeAppIds` returns.
use steam_bee.Common.{
  ℕ, ◌<◌, ◌≡◌, ◌∙◌, refl, Bool, false, not, List, [], ◌∷◌, arith, ◌==◌, leb, keep_if, All, any,
  if-intro,
}
use steam_bee.Boosting.{distinct, place, sort, normalize_app_ids}

-- Each is less than all that follow.
abbrev pub IsStrict : List ℕ → Type 0
IsStrict [] = Unit
IsStrict (x ∷ xs) = All (λ y. x < y) xs × IsStrict xs

abbrev Lacks : ℕ → List ℕ → Type 0
Lacks x = All (λ y. (y == x) ≡ false)

abbrev pub includes : ℕ → List ℕ → Bool
includes x = any (λ y. y == x)

All-place {κ} : (P : ℕ → Type κ) (x : ℕ) (ys : List ℕ) → P x → All P ys → All P (place x ys)
All-place P x [] p a = (p, tt)
All-place P x (y ∷ ys) p a =
    if-intro (All P) (leb x y) (λ e. (p, a)) (λ e. (a.0, All-place P x ys p a.1))

All-sort {κ} : (P : ℕ → Type κ) (xs : List ℕ) → All P xs → All P (sort xs)
All-sort P [] a = tt
All-sort P (x ∷ xs) a = All-place P x (sort xs) a.0 (All-sort P xs a.1)

All-lt : (x y : ℕ) (ys : List ℕ) → x < y → All (λ z. y < z) ys → All (λ z. x < z) ys
All-lt x y [] l a = tt
All-lt x y (z ∷ zs) l a = (omega (arith, l, a.0), All-lt x y zs l a.1)

place-IsStrict : (x : ℕ) (ys : List ℕ) → Lacks x ys → IsStrict ys → IsStrict (place x ys)
place-IsStrict x [] n s = (tt, tt)
place-IsStrict x (y ∷ ys) n s =
    if-intro IsStrict (leb x y)
      (λ e. let less : x < y = ground (arith, e, n.0) in ((less, All-lt x y ys less s.0), s))
      (λ e. (All-place (λ z. y < z) x ys (ground (arith, e)) s.0, place-IsStrict x ys n.1 s.1))

abbrev AreApart : List ℕ → Type 0
AreApart [] = Unit
AreApart (x ∷ xs) = Lacks x xs × AreApart xs

All-keep {κ} : (P : ℕ → Type κ) (p : ℕ → Bool) (xs : List ℕ) → All P xs → All P (keep_if p xs)
All-keep P p [] a = tt
All-keep P p (x ∷ xs) a =
    let rest = All-keep P p xs a.1 in if-intro (All P) (p x) (λ e. (a.0, rest)) (λ e. rest)

keep-Lacks : (x : ℕ) (xs : List ℕ) → Lacks x (keep_if (λ y. not (y == x)) xs)
keep-Lacks x [] = tt
keep-Lacks x (y ∷ ys) =
    if-intro (Lacks x) (not (y == x)) (λ e. (ground (arith, e), keep-Lacks x ys))
      (λ e. keep-Lacks x ys)

keep-AreApart : (p : ℕ → Bool) (xs : List ℕ) → AreApart xs → AreApart (keep_if p xs)
keep-AreApart p [] a = tt
keep-AreApart p (x ∷ xs) a =
    let rest = keep-AreApart p xs a.1 in
    if-intro AreApart (p x) (λ e. (All-keep _ p xs a.0, rest)) (λ e. rest)

distinct-AreApart : (xs : List ℕ) → AreApart (distinct xs)
distinct-AreApart [] = tt
distinct-AreApart (x ∷ xs) =
    (keep-Lacks x (distinct xs), keep-AreApart _ (distinct xs) (distinct-AreApart xs))

sort-IsStrict : (xs : List ℕ) → AreApart xs → IsStrict (sort xs)
sort-IsStrict [] a = tt
sort-IsStrict (x ∷ xs) a = place-IsStrict x (sort xs) (All-sort _ xs a.0) (sort-IsStrict xs a.1)

pub normalize_app_ids-IsStrict : (xs : List ℕ) → IsStrict (normalize_app_ids xs)
unfolding normalize_app_ids
normalize_app_ids-IsStrict xs = sort-IsStrict (distinct xs) (distinct-AreApart xs)

includes-place : (x y : ℕ) (ys : List ℕ) → includes x (place y ys) ≡ includes x (y ∷ ys)
includes-place x y [] = refl
includes-place x y (z ∷ zs) = ground (arith, includes-place x y zs)

includes-sort : (x : ℕ) (xs : List ℕ) → includes x (sort xs) ≡ includes x xs
includes-sort x [] = refl
includes-sort x (y ∷ ys) = ground (arith, includes-place x y (sort ys), includes-sort x ys)

includes-keep :
    (x y : ℕ) (ys : List ℕ) → includes x (y ∷ keep_if (λ z. not (z == y)) ys) ≡ includes x (y ∷ ys)
includes-keep x y [] = refl
includes-keep x y (z ∷ zs) = ground (arith, includes-keep x y zs)

includes-distinct : (x : ℕ) (xs : List ℕ) → includes x (distinct xs) ≡ includes x xs
includes-distinct x [] = refl
includes-distinct x (y ∷ ys) =
    ground (arith, includes-keep x y (distinct ys), includes-distinct x ys)

pub includes-normalize_app_ids :
    (x : ℕ) (xs : List ℕ) → includes x (normalize_app_ids xs) ≡ includes x xs
unfolding normalize_app_ids
includes-normalize_app_ids x xs = includes-sort x (distinct xs) ∙ includes-distinct x xs
