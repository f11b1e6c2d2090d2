-- ===== src/Schedule/Winner.antt =====
-- apps/server/src/steam/scheduler.ts: the schedule that `selectScheduleWinner` chooses.
use Prim.Native.Nat.{Ordering}
use steam_bee.Common.{
  ℕ, ◌≤◌, ◌<◌, ◌≡◌, refl, true, false, Option, none, some, List, [], ◌∷◌, arith, if-intro, keep_if,
  All, ◌⊎◌, inr,
}
use steam_bee.Schedule.{
  Entry, is_candidate, started_at, is_after, place_entry, sort_entries, first,
  select_schedule_winner,
}

-- The first entry starts later, or at the same time and was changed no earlier.
pub record IsAhead (a b : Entry) : Type 0 where
  pub later : started_at b ≤ started_at a
  pub newer : (started_at b < started_at a) ⊎ (b.schedule.updated_at ≤ a.schedule.updated_at)

IsAhead-refl : (a : Entry) → IsAhead a a
IsAhead-refl a = record { later = omega arith; newer = inr (omega arith) }

IsAhead-trans : (a b c : Entry) → IsAhead a b → IsAhead b c → IsAhead a c
IsAhead-trans a b c p q = record {
  later = omega (arith, p.later, q.later);
  newer = ground (arith, p.newer, q.newer, p.later, q.later);
}

-- The first of a list is ahead of all of it.
IsLed : List Entry → Type 0
IsLed [] = 0 ≤ 0
IsLed (x ∷ xs) = All (IsAhead x) xs

-- The choice among the candidates: none when there is none; else one that is ahead of them all.
abbrev pub IsChosen : (Entry → Type 0) → List Entry → Option Entry → Type 0
IsChosen P candidates none = candidates ≡ []
IsChosen P candidates (some winner) =
    P winner × (is_candidate winner ≡ true) × All (IsAhead winner) candidates

module _ (compare_ids : ℕ → ℕ → Ordering) where
  after-IsAhead : (x y : Entry) → is_after compare_ids x y ≡ true → IsAhead y x
  after-IsAhead x y e = record { later = ground (arith, e); newer = ground (arith, e) }

  before-IsAhead : (x y : Entry) → is_after compare_ids x y ≡ false → IsAhead x y
  before-IsAhead x y e = record { later = ground (arith, e); newer = ground (arith, e) }

  place_entry-All {κ} :
      (P : Entry → Type κ) (x : Entry) (ys : List Entry)
      → P x
      → All P ys
      → All P (place_entry compare_ids x ys)
  unfolding place_entry
  place_entry-All P x [] p ps = (p, tt)
  place_entry-All P x (y ∷ ys) p ps =
      if-intro (All P) (is_after compare_ids x y) (λ e. (ps.0, place_entry-All P x ys p ps.1))
        (λ e. (p, ps))

  unplace-All {κ} :
      (P : Entry → Type κ) (x : Entry) (ys : List Entry)
      → All P (place_entry compare_ids x ys)
      → P x × All P ys
  unfolding place_entry
  unplace-All P x [] = λ ps. ps
  unplace-All P x (y ∷ ys) =
      if-intro (λ zs. All P zs → P x × (P y × All P ys)) (is_after compare_ids x y)
        (λ e ps. let rest = unplace-All P x ys ps.1 in (rest.0, (ps.0, rest.1))) (λ e ps. ps)

  sort_entries-All {κ} :
      (P : Entry → Type κ) (xs : List Entry) → All P xs → All P (sort_entries compare_ids xs)
  unfolding sort_entries
  sort_entries-All P [] ps = tt
  sort_entries-All P (x ∷ xs) ps =
      place_entry-All P x (sort_entries compare_ids xs) ps.0 (sort_entries-All P xs ps.1)

  unsort-All {κ} :
      (P : Entry → Type κ) (xs : List Entry) → All P (sort_entries compare_ids xs) → All P xs
  unfolding sort_entries
  unsort-All P [] ps = tt
  unsort-All P (x ∷ xs) ps =
      let both = unplace-All P x (sort_entries compare_ids xs) ps in
      (both.0, unsort-All P xs both.1)

  All-IsAhead :
      (a b : Entry) (xs : List Entry) → IsAhead a b → All (IsAhead b) xs → All (IsAhead a) xs
  All-IsAhead a b [] p ps = tt
  All-IsAhead a b (x ∷ xs) p ps = (IsAhead-trans a b x p ps.0, All-IsAhead a b xs p ps.1)

  place_entry-IsLed :
      (x : Entry) (ys : List Entry) → IsLed ys → IsLed (place_entry compare_ids x ys)
  unfolding place_entry IsLed
  place_entry-IsLed x [] l = tt
  place_entry-IsLed x (y ∷ ys) l =
      if-intro IsLed (is_after compare_ids x y)
        (λ e. place_entry-All (IsAhead y) x ys (after-IsAhead x y e) l)
        (λ e. (before-IsAhead x y e, All-IsAhead x y ys (before-IsAhead x y e) l))

  sort_entries-IsLed : (xs : List Entry) → IsLed (sort_entries compare_ids xs)
  unfolding sort_entries IsLed
  sort_entries-IsLed [] = omega arith
  sort_entries-IsLed (x ∷ xs) =
      place_entry-IsLed x (sort_entries compare_ids xs) (sort_entries-IsLed xs)

  no-All : (xs : List Entry) → All (λ x. 1 ≤ 0) xs → xs ≡ []
  no-All [] ps = refl
  no-All (x ∷ xs) ps = ground (arith, ps.0)

  first-IsChosen :
      (P : Entry → Type 0) (candidates sorted : List Entry)
      → All (λ x. P x × (is_candidate x ≡ true)) sorted
      → IsLed sorted
      → ((Q : Entry → Type 0) → All Q sorted → All Q candidates)
      → IsChosen P candidates (first compare_ids sorted)
  unfolding IsLed
  first-IsChosen P candidates [] ps l back = no-All candidates (back (λ x. 1 ≤ 0) tt)
  first-IsChosen P candidates (x ∷ xs) ps l back =
      (ps.0.0, ps.0.1, back (IsAhead x) (IsAhead-refl x, l))

  candidates-All :
      (P : Entry → Type 0) (entries : List Entry)
      → All P entries
      → All (λ x. P x × (is_candidate x ≡ true)) (keep_if is_candidate entries)
  candidates-All P [] ps = tt
  candidates-All P (x ∷ xs) ps =
      if-intro (All (λ y. P y × (is_candidate y ≡ true))) (is_candidate x)
        (λ e. ((ps.0, e), candidates-All P xs ps.1)) (λ e. candidates-All P xs ps.1)

  -- The winner among the schedules is one of them (all that hold `P`) and in its window, and no schedule
  -- that is in its window started later, or at the same time with a later change; there is no winner
  -- only when no schedule is in its window.
  pub select_schedule_winner-IsChosen :
      (P : Entry → Type 0) (entries : List Entry)
      → All P entries
      → IsChosen P (keep_if is_candidate entries) (select_schedule_winner compare_ids entries)
  unfolding select_schedule_winner
  select_schedule_winner-IsChosen P entries ps =
      let candidates = keep_if is_candidate entries in
      first-IsChosen P candidates (sort_entries compare_ids candidates)
        (sort_entries-All _ candidates (candidates-All P entries ps))
        (sort_entries-IsLed candidates) (λ Q qs. unsort-All Q candidates qs)
