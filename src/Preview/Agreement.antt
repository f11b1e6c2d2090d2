-- ===== src/Preview/Agreement.antt =====
-- apps/server/src/steam/schedule-preview.ts: the preview and the scheduler choose the same winner.
use Prim.Native.Nat.{Ordering}
use steam_bee.Common.{
  ℕ, ◌≡◌, refl, sym, ap, ◌∙◌, Bool, false, Option, none, some, List, [], ◌∷◌, map, arith, keep_if,
  ◌&&◌, leb, ltb, All, if-intro, true, Bool-cases, inl, inr, Option-cases, ◌++◌,
}
use steam_bee.Schedule.{
  Parts, ScheduleRecord, WindowId, Entry, WindowState, is_candidate, place_entry, sort_entries,
  first, select_schedule_winner,
}
use steam_bee.Coordinator.{same_window, unless_skipped}
use steam_bee.Preview.{
  Candidate, candidates_of, candidates_on, candidate_on, is_on, sorts_after, place_candidate,
  sort_candidates, is_first, wins,
}

-- A candidate that is on, as the scheduler sees it.
abbrev shown : Candidate → Entry
shown c = record {
  schedule = c.schedule;
  state = some (record {
    is_active = true;
    window_id = some c.window_id;
    window_started_at = some c.starts_at;
  });
}

-- Whether the winner's window is this one.
abbrev pub has_won : WindowId → Option Entry → Bool
has_won w none = false
has_won w (some entry) = of_state entry.state
  where
    of_id : Option WindowId → Bool
    of_id none = false
    of_id (some v) = same_window v w

    of_state : Option WindowState → Bool
    of_state none = false
    of_state (some state) = of_id state.window_id

module _ (compare_ids : ℕ → ℕ → Ordering) where
  place-shown :
      (x : Candidate) (ys : List Candidate)
      → place_entry compare_ids (shown x) (map (shown) ys)
        ≡ map (shown) (place_candidate compare_ids x ys)
  unfolding place_entry place_candidate
  place-shown x [] = refl
  place-shown x (y ∷ ys) = elim (Bool-cases (sorts_after compare_ids x y)) [
    | inl e ↦ rw e (ap (λ es. shown y ∷ es) (place-shown x ys))
    | inr e ↦ rw e refl
  ]

  sort-shown :
      (cs : List Candidate)
      → sort_entries compare_ids (map (shown) cs) ≡ map (shown) (sort_candidates compare_ids cs)
  unfolding sort_entries sort_candidates
  sort-shown [] = refl
  sort-shown (c ∷ cs) =
      ap (place_entry compare_ids (shown c)) (sort-shown cs)
      ∙ place-shown c (sort_candidates compare_ids cs)

  first-shown :
      (w : Candidate) (cs : List Candidate)
      → is_first compare_ids w cs ≡ has_won w.window_id (first compare_ids (map (shown) cs))
  first-shown w [] = refl
  first-shown w (c ∷ cs) = refl

module _ (is_skipped : WindowId → Bool) (zones : ℕ → ℕ → Parts)
    (compare_ids : ℕ → ℕ → Ordering) where
  -- The schedule of a candidate as the scheduler sees it at an instant: on between the start and the end
  -- of the window, and inactive where the scheduler's own test finds that it is skipped.
  abbrev pub entry_at : ℕ → Candidate → Entry
  entry_at now c = record {
    schedule = c.schedule;
    state = some (
        unless_skipped (λ z. some (zones z)) is_skipped compare_ids
          (record {
            is_active = leb c.starts_at now && ltb now c.ends_at;
            window_id = some c.window_id;
            window_started_at = some c.starts_at;
          }));
  }

  abbrev HasSkip : Candidate → Type 0
  HasSkip c = c.skipped ≡ is_skipped c.window_id

  candidate_on-HasSkip :
      (zoned : ℕ → Parts) (now through : ℕ) (s : ScheduleRecord) (key : ℕ) (c : Candidate)
      → candidate_on zoned is_skipped now through s key ≡ some c
      → HasSkip c
  unfolding candidate_on
  candidate_on-HasSkip zoned now through s key c e = ground (arith, e)

  candidates_on-HasSkip :
      (zoned : ℕ → Parts) (now through : ℕ) (s : ScheduleRecord) (keys : List ℕ)
      → All HasSkip (candidates_on zoned is_skipped now through s keys)
  unfolding candidates_on
  candidates_on-HasSkip zoned now through s [] = tt
  candidates_on-HasSkip zoned now through s (key ∷ keys) =
      let rest = candidates_on-HasSkip zoned now through s keys in
      elim (Option-cases (candidate_on zoned is_skipped now through s key)) [
        | inl n ↦ rw n rest
        | inr (c, f) ↦ rw f (candidate_on-HasSkip zoned now through s key c f, rest)
      ]

  HasSkip-append :
      (cs ds : List Candidate) → All HasSkip cs → All HasSkip ds → All HasSkip (cs ++ ds)
  HasSkip-append [] ds a b = b
  HasSkip-append (c ∷ cs) ds a b = (a.0, HasSkip-append cs ds a.1 b)

  candidates_of-HasSkip :
      (now through : ℕ) (ss : List ScheduleRecord)
      → All HasSkip (candidates_of zones is_skipped now through ss)
  unfolding candidates_of
  candidates_of-HasSkip now through [] = tt
  candidates_of-HasSkip now through (s ∷ ss) =
      let rest = candidates_of-HasSkip now through ss in
      if-intro (All HasSkip) s.enabled
        (λ e. HasSkip-append _ _ (candidates_on-HasSkip (zones s.time_zone) now through s _) rest)
        (λ e. rest)

  keep-entry_at :
      (now : ℕ) (cs : List Candidate)
      → All HasSkip cs
      → keep_if is_candidate (map (entry_at now) cs) ≡ map (shown) (keep_if (is_on now) cs)
  keep-entry_at now [] a = refl
  keep-entry_at now (c ∷ cs) a =
      let rest = keep-entry_at now cs a.1 in
      elim (Bool-cases (is_skipped c.window_id)) [
        | inl e ↦ rw (a.0, e) rest
        | inr e ↦ elim (Bool-cases (leb c.starts_at now && ltb now c.ends_at)) [
          | inl f ↦ rw (a.0, e, f) (ap (λ es. shown c ∷ es) rest)
          | inr f ↦ rw (a.0, e, f) rest
        ]
      ]

  -- For all candidates of the schedules of an account: the preview marks one as a winner exactly when its
  -- window is the one that `selectScheduleWinner` chooses at the instant in which it starts, where each
  -- candidate is active from its start until before its end, and inactive if the scheduler skips it.
  pub wins-select_schedule_winner :
      (now through : ℕ) (schedules : List ScheduleRecord) (c : Candidate)
      → let candidates = candidates_of zones is_skipped now through schedules in
        wins compare_ids candidates c
        ≡ has_won c.window_id
            (select_schedule_winner compare_ids (map (entry_at c.starts_at) candidates))
  unfolding wins select_schedule_winner
  wins-select_schedule_winner now through schedules c =
      let candidates = candidates_of zones is_skipped now through schedules in
      let on = keep_if (is_on c.starts_at) candidates in
      first-shown compare_ids c (sort_candidates compare_ids on)
      ∙ ap (λ es. has_won c.window_id (first compare_ids es))
          (sym (
            ap (sort_entries compare_ids)
              (keep-entry_at c.starts_at candidates (candidates_of-HasSkip now through schedules))
            ∙ sort-shown compare_ids on))
