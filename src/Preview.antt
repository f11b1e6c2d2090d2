-- ===== src/Preview.antt =====
-- apps/server/src/steam/schedule-preview.ts: the windows of the next days, on the rows of an account.
-- Names are left out; the clocks of the time zones are a parameter.
pub mod Agreement
mod Tests
use Prim.Native.Nat.{compare, Ordering}
use steam_bee.Common.{
  ℕ, zero, suc, ◌+◌, ◌-◌, ◌*◌, ◌/◌, Bool, true, false, not, ◌&&◌, ◌||◌, Option, none, some, List,
  [], ◌∷◌, ◌++◌, ltb, leb, if◌then◌else◌, keep_if, map,
}
use steam_bee.Schedule.{
  Parts, Time, WindowId, ScheduleRecord, includes_day, is_overnight, zoned_local_time_to_epoch,
}
use steam_bee.Coordinator.{same_window}
use steam_bee.Boosting.{distinct, sort}

pub record Candidate : Type 0 where
  pub schedule : ScheduleRecord
  pub window_id : WindowId
  pub starts_at : ℕ
  pub ends_at : ℕ
  pub skipped : Bool

-- `SchedulePreviewItem`
pub record Item : Type 0 where
  pub candidate : Candidate
  pub winner : Bool
  pub conflict_schedule_ids : List ℕ

abbrev half_day : ℕ
half_day = 12 * 60 * 60_000

-- The days that the cursor passes, in steps of half a day.
unfoldable pub local_days : (ℕ → Parts) → ℕ → ℕ → List ℕ
local_days zoned from zero = (zoned from).date_key ∷ []
local_days zoned from (suc steps) = (zoned from).date_key ∷ local_days zoned (from + half_day) steps

-- `localDateKeys`
unfoldable pub local_date_keys : (ℕ → Parts) → ℕ → ℕ → List ℕ
local_date_keys zoned from through =
    sort (distinct (local_days zoned from ((through - from) / half_day)))

module _ (zoned : ℕ → Parts) (is_skipped : WindowId → Bool) (now through : ℕ) where
  -- The window of a schedule on a day, where it has one that is not over.
  unfoldable pub candidate_on : ScheduleRecord → ℕ → Option Candidate
  candidate_on s date_key =
      let w = s.window in
      let noon = zoned_local_time_to_epoch zoned date_key (record { hour = 12; minute = 0 }) in
      let end_key = if is_overnight w then date_key + 1 else date_key in
      let starts_at = zoned_local_time_to_epoch zoned date_key w.start_time in
      let ends_at = zoned_local_time_to_epoch zoned end_key w.end_time in
      let id : WindowId = record {
        schedule_id = w.id;
        date_key = date_key;
        start_time = w.start_time;
        end_time = w.end_time;
      } in
      if not (includes_day (zoned noon).weekday w.weekdays)
        || (leb ends_at now || (leb through starts_at || leb ends_at starts_at))
      then none
      else some (record {
        schedule = s;
        window_id = id;
        starts_at = starts_at;
        ends_at = ends_at;
        skipped = is_skipped id;
      })

  abbrev pub add_found : Option Candidate → List Candidate → List Candidate
  add_found none found = found
  add_found (some c) found = c ∷ found

  unfoldable pub candidates_on : ScheduleRecord → List ℕ → List Candidate
  candidates_on s [] = []
  candidates_on s (date_key ∷ keys) = add_found (candidate_on s date_key) (candidates_on s keys)

abbrev day : ℕ
day = 24 * 60 * 60_000

-- The candidates of the schedules that are enabled.
unfoldable pub candidates_of :
    (ℕ → ℕ → Parts) → (WindowId → Bool) → ℕ → ℕ → List ScheduleRecord → List Candidate
candidates_of zones is_skipped now through [] = []
candidates_of zones is_skipped now through (s ∷ ss) =
    let zoned = zones s.time_zone in
    let keys = local_date_keys zoned (now - day) (through + day) in
    let rest = candidates_of zones is_skipped now through ss in
    if s.enabled then candidates_on zoned is_skipped now through s keys ++ rest else rest

abbrev pub overlaps : Candidate → Candidate → Bool
overlaps c d =
    not (same_window d.window_id c.window_id)
    && (ltb d.starts_at c.ends_at && ltb c.starts_at d.ends_at)

-- Whether a candidate is in its window.
abbrev pub is_on : ℕ → Candidate → Bool
is_on sample_at c = not c.skipped && (leb c.starts_at sample_at && ltb sample_at c.ends_at)

-- Whether the first of two candidates sorts after the second.
abbrev pub sorts_after : (ℕ → ℕ → Ordering) → Candidate → Candidate → Bool
sorts_after compare_ids l r = elim (compare r.starts_at l.starts_at) [
  | Ordering.lt ↦ false
  | Ordering.gt ↦ true
  | Ordering.eq ↦ elim (compare r.schedule.updated_at l.schedule.updated_at) [
    | Ordering.lt ↦ false
    | Ordering.gt ↦ true
    | Ordering.eq ↦ elim (compare_ids r.schedule.window.id l.schedule.window.id) [
      | Ordering.gt ↦ true
      | _ ↦ false
    ]
  ]
]

module _ (compare_ids : ℕ → ℕ → Ordering) where
  unfoldable pub place_candidate : Candidate → List Candidate → List Candidate
  place_candidate x [] = x ∷ []
  place_candidate x (y ∷ ys) =
      let rest = place_candidate x ys in
      if sorts_after compare_ids x y then y ∷ rest else x ∷ y ∷ ys

  unfoldable pub sort_candidates : List Candidate → List Candidate
  sort_candidates [] = []
  sort_candidates (x ∷ xs) = place_candidate x (sort_candidates xs)

  abbrev pub is_first : Candidate → List Candidate → Bool
  is_first c [] = false
  is_first c (d ∷ ds) = same_window d.window_id c.window_id

  -- Whether a candidate wins when it starts.
  unfoldable pub wins : List Candidate → Candidate → Bool
  wins candidates c = is_first c (sort_candidates (keep_if (is_on c.starts_at) candidates))

  abbrev pub item_of : List Candidate → Candidate → Item
  item_of candidates c = record {
    candidate = c;
    winner = wins candidates c;
    conflict_schedule_ids =
        distinct (map (λ d. d.schedule.window.id) (keep_if (overlaps c) candidates));
  }

abbrev pub place_item : Item → List Item → List Item
place_item x [] = x ∷ []
place_item x (y ∷ ys) =
    let rest = place_item x ys in
    if leb x.candidate.starts_at y.candidate.starts_at then x ∷ y ∷ ys else y ∷ rest

abbrev pub sort_items : List Item → List Item
sort_items [] = []
sort_items (x ∷ xs) = place_item x (sort_items xs)

-- `buildSchedulePreview`
unfoldable pub build_preview :
    (ℕ → ℕ → Ordering)
    → (ℕ → ℕ → Parts)
    → (WindowId → Bool)
    → ℕ
    → ℕ
    → List ScheduleRecord
    → List Item
build_preview compare_ids zones is_skipped days now schedules =
    let candidates = candidates_of zones is_skipped now (now + days * day) schedules in
    sort_items (map (item_of compare_ids candidates) candidates)
