-- ===== src/Coordinator/Hold.antt =====
-- apps/server/src/steam/schedule-coordinator.ts: which window owns a hold of an account, and when it lets
-- the account resume.
use Prim.Native.Nat.{Ordering}
use steam_bee.Common.{
  ℕ, ◌≡◌, refl, Bool, true, false, ◌&&◌, Option, none, some, List, [], ◌∷◌, arith, ◌==◌,
  if◌then◌else◌, Option-cases, inl, inr, ◌⊎◌, ◌↔◌, any, Bool-cases,
}
use steam_bee.Schedule.{ScheduleRecord, WindowId, Parts}
use steam_bee.Coordinator.{OpenWindow, same_window, is_window, open_windows, winner_of}

pub data HoldOwner : Type 0 where
  scheduled : ℕ → WindowId → HoldOwner
  unscheduled : HoldOwner
  unknown : HoldOwner

-- `localeCompare` on the texts of two windows is a parameter.
module _ (compare_windows : OpenWindow → OpenWindow → Ordering) where
  -- `sort` and its first entry; of equal ones the first.
  unfoldable pub least : OpenWindow → List OpenWindow → OpenWindow
  least w [] = w
  least w (v ∷ vs) =
      let rest = least v vs in elim (compare_windows w rest) [ Ordering.gt ↦ rest | _ ↦ w ]

  abbrev pub scheduled_owner : OpenWindow → HoldOwner
  scheduled_owner w = scheduled w.schedule_id w.window_id

  -- `find`, by the window that the coordinator has in memory.
  unfoldable pub find_active : Option WindowId → List OpenWindow → Option OpenWindow
  find_active active [] = none
  find_active active (v ∷ vs) =
      let rest = find_active active vs in if is_window v.window_id active then some v else rest

  abbrev pub owner_of_open : Option WindowId → List OpenWindow → HoldOwner
  owner_of_open active [] = unscheduled
  owner_of_open active (v ∷ vs) = elim (find_active active (v ∷ vs)) [
    | none ↦ scheduled_owner (least v vs)
    | some found ↦ scheduled_owner found
  ]

-- A window is one of those.
pub IsOneOf : OpenWindow → List OpenWindow → Type 0
IsOneOf u [] = true ≡ false
IsOneOf u (v ∷ vs) = (v ≡ u) ⊎ IsOneOf u vs

-- The open window that a hold belongs to: the one in memory, if it is open.
pub record IsOwner (active : Option WindowId) (windows : List OpenWindow) (u : OpenWindow)
    : Type 0 where
  pub among : IsOneOf u windows
  pub in_memory :
      any (λ v. is_window v.window_id active) windows ≡ true → is_window u.window_id active ≡ true

-- The winner is this window of this schedule.
pub IsWinner : ℕ → WindowId → Option (ScheduleRecord × WindowId) → Type 0
IsWinner id w none = true ≡ false
IsWinner id w (some (s, v)) = (s.window.id ≡ id) × (v ≡ w)

-- When a hold that was made with this winner, these open windows and this window in memory lets the
-- account resume: where no schedule was in a window and none had one open, always; otherwise exactly when
-- the winner is the window that owns it.
pub IsReleased :
    Option (ScheduleRecord × WindowId)
    → List OpenWindow
    → Option WindowId
    → Option (ScheduleRecord × WindowId)
    → Bool
    → Type 0
IsReleased (some (s, w)) windows active next resumes =
    (resumes ≡ true) ↔ IsWinner s.window.id w next
IsReleased none [] active next resumes = resumes ≡ true
IsReleased none (v ∷ vs) active next resumes =
    (u : OpenWindow) × IsOwner active (v ∷ vs) u
    × ((resumes ≡ true) ↔ IsWinner u.schedule_id u.window_id next)

module _ (compare_windows : OpenWindow → OpenWindow → Ordering) where
  least-IsOneOf :
      (w : OpenWindow) (vs : List OpenWindow) → IsOneOf (least compare_windows w vs) (w ∷ vs)
  unfolding least IsOneOf
  least-IsOneOf w [] = inl refl
  least-IsOneOf w (v ∷ vs) =
      let rest = least-IsOneOf v vs in
      elim (compare_windows w (least compare_windows v vs))
        as (λ (o : Ordering).
          IsOneOf (elim o [ Ordering.gt ↦ least compare_windows v vs | _ ↦ w ]) (w ∷ v ∷ vs)) [
            | Ordering.gt ↦ inr rest
            | Ordering.lt ↦ inl refl
            | Ordering.eq ↦ inl refl
          ]

  find_active-cases :
      (active : Option WindowId) (windows : List OpenWindow)
      → ((find_active compare_windows active windows ≡ none)
          × (any (λ v. is_window v.window_id active) windows ≡ false))
        ⊎ ((u : OpenWindow) × (find_active compare_windows active windows ≡ some u)
            × IsOneOf u windows
            × (is_window u.window_id active ≡ true))
  unfolding find_active IsOneOf
  find_active-cases active [] = inl (refl, refl)
  find_active-cases active (v ∷ vs) = elim (Bool-cases (is_window v.window_id active)) [
    | inl e ↦ rw e (inr (v, refl, inl refl, e))
    | inr e ↦ elim (find_active-cases active vs) [
      | inl (n, a) ↦ rw (e, n) (inl (refl, a))
      | inr (u, f, m, a) ↦ rw (e, f) (inr (u, refl, inr m, a))
    ]
  ]

  owner_of_open-IsOwner :
      (active : Option WindowId) (v : OpenWindow) (vs : List OpenWindow)
      → (u : OpenWindow) × (owner_of_open compare_windows active (v ∷ vs)
          ≡ scheduled u.schedule_id u.window_id)
        × IsOwner active (v ∷ vs) u
  owner_of_open-IsOwner active v vs = elim (find_active-cases active (v ∷ vs)) [
    | inl (n, a) ↦
        rw (owner_of_open, n)
          (
            least compare_windows v vs,
            refl,
            record { among = least-IsOneOf v vs; in_memory = λ e. ground (arith, a, e) },
          )
    | inr (u, f, m, a) ↦ rw (owner_of_open, f) (u, refl, record { among = m; in_memory = λ e. a })
  ]

module _ (compare_windows : OpenWindow → OpenWindow → Ordering) (zoned : ℕ → Option (ℕ → Parts))
    (is_skipped : WindowId → Bool) (compare_ids : ℕ → ℕ → Ordering) where
  -- `getHoldOwner`
  unfoldable pub get_hold_owner : ℕ → Option WindowId → List ScheduleRecord → HoldOwner
  get_hold_owner now active rows = elim (winner_of zoned is_skipped compare_ids now rows) [
    | some (s, w) ↦ scheduled s.window.id w
    | none ↦ owner_of_open compare_windows active (open_windows rows)
  ]

  -- `canResumeHeldAccount`
  abbrev pub is_winner : ℕ → WindowId → Option (ScheduleRecord × WindowId) → Bool
  is_winner id w none = false
  is_winner id w (some (s, v)) = (s.window.id == id) && same_window v w

  unfoldable pub can_resume_held : HoldOwner → ℕ → List ScheduleRecord → Bool
  can_resume_held (scheduled id w) now rows =
      is_winner id w (winner_of zoned is_skipped compare_ids now rows)
  can_resume_held unscheduled now rows = true
  can_resume_held unknown now rows = false

  same_window-eq : (v w : WindowId) → same_window v w ≡ true → v ≡ w
  same_window-eq v w e = ground (arith, e)

  is_winner_iff :
      (id : ℕ) (w : WindowId) (next : Option (ScheduleRecord × WindowId))
      → (is_winner id w next ≡ true) ↔ IsWinner id w next
  unfolding IsWinner
  is_winner_iff id w none = (λ e. ground (arith, e), λ h. ground (arith, h))
  is_winner_iff id w (some (s, v)) = (
    λ e. (ground (arith, e), same_window-eq v w (ground (arith, e))),
    λ h. rw (h.0, h.1) (ground arith),
  )

  can_resume_held_iff :
      (id : ℕ) (w : WindowId) (later : ℕ) (rows : List ScheduleRecord)
      → (can_resume_held (scheduled id w) later rows ≡ true)
        ↔ IsWinner id w (winner_of zoned is_skipped compare_ids later rows)
  unfolding can_resume_held
  can_resume_held_iff id w later rows =
      is_winner_iff id w (winner_of zoned is_skipped compare_ids later rows)

  IsReleased-owner_of_open :
      (later : ℕ) (active : Option WindowId) (windows : List OpenWindow)
      (later_rows : List ScheduleRecord)
      → IsReleased none windows active
          (winner_of zoned is_skipped compare_ids later later_rows)
          (can_resume_held (owner_of_open compare_windows active windows) later later_rows)
  unfolding IsReleased can_resume_held
  IsReleased-owner_of_open later active [] later_rows = refl
  IsReleased-owner_of_open later active (v ∷ vs) later_rows =
      let (u, f, owner) = owner_of_open-IsOwner compare_windows active v vs in
      (u, owner, rw f (can_resume_held_iff u.schedule_id u.window_id later later_rows))

  -- A hold gets its owner at one time and asks at another, of rows that may have changed. If a schedule
  -- was in its window at first, the account may resume exactly when the same schedule has the same window
  -- as the winner. If none was, but windows were open, it may exactly when the winner is one of those, the
  -- one in memory if that was open. If none was open either, it may at any time.
  pub can_resume_held-get_hold_owner :
      (made later : ℕ) (active : Option WindowId) (rows later_rows : List ScheduleRecord)
      → IsReleased
          (winner_of zoned is_skipped compare_ids made rows)
          (open_windows rows)
          active
          (winner_of zoned is_skipped compare_ids later later_rows)
          (can_resume_held (get_hold_owner made active rows) later later_rows)
  unfolding get_hold_owner IsReleased
  can_resume_held-get_hold_owner made later active rows later_rows =
      elim (Option-cases (winner_of zoned is_skipped compare_ids made rows)) [
        | inl n ↦
            rw (get_hold_owner, n)
              (IsReleased-owner_of_open later active (open_windows rows) later_rows)
        | inr (sw, f) ↦
            rw (get_hold_owner, f) (can_resume_held_iff sw.0.window.id sw.1 later later_rows)
      ]
