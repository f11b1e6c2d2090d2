-- ===== src/Coordinator/Transition.antt =====
-- apps/server/src/steam/schedule-coordinator.ts: a transition of an account leaves it settled.
use Prim.Native.Nat.{Ordering}
use mathlib.Core.List.{Memᴰ}
use steam_bee.Common.{
  ℕ, ◌≡◌, refl, sym, subst, ◌∙◌, Bool, true, false, ◌&&◌, ◌||◌, Option, some, List, [], ◌∷◌, arith,
  All, if-intro, inl, inr, Option-cases, keep_if,
}
use steam_bee.Schedule.{
  ScheduleRecord, WindowId, WindowState, Entry, Parts, select_schedule_winner, is_candidate,
}
use steam_bee.Schedule.Winner.{IsChosen, select_schedule_winner-IsChosen}
use steam_bee.Coordinator.{
  Coordinator, Outside, Action, is_window, is_backing_off, has_open, is_none, start_key,
  start_or_keep, transition_account, winner_of, evaluate_schedule, evaluate_schedules,
}
use steam_bee.Coordinator.Backoff.{key_of}
use steam_bee.Coordinator.Windows.{AreDistinct}
use steam_bee.Coordinator.Settled.{
  Succeeds, IsSettled, stop_account-IsSettled, start_account-IsSettled, keep_window-IsSettled,
}

module _ (zoned : ℕ → Option (ℕ → Parts)) (is_skipped : WindowId → Bool)
    (compare_ids : ℕ → ℕ → Ordering) (now : ℕ) where
  -- What an entry of the evaluation is.
  abbrev IsEvaluated : List ScheduleRecord → Entry → Type 0
  IsEvaluated rows e =
      Memᴰ e.schedule rows
      × (e.state ≡ evaluate_schedule zoned is_skipped compare_ids now e.schedule)

  All-IsEvaluated :
      (rows ss : List ScheduleRecord)
      → ((s : ScheduleRecord) → Memᴰ s ss → Memᴰ s rows)
      → All (IsEvaluated rows) (evaluate_schedules zoned is_skipped compare_ids now ss)
  unfolding evaluate_schedules
  All-IsEvaluated rows [] h = tt
  All-IsEvaluated rows (s ∷ ss) h =
      ((h s (Memᴰ.head refl), refl), All-IsEvaluated rows ss (λ r m. h r (Memᴰ.tail m)))

  -- A schedule with a window is enabled.
  evaluated-enabled :
      (s : ScheduleRecord) (state : WindowState)
      → evaluate_schedule zoned is_skipped compare_ids now s ≡ some state
      → s.enabled ≡ true
  evaluated-enabled s state e = ground (arith, e)

  winner_of-IsEnabled :
      (rows : List ScheduleRecord) (s : ScheduleRecord) (w : WindowId)
      → winner_of zoned is_skipped compare_ids now rows ≡ some (s, w)
      → Memᴰ s rows × (s.enabled ≡ true)
  unfolding winner_of
  winner_of-IsEnabled rows s w e =
      let entries = evaluate_schedules zoned is_skipped compare_ids now rows in
      let chosen =
        select_schedule_winner-IsChosen compare_ids (IsEvaluated rows) entries
          (All-IsEvaluated rows rows (λ r m. m)) in
      elim (Option-cases (select_schedule_winner compare_ids entries)) [
        | inl n ↦ ground (arith, e, n)
        | inr (entry, f) ↦
            let picked =
              subst (IsChosen (IsEvaluated rows) (keep_if is_candidate entries)) f chosen in
            elim (Option-cases entry.state) [
              | inl n ↦ ground (arith, e, f, n)
              | inr (state, g) ↦ elim (Option-cases state.window_id) [
                | inl n ↦ ground (arith, e, f, g, n)
                | inr (u, h) ↦
                    let same : entry.schedule ≡ s = ground (arith, e, f, g, h) in
                    (
                      subst (λ r. Memᴰ r rows) same picked.0.0,
                      subst (λ r. r.enabled ≡ true) same
                          (evaluated-enabled entry.schedule state (sym picked.0.1 ∙ g)),
                    )
              ]
            ]
      ]

  module _ (o : Outside) (c : Coordinator) (v : Succeeds o c.rows) (d : AreDistinct c.rows) where
    start_or_keep-IsSettled :
        (s : ScheduleRecord) (w : WindowId)
        → Memᴰ s c.rows
        → s.enabled ≡ true
        → is_backing_off (start_key s.window.id w) now c.failed ≡ false
        → IsSettled (some (s, w)) (start_or_keep o now s w c).0
    unfolding start_or_keep
    start_or_keep-IsSettled s w m e b =
        let Settles : Coordinator × List Action → Type 0 = λ r. IsSettled (some (s, w)) r.0 in
        if-intro Settles (has_open w s && (is_none c.active_window || is_window w c.active_window))
          (λ g. keep_window-IsSettled o now c v d s w m e (ground (arith, g)))
          (λ g.
            if-intro Settles (is_backing_off (start_key s.window.id w) now c.failed)
              (λ h. ground (arith, b, h)) (λ h. start_account-IsSettled o now c v d s w m e))

    -- A transition of an account, where nobody holds it, the ports succeed, the rows are not edited
    -- meanwhile and no earlier failure is waited for, leaves the winner's window as the only open one and
    -- as the one in memory; without a winner it leaves none.
    pub transition_account-IsSettled :
        is_backing_off (key_of (winner_of zoned is_skipped compare_ids now c.rows)) now c.failed
          ≡ false
        → IsSettled
            (winner_of zoned is_skipped compare_ids now c.rows)
            (transition_account zoned is_skipped compare_ids o now c).0
    unfolding transition_account
    transition_account-IsSettled b =
        let found = winner_of zoned is_skipped compare_ids now c.rows in
        let Waits : Option (ScheduleRecord × WindowId) → Type 0 =
          λ x. is_backing_off (key_of x) now c.failed ≡ false in
        if-intro (λ (r : Coordinator × List Action). IsSettled found r.0) o.held
          (λ g. ground (arith, v.not_held, g))
          (λ g. elim (Option-cases found) [
            | inl n ↦ rw n (stop_account-IsSettled o now c v d (subst Waits n b))
            | inr (sw, f) ↦
                let known = winner_of-IsEnabled c.rows sw.0 sw.1 f in
                rw f (start_or_keep-IsSettled sw.0 sw.1 known.0 known.1 (subst Waits f b))
          ])
