-- ===== src/Coordinator/Settled.antt =====
-- apps/server/src/steam/schedule-coordinator.ts: which windows are open after a transition.
use mathlib.Core.List.{Memᴰ}
use steam_bee.Common.{
  ℕ, ◌≡◌, refl, sym, subst, true, false, not, ◌&&◌, Option, none, some, List, [], ◌∷◌, map, arith,
  ◌==◌, All, if-intro, inl, inr, Option-cases,
}
use steam_bee.Schedule.{ScheduleRecord, WindowId}
use steam_bee.Coordinator.{
  OpenWindow, Coordinator, Outside, Action, same_window, matches, open_window, open_windows,
  is_backing_off, other_windows, has_open, is_empty, is_none, pause_key, keep_window, start_account,
  stop_account, commit_started_window,
}
use steam_bee.Coordinator.Windows.{
  stop_all, mark_windows_stopped-eq, HasNo, AreDistinct, IsNamed, open_windows-IsNamed, All-imp,
  IsListed, listed, still-IsListed, stop_all-closed, count,
}
use steam_bee.Coordinator.Commit.{
  All-keep_if, HasNo-Mem, committed, open-committed, commit_started_window-eq,
}

-- Nobody holds the account, the ports succeed, and the rows are not edited meanwhile.
pub record Succeeds (o : Outside) (rows : List ScheduleRecord) : Type 0 where
  pub not_held : o.held ≡ false
  pub not_held_later : o.held_after_preset ≡ false
  pub applied : o.applies ≡ true
  pub resumed : o.resumes ≡ true
  pub paused : o.pauses ≡ true
  pub unedited : o.edit rows ≡ rows

-- Only the window of the winner is open, and it is the one in memory.
abbrev pub IsSettled : Option (ScheduleRecord × WindowId) → Coordinator → Type 0
IsSettled none c = (open_windows c.rows ≡ []) × (c.active_window ≡ none)
IsSettled (some (s, w)) c =
    (open_windows c.rows ≡ record { schedule_id = s.window.id; window_id = w } ∷ [])
    × (c.active_window ≡ some w)

stopped-closed :
    (ws : List OpenWindow) (rows : List ScheduleRecord)
    → All (IsListed ws) rows
    → open_windows (map (stop_all ws) rows) ≡ []
unfolding open_windows
stopped-closed ws [] l = refl
stopped-closed ws (r ∷ rs) l = rw (stop_all-closed ws r l.0) (stopped-closed ws rs l.1)

is_empty-eq : (ws : List OpenWindow) → is_empty ws ≡ true → ws ≡ []
is_empty-eq [] e = refl
is_empty-eq (w ∷ ws) e = cc

is_none-eq : (x : Option WindowId) → is_none x ≡ true → x ≡ none
is_none-eq none e = refl
is_none-eq (some w) e = cc

same_window-eq : (v w : WindowId) → same_window v w ≡ true → v ≡ w
same_window-eq v w e = ground (arith, e)

own-open :
    (s : ScheduleRecord) (w : WindowId)
    → has_open w s ≡ true
    → open_window s ≡ record { schedule_id = s.window.id; window_id = w } ∷ []
unfolding open_window
own-open s w h = elim (Option-cases s.last_started) [
  | inl n ↦ ground (arith, h, n)
  | inr (v, f) ↦ ground (arith, h, f, same_window-eq v w)
]

-- A row of another schedule is closed where no other window is open.
apart_shut :
    (s : ScheduleRecord) (w : WindowId) (ws : List OpenWindow) (r : ScheduleRecord)
    → other_windows (record { schedule_id = s.window.id; window_id = w }) ws ≡ []
    → IsListed ws r
    → (r.window.id == s.window.id) ≡ false
    → open_window r ≡ []
apart_shut s w ws r n l a =
    let opened : OpenWindow = record { schedule_id = s.window.id; window_id = w } in
    let apart : matches opened r ≡ false = ground (arith, a) in
    elim (subst (λ vs. IsListed vs r) n (still-IsListed opened ws r apart l)) [
      | inl e ↦ e
      | inr m ↦ cc
    ]

others_shut :
    (s : ScheduleRecord) (w : WindowId) (ws : List OpenWindow) (rows : List ScheduleRecord)
    → other_windows (record { schedule_id = s.window.id; window_id = w }) ws ≡ []
    → All (IsListed ws) rows
    → HasNo s.window.id rows
    → open_windows rows ≡ []
unfolding open_windows
others_shut s w ws [] n l a = refl
others_shut s w ws (r ∷ rs) n l a =
    rw (apart_shut s w ws r n l.0 a.0) (others_shut s w ws rs n l.1 a.1)

open-alone :
    (s : ScheduleRecord) (w : WindowId) (ws : List OpenWindow) (rows : List ScheduleRecord)
    → other_windows (record { schedule_id = s.window.id; window_id = w }) ws ≡ []
    → has_open w s ≡ true
    → All (IsListed ws) rows
    → AreDistinct rows
    → Memᴰ s rows
    → open_windows rows ≡ record { schedule_id = s.window.id; window_id = w } ∷ []
unfolding open_windows
open-alone s w ws [] n h l d m = elim m [ ]
open-alone s w ws (r ∷ rs) n h l d (Memᴰ.head e) =
    let none_else : HasNo s.window.id rs = subst (λ q. HasNo q.window.id rs) (sym e) d.0 in
    rw (sym e) (rw (own-open s w h) (rw (others_shut s w ws rs n l.1 none_else) refl))
open-alone s w ws (r ∷ rs) n h l d (Memᴰ.tail m) =
    let apart : (r.window.id == s.window.id) ≡ false =
      ground (arith, HasNo-Mem r.window.id s rs d.0 m) in
    rw (apart_shut s w ws r n l.0 apart) (open-alone s w ws rs n h l.1 d.1 m)

module _ (o : Outside) (now : ℕ) (c : Coordinator) (v : Succeeds o c.rows)
    (d : AreDistinct c.rows) where
  pub stop_account-IsSettled :
      is_backing_off pause_key now c.failed ≡ false → IsSettled none (stop_account o now c).0
  unfolding stop_account
  stop_account-IsSettled b =
      let ws = open_windows c.rows in
      let counts =
        All-imp (IsNamed c.rows) (λ w. count (matches w) c.rows ≡ 1) ws (λ w h. h.0)
          (open_windows-IsNamed c.rows d) in
      let marked = mark_windows_stopped-eq ws c.rows counts in
      if-intro (λ (r : Coordinator × List Action). IsSettled none r.0)
        (is_none c.active_window && is_empty ws)
        (λ e. (is_empty-eq ws (ground (arith, e)), is_none-eq c.active_window (ground (arith, e))))
        (λ e.
          if-intro (λ (r : Coordinator × List Action). IsSettled none r.0)
            (is_backing_off pause_key now c.failed) (λ g. ground (arith, b, g))
            (λ g.
              if-intro (λ (r : Coordinator × List Action). IsSettled none r.0)
                (not o.stopped && not o.pauses) (λ h. ground (arith, h, v.paused))
                (λ h. rw (v.unedited, marked) (stopped-closed ws c.rows (listed c.rows), refl))))

  module _ (s : ScheduleRecord) (w : WindowId) (m : Memᴰ s c.rows) (e : s.enabled ≡ true) where
    abbrev pub others : List OpenWindow
    others =
        other_windows (record { schedule_id = s.window.id; window_id = w }) (open_windows c.rows)

    commits :
        commit_started_window
          (record { schedule_id = s.window.id; window_id = w })
          s.updated_at
          others
          c.rows
        ≡ some (map (committed s w e others) c.rows)
    commits =
        commit_started_window-eq s w e others c.rows
          (All-keep_if _ _ (open_windows c.rows) (open_windows-IsNamed c.rows d)) d m

    opens :
        open_windows (map (committed s w e others) c.rows)
        ≡ record { schedule_id = s.window.id; window_id = w } ∷ []
    opens = open-committed s w e (open_windows c.rows) c.rows (listed c.rows) d m

    pub start_account-IsSettled : IsSettled (some (s, w)) (start_account o now s w others c).0
    unfolding start_account
    start_account-IsSettled =
        rw (v.applied, v.not_held_later, v.resumed, v.unedited, commits) (opens, refl)

    pub keep_window-IsSettled :
        has_open w s ≡ true → IsSettled (some (s, w)) (keep_window s w others c)
    unfolding keep_window
    keep_window-IsSettled h =
        if-intro (IsSettled (some (s, w))) (is_empty others)
          (λ g. (
            open-alone s w (open_windows c.rows) c.rows (is_empty-eq others g) h (listed c.rows) d
                m,
            refl,
          ))
          (λ g. rw commits (opens, refl))
