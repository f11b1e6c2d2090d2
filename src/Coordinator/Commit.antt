-- ===== src/Coordinator/Commit.antt =====
-- apps/server/src/steam/schedule-repository.ts: a commit leaves only the window that starts open.
use mathlib.Core.List.{Memᴰ}
use steam_bee.Common.{
  ℕ, ◌≡◌, refl, sym, ap, subst, ◌∙◌, Bool, true, false, Option, some, List, [], ◌∷◌, map, arith,
  ◌==◌, if◌then◌else◌, All, if-intro, keep_if,
}
use steam_bee.Schedule.{ScheduleRecord, WindowId}
use steam_bee.Coordinator.{
  OpenWindow, matches, open_window, open_windows, other_windows, starts, start_window,
  commit_started_window,
}
use steam_bee.Coordinator.Windows.{
  count, stop_all, map-map, update_one-eq, mark_windows_stopped-eq, HasNo, AreDistinct, count-HasNo,
  same_window_refl, IsNamed, All-imp, IsListed, still-IsListed, stop_all-closed,
}

abbrev start_if : OpenWindow → ℕ → ScheduleRecord → ScheduleRecord
start_if w t r = if starts w t r then start_window w.window_id r else r

-- Stopping a row changes what was stopped last, and nothing else.
stop_all-eq :
    (ws : List OpenWindow) (r : ScheduleRecord)
    → (x : Option WindowId) × (stop_all ws r ≡ record r { last_stopped = x })
unfolding stop_all
stop_all-eq [] r = (r.last_stopped, refl)
stop_all-eq (w ∷ ws) r =
    if-intro (λ q. (x : Option WindowId) × (stop_all ws q ≡ record r { last_stopped = x }))
      (matches w r) (λ e. stop_all-eq ws (record r { last_stopped = some w.window_id }))
      (λ e. stop_all-eq ws r)

pub HasNo-Mem :
    (id : ℕ) (s : ScheduleRecord) (rows : List ScheduleRecord)
    → HasNo id rows
    → Memᴰ s rows
    → (s.window.id == id) ≡ false
HasNo-Mem id s [] h m = elim m [ ]
HasNo-Mem id s (r ∷ rs) h (Memᴰ.head e) = rw e h.0
HasNo-Mem id s (r ∷ rs) h (Memᴰ.tail m) = HasNo-Mem id s rs h.1 m

pub All-keep_if {ℓ κ} :
    {A : Type ℓ} (P : A → Type κ) (p : A → Bool) (xs : List A) → All P xs → All P (keep_if p xs)
All-keep_if P p [] a = tt
All-keep_if P p (x ∷ xs) a =
    let rest = All-keep_if P p xs a.1 in if-intro (All P) (p x) (λ e. (a.0, rest)) (λ e. rest)

module _ (s : ScheduleRecord) (w : WindowId) (enabled : s.enabled ≡ true) where
  abbrev pub opened : OpenWindow
  opened = record { schedule_id = s.window.id; window_id = w }

  abbrev own : ScheduleRecord → List OpenWindow
  own r = if r.window.id == s.window.id then opened ∷ [] else []

  -- The winner's window opens, and each other window that is listed closes.
  starts-own :
      (x : Option WindowId)
      → open_window (start_if opened s.updated_at (record s { last_stopped = x })) ≡ opened ∷ []
  unfolding open_window
  starts-own x = ground (arith, enabled, same_window_refl w)

  other-start :
      (q : ScheduleRecord)
      → (q.window.id == s.window.id) ≡ false
      → start_if opened s.updated_at q ≡ q
  other-start q n = ground (arith, n)

  -- What a commit makes of a row.
  abbrev pub committed : List OpenWindow → ScheduleRecord → ScheduleRecord
  committed ws r = start_if opened s.updated_at (stop_all (other_windows opened ws) r)

  keeps_shut :
      (ws : List OpenWindow) (r : ScheduleRecord)
      → IsListed ws r
      → (r.window.id == s.window.id) ≡ false
      → open_window (committed (other_windows opened ws) r) ≡ []
  keeps_shut ws r l n =
      let again = other_windows opened (other_windows opened ws) in
      let apart : matches opened r ≡ false = ground (arith, n) in
      let closed =
        stop_all-closed again r
          (still-IsListed opened _ r apart (still-IsListed opened ws r apart l)) in
      let same = ap (λ q. q.window.id == s.window.id) (stop_all-eq again r).1 in
      ap open_window (other-start (stop_all again r) (same ∙ n)) ∙ closed

  own-committed : (ws : List OpenWindow) → open_window (committed ws s) ≡ opened ∷ []
  own-committed ws =
      let found = stop_all-eq (other_windows opened ws) s in
      ap (λ q. open_window (start_if opened s.updated_at q)) found.1 ∙ starts-own found.0

  none_left :
      (ws : List OpenWindow) (rows : List ScheduleRecord)
      → All (IsListed ws) rows
      → HasNo s.window.id rows
      → open_windows (map (committed (other_windows opened ws)) rows) ≡ []
  unfolding open_windows
  none_left ws [] l n = refl
  none_left ws (r ∷ rs) l n = rw (keeps_shut ws r l.0 n.0) (none_left ws rs l.1 n.1)

  pub open-committed :
      (ws : List OpenWindow) (rows : List ScheduleRecord)
      → All (IsListed ws) rows
      → AreDistinct rows
      → Memᴰ s rows
      → open_windows (map (committed (other_windows opened ws)) rows) ≡ opened ∷ []
  unfolding open_windows
  open-committed ws [] l d m = elim m [ ]
  open-committed ws (r ∷ rs) l d (Memᴰ.head e) =
      let none_else : HasNo s.window.id rs = subst (λ q. HasNo q.window.id rs) (sym e) d.0 in
      rw (sym e)
        (rw (own-committed (other_windows opened ws)) (rw (none_left ws rs l.1 none_else) refl))
  open-committed ws (r ∷ rs) l d (Memᴰ.tail m) =
      let apart : (r.window.id == s.window.id) ≡ false =
        ground (arith, HasNo-Mem r.window.id s rs d.0 m) in
      rw (keeps_shut ws r l.0 apart) (open-committed ws rs l.1 d.1 m)

  starts-stop_all :
      (ws : List OpenWindow) (r : ScheduleRecord)
      → starts opened s.updated_at (stop_all ws r) ≡ starts opened s.updated_at r
  starts-stop_all ws r = ap (starts opened s.updated_at) (stop_all-eq ws r).1

  count-starts :
      (ws : List OpenWindow) (rows : List ScheduleRecord)
      → count (starts opened s.updated_at) (map (stop_all ws) rows)
        ≡ count (starts opened s.updated_at) rows
  count-starts ws [] = refl
  count-starts ws (r ∷ rs) = ground (arith, starts-stop_all ws r, count-starts ws rs)

  count-own :
      (rows : List ScheduleRecord)
      → AreDistinct rows
      → Memᴰ s rows
      → count (starts opened s.updated_at) rows ≡ 1
  count-own [] d m = elim m [ ]
  count-own (r ∷ rs) d (Memᴰ.head e) =
      let none_else : HasNo s.window.id rs = subst (λ q. HasNo q.window.id rs) (sym e) d.0 in
      let none_starts =
        count-HasNo s.window.id (starts opened s.updated_at) rs (λ q h. ground (arith, h))
          none_else in
      rw (sym e) (ground (arith, enabled, none_starts))
  count-own (r ∷ rs) d (Memᴰ.tail m) =
      ground (arith, HasNo-Mem r.window.id s rs d.0 m, count-own rs d.1 m)

  -- The transaction succeeds on the rows that it was made for.
  pub commit_started_window-eq :
      (previous : List OpenWindow) (rows : List ScheduleRecord)
      → All (IsNamed rows) previous
      → AreDistinct rows
      → Memᴰ s rows
      → commit_started_window opened s.updated_at previous rows
        ≡ some (map (committed previous) rows)
  unfolding commit_started_window
  commit_started_window-eq previous rows n d m =
      let ws = other_windows opened previous in
      let counts =
        All-imp (IsNamed rows) (λ w. count (matches w) rows ≡ 1) ws (λ w h. h.0)
          (All-keep_if _ _ previous n) in
      let one = count-starts ws rows ∙ count-own rows d m in
      rw (commit_started_window, mark_windows_stopped-eq ws rows counts)
        (update_one-eq (starts opened s.updated_at) (start_window w) (map (stop_all ws) rows) one
          ∙ ap some (map-map (stop_all ws) (start_if opened s.updated_at) rows))
