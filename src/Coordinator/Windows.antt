-- ===== src/Coordinator/Windows.antt =====
-- apps/server/src/steam/schedule-repository.ts: what the transactions leave of the open windows.
use steam_bee.Common.{
  ℕ, ◌≡◌, refl, ap, ◌∙◌, Bool, true, false, not, ◌||◌, some, List, [], ◌∷◌, ◌++◌, map, arith, ◌==◌,
  if◌then◌else◌, length, keep_if, All, any, if-intro, ◌⊎◌, inl, inr, Option-cases,
}
use steam_bee.Schedule.{ScheduleRecord, WindowId}
use steam_bee.Coordinator.{
  OpenWindow, is_window, same_window, matches, open_window, open_windows, update_one, stop_row,
  mark_windows_stopped, other_windows,
}

-- The number of the rows that a test takes.
abbrev pub count : (ScheduleRecord → Bool) → List ScheduleRecord → ℕ
count p rows = length (keep_if p rows)

abbrev stop_if : OpenWindow → ScheduleRecord → ScheduleRecord
stop_if w s = if matches w s then record s { last_stopped = some w.window_id } else s

-- A row after several of its windows were stopped.
unfoldable pub stop_all : List OpenWindow → ScheduleRecord → ScheduleRecord
stop_all [] s = s
stop_all (w ∷ ws) s = stop_all ws (stop_if w s)

pub map-map :
    (f g : ScheduleRecord → ScheduleRecord) (rows : List ScheduleRecord)
    → map g (map f rows) ≡ map (λ s. g (f s)) rows
map-map f g [] = refl
map-map f g (s ∷ ss) = ap (λ x. g (f s) ∷ x) (map-map f g ss)

matches-stop_if : (v w : OpenWindow) (s : ScheduleRecord) → matches v (stop_if w s) ≡ matches v s
matches-stop_if v w s =
    if-intro (λ r. matches v r ≡ matches v s) (matches w s) (λ e. refl) (λ e. refl)

count-stop :
    (v w : OpenWindow) (rows : List ScheduleRecord)
    → count (matches v) (map (stop_if w) rows) ≡ count (matches v) rows
count-stop v w [] = refl
count-stop v w (s ∷ ss) = ground (arith, matches-stop_if v w s, count-stop v w ss)

All-count-stop :
    (w : OpenWindow) (rows : List ScheduleRecord) (ws : List OpenWindow)
    → All (λ v. count (matches v) rows ≡ 1) ws
    → All (λ v. count (matches v) (map (stop_if w) rows) ≡ 1) ws
All-count-stop w rows [] a = tt
All-count-stop w rows (v ∷ vs) a = (count-stop v w rows ∙ a.0, All-count-stop w rows vs a.1)

pub update_one-eq :
    (p : ScheduleRecord → Bool) (f : ScheduleRecord → ScheduleRecord) (rows : List ScheduleRecord)
    → count p rows ≡ 1
    → update_one p f rows ≡ some (map (λ s. if p s then f s else s) rows)
unfolding update_one
update_one-eq p f rows e = ground (arith, e)

map-stop_all : (rows : List ScheduleRecord) → rows ≡ map (stop_all []) rows
unfolding stop_all
map-stop_all [] = refl
map-stop_all (s ∷ ss) = ap (λ x. s ∷ x) (map-stop_all ss)

-- Windows that name one row each are stopped.
pub mark_windows_stopped-eq :
    (ws : List OpenWindow) (rows : List ScheduleRecord)
    → All (λ w. count (matches w) rows ≡ 1) ws
    → mark_windows_stopped ws rows ≡ some (map (stop_all ws) rows)
unfolding mark_windows_stopped stop_all stop_row
mark_windows_stopped-eq [] rows a = ap some (map-stop_all rows)
mark_windows_stopped-eq (w ∷ ws) rows a =
    rw (mark_windows_stopped, stop_row, update_one-eq (matches w) _ rows a.0)
      (mark_windows_stopped-eq ws _ (All-count-stop w rows ws a.1)
        ∙ ap some (map-map (stop_if w) (stop_all ws) rows))

-- The identifiers of an account's schedules are distinct.
abbrev pub HasNo : ℕ → List ScheduleRecord → Type 0
HasNo id = All (λ s. (s.window.id == id) ≡ false)

abbrev pub AreDistinct : List ScheduleRecord → Type 0
AreDistinct [] = Unit
AreDistinct (s ∷ ss) = HasNo s.window.id ss × AreDistinct ss

pub count-HasNo :
    (id : ℕ) (p : ScheduleRecord → Bool) (rows : List ScheduleRecord)
    → ((s : ScheduleRecord) → p s ≡ true → (s.window.id == id) ≡ true)
    → HasNo id rows
    → count p rows ≡ 0
count-HasNo id p [] h a = refl
count-HasNo id p (s ∷ ss) h a = ground (arith, h s, a.0, count-HasNo id p ss h a.1)

pub same_window_refl : (w : WindowId) → same_window w w ≡ true
same_window_refl w = ground arith

-- The open windows of rows with distinct identifiers name one row each, and none that is not theirs.
abbrev pub IsNamed : List ScheduleRecord → OpenWindow → Type 0
IsNamed rows w =
    (count (matches w) rows ≡ 1) × ((id : ℕ) → HasNo id rows → (w.schedule_id == id) ≡ false)

open_window-All :
    (P : OpenWindow → Type 0) (s : ScheduleRecord)
    → ((w : WindowId)
        → s.last_started ≡ some w
        → P (record { schedule_id = s.window.id; window_id = w }))
    → All P (open_window s)
unfolding open_window
open_window-All P s h = elim (Option-cases s.last_started) [
  | inl n ↦ rw (open_window, n) tt
  | inr (w, f) ↦
      rw (open_window, f)
        (if-intro (All P) (is_window w s.last_stopped) (λ e. tt) (λ e. (h w f, tt)))
]

All-append {ℓ κ} :
    {A : Type ℓ} (P : A → Type κ) (xs ys : List A) → All P xs → All P ys → All P (xs ++ ys)
All-append P [] ys a b = b
All-append P (x ∷ xs) ys a b = (a.0, All-append P xs ys a.1 b)

pub All-imp {ℓ κ} :
    {A : Type ℓ} (P Q : A → Type κ) (xs : List A) → ((x : A) → P x → Q x) → All P xs → All Q xs
All-imp P Q [] h a = tt
All-imp P Q (x ∷ xs) h a = (h x a.0, All-imp P Q xs h a.1)

own-IsNamed :
    (s : ScheduleRecord) (ss : List ScheduleRecord)
    → HasNo s.window.id ss
    → All (IsNamed (s ∷ ss)) (open_window s)
own-IsNamed s ss a = open_window-All (IsNamed (s ∷ ss)) s (λ w e.
    let opened : OpenWindow = record { schedule_id = s.window.id; window_id = w } in
    let none_else = count-HasNo s.window.id (matches opened) ss (λ r h. ground (arith, h)) a in
    (ground (arith, e, same_window_refl w, none_else), λ id h. h.0))

pub open_windows-IsNamed :
    (rows : List ScheduleRecord) → AreDistinct rows → All (IsNamed rows) (open_windows rows)
unfolding open_windows
open_windows-IsNamed [] d = tt
open_windows-IsNamed (s ∷ ss) d =
    All-append _ (open_window s) (open_windows ss) (own-IsNamed s ss d.0) (
      All-imp (IsNamed ss) (IsNamed (s ∷ ss)) (open_windows ss)
        (λ w n. (ground (arith, n.0, n.1 s.window.id d.0), λ id h. n.1 id h.1))
        (open_windows-IsNamed ss d.1))

stopped-closed :
    (w : OpenWindow) (s : ScheduleRecord)
    → matches w s ≡ true
    → open_window (record s { last_stopped = some w.window_id }) ≡ []
unfolding open_window
stopped-closed w s e = ground (arith, e)

any-keep_if {ℓ} :
    {A : Type ℓ} (p q : A → Bool) (xs : List A)
    → ((x : A) → p x ≡ true → q x ≡ true)
    → any p xs ≡ true
    → any p (keep_if q xs) ≡ true
any-keep_if p q [] h e = e
any-keep_if p q (x ∷ xs) h e = ground (arith, h x, e, any-keep_if p q xs h)

any-append {ℓ} :
    {A : Type ℓ} (p : A → Bool) (xs ys : List A)
    → (any p xs ≡ true) ⊎ (any p ys ≡ true)
    → any p (xs ++ ys) ≡ true
any-append p [] ys h = ground (arith, h)
any-append p (x ∷ xs) ys h = ground (arith, h, any-append p xs ys)

survives :
    (opened w : OpenWindow) (s : ScheduleRecord)
    → matches opened s ≡ false
    → matches w s ≡ true
    → (not (w.schedule_id == opened.schedule_id) || not (same_window w.window_id opened.window_id))
      ≡ true
survives opened w s n e = ground (arith, n, e)

-- A row is closed, or its window is among these.
abbrev pub IsListed : List OpenWindow → ScheduleRecord → Type 0
IsListed ws s = (open_window s ≡ []) ⊎ (any (λ w. matches w s) ws ≡ true)

pub stop_all-closed :
    (ws : List OpenWindow) (s : ScheduleRecord) → IsListed ws s → open_window (stop_all ws s) ≡ []
unfolding stop_all
stop_all-closed [] s h = ground (arith, h)
stop_all-closed (w ∷ ws) s h = stop_all-closed ws (stop_if w s) (
    if-intro (λ r. IsListed ws r) (matches w s) (λ e. inl (stopped-closed w s e))
      (λ e. ground (arith, e, h)))

own-IsListed : (s : ScheduleRecord) → IsListed (open_window s) s
unfolding open_window
own-IsListed s = elim (Option-cases s.last_started) [
  | inl n ↦ inl (rw n refl)
  | inr (w, f) ↦ ground (arith, f, same_window_refl w)
]

append-IsListed :
    (vs ws : List OpenWindow) (s : ScheduleRecord)
    → (open_window s ≡ [])
      ⊎ ((any (λ w. matches w s) vs ≡ true) ⊎ (any (λ w. matches w s) ws ≡ true))
    → IsListed (vs ++ ws) s
append-IsListed vs ws s (inl o) = inl o
append-IsListed vs ws s (inr m) = inr (any-append (λ w. matches w s) vs ws m)

-- Each row is closed or has its window among the open ones.
pub listed : (ss : List ScheduleRecord) → All (IsListed (open_windows ss)) ss
unfolding open_windows
listed [] = tt
listed (s ∷ ss) = (
  append-IsListed (open_window s) (open_windows ss) s
      (elim (own-IsListed s) [ inl o ↦ inl o | inr m ↦ inr (inl m) ]),
  All-imp _ _ ss
      (λ r l.
        append-IsListed (open_window s) (open_windows ss) r
          (elim l [ inl o ↦ inl o | inr m ↦ inr (inr m) ]))
      (listed ss),
)

pub still-IsListed :
    (opened : OpenWindow) (ws : List OpenWindow) (s : ScheduleRecord)
    → matches opened s ≡ false
    → IsListed ws s
    → IsListed (other_windows opened ws) s
still-IsListed opened ws s n (inl o) = inl o
still-IsListed opened ws s n (inr m) =
    inr (any-keep_if (λ w. matches w s) _ ws (λ w e. survives opened w s n e) m)
