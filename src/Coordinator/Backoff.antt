-- ===== src/Coordinator/Backoff.antt =====
-- apps/server/src/steam/schedule-coordinator.ts: how long the coordinator waits after a failure.
use Prim.Native.Nat.{Ordering}
use steam_bee.Common.{
  ◌∷◌, ℕ, ◌+◌, ◌-◌, ◌*◌, ◌^◌, ◌≤◌, ◌<◌, ◌≡◌, refl, sym, ◌∙◌, Bool, true, false, Option, none, some,
  List, [], arith, ◌⊎◌, inl, ◌&&◌, ◌||◌, not, inr, if-intro, Option-cases,
}
use native.Mathlib.Nat.{pow-le-pow_right}
use steam_bee.Schedule.{ScheduleRecord, WindowId, Parts}
use steam_bee.Coordinator.{
  has_open, is_none, is_empty, same_key, Action, apply_preset, resume_or_start, pause, is_window,
  other_windows, RetryKey, start_key, pause_key, Failed, Coordinator, Outside, OpenWindow,
  is_backing_off, record_failure, transition_delay, failures_after, transition_account,
  start_or_keep, start_account, stop_account, keep_window, winner_of, open_windows,
}

abbrev pub key_of : Option (ScheduleRecord × WindowId) → RetryKey
key_of none = pause_key
key_of (some (s, w)) = start_key s.window.id w

-- The port that an action calls throws.
abbrev pub throws : Outside → Action → Bool
throws o (apply_preset preset) = not o.applies
throws o resume_or_start = not o.resumes
throws o pause = not o.pauses

abbrev pub some_throws : Outside → List Action → Bool
some_throws o [] = false
some_throws o (a ∷ rest) = throws o a || some_throws o rest

-- A transition waits for this key for a minute at least.
pub IsWaiting : RetryKey → ℕ → Option Failed → Type 0
IsWaiting key now failed = (t : ℕ) → t < now + 60_000 → is_backing_off key t failed ≡ true

-- A failure that is kept is the old one, or is of this key and waits between a minute and an hour; where
-- an action throws, the coordinator waits for this key; after any other action it has no failure or waits
-- for it too, unless the preset held the account; and while it waits for this key, it does nothing.
pub record IsPatient (o : Outside) (key : RetryKey) (now : ℕ) (c : Coordinator)
    (r : Coordinator × List Action) : Type 0 where
  pub bounded :
      (f : Failed)
      → r.0.failed ≡ some f
      → (c.failed ≡ some f)
        ⊎ ((same_key f.key key ≡ true)
            × (now + 60_000 ≤ f.retry_at)
            × (f.retry_at ≤ now + 60 * 60_000))
  pub noted : some_throws o r.1 ≡ true → IsWaiting key now r.0.failed
  pub tried :
      is_empty r.1 ≡ false
      → o.held_after_preset ≡ false
      → (r.0.failed ≡ none) ⊎ IsWaiting key now r.0.failed
  pub quiet : is_backing_off key now c.failed ≡ true → r.1 ≡ []

transition_delay-bounds :
    (n : ℕ) → (60_000 ≤ transition_delay n) × (transition_delay n ≤ 60 * 60_000)
transition_delay-bounds n =
    let least : 2 ^ 0 ≤ 2 ^ (n - 1) =
      pow-le-pow_right {n = 2} (omega arith) {i = 0} {j = n - 1} (omega arith) in
    (omega (arith, least), omega arith)

same_key_refl : (key : RetryKey) → same_key key key ≡ true
same_key_refl (start_key i w) = ground arith
same_key_refl pause_key = refl

record_failure-bounded :
    (key : RetryKey) (now : ℕ) (c : Coordinator) (f : Failed)
    → (record_failure key now c).failed ≡ some f
    → (same_key f.key key ≡ true) × (now + 60_000 ≤ f.retry_at) × (f.retry_at ≤ now + 60 * 60_000)
unfolding record_failure
record_failure-bounded key now c f e =
    let b = transition_delay-bounds (failures_after key c.failed) in
    ground (arith, e, b, same_key_refl key)

record_failure-IsWaiting :
    (key : RetryKey) (now : ℕ) (c : Coordinator)
    → IsWaiting key now (record_failure key now c).failed
unfolding record_failure is_backing_off IsWaiting
record_failure-IsWaiting key now c t l =
    let b = transition_delay-bounds (failures_after key c.failed) in
    ground (arith, l, b, same_key_refl key)

still : (o : Outside) (key : RetryKey) (now : ℕ) (c : Coordinator) → IsPatient o key now c (c, [])
still o key now c = record {
  bounded = λ f h. inl h;
  noted = λ h. ground (arith, h);
  tried = λ h g. ground (arith, h);
  quiet = λ h. refl;
}

module _ (o : Outside) (now : ℕ) (c : Coordinator) where
  start_account-IsPatient :
      (s : ScheduleRecord) (w : WindowId) (previous : List OpenWindow)
      → is_backing_off (start_key s.window.id w) now c.failed ≡ false
      → IsPatient o (start_key s.window.id w) now c (start_account o now s w previous c)
  unfolding start_account
  start_account-IsPatient s w previous e =
      let waits =
        record_failure-IsWaiting (start_key s.window.id w) now
          (record c { rows = o.edit c.rows }) in
      record {
        bounded = λ f h. ground (
          arith,
          h,
          record_failure-bounded (start_key s.window.id w) now (record c { rows = o.edit c.rows })
              f,
        );
        noted = λ h. ground (arith, h, waits);
        tried = λ h g. ground (arith, h, g, waits);
        quiet = λ h. ground (arith, e, h);
      }

  stop_account-IsPatient : IsPatient o pause_key now c (stop_account o now c)
  unfolding stop_account
  stop_account-IsPatient =
      let waits = record_failure-IsWaiting pause_key now (record c { rows = o.edit c.rows }) in
      record {
        bounded = λ f h.
            ground (
              arith,
              h,
              record_failure-bounded pause_key now (record c { rows = o.edit c.rows }) f,
            );
        noted = λ h. ground (arith, h, waits);
        tried = λ h g. ground (arith, h, g, waits);
        quiet = λ h. ground (arith, h);
      }

  keep_window-failed :
      (s : ScheduleRecord) (w : WindowId) (previous : List OpenWindow)
      → (keep_window s w previous c).failed ≡ c.failed
  unfolding keep_window
  keep_window-failed s w previous = ground arith

  start_or_keep-IsPatient :
      (s : ScheduleRecord) (w : WindowId)
      → IsPatient o (start_key s.window.id w) now c (start_or_keep o now s w c)
  unfolding start_or_keep
  start_or_keep-IsPatient s w =
      let key = start_key s.window.id w in
      if-intro (IsPatient o key now c)
        (has_open w s && (is_none c.active_window || is_window w c.active_window))
        {x = (
          keep_window s w
              (other_windows (record { schedule_id = s.window.id; window_id = w })
                (open_windows c.rows))
              c,
          [],
        )}
        (λ e. record {
          bounded = λ f h. inl (sym (keep_window-failed s w _) ∙ h);
          noted = λ h. ground (arith, h);
          tried = λ h g. ground (arith, h);
          quiet = λ h. refl;
        })
        (λ e.
          if-intro (IsPatient o key now c) (is_backing_off key now c.failed)
            (λ g. still o key now c) (λ g. start_account-IsPatient s w _ g))

module _ (zoned : ℕ → Option (ℕ → Parts)) (is_skipped : WindowId → Bool)
    (compare_ids : ℕ → ℕ → Ordering) where
  -- A transition of an account leaves the last failure, or keeps one of the start or pause that it makes,
  -- which waits at least a minute and at most an hour. Where the preset, the resume or the pause throws,
  -- then for a minute at least the coordinator waits for this start or pause; after any other action it
  -- has no failure or waits so too, unless the account is held after the preset. And until the wait of the
  -- same start, or of the pause, is over, no transition applies a preset, resumes or pauses.
  pub transition_account-IsPatient :
      (o : Outside) (now : ℕ) (c : Coordinator)
      → IsPatient o
          (key_of (winner_of zoned is_skipped compare_ids now c.rows))
          now
          c
          (transition_account zoned is_skipped compare_ids o now c)
  unfolding transition_account
  transition_account-IsPatient o now c =
      let found = winner_of zoned is_skipped compare_ids now c.rows in
      if-intro (IsPatient o (key_of found) now c) o.held (λ e. still o (key_of found) now c)
        (λ e. elim (Option-cases found) [
          | inl n ↦ rw n (stop_account-IsPatient o now c)
          | inr (sw, f) ↦ rw f (start_or_keep-IsPatient o now c sw.0 sw.1)
        ])
