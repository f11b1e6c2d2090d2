-- ===== src/Boosting/Tracked.antt =====
-- apps/server/src/steam/boost-session-tracker.ts: what the tracker keeps of each account.
use steam_bee.Common.{
  ℕ, ◌≤◌, ◌≡◌, true, false, not, ◌&&◌, Option, some, List, [], ◌∷◌, arith, if◌then◌else◌, keep_if,
  All, if-intro, Option-cases, inl, inr, max,
}
use steam_bee.Common.Maps.{lookup}
use steam_bee.Worker.{Status, is_boosting}
use steam_bee.Boosting.{
  Session, StopReason, Tables, Activity, Outside, Operation, track, seen, restarted, is_open,
  is_open_row, end_row, end_boost_session, mark_seen, close_interrupted, is_idle, is_farming,
  is_unchanged, played_app_ids, open_session, start_boost_session, track_boost_session, operate,
  operate_all, selection_changed, interrupted, or_start,
}
use steam_bee.Boosting.Normal.{IsStrict, normalize_app_ids-IsStrict}
use steam_bee.Boosting.Rows.{
  open_count, All-map, open_count-map-le, open_count-map-zero, IsRow, end_row-IsRow, seen-IsRow,
  cut-IsRow,
}

-- The rows at a time: an account has at most one open session.
record IsTrackedAt (now : ℕ) (ss : List Session) : Type 0 where
  one_open : (a : ℕ) → open_count a ss ≤ 1
  rows : All (IsRow now) ss

IsRow-later :
    (now later : ℕ) (ss : List Session) → now ≤ later → All (IsRow now) ss → All (IsRow later) ss
IsRow-later now later [] l a = tt
IsRow-later now later (s ∷ ss) l a = (
  record { begun = omega (arith, l, a.0.begun); ends = a.0.ends; strict = a.0.strict },
  IsRow-later now later ss l a.1,
)

-- What the three updates make of a row.
abbrev pub ended : StopReason → ℕ → ℕ → Session → Session
ended reason at a s = if is_open a s then end_row reason at s else s

abbrev marked : ℕ → Session → Session
marked now s = if is_open_row s then record s { last_seen_at = some now } else s

abbrev closed_row : Session → Session
closed_row s =
    if is_open_row s
    then end_row interrupted (max s.started_at (or_start s.last_seen_at s.started_at)) s
    else s

ended-is_open :
    (reason : StopReason) (at a b : ℕ) (s : Session)
    → is_open b (ended reason at a s) ≡ true
    → is_open b s ≡ true
ended-is_open reason at a b s e = ground (arith, e)

pub ended-closed :
    (reason : StopReason) (at a : ℕ) (s : Session) → is_open a (ended reason at a s) ≡ false
ended-closed reason at a s = ground arith

module _ (a now last : ℕ) (ss : List Session) (l : last ≤ now) (v : IsTrackedAt last ss) where
  end_boost_session-IsTracked :
      (reason : StopReason) → IsTrackedAt now (end_boost_session a reason now ss)
  unfolding end_boost_session
  end_boost_session-IsTracked reason = record {
    one_open = λ b. omega (
      arith,
      v.one_open b,
      open_count-map-le (ended reason now a) b ss (ended-is_open reason now a b),
    );
    rows =
        All-map (IsRow last) (IsRow now) (ended reason now a) ss
          (λ s r. end_row-IsRow reason last now a s l r) v.rows;
  }

  open_session-IsTracked :
      (preset : Option ℕ) (app_ids : List ℕ)
      → IsStrict app_ids
      → IsTrackedAt now (open_session a now preset app_ids ss)
  unfolding open_session end_boost_session
  open_session-IsTracked preset app_ids strict =
      if-intro (IsTrackedAt now) (is_unchanged preset app_ids (keep_if (is_open a) ss))
        (λ e. record { one_open = v.one_open; rows = IsRow-later last now ss l v.rows })
        (λ e.
          let rest = end_boost_session-IsTracked selection_changed in
          let closed =
            open_count-map-zero (ended selection_changed now a) a ss
              (ended-closed selection_changed now a) in
          record {
            one_open = λ b. ground (arith, rest.one_open b, closed);
            rows = (record { begun = omega arith; ends = λ t h. cc; strict = strict }, rest.rows);
          })

played_app_ids-IsStrict : (o : Outside) (x : Activity) → IsStrict (played_app_ids o x)
unfolding played_app_ids
played_app_ids-IsStrict o x = elim (Option-cases x.active_app_ids) [
  | inl n ↦ rw n (
      if-intro IsStrict (is_farming x.mode) (λ e. tt)
        (λ e. normalize_app_ids-IsStrict o.enabled_games))
  | inr (app_ids, f) ↦ rw f (normalize_app_ids-IsStrict app_ids)
]

module _ (o : Outside) (a last : ℕ) (t : Tables) (l : last ≤ o.now)
    (v : IsTrackedAt last t.sessions) where
  start_boost_session-IsTracked :
      (x : Activity) → IsTrackedAt o.now (start_boost_session o a x t).sessions
  unfolding start_boost_session
  start_boost_session-IsTracked x = elim (Option-cases (lookup a t.accounts)) [
    | inl n ↦
        rw (start_boost_session, n)
          (record { one_open = v.one_open; rows = IsRow-later last o.now t.sessions l v.rows })
    | inr (active, f) ↦
        rw (start_boost_session, f)
          (open_session-IsTracked a o.now last t.sessions l v _ (played_app_ids o x)
            (played_app_ids-IsStrict o x))
  ]

  track_boost_session-IsTracked :
      (status : Status) (x : Activity)
      → IsTrackedAt o.now (track_boost_session o a status x t).sessions
  unfolding track_boost_session
  track_boost_session-IsTracked status x =
      if-intro (λ (r : Tables). IsTrackedAt o.now r.sessions)
        (is_boosting status && not (is_idle x.mode)) (λ e. start_boost_session-IsTracked x)
        (λ e. end_boost_session-IsTracked a o.now last t.sessions l v _)

-- The clock does not go back from one operation to the next.
abbrev pub IsClocked : ℕ → List Operation → Type 0
IsClocked last [] = Unit
IsClocked last (track o a status x ∷ ops) = (last ≤ o.now) × IsClocked o.now ops
IsClocked last (seen now ∷ ops) = (last ≤ now) × IsClocked now ops
IsClocked last (restarted ∷ ops) = IsClocked last ops

-- An account has at most one open session, no session ended before it started, and the games of each are
-- in order without a repetition.
pub record IsTracked (ss : List Session) : Type 0 where
  pub one_open : (a : ℕ) → open_count a ss ≤ 1
  pub ends : All (λ s. (e : ℕ) → s.ended_at ≡ some e → s.started_at ≤ e) ss
  pub strict : All (λ s. IsStrict s.app_ids) ss

All-imp :
    (P Q : Session → Type 0) (ss : List Session) → ((s : Session) → P s → Q s) → All P ss → All Q ss
All-imp P Q [] h a = tt
All-imp P Q (s ∷ ss) h a = (h s a.0, All-imp P Q ss h a.1)

operate_from-IsTracked :
    (ops : List Operation) (last : ℕ) (t : Tables)
    → IsClocked last ops
    → IsTrackedAt last t.sessions
    → IsTracked (operate_all ops t).sessions
unfolding operate_all operate mark_seen close_interrupted
operate_from-IsTracked [] last t c v = record {
  one_open = v.one_open;
  ends = All-imp (IsRow last) _ t.sessions (λ s r. r.ends) v.rows;
  strict = All-imp (IsRow last) _ t.sessions (λ s r. r.strict) v.rows;
}
operate_from-IsTracked (track o a status x ∷ ops) last t c v =
    operate_from-IsTracked ops o.now _ c.1 (track_boost_session-IsTracked o a last t c.0 v status x)
operate_from-IsTracked (seen now ∷ ops) last t c v = operate_from-IsTracked ops now _ c.1 (record {
  one_open = λ b.
      omega (
        arith,
        v.one_open b,
        open_count-map-le (marked now) b t.sessions (λ s e. ground (arith, e)),
      );
  rows =
      All-map (IsRow last) (IsRow now) (marked now) t.sessions (λ s r. seen-IsRow last now s c.0 r)
        v.rows;
})
operate_from-IsTracked (restarted ∷ ops) last t c v = operate_from-IsTracked ops last _ c (record {
  one_open = λ b.
      omega
        (arith, v.one_open b, open_count-map-le closed_row b t.sessions (λ s e. ground (arith, e)));
  rows = All-map (IsRow last) (IsRow last) closed_row t.sessions (λ s r. cut-IsRow last s r) v.rows;
})

-- After any operations on an empty table whose clock does not go back, restarts of the server among
-- them, an account has at most one open session, no session ended before it started, and the games of
-- each session are in order without a repetition.
pub operate_all-IsTracked :
    (ops : List Operation) (accounts : List (ℕ × Option ℕ))
    → IsClocked 0 ops
    → IsTracked (operate_all ops (record { sessions = []; accounts = accounts })).sessions
operate_all-IsTracked ops accounts c =
    operate_from-IsTracked ops 0 _ c (record { one_open = λ b. omega arith; rows = tt })
