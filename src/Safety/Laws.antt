-- ===== src/Safety/Laws.antt =====
-- apps/server/src/steam/safety-coordinator.ts: when a limit holds an account, and what it does then.
use steam_bee.Common.{
  ℕ, ◌+◌, ◌*◌, ◌≤◌, ◌<◌, ◌≡◌, refl, ◌↔◌, ◌⊎◌, inl, inr, Bool-cases, true, ◌&&◌, Option, none, some,
  List, arith, ltb, if-intro, ap,
}
use steam_bee.Safety.{
  BoostSession, HoldReason, session_limit, daily_limit, weekly_limit, Policy, Cap, Context,
  continuous_session_ms, sum_overlap, start_of_day, start_of_week, cap_result, or_cap, is_none,
  exceeded_cap, is_playing, is_free, hold, enforce,
}

-- A time that is below a limit, if there is one.
pub IsBelow : Option ℕ → ℕ → Type 0
IsBelow none consumed = 0 ≤ consumed
IsBelow (some limit) consumed = consumed < limit * 60_000

pub record IsWithin (p : Policy) (sessions : List BoostSession) (now : ℕ) : Type 0 where
  pub session : IsBelow p.max_session_minutes (continuous_session_ms sessions now)
  pub daily : IsBelow p.max_daily_minutes (sum_overlap (start_of_day now) now sessions)
  pub weekly : IsBelow p.max_weekly_minutes (sum_overlap (start_of_week now) now sessions)

cap_result_iff :
    (reason : HoldReason) (consumed : ℕ) (limit : Option ℕ)
    → (cap_result reason consumed limit ≡ none) ↔ IsBelow limit consumed
unfolding cap_result IsBelow
cap_result_iff reason consumed none = (λ e. omega arith, λ l. refl)
cap_result_iff reason consumed (some limit) = (λ e. ground (arith, e), λ l. ground (arith, l))

or_cap-none : (a b : Option Cap) → or_cap a b ≡ none → (a ≡ none) × (b ≡ none)
or_cap-none none b e = (refl, e)
or_cap-none (some c) b e = ground (arith, e)

no_limit : (limit : Option ℕ) (consumed : ℕ) → is_none limit ≡ true → IsBelow limit consumed
unfolding IsBelow
no_limit none consumed e = omega arith
no_limit (some n) consumed e = ground (arith, e)

-- No limit is exceeded exactly when the session, the day and the week are each below the limit that is
-- set for them, if one is.
pub exceeded_cap_iff :
    (p : Policy) (sessions : List BoostSession) (now : ℕ)
    → (exceeded_cap p sessions now ≡ none) ↔ IsWithin p sessions now
unfolding exceeded_cap
exceeded_cap_iff p sessions now =
    if-intro (λ c. (c ≡ none) ↔ IsWithin p sessions now)
      (is_none p.max_session_minutes
        && (is_none p.max_daily_minutes && is_none p.max_weekly_minutes))
      (λ e. (
        λ f. record {
          session = no_limit _ _ (ground (arith, e));
          daily = no_limit _ _ (ground (arith, e));
          weekly = no_limit _ _ (ground (arith, e));
        },
        λ f. refl,
      ))
      (λ e. (
        λ f.
            let first = or_cap-none _ _ f in
            let second = or_cap-none _ _ first.1 in
            record {
              session = (cap_result_iff _ _ _).0 first.0;
              daily = (cap_result_iff _ _ _).0 second.0;
              weekly = (cap_result_iff _ _ _).0 second.1;
            },
        λ w.
            rw
              (
                (cap_result_iff session_limit _ _).1 w.session,
                (cap_result_iff daily_limit _ _).1 w.daily,
                (cap_result_iff weekly_limit _ _).1 w.weekly,
              )
              refl,
      ))

-- The limit that a reason stands for.
abbrev pub limit_set : HoldReason → Policy → Option ℕ
limit_set session_limit p = p.max_session_minutes
limit_set daily_limit p = p.max_daily_minutes
limit_set weekly_limit p = p.max_weekly_minutes

-- The time that it limits.
abbrev pub time_played : HoldReason → List BoostSession → ℕ → ℕ
time_played session_limit sessions now = continuous_session_ms sessions now
time_played daily_limit sessions now = sum_overlap (start_of_day now) now sessions
time_played weekly_limit sessions now = sum_overlap (start_of_week now) now sessions

-- The limits that are looked at before it are kept.
pub IsBefore : HoldReason → Policy → List BoostSession → ℕ → Type 0
IsBefore session_limit p sessions now = 0 ≤ now
IsBefore daily_limit p sessions now =
    IsBelow p.max_session_minutes (time_played session_limit sessions now)
IsBefore weekly_limit p sessions now =
    IsBelow p.max_session_minutes (time_played session_limit sessions now)
    × IsBelow p.max_daily_minutes (time_played daily_limit sessions now)

-- The first limit that the sessions reach.
pub record IsReached (p : Policy) (sessions : List BoostSession) (now : ℕ) (reason : HoldReason)
    (limit : ℕ) : Type 0 where
  pub set : limit_set reason p ≡ some limit
  pub over : limit * 60_000 ≤ time_played reason sessions now
  pub first : IsBefore reason p sessions now

-- The account is held for the first limit that it reached; the time is reported in minutes, rounded up.
pub record IsPaused (p : Policy) (sessions : List BoostSession) (now : ℕ) (q : Policy) (c : Context)
    : Type 0 where
  pub reached : IsReached p sessions now c.reason c.limit_minutes
  pub least : time_played c.reason sessions now ≤ c.consumed_minutes * 60_000
  pub most : c.consumed_minutes * 60_000 < time_played c.reason sessions now + 60_000
  pub held : q ≡ record p { hold_reason = some c.reason }

-- What a tick does: nothing to an account that does not play, is held already or keeps its limits; any
-- other is paused.
pub IsEnforced : Policy → List BoostSession → ℕ → Policy × Option Context → Type 0
IsEnforced p sessions now (q, none) =
    (q ≡ p) × (((is_playing p && is_free p.hold_reason) ≡ true) → IsWithin p sessions now)
IsEnforced p sessions now (q, some c) =
    ((is_playing p && is_free p.hold_reason) ≡ true) × IsPaused p sessions now q c

-- What is found of the limits.
IsFound : Policy → List BoostSession → ℕ → Option Cap → Type 0
IsFound p sessions now none = IsWithin p sessions now
IsFound p sessions now (some c) =
    IsReached p sessions now c.reason c.limit_minutes
    × (c.consumed_ms ≡ time_played c.reason sessions now)

-- A limit that is set and reached, or is kept.
cap_result-cases :
    (reason : HoldReason) (consumed : ℕ) (limit : Option ℕ)
    → ((cap_result reason consumed limit ≡ none) × IsBelow limit consumed)
      ⊎ ((n : ℕ) × (cap_result reason consumed limit
            ≡ some (record { reason = reason; consumed_ms = consumed; limit_minutes = n }))
          × (limit ≡ some n)
          × (n * 60_000 ≤ consumed))
unfolding cap_result IsBelow
cap_result-cases reason consumed none = inl (refl, omega arith)
cap_result-cases reason consumed (some n) = elim (Bool-cases (ltb consumed (n * 60_000))) [
  | inl e ↦ rw e (inl (refl, ground (arith, e)))
  | inr e ↦ rw e (inr (n, refl, refl, ground (arith, e)))
]

first_cap :
    (p : Policy) (sessions : List BoostSession) (now : ℕ)
    → IsFound p sessions now (
        or_cap
          (cap_result session_limit (continuous_session_ms sessions now) p.max_session_minutes)
          (or_cap
            (cap_result daily_limit
              (sum_overlap (start_of_day now) now sessions)
              p.max_daily_minutes)
            (cap_result weekly_limit
              (sum_overlap (start_of_week now) now sessions)
              p.max_weekly_minutes)))
unfolding IsFound IsBefore
first_cap p sessions now =
    elim (cap_result-cases session_limit (continuous_session_ms sessions now)
      p.max_session_minutes) [
        | inr (n, f, set, over) ↦
            rw f (record { set = set; over = over; first = omega arith }, refl)
        | inl (f, session) ↦
            rw f
              (elim (cap_result-cases daily_limit (sum_overlap (start_of_day now) now sessions)
                p.max_daily_minutes) [
                  | inr (n, g, set, over) ↦
                      rw g (record { set = set; over = over; first = session }, refl)
                  | inl (g, daily) ↦
                      rw g
                        (elim (cap_result-cases weekly_limit
                          (sum_overlap (start_of_week now) now sessions) p.max_weekly_minutes) [
                            | inr (n, h, set, over) ↦
                                rw h (
                                  record { set = set; over = over; first = (session, daily) },
                                  refl,
                                )
                            | inl (h, weekly) ↦
                                rw h (record { session = session; daily = daily; weekly = weekly })
                          ])
                ])
      ]

exceeded_cap-IsFound :
    (p : Policy) (sessions : List BoostSession) (now : ℕ)
    → IsFound p sessions now (exceeded_cap p sessions now)
unfolding exceeded_cap IsFound
exceeded_cap-IsFound p sessions now =
    if-intro (IsFound p sessions now)
      (is_none p.max_session_minutes
        && (is_none p.max_daily_minutes && is_none p.max_weekly_minutes))
      (λ e. record {
        session = no_limit _ _ (ground (arith, e));
        daily = no_limit _ _ (ground (arith, e));
        weekly = no_limit _ _ (ground (arith, e));
      })
      (λ e. first_cap p sessions now)

hold-IsEnforced :
    (found : Option Cap) (p : Policy) (sessions : List BoostSession) (now : ℕ)
    → (is_playing p && is_free p.hold_reason) ≡ true
    → IsFound p sessions now found
    → IsEnforced p sessions now (hold found p)
unfolding hold IsFound IsEnforced
hold-IsEnforced none p sessions now e v = (refl, λ f. v)
hold-IsEnforced (some c) p sessions now e (reached, same) = (
  e,
  record {
    reached = reached;
    least = omega (arith, same);
    most = omega (arith, same);
    held = refl;
  },
)

-- For any policy, sessions and time: an account that does not play or is held stays as it is, and so
-- does one that is below each limit that is set. Any other account is held, for the first of the limits
-- of the session, the day and the week that the time of its sessions reaches; the tick reports this limit
-- and that time, in minutes and rounded up; and nothing else of the policy changes.
pub enforce-IsEnforced :
    (p : Policy) (sessions : List BoostSession) (now : ℕ)
    → IsEnforced p sessions now (enforce p sessions now)
unfolding enforce IsEnforced
enforce-IsEnforced p sessions now =
    if-intro (IsEnforced p sessions now) (is_playing p && is_free p.hold_reason)
      (λ e.
        hold-IsEnforced (exceeded_cap p sessions now) p sessions now e
          (exceeded_cap-IsFound p sessions now))
      (λ e. (refl, λ f. ground (arith, e, f)))

paused-held :
    (p : Policy) (sessions : List BoostSession) (now : ℕ) (r : Policy × Option Context)
    → IsEnforced p sessions now r
    → (c : Context) → r.1 ≡ some c
    → r.0.hold_reason ≡ some c.reason
unfolding IsEnforced
paused-held p sessions now (q, none) v c e = ground (arith, e)
paused-held p sessions now (q, some d) v c e =
    ground (arith, e, ap (λ (x : Policy). x.hold_reason) v.1.held)

held_stays :
    (q : Policy) (reason : HoldReason) (sessions : List BoostSession) (now : ℕ)
    → q.hold_reason ≡ some reason
    → enforce q sessions now ≡ (q, none)
unfolding enforce
held_stays q reason sessions now h =
    if-intro (λ r. r ≡ (q, none)) (is_playing q && is_free q.hold_reason)
      (λ e. ground (arith, e, ap is_free h)) (λ e. refl)

-- An account that a limit has paused is not paused again by a later tick, whatever its sessions are,
-- and its policy stays as it is.
pub enforce-enforce :
    (p : Policy) (sessions later_sessions : List BoostSession) (now later : ℕ) (c : Context)
    → (enforce p sessions now).1 ≡ some c
    → enforce (enforce p sessions now).0 later_sessions later ≡ ((enforce p sessions now).0, none)
enforce-enforce p sessions later_sessions now later c e =
    held_stays (enforce p sessions now).0 c.reason later_sessions later
      (paused-held p sessions now (enforce p sessions now) (enforce-IsEnforced p sessions now) c e)
