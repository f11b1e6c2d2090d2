-- ===== src/Safety/Chain.antt =====
-- apps/server/src/steam/safety-coordinator.ts: how far back `continuousSessionMs` goes.
use steam_bee.Common.{
  ℕ, ◌≤◌, ◌-◌, ◌≡◌, refl, Bool, true, false, not, Option, none, some, List, [], ◌∷◌, arith, ltb,
  inl, inr, ◌⊎◌, if-intro, keep_if, All,
}
use steam_bee.Safety.{
  BoostSession, continues, place_session, sort_sessions, go_back, previous, is_open, earliest,
  continuous_session_ms, session_ms,
}

-- Each session starts no earlier than the ones after it.
IsSorted : List BoostSession → Type 0
IsSorted [] = 0 ≤ 0
IsSorted (x ∷ xs) = All (λ y. y.started_at ≤ x.started_at) xs × IsSorted xs

All-place {κ} :
    (P : BoostSession → Type κ) (x : BoostSession) (ys : List BoostSession)
    → P x
    → All P ys
    → All P (place_session x ys)
unfolding place_session
All-place P x [] p ps = (p, tt)
All-place P x (y ∷ ys) p ps =
    if-intro (All P) (ltb x.started_at y.started_at) (λ e. (ps.0, All-place P x ys p ps.1))
      (λ e. (p, ps))

All-sort {κ} :
    (P : BoostSession → Type κ) (xs : List BoostSession) → All P xs → All P (sort_sessions xs)
unfolding sort_sessions
All-sort P [] ps = tt
All-sort P (x ∷ xs) ps = All-place P x (sort_sessions xs) ps.0 (All-sort P xs ps.1)

place-All {κ} :
    (P : BoostSession → Type κ) (x : BoostSession) (ys : List BoostSession)
    → All P (place_session x ys)
    → P x × All P ys
unfolding place_session
place-All P x [] = λ ps. ps
place-All P x (y ∷ ys) =
    if-intro (λ zs. All P zs → P x × (P y × All P ys)) (ltb x.started_at y.started_at)
      (λ e ps. let rest = place-All P x ys ps.1 in (rest.0, (ps.0, rest.1))) (λ e ps. ps)

sort-All {κ} :
    (P : BoostSession → Type κ) (xs : List BoostSession) → All P (sort_sessions xs) → All P xs
unfolding sort_sessions
sort-All P [] ps = tt
sort-All P (x ∷ xs) ps =
    let both = place-All P x (sort_sessions xs) ps in (both.0, sort-All P xs both.1)

All-earlier :
    (a b : ℕ) (xs : List BoostSession)
    → a ≤ b
    → All (λ y. y.started_at ≤ a) xs
    → All (λ y. y.started_at ≤ b) xs
All-earlier a b [] l ps = tt
All-earlier a b (x ∷ xs) l ps = (omega (arith, l, ps.0), All-earlier a b xs l ps.1)

place-IsSorted :
    (x : BoostSession) (ys : List BoostSession) → IsSorted ys → IsSorted (place_session x ys)
unfolding place_session IsSorted
place-IsSorted x [] s = (tt, omega arith)
place-IsSorted x (y ∷ ys) s =
    if-intro IsSorted (ltb x.started_at y.started_at)
      (λ e. (All-place _ x ys (ground (arith, e)) s.0, place-IsSorted x ys s.1))
      (λ e.
        let l : y.started_at ≤ x.started_at = ground (arith, e) in
        ((l, All-earlier y.started_at x.started_at ys l s.0), s))

sort-IsSorted : (xs : List BoostSession) → IsSorted (sort_sessions xs)
unfolding sort_sessions IsSorted
sort-IsSorted [] = omega arith
sort-IsSorted (x ∷ xs) = place-IsSorted x (sort_sessions xs) (sort-IsSorted xs)

go_back-le : (start : ℕ) (xs : List BoostSession) → go_back start xs ≤ start
unfolding go_back
go_back-le start [] = omega arith
go_back-le start (x ∷ xs) =
    if-intro (λ t. t ≤ start) (continues start x)
      (λ e. ground (arith, e, go_back-le x.started_at xs)) (λ e. go_back-le start xs)

-- The start that is reached: from a session in the list that starts there, or the first one.
go_back-IsStart :
    (start : ℕ) (xs : List BoostSession) (bound : ℕ)
    → All (λ y. y.started_at ≤ bound) xs
    → (go_back start xs ≡ start) ⊎ (go_back start xs ≤ bound)
unfolding go_back
go_back-IsStart start [] bound ps = inl refl
go_back-IsStart start (x ∷ xs) bound ps =
    if-intro (λ t. (t ≡ start) ⊎ (t ≤ bound)) (continues start x)
      (λ e. inr (omega (arith, ps.0, go_back-le x.started_at xs)))
      (λ e. go_back-IsStart start xs bound ps.1)

-- In a sorted list no session goes on at the start that is reached.
go_back-IsMaximal :
    (start : ℕ) (xs : List BoostSession)
    → IsSorted xs
    → All (λ y. continues (go_back start xs) y ≡ false) xs
unfolding go_back IsSorted
go_back-IsMaximal start [] s = tt
go_back-IsMaximal start (x ∷ xs) s =
    if-intro (λ t. All (λ y. continues t y ≡ false) (x ∷ xs)) (continues start x)
      (λ e. (ground (arith, go_back-le x.started_at xs), go_back-IsMaximal x.started_at xs s.1))
      (λ e. (
        ground (arith, e, go_back-IsStart start xs x.started_at s.0),
        go_back-IsMaximal start xs s.1,
      ))

-- Starts that are joined by sessions with a property, each of which ended for another selection at the
-- start of the next.
pub data Chain (P : BoostSession → Type 0) : ℕ → ℕ → Type 0 where
  here : (start : ℕ) → Chain P start start
  back :
      {start far : ℕ} (s : BoostSession)
      → P s
      → continues start s ≡ true
      → Chain P s.started_at far
      → Chain P start far

go_back-Chain :
    (P : BoostSession → Type 0) (start : ℕ) (xs : List BoostSession)
    → All P xs
    → Chain P start (go_back start xs)
unfolding go_back
go_back-Chain P start [] ps = here start
go_back-Chain P start (x ∷ xs) ps =
    if-intro (Chain P start) (continues start x)
      (λ e. back x ps.0 e (go_back-Chain P x.started_at xs ps.1))
      (λ e. go_back-Chain P start xs ps.1)

All-keep {κ} :
    (P : BoostSession → Type κ) (p : BoostSession → Bool) (xs : List BoostSession)
    → All P xs
    → All P (keep_if p xs)
All-keep P p [] ps = tt
All-keep P p (x ∷ xs) ps =
    if-intro (All P) (p x) (λ e. (ps.0, All-keep P p xs ps.1)) (λ e. All-keep P p xs ps.1)

-- An open session does not go on anywhere.
closed-All :
    (start : ℕ) (xs : List BoostSession)
    → All (λ y. continues start y ≡ false) (keep_if (λ s. not (is_open s)) xs)
    → All (λ y. continues start y ≡ false) xs
closed-All start [] = λ ps. tt
closed-All start (x ∷ xs) =
    if-intro
      (λ zs.
        All (λ y. continues start y ≡ false) zs → All (λ y. continues start y ≡ false) (x ∷ xs))
      (not (is_open x)) (λ e ps. (ps.0, closed-All start xs ps.1))
      (λ e ps. (open_stays x.ended_at refl e, closed-All start xs ps))
  where
    open_stays :
        (ended : Option ℕ)
        → x.ended_at ≡ ended
        → not (is_open x) ≡ false
        → continues start x ≡ false
    open_stays none f e = rw f (ground arith)
    open_stays (some t) f e = ground (arith, e, f)

-- How long an account has played without a break: nothing without an open session; else the time since
-- a start that rotations join to the earliest open one, and that no session of the account goes on at,
-- so that it is the furthest.
pub IsContinuous : (BoostSession → Type 0) → List BoostSession → ℕ → ℕ → Type 0
IsContinuous P sessions now ms =
    ((keep_if is_open sessions ≡ []) × (ms ≡ 0))
    ⊎ ((s : BoostSession) × (others : List BoostSession) × (start : ℕ) × (keep_if is_open sessions
          ≡ s ∷ others)
        × (ms ≡ now - start)
        × Chain P (earliest s.started_at others) start
        × All (λ y. continues start y ≡ false) sessions)

-- The time that `continuousSessionMs` gives is that since the start that is reached from the earliest
-- open session through sessions of the account (all that hold `P`) that ended for another selection
-- exactly where the next one starts; that start is the furthest. It is 0 when no session is open.
pub continuous_session_ms-IsContinuous :
    (P : BoostSession → Type 0) (sessions : List BoostSession) (now : ℕ)
    → All P sessions
    → IsContinuous P sessions now (continuous_session_ms sessions now)
unfolding continuous_session_ms session_ms IsContinuous
continuous_session_ms-IsContinuous P sessions now ps = go (keep_if is_open sessions) refl
  where
    go :
        (open_sessions : List BoostSession)
        → keep_if is_open sessions ≡ open_sessions
        → IsContinuous P sessions now (session_ms now open_sessions sessions)
    go [] e = inl (e, refl)
    go (s ∷ others) e = inr (
      s,
      others,
      go_back (earliest s.started_at others) (previous sessions),
      e,
      refl,
      go_back-Chain P _ (previous sessions) (All-sort P _ (All-keep P _ sessions ps)),
      closed-All _ sessions
          (sort-All _ _ (go_back-IsMaximal _ (previous sessions) (sort-IsSorted _))),
    )
