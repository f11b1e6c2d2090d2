-- ===== src/Boosting/Rows.antt =====
-- apps/server/src/steam/boost-session-tracker.ts: what an update makes of the rows.
use steam_bee.Common.{
  ℕ, ◌≤◌, ◌≡◌, refl, true, false, not, some, List, [], ◌∷◌, arith, ◌==◌, if◌then◌else◌, length,
  keep_if, map, All, if-intro, max,
}
use steam_bee.Boosting.{Session, StopReason, is_open, is_open_row, end_row, interrupted, or_start}
use steam_bee.Boosting.Normal.{IsStrict}

-- The open sessions of an account.
abbrev pub open_count : ℕ → List Session → ℕ
open_count a ss = length (keep_if (is_open a) ss)

pub All-map {ℓ κ μ ν} :
    {A : Type ℓ} {B : Type κ} (P : A → Type μ) (Q : B → Type ν) (f : A → B) (xs : List A)
    → ((x : A) → P x → Q (f x))
    → All P xs
    → All Q (map f xs)
All-map P Q f [] h a = tt
All-map P Q f (x ∷ xs) h a = (h x a.0, All-map P Q f xs h a.1)

-- An update that opens no row leaves no more open.
pub open_count-map-le :
    (f : Session → Session) (a : ℕ) (ss : List Session)
    → ((s : Session) → is_open a (f s) ≡ true → is_open a s ≡ true)
    → open_count a (map f ss) ≤ open_count a ss
open_count-map-le f a [] h = omega arith
open_count-map-le f a (s ∷ ss) h = ground (arith, h s, open_count-map-le f a ss h)

-- An update that closes each open row leaves none.
pub open_count-map-zero :
    (f : Session → Session) (a : ℕ) (ss : List Session)
    → ((s : Session) → is_open a (f s) ≡ false)
    → open_count a (map f ss) ≡ 0
open_count-map-zero f a [] h = refl
open_count-map-zero f a (s ∷ ss) h = ground (arith, h s, open_count-map-zero f a ss h)

-- An update that leaves an account's rows as they are.
abbrev pub others_of : ℕ → List Session → List Session
others_of a = keep_if (λ s. not (s.account == a))

pub others-map :
    (f : Session → Session) (a : ℕ) (ss : List Session)
    → ((s : Session) → (s.account == a) ≡ false → f s ≡ s)
    → ((s : Session) → (f s).account ≡ s.account)
    → others_of a (map f ss) ≡ others_of a ss
others-map f a [] h k = refl
others-map f a (s ∷ ss) h k = ground (arith, h s, k s, others-map f a ss h k)

-- A row at a time: it has not started later nor ended before it started.
pub record IsRow (now : ℕ) (s : Session) : Type 0 where
  pub begun : s.started_at ≤ now
  pub ends : (e : ℕ) → s.ended_at ≡ some e → s.started_at ≤ e
  pub strict : IsStrict s.app_ids

pub end_row-IsRow :
    (reason : StopReason) (now later : ℕ) (a : ℕ) (s : Session)
    → now ≤ later
    → IsRow now s
    → IsRow later (if is_open a s then end_row reason later s else s)
end_row-IsRow reason now later a s l v =
    if-intro (IsRow later) (is_open a s)
      (λ e. record {
        begun = omega (arith, v.begun, l);
        ends = λ t h. ground (arith, v.begun, l, h);
        strict = v.strict;
      })
      (λ e. record { begun = omega (arith, v.begun, l); ends = v.ends; strict = v.strict })

pub seen-IsRow :
    (now later : ℕ) (s : Session)
    → now ≤ later
    → IsRow now s
    → IsRow later (if is_open_row s then record s { last_seen_at = some later } else s)
seen-IsRow now later s l v =
    if-intro (IsRow later) (is_open_row s)
      (λ e. record { begun = omega (arith, v.begun, l); ends = v.ends; strict = v.strict })
      (λ e. record { begun = omega (arith, v.begun, l); ends = v.ends; strict = v.strict })

pub cut-IsRow :
    (now : ℕ) (s : Session)
    → IsRow now s
    → IsRow now (
        if is_open_row s
        then end_row interrupted (max s.started_at (or_start s.last_seen_at s.started_at)) s
        else s)
cut-IsRow now s v =
    if-intro (IsRow now) (is_open_row s)
      (λ e. record { begun = v.begun; ends = λ t h. ground (arith, h); strict = v.strict }) (λ e. v)
