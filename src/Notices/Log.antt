-- ===== src/Notices/Log.antt =====
-- apps/server/src/notifications/dispatcher.ts: what is noted of the requests to webhooks.
use steam_bee.Common.{
  ◌∷◌, suc, false, Option, true, not, Bool, ◌==◌, ◌&&◌, ℕ, [], List, none, some, if◌then◌else◌,
}
use steam_bee.Notices.{Delivery}

-- What is noted of a request: it succeeded, or it threw; and what came of it was lost.
pub data Mark : Type 0 where
  succeeded threw lost : Mark

abbrev pub Entry : Type 0
Entry = ℕ × Mark

-- What is noted of the request in flight once it has returned or thrown.
abbrev pub mark_of : Bool → Mark
mark_of ok = if ok then succeeded else threw

abbrev pub noted : Option (ℕ × Delivery) → Option Bool → List Entry
noted none arrived = []
noted (some (id, s)) none = []
noted (some (id, s)) (some ok) = (id, mark_of ok) ∷ []

abbrev pub is_try : Mark → Bool
is_try mark = elim mark [ lost ↦ false | _ ↦ true ]

-- How often a request for the delivery has returned or thrown.
abbrev pub tries : ℕ → List Entry → ℕ
tries id [] = 0
tries id ((j, mark) ∷ entries) =
    let rest = tries id entries in if (j == id) && is_try mark then suc rest else rest

abbrev pub losses : ℕ → List Entry → ℕ
losses id [] = 0
losses id ((j, mark) ∷ entries) =
    let rest = losses id entries in if (j == id) && not (is_try mark) then suc rest else rest

abbrev pub is_accepted : Mark → Bool → Bool
is_accepted succeeded before = true
is_accepted threw before = before
is_accepted lost before = false

-- Whether a request for the delivery has succeeded since the last loss.
abbrev pub was_accepted : ℕ → List Entry → Bool
was_accepted id [] = false
was_accepted id ((j, mark) ∷ entries) =
    let rest = was_accepted id entries in if j == id then is_accepted mark rest else rest
