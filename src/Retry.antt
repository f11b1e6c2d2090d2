-- ===== src/Retry.antt =====
-- apps/server/src/steam/retry-policy.ts: what the program does after a failure of Steam. A value that is
-- thrown is a number, an object with its three fields that are read, or anything else.
mod Laws
mod Tests
use steam_bee.Common.{
  ℕ, ◌*◌, Bool, true, false, Option, none, some, List, [], ◌∷◌, leb, ◌==◌, if◌then◌else◌, any,
}
use steam_bee.Common.Int.{ℤ, pos, negsuc, Number, int, other}

pub data ErrorClass : Type 0 where
  no_error transient rate_limited authentication session_replaced terminal_error unknown :
      ErrorClass

pub data RecoveryAction : Type 0 where
  no_action wait retry reauthenticate attention : RecoveryAction

pub record RetryDecision : Type 0 where
  pub terminal : Bool
  pub error_class : ErrorClass
  pub error_code : Option ℤ
  pub recovery_action : RecoveryAction
  pub minimum_delay_ms : ℕ

pub data Thrown : Type 0 where
  number : Number → Thrown
  object : Option Number → Option Number → Option Number → Thrown
  anything : Thrown

abbrev pub authentication_results : List ℕ
authentication_results =
    5 ∷ 17 ∷ 18 ∷ 26 ∷ 27 ∷ 43 ∷ 51 ∷ 63 ∷ 65 ∷ 66 ∷ 71 ∷ 73 ∷ 74 ∷ 77 ∷ 80 ∷ 83 ∷ []

abbrev pub rate_limited_results : List ℕ
rate_limited_results = 25 ∷ 84 ∷ []

abbrev pub session_conflict_results : List ℕ
session_conflict_results = 6 ∷ 34 ∷ 50 ∷ []

abbrev pub session_conflict_retry_delay_ms : ℕ
session_conflict_retry_delay_ms = 5 * 60_000

abbrev pub session_conflict_cooldown_ms : ℕ
session_conflict_cooldown_ms = 60 * 60_000

unfoldable pub session_conflict_delay : ℕ → ℕ
session_conflict_delay attempt =
    if leb 3 attempt then session_conflict_cooldown_ms else session_conflict_retry_delay_ms

abbrev pub has : List ℕ → Option ℤ → Bool
has results none = false
has results (some (pos n)) = any (λ x. x == n) results
has results (some (negsuc n)) = false

-- `typeof candidate === "number" && Number.isInteger(candidate)`, else the next candidate.
abbrev pub or_next : Option Number → Option ℤ → Option ℤ
or_next none next = next
or_next (some (int z)) next = some z
or_next (some other) next = next

unfoldable pub extract_e_result : Thrown → Option ℤ
extract_e_result (number n) = or_next (some n) none
extract_e_result (object eresult result code) = or_next eresult (or_next result (or_next code none))
extract_e_result anything = none

abbrev pub class_of : Option ℤ → ErrorClass
class_of none = unknown
class_of (some z) = transient

abbrev pub decision : Bool → ErrorClass → Option ℤ → RecoveryAction → ℕ → RetryDecision
decision terminal error_class error_code recovery_action delay = record {
  terminal = terminal;
  error_class = error_class;
  error_code = error_code;
  recovery_action = recovery_action;
  minimum_delay_ms = delay;
}

unfoldable pub classify_code : Option ℤ → RetryDecision
classify_code code =
    if has session_conflict_results code
    then decision false session_replaced code retry session_conflict_retry_delay_ms
    else if has authentication_results code
    then decision true authentication code reauthenticate 0
    else if has rate_limited_results code
    then decision false rate_limited code wait (15 * 60_000)
    else decision false (class_of code) code retry 0

unfoldable pub classify_steam_failure : Thrown → RetryDecision
classify_steam_failure value = classify_code (extract_e_result value)
