-- ===== src/Retry/Laws.antt =====
-- apps/server/src/steam/retry-policy.ts: which failures end the retries.
use steam_bee.Common.{◌≡◌, refl, ◌↔◌, true, false, Option, none, some, arith, if-intro}
use steam_bee.Common.Int.{ℤ, pos, negsuc}
use steam_bee.Retry.{
  RetryDecision, Thrown, authentication_results, rate_limited_results, session_conflict_results,
  has, extract_e_result, classify_code, classify_steam_failure,
}

-- No result of the sets has two meanings.
disjoint :
    (code : Option ℤ)
    → has authentication_results code ≡ true
    → has session_conflict_results code ≡ false
disjoint none e = refl
disjoint (some (pos n)) e = ground (arith, e)
disjoint (some (negsuc n)) e = refl

-- The program gives up after a failure exactly where the code that it reads of it is one of the
-- authentication results.
pub classify_steam_failure_iff :
    (value : Thrown)
    → ((classify_steam_failure value).terminal ≡ true)
      ↔ (has authentication_results (extract_e_result value) ≡ true)
unfolding classify_steam_failure classify_code
classify_steam_failure_iff value =
    let code = extract_e_result value in
    if-intro (λ (d : RetryDecision). (d.terminal ≡ true) ↔ (has authentication_results code ≡ true))
      (has session_conflict_results code)
      (λ e. (λ f. ground (arith, f), λ f. ground (arith, disjoint code f, e)))
      (λ e.
        if-intro
          (λ (d : RetryDecision). (d.terminal ≡ true) ↔ (has authentication_results code ≡ true))
          (has authentication_results code) (λ f. (λ h. f, λ h. refl))
          (λ f.
            if-intro
              (λ (d : RetryDecision).
                (d.terminal ≡ true) ↔ (has authentication_results code ≡ true))
              (has rate_limited_results code)
              (λ g. (λ h. ground (arith, h), λ h. ground (arith, f, h)))
              (λ g. (λ h. ground (arith, h), λ h. ground (arith, f, h)))))
