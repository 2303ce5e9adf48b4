-- ===== src/CircuitBreaker/Forget.antt =====
-- What a report of one service does to another one
-- (src/traffic/circuitbreaker/default.rs, src/core/flow.rs).
use mathlib.Core.Logic.{ite, if_neg}
use pole_client_rust.Common.{ℕ, ◌≡◌, ◌≢◌, refl, sym, ◌∙◌, true, Option, none, some, List, []}
use pole_client_rust.Core.Error.{ok}
use pole_client_rust.Core.Naming.{ServiceKey}
use pole_client_rust.CircuitBreaker.Rule.{CircuitBreakerRule, rules_discrete}
use pole_client_rust.CircuitBreaker.State.{RetStatus}
use pole_client_rust.CircuitBreaker.Resource.{Resource, circuit_breaker_rule_service_key}
use pole_client_rust.CircuitBreaker.Breaker.{
  Breaker, update_rules, closed_status, check_resource, report_stat,
}
use pole_client_rust.CircuitBreaker.Verdict.{check_resource-update_rules}
use pole_client_rust.CircuitBreaker.Flow.{CheckResult, Fetch, api_check_resource, api_report_stat}

abbrev pub passed : CheckResult
passed = record { pass = true; rule_name = "" }

rules-report_stat :
    (now : ℕ) (r : Resource) (ret : RetStatus) (b : Breaker)
    → (report_stat now r ret b).rules ≡ b.rules
unfolding report_stat
rules-report_stat now r ret b = refl

rules-ite :
    (rules : List CircuitBreakerRule) (b : Breaker) (d : Dec (b.rules ≡ rules))
    → (ite d b (record { rules = rules; states = [] })).rules ≡ rules
rules-ite rules b (yes same) = same
rules-ite rules b (no changed) = refl

rules-update_rules :
    (rules : List CircuitBreakerRule) (b : Breaker) → (update_rules rules b).rules ≡ rules
unfolding update_rules
rules-update_rules rules b = rules-ite rules b (rules_discrete b.rules rules)

check-update-report :
    (now t : ℕ) (a b : Resource) (ret : RetStatus) (ra rb : List CircuitBreakerRule) (br : Breaker)
    → ra ≢ rb
    → (check_resource now a (update_rules ra (report_stat t b ret (update_rules rb br)))).1
      ≡ closed_status
check-update-report now t a b ret ra rb br h =
    check_resource-update_rules now a ra (report_stat t b ret (update_rules rb br))
    ∙ if_neg (rules_discrete reported.rules ra)
        (λ e. h (sym e ∙ rules-report_stat t b ret (update_rules rb br) ∙ rules-update_rules rb br))
        (check_resource now a reported).1 closed_status
  where
    reported : Breaker
    reported = report_stat t b ret (update_rules rb br)

-- After a report of one service, a check of a service that has other rules lets the call pass,
-- whatever failures of it were reported before: the breaker has one rule list, and to change it
-- drops the states of all resources.
pub api_check-other_service :
    (fetch : Fetch) (now t : ℕ) (a b : Resource) (ka kb : ServiceKey) (ret : RetStatus)
    (ra rb : List CircuitBreakerRule) (br : Option Breaker)
    → circuit_breaker_rule_service_key a ≡ some ka
    → circuit_breaker_rule_service_key b ≡ some kb
    → fetch ka ≡ ok ra
    → fetch kb ≡ ok rb
    → ra ≢ rb
    → (api_check_resource fetch now a (api_report_stat fetch t b ret br).0).1 ≡ ok passed
unfolding api_check_resource api_report_stat
api_check-other_service fetch now t a b ka kb ret ra rb none ea eb fa fb h = rw (ea, eb, fa, fb)
api_check-other_service fetch now t a b ka kb ret ra rb (some br) ea eb fa fb h =
    rw (ea, eb, fa, fb) (rw (check-update-report now t a b ret ra rb br h))
