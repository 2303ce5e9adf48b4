-- ===== src/CircuitBreaker/Flow.antt =====
-- The way from the public calls to the breaker plugin: `CircuitBreakerFlow` (src/core/flow.rs),
-- `DefaultCircuitBreakerAPI` (src/traffic/circuitbreaker/default.rs) and `InvokeHandler`
-- (src/traffic/circuitbreaker/api.rs). `none` is an SDK with no breaker plugin. What the engine
-- returns for the rules of a service is the argument `fetch` of each call.
use pole_client_rust.Common.{
  ℕ, String, str_eq, Bool, true, not, if◌then◌else◌, Option, none, some, List,
}
use pole_client_rust.Core.Error.{Result, ok, err}
use pole_client_rust.Core.Naming.{ServiceKey}
use pole_client_rust.CircuitBreaker.Rule.{CircuitBreakerRule}
use pole_client_rust.CircuitBreaker.State.{RetStatus, ret_success, ret_reject, ret_unknown}
use pole_client_rust.CircuitBreaker.Resource.{
  Resource, service_resource, method_resource, circuit_breaker_rule_service_key,
}
use pole_client_rust.CircuitBreaker.Breaker.{
  Breaker, BreakerStatus, is_opened, update_rules, check_resource, report_stat,
}

-- `CheckResult`; its fallback_info is None on every path.
pub record CheckResult : Type 0 where
  pub pass : Bool
  pub rule_name : String

abbrev pub Fetch : Type 0
Fetch = ServiceKey → Result (List CircuitBreakerRule)

unfoldable pub convert_from_status : BreakerStatus → CheckResult
convert_from_status ret = record {
  pass = not (is_opened ret.status);
  rule_name = ret.circuit_breaker;
}

unfoldable pub flow_check : ℕ → Resource → Option Breaker → Option Breaker × CheckResult
unfolding convert_from_status
flow_check now r none = (none, record { pass = true; rule_name = "" })
flow_check now r (some b) =
    let checked = check_resource now r b in (some checked.0, convert_from_status checked.1)

unfoldable pub flow_report : ℕ → Resource → RetStatus → Option Breaker → Option Breaker
flow_report now r ret none = none
flow_report now r ret (some b) = some (report_stat now r ret b)

unfoldable pub flow_update_rules : List CircuitBreakerRule → Option Breaker → Option Breaker
flow_update_rules rules none = none
flow_update_rules rules (some b) = some (update_rules rules b)

abbrev apply_fetched :
    Result (List CircuitBreakerRule) → Option Breaker → Option Breaker × Result (Unit {0})
apply_fetched (err e) b = (b, err e)
apply_fetched (ok rules) b = (flow_update_rules rules b, ok tt)

abbrev refresh_for_key :
    Fetch → Option ServiceKey → Option Breaker → Option Breaker × Result (Unit {0})
refresh_for_key fetch none b = (b, ok tt)
refresh_for_key fetch (some k) b = apply_fetched (fetch k) b

unfoldable pub refresh_rules_for_resource :
    Fetch → Resource → Option Breaker → Option Breaker × Result (Unit {0})
unfolding flow_update_rules circuit_breaker_rule_service_key
refresh_rules_for_resource fetch r b = refresh_for_key fetch (circuit_breaker_rule_service_key r) b

abbrev check_refreshed :
    ℕ → Resource → Option Breaker × Result (Unit {0}) → Option Breaker × Result CheckResult
check_refreshed now r (b, err e) = (b, err e)
check_refreshed now r (b, ok u) = let checked = flow_check now r b in (checked.0, ok checked.1)

unfoldable pub api_check_resource :
    Fetch → ℕ → Resource → Option Breaker → Option Breaker × Result CheckResult
unfolding refresh_rules_for_resource flow_check
api_check_resource fetch now r b = check_refreshed now r (refresh_rules_for_resource fetch r b)

abbrev report_refreshed :
    ℕ
    → Resource
    → RetStatus
    → Option Breaker × Result (Unit {0})
    → Option Breaker × Result (Unit {0})
report_refreshed now r ret (b, err e) = (b, err e)
report_refreshed now r ret (b, ok u) = (flow_report now r ret b, ok tt)

unfoldable pub api_report_stat :
    Fetch → ℕ → Resource → RetStatus → Option Breaker → Option Breaker × Result (Unit {0})
unfolding refresh_rules_for_resource flow_report
api_report_stat fetch now r ret b =
    report_refreshed now r ret (refresh_rules_for_resource fetch r b)

-- `RequestContext`, less the converter from a result to a code, which only labels a report.
pub record RequestContext : Type 0 where
  pub caller_service : ServiceKey
  pub callee_service : ServiceKey
  pub protocol : String
  pub method : String
  pub path : String

unfoldable pub context_service : RequestContext → Resource
context_service c =
    service_resource (record { callee = c.callee_service; caller = some c.caller_service })

unfoldable pub context_method : RequestContext → Resource
context_method c = method_resource (record {
  callee = c.callee_service;
  caller = some c.caller_service;
  protocol = c.protocol;
  method = c.method;
  path = c.path;
})

-- A handler with no refresher leaves the rules as they are.
unfoldable pub refresh_invoke_service_rules :
    Option Fetch → RequestContext → Option Breaker → Option Breaker × Result (Unit {0})
unfolding refresh_rules_for_resource context_service
refresh_invoke_service_rules none c b = (b, ok tt)
refresh_invoke_service_rules (some fetch) c b =
    refresh_rules_for_resource fetch (context_service c) b

-- Ok(()) is `none`, and the name of the rule that aborts the call is `some`. A failed refresh is only
-- logged.
unfoldable pub acquire_permission :
    Option Fetch → ℕ → RequestContext → Option Breaker → Option Breaker × Option String
unfolding refresh_invoke_service_rules flow_check context_service
acquire_permission fetch now c b =
    let refreshed = (refresh_invoke_service_rules fetch c b).0 in
    let checked = flow_check now (context_service c) refreshed in
    (checked.0, if checked.1.pass then none else some checked.1.rule_name)

abbrev pub report_both :
    ℕ
    → RetStatus
    → RequestContext
    → Option Breaker × Result (Unit {0})
    → Option Breaker × Result (Unit {0})
report_both now ret c (b, err e) = (b, err e)
report_both now ret c (b, ok u) =
    let reported = flow_report now (context_service c) ret b in
    (if str_eq c.path "" then reported else flow_report now (context_method c) ret reported, ok tt)

unfoldable pub common_report :
    Option Fetch
    → ℕ
    → RetStatus
    → RequestContext
    → Option Breaker
    → Option Breaker × Result (Unit {0})
unfolding refresh_invoke_service_rules flow_report context_service context_method
common_report fetch now ret c b = report_both now ret c (refresh_invoke_service_rules fetch c b)

-- `aborted`: the response carries a CallAbortedError. No `result_to_code` is set: with one, a response
-- without a result would panic.
unfoldable pub on_success :
    Option Fetch → ℕ → Bool → RequestContext → Option Breaker → Option Breaker × Result (Unit {0})
unfolding common_report
on_success fetch now aborted c b =
    common_report fetch now (if aborted then ret_reject else ret_success) c b

unfoldable pub on_error :
    Option Fetch → ℕ → RequestContext → Option Breaker → Option Breaker × Result (Unit {0})
unfolding common_report
on_error fetch now c b = common_report fetch now ret_unknown c b
