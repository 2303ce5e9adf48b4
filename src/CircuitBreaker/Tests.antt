-- ===== src/CircuitBreaker/Tests.antt =====
-- Runs of the circuit breaker on concrete rules, and the theorems at inputs that meet their
-- hypotheses (src/plugins/circuitbreaker/composite/circuitbreaker.rs, src/traffic/circuitbreaker).
use pole_client_rust.Common.{
  ◌≡◌, ◌≢◌, refl, str_eq, str_eq_iff, true, if◌then◌else◌, none, some, List, [], ◌∷◌, arith,
}
use pole_client_rust.Core.Error.{ok}
use pole_client_rust.Core.Naming.{ServiceKey}
use pole_client_rust.CircuitBreaker.Rule.{
  CircuitBreakerRule, consecutive_error, recover_condition, trigger_conditions,
}
use pole_client_rust.CircuitBreaker.State.{
  opened, ret_fail, ret_success, RuleState, new_state, to_open, to_close, report_status,
  recover_success_threshold, is_error_status,
}
use pole_client_rust.CircuitBreaker.Resource.{
  Resource, service_resource, resource_key, circuit_breaker_rule_service_key,
}
use pole_client_rust.CircuitBreaker.Breaker.{Breaker, new_breaker, check_resource, report_stat}
use pole_client_rust.CircuitBreaker.Transitions.{Event, run, IsValid, run-new-IsValid, run-opened}
use pole_client_rust.CircuitBreaker.Recovery.{recovery}
use pole_client_rust.CircuitBreaker.History.{after, watching, trailing_errors, opens_exactly}
use pole_client_rust.CircuitBreaker.Verdict.{
  states_at, worst, check_resource-worst, check_resource-other,
}
use pole_client_rust.CircuitBreaker.Flow.{
  Fetch, RequestContext, api_check_resource, api_report_stat, acquire_permission,
}
use pole_client_rust.CircuitBreaker.Forget.{passed, api_check-other_service}
use pole_client_rust.CircuitBreaker.Handler.{Call, invoke_all, acquire_permission-invoke_all}

-- Two errors in a row, at two requests, open; five seconds later two successes close.
abbrev two_errors : CircuitBreakerRule
two_errors = record {
  name = "two-errors";
  enable = true;
  priority = 0;
  block_configs =
      record {
        block_config = some (record {
          trigger_conditions =
              record {
                trigger_type = consecutive_error;
                error_count = 2;
                minimum_request = 2;
                unread = "";
              }
              ∷ [];
          unread = "";
        });
        recover_condition = some (record { sleep_window = 5; consecutive_success = 2 });
        unread = "";
      }
      ∷ [];
  rule_matcher = none;
  unread = "";
}

abbrev failing : List Event
failing = (1, ret_fail) ∷ (2, ret_fail) ∷ []

failing_opens : (run failing (new_state two_errors)).status ≡ opened
unfolding run new_state report_status trigger_conditions
failing_opens = refl

abbrev open_state : RuleState
open_state = record {
  rule = two_errors;
  status = opened;
  opened_at = some 2;
  consecutive_errors = 2;
  consecutive_successes = 0;
  request_count = 2;
}

run-new-IsValid_example : IsValid (run failing (new_state two_errors))
run-new-IsValid_example = run-new-IsValid two_errors failing

run-opened_example : run ((1_000_000_000, ret_success) ∷ []) open_state ≡ open_state
unfolding recover_condition
run-opened_example =
    run-opened 2 ((1_000_000_000, ret_success) ∷ []) open_state refl refl (omega arith)

recovery_example :
    run ((6_000_000_000, ret_success) ∷ (6_000_000_001, ret_success) ∷ []) open_state
    ≡ to_close open_state
unfolding recover_condition recover_success_threshold is_error_status
recovery_example =
    recovery (record { sleep_window = 5; consecutive_success = 2 }) 2 open_state
      (6_000_000_000, ret_success) ((6_000_000_001, ret_success) ∷ []) refl refl refl (omega arith)
      (omega arith) (refl, (refl, tt)) (omega arith)

opens_exactly_example :
    after two_errors ((2, ret_fail) ∷ (1, ret_fail) ∷ [])
    ≡ to_open 2 (watching two_errors ((2, ret_fail) ∷ (1, ret_fail) ∷ []))
unfolding trigger_conditions trailing_errors is_error_status
opens_exactly_example =
    opens_exactly two_errors 2 ret_fail ((1, ret_fail) ∷ []) (omega arith) (refl, tt)

abbrev orders : ServiceKey
orders = record { namespace = "default"; name = "orders" }

abbrev users : ServiceKey
users = record { namespace = "default"; name = "users" }

abbrev orders_service : Resource
orders_service = service_resource (record { callee = orders; caller = none })

abbrev users_service : Resource
users_service = service_resource (record { callee = users; caller = none })

abbrev armed : Breaker
armed = record { rules = two_errors ∷ []; states = [] }

check_resource-worst_example :
    (check_resource 3 orders_service (report_stat 1 orders_service ret_fail armed)).1
    ≡ worst (states_at 3 orders_service (report_stat 1 orders_service ret_fail armed))
check_resource-worst_example =
    check_resource-worst 3 orders_service (report_stat 1 orders_service ret_fail armed)

keys_differ : resource_key orders_service ≢ resource_key users_service
unfolding resource_key
keys_differ = ground (arith, str_eq_iff "service#default#orders#*" "service#default#users#*")

check_resource-other_example :
    ((check_resource 5 users_service (report_stat 1 orders_service ret_fail armed)).1
      ≡ (check_resource 5 users_service armed).1)
    × ((check_resource 5 users_service (check_resource 1 orders_service armed).0).1
        ≡ (check_resource 5 users_service armed).1)
check_resource-other_example =
    check_resource-other orders_service users_service keys_differ 1 5 ret_fail armed

-- Orders have a rule, and users have none.
abbrev rules_of : Fetch
rules_of k = ok (if str_eq k.name "orders" then two_errors ∷ [] else [])

rules_differ : two_errors ∷ [] ≢ []
rules_differ e = cc

api_check-other_service_example :
    (api_check_resource rules_of 9 orders_service
      (api_report_stat rules_of 3 users_service ret_success (some armed)).0).1
    ≡ ok passed
unfolding circuit_breaker_rule_service_key
api_check-other_service_example =
    api_check-other_service rules_of 9 3 orders_service users_service orders users ret_success
      (two_errors ∷ []) [] (some armed) refl refl refl refl rules_differ

abbrev frontend_to_orders : RequestContext
frontend_to_orders = record {
  caller_service = record { namespace = "default"; name = "frontend" };
  callee_service = orders;
  protocol = "http";
  method = "GET";
  path = "/orders";
}

abbrev failed_call : Call
failed_call = record { fetch = some rules_of; context = frontend_to_orders; now = 1; failed = true }

acquire_permission-invoke_all_example :
    (acquire_permission
      (some rules_of)
      9
      frontend_to_orders
      (invoke_all (failed_call ∷ failed_call ∷ failed_call ∷ []) (some new_breaker))).1
    ≡ none
acquire_permission-invoke_all_example =
    acquire_permission-invoke_all (failed_call ∷ failed_call ∷ failed_call ∷ []) (some rules_of) 9
      frontend_to_orders
