-- ===== src/Router/Rule/Choose.antt =====
-- `choose_instances` and `enable` of the rule router (src/plugins/router/rule/rule.rs).
use pole_client_rust.Common.{
  ℕ, String, Bool, false, not, if◌then◌else◌, ◌||◌, Option, none, some, List, [], is_empty,
}
use pole_client_rust.Core.Error.{Result, ok, err}
use pole_client_rust.Core.Outcome.{Outcome, value, panicked, ◌>>=◌, lift}
use pole_client_rust.Core.Naming.{ServiceKey, Instance, ServiceInstances}
use pole_client_rust.Match.Label.{CustomRouteRule}
use pole_client_rust.Core.Context.{RouteContext, RouteResult}
use pole_client_rust.Router.Rule.{
  RouteRule, callee_rules, caller_rules, RouteFailoverPolicy, failover_all, failover_none,
  RuleStatus, no_rule, dest_rule_succ, dest_rule_fail, source_rule_succ, source_rule_fail,
  fetch_rule, apply_rules, with_instances, unchanged,
}

-- The last `match` of `choose_instances`, whose `unwrap` meets a success without instances.
unfoldable pub conclude :
    RouteFailoverPolicy
    → ServiceInstances
    → RuleStatus × Option (List Instance)
    → Outcome RouteResult
conclude policy instances (no_rule, found) = value (unchanged instances)
conclude policy instances (dest_rule_succ, some chosen) = value (with_instances instances chosen)
conclude policy instances (dest_rule_succ, none) = panicked
conclude policy instances (source_rule_succ, some chosen) = value (with_instances instances chosen)
conclude policy instances (source_rule_succ, none) = panicked
conclude failover_all instances (dest_rule_fail, found) = value (unchanged instances)
conclude failover_all instances (source_rule_fail, found) = value (unchanged instances)
conclude failover_none instances (dest_rule_fail, found) = value (with_instances instances [])
conclude failover_none instances (source_rule_fail, found) = value (with_instances instances [])

module _ (compile : String → Option (String → Bool))
    (decode : List ℕ → Option (List CustomRouteRule))
    (load : ServiceKey → Result (List (Option RouteRule))) (policy : RouteFailoverPolicy) where
  -- The rules of the caller, unless those of the callee have decided.
  abbrev pub by_caller :
      RouteContext
      → ServiceInstances
      → RuleStatus × Option (List Instance)
      → Outcome (RuleStatus × Option (List Instance))
  by_caller ctx instances (dest_rule_succ, found) = value (dest_rule_succ, found)
  by_caller ctx instances before = lift (fetch_rule decode load ctx caller_rules) >>= λ rules.
      value (apply_rules compile ctx instances rules (source_rule_succ, source_rule_fail) before)

  unfoldable pub choose_instances : RouteContext → ServiceInstances → Outcome RouteResult
  unfolding fetch_rule apply_rules conclude
  choose_instances ctx instances = lift (fetch_rule decode load ctx callee_rules) >>= λ rules.
      by_caller ctx instances
        (apply_rules compile ctx instances rules (dest_rule_succ, dest_rule_fail) (no_rule, none))
      >>= λ decided. conclude policy instances decided

  abbrev rules_given : Result (List CustomRouteRule) → Option Bool
  rules_given (ok rules) = some (not (is_empty rules))
  rules_given (err e) = none

  abbrev pub has_route_rules : Bool → Bool → Bool
  has_route_rules caller callee = caller || callee

  -- `exist_route` is the chain's answer for this router.
  unfoldable pub enable : Bool → RouteContext → Bool
  unfolding fetch_rule
  enable exist_route ctx =
      if not exist_route
      then false
      else elim (rules_given (fetch_rule decode load ctx caller_rules)) [
        | none ↦ false
        | some caller ↦ elim (rules_given (fetch_rule decode load ctx callee_rules)) [
          | none ↦ false
          | some callee ↦ has_route_rules caller callee
        ]
      ]
