-- ===== src/CircuitBreaker/Resource.antt =====
-- Resources, their keys, and which rules apply to them (src/core/model/circuitbreaker.rs and
-- src/plugins/circuitbreaker/composite/circuitbreaker.rs).
use pole_client_rust.Common.{
  String, str_eq, concat, Bool, true, false, if◌then◌else◌, ◌&&◌, ◌||◌, Option, none, some, List,
  [], ◌∷◌, keep, sort_by,
}
use pole_client_rust.Core.Naming.{ServiceKey}
use pole_client_rust.CircuitBreaker.Rule.{CircuitBreakerRule, RuleMatcher, ServiceSelector}

pub record ServiceResource : Type 0 where
  pub callee : ServiceKey
  pub caller : Option ServiceKey

pub record MethodResource : Type 0 where
  pub callee : ServiceKey
  pub caller : Option ServiceKey
  pub protocol : String
  pub method : String
  pub path : String

pub data Resource : Type 0 where
  service_resource : ServiceResource → Resource
  method_resource : MethodResource → Resource
  instance_resource : Resource

unfoldable pub service_key : ServiceKey → String
unfolding concat
service_key k = concat (k.namespace ∷ "#" ∷ k.name ∷ [])

unfoldable pub caller_key : Option ServiceKey → String
unfolding service_key
caller_key none = "*"
caller_key (some k) = service_key k

unfoldable pub resource_key : Resource → String
unfolding concat service_key caller_key
resource_key (service_resource r) =
    concat ("service#" ∷ service_key r.callee ∷ "#" ∷ caller_key r.caller ∷ [])
resource_key (method_resource r) = concat (
    "method#"
    ∷ service_key r.callee
    ∷ "#"
    ∷ caller_key r.caller
    ∷ "#"
    ∷ r.protocol
    ∷ "#"
    ∷ r.method
    ∷ "#"
    ∷ r.path
    ∷ [])
resource_key instance_resource = "instance"

unfoldable pub is_wildcard : String → Bool
is_wildcard s = str_eq s "" || str_eq s "*"

unfoldable pub service_selector_matches : String → String → Option ServiceKey → Bool
unfolding is_wildcard
service_selector_matches namespace service actual =
    if is_wildcard namespace && is_wildcard service then true else (elim actual [
      | some a ↦
          (is_wildcard namespace || str_eq namespace a.namespace)
          && (is_wildcard service || str_eq service a.name)
      | none ↦ false
    ])

abbrev pub caller_of : Resource → Option ServiceKey
caller_of (service_resource r) = r.caller
caller_of (method_resource r) = r.caller
caller_of instance_resource = none

abbrev pub callee_of : Resource → Option ServiceKey
callee_of (service_resource r) = some r.callee
callee_of (method_resource r) = some r.callee
callee_of instance_resource = none

-- `map(…).unwrap_or(true)` over an optional selector.
unfoldable pub side_matches : Option ServiceSelector → Option ServiceKey → Bool
unfolding service_selector_matches
side_matches none actual = true
side_matches (some sel) actual = service_selector_matches sel.namespace sel.service actual

unfoldable pub matcher_matches : Option RuleMatcher → Resource → Bool
unfolding side_matches
matcher_matches none r = true
matcher_matches (some m) r =
    side_matches m.source (caller_of r) && side_matches m.destination (callee_of r)

unfoldable pub rule_matches_resource : CircuitBreakerRule → Resource → Bool
unfolding matcher_matches
rule_matches_resource rule r = matcher_matches rule.rule_matcher r

unfoldable pub applicable_rules : Resource → List CircuitBreakerRule → List CircuitBreakerRule
unfolding sort_by rule_matches_resource
applicable_rules r rules =
    sort_by (λ rule. rule.priority)
      (keep (λ rule. rule.enable && rule_matches_resource rule r) rules)

-- circuit_breaker_rule_service_key of src/traffic/circuitbreaker/default.rs
unfoldable pub circuit_breaker_rule_service_key : Resource → Option ServiceKey
circuit_breaker_rule_service_key (service_resource r) = some r.callee
circuit_breaker_rule_service_key (method_resource r) = some r.callee
circuit_breaker_rule_service_key instance_resource = none
