-- ===== src/Policy/Governance/Refused.antt =====
-- The security decision and the other rules (`evaluate_traffic_governance_from_cache` of
-- src/traffic/policy/default.rs).
use pole_client_rust.Common.{ℕ, ◌≡◌, inl, inr, String, Bool, Option, List}
use pole_client_rust.Core.Error.{Result, ok, Result-cases, ◌>>=◌}
use pole_client_rust.Core.Context.{RouteContext}
use pole_client_rust.Core.Cache.{traffic_security_rule, ResourceEventKey}
use pole_client_rust.Policy.{TrafficSecurityRule}
use pole_client_rust.Policy.Security.{evaluate_security}
use pole_client_rust.Policy.Governance.{
  AnyRule, as_security, downcast_rule_list, traffic_rule_key, evaluate_traffic_governance,
  evaluate_traffic_governance_from_cache,
}

module _ (is_blank : String → Bool) (decode_hex : String → Option (List ℕ))
    (sha256 : String → List ℕ) (compile : String → Option (String → Bool)) (hash : List String → ℕ)
    (load : ResourceEventKey → Result (List AnyRule)) (ctx : RouteContext) where
  -- The security rules of the called service, if the cache has them and they are of their type.
  abbrev pub security_rules : Result (List TrafficSecurityRule)
  security_rules =
      load (traffic_rule_key ctx traffic_security_rule) >>= downcast_rule_list as_security

  -- The decision fails closed: an error of the security rules is the call's error. Whatever the mirror
  -- and mock rules are, and whether or not the cache has them, the decision is that of the security
  -- rules.
  pub evaluate_traffic_governance_from_cache-security :
      (evaluate_traffic_governance_from_cache is_blank decode_hex sha256 compile hash load ctx
        >>= λ g. ok g.security)
      ≡ (security_rules >>= λ rules.
          ok (evaluate_security is_blank decode_hex sha256 compile ctx rules))
  unfolding evaluate_traffic_governance_from_cache evaluate_traffic_governance
  evaluate_traffic_governance_from_cache-security =
      elim (Result-cases (load (traffic_rule_key ctx traffic_security_rule))) [
        | inl (entries, e) ↦ elim (Result-cases (downcast_rule_list as_security entries)) [
          | inl (rules, d) ↦ rw (e, d)
          | inr (code, d) ↦ rw (e, d)
        ]
        | inr (code, e) ↦ rw e
      ]
