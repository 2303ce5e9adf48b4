-- ===== src/Policy/Governance.antt =====
-- `evaluate_traffic_governance_from_cache` (src/traffic/policy/default.rs): the rules of
-- the called service from the cache, and what they say of a request. `load` is `load_service_rule` of the resource cache,
-- whose entries may be of any type; `hash`, `compile`, `is_blank`, `decode_hex` and `sha256` are as in
-- the other children of `Policy`.
pub mod Refused
use pole_client_rust.Common.{
  ℕ, String, Bool, true, false, if◌then◌else◌, Option, none, some, List, [], ◌∷◌, map, is_empty,
  Table,
}
use pole_client_rust.Core.Error.{Result, ok, err, invalid_rule, ◌>>=◌}
use pole_client_rust.Core.Outcome.{Outcome, value, failed, panicked}
use pole_client_rust.Core.Naming.{ServiceKey, ServiceInstances}
use pole_client_rust.Core.Context.{RouteContext}
use pole_client_rust.Core.Cache.{
  EventType, traffic_security_rule, traffic_mirror_rule, traffic_mock_rule, ResourceEventKey,
}
use pole_client_rust.Policy.{
  TrafficSecurityRule, TrafficMirror, TrafficMock, MirrorDestination, MockResponse,
  TrafficSecurityDecision, TrafficGovernanceRules, TrafficGovernanceResult,
}
use pole_client_rust.Policy.Security.{evaluate_security}
use pole_client_rust.Policy.Traffic.{evaluate_mirrors, evaluate_mock}

-- An entry of the cache: `Box<dyn Any>`.
pub data AnyRule : Type 0 where
  security : TrafficSecurityRule → AnyRule
  mirror : TrafficMirror → AnyRule
  mock : TrafficMock → AnyRule
  other_rule : AnyRule

abbrev pub as_security : AnyRule → Option TrafficSecurityRule
as_security (security r) = some r
as_security _ = none

abbrev pub as_mirror : AnyRule → Option TrafficMirror
as_mirror (mirror r) = some r
as_mirror _ = none

abbrev pub as_mock : AnyRule → Option TrafficMock
as_mock (mock r) = some r
as_mock _ = none

unfoldable pub downcast_rule_list :
    {T : Type 0} → (AnyRule → Option T) → List AnyRule → Result (List T)
downcast_rule_list cast [] = ok []
downcast_rule_list cast (r ∷ rest) = elim (cast r) [
  | none ↦ err invalid_rule
  | some t ↦ downcast_rule_list cast rest >>= λ ts. ok (t ∷ ts)
]

unfoldable pub traffic_governance_rules_from_cached_rules :
    List AnyRule → List AnyRule → List AnyRule → Result TrafficGovernanceRules
unfolding downcast_rule_list
traffic_governance_rules_from_cached_rules securities mirrors mocks = do
  security_rules ← downcast_rule_list as_security securities
  mirror_rules ← downcast_rule_list as_mirror mirrors
  mock_rules ← downcast_rule_list as_mock mocks
  ok (record {
    security_rules = security_rules;
    mirror_rules = mirror_rules;
    mock_rules = mock_rules;
  })

-- The key of `load_traffic_service_rule`.
unfoldable pub traffic_rule_key : RouteContext → EventType → ResourceEventKey
traffic_rule_key ctx event_type = record {
  namespace = ctx.callee.namespace;
  event_type = event_type;
  filter = ("service", ctx.callee.name) ∷ [];
}

-- Rules that are not available, or of another type, are ignored.
abbrev pub or_none : {T : Type 0} → Result (List T) → List T
or_none (ok ts) = ts
or_none (err e) = []

module _ (is_blank : String → Bool) (decode_hex : String → Option (List ℕ))
    (sha256 : String → List ℕ) (compile : String → Option (String → Bool))
    (hash : List String → ℕ) where
  unfoldable pub evaluate_traffic_governance :
      RouteContext → TrafficGovernanceRules → TrafficGovernanceResult
  unfolding evaluate_security evaluate_mirrors evaluate_mock
  evaluate_traffic_governance ctx rules = record {
    security = evaluate_security is_blank decode_hex sha256 compile ctx rules.security_rules;
    mirrors = evaluate_mirrors hash compile ctx rules.mirror_rules;
    mock = evaluate_mock hash compile ctx rules.mock_rules;
  }

  module _ (load : ResourceEventKey → Result (List AnyRule)) where
    unfoldable pub evaluate_traffic_governance_from_cache :
        RouteContext → Result TrafficGovernanceResult
    unfolding evaluate_traffic_governance traffic_rule_key downcast_rule_list
    evaluate_traffic_governance_from_cache ctx = do
      securities ← load (traffic_rule_key ctx traffic_security_rule)
      security_rules ← downcast_rule_list as_security securities
      let mirror_rules =
          or_none (load (traffic_rule_key ctx traffic_mirror_rule) >>= downcast_rule_list as_mirror)
      let mock_rules =
          or_none (load (traffic_rule_key ctx traffic_mock_rule) >>= downcast_rule_list as_mock)
      ok (
          evaluate_traffic_governance ctx (record {
            security_rules = security_rules;
            mirror_rules = mirror_rules;
            mock_rules = mock_rules;
          }))
