-- ===== src/Router/Api/Gate.antt =====
-- Requests that do not pass the traffic security (src/traffic/router/default.rs).
use pole_client_rust.Common.{
  ℕ, ◌≤◌, ◌≡◌, refl, ap, ◌∙◌, inl, inr, String, Bool, true, false, Option, none, List, [], Elem,
  Bool-cases,
}
use pole_client_rust.Core.Error.{Result, ok, unauthorized, Result-cases}
use pole_client_rust.Core.Outcome.{failed}
use pole_client_rust.Core.Context.{RouteContext}
use pole_client_rust.Core.Cache.{ResourceEventKey}
use pole_client_rust.Policy.{
  TrafficSecurityRule, TrafficSecurityPolicy, TrafficSecurityDecision, TrafficGovernanceResult,
}
use pole_client_rust.Policy.Security.{is_managed_rule, managed_caller_matches, evaluate_security}
use pole_client_rust.Policy.Security.Guard.{is_offered, AreLiteralRules, evaluate_security-guarded}
use pole_client_rust.Policy.Governance.{AnyRule, evaluate_traffic_governance_from_cache}
use pole_client_rust.Policy.Governance.Refused.{
  security_rules, evaluate_traffic_governance_from_cache-security,
}
use pole_client_rust.Router.Flow.{RouterContainer}
use pole_client_rust.Router.Api.{ProcessRouteRequest, reject_denied_traffic, route_governed, router}

ok_path : {a b : TrafficSecurityDecision} → ok a ≡ ok b → a ≡ b
ok_path e = cc

module _ (is_blank : String → Bool) (decode_hex : String → Option (List ℕ))
    (sha256 : String → List ℕ) (compile : String → Option (String → Bool)) (hash : List String → ℕ)
    (load : ResourceEventKey → Result (List AnyRule)) (sender : Bool) (container : RouterContainer)
    (req : ProcessRouteRequest) where
  -- The context of the call.
  abbrev pub asked : RouteContext
  asked = record req.route_info { authenticated_caller = none }

  abbrev governance : Result TrafficGovernanceResult
  governance =
      evaluate_traffic_governance_from_cache is_blank decode_hex sha256 compile hash load asked

  router-governed :
      (g : Result TrafficGovernanceResult)
      → governance ≡ g
      → router is_blank decode_hex sha256 compile hash load sender container req
        ≡ route_governed is_blank decode_hex sha256 compile hash load sender container req g
  unfolding router
  router-governed g e = rw e

  refused-governed :
      (g : TrafficGovernanceResult)
      → g.security.allowed ≡ false
      → route_governed is_blank decode_hex sha256 compile hash load sender container req (ok g)
        ≡ ([], failed unauthorized)
  unfolding reject_denied_traffic
  refused-governed g h = rw h

  -- A request that the security rules refuse, if the cache gives them, is answered by the error
  -- `UNAUTHORIZED`: no copy of it is sent, and neither a mock nor a router answers.
  pub router-refused :
      (rules : List TrafficSecurityRule)
      → security_rules is_blank decode_hex sha256 compile hash load asked ≡ ok rules
      → (evaluate_security is_blank decode_hex sha256 compile asked rules).allowed ≡ false
      → router is_blank decode_hex sha256 compile hash load sender container req
        ≡ ([], failed unauthorized)
  router-refused rules known refused = elim (Result-cases governance) [
    | inl (g, e) ↦
        let decided =
          evaluate_traffic_governance_from_cache-security is_blank decode_hex sha256 compile hash
            load asked in
        let same : g.security ≡ evaluate_security is_blank decode_hex sha256 compile asked rules =
          ok_path (rw (e, known) at decided) in
        router-governed (ok g) e
        ∙ refused-governed g (ap (λ (d : TrafficSecurityDecision). d.allowed) same ∙ refused)
    | inr (c, e) ↦
        let decided =
          evaluate_traffic_governance_from_cache-security is_blank decode_hex sha256 compile hash
            load asked in
        cc (rw (e, known) at decided)
  ]

  nobody_matches :
      (p : TrafficSecurityPolicy) → managed_caller_matches none p.managed_caller ≡ false
  unfolding managed_caller_matches
  nobody_matches p = refl

  -- If the cache gives the security rules, an enabled rule for managed callers with a policy for the
  -- request's API refuses it, whoever sends it, provided that every enabled rule that does not come
  -- later by priority is for managed callers too: the call tells the rules of no authenticated caller.
  -- The exact text paths of the rules' APIs are not `*`.
  pub router-managed :
      (rules : List TrafficSecurityRule) (r : TrafficSecurityRule) (p : TrafficSecurityPolicy)
      → AreLiteralRules is_blank decode_hex sha256 compile asked rules
      → security_rules is_blank decode_hex sha256 compile hash load asked ≡ ok rules
      → Elem r rules
      → r.enable ≡ true
      → is_managed_rule r.authentication ≡ true
      → Elem p r.policies
      → is_offered is_blank decode_hex sha256 compile asked p ≡ true
      → ((s : TrafficSecurityRule)
          → Elem s rules
          → s.enable ≡ true
          → s.priority ≤ r.priority
          → is_managed_rule s.authentication ≡ true)
      → router is_blank decode_hex sha256 compile hash load sender container req
        ≡ ([], failed unauthorized)
  router-managed rules r p l known e on managed listed api others =
      elim (Bool-cases (evaluate_security is_blank decode_hex sha256 compile asked rules).allowed) [
        | inr refused ↦ router-refused rules known refused
        | inl allowed ↦
            let (s, es, us, le, accepts) =
              evaluate_security-guarded is_blank decode_hex sha256 compile asked rules r l e on
                (record {
                  policy = p;
                  listed = listed;
                  api = api;
                  gate = inr (managed, λ q m. nobody_matches q);
                })
                allowed in
            cc (accepts.caller (others s es us le), nobody_matches accepts.policy)
      ]
