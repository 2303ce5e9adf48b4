-- ===== src/Router/ChainTests.antt =====
-- The routers and their chain on concrete instances (src/plugins/router, src/core/flow.rs,
-- src/traffic/router/default.rs).
use pole_client_rust.Common.{
  ℕ, ◌≤◌, ◌≡◌, ◌↔◌, refl, inl, inr, subst, String, str_eq, Bool, true, false, not, if◌then◌else◌,
  Option, none, some, List, [], ◌∷◌, keep, is_empty, Elem, lookup, insert, sort_by, insert_by,
  arith,
}
use pole_client_rust.Core.Error.{Result, ok, unauthorized, location_mismatch}
use pole_client_rust.Core.Outcome.{value, failed, lift}
use pole_client_rust.Core.Naming.{
  ServiceKey, Location, Instance, ServiceInstances, is_available, add_weights,
}
use pole_client_rust.Core.Context.{RouteContext, next, metadata_failover_all}
use pole_client_rust.Core.Cache.{ResourceEventKey}
use pole_client_rust.Match.Label.{CustomRouteRule, and_mode, traffic_match_rule_match}
use pole_client_rust.Match.Index.{candidates, new_index}
use pole_client_rust.Match.Trie.{empty_node, exact_candidates}
use pole_client_rust.Match.Entries.{IsLiteralItem}
use pole_client_rust.Router.Rule.{RouteRule, failover_all}
use pole_client_rust.Router.Rule.Choose.{choose_instances}
use pole_client_rust.Router.Rule.Safe.{rule-IsNarrowing}
use pole_client_rust.Router.Flow.Chain.{IsChain, Runs, flow_choose_instances-Runs}
use pole_client_rust.Router.Flow.{
  routers_named, run_routers, RouterContainer, ServiceRouter, flow_choose_instances,
}
use pole_client_rust.Router.Flow.Narrow.{AreNarrowing, IsPartOf, flow_choose_instances-IsPart}
use pole_client_rust.Router.Nearby.{default_router, match_level_ord, choose_instances_with_location}
use pole_client_rust.Router.Nearby.Part.{nearby-IsNarrowing}
use pole_client_rust.Router.Nearby.Nearest.{IsNearby, choose_instances_with_location-IsNearby}
use pole_client_rust.Router.Lane.{
  LaneRule, LaneGroup, strict, filter_instances_by_lane_groups, lane_choose_instances, all_rules,
}
use pole_client_rust.Router.Lane.First.{
  IsInLane, filter_instances_by_lane_groups-IsInLane, lane-IsNarrowing,
}
use pole_client_rust.Router.Metadata.{failover_type, with_instances, metadata_choose_instances}
use pole_client_rust.Router.Metadata.Carried.{
  is_carrier, failed_over, metadata_choose_instances-carriers, metadata-IsNarrowing,
}
use pole_client_rust.Router.Health.{health_choose_instances}
use pole_client_rust.Router.Health.Kept.{
  until_weight, health_choose_instances-until_weight, health-IsNarrowing,
}
use pole_client_rust.Policy.{
  traffic_security_allow, managed_identity, TrafficSecurityPolicy, TrafficSecurityRule,
  api_match_input, traffic_rule_matches,
}
use pole_client_rust.Policy.Security.{evaluate_security, is_managed_rule}
use pole_client_rust.Policy.Governance.{AnyRule, security, downcast_rule_list}
use pole_client_rust.Router.Api.{ProcessRouteRequest, router}
use pole_client_rust.Router.Api.Gate.{router-refused, router-managed}

abbrev at_zone : String → String → Bool → ℕ → Instance
at_zone id zone health weight = record {
  id = id;
  namespace = "default";
  service = "orders";
  ip = "10.0.0.1";
  port = 8080;
  vpc_id = "";
  version = "";
  protocol = "";
  health = health;
  isolated = false;
  weight = weight;
  priority = 0;
  metadata = ("lane", zone) ∷ [];
  location = record { region = "r1"; zone = zone; campus = "" };
  revision = "";
}

abbrev given : ServiceInstances
given = record {
  service = record {
    id = "";
    namespace = "default";
    name = "orders";
    metadata = [];
    revision = "";
  };
  instances =
      at_zone "a" "z1" false 100 ∷ at_zone "b" "z2" true 100 ∷ at_zone "c" "z1" true 50 ∷ [];
  total_weight = 250;
}

abbrev here : Location
here = record { region = "r1"; zone = "z1"; campus = "" }

abbrev ctx : RouteContext
ctx = record {
  caller = record { namespace = "default"; name = "web" };
  callee = record { namespace = "default"; name = "orders" };
  chain = record {
    before = "health" ∷ [];
    core = "rule" ∷ "lane" ∷ "gone" ∷ [];
    after = "nearby" ∷ "metadata" ∷ [];
  };
  metadata = ("lane", "z1") ∷ [];
  metadata_failover = metadata_failover_all;
  traffic_label_provider = λ t k. none;
  authenticated_caller = none;
}

abbrev no_regex : String → Option (String → Bool)
no_regex p = none

abbrev lane : ℕ → String → LaneRule
lane priority label = record {
  enable = true;
  priority = priority;
  traffic_match_rule =
      some (record { arguments = []; random_percent = 100; match_mode = and_mode });
  label_key = "";
  default_label_value = label;
  match_mode = strict;
}

abbrev groups : List LaneGroup
groups = record { rules = lane 4 "z2" ∷ [] } ∷ record { rules = lane 1 "z1" ∷ [] } ∷ []

-- The rule with the lower priority takes the request; its unavailable instance is left out.
in_first_lane :
    (filter_instances_by_lane_groups no_regex ctx given groups).instances
    ≡ at_zone "c" "z1" true 50 ∷ []
unfolding filter_instances_by_lane_groups sort_by insert_by is_available lookup
    traffic_match_rule_match
in_first_lane = refl

filter_instances_by_lane_groups-IsInLane_example :
    IsInLane no_regex ctx given
      (all_rules groups)
      (filter_instances_by_lane_groups no_regex ctx given groups)
filter_instances_by_lane_groups-IsInLane_example =
    filter_instances_by_lane_groups-IsInLane no_regex ctx given groups

choose_instances_with_location-IsNearby_example :
    IsNearby default_router here given 2 4
      (choose_instances_with_location default_router here given)
unfolding match_level_ord
choose_instances_with_location-IsNearby_example =
    choose_instances_with_location-IsNearby default_router here given 2 4 refl refl (omega arith)

metadata_choose_instances-carriers_example : metadata_choose_instances ctx given ≡ (
    let carriers = keep (is_carrier ctx.metadata) given.instances in
    if not (is_empty carriers)
    then ok (with_instances given carriers)
    else failed_over (failover_type ctx given) given)
metadata_choose_instances-carriers_example = metadata_choose_instances-carriers ctx given

-- The first instance is unavailable, and is kept.
health_choose_instances-until_weight_example :
    (health_choose_instances 0 none ctx given).1
    ≡ value (record {
      instances = record {
        service = given.service;
        instances = until_weight given.instances;
        total_weight = add_weights 0 (until_weight given.instances);
      };
      state = next;
    })
health_choose_instances-until_weight_example =
    health_choose_instances-until_weight 0 none ctx given (omega arith)

abbrev no_rules : ServiceKey → Result (List (Option RouteRule))
no_rules key = ok []

abbrev decode : List ℕ → Option (List CustomRouteRule)
decode bytes = none

abbrev load_groups : ServiceKey → Result (List (Option LaneGroup))
load_groups key = ok []

abbrev installed : RouterContainer
installed = record {
  before_routers = ("health", λ c g. (health_choose_instances 0 none c g).1) ∷ [];
  core_routers =
      ("rule", choose_instances no_regex decode no_rules failover_all)
      ∷ ("lane", λ c g. lift (lane_choose_instances load_groups no_regex c g))
      ∷ [];
  after_routers =
      ("nearby", λ c g. choose_instances_with_location default_router here g)
      ∷ ("metadata", λ c g. lift (metadata_choose_instances c g))
      ∷ [];
}

installed-AreNarrowing : AreNarrowing installed
installed-AreNarrowing = (
  (health-IsNarrowing 0 none, tt),
  (
    rule-IsNarrowing no_regex decode no_rules failover_all,
    (lane-IsNarrowing load_groups no_regex, tt),
  ),
  (nearby-IsNarrowing default_router here, (metadata-IsNarrowing, tt)),
)

-- The chain keeps to the given instances.
installed_chain : IsPartOf given (flow_choose_instances installed ctx given)
unfolding add_weights
installed_chain = flow_choose_instances-IsPart installed ctx given refl installed-AreNarrowing

-- A chain whose core router fails; no router is installed under the name `missing`.
abbrev failing : RouterContainer
failing = record {
  before_routers = ("all", λ c g. value (record { instances = g; state = next })) ∷ [];
  core_routers = ("none", λ c g. failed location_mismatch) ∷ [];
  after_routers = ("all", λ c g. value (record { instances = g; state = next })) ∷ [];
}

abbrev failing_ctx : RouteContext
failing_ctx = record ctx {
  chain = record { before = "missing" ∷ "all" ∷ []; core = "none" ∷ []; after = "all" ∷ [] };
}

failing_fails : flow_choose_instances failing failing_ctx given ≡ failed location_mismatch
unfolding flow_choose_instances routers_named run_routers lookup
failing_fails = refl

flow_choose_instances-Runs_example :
    (flow_choose_instances failing failing_ctx given ≡ failed location_mismatch) ↔ (
      (rs : List ServiceRouter) × IsChain failing failing_ctx rs
      × Runs
          (record failing_ctx { authenticated_caller = none })
          rs
          given
          (failed location_mismatch))
flow_choose_instances-Runs_example =
    flow_choose_instances-Runs failing failing_ctx given (failed location_mismatch)

abbrev policy : TrafficSecurityPolicy
policy = record {
  apis = [];
  traffic_match_rule = none;
  managed_caller = some (record { any_authenticated = true; callers = [] });
  action = traffic_security_allow;
  reject_effect = none;
}

abbrev for_managed : TrafficSecurityRule
for_managed = record {
  enable = true;
  priority = 0;
  authentication = some (record {
    mode = some managed_identity;
    has_managed_identity = true;
    custom_header_settings = none;
  });
  policies = policy ∷ [];
}

abbrev load : ResourceEventKey → Result (List AnyRule)
load key = ok (security for_managed ∷ [])

abbrev is_blank : String → Bool
is_blank s = str_eq s ""

abbrev from_hex : String → Option (List ℕ)
from_hex s = none

abbrev digest : String → List ℕ
digest s = []

abbrev hash : List String → ℕ
hash texts = 0

abbrev request : ProcessRouteRequest
request = record { service_instances = given; route_info = ctx; mirror_request = none }

refused :
    (evaluate_security is_blank from_hex digest no_regex ctx (for_managed ∷ [])).allowed ≡ false
unfolding evaluate_security sort_by insert_by lookup insert candidates new_index empty_node
    api_match_input traffic_rule_matches exact_candidates
refused = refl

router-refused_example :
    router is_blank from_hex digest no_regex hash load true installed request
    ≡ ([], failed unauthorized)
unfolding downcast_rule_list
router-refused_example =
    router-refused is_blank from_hex digest no_regex hash load true installed request
      (for_managed ∷ []) refl refused

no_path :
    (r : TrafficSecurityRule)
    → Elem r (for_managed ∷ [])
    → (p : TrafficSecurityPolicy) → Elem p r.policies
    → IsLiteralItem (λ (q : TrafficSecurityPolicy). q.apis) p
no_path r (inl q) p e = of_policy p (subst (λ (k : TrafficSecurityRule). Elem p k.policies) q e)
  where
    of_policy :
        (p : TrafficSecurityPolicy)
        → Elem p (policy ∷ [])
        → IsLiteralItem (λ (q : TrafficSecurityPolicy). q.apis) p
    of_policy p (inl s) = rw s tt
    of_policy p (inr z) = absurd z
no_path r (inr z) p e = absurd z

only_managed :
    (s : TrafficSecurityRule)
    → Elem s (for_managed ∷ [])
    → s.enable ≡ true
    → s.priority ≤ 0
    → is_managed_rule s.authentication ≡ true
unfolding is_managed_rule
only_managed s (inl q) e l = rw q
only_managed s (inr z) e l = absurd z

router-managed_example :
    router is_blank from_hex digest no_regex hash load true installed request
    ≡ ([], failed unauthorized)
unfolding downcast_rule_list is_managed_rule
router-managed_example =
    router-managed is_blank from_hex digest no_regex hash load true installed request
      (for_managed ∷ []) for_managed policy no_path refl (inl refl) refl refl (inl refl) refl
      only_managed
