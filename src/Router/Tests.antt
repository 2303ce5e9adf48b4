-- ===== src/Router/Tests.antt =====
-- The rule router on concrete instances and rules (src/plugins/router/rule).
use pole_client_rust.Common.{
  ℕ, ◌≡◌, refl, String, Bool, true, false, Option, none, some, List, [], ◌∷◌, lookup, sort_by,
  insert_by,
}
use pole_client_rust.Core.Error.{Result, ok}
use pole_client_rust.Core.Naming.{ServiceKey, Instance, ServiceInstances, add_weights, is_available}
use pole_client_rust.Match.Label.{
  exact, text, DestinationGroup, CustomRouteRule, route_traffic_match, match_callee_caller,
  match_label_value, is_match_all,
}
use pole_client_rust.Core.Context.{RouteContext, metadata_failover_none}
use pole_client_rust.Router.Rule.{
  RouteRule, failover_all, in_group, filter_instances, filter_available_destinations,
}
use pole_client_rust.Router.Rule.Filtered.{Chosen, filter_instances-Chosen}
use pole_client_rust.Router.Rule.Safe.{IsSafe, choose_instances-IsSafe}
use pole_client_rust.Router.Rule.Choose.{choose_instances}

abbrev instance_of : String → String → Bool → Instance
instance_of id version health = record {
  id = id;
  namespace = "default";
  service = "svc-a";
  ip = "127.0.0.1";
  port = 8080;
  vpc_id = "";
  version = version;
  protocol = "";
  health = health;
  isolated = false;
  weight = 100;
  priority = 0;
  metadata = ("version", version) ∷ [];
  location = record { region = ""; zone = ""; campus = "" };
  revision = "";
}

abbrev three_instances : ServiceInstances
three_instances = record {
  service = record { id = ""; namespace = "default"; name = "svc-a"; metadata = []; revision = "" };
  instances =
      instance_of "matched" "v1" true
      ∷ instance_of "wrong-version" "v2" true
      ∷ instance_of "unhealthy" "v1" false
      ∷ [];
  total_weight = 300;
}

abbrev to_version : String → ℕ → Bool → DestinationGroup
to_version version priority isolate = record {
  service = "svc-a";
  namespace = "default";
  labels = ("version", record { match_type = exact; value = version; value_type = some text }) ∷ [];
  priority = priority;
  isolate = isolate;
}

abbrev rule : CustomRouteRule
rule = record {
  name = "by-version";
  arguments = none;
  destinations = to_version "v2" 8 false ∷ to_version "v2" 0 true ∷ to_version "v1" 1 false ∷ [];
}

abbrev ctx : RouteContext
ctx = record {
  caller = record { namespace = "default"; name = "svc-b" };
  callee = record { namespace = "default"; name = "svc-a" };
  chain = record { before = []; core = []; after = [] };
  metadata = [];
  metadata_failover = metadata_failover_none;
  traffic_label_provider = λ t k. none;
  authenticated_caller = none;
}

abbrev no_regex : String → Option (String → Bool)
no_regex p = none

-- The available instance of the best group that is in use.
chosen_first :
    filter_instances no_regex ctx three_instances (rule ∷ []) ≡ instance_of "matched" "v1" true ∷ []
unfolding filter_instances filter_available_destinations sort_by insert_by route_traffic_match
    match_callee_caller match_label_value is_available lookup in_group is_match_all
chosen_first = refl

filter_instances-Chosen_example :
    Chosen no_regex ctx three_instances
      (rule ∷ [])
      (filter_instances no_regex ctx three_instances (rule ∷ []))
filter_instances-Chosen_example =
    filter_instances-Chosen no_regex ctx three_instances (rule ∷ []) (λ e. cc (chosen_first, e))

abbrev load : ServiceKey → Result (List (Option RouteRule))
load key = ok (some (record { enable = true; priority = 0; routing_config = some (1 ∷ []) }) ∷ [])

abbrev decode : List ℕ → Option (List CustomRouteRule)
decode bytes = some (rule ∷ [])

choose_instances-IsSafe_example :
    IsSafe failover_all three_instances
      (choose_instances no_regex decode load failover_all ctx three_instances)
unfolding add_weights
choose_instances-IsSafe_example =
    choose_instances-IsSafe no_regex decode load failover_all ctx three_instances refl
