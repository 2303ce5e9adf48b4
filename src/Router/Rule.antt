-- ===== src/Router/Rule.antt =====
-- The rule router (src/plugins/router/rule/rule.rs): the rules of the called service choose among its
-- instances, and if they do not match, those of the calling service. `compile` is
-- `regex::Regex::new`, `decode` is `CustomRoute::decode`, and `load` is `load_service_rule` of the
-- resource cache, whose entries are none if they are of another type than `RouteRule`. The cache does
-- not change while a call of the router runs.
pub mod Choose
pub mod Filtered
pub mod Safe
use pole_client_rust.Common.{
  ℕ, String, str_eq, Bool, true, false, not, if◌then◌else◌, ◌&&◌, ◌||◌, Option, none, some, List,
  [], ◌∷◌, ◌++◌, all, keep, is_empty, Table, lookup, sort_by,
}
use pole_client_rust.Core.Error.{Result, ok, err, ErrorCode, invalid_rule, ◌>>=◌}
use pole_client_rust.Core.Naming.{ServiceKey, Instance, is_available, ServiceInstances, add_weights}
use pole_client_rust.Core.Context.{RouteContext, RouteState, next, RouteResult}
use pole_client_rust.Match.Label.{
  MatchString, is_capture, DestinationGroup, CustomRouteRule, match_label_value,
  route_traffic_match, traffic_match_rule_request_parameters,
}

pub data Direction : Type 0 where
  callee_rules caller_rules : Direction

pub data RouteFailoverPolicy : Type 0 where
  failover_all failover_none : RouteFailoverPolicy

pub data RuleStatus : Type 0 where
  no_rule dest_rule_succ dest_rule_fail source_rule_succ source_rule_fail : RuleStatus

-- `routing_config` holds encoded bytes.
pub record RouteRule : Type 0 where
  pub enable : Bool
  pub priority : ℕ
  pub routing_config : Option (List ℕ)

-- The option `failover` of the plugin's configuration.
unfoldable pub new_service_router : Option (Table String) → RouteFailoverPolicy
new_service_router none = failover_all
new_service_router (some options) = elim (lookup "failover" options) [
  | some val ↦ if str_eq val "none" then failover_none else failover_all
  | none ↦ failover_all
]

unfoldable pub filter_available_destinations : List DestinationGroup → List DestinationGroup
filter_available_destinations dests = sort_by (λ d. d.priority) (keep (λ d. not d.isolate) dests)

-- The downcasts of `fetch_rule`.
unfoldable pub route_rules : List (Option RouteRule) → Result (List RouteRule)
route_rules [] = ok []
route_rules (none ∷ rest) = err invalid_rule
route_rules (some r ∷ rest) = route_rules rest >>= λ rs. ok (r ∷ rs)

module _ (decode : List ℕ → Option (List CustomRouteRule)) where
  -- One rule of the loop of `decode_custom_route_rules`.
  unfoldable pub decode_rule : RouteRule → Result (List CustomRouteRule)
  decode_rule r = elim r.routing_config [
    | none ↦ ok []
    | some bytes ↦ elim (decode bytes) [ none ↦ err invalid_rule | some rules ↦ ok rules ]
  ]

  unfoldable pub decode_all : List RouteRule → Result (List CustomRouteRule)
  unfolding decode_rule
  decode_all [] = ok []
  decode_all (r ∷ rest) = do rules ← decode_rule r; later ← decode_all rest; ok (rules ++ later)

  unfoldable pub decode_custom_route_rules : List RouteRule → Result (List CustomRouteRule)
  decode_custom_route_rules rules =
      decode_all (sort_by (λ r. r.priority) (keep (λ r. r.enable) rules))

  unfoldable pub fetch_rule :
      (ServiceKey → Result (List (Option RouteRule)))
      → RouteContext
      → Direction
      → Result (List CustomRouteRule)
  unfolding decode_custom_route_rules route_rules
  fetch_rule load ctx d = do
    entries ← load (elim d [ callee_rules ↦ ctx.callee | caller_rules ↦ ctx.caller ])
    rules ← route_rules entries
    decode_custom_route_rules rules

module _ (compile : String → Option (String → Bool)) where
  -- One label of a destination against the instance's value and the captured parameter of that name.
  unfoldable pub label_matches : Table String → String → MatchString → Option String → Bool
  label_matches parameters key rule none = false
  label_matches parameters key rule (some actual) =
      if is_capture rule
      then elim (lookup key parameters) [ some value ↦ str_eq value actual | none ↦ false ]
      else match_label_value compile rule actual

  unfoldable pub in_group : Table String → DestinationGroup → Instance → Bool
  unfolding label_matches
  in_group parameters dest i =
      if not (str_eq dest.service "*") && not (str_eq dest.service i.service)
      then false
      else if not (str_eq dest.namespace "*") && not (str_eq dest.namespace i.namespace)
      then false
      else all (λ l. label_matches parameters l.0 l.1 (lookup l.0 i.metadata)) dest.labels

  unfoldable pub match_callee_group :
      Table String → ServiceInstances → DestinationGroup → List Instance
  match_callee_group parameters instances dest =
      keep (in_group parameters dest) (keep is_available instances.instances)

  -- The inner loop of `filter_instances`: the first group that is not empty.
  unfoldable pub first_group :
      Table String → ServiceInstances → List DestinationGroup → Option (List Instance)
  unfolding match_callee_group
  first_group parameters instances [] = none
  first_group parameters instances (d ∷ rest) =
      let later = first_group parameters instances rest in
      let group = match_callee_group parameters instances d in
      if is_empty group then later else some group

  abbrev pub parameters_of : RouteContext → CustomRouteRule → Table String
  parameters_of ctx rule = elim rule.arguments [
    | some m ↦ traffic_match_rule_request_parameters ctx m
    | none ↦ []
  ]

  abbrev pub found_or : Option (List Instance) → List Instance → List Instance
  found_or (some group) later = group
  found_or none later = later

  unfoldable pub filter_instances :
      RouteContext → ServiceInstances → List CustomRouteRule → List Instance
  unfolding first_group filter_available_destinations
  filter_instances ctx instances [] = []
  filter_instances ctx instances (r ∷ rest) =
      let later = filter_instances ctx instances rest in
      let found =
        first_group (parameters_of ctx r) instances
          (filter_available_destinations r.destinations) in
      if not (route_traffic_match compile ctx r) then later else found_or found later

  -- What the rules of one side give: the status and, on success, the instances.
  unfoldable pub apply_rules :
      RouteContext
      → ServiceInstances
      → List CustomRouteRule
      → RuleStatus × RuleStatus
      → RuleStatus × Option (List Instance)
      → RuleStatus × Option (List Instance)
  unfolding filter_instances
  apply_rules ctx instances [] (succ, fail) before = before
  apply_rules ctx instances (r ∷ rest) (succ, fail) before =
      let ret = filter_instances ctx instances (r ∷ rest) in
      if is_empty ret then (fail, before.1) else (succ, some ret)

abbrev pub with_instances : ServiceInstances → List Instance → RouteResult
with_instances instances chosen = record {
  instances = record {
    service = instances.service;
    instances = chosen;
    total_weight = add_weights 0 chosen;
  };
  state = next;
}

abbrev pub unchanged : ServiceInstances → RouteResult
unchanged instances = record { instances = instances; state = next }
