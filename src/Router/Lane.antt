-- ===== src/Router/Lane.antt =====
-- The lane router (src/plugins/router/lane/lane.rs): requests of a lane go to the instances with its
-- label. `load` is `load_service_rule` of the resource cache, whose entries are none if they are of
-- another type than `LaneGroup`; `compile` is `regex::Regex::new`. The context has its extensions, as
-- `RouterFlow` gives them.
pub mod First
use pole_client_rust.Common.{
  ℕ, String, str_eq, Bool, true, false, not, if◌then◌else◌, Option, none, some, List, [], ◌∷◌, ◌++◌,
  keep, is_empty, lookup, sort_by, first_some,
}
use pole_client_rust.Core.Error.{Result, ok, err, invalid_rule, ◌>>=◌}
use pole_client_rust.Core.Naming.{
  ServiceKey, Instance, is_available, ServiceInstances, new_instances,
}
use pole_client_rust.Core.Context.{RouteContext, RouteResult, next, exist_route}
use pole_client_rust.Match.Label.{TrafficMatchRule, traffic_match_rule_match}

pub data LaneMatchMode : Type 0 where
  permissive strict : LaneMatchMode

pub record LaneRule : Type 0 where
  pub enable : Bool
  pub priority : ℕ
  pub traffic_match_rule : Option TrafficMatchRule
  pub label_key : String
  pub default_label_value : String
  pub match_mode : LaneMatchMode

pub record LaneGroup : Type 0 where
  pub rules : List LaneRule

unfoldable pub lane_groups_from_service_rule : List (Option LaneGroup) → Result (List LaneGroup)
lane_groups_from_service_rule [] = ok []
lane_groups_from_service_rule (none ∷ rest) = err invalid_rule
lane_groups_from_service_rule (some g ∷ rest) =
    lane_groups_from_service_rule rest >>= λ gs. ok (g ∷ gs)

unfoldable pub has_lane : String → String → Instance → Bool
has_lane label_key label_value i = elim (lookup label_key i.metadata) [
  | none ↦ false
  | some lane ↦ str_eq lane label_value
]

abbrev pub key_of : LaneRule → String
key_of rule = if str_eq rule.label_key "" then "lane" else rule.label_key

unfoldable pub lane_instances : ServiceInstances → LaneRule → List Instance
unfolding has_lane
lane_instances instances rule =
    keep (has_lane (key_of rule) rule.default_label_value) (keep is_available instances.instances)

abbrev pub without_lane : LaneMatchMode → ServiceInstances → ServiceInstances
without_lane permissive instances = instances
without_lane strict instances = new_instances instances.service []

unfoldable pub all_rules : List LaneGroup → List LaneRule
all_rules [] = []
all_rules (g ∷ rest) = g.rules ++ all_rules rest

module _ (compile : String → Option (String → Bool)) (ctx : RouteContext) where
  abbrev pub lane_matches : Option TrafficMatchRule → Bool
  lane_matches none = false
  lane_matches (some m) = traffic_match_rule_match compile ctx m

  -- One round of the loop: none goes on to the next rule.
  unfoldable pub rule_result : ServiceInstances → LaneRule → Option ServiceInstances
  unfolding lane_instances new_instances
  rule_result instances rule =
      let filtered = lane_instances instances rule in
      if not (lane_matches rule.traffic_match_rule)
      then none
      else if not (is_empty filtered)
      then some (new_instances instances.service filtered)
      else some (without_lane rule.match_mode instances)

  abbrev pub or_all : ServiceInstances → Option ServiceInstances → ServiceInstances
  or_all instances none = instances
  or_all instances (some chosen) = chosen

  unfoldable pub filter_instances_by_lane_groups :
      ServiceInstances → List LaneGroup → ServiceInstances
  unfolding rule_result all_rules
  filter_instances_by_lane_groups instances groups = or_all instances (
      first_some (rule_result instances)
        (sort_by (λ r. r.priority) (keep (λ r. r.enable) (all_rules groups))))

module _ (load : ServiceKey → Result (List (Option LaneGroup)))
    (compile : String → Option (String → Bool)) where
  unfoldable pub fetch_lane_groups : RouteContext → Result (List LaneGroup)
  unfolding lane_groups_from_service_rule
  fetch_lane_groups ctx = load ctx.callee >>= lane_groups_from_service_rule

  abbrev pub by_groups : RouteContext → ServiceInstances → List LaneGroup → ServiceInstances
  by_groups ctx instances [] = instances
  by_groups ctx instances (g ∷ gs) = filter_instances_by_lane_groups compile ctx instances (g ∷ gs)

  unfoldable pub lane_choose_instances : RouteContext → ServiceInstances → Result RouteResult
  unfolding fetch_lane_groups filter_instances_by_lane_groups
  lane_choose_instances ctx instances = fetch_lane_groups ctx >>= λ groups.
      ok (record { instances = by_groups ctx instances groups; state = next })

  abbrev has_groups : Result (List LaneGroup) → Bool
  has_groups (ok groups) = not (is_empty groups)
  has_groups (err e) = false

  unfoldable pub lane_enable : RouteContext → Bool
  unfolding fetch_lane_groups exist_route
  lane_enable ctx =
      if not (exist_route ctx.chain "laneRouter") then false else has_groups (fetch_lane_groups ctx)
