-- ===== src/Router/Api.antt =====
-- `DefaultRouterAPI` (src/traffic/router/default.rs): a route call asks the traffic governance, sends
-- copies of the request, and runs the chain of routers. A copy is sent beside the call: the model
-- lists what is handed to the sender. `sender` tells whether there is one; the other parameters are
-- as in `Policy.Governance`.
pub mod Gate
use pole_client_rust.Common.{
  ℕ, String, str_eq, Bool, true, false, if◌then◌else◌, Option, none, some, List, [], ◌∷◌, map,
  Table, lookup,
}
use pole_client_rust.Core.Error.{Result, ok, err, ErrorCode, plugin_error, unauthorized}
use pole_client_rust.Core.Outcome.{Outcome, value, failed, panicked, ◌>>=◌}
use pole_client_rust.Core.Naming.{Instance, ServiceInstances}
use pole_client_rust.Core.Context.{RouteContext}
use pole_client_rust.Core.Cache.{ResourceEventKey}
use pole_client_rust.Policy.{MirrorDestination, MockResponse, TrafficGovernanceResult}
use pole_client_rust.Policy.Governance.{AnyRule, evaluate_traffic_governance_from_cache}
use pole_client_rust.Router.Flow.{RouterContainer, flow_choose_instances, lookup_loadbalancer}

pub record MirrorRequest : Type 0 where
  pub method : String
  pub path : String
  pub headers : Table String
  pub body : List ℕ

pub record ProcessRouteRequest : Type 0 where
  pub service_instances : ServiceInstances
  pub route_info : RouteContext
  pub mirror_request : Option MirrorRequest

pub record ProcessRouteResponse : Type 0 where
  pub service_instances : ServiceInstances
  pub traffic_governance : TrafficGovernanceResult

unfoldable pub reject_denied_traffic : TrafficGovernanceResult → Outcome (Unit {0})
reject_denied_traffic g = if g.security.allowed then value tt else failed unauthorized

abbrev pub as_response :
    TrafficGovernanceResult → ServiceInstances → Option MockResponse → Option ProcessRouteResponse
as_response g given none = none
as_response g given (some r) = some (record { service_instances = given; traffic_governance = g })

unfoldable pub mock_route_response :
    TrafficGovernanceResult → ServiceInstances → Option ProcessRouteResponse
mock_route_response g given = as_response g given g.mock

abbrev pub Sent : Type 0
Sent = List (MirrorDestination × MirrorRequest)

-- `dispatch_mirror_requests`: one copy to each destination.
abbrev pub dispatched : Bool → List MirrorDestination → Option MirrorRequest → Sent
dispatched false ds request = []
dispatched true ds none = []
dispatched true ds (some request) = map (λ d. (d, request)) ds

unfoldable pub dispatch_route_mirrors : Bool → TrafficGovernanceResult → Option MirrorRequest → Sent
dispatch_route_mirrors sender g request = dispatched sender g.mirrors request

abbrev pub mocked_or :
    Option ProcessRouteResponse → Outcome ProcessRouteResponse → Outcome ProcessRouteResponse
mocked_or none routed = routed
mocked_or (some r) routed = value r

module _ (is_blank : String → Bool) (decode_hex : String → Option (List ℕ))
    (sha256 : String → List ℕ) (compile : String → Option (String → Bool)) (hash : List String → ℕ)
    (load : ResourceEventKey → Result (List AnyRule)) (sender : Bool)
    (container : RouterContainer) where
  abbrev pub route_allowed :
      ProcessRouteRequest → TrafficGovernanceResult → Outcome ProcessRouteResponse
  route_allowed req g = mocked_or (mock_route_response g req.service_instances) (
      flow_choose_instances container req.route_info req.service_instances >>= λ chosen.
      value (record { service_instances = chosen; traffic_governance = g }))

  -- What is sent and answered behind the gate.
  abbrev pub behind_gate :
      Outcome (Unit {0}) → Sent × Outcome ProcessRouteResponse → Sent × Outcome ProcessRouteResponse
  behind_gate (value done) routed = routed
  behind_gate (failed e) routed = ([], failed e)
  behind_gate panicked routed = ([], panicked)

  -- The call behind the governance's answer, with what it sends.
  abbrev pub route_governed :
      ProcessRouteRequest → Result TrafficGovernanceResult → Sent × Outcome ProcessRouteResponse
  route_governed req (err e) = ([], failed e)
  route_governed req (ok g) =
      behind_gate (reject_denied_traffic g)
        (dispatch_route_mirrors sender g req.mirror_request, route_allowed req g)

  -- `router`: the context holds no authenticated caller.
  unfoldable pub router : ProcessRouteRequest → Sent × Outcome ProcessRouteResponse
  unfolding evaluate_traffic_governance_from_cache dispatch_route_mirrors mock_route_response
      reject_denied_traffic flow_choose_instances
  router req =
      let ctx = record req.route_info { authenticated_caller = none } in
      route_governed req
        (evaluate_traffic_governance_from_cache is_blank decode_hex sha256 compile hash load ctx)

-- `load_balance`: `choose` is the balancer's `choose_instance`.
unfoldable pub load_balance :
    {B : Type 0}
    → (B → ServiceInstances → Outcome Instance)
    → Table B
    → String
    → String
    → ServiceInstances
    → Outcome Instance
unfolding lookup_loadbalancer
load_balance choose balancers default_policy policy instances =
    let lb_policy = if str_eq policy "" then default_policy else policy in
    elim (lookup_loadbalancer balancers lb_policy) [
      | none ↦ failed plugin_error
      | some lb ↦ choose lb instances
    ]
