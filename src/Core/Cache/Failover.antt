-- ===== src/Core/Cache/Failover.antt =====
-- The files of the answers about services (src/plugins/cache/memory/failover.rs) and the keys that the
-- connector delivers the answers under (src/plugins/connector/grpc/connector.rs). Opening, reading and
-- writing a file are left out: a call gives the path that it opens.
use pole_client_rust.Common.{
  String, Bool, true, false, if◌then◌else◌, Option, none, some, [], ◌∷◌, concat, lookup,
}
use pole_client_rust.Core.Error.{internal_error}
use pole_client_rust.Core.Outcome.{Outcome, value, failed, ◌>>=◌}
use pole_client_rust.Core.Naming.{ServiceKey}
use pole_client_rust.Core.Cache.{
  EventType, instance_event, router_rule, circuit_breaker_rule, rate_limit_rule, service,
  fault_detect_rule, lane_rule, lossless_rule, traffic_security_rule, traffic_mirror_rule,
  traffic_mock_rule, service_identity, service_identity_bundle, event_name, to_persist_file,
  DiscoverResponseType, instance_response, custom_route_rule, rate_limit, circuit_breaker,
  fault_detector, lane, lossless, traffic_security_response, traffic_mirror_response,
  traffic_mock_response, services, identity_response, identity_bundle_response,
  naming_spec_to_persist_file, ResourceEventKey, SpecService, unwrap,
}

pub record LocalCacheConfig : Type 0 where
  pub persist_enable : Bool
  pub persist_dir : String

-- An answer of the server, as far as it says what it is about. The service of an identity is the one
-- that the identity is for.
pub record DiscoverResponse : Type 0 where
  pub type : DiscoverResponseType
  pub service : Option SpecService
  pub service_identity : Option ServiceKey
  pub has_identity_bundle : Bool

unfoldable pub services_file : LocalCacheConfig → String → String
unfolding concat
services_file conf namespace =
    concat (conf.persist_dir ∷ "/svc#" ∷ namespace ∷ "#" ∷ "services.data" ∷ [])

unfoldable pub service_file : LocalCacheConfig → String → String → String → String
unfolding concat
service_file conf namespace name file =
    concat (conf.persist_dir ∷ "/svc#" ∷ namespace ∷ "#" ∷ name ∷ "#" ∷ file ∷ [])

-- The path for a kind that is kept for each service.
abbrev pub path_of : EventType → LocalCacheConfig → ResourceEventKey → Outcome String
path_of event conf key = unwrap (lookup "service" key.filter) >>= λ name.
    value (service_file conf key.namespace name (to_persist_file event))

abbrev pub load_file_of : EventType → LocalCacheConfig → ResourceEventKey → Outcome String
load_file_of service conf key = value (services_file conf key.namespace)
load_file_of instance_event conf key = path_of instance_event conf key
load_file_of router_rule conf key = path_of router_rule conf key
load_file_of rate_limit_rule conf key = path_of rate_limit_rule conf key
load_file_of circuit_breaker_rule conf key = path_of circuit_breaker_rule conf key
load_file_of fault_detect_rule conf key = path_of fault_detect_rule conf key
load_file_of lane_rule conf key = path_of lane_rule conf key
load_file_of lossless_rule conf key = path_of lossless_rule conf key
load_file_of traffic_security_rule conf key = path_of traffic_security_rule conf key
load_file_of traffic_mirror_rule conf key = path_of traffic_mirror_rule conf key
load_file_of traffic_mock_rule conf key = path_of traffic_mock_rule conf key
load_file_of event conf key = failed internal_error

-- `failover_naming_load`: the file that is opened.
unfoldable pub failover_naming_load : LocalCacheConfig → ResourceEventKey → Outcome String
unfolding services_file service_file to_persist_file
failover_naming_load conf key =
    if conf.persist_enable then load_file_of key.event_type conf key else failed internal_error

abbrev pub rule_file :
    DiscoverResponseType → LocalCacheConfig → SpecService → Outcome (Option String)
rule_file type conf svc =
    value (some (service_file conf svc.namespace svc.name (naming_spec_to_persist_file type)))

abbrev pub save_file_of :
    DiscoverResponseType → LocalCacheConfig → SpecService → Outcome (Option String)
save_file_of services conf svc = value (some (services_file conf svc.namespace))
save_file_of instance_response conf svc = rule_file instance_response conf svc
save_file_of custom_route_rule conf svc = rule_file custom_route_rule conf svc
save_file_of rate_limit conf svc = rule_file rate_limit conf svc
save_file_of circuit_breaker conf svc = rule_file circuit_breaker conf svc
save_file_of fault_detector conf svc = rule_file fault_detector conf svc
save_file_of lane conf svc = rule_file lane conf svc
save_file_of lossless conf svc = rule_file lossless conf svc
save_file_of traffic_security_response conf svc = rule_file traffic_security_response conf svc
save_file_of traffic_mirror_response conf svc = rule_file traffic_mirror_response conf svc
save_file_of traffic_mock_response conf svc = rule_file traffic_mock_response conf svc
save_file_of type conf svc = failed internal_error

-- `save_naming_failover`: the file that is written, if any.
unfoldable pub save_naming_failover : LocalCacheConfig → DiscoverResponse → Outcome (Option String)
unfolding services_file service_file naming_spec_to_persist_file
save_naming_failover conf value_saved =
    if conf.persist_enable
    then (unwrap value_saved.service >>= λ svc. save_file_of value_saved.type conf svc)
    else value none

-- `{:?}` of an event type that has a watch key is its name.
unfoldable pub watch_key : EventType → String → String → String
unfolding event_name concat
watch_key event namespace name = concat (event_name event ∷ "#" ∷ namespace ∷ "#" ∷ name ∷ [])

abbrev pub service_rule_watch_key : Option SpecService → EventType → Option String
service_rule_watch_key none event = none
service_rule_watch_key (some svc) event = some (watch_key event svc.namespace svc.name)

abbrev pub services_key : Option SpecService → Option String
services_key none = none
services_key (some svc) = some svc.namespace

abbrev pub identity_key : EventType → Option ServiceKey → Option String
identity_key event none = none
identity_key event (some identity) = some (watch_key event identity.namespace identity.name)

abbrev pub bundle_key : Bool → Option ServiceKey → Option String
bundle_key false identity = none
bundle_key true identity = identity_key service_identity_bundle identity

abbrev pub watch_key_of :
    DiscoverResponseType → DiscoverResponse → Option ServiceKey → Option String
watch_key_of services resp identity = services_key resp.service
watch_key_of instance_response resp identity = service_rule_watch_key resp.service instance_event
watch_key_of custom_route_rule resp identity = service_rule_watch_key resp.service router_rule
watch_key_of rate_limit resp identity = service_rule_watch_key resp.service rate_limit_rule
watch_key_of circuit_breaker resp identity =
    service_rule_watch_key resp.service circuit_breaker_rule
watch_key_of fault_detector resp identity = service_rule_watch_key resp.service fault_detect_rule
watch_key_of lane resp identity = service_rule_watch_key resp.service lane_rule
watch_key_of lossless resp identity = service_rule_watch_key resp.service lossless_rule
watch_key_of traffic_security_response resp identity =
    service_rule_watch_key resp.service traffic_security_rule
watch_key_of traffic_mirror_response resp identity =
    service_rule_watch_key resp.service traffic_mirror_rule
watch_key_of traffic_mock_response resp identity =
    service_rule_watch_key resp.service traffic_mock_rule
watch_key_of identity_response resp identity = identity_key service_identity resp.service_identity
watch_key_of identity_bundle_response resp identity = bundle_key resp.has_identity_bundle identity
watch_key_of type resp identity = none

-- `discover_response_watch_key`, with the service that the identity of the SDK is configured for.
unfoldable pub discover_response_watch_key : DiscoverResponse → Option ServiceKey → Option String
unfolding watch_key
discover_response_watch_key resp identity = watch_key_of resp.type resp identity
