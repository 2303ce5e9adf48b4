-- ===== src/Core/Cache.antt =====
-- The keys of the resource cache (src/core/model/cache.rs): the kinds of resource, the texts and file
-- names that stand for them, and the requests that ask the server for them. The requests hold the
-- fields that are filled in; `sequence` of a trust bundle query is none where its text does not parse.
pub mod Texts
pub mod Names
pub mod Failover
pub mod Files
pub mod Kinds
pub mod Paths
pub mod Delivered
pub mod Keys
use pole_client_rust.Common.{String, Option, none, some, List, [], ◌∷◌, Table, lookup, concat}
use pole_client_rust.Core.Outcome.{Outcome, value, panicked, ◌>>=◌}

pub data EventType : Type 0 where
  unknown instance_event router_rule circuit_breaker_rule rate_limit_rule : EventType
  service fault_detect_rule service_contract lane_rule lossless_rule : EventType
  traffic_security_rule traffic_mirror_rule traffic_mock_rule service_identity
        service_identity_bundle :
      EventType
  namespaces config_file config_group config_groups : EventType

-- `EventType::to_string`
unfoldable pub event_name : EventType → String
event_name unknown = "unknown"
event_name instance_event = "Instance"
event_name router_rule = "RouterRule"
event_name circuit_breaker_rule = "CircuitBreakerRule"
event_name rate_limit_rule = "RateLimitRule"
event_name service = "Service"
event_name fault_detect_rule = "FaultDetectRule"
event_name service_contract = "ServiceContract"
event_name lane_rule = "LaneRule"
event_name lossless_rule = "LosslessRule"
event_name traffic_security_rule = "TrafficSecurityRule"
event_name traffic_mirror_rule = "TrafficMirrorRule"
event_name traffic_mock_rule = "TrafficMockRule"
event_name service_identity = "ServiceIdentity"
event_name service_identity_bundle = "ServiceIdentityBundle"
event_name namespaces = "Namespaces"
event_name config_file = "ConfigFile"
event_name config_group = "ConfigGroup"
event_name config_groups = "ConfigGroups"

unfoldable pub to_persist_file : EventType → String
to_persist_file unknown = "unknown"
to_persist_file instance_event = "instance.data"
to_persist_file router_rule = "router_rule.data"
to_persist_file circuit_breaker_rule = "circuit_breaker_rule.data"
to_persist_file rate_limit_rule = "rate_limit_rule.data"
to_persist_file service = "service.data"
to_persist_file fault_detect_rule = "fault_detect_rule.data"
to_persist_file service_contract = "service_contract.data"
to_persist_file lane_rule = "lane_rule.data"
to_persist_file lossless_rule = "lossless_rule.data"
to_persist_file traffic_security_rule = "traffic_security_rule.data"
to_persist_file traffic_mirror_rule = "traffic_mirror_rule.data"
to_persist_file traffic_mock_rule = "traffic_mock_rule.data"
to_persist_file service_identity = "unknown"
to_persist_file service_identity_bundle = "unknown"
to_persist_file namespaces = "namespaces.data"
to_persist_file config_file = "config_file.data"
to_persist_file config_group = "config_group.data"
to_persist_file config_groups = "unknown"

-- `DiscoverRequestType`, as far as it is asked for.
pub data DiscoverRequestType : Type 0 where
  instance_request custom_route_rule_request circuit_breaker_request : DiscoverRequestType
  rate_limit_request services_request fault_detector_request : DiscoverRequestType
  lane_request lossless_request traffic_security_rule_request : DiscoverRequestType
  traffic_mirror_rule_request traffic_mock_rule_request service_identity_request :
      DiscoverRequestType
  service_identity_bundle_request : DiscoverRequestType

-- `DiscoverResponseType`; `other_response` stands for those that no code here names.
pub data DiscoverResponseType : Type 0 where
  instance_response custom_route_rule circuit_breaker rate_limit : DiscoverResponseType
  services fault_detector lane lossless : DiscoverResponseType
  traffic_security_response traffic_mirror_response traffic_mock_response namespaces_response :
      DiscoverResponseType
  identity_response identity_bundle_response : DiscoverResponseType
  other_response : DiscoverResponseType

unfoldable pub naming_spec_to_persist_file : DiscoverResponseType → String
naming_spec_to_persist_file instance_response = "instance.data"
naming_spec_to_persist_file custom_route_rule = "router_rule.data"
naming_spec_to_persist_file circuit_breaker = "circuit_breaker_rule.data"
naming_spec_to_persist_file rate_limit = "rate_limit_rule.data"
naming_spec_to_persist_file services = "service.data"
naming_spec_to_persist_file fault_detector = "fault_detect_rule.data"
naming_spec_to_persist_file lane = "lane_rule.data"
naming_spec_to_persist_file lossless = "lossless_rule.data"
naming_spec_to_persist_file traffic_security_response = "traffic_security_rule.data"
naming_spec_to_persist_file traffic_mirror_response = "traffic_mirror_rule.data"
naming_spec_to_persist_file traffic_mock_response = "traffic_mock_rule.data"
naming_spec_to_persist_file namespaces_response = "namespaces.data"
naming_spec_to_persist_file identity_response = "unknown"
naming_spec_to_persist_file identity_bundle_response = "unknown"
naming_spec_to_persist_file other_response = "unknown"

pub record ResourceEventKey : Type 0 where
  pub namespace : String
  pub event_type : EventType
  pub filter : Table String

pub record SpecService : Type 0 where
  pub namespace : String
  pub name : String
  pub revision : String

pub record SpecConfigFile : Type 0 where
  pub namespace : String
  pub group : String
  pub name : String

-- `unwrap` of an option.
abbrev pub unwrap : {A : Type 0} → Option A → Outcome A
unwrap none = panicked
unwrap (some a) = value a

unfoldable pub to_spec_service : ResourceEventKey → String → Outcome SpecService
to_spec_service key revision = unwrap (lookup "service" key.filter) >>= λ svc.
    value (record { namespace = key.namespace; name = svc; revision = revision })

unfoldable pub to_spec_config_file : ResourceEventKey → Outcome SpecConfigFile
to_spec_config_file key = unwrap (lookup "group" key.filter) >>= λ group.
    unwrap (lookup "file" key.filter) >>= λ file_name.
    value (record { namespace = key.namespace; group = group; name = file_name })

unfoldable pub to_spec_config_group : ResourceEventKey → Outcome SpecConfigFile
to_spec_config_group key = unwrap (lookup "group" key.filter) >>= λ group.
    value (record { namespace = key.namespace; group = group; name = "" })

-- A request names a service, or asks for the trust bundle after a version and a sequence.
pub data DiscoverRequest : Type 0 where
  for_service : DiscoverRequestType → SpecService → DiscoverRequest
  for_bundle : String → Option String → DiscoverRequest

-- The request type of an event type that is asked for by its service.
unfoldable pub service_request_type : EventType → Option DiscoverRequestType
service_request_type unknown = none
service_request_type instance_event = some instance_request
service_request_type router_rule = some custom_route_rule_request
service_request_type circuit_breaker_rule = some circuit_breaker_request
service_request_type rate_limit_rule = some rate_limit_request
service_request_type service = some services_request
service_request_type fault_detect_rule = some fault_detector_request
service_request_type service_contract = none
service_request_type lane_rule = some lane_request
service_request_type lossless_rule = some lossless_request
service_request_type traffic_security_rule = some traffic_security_rule_request
service_request_type traffic_mirror_rule = some traffic_mirror_rule_request
service_request_type traffic_mock_rule = some traffic_mock_rule_request
service_request_type service_identity = some service_identity_request
service_request_type service_identity_bundle = none
service_request_type namespaces = none
service_request_type config_file = none
service_request_type config_group = none
service_request_type config_groups = none

abbrev pub request_by_type :
    Option DiscoverRequestType → ResourceEventKey → String → Outcome (Option DiscoverRequest)
request_by_type none key revision = value none
request_by_type (some type) key revision =
    to_spec_service key revision >>= λ svc. value (some (for_service type svc))

abbrev pub request_by_event :
    EventType → ResourceEventKey → String → Outcome (Option DiscoverRequest)
request_by_event service_identity_bundle key revision =
    value (some (for_bundle revision (lookup "sequence" key.filter)))
request_by_event event key revision = request_by_type (service_request_type event) key revision

unfoldable pub to_discover_request : ResourceEventKey → String → Outcome (Option DiscoverRequest)
unfolding service_request_type to_spec_service
to_discover_request key revision = request_by_event key.event_type key revision

pub data ConfigDiscoverRequestType : Type 0 where
  config_file_request config_file_names_request : ConfigDiscoverRequestType

pub record ConfigDiscoverRequest : Type 0 where
  pub request_type : ConfigDiscoverRequestType
  pub file : SpecConfigFile
  pub revision : String

abbrev pub config_request_by_event :
    EventType → ResourceEventKey → String → Outcome (Option ConfigDiscoverRequest)
config_request_by_event config_file key revision = to_spec_config_file key >>= λ file.
    value (some (record { request_type = config_file_request; file = file; revision = revision }))
config_request_by_event config_group key revision = to_spec_config_group key >>= λ file.
    value
      (some (record { request_type = config_file_names_request; file = file; revision = revision }))
config_request_by_event event key revision = value none

unfoldable pub to_config_request :
    ResourceEventKey → String → Outcome (Option ConfigDiscoverRequest)
unfolding to_spec_config_file to_spec_config_group
to_config_request key revision = config_request_by_event key.event_type key revision

-- The last part of the key's text.
abbrev pub resource_name : EventType → Table String → Outcome String
resource_name config_file filter = unwrap (lookup "group" filter) >>= λ group.
    unwrap (lookup "file" filter) >>= λ file. value (concat (group ∷ "#" ∷ file ∷ []))
resource_name config_group filter = unwrap (lookup "group" filter)
resource_name event filter = unwrap (lookup "service" filter)

-- `ResourceEventKey::to_string`
unfoldable pub key_text : ResourceEventKey → Outcome String
unfolding event_name concat
key_text key = resource_name key.event_type key.filter >>= λ name.
    value (concat (event_name key.event_type ∷ "#" ∷ key.namespace ∷ "#" ∷ name ∷ []))
