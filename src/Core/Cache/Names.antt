-- ===== src/Core/Cache/Names.antt =====
-- The names of the kinds of resource (src/core/model/cache.rs).
use pole_client_rust.Common.{◌≡◌, refl, String, str_eq, if◌then◌else◌, arith}
use pole_client_rust.Core.Cache.{
  EventType, unknown, instance_event, router_rule, circuit_breaker_rule, rate_limit_rule, service,
  fault_detect_rule, service_contract, lane_rule, lossless_rule, traffic_security_rule,
  traffic_mirror_rule, traffic_mock_rule, service_identity, service_identity_bundle, namespaces,
  config_file, config_group, config_groups, event_name,
}
use pole_client_rust.Core.Cache.Texts.{HasNoHash}

pub event_named : String → EventType
event_named s =
    if str_eq s "Instance"
    then instance_event
    else if str_eq s "RouterRule"
    then router_rule
    else if str_eq s "CircuitBreakerRule"
    then circuit_breaker_rule
    else if str_eq s "RateLimitRule"
    then rate_limit_rule
    else if str_eq s "Service"
    then service
    else if str_eq s "FaultDetectRule"
    then fault_detect_rule
    else if str_eq s "ServiceContract"
    then service_contract
    else if str_eq s "LaneRule"
    then lane_rule
    else if str_eq s "LosslessRule"
    then lossless_rule
    else if str_eq s "TrafficSecurityRule"
    then traffic_security_rule
    else if str_eq s "TrafficMirrorRule"
    then traffic_mirror_rule
    else if str_eq s "TrafficMockRule"
    then traffic_mock_rule
    else if str_eq s "ServiceIdentity"
    then service_identity
    else if str_eq s "ServiceIdentityBundle"
    then service_identity_bundle
    else if str_eq s "Namespaces"
    then namespaces
    else if str_eq s "ConfigFile"
    then config_file
    else if str_eq s "ConfigGroup"
    then config_group
    else if str_eq s "ConfigGroups"
    then config_groups
    else unknown

pub event_named-event_name : (t : EventType) → event_named (event_name t) ≡ t
unfolding event_named event_name
event_named-event_name unknown = refl
event_named-event_name instance_event = refl
event_named-event_name router_rule = refl
event_named-event_name circuit_breaker_rule = refl
event_named-event_name rate_limit_rule = refl
event_named-event_name service = refl
event_named-event_name fault_detect_rule = refl
event_named-event_name service_contract = refl
event_named-event_name lane_rule = refl
event_named-event_name lossless_rule = refl
event_named-event_name traffic_security_rule = refl
event_named-event_name traffic_mirror_rule = refl
event_named-event_name traffic_mock_rule = refl
event_named-event_name service_identity = refl
event_named-event_name service_identity_bundle = refl
event_named-event_name namespaces = refl
event_named-event_name config_file = refl
event_named-event_name config_group = refl
event_named-event_name config_groups = refl

pub event_name_no_hash : (t : EventType) → HasNoHash (event_name t)
unfolding event_name
event_name_no_hash unknown = omega arith
event_name_no_hash instance_event = omega arith
event_name_no_hash router_rule = omega arith
event_name_no_hash circuit_breaker_rule = omega arith
event_name_no_hash rate_limit_rule = omega arith
event_name_no_hash service = omega arith
event_name_no_hash fault_detect_rule = omega arith
event_name_no_hash service_contract = omega arith
event_name_no_hash lane_rule = omega arith
event_name_no_hash lossless_rule = omega arith
event_name_no_hash traffic_security_rule = omega arith
event_name_no_hash traffic_mirror_rule = omega arith
event_name_no_hash traffic_mock_rule = omega arith
event_name_no_hash service_identity = omega arith
event_name_no_hash service_identity_bundle = omega arith
event_name_no_hash namespaces = omega arith
event_name_no_hash config_file = omega arith
event_name_no_hash config_group = omega arith
event_name_no_hash config_groups = omega arith
