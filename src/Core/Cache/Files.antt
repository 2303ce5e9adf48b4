-- ===== src/Core/Cache/Files.antt =====
-- The file names of the kinds of resource (src/core/model/cache.rs).
use pole_client_rust.Common.{◌≡◌, ◌≢◌, refl, String, str_eq, if◌then◌else◌, arith}
use pole_client_rust.Core.Cache.{
  EventType, unknown, instance_event, router_rule, circuit_breaker_rule, rate_limit_rule, service,
  fault_detect_rule, service_contract, lane_rule, lossless_rule, traffic_security_rule,
  traffic_mirror_rule, traffic_mock_rule, service_identity, service_identity_bundle, namespaces,
  config_file, config_group, config_groups, to_persist_file,
}
use pole_client_rust.Core.Cache.Texts.{HasNoHash}

-- The event type that a file is for.
pub file_owner : String → EventType
file_owner f =
    if str_eq f "instance.data"
    then instance_event
    else if str_eq f "router_rule.data"
    then router_rule
    else if str_eq f "circuit_breaker_rule.data"
    then circuit_breaker_rule
    else if str_eq f "rate_limit_rule.data"
    then rate_limit_rule
    else if str_eq f "service.data"
    then service
    else if str_eq f "fault_detect_rule.data"
    then fault_detect_rule
    else if str_eq f "service_contract.data"
    then service_contract
    else if str_eq f "lane_rule.data"
    then lane_rule
    else if str_eq f "lossless_rule.data"
    then lossless_rule
    else if str_eq f "traffic_security_rule.data"
    then traffic_security_rule
    else if str_eq f "traffic_mirror_rule.data"
    then traffic_mirror_rule
    else if str_eq f "traffic_mock_rule.data"
    then traffic_mock_rule
    else if str_eq f "namespaces.data"
    then namespaces
    else if str_eq f "config_file.data"
    then config_file
    else if str_eq f "config_group.data"
    then config_group
    else unknown

-- The file of an event type that has one leads back to it.
pub file_owner-to_persist_file :
    (t : EventType) → to_persist_file t ≢ "unknown" → file_owner (to_persist_file t) ≡ t
unfolding file_owner to_persist_file
file_owner-to_persist_file unknown h = absurd (h refl)
file_owner-to_persist_file instance_event h = refl
file_owner-to_persist_file router_rule h = refl
file_owner-to_persist_file circuit_breaker_rule h = refl
file_owner-to_persist_file rate_limit_rule h = refl
file_owner-to_persist_file service h = refl
file_owner-to_persist_file fault_detect_rule h = refl
file_owner-to_persist_file service_contract h = refl
file_owner-to_persist_file lane_rule h = refl
file_owner-to_persist_file lossless_rule h = refl
file_owner-to_persist_file traffic_security_rule h = refl
file_owner-to_persist_file traffic_mirror_rule h = refl
file_owner-to_persist_file traffic_mock_rule h = refl
file_owner-to_persist_file service_identity h = absurd (h refl)
file_owner-to_persist_file service_identity_bundle h = absurd (h refl)
file_owner-to_persist_file namespaces h = refl
file_owner-to_persist_file config_file h = refl
file_owner-to_persist_file config_group h = refl
file_owner-to_persist_file config_groups h = absurd (h refl)

pub to_persist_file_no_hash : (t : EventType) → HasNoHash (to_persist_file t)
unfolding to_persist_file
to_persist_file_no_hash unknown = omega arith
to_persist_file_no_hash instance_event = omega arith
to_persist_file_no_hash router_rule = omega arith
to_persist_file_no_hash circuit_breaker_rule = omega arith
to_persist_file_no_hash rate_limit_rule = omega arith
to_persist_file_no_hash service = omega arith
to_persist_file_no_hash fault_detect_rule = omega arith
to_persist_file_no_hash service_contract = omega arith
to_persist_file_no_hash lane_rule = omega arith
to_persist_file_no_hash lossless_rule = omega arith
to_persist_file_no_hash traffic_security_rule = omega arith
to_persist_file_no_hash traffic_mirror_rule = omega arith
to_persist_file_no_hash traffic_mock_rule = omega arith
to_persist_file_no_hash service_identity = omega arith
to_persist_file_no_hash service_identity_bundle = omega arith
to_persist_file_no_hash namespaces = omega arith
to_persist_file_no_hash config_file = omega arith
to_persist_file_no_hash config_group = omega arith
to_persist_file_no_hash config_groups = omega arith
