-- ===== src/Policy.antt =====
-- Traffic governance (src/traffic/policy): the rules of a called service that refuse a request, send a
-- copy of it elsewhere, or answer it in the service's place. The messages are those of the control
-- plane, with the fields that are read. `mode` is none at a number that is no variant; `action` is
-- what its accessor gives. Of the managed identity settings only their presence is read.
pub mod Security
pub mod Traffic
pub mod Governance
pub mod Address
pub mod Tests
use pole_client_rust.Common.{
  ℕ, String, str_eq, Bool, true, ◌&&◌, ◌||◌, Option, none, some, List, ◌∷◌, Table,
}
use pole_client_rust.Core.Traffic.{method, path}
use pole_client_rust.Core.Context.{RouteContext}
use pole_client_rust.Match.Label.{MatchString, TrafficMatchRule, traffic_match_rule_match}
use pole_client_rust.Match.Index.{Api, ApiMatchInput}

pub record TrafficSecurityRejectEffect : Type 0 where
  pub code : String
  pub message : String

pub data TrafficSecurityAction : Type 0 where
  traffic_security_allow traffic_security_deny : TrafficSecurityAction

pub data TrafficSecurityAuthMode : Type 0 where
  legacy_request_match managed_identity custom_header : TrafficSecurityAuthMode

pub record CustomHeaderAuthentication : Type 0 where
  pub header_name : String
  pub value : String
  pub value_sha256 : String

pub record TrafficSecurityAuthentication : Type 0 where
  pub mode : Option TrafficSecurityAuthMode
  pub has_managed_identity : Bool
  pub custom_header_settings : Option CustomHeaderAuthentication

pub record SourceService : Type 0 where
  pub namespace : String
  pub service : String

pub record ManagedCallerSelector : Type 0 where
  pub any_authenticated : Bool
  pub callers : List SourceService

pub record TrafficSecurityPolicy : Type 0 where
  pub apis : List Api
  pub traffic_match_rule : Option TrafficMatchRule
  pub managed_caller : Option ManagedCallerSelector
  pub action : TrafficSecurityAction
  pub reject_effect : Option TrafficSecurityRejectEffect

pub record TrafficSecurityRule : Type 0 where
  pub enable : Bool
  pub priority : ℕ
  pub authentication : Option TrafficSecurityAuthentication
  pub policies : List TrafficSecurityPolicy

pub record MirrorDestination : Type 0 where
  pub namespace : String
  pub service : String
  pub labels : Table MatchString

pub record MirrorRule : Type 0 where
  pub disable : Bool
  pub mirror_percent : ℕ
  pub apis : List Api
  pub traffic_match_rule : Option TrafficMatchRule
  pub destination : Option MirrorDestination

pub record TrafficMirror : Type 0 where
  pub enable : Bool
  pub priority : ℕ
  pub caller : Option SourceService
  pub rules : List MirrorRule

pub record MockResponse : Type 0 where
  pub code : String
  pub body : String

pub record MockRule : Type 0 where
  pub disable : Bool
  pub mock_percent : ℕ
  pub apis : List Api
  pub traffic_match_rule : Option TrafficMatchRule
  pub response : Option MockResponse

pub record TrafficMock : Type 0 where
  pub enable : Bool
  pub priority : ℕ
  pub caller : Option SourceService
  pub rules : List MockRule

pub record TrafficSecurityDecision : Type 0 where
  pub allowed : Bool
  pub reject_effect : Option TrafficSecurityRejectEffect

abbrev pub default_decision : TrafficSecurityDecision
default_decision = record { allowed = true; reject_effect = none }

pub record TrafficGovernanceRules : Type 0 where
  pub security_rules : List TrafficSecurityRule
  pub mirror_rules : List TrafficMirror
  pub mock_rules : List TrafficMock

pub record TrafficGovernanceResult : Type 0 where
  pub security : TrafficSecurityDecision
  pub mirrors : List MirrorDestination
  pub mock : Option MockResponse

unfoldable pub string_matches_service : String → String → Bool
string_matches_service rule_value actual =
    str_eq rule_value "" || str_eq rule_value "*" || str_eq rule_value actual

unfoldable pub source_service_matches : Option SourceService → RouteContext → Bool
unfolding string_matches_service
source_service_matches none ctx = true
source_service_matches (some source) ctx =
    string_matches_service source.namespace ctx.caller.namespace
    && string_matches_service source.service ctx.caller.name

unfoldable pub api_match_input : RouteContext → ApiMatchInput
api_match_input ctx = record {
  method = ctx.traffic_label_provider method "";
  path = ctx.traffic_label_provider path "";
}

unfoldable pub traffic_rule_matches :
    (String → Option (String → Bool)) → RouteContext → Option TrafficMatchRule → Bool
traffic_rule_matches compile ctx none = true
traffic_rule_matches compile ctx (some rule) = traffic_match_rule_match compile ctx rule
