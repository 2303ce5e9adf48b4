-- ===== src/Match/Label.antt =====
-- Labels and traffic against a rule (src/plugins/router/rule/helper.rs). The messages are those of the
-- control plane, with the fields that are read; an enum field is what its accessor gives, save that
-- `value_type` is none at a number that is no variant. `compile` is `regex::Regex::new`.
use pole_client_rust.Common.{
  ℕ, String, str_eq, Bool, true, false, not, if◌then◌else◌, ◌==◌, ◌&&◌, Option, none, some, List,
  [], ◌∷◌, any, all, is_empty, Table, insert, ℤ, leb_ℤ, parse_i64, split_comma, split_point,
  strip_dollar,
}
use pole_client_rust.Core.Naming.{ServiceKey}
use pole_client_rust.Core.Context.{RouteContext}
use pole_client_rust.Core.Traffic.{
  ArgumentType, custom, method, path, header, cookie, query, caller_service, caller_ip,
  parse_from_str,
}

pub data MatchStringType : Type 0 where
  exact regex not_equals in_list not_in range : MatchStringType

pub data ValueType : Type 0 where
  text parameter : ValueType

pub record MatchString : Type 0 where
  pub match_type : MatchStringType
  pub value : String
  pub value_type : Option ValueType

-- The accessor `value_type()`: the first variant for an unknown number.
abbrev pub is_parameter : MatchString → Bool
is_parameter m = elim m.value_type [ some parameter ↦ true | _ ↦ false ]

pub data SourceType : Type 0 where
  custom_source method_source header_source query_source caller_service_source : SourceType
  caller_ip_source path_source cookie_source caller_metadata_source : SourceType

pub record SourceMatch : Type 0 where
  pub source_type : SourceType
  pub key : String
  pub value : Option MatchString

pub data TrafficMatchMode : Type 0 where
  and_mode or_mode : TrafficMatchMode

pub record TrafficMatchRule : Type 0 where
  pub arguments : List SourceMatch
  pub random_percent : ℕ
  pub match_mode : TrafficMatchMode

pub record DestinationGroup : Type 0 where
  pub service : String
  pub namespace : String
  pub labels : Table MatchString
  pub priority : ℕ
  pub isolate : Bool

pub record CustomRouteRule : Type 0 where
  pub name : String
  pub arguments : Option TrafficMatchRule
  pub destinations : List DestinationGroup

unfoldable pub is_match_all : String → Bool
is_match_all s = str_eq s "*"

unfoldable pub argument_type_from_source : SourceType → ArgumentType
argument_type_from_source method_source = method
argument_type_from_source header_source = header
argument_type_from_source query_source = query
argument_type_from_source caller_ip_source = caller_ip
argument_type_from_source path_source = path
argument_type_from_source cookie_source = cookie
argument_type_from_source caller_service_source = caller_service
argument_type_from_source caller_metadata_source = caller_service
argument_type_from_source custom_source = custom

unfoldable pub within : Option ℤ → Option ℤ → Option ℤ → Bool
unfolding leb_ℤ
within (some low) (some high) (some n) = leb_ℤ low n && leb_ℤ n high
within _ _ _ = false

-- Two bounds, or nothing matches.
unfoldable pub range_matches : List String → String → Bool
unfolding within
range_matches (low ∷ high ∷ []) actual = within (parse_i64 low) (parse_i64 high) (parse_i64 actual)
range_matches _ actual = false

unfoldable pub current_source_value : RouteContext → SourceMatch → Option String
unfolding argument_type_from_source
current_source_value ctx s = elim (split_point s.key) [
  | some (prefix, key) ↦ ctx.traffic_label_provider (parse_from_str (strip_dollar prefix)) key
  | none ↦ ctx.traffic_label_provider (argument_type_from_source s.source_type) s.key
]

unfoldable pub resolve_actual_value : RouteContext → SourceMatch → MatchString → Option String
resolve_actual_value ctx s m = elim m.value_type [
  | none ↦ none
  | some text ↦ current_source_value ctx s
  | some parameter ↦
      if str_eq m.value ""
      then current_source_value ctx s
      else ctx.traffic_label_provider (argument_type_from_source s.source_type) m.value
]

-- PARAMETER with an empty value: the request's own value is taken.
abbrev pub is_capture : MatchString → Bool
is_capture m = is_parameter m && str_eq m.value ""

-- One step of the `collect`: an argument that captures writes its key.
abbrev captured : RouteContext → SourceMatch → Option MatchString → Option String
captured ctx s none = none
captured ctx s (some m) = if is_capture m then current_source_value ctx s else none

abbrev write : String → Option String → Table String → Table String
write k none t = t
write k (some v) t = insert k v t

unfoldable pub collect_parameters : RouteContext → Table String → List SourceMatch → Table String
collect_parameters ctx t [] = t
collect_parameters ctx t (s ∷ rest) =
    collect_parameters ctx (write s.key (captured ctx s s.value) t) rest

unfoldable pub traffic_match_rule_request_parameters :
    RouteContext → TrafficMatchRule → Table String
unfolding collect_parameters
traffic_match_rule_request_parameters ctx rule = collect_parameters ctx [] rule.arguments

-- The loop of `match_callee_caller`.
unfoldable pub match_destinations : ServiceKey → List DestinationGroup → Bool
match_destinations callee [] = true
match_destinations callee (d ∷ rest) =
    let others = match_destinations callee rest in
    if not (str_eq d.service callee.name) && not (is_match_all d.service)
    then false
    else if not (str_eq d.namespace callee.namespace) && not (is_match_all d.namespace)
    then false
    else others

unfoldable pub match_callee_caller : RouteContext → CustomRouteRule → Bool
unfolding match_destinations
match_callee_caller ctx rule = match_destinations ctx.callee rule.destinations

module _ (compile : String → Option (String → Bool)) where
  unfoldable pub regex_matches : String → String → Bool
  regex_matches pattern actual = elim (compile pattern) [
    | some is_match ↦ is_match actual
    | none ↦ false
  ]

  unfoldable pub match_label_value : MatchString → String → Bool
  unfolding regex_matches range_matches
  match_label_value rule actual = if is_match_all rule.value then true else elim rule.match_type [
    | exact ↦ str_eq rule.value actual
    | not_equals ↦ not (str_eq rule.value actual)
    | regex ↦ regex_matches rule.value actual
    | in_list ↦ any (λ x. str_eq x actual) (split_comma rule.value)
    | not_in ↦ not (any (λ x. str_eq x actual) (split_comma rule.value))
    | range ↦ range_matches (split_comma rule.value) actual
  ]

  abbrev value_matches : MatchString → Option String → Bool
  value_matches m none = false
  value_matches m (some actual) = if is_capture m then true else match_label_value m actual

  unfoldable pub source_match_matches : RouteContext → SourceMatch → Bool
  unfolding resolve_actual_value
  source_match_matches ctx s = elim s.value [
    | none ↦ false
    | some m ↦ value_matches m (resolve_actual_value ctx s m)
  ]

  unfoldable pub traffic_match_rule_match : RouteContext → TrafficMatchRule → Bool
  traffic_match_rule_match ctx rule =
      if rule.random_percent == 0
      then false
      else if is_empty rule.arguments
      then true
      else elim rule.match_mode [
        | or_mode ↦ any (source_match_matches ctx) rule.arguments
        | and_mode ↦ all (source_match_matches ctx) rule.arguments
      ]

  unfoldable pub route_traffic_match : RouteContext → CustomRouteRule → Bool
  route_traffic_match ctx rule =
      if not (match_callee_caller ctx rule)
      then false
      else elim rule.arguments [ some m ↦ traffic_match_rule_match ctx m | none ↦ true ]
