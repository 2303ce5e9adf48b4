-- ===== src/RateLimit/Rule.antt =====
-- The rate-limit rules of the control plane and the keys of the counters
-- (src/traffic/ratelimit/default.rs). `digest` is SHA-256 of a text, in hexadecimal.
use pole_client_rust.Common.{
  ℕ, max, String, str_eq, Bool, true, false, not, if◌then◌else◌, ◌&&◌, ◌||◌, Option, none, some,
  List, [], ◌∷◌, ◌++◌, all, map, concat, decimal, sort_text, ℤ, pos, negsuc,
}
use pole_client_rust.Core.Traffic.{
  ArgumentType, custom, method, header, query, caller_service, caller_ip,
}
use pole_client_rust.Match.Label.{MatchString, is_capture, match_label_value, text, parameter}
use pole_client_rust.Match.Index.{Api}
use pole_client_rust.RateLimit.Req.{QuotaResource, qps, token, concurrency, QuotaRequest}

pub data TriggerResource : Type 0 where
  trigger_qps trigger_token trigger_concurrency : TriggerResource
  trigger_other : ℕ → TriggerResource

pub data LimitType : Type 0 where
  local_limit global_limit : LimitType
  other_limit : ℕ → LimitType

pub data FailoverType : Type 0 where
  failover_local failover_pass : FailoverType

pub data MatchArgumentType : Type 0 where
  custom_argument method_argument header_argument query_argument : MatchArgumentType
  caller_service_argument caller_ip_argument caller_metadata_argument : MatchArgumentType

pub record MatchArgument : Type 0 where
  pub argument_type : MatchArgumentType
  pub key : String
  pub value : Option MatchString

-- `valid_duration` in seconds.
pub record Amount : Type 0 where
  pub max_amount : ℕ
  pub valid_duration : Option ℤ

pub record LimitTrigger : Type 0 where
  pub name : String
  pub disable : Bool
  pub resource : TriggerResource
  pub amounts : List Amount
  pub concurrency_amount : Option ℕ
  pub arguments : List MatchArgument
  pub apis : List Api
  pub failover : FailoverType

pub record RateLimit : Type 0 where
  pub id : String
  pub disable : Bool
  pub priority : ℕ
  pub limit_type : LimitType
  pub rules : List LimitTrigger

abbrev pub is_local : LimitType → Bool
is_local local_limit = true
is_local _ = false

abbrev pub is_global : LimitType → Bool
is_global global_limit = true
is_global _ = false

abbrev pub is_failover_local : FailoverType → Bool
is_failover_local failover_local = true
is_failover_local failover_pass = false

unfoldable pub quota_resource : TriggerResource → Option QuotaResource
quota_resource trigger_qps = some qps
quota_resource trigger_token = some token
quota_resource trigger_concurrency = some concurrency
quota_resource (trigger_other n) = none

abbrev pub is_supported : TriggerResource → Bool
is_supported (trigger_other n) = false
is_supported _ = true

unfoldable pub initial_consumed_total : LimitTrigger → ℕ
initial_consumed_total t = elim t.resource [ trigger_qps ↦ 1 | _ ↦ 0 ]

unfoldable pub quota_rule_matches : RateLimit → Bool
quota_rule_matches r = not r.disable && (is_local r.limit_type || is_global r.limit_type)

unfoldable pub uses_local_counter : RateLimit → LimitTrigger → Bool
uses_local_counter r t =
    is_local r.limit_type || (is_global r.limit_type && is_failover_local t.failover)

unfoldable pub uses_distributed_quota : RateLimit → LimitTrigger → Bool
uses_distributed_quota r t = is_global r.limit_type && is_supported t.resource

unfoldable pub trigger_base_matches : LimitTrigger → Bool
trigger_base_matches t = not t.disable && is_supported t.resource

unfoldable pub ratelimit_argument_type : MatchArgumentType → ArgumentType
ratelimit_argument_type method_argument = method
ratelimit_argument_type header_argument = header
ratelimit_argument_type query_argument = query
ratelimit_argument_type caller_service_argument = caller_service
ratelimit_argument_type caller_ip_argument = caller_ip
ratelimit_argument_type caller_metadata_argument = caller_service
ratelimit_argument_type custom_argument = custom

-- The seconds of an amount's window, at least one.
unfoldable pub seconds_of : Option ℤ → ℕ
seconds_of none = 1
seconds_of (some (pos n)) = max n 1
seconds_of (some (negsuc n)) = 1

unfoldable pub amount_duration : Amount → ℕ
unfolding seconds_of
amount_duration a = seconds_of a.valid_duration

module _ (compile : String → Option (String → Bool)) where
  abbrev label_matches : MatchString → Option String → Bool
  label_matches m none = false
  label_matches m (some actual) = match_label_value compile m actual

  abbrev is_some : Option String → Bool
  is_some none = false
  is_some (some a) = true

  abbrev argument_matches : QuotaRequest → MatchArgument → MatchString → Bool
  argument_matches req a m =
      let provider = req.traffic_label_provider (ratelimit_argument_type a.argument_type) in
      elim m.value_type [
        | none ↦ false
        | some text ↦ label_matches m (provider a.key)
        | some parameter ↦
            if str_eq m.value ""
            then is_some (provider a.key)
            else label_matches m (provider m.value)
      ]

  unfoldable pub match_argument_matches : QuotaRequest → MatchArgument → Bool
  unfolding ratelimit_argument_type
  match_argument_matches req a = elim a.value [ none ↦ false | some m ↦ argument_matches req a m ]

  unfoldable pub trigger_arguments_match : QuotaRequest → LimitTrigger → Bool
  unfolding match_argument_matches
  trigger_arguments_match req t = all (match_argument_matches req) t.arguments

-- The variant's name, as `{:?}` prints it.
abbrev debug_name : MatchArgumentType → String
debug_name custom_argument = "Custom"
debug_name method_argument = "Method"
debug_name header_argument = "Header"
debug_name query_argument = "Query"
debug_name caller_service_argument = "CallerService"
debug_name caller_ip_argument = "CallerIp"
debug_name caller_metadata_argument = "CallerMetadata"

module _ (digest : String → String) where
  abbrev dimension_value : MatchArgument → Option String → List (String × String)
  dimension_value a none = []
  dimension_value a (some actual) =
      (concat (debug_name a.argument_type ∷ "." ∷ a.key ∷ []), digest actual) ∷ []

  abbrev dimension : QuotaRequest → MatchArgument → Option MatchString → List (String × String)
  dimension req a none = []
  dimension req a (some m) =
      if is_capture m
      then dimension_value a
          (req.traffic_label_provider (ratelimit_argument_type a.argument_type) a.key)
      else []

  unfoldable pub dimensions : QuotaRequest → List MatchArgument → List (String × String)
  unfolding ratelimit_argument_type
  dimensions req [] = []
  dimensions req (a ∷ rest) = dimension req a a.value ++ dimensions req rest

  unfoldable pub request_parameter_dimension_suffix : QuotaRequest → LimitTrigger → String
  unfolding dimensions
  request_parameter_dimension_suffix req t =
      concat
        (map (λ d. concat ("#" ∷ d.0 ∷ "=" ∷ d.1 ∷ [])) (sort_text (dimensions req t.arguments)))

  unfoldable pub quota_counter_key : QuotaRequest → RateLimit → LimitTrigger → ℕ → String
  unfolding request_parameter_dimension_suffix
  quota_counter_key req rule t duration = concat (
      req.namespace
      ∷ "#"
      ∷ req.service
      ∷ "#"
      ∷ req.method
      ∷ "#"
      ∷ rule.id
      ∷ "#"
      ∷ t.name
      ∷ "#"
      ∷ decimal duration
      ∷ request_parameter_dimension_suffix req t
      ∷ [])

  unfoldable pub concurrency_counter_key : QuotaRequest → RateLimit → LimitTrigger → String
  unfolding request_parameter_dimension_suffix
  concurrency_counter_key req rule t = concat (
      req.namespace
      ∷ "#"
      ∷ req.service
      ∷ "#"
      ∷ req.method
      ∷ "#"
      ∷ rule.id
      ∷ "#"
      ∷ t.name
      ∷ "#concurrency"
      ∷ request_parameter_dimension_suffix req t
      ∷ [])
