-- ===== src/Policy/Security.antt =====
-- `evaluate_security` (src/traffic/policy/default.rs): whether the rules let a request pass. `compile`
-- is `regex::Regex::new`, `is_blank` is `str::trim` followed by `is_empty`, `decode_hex` is
-- `hex::decode`, and `sha256` is `Sha256::digest` of the text's bytes.
pub mod Guard
pub mod Header
use Prim.Native.Nat.{bit_or, bit_xor}
use Prim.Native.String.{len}
use pole_client_rust.Common.{
  ℕ, String, str_eq, Bool, true, false, not, if◌then◌else◌, ◌==◌, ◌&&◌, ◌||◌, Option, none, some,
  List, [], ◌∷◌, any, is_empty, keep, map, length, sort_by, first_some,
}
use pole_client_rust.Core.Traffic.{header}
use pole_client_rust.Core.Naming.{ServiceKey}
use pole_client_rust.Core.Context.{RouteContext}
use pole_client_rust.Match.Index.{Api, new_index, candidates}
use pole_client_rust.Match.Entries.{with_apis}
use pole_client_rust.Policy.{
  TrafficSecurityRejectEffect, TrafficSecurityAction, traffic_security_allow, traffic_security_deny,
  TrafficSecurityAuthMode, legacy_request_match, managed_identity, custom_header,
  CustomHeaderAuthentication, TrafficSecurityAuthentication, SourceService, ManagedCallerSelector,
  TrafficSecurityPolicy, TrafficSecurityRule, TrafficSecurityDecision, default_decision,
  api_match_input, traffic_rule_matches,
}

unfoldable pub security_decision :
    TrafficSecurityAction → Option TrafficSecurityRejectEffect → TrafficSecurityDecision
security_decision traffic_security_allow effect = default_decision
security_decision traffic_security_deny effect = record { allowed = false; reject_effect = effect }

unfoldable pub caller_allowed : ServiceKey → SourceService → Bool
caller_allowed caller allowed =
    not (str_eq allowed.namespace "")
    && not (str_eq allowed.service "")
    && str_eq allowed.namespace caller.namespace
    && str_eq allowed.service caller.name

unfoldable pub managed_caller_matches : Option ServiceKey → Option ManagedCallerSelector → Bool
unfolding caller_allowed
managed_caller_matches none selector = false
managed_caller_matches (some caller) none = false
managed_caller_matches (some caller) (some selector) =
    if selector.any_authenticated then true else any (caller_allowed caller) selector.callers

-- The fold over the zipped digests.
unfoldable pub difference : ℕ → List ℕ → List ℕ → ℕ
difference acc [] expected = acc
difference acc (a ∷ actual) [] = acc
difference acc (a ∷ actual) (e ∷ expected) = difference (bit_or acc (bit_xor a e)) actual expected

abbrev pub is_managed : Option TrafficSecurityAuthMode → Bool
is_managed (some managed_identity) = true
is_managed (some legacy_request_match) = false
is_managed (some custom_header) = false
is_managed none = false

-- The flag `managed_identity` of `evaluate_security`.
unfoldable pub is_managed_rule : Option TrafficSecurityAuthentication → Bool
is_managed_rule none = false
is_managed_rule (some a) = is_managed a.mode

abbrev pub is_some {ℓ} : {A : Type ℓ} → Option A → Bool
is_some none = false
is_some (some a) = true

abbrev pub first_effect : List TrafficSecurityPolicy → Option TrafficSecurityRejectEffect
first_effect [] = none
first_effect (p ∷ ps) = p.reject_effect

abbrev pub denied : Option TrafficSecurityRejectEffect → TrafficSecurityDecision
denied effect = record { allowed = false; reject_effect = effect }

-- What follows the loop: a managed rule that accepts nobody refuses.
abbrev pub or_refused :
    Bool
    → List TrafficSecurityPolicy
    → Option TrafficSecurityDecision
    → Option TrafficSecurityDecision
or_refused managed policies (some d) = some d
or_refused managed policies none = if managed then some (denied (first_effect policies)) else none

abbrev pub or_default : Option TrafficSecurityDecision → TrafficSecurityDecision
or_default none = default_decision
or_default (some d) = d

module _ (compile : String → Option (String → Bool)) (ctx : RouteContext) where
  -- One round of the loop over a rule's candidates: none goes on to the next.
  unfoldable pub policy_decision : Bool → TrafficSecurityPolicy → Option TrafficSecurityDecision
  unfolding managed_caller_matches traffic_rule_matches security_decision
  policy_decision managed p =
      if managed && not (managed_caller_matches ctx.authenticated_caller p.managed_caller)
      then none
      else if not (traffic_rule_matches compile ctx p.traffic_match_rule)
      then none
      else some (security_decision p.action p.reject_effect)

  unfoldable pub rule_candidates : TrafficSecurityRule → List TrafficSecurityPolicy
  unfolding api_match_input
  rule_candidates r =
      candidates compile (api_match_input ctx)
        (new_index (map (with_apis (λ p. p.apis)) r.policies))

module _ (is_blank : String → Bool) (decode_hex : String → Option (List ℕ))
    (sha256 : String → List ℕ) where
  abbrev pub same_digest : Option String → Option (List ℕ) → Bool
  same_digest none expected = false
  same_digest (some actual) none = false
  same_digest (some actual) (some expected) =
      if not (length expected == 32) then false else difference 0 (sha256 actual) expected == 0

  unfoldable pub custom_header_authenticated : RouteContext → CustomHeaderAuthentication → Bool
  unfolding difference
  custom_header_authenticated ctx custom =
      if not (str_eq custom.value "")
        || is_blank custom.header_name
        || not (len custom.value_sha256 == 64)
      then false
      else same_digest (ctx.traffic_label_provider header custom.header_name)
          (decode_hex custom.value_sha256)

  abbrev pub custom_authenticated : RouteContext → Bool → Option CustomHeaderAuthentication → Bool
  custom_authenticated ctx managed none = false
  custom_authenticated ctx managed (some custom) =
      not managed && custom_header_authenticated ctx custom

  abbrev pub authenticated_by :
      RouteContext → Option TrafficSecurityAuthMode → TrafficSecurityAuthentication → Bool
  authenticated_by ctx (some legacy_request_match) a =
      not a.has_managed_identity && not (is_some a.custom_header_settings)
  authenticated_by ctx (some managed_identity) a =
      a.has_managed_identity
      && not (is_some a.custom_header_settings)
      && is_some ctx.authenticated_caller
  authenticated_by ctx (some custom_header) a =
      custom_authenticated ctx a.has_managed_identity a.custom_header_settings
  authenticated_by ctx none a = false

  unfoldable pub security_rule_authenticated :
      RouteContext → Option TrafficSecurityAuthentication → Bool
  unfolding custom_header_authenticated
  security_rule_authenticated ctx none = true
  security_rule_authenticated ctx (some a) = authenticated_by ctx a.mode a

  module _ (compile : String → Option (String → Bool)) (ctx : RouteContext) where
    -- One round of the loop over the rules: none goes on to the next.
    unfoldable pub rule_decision : TrafficSecurityRule → Option TrafficSecurityDecision
    unfolding rule_candidates policy_decision security_rule_authenticated is_managed_rule
    rule_decision r =
        let found = rule_candidates compile ctx r in
        let managed = is_managed_rule r.authentication in
        if is_empty found
        then none
        else if not (security_rule_authenticated ctx r.authentication)
        then some (denied (first_effect found))
        else or_refused managed r.policies (first_some (policy_decision compile ctx managed) found)

    unfoldable pub evaluate_security : List TrafficSecurityRule → TrafficSecurityDecision
    unfolding rule_decision
    evaluate_security rules =
        or_default
          (first_some rule_decision (sort_by (λ r. r.priority) (keep (λ r. r.enable) rules)))
