-- ===== src/Policy/Tests.antt =====
-- Traffic governance on concrete rules and requests (src/traffic/policy/default.rs).
use pole_client_rust.Common.{
  ℕ, ◌≤◌, ◌<◌, ◌≡◌, ◌↔◌, ◌⊎◌, refl, subst, inl, inr, String, str_eq, Bool, true, false,
  if◌then◌else◌, Option, none, some, List, [], ◌∷◌, All, Elem, sort_by, insert_by, lookup, insert,
  concat, arith,
}
use pole_client_rust.Core.Error.{Result, ok, ◌>>=◌}
use pole_client_rust.Core.Naming.{Instance}
use pole_client_rust.Core.Traffic.{
  ArgumentType, method, path, header, custom, cookie, query, caller_service, caller_ip,
}
use pole_client_rust.Core.Context.{RouteContext, metadata_failover_none}
use pole_client_rust.Core.Cache.{ResourceEventKey}
use pole_client_rust.Match.Trie.{empty_node, exact_candidates}
use pole_client_rust.Match.Index.{api_matches, candidates, new_index}
use pole_client_rust.Policy.{
  TrafficSecurityAction, traffic_security_allow, managed_identity, CustomHeaderAuthentication,
  TrafficSecurityAuthentication, TrafficSecurityPolicy, TrafficSecurityRule, MirrorDestination,
  MirrorRule, TrafficMirror, MockRule, TrafficMock, api_match_input, traffic_rule_matches,
}
use pole_client_rust.Policy.Security.{
  evaluate_security, security_rule_authenticated, custom_header_authenticated,
}
use pole_client_rust.Match.Entries.{IsLiteralItem}
use pole_client_rust.Policy.Security.Guard.{
  Accepts, Refuses, AreLiteralRules, evaluate_security-guarded,
}
use pole_client_rust.Policy.Security.Header.{Shows, custom_header_authenticated-Shows}
use pole_client_rust.Policy.Traffic.{evaluate_mirrors, evaluate_mock, traffic_sample_hit}
use pole_client_rust.Policy.Traffic.Sample.{bucket, traffic_sample_hit-bucket}
use pole_client_rust.Policy.Traffic.Mirrors.{IsMirrored, evaluate_mirrors-IsMirrored}
use pole_client_rust.Policy.Traffic.Mocks.{IsAnswer, evaluate_mock-IsAnswer}
use pole_client_rust.Policy.Governance.{AnyRule, security, evaluate_traffic_governance_from_cache}
use pole_client_rust.Policy.Governance.Refused.{
  security_rules, evaluate_traffic_governance_from_cache-security,
}
use pole_client_rust.Policy.Address.{
  mirror_instance_base_url_with_protocol, parse_http_base_url, parse_grpc_base_url,
}
use pole_client_rust.Policy.Address.RoundTrip.{address_or_error, base_url_round_trip}

abbrev labels : ArgumentType → String → Option String
labels method k = some "GET"
labels path k = some "/orders"
labels header k = if str_eq k "x-token" then some "secret" else none
labels custom k = none
labels cookie k = none
labels query k = none
labels caller_service k = none
labels caller_ip k = none

abbrev ctx : RouteContext
ctx = record {
  caller = record { namespace = "default"; name = "web" };
  callee = record { namespace = "default"; name = "orders" };
  chain = record { before = []; core = []; after = [] };
  metadata = [];
  metadata_failover = metadata_failover_none;
  traffic_label_provider = labels;
  authenticated_caller = none;
}

abbrev no_regex : String → Option (String → Bool)
no_regex p = none

abbrev is_blank : String → Bool
is_blank s = str_eq s ""

-- A digest of 32 bytes that are all the same.
abbrev digest : String → List ℕ
digest s =
    7 ∷ 7 ∷ 7 ∷ 7 ∷ 7 ∷ 7 ∷ 7 ∷ 7 ∷ 7 ∷ 7 ∷ 7 ∷ 7 ∷ 7 ∷ 7 ∷ 7 ∷ 7 ∷ 7 ∷ 7 ∷ 7 ∷ 7 ∷ 7 ∷ 7 ∷ 7 ∷ 7
    ∷ 7 ∷ 7 ∷ 7 ∷ 7 ∷ 7 ∷ 7 ∷ 7 ∷ 7 ∷ []

abbrev from_hex : String → Option (List ℕ)
from_hex s = some (digest s)

digest_bytes : (s : String) → All (λ x. x < 256) (digest s)
digest_bytes s = omega arith

some_bytes : {a b : List ℕ} → some a ≡ some b → a ≡ b
some_bytes e = cc

from_hex_bytes : (s : String) (bs : List ℕ) → from_hex s ≡ some bs → All (λ x. x < 256) bs
from_hex_bytes s bs e = subst (All (λ x. x < 256)) (some_bytes e) (digest_bytes s)

abbrev token : CustomHeaderAuthentication
token = record {
  header_name = "x-token";
  value = "";
  value_sha256 = "0707070707070707070707070707070707070707070707070707070707070707";
}

custom_header_authenticated-Shows_example :
    (custom_header_authenticated is_blank from_hex digest ctx token ≡ true)
    ↔ Shows is_blank from_hex digest (λ s. (refl, digest_bytes s)) from_hex_bytes ctx token
custom_header_authenticated-Shows_example =
    custom_header_authenticated-Shows is_blank from_hex digest (λ s. (refl, digest_bytes s))
      from_hex_bytes ctx token

abbrev policy : TrafficSecurityAction → TrafficSecurityPolicy
policy action = record {
  apis = record { method = "GET"; path = none } ∷ [];
  traffic_match_rule = none;
  managed_caller = none;
  action = action;
  reject_effect = none;
}

abbrev security_rule :
    ℕ → Option TrafficSecurityAuthentication → TrafficSecurityAction → TrafficSecurityRule
security_rule priority authentication action = record {
  enable = true;
  priority = priority;
  authentication = authentication;
  policies = policy action ∷ [];
}

abbrev for_managed : TrafficSecurityAuthentication
for_managed = record {
  mode = some managed_identity;
  has_managed_identity = true;
  custom_header_settings = none;
}

abbrev guarded : TrafficSecurityRule
guarded = security_rule 5 (some for_managed) traffic_security_allow

abbrev open_rule : TrafficSecurityRule
open_rule = security_rule 1 none traffic_security_allow

abbrev rules : List TrafficSecurityRule
rules = guarded ∷ open_rule ∷ []

-- The rule without authentication comes first.
allowed : (evaluate_security is_blank from_hex digest no_regex ctx rules).allowed ≡ true
unfolding evaluate_security sort_by insert_by lookup insert candidates new_index empty_node
    api_match_input traffic_rule_matches exact_candidates
allowed = refl

-- Alone, the rule for managed callers refuses the request.
refused : (evaluate_security is_blank from_hex digest no_regex ctx (guarded ∷ [])).allowed ≡ false
unfolding evaluate_security sort_by insert_by lookup insert candidates new_index empty_node
    api_match_input traffic_rule_matches exact_candidates
refused = refl

guarded-Refuses : Refuses is_blank from_hex digest no_regex ctx guarded
unfolding security_rule_authenticated api_match_input api_matches
guarded-Refuses = record {
  policy = policy traffic_security_allow;
  listed = inl refl;
  api = refl;
  gate = inl refl;
}

literal_policy :
    (p : TrafficSecurityPolicy)
    → Elem p (policy traffic_security_allow ∷ [])
    → IsLiteralItem (λ (q : TrafficSecurityPolicy). q.apis) p
literal_policy p (inl q) = rw q (tt, tt)
literal_policy p (inr z) = absurd z

rules-literal : AreLiteralRules is_blank from_hex digest no_regex ctx rules
rules-literal r (inl q) p e =
    literal_policy p (subst (λ (k : TrafficSecurityRule). Elem p k.policies) q e)
rules-literal r (inr (inl q)) p e =
    literal_policy p (subst (λ (k : TrafficSecurityRule). Elem p k.policies) q e)
rules-literal r (inr (inr z)) p e = absurd z

evaluate_security-guarded_example :
    (s : TrafficSecurityRule) × Elem s rules
    × (s.enable ≡ true)
    × (s.priority ≤ 5)
    × Accepts is_blank from_hex digest no_regex ctx s
evaluate_security-guarded_example =
    evaluate_security-guarded is_blank from_hex digest no_regex ctx rules guarded rules-literal
      (inl refl) refl guarded-Refuses allowed

-- The place of a request in a sample is that of its salt's length.
abbrev hash : List String → ℕ
hash [] = 0
hash (s ∷ rest) = 342

traffic_sample_hit-bucket_example :
    (traffic_sample_hit hash ctx 50 "mirror" ≡ true) ↔ (bucket hash ctx "mirror" < 50)
traffic_sample_hit-bucket_example = traffic_sample_hit-bucket hash ctx "mirror" 50

abbrev shadow : MirrorDestination
shadow = record { namespace = "default"; service = "orders-shadow"; labels = [] }

abbrev mirrors : List TrafficMirror
mirrors =
    record {
      enable = true;
      priority = 0;
      caller = none;
      rules =
          record {
            disable = false;
            mirror_percent = 50;
            apis = [];
            traffic_match_rule = none;
            destination = some shadow;
          }
          ∷ [];
    }
    ∷ []

mirrored : evaluate_mirrors hash no_regex ctx mirrors ≡ shadow ∷ []
unfolding evaluate_mirrors sort_by insert_by lookup insert candidates new_index empty_node
    api_match_input traffic_rule_matches exact_candidates concat
mirrored = refl

no_mirror_path :
    (r : TrafficMirror)
    → Elem r mirrors
    → (m : MirrorRule) → Elem m r.rules
    → IsLiteralItem (λ (k : MirrorRule). k.apis) m
no_mirror_path r (inl q) m e = no_apis m (subst (λ (k : TrafficMirror). Elem m k.rules) q e)
  where
    no_apis :
        (m : MirrorRule)
        → (m ≡ record {
          disable = false;
          mirror_percent = 50;
          apis = [];
          traffic_match_rule = none;
          destination = some shadow;
        })
          ⊎ ⊥
        → IsLiteralItem (λ (k : MirrorRule). k.apis) m
    no_apis m (inl p) = rw p tt
    no_apis m (inr z) = absurd z
no_mirror_path r (inr z) m e = absurd z

evaluate_mirrors-IsMirrored_example :
    Elem shadow (evaluate_mirrors hash no_regex ctx mirrors)
    ↔ IsMirrored hash no_regex ctx mirrors shadow
evaluate_mirrors-IsMirrored_example =
    evaluate_mirrors-IsMirrored hash no_regex ctx mirrors shadow no_mirror_path

abbrev mocked_by : ℕ → String → TrafficMock
mocked_by priority body = record {
  enable = true;
  priority = priority;
  caller = none;
  rules =
      record {
        disable = false;
        mock_percent = 100;
        apis = [];
        traffic_match_rule = none;
        response = some (record { code = "OK"; body = body });
      }
      ∷ [];
}

abbrev mocks : List TrafficMock
mocks = mocked_by 7 "late" ∷ mocked_by 2 "early" ∷ []

mocked_early : evaluate_mock hash no_regex ctx mocks ≡ some (record { code = "OK"; body = "early" })
unfolding evaluate_mock sort_by insert_by lookup insert candidates new_index empty_node
    api_match_input traffic_rule_matches exact_candidates concat
mocked_early = refl

no_mock_path :
    (priority : ℕ) (body : String) (m : MockRule)
    → Elem m (mocked_by priority body).rules
    → IsLiteralItem (λ (k : MockRule). k.apis) m
no_mock_path priority body m (inl p) = rw p tt
no_mock_path priority body m (inr z) = absurd z

mocks-literal :
    (r : TrafficMock)
    → Elem r mocks
    → (m : MockRule) → Elem m r.rules
    → IsLiteralItem (λ (k : MockRule). k.apis) m
mocks-literal r (inl q) m e =
    no_mock_path 7 "late" m (subst (λ (k : TrafficMock). Elem m k.rules) q e)
mocks-literal r (inr (inl q)) m e =
    no_mock_path 2 "early" m (subst (λ (k : TrafficMock). Elem m k.rules) q e)
mocks-literal r (inr (inr z)) m e = absurd z

evaluate_mock-IsAnswer_example :
    IsAnswer hash no_regex ctx mocks (evaluate_mock hash no_regex ctx mocks)
evaluate_mock-IsAnswer_example = evaluate_mock-IsAnswer hash no_regex ctx mocks mocks-literal

-- The cache holds the security rules and nothing else.
abbrev load : ResourceEventKey → Result (List AnyRule)
load key = ok (security guarded ∷ security open_rule ∷ [])

evaluate_traffic_governance_from_cache-security_example :
    (evaluate_traffic_governance_from_cache is_blank from_hex digest no_regex hash load ctx >>= λ g.
    ok g.security)
    ≡ (security_rules is_blank from_hex digest no_regex hash load ctx >>= λ rs.
        ok (evaluate_security is_blank from_hex digest no_regex ctx rs))
evaluate_traffic_governance_from_cache-security_example =
    evaluate_traffic_governance_from_cache-security is_blank from_hex digest no_regex hash load ctx

abbrev shadow_instance : Instance
shadow_instance = record {
  id = "s1";
  namespace = "default";
  service = "orders-shadow";
  ip = "10.0.0.7";
  port = 8080;
  vpc_id = "";
  version = "";
  protocol = "";
  health = true;
  isolated = false;
  weight = 100;
  priority = 0;
  metadata = [];
  location = record { region = ""; zone = ""; campus = "" };
  revision = "";
}

base_url_round_trip_example :
    (mirror_instance_base_url_with_protocol shadow_instance "http" ≡ ok "http://10.0.0.7:8080"
      → parse_http_base_url "http://10.0.0.7:8080" ≡ address_or_error shadow_instance)
    × (mirror_instance_base_url_with_protocol shadow_instance "grpc" ≡ ok "http://10.0.0.7:8080"
        → parse_grpc_base_url "http://10.0.0.7:8080" ≡ address_or_error shadow_instance)
base_url_round_trip_example =
    base_url_round_trip shadow_instance "http://10.0.0.7:8080" (omega arith)

-- A host without a port is at port 80.
without_port : parse_http_base_url "http://shadow/" ≡ ok (record { host = "shadow"; port = 80 })
unfolding parse_http_base_url
without_port = refl
