-- ===== src/RateLimit/Select/Tests.antt =====
-- The selection of triggers on concrete rules (src/traffic/ratelimit/default.rs).
use pole_client_rust.Common.{
  ℕ, ◌≡◌, ◌↔◌, refl, String, Bool, false, Option, none, List, [], ◌∷◌, map, All, Elem, subst, inl,
  inr, sort_by, insert_by, lookup, insert,
}
use pole_client_rust.Match.Trie.{empty_node}
use pole_client_rust.Match.Index.{candidates, new_index}
use pole_client_rust.Match.Index.Search.{IsLiteral}
use pole_client_rust.RateLimit.Req.{QuotaRequest, qps}
use pole_client_rust.RateLimit.Rule.{
  RateLimit, LimitTrigger, trigger_qps, local_limit, failover_local, quota_rule_matches,
  trigger_base_matches, trigger_arguments_match,
}
use pole_client_rust.RateLimit.Select.{Entry, Meets, matching_quota_triggers}
use pole_client_rust.RateLimit.Select.Met.{AreLiteral, matching_quota_triggers-Meets}

abbrev request : QuotaRequest
request = record {
  flow_id = "f";
  timeout = 1;
  service = "orders";
  namespace = "default";
  method = "GET";
  traffic_label_provider = λ t k. none;
  quotas = record { resource = qps; amount = 1 } ∷ [];
  lease_ttl = 5_000_000_000;
}

abbrev trigger_for : String → LimitTrigger
trigger_for method = record {
  name = method;
  disable = false;
  resource = trigger_qps;
  amounts = [];
  concurrency_amount = none;
  arguments = [];
  apis = record { method = method; path = none } ∷ [];
  failover = failover_local;
}

abbrev rule_for : String → ℕ → RateLimit
rule_for method priority = record {
  id = method;
  disable = false;
  priority = priority;
  limit_type = local_limit;
  rules = trigger_for method ∷ [];
}

abbrev rules : List RateLimit
rules = rule_for "GET" 9 ∷ rule_for "PUT" 2 ∷ rule_for "*" 1 ∷ []

abbrev no_regex : String → Option (String → Bool)
no_regex p = none

selected :
    map (λ (e : Entry). e.1.name) (matching_quota_triggers no_regex request rules)
    ≡ "*" ∷ "GET" ∷ []
unfolding matching_quota_triggers sort_by insert_by lookup insert quota_rule_matches
    trigger_base_matches trigger_arguments_match candidates new_index empty_node
selected = refl

no_path :
    (method : String) (priority : ℕ) (t : LimitTrigger)
    → Elem t (rule_for method priority).rules
    → All (λ api. IsLiteral api.path) t.apis
no_path method priority t (inl q) = rw q (tt, tt)
no_path method priority t (inr z) = absurd z

rules-AreLiteral : AreLiteral rules
rules-AreLiteral r (inl p) t m = no_path "GET" 9 t (subst (λ (k : RateLimit). Elem t k.rules) p m)
rules-AreLiteral r (inr (inl p)) t m =
    no_path "PUT" 2 t (subst (λ (k : RateLimit). Elem t k.rules) p m)
rules-AreLiteral r (inr (inr (inl p))) t m =
    no_path "*" 1 t (subst (λ (k : RateLimit). Elem t k.rules) p m)
rules-AreLiteral r (inr (inr (inr z))) t m = absurd z

matching_quota_triggers-Meets_example :
    Elem (rule_for "GET" 9, trigger_for "GET") (matching_quota_triggers no_regex request rules)
    ↔ Meets no_regex request rules (rule_for "GET" 9, trigger_for "GET")
matching_quota_triggers-Meets_example =
    matching_quota_triggers-Meets no_regex request rules rules-AreLiteral
      (rule_for "GET" 9, trigger_for "GET")
