-- ===== src/Policy/Traffic.antt =====
-- `evaluate_mirrors`, `evaluate_mock` and `traffic_sample_hit` (src/traffic/policy/default.rs): which
-- services get a copy of a request, and which answer stands in for the service's. `hash` is
-- `DefaultHasher` fed with the texts in order, and `compile` is `regex::Regex::new`.
pub mod Sample
pub mod Mirrors
pub mod Mocks
use pole_client_rust.Common.{
  ℕ, ◌%◌, String, Bool, true, false, not, if◌then◌else◌, ltb, leb, ◌==◌, ◌&&◌, Option, none, some,
  List, [], ◌∷◌, ◌++◌, keep, Table, concat, sort_by, sort_text, first_some,
}
use pole_client_rust.Core.Context.{RouteContext}
use pole_client_rust.Match.Index.{Api, new_index, candidates}
use pole_client_rust.Match.Entries.{flat_entries}
use pole_client_rust.Policy.{
  MirrorDestination, MirrorRule, TrafficMirror, MockResponse, MockRule, TrafficMock,
  source_service_matches, api_match_input, traffic_rule_matches,
}

-- The metadata as it is hashed: key and value of each entry, by key.
abbrev pub hashed_entries : Table String → List String
hashed_entries [] = []
hashed_entries ((key, value) ∷ rest) = key ∷ value ∷ hashed_entries rest

unfoldable pub hashed_texts : RouteContext → String → List String
hashed_texts ctx salt =
    salt
    ∷ ctx.caller.namespace
    ∷ ctx.caller.name
    ∷ ctx.callee.namespace
    ∷ ctx.callee.name
    ∷ hashed_entries (sort_text ctx.metadata)

unfoldable pub mirror_salt : RouteContext → MirrorDestination → String
mirror_salt ctx d = concat (
    "mirror#" ∷ ctx.caller.namespace ∷ "#" ∷ ctx.caller.name ∷ "#" ∷ d.namespace ∷ "#" ∷ d.service
    ∷ [])

unfoldable pub mock_salt : RouteContext → MockResponse → String
mock_salt ctx r =
    concat
      ("mock#" ∷ ctx.caller.namespace ∷ "#" ∷ ctx.caller.name ∷ "#" ∷ r.code ∷ "#" ∷ r.body ∷ [])

unfoldable pub mirror_in_use : MirrorRule → Bool
mirror_in_use m = not m.disable && not (m.mirror_percent == 0)

unfoldable pub mock_in_use : MockRule → Bool
mock_in_use m = not m.disable && not (m.mock_percent == 0)

module _ (hash : List String → ℕ) where
  unfoldable pub traffic_sample_hit : RouteContext → ℕ → String → Bool
  unfolding hashed_texts
  traffic_sample_hit ctx percent salt =
      if percent == 0
      then false
      else if leb 100 percent
      then true
      else ltb (hash (hashed_texts ctx salt) % 100) percent

  module _ (compile : String → Option (String → Bool)) (ctx : RouteContext) where
    abbrev pub sampled_destination :
        MirrorRule → Option MirrorDestination → Option MirrorDestination
    sampled_destination m none = none
    sampled_destination m (some d) =
        if not (traffic_sample_hit ctx m.mirror_percent (mirror_salt ctx d)) then none else some d

    -- One round of the loop: what it pushes.
    unfoldable pub mirror_of : MirrorRule → Option MirrorDestination
    unfolding traffic_sample_hit traffic_rule_matches mirror_salt
    mirror_of m =
        if not (traffic_rule_matches compile ctx m.traffic_match_rule)
        then none
        else sampled_destination m m.destination

    abbrev pub pushed : Option MirrorDestination → List MirrorDestination → List MirrorDestination
    pushed none later = later
    pushed (some d) later = d ∷ later

    unfoldable pub destinations_of : List MirrorRule → List MirrorDestination
    unfolding mirror_of
    destinations_of [] = []
    destinations_of (m ∷ rest) = pushed (mirror_of m) (destinations_of rest)

    unfoldable pub mirror_entries : List TrafficMirror → List (MirrorRule × List Api)
    unfolding flat_entries source_service_matches mirror_in_use
    mirror_entries rules =
        flat_entries (λ r. source_service_matches r.caller ctx) mirror_in_use (λ r. r.rules)
          (λ m. m.apis) rules

    unfoldable pub evaluate_mirrors : List TrafficMirror → List MirrorDestination
    unfolding destinations_of mirror_entries
    evaluate_mirrors rules = destinations_of (
        candidates compile (api_match_input ctx)
          (new_index (mirror_entries (sort_by (λ r. r.priority) (keep (λ r. r.enable) rules)))))

    abbrev pub sampled_response : MockRule → Option MockResponse → Option MockResponse
    sampled_response m none = none
    sampled_response m (some r) =
        if not (traffic_sample_hit ctx m.mock_percent (mock_salt ctx r)) then none else some r

    -- One round of the loop: none goes on to the next.
    unfoldable pub mock_of : MockRule → Option MockResponse
    unfolding traffic_sample_hit traffic_rule_matches mock_salt
    mock_of m =
        if not (traffic_rule_matches compile ctx m.traffic_match_rule)
        then none
        else sampled_response m m.response

    unfoldable pub mock_entries : List TrafficMock → List (MockRule × List Api)
    unfolding flat_entries source_service_matches mock_in_use
    mock_entries rules =
        flat_entries (λ r. source_service_matches r.caller ctx) mock_in_use (λ r. r.rules)
          (λ m. m.apis) rules

    unfoldable pub evaluate_mock : List TrafficMock → Option MockResponse
    unfolding mock_of mock_entries
    evaluate_mock rules = first_some mock_of (
        candidates compile (api_match_input ctx)
          (new_index (mock_entries (sort_by (λ r. r.priority) (keep (λ r. r.enable) rules)))))
