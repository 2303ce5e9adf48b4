-- ===== src/Policy/Traffic/Mocks.antt =====
-- Which answer stands in for the service's (`evaluate_mock` of src/traffic/policy/default.rs).
use pole_client_rust.Common.{
  ℕ, ◌≤◌, ◌≡◌, refl, sym, ap, subst, inl, inr, String, Bool, true, Option, none, some, List, keep,
  Elem, Elem-keep, keep-Elem, sort_by, sort_by-Best, sort_by-Elem, Elem-sort_by, first_some,
  first_some-none, first_some-Elem, Bool-cases,
}
use pole_client_rust.Core.Context.{RouteContext}
use pole_client_rust.Match.Entries.{
  offered, AreLiteral, rule_offers, candidates-flat_entries, rule_offers-Elem, Elem-rule_offers,
  first_some-offers,
}
use pole_client_rust.Policy.{
  MockResponse, MockRule, TrafficMock, source_service_matches, api_match_input,
  traffic_rule_matches,
}
use pole_client_rust.Policy.Traffic.{
  mock_salt, mock_in_use, traffic_sample_hit, sampled_response, mock_of, mock_entries,
  evaluate_mock,
}

some_path : {x y : MockResponse} → some x ≡ some y → x ≡ y
some_path e = cc

module _ (hash : List String → ℕ) (compile : String → Option (String → Bool))
    (ctx : RouteContext) where
  -- A mock of a rule answers the request: both are in use, the rule is for the caller, the mock has the
  -- request's API or none, matches its traffic, and takes it into its sample.
  pub record IsMocked (r : TrafficMock) (m : MockRule) (b : MockResponse) : Type 0 where
    pub enabled : r.enable ≡ true
    pub caller : source_service_matches r.caller ctx ≡ true
    pub listed : Elem m r.rules
    pub in_use : mock_in_use m ≡ true
    pub api : offered (λ (k : MockRule). k.apis) compile (api_match_input ctx) m ≡ true
    pub traffic : traffic_rule_matches compile ctx m.traffic_match_rule ≡ true
    pub response : m.response ≡ some b
    pub sampled : traffic_sample_hit hash ctx m.mock_percent (mock_salt ctx b) ≡ true

  -- The answer is that of a rule with the least priority among those that answer; there is none if no
  -- rule answers.
  abbrev pub IsAnswer : List TrafficMock → Option MockResponse → Type 0
  IsAnswer rules none =
      (r : TrafficMock) (m : MockRule) (b : MockResponse) → Elem r rules → IsMocked r m b → ⊥
  IsAnswer rules (some b) =
      (r : TrafficMock) × (m : MockRule) × Elem r rules
      × IsMocked r m b
      × ((s : TrafficMock) (n : MockRule) (c : MockResponse)
          → Elem s rules
          → IsMocked s n c
          → r.priority ≤ s.priority)

  sampled_facts :
      (m : MockRule) (response : Option MockResponse) (b : MockResponse)
      → sampled_response hash compile ctx m response ≡ some b
      → (response ≡ some b) × (traffic_sample_hit hash ctx m.mock_percent (mock_salt ctx b) ≡ true)
  sampled_facts m none b h = cc
  sampled_facts m (some c) b h =
      elim (Bool-cases (traffic_sample_hit hash ctx m.mock_percent (mock_salt ctx c))) [
        | inl t ↦
            let same : c ≡ b = some_path (rw t at h) in
            (
              ap some same,
              subst (λ k. traffic_sample_hit hash ctx m.mock_percent (mock_salt ctx k) ≡ true) same
                  t,
            )
        | inr f ↦ cc (rw f at h)
      ]

  mock_of-facts :
      (m : MockRule) (b : MockResponse)
      → mock_of hash compile ctx m ≡ some b
      → (traffic_rule_matches compile ctx m.traffic_match_rule ≡ true)
        × (m.response ≡ some b)
        × (traffic_sample_hit hash ctx m.mock_percent (mock_salt ctx b) ≡ true)
  unfolding mock_of
  mock_of-facts m b h = elim (Bool-cases (traffic_rule_matches compile ctx m.traffic_match_rule)) [
    | inl t ↦ let facts = sampled_facts m m.response b (rw t at h) in (t, facts.0, facts.1)
    | inr f ↦ cc (rw f at h)
  ]

  IsMocked-mock_of :
      (r : TrafficMock) (m : MockRule) (b : MockResponse)
      → IsMocked r m b
      → mock_of hash compile ctx m ≡ some b
  unfolding mock_of
  IsMocked-mock_of r m b x = rw (x.traffic, x.response, x.sampled)

  abbrev for_caller : TrafficMock → Bool
  for_caller r = source_service_matches r.caller ctx

  abbrev offers_of : TrafficMock → List MockRule
  offers_of r =
      rule_offers for_caller mock_in_use (λ k. k.rules) (λ k. k.apis) compile (api_match_input ctx)
        r

  abbrev answer : TrafficMock → Option MockResponse
  answer r = first_some (mock_of hash compile ctx) (offers_of r)

  answer-IsMocked :
      (r : TrafficMock) (b : MockResponse)
      → r.enable ≡ true
      → answer r ≡ some b
      → (m : MockRule) × IsMocked r m b
  answer-IsMocked r b on h =
      let (m, listed, decided) = first_some-Elem (mock_of hash compile ctx) (offers_of r) b h in
      let (caller, item, in_use, api) =
        rule_offers-Elem for_caller mock_in_use (λ k. k.rules) (λ k. k.apis) compile
          (api_match_input ctx) r m listed in
      let (traffic, response, sampled) = mock_of-facts m b decided in
      (
        m,
        record {
          enabled = on;
          caller = caller;
          listed = item;
          in_use = in_use;
          api = api;
          traffic = traffic;
          response = response;
          sampled = sampled;
        },
      )

  IsMocked-answer :
      (r : TrafficMock) (m : MockRule) (b : MockResponse) → IsMocked r m b → ¬ (answer r ≡ none)
  IsMocked-answer r m b x n =
      let listed =
        Elem-rule_offers for_caller mock_in_use (λ k. k.rules) (λ k. k.apis) compile
          (api_match_input ctx) r m x.caller x.listed x.in_use x.api in
      let undecided = first_some-none (mock_of hash compile ctx) (offers_of r) m n listed in
      cc (undecided, IsMocked-mock_of r m b x)

  abbrev is_enabled : TrafficMock → Bool
  is_enabled r = r.enable

  abbrev sorted : List TrafficMock → List TrafficMock
  sorted rules = sort_by (λ r. r.priority) (keep is_enabled rules)

  abbrev pub AreLiteralMocks : List TrafficMock → Type 0
  AreLiteralMocks rules = AreLiteral (λ (k : TrafficMock). k.rules) (λ k. k.apis) rules

  rules-IsAnswer :
      (rules : List TrafficMock) (found : Option MockResponse)
      → first_some answer (sorted rules) ≡ found
      → IsAnswer rules found
  rules-IsAnswer rules none h = λ r m b e x. IsMocked-answer r m b x (
      first_some-none answer (sorted rules) r h
        (Elem-sort_by (λ k. k.priority) r _ (keep-Elem is_enabled r rules e x.enabled)))
  rules-IsAnswer rules (some b) h =
      let best = sort_by-Best (λ k. k.priority) answer (keep is_enabled rules) b h in
      let (listed, on) = Elem-keep is_enabled best.of rules best.listed in
      let (m, x) = answer-IsMocked best.of b on best.answer in
      (
        best.of,
        m,
        listed,
        x,
        λ s n c e y.
            best.least s (keep-Elem is_enabled s rules e y.enabled) (IsMocked-answer s n c y),
      )

  -- If no exact text path of the rules' APIs is `*`, `evaluate_mock` answers by a rule with the least
  -- priority among those with a mock that answers the request, and gives no answer exactly if no
  -- rule has one.
  pub evaluate_mock-IsAnswer :
      (rules : List TrafficMock)
      → AreLiteralMocks rules
      → IsAnswer rules (evaluate_mock hash compile ctx rules)
  unfolding evaluate_mock mock_entries
  evaluate_mock-IsAnswer rules l =
      subst (IsAnswer rules) (sym by_rules) (rules-IsAnswer rules _ refl)
    where
      by_rules : evaluate_mock hash compile ctx rules ≡ first_some answer (sorted rules)
      by_rules =
          rw
            (candidates-flat_entries for_caller mock_in_use (λ k. k.rules) (λ k. k.apis) compile
              (api_match_input ctx) (sorted rules)
              (λ r e. l r (Elem-keep is_enabled r rules (sort_by-Elem (λ k. k.priority) r _ e)).0))
            (first_some-offers for_caller mock_in_use (λ k. k.rules) (λ k. k.apis) compile
              (api_match_input ctx) (mock_of hash compile ctx) (sorted rules))
