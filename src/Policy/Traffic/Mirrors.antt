-- ===== src/Policy/Traffic/Mirrors.antt =====
-- Which services get a copy of a request (`evaluate_mirrors` of src/traffic/policy/default.rs).
use pole_client_rust.Common.{
  ℕ, ◌≡◌, ◌↔◌, refl, sym, ap, ◌∙◌, subst, inl, inr, String, Bool, true, Option, none, some, List,
  [], ◌∷◌, keep, Elem, Elem-keep, keep-Elem, sort_by, sort_by-Elem, Elem-sort_by, Bool-cases,
  Option-cases,
}
use pole_client_rust.Core.Context.{RouteContext}
use pole_client_rust.Match.Entries.{
  offered, AreLiteral, offers, candidates-flat_entries, Elem-rule_offers, offers-IsOffered,
  IsOffered-offers,
}
use pole_client_rust.Policy.{
  MirrorDestination, MirrorRule, TrafficMirror, source_service_matches, api_match_input,
  traffic_rule_matches,
}
use pole_client_rust.Policy.Traffic.{
  mirror_salt, mirror_in_use, traffic_sample_hit, sampled_destination, mirror_of, pushed,
  destinations_of, mirror_entries, evaluate_mirrors,
}

some_path : {x y : MirrorDestination} → some x ≡ some y → x ≡ y
some_path e = cc

module _ (hash : List String → ℕ) (compile : String → Option (String → Bool))
    (ctx : RouteContext) where
  -- A mirror of an enabled rule for the caller sends the request to a destination.
  pub record IsMirrored (rules : List TrafficMirror) (d : MirrorDestination) : Type 0 where
    pub rule : TrafficMirror
    pub known : Elem rule rules
    pub enabled : rule.enable ≡ true
    pub caller : source_service_matches rule.caller ctx ≡ true
    pub mirror : MirrorRule
    pub listed : Elem mirror rule.rules
    pub in_use : mirror_in_use mirror ≡ true
    pub api : offered (λ (k : MirrorRule). k.apis) compile (api_match_input ctx) mirror ≡ true
    pub traffic : traffic_rule_matches compile ctx mirror.traffic_match_rule ≡ true
    pub destination : mirror.destination ≡ some d
    pub sampled : traffic_sample_hit hash ctx mirror.mirror_percent (mirror_salt ctx d) ≡ true

  sampled_facts :
      (m : MirrorRule) (destination : Option MirrorDestination) (d : MirrorDestination)
      → sampled_destination hash compile ctx m destination ≡ some d
      → (destination ≡ some d)
        × (traffic_sample_hit hash ctx m.mirror_percent (mirror_salt ctx d) ≡ true)
  sampled_facts m none d h = cc
  sampled_facts m (some c) d h =
      elim (Bool-cases (traffic_sample_hit hash ctx m.mirror_percent (mirror_salt ctx c))) [
        | inl t ↦
            let same : c ≡ d = some_path (rw t at h) in
            (
              ap some same,
              subst (λ k. traffic_sample_hit hash ctx m.mirror_percent (mirror_salt ctx k) ≡ true)
                  same t,
            )
        | inr f ↦ cc (rw f at h)
      ]

  mirror_of-facts :
      (m : MirrorRule) (d : MirrorDestination)
      → mirror_of hash compile ctx m ≡ some d
      → (traffic_rule_matches compile ctx m.traffic_match_rule ≡ true)
        × (m.destination ≡ some d)
        × (traffic_sample_hit hash ctx m.mirror_percent (mirror_salt ctx d) ≡ true)
  unfolding mirror_of
  mirror_of-facts m d h =
      elim (Bool-cases (traffic_rule_matches compile ctx m.traffic_match_rule)) [
        | inl t ↦ let facts = sampled_facts m m.destination d (rw t at h) in (t, facts.0, facts.1)
        | inr f ↦ cc (rw f at h)
      ]

  facts-mirror_of :
      (m : MirrorRule) (d : MirrorDestination)
      → traffic_rule_matches compile ctx m.traffic_match_rule ≡ true
      → m.destination ≡ some d
      → traffic_sample_hit hash ctx m.mirror_percent (mirror_salt ctx d) ≡ true
      → mirror_of hash compile ctx m ≡ some d
  unfolding mirror_of
  facts-mirror_of m d t e s = rw (t, e, s)

  destinations_of-Elem :
      (ms : List MirrorRule) (d : MirrorDestination)
      → Elem d (destinations_of hash compile ctx ms)
      → (m : MirrorRule) × Elem m ms × (mirror_of hash compile ctx m ≡ some d)
  unfolding destinations_of
  destinations_of-Elem [] d e = absurd e
  destinations_of-Elem (m ∷ ms) d e = elim (Option-cases (mirror_of hash compile ctx m)) [
    | inl q ↦
        let (n, l, p) = destinations_of-Elem ms d (
          subst (λ o. Elem d (pushed hash compile ctx o (destinations_of hash compile ctx ms))) q
            e) in
        (n, inr l, p)
    | inr (c, q) ↦
        elim (subst (λ o. Elem d (pushed hash compile ctx o (destinations_of hash compile ctx ms)))
          q e) [
            | inl p ↦ (m, inl refl, q ∙ ap some (sym p))
            | inr r ↦ let (n, l, p) = destinations_of-Elem ms d r in (n, inr l, p)
          ]
  ]

  Elem-destinations_of :
      (ms : List MirrorRule) (m : MirrorRule) (d : MirrorDestination)
      → Elem m ms
      → mirror_of hash compile ctx m ≡ some d
      → Elem d (destinations_of hash compile ctx ms)
  unfolding destinations_of
  Elem-destinations_of [] m d e h = absurd e
  Elem-destinations_of (n ∷ ms) m d (inl q) h =
      rw (ap (mirror_of hash compile ctx) (sym q) ∙ h) (inl refl)
  Elem-destinations_of (n ∷ ms) m d (inr r) h = elim (Option-cases (mirror_of hash compile ctx n)) [
    | inl q ↦ rw q (Elem-destinations_of ms m d r h)
    | inr (c, q) ↦ rw q (inr (Elem-destinations_of ms m d r h))
  ]

  abbrev for_caller : TrafficMirror → Bool
  for_caller r = source_service_matches r.caller ctx

  abbrev is_enabled : TrafficMirror → Bool
  is_enabled r = r.enable

  abbrev sorted : List TrafficMirror → List TrafficMirror
  sorted rules = sort_by (λ r. r.priority) (keep is_enabled rules)

  abbrev all_offers : List TrafficMirror → List MirrorRule
  all_offers rs =
      offers for_caller mirror_in_use (λ k. k.rules) (λ k. k.apis) compile (api_match_input ctx) rs

  abbrev pub AreLiteralMirrors : List TrafficMirror → Type 0
  AreLiteralMirrors rules = AreLiteral (λ (k : TrafficMirror). k.rules) (λ k. k.apis) rules

  -- If no exact text path of the rules' APIs is `*`, a request is mirrored to exactly the destinations
  -- of mirrors that are in use, of an enabled rule for the caller, that have the request's API or none,
  -- match its traffic, and take it into their sample.
  pub evaluate_mirrors-IsMirrored :
      (rules : List TrafficMirror) (d : MirrorDestination)
      → AreLiteralMirrors rules
      → Elem d (evaluate_mirrors hash compile ctx rules) ↔ IsMirrored rules d
  unfolding evaluate_mirrors mirror_entries
  evaluate_mirrors-IsMirrored rules d l = (mirrored, sent)
    where
      searched :
          evaluate_mirrors hash compile ctx rules
          ≡ destinations_of hash compile ctx (all_offers (sorted rules))
      searched = rw (
          candidates-flat_entries for_caller mirror_in_use (λ k. k.rules) (λ k. k.apis) compile
            (api_match_input ctx) (sorted rules)
            (λ r e. l r (Elem-keep is_enabled r rules (sort_by-Elem (λ k. k.priority) r _ e)).0))

      mirrored : Elem d (evaluate_mirrors hash compile ctx rules) → IsMirrored rules d
      mirrored e =
          let (m, listed, q) =
            destinations_of-Elem (all_offers (sorted rules)) d (subst (Elem d) searched e) in
          let o =
            offers-IsOffered for_caller mirror_in_use (λ k. k.rules) (λ k. k.apis) compile
              (api_match_input ctx) (sorted rules) m listed in
          let (known, on) =
            Elem-keep is_enabled o.rule rules (sort_by-Elem (λ k. k.priority) o.rule _ o.listed) in
          let (traffic, destination, sampled) = mirror_of-facts m d q in
          record {
            rule = o.rule;
            known = known;
            enabled = on;
            caller = o.in_use;
            mirror = m;
            listed = o.item;
            in_use = o.item_in_use;
            api = o.api;
            traffic = traffic;
            destination = destination;
            sampled = sampled;
          }

      sent : IsMirrored rules d → Elem d (evaluate_mirrors hash compile ctx rules)
      sent x =
          let offered_here =
            Elem-rule_offers for_caller mirror_in_use (λ k. k.rules) (λ k. k.apis) compile
              (api_match_input ctx) x.rule x.mirror x.caller x.listed x.in_use x.api in
          let known =
            Elem-sort_by (λ k. k.priority) x.rule _
              (keep-Elem is_enabled x.rule rules x.known x.enabled) in
          let listed =
            IsOffered-offers for_caller mirror_in_use (λ k. k.rules) (λ k. k.apis) compile
              (api_match_input ctx) (sorted rules) x.rule x.mirror known offered_here in
          subst (Elem d) (sym searched) (
            Elem-destinations_of (all_offers (sorted rules)) x.mirror d listed
              (facts-mirror_of x.mirror d x.traffic x.destination x.sampled))
