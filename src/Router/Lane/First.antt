-- ===== src/Router/Lane/First.antt =====
-- Which lane a request takes (src/plugins/router/lane/lane.rs).
use pole_client_rust.Common.{
  ◌≤◌, ◌≡◌, ◌≢◌, ◌⊎◌, refl, sym, subst, inl, inr, String, Bool, true, false, if◌then◌else◌, Option,
  none, some, List, [], ◌∷◌, keep, is_empty, Elem, Elem-keep, keep-Elem, sort_by, sort_by-Best,
  Elem-sort_by, first_some, first_some-none, Bool-cases,
}
use pole_client_rust.Core.Error.{Result, Result-cases}
use pole_client_rust.Core.Outcome.{lift}
use pole_client_rust.Core.Naming.{
  ServiceKey, is_available, ServiceInstances, new_instances, add_weights,
}
use pole_client_rust.Core.Context.{RouteContext}
use pole_client_rust.Router.Flow.Narrow.{IsNarrowing, IsPart, IsPart-refl, IsWeighed}
use pole_client_rust.Router.Lane.{
  LaneRule, LaneGroup, permissive, strict, LaneMatchMode, has_lane, key_of, lane_instances,
  without_lane, all_rules, lane_matches, rule_result, or_all, filter_instances_by_lane_groups,
  fetch_lane_groups, by_groups, lane_choose_instances,
}

module _ (compile : String → Option (String → Bool)) (ctx : RouteContext) where
  abbrev pub takes : LaneRule → Bool
  takes rule = lane_matches compile ctx rule.traffic_match_rule

  -- What a rule that takes the request gives: the available instances with its label, or if there are
  -- none, all instances if it is permissive and none if it is strict.
  abbrev pub lane_of : ServiceInstances → LaneRule → ServiceInstances
  lane_of given rule =
      if is_empty (lane_instances given rule)
      then without_lane rule.match_mode given
      else new_instances given.service (lane_instances given rule)

  -- The request takes the lane of an enabled rule with the least priority of those that take it; it
  -- keeps all instances if no enabled rule takes it.
  abbrev pub IsInLane : ServiceInstances → List LaneRule → ServiceInstances → Type 0
  IsInLane given rules chosen =
      ((chosen ≡ given) × ((r : LaneRule) → Elem r rules → r.enable ≡ true → takes r ≡ false))
      ⊎ ((rule : LaneRule) × Elem rule rules
          × (rule.enable ≡ true)
          × (takes rule ≡ true)
          × ((r : LaneRule)
              → Elem r rules
              → r.enable ≡ true
              → takes r ≡ true
              → rule.priority ≤ r.priority)
          × (chosen ≡ lane_of given rule))

  some_path : {x y : ServiceInstances} → some x ≡ some y → x ≡ y
  some_path e = cc

  rule_result-none :
      (given : ServiceInstances) (r : LaneRule)
      → rule_result compile ctx given r ≡ none
      → takes r ≡ false
  unfolding rule_result
  rule_result-none given r h = elim (Bool-cases (takes r)) [
    | inr f ↦ f
    | inl t ↦ elim (Bool-cases (is_empty (lane_instances given r))) [
      | inl e ↦ cc (rw (t, e) at h)
      | inr n ↦ cc (rw (t, n) at h)
    ]
  ]

  rule_result-some :
      (given : ServiceInstances) (r : LaneRule) (chosen : ServiceInstances)
      → rule_result compile ctx given r ≡ some chosen
      → (takes r ≡ true) × (chosen ≡ lane_of given r)
  unfolding rule_result
  rule_result-some given r chosen h = elim (Bool-cases (takes r)) [
    | inr f ↦ cc (rw f at h)
    | inl t ↦ elim (Bool-cases (is_empty (lane_instances given r))) [
      | inl e ↦ (t, rw e (some_path (rw (t, e) at (sym h))))
      | inr n ↦ (t, rw n (some_path (rw (t, n) at (sym h))))
    ]
  ]

  takes-rule_result :
      (given : ServiceInstances) (r : LaneRule)
      → takes r ≡ true
      → rule_result compile ctx given r ≢ none
  takes-rule_result given r t n = cc (t, rule_result-none given r n)

  by_result :
      (given : ServiceInstances) (rules : List LaneRule) (found : Option ServiceInstances)
      → first_some
          (rule_result compile ctx given)
          (sort_by (λ r. r.priority) (keep (λ (r : LaneRule). r.enable) rules))
        ≡ found
      → IsInLane given rules (or_all compile ctx given found)
  by_result given rules none h = inl (
    refl,
    λ r e on. rule_result-none given r (
        first_some-none (rule_result compile ctx given) _ r h (
          Elem-sort_by (λ k. k.priority) r _
            (keep-Elem (λ (k : LaneRule). k.enable) r rules e on))),
  )
  by_result given rules (some chosen) h =
      let best =
        sort_by-Best (λ (k : LaneRule). k.priority) (rule_result compile ctx given) _ chosen h in
      let (listed, on) = Elem-keep (λ (k : LaneRule). k.enable) best.of rules best.listed in
      let (taken, is) = rule_result-some given best.of chosen best.answer in
      inr (
        best.of,
        listed,
        on,
        taken,
        λ r e u t.
            best.least r (keep-Elem (λ (k : LaneRule). k.enable) r rules e u)
              (takes-rule_result given r t),
        is,
      )

  -- Among the rules of all lane groups, the instances that are chosen are those of the lane that an
  -- enabled rule with the least priority gives, of the rules whose traffic matches; if there is no such
  -- rule, they are all the instances.
  pub filter_instances_by_lane_groups-IsInLane :
      (given : ServiceInstances) (groups : List LaneGroup)
      → IsInLane given (all_rules groups) (filter_instances_by_lane_groups compile ctx given groups)
  unfolding filter_instances_by_lane_groups
  filter_instances_by_lane_groups-IsInLane given groups = by_result given (all_rules groups) _ refl

  lane-IsPart :
      (given : ServiceInstances) (rule : LaneRule)
      → IsWeighed given
      → IsPart given (lane_of given rule)
  unfolding lane_instances new_instances
  lane-IsPart given rule w = elim (Bool-cases (is_empty (lane_instances given rule))) [
    | inl e ↦ rw e (without_any rule.match_mode)
    | inr n ↦ rw n (record {
      weight = refl;
      service = refl;
      members = λ i m.
          (Elem-keep is_available i given.instances
            (Elem-keep (has_lane (key_of rule) rule.default_label_value) i _ m).0).0;
    })
  ]
    where
      without_any : (mode : LaneMatchMode) → IsPart given (without_lane mode given)
      without_any permissive = IsPart-refl given w
      without_any strict =
          unfold add_weights in record { weight = refl; service = refl; members = λ i m. absurd m }

  filtered-IsPart :
      (given : ServiceInstances) (groups : List LaneGroup)
      → IsWeighed given
      → IsPart given (filter_instances_by_lane_groups compile ctx given groups)
  filtered-IsPart given groups w = elim (filter_instances_by_lane_groups-IsInLane given groups) [
    | inl unchanged ↦ subst (IsPart given) (sym unchanged.0) (IsPart-refl given w)
    | inr lane ↦ subst (IsPart given) (sym lane.5) (lane-IsPart given lane.0 w)
  ]

module _ (load : ServiceKey → Result (List (Option LaneGroup)))
    (compile : String → Option (String → Bool)) where
  by_groups-IsPart :
      (ctx : RouteContext) (given : ServiceInstances) (groups : List LaneGroup)
      → IsWeighed given
      → IsPart given (by_groups load compile ctx given groups)
  by_groups-IsPart ctx given [] w = IsPart-refl given w
  by_groups-IsPart ctx given (g ∷ gs) w = filtered-IsPart compile ctx given (g ∷ gs) w

  -- The lane router gives some of the instances, with their weight.
  pub lane-IsNarrowing :
      IsNarrowing (λ ctx given. lift (lane_choose_instances load compile ctx given))
  unfolding lane_choose_instances
  lane-IsNarrowing ctx given w = elim (Result-cases (fetch_lane_groups load compile ctx)) [
    | inl (groups, e) ↦ rw e (by_groups-IsPart ctx given groups w)
    | inr (code, e) ↦ rw e tt
  ]
