-- ===== src/Router/Rule/Filtered.antt =====
-- Which instances the rules choose (`filter_instances` of src/plugins/router/rule/rule.rs).
use pole_client_rust.Common.{
  ℕ, ◌<◌, ◌≡◌, ◌≢◌, refl, sym, ap, ◌∙◌, String, Bool, true, false, not, Option, some, List, [], ◌∷◌,
  is_empty, Table, Elem, Elem-keep, keep-Elem, IsSortedFrom, sort_by-IsSortedFrom, sort_by-Elem,
  Elem-sort_by, Bool-cases, Option-cases, inl, inr, arith,
}
use pole_client_rust.Core.Naming.{Instance, is_available, ServiceInstances}
use pole_client_rust.Match.Label.{DestinationGroup, CustomRouteRule, route_traffic_match}
use pole_client_rust.Core.Context.{RouteContext}
use pole_client_rust.Router.Rule.{
  filter_available_destinations, in_group, match_callee_group, first_group, parameters_of,
  filter_instances,
}

module _ (compile : String → Option (String → Bool)) where
  -- The group that was taken, with those before it in the list, which are empty.
  record Taken (parameters : Table String) (instances : ServiceInstances)
      (ds : List DestinationGroup) (chosen : List Instance) : Type 0 where
    pub group : DestinationGroup
    pub listed : Elem group ds
    pub is : chosen ≡ match_callee_group compile parameters instances group
    pub some_instance : chosen ≢ []
    pub earlier :
        (d : DestinationGroup)
        → Elem d ds
        → d.priority < group.priority
        → match_callee_group compile parameters instances d ≡ []

  empty : {A : Type 0} (xs : List A) → is_empty xs ≡ true → xs ≡ []
  empty [] h = refl
  empty (x ∷ xs) h = cc

  not-empty : {A : Type 0} (xs : List A) → is_empty xs ≡ false → xs ≢ []
  not-empty xs h e = cc (ap is_empty e, h)

  option_some : {A : Type 0} {a b : A} → some a ≡ some b → a ≡ b
  option_some e = cc

  lowest :
      (n : ℕ) (ds : List DestinationGroup) (d : DestinationGroup)
      → IsSortedFrom (λ x. x.priority) n ds
      → Elem d ds
      → ¬ (d.priority < n)
  lowest n [] d s e = absurd e
  lowest n (x ∷ ds) d s (inl e) =
      λ l. omega (arith, s.0, l, ap (λ (y : DestinationGroup). y.priority) e)
  lowest n (x ∷ ds) d s (inr e) = λ l. lowest x.priority ds d s.1 e (omega (arith, s.0, l))

  first_group-Taken :
      (parameters : Table String) (instances : ServiceInstances) (n : ℕ)
      (ds : List DestinationGroup) (chosen : List Instance)
      → IsSortedFrom (λ x. x.priority) n ds
      → first_group compile parameters instances ds ≡ some chosen
      → Taken parameters instances ds chosen
  unfolding first_group
  first_group-Taken parameters instances n [] chosen s h = cc
  first_group-Taken parameters instances n (d ∷ ds) chosen s h =
      let group = match_callee_group compile parameters instances d in
      elim (Bool-cases (is_empty group)) [
        | inl t ↦
            let tail =
              first_group-Taken parameters instances d.priority ds chosen s.1 (rw t at h) in
            record {
              group = tail.group;
              listed = inr tail.listed;
              is = tail.is;
              some_instance = tail.some_instance;
              earlier =
                  λ x e l. elim e [ inl q ↦ rw q (empty group t) | inr r ↦ tail.earlier x r l ];
            }
        | inr f ↦
            let same : group ≡ chosen = option_some (rw f at h) in
            record {
              group = d;
              listed = inl refl;
              is = sym same;
              some_instance = λ e. not-empty group f (same ∙ e);
              earlier = λ x e l. absurd (lowest d.priority (d ∷ ds) x (omega arith, s.1) e l);
            }
      ]

  -- The instances of a rule's best group: the rule matches the traffic, the group is not isolated and
  -- not empty, and every group of the rule that comes before it by priority is isolated or empty.
  pub record Chosen (ctx : RouteContext) (instances : ServiceInstances)
      (rules : List CustomRouteRule) (chosen : List Instance) : Type 0 where
    pub rule : CustomRouteRule
    pub listed : Elem rule rules
    pub matched : route_traffic_match compile ctx rule ≡ true
    pub group : DestinationGroup
    pub destination : Elem group rule.destinations
    pub in_use : group.isolate ≡ false
    pub is : chosen ≡ match_callee_group compile (parameters_of compile ctx rule) instances group
    pub some_instance : chosen ≢ []
    pub best :
        (d : DestinationGroup)
        → Elem d rule.destinations
        → d.isolate ≡ false
        → d.priority < group.priority
        → match_callee_group compile (parameters_of compile ctx rule) instances d ≡ []

  open_listed :
      (d : DestinationGroup) (ds : List DestinationGroup)
      → Elem d (filter_available_destinations ds)
      → Elem d ds × (d.isolate ≡ false)
  unfolding filter_available_destinations
  open_listed d ds e =
      let (listed, used) =
        Elem-keep (λ x. not x.isolate) d ds (sort_by-Elem (λ x. x.priority) d _ e) in
      (listed, ground arith)

  listed_open :
      (d : DestinationGroup) (ds : List DestinationGroup)
      → Elem d ds
      → d.isolate ≡ false
      → Elem d (filter_available_destinations ds)
  unfolding filter_available_destinations
  listed_open d ds e o =
      Elem-sort_by (λ x. x.priority) d _ (keep-Elem (λ x. not x.isolate) d ds e (ap not o))

  available-sorted :
      (ds : List DestinationGroup)
      → IsSortedFrom (λ x. x.priority) 0 (filter_available_destinations ds)
  unfolding filter_available_destinations
  available-sorted ds = sort_by-IsSortedFrom _ _

  later_rule :
      {ctx : RouteContext} {instances : ServiceInstances} {r : CustomRouteRule}
      {rules : List CustomRouteRule} {chosen : List Instance}
      → Chosen ctx instances rules chosen
      → Chosen ctx instances (r ∷ rules) chosen
  later_rule c = record {
    rule = c.rule;
    listed = inr c.listed;
    matched = c.matched;
    group = c.group;
    destination = c.destination;
    in_use = c.in_use;
    is = c.is;
    some_instance = c.some_instance;
    best = c.best;
  }

  this_rule :
      (ctx : RouteContext) (instances : ServiceInstances) (r : CustomRouteRule)
      (rules : List CustomRouteRule) (chosen : List Instance)
      → route_traffic_match compile ctx r ≡ true
      → Taken
          (parameters_of compile ctx r)
          instances
          (filter_available_destinations r.destinations)
          chosen
      → Chosen ctx instances (r ∷ rules) chosen
  this_rule ctx instances r rules chosen m t = record {
    rule = r;
    listed = inl refl;
    matched = m;
    group = t.group;
    destination = (open_listed t.group r.destinations t.listed).0;
    in_use = (open_listed t.group r.destinations t.listed).1;
    is = t.is;
    some_instance = t.some_instance;
    best = λ d e o l. t.earlier d (listed_open d r.destinations e o) l;
  }

  -- If the rules choose any instance, they choose the best group of a rule that matches the traffic:
  -- one that is not isolated, not empty, and before which by priority the rule has only groups that
  -- are isolated or empty.
  pub filter_instances-Chosen :
      (ctx : RouteContext) (instances : ServiceInstances) (rules : List CustomRouteRule)
      → filter_instances compile ctx instances rules ≢ []
      → Chosen ctx instances rules (filter_instances compile ctx instances rules)
  unfolding filter_instances
  filter_instances-Chosen ctx instances [] h = absurd (h refl)
  filter_instances-Chosen ctx instances (r ∷ rules) h =
      elim (Bool-cases (route_traffic_match compile ctx r)) [
        | inr f ↦ rw f (later_rule (filter_instances-Chosen ctx instances rules (rw f at h)))
        | inl t ↦
            elim (Option-cases (
              first_group compile (parameters_of compile ctx r) instances
                (filter_available_destinations r.destinations))) [
                  | inl none_found ↦
                      rw (t, none_found)
                        (later_rule
                          (filter_instances-Chosen ctx instances rules (rw (t, none_found) at h)))
                  | inr (group, found) ↦
                      rw (t, found)
                        (this_rule ctx instances r rules group t (
                          first_group-Taken _ instances 0 _ group (available-sorted r.destinations)
                            found))
                ]
      ]

  -- The instances chosen are available instances of the service.
  pub group-available :
      (parameters : Table String) (instances : ServiceInstances) (d : DestinationGroup)
      (i : Instance)
      → Elem i (match_callee_group compile parameters instances d)
      → Elem i instances.instances × (is_available i ≡ true)
  unfolding match_callee_group
  group-available parameters instances d i e =
      Elem-keep is_available i instances.instances
        (Elem-keep (in_group compile parameters d) i _ e).0
