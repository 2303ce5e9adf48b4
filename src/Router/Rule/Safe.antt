-- ===== src/Router/Rule/Safe.antt =====
-- What the rule router hands on to the next router (`choose_instances` of
-- src/plugins/router/rule/rule.rs).
use pole_client_rust.Common.{
  ℕ, ◌≡◌, ◌≢◌, refl, ap, subst, String, Bool, false, Option, none, some, List, [], ◌∷◌, is_empty,
  Elem, Bool-cases, inl, inr,
}
use pole_client_rust.Core.Error.{Result, ok, err}
use pole_client_rust.Core.Outcome.{Outcome, value, failed, panicked, ◌>>=◌, lift}
use pole_client_rust.Core.Naming.{ServiceKey, Instance, ServiceInstances, add_weights}
use pole_client_rust.Match.Label.{CustomRouteRule}
use pole_client_rust.Core.Context.{RouteContext, RouteResult, next}
use pole_client_rust.Router.Rule.{
  RouteRule, RouteFailoverPolicy, failover_all, failover_none, RuleStatus, no_rule, dest_rule_succ,
  dest_rule_fail, source_rule_succ, source_rule_fail, filter_instances, apply_rules,
}
use pole_client_rust.Router.Flow.Narrow.{IsNarrowing, Narrows}
use pole_client_rust.Router.Rule.Choose.{conclude, by_caller, choose_instances}
use pole_client_rust.Router.Rule.Filtered.{filter_instances-Chosen, group-available}

-- Some of the service's instances, with their weight.
pub record IsHandedOn (policy : RouteFailoverPolicy) (instances : ServiceInstances)
    (r : RouteResult) : Type 0 where
  pub state : r.state ≡ next
  pub service : r.instances.service ≡ instances.service
  pub members : (i : Instance) → Elem i r.instances.instances → Elem i instances.instances
  pub weight : r.instances.total_weight ≡ add_weights 0 r.instances.instances
  pub available : policy ≡ failover_all → instances.instances ≢ [] → r.instances.instances ≢ []

abbrev pub IsSafe : RouteFailoverPolicy → ServiceInstances → Outcome RouteResult → Type 0
IsSafe policy instances (value r) = IsHandedOn policy instances r
IsSafe policy instances (failed e) = Unit {0}
IsSafe policy instances panicked = ⊥

abbrev IsGood : ServiceInstances → Option (List Instance) → Type 0
IsGood instances none = ⊥
IsGood instances (some chosen) =
    (chosen ≢ []) × ((i : Instance) → Elem i chosen → Elem i instances.instances)

-- A status of success comes with good instances.
abbrev IsDecided : ServiceInstances → RuleStatus × Option (List Instance) → Type 0
IsDecided instances (dest_rule_succ, found) = IsGood instances found
IsDecided instances (source_rule_succ, found) = IsGood instances found
IsDecided instances (no_rule, found) = Unit {0}
IsDecided instances (dest_rule_fail, found) = Unit {0}
IsDecided instances (source_rule_fail, found) = Unit {0}

untouched :
    (policy : RouteFailoverPolicy) (instances : ServiceInstances)
    → instances.total_weight ≡ add_weights 0 instances.instances
    → IsHandedOn policy instances (record { instances = instances; state = next })
untouched policy instances w = record {
  state = refl;
  service = refl;
  members = λ i e. e;
  weight = w;
  available = λ p n. n;
}

conclude-IsSafe :
    (policy : RouteFailoverPolicy) (instances : ServiceInstances)
    (decided : RuleStatus × Option (List Instance))
    → instances.total_weight ≡ add_weights 0 instances.instances
    → IsDecided instances decided
    → IsSafe policy instances (conclude policy instances decided)
unfolding conclude add_weights
conclude-IsSafe policy instances (no_rule, found) w d = untouched policy instances w
conclude-IsSafe policy instances (dest_rule_succ, none) w d = d
conclude-IsSafe policy instances (source_rule_succ, none) w d = d
conclude-IsSafe policy instances (dest_rule_succ, some chosen) w d = record {
  state = refl;
  service = refl;
  members = d.1;
  weight = refl;
  available = λ p n. d.0;
}
conclude-IsSafe policy instances (source_rule_succ, some chosen) w d = record {
  state = refl;
  service = refl;
  members = d.1;
  weight = refl;
  available = λ p n. d.0;
}
conclude-IsSafe failover_all instances (dest_rule_fail, found) w d =
    untouched failover_all instances w
conclude-IsSafe failover_all instances (source_rule_fail, found) w d =
    untouched failover_all instances w
conclude-IsSafe failover_none instances (dest_rule_fail, found) w d = record {
  state = refl;
  service = refl;
  members = λ i e. absurd e;
  weight = refl;
  available = λ p n. cc;
}
conclude-IsSafe failover_none instances (source_rule_fail, found) w d = record {
  state = refl;
  service = refl;
  members = λ i e. absurd e;
  weight = refl;
  available = λ p n. cc;
}

module _ (compile : String → Option (String → Bool)) where
  chosen-IsGood :
      (ctx : RouteContext) (instances : ServiceInstances) (rules : List CustomRouteRule)
      → is_empty (filter_instances compile ctx instances rules) ≡ false
      → IsGood instances (some (filter_instances compile ctx instances rules))
  chosen-IsGood ctx instances rules h =
      let some_instance : filter_instances compile ctx instances rules ≢ [] =
        λ e. cc (ap is_empty e, h) in
      let c = filter_instances-Chosen compile ctx instances rules some_instance in
      (
        some_instance,
        λ i e. (group-available compile _ instances c.group i (subst (Elem i) c.is e)).0,
      )

  apply_rules-IsDecided :
      (ctx : RouteContext) (instances : ServiceInstances) (rules : List CustomRouteRule)
      (succ fail : RuleStatus) (before : RuleStatus × Option (List Instance))
      → ((chosen : List Instance)
          → IsGood instances (some chosen)
          → IsDecided instances (succ, some chosen))
      → ((found : Option (List Instance)) → IsDecided instances (fail, found))
      → IsDecided instances before
      → IsDecided instances (apply_rules compile ctx instances rules (succ, fail) before)
  unfolding apply_rules
  apply_rules-IsDecided ctx instances [] succ fail before s f b = b
  apply_rules-IsDecided ctx instances (r ∷ rules) succ fail before s f b =
      elim (Bool-cases (is_empty (filter_instances compile ctx instances (r ∷ rules)))) [
        | inl t ↦ rw t (f before.1)
        | inr e ↦ rw e (s _ (chosen-IsGood ctx instances (r ∷ rules) e))
      ]

  module _ (decode : List ℕ → Option (List CustomRouteRule))
      (load : ServiceKey → Result (List (Option RouteRule))) (policy : RouteFailoverPolicy) where
    abbrev IsOutcome : ServiceInstances → Outcome (RuleStatus × Option (List Instance)) → Type 0
    IsOutcome instances (value d) = IsDecided instances d
    IsOutcome instances (failed e) = Unit {0}
    IsOutcome instances panicked = ⊥

    bind-IsSafe :
        (instances : ServiceInstances) (o : Outcome (RuleStatus × Option (List Instance)))
        → instances.total_weight ≡ add_weights 0 instances.instances
        → IsOutcome instances o
        → IsSafe policy instances (o >>= λ decided. conclude policy instances decided)
    bind-IsSafe instances (value d) w g = conclude-IsSafe policy instances d w g
    bind-IsSafe instances (failed e) w g = tt
    bind-IsSafe instances panicked w g = g

    caller_rules-IsOutcome :
        (ctx : RouteContext) (instances : ServiceInstances) (rules : Result (List CustomRouteRule))
        (before : RuleStatus × Option (List Instance))
        → IsDecided instances before
        → IsOutcome instances (
            lift rules >>= λ rs.
            value
              (apply_rules compile ctx instances rs (source_rule_succ, source_rule_fail) before))
    caller_rules-IsOutcome ctx instances (err e) before b = tt
    caller_rules-IsOutcome ctx instances (ok rules) before b =
        apply_rules-IsDecided ctx instances rules source_rule_succ source_rule_fail before
          (λ c g. g) (λ o. tt) b

    by_caller-IsOutcome :
        (ctx : RouteContext) (instances : ServiceInstances)
        (before : RuleStatus × Option (List Instance))
        → IsDecided instances before
        → IsOutcome instances (by_caller compile decode load policy ctx instances before)
    by_caller-IsOutcome ctx instances (dest_rule_succ, found) b = b
    by_caller-IsOutcome ctx instances (no_rule, found) b =
        caller_rules-IsOutcome ctx instances _ _ b
    by_caller-IsOutcome ctx instances (dest_rule_fail, found) b =
        caller_rules-IsOutcome ctx instances _ _ b
    by_caller-IsOutcome ctx instances (source_rule_succ, found) b =
        caller_rules-IsOutcome ctx instances _ _ b
    by_caller-IsOutcome ctx instances (source_rule_fail, found) b =
        caller_rules-IsOutcome ctx instances _ _ b

    routed-IsSafe :
        (ctx : RouteContext) (instances : ServiceInstances) (rules : Result (List CustomRouteRule))
        → instances.total_weight ≡ add_weights 0 instances.instances
        → IsSafe policy instances (
            lift rules >>= λ rs.
            by_caller compile decode load policy ctx instances (
              apply_rules compile ctx instances rs (dest_rule_succ, dest_rule_fail) (no_rule, none))
            >>= λ decided. conclude policy instances decided)
    routed-IsSafe ctx instances (err e) w = tt
    routed-IsSafe ctx instances (ok rules) w = bind-IsSafe instances _ w (
        by_caller-IsOutcome ctx instances _ (
          apply_rules-IsDecided ctx instances rules dest_rule_succ dest_rule_fail (no_rule, none)
            (λ c g. g) (λ o. tt) tt))

    -- The rule router never panics. If it does not fail, it hands on instances of the service, with
    -- the sum of their weights (if that was the total weight it was given), and under the policy `All`
    -- never none of a service that has some.
    pub choose_instances-IsSafe :
        (ctx : RouteContext) (instances : ServiceInstances)
        → instances.total_weight ≡ add_weights 0 instances.instances
        → IsSafe policy instances (choose_instances compile decode load policy ctx instances)
    unfolding choose_instances
    choose_instances-IsSafe ctx instances w = routed-IsSafe ctx instances _ w

-- The rule router gives some of the instances, with their weight.
pub rule-IsNarrowing :
    (compile : String → Option (String → Bool)) (decode : List ℕ → Option (List CustomRouteRule))
    (load : ServiceKey → Result (List (Option RouteRule))) (policy : RouteFailoverPolicy)
    → IsNarrowing (choose_instances compile decode load policy)
rule-IsNarrowing compile decode load policy ctx given w =
    narrowed (choose_instances compile decode load policy ctx given)
      (choose_instances-IsSafe compile decode load policy ctx given w)
  where
    narrowed : (o : Outcome RouteResult) → IsSafe policy given o → Narrows given o
    narrowed (value r) s = record { weight = s.weight; service = s.service; members = s.members }
    narrowed (failed e) s = tt
    narrowed panicked s = tt
