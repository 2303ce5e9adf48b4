-- ===== src/Policy/Security/Guard.antt =====
-- What an allowed request has shown (`evaluate_security` of src/traffic/policy/default.rs).
use pole_client_rust.Common.{
  ℕ, ◌≤◌, ◌≡◌, refl, sym, ap, ◌∙◌, subst, inl, inr, ◌⊎◌, String, Bool, true, false, not, ◌&&◌,
  Option, none, some, List, [], ◌∷◌, keep, is_empty, Elem, Elem-keep, keep-Elem, first_some,
  first_some-Elem, Bool-cases, Option-cases, sort_by, sort_by-Best, Elem-sort_by, first_some-none,
  none-first_some, arith,
}
use pole_client_rust.Core.Context.{RouteContext}
use pole_client_rust.Match.Entries.{IsLiteralItem, offered, candidates-items}
use pole_client_rust.Policy.{
  TrafficSecurityRejectEffect, TrafficSecurityAction, traffic_security_allow, traffic_security_deny,
  TrafficSecurityPolicy, TrafficSecurityRule, TrafficSecurityDecision, api_match_input,
  traffic_rule_matches,
}
use pole_client_rust.Policy.Security.{
  security_decision, managed_caller_matches, is_managed_rule, first_effect, denied,
  security_rule_authenticated, policy_decision, rule_candidates, or_refused, rule_decision,
  evaluate_security,
}

decision_allow :
    (a : TrafficSecurityAction) (e : Option TrafficSecurityRejectEffect)
    → (security_decision a e).allowed ≡ true
    → a ≡ traffic_security_allow
unfolding security_decision
decision_allow traffic_security_allow e h = refl
decision_allow traffic_security_deny e h = cc

some_path : {x y : TrafficSecurityDecision} → some x ≡ some y → x ≡ y
some_path e = cc

or_refused-allowed :
    (managed : Bool) (policies : List TrafficSecurityPolicy)
    (found : Option TrafficSecurityDecision) (d : TrafficSecurityDecision)
    → or_refused managed policies found ≡ some d
    → d.allowed ≡ true
    → found ≡ some d
or_refused-allowed managed policies (some x) d h a = h
or_refused-allowed true policies none d h a =
    cc (a, ap (λ (x : TrafficSecurityDecision). x.allowed) (some_path h))
or_refused-allowed false policies none d h a = cc

not-empty :
    (p : TrafficSecurityPolicy) (ps : List TrafficSecurityPolicy) → Elem p ps → is_empty ps ≡ false
not-empty p [] e = absurd e
not-empty p (q ∷ ps) e = refl

module _ (is_blank : String → Bool) (decode_hex : String → Option (List ℕ))
    (sha256 : String → List ℕ) (compile : String → Option (String → Bool))
    (ctx : RouteContext) where
  abbrev pub is_offered : TrafficSecurityPolicy → Bool
  is_offered p = offered (λ (q : TrafficSecurityPolicy). q.apis) compile (api_match_input ctx) p

  -- An enabled rule lets the request pass by one of its policies.
  pub record Accepts (r : TrafficSecurityRule) : Type 0 where
    pub authenticated :
        security_rule_authenticated is_blank decode_hex sha256 ctx r.authentication ≡ true
    pub policy : TrafficSecurityPolicy
    pub listed : Elem policy r.policies
    pub api : is_offered policy ≡ true
    pub caller :
        is_managed_rule r.authentication ≡ true
        → managed_caller_matches ctx.authenticated_caller policy.managed_caller ≡ true
    pub traffic : traffic_rule_matches compile ctx policy.traffic_match_rule ≡ true
    pub action : policy.action ≡ traffic_security_allow

  abbrev pub AreLiteralRules : List TrafficSecurityRule → Type 0
  AreLiteralRules rules =
      (r : TrafficSecurityRule)
      → Elem r rules
      → (p : TrafficSecurityPolicy) → Elem p r.policies
      → IsLiteralItem (λ (q : TrafficSecurityPolicy). q.apis) p

  -- A rule that the request concerns, and whose gate it does not pass: it is not authenticated as the
  -- rule asks, or the rule is for managed callers and none of its policies names this one.
  pub record Refuses (r : TrafficSecurityRule) : Type 0 where
    pub policy : TrafficSecurityPolicy
    pub listed : Elem policy r.policies
    pub api : is_offered policy ≡ true
    pub gate :
        (security_rule_authenticated is_blank decode_hex sha256 ctx r.authentication ≡ false)
        ⊎ ((is_managed_rule r.authentication ≡ true)
            × ((p : TrafficSecurityPolicy)
                → Elem p r.policies
                → managed_caller_matches ctx.authenticated_caller p.managed_caller ≡ false))

  abbrev decide : TrafficSecurityRule → Option TrafficSecurityDecision
  decide r = rule_decision is_blank decode_hex sha256 compile ctx r

  policy_allowed :
      (managed : Bool) (p : TrafficSecurityPolicy) (d : TrafficSecurityDecision)
      → policy_decision compile ctx managed p ≡ some d
      → d.allowed ≡ true
      → (managed ≡ true → managed_caller_matches ctx.authenticated_caller p.managed_caller ≡ true)
        × (traffic_rule_matches compile ctx p.traffic_match_rule ≡ true)
        × (p.action ≡ traffic_security_allow)
  unfolding policy_decision
  policy_allowed managed p d h a =
      elim (Bool-cases
        (managed && not (managed_caller_matches ctx.authenticated_caller p.managed_caller))) [
          | inl t ↦ cc (rw t at h)
          | inr f ↦ elim (Bool-cases (traffic_rule_matches compile ctx p.traffic_match_rule)) [
            | inl met ↦
                let same : some (security_decision p.action p.reject_effect) ≡ some d =
                  rw (f, met) at h in
                (
                  λ m. ground arith,
                  met,
                  decision_allow p.action p.reject_effect
                      (ap (λ (x : TrafficSecurityDecision). x.allowed) (some_path same) ∙ a),
                )
            | inr unmet ↦ cc (rw (f, unmet) at h)
          ]
        ]

  found_are :
      (r : TrafficSecurityRule)
      → ((p : TrafficSecurityPolicy)
          → Elem p r.policies
          → IsLiteralItem (λ (q : TrafficSecurityPolicy). q.apis) p)
      → rule_candidates compile ctx r ≡ keep is_offered r.policies
  unfolding rule_candidates
  found_are r l =
      candidates-items (λ (q : TrafficSecurityPolicy). q.apis) compile (api_match_input ctx)
        r.policies l

  rule_decision-Accepts :
      (r : TrafficSecurityRule) (d : TrafficSecurityDecision)
      → ((p : TrafficSecurityPolicy)
          → Elem p r.policies
          → IsLiteralItem (λ (q : TrafficSecurityPolicy). q.apis) p)
      → decide r ≡ some d
      → d.allowed ≡ true
      → Accepts r
  unfolding rule_decision
  rule_decision-Accepts r d l h a = elim (Bool-cases (is_empty (rule_candidates compile ctx r))) [
    | inl t ↦ cc (rw t at h)
    | inr f ↦
        elim (Bool-cases
          (security_rule_authenticated is_blank decode_hex sha256 ctx r.authentication)) [
            | inr g ↦
                let same = some_path (rw (f, g) at h) in
                cc (a, ap (λ (x : TrafficSecurityDecision). x.allowed) same)
            | inl g ↦
                let managed = is_managed_rule r.authentication in
                let (p, e, q) =
                  first_some-Elem (policy_decision compile ctx managed)
                    (rule_candidates compile ctx r) d
                    (or_refused-allowed managed r.policies _ d (rw (f, g) at h) a) in
                let (listed, api) =
                  Elem-keep is_offered p r.policies (subst (Elem p) (found_are r l) e) in
                let (caller, traffic, action) = policy_allowed managed p d q a in
                record {
                  authenticated = g;
                  policy = p;
                  listed = listed;
                  api = api;
                  caller = caller;
                  traffic = traffic;
                  action = action;
                }
          ]
  ]

  no_caller :
      (p : TrafficSecurityPolicy)
      → managed_caller_matches ctx.authenticated_caller p.managed_caller ≡ false
      → policy_decision compile ctx true p ≡ none
  unfolding policy_decision
  no_caller p h = rw h

  Refuses-decision :
      (r : TrafficSecurityRule)
      → ((p : TrafficSecurityPolicy)
          → Elem p r.policies
          → IsLiteralItem (λ (q : TrafficSecurityPolicy). q.apis) p)
      → Refuses r
      → (d : TrafficSecurityDecision) × (decide r ≡ some d) × (d.allowed ≡ false)
  unfolding rule_decision
  Refuses-decision r l x =
      let offered_policy : Elem x.policy (rule_candidates compile ctx r) =
        subst (Elem x.policy) (sym (found_are r l))
          (keep-Elem is_offered x.policy r.policies x.listed x.api) in
      let some_found = not-empty x.policy (rule_candidates compile ctx r) offered_policy in
      elim (Bool-cases
        (security_rule_authenticated is_blank decode_hex sha256 ctx r.authentication)) [
          | inr g ↦
              (denied (first_effect (rule_candidates compile ctx r)), rw (some_found, g), refl)
          | inl g ↦ elim x.gate [
            | inl n ↦ cc (g, n)
            | inr (m, nobody) ↦
                let skipped : first_some (policy_decision compile ctx true)
                      (rule_candidates compile ctx r)
                    ≡ none =
                  none-first_some _ (rule_candidates compile ctx r) (λ p e. no_caller p (
                    nobody p
                      (Elem-keep is_offered p r.policies (subst (Elem p) (found_are r l) e)).0)) in
                (denied (first_effect r.policies), rw (some_found, g, m, skipped), refl)
          ]
        ]

  -- A request that is allowed although it does not pass the gate of an enabled rule that concerns it
  -- was let pass by another rule: one that is enabled, that does not come later by priority, that it
  -- is authenticated for, and one of whose policies has its API, matches its traffic and allows it (for
  -- managed callers: and names its caller). The exact text paths of the rules' APIs are not `*`.
  pub evaluate_security-guarded :
      (rules : List TrafficSecurityRule) (r : TrafficSecurityRule)
      → AreLiteralRules rules
      → Elem r rules
      → r.enable ≡ true
      → Refuses r
      → (evaluate_security is_blank decode_hex sha256 compile ctx rules).allowed ≡ true
      → (s : TrafficSecurityRule) × Elem s rules
        × (s.enable ≡ true)
        × (s.priority ≤ r.priority)
        × Accepts s
  unfolding evaluate_security
  evaluate_security-guarded rules r l e on refuses a =
      let enabled = keep (λ (k : TrafficSecurityRule). k.enable) rules in
      let (refusal, decided, refused) = Refuses-decision r (l r e) refuses in
      let listed = keep-Elem (λ (k : TrafficSecurityRule). k.enable) r rules e on in
      elim (Option-cases (first_some decide (sort_by (λ k. k.priority) enabled))) [
        | inl n ↦
            let undecided =
              first_some-none decide (sort_by (λ k. k.priority) enabled) r n
                (Elem-sort_by (λ k. k.priority) r enabled listed) in
            cc (undecided, decided)
        | inr (d, some_d) ↦
            let best = sort_by-Best (λ k. k.priority) decide enabled d some_d in
            let (known, in_use) =
              Elem-keep (λ (k : TrafficSecurityRule). k.enable) best.of rules best.listed in
            (
              best.of,
              known,
              in_use,
              best.least r listed (λ z. cc (z, decided)),
              rule_decision-Accepts best.of d (l best.of known) best.answer (rw some_d at a),
            )
      ]
