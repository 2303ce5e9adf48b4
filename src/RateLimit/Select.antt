-- ===== src/RateLimit/Select.antt =====
-- Which triggers of the rules a quota request meets (`matching_quota_triggers` of
-- src/traffic/ratelimit/default.rs). `compile` is `regex::Regex::new`.
pub mod Met
pub mod Tests
use pole_client_rust.Common.{
  ℕ, ◌≡◌, ◌↔◌, ◌⊎◌, inl, inr, refl, sym, ap, ◌∙◌, subst, String, Bool, true, false, if◌then◌else◌,
  ◌||◌, Option, some, List, [], ◌∷◌, ◌++◌, map, keep, any, is_empty, All, Elem, Elem-append,
  Elem-append_left, Elem-append_right, Elem-keep, keep-Elem, sort_by, sort_by-All, sort_by-Elem,
  Elem-sort_by, Bool-cases,
}
use pole_client_rust.Core.Traffic.{path}
use pole_client_rust.Match.Index.{Api, ApiMatchInput, api_matches, new_index, candidates}
use pole_client_rust.Match.Index.Search.{IsLiteral, candidates-new_index}
use pole_client_rust.RateLimit.Req.{QuotaRequest}
use pole_client_rust.RateLimit.Rule.{
  RateLimit, LimitTrigger, quota_rule_matches, trigger_base_matches, trigger_arguments_match,
}

-- `QuotaTriggerEntry`
abbrev pub Entry : Type 0
Entry = RateLimit × LimitTrigger

abbrev pub entry : RateLimit → LimitTrigger → Entry × List Api
entry rule t = ((rule, t), t.apis)

abbrev pub rule_entries : RateLimit → List (Entry × List Api)
rule_entries rule =
    if quota_rule_matches rule then map (entry rule) (keep trigger_base_matches rule.rules) else []

-- The `flat_map` over the rules.
unfoldable pub quota_entries : List RateLimit → List (Entry × List Api)
quota_entries [] = []
quota_entries (rule ∷ rest) = rule_entries rule ++ quota_entries rest

unfoldable pub quota_api_match_input : QuotaRequest → ApiMatchInput
quota_api_match_input req = record {
  method = some req.method;
  path = req.traffic_label_provider path "";
}

module _ (compile : String → Option (String → Bool)) (req : QuotaRequest) where
  unfoldable pub matching_quota_triggers : List RateLimit → List Entry
  unfolding quota_entries quota_api_match_input
  matching_quota_triggers rules =
      keep (λ e. trigger_arguments_match compile req e.1)
        (candidates compile (quota_api_match_input req)
          (new_index (quota_entries (sort_by (λ r. r.priority) rules))))

  -- A request meets a trigger: the rule and the trigger are in use, one of the trigger's APIs matches,
  -- or it has none, and all its arguments match.
  pub record Meets (rules : List RateLimit) (e : Entry) : Type 0 where
    pub rule : Elem e.0 rules
    pub in_use : quota_rule_matches e.0 ≡ true
    pub trigger : Elem e.1 e.0.rules
    pub base : trigger_base_matches e.1 ≡ true
    pub api :
        (is_empty e.1.apis || any (api_matches compile (quota_api_match_input req)) e.1.apis) ≡ true
    pub arguments : trigger_arguments_match compile req e.1 ≡ true

pub record Listed (rules : List RateLimit) (x : Entry × List Api) : Type 0 where
  pub apis : x.1 ≡ x.0.1.apis
  pub rule : Elem x.0.0 rules
  pub in_use : quota_rule_matches x.0.0 ≡ true
  pub trigger : Elem x.0.1 x.0.0.rules
  pub base : trigger_base_matches x.0.1 ≡ true

map-entry :
    (rule : RateLimit) (ts : List LimitTrigger) (x : Entry × List Api)
    → Elem x (map (entry rule) ts)
    → (x ≡ entry rule x.0.1) × Elem x.0.1 ts
map-entry rule [] x e = absurd e
map-entry rule (t ∷ ts) x (inl q) =
    let same : x.0.1 ≡ t = ap (λ (y : Entry × List Api). y.0.1) q in
    (subst (λ k. x ≡ entry rule k) (sym same) q, inl same)
map-entry rule (t ∷ ts) x (inr e) = let ih = map-entry rule ts x e in (ih.0, inr ih.1)

entry-map :
    (rule : RateLimit) (ts : List LimitTrigger) (t : LimitTrigger)
    → Elem t ts
    → Elem (entry rule t) (map (entry rule) ts)
entry-map rule [] t e = absurd e
entry-map rule (u ∷ ts) t (inl q) = inl (ap (entry rule) q)
entry-map rule (u ∷ ts) t (inr e) = inr (entry-map rule ts t e)

later-Listed :
    {rule : RateLimit} {rules : List RateLimit} {x : Entry × List Api}
    → Listed rules x
    → Listed (rule ∷ rules) x
later-Listed l = record {
  apis = l.apis;
  rule = inr l.rule;
  in_use = l.in_use;
  trigger = l.trigger;
  base = l.base;
}

rule_entries-Listed :
    (rule : RateLimit) (rules : List RateLimit) (x : Entry × List Api)
    → Elem x (rule_entries rule)
    → Listed (rule ∷ rules) x
rule_entries-Listed rule rules x e = elim (Bool-cases (quota_rule_matches rule)) [
  | inr f ↦ absurd (
      subst
        (λ b. Elem x (if b then map (entry rule) (keep trigger_base_matches rule.rules) else [])) f
        e)
  | inl t ↦
      let (same, listed) = map-entry rule (keep trigger_base_matches rule.rules) x (
        subst
          (λ b. Elem x (if b then map (entry rule) (keep trigger_base_matches rule.rules) else []))
          t e) in
      let (trigger, base) = Elem-keep trigger_base_matches x.0.1 rule.rules listed in
      let own : x.0.0 ≡ rule = ap (λ (y : Entry × List Api). y.0.0) same in
      record {
        apis = ap (λ (y : Entry × List Api). y.1) same;
        rule = inl own;
        in_use = ap quota_rule_matches own ∙ t;
        trigger = subst (λ (r : RateLimit). Elem x.0.1 r.rules) (sym own) trigger;
        base = base;
      }
]

pub quota_entries-Listed :
    (rules : List RateLimit) (x : Entry × List Api) → Elem x (quota_entries rules) → Listed rules x
unfolding quota_entries
quota_entries-Listed [] x e = absurd e
quota_entries-Listed (rule ∷ rules) x e =
    elim (Elem-append x (rule_entries rule) (quota_entries rules) e) [
      | inl l ↦ rule_entries-Listed rule rules x l
      | inr r ↦ later-Listed (quota_entries-Listed rules x r)
    ]

pub Listed-quota_entries :
    (rules : List RateLimit) (rule : RateLimit) (t : LimitTrigger)
    → Elem rule rules
    → quota_rule_matches rule ≡ true
    → Elem t rule.rules
    → trigger_base_matches t ≡ true
    → Elem (entry rule t) (quota_entries rules)
unfolding quota_entries
Listed-quota_entries [] rule t e u l b = absurd e
Listed-quota_entries (r ∷ rules) rule t (inl q) u l b =
    Elem-append_left (entry rule t) (rule_entries r) (quota_entries rules) (
      subst (λ k. Elem (entry rule t) (rule_entries k)) q
        (rw u (
          entry-map rule (keep trigger_base_matches rule.rules) t
            (keep-Elem trigger_base_matches t rule.rules l b))))
Listed-quota_entries (r ∷ rules) rule t (inr e) u l b =
    Elem-append_right (entry rule t) (rule_entries r) (quota_entries rules)
      (Listed-quota_entries rules rule t e u l b)
