-- ===== src/RateLimit/Select/Met.antt =====
-- The triggers that a quota request meets (`matching_quota_triggers` of
-- src/traffic/ratelimit/default.rs).
use pole_client_rust.Common.{
  ◌≡◌, ◌↔◌, refl, sym, ap, subst, String, Bool, true, ◌||◌, Option, inl, inr, List, [], ◌∷◌, map,
  keep, any, is_empty, All, Elem, Elem-keep, keep-Elem, sort_by, sort_by-Elem, Elem-sort_by,
}
use pole_client_rust.Match.Index.{Api, api_matches, new_index, candidates}
use pole_client_rust.Match.Index.Search.{IsLiteral, candidates-new_index}
use pole_client_rust.RateLimit.Req.{QuotaRequest}
use pole_client_rust.RateLimit.Rule.{RateLimit, LimitTrigger, trigger_arguments_match}
use pole_client_rust.RateLimit.Select.{
  Entry, entry, quota_entries, quota_api_match_input, matching_quota_triggers, Meets,
  quota_entries-Listed, Listed-quota_entries,
}

all_of : {A : Type 0} (P : A → Type 0) (xs : List A) → ((x : A) → Elem x xs → P x) → All P xs
all_of P [] h = tt
all_of P (x ∷ xs) h = (h x (inl refl), all_of P xs (λ y e. h y (inr e)))

first_of :
    (e : Entry) (xs : List (Entry × List Api))
    → Elem e (map (λ x. x.0) xs)
    → (x : Entry × List Api) × Elem x xs × (e ≡ x.0)
first_of e [] m = absurd m
first_of e (x ∷ xs) (inl q) = (x, inl refl, q)
first_of e (x ∷ xs) (inr m) = let (y, l, q) = first_of e xs m in (y, inr l, q)

of_first :
    (x : Entry × List Api) (xs : List (Entry × List Api)) → Elem x xs → Elem x.0 (map (λ y. y.0) xs)
of_first x [] m = absurd m
of_first x (y ∷ xs) (inl q) = inl (ap (λ (z : Entry × List Api). z.0) q)
of_first x (y ∷ xs) (inr m) = inr (of_first x xs m)

-- No exact text path of the rules' APIs is `*`.
abbrev pub AreLiteral : List RateLimit → Type 0
AreLiteral rules =
    (r : RateLimit)
    → Elem r rules
    → (t : LimitTrigger) → Elem t r.rules
    → All (λ api. IsLiteral api.path) t.apis

module _ (compile : String → Option (String → Bool)) (req : QuotaRequest) where
  abbrev api_met : Entry × List Api → Bool
  api_met x = is_empty x.1 || any (api_matches compile (quota_api_match_input req)) x.1

  abbrev sorted : List RateLimit → List RateLimit
  sorted rules = sort_by (λ r. r.priority) rules

  by_search :
      (rules : List RateLimit)
      → AreLiteral rules
      → candidates compile (quota_api_match_input req) (new_index (quota_entries (sorted rules)))
        ≡ map (λ x. x.0) (keep api_met (quota_entries (sorted rules)))
  by_search rules l =
      candidates-new_index compile (quota_api_match_input req) (quota_entries (sorted rules)) (
        all_of _ (quota_entries (sorted rules)) (λ x e.
          let m = quota_entries-Listed (sorted rules) x e in
          subst (λ apis. All (λ api. IsLiteral api.path) apis) (sym m.apis)
            (l x.0.0 (sort_by-Elem (λ r. r.priority) x.0.0 rules m.rule) x.0.1 m.trigger)))

  -- The triggers that are selected are those that the request meets, if no exact text path of the
  -- rules' APIs is `*`: of an enabled rule of a local or global limit, enabled and of a known
  -- resource, without APIs or with one that matches, and with arguments that all match.
  pub matching_quota_triggers-Meets :
      (rules : List RateLimit)
      → AreLiteral rules
      → (e : Entry) → Elem e (matching_quota_triggers compile req rules) ↔ Meets compile req rules e
  unfolding matching_quota_triggers
  matching_quota_triggers-Meets rules l e = (met, selected)
    where
      met : Elem e (matching_quota_triggers compile req rules) → Meets compile req rules e
      met m =
          let (found, arguments) = Elem-keep (λ x. trigger_arguments_match compile req x.1) e _ m in
          let (x, kept, same) = first_of e _ (subst (Elem e) (by_search rules l) found) in
          let (listed, api) = Elem-keep api_met x (quota_entries (sorted rules)) kept in
          let facts = quota_entries-Listed (sorted rules) x listed in
          subst (Meets compile req rules) (sym same) (record {
            rule = sort_by-Elem (λ r. r.priority) x.0.0 rules facts.rule;
            in_use = facts.in_use;
            trigger = facts.trigger;
            base = facts.base;
            api =
                subst
                  (λ (apis : List Api).
                    (is_empty apis || any (api_matches compile (quota_api_match_input req)) apis)
                    ≡ true)
                  facts.apis api;
            arguments =
                subst (λ (k : Entry). trigger_arguments_match compile req k.1 ≡ true) same
                  arguments;
          })

      selected : Meets compile req rules e → Elem e (matching_quota_triggers compile req rules)
      selected m =
          let listed =
            Listed-quota_entries (sorted rules) e.0 e.1
              (Elem-sort_by (λ r. r.priority) e.0 rules m.rule) m.in_use m.trigger m.base in
          let kept =
            keep-Elem api_met (entry e.0 e.1) (quota_entries (sorted rules)) listed m.api in
          keep-Elem (λ x. trigger_arguments_match compile req x.1) e _
            (subst (Elem e) (sym (by_search rules l)) (of_first (entry e.0 e.1) _ kept)) m.arguments
