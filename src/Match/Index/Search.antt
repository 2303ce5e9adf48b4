-- ===== src/Match/Index/Search.antt =====
-- The index of APIs against a search through all entries (src/traffic/matcher.rs).
use pole_client_rust.Common.{
  ℕ, suc, ◌<◌, ◌≡◌, ◌≢◌, inl, inr, refl, sym, ap, ◌∙◌, subst, String, str_eq, str_eq_iff, Bool,
  true, false, not, ◌&&◌, ◌||◌, Option, none, some, List, [], ◌∷◌, ◌++◌, map, keep, any, is_empty,
  Elem, All, lookup, sort_by, sort_by-Elem, Elem-sort_by, sort_by-IsSortedFrom, Bool-cases,
  &&_split, split_comma, arith,
}
use pole_client_rust.Match.Label.{
  MatchString, MatchStringType, exact, regex, not_equals, in_list, not_in, range, is_parameter,
  match_label_value, is_match_all, regex_matches, range_matches,
}
use pole_client_rust.Match.Index.{
  Api, ApiMatchInput, Candidate, is_exact, exact_text_path, is_wildcard, is_given, path_matches,
  api_matches, new_index, empty_index, insert_entries, at_method, all_candidates, first_of_each,
  candidates,
}
use pole_client_rust.Match.Index.Ordered.{
  IsAbove, IsStrict, strict_same, first_of_each-IsStrict, first_of_each-Elem, Elem-first_of_each,
  one_of_order,
}
use pole_client_rust.Match.Index.Found.{index_hit, entry_hit, kind_hit}
use pole_client_rust.Match.Index.Exact.{
  hits, insert_entries-hits, hits-insert_entries, indexed-default,
}

is_exact-eq : (t : MatchStringType) → is_exact t ≡ true → t ≡ exact
is_exact-eq exact h = refl
is_exact-eq regex h = cc
is_exact-eq not_equals h = cc
is_exact-eq in_list h = cc
is_exact-eq not_in h = cc
is_exact-eq range h = cc

not_same : (a b : String) → a ≢ b → str_eq a b ≡ false
not_same a b n = elim (Bool-cases (str_eq a b)) [
  | inl t ↦ absurd (n ((str_eq_iff a b).0 t))
  | inr f ↦ f
]

str_eq-swap : (a b : String) → str_eq a b ≡ str_eq b a
str_eq-swap a b = ground (arith, str_eq_iff a b, str_eq_iff b a)

-- An exact path that is a plain text is not `*`.
abbrev pub IsLiteral : Option MatchString → Type 0
IsLiteral none = Unit {0}
IsLiteral (some p) = p.match_type ≡ exact → is_parameter p ≡ false → p.value ≢ "*"

module _ (compile : String → Option (String → Bool)) (input : ApiMatchInput) where
  exact_label :
      (p : MatchString) (actual : Option String)
      → p.match_type ≡ exact
      → p.value ≢ "*"
      → is_given actual p.value ≡ path_matches compile p actual
  unfolding match_label_value is_match_all
  exact_label p none e n = refl
  exact_label p (some a) e n =
      let single : str_eq p.value "*" ≡ false = not_same p.value "*" n in
      str_eq-swap a p.value
      ∙ sym (
          rw (match_label_value, single)
            (ap
              (λ t. elim t [
                | exact ↦ str_eq p.value a
                | not_equals ↦ not (str_eq p.value a)
                | regex ↦ regex_matches compile p.value a
                | in_list ↦ any (λ x. str_eq x a) (split_comma p.value)
                | not_in ↦ not (any (λ x. str_eq x a) (split_comma p.value))
                | range ↦ range_matches (split_comma p.value) a
              ])
              e))

  path_hit :
      (m : String) (p : Option MatchString)
      → IsLiteral p
      → (is_wildcard m || is_given input.method m) ≡ true
      → kind_hit compile input (exact_text_path p) (record { method = m; path = p })
        ≡ api_matches compile input (record { method = m; path = p })
  unfolding exact_text_path api_matches
  path_hit m none l h = ground arith
  path_hit m (some p) l h = elim (Bool-cases (is_exact p.match_type && not (is_parameter p))) [
    | inr f ↦ rw f refl
    | inl t ↦
        let parts = &&_split (is_exact p.match_type) (not (is_parameter p)) t in
        let kind : p.match_type ≡ exact = is_exact-eq p.match_type parts.0 in
        let plain : is_parameter p ≡ false = ground (arith, parts.1) in
        let open_bucket : (not (is_wildcard m) && not (is_given input.method m)) ≡ false =
          ground (arith, h) in
        rw (t, open_bucket) (exact_label p input.path kind (l kind plain))
  ]

  index_hit-api_matches :
      (api : Api) → IsLiteral api.path → index_hit compile input api ≡ api_matches compile input api
  unfolding api_matches
  index_hit-api_matches api l =
      elim (Bool-cases (is_wildcard api.method || is_given input.method api.method)) [
        | inl t ↦ rw t (path_hit api.method api.path l t)
        | inr f ↦ ground arith
      ]

  any_hit :
      (apis : List Api)
      → All (λ api. IsLiteral api.path) apis
      → any (index_hit compile input) apis ≡ any (api_matches compile input) apis
  any_hit [] l = refl
  any_hit (api ∷ apis) l = rw (index_hit-api_matches api l.0, any_hit apis l.1) refl

module _ {A : Type 0} (compile : String → Option (String → Bool)) (input : ApiMatchInput) where
  at_method-empty : (o : Option String) → at_method {A = A} compile input o [] ≡ []
  unfolding lookup
  at_method-empty none = refl
  at_method-empty (some m) = refl

  nothing_indexed : all_candidates {A = A} compile input empty_index ≡ []
  unfolding all_candidates empty_index
  nothing_indexed =
      ap (λ xs. xs ++ at_method {A = A} compile input input.method [])
        (indexed-default compile input none)
      ∙ at_method-empty input.method

  all_candidates-empty : (x : Candidate A) → ¬ Elem x (all_candidates compile input empty_index)
  all_candidates-empty x e = subst (Elem x) nothing_indexed e

  hits-IsAbove : (m n : ℕ) (es : List (A × List Api)) → m < n → IsAbove m (hits compile input n es)
  hits-IsAbove m n [] h = tt
  hits-IsAbove m n ((value, apis) ∷ es) h = elim (Bool-cases (entry_hit compile input apis)) [
    | inl t ↦ rw t (h, hits-IsAbove n (suc n) es (omega arith))
    | inr f ↦ rw f (hits-IsAbove m (suc n) es (omega (arith, h)))
  ]

  hits-IsStrict : (n : ℕ) (es : List (A × List Api)) → IsStrict (hits compile input n es)
  hits-IsStrict n [] = tt
  hits-IsStrict n ((value, apis) ∷ es) = elim (Bool-cases (entry_hit compile input apis)) [
    | inl t ↦ rw t (hits-IsAbove n (suc n) es (omega arith))
    | inr f ↦ rw f (hits-IsStrict (suc n) es)
  ]

  map-hits :
      (n : ℕ) (es : List (A × List Api))
      → map (λ c. c.value) (hits compile input n es)
        ≡ map (λ e. e.0) (keep (λ e. entry_hit compile input e.1) es)
  map-hits n [] = refl
  map-hits n ((value, apis) ∷ es) = ground (arith, map-hits (suc n) es)

  ordered-hits :
      (es : List (A × List Api))
      → first_of_each [] (sort_by (λ c. c.order) (all_candidates compile input (new_index es)))
        ≡ hits compile input 0 es
  unfolding new_index
  ordered-hits es = strict_same _ _ strict (hits-IsStrict 0 es) to from
    where
      found : List (Candidate A)
      found = all_candidates compile input (insert_entries 0 es empty_index)

      strict : IsStrict (first_of_each [] (sort_by (λ c. c.order) found))
      strict = first_of_each-IsStrict _ (sort_by-IsSortedFrom (λ c. c.order) found)

      to :
          (x : Candidate A)
          → Elem x (first_of_each [] (sort_by (λ c. c.order) found))
          → Elem x (hits compile input 0 es)
      to x e =
          let m = sort_by-Elem (λ c. c.order) x found (first_of_each-Elem [] x _ e) in
          elim (insert_entries-hits compile input 0 es empty_index x m) [
            | inl z ↦ absurd (all_candidates-empty x z)
            | inr h ↦ h
          ]

      from :
          (x : Candidate A)
          → Elem x (hits compile input 0 es)
          → Elem x (first_of_each [] (sort_by (λ c. c.order) found))
      from x h =
          let m = hits-insert_entries compile input 0 es empty_index x (inr h) in
          elim (Elem-first_of_each [] x _ (Elem-sort_by (λ c. c.order) x found m)) [
            | inl z ↦ cc z
            | inr (d, e, o) ↦
                subst (λ y. Elem y (first_of_each [] (sort_by (λ c. c.order) found)))
                  (one_of_order _ d x (hits-IsStrict 0 es) (to d e) h o) e
          ]

  hits_by_matches :
      (es : List (A × List Api))
      → All (λ e. All (λ api. IsLiteral api.path) e.1) es
      → keep (λ e. entry_hit compile input e.1) es
        ≡ keep (λ e. is_empty e.1 || any (api_matches compile input) e.1) es
  hits_by_matches [] l = refl
  hits_by_matches ((value, apis) ∷ es) l =
      let same = any_hit compile input apis l.0 in ground (arith, same, hits_by_matches es l.1)

  -- The index gives the values of the entries that have no API or one that matches the input, in the
  -- order of the entries and each once, if no exact text path is `*`.
  pub candidates-new_index :
      (es : List (A × List Api))
      → All (λ e. All (λ api. IsLiteral api.path) e.1) es
      → candidates compile input (new_index es)
        ≡ map (λ e. e.0) (keep (λ e. is_empty e.1 || any (api_matches compile input) e.1) es)
  unfolding candidates
  candidates-new_index es l =
      ap (map (λ c. c.value)) (ordered-hits es)
      ∙ map-hits 0 es
      ∙ ap (map (λ e. e.0)) (hits_by_matches es l)
