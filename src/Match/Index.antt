-- ===== src/Match/Index.antt =====
-- `ApiMatchIndex` (src/traffic/matcher.rs): which of many entries a request's method and path may
-- match. A `HashSet` of orders is a list. `compile` is `regex::Regex::new`.
pub mod Found
pub mod Ordered
pub mod Exact
pub mod Search
use pole_client_rust.Common.{
  ℕ, suc, String, str_eq, Bool, true, false, not, if◌then◌else◌, ◌==◌, ◌&&◌, ◌||◌, Option, none,
  some, List, [], ◌∷◌, ◌++◌, any, is_empty, keep, map, Table, lookup, insert, sort_by,
}
use pole_client_rust.Match.Label.{
  MatchStringType, exact, MatchString, is_parameter, match_label_value,
}
use pole_client_rust.Match.Trie.{PathTrieNode, empty_node, insert_path, exact_candidates}

pub record Api : Type 0 where
  pub method : String
  pub path : Option MatchString

pub record ApiMatchInput : Type 0 where
  pub method : Option String
  pub path : Option String

pub record Candidate (A : Type 0) : Type 0 where
  pub order : ℕ
  pub value : A

pub record FallbackCandidate (A : Type 0) : Type 0 where
  pub api : Api
  pub candidate : Candidate A

pub record MethodApiIndex (A : Type 0) : Type 0 where
  pub pathless : List (Candidate A)
  pub exact_paths : PathTrieNode (Candidate A)
  pub fallback_paths : List (FallbackCandidate A)

pub record ApiMatchIndex (A : Type 0) : Type 0 where
  pub match_all : List (Candidate A)
  pub wildcard_method : MethodApiIndex A
  pub methods : Table (MethodApiIndex A)

pub data PathIndexKind : Type 0 where
  any_path fallback : PathIndexKind
  exact_path : String → PathIndexKind

abbrev pub is_exact : MatchStringType → Bool
is_exact exact = true
is_exact _ = false

unfoldable pub exact_text_path : Option MatchString → PathIndexKind
exact_text_path none = any_path
exact_text_path (some p) =
    if is_exact p.match_type && not (is_parameter p) then exact_path p.value else fallback

-- An empty method and `*` stand for every method.
abbrev pub is_wildcard : String → Bool
is_wildcard m = str_eq m "" || str_eq m "*"

abbrev pub is_given : Option String → String → Bool
is_given none m = false
is_given (some a) m = str_eq a m

module _ (compile : String → Option (String → Bool)) where
  abbrev pub path_matches : MatchString → Option String → Bool
  path_matches p none = false
  path_matches p (some actual) = match_label_value compile p actual

  unfoldable pub api_matches : ApiMatchInput → Api → Bool
  api_matches input api =
      if not (is_wildcard api.method) && not (is_given input.method api.method)
      then false
      else elim api.path [ none ↦ true | some p ↦ path_matches p input.path ]

module _ {A : Type 0} where
  unfoldable pub empty_method_index : MethodApiIndex A
  unfolding empty_node
  empty_method_index = record { pathless = []; exact_paths = empty_node; fallback_paths = [] }

  unfoldable pub empty_index : ApiMatchIndex A
  unfolding empty_method_index
  empty_index = record { match_all = []; wildcard_method = empty_method_index; methods = [] }

  -- The `match` of `insert_api` on the kind of the path.
  abbrev pub with_path : PathIndexKind → Api → Candidate A → MethodApiIndex A → MethodApiIndex A
  with_path any_path api c idx = record idx { pathless = idx.pathless ++ (c ∷ []) }
  with_path (exact_path p) api c idx = record idx { exact_paths = insert_path p c idx.exact_paths }
  with_path fallback api c idx = record idx {
    fallback_paths = idx.fallback_paths ++ (record { api = api; candidate = c } ∷ []);
  }

  abbrev pub or_default : Option (MethodApiIndex A) → MethodApiIndex A
  or_default none = empty_method_index
  or_default (some idx) = idx

  unfoldable pub insert_api : Api → Candidate A → ApiMatchIndex A → ApiMatchIndex A
  unfolding exact_text_path empty_method_index
  insert_api api c idx =
      let kind = exact_text_path api.path in
      if is_wildcard api.method
      then record idx { wildcard_method = with_path kind api c idx.wildcard_method }
      else record idx {
        methods =
            insert api.method (with_path kind api c (or_default (lookup api.method idx.methods)))
              idx.methods;
      }

  unfoldable pub insert_apis : List Api → Candidate A → ApiMatchIndex A → ApiMatchIndex A
  unfolding insert_api
  insert_apis [] c idx = idx
  insert_apis (api ∷ rest) c idx = insert_apis rest c (insert_api api c idx)

  abbrev pub insert_entry : List Api → Candidate A → ApiMatchIndex A → ApiMatchIndex A
  insert_entry [] c idx = record idx { match_all = idx.match_all ++ (c ∷ []) }
  insert_entry (api ∷ rest) c idx = insert_apis (api ∷ rest) c idx

  -- The loop of `new`, with the number of the next entry.
  unfoldable pub insert_entries : ℕ → List (A × List Api) → ApiMatchIndex A → ApiMatchIndex A
  unfolding insert_apis
  insert_entries n [] idx = idx
  insert_entries n ((value, apis) ∷ rest) idx =
      insert_entries (suc n) rest (insert_entry apis (record { order = n; value = value }) idx)

  unfoldable pub new_index : List (A × List Api) → ApiMatchIndex A
  unfolding insert_entries empty_index
  new_index entries = insert_entries 0 entries empty_index

  -- Of the candidates in order, the first with each order.
  unfoldable pub first_of_each : List ℕ → List (Candidate A) → List (Candidate A)
  first_of_each seen [] = []
  first_of_each seen (c ∷ rest) =
      let old = first_of_each seen rest in
      let new = first_of_each (c.order ∷ seen) rest in
      if any (λ n. n == c.order) seen then old else c ∷ new

module _ {A : Type 0} where
  abbrev pub exact_at : Option String → PathTrieNode (Candidate A) → List (Candidate A)
  exact_at none n = []
  exact_at (some p) n = exact_candidates p n

module _ {A : Type 0} (compile : String → Option (String → Bool)) (input : ApiMatchInput) where
  unfoldable pub method_candidates : MethodApiIndex A → List (Candidate A)
  unfolding api_matches
  method_candidates idx =
      idx.pathless
      ++ (exact_at input.path idx.exact_paths
          ++ map (λ f. f.candidate)
              (keep (λ f. api_matches compile input f.api) idx.fallback_paths))

  abbrev pub indexed : Option (MethodApiIndex A) → List (Candidate A)
  indexed none = []
  indexed (some idx) = method_candidates idx

  abbrev pub at_method : Option String → Table (MethodApiIndex A) → List (Candidate A)
  at_method none t = []
  at_method (some m) t = indexed (lookup m t)

  -- The candidates before they are put in order.
  unfoldable pub all_candidates : ApiMatchIndex A → List (Candidate A)
  unfolding method_candidates
  all_candidates idx =
      idx.match_all ++ (method_candidates idx.wildcard_method ++ at_method input.method idx.methods)

  unfoldable pub candidates : ApiMatchIndex A → List A
  unfolding all_candidates first_of_each
  candidates idx =
      map (λ c. c.value) (first_of_each [] (sort_by (λ c. c.order) (all_candidates idx)))
