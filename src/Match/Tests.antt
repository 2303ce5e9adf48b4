-- ===== src/Match/Tests.antt =====
-- The index of APIs on concrete entries (src/traffic/matcher.rs).
use pole_client_rust.Common.{
  ℕ, ◌≡◌, refl, String, str_eq, str_eq_iff, Bool, true, ◌||◌, Option, some, List, [], ◌∷◌, map,
  keep, any, is_empty, lookup, insert, sort_by, insert_by,
}
use pole_client_rust.Match.Label.{
  exact, regex, text, match_label_value, is_match_all, regex_matches,
}
use pole_client_rust.Match.Trie.{empty_node, insert_path, exact_candidates}
use pole_client_rust.Match.Index.{
  Api, ApiMatchInput, api_matches, new_index, candidates, exact_text_path,
}
use pole_client_rust.Match.Index.Search.{candidates-new_index}

abbrev exact_api : String → Api
exact_api path = record {
  method = "GET";
  path = some (record { match_type = exact; value = path; value_type = some text });
}

-- A regular expression that stands for one path.
abbrev only : String → Option (String → Bool)
only pattern = some (λ a. str_eq a "/b")

abbrev regex_api : Api
regex_api = record {
  method = "";
  path = some (record { match_type = regex; value = "^/b$"; value_type = some text });
}

abbrev entries : List (ℕ × List Api)
entries =
    (7, exact_api "/a" ∷ [])
    ∷ (8, exact_api "/b" ∷ regex_api ∷ [])
    ∷ (9, [])
    ∷ (10, regex_api ∷ [])
    ∷ []

abbrev input : ApiMatchInput
input = record { method = some "GET"; path = some "/b" }

found : candidates only input (new_index entries) ≡ 8 ∷ 9 ∷ 10 ∷ []
unfolding candidates new_index lookup insert sort_by insert_by insert_path exact_candidates
    empty_node match_label_value is_match_all regex_matches exact_text_path
found = refl

not_a : ¬ (◌≡◌ {A = String} "/a" "*")
not_a e = cc ((str_eq_iff "/a" "*").1 e)

not_b : ¬ (◌≡◌ {A = String} "/b" "*")
not_b e = cc ((str_eq_iff "/b" "*").1 e)

candidates-new_index_example :
    candidates only input (new_index entries)
    ≡ map
        (λ e. e.0)
        (keep (λ (e : ℕ × List Api). is_empty e.1 || any (api_matches only input) e.1) entries)
candidates-new_index_example =
    candidates-new_index only input entries (
      ((λ t p. not_a), tt),
      (((λ t p. not_b), ((λ t p. cc t), tt)), (tt, (((λ t p. cc t), tt), tt))),
    )

-- An exact path `*` matches every path, but the index compares it as it stands.
star_missed :
    (api_matches only input (exact_api "*") ≡ true)
    × (candidates {A = ℕ} only input (new_index ((1, exact_api "*" ∷ []) ∷ [])) ≡ [])
unfolding candidates new_index lookup insert sort_by insert_by insert_path exact_candidates
    empty_node match_label_value is_match_all exact_text_path api_matches
star_missed = (refl, refl)
