-- ===== src/Match/Index/Exact.antt =====
-- The index of APIs finds what a search through all entries finds (src/traffic/matcher.rs).
use pole_client_rust.Common.{
  ℕ, suc, ◌≡◌, ◌⊎◌, inl, inr, refl, sym, ap, ◌∙◌, subst, String, str_eq, str_eq_iff, Bool, false,
  if◌then◌else◌, ◌&&◌, Option, none, some, List, [], ◌∷◌, any, Elem, lookup, insert, lookup-insert,
  if_both, Bool-cases, Table,
}
use pole_client_rust.Match.Trie.{empty_node, exact_candidates-empty}
use pole_client_rust.Match.Index.{
  Api, ApiMatchInput, Candidate, MethodApiIndex, ApiMatchIndex, exact_text_path, is_wildcard,
  is_given, with_path, or_default, insert_api, insert_apis, insert_entry, insert_entries,
  method_candidates, indexed, at_method, all_candidates, empty_method_index, exact_at,
}
use pole_client_rust.Match.Index.Found.{
  Adds, Adds-end, Adds-nothing, Adds-left, Adds-right, Adds-both, kind_hit, index_hit, entry_hit,
  with_path-Adds,
}

differs : (a b : String) → str_eq a b ≡ false → str_eq b a ≡ false
differs a b f = elim (Bool-cases (str_eq b a)) [
  | inl t ↦ cc ((str_eq_iff a b).1 (sym ((str_eq_iff b a).0 t)), f)
  | inr u ↦ u
]

module _ {A : Type 0} (compile : String → Option (String → Bool)) (input : ApiMatchInput) where
  exact_at-empty : (o : Option String) → exact_at {A = A} o empty_node ≡ []
  exact_at-empty none = refl
  exact_at-empty (some p) = exact_candidates-empty p

  pub indexed-default :
      (o : Option (MethodApiIndex A))
      → method_candidates compile input (or_default o) ≡ indexed compile input o
  unfolding method_candidates empty_method_index
  indexed-default none = rw (exact_at-empty input.path) refl
  indexed-default (some idx) = refl

  at_method-Adds :
      (o : Option String) (api : Api) (c : Candidate A) (t : Table (MethodApiIndex A))
      → Adds
          (is_given o api.method && kind_hit compile input (exact_text_path api.path) api)
          c
          (at_method compile input o t)
          (at_method compile input o (
            insert api.method
              (with_path (exact_text_path api.path) api c (or_default (lookup api.method t)))
              t))
  at_method-Adds none api c t = Adds-nothing c []
  at_method-Adds (some m) api c t =
      let old = or_default (lookup api.method t) in
      let new = with_path (exact_text_path api.path) api c old in
      let written = lookup-insert api.method m new t in
      elim (Bool-cases (str_eq m api.method)) [
        | inl same ↦
            let path : api.method ≡ m = sym ((str_eq_iff m api.method).0 same) in
            let now : lookup m (insert api.method new t) ≡ some new =
              rw ((str_eq_iff api.method m).1 path) at written in
            let before : method_candidates compile input old ≡ indexed compile input (lookup m t) =
              indexed-default (lookup api.method t)
              ∙ ap (λ k. indexed compile input (lookup k t)) path in
            rw (same, now)
              (subst
                (λ xs.
                  Adds (kind_hit compile input (exact_text_path api.path) api) c xs
                    (method_candidates compile input new))
                before (with_path-Adds compile input (exact_text_path api.path) api c old))
        | inr other ↦
            let kept : lookup m (insert api.method new t) ≡ lookup m t =
              rw (differs m api.method other) at written in
            rw (other, kept) (Adds-nothing c (indexed compile input (lookup m t)))
      ]

  insert_api-Adds :
      (api : Api) (c : Candidate A) (idx : ApiMatchIndex A)
      → Adds
          (index_hit compile input api)
          c
          (all_candidates compile input idx)
          (all_candidates compile input (insert_api api c idx))
  unfolding all_candidates insert_api
  insert_api-Adds api c idx = elim (Bool-cases (is_wildcard api.method)) [
    | inl w ↦ rw w (
        Adds-right idx.match_all _ _ (
          Adds-left _ _ (at_method compile input input.method idx.methods)
            (with_path-Adds compile input (exact_text_path api.path) api c idx.wildcard_method)))
    | inr n ↦ rw n (
        Adds-right idx.match_all _ _ (
          Adds-right (method_candidates compile input idx.wildcard_method) _ _
            (at_method-Adds input.method api c idx.methods)))
  ]

  insert_apis-Adds :
      (apis : List Api) (c : Candidate A) (idx : ApiMatchIndex A)
      → Adds
          (any (index_hit compile input) apis)
          c
          (all_candidates compile input idx)
          (all_candidates compile input (insert_apis apis c idx))
  unfolding insert_apis
  insert_apis-Adds [] c idx = Adds-nothing c _
  insert_apis-Adds (api ∷ apis) c idx =
      Adds-both _ _ _ (insert_api-Adds api c idx) (insert_apis-Adds apis c (insert_api api c idx))

  insert_entry-Adds :
      (apis : List Api) (c : Candidate A) (idx : ApiMatchIndex A)
      → Adds
          (entry_hit compile input apis)
          c
          (all_candidates compile input idx)
          (all_candidates compile input (insert_entry apis c idx))
  unfolding all_candidates
  insert_entry-Adds [] c idx = Adds-left idx.match_all _ _ (Adds-end c idx.match_all)
  insert_entry-Adds (api ∷ apis) c idx = insert_apis-Adds (api ∷ apis) c idx

  -- The entries that are found, with their numbers.
  abbrev pub hits : ℕ → List (A × List Api) → List (Candidate A)
  hits n [] = []
  hits n ((value, apis) ∷ rest) =
      let later = hits (suc n) rest in
      if entry_hit compile input apis then record { order = n; value = value } ∷ later else later

  pub insert_entries-hits :
      (n : ℕ) (es : List (A × List Api)) (idx : ApiMatchIndex A) (x : Candidate A)
      → Elem x (all_candidates compile input (insert_entries n es idx))
      → Elem x (all_candidates compile input idx) ⊎ Elem x (hits n es)
  unfolding insert_entries
  insert_entries-hits n [] idx x e = inl e
  insert_entries-hits n ((value, apis) ∷ es) idx x e =
      let c : Candidate A = record { order = n; value = value } in
      elim (insert_entries-hits (suc n) es (insert_entry apis c idx) x e) [
        | inr r ↦ inr (
            if_both (Elem x) (entry_hit compile input apis) (c ∷ hits (suc n) es) (hits (suc n) es)
              (inr r) r)
        | inl l ↦ elim ((insert_entry-Adds apis c idx).to x l) [
          | inl o ↦ inl o
          | inr m ↦ inr (rw (m.0) (inl (m.1)))
        ]
      ]

  pub hits-insert_entries :
      (n : ℕ) (es : List (A × List Api)) (idx : ApiMatchIndex A) (x : Candidate A)
      → Elem x (all_candidates compile input idx) ⊎ Elem x (hits n es)
      → Elem x (all_candidates compile input (insert_entries n es idx))
  unfolding insert_entries
  hits-insert_entries n [] idx x (inl o) = o
  hits-insert_entries n [] idx x (inr z) = absurd z
  hits-insert_entries n ((value, apis) ∷ es) idx x (inl o) =
      let c : Candidate A = record { order = n; value = value } in
      hits-insert_entries (suc n) es (insert_entry apis c idx) x
        (inl ((insert_entry-Adds apis c idx).from x (inl o)))
  hits-insert_entries n ((value, apis) ∷ es) idx x (inr h) =
      let c : Candidate A = record { order = n; value = value } in
      hits-insert_entries (suc n) es (insert_entry apis c idx) x
        (elim (Bool-cases (entry_hit compile input apis)) [
          | inr f ↦ inr (rw f at h)
          | inl t ↦ elim (rw t at h) [
            | inl q ↦ inl ((insert_entry-Adds apis c idx).from x (inr (t, q)))
            | inr r ↦ inr r
          ]
        ])
