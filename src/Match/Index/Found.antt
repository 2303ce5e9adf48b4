-- ===== src/Match/Index/Found.antt =====
-- What the index of APIs finds, before the candidates are put in order (src/traffic/matcher.rs).
use pole_client_rust.Common.{
  ◌≡◌, ◌⊎◌, inl, inr, refl, String, str_eq_iff, Bool, true, false, ◌&&◌, ◌||◌, Option, none, some,
  List, [], ◌∷◌, ◌++◌, map, keep, any, is_empty, Elem, Elem-append, Elem-append_left,
  Elem-append_right, Bool-cases, arith,
}
use pole_client_rust.Match.Trie.{PathTrieNode, insert_path, Elem-insert_path, insert_path-Elem}
use pole_client_rust.Match.Index.{
  Api, ApiMatchInput, Candidate, FallbackCandidate, MethodApiIndex, PathIndexKind, any_path,
  fallback, exact_path, exact_text_path, is_wildcard, is_given, api_matches, with_path, exact_at,
  method_candidates,
}

or_split : (a b : Bool) → (a || b) ≡ true → (a ≡ true) ⊎ (b ≡ true)
or_split true b h = inl refl
or_split false b h = inr h

module _ {A : Type 0} where
  -- One list has the elements of another, and also `c` if the test holds.
  pub record Adds (h : Bool) (c : A) (xs ys : List A) : Type 0 where
    pub to : (x : A) → Elem x ys → Elem x xs ⊎ ((h ≡ true) × (x ≡ c))
    pub from : (x : A) → Elem x xs ⊎ ((h ≡ true) × (x ≡ c)) → Elem x ys

  pub Adds-end : (c : A) (xs : List A) → Adds true c xs (xs ++ (c ∷ []))
  Adds-end c xs = record {
    to = λ x e. elim (Elem-append x xs (c ∷ []) e) [
      | inl l ↦ inl l
      | inr (inl r) ↦ inr (refl, r)
      | inr (inr r) ↦ absurd r
    ];
    from = λ x e. elim e [
      | inl l ↦ Elem-append_left x xs (c ∷ []) l
      | inr r ↦ Elem-append_right x xs (c ∷ []) (inl r.1)
    ];
  }

  pub Adds-nothing : (c : A) (xs : List A) → Adds false c xs xs
  Adds-nothing c xs = record {
    to = λ x e. inl e;
    from = λ x e. elim e [ inl l ↦ l | inr r ↦ cc (r.0) ];
  }

  pub Adds-left :
      {h : Bool} {c : A} (xs ys zs : List A) → Adds h c xs ys → Adds h c (xs ++ zs) (ys ++ zs)
  Adds-left xs ys zs a = record {
    to = λ x e. elim (Elem-append x ys zs e) [
      | inr r ↦ inl (Elem-append_right x xs zs r)
      | inl l ↦ elim (a.to x l) [ inl o ↦ inl (Elem-append_left x xs zs o) | inr n ↦ inr n ]
    ];
    from = λ x e. elim e [
      | inr n ↦ Elem-append_left x ys zs (a.from x (inr n))
      | inl l ↦ elim (Elem-append x xs zs l) [
        | inl o ↦ Elem-append_left x ys zs (a.from x (inl o))
        | inr r ↦ Elem-append_right x ys zs r
      ]
    ];
  }

  pub Adds-right :
      {h : Bool} {c : A} (zs xs ys : List A) → Adds h c xs ys → Adds h c (zs ++ xs) (zs ++ ys)
  Adds-right zs xs ys a = record {
    to = λ x e. elim (Elem-append x zs ys e) [
      | inl l ↦ inl (Elem-append_left x zs xs l)
      | inr r ↦ elim (a.to x r) [ inl o ↦ inl (Elem-append_right x zs xs o) | inr n ↦ inr n ]
    ];
    from = λ x e. elim e [
      | inr n ↦ Elem-append_right x zs ys (a.from x (inr n))
      | inl l ↦ elim (Elem-append x zs xs l) [
        | inl o ↦ Elem-append_left x zs ys o
        | inr r ↦ Elem-append_right x zs ys (a.from x (inl r))
      ]
    ];
  }

  pub Adds-both :
      {h k : Bool} {c : A} (xs ys zs : List A)
      → Adds h c xs ys
      → Adds k c ys zs
      → Adds (h || k) c xs zs
  Adds-both xs ys zs a b = record {
    to = λ x e. elim (b.to x e) [
      | inr n ↦ inr (ground (arith, n.0), n.1)
      | inl m ↦ elim (a.to x m) [ inl o ↦ inl o | inr n ↦ inr (ground (arith, n.0), n.1) ]
    ];
    from = λ x e. elim e [
      | inl o ↦ b.from x (inl (a.from x (inl o)))
      | inr n ↦ elim (or_split _ _ n.0) [
        | inl l ↦ b.from x (inl (a.from x (inr (l, n.1))))
        | inr r ↦ b.from x (inr (r, n.1))
      ]
    ];
  }

module _ (compile : String → Option (String → Bool)) (input : ApiMatchInput) where
  -- What the index asks of an API: an exact path is compared as it stands.
  abbrev pub kind_hit : PathIndexKind → Api → Bool
  kind_hit any_path api = true
  kind_hit (exact_path p) api = is_given input.path p
  kind_hit fallback api = api_matches compile input api

  abbrev pub index_hit : Api → Bool
  index_hit api =
      (is_wildcard api.method || is_given input.method api.method)
      && kind_hit (exact_text_path api.path) api

  -- An entry is found if it has no APIs, or if any of them matches.
  abbrev pub entry_hit : List Api → Bool
  entry_hit apis = is_empty apis || any index_hit apis

module _ {A : Type 0} where
  exact_at-Adds :
      (o : Option String) (p : String) (c : Candidate A) (n : PathTrieNode (Candidate A))
      → Adds (is_given o p) c (exact_at o n) (exact_at o (insert_path p c n))
  exact_at-Adds none p c n = Adds-nothing c []
  exact_at-Adds (some q) p c n = record {
    to = λ x e. elim (Elem-insert_path p q c x n e) [
      | inl l ↦ inl l
      | inr r ↦ inr ((str_eq_iff q p).1 r.0, r.1)
    ];
    from = λ x e. elim e [
      | inl l ↦ insert_path-Elem p q c x n (inl l)
      | inr r ↦ insert_path-Elem p q c x n (inr ((str_eq_iff q p).0 r.0, r.1))
    ];
  }

module _ {A : Type 0} (compile : String → Option (String → Bool)) (input : ApiMatchInput) where
  abbrev fallback_found : List (FallbackCandidate A) → List (Candidate A)
  fallback_found fs = map (λ f. f.candidate) (keep (λ f. api_matches compile input f.api) fs)

  fallback_found-Adds :
      (fs : List (FallbackCandidate A)) (api : Api) (c : Candidate A)
      → Adds
          (api_matches compile input api)
          c
          (fallback_found fs)
          (fallback_found (fs ++ (record { api = api; candidate = c } ∷ [])))
  fallback_found-Adds [] api c = elim (Bool-cases (api_matches compile input api)) [
    | inl t ↦ rw t (Adds-end c [])
    | inr f ↦ rw f (Adds-nothing c [])
  ]
  fallback_found-Adds (f ∷ fs) api c = elim (Bool-cases (api_matches compile input f.api)) [
    | inl t ↦ rw t (
        Adds-right (f.candidate ∷ []) (fallback_found fs)
          (fallback_found (fs ++ (record { api = api; candidate = c } ∷ [])))
          (fallback_found-Adds fs api c))
    | inr n ↦ rw n (fallback_found-Adds fs api c)
  ]

  -- An API that is put into the bucket of a method.
  pub with_path-Adds :
      (kind : PathIndexKind) (api : Api) (c : Candidate A) (idx : MethodApiIndex A)
      → Adds
          (kind_hit compile input kind api)
          c
          (method_candidates compile input idx)
          (method_candidates compile input (with_path kind api c idx))
  unfolding method_candidates
  with_path-Adds any_path api c idx = Adds-left idx.pathless _ _ (Adds-end c idx.pathless)
  with_path-Adds (exact_path p) api c idx = Adds-right idx.pathless _ _ (
      Adds-left (exact_at input.path idx.exact_paths) _ (fallback_found idx.fallback_paths)
        (exact_at-Adds input.path p c idx.exact_paths))
  with_path-Adds fallback api c idx = Adds-right idx.pathless _ _ (
      Adds-right (exact_at input.path idx.exact_paths) _ _
        (fallback_found-Adds idx.fallback_paths api c))
