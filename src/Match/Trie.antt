-- ===== src/Match/Trie.antt =====
-- `PathTrie` (src/traffic/matcher.rs): a tree of characters whose values stand at the ends of whole
-- paths.
use Prim.Native.Char.{Char, code}
use Prim.Native.String.{[] as end, ◌∷◌ as ◌▸◌}
use text.Mathlib.TextEquality.{Char-path}
use pole_client_rust.Common.{
  ◌≡◌, ◌⊎◌, inl, inr, refl, ap, sym, subst, String, false, if◌then◌else◌, ◌==◌, ==_iff, Option,
  none, some, List, [], ◌∷◌, ◌++◌, Elem, Elem-append, Elem-append_left, Elem-append_right,
  Bool-cases, arith,
}

mutual
  pub data PathTrieNode (A : Type 0) : Type 0 where
    node : Children A → List A → PathTrieNode A

  pub data Children (A : Type 0) : Type 0 where
    leaf : Children A
    child : Char → PathTrieNode A → Children A → Children A

apart : (c d : Char) → (code c == code d) ≡ false → ¬ (d ≡ c)
apart c d f e = cc ((==_iff (code c) (code d)).1 (ap code (sym e)), f)

first_characters : (c d : Char) (p q : String) → (d ▸ q) ≡ (c ▸ p) → d ≡ c
first_characters c d p q e = cc

module _ {A : Type 0} where
  unfoldable pub empty_node : PathTrieNode A
  empty_node = node leaf []

  unfoldable pub get_child : Char → Children A → Option (PathTrieNode A)
  get_child c leaf = none
  get_child c (child d n rest) = if code d == code c then some n else get_child c rest

  unfoldable pub set_child : Char → PathTrieNode A → Children A → Children A
  set_child c m leaf = child c m leaf
  set_child c m (child d n rest) =
      let later = set_child c m rest in if code d == code c then child c m rest else child d n later

  abbrev or_empty : Option (PathTrieNode A) → PathTrieNode A
  or_empty none = node leaf []
  or_empty (some n) = n

  -- `PathTrie::insert`
  unfoldable pub insert_path : String → A → PathTrieNode A → PathTrieNode A
  unfolding get_child set_child
  insert_path end a (node cs vs) = node cs (vs ++ (a ∷ []))
  insert_path (c ▸ s) a (node cs vs) =
      node (set_child c (insert_path s a (or_empty (get_child c cs))) cs) vs

  -- `PathTrie::exact_candidates`
  unfoldable pub exact_candidates : String → PathTrieNode A → List A
  unfolding get_child
  exact_candidates end (node cs vs) = vs
  exact_candidates (c ▸ s) (node cs vs) = elim (get_child c cs) [
    | none ↦ []
    | some n ↦ exact_candidates s n
  ]

  abbrev below : String → Option (PathTrieNode A) → List A
  below s none = []
  below s (some n) = exact_candidates s n

  get_child-set_child :
      (c d : Char) (m : PathTrieNode A) (cs : Children A)
      → get_child d (set_child c m cs) ≡ (if code c == code d then some m else get_child d cs)
  unfolding get_child set_child
  get_child-set_child c d m leaf = refl
  get_child-set_child c d m (child e n rest) = ground (arith, get_child-set_child c d m rest)

  below-empty :
      (s : String) (o : Option (PathTrieNode A)) → exact_candidates s (or_empty o) ≡ below s o
  unfolding exact_candidates get_child
  below-empty end none = refl
  below-empty (c ▸ s) none = refl
  below-empty s (some n) = refl

  -- After an insert, a path finds what it found before, and at the path of the insert also the new
  -- value.
  pub Elem-insert_path :
      (p q : String) (a x : A) (n : PathTrieNode A)
      → Elem x (exact_candidates q (insert_path p a n))
      → Elem x (exact_candidates q n) ⊎ ((q ≡ p) × (x ≡ a))
  unfolding exact_candidates insert_path
  Elem-insert_path end end a x (node cs vs) e = elim (Elem-append x vs (a ∷ []) e) [
    | inl l ↦ inl l
    | inr (inl r) ↦ inr (refl, r)
    | inr (inr r) ↦ absurd r
  ]
  Elem-insert_path end (d ▸ q) a x (node cs vs) e = inl e
  Elem-insert_path (c ▸ p) end a x (node cs vs) e = inl e
  Elem-insert_path (c ▸ p) (d ▸ q) a x (node cs vs) e =
      let found = get_child-set_child c d (insert_path p a (or_empty (get_child c cs))) cs in
      elim (Bool-cases (code c == code d)) [
        | inr f ↦ inl (subst (λ o. Elem x (below q o)) (rw f at found) e)
        | inl t ↦
            let same : c ≡ d = Char-path c d ((==_iff (code c) (code d)).0 t) in
            elim (Elem-insert_path p q a x (or_empty (get_child c cs))
              (subst (λ o. Elem x (below q o)) (rw t at found) e)) [
                | inl l ↦ inl (
                    subst (λ k. Elem x (below q (get_child k cs))) same
                      (subst (Elem x) (below-empty q (get_child c cs)) l))
                | inr (path, value) ↦ inr (cc (path, same), value)
              ]
      ]

  pub insert_path-Elem :
      (p q : String) (a x : A) (n : PathTrieNode A)
      → Elem x (exact_candidates q n) ⊎ ((q ≡ p) × (x ≡ a))
      → Elem x (exact_candidates q (insert_path p a n))
  unfolding exact_candidates insert_path
  insert_path-Elem end end a x (node cs vs) (inl l) = Elem-append_left x vs (a ∷ []) l
  insert_path-Elem end end a x (node cs vs) (inr r) = Elem-append_right x vs (a ∷ []) (inl r.1)
  insert_path-Elem end (d ▸ q) a x (node cs vs) (inl l) = l
  insert_path-Elem end (d ▸ q) a x (node cs vs) (inr r) = cc (r.0)
  insert_path-Elem (c ▸ p) end a x (node cs vs) (inl l) = l
  insert_path-Elem (c ▸ p) end a x (node cs vs) (inr r) = cc (r.0)
  insert_path-Elem (c ▸ p) (d ▸ q) a x (node cs vs) h =
      let found = get_child-set_child c d (insert_path p a (or_empty (get_child c cs))) cs in
      elim (Bool-cases (code c == code d)) [
        | inr f ↦ elim h [
          | inl l ↦ subst (λ o. Elem x (below q o)) (sym (rw f at found)) l
          | inr r ↦ absurd (apart c d f (first_characters c d p q r.0))
        ]
        | inl t ↦
            let same : c ≡ d = Char-path c d ((==_iff (code c) (code d)).0 t) in
            subst (λ o. Elem x (below q o)) (sym (rw t at found))
              (insert_path-Elem p q a x (or_empty (get_child c cs)) (elim h [
                | inl l ↦ inl (
                    subst (Elem x) (sym (below-empty q (get_child c cs)))
                      (subst (λ k. Elem x (below q (get_child k cs))) (sym same) l))
                | inr r ↦ inr (cc (r.0), r.1)
              ]))
      ]

  pub exact_candidates-empty : (p : String) → exact_candidates p empty_node ≡ []
  unfolding exact_candidates empty_node get_child
  exact_candidates-empty end = refl
  exact_candidates-empty (c ▸ p) = refl
