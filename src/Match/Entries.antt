-- ===== src/Match/Entries.antt =====
-- Rules that hold items with APIs, put into one index: the `flat_map` of `evaluate_mirrors` and
-- `evaluate_mock` (src/traffic/policy/default.rs), which keep the items of a rule that are in use.
-- `compile` is `regex::Regex::new`.
use pole_client_rust.Common.{
  ◌≡◌, inl, inr, refl, ap, ◌∙◌, subst, String, Bool, true, if◌then◌else◌, ◌||◌, Option, List, [],
  ◌∷◌, ◌++◌, map, keep, any, is_empty, All, Elem, Elem-append, Elem-append_left, Elem-append_right,
  Elem-keep, keep-Elem, Bool-cases, first_some, or_later, first_some-append,
}
use pole_client_rust.Match.Index.{Api, ApiMatchInput, api_matches, new_index, candidates}
use pole_client_rust.Match.Index.Search.{IsLiteral, candidates-new_index}

pub all_of : {A : Type 0} (P : A → Type 0) (xs : List A) → ((x : A) → Elem x xs → P x) → All P xs
all_of P [] h = tt
all_of P (x ∷ xs) h = (h x (inl refl), all_of P xs (λ y e. h y (inr e)))

module _ {I : Type 0} (compile : String → Option (String → Bool)) (input : ApiMatchInput) where
  abbrev pub entry_offered : I × List Api → Bool
  entry_offered x = is_empty x.1 || any (api_matches compile input) x.1

  keep-append :
      (xs ys : List (I × List Api))
      → map (λ x. x.0) (keep entry_offered (xs ++ ys))
        ≡ map (λ x. x.0) (keep entry_offered xs) ++ map (λ x. x.0) (keep entry_offered ys)
  keep-append [] ys = refl
  keep-append (x ∷ xs) ys = elim (Bool-cases (entry_offered x)) [
    | inl t ↦ rw t (ap (λ l. x.0 ∷ l) (keep-append xs ys))
    | inr f ↦ rw f (keep-append xs ys)
  ]

-- Items with their APIs.
module _ {I : Type 0} (apis : I → List Api) where
  abbrev pub with_apis : I → I × List Api
  with_apis i = (i, apis i)

  -- No exact text path of the item is `*`.
  abbrev pub IsLiteralItem : I → Type 0
  IsLiteralItem i = All (λ api. IsLiteral api.path) (apis i)

  entry-IsLiteral :
      (is : List I) (x : I × List Api)
      → ((i : I) → Elem i is → IsLiteralItem i)
      → Elem x (map with_apis is)
      → All (λ api. IsLiteral api.path) x.1
  entry-IsLiteral [] x l e = absurd e
  entry-IsLiteral (i ∷ is) x l (inl q) = rw q (l i (inl refl))
  entry-IsLiteral (i ∷ is) x l (inr e) = entry-IsLiteral is x (λ j m. l j (inr m)) e

  module _ (compile : String → Option (String → Bool)) (input : ApiMatchInput) where
    abbrev pub offered : I → Bool
    offered i = is_empty (apis i) || any (api_matches compile input) (apis i)

    keep-map :
        (is : List I)
        → map (λ x. x.0) (keep (entry_offered compile input) (map with_apis is)) ≡ keep offered is
    keep-map [] = refl
    keep-map (i ∷ is) = elim (Bool-cases (offered i)) [
      | inl t ↦ rw t (ap (λ l. i ∷ l) (keep-map is))
      | inr f ↦ rw f (keep-map is)
    ]

    pub candidates-items :
        (is : List I)
        → ((i : I) → Elem i is → IsLiteralItem i)
        → candidates compile input (new_index (map with_apis is)) ≡ keep offered is
    candidates-items is l =
        candidates-new_index compile input (map with_apis is)
          (all_of _ (map with_apis is) (λ x e. entry-IsLiteral is x l e))
        ∙ keep-map is

-- No exact text path of the rules is `*`.
abbrev pub AreLiteral : {R I : Type 0} → (R → List I) → (I → List Api) → List R → Type 0
AreLiteral {R} {I} items apis rs =
    (r : R) → Elem r rs → (i : I) → Elem i (items r) → IsLiteralItem apis i

module _ {R I : Type 0} (used : R → Bool) (base : I → Bool) (items : R → List I)
    (apis : I → List Api) where
  abbrev pub rule_items : R → List (I × List Api)
  rule_items r = if used r then map (with_apis apis) (keep base (items r)) else []

  unfoldable pub flat_entries : List R → List (I × List Api)
  flat_entries [] = []
  flat_entries (r ∷ rest) = rule_items r ++ flat_entries rest

  rule-IsLiteral :
      (r : R) (x : I × List Api)
      → ((i : I) → Elem i (items r) → IsLiteralItem apis i)
      → Elem x (rule_items r)
      → All (λ api. IsLiteral api.path) x.1
  rule-IsLiteral r x l e = elim (Bool-cases (used r)) [
    | inl t ↦
        entry-IsLiteral apis (keep base (items r)) x (λ i m. l i (Elem-keep base i (items r) m).0)
          (subst (λ b. Elem x (if b then map (with_apis apis) (keep base (items r)) else [])) t e)
    | inr f ↦
        absurd
          (subst (λ b. Elem x (if b then map (with_apis apis) (keep base (items r)) else [])) f e)
  ]

  flat-IsLiteral :
      (rs : List R) (x : I × List Api)
      → AreLiteral items apis rs
      → Elem x (flat_entries rs)
      → All (λ api. IsLiteral api.path) x.1
  unfolding flat_entries
  flat-IsLiteral [] x l e = absurd e
  flat-IsLiteral (r ∷ rs) x l e = elim (Elem-append x (rule_items r) (flat_entries rs) e) [
    | inl m ↦ rule-IsLiteral r x (l r (inl refl)) m
    | inr m ↦ flat-IsLiteral rs x (λ s n. l s (inr n)) m
  ]

  module _ (compile : String → Option (String → Bool)) (input : ApiMatchInput) where
    -- The items that are offered to the request, rule by rule.
    abbrev pub rule_offers : R → List I
    rule_offers r = if used r then keep (offered apis compile input) (keep base (items r)) else []

    abbrev pub offers : List R → List I
    offers [] = []
    offers (r ∷ rs) = rule_offers r ++ offers rs

    rule-offers :
        (r : R) → map (λ x. x.0) (keep (entry_offered compile input) (rule_items r)) ≡ rule_offers r
    rule-offers r = elim (Bool-cases (used r)) [
      | inl t ↦ rw t (keep-map apis compile input (keep base (items r)))
      | inr f ↦ rw f
    ]

    flat-offers :
        (rs : List R)
        → map (λ x. x.0) (keep (entry_offered compile input) (flat_entries rs)) ≡ offers rs
    unfolding flat_entries
    flat-offers [] = refl
    flat-offers (r ∷ rs) =
        keep-append compile input (rule_items r) (flat_entries rs)
        ∙ rw (rule-offers r) (ap (λ l. rule_offers r ++ l) (flat-offers rs))

    pub candidates-flat_entries :
        (rs : List R)
        → AreLiteral items apis rs
        → candidates compile input (new_index (flat_entries rs)) ≡ offers rs
    candidates-flat_entries rs l =
        candidates-new_index compile input (flat_entries rs)
          (all_of _ (flat_entries rs) (λ x e. flat-IsLiteral rs x l e))
        ∙ flat-offers rs

    pub record IsOffered (rs : List R) (i : I) : Type 0 where
      pub rule : R
      pub listed : Elem rule rs
      pub in_use : used rule ≡ true
      pub item : Elem i (items rule)
      pub item_in_use : base i ≡ true
      pub api : offered apis compile input i ≡ true

    pub rule_offers-Elem :
        (r : R) (i : I)
        → Elem i (rule_offers r)
        → (used r ≡ true)
          × Elem i (items r)
          × (base i ≡ true)
          × (offered apis compile input i ≡ true)
    rule_offers-Elem r i e = elim (Bool-cases (used r)) [
      | inl t ↦
          let (kept, api) = Elem-keep (offered apis compile input) i (keep base (items r)) (
            subst
              (λ b.
                Elem i (if b then keep (offered apis compile input) (keep base (items r)) else []))
              t e) in
          let (item, in_use) = Elem-keep base i (items r) kept in (t, item, in_use, api)
      | inr f ↦ absurd (
          subst
            (λ b.
              Elem i (if b then keep (offered apis compile input) (keep base (items r)) else []))
            f e)
    ]

    pub Elem-rule_offers :
        (r : R) (i : I)
        → used r ≡ true
        → Elem i (items r)
        → base i ≡ true
        → offered apis compile input i ≡ true
        → Elem i (rule_offers r)
    Elem-rule_offers r i u m b o = rw u (
        keep-Elem (offered apis compile input) i (keep base (items r))
          (keep-Elem base i (items r) m b) o)

    pub offers-IsOffered : (rs : List R) (i : I) → Elem i (offers rs) → IsOffered rs i
    offers-IsOffered [] i e = absurd e
    offers-IsOffered (r ∷ rs) i e = elim (Elem-append i (rule_offers r) (offers rs) e) [
      | inl m ↦
          let (in_use, item, base_holds, api) = rule_offers-Elem r i m in
          record {
            rule = r;
            listed = inl refl;
            in_use = in_use;
            item = item;
            item_in_use = base_holds;
            api = api;
          }
      | inr m ↦
          let later = offers-IsOffered rs i m in
          record {
            rule = later.rule;
            listed = inr later.listed;
            in_use = later.in_use;
            item = later.item;
            item_in_use = later.item_in_use;
            api = later.api;
          }
    ]

    pub IsOffered-offers :
        (rs : List R) (r : R) (i : I) → Elem r rs → Elem i (rule_offers r) → Elem i (offers rs)
    IsOffered-offers [] r i e m = absurd e
    IsOffered-offers (s ∷ rs) r i (inl q) m =
        Elem-append_left i (rule_offers s) (offers rs) (subst (λ k. Elem i (rule_offers k)) q m)
    IsOffered-offers (s ∷ rs) r i (inr e) m =
        Elem-append_right i (rule_offers s) (offers rs) (IsOffered-offers rs r i e m)

    -- The first answer of an item is the first answer of a rule.
    pub first_some-offers :
        {B : Type 0} (f : I → Option B) (rs : List R)
        → first_some f (offers rs) ≡ first_some (λ r. first_some f (rule_offers r)) rs
    first_some-offers f [] = refl
    first_some-offers f (r ∷ rs) =
        first_some-append f (rule_offers r) (offers rs)
        ∙ ap (or_later (first_some f (rule_offers r))) (first_some-offers f rs)
