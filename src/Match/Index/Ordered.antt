-- ===== src/Match/Index/Ordered.antt =====
-- Candidates put in order, each order once (`candidates` of src/traffic/matcher.rs).
use pole_client_rust.Common.{
  ℕ, ◌<◌, ◌≤◌, ◌≡◌, ◌⊎◌, inl, inr, refl, sym, ap, ◌∙◌, true, false, ◌==◌, ==_iff, List, [], ◌∷◌,
  any, Elem, IsSortedFrom, Bool-cases, arith,
}
use pole_client_rust.Match.Index.{Candidate, first_of_each}

below_new :
    (n m : ℕ) (seen : List ℕ)
    → n ≤ m
    → any (λ k. k == n) seen ≡ true
    → any (λ k. k == m) seen ≡ false
    → n < m
below_new n m seen le h f = elim (Bool-cases (n == m)) [
  | inl t ↦ cc (ap (λ x. any (λ k. k == x) seen) ((==_iff n m).0 t), h, f)
  | inr u ↦ ground arith
]

module _ {A : Type 0} where
  -- Orders grow strictly along the list, from above a bound.
  abbrev pub IsAbove : ℕ → List (Candidate A) → Type 0
  IsAbove n [] = Unit {0}
  IsAbove n (c ∷ cs) = (n < c.order) × IsAbove c.order cs

  abbrev pub IsStrict : List (Candidate A) → Type 0
  IsStrict [] = Unit {0}
  IsStrict (c ∷ cs) = IsAbove c.order cs

  above_bound :
      (n : ℕ) (c : Candidate A) (cs : List (Candidate A)) → IsAbove n cs → Elem c cs → n < c.order
  above_bound n c [] s e = absurd e
  above_bound n c (d ∷ cs) s (inl e) = rw (ap (λ (x : Candidate A). x.order) e) s.0
  above_bound n c (d ∷ cs) s (inr e) = omega (arith, s.0, above_bound d.order c cs s.1 e)

  IsAbove-lower : (m n : ℕ) (cs : List (Candidate A)) → m ≤ n → IsAbove n cs → IsAbove m cs
  IsAbove-lower m n [] h s = tt
  IsAbove-lower m n (c ∷ cs) h s = (omega (arith, h, s.0), s.1)

  pub IsAbove-IsStrict : (n : ℕ) (cs : List (Candidate A)) → IsAbove n cs → IsStrict cs
  IsAbove-IsStrict n [] s = tt
  IsAbove-IsStrict n (c ∷ cs) s = s.1

  same_rest :
      (c d : Candidate A) (cs ds : List (Candidate A))
      → c ≡ d
      → IsAbove c.order cs
      → ((x : Candidate A) → Elem x (c ∷ cs) → Elem x (d ∷ ds))
      → (x : Candidate A) → Elem x cs
      → Elem x ds
  same_rest c d cs ds e s to x m = elim (to x (inr m)) [
    | inr r ↦ r
    | inl q ↦
        let low = above_bound c.order x cs s m in
        absurd (
          omega
            (arith, low, ap (λ (y : Candidate A). y.order) q, ap (λ (y : Candidate A). y.order) e))
  ]

  -- Two lists in strict order with the same elements are one list.
  pub strict_same :
      (cs ds : List (Candidate A))
      → IsStrict cs
      → IsStrict ds
      → ((x : Candidate A) → Elem x cs → Elem x ds)
      → ((x : Candidate A) → Elem x ds → Elem x cs)
      → cs ≡ ds
  strict_same [] [] s t to from = refl
  strict_same [] (d ∷ ds) s t to from = absurd (from d (inl refl))
  strict_same (c ∷ cs) [] s t to from = absurd (to c (inl refl))
  strict_same (c ∷ cs) (d ∷ ds) s t to from =
      let head : c ≡ d = heads (to c (inl refl)) (from d (inl refl)) in
      let tails =
        strict_same cs ds (IsAbove-IsStrict c.order cs s) (IsAbove-IsStrict d.order ds t)
          (same_rest c d cs ds head s to) (same_rest d c ds cs (sym head) t from) in
      cc (head, tails)
    where
      heads : Elem c (d ∷ ds) → Elem d (c ∷ cs) → c ≡ d
      heads (inl e) m = e
      heads (inr e) (inl q) = sym q
      heads (inr e) (inr q) =
          absurd (omega (arith, above_bound d.order c ds t e, above_bound c.order d cs s q))

  first_of_each-IsAbove :
      (n : ℕ) (seen : List ℕ) (cs : List (Candidate A))
      → IsSortedFrom (λ c. c.order) n cs
      → any (λ k. k == n) seen ≡ true
      → IsAbove n (first_of_each seen cs)
  unfolding first_of_each
  first_of_each-IsAbove n seen [] s h = tt
  first_of_each-IsAbove n seen (c ∷ cs) s h = elim (Bool-cases (any (λ k. k == c.order) seen)) [
    | inl t ↦ rw t (
        IsAbove-lower n c.order (first_of_each seen cs) s.0
          (first_of_each-IsAbove c.order seen cs s.1 t))
    | inr f ↦
        let new : n < c.order = below_new n c.order seen s.0 h f in
        rw f (new, first_of_each-IsAbove c.order (c.order ∷ seen) cs s.1 (ground arith))
  ]

  pub first_of_each-IsStrict :
      (cs : List (Candidate A)) → IsSortedFrom (λ c. c.order) 0 cs → IsStrict (first_of_each [] cs)
  unfolding first_of_each
  first_of_each-IsStrict [] s = tt
  first_of_each-IsStrict (c ∷ cs) s =
      first_of_each-IsAbove c.order (c.order ∷ []) cs s.1 (ground arith)

  pub first_of_each-Elem :
      (seen : List ℕ) (c : Candidate A) (cs : List (Candidate A))
      → Elem c (first_of_each seen cs)
      → Elem c cs
  unfolding first_of_each
  first_of_each-Elem seen c [] e = e
  first_of_each-Elem seen c (d ∷ cs) e = elim (Bool-cases (any (λ k. k == d.order) seen)) [
    | inl t ↦ inr (first_of_each-Elem seen c cs (rw t at e))
    | inr f ↦ elim (rw f at e) [
      | inl q ↦ inl q
      | inr r ↦ inr (first_of_each-Elem (d.order ∷ seen) c cs r)
    ]
  ]

  -- Every order that is not among those seen stays, with one of its candidates.
  pub Elem-first_of_each :
      (seen : List ℕ) (c : Candidate A) (cs : List (Candidate A))
      → Elem c cs
      → (any (λ k. k == c.order) seen ≡ true)
        ⊎ ((d : Candidate A) × Elem d (first_of_each seen cs) × (d.order ≡ c.order))
  unfolding first_of_each
  Elem-first_of_each seen c [] e = absurd e
  Elem-first_of_each seen c (d ∷ cs) (inl q) = elim (Bool-cases (any (λ k. k == d.order) seen)) [
    | inl t ↦ inl (ap (λ (x : Candidate A). any (λ k. k == x.order) seen) q ∙ t)
    | inr f ↦ rw f (inr (d, inl refl, ap (λ (x : Candidate A). x.order) (sym q)))
  ]
  Elem-first_of_each seen c (d ∷ cs) (inr e) = elim (Bool-cases (any (λ k. k == d.order) seen)) [
    | inl t ↦ rw t (Elem-first_of_each seen c cs e)
    | inr f ↦ rw f (elim (Elem-first_of_each (d.order ∷ seen) c cs e) [
      | inr (x, m, o) ↦ inr (x, inr m, o)
      | inl h ↦ elim (Bool-cases (d.order == c.order)) [
        | inl same ↦ inr (d, inl refl, (==_iff d.order c.order).0 same)
        | inr other ↦ inl (rw other at h)
      ]
    ])
  ]

  -- In strict order, an order belongs to one element.
  pub one_of_order :
      (cs : List (Candidate A)) (x y : Candidate A)
      → IsStrict cs
      → Elem x cs
      → Elem y cs
      → x.order ≡ y.order
      → x ≡ y
  one_of_order [] x y s e f o = absurd e
  one_of_order (c ∷ cs) x y s (inl p) (inl q) o = cc (p, q)
  one_of_order (c ∷ cs) x y s (inl p) (inr f) o =
      absurd (omega (arith, above_bound c.order y cs s f, o, ap (λ (z : Candidate A). z.order) p))
  one_of_order (c ∷ cs) x y s (inr e) (inl q) o =
      absurd (omega (arith, above_bound c.order x cs s e, o, ap (λ (z : Candidate A). z.order) q))
  one_of_order (c ∷ cs) x y s (inr e) (inr f) o =
      one_of_order cs x y (IsAbove-IsStrict c.order cs s) e f o
