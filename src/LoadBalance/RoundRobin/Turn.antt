-- ===== src/LoadBalance/RoundRobin/Turn.antt =====
-- The loop of the weighted round robin that raises the weights and selects an instance
-- (src/plugins/loadbalance/roundrobin/roundrobin.rs).
use pole_client_rust.Common.{
  ℕ, ◌≤◌, ◌<◌, ◌≡◌, ◌⊎◌, refl, sym, ap, ◌∙◌, inl, inr, String, str_eq, str_eq_iff, false,
  if◌then◌else◌, ltb, Option, some, List, [], ◌∷◌, Elem, Bool-cases, lookup, insert, lookup-insert,
  arith,
}
use pole_client_rust.Core.Outcome.{Outcome, value, failed, panicked}
use pole_client_rust.Core.Naming.{Instance}
use pole_client_rust.LoadBalance.RoundRobin.{
  WeightedRoundRobin, WeightedRoundRobins, new_robin, entry_or, increase_cur_weight,
  update_last_fetch, select,
}

abbrev pub AreDistinct : List Instance → Type 0
AreDistinct [] = Unit {0}
AreDistinct (j ∷ rest) =
    ((i : Instance) → Elem i rest → str_eq j.id i.id ≡ false) × AreDistinct rest

module _ (now : ℕ) where
  abbrev pub raise : WeightedRoundRobin → WeightedRoundRobin
  raise w = update_last_fetch now (increase_cur_weight w)

  -- The entry of an instance.
  abbrev pub robin_of : WeightedRoundRobins → Instance → WeightedRoundRobin
  robin_of robins i = entry_or (new_robin now i.weight) (lookup i.id robins)

  abbrev pub AreHeld : WeightedRoundRobins → List Instance → Type 0
  AreHeld robins is = (i : Instance) → Elem i is → lookup i.id robins ≡ some (robin_of robins i)

  -- The weight of an instance behind its turn.
  abbrev pub raised : WeightedRoundRobins → Instance → ℕ
  raised robins i = (increase_cur_weight (robin_of robins i)).cur_weight

  pub record IsRaised (is : List Instance) (robins next : WeightedRoundRobins) : Type 0 where
    pub others :
        (k : String)
        → ((i : Instance) → Elem i is → str_eq i.id k ≡ false)
        → lookup k next ≡ lookup k robins
    pub each : (i : Instance) → Elem i is → lookup i.id next ≡ some (raise (robin_of robins i))

  abbrev pub IsBest :
      ℕ → Option Instance → List Instance → WeightedRoundRobins → Option Instance → Type 0
  IsBest max_weight sel is robins chosen =
      ((chosen ≡ sel) × ((i : Instance) → Elem i is → raised robins i ≤ max_weight))
      ⊎ ((c : Instance) × Elem c is
          × (chosen ≡ some c)
          × (max_weight < raised robins c)
          × ((i : Instance) → Elem i is → raised robins i ≤ raised robins c))

  abbrev pub IsSelection :
      ℕ
      → Option Instance
      → List Instance
      → WeightedRoundRobins
      → Outcome (Option Instance × WeightedRoundRobins)
      → Type 0
  IsSelection max_weight sel is robins (value (chosen, next)) =
      IsRaised is robins next × IsBest max_weight sel is robins chosen
  IsSelection max_weight sel is robins (failed e) = ⊥
  IsSelection max_weight sel is robins panicked = ⊥

  select-suc :
      (max_weight : ℕ) (sel : Option Instance) (j : Instance) (rest : List Instance)
      (robins : WeightedRoundRobins) (w : WeightedRoundRobin)
      → lookup j.id robins ≡ some w
      → select now max_weight sel (j ∷ rest) robins ≡ (
          if ltb max_weight (increase_cur_weight w).cur_weight
          then select now
              (increase_cur_weight w).cur_weight
              (some j)
              rest
              (insert j.id (raise w) robins)
          else select now max_weight sel rest (insert j.id (raise w) robins))
  unfolding select
  select-suc max_weight sel j rest robins w e = rw (e, select) refl

  select-nil :
      (max_weight : ℕ) (sel : Option Instance) (robins : WeightedRoundRobins)
      → select now max_weight sel [] robins ≡ value (sel, robins)
  unfolding select
  select-nil max_weight sel robins = refl

  -- Behind the turn of the first instance.
  module _ (j : Instance) (rest : List Instance) (robins : WeightedRoundRobins)
      (distinct : AreDistinct (j ∷ rest)) where
    abbrev turned : WeightedRoundRobins
    turned = insert j.id (raise (robin_of robins j)) robins

    lookup-turned : (i : Instance) → Elem i rest → lookup i.id turned ≡ lookup i.id robins
    lookup-turned i e =
        rw (lookup-insert j.id i.id (raise (robin_of robins j)) robins, distinct.0 i e) refl

    robin_of-turned : (i : Instance) → Elem i rest → robin_of turned i ≡ robin_of robins i
    robin_of-turned i e = rw (lookup-turned i e) refl

    AreHeld-turned : AreHeld robins (j ∷ rest) → AreHeld turned rest
    AreHeld-turned h i e = rw (lookup-turned i e) (h i (inr e))

    flipped : (i : Instance) → Elem i rest → str_eq i.id j.id ≡ false
    flipped i e = ground (arith, str_eq_iff i.id j.id, str_eq_iff j.id i.id, distinct.0 i e)

    IsRaised-suc :
        (next : WeightedRoundRobins) → IsRaised rest turned next → IsRaised (j ∷ rest) robins next
    IsRaised-suc next r = record {
      others = λ k f.
          r.others k (λ i e. f i (inr e))
          ∙ rw (lookup-insert j.id k (raise (robin_of robins j)) robins, f j (inl refl)) refl;
      each = λ i e. elim e [
        | inl q ↦ rw q (
            r.others j.id flipped
            ∙ rw
                (
                  lookup-insert j.id j.id (raise (robin_of robins j)) robins,
                  (str_eq_iff j.id j.id).1 refl,
                )
                refl)
        | inr q ↦ r.each i q ∙ ap (λ w. some (raise w)) (robin_of-turned i q)
      ];
    }

    raised-turned : (i : Instance) → Elem i rest → raised turned i ≡ raised robins i
    raised-turned i e =
        ap (λ (w : WeightedRoundRobin). (increase_cur_weight w).cur_weight) (robin_of-turned i e)

    bounded :
        (m : ℕ)
        → raised robins j ≤ m
        → ((i : Instance) → Elem i rest → raised turned i ≤ m)
        → (i : Instance) → Elem i (j ∷ rest)
        → raised robins i ≤ m
    bounded m b f i (inl e) = rw e b
    bounded m b f i (inr e) = rw (sym (raised-turned i e)) (f i e)

    IsBest-later :
        (m : ℕ) (sel chosen : Option Instance) (c : Instance)
        → raised robins j ≤ m
        → Elem c rest
        → chosen ≡ some c
        → m < raised turned c
        → ((i : Instance) → Elem i rest → raised turned i ≤ raised turned c)
        → (k : ℕ) → k ≤ m
        → IsBest k sel (j ∷ rest) robins chosen
    IsBest-later m sel chosen c b e q lt f k le =
        let same = raised-turned c e in
        inr (
          c,
          inr e,
          q,
          omega (arith, lt, same, le),
          bounded (raised robins c) (omega (arith, b, lt, same))
              (λ i d. omega (arith, f i d, same)),
        )

    -- The end of the loop, from the end of the loop behind the first instance.
    chosen_first :
        (m : ℕ) (sel : Option Instance) (o : Outcome (Option Instance × WeightedRoundRobins))
        → m < raised robins j
        → IsSelection (raised robins j) (some j) rest turned o
        → IsSelection m sel (j ∷ rest) robins o
    chosen_first m sel (value (chosen, next)) lt (r, inl (q, f)) =
        (IsRaised-suc next r, inr (j, inl refl, q, lt, bounded (raised robins j) (omega arith) f))
    chosen_first m sel (value (chosen, next)) lt (r, inr (c, e, q, more, f)) = (
      IsRaised-suc next r,
      IsBest-later (raised robins j) sel chosen c (omega arith) e q more f m (omega (arith, lt)),
    )
    chosen_first m sel (failed e) lt b = b
    chosen_first m sel panicked lt b = b

    passed_first :
        (m : ℕ) (sel : Option Instance) (o : Outcome (Option Instance × WeightedRoundRobins))
        → raised robins j ≤ m
        → IsSelection m sel rest turned o
        → IsSelection m sel (j ∷ rest) robins o
    passed_first m sel (value (chosen, next)) b (r, inl (q, f)) =
        (IsRaised-suc next r, inl (q, bounded m b f))
    passed_first m sel (value (chosen, next)) b (r, inr (c, e, q, more, f)) =
        (IsRaised-suc next r, IsBest-later m sel chosen c b e q more f m (omega arith))
    passed_first m sel (failed e) b n = n
    passed_first m sel panicked b n = n

  -- The loop over instances with different ids that all have an entry.
  pub select-IsSelection :
      (m : ℕ) (sel : Option Instance) (is : List Instance) (robins : WeightedRoundRobins)
      → AreDistinct is
      → AreHeld robins is
      → IsSelection m sel is robins (select now m sel is robins)
  select-IsSelection m sel [] robins d h =
      rw (select-nil m sel robins)
        (record { others = λ k f. refl; each = λ i e. elim e [ ] }, inl (refl, λ i e. elim e [ ]))
  select-IsSelection m sel (j ∷ rest) robins d h =
      let next = turned j rest robins d in
      let held = AreHeld-turned j rest robins d h in
      rw (select-suc m sel j rest robins (robin_of robins j) (h j (inl refl)))
        (elim (Bool-cases (ltb m (raised robins j))) [
          | inl t ↦ rw t (
              chosen_first j rest robins d m sel (select now (raised robins j) (some j) rest next)
                (ground arith) (select-IsSelection (raised robins j) (some j) rest next d.1 held))
          | inr f ↦ rw f (
              passed_first j rest robins d m sel (select now m sel rest next) (ground arith)
                (select-IsSelection m sel rest next d.1 held))
        ])
