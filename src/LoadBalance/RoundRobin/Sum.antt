-- ===== src/LoadBalance/RoundRobin/Sum.antt =====
-- The sum of the current weights of the weighted round robin
-- (src/plugins/loadbalance/roundrobin/roundrobin.rs).
use pole_client_rust.Common.{
  ℕ, ◌+◌, ◌-◌, ◌%◌, ◌<◌, ◌≡◌, refl, ap, ◌∙◌, inl, inr, str_eq, str_eq_iff, false, ◌==◌, some, List,
  [], ◌∷◌, Elem, Table, lookup, insert, u64_mod, u32_mod, arith,
}
use pole_client_rust.Core.Outcome.{value}
use pole_client_rust.Core.Naming.{Instance, ServiceInstances, get_cache_key}
use pole_client_rust.LoadBalance.RoundRobin.{
  WeightedRoundRobin, WeightedRoundRobins, increase_cur_weight, decrease_cur_weight,
  update_last_fetch, min_weight, choose_round_robin,
}
use pole_client_rust.LoadBalance.RoundRobin.Turn.{AreDistinct, raise, robin_of, raised}
use pole_client_rust.LoadBalance.RoundRobin.Served.{AreCurrent, choose_round_robin-IsServed}

abbrev pub sum_weight : List Instance → ℕ
sum_weight [] = 0
sum_weight (i ∷ rest) = i.weight + sum_weight rest

add_turn :
    (a w s rest more : ℕ)
    → s % u64_mod ≡ (rest + more) % u64_mod
    → ((a + w) % u64_mod + s) % u64_mod ≡ (a + rest + (w + more)) % u64_mod
add_turn a w s rest more h = omega (arith, h)

add_paid :
    (a w t s rest more : ℕ)
    → t < u32_mod
    → s % u64_mod ≡ (rest + more) % u64_mod
    → (((a + w) % u64_mod + u64_mod - t) % u64_mod + s + t) % u64_mod
      ≡ (a + rest + (w + more)) % u64_mod
add_paid a w t s rest more l h = omega (arith, h, l)

add_later :
    (a w t s rest more : ℕ)
    → (s + t) % u64_mod ≡ (rest + more) % u64_mod
    → ((a + w) % u64_mod + s + t) % u64_mod ≡ (a + rest + (w + more)) % u64_mod
add_later a w t s rest more h = omega (arith, h)

cancel : (a b t : ℕ) → (a + t) % u64_mod ≡ (b + t) % u64_mod → a % u64_mod ≡ b % u64_mod
cancel a b t h = omega (arith, h)

module _ (now : ℕ) where
  -- The sum of the current weights of the instances, each with 2^63 added to it.
  abbrev pub sum_cur : WeightedRoundRobins → List Instance → ℕ
  sum_cur robins [] = 0
  sum_cur robins (i ∷ rest) = (robin_of now robins i).cur_weight + sum_cur robins rest

  robin_of-some :
      (robins : WeightedRoundRobins) (i : Instance) (w : WeightedRoundRobin)
      → lookup i.id robins ≡ some w
      → robin_of now robins i ≡ w
  robin_of-some robins i w e = rw e refl

  module _ (robins next : WeightedRoundRobins) where
    cur-raise :
        (i : Instance)
        → lookup i.id next ≡ some (raise now (robin_of now robins i))
        → (robin_of now robins i).weight ≡ i.weight
        → (robin_of now next i).cur_weight
          ≡ ((robin_of now robins i).cur_weight + i.weight) % u64_mod
    unfolding increase_cur_weight update_last_fetch
    cur-raise i e w =
        ap (λ (x : WeightedRoundRobin). x.cur_weight) (robin_of-some next i _ e)
        ∙ ap (λ n. ((robin_of now robins i).cur_weight + n) % u64_mod) w

    cur-paid :
        (t : ℕ) (i : Instance)
        → lookup i.id next ≡ some (decrease_cur_weight t (raise now (robin_of now robins i)))
        → (robin_of now robins i).weight ≡ i.weight
        → (robin_of now next i).cur_weight
          ≡ (((robin_of now robins i).cur_weight + i.weight) % u64_mod + u64_mod - t) % u64_mod
    unfolding increase_cur_weight update_last_fetch decrease_cur_weight
    cur-paid t i e w =
        ap (λ (x : WeightedRoundRobin). x.cur_weight) (robin_of-some next i _ e)
        ∙ ap (λ n. (((robin_of now robins i).cur_weight + n) % u64_mod + u64_mod - t) % u64_mod) w

    abbrev AreWeighed : List Instance → Type 0
    AreWeighed is = (i : Instance) → Elem i is → (robin_of now robins i).weight ≡ i.weight

    others-sum :
        (is : List Instance)
        → AreWeighed is
        → ((i : Instance) → Elem i is → lookup i.id next ≡ some (raise now (robin_of now robins i)))
        → sum_cur next is % u64_mod ≡ (sum_cur robins is + sum_weight is) % u64_mod
    others-sum [] w r = refl
    others-sum (i ∷ rest) w r = rw (cur-raise i (r i (inl refl)) (w i (inl refl))) (
        add_turn (robin_of now robins i).cur_weight i.weight (sum_cur next rest)
          (sum_cur robins rest) (sum_weight rest)
          (others-sum rest (λ j e. w j (inr e)) (λ j e. r j (inr e))))

    served-sum :
        (t : ℕ) (is : List Instance) (c : Instance)
        → t < u32_mod
        → AreWeighed is
        → AreDistinct is
        → Elem c is
        → lookup c.id next ≡ some (decrease_cur_weight t (raise now (robin_of now robins c)))
        → ((i : Instance)
            → Elem i is
            → str_eq c.id i.id ≡ false
            → lookup i.id next ≡ some (raise now (robin_of now robins i)))
        → (sum_cur next is + t) % u64_mod ≡ (sum_cur robins is + sum_weight is) % u64_mod
    served-sum t [] c l w d e p r = elim e [ ]
    served-sum t (i ∷ rest) c l w d (inl e) p r =
        let head = rw e at p in
        rw (cur-paid t i head (w i (inl refl))) (
          add_paid (robin_of now robins i).cur_weight i.weight t (sum_cur next rest)
            (sum_cur robins rest) (sum_weight rest) l
            (others-sum rest (λ j q. w j (inr q)) (λ j q. r j (inr q) (rw e (d.0 j q)))))
    served-sum t (i ∷ rest) c l w d (inr e) p r =
        let apart : str_eq c.id i.id ≡ false =
          ground (arith, str_eq_iff c.id i.id, str_eq_iff i.id c.id, d.0 c e) in
        rw (cur-raise i (r i (inl refl) apart) (w i (inl refl))) (
          add_later (robin_of now robins i).cur_weight i.weight t (sum_cur next rest)
            (sum_cur robins rest) (sum_weight rest)
            (served-sum t rest c l (λ j q. w j (inr q)) d.1 e p (λ j q. r j (inr q))))

  -- A call takes an instance and leaves the sum of the current weights, modulo 2^64, unchanged, if: the
  -- service is cached; its instances have different ids; each has an entry with its weight that has not
  -- expired; the total weight is the sum of the weights, is not 0 and is below 2^32; and some raised
  -- weight is above the least i64.
  pub choose_round_robin-sum_cur :
      (s : ServiceInstances) (cache : Table WeightedRoundRobins) (robins : WeightedRoundRobins)
      (i : Instance)
      → (s.total_weight == 0) ≡ false
      → s.total_weight ≡ sum_weight s.instances
      → s.total_weight < u32_mod
      → lookup (get_cache_key s) cache ≡ some robins
      → AreDistinct s.instances
      → AreCurrent now robins s.instances
      → Elem i s.instances
      → min_weight < raised now robins i
      → (c : Instance) × (next : WeightedRoundRobins) × (choose_round_robin now s cache
          ≡ value (c, insert (get_cache_key s) next cache))
        × Elem c s.instances
        × (sum_cur next s.instances % u64_mod ≡ sum_cur robins s.instances % u64_mod)
  choose_round_robin-sum_cur s cache robins i t total small k d cur e more =
      let (c, next, q, served) =
        choose_round_robin-IsServed now s cache robins i t k d cur e more in
      let paid =
        served-sum robins next (s.total_weight % u32_mod) s.instances c (omega arith)
          (λ j l. (cur j l).1) d served.listed served.paid served.others in
      (
        c,
        next,
        q,
        served.listed,
        cancel (sum_cur next s.instances) (sum_cur robins s.instances) s.total_weight
            (omega (arith, paid, total, small)),
      )
