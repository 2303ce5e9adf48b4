-- ===== src/LoadBalance/RoundRobin/Expiry.antt =====
-- When the weighted round robin does not come back
-- (src/plugins/loadbalance/roundrobin/roundrobin.rs).
use native.Mathlib.Decide.{dec_le}
use pole_client_rust.Common.{
  ℕ, ◌+◌, ◌<◌, ◌≡◌, ◌↔◌, ◌⊎◌, refl, sym, inl, inr, subst, false, ◌==◌, some, List, [], ◌∷◌, Elem,
  Table, lookup, arith,
}
use pole_client_rust.Core.Outcome.{panicked}
use pole_client_rust.Core.Naming.{Instance, ServiceInstances, get_cache_key}
use pole_client_rust.LoadBalance.RoundRobin.{
  WeightedRoundRobins, is_expire, min_weight, choose_round_robin,
}
use pole_client_rust.LoadBalance.RoundRobin.Blocked.{
  lifetime, IsOld, is_expire-young, choose_round_robin-blocked,
}
use pole_client_rust.LoadBalance.RoundRobin.Turn.{AreDistinct, AreHeld, robin_of, raised}
use pole_client_rust.LoadBalance.RoundRobin.Served.{choose_round_robin-IsServed}

module _ (now : ℕ) where
  abbrev AreYoung : List Instance → WeightedRoundRobins → Type 0
  AreYoung is robins = (i : Instance) → Elem i is → is_expire now (robin_of now robins i) ≡ false

  -- Either some entry is old, or none has expired.
  by_age :
      (is : List Instance) (robins : WeightedRoundRobins)
      → AreHeld now robins is
      → IsOld now is robins ⊎ AreYoung is robins
  by_age [] robins h = inr (λ i e. elim e [ ])
  by_age (j ∷ rest) robins h = elim (dec_le ((robin_of now robins j).last_fetch + lifetime) now) [
    | yes p ↦ inl (record {
      instance_of = j;
      robin = robin_of now robins j;
      listed = inl refl;
      held = h j (inl refl);
      old = p;
    })
    | no p ↦
        with_rest (is_expire-young now (robin_of now robins j) (omega (arith, p)))
          (by_age rest robins (λ i e. h i (inr e)))
  ]
    where
      with_rest :
          is_expire now (robin_of now robins j) ≡ false
          → IsOld now rest robins ⊎ AreYoung rest robins
          → IsOld now (j ∷ rest) robins ⊎ AreYoung (j ∷ rest) robins
      with_rest y (inl o) = inl (record {
        instance_of = o.instance_of;
        robin = o.robin;
        listed = inr o.listed;
        held = o.held;
        old = o.old;
      })
      with_rest y (inr f) = inr (λ i e. elim e [
        | inl q ↦ subst (λ (x : Instance). is_expire now (robin_of now robins x) ≡ false) (sym q) y
        | inr q ↦ f i q
      ])

  -- A call for different instances, each with an entry that has its weight, does not come back exactly if
  -- one of the entries was not read for 61 seconds, provided that the service is cached, its total
  -- weight is not 0 and some raised weight is above the least i64.
  pub choose_round_robin-IsOld :
      (s : ServiceInstances) (cache : Table WeightedRoundRobins) (robins : WeightedRoundRobins)
      (i : Instance)
      → (s.total_weight == 0) ≡ false
      → lookup (get_cache_key s) cache ≡ some robins
      → AreDistinct s.instances
      → AreHeld now robins s.instances
      → ((j : Instance) → Elem j s.instances → (robin_of now robins j).weight ≡ j.weight)
      → Elem i s.instances
      → min_weight < raised now robins i
      → (choose_round_robin now s cache ≡ panicked) ↔ IsOld now s.instances robins
  choose_round_robin-IsOld s cache robins i t k d held same e more = (
    λ p. elim (by_age s.instances robins held) [
      | inl o ↦ o
      | inr y ↦
          let (c, next, q, served) =
            choose_round_robin-IsServed now s cache robins i t k d
              (λ j l. (held j l, same j l, y j l)) e more in
          cc (p, q)
    ],
    λ o. choose_round_robin-blocked now s cache robins t k o,
  )
