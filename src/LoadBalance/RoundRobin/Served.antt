-- ===== src/LoadBalance/RoundRobin/Served.antt =====
-- A whole call of the weighted round robin (src/plugins/loadbalance/roundrobin/roundrobin.rs).
use pole_client_rust.Common.{
  ℕ, ◌%◌, ◌≤◌, ◌<◌, ◌≡◌, refl, ap, ◌∙◌, inl, inr, str_eq, str_eq_refl, String, false, ◌==◌, Option,
  none, some, List, [], ◌∷◌, Elem, Table, lookup, insert, lookup-insert, insert_same, u32_mod,
  arith,
}
use pole_client_rust.Core.Outcome.{Outcome, value, failed, panicked, ◌>>=◌}
use pole_client_rust.Core.Naming.{Instance, ServiceInstances, get_cache_key}
use pole_client_rust.LoadBalance.RoundRobin.{
  WeightedRoundRobin, WeightedRoundRobins, is_expire, kept_robin, decrease_cur_weight, min_weight,
  refresh, robins_of, select, settle, choose_round_robin,
}
use pole_client_rust.LoadBalance.RoundRobin.Blocked.{is_empty-Elem}
use pole_client_rust.LoadBalance.RoundRobin.Turn.{
  AreDistinct, raise, robin_of, raised, IsSelection, select-IsSelection,
}

module _ (now : ℕ) where
  -- Every instance has an entry with its weight that has not expired.
  abbrev pub AreCurrent : WeightedRoundRobins → List Instance → Type 0
  AreCurrent robins is =
      (i : Instance)
      → Elem i is
      → (lookup i.id robins ≡ some (robin_of now robins i))
        × ((robin_of now robins i).weight ≡ i.weight)
        × (is_expire now (robin_of now robins i) ≡ false)

  kept-current :
      (i : Instance) (w : WeightedRoundRobin) → w.weight ≡ i.weight → kept_robin now i (some w) ≡ w
  unfolding kept_robin
  kept-current i w e = ground (arith, e)

  refresh-current :
      (key : String) (is : List Instance) (robins : WeightedRoundRobins)
      → AreCurrent robins is
      → refresh now key is robins ≡ value robins
  unfolding refresh
  refresh-current key [] robins c = refl
  refresh-current key (j ∷ rest) robins c =
      let (held, same, fresh) = c j (inl refl) in
      let kept : kept_robin now j (lookup j.id robins) ≡ robin_of now robins j =
        ap (kept_robin now j) held ∙ kept-current j (robin_of now robins j) same in
      rw (fresh, kept, insert_same j.id (robin_of now robins j) robins held)
        (refresh-current key rest robins (λ i e. c i (inr e)))

  -- The instance taken and the table behind the call.
  pub record IsServed (s : ServiceInstances) (robins : WeightedRoundRobins) (c : Instance)
      (next : WeightedRoundRobins) : Type 0 where
    pub listed : Elem c s.instances
    pub greatest : (i : Instance) → Elem i s.instances → raised now robins i ≤ raised now robins c
    pub paid :
        lookup c.id next
        ≡ some (decrease_cur_weight (s.total_weight % u32_mod) (raise now (robin_of now robins c)))
    pub others :
        (i : Instance)
        → Elem i s.instances
        → str_eq c.id i.id ≡ false
        → lookup i.id next ≡ some (raise now (robin_of now robins i))

  settle-some :
      (total : ℕ) (c : Instance) (robins : WeightedRoundRobins) (w : WeightedRoundRobin)
      → lookup c.id robins ≡ some w
      → settle total (some c, robins)
        ≡ value (c, insert c.id (decrease_cur_weight (total % u32_mod) w) robins)
  unfolding settle
  settle-some total c robins w e = rw (e, settle) refl

  abbrev pub IsTurn :
      ServiceInstances → WeightedRoundRobins → Outcome (Instance × WeightedRoundRobins) → Type 0
  IsTurn s robins (value (c, next)) = IsServed s robins c next
  IsTurn s robins (failed e) = ⊥
  IsTurn s robins panicked = ⊥

  select-IsTurn :
      (s : ServiceInstances) (robins : WeightedRoundRobins) (i : Instance)
      (o : Outcome (Option Instance × WeightedRoundRobins))
      → Elem i s.instances
      → min_weight < raised now robins i
      → IsSelection now min_weight none s.instances robins o
      → IsTurn s robins (o >>= settle s.total_weight)
  select-IsTurn s robins i (value (chosen, next)) e more (r, inl (q, f)) =
      absurd (omega (arith, f i e, more))
  select-IsTurn s robins i (value (chosen, next)) e more (r, inr (c, l, q, m, f)) =
      rw (q, settle-some s.total_weight c next (raise now (robin_of now robins c)) (r.each c l))
        (let paid_entry =
            decrease_cur_weight (s.total_weight % u32_mod) (raise now (robin_of now robins c)) in
          record {
            listed = l;
            greatest = f;
            paid = rw (lookup-insert c.id c.id paid_entry next, str_eq_refl c.id) refl;
            others = λ j d n. rw (lookup-insert c.id j.id paid_entry next, n) (r.each j d);
          })
  select-IsTurn s robins i (failed x) e more b = absurd b
  select-IsTurn s robins i panicked e more b = b

  bind_assoc :
      (o : Outcome (Option Instance × WeightedRoundRobins)) (total : ℕ)
      (f : Instance × WeightedRoundRobins → Outcome (Instance × Table WeightedRoundRobins))
      → (o >>= λ selected. settle total selected >>= λ chosen. f chosen)
        ≡ (o >>= settle total >>= λ chosen. f chosen)
  bind_assoc (value selected) total f = refl
  bind_assoc (failed x) total f = refl
  bind_assoc panicked total f = refl

  choose-turn :
      (s : ServiceInstances) (cache : Table WeightedRoundRobins) (robins : WeightedRoundRobins)
      (i : Instance)
      → Elem i s.instances
      → (s.total_weight == 0) ≡ false
      → lookup (get_cache_key s) cache ≡ some robins
      → AreCurrent robins s.instances
      → choose_round_robin now s cache ≡ (
          select now min_weight none s.instances robins >>= settle s.total_weight >>= λ chosen.
          value (chosen.0, insert (get_cache_key s) chosen.1 cache))
  unfolding choose_round_robin robins_of
  choose-turn s cache robins i e t k cur =
      rw
        (
          is_empty-Elem i s.instances e,
          t,
          k,
          refresh-current (get_cache_key s) s.instances robins cur,
        )
        (bind_assoc (select now min_weight none s.instances robins) s.total_weight
          (λ chosen. value (chosen.0, insert (get_cache_key s) chosen.1 cache)))

  -- A call for a service of different instances whose entries are current takes one whose raised
  -- weight is greatest, if some raised weight is above the least i64. The other instances keep their
  -- raised weights, and the one taken pays the total weight.
  pub choose_round_robin-IsServed :
      (s : ServiceInstances) (cache : Table WeightedRoundRobins) (robins : WeightedRoundRobins)
      (i : Instance)
      → (s.total_weight == 0) ≡ false
      → lookup (get_cache_key s) cache ≡ some robins
      → AreDistinct s.instances
      → AreCurrent robins s.instances
      → Elem i s.instances
      → min_weight < raised now robins i
      → (c : Instance) × (next : WeightedRoundRobins) × (choose_round_robin now s cache
          ≡ value (c, insert (get_cache_key s) next cache))
        × IsServed s robins c next
  choose_round_robin-IsServed s cache robins i t k d cur e more =
      served (select now min_weight none s.instances robins >>= settle s.total_weight)
        (choose-turn s cache robins i e t k cur)
        (select-IsTurn s robins i (select now min_weight none s.instances robins) e more
          (select-IsSelection now min_weight none s.instances robins d (λ j l. (cur j l).0)))
    where
      served :
          (o : Outcome (Instance × WeightedRoundRobins))
          → choose_round_robin now s cache
            ≡ (o >>= λ chosen. value (chosen.0, insert (get_cache_key s) chosen.1 cache))
          → IsTurn s robins o
          → (c : Instance) × (next : WeightedRoundRobins) × (choose_round_robin now s cache
              ≡ value (c, insert (get_cache_key s) next cache))
            × IsServed s robins c next
      served (value (c, next)) q turn = (c, next, q, turn)
      served (failed x) q turn = absurd turn
      served panicked q turn = absurd turn
