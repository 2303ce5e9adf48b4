-- ===== src/LoadBalance/RoundRobin/Blocked.antt =====
-- An entry of the weighted round robin that has expired
-- (src/plugins/loadbalance/roundrobin/roundrobin.rs).
use pole_client_rust.Common.{
  ℕ, ◌+◌, ◌≤◌, ◌<◌, String, arith, ◌≡◌, refl, sym, ap, ◌∙◌, inl, inr, str_eq, str_eq_iff, true,
  false, if◌then◌else◌, ◌==◌, some, List, [], ◌∷◌, Elem, is_empty, Bool-cases, if_both, Table,
  lookup, insert, lookup-insert,
}
use pole_client_rust.Core.Outcome.{panicked}
use pole_client_rust.Core.Naming.{Instance, ServiceInstances, get_cache_key}
use pole_client_rust.LoadBalance.RoundRobin.{
  WeightedRoundRobin, WeightedRoundRobins, new_robin, is_expire, entry_or, kept_robin, refresh,
  robins_of, choose_round_robin,
}

-- A minute and a second, in nanoseconds: `as_secs` drops what is below a second.
abbrev pub lifetime : ℕ
lifetime = 61_000_000_000

module _ (now : ℕ) where
  is_expire-old : (w : WeightedRoundRobin) → w.last_fetch + lifetime ≤ now → is_expire now w ≡ true
  unfolding is_expire
  is_expire-old w h = ground (arith, h)

  pub is_expire-young :
      (w : WeightedRoundRobin) → now < w.last_fetch + lifetime → is_expire now w ≡ false
  unfolding is_expire
  is_expire-young w h = ground (arith, h)

  -- Some listed instance has an entry that was not read for so long.
  pub record IsOld (is : List Instance) (robins : WeightedRoundRobins) : Type 0 where
    pub instance_of : Instance
    pub robin : WeightedRoundRobin
    pub listed : Elem instance_of is
    pub held : lookup instance_of.id robins ≡ some robin
    pub old : robin.last_fetch + lifetime ≤ now

  module _ (key : String) where
    refresh-suc :
        (i : Instance) (rest : List Instance) (robins : WeightedRoundRobins)
        → refresh now key (i ∷ rest) robins ≡ (
            if is_expire now (entry_or (new_robin now i.weight) (lookup i.id robins))
            then panicked
            else refresh now key rest (insert i.id (kept_robin now i (lookup i.id robins)) robins))
    unfolding refresh
    refresh-suc i rest robins = refl

    refresh-expired :
        (i j : Instance) (rest : List Instance) (robins : WeightedRoundRobins)
        (w : WeightedRoundRobin)
        → i.id ≡ j.id
        → lookup i.id robins ≡ some w
        → is_expire now w ≡ true
        → refresh now key (j ∷ rest) robins ≡ panicked
    refresh-expired i j rest robins w e l x =
        rw (refresh-suc j rest robins, ap (λ k. lookup k robins) (sym e) ∙ l, x) refl

    refresh-blocked :
        (is : List Instance) (robins : WeightedRoundRobins) (i : Instance) (w : WeightedRoundRobin)
        → Elem i is
        → lookup i.id robins ≡ some w
        → is_expire now w ≡ true
        → refresh now key is robins ≡ panicked
    refresh-blocked [] robins i w e l x = elim e [ ]
    refresh-blocked (j ∷ rest) robins i w (inl e) l x =
        refresh-expired i j rest robins w (ap (λ (k : Instance). k.id) e) l x
    refresh-blocked (j ∷ rest) robins i w (inr e) l x = elim (Bool-cases (str_eq j.id i.id)) [
      | inl t ↦ refresh-expired i j rest robins w (sym ((str_eq_iff j.id i.id).0 t)) l x
      | inr f ↦
          let kept = kept_robin now j (lookup j.id robins) in
          rw (refresh-suc j rest robins) (
            if_both (λ o. o ≡ panicked) _ _ _ refl
              (refresh-blocked rest (insert j.id kept robins) i w e
                (rw (lookup-insert j.id i.id kept robins, f) l) x))
    ]

pub is_empty-Elem : (i : Instance) (is : List Instance) → Elem i is → is_empty is ≡ false
is_empty-Elem i [] e = elim e [ ]
is_empty-Elem i (j ∷ is) e = refl

-- A cached service with an old entry never comes out of its first loop.
pub choose_round_robin-blocked :
    (now : ℕ) (s : ServiceInstances) (cache : Table WeightedRoundRobins)
    (robins : WeightedRoundRobins)
    → (s.total_weight == 0) ≡ false
    → lookup (get_cache_key s) cache ≡ some robins
    → IsOld now s.instances robins
    → choose_round_robin now s cache ≡ panicked
unfolding choose_round_robin robins_of
choose_round_robin-blocked now s cache robins t c o =
    rw
      (
        is_empty-Elem o.instance_of s.instances o.listed,
        t,
        c,
        refresh-blocked now (get_cache_key s) s.instances robins o.instance_of o.robin o.listed
            o.held (is_expire-old now o.robin o.old),
      )
      refl
