-- ===== src/LoadBalance/Tests.antt =====
-- The load balancers on concrete instances (src/plugins/loadbalance).
use pole_client_rust.Common.{
  ℕ, u64_mod, ◌+◌, ◌↔◌, ◌-◌, ◌^◌, ◌<◌, all, ◌%◌, ◌≡◌, refl, sym, subst, inl, inr, Table, lookup,
  insert, str_eq, some, Elem, String, true, false, List, [], ◌∷◌, concat, arith,
}
use pole_client_rust.Core.Outcome.{value, panicked}
use pole_client_rust.Core.Naming.{
  Instance, ServiceInfo, ServiceInstances, new_instances, add_weights, get_cache_key,
}
use pole_client_rust.LoadBalance.Random.{choose_random}
use pole_client_rust.LoadBalance.RingHash.{choose_ring}
use pole_client_rust.LoadBalance.RingHash.Panics.{replicas_behind, choose_ring-panicked}
use pole_client_rust.LoadBalance.Random.Chosen.{weights, Share, choose_random-Share}
use pole_client_rust.LoadBalance.RoundRobin.{
  WeightedRoundRobins, new_robin, is_expire, increase_cur_weight, choose_round_robin,
}
use pole_client_rust.LoadBalance.RoundRobin.Turn.{AreDistinct, AreHeld, raised, robin_of}
use pole_client_rust.LoadBalance.RoundRobin.Served.{
  AreCurrent, IsServed, choose_round_robin-IsServed,
}
use pole_client_rust.LoadBalance.RoundRobin.Sum.{sum_cur, choose_round_robin-sum_cur}
use pole_client_rust.LoadBalance.RoundRobin.Blocked.{IsOld}
use pole_client_rust.LoadBalance.RoundRobin.Expiry.{choose_round_robin-IsOld}

abbrev weighing : String → ℕ → Instance
weighing id weight = record {
  id = id;
  namespace = "default";
  service = "orders";
  ip = "127.0.0.1";
  port = 8080;
  vpc_id = "";
  version = "";
  protocol = "";
  health = true;
  isolated = false;
  weight = weight;
  priority = 0;
  metadata = [];
  location = record { region = ""; zone = ""; campus = "" };
  revision = "";
}

abbrev orders : ServiceInfo
orders = record {
  id = "";
  namespace = "default";
  name = "orders";
  metadata = [];
  revision = "rev-1";
}

abbrev three : List Instance
three = weighing "a" 1 ∷ weighing "none" 0 ∷ weighing "b" 2 ∷ []

chosen_b : choose_random 7 (new_instances orders three) ≡ value (weighing "b" 2)
unfolding choose_random new_instances add_weights
chosen_b = refl

choose_random-Share_example :
    (i : Instance) × (choose_random 7 (new_instances orders three) ≡ value i)
    × Share three (7 % weights three) i
choose_random-Share_example = choose_random-Share 7 orders three (omega arith) (omega arith)

-- Replicas hash to 10, 11, and so on; the request's key hashes to 3.
abbrev node_hash : String → ℕ → ℕ
node_hash id n = n + 10

abbrev key_hash : String → ℕ
key_hash key = 3

choose_ring-panicked_example :
    ((choose_ring node_hash key_hash "k" (new_instances orders three) []).1 ≡ panicked) ↔ (
      all (replicas_behind node_hash (key_hash "k") 5 0) (new_instances orders three).instances
      ≡ true)
choose_ring-panicked_example =
    choose_ring-panicked node_hash key_hash "k" (new_instances orders three)

abbrev two : ServiceInstances
two = record {
  service = orders;
  instances = weighing "a" 1 ∷ weighing "b" 2 ∷ [];
  total_weight = 3;
}

-- Their entries, read 5 ns after the clock's start.
abbrev robins : WeightedRoundRobins
robins =
    ("a", record { cur_weight = 2 ^ 63 + 1; weight = 1; last_fetch = 5 })
    ∷ ("b", record { cur_weight = 2 ^ 63 - 1; weight = 2; last_fetch = 5 })
    ∷ []

abbrev cache : Table WeightedRoundRobins
cache = (get_cache_key two, robins) ∷ []

two-AreDistinct : AreDistinct two.instances
two-AreDistinct = (
  λ i e. elim e [
    | inl q ↦ subst (λ (x : Instance). str_eq "a" x.id ≡ false) (sym q) refl
    | inr q ↦ elim q [ ]
  ],
  (λ i e. elim e [ ], tt),
)

two-AreCurrent : AreCurrent 7 robins two.instances
unfolding lookup new_robin is_expire
two-AreCurrent i (inl e) =
    subst
      (λ x.
        (lookup x.id robins ≡ some (robin_of 7 robins x))
        × ((robin_of 7 robins x).weight ≡ x.weight)
        × (is_expire 7 (robin_of 7 robins x) ≡ false))
      (sym e) (refl, refl, refl)
two-AreCurrent i (inr (inl e)) =
    subst
      (λ x.
        (lookup x.id robins ≡ some (robin_of 7 robins x))
        × ((robin_of 7 robins x).weight ≡ x.weight)
        × (is_expire 7 (robin_of 7 robins x) ≡ false))
      (sym e) (refl, refl, refl)
two-AreCurrent i (inr (inr e)) = elim e [ ]

cached : lookup (get_cache_key two) cache ≡ some robins
unfolding lookup get_cache_key concat
cached = refl

raised_a : 0 < raised 7 robins (weighing "a" 1)
unfolding lookup increase_cur_weight
raised_a = omega arith

choose_round_robin-IsServed_example :
    (c : Instance) × (next : WeightedRoundRobins) × (choose_round_robin 7 two cache
      ≡ value (c, insert (get_cache_key two) next cache))
    × IsServed 7 two robins c next
choose_round_robin-IsServed_example =
    choose_round_robin-IsServed 7 two cache robins (weighing "a" 1) refl cached two-AreDistinct
      two-AreCurrent (inl refl) raised_a

choose_round_robin-sum_cur_example :
    (c : Instance) × (next : WeightedRoundRobins) × (choose_round_robin 7 two cache
      ≡ value (c, insert (get_cache_key two) next cache))
    × Elem c two.instances
    × (sum_cur 7 next two.instances % u64_mod ≡ sum_cur 7 robins two.instances % u64_mod)
choose_round_robin-sum_cur_example =
    choose_round_robin-sum_cur 7 two cache robins (weighing "a" 1) refl refl (omega arith) cached
      two-AreDistinct two-AreCurrent (inl refl) raised_a

-- Of both entries, the weight.
two-AreWeighed :
    (i : Instance) → Elem i two.instances → (robin_of 62_000_000_005 robins i).weight ≡ i.weight
unfolding lookup
two-AreWeighed i (inl e) =
    subst (λ x. (robin_of 62_000_000_005 robins x).weight ≡ x.weight) (sym e) refl
two-AreWeighed i (inr (inl e)) =
    subst (λ x. (robin_of 62_000_000_005 robins x).weight ≡ x.weight) (sym e) refl
two-AreWeighed i (inr (inr e)) = elim e [ ]

two-AreHeld : AreHeld 62_000_000_005 robins two.instances
unfolding lookup
two-AreHeld i (inl e) =
    subst (λ x. lookup x.id robins ≡ some (robin_of 62_000_000_005 robins x)) (sym e) refl
two-AreHeld i (inr (inl e)) =
    subst (λ x. lookup x.id robins ≡ some (robin_of 62_000_000_005 robins x)) (sym e) refl
two-AreHeld i (inr (inr e)) = elim e [ ]

raised_later : 0 < raised 62_000_000_005 robins (weighing "a" 1)
unfolding lookup increase_cur_weight
raised_later = omega arith

-- 62 seconds later.
choose_round_robin-IsOld_example :
    (choose_round_robin 62_000_000_005 two cache ≡ panicked)
    ↔ IsOld 62_000_000_005 two.instances robins
choose_round_robin-IsOld_example =
    choose_round_robin-IsOld 62_000_000_005 two cache robins (weighing "a" 1) refl cached
      two-AreDistinct two-AreHeld two-AreWeighed (inl refl) raised_later
