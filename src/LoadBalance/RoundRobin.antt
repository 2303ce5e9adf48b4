-- ===== src/LoadBalance/RoundRobin.antt =====
-- The weighted round robin (src/plugins/loadbalance/roundrobin/roundrobin.rs). An i64 is stored with
-- 2^63 added to it, so the order of words is that of the numbers. The balancer's tables are the state;
-- a call that asks again for a lock that it holds ends in `panicked`.
pub mod Blocked
pub mod Turn
pub mod Served
pub mod Sum
pub mod Expiry
use pole_client_rust.Common.{
  ℕ, ◌+◌, ◌-◌, ◌^◌, ◌%◌, ◌/◌, String, Bool, true, false, not, if◌then◌else◌, ltb, ◌==◌, ◌||◌,
  Option, none, some, List, [], ◌∷◌, is_empty, Table, lookup, insert, remove, u64_mod, u32_mod,
}
use pole_client_rust.Core.Error.{instance_info_error}
use pole_client_rust.Core.Outcome.{Outcome, value, failed, panicked, ◌>>=◌}
use pole_client_rust.Core.Naming.{Instance, ServiceInstances, get_cache_key}

pub record WeightedRoundRobin : Type 0 where
  pub cur_weight : ℕ
  pub weight : ℕ
  pub last_fetch : ℕ

-- The i64 0, and the least i64.
abbrev pub zero_weight : ℕ
zero_weight = 2 ^ 63

abbrev pub min_weight : ℕ
min_weight = 0

abbrev pub WeightedRoundRobins : Type 0
WeightedRoundRobins = Table WeightedRoundRobin

unfoldable pub new_robin : ℕ → ℕ → WeightedRoundRobin
new_robin now weight = record { cur_weight = zero_weight; weight = weight; last_fetch = now }

unfoldable pub reset : ℕ → WeightedRoundRobin → WeightedRoundRobin
reset weight w = record w { cur_weight = zero_weight; weight = weight }

unfoldable pub is_expire : ℕ → WeightedRoundRobin → Bool
is_expire now w = ltb 60 ((now - w.last_fetch) / 1000000000)

unfoldable pub increase_cur_weight : WeightedRoundRobin → WeightedRoundRobin
increase_cur_weight w = record w { cur_weight = (w.cur_weight + w.weight) % u64_mod }

unfoldable pub decrease_cur_weight : ℕ → WeightedRoundRobin → WeightedRoundRobin
decrease_cur_weight weight w = record w { cur_weight = (w.cur_weight + u64_mod - weight) % u64_mod }

unfoldable pub update_last_fetch : ℕ → WeightedRoundRobin → WeightedRoundRobin
update_last_fetch now w = record w { last_fetch = now }

abbrev pub entry_or {ℓ} : {A : Type ℓ} → A → Option A → A
entry_or a none = a
entry_or a (some b) = b

-- The table that a service starts with.
unfoldable pub new_robins : ℕ → WeightedRoundRobins → List Instance → WeightedRoundRobins
unfolding new_robin
new_robins now robins [] = robins
new_robins now robins (i ∷ rest) = new_robins now (insert i.id (new_robin now i.weight) robins) rest

-- The entry of an instance behind its round of the loop, if it has not expired.
unfoldable pub kept_robin : ℕ → Instance → Option WeightedRoundRobin → WeightedRoundRobin
unfolding new_robin reset
kept_robin now i found =
    let w = entry_or (new_robin now i.weight) found in
    if not (w.weight == i.weight) then reset i.weight w else w

-- The lock of a service's table. A thread that holds it and asks for it again blocks or panics
-- (`std::sync::RwLock::write`): either way the call does not come back.
pub data RwLock : Type 0 where
  unlocked locked : RwLock

abbrev pub write_lock : RwLock → Outcome RwLock
write_lock unlocked = value locked
write_lock locked = panicked

-- The closure of `and_modify`. Each turn of the loop takes the table's lock for the entry and gives it
-- back at its end; an expired entry asks for the lock again, to remove the service's key, and leaves
-- the loop.
unfoldable pub refresh :
    ℕ → String → List Instance → WeightedRoundRobins → Outcome WeightedRoundRobins
unfolding new_robin kept_robin is_expire
refresh now cache_key [] robins = value robins
refresh now cache_key (i ∷ rest) robins =
    let w = entry_or (new_robin now i.weight) (lookup i.id robins) in
    let later =
      refresh now cache_key rest (insert i.id (kept_robin now i (lookup i.id robins)) robins) in
    write_lock unlocked >>= λ lock.
    if is_expire now w
    then (write_lock lock >>= λ second. value (remove cache_key (insert i.id w robins)))
    else later

-- The second loop: `max_weight`, the instance selected so far, and the table.
unfoldable pub select :
    ℕ
    → ℕ
    → Option Instance
    → List Instance
    → WeightedRoundRobins
    → Outcome (Option Instance × WeightedRoundRobins)
unfolding increase_cur_weight update_last_fetch
select now max_weight selected [] robins = value (selected, robins)
select now max_weight selected (i ∷ rest) robins = elim (lookup i.id robins) [
  | none ↦ panicked
  | some w ↦
      let raised = increase_cur_weight w in
      let next = insert i.id (update_last_fetch now raised) robins in
      let chosen = select now raised.cur_weight (some i) rest next in
      let passed = select now max_weight selected rest next in
      if ltb max_weight raised.cur_weight then chosen else passed
]

-- The selected instance gives up the total weight.
unfoldable pub settle :
    ℕ → Option Instance × WeightedRoundRobins → Outcome (Instance × WeightedRoundRobins)
unfolding decrease_cur_weight
settle total_weight (none, robins) = panicked
settle total_weight (some i, robins) = elim (lookup i.id robins) [
  | none ↦ panicked
  | some w ↦ value (i, insert i.id (decrease_cur_weight (total_weight % u32_mod) w) robins)
]

-- The table of the service before the choice.
unfoldable pub robins_of :
    ℕ → String → List Instance → Option WeightedRoundRobins → Outcome WeightedRoundRobins
unfolding refresh new_robins
robins_of now cache_key instances none = value (new_robins now [] instances)
robins_of now cache_key instances (some robins) = refresh now cache_key instances robins

unfoldable pub choose_round_robin :
    ℕ
    → ServiceInstances
    → Table WeightedRoundRobins
    → Outcome (Instance × Table WeightedRoundRobins)
unfolding robins_of select settle get_cache_key
choose_round_robin now s cache =
    if is_empty s.instances || s.total_weight == 0
    then failed instance_info_error
    else robins_of now (get_cache_key s) s.instances (lookup (get_cache_key s) cache) >>= λ robins.
        select now min_weight none s.instances robins >>= λ selected.
        settle s.total_weight selected >>= λ chosen.
        value (chosen.0, insert (get_cache_key s) chosen.1 cache)
