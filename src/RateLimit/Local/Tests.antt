-- ===== src/RateLimit/Local/Tests.antt =====
-- The local counters on a concrete rule (src/traffic/ratelimit/default.rs).
use pole_client_rust.Common.{
  ℕ, ◌+◌, ◌≤◌, ◌≡◌, refl, String, false, Option, none, some, [], ◌∷◌, arith, lookup, insert,
  sort_text, concat,
}
use pole_client_rust.Core.Outcome.{value}
use pole_client_rust.RateLimit.Req.{QuotaRequest, concurrency}
use pole_client_rust.RateLimit.Rule.{
  RateLimit, LimitTrigger, trigger_concurrency, local_limit, failover_local,
  concurrency_counter_key, dimensions,
}
use pole_client_rust.RateLimit.Local.{LocalQuotaState, reserved_lease, rejected, empty_state}
use pole_client_rust.RateLimit.Local.Counter.{reserve, finish_lease}
use pole_client_rust.RateLimit.Local.Balance.{held, Balanced}
use pole_client_rust.RateLimit.Local.Reach.{
  Reached, start, reserved, finished, Reached-Balanced, reserve-held,
}

abbrev request : QuotaRequest
request = record {
  flow_id = "f";
  timeout = 1;
  service = "orders";
  namespace = "default";
  method = "GET";
  traffic_label_provider = λ t k. none;
  quotas = record { resource = concurrency; amount = 2 } ∷ [];
  lease_ttl = 5_000_000_000;
}

abbrev trigger : LimitTrigger
trigger = record {
  name = "t";
  disable = false;
  resource = trigger_concurrency;
  amounts = [];
  concurrency_amount = some 3;
  arguments = [];
  apis = [];
  failover = failover_local;
}

abbrev limit : RateLimit
limit = record {
  id = "r";
  disable = false;
  priority = 0;
  limit_type = local_limit;
  rules = trigger ∷ [];
}

abbrev digest : String → String
digest s = s

abbrev checked_add : ℕ → ℕ → Option ℕ
checked_add a b = some (a + b)

-- Two of three are taken, so that the second request for two has no room before the first ends.
abbrev one_lease : LocalQuotaState
one_lease = (reserve digest checked_add 1 "a" request limit trigger 2 empty_state).0

granted :
    (reserve digest checked_add 1 "a" request limit trigger 2 empty_state).1 ≡ value reserved_lease
unfolding reserve empty_state lookup
granted = refl

no_room : (reserve digest checked_add 2 "b" request limit trigger 2 one_lease).1 ≡ value rejected
unfolding reserve empty_state lookup insert concurrency_counter_key dimensions concat sort_text
no_room = refl

one_lease-Reached : Reached digest checked_add one_lease
unfolding empty_state lookup
one_lease-Reached =
    reserved 1 "a" request limit trigger 2 empty_state start refl (omega arith) (omega arith)

Reached-Balanced_example : Balanced (finish_lease 3 "a" 0 1 one_lease).0
Reached-Balanced_example =
    Reached-Balanced digest checked_add (finish_lease 3 "a" 0 1 one_lease).0
      (finished 3 "a" 0 1 one_lease one_lease-Reached)

reserve-held_example : held (concurrency_counter_key digest request limit trigger) one_lease ≤ 3
unfolding empty_state lookup
reserve-held_example =
    reserve-held digest checked_add 1 "a" request limit trigger 2 3 empty_state start refl refl refl
      (omega arith) granted
