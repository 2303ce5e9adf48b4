-- ===== src/RateLimit/Tests.antt =====
-- Leases on concrete quotas, and the theorems at inputs that meet their hypotheses
-- (src/traffic/ratelimit).
use pole_client_rust.Common.{ℕ, suc, ◌≡◌, ◌≢◌, ◌↔◌, refl, true, false, none, List, [], ◌∷◌, arith}
use pole_client_rust.Core.Error.{ok}
use pole_client_rust.Core.Outcome.{panicked}
use pole_client_rust.RateLimit.Req.{qps, token, QuotaAmount, QuotaRequest, check_valid}
use pole_client_rust.RateLimit.Req.Valid.{IsValidRequest, check_valid_iff}
use pole_client_rust.RateLimit.Lease.{
  QuotaConsumption, Backend, QuotaLease, new_lease, initial_consumptions, finish_consumptions,
  drop_lease, apply_updates, consumed,
}
use pole_client_rust.RateLimit.Lease.Retry.{overlaid, apply_updates-consumed}
use pole_client_rust.RateLimit.Lease.Updates.{Fits, Grows}
use pole_client_rust.RateLimit.Lease.Protocol.{
  Op, update_all, finish_all, update_one, run, perform, logged, countdown,
}
use pole_client_rust.RateLimit.Lease.Lifetime.{run-new_lease}
use pole_client_rust.RateLimit.Lease.Finished.{run-finished, finish_consumptions_again}

abbrev tokens : List QuotaAmount
tokens = record { resource = qps; amount = 1 } ∷ record { resource = token; amount = 10 } ∷ []

abbrev used : ℕ → List QuotaConsumption
used n = record { resource = token; consumed_total = n } ∷ []

-- A backend that accepts everything and counts its calls.
abbrev counting : Backend ℕ
counting = record {
  update = λ cs n s. (suc s, ok tt);
  finish = λ cs n s. (suc s, ok tt);
  abandon = λ cs n s. suc s;
}

abbrev request : QuotaRequest
request = record {
  flow_id = "f";
  timeout = 1;
  service = "orders";
  namespace = "default";
  method = "GET";
  traffic_label_provider = λ t k. none;
  quotas = tokens;
  lease_ttl = 5_000_000_000;
}

check_valid_iff_example : (check_valid request ≡ ok tt) ↔ IsValidRequest request
check_valid_iff_example = check_valid_iff request

abbrev ops : List Op
ops = update_all (used 4) ∷ update_all (used 3) ∷ finish_all (used 6) ∷ []

run-new_lease_example :
    let done = run (logged counting) ops (new_lease tokens (initial_consumptions tokens)) ([], 0) in
    Fits tokens done.0.consumptions
    × Grows (initial_consumptions tokens) done.0.consumptions
    × (done.1.0 ≡ countdown done.0.sequence)
    × ((perform (logged counting) (update_one 7) done.0 done.1).2 ≢ panicked)
run-new_lease_example = run-new_lease counting tokens 0 ops (update_one 7) (omega arith)

abbrev done_lease : QuotaLease
done_lease = record {
  reservations = tokens;
  consumptions = record { resource = qps; consumed_total = 1 } ∷ used 6;
  sequence = 2;
  finished = true;
}

run-finished_example :
    (run counting ops done_lease 2 ≡ (done_lease, 2)) × (drop_lease counting done_lease 2 ≡ 2)
run-finished_example = run-finished counting ops done_lease 2 refl

abbrev first_lease : QuotaLease
first_lease = record {
  reservations = tokens;
  consumptions = record { resource = qps; consumed_total = 1 } ∷ used 0;
  sequence = 0;
  finished = false;
}

finish_consumptions_again_example :
    let first = finish_consumptions counting (used 6) first_lease 0 in
    finish_consumptions counting (used 6) first.0 first.1 ≡ first
unfolding finish_consumptions
finish_consumptions_again_example = finish_consumptions_again counting (used 6) first_lease 0 refl

apply_updates-consumed_example :
    consumed (record { resource = qps; consumed_total = 1 } ∷ used 6) token
    ≡ overlaid (used 6) (record { resource = qps; consumed_total = 1 } ∷ used 0) token
unfolding apply_updates
apply_updates-consumed_example =
    apply_updates-consumed tokens [] (record { resource = qps; consumed_total = 1 } ∷ used 0)
      (used 6) (record { resource = qps; consumed_total = 1 } ∷ used 6) token refl
