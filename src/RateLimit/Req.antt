-- ===== src/RateLimit/Req.antt =====
-- Requests for a quota (src/traffic/ratelimit/req.rs).
pub mod Valid
use pole_client_rust.Common.{
  ℕ, ◌/◌, ◌%◌, String, str_eq, Bool, true, false, not, if◌then◌else◌, ◌==◌, ltb, ◌&&◌, ◌||◌, Option,
  none, some, List, [], ◌∷◌, any, find, is_empty, u32_max,
}
use pole_client_rust.Core.Traffic.{ArgumentType}
use pole_client_rust.Core.Error.{Result, ok, err, api_invalid_argument, guard, ◌>>=◌, ◌>>◌}

pub data QuotaResource : Type 0 where
  qps token concurrency : QuotaResource

abbrev pub resource_eq : QuotaResource → QuotaResource → Bool
resource_eq qps qps = true
resource_eq token token = true
resource_eq concurrency concurrency = true
resource_eq _ _ = false

pub record QuotaAmount : Type 0 where
  pub resource : QuotaResource
  pub amount : ℕ

-- Times are in nanoseconds.
pub record QuotaRequest : Type 0 where
  pub flow_id : String
  pub timeout : ℕ
  pub service : String
  pub namespace : String
  pub method : String
  pub traffic_label_provider : ArgumentType → String → Option String
  pub quotas : List QuotaAmount
  pub lease_ttl : ℕ

abbrev pub second : ℕ
second = 1_000_000_000

-- The loop over the quotas, with the set of resources seen so far.
unfoldable pub check_quotas : List QuotaResource → List QuotaAmount → Result (Unit {0})
check_quotas seen [] = ok tt
check_quotas seen (q ∷ rest) =
    let later = check_quotas (q.resource ∷ seen) rest in
    if q.amount == 0
    then err api_invalid_argument
    else if any (resource_eq q.resource) seen
    then err api_invalid_argument
    else later

-- The seconds of the ttl and the nanoseconds behind them against u32::MAX seconds.
unfoldable pub exceeds_protocol_limit : ℕ → Bool
exceeds_protocol_limit ttl =
    ltb u32_max (ttl / second) || (ttl / second == u32_max && ltb 0 (ttl % second))

unfoldable pub check_valid : QuotaRequest → Result (Unit {0})
unfolding check_quotas exceeds_protocol_limit
check_valid r = do
  guard (not (str_eq r.service "")) api_invalid_argument
  guard (not (str_eq r.namespace "")) api_invalid_argument
  guard (not (is_empty r.quotas)) api_invalid_argument
  check_quotas [] r.quotas
  guard (not (r.lease_ttl == 0)) api_invalid_argument
  guard (not (exceeds_protocol_limit r.lease_ttl)) api_invalid_argument
  ok tt

unfoldable pub amount_for : List QuotaAmount → QuotaResource → Option ℕ
amount_for [] r = none
amount_for (q ∷ rest) r = if resource_eq q.resource r then some q.amount else amount_for rest r
