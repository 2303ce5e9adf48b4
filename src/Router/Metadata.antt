-- ===== src/Router/Metadata.antt =====
-- The metadata router (src/plugins/router/metadata/metadata.rs): instances that carry the metadata of
-- the request. The order in which a map is walked is that of its list.
pub mod Carried
use pole_client_rust.Common.{
  ℕ, ◌+◌, String, str_eq, Bool, true, false, not, if◌then◌else◌, ◌==◌, ◌&&◌, Option, none, some,
  List, [], ◌∷◌, keep, is_empty, length, Table, lookup,
}
use pole_client_rust.Core.Error.{Result, ok, err, metadata_mismatch}
use pole_client_rust.Core.Naming.{Instance, ServiceInstances, add_weights}
use pole_client_rust.Core.Context.{
  RouteContext, RouteResult, next, MetadataFailoverType, metadata_failover_none,
  metadata_failover_all, metadata_failover_no_key,
}

unfoldable pub paese_custom_failover_type : String → MetadataFailoverType
paese_custom_failover_type v =
    if str_eq v "none"
    then metadata_failover_none
    else if str_eq v "all"
    then metadata_failover_all
    else if str_eq v "others"
    then metadata_failover_no_key
    else metadata_failover_none

unfoldable pub failover_type : RouteContext → ServiceInstances → MetadataFailoverType
unfolding paese_custom_failover_type
failover_type ctx instances =
    elim (lookup "internal-metadata-failover-type" instances.service.metadata) [
      | none ↦ ctx.metadata_failover
      | some custom ↦ paese_custom_failover_type custom
    ]

-- One entry of the request: what the loop goes on with, or where it ends.
abbrev pub counted : Option String → String → ℕ → ℕ → ℕ → ℕ
counted none val acc equal absent = absent
counted (some v) val acc equal absent = if str_eq v val then equal else acc

abbrev pub found_key : Option String → Bool → Bool
found_key none later = later
found_key (some v) later = true

-- The inner loop: a key that the instance lacks is passed over, and a value that differs ends it.
unfoldable pub match_count : ℕ → Table String → Table String → ℕ
match_count acc carried [] = acc
match_count acc carried ((key, val) ∷ rest) =
    let equal = match_count (acc + 1) carried rest in
    let absent = match_count acc carried rest in counted (lookup key carried) val acc equal absent

unfoldable pub is_matched : Table String → Instance → Bool
unfolding match_count
is_matched req_meta i =
    let count = match_count 0 i.metadata req_meta in not (count == 0) && count == length req_meta

-- The loop with `break` over the keys of the request, from what holds before.
unfoldable pub has_key : Bool → Table String → Table String → Bool
has_key exist_meta carried [] = exist_meta
has_key exist_meta carried ((key, val) ∷ rest) =
    let later = has_key exist_meta carried rest in found_key (lookup key carried) later

unfoldable pub lacks_keys : Table String → Instance → Bool
unfolding has_key
lacks_keys req_meta i = not (has_key (not (is_empty i.metadata)) i.metadata req_meta)

abbrev pub with_instances : ServiceInstances → List Instance → RouteResult
with_instances given chosen = record {
  instances = record {
    service = given.service;
    instances = chosen;
    total_weight = add_weights 0 chosen;
  };
  state = next;
}

abbrev pub fail_over : MetadataFailoverType → Table String → ServiceInstances → Result RouteResult
fail_over metadata_failover_all req_meta given = ok (with_instances given given.instances)
fail_over metadata_failover_no_key req_meta given =
    ok (with_instances given (keep (lacks_keys req_meta) given.instances))
fail_over metadata_failover_none req_meta given = err metadata_mismatch

unfoldable pub metadata_choose_instances : RouteContext → ServiceInstances → Result RouteResult
unfolding is_matched failover_type lacks_keys
metadata_choose_instances ctx given =
    let ret = keep (is_matched ctx.metadata) given.instances in
    if not (is_empty ret)
    then ok (with_instances given ret)
    else fail_over (failover_type ctx given) ctx.metadata given
