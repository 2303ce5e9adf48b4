-- ===== src/Router/Nearby.antt =====
-- The nearby router (src/plugins/router/nearby/nearby.rs): instances by how near they are. `location` is
-- what the location provider gives.
pub mod Nearest
pub mod Part
use pole_client_rust.Common.{
  ℕ, zero, suc, ◌+◌, ◌-◌, ◌*◌, ◌/◌, ◌%◌, String, str_eq, Bool, true, false, not, if◌then◌else◌, ltb,
  leb, ◌||◌, Option, none, some, List, [], ◌∷◌, keep, length, is_empty, Table, lookup, u32_mod,
  add_u32,
}
use pole_client_rust.Core.Error.{location_mismatch}
use pole_client_rust.Core.Outcome.{Outcome, value, failed, panicked, ◌>>=◌}
use pole_client_rust.Core.Naming.{Location, Instance, ServiceInstances, add_weights}
use pole_client_rust.Core.Context.{RouteContext, RouteResult, next}

pub record NearbyRouter : Type 0 where
  pub strict_nearby : Bool
  pub match_level : String
  pub max_match_level : String
  pub enable_degrade_unhealthy_percent : Bool
  pub unhealthy_percent_to_degrade : ℕ

-- The router without options.
abbrev pub default_router : NearbyRouter
default_router = record {
  strict_nearby = false;
  match_level = "zone";
  max_match_level = "all";
  enable_degrade_unhealthy_percent = false;
  unhealthy_percent_to_degrade = 100;
}

-- `MATCH_LEVEL`
unfoldable pub match_level_ord : String → Option ℕ
match_level_ord s =
    if str_eq s "unknown"
    then some 0
    else if str_eq s "campus"
    then some 1
    else if str_eq s "zone"
    then some 2
    else if str_eq s "region"
    then some 3
    else if str_eq s "all"
    then some 4
    else none

-- `ORDER_MATCH_LEVEL`
abbrev pub order_match_level : ℕ → Option String
order_match_level zero = some "unknown"
order_match_level (suc zero) = some "campus"
order_match_level (suc (suc zero)) = some "zone"
order_match_level (suc (suc (suc zero))) = some "region"
order_match_level (suc (suc (suc (suc zero)))) = some "all"
order_match_level (suc (suc (suc (suc (suc n))))) = none

unfoldable pub is_located : Location → String → Instance → Bool
is_located local level i =
    if str_eq level "campus"
    then str_eq local.campus "" || str_eq i.location.campus local.campus
    else if str_eq level "zone"
    then str_eq local.zone "" || str_eq i.location.zone local.zone
    else if str_eq level "region"
    then str_eq local.region "" || str_eq i.location.region local.region
    else true

unfoldable pub count_healthy : ℕ → List Instance → ℕ
count_healthy acc [] = acc
count_healthy acc (i ∷ rest) = count_healthy (if i.health then add_u32 acc 1 else acc) rest

unfoldable pub select_instances : Location → String → ServiceInstances → ServiceInstances × ℕ
unfolding is_located count_healthy add_weights
select_instances local level instances =
    let ret = keep (is_located local level) instances.instances in
    (
      record { service = instances.service; instances = ret; total_weight = add_weights 0 ret },
      count_healthy 0 ret,
    )

unfoldable pub should_degrade : NearbyRouter → String → ServiceInstances → ℕ → Bool
should_degrade r level instances health_cnt =
    if not r.enable_degrade_unhealthy_percent || str_eq level "all"
    then false
    else if is_empty instances.instances
    then true
    else let count = length instances.instances % u32_mod in
      let unhealthy_cnt = (count + u32_mod - health_cnt) % u32_mod in
      leb r.unhealthy_percent_to_degrade ((unhealthy_cnt * 100) % u32_mod / count)

abbrev pub unwrap : {A : Type 0} → Option A → Outcome A
unwrap none = panicked
unwrap (some a) = value a

unfoldable pub grater_match_level : String → String → Outcome Bool
unfolding match_level_ord
grater_match_level a b = unwrap (match_level_ord a) >>= λ a_level.
    unwrap (match_level_ord b) >>= λ b_level. value (ltb b_level a_level)

abbrev pub or_level : String → String → String
or_level level default = if str_eq level "" then default else level

module _ (r : NearbyRouter) (local : Location) (instances : ServiceInstances) where
  -- `for i in min_level_ord..=max_level_ord` with the rounds that are left, from what was last selected.
  unfoldable pub degrade_loop : ℕ → ℕ → Option ServiceInstances → Outcome (Option ServiceInstances)
  unfolding select_instances should_degrade
  degrade_loop zero i found = value found
  degrade_loop (suc rounds) i found = unwrap (order_match_level i) >>= λ level.
      let (selected, health_cnt) = select_instances local level instances in
      let wider = degrade_loop rounds (suc i) (some selected) in
      let next_level = degrade_loop rounds (suc i) found in
      if is_empty selected.instances
      then next_level
      else if should_degrade r level selected health_cnt
      then wider
      else value (some selected)

  abbrev pub or_mismatch : Option ServiceInstances → Outcome RouteResult
  or_mismatch none = failed location_mismatch
  or_mismatch (some chosen) = value (record { instances = chosen; state = next })

  abbrev pub at_level : String → Outcome RouteResult
  at_level level =
      let (selected, health_cnt) = select_instances local level instances in
      if is_empty selected.instances
      then failed location_mismatch
      else value (record { instances = selected; state = next })

  abbrev pub min_level : String
  min_level = or_level r.match_level "zone"

  abbrev pub max_level : String
  max_level = or_level (if r.strict_nearby then min_level else r.max_match_level) "all"

  unfoldable pub choose_instances_with_location : Outcome RouteResult
  unfolding degrade_loop grater_match_level match_level_ord select_instances
  choose_instances_with_location = grater_match_level min_level max_level >>= λ above.
      if above
      then at_level min_level
      else unwrap (match_level_ord min_level) >>= λ low.
          unwrap (match_level_ord max_level) >>= λ high.
          degrade_loop (suc high - low) low none >>= λ found. or_mismatch found

-- `enable` of the router.
unfoldable pub nearby_enable : ServiceInstances → Bool
nearby_enable instances = elim (lookup "internal-enable-nearby" instances.service.metadata) [
  | none ↦ false
  | some val ↦ not (str_eq val "true")
]
