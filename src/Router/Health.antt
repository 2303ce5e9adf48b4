-- ===== src/Router/Health.antt =====
-- The health router (src/plugins/router/health/health.rs). `none` is an SDK with no breaker plugin.
pub mod Kept
use pole_client_rust.Common.{
  ℕ, ◌+◌, ◌%◌, Bool, true, false, not, if◌then◌else◌, ◌==◌, ◌&&◌, Option, List, [], ◌∷◌, u64_mod,
}
use pole_client_rust.Core.Outcome.{Outcome, value}
use pole_client_rust.Core.Naming.{Instance, is_available, ServiceInstances}
use pole_client_rust.Core.Context.{RouteContext, RouteResult, next}
use pole_client_rust.CircuitBreaker.Resource.{instance_resource}
use pole_client_rust.CircuitBreaker.Breaker.{Breaker}
use pole_client_rust.CircuitBreaker.Flow.{flow_check}

-- The first loop: the breaker is asked of every available instance, and nothing is done with the
-- answer.
unfoldable pub check_instances : ℕ → List Instance → Option Breaker → Option Breaker
unfolding flow_check
check_instances now [] b = b
check_instances now (i ∷ rest) b =
    check_instances now rest (if is_available i then (flow_check now instance_resource b).0 else b)

-- The second loop, with the instances and the weight so far.
unfoldable pub keep_healthy : ℕ → List Instance → List Instance × ℕ
keep_healthy total_weight [] = ([], total_weight)
keep_healthy total_weight (i ∷ rest) =
    let skipped = keep_healthy total_weight rest in
    let later = keep_healthy ((total_weight + i.weight) % u64_mod) rest in
    if not (is_available i) && not (total_weight == 0) then skipped else (i ∷ later.0, later.1)

unfoldable pub health_choose_instances :
    ℕ → Option Breaker → RouteContext → ServiceInstances → Option Breaker × Outcome RouteResult
unfolding check_instances keep_healthy
health_choose_instances now b ctx given =
    let kept = keep_healthy 0 given.instances in
    (
      check_instances now given.instances b,
      value (record {
        instances = record { service = given.service; instances = kept.0; total_weight = kept.1 };
        state = next;
      }),
    )
