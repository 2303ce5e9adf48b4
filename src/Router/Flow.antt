-- ===== src/Router/Flow.antt =====
-- `RouterFlow` (src/core/flow.rs): the chain of routers of a request. A router is a function from the
-- request's context and the instances; it may fail or panic.
pub mod Narrow
pub mod Chain
use pole_client_rust.Common.{String, Option, none, some, List, [], ◌∷◌, Table, lookup}
use pole_client_rust.Core.Outcome.{Outcome, value, ◌>>=◌}
use pole_client_rust.Core.Naming.{ServiceInstances}
use pole_client_rust.Core.Context.{RouteContext, RouteResult}

abbrev pub ServiceRouter : Type 0
ServiceRouter = RouteContext → ServiceInstances → Outcome RouteResult

pub record RouterContainer : Type 0 where
  pub before_routers : Table ServiceRouter
  pub core_routers : Table ServiceRouter
  pub after_routers : Table ServiceRouter

abbrev pub push_router : Option ServiceRouter → List ServiceRouter → List ServiceRouter
push_router none later = later
push_router (some r) later = r ∷ later

-- The routers of a segment: a name without a router is passed over.
unfoldable pub routers_named : Table ServiceRouter → List String → List ServiceRouter
routers_named routers [] = []
routers_named routers (n ∷ rest) = push_router (lookup n routers) (routers_named routers rest)

-- The loop over a segment's routers.
unfoldable pub run_routers :
    List ServiceRouter → RouteContext → ServiceInstances → Outcome ServiceInstances
run_routers [] ctx instances = value instances
run_routers (r ∷ rest) ctx instances = r ctx instances >>= λ ret. run_routers rest ctx ret.instances

-- `RouterFlow::choose_instances`; the context is built without an authenticated caller.
unfoldable pub flow_choose_instances :
    RouterContainer → RouteContext → ServiceInstances → Outcome ServiceInstances
unfolding routers_named run_routers
flow_choose_instances container route_info instances =
    let ctx = record route_info { authenticated_caller = none } in
    run_routers (routers_named container.before_routers ctx.chain.before) ctx instances
    >>= λ narrowed.
        run_routers (routers_named container.core_routers ctx.chain.core) ctx narrowed >>= λ chosen.
        run_routers (routers_named container.after_routers ctx.chain.after) ctx chosen

-- `RouterFlow::lookup_loadbalancer`
unfoldable pub lookup_loadbalancer : {B : Type 0} → Table B → String → Option B
lookup_loadbalancer balancers name = lookup name balancers
