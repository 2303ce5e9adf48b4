-- ===== src/Router/Flow/Chain.antt =====
-- Which routers a chain runs, and in which order (src/core/flow.rs).
use pole_client_rust.Common.{
  ◌≡◌, ◌↔◌, refl, sym, ap, ◌∙◌, subst, inl, inr, String, none, some, List, [], ◌∷◌, ◌++◌,
  Option-cases, Table, lookup,
}
use pole_client_rust.Core.Error.{ErrorCode}
use pole_client_rust.Core.Outcome.{Outcome, value, failed, panicked, ◌>>=◌}
use pole_client_rust.Core.Naming.{ServiceInstances}
use pole_client_rust.Core.Context.{RouteContext, RouteResult}
use pole_client_rust.Router.Flow.{
  ServiceRouter, RouterContainer, routers_named, run_routers, flow_choose_instances,
}

-- The routers that a segment's table has for a list of names, in the order of the names.
pub data AreNamed (t : Table ServiceRouter) : List String → List ServiceRouter → Type 0 where
  no_name : AreNamed t [] []
  missing :
      {n : String} {names : List String} {rs : List ServiceRouter}
      → lookup n t ≡ none
      → AreNamed t names rs
      → AreNamed t (n ∷ names) rs
  installed :
      {n : String} {names : List String} {r : ServiceRouter} {rs : List ServiceRouter}
      → lookup n t ≡ some r
      → AreNamed t names rs
      → AreNamed t (n ∷ names) (r ∷ rs)

-- A run of routers: each gets what the one before it left, and the first that fails or panics ends the
-- run with its answer.
pub data Runs (ctx : RouteContext)
    : List ServiceRouter → ServiceInstances → Outcome ServiceInstances → Type 0 where
  ended : {s : ServiceInstances} → Runs ctx [] s (value s)
  passed :
      {r : ServiceRouter} {rs : List ServiceRouter} {s : ServiceInstances} {ret : RouteResult}
      {o : Outcome ServiceInstances}
      → r ctx s ≡ value ret
      → Runs ctx rs ret.instances o
      → Runs ctx (r ∷ rs) s o
  stopped :
      {r : ServiceRouter} {rs : List ServiceRouter} {s : ServiceInstances} {e : ErrorCode}
      → r ctx s ≡ failed e
      → Runs ctx (r ∷ rs) s (failed e)
  crashed :
      {r : ServiceRouter} {rs : List ServiceRouter} {s : ServiceInstances}
      → r ctx s ≡ panicked
      → Runs ctx (r ∷ rs) s panicked

-- The routers of the three segments of the request's chain, one segment behind the other.
pub record IsChain (container : RouterContainer) (ctx : RouteContext) (rs : List ServiceRouter)
    : Type 0 where
  pub before : List ServiceRouter
  pub core : List ServiceRouter
  pub after : List ServiceRouter
  pub before_named : AreNamed container.before_routers ctx.chain.before before
  pub core_named : AreNamed container.core_routers ctx.chain.core core
  pub after_named : AreNamed container.after_routers ctx.chain.after after
  pub order : rs ≡ before ++ (core ++ after)

named-AreNamed :
    (t : Table ServiceRouter) (names : List String) → AreNamed t names (routers_named t names)
unfolding routers_named
named-AreNamed t [] = no_name
named-AreNamed t (n ∷ names) = elim (Option-cases (lookup n t)) [
  | inl e ↦ rw e (missing e (named-AreNamed t names))
  | inr (r, e) ↦ rw e (installed e (named-AreNamed t names))
]

AreNamed-named :
    {t : Table ServiceRouter} {names : List String} {rs : List ServiceRouter}
    → AreNamed t names rs
    → routers_named t names ≡ rs
unfolding routers_named
AreNamed-named no_name = refl
AreNamed-named (missing e a) = rw e (AreNamed-named a)
AreNamed-named (installed {r = r} e a) = rw e (ap (λ l. r ∷ l) (AreNamed-named a))

module _ (ctx : RouteContext) where
  run-Runs : (rs : List ServiceRouter) (s : ServiceInstances) → Runs ctx rs s (run_routers rs ctx s)
  unfolding run_routers
  run-Runs [] s = ended
  run-Runs (r ∷ rs) s = by_answer (λ next. run-Runs rs next) (r ctx s) refl
    where
      by_answer :
          ((next : ServiceInstances) → Runs ctx rs next (run_routers rs ctx next))
          → (o : Outcome RouteResult) → r ctx s ≡ o
          → Runs ctx (r ∷ rs) s (o >>= λ ret. run_routers rs ctx ret.instances)
      by_answer later (value ret) e = passed e (later ret.instances)
      by_answer later (failed c) e = stopped e
      by_answer later panicked e = crashed e

  Runs-run :
      {rs : List ServiceRouter} {s : ServiceInstances} {o : Outcome ServiceInstances}
      → Runs ctx rs s o
      → run_routers rs ctx s ≡ o
  unfolding run_routers
  Runs-run ended = refl
  Runs-run (passed e next) = rw e (Runs-run next)
  Runs-run (stopped e) = rw e
  Runs-run (crashed e) = rw e

  run-append :
      (rs later : List ServiceRouter) (s : ServiceInstances)
      → run_routers (rs ++ later) ctx s
        ≡ (run_routers rs ctx s >>= λ left. run_routers later ctx left)
  unfolding run_routers
  run-append [] later s = refl
  run-append (r ∷ rs) later s = by_answer (λ next. run-append rs later next) (r ctx s)
    where
      by_answer :
          ((next : ServiceInstances)
            → run_routers (rs ++ later) ctx next
              ≡ (run_routers rs ctx next >>= λ left. run_routers later ctx left))
          → (o : Outcome RouteResult)
          → (o >>= λ ret. run_routers (rs ++ later) ctx ret.instances) ≡ (
              o >>= (λ ret. run_routers rs ctx ret.instances) >>= λ left.
              run_routers later ctx left)
      by_answer split (value ret) = split ret.instances
      by_answer split (failed c) = refl
      by_answer split panicked = refl

abbrev asked : RouteContext → RouteContext
asked ctx = record ctx { authenticated_caller = none }

chain_routers : RouterContainer → RouteContext → List ServiceRouter
chain_routers container ctx =
    routers_named container.before_routers ctx.chain.before
    ++ (routers_named container.core_routers ctx.chain.core
        ++ routers_named container.after_routers ctx.chain.after)

flow-run :
    (container : RouterContainer) (ctx : RouteContext) (given : ServiceInstances)
    → flow_choose_instances container ctx given
      ≡ run_routers (chain_routers container ctx) (asked ctx) given
unfolding flow_choose_instances chain_routers
flow-run container ctx given = sym (
    run-append (asked ctx) (routers_named container.before_routers ctx.chain.before)
      (routers_named container.core_routers ctx.chain.core
        ++ routers_named container.after_routers ctx.chain.after)
      given
    ∙ ap
        (λ f.
          run_routers (routers_named container.before_routers ctx.chain.before) (asked ctx) given
          >>= f)
        (λ i narrowed.
          run-append (asked ctx) (routers_named container.core_routers ctx.chain.core)
            (routers_named container.after_routers ctx.chain.after) narrowed i))

chain_routers-IsChain :
    (container : RouterContainer) (ctx : RouteContext)
    → IsChain container ctx (chain_routers container ctx)
unfolding chain_routers
chain_routers-IsChain container ctx = record {
  before = routers_named container.before_routers ctx.chain.before;
  core = routers_named container.core_routers ctx.chain.core;
  after = routers_named container.after_routers ctx.chain.after;
  before_named = named-AreNamed container.before_routers ctx.chain.before;
  core_named = named-AreNamed container.core_routers ctx.chain.core;
  after_named = named-AreNamed container.after_routers ctx.chain.after;
  order = refl;
}

IsChain-chain :
    (container : RouterContainer) (ctx : RouteContext) (rs : List ServiceRouter)
    → IsChain container ctx rs
    → chain_routers container ctx ≡ rs
unfolding chain_routers
IsChain-chain container ctx rs c =
    rw (AreNamed-named c.before_named, AreNamed-named c.core_named, AreNamed-named c.after_named)
      (sym c.order)

-- What becomes of a request is what the routers of its chain make of it, run in order: those of the
-- before, the core and the after segment, each found in the table of its own segment, where a name
-- without a router is passed over. Each gets what the one before it left, in a context without an
-- authenticated caller, and the first error or panic is the answer.
pub flow_choose_instances-Runs :
    (container : RouterContainer) (ctx : RouteContext) (given : ServiceInstances)
    (o : Outcome ServiceInstances)
    → (flow_choose_instances container ctx given ≡ o) ↔ (
        (rs : List ServiceRouter) × IsChain container ctx rs
        × Runs (record ctx { authenticated_caller = none }) rs given o)
flow_choose_instances-Runs container ctx given o = (
  λ e. (
    chain_routers container ctx,
    chain_routers-IsChain container ctx,
    subst (Runs (asked ctx) (chain_routers container ctx) given)
        (sym (flow-run container ctx given) ∙ e)
        (run-Runs (asked ctx) (chain_routers container ctx) given),
  ),
  λ w.
      flow-run container ctx given
      ∙ ap (λ rs. run_routers rs (asked ctx) given) (IsChain-chain container ctx w.0 w.1)
      ∙ Runs-run (asked ctx) w.2,
)
