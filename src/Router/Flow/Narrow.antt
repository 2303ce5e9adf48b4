-- ===== src/Router/Flow/Narrow.antt =====
-- What a chain of routers keeps (src/core/flow.rs).
use pole_client_rust.Common.{
  ◌≡◌, refl, ◌∙◌, String, Option, none, some, List, [], ◌∷◌, Table, lookup, AllValues, AllSome,
  lookup-AllSome, Elem,
}
use pole_client_rust.Core.Outcome.{Outcome, value, failed, panicked, ◌>>=◌}
use pole_client_rust.Core.Naming.{Instance, ServiceInstances, add_weights}
use pole_client_rust.Core.Context.{RouteContext, RouteResult}
use pole_client_rust.Router.Flow.{
  ServiceRouter, RouterContainer, push_router, routers_named, run_routers, flow_choose_instances,
}

-- The total weight is that of the instances.
abbrev pub IsWeighed : ServiceInstances → Type 0
IsWeighed s = s.total_weight ≡ add_weights 0 s.instances

-- Instances of the same service, all among those given, with their total weight.
pub record IsPart (given chosen : ServiceInstances) : Type 0 where
  pub weight : IsWeighed chosen
  pub service : chosen.service ≡ given.service
  pub members : (i : Instance) → Elem i chosen.instances → Elem i given.instances

pub IsPart-refl : (given : ServiceInstances) → IsWeighed given → IsPart given given
IsPart-refl given w = record { weight = w; service = refl; members = λ i e. e }

pub IsPart-trans : {a b c : ServiceInstances} → IsPart a b → IsPart b c → IsPart a c
IsPart-trans p q = record {
  weight = q.weight;
  service = q.service ∙ p.service;
  members = λ i e. p.members i (q.members i e);
}

abbrev pub Narrows : ServiceInstances → Outcome RouteResult → Type 0
Narrows given (value r) = IsPart given r.instances
Narrows given (failed e) = Unit {0}
Narrows given panicked = Unit {0}

-- A router that gives some of the instances that it is given, whenever it gives any, and keeps the
-- total weight right.
abbrev pub IsNarrowing : ServiceRouter → Type 0
IsNarrowing r =
    (ctx : RouteContext) (given : ServiceInstances) → IsWeighed given → Narrows given (r ctx given)

abbrev pub AreNarrowing : RouterContainer → Type 0
AreNarrowing c =
    AllValues IsNarrowing c.before_routers
    × AllValues IsNarrowing c.core_routers
    × AllValues IsNarrowing c.after_routers

abbrev pub IsPartOf : ServiceInstances → Outcome ServiceInstances → Type 0
IsPartOf given (value chosen) = IsPart given chosen
IsPartOf given (failed e) = Unit {0}
IsPartOf given panicked = Unit {0}

abbrev EachNarrows : List ServiceRouter → Type 0
EachNarrows [] = Unit {0}
EachNarrows (r ∷ rs) = IsNarrowing r × EachNarrows rs

push-EachNarrows :
    (r : Option ServiceRouter) (rs : List ServiceRouter)
    → AllSome IsNarrowing r
    → EachNarrows rs
    → EachNarrows (push_router r rs)
push-EachNarrows none rs a e = e
push-EachNarrows (some r) rs a e = (a, e)

named-EachNarrows :
    (t : Table ServiceRouter) (names : List String)
    → AllValues IsNarrowing t
    → EachNarrows (routers_named t names)
unfolding routers_named
named-EachNarrows t [] a = tt
named-EachNarrows t (n ∷ names) a =
    push-EachNarrows (lookup n t) (routers_named t names) (lookup-AllSome IsNarrowing n t a)
      (named-EachNarrows t names a)

widen :
    {a b : ServiceInstances} (o : Outcome ServiceInstances)
    → IsPart a b
    → IsPartOf b o
    → IsPartOf a o
widen (value c) p q = IsPart-trans p q
widen (failed e) p q = tt
widen panicked p q = tt

then_chosen :
    (given : ServiceInstances) (o : Outcome RouteResult)
    (f : ServiceInstances → Outcome ServiceInstances)
    → Narrows given o
    → ((chosen : ServiceInstances) → IsWeighed chosen → IsPartOf chosen (f chosen))
    → IsPartOf given (o >>= λ ret. f ret.instances)
then_chosen given (value ret) f n q = widen (f ret.instances) n (q ret.instances n.weight)
then_chosen given (failed c) f n q = tt
then_chosen given panicked f n q = tt

then-IsPartOf :
    (given : ServiceInstances) (o : Outcome ServiceInstances)
    (f : ServiceInstances → Outcome ServiceInstances)
    → IsPartOf given o
    → ((chosen : ServiceInstances) → IsWeighed chosen → IsPartOf chosen (f chosen))
    → IsPartOf given (o >>= f)
then-IsPartOf given (value c) f p q = widen (f c) p (q c p.weight)
then-IsPartOf given (failed e) f p q = tt
then-IsPartOf given panicked f p q = tt

run-IsPartOf :
    (rs : List ServiceRouter) (ctx : RouteContext) (given : ServiceInstances)
    → IsWeighed given
    → EachNarrows rs
    → IsPartOf given (run_routers rs ctx given)
unfolding run_routers
run-IsPartOf [] ctx given w e = IsPart-refl given w
run-IsPartOf (r ∷ rs) ctx given w (narrows, e) =
    then_chosen given (r ctx given) (λ chosen. run_routers rs ctx chosen) (narrows ctx given w)
      (λ chosen v. run-IsPartOf rs ctx chosen v e)

-- If every router that is installed gives some of the instances that it is given and keeps their total
-- weight right, then so does every chain of them, whichever names the request lists in its three
-- segments.
pub flow_choose_instances-IsPart :
    (container : RouterContainer) (ctx : RouteContext) (given : ServiceInstances)
    → IsWeighed given
    → AreNarrowing container
    → IsPartOf given (flow_choose_instances container ctx given)
unfolding flow_choose_instances
flow_choose_instances-IsPart container ctx given w (before, core, after) =
    let asked = record ctx { authenticated_caller = none } in
    then-IsPartOf given
      (run_routers (routers_named container.before_routers ctx.chain.before) asked given) _
      (run-IsPartOf _ asked given w
        (named-EachNarrows container.before_routers ctx.chain.before before))
      λ narrowed v.
        then-IsPartOf narrowed
          (run_routers (routers_named container.core_routers ctx.chain.core) asked narrowed) _
          (run-IsPartOf _ asked narrowed v
            (named-EachNarrows container.core_routers ctx.chain.core core))
          λ chosen u.
            run-IsPartOf _ asked chosen u
              (named-EachNarrows container.after_routers ctx.chain.after after)
