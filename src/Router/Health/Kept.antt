-- ===== src/Router/Health/Kept.antt =====
-- Which instances the health router gives (src/plugins/router/health/health.rs).
use pole_client_rust.Common.{
  ℕ, ◌+◌, ◌%◌, ◌<◌, ◌≡◌, ◌≢◌, refl, ap, ◌∙◌, inl, inr, false, not, if◌then◌else◌, ◌==◌, ◌&&◌,
  Option, List, [], ◌∷◌, keep, u64_mod, Elem, Bool-cases, arith,
}
use pole_client_rust.Core.Outcome.{value}
use pole_client_rust.Core.Naming.{Instance, is_available, ServiceInstances, add_weights}
use pole_client_rust.Core.Context.{RouteContext, next}
use pole_client_rust.CircuitBreaker.Breaker.{Breaker}
use pole_client_rust.Router.Flow.Narrow.{IsNarrowing}
use pole_client_rust.Router.Health.{keep_healthy, health_choose_instances}

abbrev pub weights : List Instance → ℕ
weights [] = 0
weights (i ∷ rest) = i.weight + weights rest

-- All instances up to the first that has a weight, and from there the available ones.
abbrev pub until_weight : List Instance → List Instance
until_weight [] = []
until_weight (i ∷ rest) =
    if i.weight == 0 then i ∷ until_weight rest else i ∷ keep is_available rest

-- The weight at the end of the loop is that of the instances kept.
keep_healthy-weight :
    (t : ℕ) (xs : List Instance) → (keep_healthy t xs).1 ≡ add_weights t (keep_healthy t xs).0
unfolding keep_healthy add_weights
keep_healthy-weight t [] = refl
keep_healthy-weight t (i ∷ xs) = elim (Bool-cases (not (is_available i) && not (t == 0))) [
  | inl s ↦ rw s (keep_healthy-weight t xs)
  | inr k ↦ rw k (keep_healthy-weight ((t + i.weight) % u64_mod) xs)
]

keep_healthy-Elem :
    (t : ℕ) (xs : List Instance) (i : Instance) → Elem i (keep_healthy t xs).0 → Elem i xs
unfolding keep_healthy
keep_healthy-Elem t [] i e = e
keep_healthy-Elem t (x ∷ xs) i e = elim (Bool-cases (not (is_available x) && not (t == 0))) [
  | inl s ↦ inr (keep_healthy-Elem t xs i (rw s at e))
  | inr k ↦ elim (kept k) [
    | inl q ↦ inl q
    | inr r ↦ inr (keep_healthy-Elem ((t + x.weight) % u64_mod) xs i r)
  ]
]
  where
    kept :
        (not (is_available x) && not (t == 0)) ≡ false
        → Elem i (x ∷ (keep_healthy ((t + x.weight) % u64_mod) xs).0)
    kept k = rw k at e

keep_healthy-weighed :
    (t : ℕ) (xs : List Instance)
    → t ≢ 0
    → t + weights xs < u64_mod
    → (keep_healthy t xs).0 ≡ keep is_available xs
unfolding keep_healthy
keep_healthy-weighed t [] n b = refl
keep_healthy-weighed t (i ∷ xs) n b = elim (Bool-cases (is_available i)) [
  | inr f ↦
      let weighed : (t == 0) ≡ false = ground arith in
      rw (f, weighed) (keep_healthy-weighed t xs n (omega (arith, b)))
  | inl a ↦
      let ih =
        keep_healthy-weighed ((t + i.weight) % u64_mod) xs (omega (arith, n, b))
          (omega (arith, b)) in
      rw a (ap (λ r. i ∷ r) ih)
]

keep_healthy-until_weight :
    (xs : List Instance) → weights xs < u64_mod → (keep_healthy 0 xs).0 ≡ until_weight xs
unfolding keep_healthy
keep_healthy-until_weight [] b = refl
keep_healthy-until_weight (i ∷ xs) b = first_kept ∙ elim (Bool-cases (i.weight == 0)) [
  | inl z ↦
      let nothing : (0 + i.weight) % u64_mod ≡ 0 = ground arith in
      rw (z, nothing) (ap (λ r. i ∷ r) (keep_healthy-until_weight xs (omega (arith, b))))
  | inr n ↦
      let some_weight : (0 + i.weight) % u64_mod ≢ 0 = ground arith in
      rw n (
        ap (λ r. i ∷ r)
          (keep_healthy-weighed ((0 + i.weight) % u64_mod) xs some_weight (omega (arith, b))))
]
  where
    first_kept : (keep_healthy 0 (i ∷ xs)).0 ≡ i ∷ (keep_healthy ((0 + i.weight) % u64_mod) xs).0
    first_kept = elim (Bool-cases (is_available i)) [ inl a ↦ rw a | inr f ↦ rw f ]

-- Whatever the breaker holds, the router gives all instances up to the first that has a weight,
-- available or not, and behind it the available ones, with the sum of their weights. The weights of
-- all the instances sum to less than 2^64.
pub health_choose_instances-until_weight :
    (now : ℕ) (b : Option Breaker) (ctx : RouteContext) (given : ServiceInstances)
    → weights given.instances < u64_mod
    → (health_choose_instances now b ctx given).1
      ≡ value (record {
        instances = record {
          service = given.service;
          instances = until_weight given.instances;
          total_weight = add_weights 0 (until_weight given.instances);
        };
        state = next;
      })
unfolding health_choose_instances
health_choose_instances-until_weight now b ctx given h =
    let kept = keep_healthy-until_weight given.instances h in
    let weight = keep_healthy-weight 0 given.instances ∙ ap (add_weights 0) kept in
    rw (weight, kept)

-- The router gives some of the instances, with their weight.
pub health-IsNarrowing :
    (now : ℕ) (b : Option Breaker)
    → IsNarrowing (λ ctx given. (health_choose_instances now b ctx given).1)
unfolding health_choose_instances
health-IsNarrowing now b ctx given w = record {
  weight = keep_healthy-weight 0 given.instances;
  service = refl;
  members = λ i e. keep_healthy-Elem 0 given.instances i e;
}
