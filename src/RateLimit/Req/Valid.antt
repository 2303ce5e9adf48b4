-- ===== src/RateLimit/Req/Valid.antt =====
-- Which requests `check_valid` accepts (src/traffic/ratelimit/req.rs).
use pole_client_rust.Common.{
  ℕ, ◌*◌, ◌≤◌, ◌<◌, ◌≡◌, ◌≢◌, ◌↔◌, refl, ap, String, str_eq, str_eq_iff, true, false, List, [], ◌∷◌,
  All, Elem, any, is_empty, arith, Bool-cases, inl, inr, u32_max, ◌==◌,
}
use pole_client_rust.Core.Error.{ok}
use pole_client_rust.RateLimit.Req.{
  QuotaResource, qps, token, concurrency, resource_eq, QuotaAmount, QuotaRequest, second,
  check_quotas, exceeds_protocol_limit, check_valid,
}

pub resource_eq_iff : (a b : QuotaResource) → (resource_eq a b ≡ true) ↔ (a ≡ b)
resource_eq_iff qps qps = ((λ e. refl), (λ e. refl))
resource_eq_iff token token = ((λ e. refl), (λ e. refl))
resource_eq_iff concurrency concurrency = ((λ e. refl), (λ e. refl))
resource_eq_iff qps token = ((λ e. cc), (λ e. cc))
resource_eq_iff qps concurrency = ((λ e. cc), (λ e. cc))
resource_eq_iff token qps = ((λ e. cc), (λ e. cc))
resource_eq_iff token concurrency = ((λ e. cc), (λ e. cc))
resource_eq_iff concurrency qps = ((λ e. cc), (λ e. cc))
resource_eq_iff concurrency token = ((λ e. cc), (λ e. cc))

pub any_resource :
    (r : QuotaResource) (rs : List QuotaResource) → any (resource_eq r) rs ≡ true → Elem r rs
any_resource r [] h = cc
any_resource r (x ∷ rs) h = elim (Bool-cases (resource_eq r x)) [
  | inl t ↦ inl ((resource_eq_iff r x).0 t)
  | inr f ↦ inr (any_resource r rs (ground arith))
]

pub resource_any :
    (r : QuotaResource) (rs : List QuotaResource) → Elem r rs → any (resource_eq r) rs ≡ true
resource_any r [] e = absurd e
resource_any r (x ∷ rs) (inl e) = rw ((resource_eq_iff r x).1 e)
resource_any r (x ∷ rs) (inr e) = ground (arith, resource_any r rs e)

-- No resource stands twice in the list, nor in the list of those seen.
abbrev pub IsDistinct : List QuotaResource → List QuotaAmount → Type 0
IsDistinct seen [] = Unit {0}
IsDistinct seen (q ∷ rest) = (¬ Elem q.resource seen) × IsDistinct (q.resource ∷ seen) rest

abbrev pub IsPositive : QuotaAmount → Type 0
IsPositive q = 0 < q.amount

test-pos : (n : ℕ) → (n == 0) ≡ false → 0 < n
test-pos n h = ground arith

not-any :
    (r : QuotaResource) (rs : List QuotaResource) → ¬ Elem r rs → any (resource_eq r) rs ≡ false
not-any r rs h = elim (Bool-cases (any (resource_eq r) rs)) [
  | inl t ↦ absurd (h (any_resource r rs t))
  | inr f ↦ f
]

check_quotas-ok :
    (seen : List QuotaResource) (qs : List QuotaAmount)
    → check_quotas seen qs ≡ ok tt
    → All IsPositive qs × IsDistinct seen qs
unfolding check_quotas
check_quotas-ok seen [] h = (tt, tt)
check_quotas-ok seen (q ∷ rest) h =
    let parts : ((q.amount == 0) ≡ false)
        × (any (resource_eq q.resource) seen ≡ false)
        × (check_quotas (q.resource ∷ seen) rest ≡ ok tt) =
      ground arith in
    let ih = check_quotas-ok (q.resource ∷ seen) rest parts.2 in
    let positive : 0 < q.amount = test-pos q.amount parts.0 in
    ((positive, ih.0), ((λ e. cc (resource_any q.resource seen e, parts.1)), ih.1))

ok-check_quotas :
    (seen : List QuotaResource) (qs : List QuotaAmount)
    → All IsPositive qs
    → IsDistinct seen qs
    → check_quotas seen qs ≡ ok tt
unfolding check_quotas
ok-check_quotas seen [] p d = refl
ok-check_quotas seen (q ∷ rest) p d =
    let new : any (resource_eq q.resource) seen ≡ false = not-any q.resource seen d.0 in
    let amount : (q.amount == 0) ≡ false = ground arith in
    rw (amount, new) (ok-check_quotas (q.resource ∷ seen) rest p.1 d.1)

limit_iff : (ttl : ℕ) → (exceeds_protocol_limit ttl ≡ false) ↔ (ttl ≤ u32_max * second)
unfolding exceeds_protocol_limit
limit_iff ttl = ground arith

text-ne : (s : String) → str_eq s "" ≡ false → s ≢ ""
text-ne s h e = cc ((str_eq_iff s "").1 e, h)

ne-text : (s : String) → s ≢ "" → str_eq s "" ≡ false
ne-text s h = elim (Bool-cases (str_eq s "")) [
  | inl t ↦ absurd (h ((str_eq_iff s "").0 t))
  | inr f ↦ f
]

ne-empty : (qs : List QuotaAmount) → qs ≢ [] → is_empty qs ≡ false
ne-empty [] h = absurd (h refl)
ne-empty (q ∷ qs) h = refl

pos-test : (n : ℕ) → 0 < n → (n == 0) ≡ false
pos-test n h = ground arith

pub record IsValidRequest (r : QuotaRequest) : Type 0 where
  pub service : r.service ≢ ""
  pub namespace : r.namespace ≢ ""
  pub some_quota : r.quotas ≢ []
  pub positive : All IsPositive r.quotas
  pub distinct : IsDistinct [] r.quotas
  pub ttl : 0 < r.lease_ttl
  pub limit : r.lease_ttl ≤ u32_max * second

-- A request is accepted exactly when service and namespace are given, it names a resource, every
-- amount is positive, no resource stands twice, and the ttl is positive and at most 2^32 - 1 seconds.
pub check_valid_iff : (r : QuotaRequest) → (check_valid r ≡ ok tt) ↔ IsValidRequest r
unfolding check_valid
check_valid_iff r = (accepted, valid)
  where
    accepted : check_valid r ≡ ok tt → IsValidRequest r
    accepted h =
        let parts : (str_eq r.service "" ≡ false)
            × (str_eq r.namespace "" ≡ false)
            × (is_empty r.quotas ≡ false)
            × (check_quotas [] r.quotas ≡ ok tt)
            × ((r.lease_ttl == 0) ≡ false)
            × (exceeds_protocol_limit r.lease_ttl ≡ false) =
          ground arith in
        let quotas = check_quotas-ok [] r.quotas parts.3 in
        record {
          service = text-ne r.service parts.0;
          namespace = text-ne r.namespace parts.1;
          some_quota = λ e. cc (ap is_empty e, parts.2);
          positive = quotas.0;
          distinct = quotas.1;
          ttl = test-pos r.lease_ttl parts.4;
          limit = (limit_iff r.lease_ttl).0 parts.5;
        }

    valid : IsValidRequest r → check_valid r ≡ ok tt
    valid v =
        let service = ne-text r.service v.service in
        let namespace = ne-text r.namespace v.namespace in
        let quotas = ne-empty r.quotas v.some_quota in
        let each = ok-check_quotas [] r.quotas v.positive v.distinct in
        let ttl = pos-test r.lease_ttl v.ttl in
        let limit = (limit_iff r.lease_ttl).1 v.limit in
        rw (service, namespace, quotas, each, ttl, limit)
