-- ===== src/RateLimit/Lease/Retry.antt =====
-- The updates of a lease, read back, and made a second time (src/traffic/ratelimit/api.rs).
use native.Mathlib.Nat.{le_refl}
use pole_client_rust.Common.{
  ℕ, ◌≤◌, ◌≡◌, refl, ap, sym, ◌∙◌, true, false, if◌then◌else◌, Option, none, some, List, [], ◌∷◌,
  any, arith, Bool-cases, inl, inr, ltb,
}
use pole_client_rust.Core.Outcome.{Outcome, value, failed, panicked, ◌>>=◌}
use pole_client_rust.RateLimit.Req.{QuotaResource, resource_eq, QuotaAmount, amount_for}
use pole_client_rust.RateLimit.Req.Valid.{resource_eq_iff}
use pole_client_rust.RateLimit.Lease.{
  QuotaConsumption, consumed, set_consumed, checked_total, apply_updates,
}

-- An update that went through: the checks it passed, and the rest of the loop.
record Passed (qs : List QuotaAmount) (seen : List QuotaResource) (cs : List QuotaConsumption)
    (u : QuotaConsumption) (us ds : List QuotaConsumption) : Type 0 where
  fresh : any (resource_eq u.resource) seen ≡ false
  reserved : ℕ
  before : ℕ
  amount : amount_for qs u.resource ≡ some reserved
  total : consumed cs u.resource ≡ some before
  low : before ≤ u.consumed_total
  high : u.consumed_total ≤ reserved
  rest :
      apply_updates qs (u.resource ∷ seen) (set_consumed cs u.resource u.consumed_total) us
      ≡ value ds

checked_total-value :
    (amount before : Option ℕ) (n m : ℕ)
    → checked_total amount before n ≡ value m
    → (reserved : ℕ) × (b : ℕ) × (amount ≡ some reserved)
      × (before ≡ some b)
      × (n ≡ m)
      × (b ≤ n)
      × (n ≤ reserved)
unfolding checked_total
checked_total-value none before n m h = cc
checked_total-value (some reserved) none n m h = cc
checked_total-value (some reserved) (some b) n m h =
    let low : b ≤ n = ground arith in
    let high : n ≤ reserved = ground arith in
    let same : n ≡ m = ground arith in (reserved, b, refl, refl, same, low, high)

Outcome-bind-value :
    {A B : Type 0} (o : Outcome A) (f : A → Outcome B) {b : B}
    → (o >>= f) ≡ value b
    → (a : A) × (o ≡ value a) × (f a ≡ value b)
Outcome-bind-value (value a) f h = (a, refl, h)
Outcome-bind-value (failed e) f h = cc
Outcome-bind-value panicked f h = cc

not_below : (a b : ℕ) → b ≤ a → ltb a b ≡ false
not_below a b h = ground arith

apply_updates-Passed :
    (qs : List QuotaAmount) (seen : List QuotaResource) (cs : List QuotaConsumption)
    (u : QuotaConsumption) (us ds : List QuotaConsumption)
    → apply_updates qs seen cs (u ∷ us) ≡ value ds
    → Passed qs seen cs u us ds
unfolding apply_updates
apply_updates-Passed qs seen cs u us ds h = elim (Bool-cases (any (resource_eq u.resource) seen)) [
  | inl t ↦ cc (rw (t, apply_updates) at h)
  | inr f ↦
      let (m, checked, more) = Outcome-bind-value _ _ (rw (f, apply_updates) at h) in
      let (reserved, before, amount, total, same, low, high) =
        checked_total-value (amount_for qs u.resource) (consumed cs u.resource) u.consumed_total m
          checked in
      record {
        fresh = f;
        reserved = reserved;
        before = before;
        amount = amount;
        total = total;
        low = low;
        high = high;
        rest = rw same more;
      }
]

-- The other way round: an update that passes the checks is made.
Passed-apply_updates :
    (qs : List QuotaAmount) (seen : List QuotaResource) (cs : List QuotaConsumption)
    (u : QuotaConsumption) (us ds : List QuotaConsumption)
    → Passed qs seen cs u us ds
    → apply_updates qs seen cs (u ∷ us) ≡ value ds
unfolding apply_updates
Passed-apply_updates qs seen cs u us ds p =
    let low : ltb u.consumed_total p.before ≡ false = not_below _ _ p.low in
    let high : ltb p.reserved u.consumed_total ≡ false = not_below _ _ p.high in
    rw (p.fresh, apply_updates)
      (rw (p.amount, p.total) (unfold checked_total in rw (low, high) p.rest))

resource_eq_refl : (r : QuotaResource) → resource_eq r r ≡ true
resource_eq_refl r = (resource_eq_iff r r).1 refl

-- A read after a write.
consumed-set_consumed :
    (cs : List QuotaConsumption) (r r' : QuotaResource) (n before : ℕ)
    → consumed cs r ≡ some before
    → consumed (set_consumed cs r n) r' ≡ (if resource_eq r r' then some n else consumed cs r')
unfolding consumed set_consumed
consumed-set_consumed [] r r' n before h = cc
consumed-set_consumed (c ∷ cs) r r' n before h = ground (
  arith,
  resource_eq_iff c.resource r,
  resource_eq_iff c.resource r',
  resource_eq_iff r r',
  consumed-set_consumed cs r r' n before,
)

set_consumed_same :
    (cs : List QuotaConsumption) (r : QuotaResource) (n : ℕ)
    → consumed cs r ≡ some n
    → set_consumed cs r n ≡ cs
unfolding consumed set_consumed
set_consumed_same [] r n h = refl
set_consumed_same (c ∷ cs) r n h = ground (arith, set_consumed_same cs r n)

-- The last total that the updates give a resource, or the one before.
abbrev pub overlaid : List QuotaConsumption → List QuotaConsumption → QuotaResource → Option ℕ
overlaid [] cs r = consumed cs r
overlaid (u ∷ us) cs r =
    if resource_eq u.resource r then some u.consumed_total else overlaid us cs r

overlaid-congr :
    (us cs ds : List QuotaConsumption) (r : QuotaResource)
    → consumed cs r ≡ consumed ds r
    → overlaid us cs r ≡ overlaid us ds r
overlaid-congr [] cs ds r h = h
overlaid-congr (u ∷ us) cs ds r h = ground (arith, overlaid-congr us cs ds r h)

fresh_apart :
    (seen : List QuotaResource) (u r : QuotaResource)
    → any (resource_eq u) seen ≡ false
    → any (resource_eq r) seen ≡ true
    → resource_eq u r ≡ false
fresh_apart seen u r f t = elim (Bool-cases (resource_eq u r)) [
  | inl same ↦ cc ((resource_eq_iff u r).0 same, f, t)
  | inr apart ↦ apart
]

seen_self :
    (u r : QuotaResource) (seen : List QuotaResource)
    → resource_eq u r ≡ true
    → any (resource_eq r) (u ∷ seen) ≡ true
seen_self u r seen same = rw (sym ((resource_eq_iff u r).0 same), resource_eq_refl u)

-- A resource that was seen is in no later update.
overlaid-seen :
    (qs : List QuotaAmount) (seen : List QuotaResource) (cs us ds xs : List QuotaConsumption)
    (r : QuotaResource)
    → apply_updates qs seen cs us ≡ value ds
    → any (resource_eq r) seen ≡ true
    → overlaid us xs r ≡ consumed xs r
overlaid-seen qs seen cs [] ds xs r h s = refl
overlaid-seen qs seen cs (u ∷ us) ds xs r h s =
    let p = apply_updates-Passed qs seen cs u us ds h in
    let apart = fresh_apart seen u.resource r p.fresh s in
    let seen' : any (resource_eq r) (u.resource ∷ seen) ≡ true = ground arith in
    rw apart (
      overlaid-seen qs (u.resource ∷ seen) (set_consumed cs u.resource u.consumed_total) us ds xs r
        p.rest seen')

-- Updates that are accepted set the total of each resource that they name and keep all others.
pub apply_updates-consumed :
    (qs : List QuotaAmount) (seen : List QuotaResource) (cs us ds : List QuotaConsumption)
    (r : QuotaResource)
    → apply_updates qs seen cs us ≡ value ds
    → consumed ds r ≡ overlaid us cs r
unfolding apply_updates
apply_updates-consumed qs seen cs [] ds r h =
    let same : ds ≡ cs = cc in ap (λ xs. consumed xs r) same
apply_updates-consumed qs seen cs (u ∷ us) ds r h =
    let p = apply_updates-Passed qs seen cs u us ds h in
    let cs' = set_consumed cs u.resource u.consumed_total in
    let written = consumed-set_consumed cs u.resource r u.consumed_total p.before p.total in
    apply_updates-consumed qs (u.resource ∷ seen) cs' us ds r p.rest
    ∙ elim (Bool-cases (resource_eq u.resource r)) [
      | inl same ↦
          overlaid-seen qs (u.resource ∷ seen) cs' us ds cs' r p.rest
            (seen_self u.resource r seen same)
          ∙ written
          ∙ rw same
      | inr apart ↦ rw apart (overlaid-congr us cs' cs r (written ∙ rw apart))
    ]

-- Updates that were accepted are accepted a second time, and change nothing then.
pub apply_updates_again :
    (qs : List QuotaAmount) (seen : List QuotaResource) (cs us ds : List QuotaConsumption)
    → apply_updates qs seen cs us ≡ value ds
    → apply_updates qs seen ds us ≡ value ds
unfolding apply_updates
apply_updates_again qs seen cs [] ds h = refl
apply_updates_again qs seen cs (u ∷ us) ds h =
    let p = apply_updates-Passed qs seen cs u us ds h in
    let cs' = set_consumed cs u.resource u.consumed_total in
    let seen' = seen_self u.resource u.resource seen (resource_eq_refl u.resource) in
    let now : consumed ds u.resource ≡ some u.consumed_total =
      apply_updates-consumed qs (u.resource ∷ seen) cs' us ds u.resource p.rest
      ∙ overlaid-seen qs (u.resource ∷ seen) cs' us ds cs' u.resource p.rest seen'
      ∙ consumed-set_consumed cs u.resource u.resource u.consumed_total p.before p.total
      ∙ rw (resource_eq_refl u.resource) in
    let unchanged = set_consumed_same ds u.resource u.consumed_total now in
    Passed-apply_updates qs seen ds u us ds (record {
      fresh = p.fresh;
      reserved = p.reserved;
      before = u.consumed_total;
      amount = p.amount;
      total = now;
      low = le_refl u.consumed_total;
      high = p.high;
      rest = rw unchanged (apply_updates_again qs (u.resource ∷ seen) cs' us ds p.rest);
    })
