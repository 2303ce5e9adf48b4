-- ===== src/RateLimit/Lease/Updates.antt =====
-- What `apply_consumption_updates` keeps and does (src/traffic/ratelimit/api.rs).
use pole_client_rust.Common.{
  ℕ, ◌≤◌, ◌≡◌, refl, ◌∙◌, true, false, Option, none, some, List, [], ◌∷◌, any, arith, Bool-cases,
  inl, inr, ltb,
}
use pole_client_rust.Core.Outcome.{Outcome, value, failed, panicked, ◌>>=◌}
use pole_client_rust.RateLimit.Req.{QuotaResource, resource_eq, QuotaAmount, amount_for}
use pole_client_rust.RateLimit.Lease.{
  QuotaConsumption, consumed, set_consumed, checked_total, apply_updates,
}

-- One consumption for each reservation, in the same order, and none above its reservation.
abbrev pub Fits : List QuotaAmount → List QuotaConsumption → Type 0
Fits [] [] = Unit {0}
Fits [] (c ∷ cs) = ⊥
Fits (q ∷ qs) [] = ⊥
Fits (q ∷ qs) (c ∷ cs) = (q.resource ≡ c.resource) × (c.consumed_total ≤ q.amount) × Fits qs cs

-- No total is below what it was.
abbrev pub Grows : List QuotaConsumption → List QuotaConsumption → Type 0
Grows [] [] = Unit {0}
Grows [] (d ∷ ds) = ⊥
Grows (c ∷ cs) [] = ⊥
Grows (c ∷ cs) (d ∷ ds) =
    (c.resource ≡ d.resource) × (c.consumed_total ≤ d.consumed_total) × Grows cs ds

pub Grows-refl : (cs : List QuotaConsumption) → Grows cs cs
Grows-refl [] = tt
Grows-refl (c ∷ cs) = (refl, omega arith, Grows-refl cs)

pub Grows-trans : (bs cs ds : List QuotaConsumption) → Grows bs cs → Grows cs ds → Grows bs ds
Grows-trans [] [] [] g h = tt
Grows-trans [] [] (d ∷ ds) g h = absurd h
Grows-trans [] (c ∷ cs) ds g h = absurd g
Grows-trans (b ∷ bs) [] ds g h = absurd g
Grows-trans (b ∷ bs) (c ∷ cs) [] g h = absurd h
Grows-trans (b ∷ bs) (c ∷ cs) (d ∷ ds) g h = (g.0 ∙ h.0, omega arith, Grows-trans bs cs ds g.2 h.2)

-- What an update may do to a lease that fits: grow it within the reservation, or fail.
abbrev pub IsSafe :
    List QuotaAmount → List QuotaConsumption → Outcome (List QuotaConsumption) → Type 0
IsSafe qs cs (value ds) = Fits qs ds × Grows cs ds
IsSafe qs cs (failed e) = Unit {0}
IsSafe qs cs panicked = ⊥

-- Where a resource is reserved it has a consumption, and the pair is bounded.
abbrev Bounded : Option ℕ → Option ℕ → Type 0
Bounded none before = before ≡ none
Bounded (some reserved) before = (n : ℕ) × (before ≡ some n) × (n ≤ reserved)

Fits-Bounded :
    (qs : List QuotaAmount) (cs : List QuotaConsumption) (r : QuotaResource)
    → Fits qs cs
    → Bounded (amount_for qs r) (consumed cs r)
unfolding amount_for consumed
Fits-Bounded [] [] r f = refl
Fits-Bounded [] (c ∷ cs) r f = absurd f
Fits-Bounded (q ∷ qs) [] r f = absurd f
Fits-Bounded (q ∷ qs) (c ∷ cs) r f = elim (Bool-cases (resource_eq c.resource r)) [
  | inl t ↦ rw (f.0, t) (c.consumed_total, refl, f.1)
  | inr g ↦ rw (f.0, g) (Fits-Bounded qs cs r f.2)
]

set_consumed-Fits :
    (qs : List QuotaAmount) (cs : List QuotaConsumption) (r : QuotaResource) (n reserved before : ℕ)
    → Fits qs cs
    → amount_for qs r ≡ some reserved
    → consumed cs r ≡ some before
    → n ≤ reserved
    → before ≤ n
    → Fits qs (set_consumed cs r n) × Grows cs (set_consumed cs r n)
unfolding amount_for consumed set_consumed
set_consumed-Fits [] [] r n reserved before f a c h k = (tt, tt)
set_consumed-Fits [] (c ∷ cs) r n reserved before f a e h k = absurd f
set_consumed-Fits (q ∷ qs) [] r n reserved before f a e h k = absurd f
set_consumed-Fits (q ∷ qs) (c ∷ cs) r n reserved before f a e h k =
    elim (Bool-cases (resource_eq c.resource r)) [
      | inl t ↦
          let same : resource_eq q.resource r ≡ true = rw f.0 t in
          let amount : q.amount ≡ reserved = ground arith in
          let total : c.consumed_total ≡ before = ground arith in
          rw t ((f.0, omega arith, f.2), (refl, omega arith, Grows-refl cs))
      | inr g ↦
          let apart : resource_eq q.resource r ≡ false = rw f.0 g in
          let amount : amount_for qs r ≡ some reserved = ground arith in
          let total : consumed cs r ≡ some before = ground arith in
          let ih = set_consumed-Fits qs cs r n reserved before f.2 amount total h k in
          rw g ((f.0, f.1, ih.0), (refl, omega arith, ih.1))
    ]

-- A total that passes the checks lies between the one before and the reservation.
abbrev Checked : Option ℕ → Option ℕ → ℕ → Outcome ℕ → Type 0
Checked amount before n (value m) =
    (reserved : ℕ) × (b : ℕ) × (amount ≡ some reserved)
    × (before ≡ some b)
    × (n ≡ m)
    × (b ≤ n)
    × (n ≤ reserved)
Checked amount before n (failed e) = Unit {0}
Checked amount before n panicked = ⊥

checked_total-Checked :
    (amount before : Option ℕ) (n : ℕ)
    → Bounded amount before
    → Checked amount before n (checked_total amount before n)
unfolding checked_total
checked_total-Checked none before n b = tt
checked_total-Checked (some reserved) none n b = cc b.1
checked_total-Checked (some reserved) (some before) n b = elim (Bool-cases (ltb n before)) [
  | inl t ↦ rw t tt
  | inr f ↦ elim (Bool-cases (ltb reserved n)) [
    | inl t ↦ rw (f, t) tt
    | inr g ↦ rw (f, g) (reserved, before, refl, refl, refl, ground arith, ground arith)
  ]
]

IsSafe-trans :
    (qs : List QuotaAmount) (bs cs : List QuotaConsumption) (o : Outcome (List QuotaConsumption))
    → Grows bs cs
    → IsSafe qs cs o
    → IsSafe qs bs o
IsSafe-trans qs bs cs (value ds) g s = (s.0, Grows-trans bs cs ds g s.1)
IsSafe-trans qs bs cs (failed e) g s = tt
IsSafe-trans qs bs cs panicked g s = s

-- From a lease that fits, whatever the updates: the loop never panics, and what it returns fits and
-- has grown.
pub apply_updates-IsSafe :
    (qs : List QuotaAmount) (seen : List QuotaResource) (cs us : List QuotaConsumption)
    → Fits qs cs
    → IsSafe qs cs (apply_updates qs seen cs us)
unfolding apply_updates
apply_updates-IsSafe qs seen cs [] f = (f, Grows-refl cs)
apply_updates-IsSafe qs seen cs (u ∷ us) f = elim (Bool-cases (any (resource_eq u.resource) seen)) [
  | inl t ↦ rw (t, apply_updates) tt
  | inr g ↦
      rw (g, apply_updates)
        (go (checked_total (amount_for qs u.resource) (consumed cs u.resource) u.consumed_total)
          (checked_total-Checked _ _ u.consumed_total (Fits-Bounded qs cs u.resource f))
          (λ n. apply_updates-IsSafe qs (u.resource ∷ seen) (set_consumed cs u.resource n) us))
]
  where
    go :
        (o : Outcome ℕ)
        → Checked (amount_for qs u.resource) (consumed cs u.resource) u.consumed_total o
        → ((n : ℕ)
            → Fits qs (set_consumed cs u.resource n)
            → IsSafe qs
                (set_consumed cs u.resource n)
                (apply_updates qs (u.resource ∷ seen) (set_consumed cs u.resource n) us))
        → IsSafe qs cs
            (o >>= λ n. apply_updates qs (u.resource ∷ seen) (set_consumed cs u.resource n) us)
    go (failed e) c ih = tt
    go panicked c ih = c
    go (value m) c ih =
        let low : c.1 ≤ m = omega arith in
        let high : m ≤ c.0 = omega arith in
        let kept = set_consumed-Fits qs cs u.resource m c.0 c.1 f c.2 c.3 high low in
        IsSafe-trans qs cs (set_consumed cs u.resource m) _ kept.1 (ih m kept.0)
