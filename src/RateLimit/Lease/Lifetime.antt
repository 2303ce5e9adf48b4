-- ===== src/RateLimit/Lease/Lifetime.antt =====
-- A lease from its reservation to its end (src/traffic/ratelimit/api.rs).
use pole_client_rust.Common.{ℕ, ◌≤◌, ◌≡◌, ◌≢◌, refl, subst, ◌∙◌, List, [], ◌∷◌, All, arith, if_both}
use pole_client_rust.Core.Outcome.{value, panicked}
use pole_client_rust.RateLimit.Req.{qps, resource_eq, QuotaAmount}
use pole_client_rust.RateLimit.Req.Valid.{IsPositive}
use pole_client_rust.RateLimit.Lease.{Backend, QuotaLease, new_lease, initial_consumptions}
use pole_client_rust.RateLimit.Lease.Updates.{Fits, Grows, Grows-refl, Grows-trans}
use pole_client_rust.RateLimit.Lease.Protocol.{
  Op, perform, run, logged, countdown, IsGood, perform-IsGood,
}

-- A consumption of 1 for each QPS reservation fits, since no reservation is empty.
initial-Fits : (qs : List QuotaAmount) → All IsPositive qs → Fits qs (initial_consumptions qs)
unfolding initial_consumptions
initial-Fits [] p = tt
initial-Fits (q ∷ qs) p = (
  refl,
  if_both (λ n. n ≤ q.amount) (resource_eq q.resource qps) 1 0 p.0 (omega arith),
  initial-Fits qs p.1,
)

module _ {S : Type 0} (backend : Backend S) where
  run-IsGood :
      (ops : List Op) (l : QuotaLease) (s : List ℕ × S)
      → Fits l.reservations l.consumptions
      → s.0 ≡ countdown l.sequence
      → let done = run (logged backend) ops l s in IsGood l done.0 done.1 (value tt)
  unfolding run
  run-IsGood [] l s f n = record {
    fits = f;
    numbered = n;
    same_reservations = refl;
    grows = Grows-refl l.consumptions;
    returns = λ p. cc;
  }
  run-IsGood (op ∷ rest) l s f n =
      let g = perform-IsGood backend l s f n op in
      let step = perform (logged backend) op l s in
      let h = run-IsGood rest step.0 step.1 g.fits g.numbered in
      record {
        fits = h.fits;
        numbered = h.numbered;
        same_reservations = h.same_reservations ∙ g.same_reservations;
        grows = Grows-trans l.consumptions step.0.consumptions _ g.grows h.grows;
        returns = λ p. cc;
      }

  -- A lease on positive amounts, after any calls and whatever its backend answered: each reserved
  -- resource has one total, at most its reserved amount and at least the one that the lease began
  -- with; the backend accepted calls with the numbers 1, 2, … up to the lease's sequence, each once
  -- and in this order; and the next call does not panic.
  pub run-new_lease :
      (qs : List QuotaAmount) (s : S) (ops : List Op) (op : Op)
      → All IsPositive qs
      → let done = run (logged backend) ops (new_lease qs (initial_consumptions qs)) ([], s) in
        Fits qs done.0.consumptions
        × Grows (initial_consumptions qs) done.0.consumptions
        × (done.1.0 ≡ countdown done.0.sequence)
        × ((perform (logged backend) op done.0 done.1).2 ≢ panicked)
  unfolding new_lease
  run-new_lease qs s ops op p =
      let done = run (logged backend) ops (new_lease qs (initial_consumptions qs)) ([], s) in
      let g =
        run-IsGood ops (new_lease qs (initial_consumptions qs)) ([], s) (initial-Fits qs p) refl in
      let next = perform-IsGood backend done.0 done.1 g.fits g.numbered op in
      (
        subst (λ rs. Fits rs done.0.consumptions) g.same_reservations g.fits,
        g.grows,
        g.numbered,
        next.returns,
      )
