-- ===== src/RateLimit/Lease.antt =====
-- `QuotaLease` (src/traffic/ratelimit/api.rs): the client's side of a reserved quota, over any backend.
-- The lease's lock makes each operation one step. A `Dropped` future is not modelled.
pub mod Updates
pub mod Retry
pub mod Protocol
pub mod Lifetime
pub mod Finished
use native.Mathlib.Decide.{ℕ_discrete}
use mathlib.Core.Logic.{ite}
use pole_client_rust.Common.{
  ℕ, suc, ◌+◌, String, Bool, true, false, if◌then◌else◌, ◌==◌, ltb, Option, none, some, List, [],
  ◌∷◌, any, length, u64_max,
}
use pole_client_rust.Core.Error.{Result, ok, err, ErrorCode, api_invalid_argument, invalid_state}
use pole_client_rust.Core.Outcome.{Outcome, value, failed, panicked, ◌>>=◌, lift}
use pole_client_rust.RateLimit.Req.{
  QuotaResource, qps, token, concurrency, resource_eq, QuotaAmount, amount_for,
}

pub record QuotaConsumption : Type 0 where
  pub resource : QuotaResource
  pub consumed_total : ℕ

-- `next == state.consumptions`
pub QuotaResource-discrete : Discrete QuotaResource
QuotaResource-discrete = hlevel

unfoldable pub consumptions_discrete : Discrete (List QuotaConsumption)
consumptions_discrete = hlevel (ℕ_discrete, QuotaResource-discrete)

-- `QuotaLeaseBackend`: what a backend does to its own state `S`.
pub record Backend (S : Type 0) : Type 0 where
  pub update : List QuotaConsumption → ℕ → S → S × Result (Unit {0})
  pub finish : List QuotaConsumption → ℕ → S → S × Result (Unit {0})
  pub abandon : List QuotaConsumption → ℕ → S → S

pub record QuotaLease : Type 0 where
  pub reservations : List QuotaAmount
  pub consumptions : List QuotaConsumption
  pub sequence : ℕ
  pub finished : Bool

unfoldable pub new_lease : List QuotaAmount → List QuotaConsumption → QuotaLease
new_lease reservations consumptions = record {
  reservations = reservations;
  consumptions = consumptions;
  sequence = 0;
  finished = false;
}

-- `initial_consumptions` of src/traffic/ratelimit/default.rs
unfoldable pub initial_consumptions : List QuotaAmount → List QuotaConsumption
initial_consumptions [] = []
initial_consumptions (q ∷ rest) =
    record { resource = q.resource; consumed_total = if resource_eq q.resource qps then 1 else 0 }
    ∷ initial_consumptions rest

-- `iter().find(…)` on a consumption's resource.
unfoldable pub consumed : List QuotaConsumption → QuotaResource → Option ℕ
consumed [] r = none
consumed (c ∷ rest) r = if resource_eq c.resource r then some c.consumed_total else consumed rest r

-- A write through `iter_mut().find(…)`: the first consumption of the resource.
unfoldable pub set_consumed : List QuotaConsumption → QuotaResource → ℕ → List QuotaConsumption
set_consumed [] r n = []
set_consumed (c ∷ rest) r n =
    if resource_eq c.resource r
    then record c { consumed_total = n } ∷ rest
    else c ∷ set_consumed rest r n

-- The checks of one update against what is reserved and what is consumed so far.
unfoldable pub checked_total : Option ℕ → Option ℕ → ℕ → Outcome ℕ
checked_total none before n = failed api_invalid_argument
checked_total (some reserved) none n = panicked
checked_total (some reserved) (some before) n =
    if ltb n before
    then failed api_invalid_argument
    else if ltb reserved n
    then failed api_invalid_argument
    else value n

-- The loop of `apply_consumption_updates`, with the resources seen so far.
unfoldable pub apply_updates :
    List QuotaAmount
    → List QuotaResource
    → List QuotaConsumption
    → List QuotaConsumption
    → Outcome (List QuotaConsumption)
unfolding checked_total consumed amount_for set_consumed
apply_updates reservations seen next [] = value next
apply_updates reservations seen next (u ∷ rest) = elim (any (resource_eq u.resource) seen) [
  | true ↦ failed api_invalid_argument
  | false ↦
      checked_total (amount_for reservations u.resource) (consumed next u.resource) u.consumed_total
      >>= λ n. apply_updates reservations (u.resource ∷ seen) (set_consumed next u.resource n) rest
]

unfoldable pub apply_consumption_updates :
    List QuotaAmount
    → List QuotaConsumption
    → List QuotaConsumption
    → Bool
    → Outcome (List QuotaConsumption)
unfolding apply_updates
apply_consumption_updates reservations current updates finished =
    if finished then failed invalid_state else apply_updates reservations [] current updates

unfoldable pub next_sequence : ℕ → Result ℕ
next_sequence n = if n == u64_max then err invalid_state else ok (n + 1)

unfoldable pub single_resource : List QuotaAmount → Outcome QuotaResource
single_resource [] = failed api_invalid_argument
single_resource (q ∷ []) = value q.resource
single_resource (q ∷ r ∷ rest) = failed api_invalid_argument

module _ {S : Type 0} (backend : Backend S) where
  abbrev pub Step : Type 0
  Step = QuotaLease × S × Outcome (Unit {0})

  -- The lines after the backend's answer: only success moves the lease.
  abbrev answered : QuotaLease → List QuotaConsumption → ℕ → Bool → S × Result (Unit {0}) → Step
  answered l next n done (s, err e) = (l, s, failed e)
  answered l next n done (s, ok u) =
      (record l { consumptions = next; sequence = n; finished = done }, s, value tt)

  abbrev send_update : QuotaLease → List QuotaConsumption → Result ℕ → S → Step
  send_update l next (err e) s = (l, s, failed e)
  send_update l next (ok n) s = answered l next n l.finished (backend.update next n s)

  abbrev send_finish : QuotaLease → List QuotaConsumption → Result ℕ → S → Step
  send_finish l next (err e) s = (l, s, failed e)
  send_finish l next (ok n) s = answered l next n true (backend.finish next n s)

  abbrev updated : QuotaLease → S → Outcome (List QuotaConsumption) → Step
  updated l s (failed e) = (l, s, failed e)
  updated l s panicked = (l, s, panicked)
  updated l s (value next) =
      ite (consumptions_discrete next l.consumptions) (l, s, value tt)
        (send_update l next (next_sequence l.sequence) s)

  unfoldable pub update_consumptions : List QuotaConsumption → QuotaLease → S → Step
  unfolding apply_consumption_updates next_sequence
  update_consumptions updates l s =
      updated l s (apply_consumption_updates l.reservations l.consumptions updates l.finished)

  -- A finished lease accepts a finish that changes nothing.
  abbrev finished_again : QuotaLease → S → Outcome (List QuotaConsumption) → Step
  finished_again l s (failed e) = (l, s, failed e)
  finished_again l s panicked = (l, s, panicked)
  finished_again l s (value next) =
      ite (consumptions_discrete next l.consumptions) (l, s, value tt) (l, s, failed invalid_state)

  abbrev finishing : QuotaLease → S → Outcome (List QuotaConsumption) → Step
  finishing l s (failed e) = (l, s, failed e)
  finishing l s panicked = (l, s, panicked)
  finishing l s (value next) = send_finish l next (next_sequence l.sequence) s

  unfoldable pub finish_consumptions : List QuotaConsumption → QuotaLease → S → Step
  unfolding apply_consumption_updates next_sequence
  finish_consumptions updates l s =
      let next = apply_consumption_updates l.reservations l.consumptions updates false in
      if l.finished then finished_again l s next else finishing l s next

  abbrev with_resource :
      (List QuotaConsumption → QuotaLease → S → Step)
      → ℕ
      → QuotaLease
      → S
      → Outcome QuotaResource
      → Step
  with_resource op n l s (value r) = op (record { resource = r; consumed_total = n } ∷ []) l s
  with_resource op n l s (failed e) = (l, s, failed e)
  with_resource op n l s panicked = (l, s, panicked)

  unfoldable pub update : ℕ → QuotaLease → S → Step
  unfolding single_resource update_consumptions
  update n l s = with_resource update_consumptions n l s (single_resource l.reservations)

  unfoldable pub finish : ℕ → QuotaLease → S → Step
  unfolding single_resource finish_consumptions
  finish n l s = with_resource finish_consumptions n l s (single_resource l.reservations)

  abbrev abandon_at : QuotaLease → Result ℕ → S → S
  abandon_at l (err e) s = s
  abandon_at l (ok n) s = backend.abandon l.consumptions n s

  -- `Drop for QuotaLease`: nobody else holds the lock of a value that is dropped.
  unfoldable pub drop_lease : QuotaLease → S → S
  unfolding next_sequence
  drop_lease l s = if l.finished then s else abandon_at l (next_sequence l.sequence) s
