-- ===== src/RateLimit/Lease/Finished.antt =====
-- After a lease is finished (src/traffic/ratelimit/api.rs).
use mathlib.Core.Logic.{ite}
use pole_client_rust.Common.{
  ℕ, ◌≡◌, refl, ap, sym, subst, ◌∙◌, Bool, true, false, if◌then◌else◌, List, [], ◌∷◌, Bool-cases,
  inl, inr,
}
use pole_client_rust.Core.Error.{Result, ok, err, invalid_state}
use pole_client_rust.Core.Outcome.{Outcome, value, failed, panicked}
use pole_client_rust.RateLimit.Req.{QuotaResource}
use pole_client_rust.RateLimit.Lease.{
  QuotaConsumption, consumptions_discrete, Backend, QuotaLease, apply_consumption_updates,
  apply_updates, next_sequence, single_resource, Step, answered, send_finish, updated,
  finished_again, finishing, with_resource, update_consumptions, finish_consumptions, update,
  finish, drop_lease,
}
use pole_client_rust.RateLimit.Lease.Retry.{apply_updates_again}
use pole_client_rust.RateLimit.Lease.Protocol.{
  Op, update_all, finish_all, update_one, finish_one, perform, run,
}

module _ {S : Type 0} (backend : Backend S) where
  -- A step that changes neither the lease nor the backend.
  abbrev Stays : QuotaLease → S → Step backend → Type 0
  Stays l s (l', s', o) = (l' ≡ l) × (s' ≡ s)

  updated-finished :
      (b : Bool) (us : List QuotaConsumption) (l : QuotaLease) (s : S)
      → b ≡ true
      → Stays l s
          (updated backend l s (apply_consumption_updates l.reservations l.consumptions us b))
  unfolding apply_consumption_updates
  updated-finished true us l s h = (refl, refl)
  updated-finished false us l s h = cc

  finished_again-Stays :
      (l : QuotaLease) (s : S) (o : Outcome (List QuotaConsumption))
      → Stays l s (finished_again backend l s o)
  finished_again-Stays l s (failed e) = (refl, refl)
  finished_again-Stays l s panicked = (refl, refl)
  finished_again-Stays l s (value next) = choose (consumptions_discrete next l.consumptions)
    where
      choose :
          (d : Dec (next ≡ l.consumptions))
          → Stays l s (ite d (l, s, value tt) (l, s, failed invalid_state))
      choose (yes same) = (refl, refl)
      choose (no changed) = (refl, refl)

  choose_finish :
      (b : Bool) (l : QuotaLease) (s : S) (o : Outcome (List QuotaConsumption))
      → b ≡ true
      → (if b then finished_again backend l s o else finishing backend l s o)
        ≡ finished_again backend l s o
  choose_finish true l s o h = refl
  choose_finish false l s o h = cc

  choose_first :
      (b : Bool) (l : QuotaLease) (s : S) (o : Outcome (List QuotaConsumption))
      → b ≡ false
      → (if b then finished_again backend l s o else finishing backend l s o)
        ≡ finishing backend l s o
  choose_first true l s o h = cc
  choose_first false l s o h = refl

  finish_consumptions-Stays :
      (us : List QuotaConsumption) (l : QuotaLease) (s : S)
      → l.finished ≡ true
      → Stays l s (finish_consumptions backend us l s)
  unfolding finish_consumptions
  finish_consumptions-Stays us l s h =
      let o = apply_consumption_updates l.reservations l.consumptions us false in
      subst (Stays l s) (sym (choose_finish l.finished l s o h)) (finished_again-Stays l s o)

  with_resource-Stays :
      (op : List QuotaConsumption → QuotaLease → S → Step backend) (n : ℕ) (l : QuotaLease) (s : S)
      (o : Outcome QuotaResource)
      → ((us : List QuotaConsumption) → Stays l s (op us l s))
      → Stays l s (with_resource backend op n l s o)
  with_resource-Stays op n l s (value r) h = h _
  with_resource-Stays op n l s (failed e) h = (refl, refl)
  with_resource-Stays op n l s panicked h = (refl, refl)

  update_consumptions-Stays :
      (us : List QuotaConsumption) (l : QuotaLease) (s : S)
      → l.finished ≡ true
      → Stays l s (update_consumptions backend us l s)
  unfolding update_consumptions
  update_consumptions-Stays us l s h = updated-finished l.finished us l s h

  perform-Stays :
      (op : Op) (l : QuotaLease) (s : S) → l.finished ≡ true → Stays l s (perform backend op l s)
  unfolding perform update finish
  perform-Stays (update_all us) l s h = update_consumptions-Stays us l s h
  perform-Stays (finish_all us) l s h = finish_consumptions-Stays us l s h
  perform-Stays (update_one n) l s h =
      with_resource-Stays (update_consumptions backend) n l s (single_resource l.reservations)
        λ us. update_consumptions-Stays us l s h
  perform-Stays (finish_one n) l s h =
      with_resource-Stays (finish_consumptions backend) n l s (single_resource l.reservations)
        λ us. finish_consumptions-Stays us l s h

  -- Once finished, no calls in whatever order change the lease or reach the backend, and neither does
  -- the drop of the lease.
  pub run-finished :
      (ops : List Op) (l : QuotaLease) (s : S)
      → l.finished ≡ true
      → (run backend ops l s ≡ (l, s)) × (drop_lease backend l s ≡ s)
  unfolding run drop_lease
  run-finished [] l s h = (refl, rw h)
  run-finished (op ∷ rest) l s h =
      let same = perform-Stays op l s h in
      let later = run-finished rest l s h in
      (
        ap (λ t. run backend rest t (perform backend op l s).1) same.0
            ∙ ap (run backend rest l) same.1
            ∙ later.0,
        later.1,
      )

  -- What the first finish leaves, if it returns Ok.
  abbrev Repeats : List QuotaConsumption → Step backend → Type 0
  Repeats us (l', s', o) = o ≡ value tt → finish_consumptions backend us l' s' ≡ (l', s', o)

  abbrev unchanged : QuotaLease → S → Step backend
  unchanged l s = (l, s, value tt)

  repeat_at :
      (us : List QuotaConsumption) (l : QuotaLease) (s : S)
      → l.finished ≡ true
      → apply_updates l.reservations [] l.consumptions us ≡ value l.consumptions
      → finish_consumptions backend us l s ≡ unchanged l s
  unfolding finish_consumptions apply_consumption_updates
  repeat_at us l s h e =
      choose_finish l.finished l s (apply_updates l.reservations [] l.consumptions us) h
      ∙ ap (finished_again backend l s) e
      ∙ choose (consumptions_discrete l.consumptions l.consumptions)
    where
      choose :
          (d : Dec (l.consumptions ≡ l.consumptions))
          → ite d (unchanged l s) (l, s, failed invalid_state) ≡ unchanged l s
      choose (yes same) = refl
      choose (no changed) = absurd (changed refl)

  finished_again-Repeats :
      (us : List QuotaConsumption) (l : QuotaLease) (s : S) (o : Outcome (List QuotaConsumption))
      → l.finished ≡ true
      → apply_updates l.reservations [] l.consumptions us ≡ o
      → Repeats us (finished_again backend l s o)
  finished_again-Repeats us l s (failed e) h a = λ p. cc
  finished_again-Repeats us l s panicked h a = λ p. cc
  finished_again-Repeats us l s (value next) h a =
      choose (consumptions_discrete next l.consumptions)
    where
      choose :
          (d : Dec (next ≡ l.consumptions))
          → Repeats us (ite d (unchanged l s) (l, s, failed invalid_state))
      choose (yes same) = λ p. repeat_at us l s h (a ∙ ap value same)
      choose (no changed) = λ p. cc

  finishing-Repeats :
      (us : List QuotaConsumption) (l : QuotaLease) (s : S) (o : Outcome (List QuotaConsumption))
      → apply_updates l.reservations [] l.consumptions us ≡ o
      → Repeats us (finishing backend l s o)
  finishing-Repeats us l s (failed e) a = λ p. cc
  finishing-Repeats us l s panicked a = λ p. cc
  finishing-Repeats us l s (value next) a = sent (next_sequence l.sequence)
    where
      sent : (r : Result ℕ) → Repeats us (send_finish backend l next r s)
      sent (err e) = λ p. cc
      sent (ok n) = told (backend.finish next n s)
        where
          told : (r : S × Result (Unit {0})) → Repeats us (answered backend l next n true r)
          told (s', err e) = λ p. cc
          told (s', ok u) = λ p.
              repeat_at us (record l { consumptions = next; sequence = n; finished = true }) s' refl
                (apply_updates_again l.reservations [] l.consumptions us next a)

  -- A finish that returned Ok can be made again with the same totals: it returns Ok once more, and
  -- changes neither the lease nor the backend.
  pub finish_consumptions_again :
      (us : List QuotaConsumption) (l : QuotaLease) (s : S)
      → (finish_consumptions backend us l s).2 ≡ value tt
      → let first = finish_consumptions backend us l s in
        finish_consumptions backend us first.0 first.1 ≡ first
  unfolding finish_consumptions apply_consumption_updates
  finish_consumptions_again us l s = elim (Bool-cases l.finished) [
    | inl t ↦
        subst (Repeats us)
          (sym (choose_finish l.finished l s (apply_updates l.reservations [] l.consumptions us) t))
          (finished_again-Repeats us l s _ t refl)
    | inr f ↦
        subst (Repeats us)
          (sym (choose_first l.finished l s (apply_updates l.reservations [] l.consumptions us) f))
          (finishing-Repeats us l s _ refl)
  ]
