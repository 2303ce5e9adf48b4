-- ===== src/RateLimit/Lease/Protocol.antt =====
-- A lease over its whole life, with any backend (src/traffic/ratelimit/api.rs).
use mathlib.Core.Logic.{ite}
use native.Mathlib.Numerals.{add-one}
use pole_client_rust.Common.{
  ℕ, zero, suc, ◌+◌, ◌≡◌, ◌≢◌, refl, Bool, true, false, List, [], ◌∷◌, arith, if_both,
}
use pole_client_rust.Core.Error.{Result, ok, err, invalid_state}
use pole_client_rust.Core.Outcome.{Outcome, value, failed, panicked}
use pole_client_rust.RateLimit.Req.{QuotaResource, QuotaAmount}
use pole_client_rust.RateLimit.Lease.{
  QuotaConsumption, consumptions_discrete, Backend, QuotaLease, apply_consumption_updates,
  next_sequence, single_resource, Step, answered, send_update, send_finish, updated, finished_again,
  finishing, with_resource, update_consumptions, finish_consumptions, update, finish,
}
use pole_client_rust.RateLimit.Lease.Updates.{Fits, Grows, IsSafe, Grows-refl, apply_updates-IsSafe}

-- A call on a lease.
pub data Op : Type 0 where
  update_all finish_all : List QuotaConsumption → Op
  update_one finish_one : ℕ → Op

module _ {S : Type 0} (backend : Backend S) where
  unfoldable pub perform : Op → QuotaLease → S → Step backend
  perform (update_all us) l s = update_consumptions backend us l s
  perform (finish_all us) l s = finish_consumptions backend us l s
  perform (update_one n) l s = update backend n l s
  perform (finish_one n) l s = finish backend n l s

  -- Calls in a row, whatever they answer.
  unfoldable pub run : List Op → QuotaLease → S → QuotaLease × S
  run [] l s = (l, s)
  run (op ∷ rest) l s = let step = perform op l s in run rest step.0 step.1

-- n, n - 1, …, 1
abbrev pub countdown : ℕ → List ℕ
countdown zero = []
countdown (suc n) = suc n ∷ countdown n

countdown_next : (n : ℕ) → (n + 1) ∷ countdown n ≡ countdown (n + 1)
countdown_next n = rw add-one

module _ {S : Type 0} where
  -- The backend with a log of the sequence numbers of the calls that it accepted, the last one first.
  abbrev pub note : ℕ → List ℕ → S × Result (Unit {0}) → (List ℕ × S) × Result (Unit {0})
  note n log (s, ok u) = ((n ∷ log, s), ok u)
  note n log (s, err e) = ((log, s), err e)

  abbrev pub logged : Backend S → Backend (List ℕ × S)
  logged backend = record {
    update = λ cs n s. note n s.0 (backend.update cs n s.1);
    finish = λ cs n s. note n s.0 (backend.finish cs n s.1);
    abandon = λ cs n s. (s.0, backend.abandon cs n s.1);
  }

  -- A step that leaves lease and log consistent, keeps the reservations, lets no total fall, and
  -- does not panic.
  pub record IsGood (l : QuotaLease) (l' : QuotaLease) (s' : List ℕ × S) (o : Outcome (Unit {0}))
      : Type 0 where
    pub fits : Fits l'.reservations l'.consumptions
    pub numbered : s'.0 ≡ countdown l'.sequence
    pub same_reservations : l'.reservations ≡ l.reservations
    pub grows : Grows l.consumptions l'.consumptions
    pub returns : o ≢ panicked

  abbrev pub IsGoodStep : QuotaLease → QuotaLease × (List ℕ × S) × Outcome (Unit {0}) → Type 0
  IsGoodStep l (l', s', o) = IsGood l l' s' o

module _ {S : Type 0} (backend : Backend S) (l : QuotaLease) (s : List ℕ × S)
    (fits : Fits l.reservations l.consumptions) (numbered : s.0 ≡ countdown l.sequence) where
  stays : (o : Outcome (Unit {0})) → o ≢ panicked → IsGood l l s o
  stays o h = record {
    fits = fits;
    numbered = numbered;
    same_reservations = refl;
    grows = Grows-refl l.consumptions;
    returns = h;
  }

  answered-IsGood :
      (next : List QuotaConsumption) (n : ℕ) (done : Bool) (r : S × Result (Unit {0}))
      → Fits l.reservations next
      → Grows l.consumptions next
      → n ≡ l.sequence + 1
      → IsGoodStep l (answered (logged backend) l next n done (note n s.0 r))
  answered-IsGood next n done (s', err e) f g h = record {
    fits = fits;
    numbered = numbered;
    same_reservations = refl;
    grows = Grows-refl l.consumptions;
    returns = λ p. cc;
  }
  answered-IsGood next n done (s', ok u) f g h = record {
    fits = f;
    numbered = rw (h, numbered) (countdown_next l.sequence);
    same_reservations = refl;
    grows = g;
    returns = λ p. cc;
  }

  next_sequence-ok : (m n : ℕ) → next_sequence m ≡ ok n → n ≡ m + 1
  unfolding next_sequence
  next_sequence-ok m n h = ground arith

  send_update-IsGood :
      (next : List QuotaConsumption) (r : Result ℕ)
      → next_sequence l.sequence ≡ r
      → Fits l.reservations next
      → Grows l.consumptions next
      → IsGoodStep l (send_update (logged backend) l next r s)
  send_update-IsGood next (err e) h f g = stays (failed e) (λ p. cc)
  send_update-IsGood next (ok n) h f g =
      answered-IsGood next n l.finished (backend.update next n s.1) f g
        (next_sequence-ok l.sequence n h)

  send_finish-IsGood :
      (next : List QuotaConsumption) (r : Result ℕ)
      → next_sequence l.sequence ≡ r
      → Fits l.reservations next
      → Grows l.consumptions next
      → IsGoodStep l (send_finish (logged backend) l next r s)
  send_finish-IsGood next (err e) h f g = stays (failed e) (λ p. cc)
  send_finish-IsGood next (ok n) h f g =
      answered-IsGood next n true (backend.finish next n s.1) f g (next_sequence-ok l.sequence n h)

  updated-IsGood :
      (o : Outcome (List QuotaConsumption))
      → IsSafe l.reservations l.consumptions o
      → IsGoodStep l (updated (logged backend) l s o)
  updated-IsGood (failed e) safe = stays (failed e) (λ p. cc)
  updated-IsGood panicked safe = absurd safe
  updated-IsGood (value next) safe = choose (consumptions_discrete next l.consumptions)
    where
      choose :
          (d : Dec (next ≡ l.consumptions))
          → IsGoodStep l (
              ite d
                (l, s, value tt)
                (send_update (logged backend) l next (next_sequence l.sequence) s))
      choose (yes same) = stays (value tt) (λ p. cc)
      choose (no changed) = send_update-IsGood next (next_sequence l.sequence) refl safe.0 safe.1

  finished_again-IsGood :
      (o : Outcome (List QuotaConsumption))
      → IsSafe l.reservations l.consumptions o
      → IsGoodStep l (finished_again (logged backend) l s o)
  finished_again-IsGood (failed e) safe = stays (failed e) (λ p. cc)
  finished_again-IsGood panicked safe = absurd safe
  finished_again-IsGood (value next) safe = choose (consumptions_discrete next l.consumptions)
    where
      choose :
          (d : Dec (next ≡ l.consumptions))
          → IsGoodStep l (ite d (l, s, value tt) (l, s, failed invalid_state))
      choose (yes same) = stays (value tt) (λ p. cc)
      choose (no changed) = stays (failed invalid_state) (λ p. cc)

  finishing-IsGood :
      (o : Outcome (List QuotaConsumption))
      → IsSafe l.reservations l.consumptions o
      → IsGoodStep l (finishing (logged backend) l s o)
  finishing-IsGood (failed e) safe = stays (failed e) (λ p. cc)
  finishing-IsGood panicked safe = absurd safe
  finishing-IsGood (value next) safe =
      send_finish-IsGood next (next_sequence l.sequence) refl safe.0 safe.1

  apply-IsSafe :
      (us : List QuotaConsumption) (finished : Bool)
      → IsSafe l.reservations l.consumptions
          (apply_consumption_updates l.reservations l.consumptions us finished)
  unfolding apply_consumption_updates
  apply-IsSafe us true = tt
  apply-IsSafe us false = apply_updates-IsSafe l.reservations [] l.consumptions us fits

  update_consumptions-IsGood :
      (us : List QuotaConsumption) → IsGoodStep l (update_consumptions (logged backend) us l s)
  unfolding update_consumptions
  update_consumptions-IsGood us = updated-IsGood _ (apply-IsSafe us l.finished)

  finish_consumptions-IsGood :
      (us : List QuotaConsumption) → IsGoodStep l (finish_consumptions (logged backend) us l s)
  unfolding finish_consumptions
  finish_consumptions-IsGood us =
      if_both (IsGoodStep l) l.finished _ _ (finished_again-IsGood _ (apply-IsSafe us false))
        (finishing-IsGood _ (apply-IsSafe us false))

  with_resource-IsGood :
      (op : List QuotaConsumption → QuotaLease → List ℕ × S → Step (logged backend)) (n : ℕ)
      (o : Outcome QuotaResource)
      → ((us : List QuotaConsumption) → IsGoodStep l (op us l s))
      → o ≢ panicked
      → IsGoodStep l (with_resource (logged backend) op n l s o)
  with_resource-IsGood op n (value r) good h = good _
  with_resource-IsGood op n (failed e) good h = stays (failed e) (λ p. cc)
  with_resource-IsGood op n panicked good h = absurd (h refl)

  single_resource-returns : (qs : List QuotaAmount) → single_resource qs ≢ panicked
  unfolding single_resource
  single_resource-returns [] e = cc
  single_resource-returns (q ∷ []) e = cc
  single_resource-returns (q ∷ r ∷ rest) e = cc

  pub perform-IsGood : (op : Op) → IsGoodStep l (perform (logged backend) op l s)
  unfolding perform update finish
  perform-IsGood (update_all us) = update_consumptions-IsGood us
  perform-IsGood (finish_all us) = finish_consumptions-IsGood us
  perform-IsGood (update_one n) =
      with_resource-IsGood (update_consumptions (logged backend)) n _ update_consumptions-IsGood
        (single_resource-returns l.reservations)
  perform-IsGood (finish_one n) =
      with_resource-IsGood (finish_consumptions (logged backend)) n _ finish_consumptions-IsGood
        (single_resource-returns l.reservations)
