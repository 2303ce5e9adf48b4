-- ===== src/Router/Nearby/Part.antt =====
-- The nearby router gives some of the instances (src/plugins/router/nearby/nearby.rs).
use pole_client_rust.Common.{
  ℕ, zero, suc, ◌-◌, refl, inl, inr, String, ltb, Option, none, some, Elem-keep, if_both,
  Option-cases,
}
use pole_client_rust.Core.Outcome.{Outcome, value, failed, panicked, ◌>>=◌}
use pole_client_rust.Core.Naming.{Location, ServiceInstances}
use pole_client_rust.Router.Flow.Narrow.{IsNarrowing, IsPart, Narrows}
use pole_client_rust.Router.Nearby.{
  NearbyRouter, match_level_ord, order_match_level, is_located, select_instances, degrade_loop,
  or_mismatch, at_level, min_level, max_level, choose_instances_with_location,
}
use pole_client_rust.Router.Nearby.Nearest.{
  at, is_vacant, degrades, degrade_loop-suc, degrade_loop-zero, choose-known, choose-unknown,
}

module _ (r : NearbyRouter) (local : Location) (given : ServiceInstances) where
  at-IsPart : (level : String) → IsPart given (at r local given level)
  unfolding select_instances
  at-IsPart level = record {
    weight = refl;
    service = refl;
    members = λ i e. (Elem-keep (is_located local level) i given.instances e).0;
  }

  abbrev IsFoundPart : Option ServiceInstances → Type 0
  IsFoundPart none = Unit {0}
  IsFoundPart (some chosen) = IsPart given chosen

  abbrev IsLoopPart : Outcome (Option ServiceInstances) → Type 0
  IsLoopPart (value found) = IsFoundPart found
  IsLoopPart (failed e) = Unit {0}
  IsLoopPart panicked = Unit {0}

  degrade_loop-part :
      (rounds i : ℕ) (found : Option ServiceInstances)
      → IsFoundPart found
      → IsLoopPart (degrade_loop r local given rounds i found)
  degrade_loop-part zero i found f = rw (degrade_loop-zero r local given i found) f
  degrade_loop-part (suc rounds) i found f = elim (Option-cases (order_match_level i)) [
    | inl n ↦ unfold degrade_loop in rw n tt
    | inr (name, named) ↦ rw (degrade_loop-suc r local given rounds i found name named) (
        if_both IsLoopPart (is_vacant r local given name) _ _
          (degrade_loop-part rounds (suc i) found f)
          (if_both IsLoopPart (degrades r local given name) _ _
            (degrade_loop-part rounds (suc i) (some (at r local given name)) (at-IsPart name))
            (at-IsPart name)))
  ]

  end_part :
      (o : Outcome (Option ServiceInstances))
      → IsLoopPart o
      → Narrows given (o >>= λ found. or_mismatch r local given found)
  end_part (value none) p = tt
  end_part (value (some chosen)) p = p
  end_part (failed e) p = tt
  end_part panicked p = tt

  at_level-part : (level : String) → Narrows given (at_level r local given level)
  at_level-part level =
      if_both (Narrows given) (is_vacant r local given level) _ _ tt (at-IsPart level)

  choose-part : Narrows given (choose_instances_with_location r local given)
  choose-part = elim (Option-cases (match_level_ord (min_level r local given))) [
    | inl n ↦ rw (choose-unknown r local given (inl n)) tt
    | inr (low, a) ↦ elim (Option-cases (match_level_ord (max_level r local given))) [
      | inl n ↦ rw (choose-unknown r local given (inr n)) tt
      | inr (high, b) ↦ rw (choose-known r local given low high a b) (
          if_both (Narrows given) (ltb high low) _ _ (at_level-part (min_level r local given)) (
            end_part (degrade_loop r local given (suc high - low) low none)
              (degrade_loop-part (suc high - low) low none tt)))
    ]
  ]

-- The nearby router gives some of the instances, with their weight.
pub nearby-IsNarrowing :
    (r : NearbyRouter) (local : Location)
    → IsNarrowing (λ ctx given. choose_instances_with_location r local given)
nearby-IsNarrowing r local ctx given w = choose-part r local given
