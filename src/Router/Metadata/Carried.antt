-- ===== src/Router/Metadata/Carried.antt =====
-- Which instances the metadata router chooses (src/plugins/router/metadata/metadata.rs).
use pole_client_rust.Common.{
  ℕ, suc, ◌+◌, ◌≤◌, ◌≡◌, refl, ap, inl, inr, String, str_eq, Bool, true, false, not, if◌then◌else◌,
  ◌==◌, ◌&&◌, Option, none, some, List, [], ◌∷◌, all, keep, is_empty, length, Table, lookup,
  Bool-cases, Option-cases, Elem-keep, arith,
}
use pole_client_rust.Core.Error.{Result, ok, err, metadata_mismatch}
use pole_client_rust.Core.Naming.{Instance, ServiceInstances}
use pole_client_rust.Core.Context.{
  RouteContext, RouteResult, MetadataFailoverType, metadata_failover_none, metadata_failover_all,
  metadata_failover_no_key,
}
use pole_client_rust.Core.Outcome.{lift}
use pole_client_rust.Router.Flow.Narrow.{IsNarrowing, IsPart, Narrows}
use pole_client_rust.Router.Metadata.{
  failover_type, match_count, is_matched, has_key, lacks_keys, with_instances, fail_over,
  metadata_choose_instances,
}

abbrev is_value : String → Option String → Bool
is_value val none = false
is_value val (some v) = str_eq v val

-- An instance carries an entry of the request's metadata: it has the key with that value.
abbrev pub carries : Table String → String × String → Bool
carries carried (key, val) = is_value val (lookup key carried)

match_count-le :
    (acc : ℕ) (carried req : Table String) → match_count acc carried req ≤ acc + length req
unfolding match_count
match_count-le acc carried [] = omega arith
match_count-le acc carried ((key, val) ∷ rest) = elim (Option-cases (lookup key carried)) [
  | inl n ↦ rw n (omega (arith, match_count-le acc carried rest))
  | inr (v, s) ↦ elim (Bool-cases (str_eq v val)) [
    | inl t ↦ rw (s, t) (omega (arith, match_count-le (acc + 1) carried rest))
    | inr f ↦ rw (s, f) (omega arith)
  ]
]

match_count-all :
    (acc : ℕ) (carried req : Table String)
    → (match_count acc carried req == acc + length req) ≡ all (carries carried) req
unfolding match_count
match_count-all acc carried [] = ground arith
match_count-all acc carried ((key, val) ∷ rest) = elim (Option-cases (lookup key carried)) [
  | inl n ↦ rw n (ground (arith, match_count-le acc carried rest))
  | inr (v, s) ↦ elim (Bool-cases (str_eq v val)) [
    | inl t ↦ rw (s, t) (shifted (match_count-all (acc + 1) carried rest))
    | inr f ↦ rw (s, f) (not_self acc (length rest))
  ]
]
  where
    shifted :
        (match_count (acc + 1) carried rest == acc + 1 + length rest) ≡ all (carries carried) rest
        → (match_count (acc + 1) carried rest == acc + suc (length rest))
          ≡ (true && all (carries carried) rest)
    shifted h = ground (arith, h)

    not_self : (a n : ℕ) → (a == a + suc n) ≡ false
    not_self a n = ground arith

-- The request has metadata, and the instance carries every entry of it.
abbrev pub is_carrier : Table String → Instance → Bool
is_carrier req i = not (is_empty req) && all (carries i.metadata) req

is_matched-carrier : (req : Table String) (i : Instance) → is_matched req i ≡ is_carrier req i
unfolding is_matched
is_matched-carrier [] i = unfold match_count in refl
is_matched-carrier (e ∷ rest) i =
    let counted = match_count-all 0 i.metadata (e ∷ rest) in ground (arith, counted)

no_key_in_empty : (req : Table String) → has_key false [] req ≡ false
unfolding has_key lookup
no_key_in_empty [] = refl
no_key_in_empty ((key, val) ∷ rest) = no_key_in_empty rest

some_metadata : (carried req : Table String) → has_key true carried req ≡ true
unfolding has_key
some_metadata carried [] = refl
some_metadata carried ((key, val) ∷ rest) = elim (Option-cases (lookup key carried)) [
  | inl n ↦ rw n (some_metadata carried rest)
  | inr (v, s) ↦ rw s
]

lacks_keys-empty : (req : Table String) (i : Instance) → lacks_keys req i ≡ is_empty i.metadata
unfolding lacks_keys
lacks_keys-empty req i = by_metadata i.metadata
  where
    by_metadata : (m : Table String) → not (has_key (not (is_empty m)) m req) ≡ is_empty m
    by_metadata [] = ap not (no_key_in_empty req)
    by_metadata (e ∷ m) = ap not (some_metadata (e ∷ m) req)

keep_same :
    (p q : Instance → Bool) (xs : List Instance)
    → ((i : Instance) → p i ≡ q i)
    → keep p xs ≡ keep q xs
keep_same p q [] h = refl
keep_same p q (i ∷ xs) h = rw (h i) (ap (λ l. if q i then i ∷ l else l) (keep_same p q xs h))

-- What the router is to give when no instance carries the request's metadata.
abbrev pub failed_over : MetadataFailoverType → ServiceInstances → Result RouteResult
failed_over metadata_failover_all given = ok (with_instances given given.instances)
failed_over metadata_failover_no_key given =
    ok (with_instances given (keep (λ i. is_empty i.metadata) given.instances))
failed_over metadata_failover_none given = err metadata_mismatch

fail_over-failed_over :
    (t : MetadataFailoverType) (req : Table String) (given : ServiceInstances)
    → fail_over t req given ≡ failed_over t given
fail_over-failed_over metadata_failover_all req given = refl
fail_over-failed_over metadata_failover_none req given = refl
fail_over-failed_over metadata_failover_no_key req given =
    ap (λ l. ok (with_instances given l))
      (keep_same (lacks_keys req) (λ i. is_empty i.metadata) given.instances (lacks_keys-empty req))

-- The router gives the instances that carry every entry of the request's metadata, if the request has
-- metadata and there are such instances. Otherwise it fails, or gives all instances, or, for `NoKey`,
-- those without any metadata at all: neither the order of the request's metadata nor its keys matter
-- then. The health of instances plays no part, though the router's doc comment says that the healthy
-- ones are preferred.
pub metadata_choose_instances-carriers :
    (ctx : RouteContext) (given : ServiceInstances)
    → metadata_choose_instances ctx given ≡ (
        let carriers = keep (is_carrier ctx.metadata) given.instances in
        if not (is_empty carriers)
        then ok (with_instances given carriers)
        else failed_over (failover_type ctx given) given)
unfolding metadata_choose_instances
metadata_choose_instances-carriers ctx given =
    let same =
      keep_same (is_matched ctx.metadata) (is_carrier ctx.metadata) given.instances
        (is_matched-carrier ctx.metadata) in
    rw (same, fail_over-failed_over (failover_type ctx given) ctx.metadata given)

kept-IsPart :
    (p : Instance → Bool) (given : ServiceInstances)
    → IsPart given (with_instances given (keep p given.instances)).instances
kept-IsPart p given = record {
  weight = refl;
  service = refl;
  members = λ i e. (Elem-keep p i given.instances e).0;
}

-- The metadata router gives some of the instances, with their weight.
pub metadata-IsNarrowing : IsNarrowing (λ ctx given. lift (metadata_choose_instances ctx given))
unfolding metadata_choose_instances
metadata-IsNarrowing ctx given w =
    elim (Bool-cases (is_empty (keep (is_matched ctx.metadata) given.instances))) [
      | inr n ↦ rw n (kept-IsPart (is_matched ctx.metadata) given)
      | inl e ↦ rw e (failed_over_part (failover_type ctx given))
    ]
  where
    failed_over_part :
        (t : MetadataFailoverType) → Narrows given (lift (fail_over t ctx.metadata given))
    failed_over_part metadata_failover_none = tt
    failed_over_part metadata_failover_no_key = kept-IsPart (lacks_keys ctx.metadata) given
    failed_over_part metadata_failover_all = record {
      weight = refl;
      service = refl;
      members = λ i e. e;
    }
