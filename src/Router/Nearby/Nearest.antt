-- ===== src/Router/Nearby/Nearest.antt =====
-- Which level the nearby router gives (src/plugins/router/nearby/nearby.rs).
use native.Mathlib.Decide.{dec_lt}
use pole_client_rust.Common.{
  ℕ, zero, suc, ◌+◌, ◌-◌, ◌≤◌, ◌<◌, ◌≡◌, ◌⊎◌, refl, sym, ap, ◌∙◌, inl, inr, String, Bool, true,
  false, if◌then◌else◌, ltb, Option, none, some, is_empty, Bool-cases, Option-cases, arith,
}
use pole_client_rust.Core.Error.{location_mismatch}
use pole_client_rust.Core.Outcome.{Outcome, value, failed, panicked, ◌>>=◌}
use pole_client_rust.Core.Naming.{Location, ServiceInstances}
use pole_client_rust.Core.Context.{RouteResult}
use pole_client_rust.Router.Nearby.{
  NearbyRouter, match_level_ord, order_match_level, select_instances, should_degrade,
  grater_match_level, degrade_loop, or_mismatch, at_level, min_level, max_level,
  choose_instances_with_location,
}

named_level : (i : ℕ) → i ≤ 4 → (n : String) × (order_match_level i ≡ some n)
named_level zero h = ("unknown", refl)
named_level (suc zero) h = ("campus", refl)
named_level (suc (suc zero)) h = ("zone", refl)
named_level (suc (suc (suc zero))) h = ("region", refl)
named_level (suc (suc (suc (suc zero)))) h = ("all", refl)
named_level (suc (suc (suc (suc (suc i))))) h = absurd (omega (arith, h))

match_level_ord-le : (s : String) (n : ℕ) → match_level_ord s ≡ some n → n ≤ 4
unfolding match_level_ord
match_level_ord-le s n h = ground arith

lt_split : (k i : ℕ) → k < suc i → (k < i) ⊎ (k ≡ i)
lt_split k i h = elim (dec_lt k i) [ yes p ↦ inl p | no p ↦ inr (omega arith) ]

order_split : (k i : ℕ) → (k < i) ⊎ ((k ≡ i) ⊎ (i < k))
order_split k i = elim (dec_lt k i) [
  | yes p ↦ inl p
  | no p ↦ elim (dec_lt i k) [ yes q ↦ inr (inr q) | no q ↦ inr (inl (omega arith)) ]
]

same_name : {m n : String} → some m ≡ some n → m ≡ n
same_name e = cc

module _ (r : NearbyRouter) (local : Location) (given : ServiceInstances) where
  abbrev pub at : String → ServiceInstances
  at level = (select_instances local level given).0

  abbrev pub is_vacant : String → Bool
  is_vacant level = is_empty (at level).instances

  abbrev pub degrades : String → Bool
  degrades level = should_degrade r level (at level) (select_instances local level given).1

  abbrev pub AreVacant : ℕ → ℕ → Type 0
  AreVacant low high =
      (k : ℕ) (n : String) → low ≤ k → k ≤ high → order_match_level k ≡ some n → is_vacant n ≡ true

  -- The instances of a level from the lowest to the highest: it has some, each level below it has none
  -- or too few healthy ones, and either it has enough of those or no level above it has any instance.
  pub record IsNearest (low high : ℕ) (chosen : ServiceInstances) : Type 0 where
    pub level : ℕ
    pub name : String
    pub named : order_match_level level ≡ some name
    pub from : low ≤ level
    pub to : level ≤ high
    pub is : chosen ≡ at name
    pub some_instance : is_vacant name ≡ false
    pub passed :
        (k : ℕ) (n : String)
        → low ≤ k
        → k < level
        → order_match_level k ≡ some n
        → (is_vacant n ≡ true) ⊎ (degrades n ≡ true)
    pub ended : (degrades name ≡ false) ⊎ AreVacant (suc level) high

  record Partial (low i : ℕ) (chosen : ServiceInstances) : Type 0 where
    pub level : ℕ
    pub name : String
    pub named : order_match_level level ≡ some name
    pub from : low ≤ level
    pub below : level < i
    pub is : chosen ≡ at name
    pub some_instance : is_vacant name ≡ false
    pub passed :
        (k : ℕ) (n : String)
        → low ≤ k
        → k < level
        → order_match_level k ≡ some n
        → (is_vacant n ≡ true) ⊎ (degrades n ≡ true)
    pub degraded : degrades name ≡ true
    pub since :
        (k : ℕ) (n : String) → level < k → k < i → order_match_level k ≡ some n → is_vacant n ≡ true

  abbrev Found : ℕ → ℕ → Option ServiceInstances → Type 0
  Found low i none =
      (k : ℕ) (n : String) → low ≤ k → k < i → order_match_level k ≡ some n → is_vacant n ≡ true
  Found low i (some chosen) = Partial low i chosen

  abbrev IsEnd : ℕ → ℕ → Outcome (Option ServiceInstances) → Type 0
  IsEnd low high (value none) = AreVacant low high
  IsEnd low high (value (some chosen)) = IsNearest low high chosen
  IsEnd low high (failed e) = ⊥
  IsEnd low high panicked = ⊥

  Found-IsEnd :
      (low high i : ℕ) (found : Option ServiceInstances)
      → i ≡ suc high
      → Found low i found
      → IsEnd low high (value found)
  Found-IsEnd low high i none e f = λ k n l h q. f k n l (omega (arith, e, h)) q
  Found-IsEnd low high i (some chosen) e f = record {
    level = f.level;
    name = f.name;
    named = f.named;
    from = f.from;
    to = omega (arith, f.below, e);
    is = f.is;
    some_instance = f.some_instance;
    passed = f.passed;
    ended = inr (λ k n l h q. f.since k n l (omega (arith, e, h)) q);
  }

  Found-vacant :
      (low i : ℕ) (name : String) (found : Option ServiceInstances)
      → order_match_level i ≡ some name
      → is_vacant name ≡ true
      → Found low i found
      → Found low (suc i) found
  Found-vacant low i name none q v f =
      λ k n l h e. at_last k n e (lt_split k i h) (λ b. f k n l b e)
    where
      at_last :
          (k : ℕ) (n : String)
          → order_match_level k ≡ some n
          → (k < i) ⊎ (k ≡ i)
          → (k < i → is_vacant n ≡ true)
          → is_vacant n ≡ true
      at_last k n e (inl b) g = g b
      at_last k n e (inr s) g = rw (same_name (sym e ∙ ap order_match_level s ∙ q)) v
  Found-vacant low i name (some chosen) q v f = record {
    level = f.level;
    name = f.name;
    named = f.named;
    from = f.from;
    below = omega (arith, f.below);
    is = f.is;
    some_instance = f.some_instance;
    passed = f.passed;
    degraded = f.degraded;
    since = λ k n l h e. at_last k n e (lt_split k i h) (λ b. f.since k n l b e);
  }
    where
      at_last :
          (k : ℕ) (n : String)
          → order_match_level k ≡ some n
          → (k < i) ⊎ (k ≡ i)
          → (k < i → is_vacant n ≡ true)
          → is_vacant n ≡ true
      at_last k n e (inl b) g = g b
      at_last k n e (inr s) g = rw (same_name (sym e ∙ ap order_match_level s ∙ q)) v

  Found-passed :
      (low i : ℕ) (found : Option ServiceInstances)
      → Found low i found
      → (k : ℕ) (n : String) → low ≤ k
      → k < i
      → order_match_level k ≡ some n
      → (is_vacant n ≡ true) ⊎ (degrades n ≡ true)
  Found-passed low i none f k n l h e = inl (f k n l h e)
  Found-passed low i (some chosen) f k n l h e = elim (order_split k f.level) [
    | inl b ↦ f.passed k n l b e
    | inr (inl s) ↦ inr (rw (same_name (sym e ∙ ap order_match_level s ∙ f.named)) f.degraded)
    | inr (inr a) ↦ inl (f.since k n a h e)
  ]

  -- One round of the loop.
  pub degrade_loop-suc :
      (rounds i : ℕ) (found : Option ServiceInstances) (name : String)
      → order_match_level i ≡ some name
      → degrade_loop r local given (suc rounds) i found ≡ (
          if is_vacant name
          then degrade_loop r local given rounds (suc i) found
          else if degrades name
          then degrade_loop r local given rounds (suc i) (some (at name))
          else value (some (at name)))
  unfolding degrade_loop
  degrade_loop-suc rounds i found name e = rw e

  pub degrade_loop-zero :
      (i : ℕ) (found : Option ServiceInstances) → degrade_loop r local given 0 i found ≡ value found
  unfolding degrade_loop
  degrade_loop-zero i found = refl

  degrade_loop-IsEnd :
      (low high rounds i : ℕ) (found : Option ServiceInstances)
      → Found low i found
      → low ≤ i
      → rounds + i ≡ suc high
      → high ≤ 4
      → IsEnd low high (degrade_loop r local given rounds i found)
  degrade_loop-IsEnd low high zero i found f l e b =
      rw (degrade_loop-zero i found) (Found-IsEnd low high i found (omega (arith, e)) f)
  degrade_loop-IsEnd low high (suc rounds) i found f l e b =
      let (name, named) = named_level i (omega (arith, e, b)) in
      rw (degrade_loop-suc rounds i found name named) (elim (Bool-cases (is_vacant name)) [
        | inl v ↦ rw v (
            degrade_loop-IsEnd low high rounds (suc i) found
              (Found-vacant low i name found named v f) (omega (arith, l)) (omega (arith, e)) b)
        | inr some_here ↦ elim (Bool-cases (degrades name)) [
          | inl d ↦
              rw (some_here, d)
                (degrade_loop-IsEnd low high rounds (suc i) (some (at name))
                  (record {
                    level = i;
                    name = name;
                    named = named;
                    from = l;
                    below = omega arith;
                    is = refl;
                    some_instance = some_here;
                    passed = Found-passed low i found f;
                    degraded = d;
                    since = λ k n a h q. absurd (omega (arith, a, h));
                  })
                  (omega (arith, l)) (omega (arith, e)) b)
          | inr d ↦
              rw (some_here, d)
                (record {
                  level = i;
                  name = name;
                  named = named;
                  from = l;
                  to = omega (arith, e);
                  is = refl;
                  some_instance = some_here;
                  passed = Found-passed low i found f;
                  ended = inl d;
                })
        ]
      ])

  -- The router's answer for the levels from the lowest to the highest.
  abbrev pub IsNearby : ℕ → ℕ → Outcome RouteResult → Type 0
  IsNearby low high (value ret) = IsNearest low high ret.instances
  IsNearby low high (failed e) = (e ≡ location_mismatch) × AreVacant low high
  IsNearby low high panicked = ⊥

  end-IsNearby :
      (low high : ℕ) (o : Outcome (Option ServiceInstances))
      → IsEnd low high o
      → IsNearby low high (o >>= λ found. or_mismatch r local given found)
  end-IsNearby low high (value none) e = (refl, e)
  end-IsNearby low high (value (some chosen)) e = e
  end-IsNearby low high (failed c) e = absurd e
  end-IsNearby low high panicked e = e

  -- The router's answer where both levels are known.
  pub choose-known :
      (low high : ℕ)
      → match_level_ord (min_level r local given) ≡ some low
      → match_level_ord (max_level r local given) ≡ some high
      → choose_instances_with_location r local given ≡ (
          if ltb high low
          then at_level r local given (min_level r local given)
          else degrade_loop r local given (suc high - low) low none >>= λ found.
              or_mismatch r local given found)
  unfolding choose_instances_with_location grater_match_level
  choose-known low high a b = rw (a, b)

  pub choose-unknown :
      (match_level_ord (min_level r local given) ≡ none)
        ⊎ (match_level_ord (max_level r local given) ≡ none)
      → choose_instances_with_location r local given ≡ panicked
  unfolding choose_instances_with_location grater_match_level
  choose-unknown (inl n) = rw n
  choose-unknown (inr n) = elim (Option-cases (match_level_ord (min_level r local given))) [
    | inl m ↦ rw m
    | inr (low, a) ↦ rw (a, n)
  ]

  -- If the levels of the settings are known ones and in order, the router never panics: it gives the
  -- instances of the first level that has some and is not degraded, of the last that has some if all
  -- of those are degraded, and fails exactly if no level has any.
  pub choose_instances_with_location-IsNearby :
      (low high : ℕ)
      → match_level_ord (min_level r local given) ≡ some low
      → match_level_ord (max_level r local given) ≡ some high
      → low ≤ high
      → IsNearby low high (choose_instances_with_location r local given)
  choose_instances_with_location-IsNearby low high a b o =
      let not_above : ltb high low ≡ false = ground arith in
      rw (choose-known low high a b, not_above)
        (end-IsNearby low high (degrade_loop r local given (suc high - low) low none) (
          degrade_loop-IsEnd low high (suc high - low) low none
            (λ k n l h e. absurd (omega (arith, l, h))) (omega arith) (omega (arith, o))
            (match_level_ord-le _ high b)))
