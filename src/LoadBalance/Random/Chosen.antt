-- ===== src/LoadBalance/Random/Chosen.antt =====
-- Which instance the weighted random choice takes (src/plugins/loadbalance/random/random.rs).
use pole_client_rust.Common.{
  ℕ, ◌+◌, ◌-◌, ◌%◌, ◌≤◌, ◌<◌, ◌≡◌, refl, ap, sym, ◌∙◌, subst, true, false, if◌then◌else◌, ◌==◌, leb,
  ltb, ◌&&◌, some, List, [], ◌∷◌, ◌++◌, Bool-cases, ltb→lt, inl, inr, arith, u64_mod,
}
use native.Mathlib.Nat.{mod-lt}
use pole_client_rust.Core.Outcome.{value}
use pole_client_rust.Core.Naming.{
  Instance, ServiceInfo, ServiceInstances, add_weights, new_instances,
}
use pole_client_rust.LoadBalance.Random.{pick, choose_random}

-- The weights, added up without a bound.
abbrev pub weights : List Instance → ℕ
weights [] = 0
weights (i ∷ rest) = i.weight + weights rest

-- The instance in whose share of the weights, laid end to end, the number lies.
pub record Share (xs : List Instance) (r : ℕ) (i : Instance) : Type 0 where
  pub before : List Instance
  pub after : List Instance
  pub split : xs ≡ before ++ (i ∷ after)
  pub from : weights before ≤ r
  pub to : r < weights before + i.weight

add_weights-weights :
    (acc : ℕ) (xs : List Instance)
    → acc + weights xs < u64_mod
    → add_weights acc xs ≡ acc + weights xs
unfolding add_weights
add_weights-weights acc [] h = omega arith
add_weights-weights acc (i ∷ xs) h =
    let exact : (acc + i.weight) % u64_mod ≡ acc + i.weight = omega (arith, h) in
    rw exact (add_weights-weights (acc + i.weight) xs (omega (arith, h)) ∙ omega arith)

next-Share :
    (r w : ℕ) (x i : Instance) (xs : List Instance)
    → x.weight ≤ r
    → Share xs (r - x.weight) i
    → Share (x ∷ xs) r i
next-Share r w x i xs h s = record {
  before = x ∷ s.before;
  after = s.after;
  split = ap (λ ys. x ∷ ys) s.split;
  from = omega (arith, h, s.from);
  to = omega (arith, h, s.to);
}

-- One turn of the loop, where the sum of the weights does not overflow.
pick_turn :
    (r left right : ℕ) (x : Instance) (xs : List Instance)
    → (left + x.weight) % u64_mod ≡ right
    → pick r left (x ∷ xs) ≡ (if leb left r && ltb r right then some x else pick r right xs)
unfolding pick
pick_turn r left right x xs e = ap (λ k. if leb left r && ltb r k then some x else pick r k xs) e

pick-Share :
    (r left : ℕ) (xs : List Instance)
    → left ≤ r
    → r < left + weights xs
    → left + weights xs < u64_mod
    → (i : Instance) × (pick r left xs ≡ some i) × Share xs (r - left) i
pick-Share r left [] l u b = absurd (omega (arith, l, u))
pick-Share r left (x ∷ xs) l u b =
    let exact : (left + x.weight) % u64_mod ≡ left + x.weight = omega (arith, b) in
    let turn = pick_turn r left (left + x.weight) x xs exact in
    let low : leb left r ≡ true = ground (arith, l) in
    elim (Bool-cases (ltb r (left + x.weight))) [
      | inl t ↦ (
        x,
        turn ∙ rw (low, t) refl,
        record {
          before = [];
          after = xs;
          split = refl;
          from = omega arith;
          to = omega (arith, ltb→lt r (left + x.weight) t, l);
        },
      )
      | inr f ↦
          let past : left + x.weight ≤ r = ground (arith, f) in
          let (i, found, share) =
            pick-Share r (left + x.weight) xs past (omega (arith, u)) (omega (arith, b)) in
          let shift : r - (left + x.weight) ≡ r - left - x.weight = omega (arith, past) in
          (
            i,
            turn ∙ rw (low, f) found,
            next-Share (r - left) x.weight x i xs (omega (arith, past))
                (subst (λ k. Share xs k i) shift share),
          )
    ]

choose_found :
    (random : ℕ) (s : ServiceInstances) (i : Instance)
    → (s.total_weight == 0) ≡ false
    → pick (random % s.total_weight) 0 s.instances ≡ some i
    → choose_random random s ≡ value i
unfolding choose_random
choose_found random s i positive found = rw (positive, found) refl

-- Of the instances that `new` was given, of positive total weight below 2^64, the one is chosen in
-- whose share of the weights the random number, modulo the total, lies; in particular the call does
-- not fail.
pub choose_random-Share :
    (random : ℕ) (svc : ServiceInfo) (xs : List Instance)
    → 0 < weights xs
    → weights xs < u64_mod
    → (i : Instance) × (choose_random random (new_instances svc xs) ≡ value i)
      × Share xs (random % weights xs) i
unfolding new_instances
choose_random-Share random svc xs p b =
    let total : add_weights 0 xs ≡ weights xs =
      add_weights-weights 0 xs (omega (arith, b)) ∙ omega arith in
    let positive : (weights xs == 0) ≡ false = ground (arith, p) in
    let below : random % weights xs < weights xs = mod-lt random p in
    let (i, found, share) =
      pick-Share (random % weights xs) 0 xs (omega arith) (omega (arith, below))
        (omega (arith, b)) in
    (
      i,
      choose_found random (new_instances svc xs) i
          (subst (λ t. (t == 0) ≡ false) (sym total) positive)
          (subst (λ t. pick (random % t) 0 xs ≡ some i) (sym total) found),
      subst (λ k. Share xs k i) (omega arith) share,
    )
