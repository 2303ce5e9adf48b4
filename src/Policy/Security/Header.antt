-- ===== src/Policy/Security/Header.antt =====
-- The digest of a header (`custom_header_authenticated` of src/traffic/policy/default.rs).
use Prim.Native.Nat.{bit_or, bit_xor}
use Prim.Native.String.{len}
use pole_client_rust.Common.{
  ℕ, zero, suc, ◌≡◌, ◌↔◌, refl, sym, ap, ◌∙◌, ◌<◌, inl, inr, String, str_eq, str_eq_iff, Bool, true,
  false, not, ◌&&◌, ◌||◌, ◌==◌, ==_iff, ltb, ltb→lt, &&_split, Bool-cases, Option, none, some, List,
  [], ◌∷◌, length, All, arith,
}
use pole_client_rust.Core.Traffic.{header}
use pole_client_rust.Core.Context.{RouteContext}
use pole_client_rust.Policy.{CustomHeaderAuthentication}
use pole_client_rust.Policy.Security.{difference, same_digest, custom_header_authenticated}

all_below : ℕ → (ℕ → Bool) → Bool
all_below zero p = true
all_below (suc n) p = p n && all_below n p

all_below-at : (n : ℕ) (p : ℕ → Bool) (x : ℕ) → all_below n p ≡ true → x < n → p x ≡ true
unfolding all_below
all_below-at zero p x h lt = absurd (omega arith)
all_below-at (suc n) p x h lt = ground (arith, all_below-at n p x)

abbrev same_test : Bool → Bool → Bool
same_test true b = b
same_test false true = false
same_test false false = true

bytes_differ :
    all_below 256 (λ a. all_below 256 (λ b. same_test (bit_xor a b == 0) (a == b))) ≡ true
unfolding all_below
bytes_differ = refl

bytes_joined :
    all_below 256 (λ a. all_below 256 (λ b. same_test (bit_or a b == 0) (a == 0 && b == 0))) ≡ true
unfolding all_below
bytes_joined = refl

bytes_in_range :
    all_below 256 (λ a. all_below 256 (λ b. ltb (bit_xor a b) 256 && ltb (bit_or a b) 256)) ≡ true
unfolding all_below
bytes_in_range = refl

at_bytes :
    (p : ℕ → ℕ → Bool) (a b : ℕ)
    → all_below 256 (λ x. all_below 256 (p x)) ≡ true
    → a < 256
    → b < 256
    → p a b ≡ true
at_bytes p a b h la lb =
    all_below-at 256 (p a) b (all_below-at 256 (λ x. all_below 256 (p x)) a h la) lb

same_test-eq : (a b : Bool) → same_test a b ≡ true → a ≡ b
same_test-eq a b h = ground arith

xor_zero : (a b : ℕ) → a < 256 → b < 256 → (bit_xor a b == 0) ≡ (a == b)
xor_zero a b h k =
    same_test-eq (bit_xor a b == 0) (a == b)
      (at_bytes (λ x y. same_test (bit_xor x y == 0) (x == y)) a b bytes_differ h k)

or_zero : (a b : ℕ) → a < 256 → b < 256 → (bit_or a b == 0) ≡ (a == 0 && b == 0)
or_zero a b h k =
    same_test-eq (bit_or a b == 0) (a == 0 && b == 0)
      (at_bytes (λ x y. same_test (bit_or x y == 0) (x == 0 && y == 0)) a b bytes_joined h k)

byte_range : (a b : ℕ) → a < 256 → b < 256 → (bit_xor a b < 256) × (bit_or a b < 256)
byte_range a b h k =
    let both =
      at_bytes (λ x y. ltb (bit_xor x y) 256 && ltb (bit_or x y) 256) a b bytes_in_range h k in
    let (x, o) = &&_split (ltb (bit_xor a b) 256) (ltb (bit_or a b) 256) both in
    (ltb→lt (bit_xor a b) 256 x, ltb→lt (bit_or a b) 256 o)

-- The fold is zero exactly when nothing differed before and the digests are the same.
difference-zero :
    (acc : ℕ) (actual expected : List ℕ)
    → acc < 256
    → All (λ x. x < 256) actual
    → All (λ x. x < 256) expected
    → length actual ≡ length expected
    → (difference acc actual expected ≡ 0) ↔ ((acc ≡ 0) × (actual ≡ expected))
unfolding difference
difference-zero acc [] [] l ba be n = (λ h. (h, refl), λ h. h.0)
difference-zero acc [] (e ∷ es) l ba be n = absurd (omega (arith, n))
difference-zero acc (a ∷ xs) [] l ba be n = absurd (omega (arith, n))
difference-zero acc (a ∷ xs) (e ∷ es) l ba be n =
    let range = (byte_range a e ba.0 be.0).0 in
    let ih =
      difference-zero (bit_or acc (bit_xor a e)) xs es (byte_range acc (bit_xor a e) l range).1 ba.1
        be.1 (omega (arith, n)) in
    (
      λ h. joined (ih.0 h),
      λ h. ih.1 (
        ground (arith, h.0, or_zero acc (bit_xor a e) l range, xor_zero a e ba.0 be.0, heads h.1),
        tails h.1,
      ),
    )
  where
    heads : a ∷ xs ≡ e ∷ es → a ≡ e
    heads p = cc

    tails : a ∷ xs ≡ e ∷ es → xs ≡ es
    tails p = cc

    joined : (bit_or acc (bit_xor a e) ≡ 0) × (xs ≡ es) → (acc ≡ 0) × (a ∷ xs ≡ e ∷ es)
    joined (z, t) =
        let range = (byte_range a e ba.0 be.0).0 in
        let none_before : acc ≡ 0 = ground (arith, or_zero acc (bit_xor a e) l range, z) in
        let same : a ≡ e =
          ground (arith, or_zero acc (bit_xor a e) l range, xor_zero a e ba.0 be.0, z) in
        (none_before, cc (same, t))

in_order :
    (plain blank size : Bool)
    → (not plain || blank || not size) ≡ false
    → (plain ≡ true) × (blank ≡ false) × (size ≡ true)
in_order plain blank size h = (ground arith, ground arith, ground arith)

-- What `sha256` and `hex::decode` give: 32 bytes, and bytes.
module _ (is_blank : String → Bool) (decode_hex : String → Option (List ℕ))
    (sha256 : String → List ℕ)
    (digest-IsDigest : (s : String) → (length (sha256 s) ≡ 32) × All (λ x. x < 256) (sha256 s))
    (decoded-bytes : (s : String) (bs : List ℕ)
      → decode_hex s ≡ some bs
      → All (λ x. x < 256) bs) where
  -- The request shows the secret: the settings are in order, and the header has a value whose digest is
  -- the one that the settings hold.
  pub record Shows (ctx : RouteContext) (custom : CustomHeaderAuthentication) : Type 0 where
    pub no_plain_value : custom.value ≡ ""
    pub named : is_blank custom.header_name ≡ false
    pub size : len custom.value_sha256 ≡ 64
    pub actual : String
    pub given : ctx.traffic_label_provider header custom.header_name ≡ some actual
    pub digest : decode_hex custom.value_sha256 ≡ some (sha256 actual)

  digest_shown :
      (actual : Option String) (expected : Option (List ℕ))
      → ((bs : List ℕ) → expected ≡ some bs → All (λ x. x < 256) bs)
      → same_digest is_blank decode_hex sha256 actual expected ≡ true
      → (a : String) × (actual ≡ some a) × (expected ≡ some (sha256 a))
  unfolding difference
  digest_shown none expected b h = cc
  digest_shown (some a) none b h = cc
  digest_shown (some a) (some bs) b h = elim (Bool-cases (length bs == 32)) [
    | inr f ↦ cc (rw f at h)
    | inl t ↦
        let known = digest-IsDigest a in
        let zero_difference : difference 0 (sha256 a) bs ≡ 0 =
          (==_iff (difference 0 (sha256 a) bs) 0).0 (rw t at h) in
        let same =
          ((difference-zero 0 (sha256 a) bs (omega arith) known.1 (b bs refl)
              (known.0 ∙ sym ((==_iff (length bs) 32).0 t))).0
            zero_difference).1 in
        (a, refl, ap some (sym same))
  ]

  shown_digest :
      (a : String) → same_digest is_blank decode_hex sha256 (some a) (some (sha256 a)) ≡ true
  shown_digest a =
      let known = digest-IsDigest a in
      let equal =
        (difference-zero 0 (sha256 a) (sha256 a) (omega arith) known.1 known.1 refl).1
          (refl, refl) in
      rw ((==_iff (length (sha256 a)) 32).1 known.0)
        ((==_iff (difference 0 (sha256 a) (sha256 a)) 0).1 equal)

  -- The comparison in constant time accepts exactly the requests that show the secret, if `Sha256`
  -- gives 32 bytes and `hex::decode` gives bytes.
  pub custom_header_authenticated-Shows :
      (ctx : RouteContext) (custom : CustomHeaderAuthentication)
      → (custom_header_authenticated is_blank decode_hex sha256 ctx custom ≡ true)
        ↔ Shows ctx custom
  unfolding custom_header_authenticated
  custom_header_authenticated-Shows ctx custom = (shown, accepted)
    where
      shown :
          custom_header_authenticated is_blank decode_hex sha256 ctx custom ≡ true
          → Shows ctx custom
      shown h =
          elim (Bool-cases (
            not (str_eq custom.value "")
            || is_blank custom.header_name
            || not (len custom.value_sha256 == 64))) [
              | inl t ↦ cc (rw t at h)
              | inr f ↦
                  let settings =
                    in_order (str_eq custom.value "") (is_blank custom.header_name)
                      (len custom.value_sha256 == 64) f in
                  let (a, given, digest) =
                    digest_shown (ctx.traffic_label_provider header custom.header_name)
                      (decode_hex custom.value_sha256) (decoded-bytes custom.value_sha256)
                      (rw f at h) in
                  record {
                    no_plain_value = (str_eq_iff custom.value "").0 settings.0;
                    named = settings.1;
                    size = (==_iff (len custom.value_sha256) 64).0 settings.2;
                    actual = a;
                    given = given;
                    digest = digest;
                  }
            ]

      accepted :
          Shows ctx custom
          → custom_header_authenticated is_blank decode_hex sha256 ctx custom ≡ true
      accepted s =
          rw
            (
              (str_eq_iff custom.value "").1 s.no_plain_value,
              s.named,
              (==_iff (len custom.value_sha256) 64).1 s.size,
              s.given,
              s.digest,
            )
            (shown_digest s.actual)
