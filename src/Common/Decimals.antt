-- ===== src/Common/Decimals.antt =====
-- The decimal digits of a number are read back as the number.
use Prim.Native.Nat.{ℕ, zero, suc, ◌+◌, ◌-◌, ◌*◌, ◌/◌, ◌%◌, ◌<◌, ◌≤◌}
use Prim.Native.Char.{code}
use Prim.Native.String.{String, [] as end, ◌∷◌ as ◌▸◌, ◌++◌}
use text.Mathlib.TextLemmas.{nil-append, cons-append}
use mathlib.Core.Path.{◌≡◌, refl, sym, ap, ◌∙◌}
use mathlib.Core.Logic.{◌≢◌, ◌⊎◌, inl, inr}
use mathlib.Core.Bool.{true, false, ◌&&◌}
use mathlib.Core.Option.{Option, none, some}
use native.Mathlib.Omega.{arith}
use native.Mathlib.Decide.{dec_lt}
use pole_client_rust.Common.Tests.{if◌then◌else◌, ltb, leb, ◌==◌, Bool-cases}
use pole_client_rust.Common.Chars.{digits, number, digit, decimal_in, decimal}
use pole_client_rust.Common.Parts.{Lacks, is_end, parse_u16}

abbrev then_digits : Option ℕ → String → Option ℕ
then_digits none t = none
then_digits (some a) t = digits a t

digits-append : (acc : ℕ) (s t : String) → digits acc (s ++ t) ≡ then_digits (digits acc s) t
unfolding digits
digits-append acc end t = ap (digits acc) (nil-append t)
digits-append acc (c ▸ s) t =
    rw (cons-append c s t) (elim (Bool-cases (leb 48 (code c) && leb (code c) 57)) [
      | inl d ↦ rw d (digits-append (acc * 10 + (code c - 48)) s t)
      | inr n ↦ rw n
    ])

digits-digit : (acc k : ℕ) → k < 10 → digits acc (digit k) ≡ some (acc * 10 + k)
unfolding digits digit
digits-digit acc zero h = refl
digits-digit acc (suc zero) h = refl
digits-digit acc (suc (suc zero)) h = refl
digits-digit acc (suc (suc (suc zero))) h = refl
digits-digit acc (suc (suc (suc (suc zero)))) h = refl
digits-digit acc (suc (suc (suc (suc (suc zero))))) h = refl
digits-digit acc (suc (suc (suc (suc (suc (suc zero)))))) h = refl
digits-digit acc (suc (suc (suc (suc (suc (suc (suc zero))))))) h = refl
digits-digit acc (suc (suc (suc (suc (suc (suc (suc (suc zero)))))))) h = refl
digits-digit acc (suc (suc (suc (suc (suc (suc (suc (suc (suc zero))))))))) h = refl
digits-digit acc (suc (suc (suc (suc (suc (suc (suc (suc (suc (suc k)))))))))) h =
    absurd (omega arith)

-- So many digits are enough for a number.
abbrev pub Fits : ℕ → ℕ → Type 0
Fits zero n = ⊥
Fits (suc f) n = (n < 10) ⊎ Fits f (n / 10)

decimal_in-below : (f n : ℕ) → n < 10 → decimal_in (suc f) n ≡ digit n
unfolding decimal_in
decimal_in-below f n h = let l : ltb n 10 ≡ true = ground arith in rw l

decimal_in-above :
    (f n : ℕ) → ¬ (n < 10) → decimal_in (suc f) n ≡ decimal_in f (n / 10) ++ digit (n % 10)
unfolding decimal_in
decimal_in-above f n h = let l : ltb n 10 ≡ false = ground arith in rw l

digits-decimal_in : (f n : ℕ) → Fits f n → digits 0 (decimal_in f n) ≡ some n
digits-decimal_in zero n h = absurd h
digits-decimal_in (suc f) n h = elim (dec_lt n 10) [
  | yes l ↦ rw (decimal_in-below f n l) (digits-digit 0 n l ∙ ap some (omega arith))
  | no g ↦
      let fits : Fits f (n / 10) = elim h [ inl l ↦ absurd (g l) | inr k ↦ k ] in
      rw
        (
          decimal_in-above f n g,
          digits-append 0 (decimal_in f (n / 10)) (digit (n % 10)),
          digits-decimal_in f (n / 10) fits,
        )
        (digits-digit (n / 10) (n % 10) (omega arith) ∙ ap some (omega arith))
]

-- A text of digits only.
abbrev pub AreDigits : String → Type 0
AreDigits end = Unit {0}
AreDigits (c ▸ s) = ((48 ≤ code c) × (code c ≤ 57)) × AreDigits s

digit-AreDigits : (k : ℕ) → k < 10 → AreDigits (digit k)
unfolding digit
digit-AreDigits zero h = omega arith
digit-AreDigits (suc zero) h = omega arith
digit-AreDigits (suc (suc zero)) h = omega arith
digit-AreDigits (suc (suc (suc zero))) h = omega arith
digit-AreDigits (suc (suc (suc (suc zero)))) h = omega arith
digit-AreDigits (suc (suc (suc (suc (suc zero))))) h = omega arith
digit-AreDigits (suc (suc (suc (suc (suc (suc zero)))))) h = omega arith
digit-AreDigits (suc (suc (suc (suc (suc (suc (suc zero))))))) h = omega arith
digit-AreDigits (suc (suc (suc (suc (suc (suc (suc (suc zero)))))))) h = omega arith
digit-AreDigits (suc (suc (suc (suc (suc (suc (suc (suc (suc zero))))))))) h = omega arith
digit-AreDigits (suc (suc (suc (suc (suc (suc (suc (suc (suc (suc k)))))))))) h =
    absurd (omega arith)

append-AreDigits : (s t : String) → AreDigits s → AreDigits t → AreDigits (s ++ t)
append-AreDigits end t a b = rw (nil-append t) b
append-AreDigits (c ▸ s) t a b = rw (cons-append c s t) (a.0, append-AreDigits s t a.1 b)

decimal_in-AreDigits : (f n : ℕ) → AreDigits (decimal_in f n)
decimal_in-AreDigits zero n = unfold decimal_in in tt
decimal_in-AreDigits (suc f) n = elim (dec_lt n 10) [
  | yes l ↦ rw (decimal_in-below f n l) (digit-AreDigits n l)
  | no g ↦ rw (decimal_in-above f n g) (
      append-AreDigits (decimal_in f (n / 10)) (digit (n % 10)) (decimal_in-AreDigits f (n / 10))
        (digit-AreDigits (n % 10) (omega arith)))
]

pub AreDigits-Lacks : (k : ℕ) (s : String) → (k < 48) ⊎ (57 < k) → AreDigits s → Lacks k s
AreDigits-Lacks k end h a = tt
AreDigits-Lacks k (c ▸ s) h a =
    (elim h [ inl l ↦ omega (arith, a.0) | inr g ↦ omega (arith, a.0) ], AreDigits-Lacks k s h a.1)

pub decimal-AreDigits : (n : ℕ) → AreDigits (decimal n)
unfolding decimal
decimal-AreDigits n = decimal_in-AreDigits 20 n

digits_not_end : (s : String) (n : ℕ) → digits 0 s ≡ some n → n ≢ 0 → is_end s ≡ false
unfolding digits
digits_not_end end n h z = absurd (z (sym (some_path h)))
  where
    some_path : {a b : ℕ} → some a ≡ some b → a ≡ b
    some_path e = cc
digits_not_end (c ▸ s) n h z = refl

Fits-more :
    (f bound : ℕ) → ((m : ℕ) → m < bound → Fits f m) → (n : ℕ) → n < bound * 10 → Fits (suc f) n
Fits-more f bound h n l = inr (h (n / 10) (omega (arith, l)))

digits_fit : (n : ℕ) → n < 4_294_967_296 → Fits 20 n
digits_fit n h =
    (Fits-more 19 1000000000 (
        Fits-more 18 100000000 (
          Fits-more 17 10000000 (
            Fits-more 16 1000000 (
              Fits-more 15 100000 (
                Fits-more 14 10000
                  (Fits-more 13 1000 (Fits-more 12 100 (Fits-more 11 10 (λ m l. inl l))))))))))
      n (omega (arith, h))

digits-decimal : (n : ℕ) → n < 4_294_967_296 → digits 0 (decimal n) ≡ some n
unfolding decimal
digits-decimal n h = digits-decimal_in 20 n (digits_fit n h)

pub decimal-not_end : (n : ℕ) → n ≢ 0 → n < 4_294_967_296 → is_end (decimal n) ≡ false
decimal-not_end n z h = digits_not_end (decimal n) n (digits-decimal n h) z

parse-digits :
    (s : String) (n : ℕ)
    → is_end s ≡ false
    → AreDigits s
    → digits 0 s ≡ some n
    → parse_u16 s ≡ (if ltb n 65_536 then some n else none)
unfolding parse_u16 number
parse-digits end n e a h = cc
parse-digits (c ▸ s) n e a h =
    let no_sign : (code c == 43) ≡ false = ground (arith, a.0) in rw (no_sign, h)

-- The port that is written is the port that is read, if it has 16 bits; a larger one is refused.
pub parse_u16-decimal :
    (n : ℕ)
    → n ≢ 0
    → n < 4_294_967_296
    → parse_u16 (decimal n) ≡ (if ltb n 65_536 then some n else none)
parse_u16-decimal n z h =
    parse-digits (decimal n) n (decimal-not_end n z h) (decimal-AreDigits n) (digits-decimal n h)
