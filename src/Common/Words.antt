-- ===== src/Common/Words.antt =====
-- Machine words of w bits as natural numbers, with the wrap-around written out.
use Prim.Native.Nat.{ℕ, ◌+◌, ◌%◌, min}

abbrev pub u32_mod : ℕ
u32_mod = 4_294_967_296

abbrev pub u32_max : ℕ
u32_max = 4_294_967_295

abbrev pub u64_mod : ℕ
u64_mod = 18_446_744_073_709_551_616

abbrev pub u64_max : ℕ
u64_max = 18_446_744_073_709_551_615

-- `a + b` on u32 in a release build.
abbrev pub add_u32 : ℕ → ℕ → ℕ
add_u32 a b = (a + b) % u32_mod

-- `a.saturating_add(b)` on u32 and u64; `a.saturating_sub(b)` is `a - b` on ℕ.
abbrev pub saturating_add_u32 : ℕ → ℕ → ℕ
saturating_add_u32 a b = min (a + b) u32_max

abbrev pub saturating_add_u64 : ℕ → ℕ → ℕ
saturating_add_u64 a b = min (a + b) u64_max
