-- ===== src/Base/Word.antt =====
-- Machine words as bit patterns: `size_t` and `int64_t` are numbers below 2 ^ 64.
use Prim.Native.Nat.{ℕ, suc, ◌+◌, ◌-◌, ◌*◌, ◌%◌, ◌^◌, ◌<◌}
use mathlib.Core.Path.{◌≡◌, refl}
use mathlib.Core.Bool.{Bool, true}
use mathlib.Core.Option.{Option, none, some}
use native.Mathlib.Omega.{arith}
use riak_c_client.Base.Tests.{ltb, if◌then◌else◌}

abbrev pub u8_mod : ℕ
u8_mod = 2 ^ 8

abbrev pub u32_mod : ℕ
u32_mod = 2 ^ 32

abbrev pub u64_mod : ℕ
u64_mod = 2 ^ 64

abbrev pub add64 : ℕ → ℕ → ℕ
add64 a b = (a + b) % u64_mod

abbrev pub sub64 : ℕ → ℕ → ℕ
sub64 a b = (a + u64_mod - b) % u64_mod

abbrev pub mul64 : ℕ → ℕ → ℕ
mul64 a b = (a * b) % u64_mod

abbrev pub add32 : ℕ → ℕ → ℕ
add32 a b = (a + b) % u32_mod

abbrev pub sub32 : ℕ → ℕ → ℕ
sub32 a b = (a + u32_mod - b) % u32_mod

-- `a < b` of two `int64_t`.
abbrev pub lt_int64 : ℕ → ℕ → Bool
lt_int64 a b = ltb ((a + 2 ^ 63) % u64_mod) ((b + 2 ^ 63) % u64_mod)

-- `(int)n`, sign-extended to 64 bits.
abbrev pub int_of : ℕ → ℕ
int_of n = if ltb (n % u32_mod) (2 ^ 31) then n % u32_mod else n % u32_mod + (u64_mod - u32_mod)

pub int_of-small : (n : ℕ) → n < 2 ^ 31 → int_of n ≡ n
int_of-small n h = ground arith

pub lt_int64-small : (a b : ℕ) → a < 2 ^ 63 → b < 2 ^ 63 → lt_int64 a b ≡ ltb a b
lt_int64-small a b p q = ground arith

-- `i + 1` and `i++` of an `int` that is not negative. Of INT_MAX they are undefined.
unfoldable pub next_int : ℕ → Option ℕ
next_int i = if ltb (suc i) (2 ^ 31) then some (suc i) else none

pub next_int-small : (i : ℕ) → suc i < 2 ^ 31 → next_int i ≡ some (suc i)
unfolding next_int
next_int-small i h = let within : ltb (suc i) (2 ^ 31) ≡ true = ground arith in rw within refl
