-- ===== src/Prelude/Int.antt =====
-- Signed integers over the native numbers, and Go's 64-bit `int` with its wrap-around.
use Prim.Native.Nat.{ℕ, suc, ◌+◌, ◌-◌, ◌*◌, ◌%◌, ◌≤◌, ◌<◌}
use mathlib.Core.Path.{◌≡◌, refl}
use mathlib.Core.Bool.{Bool, true}
use native.Mathlib.Omega.{arith}
use otel_ecom_load_genrator.Prelude.Tests.{ltb, leb, ◌==◌, if◌then◌else◌}

-- `negsuc n` is -(n + 1).
pub data ℤ : Type 0 where
  pos : ℕ → ℤ
  negsuc : ℕ → ℤ

abbrev pub pos_part : ℤ → ℕ
pos_part (pos n) = n
pos_part (negsuc n) = 0

abbrev pub neg_part : ℤ → ℕ
neg_part (pos n) = 0
neg_part (negsuc n) = suc n

-- a - b, as an integer.
abbrev pub sub_ℕ : ℕ → ℕ → ℤ
sub_ℕ a b = if leb b a then pos (a - b) else negsuc (b - a - 1)

infix 50 ◌≤ℤ◌ ◌<ℤ◌
abbrev pub ◌≤ℤ◌ : ℤ → ℤ → Type 0
a ≤ℤ b = pos_part a + neg_part b ≤ pos_part b + neg_part a

abbrev pub ◌<ℤ◌ : ℤ → ℤ → Type 0
a <ℤ b = pos_part a + neg_part b < pos_part b + neg_part a

abbrev pub ltb_ℤ : ℤ → ℤ → Bool
ltb_ℤ a b = ltb (pos_part a + neg_part b) (pos_part b + neg_part a)

abbrev pub leb_ℤ : ℤ → ℤ → Bool
leb_ℤ a b = leb (pos_part a + neg_part b) (pos_part b + neg_part a)

abbrev pub eqb_ℤ : ℤ → ℤ → Bool
eqb_ℤ a b = pos_part a + neg_part b == pos_part b + neg_part a

-- 2 ^ 63 and 2 ^ 64.
abbrev pub int64_half : ℕ
int64_half = 9223372036854775808

abbrev pub int64_mod : ℕ
int64_mod = 18446744073709551616

-- The integer that a 64-bit pattern stands for.
abbrev pub of_word : ℕ → ℤ
of_word w = if ltb w int64_half then pos w else negsuc (int64_mod - 1 - w)

-- The 64-bit pattern of p - n, and the integer that Go keeps of it.
unfoldable pub wrap64 : ℕ → ℕ → ℤ
wrap64 p n = of_word ((p % int64_mod + (int64_mod - n % int64_mod)) % int64_mod)

infixl 65 ◌+ℤ◌ ◌-ℤ◌
infixl 70 ◌*ℤ◌
-- The operators of Go on `int`: the exact result, wrapped to 64 bits.
unfoldable pub ◌+ℤ◌ : ℤ → ℤ → ℤ
a +ℤ b = wrap64 (pos_part a + pos_part b) (neg_part a + neg_part b)

unfoldable pub ◌-ℤ◌ : ℤ → ℤ → ℤ
a -ℤ b = wrap64 (pos_part a + neg_part b) (neg_part a + pos_part b)

unfoldable pub ◌*ℤ◌ : ℤ → ℤ → ℤ
a *ℤ b =
    wrap64 (pos_part a * pos_part b + neg_part a * neg_part b)
      (pos_part a * neg_part b + neg_part a * pos_part b)

-- p - n needs no wrapping when it lies in [-2^63, 2^63).
abbrev pub Fits : ℕ → ℕ → Type 0
Fits p n = (p < n + int64_half) × (n ≤ p + int64_half)

pub wrap64-Fits : (p n : ℕ) → Fits p n → wrap64 p n ≡ sub_ℕ p n
unfolding wrap64
wrap64-Fits p n h = ground arith

pub +ℤ_parts :
    (a b : ℤ)
    → Fits (pos_part a + pos_part b) (neg_part a + neg_part b)
    → pos_part (a +ℤ b) + neg_part a + neg_part b ≡ neg_part (a +ℤ b) + pos_part a + pos_part b
unfolding ◌+ℤ◌
+ℤ_parts a b h = ground (arith, wrap64-Fits (pos_part a + pos_part b) (neg_part a + neg_part b))

pub -ℤ_parts :
    (a b : ℤ)
    → Fits (pos_part a + neg_part b) (neg_part a + pos_part b)
    → pos_part (a -ℤ b) + neg_part a + pos_part b ≡ neg_part (a -ℤ b) + pos_part a + neg_part b
unfolding ◌-ℤ◌
-ℤ_parts a b h = ground (arith, wrap64-Fits (pos_part a + neg_part b) (neg_part a + pos_part b))

-- Sums and products of numbers that are not negative, while they stay below 2 ^ 63.
pub pos_add : (m n : ℕ) → m + n < int64_half → pos m +ℤ pos n ≡ pos (m + n)
unfolding ◌+ℤ◌
pos_add m n h = ground (arith, wrap64-Fits (m + n) 0)

pub pos_mul : (m n : ℕ) → m * n < int64_half → pos m *ℤ pos n ≡ pos (m * n)
unfolding ◌*ℤ◌
pos_mul m n h = ground (arith, wrap64-Fits (m * n + 0 * 0) (m * 0 + 0 * n))

-- 2^62 + 2^62 is negative for the program, and 3 - 5 is -2.
wrap64_runs :
    (pos 4611686018427387904 +ℤ pos 4611686018427387904 ≡ negsuc 9223372036854775807)
    × (pos 3 -ℤ pos 5 ≡ negsuc 1)
    × (negsuc 2 *ℤ pos 4 ≡ negsuc 11)
unfolding ◌+ℤ◌ ◌-ℤ◌ ◌*ℤ◌ wrap64
wrap64_runs = (refl, refl, refl)

-- A value of Go's `int`.
abbrev pub IsInt64 : ℤ → Type 0
IsInt64 z = (pos_part z < int64_half) × (neg_part z ≤ int64_half)

pub eqb_ℤ→eq : (a b : ℤ) → eqb_ℤ a b ≡ true → a ≡ b
eqb_ℤ→eq a b h = ground arith
