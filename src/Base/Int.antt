-- ===== src/Base/Int.antt =====
-- Signed integers over the native numbers, under the library's names, and the wrap of an int32.
use agent_env.Base.{false}
use Prim.Native.Nat.{ℕ, suc, ◌+◌, ◌-◌, ◌*◌, ◌/◌, ◌%◌, ◌≤◌, ◌<◌}
use mathlib.Core.Path.{◌≡◌}
use mathlib.Core.Logic.{◌↔◌}
use mathlib.Core.Bool.{Bool, true}
use native.Mathlib.Omega.{arith}
use agent_env.Base.Tests.{ltb, leb, eqb, if◌then◌else◌}
use agent_env.Base.Equality.{Eq}

-- `negsuc n` is -(n + 1).
pub data ℤ : Type 0 where
  pos : ℕ → ℤ
  negsuc : ℕ → ℤ

abbrev pub pos_part : ℤ → ℕ
pos_part (pos n) = n
pos_part (negsuc n) = 0

abbrev pub neg_part : ℤ → ℕ
neg_part (pos n) = 0
neg_part (negsuc n) = suc n

-- a - b, as an integer.
abbrev pub sub_ℕ : ℕ → ℕ → ℤ
sub_ℕ a b = if leb b a then pos (a - b) else negsuc (b - a - 1)

infixl 65 ◌+ℤ◌ ◌-ℤ◌
infixl 70 ◌*ℤ◌ ◌/ℤ◌
infix 50 ◌≤ℤ◌ ◌<ℤ◌
unfoldable pub ◌+ℤ◌ : ℤ → ℤ → ℤ
a +ℤ b = sub_ℕ (pos_part a + pos_part b) (neg_part a + neg_part b)

unfoldable pub ◌-ℤ◌ : ℤ → ℤ → ℤ
a -ℤ b = sub_ℕ (pos_part a + neg_part b) (neg_part a + pos_part b)

unfoldable pub ◌*ℤ◌ : ℤ → ℤ → ℤ
pos a *ℤ pos b = pos (a * b)
pos a *ℤ negsuc b = sub_ℕ 0 (a * suc b)
negsuc a *ℤ pos b = sub_ℕ 0 (suc a * b)
negsuc a *ℤ negsuc b = pos (suc a * suc b)

-- Go's integer division, which truncates towards zero.
unfoldable pub ◌/ℤ◌ : ℤ → ℤ → ℤ
pos a /ℤ pos b = pos (a / b)
pos a /ℤ negsuc b = sub_ℕ 0 (a / suc b)
negsuc a /ℤ pos b = sub_ℕ 0 (suc a / b)
negsuc a /ℤ negsuc b = pos (suc a / suc b)

abbrev pub ◌≤ℤ◌ : ℤ → ℤ → Type 0
a ≤ℤ b = pos_part a + neg_part b ≤ pos_part b + neg_part a

abbrev pub ◌<ℤ◌ : ℤ → ℤ → Type 0
a <ℤ b = pos_part a + neg_part b < pos_part b + neg_part a

abbrev pub ltb_ℤ : ℤ → ℤ → Bool
ltb_ℤ a b = ltb (pos_part a + neg_part b) (pos_part b + neg_part a)

abbrev pub eqb_ℤ : ℤ → ℤ → Bool
eqb_ℤ a b = eqb (pos_part a + neg_part b) (pos_part b + neg_part a)

pub eqb_ℤ_iff : (a b : ℤ) → (eqb_ℤ a b ≡ true) ↔ (a ≡ b)
eqb_ℤ_iff a b = ground arith

instance abbrev pub ℤ_eq : Eq ℤ
ℤ_eq = record { equals = eqb_ℤ; equals_iff = eqb_ℤ_iff }

-- The int32 that the low 32 bits of an integer stand for.
unfoldable pub wrap_int32 : ℤ → ℤ
wrap_int32 (pos n) =
    let m = n % 4294967296 in if ltb m 2147483648 then pos m else negsuc (4294967295 - m)
wrap_int32 (negsuc n) =
    let m = n % 4294967296 in if ltb m 2147483648 then negsuc m else pos (4294967295 - m)

-- Both ends of the range of an int32.
abbrev pub IsInt32 : ℤ → Type 0
IsInt32 a = (pos_part a < 2147483648) × (neg_part a ≤ 2147483648)

pub wrap_int32_fits : (a : ℤ) → IsInt32 a → wrap_int32 a ≡ a
unfolding wrap_int32
wrap_int32_fits a h = ground arith

pub wrap_int32-IsInt32 : (a : ℤ) → IsInt32 (wrap_int32 a)
unfolding wrap_int32
wrap_int32-IsInt32 a = ground arith

-- `n++` and `n--` on an int32.
unfoldable pub inc_int32 : ℤ → ℤ
unfolding wrap_int32 ◌+ℤ◌
inc_int32 a = wrap_int32 (a +ℤ pos 1)

unfoldable pub dec_int32 : ℤ → ℤ
unfolding wrap_int32 ◌+ℤ◌
dec_int32 a = wrap_int32 (a +ℤ negsuc 0)

pub inc_int32-pos : (n : ℕ) → n < 2147483647 → inc_int32 (pos n) ≡ pos (n + 1)
unfolding inc_int32
inc_int32-pos n h = ground arith

pub dec_int32-pos : (n : ℕ) → n < 2147483647 → dec_int32 (pos (n + 1)) ≡ pos n
unfolding dec_int32
dec_int32-pos n h = ground arith

-- The int64 that the low 64 bits of an integer stand for.
unfoldable pub wrap_int64 : ℤ → ℤ
wrap_int64 (pos n) =
    let m = n % 18446744073709551616 in
    if ltb m 9223372036854775808 then pos m else negsuc (18446744073709551615 - m)
wrap_int64 (negsuc n) =
    let m = n % 18446744073709551616 in
    if ltb m 9223372036854775808 then negsuc m else pos (18446744073709551615 - m)

pub wrap_int64-pos : (n : ℕ) → n < 9223372036854775808 → wrap_int64 (pos n) ≡ pos n
unfolding wrap_int64
wrap_int64-pos n h = ground arith

-- int64 arithmetic.
unfoldable pub add_int64 : ℤ → ℤ → ℤ
unfolding wrap_int64 ◌+ℤ◌
add_int64 a b = wrap_int64 (a +ℤ b)

unfoldable pub sub_int64 : ℤ → ℤ → ℤ
unfolding wrap_int64 ◌-ℤ◌
sub_int64 a b = wrap_int64 (a -ℤ b)

unfoldable pub mul_int64 : ℤ → ℤ → ℤ
unfolding wrap_int64 ◌*ℤ◌
mul_int64 a b = wrap_int64 (a *ℤ b)

pub add_int64-pos :
    (a b : ℕ) → a + b < 9223372036854775808 → add_int64 (pos a) (pos b) ≡ pos (a + b)
unfolding add_int64
add_int64-pos a b h = ground arith

pub sub_int64-pos :
    (a b : ℕ) → b ≤ a → a < 9223372036854775808 → sub_int64 (pos a) (pos b) ≡ pos (a - b)
unfolding sub_int64
sub_int64-pos a b h k = ground arith

pub mul_int64-pos :
    (a b : ℕ) → a * b < 9223372036854775808 → mul_int64 (pos a) (pos b) ≡ pos (a * b)
unfolding mul_int64
mul_int64-pos a b h = wrap_int64-pos (a * b) h

pub sub_int64_nonpos :
    (a b : ℕ) → a ≤ b → b < 9223372036854775808 → ltb_ℤ (pos 0) (sub_int64 (pos a) (pos b)) ≡ false
unfolding sub_int64
sub_int64_nonpos a b h k = ground arith
