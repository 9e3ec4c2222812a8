-- ===== src/Prelude/Int.antt =====
-- Go's signed integers: ℤ over the native numbers, with the wrap-around of 64 and 32 bits.
use ec_order_state_service.Prelude.{
  ℕ, suc, ◌+◌, ◌-◌, ◌%◌, ◌<◌, ◌≡◌, Bool, arith, ltb, leb, if◌then◌else◌,
}

-- `negsuc n` is -(n + 1).
pub data ℤ : Type 0 where
  pos : ℕ → ℤ
  negsuc : ℕ → ℤ

abbrev pub pos_part : ℤ → ℕ
pos_part (pos n) = n
pos_part (negsuc n) = 0

abbrev pub neg_part : ℤ → ℕ
neg_part (pos n) = 0
neg_part (negsuc n) = suc n

abbrev pub sub_ℕ : ℕ → ℕ → ℤ
sub_ℕ a b = if leb b a then pos (a - b) else negsuc (b - a - 1)

infixl 65 ◌+ℤ◌
unfoldable pub ◌+ℤ◌ : ℤ → ℤ → ℤ
a +ℤ b = sub_ℕ (pos_part a + pos_part b) (neg_part a + neg_part b)

abbrev pub ltb_ℤ : ℤ → ℤ → Bool
ltb_ℤ a b = ltb (pos_part a + neg_part b) (pos_part b + neg_part a)

abbrev pub leb_ℤ : ℤ → ℤ → Bool
leb_ℤ a b = leb (pos_part a + neg_part b) (pos_part b + neg_part a)

-- The residue of an integer in [-half, half), where `modulus` is twice `half`.
wrap : ℕ → ℕ → ℤ → ℤ
wrap half modulus (pos n) =
    let r = n % modulus in if ltb r half then pos r else negsuc (modulus - 1 - r)
wrap half modulus (negsuc n) =
    let r = n % modulus in if ltb r half then negsuc r else pos (modulus - 1 - r)

-- `int` on a 64-bit machine, 2 ^ 64 written out.
unfoldable pub int64 : ℤ → ℤ
unfolding wrap
int64 = wrap 9223372036854775808 18446744073709551616

-- The conversion `int32(x)`.
unfoldable pub int32 : ℤ → ℤ
unfolding wrap
int32 = wrap 2147483648 4294967296

pub int64_small : (n : ℕ) → n < 9223372036854775808 → int64 (pos n) ≡ pos n
unfolding int64
int64_small n h = ground arith

pub int32_small : (n : ℕ) → n < 2147483648 → int32 (pos n) ≡ pos n
unfolding int32
int32_small n h = ground arith

pub int64_sum : (a b : ℕ) → a + b < 9223372036854775808 → int64 (pos a +ℤ pos b) ≡ pos (a + b)
unfolding ◌+ℤ◌
int64_sum a b h = ground (arith, int64_small (a + b))
