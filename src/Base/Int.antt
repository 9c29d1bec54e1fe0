-- ===== src/Base/Int.antt =====
-- Signed integers over the native numbers, and the 64-bit words that C++'s `long long` wraps to.
use hphl.Base.{
  ℕ, suc, ◌+◌, ◌-◌, ◌*◌, ◌/◌, ◌%◌, ◌^◌, ◌<◌, ◌≡◌, Bool, true, ◌&&◌, arith, ltb, leb, ◌==◌,
  if◌then◌else◌,
}

-- `negsuc n` is -(n + 1).
pub data ℤ : Type 0 where
  pos : ℕ → ℤ
  negsuc : ℕ → ℤ

abbrev pub pos_part : ℤ → ℕ
pos_part (pos n) = n
pos_part (negsuc n) = 0

abbrev pub neg_part : ℤ → ℕ
neg_part (pos n) = 0
neg_part (negsuc n) = suc n

-- a - b, as an integer.
abbrev pub sub_ℕ : ℕ → ℕ → ℤ
sub_ℕ a b = if leb b a then pos (a - b) else negsuc (b - a - 1)

infixl 65 ◌+ℤ◌ ◌-ℤ◌
infixl 70 ◌*ℤ◌
unfoldable pub ◌+ℤ◌ : ℤ → ℤ → ℤ
a +ℤ b = sub_ℕ (pos_part a + pos_part b) (neg_part a + neg_part b)

unfoldable pub ◌-ℤ◌ : ℤ → ℤ → ℤ
a -ℤ b = sub_ℕ (pos_part a + neg_part b) (neg_part a + pos_part b)

unfoldable pub ◌*ℤ◌ : ℤ → ℤ → ℤ
a *ℤ b =
    sub_ℕ (pos_part a * pos_part b + neg_part a * neg_part b)
      (pos_part a * neg_part b + neg_part a * pos_part b)

abbrev pub leb_ℤ : ℤ → ℤ → Bool
leb_ℤ a b = leb (pos_part a + neg_part b) (pos_part b + neg_part a)

abbrev pub ltb_ℤ : ℤ → ℤ → Bool
ltb_ℤ a b = ltb (pos_part a + neg_part b) (pos_part b + neg_part a)

abbrev pub eq_ℤ : ℤ → ℤ → Bool
eq_ℤ a b = (pos_part a + neg_part b) == (pos_part b + neg_part a)

-- C++'s `/` and `%`: the quotient is cut towards zero, the remainder has the dividend's sign.
unfoldable pub quot_ℤ : ℤ → ℤ → ℤ
quot_ℤ (pos a) (pos b) = pos (a / b)
quot_ℤ (pos a) (negsuc b) = sub_ℕ 0 (a / suc b)
quot_ℤ (negsuc a) (pos b) = sub_ℕ 0 (suc a / b)
quot_ℤ (negsuc a) (negsuc b) = pos (suc a / suc b)

unfoldable pub rem_ℤ : ℤ → ℤ → ℤ
rem_ℤ (pos a) b = pos (a % (pos_part b + neg_part b))
rem_ℤ (negsuc a) b = sub_ℕ 0 (suc a % (pos_part b + neg_part b))

-- INT64_MIN, INT64_MAX and UINT64_MAX.
abbrev pub int64_min : ℤ
int64_min = negsuc (2 ^ 63 - 1)

abbrev pub int64_max : ℤ
int64_max = pos (2 ^ 63 - 1)

abbrev pub uint64_max : ℤ
uint64_max = pos (2 ^ 64 - 1)

abbrev pub within : ℤ → ℤ → ℤ → Bool
within lo hi a = leb_ℤ lo a && leb_ℤ a hi

-- The value fits a `long long`.
abbrev pub is_int64 : ℤ → Bool
is_int64 = within int64_min int64_max

-- The conversions `(unsigned long long)` and `(long long)`.
unfoldable pub to_word : ℤ → ℕ
to_word (pos n) = n % 2 ^ 64
to_word (negsuc n) = 2 ^ 64 - 1 - n % 2 ^ 64

unfoldable pub of_word : ℕ → ℤ
of_word w = if ltb w (2 ^ 63) then pos w else negsuc (2 ^ 64 - 1 - w)

unfoldable pub wrap64 : ℤ → ℤ
unfolding to_word of_word
wrap64 a = of_word (to_word a)

-- A value that fits is not changed by the conversion.
pub wrap64_self : (a : ℤ) → is_int64 a ≡ true → wrap64 a ≡ a
unfolding wrap64
wrap64_self (pos n) h = ground arith
wrap64_self (negsuc n) h = ground arith

pub to_word-lt : (a : ℤ) → to_word a < 2 ^ 64
unfolding to_word
to_word-lt (pos n) = omega arith
to_word-lt (negsuc n) = omega arith

pub of_word-is_int64 : (w : ℕ) → is_int64 (of_word w) ≡ true
unfolding of_word
of_word-is_int64 w = ground arith

pub wrap64-is_int64 : (a : ℤ) → is_int64 (wrap64 a) ≡ true
unfolding wrap64
wrap64-is_int64 a = of_word-is_int64 (to_word a)
