-- ===== src/HirOpt/Unsigned.antt =====
-- `tryFoldBinary` on two unsigned literals. A `uint<64>` value of 2 ^ 63 or more is held as a
-- negative `long long`.
use Prim.Native.Nat.{bit_and, bit_or, bit_xor}
use hphl.Base.{
  ℕ, ◌+◌, ◌-◌, ◌*◌, ◌/◌, ◌%◌, ◌^◌, ◌≤◌, ◌<◌, ◌≡◌, true, false, not, ◌&&◌, ◌||◌, arith, ltb, leb,
  ◌==◌, if◌then◌else◌,
}
use hphl.Base.Int.{ℤ, pos, of_word, to_word, wrap64, ◌+ℤ◌, ◌-ℤ◌, ◌*ℤ◌, quot_ℤ, rem_ℤ}
use hphl.Hir.{BinOp}
use hphl.HirOpt.Arith.{div_le, mod_le}
use hphl.HirOpt.Fold.{Folded, value, truth, invalid, fold_ints}

-- The operations of a 64-bit unsigned target on words.
unfoldable pub unsigned_op : BinOp → ℕ → ℕ → Folded ℕ
unsigned_op BinOp.add a b = if ltb (a + b) (2 ^ 64) then value (a + b) else invalid
unsigned_op BinOp.sub a b = if leb b a then value (a - b) else invalid
unsigned_op BinOp.mul a b = if ltb (a * b) (2 ^ 64) then value (a * b) else invalid
unsigned_op BinOp.div a b = if b == 0 then invalid else value (a / b)
unsigned_op BinOp.mod_op a b = if b == 0 then invalid else value (a % b)
unsigned_op BinOp.bit_and a b = value (bit_and a b)
unsigned_op BinOp.bit_or a b = value (bit_or a b)
unsigned_op BinOp.bit_xor a b = value (bit_xor a b)
unsigned_op BinOp.shl a b = if ltb b 64 then value (a * 2 ^ b % 2 ^ 64) else invalid
unsigned_op BinOp.shr a b = if ltb b 64 then value (a / 2 ^ b) else invalid
unsigned_op BinOp.eq a b = truth (a == b)
unsigned_op BinOp.ne a b = truth (not (a == b))
unsigned_op BinOp.lt a b = truth (ltb a b)
unsigned_op BinOp.gt a b = truth (ltb b a)
unsigned_op BinOp.le a b = truth (leb a b)
unsigned_op BinOp.ge a b = truth (leb b a)
unsigned_op BinOp.and a b = truth (not (a == 0) && not (b == 0))
unsigned_op BinOp.or a b = truth (not (a == 0) || not (b == 0))

-- A word as the `long long` that a literal holds.
abbrev pub held : Folded ℕ → Folded ℤ
held (value w) = value (of_word w)
held (truth b) = truth b
held invalid = invalid

to_word-pos : (a : ℕ) → a < 2 ^ 63 → to_word (pos a) ≡ a
unfolding to_word
to_word-pos a h = omega arith

-- Unsigned operands below 2 ^ 63 are folded as a 64-bit unsigned target computes, in every operation,
-- and nothing is folded where that target wraps or its result is open.
pub fold_ints-unsigned_op :
    (op : BinOp) (a b : ℕ)
    → a < 2 ^ 63
    → b < 2 ^ 63
    → fold_ints op true (pos a) (pos b) ≡ held (unsigned_op op a b)
unfolding fold_ints unsigned_op
fold_ints-unsigned_op BinOp.add a b ha hb = unfold wrap64 ◌+ℤ◌ in ground arith
fold_ints-unsigned_op BinOp.sub a b ha hb = unfold wrap64 ◌-ℤ◌ in ground arith
fold_ints-unsigned_op BinOp.mul a b ha hb = unfold wrap64 ◌*ℤ◌ in ground arith
fold_ints-unsigned_op BinOp.div a b ha hb = unfold quot_ℤ of_word in ground (arith, div_le a b)
fold_ints-unsigned_op BinOp.mod_op a b ha hb = unfold rem_ℤ of_word in ground (arith, mod_le a b)
fold_ints-unsigned_op BinOp.bit_and a b ha hb = rw (to_word-pos a ha, to_word-pos b hb)
fold_ints-unsigned_op BinOp.bit_or a b ha hb = rw (to_word-pos a ha, to_word-pos b hb)
fold_ints-unsigned_op BinOp.bit_xor a b ha hb = rw (to_word-pos a ha, to_word-pos b hb)
fold_ints-unsigned_op BinOp.shl a b ha hb = rw (to_word-pos a ha) (unfold wrap64 in ground arith)
fold_ints-unsigned_op BinOp.shr a b ha hb = rw (to_word-pos a ha) (ground arith)
fold_ints-unsigned_op _ a b ha hb = ground arith

-- A 64-bit word of 2 ^ 63 or more is folded as less than every word below 2 ^ 63, which it is not for
-- an unsigned target: the optimiser compares the `long long`s that hold them.
pub fold_ints-large_word :
    (a b : ℕ)
    → 2 ^ 63 ≤ a
    → a < 2 ^ 64
    → b < 2 ^ 63
    → (fold_ints BinOp.lt true (of_word a) (of_word b) ≡ truth true)
      × (unsigned_op BinOp.lt a b ≡ truth false)
unfolding fold_ints unsigned_op of_word
fold_ints-large_word a b h k l = (ground arith, ground arith)
