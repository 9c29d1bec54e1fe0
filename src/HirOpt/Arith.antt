-- ===== src/HirOpt/Arith.antt =====
-- `tryFoldBinary`'s integer arithmetic against the signed operations of a two's complement target.
use hphl.Base.{
  ℕ, zero, suc, ◌+◌, ◌-◌, ◌*◌, ◌/◌, ◌%◌, ◌^◌, ◌≤◌, ◌<◌, ◌≡◌, refl, ap, Bool, true, false, not, ◌&&◌,
  ◌||◌, arith, ltb, if◌then◌else◌, Bool-cases, inl, inr,
}
use hphl.Base.Int.{
  ℤ, pos, negsuc, pos_part, neg_part, sub_ℕ, eq_ℤ, ◌+ℤ◌, ◌-ℤ◌, ◌*ℤ◌, quot_ℤ, rem_ℤ, is_int64,
  int64_min, to_word, of_word, wrap64, wrap64_self,
}
use native.Mathlib.Nat.{pow-suc}
use hphl.Hir.{BinOp}
use hphl.HirOpt.Fold.{Folded, value, invalid, fold_acc, fold_ints, is_zero, shift_fails}
use hphl.HirOpt.Exact.{fits, signed_op, is_shift_count}

-- The only signed operation that the optimiser computes in another way than the target.
abbrev pub is_shr : BinOp → Bool
is_shr BinOp.shr = true
is_shr _ = false

fold_acc-fits : (a : ℤ) → fold_acc false a ≡ fits a
fold_acc-fits a = elim (Bool-cases (is_int64 a)) [
  | inl h ↦ rw h (ap value (wrap64_self a h))
  | inr h ↦ rw h
]

pub div_le : (a b : ℕ) → a / b ≤ a
div_le a b = grind arith

div-add_self_le : (a b : ℕ) → 2 ≤ b → a / b + a / b ≤ a
div-add_self_le a b h = grind arith

pub mod_le : (a b : ℕ) → a % b ≤ a
mod_le a b = grind arith

-- The quotient of two 64-bit integers fits, but for INT64_MIN / -1.
pub quot-is_int64 :
    (a b : ℤ)
    → is_int64 a ≡ true
    → is_int64 (quot_ℤ a b) ≡ not (eq_ℤ a int64_min && eq_ℤ b (negsuc 0))
unfolding quot_ℤ
quot-is_int64 (pos a) (pos b) h = ground (arith, div_le a b)
quot-is_int64 (pos a) (negsuc b) h = ground (arith, div_le a (suc b))
quot-is_int64 (negsuc a) (pos b) h = ground (arith, div_le (suc a) b)
quot-is_int64 (negsuc a) (negsuc zero) h = ground arith
quot-is_int64 (negsuc a) (negsuc (suc b)) h =
    ground (arith, div-add_self_le (suc a) (suc (suc b)) (omega arith))

pub rem-is_int64 : (a b : ℤ) → is_int64 a ≡ true → is_int64 (rem_ℤ a b) ≡ true
unfolding rem_ℤ
rem-is_int64 (pos a) b h = ground (arith, mod_le a (pos_part b + neg_part b))
rem-is_int64 (negsuc a) b h = ground (arith, mod_le (suc a) (pos_part b + neg_part b))

mul_pos : (n p : ℕ) → pos n *ℤ pos p ≡ pos (n * p)
unfolding ◌*ℤ◌
mul_pos n p = ground arith

mul_negsuc : (n p : ℕ) → negsuc n *ℤ pos p ≡ sub_ℕ 0 (suc n * p)
unfolding ◌*ℤ◌
mul_negsuc n p = ground arith

sub-suc : (m : ℕ) → sub_ℕ 0 (suc m) ≡ negsuc m
sub-suc m = ground arith

wrap64-sub : (p m x : ℕ) → m ≤ 2 ^ 64 * p → x ≡ 2 ^ 64 * p - m → wrap64 (pos x) ≡ wrap64 (sub_ℕ 0 m)
unfolding wrap64
wrap64-sub p zero x le e = ground arith
wrap64-sub p (suc m) x le e =
    let r : x % 2 ^ 64 ≡ 2 ^ 64 - 1 - m % 2 ^ 64 = omega arith in rw sub-suc (ap of_word r)

complement_mul : (n p : ℕ) → n < 2 ^ 63 → (2 ^ 64 - 1 - n % 2 ^ 64) * p ≡ 2 ^ 64 * p - suc n * p
complement_mul n p h =
    let e : n % 2 ^ 64 ≡ n = omega arith in
    let k : suc n + (2 ^ 64 - suc n) ≡ 2 ^ 64 = omega arith in
    let q = ap (λ (t : ℕ). t * p) k in rw e (grind arith)

mul_bound : (n p : ℕ) → n < 2 ^ 63 → suc n * p ≤ 2 ^ 64 * p
mul_bound n p h = grind arith

-- A shift of the word is a multiplication of the integer.
shl_word : (a : ℤ) (p : ℕ) → is_int64 a ≡ true → wrap64 (pos (to_word a * p)) ≡ wrap64 (a *ℤ pos p)
shl_word (pos n) p h = let e : n % 2 ^ 64 ≡ n = ground arith in rw mul_pos (unfold wrap64 in rw e)
shl_word (negsuc n) p h =
    let b : n < 2 ^ 63 = ground arith in
    rw mul_negsuc (
      wrap64-sub p (suc n * p) (to_word (negsuc n) * p) (mul_bound n p b)
        (unfold to_word in complement_mul n p b))

mod_small : (a : ℕ) → a < 2 ^ 63 → a % 2 ^ 64 ≡ a
mod_small a h = omega arith

-- `b` is zero (`z`), or the quotient does not fit.
division_guard :
    (z e f : Bool) (r : Folded ℤ)
    → f ≡ not e
    → (if z || e then invalid else r) ≡ (if z then invalid else if f then r else invalid)
division_guard z e f r h = ground arith

shift_fails-not : (b : ℤ) → shift_fails b ≡ not (is_shift_count b)
shift_fails-not (pos n) = ground arith
shift_fails-not (negsuc n) = ground arith

guard_not :
    (c : Bool) (r r' : Folded ℤ)
    → r ≡ r'
    → (if not c then invalid else r) ≡ (if c then r' else invalid)
guard_not c r r' h = ground arith

-- On signed 64-bit operands the optimiser computes what the target computes, and folds nothing where
-- the target's result is open, in every operation but the shift to the right.
pub fold_ints-signed_op :
    (op : BinOp) (a b : ℤ)
    → is_int64 a ≡ true
    → is_int64 b ≡ true
    → is_shr op ≡ false
    → fold_ints op false a b ≡ signed_op op a b
unfolding fold_ints signed_op
fold_ints-signed_op BinOp.add a b ha hb ns = fold_acc-fits (a +ℤ b)
fold_ints-signed_op BinOp.sub a b ha hb ns = fold_acc-fits (a -ℤ b)
fold_ints-signed_op BinOp.mul a b ha hb ns = fold_acc-fits (a *ℤ b)
fold_ints-signed_op BinOp.div a b ha hb ns =
    division_guard (is_zero b) (eq_ℤ a int64_min && eq_ℤ b (negsuc 0)) (is_int64 (quot_ℤ a b)) _
      (quot-is_int64 a b ha)
fold_ints-signed_op BinOp.mod_op a b ha hb ns =
    division_guard (is_zero b) (eq_ℤ a int64_min && eq_ℤ b (negsuc 0)) (is_int64 (quot_ℤ a b)) _
      (quot-is_int64 a b ha)
fold_ints-signed_op BinOp.shl a b ha hb ns =
    rw (shift_fails-not b)
      (guard_not (is_shift_count b) _ _ (ap value (shl_word a (2 ^ pos_part b) ha)))
fold_ints-signed_op BinOp.shr a b ha hb ns = cc
fold_ints-signed_op BinOp.and a b ha hb ns = ground arith
fold_ints-signed_op BinOp.or a b ha hb ns = ground arith
fold_ints-signed_op _ a b ha hb ns = refl

shr_word : (n p : ℕ) → n < 2 ^ 63 → of_word (n % 2 ^ 64 / p) ≡ pos (n / p)
unfolding of_word
shr_word n p h = rw (mod_small n h) (ground (arith, div_le n p))

-- A shift to the right agrees where the shifted value is not negative and fits 64 bits.
pub fold_ints-shr_nonneg :
    (n : ℕ) (b : ℤ)
    → is_int64 (pos n) ≡ true
    → fold_ints BinOp.shr false (pos n) b ≡ signed_op BinOp.shr (pos n) b
unfolding fold_ints signed_op to_word
fold_ints-shr_nonneg n b h =
    rw (shift_fails-not b)
      (guard_not (is_shift_count b) _ _ (ap value (shr_word n (2 ^ pos_part b) (ground arith))))

pow-pos : (k : ℕ) → 0 < 2 ^ k
pow-pos zero = omega arith
pow-pos (suc k) = omega (arith, pow-suc 2 k, pow-pos k)

two-le-pow : (k : ℕ) → 2 ≤ 2 ^ suc k
two-le-pow k = grind (arith, pow-suc 2 k, pow-pos k)

shr_negative_word :
    (n p : ℕ)
    → n < 2 ^ 63
    → 2 ≤ p
    → of_word ((2 ^ 64 - 1 - n % 2 ^ 64) / p) ≡ pos ((2 ^ 64 - 1 - n) / p)
unfolding of_word
shr_negative_word n p h q =
    rw (mod_small n h) (ground (arith, div-add_self_le (2 ^ 64 - 1 - n) p q))

-- `-(n + 1) >> k` on 64 bits with 1 ≤ k ≤ 63: the optimiser's literal is not negative, the target's
-- value is.
pub fold_ints-shr_negative :
    (n k : ℕ)
    → n < 2 ^ 63
    → suc k < 64
    → (fold_ints BinOp.shr false (negsuc n) (pos (suc k))
        ≡ value (pos ((2 ^ 64 - 1 - n) / 2 ^ suc k)))
      × (signed_op BinOp.shr (negsuc n) (pos (suc k)) ≡ value (negsuc (n / 2 ^ suc k)))
unfolding fold_ints signed_op to_word
fold_ints-shr_negative n k h q =
    let c : ltb (suc k) 64 ≡ true = ground arith in
    (
      rw (shift_fails-not (pos (suc k)), c)
          (ap value (shr_negative_word n (2 ^ suc k) h (two-le-pow k))),
      rw c,
    )
