-- ===== src/HirOpt/Exact.antt =====
-- What a two's complement target computes on 64-bit integers, `double`s and truth values, stated by
-- integer arithmetic and not by the optimiser's words; and the targets that compute so.
use Prim.Native.Nat.{bit_and, bit_or, bit_xor}
use hphl.Base.{ℕ, ◌/◌, ◌^◌, Bool, true, false, not, ◌&&◌, ◌||◌, ◌≡◌, ltb, ◌==◌, if◌then◌else◌}
use hphl.Base.Int.{
  ℤ, pos, negsuc, pos_part, eq_ℤ, ltb_ℤ, leb_ℤ, ◌+ℤ◌, ◌-ℤ◌, ◌*ℤ◌, quot_ℤ, rem_ℤ, is_int64, to_word,
  of_word, wrap64,
}
use hphl.Types
use hphl.Types.{Ty, Kind, kind, bits}
use hphl.Hir.{BinOp, UnOp, BinaryAttrs, VarDeclAttrs}
use hphl.HirOpt.Doubles.{Doubles, zero_double}
use hphl.HirOpt.Fold.{Folded, value, truth, invalid, is_zero, same_bool}
use hphl.HirOpt.Target.{Target, decided, JumpFree}

-- A result that has to fit a signed 64-bit integer; what the target does otherwise is its own.
abbrev pub fits : ℤ → Folded ℤ
fits a = if is_int64 a then value a else invalid

-- An arithmetic shift to the right: division by 2 ^ k that rounds down.
unfoldable pub shift_right : ℤ → ℕ → ℤ
shift_right (pos n) k = pos (n / 2 ^ k)
shift_right (negsuc n) k = negsuc (n / 2 ^ k)

-- Does `b` count the bits of a shift?
abbrev pub is_shift_count : ℤ → Bool
is_shift_count (pos n) = ltb n 64
is_shift_count (negsuc n) = false

-- The signed operations.
unfoldable pub signed_op : BinOp → ℤ → ℤ → Folded ℤ
unfolding shift_right
signed_op BinOp.add a b = fits (a +ℤ b)
signed_op BinOp.sub a b = fits (a -ℤ b)
signed_op BinOp.mul a b = fits (a *ℤ b)
signed_op BinOp.div a b = if is_zero b then invalid else fits (quot_ℤ a b)
signed_op BinOp.mod_op a b =
    if is_zero b then invalid else if is_int64 (quot_ℤ a b) then value (rem_ℤ a b) else invalid
signed_op BinOp.bit_and a b = value (of_word (bit_and (to_word a) (to_word b)))
signed_op BinOp.bit_or a b = value (of_word (bit_or (to_word a) (to_word b)))
signed_op BinOp.bit_xor a b = value (of_word (bit_xor (to_word a) (to_word b)))
signed_op BinOp.shl a b =
    if is_shift_count b then value (wrap64 (a *ℤ pos (2 ^ pos_part b))) else invalid
signed_op BinOp.shr a b = if is_shift_count b then value (shift_right a (pos_part b)) else invalid
signed_op BinOp.eq a b = truth (eq_ℤ a b)
signed_op BinOp.ne a b = truth (not (eq_ℤ a b))
signed_op BinOp.lt a b = truth (ltb_ℤ a b)
signed_op BinOp.gt a b = truth (ltb_ℤ b a)
signed_op BinOp.le a b = truth (leb_ℤ a b)
signed_op BinOp.ge a b = truth (leb_ℤ b a)
signed_op BinOp.and a b = truth (not (is_zero a || is_zero b))
signed_op BinOp.or a b = truth (not (is_zero a && is_zero b))

-- A comparison or a connective: its result is a truth value of any width.
abbrev pub yields_truth : BinOp → Bool
yields_truth BinOp.eq = true
yields_truth BinOp.ne = true
yields_truth BinOp.lt = true
yields_truth BinOp.gt = true
yields_truth BinOp.le = true
yields_truth BinOp.ge = true
yields_truth BinOp.and = true
yields_truth BinOp.or = true
yields_truth _ = false

-- The operation has a result type of 64 bits, or yields a truth value.
abbrev pub is_wide : Ty → BinOp → Bool
is_wide t op = yields_truth op || bits t == 64

module _ (d : Doubles) where
  -- The operations on two `double`s; a quotient by zero is an infinity or no number.
  unfoldable pub double_op : BinOp → ℕ → ℕ → Folded ℕ
  double_op BinOp.add a b = value (d.add a b)
  double_op BinOp.sub a b = value (d.sub a b)
  double_op BinOp.mul a b = value (d.mul a b)
  double_op BinOp.div a b = value (d.div a b)
  double_op BinOp.eq a b = truth (d.eq a b)
  double_op BinOp.ne a b = truth (not (d.eq a b))
  double_op BinOp.lt a b = truth (d.lt a b)
  double_op BinOp.gt a b = truth (d.lt b a)
  double_op BinOp.le a b = truth (d.le a b)
  double_op BinOp.ge a b = truth (d.le b a)
  double_op _ a b = invalid

unfoldable pub truth_op : BinOp → Bool → Bool → Folded ℤ
truth_op BinOp.and a b = truth (if a then b else false)
truth_op BinOp.or a b = truth (if a then true else b)
truth_op BinOp.eq a b = truth (same_bool a b)
truth_op BinOp.ne a b = truth (same_bool a (not b))
truth_op _ a b = invalid

module _ (d : Doubles) (t : Target) where
  open t use {State, Den, int_value, float_value, bool_value}

  -- The meaning of a result.
  abbrev pub Gives : Den → Folded ℤ → Type 0
  Gives m (value v) = m ≡ int_value v false
  Gives m (truth b) = m ≡ bool_value b
  Gives m invalid = Unit

  abbrev pub GivesDouble : Den → Folded ℕ → Type 0
  GivesDouble m (value v) = m ≡ float_value v
  GivesDouble m (truth b) = m ≡ bool_value b
  GivesDouble m invalid = Unit

  -- The target computes constants as the language defines them, and tests them so. Negation
  -- wraps. Other results out of range, divisions by zero, unsigned integers and types narrower than
  -- 64 bits are left open.
  pub record IsFaithful : Type 0 where
    pub test_truth : (b : Bool) (s : State) → t.test (bool_value b) s ≡ decided b s
    pub test_int :
        (a : ℤ) (is_u : Bool) (s : State)
        → t.test (int_value a is_u) s ≡ decided (not (is_zero a)) s
    pub signed_ints :
        (w : Ty) (at : BinaryAttrs) (op : BinOp) (a b : ℤ)
        → is_int64 a ≡ true
        → is_int64 b ≡ true
        → is_wide w op ≡ true
        → Gives (t.binary_of w at op (int_value a false) (int_value b false)) (signed_op op a b)
    pub doubles :
        (w : Ty) (at : BinaryAttrs) (op : BinOp) (a b : ℕ)
        → is_wide w op ≡ true
        → GivesDouble (t.binary_of w at op (float_value a) (float_value b)) (double_op d op a b)
    pub int_double :
        (w : Ty) (at : BinaryAttrs) (op : BinOp) (a : ℤ) (b : ℕ)
        → t.binary_of w at op (int_value a false) (float_value b)
          ≡ t.binary_of w at op (float_value (d.of_int a)) (float_value b)
    pub double_int :
        (w : Ty) (at : BinaryAttrs) (op : BinOp) (a : ℕ) (b : ℤ)
        → t.binary_of w at op (float_value a) (int_value b false)
          ≡ t.binary_of w at op (float_value a) (float_value (d.of_int b))
    pub truths :
        (w : Ty) (at : BinaryAttrs) (op : BinOp) (a b : Bool)
        → Gives (t.binary_of w at op (bool_value a) (bool_value b)) (truth_op op a b)
    pub negated :
        (w : Ty) (a : ℤ)
        → bits w ≡ 64
        → t.unary_of w UnOp.neg (int_value a false) ≡ int_value (wrap64 (pos 0 -ℤ a)) false
    pub complemented :
        (w : Ty) (a : ℤ)
        → bits w ≡ 64
        → t.unary_of w UnOp.bit_not (int_value a false) ≡ int_value (negsuc 0 -ℤ a) false
    pub int_not :
        (w : Ty) (a : ℤ) → t.unary_of w UnOp.not_op (int_value a false) ≡ bool_value (is_zero a)
    pub double_negated :
        (w : Ty) (f : ℕ) → t.unary_of w UnOp.neg (float_value f) ≡ float_value (d.neg f)
    pub truth_not :
        (w : Ty) (b : Bool) → t.unary_of w UnOp.not_op (bool_value b) ≡ bool_value (not b)
    pub int_to_int :
        (w target : Ty) (a : ℤ)
        → kind target ≡ Types.int
        → bits target ≡ 64
        → t.cast_of w target (int_value a false) ≡ int_value a false
    pub int_to_double :
        (w target : Ty) (a : ℤ)
        → kind target ≡ Types.float
        → bits target ≡ 64
        → t.cast_of w target (int_value a false) ≡ float_value (d.of_int a)
    pub int_to_truth :
        (w target : Ty) (a : ℤ)
        → kind target ≡ Types.bool
        → t.cast_of w target (int_value a false) ≡ bool_value (not (is_zero a))
    pub double_to_int :
        (w target : Ty) (f : ℕ)
        → kind target ≡ Types.int
        → bits target ≡ 64
        → t.cast_of w target (float_value f) ≡ int_value (d.to_int f) false
    pub double_to_double :
        (w target : Ty) (f : ℕ)
        → kind target ≡ Types.float
        → bits target ≡ 64
        → t.cast_of w target (float_value f) ≡ float_value f
    pub double_to_truth :
        (w target : Ty) (f : ℕ)
        → kind target ≡ Types.bool
        → t.cast_of w target (float_value f) ≡ bool_value (not (d.eq f zero_double))
    pub truth_to_int :
        (w target : Ty) (b : Bool)
        → kind target ≡ Types.int
        → t.cast_of w target (bool_value b) ≡ int_value (if b then pos 1 else pos 0) false
    -- Evaluating an expression is no jump.
    pub expr_ends : (m : Den) (s : State) → JumpFree (t.run_expr m s)
    pub decl_ends : (v : VarDeclAttrs) (m : Den) (s : State) → JumpFree (t.run_decl v m s)
    pub return_ends : (m : Den) (s : State) → JumpFree (t.run_return m s)
    pub panic_ends : (m : Den) (s : State) → JumpFree (t.run_panic m s)
    pub throw_ends : (m : Den) (s : State) → JumpFree (t.run_throw m s)
    pub assert_ends : (line : ℕ) (s : State) → JumpFree (t.fail_assert line s)
