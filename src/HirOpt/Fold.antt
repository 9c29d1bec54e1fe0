-- ===== src/HirOpt/Fold.antt =====
-- Constant folding of one node, once its operands are folded: `pureExpr`, `tryFoldBinary`,
-- `tryFoldUnary` and `tryFoldCast`. `none` is the answer `nullptr`, "not folded".
use Prim.Native.Nat.{bit_and, bit_or, bit_xor}
use hphl.Base.{
  ℕ, ◌-◌, ◌*◌, ◌/◌, ◌^◌, Bool, true, false, not, ◌&&◌, ◌||◌, Option, none, some, if◌then◌else◌,
}
use hphl.Base.Int.{
  ℤ, pos, negsuc, pos_part, eq_ℤ, ltb_ℤ, leb_ℤ, ◌+ℤ◌, ◌-ℤ◌, ◌*ℤ◌, quot_ℤ, rem_ℤ, within, is_int64,
  int64_min, uint64_max, to_word, of_word, wrap64,
}
use hphl.Types
use hphl.Types.{Kind, Ty, kind}
use hphl.Hir.{
  BinOp, UnOp, BinaryAttrs, MemberAttrs, HirExpr, null_expr, int_lit, float_lit, string_lit,
  char_lit, bool_lit, null_lit, var, member, binary, unary, cast, this, cell_tag, load_at,
}
use hphl.HirOpt.Doubles.{Doubles, zero_double}

abbrev pub is_some {ℓ} : {A : Type ℓ} → Option A → Bool
is_some none = false
is_some (some _) = true

-- A comparison of fields that the semantic pass derived: `b->derivedEq || b->derivedCmp`.
abbrev pub is_derived : BinaryAttrs → Bool
is_derived b = is_some b.derived_eq || is_some b.derived_cmp

-- The member accesses that call the runtime or allocate.
abbrev pub has_hidden_call : MemberAttrs → Bool
has_hidden_call m =
    m.is_property || m.is_list_length || m.is_wait || m.is_task_cancelled || m.is_enum_ctor
    || m.is_module_type_ref || m.is_result_value || m.is_result_error || m.is_option_value

abbrev pub is_step_op : UnOp → Bool
is_step_op UnOp.pre_inc = true
is_step_op UnOp.pre_dec = true
is_step_op UnOp.post_inc = true
is_step_op UnOp.post_dec = true
is_step_op _ = false

-- `pureExpr`
unfoldable pub pure_expr : HirExpr → Bool
pure_expr null_expr = true
pure_expr (int_lit _ _ _) = true
pure_expr (float_lit _ _) = true
pure_expr (string_lit _ _) = true
pure_expr (char_lit _ _) = true
pure_expr (bool_lit _ _) = true
pure_expr (null_lit _) = true
pure_expr (this _) = true
pure_expr (var _ v) = not v.is_property
pure_expr (member _ m o) = if has_hidden_call m then false else pure_expr o
pure_expr (binary _ b _ l r) = if is_derived b then false else pure_expr l && pure_expr r
pure_expr (unary _ op e) = if is_step_op op then false else pure_expr e
pure_expr (cast _ _ e) = pure_expr e
pure_expr (load_at _ _ _) = true
pure_expr (cell_tag _ _) = true
pure_expr _ = false

-- What the `switch` of a binary fold leaves in `res`, `r`, `isCmp` and `valid`.
pub data Folded (A : Type 0) : Type 0 where
  value : A → Folded A
  truth : Bool → Folded A
  invalid : Folded A

-- Addition, subtraction and multiplication in `__int128`, kept where the result fits 64 bits.
abbrev pub fold_acc : Bool → ℤ → Folded ℤ
fold_acc is_u acc =
    if (if is_u then within (pos 0) uint64_max acc else is_int64 acc)
    then value (wrap64 acc)
    else invalid

abbrev pub is_zero : ℤ → Bool
is_zero a = eq_ℤ a (pos 0)

abbrev pub division_fails : ℤ → ℤ → Bool
division_fails a b = is_zero b || eq_ℤ a int64_min && eq_ℤ b (negsuc 0)

abbrev pub shift_fails : ℤ → Bool
shift_fails b = ltb_ℤ b (pos 0) || leb_ℤ (pos 64) b

-- Both operands are integer literals of one signedness, `is_u`.
unfoldable pub fold_ints : BinOp → Bool → ℤ → ℤ → Folded ℤ
fold_ints BinOp.add is_u a b = fold_acc is_u (a +ℤ b)
fold_ints BinOp.sub is_u a b = fold_acc is_u (a -ℤ b)
fold_ints BinOp.mul is_u a b = fold_acc is_u (a *ℤ b)
fold_ints BinOp.div is_u a b = if division_fails a b then invalid else value (quot_ℤ a b)
fold_ints BinOp.mod_op is_u a b = if division_fails a b then invalid else value (rem_ℤ a b)
fold_ints BinOp.bit_and is_u a b = value (of_word (bit_and (to_word a) (to_word b)))
fold_ints BinOp.bit_or is_u a b = value (of_word (bit_or (to_word a) (to_word b)))
fold_ints BinOp.bit_xor is_u a b = value (of_word (bit_xor (to_word a) (to_word b)))
fold_ints BinOp.shl is_u a b =
    if shift_fails b then invalid else value (wrap64 (pos (to_word a * 2 ^ pos_part b)))
fold_ints BinOp.shr is_u a b =
    if shift_fails b then invalid else value (of_word (to_word a / 2 ^ pos_part b))
fold_ints BinOp.eq is_u a b = truth (eq_ℤ a b)
fold_ints BinOp.ne is_u a b = truth (not (eq_ℤ a b))
fold_ints BinOp.lt is_u a b = truth (ltb_ℤ a b)
fold_ints BinOp.gt is_u a b = truth (ltb_ℤ b a)
fold_ints BinOp.le is_u a b = truth (leb_ℤ a b)
fold_ints BinOp.ge is_u a b = truth (leb_ℤ b a)
fold_ints BinOp.and is_u a b = truth (not (is_zero a) && not (is_zero b))
fold_ints BinOp.or is_u a b = truth (not (is_zero a) || not (is_zero b))

module _ (d : Doubles) where
  -- At least one operand is a `double`, and the other is converted to one.
  unfoldable pub fold_floats : BinOp → ℕ → ℕ → Folded ℕ
  fold_floats BinOp.add a b = value (d.add a b)
  fold_floats BinOp.sub a b = value (d.sub a b)
  fold_floats BinOp.mul a b = value (d.mul a b)
  fold_floats BinOp.div a b = if d.eq b zero_double then invalid else value (d.div a b)
  fold_floats BinOp.eq a b = truth (d.eq a b)
  fold_floats BinOp.ne a b = truth (not (d.eq a b))
  fold_floats BinOp.lt a b = truth (d.lt a b)
  fold_floats BinOp.gt a b = truth (d.lt b a)
  fold_floats BinOp.le a b = truth (d.le a b)
  fold_floats BinOp.ge a b = truth (d.le b a)
  fold_floats _ a b = invalid

abbrev pub same_bool : Bool → Bool → Bool
same_bool a b = if a then b else not b

unfoldable pub fold_bools : BinOp → Bool → Bool → Folded ℤ
fold_bools BinOp.and a b = truth (a && b)
fold_bools BinOp.or a b = truth (a || b)
fold_bools BinOp.eq a b = truth (same_bool a b)
fold_bools BinOp.ne a b = truth (not (same_bool a b))
fold_bools _ a b = invalid

-- `mkInt`, `mkFloat` and `mkBool`: the literal keeps the type of the folded node.
abbrev pub mk_int : Ty → Bool → Folded ℤ → Option HirExpr
mk_int t is_u (value v) = some (int_lit t v is_u)
mk_int t is_u (truth b) = some (bool_lit t b)
mk_int t is_u invalid = none

abbrev pub mk_float : Ty → Folded ℕ → Option HirExpr
mk_float t (value v) = some (float_lit t v)
mk_float t (truth b) = some (bool_lit t b)
mk_float t invalid = none

-- What `asInt`, `asFloat` and `asBool` find in a node.
pub data Const : Type 0 where
  int_const : ℤ → Bool → Const
  float_const : ℕ → Const
  bool_const : Bool → Const
  no_const : Const

unfoldable pub as_const : HirExpr → Const
as_const (int_lit _ a is_u) = int_const a is_u
as_const (float_lit _ f) = float_const f
as_const (bool_lit _ b) = bool_const b
as_const _ = no_const

module _ (d : Doubles) where
  -- The three cases of `tryFoldBinary`, by the operands. Two integers of different signedness
  -- fall through to the `float` case, where neither is a `double`.
  unfoldable pub fold_operands : Ty → BinOp → Const → Const → Option HirExpr
  fold_operands t op (int_const a false) (int_const b false) =
      mk_int t false (fold_ints op false a b)
  fold_operands t op (int_const a true) (int_const b true) = mk_int t true (fold_ints op true a b)
  fold_operands t op (int_const a _) (float_const b) = mk_float t (fold_floats d op (d.of_int a) b)
  fold_operands t op (float_const a) (int_const b _) = mk_float t (fold_floats d op a (d.of_int b))
  fold_operands t op (float_const a) (float_const b) = mk_float t (fold_floats d op a b)
  fold_operands t op (bool_const a) (bool_const b) = mk_int t false (fold_bools op a b)
  fold_operands t op _ _ = none

  -- `tryFoldBinary`
  unfoldable pub try_fold_binary : Ty → BinaryAttrs → BinOp → HirExpr → HirExpr → Option HirExpr
  try_fold_binary t b op l r =
      if is_derived b then none else fold_operands t op (as_const l) (as_const r)

  unfoldable pub negate_const : Ty → UnOp → Const → Option HirExpr
  negate_const t UnOp.neg (int_const a false) = some (int_lit t (wrap64 (pos 0 -ℤ a)) false)
  negate_const t UnOp.neg (int_const a true) = none
  negate_const t UnOp.bit_not (int_const a is_u) =
      some (int_lit t (of_word (2 ^ 64 - 1 - to_word a)) is_u)
  negate_const t UnOp.not_op (int_const a _) = some (bool_lit t (is_zero a))
  negate_const t UnOp.neg (float_const f) = some (float_lit t (d.neg f))
  negate_const t UnOp.not_op (bool_const b) = some (bool_lit t (not b))
  negate_const t op _ = none

  -- `tryFoldUnary`; `-INT64_MIN` is undefined in C++ and taken to wrap.
  abbrev pub try_fold_unary : Ty → UnOp → HirExpr → Option HirExpr
  try_fold_unary t op e = negate_const t op (as_const e)

  -- `tryFoldCast` of an integer, a `double` and a truth value to a type of the given kind.
  unfoldable pub cast_int : Kind → Ty → ℤ → Option HirExpr
  cast_int Types.int t a = some (int_lit t a false)
  cast_int Types.uint t a = some (int_lit t a true)
  cast_int Types.float t a = some (float_lit t (d.of_int a))
  cast_int Types.bool t a = some (bool_lit t (not (is_zero a)))
  cast_int _ t a = none

  unfoldable pub cast_float : Kind → Ty → ℕ → Option HirExpr
  cast_float Types.int t f = some (int_lit t (d.to_int f) false)
  cast_float Types.uint t f = some (int_lit t (d.to_int f) true)
  cast_float Types.float t f = some (float_lit t f)
  cast_float Types.bool t f = some (bool_lit t (not (d.eq f zero_double)))
  cast_float _ t f = none

  unfoldable pub cast_bool : Kind → Ty → Bool → Option HirExpr
  cast_bool Types.int t b = some (int_lit t (if b then pos 1 else pos 0) false)
  cast_bool Types.uint t b = some (int_lit t (if b then pos 1 else pos 0) true)
  cast_bool _ t b = none

  unfoldable pub cast_const : Kind → Ty → Const → Option HirExpr
  unfolding cast_int cast_float cast_bool
  cast_const k t (int_const a _) = cast_int k t a
  cast_const k t (float_const f) = cast_float k t f
  cast_const k t (bool_const b) = cast_bool k t b
  cast_const k t no_const = none

  -- `tryFoldCast`
  abbrev pub try_fold_cast : Ty → Ty → HirExpr → Option HirExpr
  try_fold_cast t target e = cast_const (kind target) t (as_const e)
