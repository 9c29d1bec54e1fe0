-- ===== src/HirOpt/Stable.antt =====
-- What folding keeps: an expression that is never a literal, exact constants, exact code.
use hphl.Base.{Bool, true, false, ◌||◌, ◌≡◌, ◌⊎◌, inl, inr, refl, arith, none, Bool-cases}
use hphl.Types.{Ty}
use hphl.Hir.{BinOp, UnOp, BinaryAttrs, HirExpr, int_lit, float_lit, bool_lit, binary, unary, cast}
use hphl.HirOpt.Doubles.{Doubles}
use hphl.HirOpt.Fold.{
  is_derived, is_step_op, Const, int_const, float_const, bool_const, no_const, as_const,
  fold_operands, try_fold_binary, negate_const, cast_const,
}
use hphl.HirOpt.Simplify.{fold_binary, fold_unary, fold_cast, fold_expr, cond_value}
use hphl.HirOpt.Fragment.{never_literal}

pub or_map_right :
    (x : Bool) {a a' : Bool} → (x || a) ≡ true → (a ≡ true → a' ≡ true) → (x || a') ≡ true
or_map_right x {a} {a'} h p = elim (Bool-cases a) [
  | inl y ↦ ground (arith, p y)
  | inr y ↦ ground arith
]

pub or_map :
    (x : Bool) {a b a' b' : Bool}
    → (x || a || b) ≡ true
    → (a ≡ true → a' ≡ true)
    → (b ≡ true → b' ≡ true)
    → (x || a' || b') ≡ true
or_map x {a} {b} {a'} {b'} h p q = elim (Bool-cases b) [
  | inl y ↦ ground (arith, q y)
  | inr y ↦ let k : (x || a') ≡ true = or_map_right x (ground arith) p in ground arith
]

pub or_map_both :
    {a b a' b' : Bool}
    → (a || b) ≡ true
    → (a ≡ true → a' ≡ true)
    → (b ≡ true → b' ≡ true)
    → (a' || b') ≡ true
or_map_both h p q = or_map false h p q

module _ (d : Doubles) where
  pub operands-none :
      (w : Ty) (op : BinOp) (c c' : Const)
      → (c ≡ no_const) ⊎ (c' ≡ no_const)
      → fold_operands d w op c c' ≡ none
  unfolding fold_operands
  operands-none w op (int_const a false) no_const h = refl
  operands-none w op (int_const a true) no_const h = refl
  operands-none w op (float_const a) no_const h = refl
  operands-none w op (bool_const a) no_const h = refl
  operands-none w op no_const c' h = refl
  operands-none w op _ _ h = absurd (ground arith)

  abbrev Stuck : BinaryAttrs → HirExpr → HirExpr → Type 0
  Stuck at l r = (is_derived at ≡ true) ⊎ ((as_const l ≡ no_const) ⊎ (as_const r ≡ no_const))

  pub fold_binary_self :
      (w : Ty) (at : BinaryAttrs) (op : BinOp) (l r : HirExpr)
      → Stuck at l r
      → fold_binary d w at op l r ≡ binary w at op l r
  unfolding fold_binary try_fold_binary
  fold_binary_self w at op l r (inl e) = rw e
  fold_binary_self w at op l r (inr s) = elim (Bool-cases (is_derived at)) [
    | inl e ↦ rw e
    | inr e ↦ rw (e, operands-none w op _ _ s)
  ]

  pub negate-none :
      (w : Ty) (op : UnOp) (c : Const)
      → (is_step_op op ≡ true) ⊎ (c ≡ no_const)
      → negate_const d w op c ≡ none
  unfolding negate_const
  negate-none w UnOp.neg (int_const a u) h = absurd (ground arith)
  negate-none w UnOp.neg (float_const f) h = absurd (ground arith)
  negate-none w UnOp.bit_not (int_const a u) h = absurd (ground arith)
  negate-none w UnOp.not_op (int_const a u) h = absurd (ground arith)
  negate-none w UnOp.not_op (bool_const b) h = absurd (ground arith)
  negate-none w _ _ h = refl

  pub fold_unary_self :
      (w : Ty) (op : UnOp) (e : HirExpr)
      → (is_step_op op ≡ true) ⊎ (as_const e ≡ no_const)
      → fold_unary d w op e ≡ unary w op e
  unfolding fold_unary
  fold_unary_self w op e h = rw (negate-none w op _ h)

  pub fold_cast_self :
      (w target : Ty) (e : HirExpr)
      → as_const e ≡ no_const
      → fold_cast d w target e ≡ cast w target e
  unfolding fold_cast cast_const
  fold_cast_self w target e h = rw h

  -- The parts of `never_literal` at a binary node.
  never-binary :
      (at : BinaryAttrs) (l r : HirExpr) {a b : Bool}
      → (is_derived at || a || b) ≡ true
      → (a ≡ true → as_const l ≡ no_const)
      → (b ≡ true → as_const r ≡ no_const)
      → Stuck at l r
  never-binary at l r {a} {b} h p q = elim (Bool-cases (is_derived at)) [
    | inl x ↦ inl x
    | inr x ↦ inr (elim (Bool-cases a) [ inl y ↦ inl (p y) | inr y ↦ inr (q (ground arith)) ])
  ]

  never-unary :
      (op : UnOp) (e : HirExpr) {a : Bool}
      → (is_step_op op || a) ≡ true
      → (a ≡ true → as_const e ≡ no_const)
      → (is_step_op op ≡ true) ⊎ (as_const e ≡ no_const)
  never-unary op e {a} h p = elim (Bool-cases (is_step_op op)) [
    | inl x ↦ inl x
    | inr x ↦ inr (p (ground arith))
  ]

  -- A node that is never a literal stays what it is, with its parts folded.
  pub never_literal-as_const :
      (e : HirExpr) → never_literal e ≡ true → as_const (fold_expr d e) ≡ no_const
  unfolding never_literal fold_expr as_const
  never_literal-as_const (int_lit _ _ _) h = cc
  never_literal-as_const (float_lit _ _) h = cc
  never_literal-as_const (bool_lit _ _) h = cc
  never_literal-as_const (binary w at op l r) h = rw (
      fold_binary_self w at op _ _
        (never-binary at _ _ h (never_literal-as_const l) (never_literal-as_const r)))
  never_literal-as_const (unary w op e) h =
      rw (fold_unary_self w op _ (never-unary op _ h (never_literal-as_const e)))
  never_literal-as_const (cast w target e) h =
      rw (fold_cast_self w target _ (never_literal-as_const e h))
  never_literal-as_const _ h = refl

  pub never_literal-fold_expr :
      (e : HirExpr) → never_literal e ≡ true → never_literal (fold_expr d e) ≡ true
  unfolding never_literal fold_expr
  never_literal-fold_expr (int_lit _ _ _) h = cc
  never_literal-fold_expr (float_lit _ _) h = cc
  never_literal-fold_expr (bool_lit _ _) h = cc
  never_literal-fold_expr (binary w at op l r) h =
      rw
        (fold_binary_self w at op _ _
          (never-binary at _ _ h (never_literal-as_const l) (never_literal-as_const r)))
        (or_map (is_derived at) h (never_literal-fold_expr l) (never_literal-fold_expr r))
  never_literal-fold_expr (unary w op e) h =
      rw (fold_unary_self w op _ (never-unary op _ h (never_literal-as_const e)))
        (or_map_right (is_step_op op) h (never_literal-fold_expr e))
  never_literal-fold_expr (cast w target e) h =
      rw (fold_cast_self w target _ (never_literal-as_const e h)) (never_literal-fold_expr e h)
  never_literal-fold_expr _ h = refl

-- So such a condition decides nothing at compile time.
pub never-cond_value :
    (d : Doubles) (c : HirExpr) → never_literal c ≡ true → cond_value (fold_expr d c) ≡ none
unfolding cond_value
never-cond_value d c h = rw (never_literal-as_const d c h)
