-- ===== src/HirOpt/ExactFolds.antt =====
-- A folded node is exact when its operands are.
use hphl.Base.{
  ℕ, Bool, true, false, ◌||◌, ◌≡◌, refl, arith, Option, none, some, Bool-cases, inl, inr,
}
use hphl.Base.Int.{ℤ}
use hphl.Types
use hphl.Types.{Ty, Kind, kind}
use hphl.Hir.{BinOp, UnOp, BinaryAttrs, HirExpr, binary, unary, cast}
use hphl.HirOpt.Doubles.{Doubles}
use hphl.HirOpt.Fold.{
  is_derived, Const, int_const, float_const, bool_const, no_const, as_const, fold_operands,
  try_fold_binary, negate_const, cast_const, mk_int, mk_float, Folded, value, truth, invalid,
}
use hphl.HirOpt.Simplify.{or_keep, fold_binary, fold_unary, fold_cast}
use hphl.HirOpt.Fragment.{exact}
use hphl.HirOpt.Stable.{or_map}

pub or_intro_right : (x y : Bool) → y ≡ true → (x || y) ≡ true
or_intro_right x y h = ground arith

abbrev all_exact : Option HirExpr → Bool
all_exact none = true
all_exact (some e) = exact e

mk_int-all_exact : (w : Ty) (u : Bool) (r : Folded ℤ) → all_exact (mk_int w u r) ≡ true
unfolding exact
mk_int-all_exact w u (value v) = refl
mk_int-all_exact w u (truth b) = refl
mk_int-all_exact w u invalid = refl

mk_float-all_exact : (w : Ty) (r : Folded ℕ) → all_exact (mk_float w r) ≡ true
unfolding exact
mk_float-all_exact w (value v) = refl
mk_float-all_exact w (truth b) = refl
mk_float-all_exact w invalid = refl

exact-or_keep :
    (r : Option HirExpr) (e : HirExpr)
    → all_exact r ≡ true
    → exact e ≡ true
    → exact (or_keep r e) ≡ true
exact-or_keep none e h k = k
exact-or_keep (some r) e h k = h

pub or_map3 :
    (x : Bool) {a b c a' b' c' : Bool}
    → (x || a || b || c) ≡ true
    → (a ≡ true → a' ≡ true)
    → (b ≡ true → b' ≡ true)
    → (c ≡ true → c' ≡ true)
    → (x || a' || b' || c') ≡ true
or_map3 x {a} {b} {c} {a'} {b'} {c'} h p q r = elim (Bool-cases c) [
  | inl y ↦ or_intro_right (x || a' || b') c' (r y)
  | inr y ↦ let k : (x || a' || b') ≡ true = or_map x (ground arith) p q in ground arith
]

module _ (d : Doubles) where
  operands-all_exact :
      (w : Ty) (op : BinOp) (c c' : Const) → all_exact (fold_operands d w op c c') ≡ true
  unfolding fold_operands
  operands-all_exact w op (int_const a false) (int_const b false) = mk_int-all_exact w false _
  operands-all_exact w op (int_const a true) (int_const b true) = mk_int-all_exact w true _
  operands-all_exact w op (int_const a u) (float_const b) = mk_float-all_exact w _
  operands-all_exact w op (float_const a) (int_const b u) = mk_float-all_exact w _
  operands-all_exact w op (float_const a) (float_const b) = mk_float-all_exact w _
  operands-all_exact w op (bool_const a) (bool_const b) = mk_int-all_exact w false _
  operands-all_exact w op _ _ = refl

  negate-all_exact : (w : Ty) (op : UnOp) (c : Const) → all_exact (negate_const d w op c) ≡ true
  unfolding negate_const exact
  negate-all_exact w UnOp.neg (int_const a false) = refl
  negate-all_exact w UnOp.neg (int_const a true) = refl
  negate-all_exact w UnOp.neg (float_const f) = refl
  negate-all_exact w UnOp.bit_not (int_const a u) = refl
  negate-all_exact w UnOp.not_op (int_const a u) = refl
  negate-all_exact w UnOp.not_op (bool_const b) = refl
  negate-all_exact w _ _ = refl

  cast-all_exact : (w : Ty) (k : Kind) (c : Const) → all_exact (cast_const d k w c) ≡ true
  unfolding cast_const exact
  cast-all_exact w Types.int (int_const a u) = refl
  cast-all_exact w Types.int (float_const f) = refl
  cast-all_exact w Types.int (bool_const b) = refl
  cast-all_exact w Types.int no_const = refl
  cast-all_exact w _ (int_const a u) = refl
  cast-all_exact w _ (float_const f) = refl
  cast-all_exact w _ (bool_const b) = refl
  cast-all_exact w _ no_const = refl

  pub exact-fold_binary :
      (w : Ty) (at : BinaryAttrs) (op : BinOp) (l r : HirExpr)
      → exact (binary w at op l r) ≡ true
      → exact (fold_binary d w at op l r) ≡ true
  unfolding fold_binary try_fold_binary
  exact-fold_binary w at op l r h = elim (Bool-cases (is_derived at)) [
    | inl e ↦ rw e h
    | inr e ↦ rw e (exact-or_keep _ (binary w at op l r) (operands-all_exact w op _ _) h)
  ]

  pub exact-fold_unary :
      (w : Ty) (op : UnOp) (e : HirExpr)
      → exact (unary w op e) ≡ true
      → exact (fold_unary d w op e) ≡ true
  unfolding fold_unary
  exact-fold_unary w op e h =
      exact-or_keep (negate_const d w op (as_const e)) (unary w op e) (negate-all_exact w op _) h

  pub exact-fold_cast :
      (w target : Ty) (e : HirExpr)
      → exact (cast w target e) ≡ true
      → exact (fold_cast d w target e) ≡ true
  unfolding fold_cast
  exact-fold_cast w target e h =
      exact-or_keep (cast_const d (kind target) w (as_const e)) (cast w target e)
        (cast-all_exact w _ _) h
  -- The condition at a node holds of its folded parts.
