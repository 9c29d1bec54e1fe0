-- ===== src/HirOpt/Constants.antt =====
-- Folding keeps constants exact: signed results stay in the range of 64 bits.
use hphl.Base.{
  ℕ, ◌∙◌, Bool, true, false, ◌≡◌, refl, arith, Option, none, some, Bool-cases, inl, inr, and_left,
  and_right, and_intro,
}
use hphl.Base.Int.{ℤ, is_int64, of_word-is_int64, wrap64-is_int64, ◌-ℤ◌, ◌+ℤ◌, ◌*ℤ◌}
use hphl.Types
use hphl.Types.{Ty, Kind, kind, bits}
use hphl.Hir.{BinOp, UnOp, BinaryAttrs, HirExpr, int_lit, binary, unary, cast}
use hphl.HirOpt.Doubles.{Doubles}
use hphl.HirOpt.Fold.{
  is_derived, Const, int_const, float_const, bool_const, as_const, fold_ints, fold_bools,
  fold_operands, try_fold_binary, negate_const, cast_const, mk_int, mk_float, Folded, value, truth,
  invalid, division_fails, shift_fails,
}
use hphl.HirOpt.Simplify.{or_keep, fold_binary, fold_unary, fold_cast, fold_expr}
use hphl.HirOpt.Arith.{quot-is_int64, rem-is_int64}
use hphl.HirOpt.Fragment.{exact_unary, exact_kind, exact_cast, exact_const, const_ok}

abbrev fits_folded : Folded ℤ → Bool
fits_folded (value v) = is_int64 v
fits_folded _ = true

-- A folded integer fits 64 bits.
fold_ints-fits :
    (op : BinOp) (a b : ℤ) → is_int64 a ≡ true → fits_folded (fold_ints op false a b) ≡ true
unfolding fold_ints
fold_ints-fits BinOp.add a b h = ground (arith, wrap64-is_int64 (a +ℤ b))
fold_ints-fits BinOp.sub a b h = ground (arith, wrap64-is_int64 (a -ℤ b))
fold_ints-fits BinOp.mul a b h = ground (arith, wrap64-is_int64 (a *ℤ b))
fold_ints-fits BinOp.div a b h = elim (Bool-cases (division_fails a b)) [
  | inl e ↦ rw e
  | inr e ↦ rw e (quot-is_int64 a b h ∙ ground arith)
]
fold_ints-fits BinOp.mod_op a b h = elim (Bool-cases (division_fails a b)) [
  | inl e ↦ rw e
  | inr e ↦ rw e (rem-is_int64 a b h)
]
fold_ints-fits BinOp.bit_and a b h = of_word-is_int64 _
fold_ints-fits BinOp.bit_or a b h = of_word-is_int64 _
fold_ints-fits BinOp.bit_xor a b h = of_word-is_int64 _
fold_ints-fits BinOp.shl a b h = elim (Bool-cases (shift_fails b)) [
  | inl e ↦ rw e
  | inr e ↦ rw e (wrap64-is_int64 _)
]
fold_ints-fits BinOp.shr a b h = elim (Bool-cases (shift_fails b)) [
  | inl e ↦ rw e
  | inr e ↦ rw e (of_word-is_int64 _)
]
fold_ints-fits _ a b h = refl

abbrev exact_opt : Option HirExpr → Bool
exact_opt none = true
exact_opt (some e) = exact_const e

mk_int-exact : (w : Ty) (r : Folded ℤ) → fits_folded r ≡ true → exact_opt (mk_int w false r) ≡ true
unfolding exact_const
mk_int-exact w (value v) h = h
mk_int-exact w (truth b) h = refl
mk_int-exact w invalid h = refl

mk_float-exact : (w : Ty) (r : Folded ℕ) → exact_opt (mk_float w r) ≡ true
unfolding exact_const
mk_float-exact w (value v) = refl
mk_float-exact w (truth b) = refl
mk_float-exact w invalid = refl

fold_bools-fits : (op : BinOp) (a b : Bool) → fits_folded (fold_bools op a b) ≡ true
unfolding fold_bools
fold_bools-fits BinOp.and a b = refl
fold_bools-fits _ a b = refl

-- The constant that an exact expression holds.
pub const_ok-as_const : (e : HirExpr) → exact_const e ≡ true → const_ok (as_const e) ≡ true
unfolding exact_const as_const
const_ok-as_const (int_lit _ a u) h = h
const_ok-as_const _ h = refl

module _ (d : Doubles) where
  operands-exact :
      (w : Ty) (op : BinOp) (c c' : Const)
      → const_ok c ≡ true
      → const_ok c' ≡ true
      → exact_opt (fold_operands d w op c c') ≡ true
  unfolding fold_operands
  operands-exact w op (int_const a false) (int_const b false) p q =
      mk_int-exact w _ (fold_ints-fits op a b p)
  operands-exact w op (int_const a true) (int_const b true) p q = cc
  operands-exact w op (int_const a u) (float_const b) p q = mk_float-exact w _
  operands-exact w op (float_const a) (int_const b u) p q = mk_float-exact w _
  operands-exact w op (float_const a) (float_const b) p q = mk_float-exact w _
  operands-exact w op (bool_const a) (bool_const b) p q = mk_int-exact w _ (fold_bools-fits op a b)
  operands-exact w op _ _ p q = refl

  negate-exact :
      (w : Ty) (op : UnOp) (c : Const)
      → const_ok c ≡ true
      → exact_opt (negate_const d w op c) ≡ true
  unfolding negate_const exact_const
  negate-exact w UnOp.neg (int_const a false) p = wrap64-is_int64 _
  negate-exact w UnOp.bit_not (int_const a false) p = of_word-is_int64 _
  negate-exact w UnOp.neg (int_const a true) p = cc
  negate-exact w UnOp.bit_not (int_const a true) p = cc
  negate-exact w UnOp.not_op (int_const a u) p = refl
  negate-exact w UnOp.neg (float_const f) p = refl
  negate-exact w UnOp.not_op (bool_const b) p = refl
  negate-exact w _ _ p = refl

  cast-exact :
      (w : Ty) (n : ℕ) (k : Kind) (c : Const)
      → const_ok c ≡ true
      → exact_kind k n ≡ true
      → exact_opt (cast_const d k w c) ≡ true
  unfolding cast_const exact_const
  cast-exact w n Types.int (int_const a false) p x = p
  cast-exact w n Types.int (int_const a true) p x = cc
  cast-exact w n Types.float (int_const a u) p x = refl
  cast-exact w n Types.bool (int_const a u) p x = refl
  cast-exact w n Types.int (float_const f) p x = d.to_int_fits f
  cast-exact w n Types.float (float_const f) p x = refl
  cast-exact w n Types.bool (float_const f) p x = refl
  cast-exact w n Types.int (bool_const true) p x = refl
  cast-exact w n Types.int (bool_const false) p x = refl
  cast-exact w n Types.uint c p x = cc
  cast-exact w n Types.void (int_const a u) p x = refl
  cast-exact w n Types.void _ p x = refl
  cast-exact w n _ (int_const a u) p x = refl
  cast-exact w n _ _ p x = refl

  or_keep-exact :
      (r : Option HirExpr) (e : HirExpr)
      → exact_opt r ≡ true
      → exact_const e ≡ true
      → exact_const (or_keep r e) ≡ true
  or_keep-exact none e h k = k
  or_keep-exact (some r) e h k = h

  exact_const-fold_binary :
      (w : Ty) (at : BinaryAttrs) (op : BinOp) (l r : HirExpr)
      → exact_const (binary w at op l r) ≡ true
      → exact_const l ≡ true
      → exact_const r ≡ true
      → exact_const (fold_binary d w at op l r) ≡ true
  unfolding fold_binary try_fold_binary
  exact_const-fold_binary w at op l r h p q = elim (Bool-cases (is_derived at)) [
    | inl e ↦ rw e h
    | inr e ↦ rw e (
        or_keep-exact _ (binary w at op l r)
          (operands-exact w op _ _ (const_ok-as_const l p) (const_ok-as_const r q)) h)
  ]

  exact_const-fold_unary :
      (w : Ty) (op : UnOp) (e : HirExpr)
      → exact_unary w op ≡ true
      → exact_const e ≡ true
      → exact_const (fold_unary d w op e) ≡ true
  unfolding fold_unary exact_const
  exact_const-fold_unary w op e x p =
      or_keep-exact (negate_const d w op (as_const e)) (unary w op e)
        (negate-exact w op (as_const e) (const_ok-as_const e p)) (and_intro _ _ x p)

  exact_const-fold_cast :
      (w target : Ty) (e : HirExpr)
      → exact_cast target ≡ true
      → exact_const e ≡ true
      → exact_const (fold_cast d w target e) ≡ true
  unfolding fold_cast exact_const
  exact_const-fold_cast w target e x p =
      or_keep-exact (cast_const d (kind target) w (as_const e)) (cast w target e)
        (cast-exact w (bits target) (kind target) (as_const e) (const_ok-as_const e p) x)
        (and_intro _ _ x p)

  -- Folding keeps exact constants exact.
  pub exact_const-fold_expr :
      (e : HirExpr) → exact_const e ≡ true → exact_const (fold_expr d e) ≡ true
  unfolding exact_const fold_expr
  exact_const-fold_expr (binary w at op l r) h =
      let x = and_left _ _ (and_left _ _ h) in
      let p = exact_const-fold_expr l (and_right _ _ (and_left _ _ h)) in
      let q = exact_const-fold_expr r (and_right _ _ h) in
      exact_const-fold_binary w at op _ _ (and_intro _ _ (and_intro _ _ x p) q) p q
  exact_const-fold_expr (unary w op e) h =
      exact_const-fold_unary w op (fold_expr d e) (and_left _ _ h)
        (exact_const-fold_expr e (and_right _ _ h))
  exact_const-fold_expr (cast w target e) h =
      exact_const-fold_cast w target (fold_expr d e) (and_left _ _ h)
        (exact_const-fold_expr e (and_right _ _ h))
  exact_const-fold_expr (int_lit _ _ _) h = h
  exact_const-fold_expr _ h = refl
