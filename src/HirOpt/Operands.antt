-- ===== src/HirOpt/Operands.antt =====
-- One folding step keeps the meaning of a node whose constant operands are exact.
use hphl.Base.{
  ℕ, Bool, true, false, ◌≡◌, ◌⊎◌, inl, inr, refl, sym, arith, Option, none, some, ◌-◌, ◌^◌,
  Bool-cases,
}
use hphl.Base.Int.{ℤ, pos, negsuc, ◌-ℤ◌, is_int64, to_word, of_word}
use hphl.Types
use hphl.Types.{Ty, Kind, kind, bits}
use hphl.Hir.{BinOp, UnOp, BinaryAttrs, HirExpr, int_lit, float_lit, bool_lit, binary, unary, cast}
use hphl.HirOpt.Doubles.{Doubles, zero_double}
use hphl.HirOpt.Fold.{
  is_derived, is_step_op, Folded, value, truth, invalid, fold_floats, fold_bools, mk_int, mk_float,
  Const, int_const, float_const, bool_const, no_const, as_const, fold_operands, negate_const,
  cast_const, try_fold_binary,
}
use hphl.HirOpt.Simplify.{or_keep, fold_binary, fold_unary, fold_cast}
use hphl.HirOpt.Target.{Target, eval}
use hphl.HirOpt.Exact.{Gives, GivesDouble, IsFaithful, double_op, truth_op}
use hphl.HirOpt.Arith.{fold_ints-signed_op}
use hphl.HirOpt.Stable.{operands-none, negate-none}
use hphl.HirOpt.Fragment.{const_ok, exact_op, exact_unary, exact_kind, exact_cast}

-- A `double` is folded as the target computes, or not at all.
fold_floats-double_op :
    (d : Doubles) (op : BinOp) (a b : ℕ)
    → (fold_floats d op a b ≡ double_op d op a b) ⊎ (fold_floats d op a b ≡ invalid)
unfolding fold_floats double_op
fold_floats-double_op d BinOp.div a b = elim (Bool-cases (d.eq b zero_double)) [
  | inl h ↦ inr (rw h)
  | inr h ↦ inl (rw h)
]
fold_floats-double_op d _ a b = inl refl

fold_bools-truth_op : (op : BinOp) (a b : Bool) → fold_bools op a b ≡ truth_op op a b
unfolding fold_bools truth_op
fold_bools-truth_op BinOp.and a b = ground arith
fold_bools-truth_op BinOp.or a b = ground arith
fold_bools-truth_op BinOp.ne a b = ground arith
fold_bools-truth_op _ a b = refl

complement_word : (a : ℤ) → is_int64 a ≡ true → of_word (2 ^ 64 - 1 - to_word a) ≡ negsuc 0 -ℤ a
unfolding of_word to_word ◌-ℤ◌
complement_word (pos n) h = ground arith
complement_word (negsuc n) h = ground arith

module _ (d : Doubles) (t : Target) (ok : IsFaithful d t) where
  open t use {Den, int_value, float_value, bool_value, binary_of, unary_of, cast_of}

  -- What a constant says of the meaning of its node.
  abbrev pub Means : Const → Den → Type 0
  Means (int_const a is_u) m = m ≡ int_value a is_u
  Means (float_const f) m = m ≡ float_value f
  Means (bool_const b) m = m ≡ bool_value b
  Means no_const m = Unit

  pub eval-as_const : (e : HirExpr) → Means (as_const e) (eval t e)
  unfolding as_const eval
  eval-as_const (int_lit _ a is_u) = refl
  eval-as_const (float_lit _ f) = refl
  eval-as_const (bool_lit _ b) = refl
  eval-as_const _ = tt

  -- The replacement, where there is one, means `m`.
  abbrev pub Replaces : Option HirExpr → Den → Type 0
  Replaces none m = Unit
  Replaces (some e) m = eval t e ≡ m

  mk_int-Replaces :
      (w : Ty) (r : Folded ℤ) (m : Den) → Gives d t m r → Replaces (mk_int w false r) m
  unfolding eval
  mk_int-Replaces w (value v) m h = sym h
  mk_int-Replaces w (truth b) m h = sym h
  mk_int-Replaces w invalid m h = tt

  mk_float-Replaces :
      (w : Ty) (r : Folded ℕ) (m : Den) → GivesDouble d t m r → Replaces (mk_float w r) m
  unfolding eval
  mk_float-Replaces w (value v) m h = sym h
  mk_float-Replaces w (truth b) m h = sym h
  mk_float-Replaces w invalid m h = tt

  doubles-Replaces :
      (w : Ty) (op : BinOp) (a b : ℕ) (m : Den)
      → GivesDouble d t m (double_op d op a b)
      → Replaces (mk_float w (fold_floats d op a b)) m
  doubles-Replaces w op a b m h = elim (fold_floats-double_op d op a b) [
    | inl e ↦ rw e (mk_float-Replaces w _ m h)
    | inr e ↦ rw e tt
  ]

  operands-Replaces :
      (w : Ty) (at : BinaryAttrs) (op : BinOp) (c c' : Const) (m m' : Den)
      → Means c m
      → Means c' m'
      → const_ok c ≡ true
      → const_ok c' ≡ true
      → exact_op w op ≡ true
      → Replaces (fold_operands d w op c c') (binary_of w at op m m')
  unfolding fold_operands
  operands-Replaces w at op (int_const a false) (int_const b false) m m' h k p q x =
      rw (h, k, fold_ints-signed_op op a b (ground arith) (ground arith) (ground arith))
        (mk_int-Replaces w _ _
          (ok.signed_ints w at op a b (ground arith) (ground arith) (ground arith)))
  operands-Replaces w at op (int_const a true) c' m m' h k p q x = cc
  operands-Replaces w at op (int_const a false) (int_const b true) m m' h k p q x = cc
  operands-Replaces w at op (int_const a false) (float_const b) m m' h k p q x =
      rw (h, k, ok.int_double w at op a b)
        (doubles-Replaces w op _ b _ (ok.doubles w at op _ b (ground arith)))
  operands-Replaces w at op (int_const a false) (bool_const b) m m' h k p q x = tt
  operands-Replaces w at op (int_const a false) no_const m m' h k p q x = tt
  operands-Replaces w at op (float_const a) (int_const b false) m m' h k p q x =
      rw (h, k, ok.double_int w at op a b)
        (doubles-Replaces w op a _ _ (ok.doubles w at op a _ (ground arith)))
  operands-Replaces w at op (float_const a) (int_const b true) m m' h k p q x = cc
  operands-Replaces w at op (float_const a) (float_const b) m m' h k p q x =
      rw (h, k) (doubles-Replaces w op a b _ (ok.doubles w at op a b (ground arith)))
  operands-Replaces w at op (bool_const a) (bool_const b) m m' h k p q x =
      rw (h, k, fold_bools-truth_op op a b) (mk_int-Replaces w _ _ (ok.truths w at op a b))
  operands-Replaces w at op _ _ m m' h k p q x = tt

  -- What makes a fold of two operands exact.
  abbrev pub ExactPair : Ty → BinOp → Const → Const → Type 0
  ExactPair w op c c' = (const_ok c ≡ true) × (const_ok c' ≡ true) × (exact_op w op ≡ true)

  abbrev pub StepPair : Ty → BinaryAttrs → BinOp → Const → Const → Type 0
  StepPair w at op c c' =
      (is_derived at ≡ true) ⊎ ((c ≡ no_const) ⊎ (c' ≡ no_const)) ⊎ ExactPair w op c c'

  or_keep-Replaces :
      (r : Option HirExpr) (e : HirExpr) {m : Den}
      → Replaces r m
      → eval t e ≡ m
      → eval t (or_keep r e) ≡ m
  or_keep-Replaces none e h k = k
  or_keep-Replaces (some r) e h k = h

  pub eval-fold_binary :
      (w : Ty) (at : BinaryAttrs) (op : BinOp) (l r : HirExpr)
      → StepPair w at op (as_const l) (as_const r)
      → eval t (fold_binary d w at op l r) ≡ binary_of w at op (eval t l) (eval t r)
  unfolding fold_binary try_fold_binary eval
  eval-fold_binary w at op l r h = elim (Bool-cases (is_derived at)) [
    | inl e ↦ rw e
    | inr e ↦ rw e (or_keep-Replaces _ (binary w at op l r) (step e h) refl)
  ]
    where
      step :
          is_derived at ≡ false
          → StepPair w at op (as_const l) (as_const r)
          → Replaces
              (fold_operands d w op (as_const l) (as_const r))
              (binary_of w at op (eval t l) (eval t r))
      step e (inl x) = cc
      step e (inr (inl n)) = rw (operands-none d w op _ _ n) tt
      step e (inr (inr (p, q, x))) =
          operands-Replaces w at op _ _ _ _ (eval-as_const l) (eval-as_const r) p q x

  negate-Replaces :
      (w : Ty) (op : UnOp) (c : Const) (m : Den)
      → Means c m
      → const_ok c ≡ true
      → exact_unary w op ≡ true
      → Replaces (negate_const d w op c) (unary_of w op m)
  unfolding negate_const eval
  negate-Replaces w UnOp.neg (int_const a false) m h k x =
      rw h (sym (ok.negated w a (ground arith)))
  negate-Replaces w UnOp.bit_not (int_const a false) m h k x =
      rw (h, complement_word a (ground arith)) (sym (ok.complemented w a (ground arith)))
  negate-Replaces w UnOp.not_op (int_const a false) m h k x = rw h (sym (ok.int_not w a))
  negate-Replaces w op (int_const a true) m h k x = cc
  negate-Replaces w UnOp.neg (float_const f) m h k x = rw h (sym (ok.double_negated w f))
  negate-Replaces w UnOp.not_op (bool_const b) m h k x = rw h (sym (ok.truth_not w b))
  negate-Replaces w _ _ m h k x = tt

  -- What makes the fold of one operand exact.
  abbrev pub StepUnary : Ty → UnOp → Const → Type 0
  StepUnary w op c =
      (is_step_op op ≡ true) ⊎ (c ≡ no_const) ⊎ ((const_ok c ≡ true) × (exact_unary w op ≡ true))

  unary-Replaces :
      (w : Ty) (op : UnOp) (c : Const) (m : Den)
      → Means c m
      → StepUnary w op c
      → Replaces (negate_const d w op c) (unary_of w op m)
  unary-Replaces w op c m h (inl s) = rw (negate-none d w op c (inl s)) tt
  unary-Replaces w op c m h (inr (inl s)) = rw (negate-none d w op c (inr s)) tt
  unary-Replaces w op c m h (inr (inr (p, q))) = negate-Replaces w op c m h p q

  pub eval-fold_unary :
      (w : Ty) (op : UnOp) (e : HirExpr)
      → StepUnary w op (as_const e)
      → eval t (fold_unary d w op e) ≡ unary_of w op (eval t e)
  unfolding fold_unary eval
  eval-fold_unary w op e h =
      or_keep-Replaces _ (unary w op e) (unary-Replaces w op _ _ (eval-as_const e) h) refl

  kind-Replaces :
      (w target : Ty) (k : Kind) (c : Const) (m : Den)
      → kind target ≡ k
      → Means c m
      → const_ok c ≡ true
      → exact_kind k (bits target) ≡ true
      → Replaces (cast_const d k w c) (cast_of w target m)
  unfolding cast_const eval
  kind-Replaces w target Types.int (int_const a false) m e h k x =
      rw h (sym (ok.int_to_int w target a e (ground arith)))
  kind-Replaces w target Types.float (int_const a false) m e h k x =
      rw h (sym (ok.int_to_double w target a e (ground arith)))
  kind-Replaces w target Types.bool (int_const a false) m e h k x =
      rw h (sym (ok.int_to_truth w target a e))
  kind-Replaces w target Types.int (float_const f) m e h k x =
      rw h (sym (ok.double_to_int w target f e (ground arith)))
  kind-Replaces w target Types.float (float_const f) m e h k x =
      rw h (sym (ok.double_to_double w target f e (ground arith)))
  kind-Replaces w target Types.bool (float_const f) m e h k x =
      rw h (sym (ok.double_to_truth w target f e))
  kind-Replaces w target Types.int (bool_const b) m e h k x =
      rw h (sym (ok.truth_to_int w target b e))
  kind-Replaces w target Types.uint c m e h k x = cc
  kind-Replaces w target _ (int_const a true) m e h k x = cc
  kind-Replaces w target _ _ m e h k x = tt

  abbrev pub StepCast : Ty → Const → Type 0
  StepCast target c = (c ≡ no_const) ⊎ ((const_ok c ≡ true) × (exact_cast target ≡ true))

  cast-Replaces :
      (w target : Ty) (c : Const) (m : Den)
      → Means c m
      → StepCast target c
      → Replaces (cast_const d (kind target) w c) (cast_of w target m)
  unfolding cast_const
  cast-Replaces w target c m h (inl s) = rw s tt
  cast-Replaces w target c m h (inr (p, q)) = kind-Replaces w target (kind target) c m refl h p q

  pub eval-fold_cast :
      (w target : Ty) (e : HirExpr)
      → StepCast target (as_const e)
      → eval t (fold_cast d w target e) ≡ cast_of w target (eval t e)
  unfolding fold_cast eval
  eval-fold_cast w target e h =
      or_keep-Replaces _ (cast w target e) (cast-Replaces w target _ _ (eval-as_const e) h) refl
