-- ===== src/HirOpt/Steps.antt =====
-- Single steps of the optimiser keep the meaning: the fold of one node, and the choice that a
-- constant condition makes.
use mathlib.Core.Path.{fun_ext}
use hphl.Base.{
  ℕ, zero, suc, Bool, true, false, ◌&&◌, ◌||◌, ◌≡◌, inl, inr, refl, sym, ◌∙◌, arith, some,
  Bool-cases, Option-cases, if◌then◌else◌,
}
use hphl.Types.{Ty}
use hphl.Hir.{
  BinOp, UnOp, BinaryAttrs, HirExpr, HirBlock, null_block, body, HirStmt, null_stmt, if_stmt,
  while_stmt, do_while, for_stmt, stmt_of_block,
}
use hphl.HirOpt.Doubles.{Doubles}
use hphl.HirOpt.Fold.{
  is_derived, is_step_op, Const, int_const, float_const, bool_const, no_const, as_const,
}
use hphl.HirOpt.Simplify.{const_cond, cond_value, choose_if, drop_if_false, fold_expr}
use hphl.HirOpt.Target.{
  Target, Flow, Run, JumpFree, decided, normal, broke, continued, returned, stopped, out_of_fuel,
  branch, run_if, round, after, seq, skip, run_loop, run_do, eval, exec, exec_block,
}
use hphl.HirOpt.Exact.{IsFaithful}
use hphl.HirOpt.Fragment.{never_literal, exact_op, exact_unary, exact_cast, exact_const, const_ok}
use hphl.HirOpt.Stable.{never_literal-as_const}
use hphl.HirOpt.Constants.{const_ok-as_const, exact_const-fold_expr}
use hphl.HirOpt.Operands.{StepPair, StepUnary, StepCast, Means, eval-as_const}

module _ (d : Doubles) (t : Target) (ok : IsFaithful d t) where
  open t use {State, Stop, Den}

  ok-fold_expr : (e : HirExpr) → exact_const e ≡ true → const_ok (as_const (fold_expr d e)) ≡ true
  ok-fold_expr e h = const_ok-as_const _ (exact_const-fold_expr d e h)

  -- The condition at a node gives what one step of the fold needs.
  pub binary-step :
      (w : Ty) (at : BinaryAttrs) (op : BinOp) (l r : HirExpr)
      → (is_derived at
          || never_literal l
          || never_literal r
          || exact_op w op && exact_const l && exact_const r)
        ≡ true
      → StepPair d t ok w at op (as_const (fold_expr d l)) (as_const (fold_expr d r))
  binary-step w at op l r h = elim (Bool-cases (is_derived at)) [
    | inl a ↦ inl a
    | inr a ↦ elim (Bool-cases (never_literal l)) [
      | inl b ↦ inr (inl (inl (never_literal-as_const d l b)))
      | inr b ↦ elim (Bool-cases (never_literal r)) [
        | inl c ↦ inr (inl (inr (never_literal-as_const d r c)))
        | inr c ↦
            inr (inr (ok-fold_expr l (ground arith), ok-fold_expr r (ground arith), ground arith))
      ]
    ]
  ]

  pub unary-step :
      (w : Ty) (op : UnOp) (e : HirExpr)
      → (is_step_op op || never_literal e || exact_unary w op && exact_const e) ≡ true
      → StepUnary d t ok w op (as_const (fold_expr d e))
  unary-step w op e h = elim (Bool-cases (is_step_op op)) [
    | inl a ↦ inl a
    | inr a ↦ elim (Bool-cases (never_literal e)) [
      | inl b ↦ inr (inl (never_literal-as_const d e b))
      | inr b ↦ inr (inr (ok-fold_expr e (ground arith), ground arith))
    ]
  ]

  pub cast-step :
      (target : Ty) (e : HirExpr)
      → (never_literal e || exact_cast target && exact_const e) ≡ true
      → StepCast d t ok target (as_const (fold_expr d e))
  cast-step target e h = elim (Bool-cases (never_literal e)) [
    | inl b ↦ inl (never_literal-as_const d e b)
    | inr b ↦ inr (ok-fold_expr e (ground arith), ground arith)
  ]

  -- The folded condition of an `if` or a loop, where it is constant.
  test-cond_value :
      (e : HirExpr) {b : Bool} (s : State)
      → cond_value e ≡ some b
      → t.test (eval t e) s ≡ decided b s
  unfolding cond_value
  test-cond_value e s h = const-test (as_const e) _ (eval-as_const d t ok e) s h
    where
      const-test :
          (c : Const) (m : Den) {b : Bool}
          → Means d t ok c m
          → (s : State) → const_cond c ≡ some b
          → t.test m s ≡ decided b s
      const-test (int_const a u) m k s h = rw k (ok.test_int a u s ∙ cc)
      const-test (bool_const a) m k s h = rw k (ok.test_truth a s ∙ cc)
      const-test (float_const f) m k s h = cc
      const-test no_const m k s h = cc

  pub exec-stmt_of_block : (b : HirBlock) → exec t (stmt_of_block b) ≡ exec_block t b
  unfolding exec
  exec-stmt_of_block null_block = refl
  exec-stmt_of_block (body scope ss) = refl

  pub run_loop-false :
      (c : Den) (b step : Run State Stop)
      → ((s : State) → t.test c s ≡ decided false s)
      → run_loop t c b step ≡ skip t
  unfolding run_loop
  run_loop-false c b step h = fun_ext (λ fuel. fun_ext (λ s. at fuel s))
    where
      at : (fuel : ℕ) (s : State) → run_loop t c b step fuel s ≡ normal s
      at zero s = rw (h s)
      at (suc fuel) s = rw (h s)

  pub seq-skip : (r : Run State Stop) → seq t r (skip t) ≡ r
  seq-skip r = fun_ext (λ fuel. fun_ext (λ s. flow (r fuel s)))
    where
      flow : (f : Flow State Stop) → after t f normal ≡ f
      flow (normal s) = refl
      flow (broke s) = refl
      flow (continued s) = refl
      flow (returned s) = refl
      flow (stopped x) = refl
      flow out_of_fuel = refl

  pub run_do-false :
      (c : Den) (b : Run State Stop)
      → ((s : State) → t.test c s ≡ decided false s)
      → ((fuel : ℕ) (s : State) → JumpFree (b fuel s))
      → run_do t c b ≡ b
  unfolding run_do
  run_do-false c b h j = fun_ext (λ fuel. fun_ext (λ s. at fuel s))
    where
      once :
          (f : Flow State Stop) (k : State → Flow State Stop)
          → JumpFree f
          → round t f (λ s. branch t (t.test c s) k normal) ≡ f
      once (normal s) k j = rw (h s)
      once (broke s) k j = absurd j
      once (continued s) k j = absurd j
      once (returned s) k j = refl
      once (stopped x) k j = refl
      once out_of_fuel k j = refl

      at : (fuel : ℕ) (s : State) → run_do t c b fuel s ≡ b fuel s
      at zero s = once (b zero s) _ (j zero s)
      at (suc fuel) s = once (b (suc fuel) s) _ (j (suc fuel) s)

  run_if-decided :
      (c : Den) (a b : Run State Stop) (v : Bool)
      → ((s : State) → t.test c s ≡ decided v s)
      → run_if t c a b ≡ (if v then a else b)
  run_if-decided c a b true h = fun_ext (λ fuel. fun_ext (λ s. rw (h s)))
  run_if-decided c a b false h = fun_ext (λ fuel. fun_ext (λ s. rw (h s)))

  -- The meanings of the statements that may be replaced, with `exec` shut.
  pub exec-if :
      (c : HirExpr) (a : HirBlock) (b : HirStmt)
      → exec t (if_stmt c a b) ≡ run_if t (eval t c) (exec_block t a) (exec t b)
  unfolding exec
  exec-if c a b = refl

  pub exec-while :
      (c : HirExpr) (b : HirBlock)
      → exec t (while_stmt c b) ≡ run_loop t (eval t c) (exec_block t b) (skip t)
  unfolding exec
  exec-while c b = refl

  pub exec-do :
      (c : HirExpr) (b : HirBlock) → exec t (do_while c b) ≡ run_do t (eval t c) (exec_block t b)
  unfolding exec
  exec-do c b = refl

  pub exec-for :
      (i : HirStmt) (c step : HirExpr) (b : HirBlock)
      → exec t (for_stmt i c step b)
        ≡ seq t
            (exec t i)
            (run_loop t (eval t c) (exec_block t b) (λ fuel. t.run_expr (eval t step)))
  unfolding exec
  exec-for i c step b = refl

  pub exec-null : exec t null_stmt ≡ skip t
  unfolding exec
  exec-null = refl

  pub exec-choose_if :
      (c' c : HirExpr) (a a' : HirBlock) (b b' : HirStmt) (ch : Bool)
      → eval t c' ≡ eval t c
      → exec_block t a' ≡ exec_block t a
      → exec t b' ≡ exec t b
      → exec t (choose_if (cond_value c') a b (if_stmt c' a' b', ch)).0 ≡ exec t (if_stmt c a b)
  exec-choose_if c' c a a' b b' ch p q r = elim (Option-cases (cond_value c')) [
    | inl e ↦ rw e (cc (exec-if c' a' b', exec-if c a b))
    | inr (v, e) ↦ rw e (constant v e ∙ sym (exec-if c a b))
  ]
    where
      constant :
          (v : Bool)
          → cond_value c' ≡ some v
          → exec t (choose_if (some v) a b (if_stmt c' a' b', ch)).0
            ≡ run_if t (eval t c) (exec_block t a) (exec t b)
      constant true e =
          exec-stmt_of_block a
          ∙ sym (run_if-decided (eval t c) _ _ true (λ s. rw (← p) (test-cond_value c' s e)))
      constant false e =
          sym (run_if-decided (eval t c) _ _ false (λ s. rw (← p) (test-cond_value c' s e)))

  -- A loop whose folded condition is constantly false, or that stays.
  pub exec-drop :
      (c' : HirExpr) (left rest : HirStmt) (ch : Bool) (m : Run State Stop)
      → (((s : State) → t.test (eval t c') s ≡ decided false s)
          → cond_value c' ≡ some false
          → exec t left ≡ m)
      → exec t rest ≡ m
      → exec t (drop_if_false (cond_value c') left (rest, ch)).0 ≡ m
  exec-drop c' left rest ch m p q = elim (Option-cases (cond_value c')) [
    | inl e ↦ rw e q
    | inr (v, e) ↦ rw e (constant v e)
  ]
    where
      constant :
          (v : Bool)
          → cond_value c' ≡ some v
          → exec t (drop_if_false (some v) left (rest, ch)).0 ≡ m
      constant true e = q
      constant false e = p (λ s. test-cond_value c' s e) e
