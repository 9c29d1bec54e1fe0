-- ===== src/HirOpt/Sound.antt =====
-- `foldExpr`, `simplifyStmt` and `simplifyList` keep the meaning of exact code.
use mathlib.Core.Path.{ap₂}
use hphl.Base.{
  ℕ, Bool, true, false, ◌||◌, ◌≡◌, inl, inr, refl, sym, ap, ◌∙◌, arith, some, Bool-cases, and_left,
  and_right, ◌∷◌,
}
use hphl.Hir.{
  HirExpr, member, index, array_lit, call, binary, unary, assign, cast, new, cell_tag, load_at,
  opt_ctor, spawn_expr, await, HirExprs, nil_exprs, cons_exprs, HirBlock, null_block, body, HirStmt,
  null_stmt, block, var_decl, expr_stmt, return, if_stmt, while_stmt, do_while, for_stmt, break,
  continue, panic, assert, throw, try_stmt, lock, spawn, parallel, parallel_foreach, HirStmts,
  nil_stmts, cons_stmts, HirBlocks, nil_blocks, cons_blocks, stmt_of_block,
}
use hphl.HirOpt.Doubles.{Doubles}
use hphl.HirOpt.Simplify.{
  cond_value, keep, fold_expr, fold_exprs, simplify_stmt, simplify_list, simplify_block,
  simplify_blocks,
}
use hphl.HirOpt.Target.{
  Target, decided, normal, branch, seq, skip, scoped, run_loop, run_do, eval, eval_all, exec,
  exec_list, exec_block, exec_all,
}
use hphl.HirOpt.Exact.{IsFaithful}
use hphl.HirOpt.Fragment.{
  never_literal, no_jump_block, exact, exact_all, exact_stmt, exact_list, exact_block, exact_blocks,
}
use hphl.HirOpt.Stable.{never-cond_value}
use hphl.HirOpt.Operands.{eval-fold_binary, eval-fold_unary, eval-fold_cast}
use hphl.HirOpt.Jumps.{exec_block-JumpFree}
use hphl.HirOpt.Steps.{
  binary-step, unary-step, cast-step, exec-stmt_of_block, run_loop-false, seq-skip, run_do-false,
  exec-choose_if, exec-drop,
}

exec_list-keep :
    (t : Target) (s : HirStmt) (ss : HirStmts)
    → exec_list t (keep s ss) ≡ seq t (exec t s) (exec_list t ss)
unfolding exec
exec_list-keep t null_stmt ss = refl
exec_list-keep t _ ss = refl

module _ (d : Doubles) (t : Target) (ok : IsFaithful d t) where
  open t use {State, Stop, Den}

  -- A `do` loop with a constantly false condition and no jump out of its body.
  do-once :
      (c : HirExpr) (b : HirBlock)
      → (never_literal c || no_jump_block b) ≡ true
      → ((s : State) → t.test (eval t c) s ≡ decided false s)
      → cond_value (fold_expr d c) ≡ some false
      → run_do t (eval t c) (exec_block t b) ≡ exec_block t b
  do-once c b h false_c e = elim (Bool-cases (never_literal c)) [
    | inl n ↦ cc (never-cond_value d c n, e)
    | inr n ↦ run_do-false d t ok _ _ false_c (exec_block-JumpFree d t ok b (ground arith))
  ]

  mutual
    unfolding exact fold_expr eval

    pub fold_sound : (e : HirExpr) → exact e ≡ true → eval t (fold_expr d e) ≡ eval t e
    fold_sound (binary w at op l r) h =
        let p = fold_sound l (and_right _ _ (and_left _ _ h)) in
        let q = fold_sound r (and_right _ _ h) in
        eval-fold_binary d t ok w at op (fold_expr d l) (fold_expr d r)
          (binary-step d t ok w at op l r (and_left _ _ (and_left _ _ h)))
        ∙ ap₂ (t.binary_of w at op) p q
    fold_sound (unary w op e) h =
        let p = fold_sound e (and_right _ _ h) in
        eval-fold_unary d t ok w op (fold_expr d e) (unary-step d t ok w op e (and_left _ _ h))
        ∙ ap (t.unary_of w op) p
    fold_sound (cast w target e) h =
        let p = fold_sound e (and_right _ _ h) in
        eval-fold_cast d t ok w target (fold_expr d e) (cast-step d t ok target e (and_left _ _ h))
        ∙ ap (t.cast_of w target) p
    fold_sound (member w m o) h = ap (t.member_of w m) (fold_sound o h)
    fold_sound (index w lb o i) h =
        ap₂ (t.index_of w lb) (fold_sound o (and_left _ _ h)) (fold_sound i (and_right _ _ h))
    fold_sound (array_lit w es) h = ap (t.array_of w) (all_sound es h)
    fold_sound (call w c args f) h = ap (λ x. t.call_of w c x (eval t f)) (all_sound args h)
    fold_sound (assign w op target e) h =
        ap₂ (t.assign_of w op) (fold_sound target (and_left _ _ h)) (fold_sound e (and_right _ _ h))
    fold_sound (new w n args) h = ap (t.new_of w n) (all_sound args h)
    fold_sound (cell_tag w e) h = ap (t.tag_of w) (fold_sound e h)
    fold_sound (load_at w e off) h = ap (λ x. t.load_of w x off) (fold_sound e h)
    fold_sound (opt_ctor w v e) h = ap (t.cell_of w v) (fold_sound e h)
    fold_sound (spawn_expr w b caps) h = ap (λ x. t.task_of w x caps) (block_sound b false h)
    fold_sound (await w e) h = ap (t.await_of w) (fold_sound e h)
    fold_sound _ h = refl

    all_sound : (es : HirExprs) → exact_all es ≡ true → eval_all t (fold_exprs d es) ≡ eval_all t es
    all_sound nil_exprs h = refl
    all_sound (cons_exprs e es) h =
        ap₂ ◌∷◌ (fold_sound e (and_left _ _ h)) (all_sound es (and_right _ _ h))

    pub stmt_sound :
        (s : HirStmt) (ch : Bool) → exact_stmt s ≡ true → exec t (simplify_stmt d s ch).0 ≡ exec t s
    stmt_sound null_stmt ch h = refl
    stmt_sound (block b) ch h = block_sound b ch h
    stmt_sound (var_decl v e) ch h = ap (λ x fuel. t.run_decl v x) (fold_sound e h)
    stmt_sound (expr_stmt e) ch h = ap (λ x fuel. t.run_expr x) (fold_sound e h)
    stmt_sound (return e) ch h = ap (λ x fuel. t.run_return x) (fold_sound e h)
    stmt_sound (if_stmt c a b) ch h =
        let (a', ch1) = simplify_block d a ch in
        exec-choose_if d t ok (fold_expr d c) c a a' b (simplify_stmt d b ch1).0
          (simplify_stmt d b ch1).1 (fold_sound c (and_left _ _ (and_left _ _ h)))
          (block_sound a ch (and_right _ _ (and_left _ _ h))) (stmt_sound b ch1 (and_right _ _ h))
    stmt_sound (while_stmt c b) ch h =
        let p = fold_sound c (and_left _ _ h) in
        let (b', ch1) = simplify_block d b ch in
        exec-drop d t ok (fold_expr d c) null_stmt (while_stmt (fold_expr d c) b') ch1 _
          (λ f _. sym (run_loop-false d t ok (eval t c) _ _ (λ s. rw (← p) (f s))))
          (ap₂ (λ x y. run_loop t x y (skip t)) p (block_sound b ch (and_right _ _ h)))
    stmt_sound (do_while c b) ch h =
        let p = fold_sound c (and_right _ _ (and_left _ _ h)) in
        let q = block_sound b ch (and_right _ _ h) in
        let (b', ch1) = simplify_block d b ch in
        exec-drop d t ok (fold_expr d c) (stmt_of_block b') (do_while (fold_expr d c) b') ch1 _
          (λ f e.
            exec-stmt_of_block d t ok b'
            ∙ q
            ∙ sym (do-once c b (and_left _ _ (and_left _ _ h)) (λ s. rw (← p) (f s)) e))
          (ap₂ (run_do t) p q)
    stmt_sound (for_stmt i c step b) ch h =
        let p = fold_sound c (and_right _ _ (and_left _ _ h)) in
        let next = λ (fuel : ℕ). t.run_expr (eval t step) in
        let (b', ch1) = simplify_block d b ch in
        exec-drop d t ok (fold_expr d c) i (for_stmt i (fold_expr d c) step b') ch1 _
          (λ f _.
            sym (seq-skip d t ok (exec t i))
            ∙ ap (seq t (exec t i))
                (sym (run_loop-false d t ok (eval t c) _ next (λ s. rw (← p) (f s)))))
          (ap₂ (λ x y. seq t (exec t i) (run_loop t x y next)) p
            (block_sound b ch (and_right _ _ h)))
    stmt_sound break ch h = refl
    stmt_sound continue ch h = refl
    stmt_sound (panic e) ch h = ap (λ x fuel. t.run_panic x) (fold_sound e h)
    stmt_sound (assert e line) ch h =
        ap (λ x fuel s. branch t (t.test x s) normal (t.fail_assert line)) (fold_sound e h)
    stmt_sound (throw e) ch h = ap (λ x fuel. t.run_throw x) (fold_sound e h)
    stmt_sound (try_stmt a b c) ch h =
        ap₂ (t.run_try a) (block_sound b ch (and_left _ _ h))
          (block_sound c (simplify_block d b ch).1 (and_right _ _ h))
    stmt_sound (lock e b) ch h =
        ap₂ t.run_lock (fold_sound e (and_left _ _ h)) (block_sound b ch (and_right _ _ h))
    stmt_sound (spawn b caps) ch h = ap (λ x. t.run_spawn x caps) (block_sound b ch h)
    stmt_sound (parallel det caps bs) ch h = ap (t.run_parallel det caps) (blocks_sound bs ch h)
    stmt_sound (parallel_foreach a e b) ch h =
        ap₂ (t.run_foreach a) (fold_sound e (and_left _ _ h)) (block_sound b ch (and_right _ _ h))

    list_sound :
        (ss : HirStmts) (ch : Bool)
        → exact_list ss ≡ true
        → exec_list t (simplify_list d ss ch).0 ≡ exec_list t ss
    list_sound nil_stmts ch h = refl
    list_sound (cons_stmts s ss) ch h =
        let (s', ch1) = simplify_stmt d s ch in
        exec_list-keep t s' (simplify_list d ss ch1).0
        ∙ ap₂ (seq t) (stmt_sound s ch (and_left _ _ h)) (list_sound ss ch1 (and_right _ _ h))

    pub block_sound :
        (b : HirBlock) (ch : Bool)
        → exact_block b ≡ true
        → exec_block t (simplify_block d b ch).0 ≡ exec_block t b
    block_sound null_block ch h = refl
    block_sound (body scope ss) ch h = ap (scoped t scope) (list_sound ss ch h)

    blocks_sound :
        (bs : HirBlocks) (ch : Bool)
        → exact_blocks bs ≡ true
        → exec_all t (simplify_blocks d bs ch).0 ≡ exec_all t bs
    blocks_sound nil_blocks ch h = refl
    blocks_sound (cons_blocks b bs) ch h =
        ap₂ ◌∷◌ (block_sound b ch (and_left _ _ h))
          (blocks_sound bs (simplify_block d b ch).1 (and_right _ _ h))
