-- ===== src/HirOpt/Rounds.antt =====
-- The rounds of `hirOptimize` on exact code.
use hphl.Base.{
  ℕ, zero, suc, Bool, true, false, ◌≡◌, refl, ◌∙◌, Bool-cases, inl, inr, and_left, and_right,
  and_intro,
}
use hphl.Hir.{
  HirExpr, member, index, array_lit, call, binary, unary, assign, cast, new, cell_tag, load_at,
  opt_ctor, spawn_expr, await, HirExprs, nil_exprs, cons_exprs, HirBlock, null_block, body, HirStmt,
  null_stmt, block, var_decl, expr_stmt, return, if_stmt, while_stmt, do_while, for_stmt, break,
  continue, panic, assert, throw, try_stmt, lock, spawn, parallel, parallel_foreach, HirStmts,
  nil_stmts, cons_stmts, HirBlocks, nil_blocks, cons_blocks, stmt_of_block,
}
use hphl.HirOpt.Doubles.{Doubles}
use hphl.HirOpt.Fold.{is_step_op}
use hphl.HirOpt.Simplify.{
  cond_value, fold_expr, fold_exprs, simplify_stmt, simplify_list, simplify_block, simplify_blocks,
}
use hphl.HirOpt.Fragment.{exact, exact_all, exact_stmt, exact_list, exact_block, exact_blocks}
use hphl.HirOpt.Stable.{never_literal-fold_expr, or_map, or_map_both}
use hphl.HirOpt.Constants.{exact_const-fold_expr}
use hphl.HirOpt.ExactFolds.{exact-fold_binary, exact-fold_unary, exact-fold_cast}
use hphl.HirOpt.Preserve.{
  node-exact, exact-choose_if, exact-drop, exact-stmt_of_block, exact-keep, no_jump-simplify_block,
}
use hphl.HirOpt.Simplify.{simplify_rounds}
use hphl.HirOpt.Target.{Target, exec_block}
use hphl.HirOpt.Exact.{IsFaithful}
use hphl.HirOpt.Sound.{block_sound}

module _ (d : Doubles) where
  mutual
    unfolding exact fold_expr

    exact-fold_expr : (e : HirExpr) → exact e ≡ true → exact (fold_expr d e) ≡ true
    exact-fold_expr (binary w at op l r) h =
        exact-fold_binary d w at op (fold_expr d l) (fold_expr d r) (
          and_intro _ _
            (and_intro _ _ (node-exact d w at op l r (and_left _ _ (and_left _ _ h)))
              (exact-fold_expr l (and_right _ _ (and_left _ _ h))))
            (exact-fold_expr r (and_right _ _ h)))
    exact-fold_expr (unary w op e) h = exact-fold_unary d w op (fold_expr d e) (
        and_intro _ _
          (or_map (is_step_op op) (and_left _ _ h) (never_literal-fold_expr d e)
            (λ k. and_intro _ _ (and_left _ _ k) (exact_const-fold_expr d e (and_right _ _ k))))
          (exact-fold_expr e (and_right _ _ h)))
    exact-fold_expr (cast w target e) h = exact-fold_cast d w target (fold_expr d e) (
        and_intro _ _
          (or_map_both (and_left _ _ h) (never_literal-fold_expr d e)
            (λ k. and_intro _ _ (and_left _ _ k) (exact_const-fold_expr d e (and_right _ _ k))))
          (exact-fold_expr e (and_right _ _ h)))
    exact-fold_expr (member w m o) h = exact-fold_expr o h
    exact-fold_expr (index w lb o i) h =
        and_intro _ _ (exact-fold_expr o (and_left _ _ h)) (exact-fold_expr i (and_right _ _ h))
    exact-fold_expr (array_lit w es) h = exact-fold_exprs es h
    exact-fold_expr (call w c args f) h = exact-fold_exprs args h
    exact-fold_expr (assign w op target e) h =
        and_intro _ _ (exact-fold_expr target (and_left _ _ h))
          (exact-fold_expr e (and_right _ _ h))
    exact-fold_expr (new w n args) h = exact-fold_exprs args h
    exact-fold_expr (cell_tag w e) h = exact-fold_expr e h
    exact-fold_expr (load_at w e off) h = exact-fold_expr e h
    exact-fold_expr (opt_ctor w v e) h = exact-fold_expr e h
    exact-fold_expr (spawn_expr w b caps) h = exact-block b false h
    exact-fold_expr (await w e) h = exact-fold_expr e h
    exact-fold_expr _ h = refl

    exact-fold_exprs : (es : HirExprs) → exact_all es ≡ true → exact_all (fold_exprs d es) ≡ true
    exact-fold_exprs nil_exprs h = refl
    exact-fold_exprs (cons_exprs e es) h =
        and_intro _ _ (exact-fold_expr e (and_left _ _ h)) (exact-fold_exprs es (and_right _ _ h))

    exact-stmt :
        (s : HirStmt) (ch : Bool) → exact_stmt s ≡ true → exact_stmt (simplify_stmt d s ch).0 ≡ true
    exact-stmt null_stmt ch h = refl
    exact-stmt (block b) ch h = exact-block b ch h
    exact-stmt (var_decl v e) ch h = exact-fold_expr e h
    exact-stmt (expr_stmt e) ch h = exact-fold_expr e h
    exact-stmt (return e) ch h = exact-fold_expr e h
    exact-stmt (if_stmt c a b) ch h =
        let p = and_right _ _ (and_left _ _ h) in
        let q = and_right _ _ h in
        let (a', ch1) = simplify_block d a ch in
        let (b', ch2) = simplify_stmt d b ch1 in
        exact-choose_if d (cond_value (fold_expr d c)) a b (if_stmt (fold_expr d c) a' b') ch2 p q (
          and_intro _ _
            (and_intro _ _ (exact-fold_expr c (and_left _ _ (and_left _ _ h))) (exact-block a ch p))
            (exact-stmt b ch1 q))
    exact-stmt (while_stmt c b) ch h =
        let (b', ch1) = simplify_block d b ch in
        exact-drop d (cond_value (fold_expr d c)) null_stmt (while_stmt (fold_expr d c) b') ch1 refl
          (and_intro _ _ (exact-fold_expr c (and_left _ _ h)) (exact-block b ch (and_right _ _ h)))
    exact-stmt (do_while c b) ch h =
        let q = exact-block b ch (and_right _ _ h) in
        let (b', ch1) = simplify_block d b ch in
        exact-drop d (cond_value (fold_expr d c)) (stmt_of_block b') (do_while (fold_expr d c) b')
          ch1 (exact-stmt_of_block d b' ∙ q)
          (and_intro _ _
            (and_intro _ _
              (or_map_both (and_left _ _ (and_left _ _ h)) (never_literal-fold_expr d c)
                (no_jump-simplify_block d b ch))
              (exact-fold_expr c (and_right _ _ (and_left _ _ h))))
            q)
    exact-stmt (for_stmt i c step b) ch h =
        let p = and_left _ _ (and_left _ _ h) in
        let (b', ch1) = simplify_block d b ch in
        exact-drop d (cond_value (fold_expr d c)) i (for_stmt i (fold_expr d c) step b') ch1 p (
          and_intro _ _ (and_intro _ _ p (exact-fold_expr c (and_right _ _ (and_left _ _ h))))
            (exact-block b ch (and_right _ _ h)))
    exact-stmt break ch h = refl
    exact-stmt continue ch h = refl
    exact-stmt (panic e) ch h = exact-fold_expr e h
    exact-stmt (assert e line) ch h = exact-fold_expr e h
    exact-stmt (throw e) ch h = exact-fold_expr e h
    exact-stmt (try_stmt a b c) ch h =
        and_intro _ _ (exact-block b ch (and_left _ _ h))
          (exact-block c (simplify_block d b ch).1 (and_right _ _ h))
    exact-stmt (lock e b) ch h =
        and_intro _ _ (exact-fold_expr e (and_left _ _ h)) (exact-block b ch (and_right _ _ h))
    exact-stmt (spawn b caps) ch h = exact-block b ch h
    exact-stmt (parallel det caps bs) ch h = exact-blocks bs ch h
    exact-stmt (parallel_foreach a e b) ch h =
        and_intro _ _ (exact-fold_expr e (and_left _ _ h)) (exact-block b ch (and_right _ _ h))

    exact-stmts :
        (ss : HirStmts) (ch : Bool)
        → exact_list ss ≡ true
        → exact_list (simplify_list d ss ch).0 ≡ true
    exact-stmts nil_stmts ch h = refl
    exact-stmts (cons_stmts s ss) ch h =
        let (s', ch1) = simplify_stmt d s ch in
        exact-keep d s' (simplify_list d ss ch1).0
        ∙ and_intro _ _ (exact-stmt s ch (and_left _ _ h)) (exact-stmts ss ch1 (and_right _ _ h))

    exact-block :
        (b : HirBlock) (ch : Bool)
        → exact_block b ≡ true
        → exact_block (simplify_block d b ch).0 ≡ true
    exact-block null_block ch h = refl
    exact-block (body scope ss) ch h = exact-stmts ss ch h

    exact-blocks :
        (bs : HirBlocks) (ch : Bool)
        → exact_blocks bs ≡ true
        → exact_blocks (simplify_blocks d bs ch).0 ≡ true
    exact-blocks nil_blocks ch h = refl
    exact-blocks (cons_blocks b bs) ch h =
        and_intro _ _ (exact-block b ch (and_left _ _ h))
          (exact-blocks bs (simplify_block d b ch).1 (and_right _ _ h))

  -- Whatever the number of rounds, a body that is exact (`exact_block`: the constants that the optimiser
  -- may compute are signed 64-bit integers, 64-bit `double`s and truth values, none is shifted to the
  -- right, and no `do` loop that it may unwrap is left by a jump) means after them what it meant, in
  -- every target that computes such constants as the language does, in every state and with any fuel.
  pub simplify_rounds_sound :
      (t : Target)
      → IsFaithful d t
      → (n : ℕ) (b : HirBlock) → exact_block b ≡ true
      → exec_block t (simplify_rounds d n b) ≡ exec_block t b
  unfolding simplify_rounds
  simplify_rounds_sound t ok zero b h = refl
  simplify_rounds_sound t ok (suc n) b h =
      let (b', changed) = simplify_block d b false in
      let once = block_sound d t ok b false h in
      let more = simplify_rounds_sound t ok n b' (exact-block b false h) in
      elim (Bool-cases changed) [ inl e ↦ rw e (more ∙ once) | inr e ↦ rw e once ]
