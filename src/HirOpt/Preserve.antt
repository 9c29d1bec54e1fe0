-- ===== src/HirOpt/Preserve.antt =====
-- The optimiser keeps code exact, so that its rounds can follow one another.
use hphl.Base.{
  Bool, true, false, ◌&&◌, ◌||◌, ◌≡◌, refl, ◌∙◌, arith, Option, none, some, Bool-cases, inl, inr,
  and_left, and_right, and_intro,
}
use hphl.Types.{Ty}
use hphl.Hir.{
  BinOp, BinaryAttrs, HirExpr, HirBlock, null_block, body, HirStmt, null_stmt, block, if_stmt,
  while_stmt, do_while, for_stmt, break, continue, try_stmt, lock, spawn, parallel,
  parallel_foreach, HirStmts, nil_stmts, cons_stmts, stmt_of_block,
}
use hphl.HirOpt.Doubles.{Doubles}
use hphl.HirOpt.Fold.{is_derived}
use hphl.HirOpt.Simplify.{
  cond_value, keep, choose_if, drop_if_false, fold_expr, simplify_stmt, simplify_list,
  simplify_block,
}
use hphl.HirOpt.Fragment.{
  never_literal, exact_op, exact_const, no_jump, no_jump_list, no_jump_block, exact, exact_stmt,
  exact_list, exact_block,
}
use hphl.HirOpt.Stable.{never_literal-fold_expr, never-cond_value, or_map_right}
use hphl.HirOpt.Constants.{exact_const-fold_expr}
use hphl.HirOpt.ExactFolds.{or_intro_right, or_map3}

module _ (d : Doubles) where
  pub and_map :
      (x : Bool) {a b a' b' : Bool}
      → (x && a && b) ≡ true
      → (a ≡ true → a' ≡ true)
      → (b ≡ true → b' ≡ true)
      → (x && a' && b') ≡ true
  and_map x h p q =
      and_intro _ _
        (and_intro _ _ (and_left _ _ (and_left _ _ h)) (p (and_right _ _ (and_left _ _ h))))
        (q (and_right _ _ h))

  no_jump-stmt_of_block : (b : HirBlock) → no_jump (stmt_of_block b) ≡ no_jump_block b
  unfolding no_jump
  no_jump-stmt_of_block null_block = refl
  no_jump-stmt_of_block (body scope ss) = refl

  no_jump-choose_if :
      (o : Option Bool) (a : HirBlock) (b rest : HirStmt) (ch : Bool)
      → no_jump_block a ≡ true
      → no_jump b ≡ true
      → no_jump rest ≡ true
      → no_jump (choose_if o a b (rest, ch)).0 ≡ true
  no_jump-choose_if (some true) a b rest ch p q r = no_jump-stmt_of_block a ∙ p
  no_jump-choose_if (some false) a b rest ch p q r = q
  no_jump-choose_if none a b rest ch p q r = r

  no_jump-drop :
      (o : Option Bool) (left rest : HirStmt) (ch : Bool)
      → no_jump left ≡ true
      → no_jump rest ≡ true
      → no_jump (drop_if_false o left (rest, ch)).0 ≡ true
  no_jump-drop (some false) left rest ch p q = p
  no_jump-drop (some true) left rest ch p q = q
  no_jump-drop none left rest ch p q = q

  -- A `do` loop stays a loop, or its body ends in no jump.
  do_while-no_jump :
      (c : HirExpr) (b : HirBlock) (ch : Bool)
      → (never_literal c || no_jump_block b) ≡ true
      → no_jump
          (drop_if_false
            (cond_value (fold_expr d c))
            (stmt_of_block b)
            (do_while (fold_expr d c) b, ch)).0
        ≡ true
  do_while-no_jump c b ch h = elim (Bool-cases (never_literal c)) [
    | inl n ↦ rw (never-cond_value d c n) (unfold no_jump in rw (never_literal-fold_expr d c n))
    | inr n ↦
        let q : no_jump_block b ≡ true = ground arith in
        no_jump-drop (cond_value (fold_expr d c)) (stmt_of_block b) (do_while (fold_expr d c) b) ch
          (no_jump-stmt_of_block b ∙ q)
          (unfold no_jump in or_intro_right (never_literal (fold_expr d c)) _ q)
  ]

  no_jump-keep :
      (s : HirStmt) (ss : HirStmts) → no_jump_list (keep s ss) ≡ (no_jump s && no_jump_list ss)
  unfolding no_jump
  no_jump-keep null_stmt ss = refl
  no_jump-keep _ ss = refl

  mutual
    unfolding no_jump fold_expr

    no_jump-simplify_stmt :
        (s : HirStmt) (ch : Bool) → no_jump s ≡ true → no_jump (simplify_stmt d s ch).0 ≡ true
    no_jump-simplify_stmt (block b) ch h = no_jump-simplify_block b ch h
    no_jump-simplify_stmt (if_stmt c a b) ch h =
        let p = and_left _ _ h in
        let q = and_right _ _ h in
        let (a', ch1) = simplify_block d a ch in
        let (b', ch2) = simplify_stmt d b ch1 in
        no_jump-choose_if (cond_value (fold_expr d c)) a b (if_stmt (fold_expr d c) a' b') ch2 p q
          (and_intro _ _ (no_jump-simplify_block a ch p) (no_jump-simplify_stmt b ch1 q))
    no_jump-simplify_stmt (while_stmt c b) ch h =
        let (b', ch1) = simplify_block d b ch in
        no_jump-drop (cond_value (fold_expr d c)) null_stmt (while_stmt (fold_expr d c) b') ch1 refl
          refl
    no_jump-simplify_stmt (do_while c b) ch h =
        let (b', ch1) = simplify_block d b ch in
        do_while-no_jump c b' ch1 (or_map_right (never_literal c) h (no_jump-simplify_block b ch))
    no_jump-simplify_stmt (for_stmt i c step b) ch h =
        let (b', ch1) = simplify_block d b ch in
        no_jump-drop (cond_value (fold_expr d c)) i (for_stmt i (fold_expr d c) step b') ch1 h h
    no_jump-simplify_stmt break ch h = h
    no_jump-simplify_stmt continue ch h = h
    no_jump-simplify_stmt (try_stmt _ _ _) ch h = h
    no_jump-simplify_stmt (lock _ _) ch h = h
    no_jump-simplify_stmt (spawn _ _) ch h = h
    no_jump-simplify_stmt (parallel _ _ _) ch h = h
    no_jump-simplify_stmt (parallel_foreach _ _ _) ch h = h
    no_jump-simplify_stmt _ ch h = refl

    no_jump-simplify_list :
        (ss : HirStmts) (ch : Bool)
        → no_jump_list ss ≡ true
        → no_jump_list (simplify_list d ss ch).0 ≡ true
    no_jump-simplify_list nil_stmts ch h = refl
    no_jump-simplify_list (cons_stmts s ss) ch h =
        let (s', ch1) = simplify_stmt d s ch in
        no_jump-keep s' (simplify_list d ss ch1).0
        ∙ and_intro _ _ (no_jump-simplify_stmt s ch (and_left _ _ h))
            (no_jump-simplify_list ss ch1 (and_right _ _ h))

    pub no_jump-simplify_block :
        (b : HirBlock) (ch : Bool)
        → no_jump_block b ≡ true
        → no_jump_block (simplify_block d b ch).0 ≡ true
    no_jump-simplify_block null_block ch h = refl
    no_jump-simplify_block (body scope ss) ch h = no_jump-simplify_list ss ch h

  -- The condition at a binary node.
  pub node-exact :
      (w : Ty) (at : BinaryAttrs) (op : BinOp) (l r : HirExpr)
      → (is_derived at
          || never_literal l
          || never_literal r
          || exact_op w op && exact_const l && exact_const r)
        ≡ true
      → (is_derived at
          || never_literal (fold_expr d l)
          || never_literal (fold_expr d r)
          || exact_op w op && exact_const (fold_expr d l) && exact_const (fold_expr d r))
        ≡ true
  node-exact w at op l r h =
      or_map3 (is_derived at) h (never_literal-fold_expr d l) (never_literal-fold_expr d r)
        (λ k. and_map (exact_op w op) k (exact_const-fold_expr d l) (exact_const-fold_expr d r))

  pub exact-choose_if :
      (o : Option Bool) (a : HirBlock) (b rest : HirStmt) (ch : Bool)
      → exact_block a ≡ true
      → exact_stmt b ≡ true
      → exact_stmt rest ≡ true
      → exact_stmt (choose_if o a b (rest, ch)).0 ≡ true
  unfolding exact
  exact-choose_if (some true) null_block b rest ch p q r = refl
  exact-choose_if (some true) (body scope ss) b rest ch p q r = p
  exact-choose_if (some false) a b rest ch p q r = q
  exact-choose_if none a b rest ch p q r = r

  pub exact-drop :
      (o : Option Bool) (left rest : HirStmt) (ch : Bool)
      → exact_stmt left ≡ true
      → exact_stmt rest ≡ true
      → exact_stmt (drop_if_false o left (rest, ch)).0 ≡ true
  exact-drop (some false) left rest ch p q = p
  exact-drop (some true) left rest ch p q = q
  exact-drop none left rest ch p q = q

  pub exact-stmt_of_block : (b : HirBlock) → exact_stmt (stmt_of_block b) ≡ exact_block b
  unfolding exact
  exact-stmt_of_block null_block = refl
  exact-stmt_of_block (body scope ss) = refl

  pub exact-keep :
      (s : HirStmt) (ss : HirStmts) → exact_list (keep s ss) ≡ (exact_stmt s && exact_list ss)
  unfolding exact
  exact-keep null_stmt ss = refl
  exact-keep _ ss = refl
