-- ===== src/HirOpt/Fragment.antt =====
-- Where the optimiser is exact: every constant that it may compute is a signed 64-bit integer, a
-- 64-bit `double` or a truth value, no constant is shifted to the right, and no `do` loop whose
-- condition may turn out constant is left by `break` or `continue`.
use hphl.Base.{ℕ, Bool, true, false, not, ◌&&◌, ◌||◌, ◌==◌}
use hphl.Base.Int.{is_int64}
use hphl.Types
use hphl.Types.{Ty, Kind, kind, bits}
use hphl.Hir.{
  BinOp, UnOp, HirExpr, int_lit, float_lit, bool_lit, member, index, array_lit, call, binary, unary,
  assign, cast, new, cell_tag, load_at, opt_ctor, spawn_expr, await, HirExprs, nil_exprs,
  cons_exprs, HirBlock, null_block, body, HirStmt, null_stmt, block, var_decl, expr_stmt, return,
  if_stmt, while_stmt, do_while, for_stmt, break, continue, panic, assert, throw, try_stmt, lock,
  spawn, parallel, parallel_foreach, HirStmts, nil_stmts, cons_stmts, HirBlocks, nil_blocks,
  cons_blocks,
}
use hphl.HirOpt.Fold.{is_derived, is_step_op, Const, int_const}
use hphl.HirOpt.Exact.{is_wide}
use hphl.HirOpt.Arith.{is_shr}

-- The expression is no literal, and folding never makes it one.
unfoldable pub never_literal : HirExpr → Bool
never_literal (int_lit _ _ _) = false
never_literal (float_lit _ _) = false
never_literal (bool_lit _ _) = false
never_literal (binary _ b _ l r) = is_derived b || never_literal l || never_literal r
never_literal (unary _ op e) = is_step_op op || never_literal e
never_literal (cast _ _ e) = never_literal e
never_literal _ = true

abbrev pub exact_op : Ty → BinOp → Bool
exact_op w op = is_wide w op && not (is_shr op)

abbrev pub exact_unary : Ty → UnOp → Bool
exact_unary w UnOp.neg = bits w == 64
exact_unary w UnOp.bit_not = bits w == 64
exact_unary w _ = true

abbrev pub exact_kind : Kind → ℕ → Bool
exact_kind Types.int b = b == 64
exact_kind Types.float b = b == 64
exact_kind Types.uint b = false
exact_kind _ b = true

abbrev pub exact_cast : Ty → Bool
exact_cast target = exact_kind (kind target) (bits target)

-- The constants in the expression are exact, and so is all that folding may make of them.
unfoldable pub exact_const : HirExpr → Bool
exact_const (int_lit _ a is_u) = not is_u && is_int64 a
exact_const (binary w _ op l r) = exact_op w op && exact_const l && exact_const r
exact_const (unary w op e) = exact_unary w op && exact_const e
exact_const (cast _ target e) = exact_cast target && exact_const e
exact_const _ = true

abbrev pub const_ok : Const → Bool
const_ok (int_const a is_u) = not is_u && is_int64 a
const_ok _ = true

-- No `break` or `continue` ends the statement, nor what the optimiser makes of it. How a jump leaves
-- a `try`, a `lock` or a task is the target's, so these are not accepted.
unfoldable mutual
  unfolding never_literal

  pub no_jump : HirStmt → Bool
  no_jump break = false
  no_jump continue = false
  no_jump (block b) = no_jump_block b
  no_jump (if_stmt c a b) = no_jump_block a && no_jump b
  no_jump (for_stmt i c step b) = no_jump i
  no_jump (do_while c b) = never_literal c || no_jump_block b
  no_jump (try_stmt _ _ _) = false
  no_jump (lock _ _) = false
  no_jump (spawn _ _) = false
  no_jump (parallel _ _ _) = false
  no_jump (parallel_foreach _ _ _) = false
  no_jump _ = true

  pub no_jump_list : HirStmts → Bool
  no_jump_list nil_stmts = true
  no_jump_list (cons_stmts s ss) = no_jump s && no_jump_list ss

  pub no_jump_block : HirBlock → Bool
  no_jump_block null_block = true
  no_jump_block (body _ ss) = no_jump_list ss

unfoldable mutual
  unfolding never_literal exact_const no_jump

  pub exact : HirExpr → Bool
  exact (binary w b op l r) =
      (is_derived b
        || never_literal l
        || never_literal r
        || exact_op w op && exact_const l && exact_const r)
      && exact l
      && exact r
  exact (unary w op e) =
      (is_step_op op || never_literal e || exact_unary w op && exact_const e) && exact e
  exact (cast _ target e) = (never_literal e || exact_cast target && exact_const e) && exact e
  exact (member _ _ o) = exact o
  exact (index _ _ o i) = exact o && exact i
  exact (array_lit _ es) = exact_all es
  exact (call _ _ args _) = exact_all args
  exact (assign _ _ target e) = exact target && exact e
  exact (new _ _ args) = exact_all args
  exact (cell_tag _ e) = exact e
  exact (load_at _ e _) = exact e
  exact (opt_ctor _ _ e) = exact e
  exact (spawn_expr _ b _) = exact_block b
  exact (await _ e) = exact e
  exact _ = true

  pub exact_all : HirExprs → Bool
  exact_all nil_exprs = true
  exact_all (cons_exprs e es) = exact e && exact_all es

  pub exact_stmt : HirStmt → Bool
  exact_stmt null_stmt = true
  exact_stmt (block b) = exact_block b
  exact_stmt (var_decl _ e) = exact e
  exact_stmt (expr_stmt e) = exact e
  exact_stmt (return e) = exact e
  exact_stmt (if_stmt c a b) = exact c && exact_block a && exact_stmt b
  exact_stmt (while_stmt c b) = exact c && exact_block b
  exact_stmt (do_while c b) = (never_literal c || no_jump_block b) && exact c && exact_block b
  exact_stmt (for_stmt i c step b) = exact_stmt i && exact c && exact_block b
  exact_stmt break = true
  exact_stmt continue = true
  exact_stmt (panic e) = exact e
  exact_stmt (assert e _) = exact e
  exact_stmt (throw e) = exact e
  exact_stmt (try_stmt _ b c) = exact_block b && exact_block c
  exact_stmt (lock e b) = exact e && exact_block b
  exact_stmt (spawn b _) = exact_block b
  exact_stmt (parallel _ _ bs) = exact_blocks bs
  exact_stmt (parallel_foreach _ e b) = exact e && exact_block b

  pub exact_list : HirStmts → Bool
  exact_list nil_stmts = true
  exact_list (cons_stmts s ss) = exact_stmt s && exact_list ss

  pub exact_block : HirBlock → Bool
  exact_block null_block = true
  exact_block (body _ ss) = exact_list ss

  pub exact_blocks : HirBlocks → Bool
  exact_blocks nil_blocks = true
  exact_blocks (cons_blocks b bs) = exact_block b && exact_blocks bs
