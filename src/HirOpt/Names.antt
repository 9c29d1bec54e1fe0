-- ===== src/HirOpt/Names.antt =====
-- The names that code mentions, against which the collected names are compared.
use text.Mathlib.Text.{◌==◌ as str_eq}
use hphl.Base.{String, Bool, true, false, ◌&&◌, ◌||◌}
use hphl.Hir.{
  Captures, no_captures, capture, HirExpr, null_expr, var, member, index, array_lit, tuple_lit,
  call, binary, unary, assign, cast, new, cell_tag, load_at, opt_ctor, spawn_expr, await, lambda,
  HirExprs, nil_exprs, cons_exprs, HirBlock, null_block, body, HirStmt, block, var_decl, expr_stmt,
  return, if_stmt, while_stmt, do_while, for_stmt, panic, assert, throw, try_stmt, lock, spawn,
  parallel, parallel_foreach, HirStmts, nil_stmts, cons_stmts, HirBlocks, nil_blocks, cons_blocks,
}

abbrev pub captured : String → Captures → Bool
captured x no_captures = false
captured x (capture y t cs) = str_eq x y || captured x cs

-- Does the code mention the variable `x`? The body of a lambda mentions what it captures.
unfoldable mutual
  pub mentions : String → HirExpr → Bool
  mentions x (var _ v) = str_eq x v.name
  mentions x (member _ _ o) = mentions x o
  mentions x (index _ _ o i) = mentions x o || mentions x i
  mentions x (array_lit _ es) = mentions_any x es
  mentions x (tuple_lit _ es) = mentions_any x es
  mentions x (call _ _ args f) = mentions_any x args || mentions x f
  mentions x (binary _ _ _ l r) = mentions x l || mentions x r
  mentions x (unary _ _ e) = mentions x e
  mentions x (assign _ _ target e) = mentions x target || mentions x e
  mentions x (cast _ _ e) = mentions x e
  mentions x (new _ _ args) = mentions_any x args
  mentions x (cell_tag _ e) = mentions x e
  mentions x (load_at _ e _) = mentions x e
  mentions x (opt_ctor _ _ e) = mentions x e
  mentions x (spawn_expr _ b _) = mentions_block x b
  mentions x (await _ e) = mentions x e
  mentions x (lambda _ l _) = captured x l.captures
  mentions x _ = false

  pub mentions_any : String → HirExprs → Bool
  mentions_any x nil_exprs = false
  mentions_any x (cons_exprs e es) = mentions x e || mentions_any x es

  pub mentions_stmt : String → HirStmt → Bool
  mentions_stmt x (block b) = mentions_block x b
  mentions_stmt x (var_decl _ e) = mentions x e
  mentions_stmt x (expr_stmt e) = mentions x e
  mentions_stmt x (return e) = mentions x e
  mentions_stmt x (if_stmt c a b) = mentions x c || mentions_block x a || mentions_stmt x b
  mentions_stmt x (while_stmt c b) = mentions x c || mentions_block x b
  mentions_stmt x (do_while c b) = mentions x c || mentions_block x b
  mentions_stmt x (for_stmt i c step b) =
      mentions_stmt x i || mentions x c || mentions x step || mentions_block x b
  mentions_stmt x (panic e) = mentions x e
  mentions_stmt x (assert e _) = mentions x e
  mentions_stmt x (throw e) = mentions x e
  mentions_stmt x (try_stmt _ b c) = mentions_block x b || mentions_block x c
  mentions_stmt x (lock e b) = mentions x e || mentions_block x b
  mentions_stmt x (spawn b _) = mentions_block x b
  mentions_stmt x (parallel _ _ bs) = mentions_blocks x bs
  mentions_stmt x (parallel_foreach _ e b) = mentions x e || mentions_block x b
  mentions_stmt x _ = false

  pub mentions_list : String → HirStmts → Bool
  mentions_list x nil_stmts = false
  mentions_list x (cons_stmts s ss) = mentions_stmt x s || mentions_list x ss

  pub mentions_block : String → HirBlock → Bool
  mentions_block x null_block = false
  mentions_block x (body _ ss) = mentions_list x ss

  pub mentions_blocks : String → HirBlocks → Bool
  mentions_blocks x nil_blocks = false
  mentions_blocks x (cons_blocks b bs) = mentions_block x b || mentions_blocks x bs

abbrev is_absent : HirExpr → Bool
is_absent null_expr = true
is_absent _ = false

-- No tuple literal, and no indirect call.
unfoldable mutual
  pub is_plain : HirExpr → Bool
  is_plain (tuple_lit _ _) = false
  is_plain (call _ _ args f) = is_plain_all args && is_absent f
  is_plain (member _ _ o) = is_plain o
  is_plain (index _ _ o i) = is_plain o && is_plain i
  is_plain (array_lit _ es) = is_plain_all es
  is_plain (binary _ _ _ l r) = is_plain l && is_plain r
  is_plain (unary _ _ e) = is_plain e
  is_plain (assign _ _ target e) = is_plain target && is_plain e
  is_plain (cast _ _ e) = is_plain e
  is_plain (new _ _ args) = is_plain_all args
  is_plain (cell_tag _ e) = is_plain e
  is_plain (load_at _ e _) = is_plain e
  is_plain (opt_ctor _ _ e) = is_plain e
  is_plain (spawn_expr _ b _) = is_plain_block b
  is_plain (await _ e) = is_plain e
  is_plain _ = true

  pub is_plain_all : HirExprs → Bool
  is_plain_all nil_exprs = true
  is_plain_all (cons_exprs e es) = is_plain e && is_plain_all es

  pub is_plain_stmt : HirStmt → Bool
  is_plain_stmt (block b) = is_plain_block b
  is_plain_stmt (var_decl _ e) = is_plain e
  is_plain_stmt (expr_stmt e) = is_plain e
  is_plain_stmt (return e) = is_plain e
  is_plain_stmt (if_stmt c a b) = is_plain c && is_plain_block a && is_plain_stmt b
  is_plain_stmt (while_stmt c b) = is_plain c && is_plain_block b
  is_plain_stmt (do_while c b) = is_plain c && is_plain_block b
  is_plain_stmt (for_stmt i c step b) =
      is_plain_stmt i && is_plain c && is_plain step && is_plain_block b
  is_plain_stmt (panic e) = is_plain e
  is_plain_stmt (assert e _) = is_plain e
  is_plain_stmt (throw e) = is_plain e
  is_plain_stmt (try_stmt _ b c) = is_plain_block b && is_plain_block c
  is_plain_stmt (lock e b) = is_plain e && is_plain_block b
  is_plain_stmt (spawn b _) = is_plain_block b
  is_plain_stmt (parallel _ _ bs) = is_plain_blocks bs
  is_plain_stmt (parallel_foreach _ e b) = is_plain e && is_plain_block b
  is_plain_stmt _ = true

  pub is_plain_list : HirStmts → Bool
  is_plain_list nil_stmts = true
  is_plain_list (cons_stmts s ss) = is_plain_stmt s && is_plain_list ss

  pub is_plain_block : HirBlock → Bool
  is_plain_block null_block = true
  is_plain_block (body _ ss) = is_plain_list ss

  pub is_plain_blocks : HirBlocks → Bool
  is_plain_blocks nil_blocks = true
  is_plain_blocks (cons_blocks b bs) = is_plain_block b && is_plain_blocks bs
