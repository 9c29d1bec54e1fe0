-- ===== src/HirOpt/Dce.antt =====
-- Removal of unused locals: `collectNamesExpr`, `collectNames`, `dceLocal`, `dceBlock`, `dceStmt`,
-- and the whole pass, `hirOptimize`.
use text.Mathlib.Text.{◌==◌ as str_eq}
use hphl.Base.{String, Bool, true, false, ◌||◌, List, [], ◌∷◌, if◌then◌else◌}
use hphl.Types
use hphl.Types.{Ty, Kind, kind}
use hphl.Hir.{
  VarDeclAttrs, Captures, no_captures, capture, HirExpr, var, member, index, array_lit, call,
  binary, unary, assign, cast, new, cell_tag, load_at, opt_ctor, spawn_expr, await, lambda,
  HirExprs, nil_exprs, cons_exprs, HirBlock, null_block, body, HirStmt, null_stmt, block, var_decl,
  expr_stmt, return, if_stmt, while_stmt, do_while, for_stmt, break, continue, panic, assert, throw,
  try_stmt, lock, spawn, parallel, parallel_foreach, HirStmts, nil_stmts, cons_stmts, HirBlocks,
  nil_blocks, cons_blocks, HirFunction,
}
use hphl.HirOpt.Doubles.{Doubles}
use hphl.HirOpt.Fold.{pure_expr}
use hphl.HirOpt.Simplify.{simplify_rounds}

-- A `std::set<std::string>`, as the list of its members.
abbrev pub Names : Type 0
Names = List String

abbrev pub contains : String → Names → Bool
contains x [] = false
contains x (y ∷ ys) = str_eq x y || contains x ys

abbrev pub insert : String → Names → Names
insert x ys = if contains x ys then ys else x ∷ ys

-- An empty name is not inserted.
abbrev pub insert_name : String → Names → Names
insert_name x ys = if str_eq x "" then ys else insert x ys

unfoldable pub insert_captures : Captures → Names → Names
insert_captures no_captures used = used
insert_captures (capture x t cs) used = insert_captures cs (insert_name x used)

unfoldable mutual
  unfolding insert_captures

  -- `collectNamesExpr`
  pub collect_expr : HirExpr → Names → Names
  collect_expr (var t v) used = insert_name v.name used
  collect_expr (binary t b op l r) used = collect_expr r (collect_expr l used)
  collect_expr (unary t op e) used = collect_expr e used
  collect_expr (cast t target e) used = collect_expr e used
  collect_expr (assign t op target e) used = collect_expr e (collect_expr target used)
  collect_expr (call t c args f) used = collect_exprs args used
  collect_expr (new t n args) used = collect_exprs args used
  collect_expr (array_lit t es) used = collect_exprs es used
  collect_expr (index t lb o i) used = collect_expr i (collect_expr o used)
  collect_expr (member t m o) used = collect_expr o used
  collect_expr (spawn_expr t b caps) used = collect_block b used
  collect_expr (lambda t l b) used = insert_captures l.captures used
  collect_expr (cell_tag t e) used = collect_expr e used
  collect_expr (load_at t e off) used = collect_expr e used
  collect_expr (opt_ctor t v e) used = collect_expr e used
  collect_expr (await t e) used = collect_expr e used
  collect_expr _ used = used

  pub collect_exprs : HirExprs → Names → Names
  collect_exprs nil_exprs used = used
  collect_exprs (cons_exprs e es) used = collect_exprs es (collect_expr e used)

  -- `collectNames`
  pub collect_stmt : HirStmt → Names → Names
  collect_stmt null_stmt used = used
  collect_stmt (block b) used = collect_block b used
  collect_stmt (var_decl v e) used = collect_expr e used
  collect_stmt (expr_stmt e) used = collect_expr e used
  collect_stmt (return e) used = collect_expr e used
  collect_stmt (if_stmt c a b) used = collect_stmt b (collect_block a (collect_expr c used))
  collect_stmt (while_stmt c b) used = collect_block b (collect_expr c used)
  collect_stmt (do_while c b) used = collect_block b (collect_expr c used)
  collect_stmt (for_stmt i c step b) used =
      collect_block b (collect_expr step (collect_expr c (collect_stmt i used)))
  collect_stmt break used = used
  collect_stmt continue used = used
  collect_stmt (panic e) used = collect_expr e used
  collect_stmt (assert e line) used = collect_expr e used
  collect_stmt (throw e) used = collect_expr e used
  collect_stmt (try_stmt a b c) used = collect_block c (collect_block b used)
  collect_stmt (lock e b) used = collect_block b (collect_expr e used)
  collect_stmt (spawn b caps) used = collect_block b used
  collect_stmt (parallel det caps bs) used = collect_blocks bs used
  collect_stmt (parallel_foreach a e b) used = collect_block b (collect_expr e used)

  pub collect_list : HirStmts → Names → Names
  collect_list nil_stmts used = used
  collect_list (cons_stmts s ss) used = collect_list ss (collect_stmt s used)

  pub collect_block : HirBlock → Names → Names
  collect_block null_block used = used
  collect_block (body scope ss) used = collect_list ss used

  pub collect_blocks : HirBlocks → Names → Names
  collect_blocks nil_blocks used = used
  collect_blocks (cons_blocks b bs) used = collect_blocks bs (collect_block b used)

-- The types that the runtime creates at their declaration.
abbrev pub is_created : Kind → Bool
is_created Types.list = true
is_created Types.mutex = true
is_created Types.semaphore = true
is_created Types.event = true
is_created Types.barrier = true
is_created _ = false

-- `dceLocal`: may the declaration be removed?
unfoldable pub dce_local : VarDeclAttrs → HirExpr → Names → Bool
dce_local v init used =
    if v.atomic
    then false
    else if is_created (kind v.decl_type)
    then false
    else if contains v.name used
    then false
    else pure_expr init

-- Is the statement a declaration that `dceBlock` removes?
unfoldable pub is_dead : HirStmt → Names → Bool
unfolding dce_local
is_dead (var_decl v e) used = dce_local v e used
is_dead _ used = false

unfoldable mutual
  unfolding is_dead

  -- `dceStmt`
  pub dce_stmt : HirStmt → Names → HirStmt
  dce_stmt (block b) used = block (dce_block b used)
  dce_stmt (if_stmt c a b) used = if_stmt c (dce_block a used) (dce_stmt b used)
  dce_stmt (while_stmt c b) used = while_stmt c (dce_block b used)
  dce_stmt (do_while c b) used = do_while c (dce_block b used)
  dce_stmt (for_stmt i c step b) used = for_stmt (dce_stmt i used) c step (dce_block b used)
  dce_stmt (try_stmt a b c) used = try_stmt a (dce_block b used) (dce_block c used)
  dce_stmt (lock e b) used = lock e (dce_block b used)
  dce_stmt (spawn b caps) used = spawn (dce_block b used) caps
  dce_stmt (parallel det caps bs) used = parallel det caps (dce_blocks bs used)
  dce_stmt (parallel_foreach a e b) used = parallel_foreach a e (dce_block b used)
  dce_stmt s used = s

  -- `dceBlock` on the statements of a block, and `dceStmt` on those that are left.
  pub dce_list : HirStmts → Names → HirStmts
  dce_list nil_stmts used = nil_stmts
  dce_list (cons_stmts s ss) used =
      let rest = dce_list ss used in
      if is_dead s used then rest else cons_stmts (dce_stmt s used) rest

  pub dce_block : HirBlock → Names → HirBlock
  dce_block null_block used = null_block
  dce_block (body scope ss) used = body scope (dce_list ss used)

  pub dce_blocks : HirBlocks → Names → HirBlocks
  dce_blocks nil_blocks used = nil_blocks
  dce_blocks (cons_blocks b bs) used = cons_blocks (dce_block b used) (dce_blocks bs used)

module _ (d : Doubles) where
  -- A function's body: up to four rounds of folding and branch elimination, then the removal of the
  -- locals that it does not use. A null body is left alone.
  unfoldable pub optimize_body : HirBlock → HirBlock
  optimize_body b = let simple = simplify_rounds d 4 b in dce_block simple (collect_block simple [])

  -- `hirOptimize`
  unfoldable pub hir_optimize : List HirFunction → List HirFunction
  unfolding optimize_body
  hir_optimize [] = []
  hir_optimize (f ∷ fs) = record f { body_block = optimize_body f.body_block } ∷ hir_optimize fs
