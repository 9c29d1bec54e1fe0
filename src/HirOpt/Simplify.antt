-- ===== src/HirOpt/Simplify.antt =====
-- `foldExpr` over a whole tree, `simplifyStmt` and `simplifyList`, and the rounds of `hirOptimize`.
use hphl.Base.{ℕ, zero, suc, Bool, true, false, not, Option, none, some, if◌then◌else◌}
use hphl.Types.{Ty}
use hphl.Hir.{
  BinOp, UnOp, BinaryAttrs, HirExpr, member, index, array_lit, call, binary, unary, assign, cast,
  new, cell_tag, load_at, opt_ctor, spawn_expr, await, HirExprs, nil_exprs, cons_exprs, HirBlock,
  null_block, body, HirStmt, null_stmt, block, var_decl, expr_stmt, return, if_stmt, while_stmt,
  do_while, for_stmt, break, continue, panic, assert, throw, try_stmt, lock, spawn, parallel,
  parallel_foreach, HirStmts, nil_stmts, cons_stmts, HirBlocks, nil_blocks, cons_blocks,
  stmt_of_block,
}
use hphl.HirOpt.Doubles.{Doubles}
use hphl.HirOpt.Fold.{
  is_zero, Const, int_const, bool_const, as_const, try_fold_binary, try_fold_unary, try_fold_cast,
}

-- `if (auto repl = …) e = std::move(repl);`
abbrev pub or_keep : Option HirExpr → HirExpr → HirExpr
or_keep none e = e
or_keep (some r) e = r

module _ (d : Doubles) where
  -- A node whose operands are folded, and then the node itself.
  unfoldable pub fold_binary : Ty → BinaryAttrs → BinOp → HirExpr → HirExpr → HirExpr
  fold_binary t b op l r = or_keep (try_fold_binary d t b op l r) (binary t b op l r)

  unfoldable pub fold_unary : Ty → UnOp → HirExpr → HirExpr
  fold_unary t op e = or_keep (try_fold_unary d t op e) (unary t op e)

  unfoldable pub fold_cast : Ty → Ty → HirExpr → HirExpr
  fold_cast t target e = or_keep (try_fold_cast d t target e) (cast t target e)

-- `stmtCondIsTrue`: the value of a constant condition, a truth value or an integer.
abbrev pub const_cond : Const → Option Bool
const_cond (bool_const b) = some b
const_cond (int_const a _) = some (not (is_zero a))
const_cond _ = none

unfoldable pub cond_value : HirExpr → Option Bool
cond_value c = const_cond (as_const c)

-- A simplified statement is dropped from its list where nothing is left of it.
abbrev pub keep : HirStmt → HirStmts → HirStmts
keep null_stmt ss = ss
keep s ss = cons_stmts s ss

-- What becomes of an `if`, a `while`, a `do` and a `for` by its folded condition. `rest` is the
-- statement with its parts simplified, and the flag `changed`.
abbrev pub choose_if : Option Bool → HirBlock → HirStmt → HirStmt × Bool → HirStmt × Bool
choose_if (some true) t e rest = (stmt_of_block t, true)
choose_if (some false) t e rest = (e, true)
choose_if none t e rest = rest

abbrev pub drop_if_false : Option Bool → HirStmt → HirStmt × Bool → HirStmt × Bool
drop_if_false (some false) left rest = (left, true)
drop_if_false _ left rest = rest

-- The flag `changed` goes in and comes out with every call.
module _ (d : Doubles) where
  unfoldable mutual
    unfolding fold_binary fold_unary fold_cast cond_value

    -- `foldExpr`
    pub fold_expr : HirExpr → HirExpr
    fold_expr (binary t b op l r) = fold_binary d t b op (fold_expr l) (fold_expr r)
    fold_expr (unary t op e) = fold_unary d t op (fold_expr e)
    fold_expr (cast t target e) = fold_cast d t target (fold_expr e)
    fold_expr (assign t op target e) = assign t op (fold_expr target) (fold_expr e)
    fold_expr (call t c args f) = call t c (fold_exprs args) f
    fold_expr (new t n args) = new t n (fold_exprs args)
    fold_expr (array_lit t es) = array_lit t (fold_exprs es)
    fold_expr (index t lb o i) = index t lb (fold_expr o) (fold_expr i)
    fold_expr (member t m o) = member t m (fold_expr o)
    fold_expr (cell_tag t e) = cell_tag t (fold_expr e)
    fold_expr (load_at t e off) = load_at t (fold_expr e) off
    fold_expr (opt_ctor t v e) = opt_ctor t v (fold_expr e)
    fold_expr (await t e) = await t (fold_expr e)
    fold_expr (spawn_expr t b caps) = spawn_expr t (simplify_block b false).0 caps
    fold_expr e = e

    pub fold_exprs : HirExprs → HirExprs
    fold_exprs nil_exprs = nil_exprs
    fold_exprs (cons_exprs e es) = cons_exprs (fold_expr e) (fold_exprs es)

    -- `simplifyStmt`
    pub simplify_stmt : HirStmt → Bool → HirStmt × Bool
    simplify_stmt null_stmt ch = (null_stmt, ch)
    simplify_stmt (if_stmt c t e) ch =
        let (t', ch1) = simplify_block t ch in
        let (e', ch2) = simplify_stmt e ch1 in
        choose_if (cond_value (fold_expr c)) t e (if_stmt (fold_expr c) t' e', ch2)
    simplify_stmt (while_stmt c b) ch =
        let (b', ch1) = simplify_block b ch in
        drop_if_false (cond_value (fold_expr c)) null_stmt (while_stmt (fold_expr c) b', ch1)
    simplify_stmt (do_while c b) ch =
        let (b', ch1) = simplify_block b ch in
        drop_if_false (cond_value (fold_expr c)) (stmt_of_block b') (do_while (fold_expr c) b', ch1)
    simplify_stmt (for_stmt i c s b) ch =
        let (b', ch1) = simplify_block b ch in
        drop_if_false (cond_value (fold_expr c)) i (for_stmt i (fold_expr c) s b', ch1)
    simplify_stmt (block b) ch = let (b', ch1) = simplify_block b ch in (block b', ch1)
    simplify_stmt (var_decl v e) ch = (var_decl v (fold_expr e), ch)
    simplify_stmt (expr_stmt e) ch = (expr_stmt (fold_expr e), ch)
    simplify_stmt (return e) ch = (return (fold_expr e), ch)
    simplify_stmt (assert e line) ch = (assert (fold_expr e) line, ch)
    simplify_stmt (panic e) ch = (panic (fold_expr e), ch)
    simplify_stmt (throw e) ch = (throw (fold_expr e), ch)
    simplify_stmt (try_stmt a b c) ch =
        let (b', ch1) = simplify_block b ch in
        let (c', ch2) = simplify_block c ch1 in (try_stmt a b' c', ch2)
    simplify_stmt (lock e b) ch =
        let (b', ch1) = simplify_block b ch in (lock (fold_expr e) b', ch1)
    simplify_stmt (spawn b caps) ch = let (b', ch1) = simplify_block b ch in (spawn b' caps, ch1)
    simplify_stmt (parallel det caps bs) ch =
        let (bs', ch1) = simplify_blocks bs ch in (parallel det caps bs', ch1)
    simplify_stmt (parallel_foreach a e b) ch =
        let (b', ch1) = simplify_block b ch in (parallel_foreach a (fold_expr e) b', ch1)
    simplify_stmt break ch = (break, ch)
    simplify_stmt continue ch = (continue, ch)

    -- `simplifyList`, on the statements of a block.
    pub simplify_list : HirStmts → Bool → HirStmts × Bool
    simplify_list nil_stmts ch = (nil_stmts, ch)
    simplify_list (cons_stmts s ss) ch =
        let (s', ch1) = simplify_stmt s ch in
        let (ss', ch2) = simplify_list ss ch1 in (keep s' ss', ch2)

    pub simplify_block : HirBlock → Bool → HirBlock × Bool
    simplify_block null_block ch = (null_block, ch)
    simplify_block (body scope ss) ch =
        let (ss', ch1) = simplify_list ss ch in (body scope ss', ch1)

    pub simplify_blocks : HirBlocks → Bool → HirBlocks × Bool
    simplify_blocks nil_blocks ch = (nil_blocks, ch)
    simplify_blocks (cons_blocks b bs) ch =
        let (b', ch1) = simplify_block b ch in
        let (bs', ch2) = simplify_blocks bs ch1 in (cons_blocks b' bs', ch2)

  -- `while (changed && rounds < 4)`, with the rounds that are left.
  unfoldable pub simplify_rounds : ℕ → HirBlock → HirBlock
  simplify_rounds zero b = b
  simplify_rounds (suc n) b =
      let (b', changed) = simplify_block b false in
      let again = simplify_rounds n b' in if changed then again else b'
