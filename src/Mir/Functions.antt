-- ===== src/Mir/Functions.antt =====
-- What `lowerStmt` of compiler/src/mir/mir.cpp does to the labels, the jumps and the ends of blocks, by
-- induction on the statement.
use hphl.Base.{ℕ, true, not, [], ◌∷◌, String, ◌≡◌, refl, Bool-cases, inl, inr, arith}
use hphl.Hir.{
  HirBlock, null_block, body, HirStmt, null_stmt, block, var_decl, expr_stmt, return, if_stmt,
  while_stmt, for_stmt, break, continue, HirStmts, nil_stmts, cons_stmts,
}
use hphl.Json.{Bytes}
use hphl.Mir.{codes}
use hphl.Mir.Stmts.{
  Loops, lower_break, lower_continue, is_null_expr, is_null_stmt, lower_stmt, lower_block,
  lower_stmts,
}
use hphl.Mir.Labels.{is_base, has_no_digit, stays, then_on, weaker, joined}
use hphl.Mir.StmtMoves.{
  exits, Keeps, quiet, jump_from-Extends, lower_if-Extends, lower_while-Extends, lower_for-Extends,
}
use hphl.Mir.ExprMoves.{plainly, lower_expr-Extends}

is_base-after_br : is_base (codes "after.br") ≡ true
unfolding is_base has_no_digit
is_base-after_br = refl

is_base-after_cont : is_base (codes "after.cont") ≡ true
unfolding is_base has_no_digit
is_base-after_cont = refl

module _ (t : Bytes) (decl_name decl_owner : ℕ → String) (print : ℕ → Bytes) where
  mutual
    unfolding lower_stmt lower_break lower_continue exits

    pub lower_stmt-Extends :
        (s : HirStmt) (loops : Loops)
        → Keeps t (exits t loops) (lower_stmt decl_name decl_owner print s loops)
    lower_stmt-Extends null_stmt loops st = quiet t loops (stays t st)
    lower_stmt-Extends (block b) loops st = lower_block-Extends b loops st
    lower_stmt-Extends (var_decl v e) loops st = elim (Bool-cases (is_null_expr e)) [
      | inl h ↦ rw h (quiet t loops (stays t st))
      | inr h ↦ rw h (
          quiet t loops
            (then_on t (lower_expr-Extends t decl_name decl_owner print e st) (plainly t _ _ refl)))
    ]
    lower_stmt-Extends (expr_stmt e) loops st =
        quiet t loops (lower_expr-Extends t decl_name decl_owner print e st)
    lower_stmt-Extends (return e) loops st =
        quiet t loops
          (then_on t (lower_expr-Extends t decl_name decl_owner print e st) (plainly t _ _ refl))
    lower_stmt-Extends (if_stmt c a b) loops st =
        lower_if-Extends t (not (is_null_stmt b)) _ _ _ (exits t loops)
          (lower_expr-Extends t decl_name decl_owner print c) (lower_block-Extends a loops)
          (lower_stmt-Extends b loops) st
    lower_stmt-Extends (while_stmt c b) loops st =
        lower_while-Extends t _ _ loops (lower_expr-Extends t decl_name decl_owner print c)
          (λ l. lower_block-Extends b (l ∷ loops)) st
    lower_stmt-Extends (for_stmt i c k b) loops st =
        lower_for-Extends t (not (is_null_expr c)) _ _ _ _ loops (lower_stmt-Extends i loops)
          (lower_expr-Extends t decl_name decl_owner print c)
          (lower_expr-Extends t decl_name decl_owner print k)
          (λ l. lower_block-Extends b (l ∷ loops)) st
    lower_stmt-Extends break [] st = stays t st
    lower_stmt-Extends break ((x, y) ∷ loops) st =
        weaker t (jump_from-Extends t x "after.br" is_base-after_br st) (omega arith) refl
    lower_stmt-Extends continue [] st = stays t st
    lower_stmt-Extends continue ((x, y) ∷ loops) st =
        weaker t (jump_from-Extends t y "after.cont" is_base-after_cont st) (omega arith) refl
    lower_stmt-Extends s loops st = quiet t loops (plainly t _ st refl)

    pub lower_block-Extends :
        (b : HirBlock) (loops : Loops)
        → Keeps t (exits t loops) (lower_block decl_name decl_owner print b loops)
    lower_block-Extends null_block loops st = quiet t loops (stays t st)
    lower_block-Extends (body scope ss) loops st = lower_stmts-Extends ss loops st

    pub lower_stmts-Extends :
        (ss : HirStmts) (loops : Loops)
        → Keeps t (exits t loops) (lower_stmts decl_name decl_owner print ss loops)
    lower_stmts-Extends nil_stmts loops st = quiet t loops (stays t st)
    lower_stmts-Extends (cons_stmts s ss) loops st =
        joined t (lower_stmt-Extends s loops st) (lower_stmts-Extends ss loops _)
