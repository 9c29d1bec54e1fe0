-- ===== src/Mir/Temps.antt =====
-- The statements that `MirLower` of compiler/src/mir/mir.cpp lowers, as steps of the builder, and the
-- temporaries that a lowered function writes.
use hphl.Base.{
  ℕ, suc, Bool, true, false, not, List, [], ◌∷◌, ◌++◌, String, if◌then◌else◌, ◌≡◌, refl, Bool-cases,
  inl, inr,
}
use hphl.Hir.{
  HirBlock, null_block, body, HirStmt, null_stmt, block, var_decl, expr_stmt, return, if_stmt,
  while_stmt, for_stmt, break, continue, HirStmts, nil_stmts, cons_stmts,
}
use hphl.Json.{Bytes}
use hphl.Mir
use hphl.Mir.{codes, MirInst, MirBlock}
use hphl.Json.Text.{decimal}
use hphl.Mir.Lower.{Lower, Gen, emit, br_to, cond_br_to}
use hphl.Mir.Stmts.{
  Loops, jump_from, lower_break, lower_continue, lower_if, lower_while, lower_for, is_null_expr,
  is_null_stmt, lower_stmt, lower_block, lower_stmts,
}
use hphl.Mir.Builds.{
  Builds, same, plainly, counted, Builds-trans, Builds-start_block, Builds-close_with,
}
use hphl.Mir.ExprBuilds.{Builder, lower_expr-Builder}

abbrev StmtBuilder : (Lower → Lower) → Type 0
StmtBuilder f = (st : Lower) → Builds st (f st)

jump_from-StmtBuilder : (target : Bytes) (base : String) → StmtBuilder (jump_from target base)
unfolding jump_from emit
jump_from-StmtBuilder target base st = Builds-start_block _ (counted _ (plainly _ same refl))

lower_if-StmtBuilder :
    (has_else : Bool) (f : Gen) (g h : Lower → Lower)
    → Builder f
    → StmtBuilder g
    → StmtBuilder h
    → StmtBuilder (lower_if has_else f g h)
unfolding lower_if
lower_if-StmtBuilder true f g h p q r st =
    let body =
      Builds-close_with _
        (Builds-trans (Builds-start_block _ (plainly _ (counted _ (p st)) refl)) (q _)) refl in
    Builds-start_block _ (Builds-close_with _ (Builds-trans (Builds-start_block _ body) (r _)) refl)
lower_if-StmtBuilder false f g h p q r st = Builds-start_block _ (
    Builds-close_with _
      (Builds-trans (Builds-start_block _ (plainly _ (counted _ (p st)) refl)) (q _)) refl)

lower_while-StmtBuilder :
    (f : Gen) (g : Bytes × Bytes → Lower → Lower)
    → Builder f
    → ((l : Bytes × Bytes) → StmtBuilder (g l))
    → StmtBuilder (lower_while f g)
unfolding lower_while
lower_while-StmtBuilder f g p q st = Builds-start_block _ (
    plainly _
      (Builds-trans
        (Builds-start_block _ (
          plainly _ (Builds-trans (Builds-start_block _ (plainly _ (counted _ same) refl)) (p _))
            refl))
        (q _ _))
      refl)

condition :
    (b : Bool) (f : Gen) (i : Bytes → MirInst)
    → Builder f
    → ((c : Bytes) → Mir.Builds.result_of (i c) ≡ [])
    → (a : Lower) → Builds a (if b then emit (i (f a).0) (f a).1 else a)
condition true f i p e a = plainly _ (p a) (e (f a).0)
condition false f i p e a = same

lower_for-StmtBuilder :
    (has_cond : Bool) (i : Lower → Lower) (f k : Gen) (g : Bytes × Bytes → Lower → Lower)
    → StmtBuilder i
    → Builder f
    → Builder k
    → ((l : Bytes × Bytes) → StmtBuilder (g l))
    → StmtBuilder (lower_for has_cond i f k g)
unfolding lower_for
lower_for-StmtBuilder has_cond i f k g o p r q st =
    let n = (i st).block_counter in
    let cond_label = codes "for.cond" ++ decimal n in
    let body_label = codes "for.body" ++ decimal (suc n) in
    let end_label = codes "for.end" ++ decimal (suc (suc (suc n))) in
    Builds-start_block end_label (
      plainly (br_to cond_label)
        (Builds-trans
          (Builds-start_block _ (
            Builds-trans
              (Builds-start_block body_label (
                Builds-trans
                  (Builds-start_block cond_label
                    (plainly (br_to cond_label) (counted (suc (suc (suc (suc n)))) (o st)) refl))
                  (condition has_cond f (λ c. cond_br_to c body_label end_label) p (λ c. refl) _)))
              (q (end_label, codes "for.step" ++ decimal (suc (suc n))) _)))
          (r _))
        refl)

module _ (decl_name decl_owner : ℕ → String) (print : ℕ → Bytes) where
  mutual
    unfolding lower_stmt lower_break lower_continue

    lower_stmt-StmtBuilder :
        (s : HirStmt) (loops : Loops) → StmtBuilder (lower_stmt decl_name decl_owner print s loops)
    lower_stmt-StmtBuilder null_stmt loops st = same
    lower_stmt-StmtBuilder (block b) loops st = lower_block-StmtBuilder b loops st
    lower_stmt-StmtBuilder (var_decl v e) loops st = elim (Bool-cases (is_null_expr e)) [
      | inl h ↦ rw h same
      | inr h ↦ rw h (plainly _ (lower_expr-Builder decl_name decl_owner print e st) refl)
    ]
    lower_stmt-StmtBuilder (expr_stmt e) loops st =
        lower_expr-Builder decl_name decl_owner print e st
    lower_stmt-StmtBuilder (return e) loops st =
        plainly _ (lower_expr-Builder decl_name decl_owner print e st) refl
    lower_stmt-StmtBuilder (if_stmt c a b) loops st =
        lower_if-StmtBuilder (not (is_null_stmt b)) _ _ _
          (lower_expr-Builder decl_name decl_owner print c) (lower_block-StmtBuilder a loops)
          (lower_stmt-StmtBuilder b loops) st
    lower_stmt-StmtBuilder (while_stmt c b) loops st =
        lower_while-StmtBuilder _ _ (lower_expr-Builder decl_name decl_owner print c)
          (λ l. lower_block-StmtBuilder b (l ∷ loops)) st
    lower_stmt-StmtBuilder (for_stmt i c k b) loops st =
        lower_for-StmtBuilder (not (is_null_expr c)) _ _ _ _ (lower_stmt-StmtBuilder i loops)
          (lower_expr-Builder decl_name decl_owner print c)
          (lower_expr-Builder decl_name decl_owner print k)
          (λ l. lower_block-StmtBuilder b (l ∷ loops)) st
    lower_stmt-StmtBuilder break [] st = same
    lower_stmt-StmtBuilder break ((x, y) ∷ loops) st = jump_from-StmtBuilder x "after.br" st
    lower_stmt-StmtBuilder continue [] st = same
    lower_stmt-StmtBuilder continue ((x, y) ∷ loops) st = jump_from-StmtBuilder y "after.cont" st
    lower_stmt-StmtBuilder s loops st = plainly _ same refl

    lower_block-StmtBuilder :
        (b : HirBlock) (loops : Loops)
        → StmtBuilder (lower_block decl_name decl_owner print b loops)
    lower_block-StmtBuilder null_block loops st = same
    lower_block-StmtBuilder (body scope ss) loops st = lower_stmts-StmtBuilder ss loops st

    lower_stmts-StmtBuilder :
        (ss : HirStmts) (loops : Loops)
        → StmtBuilder (lower_stmts decl_name decl_owner print ss loops)
    lower_stmts-StmtBuilder nil_stmts loops st = same
    lower_stmts-StmtBuilder (cons_stmts s ss) loops st =
        Builds-trans (lower_stmt-StmtBuilder s loops st) (lower_stmts-StmtBuilder ss loops _)
