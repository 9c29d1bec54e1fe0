-- ===== src/HirOpt/Kept.antt =====
-- The declarations that `dceBlock` keeps, with the names that `collectNames` collects.
use text.Mathlib.Text.{◌==◌ as str_eq}
use text.Mathlib.TextEquality.{eq_iff}
use mathlib.Core.Bool.{false≢true}
use hphl.Base.{
  String, Bool, true, false, ◌||◌, ◌≡◌, refl, sym, ap, ◌∙◌, arith, [], inl, inr, Bool-cases,
  if◌then◌else◌,
}
use hphl.Types.{Ty, kind}
use hphl.Hir.{
  VarDeclAttrs, HirExpr, tuple_lit, HirExprs, HirBlock, null_block, body, HirStmt, block, var_decl,
  return, if_stmt, while_stmt, do_while, for_stmt, try_stmt, lock, spawn, parallel,
  parallel_foreach, HirStmts, nil_stmts, cons_stmts, HirBlocks, nil_blocks, cons_blocks,
}
use hphl.HirOpt.Fold.{pure_expr}
use hphl.HirOpt.Dce.{
  Names, contains, is_created, dce_local, is_dead, dce_stmt, dce_list, dce_block, dce_blocks,
  collect_expr, collect_block,
}
use hphl.HirOpt.Names.{mentions_block, is_plain_block}
use hphl.HirOpt.Collect.{collected_block}

-- Does a statement declare the local `x`, at any depth?
unfoldable mutual
  pub declares : String → HirStmt → Bool
  declares x (block b) = declares_block x b
  declares x (var_decl v e) = str_eq x v.name
  declares x (if_stmt c a b) = declares_block x a || declares x b
  declares x (while_stmt c b) = declares_block x b
  declares x (do_while c b) = declares_block x b
  declares x (for_stmt i c step b) = declares x i || declares_block x b
  declares x (try_stmt a b c) = declares_block x b || declares_block x c
  declares x (lock e b) = declares_block x b
  declares x (spawn b caps) = declares_block x b
  declares x (parallel det caps bs) = declares_blocks x bs
  declares x (parallel_foreach a e b) = declares_block x b
  declares x _ = false

  pub declares_list : String → HirStmts → Bool
  declares_list x nil_stmts = false
  declares_list x (cons_stmts s ss) = declares x s || declares_list x ss

  pub declares_block : String → HirBlock → Bool
  declares_block x null_block = false
  declares_block x (body scope ss) = declares_list x ss

  pub declares_blocks : String → HirBlocks → Bool
  declares_blocks x nil_blocks = false
  declares_blocks x (cons_blocks b bs) = declares_block x b || declares_blocks x bs

dead_guards :
    (a c u p : Bool)
    → (if a then false else if c then false else if u then false else p) ≡ true
    → u ≡ false
dead_guards true c u p h = absurd (false≢true h)
dead_guards false true u p h = absurd (false≢true h)
dead_guards false false true p h = absurd (false≢true h)
dead_guards false false false p h = refl

-- A declaration that is removed declares no collected name.
dead-declares :
    (x : String) (s : HirStmt) (used : Names)
    → contains x used ≡ true
    → is_dead s used ≡ true
    → declares x s ≡ false
unfolding is_dead dce_local declares
dead-declares x (var_decl v e) used u h = elim (Bool-cases (str_eq x v.name)) [
  | inl k ↦ absurd (
      false≢true (
        sym (
          dead_guards v.atomic (is_created (kind v.decl_type)) (contains v.name used) (pure_expr e)
            h)
        ∙ sym (ap (λ (y : String). contains y used) ((eq_iff x v.name).0 k))
        ∙ u))
  | inr k ↦ k
]
dead-declares x _ used u h = absurd (false≢true h)

both : (a b a' b' : Bool) → a ≡ a' → b ≡ b' → (a || b) ≡ (a' || b')
both a b a' b' p q = ground arith

none_left : (a b b' : Bool) → a ≡ false → b ≡ b' → b ≡ (a || b')
none_left a b b' p q = ground arith

module _ (x : String) (used : Names) (u : contains x used ≡ true) where
  mutual
    unfolding declares dce_stmt

    kept : (s : HirStmt) → declares x (dce_stmt s used) ≡ declares x s
    kept (block b) = kept_block b
    kept (if_stmt c a b) =
        both (declares_block x (dce_block a used)) (declares x (dce_stmt b used)) _ _ (kept_block a)
          (kept b)
    kept (while_stmt c b) = kept_block b
    kept (do_while c b) = kept_block b
    kept (for_stmt i c step b) =
        both (declares x (dce_stmt i used)) (declares_block x (dce_block b used)) _ _ (kept i)
          (kept_block b)
    kept (try_stmt a b c) =
        both (declares_block x (dce_block b used)) (declares_block x (dce_block c used)) _ _
          (kept_block b) (kept_block c)
    kept (lock e b) = kept_block b
    kept (spawn b caps) = kept_block b
    kept (parallel det caps bs) = kept_blocks bs
    kept (parallel_foreach a e b) = kept_block b
    kept _ = refl

    kept_list : (ss : HirStmts) → declares_list x (dce_list ss used) ≡ declares_list x ss
    kept_list nil_stmts = refl
    kept_list (cons_stmts s ss) =
        let rest = kept_list ss in
        let here = kept s in
        elim (Bool-cases (is_dead s used)) [
          | inl h ↦ rw h (none_left (declares x s) _ _ (dead-declares x s used u h) rest)
          | inr h ↦ rw h (
              both (declares x (dce_stmt s used)) (declares_list x (dce_list ss used)) _ _ here
                rest)
        ]

    kept_block : (b : HirBlock) → declares_block x (dce_block b used) ≡ declares_block x b
    kept_block null_block = refl
    kept_block (body scope ss) = kept_list ss

    kept_blocks : (bs : HirBlocks) → declares_blocks x (dce_blocks bs used) ≡ declares_blocks x bs
    kept_blocks nil_blocks = refl
    kept_blocks (cons_blocks b bs) =
        both (declares_block x (dce_block b used)) (declares_blocks x (dce_blocks bs used)) _ _
          (kept_block b) (kept_blocks bs)

-- In code without tuple literals and indirect calls, a name that the code mentions (and that is not
-- empty) is declared after the removal of the unused locals if and only if it was declared before.
pub dce_block-mentioned :
    (x : String) (b : HirBlock)
    → str_eq x "" ≡ false
    → is_plain_block b ≡ true
    → mentions_block x b ≡ true
    → declares_block x (dce_block b (collect_block b [])) ≡ declares_block x b
dce_block-mentioned x b ne h m =
    kept_block x (collect_block b []) (collected_block x ne b [] h ∙ m) b

-- A local that is not atomic, is not created at its declaration and has a pure initialiser that does
-- not name it is removed from before a statement that returns a tuple literal, whatever the elements
-- of the tuple are, so also where they read it.
pub dce_block-tuple_local :
    (v : VarDeclAttrs) (e : HirExpr) (t : Ty) (es : HirExprs) (scope : Bool)
    → v.atomic ≡ false
    → is_created (kind v.decl_type) ≡ false
    → pure_expr e ≡ true
    → contains v.name (collect_expr e []) ≡ false
    → let tail = cons_stmts (return (tuple_lit t es)) nil_stmts in
      let b = body scope (cons_stmts (var_decl v e) tail) in
      dce_block b (collect_block b []) ≡ body scope tail
unfolding dce_stmt is_dead dce_local collect_expr
dce_block-tuple_local v e t es scope a c p n = rw (a, c, n, p)
