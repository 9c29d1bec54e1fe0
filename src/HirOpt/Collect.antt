-- ===== src/HirOpt/Collect.antt =====
-- `collectNames` on plain code: the collected names and those that the code mentions.
use text.Mathlib.Text.{◌==◌ as str_eq}
use text.Mathlib.TextEquality.{eq_iff}
use mathlib.Core.Bool.{false≢true}
use hphl.Base.{
  String, Bool, true, false, ◌||◌, ◌≡◌, refl, sym, ap, ◌∙◌, arith, ◌∷◌, inl, inr, Bool-cases,
  if◌then◌else◌, and_left, and_right,
}
use hphl.Hir.{
  Captures, no_captures, capture, HirExpr, null_expr, var, member, index, array_lit, tuple_lit,
  call, binary, unary, assign, cast, new, cell_tag, load_at, opt_ctor, spawn_expr, await, lambda,
  HirExprs, nil_exprs, cons_exprs, HirBlock, null_block, body, HirStmt, block, var_decl, expr_stmt,
  return, if_stmt, while_stmt, do_while, for_stmt, panic, assert, throw, try_stmt, lock, spawn,
  parallel, parallel_foreach, HirStmts, nil_stmts, cons_stmts, HirBlocks, nil_blocks, cons_blocks,
}
use hphl.HirOpt.Dce.{
  Names, contains, insert_name, insert_captures, collect_expr, collect_exprs, collect_stmt,
  collect_list, collect_block, collect_blocks,
}
use hphl.HirOpt.Names.{
  captured, mentions, mentions_any, mentions_stmt, mentions_list, mentions_block, mentions_blocks,
  is_plain, is_plain_all, is_plain_stmt, is_plain_list, is_plain_block, is_plain_blocks,
}

-- Two collections in a row.
then_names : (p q r a b : Bool) → p ≡ (q || b) → q ≡ (r || a) → p ≡ (r || (a || b))
then_names p q r a b h k = ground (arith, h, k)

or_none : (a b : Bool) → b ≡ false → a ≡ (a || b)
or_none a b h = ground arith

or_known : (a b : Bool) → a ≡ true → a ≡ (a || b)
or_known a b h = ground arith

or_comm : (a b : Bool) → (a || b) ≡ (b || a)
or_comm a b = ground arith

same-name : (x n : String) → str_eq x n ≡ true → x ≡ n
same-name x n h = (eq_iff x n).0 h

-- A name that is met is inserted, unless it is empty or known.
contains-insert_if :
    (x n : String) (used : Names) (e m : Bool)
    → (str_eq x n ≡ true → contains x used ≡ m)
    → (str_eq x n ≡ true → e ≡ false)
    → contains x (if e then used else if m then used else n ∷ used)
      ≡ (contains x used || str_eq x n)
contains-insert_if x n used true m h q = elim (Bool-cases (str_eq x n)) [
  | inl k ↦ absurd (false≢true (sym (q k)))
  | inr k ↦ or_none (contains x used) (str_eq x n) k
]
contains-insert_if x n used false true h q = elim (Bool-cases (str_eq x n)) [
  | inl k ↦ or_known (contains x used) (str_eq x n) (h k)
  | inr k ↦ or_none (contains x used) (str_eq x n) k
]
contains-insert_if x n used false false h q = or_comm (str_eq x n) (contains x used)

contains-insert_name :
    (x n : String) (used : Names)
    → str_eq x "" ≡ false
    → contains x (insert_name n used) ≡ (contains x used || str_eq x n)
contains-insert_name x n used ne =
    contains-insert_if x n used (str_eq n "") (contains n used)
      (λ k. ap (λ (y : String). contains y used) (same-name x n k))
      (λ k. ap (λ (y : String). str_eq y "") (sym (same-name x n k)) ∙ ne)

captured-insert_captures :
    (x : String) (cs : Captures) (used : Names)
    → str_eq x "" ≡ false
    → contains x (insert_captures cs used) ≡ (contains x used || captured x cs)
unfolding insert_captures
captured-insert_captures x no_captures used ne = or_none (contains x used) false refl
captured-insert_captures x (capture y t cs) used ne =
    then_names _ _ (contains x used) (str_eq x y) (captured x cs)
      (captured-insert_captures x cs (insert_name y used) ne) (contains-insert_name x y used ne)

-- In plain code the collected names are those that it mentions.
module _ (x : String) (ne : str_eq x "" ≡ false) where
  mutual
    unfolding collect_expr mentions is_plain

    pub collected :
        (e : HirExpr) (used : Names)
        → is_plain e ≡ true
        → contains x (collect_expr e used) ≡ (contains x used || mentions x e)
    collected (var t v) used h = contains-insert_name x v.name used ne
    collected (binary t b op l r) used h =
        then_names _ _ (contains x used) (mentions x l) (mentions x r)
          (collected r (collect_expr l used) (and_right _ _ h)) (collected l used (and_left _ _ h))
    collected (unary t op e) used h = collected e used h
    collected (cast t target e) used h = collected e used h
    collected (assign t op l r) used h =
        then_names _ _ (contains x used) (mentions x l) (mentions x r)
          (collected r (collect_expr l used) (and_right _ _ h)) (collected l used (and_left _ _ h))
    collected (call t c args null_expr) used h =
        then_names _ _ (contains x used) (mentions_any x args) false (or_none _ false refl)
          (collected_all args used (and_left _ _ h))
    collected (call t c args _) used h = absurd (false≢true (and_right (is_plain_all args) _ h))
    collected (new t n args) used h = collected_all args used h
    collected (array_lit t es) used h = collected_all es used h
    collected (tuple_lit t es) used h = absurd (false≢true h)
    collected (index t lb l r) used h =
        then_names _ _ (contains x used) (mentions x l) (mentions x r)
          (collected r (collect_expr l used) (and_right _ _ h)) (collected l used (and_left _ _ h))
    collected (member t m o) used h = collected o used h
    collected (spawn_expr t b caps) used h = collected_block b used h
    collected (lambda t l b) used h = captured-insert_captures x l.captures used ne
    collected (cell_tag t e) used h = collected e used h
    collected (load_at t e off) used h = collected e used h
    collected (opt_ctor t v e) used h = collected e used h
    collected (await t e) used h = collected e used h
    collected _ used h = or_none (contains x used) false refl

    pub collected_all :
        (es : HirExprs) (used : Names)
        → is_plain_all es ≡ true
        → contains x (collect_exprs es used) ≡ (contains x used || mentions_any x es)
    collected_all nil_exprs used h = or_none (contains x used) false refl
    collected_all (cons_exprs e es) used h =
        then_names _ _ (contains x used) (mentions x e) (mentions_any x es)
          (collected_all es (collect_expr e used) (and_right _ _ h))
          (collected e used (and_left _ _ h))

    pub collected_stmt :
        (s : HirStmt) (used : Names)
        → is_plain_stmt s ≡ true
        → contains x (collect_stmt s used) ≡ (contains x used || mentions_stmt x s)
    collected_stmt (block b) used h = collected_block b used h
    collected_stmt (var_decl v e) used h = collected e used h
    collected_stmt (expr_stmt e) used h = collected e used h
    collected_stmt (return e) used h = collected e used h
    collected_stmt (if_stmt c a b) used h =
        then_names _ _ (contains x used) (mentions x c || mentions_block x a) (mentions_stmt x b)
          (collected_stmt b (collect_block a (collect_expr c used)) (and_right _ _ h))
          (then_names _ _ (contains x used) (mentions x c) (mentions_block x a)
            (collected_block a (collect_expr c used) (and_right _ _ (and_left _ _ h)))
            (collected c used (and_left _ _ (and_left _ _ h))))
    collected_stmt (while_stmt c b) used h =
        then_names _ _ (contains x used) (mentions x c) (mentions_block x b)
          (collected_block b (collect_expr c used) (and_right _ _ h))
          (collected c used (and_left _ _ h))
    collected_stmt (do_while c b) used h =
        then_names _ _ (contains x used) (mentions x c) (mentions_block x b)
          (collected_block b (collect_expr c used) (and_right _ _ h))
          (collected c used (and_left _ _ h))
    collected_stmt (for_stmt i c step b) used h =
        then_names _ _ (contains x used) (mentions_stmt x i || mentions x c || mentions x step)
          (mentions_block x b)
          (collected_block b (collect_expr step (collect_expr c (collect_stmt i used)))
            (and_right _ _ h))
          (then_names _ _ (contains x used) (mentions_stmt x i || mentions x c) (mentions x step)
            (collected step (collect_expr c (collect_stmt i used)) (and_right _ _ (and_left _ _ h)))
            (then_names _ _ (contains x used) (mentions_stmt x i) (mentions x c)
              (collected c (collect_stmt i used) (and_right _ _ (and_left _ _ (and_left _ _ h))))
              (collected_stmt i used (and_left _ _ (and_left _ _ (and_left _ _ h))))))
    collected_stmt (panic e) used h = collected e used h
    collected_stmt (assert e line) used h = collected e used h
    collected_stmt (throw e) used h = collected e used h
    collected_stmt (try_stmt a b c) used h =
        then_names _ _ (contains x used) (mentions_block x b) (mentions_block x c)
          (collected_block c (collect_block b used) (and_right _ _ h))
          (collected_block b used (and_left _ _ h))
    collected_stmt (lock e b) used h =
        then_names _ _ (contains x used) (mentions x e) (mentions_block x b)
          (collected_block b (collect_expr e used) (and_right _ _ h))
          (collected e used (and_left _ _ h))
    collected_stmt (spawn b caps) used h = collected_block b used h
    collected_stmt (parallel det caps bs) used h = collected_blocks bs used h
    collected_stmt (parallel_foreach a e b) used h =
        then_names _ _ (contains x used) (mentions x e) (mentions_block x b)
          (collected_block b (collect_expr e used) (and_right _ _ h))
          (collected e used (and_left _ _ h))
    collected_stmt _ used h = or_none (contains x used) false refl

    pub collected_list :
        (ss : HirStmts) (used : Names)
        → is_plain_list ss ≡ true
        → contains x (collect_list ss used) ≡ (contains x used || mentions_list x ss)
    collected_list nil_stmts used h = or_none (contains x used) false refl
    collected_list (cons_stmts s ss) used h =
        then_names _ _ (contains x used) (mentions_stmt x s) (mentions_list x ss)
          (collected_list ss (collect_stmt s used) (and_right _ _ h))
          (collected_stmt s used (and_left _ _ h))

    pub collected_block :
        (b : HirBlock) (used : Names)
        → is_plain_block b ≡ true
        → contains x (collect_block b used) ≡ (contains x used || mentions_block x b)
    collected_block null_block used h = or_none (contains x used) false refl
    collected_block (body scope ss) used h = collected_list ss used h

    pub collected_blocks :
        (bs : HirBlocks) (used : Names)
        → is_plain_blocks bs ≡ true
        → contains x (collect_blocks bs used) ≡ (contains x used || mentions_blocks x bs)
    collected_blocks nil_blocks used h = or_none (contains x used) false refl
    collected_blocks (cons_blocks b bs) used h =
        then_names _ _ (contains x used) (mentions_block x b) (mentions_blocks x bs)
          (collected_blocks bs (collect_block b used) (and_right _ _ h))
          (collected_block b used (and_left _ _ h))
