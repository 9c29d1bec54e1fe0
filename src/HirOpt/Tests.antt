-- ===== src/HirOpt/Tests.antt =====
-- Runs of the optimiser and concrete uses of the theorems.
use hphl.Base.{ℕ, ◌-◌, ◌/◌, ◌^◌, String, List, true, false, ◌≡◌, refl, [], ◌∷◌, none, arith}
use hphl.Base.Int.{pos, negsuc, ◌+ℤ◌, wrap64, of_word, quot_ℤ}
use hphl.Types
use hphl.Types.{Kind, Ty, kind, make_int, make_bool, make_void}
use hphl.Hir.{
  BinOp, UnOp, BinaryAttrs, VarDeclAttrs, HirExpr, int_lit, bool_lit, var, binary, tuple_lit, unary,
  nil_exprs, cons_exprs, HirBlock, body, HirStmt, block, var_decl, expr_stmt, return, if_stmt,
  while_stmt, do_while, break, nil_stmts, cons_stmts,
}
use hphl.HirOpt.Fold.{
  Const, value, truth, int_const, fold_ints, pure_expr, as_const, try_fold_binary, fold_operands,
}
use hphl.HirOpt.Simplify.{simplify_rounds, simplify_block, simplify_stmt}
use hphl.HirOpt.Target.{normal, broke, exec, returned, exec_block, run_loop}
use hphl.HirOpt.Fragment.{exact_block}
use hphl.HirOpt.Arith.{fold_ints-signed_op, fold_ints-shr_nonneg, fold_ints-shr_negative}
use hphl.HirOpt.Unsigned.{unsigned_op, held, fold_ints-unsigned_op, fold_ints-large_word}
use hphl.HirOpt.Escape.{do_while-break_escapes}
use hphl.HirOpt.Dce.{dce_block, collect_block, collect_expr}
use hphl.HirOpt.Names.{mentions_block, is_plain_block}
use hphl.HirOpt.Kept.{declares_block, dce_block-mentioned, dce_block-tuple_local}
use hphl.HirOpt.Exact.{signed_op}
use hphl.HirOpt.Rounds.{simplify_rounds_sound}
use hphl.HirOpt.Toy.{toy_doubles, toy_target, toy_target-IsFaithful}

abbrev int_node : ℕ → HirExpr
int_node n = int_lit (make_int 64) (pos n) false

abbrev no_binary : BinaryAttrs
no_binary = record { derived_eq = none; derived_cmp = none; str_eq_bin = false }

abbrev sum : HirExpr → HirExpr → HirExpr
sum l r = binary (make_int 64) no_binary BinOp.add l r

abbrev less : HirExpr → HirExpr → HirExpr
less l r = binary make_bool no_binary BinOp.lt l r

abbrev one_stmt : HirStmt → HirBlock
one_stmt s = body true (cons_stmts s nil_stmts)

-- `if (1 < 1 + 1) { 40 + 2; } else return -5; while (2 < 1) break; return 7;`
abbrev sample : HirBlock
sample = body true (
    cons_stmts
      (if_stmt (less (int_node 1) (sum (int_node 1) (int_node 1)))
        (one_stmt (expr_stmt (sum (int_node 40) (int_node 2))))
        (return (unary (make_int 64) UnOp.neg (int_node 5))))
      (cons_stmts (while_stmt (less (int_node 2) (int_node 1)) (one_stmt break))
        (cons_stmts (return (int_node 7)) nil_stmts)))

-- `{ 42; } return 7;`
simplify_rounds-sample :
    simplify_rounds toy_doubles 4 sample
    ≡ body true (
        cons_stmts
          (block (one_stmt (expr_stmt (int_node 42))))
          (cons_stmts (return (int_node 7)) nil_stmts))
unfolding simplify_rounds simplify_block as_const try_fold_binary fold_operands fold_ints ◌+ℤ◌
    wrap64
simplify_rounds-sample = refl

exec_block-sample :
    exec_block toy_target sample 3 []
    ≡ returned (int_const (pos 7) false ∷ int_const (pos 42) false ∷ [])
unfolding exec_block signed_op ◌+ℤ◌ run_loop
exec_block-sample = refl

simplify_rounds_sound_example :
    exec_block toy_target (simplify_rounds toy_doubles 4 sample) ≡ exec_block toy_target sample
unfolding exact_block
simplify_rounds_sound_example =
    simplify_rounds_sound toy_doubles toy_target toy_target-IsFaithful 4 sample refl

-- `do { 7; break; } while (false)`, whose body has a scope of its own.
abbrev broken_body : HirBlock
broken_body = body true (cons_stmts (expr_stmt (int_node 7)) (cons_stmts break nil_stmts))

abbrev broken_state : List Const
broken_state = int_const (pos 7) false ∷ []

do_while-break_escapes_example :
    (exec toy_target (do_while (bool_lit make_bool false) broken_body) 3 [] ≡ normal broken_state)
    × (exec toy_target
          (simplify_stmt toy_doubles (do_while (bool_lit make_bool false) broken_body) false).0
          3
          []
        ≡ broke broken_state)
unfolding exec exact_block
do_while-break_escapes_example =
    do_while-break_escapes toy_doubles toy_target toy_target-IsFaithful make_bool broken_body false
      3 [] broken_state refl refl

-- `-7 / 2` and `-7 % 2` are cut towards zero.
fold_ints-div : fold_ints BinOp.div false (negsuc 6) (pos 2) ≡ value (negsuc 2)
unfolding fold_ints quot_ℤ
fold_ints-div = refl

fold_ints-signed_op_example :
    fold_ints BinOp.mod_op false (negsuc 6) (pos 2) ≡ signed_op BinOp.mod_op (negsuc 6) (pos 2)
fold_ints-signed_op_example = fold_ints-signed_op BinOp.mod_op (negsuc 6) (pos 2) refl refl refl

fold_ints-shr_nonneg_example :
    fold_ints BinOp.shr false (pos 40) (pos 3) ≡ signed_op BinOp.shr (pos 40) (pos 3)
fold_ints-shr_nonneg_example = fold_ints-shr_nonneg 40 (pos 3) refl

-- `-8 >> 1`
fold_ints-shr_negative_example :
    (fold_ints BinOp.shr false (negsuc 7) (pos 1) ≡ value (pos ((2 ^ 64 - 1 - 7) / 2 ^ 1)))
    × (signed_op BinOp.shr (negsuc 7) (pos 1) ≡ value (negsuc (7 / 2 ^ 1)))
fold_ints-shr_negative_example = fold_ints-shr_negative 7 0 (omega arith) (omega arith)

fold_ints-unsigned_op_example :
    fold_ints BinOp.sub true (pos 3) (pos 5) ≡ held (unsigned_op BinOp.sub 3 5)
fold_ints-unsigned_op_example = fold_ints-unsigned_op BinOp.sub 3 5 (omega arith) (omega arith)

fold_ints-large_word_example :
    (fold_ints BinOp.lt true (of_word (2 ^ 63)) (of_word 1) ≡ truth true)
    × (unsigned_op BinOp.lt (2 ^ 63) 1 ≡ truth false)
fold_ints-large_word_example =
    fold_ints-large_word (2 ^ 63) 1 (omega arith) (omega arith) (omega arith)

abbrev local : String → VarDeclAttrs
local x = record {
  name = x;
  decl_type = make_int 64;
  storage = Types.auto;
  atomic = false;
  primitive_init = pos 0;
  opaque_slot = false;
}

abbrev read : String → HirExpr
read x = var (make_int 64) (record {
  name = x;
  is_global = false;
  label = "";
  is_const = false;
  const_value = pos 0;
  is_property = false;
  prop_get = none;
  prop_set = none;
  is_this_field = false;
  this_field_offset = pos 0;
  atomic = false;
})

-- `int a = 1; int b = 2; return a + 1;`
abbrev locals : HirBlock
locals = body true (
    cons_stmts (var_decl (local "a") (int_node 1)) (
      cons_stmts (var_decl (local "b") (int_node 2))
        (cons_stmts (return (sum (read "a") (int_node 1))) nil_stmts)))

dce_block-locals :
    dce_block locals (collect_block locals [])
    ≡ body true (
        cons_stmts
          (var_decl (local "a") (int_node 1))
          (cons_stmts (return (sum (read "a") (int_node 1))) nil_stmts))
unfolding dce_block collect_block pure_expr
dce_block-locals = refl

dce_block-mentioned_example :
    declares_block "a" (dce_block locals (collect_block locals [])) ≡ declares_block "a" locals
unfolding mentions_block is_plain_block
dce_block-mentioned_example = dce_block-mentioned "a" locals refl refl refl

abbrev pair_return : HirStmt
pair_return = return (tuple_lit make_void (cons_exprs (read "a") nil_exprs))

-- `int a = 1; return (a,);`
abbrev pair_code : HirBlock
pair_code =
    body true (cons_stmts (var_decl (local "a") (int_node 1)) (cons_stmts pair_return nil_stmts))

dce_block-tuple_local_example :
    dce_block pair_code (collect_block pair_code []) ≡ body true (cons_stmts pair_return nil_stmts)
unfolding pure_expr collect_expr
dce_block-tuple_local_example =
    dce_block-tuple_local (local "a") (int_node 1) make_void (cons_exprs (read "a") nil_exprs) true
      refl refl refl refl
