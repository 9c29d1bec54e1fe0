-- ===== src/Mir/Stmts.antt =====
-- `lowerStmt` and `loweringToMir` of compiler/src/mir/mir.cpp. `loops` is the stack of the labels that
-- a `break` and a `continue` go to, with the innermost loop's first.
use hphl.Base.{ℕ, String, not, Bool, true, false, List, [], ◌∷◌, ◌++◌, if◌then◌else◌}
use hphl.Hir.{
  HirExpr, null_expr, HirBlock, null_block, body, HirStmt, null_stmt, block, var_decl, expr_stmt,
  return, if_stmt, while_stmt, do_while, for_stmt, break, continue, panic, assert, throw, try_stmt,
  lock, spawn, parallel, parallel_foreach, HirStmts, nil_stmts, cons_stmts, HirFunction,
}
use hphl.Json.{Bytes}
use hphl.Mir
use hphl.Mir.{codes, MirInst, MirBlock, MirFunction, plain_inst}
use hphl.Mir.Lower.{
  Lower, Gen, new_block_label, emit, emit_opaque, br_to, cond_br_to, close_with, start_block,
  store_to,
}
use hphl.Mir.Exprs.{lower_expr}

-- The break label and the continue label of each loop.
abbrev pub Loops : Type 0
Loops = List (Bytes × Bytes)

abbrev pub ret_with : Bytes → MirInst
ret_with v = record (plain_inst Mir.ret) { dst = v }

-- A jump out of the current block, behind which a new block starts.
unfoldable pub jump_from : Bytes → String → Lower → Lower
jump_from target base st =
    let (after, st1) = new_block_label base (emit (br_to target) st) in start_block after st1

unfoldable pub lower_break : Loops → Lower → Lower
lower_break [] st = st
lower_break ((end_label, next_label) ∷ loops) st = jump_from end_label "after.br" st

unfoldable pub lower_continue : Loops → Lower → Lower
lower_continue [] st = st
lower_continue ((end_label, next_label) ∷ loops) st = jump_from next_label "after.cont" st

-- An `if`, on what lowers its condition and its branches.
unfoldable pub lower_if : Bool → Gen → (Lower → Lower) → (Lower → Lower) → Lower → Lower
lower_if has_else lower_cond lower_then lower_else st =
    let (cond, st1) = lower_cond st in
    let (then_label, st2) = new_block_label "if.then" st1 in
    let (else_label, st3) = new_block_label "if.else" st2 in
    let (end_label, st4) = new_block_label "if.end" st3 in
    let st5 = emit (cond_br_to cond then_label (if has_else then else_label else end_label)) st4 in
    let st6 = close_with (br_to end_label) (lower_then (start_block then_label st5)) in
    let st7 = close_with (br_to end_label) (lower_else (start_block else_label st6)) in
    start_block end_label (if has_else then st7 else st6)

-- A `while`; its body is lowered with the labels of the loop.
unfoldable pub lower_while : Gen → (Bytes × Bytes → Lower → Lower) → Lower → Lower
lower_while lower_cond lower_body st =
    let (cond_label, st1) = new_block_label "while.cond" st in
    let (body_label, st2) = new_block_label "while.body" st1 in
    let (end_label, st3) = new_block_label "while.end" st2 in
    let (cond, st4) = lower_cond (start_block cond_label (emit (br_to cond_label) st3)) in
    let st5 = start_block body_label (emit (cond_br_to cond body_label end_label) st4) in
    let st6 = lower_body (end_label, cond_label) st5 in
    start_block end_label (emit (br_to cond_label) st6)

unfoldable pub lower_for :
    Bool → (Lower → Lower) → Gen → Gen → (Bytes × Bytes → Lower → Lower) → Lower → Lower
lower_for has_cond lower_init lower_cond lower_step lower_body st =
    let (cond_label, st1) = new_block_label "for.cond" (lower_init st) in
    let (body_label, st2) = new_block_label "for.body" st1 in
    let (step_label, st3) = new_block_label "for.step" st2 in
    let (end_label, st4) = new_block_label "for.end" st3 in
    let st5 = start_block cond_label (emit (br_to cond_label) st4) in
    let (cond, st6) = lower_cond st5 in
    let st7 = if has_cond then emit (cond_br_to cond body_label end_label) st6 else st5 in
    let st8 = lower_body (end_label, step_label) (start_block body_label st7) in
    let (step, st9) = lower_step (start_block step_label st8) in
    start_block end_label (emit (br_to cond_label) st9)

abbrev pub is_null_expr : HirExpr → Bool
is_null_expr e = elim e [ null_expr ↦ true | _ ↦ false ]

abbrev pub is_null_stmt : HirStmt → Bool
is_null_stmt s = elim s [ null_stmt ↦ true | _ ↦ false ]

-- The builder before the first statement of a function, and what it leaves.
abbrev pub fresh_lower : Lower
fresh_lower = record {
  temp_counter = 0;
  block_counter = 0;
  done = [];
  cur_label = codes "b0";
  cur_insts = [];
}

abbrev pub blocks_of : Lower → List MirBlock
blocks_of st = st.done ++ record { label = st.cur_label; insts = st.cur_insts } ∷ []

-- `if (!hf.body) continue;` before the function is added.
abbrev pub unless_null : HirBlock → MirFunction → List MirFunction → List MirFunction
unless_null null_block m ms = ms
unless_null (body scope ss) m ms = m ∷ ms

module _ (decl_name decl_owner : ℕ → String) (print : ℕ → Bytes) where
  abbrev gen_of : HirExpr → Gen
  gen_of = lower_expr decl_name decl_owner print

  abbrev gen_effect : HirExpr → Lower → Lower
  gen_effect e st = (gen_of e st).1

  -- The store of an initial value.
  abbrev lower_init : HirExpr → Bytes → Lower → Lower
  lower_init e x st =
      if is_null_expr e then st else (let (v, st1) = gen_of e st in emit (store_to x v) st1)

  -- A `return`; one without a value stands with the empty operand.
  abbrev lower_return : HirExpr → Lower → Lower
  lower_return e st = let (v, st1) = gen_of e st in emit (ret_with v) st1

  unfoldable mutual
    -- `lowerStmt`
    pub lower_stmt : HirStmt → Loops → Lower → Lower
    lower_stmt null_stmt loops st = st
    lower_stmt (block b) loops st = lower_block b loops st
    lower_stmt (var_decl v e) loops st = lower_init e (codes v.name) st
    lower_stmt (expr_stmt e) loops st = gen_effect e st
    lower_stmt (return e) loops st = lower_return e st
    lower_stmt (if_stmt c a b) loops st =
        lower_if (not (is_null_stmt b)) (gen_of c) (lower_block a loops) (lower_stmt b loops) st
    lower_stmt (while_stmt c b) loops st =
        lower_while (gen_of c) (λ l. lower_block b (l ∷ loops)) st
    lower_stmt (for_stmt i c step b) loops st =
        lower_for (not (is_null_expr c)) (lower_stmt i loops) (gen_of c) (gen_of step)
          (λ l. lower_block b (l ∷ loops)) st
    lower_stmt break loops st = lower_break loops st
    lower_stmt continue loops st = lower_continue loops st
    lower_stmt (do_while c b) loops st = emit_opaque (codes "stmt kind 6") st
    lower_stmt (panic e) loops st = emit_opaque (codes "stmt kind 10") st
    lower_stmt (assert e n) loops st = emit_opaque (codes "stmt kind 11") st
    lower_stmt (throw e) loops st = emit_opaque (codes "stmt kind 12") st
    lower_stmt (try_stmt a b c) loops st = emit_opaque (codes "stmt kind 13") st
    lower_stmt (lock e b) loops st = emit_opaque (codes "stmt kind 14") st
    lower_stmt (spawn b c) loops st = emit_opaque (codes "stmt kind 15") st
    lower_stmt (parallel d c bs) loops st = emit_opaque (codes "stmt kind 16") st
    lower_stmt (parallel_foreach a e b) loops st = emit_opaque (codes "stmt kind 17") st

    pub lower_block : HirBlock → Loops → Lower → Lower
    lower_block null_block loops st = st
    lower_block (body scope ss) loops st = lower_stmts ss loops st

    pub lower_stmts : HirStmts → Loops → Lower → Lower
    lower_stmts nil_stmts loops st = st
    lower_stmts (cons_stmts s ss) loops st = lower_stmts ss loops (lower_stmt s loops st)

  -- The blocks of a function with the body `b`.
  abbrev pub lower_body : HirBlock → List MirBlock
  lower_body b = blocks_of (close_with (ret_with []) (lower_block b [] fresh_lower))

  abbrev pub lower_function : HirFunction → MirFunction
  lower_function f = record {
    name = f.name;
    return_type = f.return_type;
    has_return_type = f.has_return_type;
    params = f.params;
    is_method = f.is_method;
    owner_class = f.owner_class;
    blocks = lower_body f.body_block;
  }

  -- `loweringToMir`: the functions that have a body.
  unfoldable pub lowering_to_mir : List HirFunction → List MirFunction
  lowering_to_mir [] = []
  lowering_to_mir (f ∷ fs) = unless_null f.body_block (lower_function f) (lowering_to_mir fs)
