-- ===== src/Mir/Tests.antt =====
-- Lowered code: a loop with a short circuit, a `break` and a `continue`.
use hphl.Base.{
  ℕ, zero, suc, ◌≤◌, String, true, false, List, [], ◌∷◌, none, some, ◌≡◌, refl, sym, ap, arith,
}
use hphl.Base.Int.{pos}
use hphl.Types.Makers.{make_ptr}
use hphl.Hir
use hphl.Hir.{
  VarAttrs, BinaryAttrs, HirExpr, null_expr, var, binary, HirBlock, body, HirStmt, null_stmt, block,
  return, if_stmt, while_stmt, break, continue, HirStmts, nil_stmts, cons_stmts, HirFunction,
}
use hphl.Json.{Bytes, same_bytes}
use hphl.Json.Text.{digits_of}
use hphl.Mir.{
  codes, MirBlock, MirFunction, inst_targets, block_targets, block_labels, all_terminated,
  is_terminated, occurs, listed,
}
use hphl.Mir.Lower.{emit, close_with, push_block, cond_br_to}
use hphl.Mir.Exprs.{lower_expr, short_circuit, lower_operation}
use hphl.Mir.Stmts.{
  lower_function, lowering_to_mir, lower_stmt, lower_if, lower_while, lower_break, lower_continue,
  jump_from,
}
use mathlib.Core.Path.{subst}
use mathlib.Core.Option.{some-injective, none-ne-some}
use hphl.Mir.Cfg.{
  Cfg, build_cfg, add_blocks, add_edges, add_edge, push_at, empty_rows, index_of, row, tally,
}
use hphl.Mir.Mirror.{build_cfg-mirror}
use hphl.Mir.Edges.{jumps_to, build_cfg-succs}
use hphl.Mir.Reach.{Lands, lowering_to_mir-Lands}
use hphl.Mir.Dominators.{
  Idoms, dominators, rounds, pass, settle, set_at, take_preds, take_pred, meet, climb, idom_at,
  no_idoms,
}
use hphl.Mir.Nearest.{IsTree, NearestCommon, meet-NearestCommon}
use hphl.Mir.SecondPass.{Rising, rise, IsReducible}
use hphl.Mir.Reduced.{IsDominatorTree, dominators-IsDominatorTree}
use hphl.Mir.Closed.{lowering_to_mir-terminated, lowering_to_mir-targets, lowering_to_mir-labels}

abbrev local_var : String → HirExpr
local_var x = var make_ptr (record {
  name = x;
  is_global = false;
  label = "";
  is_const = false;
  const_value = pos 0;
  is_property = false;
  prop_get = none;
  prop_set = none;
  is_this_field = false;
  this_field_offset = pos 0;
  atomic = false;
})

abbrev both : HirExpr → HirExpr → HirExpr
both l r =
    binary make_ptr (record { derived_eq = none; derived_cmp = none; str_eq_bin = false }) Hir.and l
      r

-- `while (go) { if (a and b) break; else continue; } return go;`
abbrev loop_body : HirBlock
loop_body = body true (
    cons_stmts
      (while_stmt (local_var "go") (
        body true (
          cons_stmts
            (if_stmt (both (local_var "a") (local_var "b")) (body true (cons_stmts break nil_stmts))
              continue)
            nil_stmts)))
      (cons_stmts (return (local_var "go")) nil_stmts))

abbrev loop_function : HirFunction
loop_function = record {
  name = "wait";
  is_method = false;
  owner_class = "";
  return_type = make_ptr;
  has_return_type = true;
  params = Hir.no_captures;
  module_name = "";
  file_path = "";
  body_block = loop_body;
}

abbrev no_name : ℕ → String
no_name d = ""

abbrev no_text : ℕ → Bytes
no_text d = []

abbrev loop_mir : MirFunction
loop_mir = lower_function no_name no_name no_text loop_function

loop_mir-labels :
    block_labels loop_mir.blocks
    ≡ codes "b0"
      ∷ codes "while.cond0"
      ∷ codes "while.body1"
      ∷ codes "sc.rhs3"
      ∷ codes "sc.join4"
      ∷ codes "if.then5"
      ∷ codes "after.br8"
      ∷ codes "if.else6"
      ∷ codes "after.cont9"
      ∷ codes "if.end7"
      ∷ codes "while.end2"
      ∷ []
unfolding block_labels lower_expr lower_stmt lower_if lower_while lower_break lower_continue
    jump_from emit close_with push_block short_circuit lower_operation is_terminated digits_of
loop_mir-labels = refl

lowering_to_mir-terminated_example : all_terminated loop_mir.blocks ≡ true
unfolding lowering_to_mir
lowering_to_mir-terminated_example =
    lowering_to_mir-terminated no_name no_name no_text (loop_function ∷ []) 0 loop_mir refl

lowering_to_mir-targets_example : listed (codes "while.end2") (block_labels loop_mir.blocks) ≡ true
unfolding lowering_to_mir block_targets inst_targets listed same_bytes lower_expr lower_stmt
    lower_if lower_while lower_break lower_continue jump_from emit close_with push_block
    short_circuit lower_operation is_terminated digits_of
lowering_to_mir-targets_example =
    lowering_to_mir-targets no_name no_name no_text (loop_function ∷ []) 0 loop_mir
      (codes "while.end2") refl refl

lowering_to_mir-labels_example : occurs (codes "if.then5") (block_labels loop_mir.blocks) ≤ 1
unfolding lowering_to_mir
lowering_to_mir-labels_example =
    lowering_to_mir-labels no_name no_name no_text (loop_function ∷ []) 0 loop_mir
      (codes "if.then5") refl

-- The block `while.cond0`, number 1, goes to numbers 2 and 10, and it is reached from 0, 7 and 9.
loop_mir-edges :
    (row (build_cfg loop_mir.blocks).succs 1 ≡ 2 ∷ 10 ∷ [])
    × (row (build_cfg loop_mir.blocks).preds 1 ≡ 0 ∷ 7 ∷ 9 ∷ [])
unfolding row build_cfg add_blocks add_edges add_edge push_at empty_rows index_of same_bytes
    lower_expr lower_stmt lower_if lower_while lower_break lower_continue jump_from emit close_with
    push_block short_circuit lower_operation is_terminated digits_of
loop_mir-edges = (refl, refl)

abbrev cond_block : MirBlock
cond_block = record {
  label = codes "while.cond0";
  insts = cond_br_to (codes "%go") (codes "while.body1") (codes "while.end2") ∷ [];
}

build_cfg-mirror_example :
    tally 2 (row (build_cfg loop_mir.blocks).succs 1)
    ≡ tally 1 (row (build_cfg loop_mir.blocks).preds 2)
build_cfg-mirror_example = build_cfg-mirror loop_mir.blocks 1 2

build_cfg-succs_example :
    tally 10 (row (build_cfg loop_mir.blocks).succs 1)
    ≡ jumps_to (index_of 0 loop_mir.blocks) 10 (codes "while.body1" ∷ codes "while.end2" ∷ [])
unfolding lower_expr lower_stmt lower_if lower_while lower_break lower_continue jump_from emit
    close_with push_block short_circuit lower_operation is_terminated digits_of
build_cfg-succs_example = build_cfg-succs loop_mir.blocks 1 10 cond_block refl

lowering_to_mir-Lands_example : Lands loop_mir.blocks 1 (codes "while.end2")
unfolding lowering_to_mir listed same_bytes lower_expr lower_stmt lower_if lower_while lower_break
    lower_continue jump_from emit close_with push_block short_circuit lower_operation is_terminated
    digits_of
lowering_to_mir-Lands_example =
    lowering_to_mir-Lands no_name no_name no_text (loop_function ∷ []) 0 loop_mir 1 cond_block
      (codes "while.end2") refl refl refl

abbrev loop_cfg : Cfg
loop_cfg = record {
  preds = [] ∷ (0 ∷ 3 ∷ []) ∷ (1 ∷ []) ∷ (2 ∷ []) ∷ (1 ∷ []) ∷ [];
  succs = (1 ∷ []) ∷ (2 ∷ 4 ∷ []) ∷ (3 ∷ []) ∷ (1 ∷ []) ∷ [] ∷ [];
}

abbrev loop_idoms : Idoms
loop_idoms = some 0 ∷ some 0 ∷ some 1 ∷ some 2 ∷ some 1 ∷ []

-- The only edge back of the loop goes from block 3 to block 1, which each way to block 3 visits.
Rising-1 : (vs : List ℕ) → Rising loop_cfg vs 1 → 1 ≤ tally 1 vs
unfolding tally
Rising-1 vs (rise v w e l) = omega arith

Rising-2 : (vs : List ℕ) → Rising loop_cfg vs 2 → 1 ≤ tally 1 vs
unfolding tally row
Rising-2 vs (rise {vs = us} {p = p} v w e l) =
    let q : p ≡ 1 = ground (arith, e, l) in
    omega (arith, Rising-1 us (subst (λ (x : ℕ). Rising loop_cfg us x) q w))

Rising-3 : (vs : List ℕ) → Rising loop_cfg vs 3 → 1 ≤ tally 1 vs
unfolding tally row
Rising-3 vs (rise {vs = us} {p = p} v w e l) =
    let q : p ≡ 2 = ground (arith, e, l) in
    omega (arith, Rising-2 us (subst (λ (x : ℕ). Rising loop_cfg us x) q w))

loop_cfg-IsReducible : IsReducible loop_cfg
unfolding tally row
loop_cfg-IsReducible zero p vs l e w = absurd (omega (arith, e))
loop_cfg-IsReducible (suc zero) p vs l e w =
    let q : p ≡ 3 = ground (arith, e, l) in
    Rising-3 vs (subst (λ (x : ℕ). Rising loop_cfg vs x) q w)
loop_cfg-IsReducible (suc (suc zero)) p vs l e w = absurd (ground (arith, e, l))
loop_cfg-IsReducible (suc (suc (suc zero))) p vs l e w = absurd (ground (arith, e, l))
loop_cfg-IsReducible (suc (suc (suc (suc zero)))) p vs l e w = absurd (ground (arith, e, l))
loop_cfg-IsReducible (suc (suc (suc (suc (suc b))))) p vs l e w = absurd (omega (arith, e))

dominators-IsDominatorTree_example :
    (t : Idoms) × (dominators 11 loop_cfg ≡ some t) × IsDominatorTree loop_cfg t
dominators-IsDominatorTree_example =
    dominators-IsDominatorTree 11 loop_cfg loop_cfg-IsReducible (omega arith)

-- The tree that it has.
loop_cfg-idoms : dominators 11 loop_cfg ≡ some loop_idoms
unfolding dominators rounds pass settle set_at take_preds take_pred meet climb idom_at no_idoms
loop_cfg-idoms = refl

-- A graph where block 1 stands before its dominator, block 2.
skipping_cfg-idoms :
    dominators 50 (record { preds = [] ∷ (2 ∷ []) ∷ (0 ∷ []) ∷ (0 ∷ 1 ∷ []) ∷ []; succs = [] })
    ≡ some (some 0 ∷ some 2 ∷ some 0 ∷ some 0 ∷ [])
unfolding dominators rounds pass settle set_at take_preds take_pred meet climb idom_at no_idoms
skipping_cfg-idoms = refl

descends : (v u : ℕ) → idom_at loop_idoms (suc v) ≡ some u → u ≤ v
unfolding idom_at
descends zero u e = omega (arith, some-injective _ _ e)
descends (suc zero) u e = omega (arith, some-injective _ _ e)
descends (suc (suc zero)) u e = omega (arith, some-injective _ _ e)
descends (suc (suc (suc zero))) u e = omega (arith, some-injective _ _ e)
descends (suc (suc (suc (suc v)))) u e = absurd (none-ne-some _ e)

closed : (v u : ℕ) → idom_at loop_idoms v ≡ some u → (w : ℕ) × (idom_at loop_idoms u ≡ some w)
unfolding idom_at
closed zero u e = (0, ap (idom_at loop_idoms) (sym (some-injective _ _ e)))
closed (suc zero) u e = (0, ap (idom_at loop_idoms) (sym (some-injective _ _ e)))
closed (suc (suc zero)) u e = (0, ap (idom_at loop_idoms) (sym (some-injective _ _ e)))
closed (suc (suc (suc zero))) u e = (1, ap (idom_at loop_idoms) (sym (some-injective _ _ e)))
closed (suc (suc (suc (suc zero)))) u e = (0, ap (idom_at loop_idoms) (sym (some-injective _ _ e)))
closed (suc (suc (suc (suc (suc v))))) u e = absurd (none-ne-some _ e)

loop_idoms-IsTree : IsTree loop_idoms
unfolding idom_at
loop_idoms-IsTree = record { root = refl; descends = descends; closed = closed }

meet-NearestCommon_example :
    (c : ℕ) × (meet 8 loop_idoms 3 4 ≡ some c) × NearestCommon loop_idoms loop_idoms-IsTree 3 4 c
unfolding idom_at
meet-NearestCommon_example =
    meet-NearestCommon loop_idoms loop_idoms-IsTree 8 3 4 2 1 (omega arith) refl refl
