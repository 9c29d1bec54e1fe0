-- ===== src/Mir/Exprs.antt =====
-- `lowerExpr` and `lowerShortCircuit` of compiler/src/mir/mir.cpp. An operand is a string: a number,
-- `%` and the name of a temporary or a variable, or `g:` and the label of a global.
use hphl.Base.{
  ℕ, String, Bool, true, false, not, ◌&&◌, none, some, List, [], ◌∷◌, ◌++◌, if◌then◌else◌,
}
use hphl.Types
use hphl.Types.{Ty, kind}
use hphl.Hir
use hphl.Hir.{
  BinOp, UnOp, AssignOp, CallKind, VarAttrs, CallAttrs, HirExpr, null_expr, int_lit, float_lit,
  string_lit, char_lit, bool_lit, null_lit, var, this, member, index, array_lit, tuple_lit, call,
  binary, unary, assign, cast, new, cell_tag, load_at, opt_ctor, spawn_expr, await, lambda,
  HirExprs, nil_exprs, cons_exprs,
}
use hphl.Json.{Bytes}
use hphl.Json.Text.{to_string}
use hphl.Mir
use hphl.Mir.{codes, no_bytes, tail_of, MirInst, plain_inst}
use hphl.Mir.Lower.{
  Lower, Gen, new_temp, new_block_label, emit, emit_opaque, emit_temp, br_to, cond_br_to,
  start_block, store_to, load_of,
}

-- The text of an operator; `lowerExpr` asks for that of an `and` or `or` nowhere.
abbrev pub bin_text : BinOp → String
bin_text op = elim op [
  | Hir.add ↦ "+"
  | Hir.sub ↦ "-"
  | Hir.mul ↦ "*"
  | Hir.div ↦ "/"
  | Hir.mod_op ↦ "%"
  | Hir.eq ↦ "=="
  | Hir.ne ↦ "!="
  | Hir.lt ↦ "<"
  | Hir.gt ↦ ">"
  | Hir.le ↦ "<="
  | Hir.ge ↦ ">="
  | Hir.bit_and ↦ "&"
  | Hir.bit_or ↦ "|"
  | Hir.bit_xor ↦ "^"
  | Hir.shl ↦ "<<"
  | Hir.shr ↦ ">>"
  | _ ↦ "?"
]

abbrev pub is_cmp : BinOp → Bool
is_cmp op = elim op [
  | Hir.eq ↦ true
  | Hir.ne ↦ true
  | Hir.lt ↦ true
  | Hir.gt ↦ true
  | Hir.le ↦ true
  | Hir.ge ↦ true
  | _ ↦ false
]

abbrev pub unary_text : UnOp → String
unary_text op = elim op [ Hir.neg ↦ "-" | Hir.not_op ↦ "!" | _ ↦ "~" ]

abbrev pub assign_text : AssignOp → String
assign_text op = elim op [
  | Hir.add_assign ↦ "+"
  | Hir.sub_assign ↦ "-"
  | Hir.mul_assign ↦ "*"
  | Hir.div_assign ↦ "/"
  | _ ↦ "%"
]

-- The operand of a variable.
abbrev pub var_operand : VarAttrs → Bytes
var_operand v =
    if v.is_const
    then to_string v.const_value
    else elim (v.is_global && not (no_bytes (codes v.label))) [
      | true ↦ codes "g:" ++ codes v.label
      | false ↦ codes "%" ++ codes v.name
    ]

-- `lowerShortCircuit`, on what lowers its operands.
unfoldable pub short_circuit : Bool → Gen → Gen → Gen
short_circuit is_and lower_lhs lower_rhs st =
    let (result, st1) = new_temp st in
    let (rhs_label, st2) = new_block_label "sc.rhs" st1 in
    let (join_label, st3) = new_block_label "sc.join" st2 in
    let (lhs, st4) = lower_lhs st3 in
    let st5 =
      emit
        (if is_and
          then cond_br_to lhs rhs_label join_label
          else cond_br_to lhs join_label rhs_label)
        st4 in
    let (r, st6) = lower_rhs (start_block rhs_label st5) in
    let st7 = emit (br_to join_label) (emit (store_to (tail_of result) r) st6) in
    emit_temp (load_of result) (start_block join_label st7)

-- A binary operation that is no `and` or `or`, and a unary one.
abbrev pub binary_inst : BinOp → Bytes → Bytes → MirInst
binary_inst op l r = record (plain_inst (if is_cmp op then Mir.cmp else Mir.bin)) {
  a = l;
  b = r;
  text = codes (bin_text op);
}

unfoldable pub lower_binary : BinOp → Gen → Gen → Gen
lower_binary op lower_lhs lower_rhs st =
    let (l, st1) = lower_lhs st in
    let (r, st2) = lower_rhs st1 in emit_temp (binary_inst op l r) st2

abbrev pub unary_inst : UnOp → Bytes → MirInst
unary_inst op v = record (plain_inst Mir.unary) { a = v; text = codes (unary_text op) }

unfoldable pub lower_unary : UnOp → Gen → Gen
lower_unary op lower_operand st = let (v, st1) = lower_operand st in emit_temp (unary_inst op v) st1

unfoldable pub lower_operation : BinOp → Gen → Gen → Gen
lower_operation op lower_lhs lower_rhs st = elim op [
  | Hir.and ↦ short_circuit true lower_lhs lower_rhs st
  | Hir.or ↦ short_circuit false lower_lhs lower_rhs st
  | other ↦ lower_binary other lower_lhs lower_rhs st
]

-- An assignment to the local variable `x`, and one to any expression.
abbrev pub assign_inst : AssignOp → Bytes → Bytes → MirInst
assign_inst op x v = record (plain_inst Mir.bin) { a = x; b = v; text = codes (assign_text op) }

abbrev pub is_plain : AssignOp → Bool
is_plain op = elim op [ Hir.plain ↦ true | _ ↦ false ]

unfoldable pub lower_assign : AssignOp → Bytes → Gen → Gen
lower_assign op x lower_value st =
    let (v, st1) = lower_value st in
    let (cur, st2) = emit_temp (load_of (codes "%" ++ x)) st1 in
    let (combined, st3) = emit_temp (assign_inst op cur v) st2 in
    if is_plain op then (v, emit (store_to x v) st1) else (combined, emit (store_to x combined) st3)

unfoldable pub lower_target : AssignOp → HirExpr → Gen → Gen
lower_target op (var t v) lower_value st =
    if v.is_global
    then ([], emit_opaque (codes "assign complexo") st)
    else lower_assign op (codes v.name) lower_value st
lower_target op target lower_value st = ([], emit_opaque (codes "assign complexo") st)

-- Does a call with this type have a result?
abbrev pub has_value : Ty → Bool
has_value t = elim (kind t) [ Types.void ↦ false | Types.unknown ↦ false | _ ↦ true ]

abbrev pub call_inst : Bytes → Bytes → List Bytes → MirInst
call_inst dst callee xs = record (plain_inst Mir.call) { dst = dst; text = callee; args = xs }

-- A call that is not folded, on what lowers its arguments.
unfoldable pub lower_call : Bool → Bytes → (Lower → List Bytes × Lower) → Gen
lower_call valued callee lower_args st =
    let (dst, st1) = if valued then new_temp st else ([], st) in
    let (xs, st2) = lower_args st1 in (dst, emit (call_inst dst callee xs) st2)

-- `name` and `ownerClass` of a `FunctionDecl`, by its address.
module _ (decl_name decl_owner : ℕ → String) where
  abbrev pub runtime_callee : CallAttrs → Bytes
  runtime_callee c =
      if no_bytes (codes c.runtime_name) then codes "runtime" else codes c.runtime_name

  abbrev pub callee_of : CallAttrs → Bytes
  callee_of c = elim c.call_kind [
    | Hir.runtime ↦ runtime_callee c
    | Hir.list_add ↦ runtime_callee c
    | Hir.map_put ↦ runtime_callee c
    | Hir.map_get ↦ runtime_callee c
    | Hir.map_contains ↦ runtime_callee c
    | Hir.map_remove ↦ runtime_callee c
    | Hir.map_clear ↦ runtime_callee c
    | Hir.map_len ↦ runtime_callee c
    | Hir.print ↦ codes "builtin.print"
    | Hir.clock_ns ↦ codes "clock_ns"
    | _ ↦ elim c.resolved [
      | none ↦ codes "call?"
      | some d ↦
          if no_bytes (codes (decl_owner d))
          then codes (decl_name d)
          else codes (decl_owner d) ++ codes "." ++ codes (decl_name d)
    ]
  ]

  -- `print` is `std::to_string` of a `double`.
  module _ (print : ℕ → Bytes) where
    unfoldable mutual
      -- `lowerExpr`
      pub lower_expr : HirExpr → Gen
      lower_expr null_expr st = ([], st)
      lower_expr (int_lit t v u) st = (to_string v, st)
      lower_expr (bool_lit t v) st = (if v then codes "1" else codes "0", st)
      lower_expr (char_lit t v) st = (to_string v, st)
      lower_expr (float_lit t v) st =
          emit_temp (record (plain_inst Mir.f_imm) { text = print v }) st
      lower_expr (string_lit t v) st =
          emit_temp (record (plain_inst Mir.s_imm) { text = 34 ∷ codes v ++ 34 ∷ [] }) st
      lower_expr (null_lit t) st = emit_temp (plain_inst Mir.imm) st
      lower_expr (var t v) st = (var_operand v, st)
      lower_expr (this t) st = emit_temp (load_of (codes "%this")) st
      lower_expr (binary t b op l r) st = lower_operation op (lower_expr l) (lower_expr r) st
      lower_expr (unary t op e) st = lower_unary op (lower_expr e) st
      lower_expr (assign t op target e) st = lower_target op target (lower_expr e) st
      lower_expr (call t c args f) st =
          let lower_args = lower_exprs args in
          if c.folded
          then (to_string c.fold_value, st)
          else lower_call (has_value t) (callee_of c) lower_args st
      lower_expr (member t m e) st = ([], emit_opaque (codes "expr kind 7") st)
      lower_expr (index t b e i) st = ([], emit_opaque (codes "expr kind 8") st)
      lower_expr (array_lit t es) st = ([], emit_opaque (codes "expr kind 9") st)
      lower_expr (tuple_lit t es) st = ([], emit_opaque (codes "expr kind 10") st)
      lower_expr (cast t u e) st = ([], emit_opaque (codes "expr kind 15") st)
      lower_expr (new t n es) st = ([], emit_opaque (codes "expr kind 16") st)
      lower_expr (cell_tag t e) st = ([], emit_opaque (codes "expr kind 18") st)
      lower_expr (load_at t e o) st = ([], emit_opaque (codes "expr kind 19") st)
      lower_expr (opt_ctor t v e) st = ([], emit_opaque (codes "expr kind 20") st)
      lower_expr (spawn_expr t b c) st = ([], emit_opaque (codes "expr kind 21") st)
      lower_expr (await t e) st = ([], emit_opaque (codes "expr kind 22") st)
      lower_expr (lambda t l b) st = ([], emit_opaque (codes "expr kind 23") st)

      pub lower_exprs : HirExprs → Lower → List Bytes × Lower
      lower_exprs nil_exprs st = ([], st)
      lower_exprs (cons_exprs e es) st =
          let (x, st1) = lower_expr e st in let (xs, st2) = lower_exprs es st1 in (x ∷ xs, st2)
