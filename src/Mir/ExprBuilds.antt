-- ===== src/Mir/ExprBuilds.antt =====
-- The expressions that `MirLower` of compiler/src/mir/mir.cpp lowers, as steps of the builder.
use hphl.Base.{
  ℕ, Bool, true, false, List, [], ◌∷◌, ◌++◌, String, if◌then◌else◌, ◌≡◌, refl, Bool-cases, inl, inr,
}
use hphl.Hir
use hphl.Hir.{
  BinOp, UnOp, AssignOp, HirExpr, null_expr, int_lit, float_lit, string_lit, char_lit, bool_lit,
  null_lit, var, this, member, index, array_lit, tuple_lit, call, binary, unary, assign, cast, new,
  cell_tag, load_at, opt_ctor, spawn_expr, await, lambda, HirExprs, nil_exprs, cons_exprs,
}
use hphl.Json.{Bytes}
use hphl.Mir
use hphl.Mir.{codes, tail_of, MirInst, plain_inst}
use hphl.Mir.Lower.{Lower, Gen, new_temp, load_of}
use hphl.Mir.Exprs.{
  short_circuit, lower_operation, lower_target, lower_binary, lower_unary, lower_assign, lower_call,
  lower_expr, lower_exprs, is_cmp, is_plain, binary_inst, unary_inst, assign_inst,
}
use hphl.Mir.Builds.{
  result_of, Builds, same, plainly, counted, skipped, made, Builds-trans, Builds-start_block,
  Builds-emit_temp,
}

abbrev pub Builder : Gen → Type 0
Builder f = (st : Lower) → Builds st (f st).1

either_writes_nothing :
    (b : Bool) (i j : MirInst)
    → result_of i ≡ []
    → result_of j ≡ []
    → result_of (if b then i else j) ≡ []
either_writes_nothing true i j h k = h
either_writes_nothing false i j h k = k

short_circuit-Builder :
    (is_and : Bool) (f g : Gen) → Builder f → Builder g → Builder (short_circuit is_and f g)
unfolding short_circuit
short_circuit-Builder is_and f g p q st =
    Builds-emit_temp (load_of (new_temp st).0)
      (Builds-start_block _ (
        plainly _
          (plainly _
            (Builds-trans
              (Builds-start_block _ (
                plainly _ (Builds-trans (counted _ (skipped same)) (p _))
                  (either_writes_nothing is_and _ _ refl refl)))
              (q _))
            refl)
          refl))
      refl

lower_binary-Builder :
    (op : BinOp) (f g : Gen) → Builder f → Builder g → Builder (lower_binary op f g)
unfolding lower_binary
lower_binary-Builder op f g p q st =
    let i = binary_inst op (f st).0 (g (f st).1).0 in
    let t = (new_temp (g (f st).1).1).0 in
    let h : result_of (record i { dst = t }) ≡ t = elim (Bool-cases (is_cmp op)) [
      | inl e ↦ rw e refl
      | inr e ↦ rw e refl
    ] in
    Builds-emit_temp i (Builds-trans (p st) (q _)) h

lower_operation-Builder :
    (op : BinOp) (f g : Gen) → Builder f → Builder g → Builder (lower_operation op f g)
unfolding lower_operation
lower_operation-Builder Hir.and f g p q st = short_circuit-Builder true f g p q st
lower_operation-Builder Hir.or f g p q st = short_circuit-Builder false f g p q st
lower_operation-Builder op f g p q st = lower_binary-Builder op f g p q st

lower_unary-Builder : (op : UnOp) (f : Gen) → Builder f → Builder (lower_unary op f)
unfolding lower_unary
lower_unary-Builder op f p st = Builds-emit_temp (unary_inst op (f st).0) (p st) refl

lower_assign-Builder :
    (op : AssignOp) (x : Bytes) (f : Gen) → Builder f → Builder (lower_assign op x f)
unfolding lower_assign
lower_assign-Builder op x f p st = elim (Bool-cases (is_plain op)) [
  | inl e ↦ rw e (plainly _ (p st) refl)
  | inr e ↦ rw e (
      plainly _
        (Builds-emit_temp (assign_inst op (new_temp (f st).1).0 (f st).0)
          (Builds-emit_temp (load_of (codes "%" ++ x)) (p st) refl) refl)
        refl)
]

lower_target-Builder :
    (op : AssignOp) (target : HirExpr) (f : Gen) → Builder f → Builder (lower_target op target f)
unfolding lower_target
lower_target-Builder op (var u v) f p st = elim (Bool-cases v.is_global) [
  | inl e ↦ rw e (plainly _ same refl)
  | inr e ↦ rw e (lower_assign-Builder op (codes v.name) f p st)
]
lower_target-Builder op target f p st = plainly _ same refl

lower_call-Builder :
    (valued : Bool) (callee : Bytes) (f : Lower → List Bytes × Lower)
    → ((st : Lower) → Builds st (f st).1)
    → Builder (lower_call valued callee f)
unfolding lower_call
lower_call-Builder true callee f p st = made _ same (p _) refl
lower_call-Builder false callee f p st = plainly _ (p _) refl

module _ (decl_name decl_owner : ℕ → String) (print : ℕ → Bytes) where
  mutual
    unfolding lower_expr

    pub lower_expr-Builder : (e : HirExpr) → Builder (lower_expr decl_name decl_owner print e)
    lower_expr-Builder null_expr st = same
    lower_expr-Builder (int_lit u v x) st = same
    lower_expr-Builder (bool_lit u v) st = same
    lower_expr-Builder (char_lit u v) st = same
    lower_expr-Builder (float_lit u v) st =
        Builds-emit_temp (record (plain_inst Mir.f_imm) { text = print v }) same refl
    lower_expr-Builder (string_lit u v) st =
        Builds-emit_temp (record (plain_inst Mir.s_imm) { text = 34 ∷ codes v ++ 34 ∷ [] }) same
          refl
    lower_expr-Builder (null_lit u) st = Builds-emit_temp (plain_inst Mir.imm) same refl
    lower_expr-Builder (var u v) st = same
    lower_expr-Builder (this u) st = Builds-emit_temp (load_of (codes "%this")) same refl
    lower_expr-Builder (binary u b op l r) st =
        lower_operation-Builder op _ _ (lower_expr-Builder l) (lower_expr-Builder r) st
    lower_expr-Builder (unary u op e) st = lower_unary-Builder op _ (lower_expr-Builder e) st
    lower_expr-Builder (assign u op target e) st =
        lower_target-Builder op target _ (lower_expr-Builder e) st
    lower_expr-Builder (call u c args f) st = elim (Bool-cases c.folded) [
      | inl h ↦ rw h same
      | inr h ↦ rw h (lower_call-Builder _ _ _ (lower_exprs-Builder args) st)
    ]
    lower_expr-Builder e st = plainly _ same refl

    pub lower_exprs-Builder :
        (es : HirExprs) (st : Lower) → Builds st (lower_exprs decl_name decl_owner print es st).1
    lower_exprs-Builder nil_exprs st = same
    lower_exprs-Builder (cons_exprs e es) st =
        Builds-trans (lower_expr-Builder e st) (lower_exprs-Builder es _)
