-- ===== src/Mir/ExprMoves.antt =====
-- What `lowerExpr` of compiler/src/mir/mir.cpp does to the labels, the jumps and the ends of blocks.
use hphl.Base.{
  ℕ, suc, ◌+◌, ◌≤◌, Bool, true, false, List, [], ◌∷◌, ◌++◌, String, if◌then◌else◌, ◌≡◌, refl,
  Bool-cases, inl, inr, arith,
}
use hphl.Hir
use hphl.Hir.{
  BinOp, UnOp, AssignOp, HirExpr, null_expr, int_lit, float_lit, string_lit, char_lit, bool_lit,
  null_lit, var, this, member, index, array_lit, tuple_lit, call, binary, unary, assign, cast, new,
  cell_tag, load_at, opt_ctor, spawn_expr, await, lambda, HirExprs, nil_exprs, cons_exprs,
}
use hphl.Json.{Bytes}
use hphl.Json.Text.{decimal}
use hphl.Mir
use hphl.Mir.{codes, tail_of, listed, MirInst, targets_of, plain_inst}
use hphl.Mir.Lower.{Lower, Gen, new_temp, emit, emit_temp, cond_br_to, load_of}
use hphl.Mir.Exprs.{
  short_circuit, lower_operation, lower_target, lower_binary, lower_unary, lower_assign, lower_call,
  lower_expr, lower_exprs, is_cmp, is_plain, binary_inst, unary_inst, assign_inst,
}
use hphl.Mir.Labels.{
  is_base, has_no_digit, is_at, hits_in, Extends, below, hits, starts, opens, stays, then_on,
  settled,
}
use hphl.Mir.Moves.{emitted, started, numbered, jumped, hits_in-cond_br}

module _ (t : Bytes) where
  -- An instruction that jumps nowhere.
  pub plainly : (i : MirInst) (a : Lower) → targets_of i ≡ [] → Extends t 0 0 a (emit i a)
  unfolding hits_in listed
  plainly i a h = emitted t i a (rw h (omega arith))

  -- A step that changes the counters only.
  pub counted :
      (s n : ℕ) (a : Lower)
      → below t a.block_counter ≤ below t n
      → Extends t 0 0 a (record a { temp_counter = s; block_counter = n })
  unfolding hits starts opens
  counted s n a h = record {
    closed = omega arith;
    aims = omega arith;
    grows = omega arith;
    once = omega (arith, h);
  }

  pub temp_counted : (a : Lower) → Extends t 0 0 a (new_temp a).1
  temp_counted a = counted (suc a.temp_counter) a.block_counter a (omega arith)

  pub temp_made :
      (i : MirInst) (a : Lower)
      → targets_of (record i { dst = (new_temp a).0 }) ≡ []
      → Extends t 0 0 a (emit_temp i a).1
  temp_made i a h =
      then_on t (temp_counted a) (plainly (record i { dst = (new_temp a).0 }) (new_temp a).1 h)

  hits_in-choice :
      (b : Bool) (c l r : Bytes)
      → hits_in t (targets_of (if b then cond_br_to c l r else cond_br_to c r l))
        ≤ is_at t l + is_at t r
  hits_in-choice true c l r = hits_in-cond_br t c l r
  hits_in-choice false c l r = omega (arith, hits_in-cond_br t c r l)

  pub short_circuit-Extends :
      (is_and : Bool) (f g : Gen)
      → ((st : Lower) → Extends t 0 0 st (f st).1)
      → ((st : Lower) → Extends t 0 0 st (g st).1)
      → (st : Lower) → Extends t 0 0 st (short_circuit is_and f g st).1
  unfolding short_circuit is_base has_no_digit
  short_circuit-Extends is_and f g p q st =
      let n = st.block_counter in
      let rhs_label = codes "sc.rhs" ++ decimal n in
      let join_label = codes "sc.join" ++ decimal (suc n) in
      settled t 0 (is_at t rhs_label + is_at t join_label)
        (then_on t
          (p (record st { temp_counter = suc st.temp_counter; block_counter = suc (suc n) }))
          (then_on t (emitted t _ _ (hits_in-choice is_and _ rhs_label join_label)) (
            then_on t (started t rhs_label _) (
              then_on t (q _) (
                then_on t (plainly _ _ refl) (
                  then_on t (jumped t join_label _) (
                    then_on t (started t join_label _)
                      (temp_made (load_of (new_temp st).0) _ refl))))))))
        (omega
          (arith, numbered t (codes "sc.rhs") n refl, numbered t (codes "sc.join") (suc n) refl))
        (omega arith) (omega arith)

  lower_binary-Extends :
      (op : BinOp) (f g : Gen)
      → ((st : Lower) → Extends t 0 0 st (f st).1)
      → ((st : Lower) → Extends t 0 0 st (g st).1)
      → (st : Lower) → Extends t 0 0 st (lower_binary op f g st).1
  unfolding lower_binary
  lower_binary-Extends op f g p q st =
      let i = binary_inst op (f st).0 (g (f st).1).0 in
      let h : targets_of i ≡ [] = elim (Bool-cases (is_cmp op)) [
        | inl e ↦ rw e refl
        | inr e ↦ rw e refl
      ] in
      then_on t (then_on t (p st) (q _)) (temp_made i _ h)

  lower_unary-Extends :
      (op : UnOp) (f : Gen)
      → ((st : Lower) → Extends t 0 0 st (f st).1)
      → (st : Lower) → Extends t 0 0 st (lower_unary op f st).1
  unfolding lower_unary
  lower_unary-Extends op f p st = then_on t (p st) (temp_made (unary_inst op (f st).0) _ refl)

  lower_assign-Extends :
      (op : AssignOp) (x : Bytes) (f : Gen)
      → ((st : Lower) → Extends t 0 0 st (f st).1)
      → (st : Lower) → Extends t 0 0 st (lower_assign op x f st).1
  unfolding lower_assign
  lower_assign-Extends op x f p st = elim (Bool-cases (is_plain op)) [
    | inl e ↦ rw e (then_on t (p st) (plainly _ _ refl))
    | inr e ↦ rw e (
        then_on t (p st) (
          then_on t (temp_made (load_of (codes "%" ++ x)) (f st).1 refl) (
            then_on t
              (temp_made (assign_inst op (new_temp (f st).1).0 (f st).0)
                (emit_temp (load_of (codes "%" ++ x)) (f st).1).1 refl)
              (plainly _ _ refl))))
  ]

  lower_operation-Extends :
      (op : BinOp) (f g : Gen)
      → ((st : Lower) → Extends t 0 0 st (f st).1)
      → ((st : Lower) → Extends t 0 0 st (g st).1)
      → (st : Lower) → Extends t 0 0 st (lower_operation op f g st).1
  unfolding lower_operation
  lower_operation-Extends Hir.and f g p q st = short_circuit-Extends true f g p q st
  lower_operation-Extends Hir.or f g p q st = short_circuit-Extends false f g p q st
  lower_operation-Extends op f g p q st = lower_binary-Extends op f g p q st

  lower_target-Extends :
      (op : AssignOp) (target : HirExpr) (f : Gen)
      → ((st : Lower) → Extends t 0 0 st (f st).1)
      → (st : Lower) → Extends t 0 0 st (lower_target op target f st).1
  unfolding lower_target
  lower_target-Extends op (var u v) f p st = elim (Bool-cases v.is_global) [
    | inl e ↦ rw e (plainly _ st refl)
    | inr e ↦ rw e (lower_assign-Extends op (codes v.name) f p st)
  ]
  lower_target-Extends op target f p st = plainly _ st refl

  lower_call-Extends :
      (valued : Bool) (callee : Bytes) (f : Lower → List Bytes × Lower)
      → ((st : Lower) → Extends t 0 0 st (f st).1)
      → (st : Lower) → Extends t 0 0 st (lower_call valued callee f st).1
  unfolding lower_call
  lower_call-Extends true callee f p st =
      then_on t (then_on t (temp_counted st) (p _)) (plainly _ _ refl)
  lower_call-Extends false callee f p st = then_on t (p _) (plainly _ _ refl)

  module _ (decl_name decl_owner : ℕ → String) (print : ℕ → Bytes) where
    mutual
      unfolding lower_expr

      pub lower_expr-Extends :
          (e : HirExpr) (st : Lower)
          → Extends t 0 0 st (lower_expr decl_name decl_owner print e st).1
      lower_expr-Extends null_expr st = stays t st
      lower_expr-Extends (int_lit u v x) st = stays t st
      lower_expr-Extends (bool_lit u v) st = stays t st
      lower_expr-Extends (char_lit u v) st = stays t st
      lower_expr-Extends (float_lit u v) st =
          temp_made (record (plain_inst Mir.f_imm) { text = print v }) st refl
      lower_expr-Extends (string_lit u v) st =
          temp_made (record (plain_inst Mir.s_imm) { text = 34 ∷ codes v ++ 34 ∷ [] }) st refl
      lower_expr-Extends (null_lit u) st = temp_made (plain_inst Mir.imm) st refl
      lower_expr-Extends (var u v) st = stays t st
      lower_expr-Extends (this u) st = temp_made (load_of (codes "%this")) st refl
      lower_expr-Extends (binary u b op l r) st =
          lower_operation-Extends op _ _ (lower_expr-Extends l) (lower_expr-Extends r) st
      lower_expr-Extends (unary u op e) st =
          lower_unary-Extends op (lower_expr decl_name decl_owner print e) (lower_expr-Extends e) st
      lower_expr-Extends (assign u op target e) st =
          lower_target-Extends op target _ (lower_expr-Extends e) st
      lower_expr-Extends (call u c args f) st = elim (Bool-cases c.folded) [
        | inl h ↦ rw h (stays t st)
        | inr h ↦ rw h (lower_call-Extends _ _ _ (lower_exprs-Extends args) st)
      ]
      lower_expr-Extends (member u m e) st = plainly _ st refl
      lower_expr-Extends (index u b e i) st = plainly _ st refl
      lower_expr-Extends (array_lit u es) st = plainly _ st refl
      lower_expr-Extends (tuple_lit u es) st = plainly _ st refl
      lower_expr-Extends (cast u v e) st = plainly _ st refl
      lower_expr-Extends (new u n es) st = plainly _ st refl
      lower_expr-Extends (cell_tag u e) st = plainly _ st refl
      lower_expr-Extends (load_at u e o) st = plainly _ st refl
      lower_expr-Extends (opt_ctor u v e) st = plainly _ st refl
      lower_expr-Extends (spawn_expr u b c) st = plainly _ st refl
      lower_expr-Extends (await u e) st = plainly _ st refl
      lower_expr-Extends (lambda u l b) st = plainly _ st refl

      pub lower_exprs-Extends :
          (es : HirExprs) (st : Lower)
          → Extends t 0 0 st (lower_exprs decl_name decl_owner print es st).1
      lower_exprs-Extends nil_exprs st = stays t st
      lower_exprs-Extends (cons_exprs e es) st =
          then_on t (lower_expr-Extends e st) (lower_exprs-Extends es _)
