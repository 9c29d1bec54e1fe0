-- ===== src/HirOpt/Target.antt =====
-- What HIR means, independently of the optimiser: a compositional semantics over a target that
-- gives every construct the optimiser does not compute with. Blocks, `if` and the loops are spelled
-- out; a loop is run on fuel, and a condition is tested before fuel is asked for.
use hphl.Base.{ℕ, zero, suc, Bool, true, false, String, List, [], ◌∷◌}
use hphl.Base.Int.{ℤ}
use hphl.Types.{Ty}
use hphl.Hir.{
  BinOp, UnOp, AssignOp, MemberAttrs, CallAttrs, BinaryAttrs, NewAttrs, Captures, VarDeclAttrs,
  CatchAttrs, ForeachAttrs, HirExpr, null_expr, int_lit, float_lit, bool_lit, member, index,
  array_lit, call, binary, unary, assign, cast, new, cell_tag, load_at, opt_ctor, spawn_expr, await,
  HirExprs, nil_exprs, cons_exprs, HirBlock, null_block, body, HirStmt, null_stmt, block, var_decl,
  expr_stmt, return, if_stmt, while_stmt, do_while, for_stmt, break, continue, panic, assert, throw,
  try_stmt, lock, spawn, parallel, parallel_foreach, HirStmts, nil_stmts, cons_stmts, HirBlocks,
  nil_blocks, cons_blocks,
}

-- How a statement ends: it goes on, leaves or continues a loop, returns, stops the program (a panic,
-- an exception), or runs out of fuel.
pub data Flow (S X : Type 0) : Type 0 where
  normal broke continued returned : S → Flow S X
  stopped : X → Flow S X
  out_of_fuel : Flow S X

-- The meaning of a statement, by the fuel and the state.
abbrev pub Run : Type 0 → Type 0 → Type 0
Run S X = ℕ → S → Flow S X

-- The statement is not ended by `break` or `continue`.
abbrev pub JumpFree : {S X : Type 0} → Flow S X → Type 0
JumpFree (broke s) = ⊥
JumpFree (continued s) = ⊥
JumpFree _ = Unit

-- The truth of a condition, with the state that its evaluation leaves.
pub data Tested (S X : Type 0) : Type 0 where
  decided : Bool → S → Tested S X
  test_stopped : X → Tested S X

-- A target: the meanings of expressions (`Den`), the states, and the ways to stop.
pub record Target : Type 1 where
  pub Den : Type 0
  pub State : Type 0
  pub Stop : Type 0
  pub int_value : ℤ → Bool → Den
  pub float_value : ℕ → Den
  pub bool_value : Bool → Den
  pub absent : Den
  -- the nodes that the optimiser does not enter
  pub leaf : HirExpr → Den
  pub member_of : Ty → MemberAttrs → Den → Den
  pub index_of : Ty → Bool → Den → Den → Den
  pub array_of : Ty → List Den → Den
  pub call_of : Ty → CallAttrs → List Den → Den → Den
  pub binary_of : Ty → BinaryAttrs → BinOp → Den → Den → Den
  pub unary_of : Ty → UnOp → Den → Den
  pub assign_of : Ty → AssignOp → Den → Den → Den
  pub cast_of : Ty → Ty → Den → Den
  pub new_of : Ty → NewAttrs → List Den → Den
  pub tag_of : Ty → Den → Den
  pub load_of : Ty → Den → ℤ → Den
  pub cell_of : Ty → String → Den → Den
  pub task_of : Ty → Run State Stop → Captures → Den
  pub await_of : Ty → Den → Den
  pub test : Den → State → Tested State Stop
  pub run_expr : Den → State → Flow State Stop
  pub run_decl : VarDeclAttrs → Den → State → Flow State Stop
  pub run_return : Den → State → Flow State Stop
  pub run_panic : Den → State → Flow State Stop
  pub run_throw : Den → State → Flow State Stop
  pub fail_assert : ℕ → State → Flow State Stop
  pub enter : State → State
  pub leave : State → State
  pub run_try : CatchAttrs → Run State Stop → Run State Stop → Run State Stop
  pub run_lock : Den → Run State Stop → Run State Stop
  pub run_spawn : Run State Stop → Captures → Run State Stop
  pub run_parallel : Bool → List Captures → List (Run State Stop) → Run State Stop
  pub run_foreach : ForeachAttrs → Den → Run State Stop → Run State Stop

module _ (t : Target) where
  open t use {State, Stop, Den}

  abbrev pub skip : Run State Stop
  skip fuel s = normal s

  abbrev pub after : Flow State Stop → (State → Flow State Stop) → Flow State Stop
  after (normal s) k = k s
  after (broke s) k = broke s
  after (continued s) k = continued s
  after (returned s) k = returned s
  after (stopped x) k = stopped x
  after out_of_fuel k = out_of_fuel

  abbrev pub seq : Run State Stop → Run State Stop → Run State Stop
  seq a b fuel s = after (a fuel s) (b fuel)

  abbrev pub map_state : (State → State) → Flow State Stop → Flow State Stop
  map_state f (normal s) = normal (f s)
  map_state f (broke s) = broke (f s)
  map_state f (continued s) = continued (f s)
  map_state f (returned s) = returned (f s)
  map_state f (stopped x) = stopped x
  map_state f out_of_fuel = out_of_fuel

  -- A block with a scope of its own, and a transparent one.
  abbrev pub scoped : Bool → Run State Stop → Run State Stop
  scoped true r fuel s = map_state t.leave (r fuel (t.enter s))
  scoped false r fuel s = r fuel s

  abbrev pub branch :
      Tested State Stop → (State → Flow State Stop) → (State → Flow State Stop) → Flow State Stop
  branch (decided true s) yes_part no_part = yes_part s
  branch (decided false s) yes_part no_part = no_part s
  branch (test_stopped x) yes_part no_part = stopped x

  abbrev pub run_if : Den → Run State Stop → Run State Stop → Run State Stop
  run_if c a b fuel s = branch (t.test c s) (a fuel) (b fuel)

  -- The end of a round: `break` leaves the loop, `continue` goes on with `next`.
  abbrev pub round : Flow State Stop → (State → Flow State Stop) → Flow State Stop
  round (normal s) next = next s
  round (continued s) next = next s
  round (broke s) next = normal s
  round (returned s) next = returned s
  round (stopped x) next = stopped x
  round out_of_fuel next = out_of_fuel

  -- `while (c) b`, with `step` at the end of each round (for a `for`).
  unfoldable pub run_loop : Den → Run State Stop → Run State Stop → Run State Stop
  run_loop c b step zero s = branch (t.test c s) (λ _. out_of_fuel) normal
  run_loop c b step (suc fuel) s =
      let again = λ (s' : State). after (step fuel s') (run_loop c b step fuel) in
      branch (t.test c s) (λ s'. round (b fuel s') again) normal

  -- `do b while (c)`
  unfoldable pub run_do : Den → Run State Stop → Run State Stop
  run_do c b zero s = round (b zero s) (λ s'. branch (t.test c s') (λ _. out_of_fuel) normal)
  run_do c b (suc fuel) s =
      round (b (suc fuel) s) (λ s'. branch (t.test c s') (run_do c b fuel) normal)

  unfoldable mutual
    pub eval : HirExpr → Den
    eval null_expr = t.absent
    eval (int_lit _ a is_u) = t.int_value a is_u
    eval (float_lit _ f) = t.float_value f
    eval (bool_lit _ b) = t.bool_value b
    eval (member w m o) = t.member_of w m (eval o)
    eval (index w lb o i) = t.index_of w lb (eval o) (eval i)
    eval (array_lit w es) = t.array_of w (eval_all es)
    eval (call w c args f) = t.call_of w c (eval_all args) (eval f)
    eval (binary w b op l r) = t.binary_of w b op (eval l) (eval r)
    eval (unary w op e) = t.unary_of w op (eval e)
    eval (assign w op target e) = t.assign_of w op (eval target) (eval e)
    eval (cast w target e) = t.cast_of w target (eval e)
    eval (new w n args) = t.new_of w n (eval_all args)
    eval (cell_tag w e) = t.tag_of w (eval e)
    eval (load_at w e off) = t.load_of w (eval e) off
    eval (opt_ctor w v e) = t.cell_of w v (eval e)
    eval (spawn_expr w b caps) = t.task_of w (exec_block b) caps
    eval (await w e) = t.await_of w (eval e)
    eval e = t.leaf e

    pub eval_all : HirExprs → List Den
    eval_all nil_exprs = []
    eval_all (cons_exprs e es) = eval e ∷ eval_all es

    pub exec : HirStmt → Run State Stop
    exec null_stmt = skip
    exec (block b) = exec_block b
    exec (var_decl v e) = λ fuel. t.run_decl v (eval e)
    exec (expr_stmt e) = λ fuel. t.run_expr (eval e)
    exec (return e) = λ fuel. t.run_return (eval e)
    exec (if_stmt c a b) = run_if (eval c) (exec_block a) (exec b)
    exec (while_stmt c b) = run_loop (eval c) (exec_block b) skip
    exec (do_while c b) = run_do (eval c) (exec_block b)
    exec (for_stmt i c step b) =
        seq (exec i) (run_loop (eval c) (exec_block b) (λ fuel. t.run_expr (eval step)))
    exec break = λ fuel. broke
    exec continue = λ fuel. continued
    exec (panic e) = λ fuel. t.run_panic (eval e)
    exec (assert e line) = λ fuel s. branch (t.test (eval e) s) normal (t.fail_assert line)
    exec (throw e) = λ fuel. t.run_throw (eval e)
    exec (try_stmt a b c) = t.run_try a (exec_block b) (exec_block c)
    exec (lock e b) = t.run_lock (eval e) (exec_block b)
    exec (spawn b caps) = t.run_spawn (exec_block b) caps
    exec (parallel det caps bs) = t.run_parallel det caps (exec_all bs)
    exec (parallel_foreach a e b) = t.run_foreach a (eval e) (exec_block b)

    pub exec_list : HirStmts → Run State Stop
    exec_list nil_stmts = skip
    exec_list (cons_stmts s ss) = seq (exec s) (exec_list ss)

    pub exec_block : HirBlock → Run State Stop
    exec_block null_block = skip
    exec_block (body scope ss) = scoped scope (exec_list ss)

    pub exec_all : HirBlocks → List (Run State Stop)
    exec_all nil_blocks = []
    exec_all (cons_blocks b bs) = exec_block b ∷ exec_all bs
