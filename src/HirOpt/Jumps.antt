-- ===== src/HirOpt/Jumps.antt =====
-- Code without `break` and `continue` is not ended by one.
use mathlib.Core.Bool.{false≢true}
use hphl.Base.{ℕ, zero, suc, Bool, true, false, ◌≡◌, and_left, and_right}
use hphl.Hir.{
  HirBlock, null_block, body, HirStmt, null_stmt, block, var_decl, expr_stmt, return, if_stmt,
  while_stmt, do_while, for_stmt, break, continue, panic, assert, throw, try_stmt, lock, spawn,
  parallel, parallel_foreach, HirStmts, nil_stmts, cons_stmts,
}
use hphl.HirOpt.Doubles.{Doubles}
use hphl.HirOpt.Target.{
  Target, Flow, Run, Tested, decided, test_stopped, normal, broke, continued, returned, stopped,
  out_of_fuel, JumpFree, branch, round, after, skip, scoped, map_state, run_loop, run_do, eval,
  exec, exec_list, exec_block,
}
use hphl.HirOpt.Exact.{IsFaithful}
use hphl.HirOpt.Fragment.{no_jump, no_jump_list, no_jump_block}

module _ (d : Doubles) (t : Target) (ok : IsFaithful d t) where
  open t use {State, Stop, Den}

  branch-JumpFree :
      (r : Tested State Stop) (a b : State → Flow State Stop)
      → ((s : State) → JumpFree (a s))
      → ((s : State) → JumpFree (b s))
      → JumpFree (branch t r a b)
  branch-JumpFree (decided true s) a b h k = h s
  branch-JumpFree (decided false s) a b h k = k s
  branch-JumpFree (test_stopped x) a b h k = tt

  after-JumpFree :
      (f : Flow State Stop) (k : State → Flow State Stop)
      → JumpFree f
      → ((s : State) → JumpFree (k s))
      → JumpFree (after t f k)
  after-JumpFree (normal s) k h j = j s
  after-JumpFree (broke s) k h j = h
  after-JumpFree (continued s) k h j = h
  after-JumpFree (returned s) k h j = tt
  after-JumpFree (stopped x) k h j = tt
  after-JumpFree out_of_fuel k h j = tt

  round-JumpFree :
      (f : Flow State Stop) (next : State → Flow State Stop)
      → ((s : State) → JumpFree (next s))
      → JumpFree (round t f next)
  round-JumpFree (normal s) next j = j s
  round-JumpFree (broke s) next j = tt
  round-JumpFree (continued s) next j = j s
  round-JumpFree (returned s) next j = tt
  round-JumpFree (stopped x) next j = tt
  round-JumpFree out_of_fuel next j = tt

  map_state-JumpFree :
      (g : State → State) (f : Flow State Stop) → JumpFree f → JumpFree (map_state t g f)
  map_state-JumpFree g (normal s) h = tt
  map_state-JumpFree g (broke s) h = h
  map_state-JumpFree g (continued s) h = h
  map_state-JumpFree g (returned s) h = tt
  map_state-JumpFree g (stopped x) h = tt
  map_state-JumpFree g out_of_fuel h = tt

  run_loop-JumpFree :
      (c : Den) (b step : Run State Stop)
      → ((fuel : ℕ) (s : State) → JumpFree (step fuel s))
      → (fuel : ℕ) (s : State) → JumpFree (run_loop t c b step fuel s)
  unfolding run_loop
  run_loop-JumpFree c b step h zero s =
      branch-JumpFree (t.test c s) (λ _. out_of_fuel) normal (λ _. tt) (λ _. tt)
  run_loop-JumpFree c b step h (suc fuel) s =
      let again = λ (u : State). after t (step fuel u) (run_loop t c b step fuel) in
      branch-JumpFree (t.test c s) (λ s'. round t (b fuel s') again) normal
        (λ s'. round-JumpFree (b fuel s') again (λ u.
          after-JumpFree (step fuel u) (run_loop t c b step fuel) (h fuel u)
            (run_loop-JumpFree c b step h fuel)))
        (λ _. tt)

  run_do-JumpFree :
      (c : Den) (b : Run State Stop) (fuel : ℕ) (s : State) → JumpFree (run_do t c b fuel s)
  unfolding run_do
  run_do-JumpFree c b zero s =
      round-JumpFree (b zero s) (λ u. branch t (t.test c u) (λ _. out_of_fuel) normal)
        (λ u. branch-JumpFree (t.test c u) (λ _. out_of_fuel) normal (λ _. tt) (λ _. tt))
  run_do-JumpFree c b (suc fuel) s =
      round-JumpFree (b (suc fuel) s) (λ u. branch t (t.test c u) (run_do t c b fuel) normal)
        (λ u.
          branch-JumpFree (t.test c u) (run_do t c b fuel) normal (run_do-JumpFree c b fuel)
            (λ _. tt))

  scoped-JumpFree :
      (scope : Bool) (r : Run State Stop)
      → ((fuel : ℕ) (s : State) → JumpFree (r fuel s))
      → (fuel : ℕ) (s : State) → JumpFree (scoped t scope r fuel s)
  scoped-JumpFree true r h fuel s =
      map_state-JumpFree t.leave (r fuel (t.enter s)) (h fuel (t.enter s))
  scoped-JumpFree false r h fuel s = h fuel s

  mutual
    unfolding no_jump exec

    stmt-JumpFree :
        (s : HirStmt) → no_jump s ≡ true → (fuel : ℕ) (u : State) → JumpFree (exec t s fuel u)
    stmt-JumpFree null_stmt h fuel u = tt
    stmt-JumpFree (block b) h fuel u = block-JumpFree b h fuel u
    stmt-JumpFree (var_decl v e) h fuel u = ok.decl_ends v (eval t e) u
    stmt-JumpFree (expr_stmt e) h fuel u = ok.expr_ends (eval t e) u
    stmt-JumpFree (return e) h fuel u = ok.return_ends (eval t e) u
    stmt-JumpFree (if_stmt c a b) h fuel u =
        branch-JumpFree (t.test (eval t c) u) (exec_block t a fuel) (exec t b fuel)
          (block-JumpFree a (and_left _ _ h) fuel) (stmt-JumpFree b (and_right _ _ h) fuel)
    stmt-JumpFree (while_stmt c b) h fuel u =
        run_loop-JumpFree (eval t c) (exec_block t b) (skip t) (λ _ _. tt) fuel u
    stmt-JumpFree (do_while c b) h fuel u = run_do-JumpFree (eval t c) (exec_block t b) fuel u
    stmt-JumpFree (for_stmt i c step b) h fuel u =
        let rest = λ (fuel : ℕ). t.run_expr (eval t step) in
        after-JumpFree (exec t i fuel u) (run_loop t (eval t c) (exec_block t b) rest fuel)
          (stmt-JumpFree i h fuel u)
          (run_loop-JumpFree (eval t c) (exec_block t b) rest (λ _. ok.expr_ends (eval t step))
            fuel)
    stmt-JumpFree break h fuel u = absurd (false≢true h)
    stmt-JumpFree continue h fuel u = absurd (false≢true h)
    stmt-JumpFree (panic e) h fuel u = ok.panic_ends (eval t e) u
    stmt-JumpFree (assert e line) h fuel u =
        branch-JumpFree (t.test (eval t e) u) normal (t.fail_assert line) (λ _. tt)
          (ok.assert_ends line)
    stmt-JumpFree (throw e) h fuel u = ok.throw_ends (eval t e) u
    stmt-JumpFree (try_stmt _ _ _) h fuel u = absurd (false≢true h)
    stmt-JumpFree (lock _ _) h fuel u = absurd (false≢true h)
    stmt-JumpFree (spawn _ _) h fuel u = absurd (false≢true h)
    stmt-JumpFree (parallel _ _ _) h fuel u = absurd (false≢true h)
    stmt-JumpFree (parallel_foreach _ _ _) h fuel u = absurd (false≢true h)

    list-JumpFree :
        (ss : HirStmts)
        → no_jump_list ss ≡ true
        → (fuel : ℕ) (u : State) → JumpFree (exec_list t ss fuel u)
    list-JumpFree nil_stmts h fuel u = tt
    list-JumpFree (cons_stmts s ss) h fuel u =
        after-JumpFree (exec t s fuel u) (exec_list t ss fuel)
          (stmt-JumpFree s (and_left _ _ h) fuel u) (list-JumpFree ss (and_right _ _ h) fuel)

    block-JumpFree :
        (b : HirBlock)
        → no_jump_block b ≡ true
        → (fuel : ℕ) (u : State) → JumpFree (exec_block t b fuel u)
    block-JumpFree null_block h fuel u = tt
    block-JumpFree (body scope ss) h fuel u =
        scoped-JumpFree scope (exec_list t ss) (list-JumpFree ss h) fuel u

  -- Such a block is not left by a jump.
  pub exec_block-JumpFree :
      (b : HirBlock)
      → no_jump_block b ≡ true
      → (fuel : ℕ) (u : State) → JumpFree (exec_block t b fuel u)
  exec_block-JumpFree b h fuel u = block-JumpFree b h fuel u
