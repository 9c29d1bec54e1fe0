-- ===== src/HirOpt/Escape.antt =====
-- What becomes of a `break` in a `do` loop whose condition is constantly false.
use hphl.Base.{ℕ, zero, suc, Bool, true, false, ◌≡◌, refl, ap, ◌∙◌}
use hphl.Types.{Ty}
use hphl.Hir.{HirBlock, bool_lit, do_while}
use hphl.HirOpt.Doubles.{Doubles}
use hphl.HirOpt.Fold.{as_const}
use hphl.HirOpt.Simplify.{fold_expr, simplify_stmt, simplify_block, cond_value}
use hphl.HirOpt.Target.{Target, Run, normal, broke, exec, exec_block, run_do}
use hphl.HirOpt.Exact.{IsFaithful}
use hphl.HirOpt.Fragment.{exact_block}
use hphl.HirOpt.Steps.{exec-stmt_of_block}
use hphl.HirOpt.Sound.{block_sound}

-- A `break` that ends the body leaves a `do` loop.
run_do-broke :
    (t : Target) (c : t.Den) (r : Run t.State t.Stop) (fuel : ℕ) (s s' : t.State)
    → r fuel s ≡ broke s'
    → run_do t c r fuel s ≡ normal s'
unfolding run_do
run_do-broke t c r zero s s' e = rw (e, run_do) refl
run_do-broke t c r (suc fuel) s s' e = rw (e, run_do) refl

-- In `do b while (false)`, where the body `b` is exact (as `simplify_rounds_sound` says it), a `break`
-- that ends the body leaves the loop, and the code goes on. The optimiser leaves the bare body, which
-- still ends in the `break`, and so leaves the loop around it: in every target that computes constants
-- as the language does, with a scope of its own for the body or without, in every state and with any
-- fuel with which the body ends so.
pub do_while-break_escapes :
    (d : Doubles) (t : Target)
    → IsFaithful d t
    → (w : Ty) (b : HirBlock) (changed : Bool) (fuel : ℕ) (s s' : t.State) → exact_block b ≡ true
    → exec_block t b fuel s ≡ broke s'
    → (exec t (do_while (bool_lit w false) b) fuel s ≡ normal s')
      × (exec t (simplify_stmt d (do_while (bool_lit w false) b) changed).0 fuel s ≡ broke s')
unfolding exec simplify_stmt cond_value as_const fold_expr
do_while-break_escapes d t ok w b changed fuel s s' h e =
    let same =
      exec-stmt_of_block d t ok (simplify_block d b changed).0 ∙ block_sound d t ok b changed h in
    (
      run_do-broke t (t.bool_value false) (exec_block t b) fuel s s' e,
      ap (λ (r : Run t.State t.Stop). r fuel s) same ∙ e,
    )
