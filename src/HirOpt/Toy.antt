-- ===== src/HirOpt/Toy.antt =====
-- A target that evaluates constants and records them, for the tests of the optimiser.
use hphl.Base.{
  ℕ, ◌%◌, ◌+◌, ◌-◌, ◌/◌, ◌^◌, Bool, true, false, not, ◌≡◌, refl, ◌==◌, ltb, leb, if◌then◌else◌,
  List, ◌∷◌, arith,
}
use hphl.Base.Int.{ℤ, pos, negsuc, pos_part, ◌-ℤ◌, wrap64, is_int64}
use hphl.Types
use hphl.Types.{Kind, Ty, kind, make_int, make_bool, make_void}
use hphl.Hir.{BinOp, UnOp}
use hphl.HirOpt.Doubles.{Doubles, zero_double}
use hphl.HirOpt.Fold.{
  Folded, value, truth, invalid, is_zero, Const, int_const, float_const, bool_const, no_const,
}
use hphl.HirOpt.Target.{Target, normal, returned, stopped, decided, test_stopped, Tested}
use hphl.HirOpt.Exact.{signed_op, double_op, truth_op, Gives, GivesDouble, IsFaithful}

pub small-is_int64 : (f : ℕ) → is_int64 (pos (f % 2 ^ 63)) ≡ true
small-is_int64 f = ground arith

-- `double`s that hold the natural numbers only.
abbrev pub toy_doubles : Doubles
toy_doubles = record {
  add = λ a b. a + b;
  sub = λ a b. a - b;
  mul = λ a b. a + b;
  div = λ a b. a / b;
  neg = λ a. a;
  eq = λ a b. a == b;
  lt = λ a b. ltb a b;
  le = λ a b. leb a b;
  of_int = λ a. pos_part a;
  to_int = λ f. pos (f % 2 ^ 63);
  to_int_fits = small-is_int64;
}

abbrev pub of_folded : Folded ℤ → Const
of_folded (value v) = int_const v false
of_folded (truth b) = bool_const b
of_folded invalid = no_const

abbrev pub of_double : Folded ℕ → Const
of_double (value v) = float_const v
of_double (truth b) = bool_const b
of_double invalid = no_const

abbrev pub compute : BinOp → Const → Const → Const
compute op (int_const a false) (int_const b false) = of_folded (signed_op op a b)
compute op (int_const a false) (float_const b) = of_double (double_op toy_doubles op (pos_part a) b)
compute op (float_const a) (int_const b false) = of_double (double_op toy_doubles op a (pos_part b))
compute op (float_const a) (float_const b) = of_double (double_op toy_doubles op a b)
compute op (bool_const a) (bool_const b) = of_folded (truth_op op a b)
compute op _ _ = no_const

abbrev pub compute_unary : UnOp → Const → Const
compute_unary UnOp.neg (int_const a false) = int_const (wrap64 (pos 0 -ℤ a)) false
compute_unary UnOp.bit_not (int_const a false) = int_const (negsuc 0 -ℤ a) false
compute_unary UnOp.not_op (int_const a false) = bool_const (is_zero a)
compute_unary UnOp.neg (float_const f) = float_const f
compute_unary UnOp.not_op (bool_const b) = bool_const (not b)
compute_unary _ _ = no_const

abbrev pub convert : Kind → Const → Const
convert Types.int (int_const a false) = int_const a false
convert Types.float (int_const a false) = float_const (pos_part a)
convert Types.bool (int_const a false) = bool_const (not (is_zero a))
convert Types.int (float_const f) = int_const (pos (f % 2 ^ 63)) false
convert Types.float (float_const f) = float_const f
convert Types.bool (float_const f) = bool_const (not (f == zero_double))
convert Types.int (bool_const true) = int_const (pos 1) false
convert Types.int (bool_const false) = int_const (pos 0) false
convert _ _ = no_const

abbrev pub test_const : Const → List Const → Tested (List Const) Const
test_const (int_const a is_u) s = decided (not (is_zero a)) s
test_const (bool_const b) s = decided b s
test_const c s = test_stopped c

-- The state is the list of the values that were evaluated, the last one first.
abbrev pub toy_target : Target
toy_target = record {
  Den = Const;
  State = List Const;
  Stop = Const;
  int_value = int_const;
  float_value = float_const;
  bool_value = bool_const;
  absent = no_const;
  leaf = λ e. no_const;
  member_of = λ w m o. o;
  index_of = λ w b o i. i;
  array_of = λ w es. no_const;
  call_of = λ w c es f. no_const;
  binary_of = λ w at op l r. compute op l r;
  unary_of = λ w op e. compute_unary op e;
  assign_of = λ w op t e. e;
  cast_of = λ w target e. convert (kind target) e;
  new_of = λ w n es. no_const;
  tag_of = λ w e. e;
  load_of = λ w e off. e;
  cell_of = λ w v e. e;
  task_of = λ w r caps. no_const;
  await_of = λ w e. e;
  test = test_const;
  run_expr = λ m s. normal (m ∷ s);
  run_decl = λ v m s. normal (m ∷ s);
  run_return = λ m s. returned (m ∷ s);
  run_panic = λ m s. stopped m;
  run_throw = λ m s. stopped m;
  fail_assert = λ line s. stopped (int_const (pos line) false);
  enter = λ s. s;
  leave = λ s. s;
  run_try = λ c a b. a;
  run_lock = λ m a. a;
  run_spawn = λ a caps. a;
  run_parallel = λ det caps rs fuel s. normal s;
  run_foreach = λ at m a. a;
}

Gives-of_folded : (r : Folded ℤ) → Gives toy_doubles toy_target (of_folded r) r
Gives-of_folded (value v) = refl
Gives-of_folded (truth b) = refl
Gives-of_folded invalid = tt

GivesDouble-of_double : (r : Folded ℕ) → GivesDouble toy_doubles toy_target (of_double r) r
GivesDouble-of_double (value v) = refl
GivesDouble-of_double (truth b) = refl
GivesDouble-of_double invalid = tt

truth_to_int_lem :
    (target : Ty) (b : Bool)
    → kind target ≡ Types.int
    → convert (kind target) (bool_const b) ≡ int_const (if b then pos 1 else pos 0) false
truth_to_int_lem target true h = rw h refl
truth_to_int_lem target false h = rw h refl

pub toy_target-IsFaithful : IsFaithful toy_doubles toy_target
toy_target-IsFaithful = record {
  test_truth = λ b s. refl;
  test_int = λ a is_u s. refl;
  signed_ints = λ w at op a b p q h. Gives-of_folded (signed_op op a b);
  doubles = λ w at op a b h. GivesDouble-of_double (double_op toy_doubles op a b);
  int_double = λ w at op a b. refl;
  double_int = λ w at op a b. refl;
  truths = λ w at op a b. Gives-of_folded (truth_op op a b);
  negated = λ w a h. refl;
  complemented = λ w a h. refl;
  int_not = λ w a. refl;
  double_negated = λ w f. refl;
  truth_not = λ w b. refl;
  int_to_int = λ w target a h k. rw h refl;
  int_to_double = λ w target a h k. rw h refl;
  int_to_truth = λ w target a h. rw h refl;
  double_to_int = λ w target f h k. rw h refl;
  double_to_double = λ w target f h k. rw h refl;
  double_to_truth = λ w target f h. rw h refl;
  truth_to_int = λ w target b h. truth_to_int_lem target b h;
  expr_ends = λ m s. tt;
  decl_ends = λ v m s. tt;
  return_ends = λ m s. tt;
  panic_ends = λ m s. tt;
  throw_ends = λ m s. tt;
  assert_ends = λ line s. tt;
}
