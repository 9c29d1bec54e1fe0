-- ===== src/Mir/SsaTests.antt =====
-- SSA form of small functions.
use hphl.Base.{String, true, false, List, [], ◌∷◌, some, ◌≡◌, refl}
use hphl.Json.{same_bytes}
use hphl.Json.Text.{digits_of}
use hphl.Types.Makers.{make_ptr}
use hphl.Hir
use hphl.Mir.{codes, MirInst, MirBlock, MirFunction}
use hphl.Mir.Lower.{br_to, cond_br_to, store_to}
use hphl.Mir.Stmts.{ret_with}
use hphl.Mir.Cfg.{build_cfg, add_blocks, add_edges, add_edge, push_at, empty_rows, index_of, row}
use hphl.Mir.Dominators.{
  dominators, rounds, pass, settle, set_at, take_preds, take_pred, meet, climb, idom_at, no_idoms,
}
use hphl.Mir.Phis.{
  frontiers, frontiers_from, run_ups, run_up, def_blocks, defs_of, add_def, insert_phis, place,
  place_all, place_at, prepend,
}
use hphl.Mir.Ssa.{
  no_names, versions_of, count_of, top, tops, fresh_at, rename_inst, rename_phi, rename_rest,
  rename_insts, fill_phis, fill_succs, insts_at, put_insts, pop_versions, kids_from, go, go_all,
  ssa_blocks,
}
use hphl.Mir.Print.{mir_to_string, print_blocks, print_insts, comma_list}
use hphl.Mir.Balance.{go-stack}

abbrev block_with : String → List MirInst → MirBlock
block_with l is = record { label = codes l; insts = is }

-- `if (c) x = 1; return x;`
abbrev branch_blocks : List MirBlock
branch_blocks =
    block_with "b0" (cond_br_to (codes "%c") (codes "t") (codes "e") ∷ [])
    ∷ block_with "t" (store_to (codes "x") (codes "1") ∷ br_to (codes "e") ∷ [])
    ∷ block_with "e" (ret_with (codes "%x") ∷ [])
    ∷ []

abbrev branch_function : MirFunction
branch_function = record {
  name = "pick";
  return_type = make_ptr;
  has_return_type = true;
  params = Hir.no_captures;
  is_method = false;
  owner_class = "";
  blocks = branch_blocks;
}

-- A variable with one store has no phi: a parameter `x` is read as the version that the store writes.
abbrev branch_ssa : List MirBlock
branch_ssa =
    block_with "b0" (cond_br_to (codes "%c") (codes "t") (codes "e") ∷ [])
    ∷ block_with "t" (store_to (codes "x.0") (codes "1") ∷ br_to (codes "e") ∷ [])
    ∷ block_with "e" (ret_with (codes "%x.0") ∷ [])
    ∷ []

branch_function-ssa : ssa_blocks 3 branch_blocks ≡ some branch_ssa
unfolding ssa_blocks build_cfg add_blocks add_edges add_edge push_at empty_rows index_of row
    same_bytes dominators rounds pass settle set_at take_preds take_pred meet climb idom_at no_idoms
    frontiers frontiers_from run_ups run_up def_blocks defs_of add_def insert_phis place place_all
    place_at prepend versions_of count_of top tops fresh_at rename_inst rename_phi rename_rest
    rename_insts fill_phis fill_succs insts_at put_insts pop_versions kids_from go go_all digits_of
branch_function-ssa = refl

go-stack_example :
    versions_of
      (codes "x")
      (go 3
        (build_cfg branch_blocks)
        (some 0 ∷ some 0 ∷ some 0 ∷ [])
        0
        (branch_blocks, no_names)).1.stack
    ≡ []
unfolding versions_of
go-stack_example =
    go-stack (codes "x") 3 (build_cfg branch_blocks) (some 0 ∷ some 0 ∷ some 0 ∷ []) 0
      (branch_blocks, no_names)

branch_function-text :
    mir_to_string (branch_function ∷ [])
    ≡ codes
        "func pick() {\n  b0:\n    br %c ? t : e\n  t:\n    x = 1\n    br e\n  e:\n    ret %x\n}\n"
unfolding mir_to_string print_blocks print_insts comma_list
branch_function-text = refl
