-- ===== src/Mir/Ssa.antt =====
-- The renaming in `SsaBuilder::run` of compiler/src/mir/mir.cpp, and `mirToSSA`. A `std::map` is an
-- association list, and the back of a stack is the first of its list. The loop that fills `order`,
-- which nothing reads, is left out.
use hphl.Base.{
  ℕ, zero, suc, Bool, true, false, Option, none, some, List, [], ◌∷◌, ◌++◌, length, leb, ◌==◌,
  if◌then◌else◌,
}
use hphl.Json.{Bytes, same_bytes}
use hphl.Json.Text.{decimal}
use hphl.Mir
use hphl.Mir.{codes, no_bytes, tail_of, MirOp, MirInst, MirBlock, MirFunction}
use hphl.Mir.Cfg.{Cfg, build_cfg, row}
use hphl.Mir.Dominators.{Idoms, is_same, dominators}
use hphl.Mir.Phis.{is_var, frontiers, def_blocks, insert_phis}

-- `counter`, `stack`, and `mine` of the block at hand, with the last name first.
pub record Renaming : Type 0 where
  pub counter : List (Bytes × ℕ)
  pub stack : List (Bytes × List Bytes)
  pub mine : List Bytes

unfoldable pub count_of : Bytes → List (Bytes × ℕ) → ℕ
count_of x [] = 0
count_of x ((y, n) ∷ m) = if same_bytes x y then n else count_of x m

abbrev pub count_up : Bytes → List (Bytes × ℕ) → List (Bytes × ℕ)
count_up x m = (x, suc (count_of x m)) ∷ m

unfoldable pub versions_of : Bytes → List (Bytes × List Bytes) → List Bytes
versions_of x [] = []
versions_of x ((y, vs) ∷ m) = if same_bytes x y then vs else versions_of x m

abbrev pub tail_versions : List Bytes → List Bytes
tail_versions [] = []
tail_versions (v ∷ vs) = vs

-- The lambda `top`.
abbrev pub version_or_zero : Bytes → List Bytes → Bytes
version_or_zero name [] = codes "%" ++ name ++ codes ".0"
version_or_zero name (v ∷ vs) = codes "%" ++ v

unfoldable pub top : Renaming → Bytes → Bytes
top st operand =
    if is_var operand
    then version_or_zero (tail_of operand) (versions_of (tail_of operand) st.stack)
    else operand

-- The lambda `freshAt`.
unfoldable pub fresh_at : Bytes → Renaming → Bytes × Renaming
fresh_at v st =
    let name = tail_of v in
    let vered = name ++ codes "." ++ decimal (count_of name st.counter) in
    (
      codes "%" ++ vered,
      record {
        counter = count_up name st.counter;
        stack = (name, vered ∷ versions_of name st.stack) ∷ st.stack;
        mine = name ∷ st.mine;
      },
    )

unfoldable pub tops : Renaming → List Bytes → List Bytes
tops st [] = []
tops st (a ∷ as') = top st a ∷ tops st as'

-- An instruction with a new version of what it writes.
abbrev pub redefine : MirInst → Renaming → MirInst × Renaming
redefine i st = let (d, st') = fresh_at i.dst st in (record i { dst = d }, st')

-- The `switch` on an instruction behind the phis.
unfoldable pub rename_inst : MirInst → Renaming → MirInst × Renaming
rename_inst i st = elim i.op [
  | Mir.store ↦
      let value = top st i.dst in
      let (x, st') = fresh_at (codes "%" ++ i.a) st in
      (record i { dst = value; a = tail_of x }, st')
  | Mir.local ↦ redefine (record i { a = top st i.a }) st
  | Mir.bin ↦ redefine (record i { a = top st i.a; b = top st i.b }) st
  | Mir.cmp ↦ redefine (record i { a = top st i.a; b = top st i.b }) st
  | Mir.unary ↦ redefine (record i { a = top st i.a }) st
  | Mir.call ↦
      let i' : MirInst = record i { args = tops st i.args } in
      if is_var i.dst then redefine i' st else (i', st)
  | Mir.ret ↦ (if no_bytes i.dst then i else record i { dst = top st i.dst }, st)
  | _ ↦ (i, st)
]

abbrev pub is_phi : MirInst → Bool
is_phi i = elim i.op [ Mir.phi ↦ true | _ ↦ false ]

unfoldable pub rename_rest : List MirInst → Renaming → List MirInst × Renaming
rename_rest [] st = ([], st)
rename_rest (i ∷ is) st =
    let (i', st1) = rename_inst i st in let (is', st2) = rename_rest is st1 in (i' ∷ is', st2)

-- A phi at the start of a block.
unfoldable pub rename_phi : MirInst → Renaming → MirInst × Renaming
rename_phi i st = let (d, st') = fresh_at (codes "%" ++ i.b) st in (record i { dst = d }, st')

unfoldable pub rename_insts : List MirInst → Renaming → List MirInst × Renaming
rename_insts [] st = ([], st)
rename_insts (i ∷ is) st =
    let (i', st1) = rename_phi i st in
    let (is', st2) = rename_insts is st1 in
    if is_phi i then (i' ∷ is', st2) else rename_rest (i ∷ is) st

-- The operands that a block gives to the phis of a successor.
unfoldable pub fill_phis : Renaming → List MirInst → List MirInst
fill_phis st [] = []
fill_phis st (i ∷ is) =
    let rest = fill_phis st is in
    if is_phi i then record i { args = i.args ++ top st (codes "%" ++ i.b) ∷ [] } ∷ rest else i ∷ is

-- `mf.blocks[u].insts`, and a change of it.
unfoldable pub insts_at : ℕ → List MirBlock → List MirInst
insts_at u [] = []
insts_at zero (b ∷ bs) = b.insts
insts_at (suc u) (b ∷ bs) = insts_at u bs

unfoldable pub put_insts : ℕ → List MirInst → List MirBlock → List MirBlock
put_insts u is [] = []
put_insts zero is (b ∷ bs) = record b { insts = is } ∷ bs
put_insts (suc u) is (b ∷ bs) = b ∷ put_insts u is bs

unfoldable pub fill_succs : Renaming → List ℕ → List MirBlock → List MirBlock
fill_succs st [] bs = bs
fill_succs st (s ∷ ss) bs = fill_succs st ss (put_insts s (fill_phis st (insts_at s bs)) bs)

-- The versions of a block's names leave the stacks.
unfoldable pub pop_versions : List Bytes → Renaming → Renaming
pop_versions [] st = st
pop_versions (x ∷ xs) st =
    pop_versions xs (record st { stack = (x, tail_versions (versions_of x st.stack)) ∷ st.stack })

-- `kids_[u]`: the blocks from `b` on whose dominator is `u`.
unfoldable pub kids_from : ℕ → ℕ → Idoms → List ℕ
kids_from u b [] = []
kids_from u b (o ∷ t) =
    let rest = kids_from u (suc b) t in
    if is_same o u then (if u == b then rest else b ∷ rest) else rest

abbrev pub tail_idoms : Idoms → Idoms
tail_idoms [] = []
tail_idoms (o ∷ t) = t

abbrev pub kids_of : Idoms → ℕ → List ℕ
kids_of t u = kids_from u 1 (tail_idoms t)

-- `for (int c : kids_[u]) go(c);`
unfoldable pub go_all :
    (ℕ → List MirBlock × Renaming → List MirBlock × Renaming)
    → List ℕ
    → List MirBlock × Renaming
    → List MirBlock × Renaming
go_all f [] st = st
go_all f (c ∷ cs) st = go_all f cs (f c st)

-- `go`, on fuel: no way down the tree is longer than the number of blocks.
unfoldable pub go : ℕ → Cfg → Idoms → ℕ → List MirBlock × Renaming → List MirBlock × Renaming
go zero cfg t u st = st
go (suc k) cfg t u (bs, names) =
    let (is, names1) = rename_insts (insts_at u bs) (record names { mine = [] }) in
    let bs1 = fill_succs names1 (row cfg.succs u) (put_insts u is bs) in
    let (bs2, names2) = go_all (go k cfg t) (kids_of t u) (bs1, names1) in
    (bs2, pop_versions names1.mine names2)

abbrev pub no_names : Renaming
no_names = record { counter = []; stack = []; mine = [] }

-- The blocks of a function that has more than one; `none` when `dominators` needs more fuel.
unfoldable pub ssa_blocks : ℕ → List MirBlock → Option (List MirBlock)
ssa_blocks fuel bs = elim (dominators fuel (build_cfg bs)) [
  | none ↦ none
  | some t ↦
      let bs1 = insert_phis (frontiers (build_cfg bs) t) (def_blocks 0 bs []) bs in
      elim (dominators fuel (build_cfg bs1)) [
        | none ↦ none
        | some t1 ↦ some (go (length bs1) (build_cfg bs1) t1 0 (bs1, no_names)).0
      ]
]

-- One function of `run`, and `mirToSSA`.
unfoldable pub ssa_function : ℕ → MirFunction → Option MirFunction
ssa_function fuel f =
    if leb (length f.blocks) 1
    then some f
    else elim (ssa_blocks fuel f.blocks) [ none ↦ none | some bs ↦ some (record f { blocks = bs }) ]

unfoldable pub mir_to_ssa : ℕ → List MirFunction → Option (List MirFunction)
mir_to_ssa fuel [] = some []
mir_to_ssa fuel (f ∷ fs) = elim (ssa_function fuel f) [
  | none ↦ none
  | some g ↦ elim (mir_to_ssa fuel fs) [ none ↦ none | some gs ↦ some (g ∷ gs) ]
]
