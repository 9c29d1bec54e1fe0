-- ===== src/Mir/Phis.antt =====
-- `dominanceFrontiers` and the insertion of phis in `SsaBuilder::run` of compiler/src/mir/mir.cpp. A
-- `std::set<int>` and a `std::map` are sorted lists.
use hphl.Base.{
  ℕ, zero, suc, Bool, true, false, ◌&&◌, ◌||◌, Option, none, some, List, [], ◌∷◌, length, ltb, ◌==◌,
  if◌then◌else◌,
}
use hphl.Json.{Bytes, same_bytes}
use hphl.Mir
use hphl.Mir.{codes, MirOp, MirInst, MirBlock, plain_inst}
use hphl.Mir.Cfg.{Cfg, row, empty_rows, push_at}
use hphl.Mir.Dominators.{Idoms, idom_at, is_same}

-- `std::find`, and what the insertion into a `std::set<int>` leaves.
abbrev pub contains : ℕ → List ℕ → Bool
contains x [] = false
contains x (y ∷ ys) = x == y || contains x ys

abbrev pub insert : ℕ → List ℕ → List ℕ
insert x [] = x ∷ []
insert x (y ∷ ys) =
    let rest = insert x ys in if x == y then y ∷ ys else if ltb x y then x ∷ y ∷ ys else y ∷ rest

-- `runner == 0 ? -1 : idom_[runner]`
abbrev pub one_up : Idoms → ℕ → Option ℕ
one_up t runner = if runner == 0 then none else idom_at t runner

-- `while (runner >= 0 && runner != idom_[b])`, on fuel; on its way up a tree the runner meets a block
-- only once, so that the number of blocks and one are enough.
unfoldable pub run_up : ℕ → Idoms → ℕ → ℕ → List (List ℕ) → List (List ℕ)
run_up zero t b runner df = df
run_up (suc k) t b runner df =
    let df' : List (List ℕ) = if contains b (row df runner) then df else push_at runner b df in
    if is_same (idom_at t b) runner
    then df
    else elim (one_up t runner) [ none ↦ df' | some u ↦ run_up k t b u df' ]

unfoldable pub run_ups : Idoms → ℕ → List ℕ → List (List ℕ) → List (List ℕ)
run_ups t b [] df = df
run_ups t b (p ∷ ps) df = run_ups t b ps (run_up (suc (length df)) t b p df)

abbrev pub many : List ℕ → Bool
many [] = false
many (p ∷ []) = false
many (p ∷ q ∷ ps) = true

-- `dominanceFrontiers`, from block `b` on.
unfoldable pub frontiers_from : Idoms → List (List ℕ) → ℕ → List (List ℕ) → List (List ℕ)
frontiers_from t [] b df = df
frontiers_from t (ps ∷ rows) b df =
    frontiers_from t rows (suc b) (if many ps then run_ups t b ps df else df)

unfoldable pub frontiers : Cfg → Idoms → List (List ℕ)
frontiers cfg t = frontiers_from t cfg.preds 0 (empty_rows (length cfg.preds))

-- `isVar`
abbrev pub is_var : Bytes → Bool
is_var (c ∷ d ∷ s) = c == 37
is_var s = false

-- `std::string::operator<`
abbrev pub before : Bytes → Bytes → Bool
before s [] = false
before [] (d ∷ t) = true
before (c ∷ s) (d ∷ t) = let rest = before s t in if ltb c d then true else c == d && rest

-- The blocks that define each variable.
abbrev pub DefBlocks : Type 0
DefBlocks = List (Bytes × List ℕ)

-- `defBlocks[x].insert(b)`
unfoldable pub add_def : Bytes → ℕ → DefBlocks → DefBlocks
add_def x b [] = (x, b ∷ []) ∷ []
add_def x b ((y, bs) ∷ ds) =
    let rest = add_def x b ds in
    if same_bytes x y
    then (y, insert b bs) ∷ ds
    else if before x y
    then (x, b ∷ []) ∷ (y, bs) ∷ ds
    else (y, bs) ∷ rest

-- The variable that an instruction defines.
abbrev pub defined_by : MirInst → Option Bytes
defined_by i = elim i.op [
  | Mir.store ↦ some i.a
  | Mir.imm ↦ if is_var i.dst then some i.dst else none
  | Mir.f_imm ↦ if is_var i.dst then some i.dst else none
  | Mir.s_imm ↦ if is_var i.dst then some i.dst else none
  | Mir.local ↦ if is_var i.dst then some i.dst else none
  | Mir.bin ↦ if is_var i.dst then some i.dst else none
  | Mir.cmp ↦ if is_var i.dst then some i.dst else none
  | Mir.unary ↦ if is_var i.dst then some i.dst else none
  | Mir.call ↦ if is_var i.dst then some i.dst else none
  | _ ↦ none
]

unfoldable pub defs_of : ℕ → List MirInst → DefBlocks → DefBlocks
defs_of b [] ds = ds
defs_of b (i ∷ is) ds = defs_of b is (elim (defined_by i) [ none ↦ ds | some x ↦ add_def x b ds ])

unfoldable pub def_blocks : ℕ → List MirBlock → DefBlocks → DefBlocks
def_blocks b [] ds = ds
def_blocks b (blk ∷ bs) ds = def_blocks (suc b) bs (defs_of b blk.insts ds)

-- The phi of a variable; `b` keeps its name.
abbrev pub phi_of : Bytes → MirInst
phi_of x = record (plain_inst Mir.phi) { dst = x; b = x; text = 207 ∷ 134 ∷ [] }

-- An instruction at the start of a block.
unfoldable pub prepend : ℕ → MirInst → List MirBlock → List MirBlock
prepend b i [] = []
prepend zero i (blk ∷ bs) = record blk { insts = i ∷ blk.insts } ∷ bs
prepend (suc b) i (blk ∷ bs) = blk ∷ prepend b i bs

-- `work`, `hasPhi`, `defBlocks[var]` and the blocks.
pub record Placing : Type 0 where
  pub work : List ℕ
  pub has_phi : List ℕ
  pub defs : List ℕ
  pub blocks : List MirBlock

-- One block of a frontier.
unfoldable pub place_at : Bytes → ℕ → Placing → Placing
place_at x d st = if contains d st.has_phi then st else (record {
  work = if contains d st.defs then st.work else insert d st.work;
  has_phi = insert d st.has_phi;
  defs = insert d st.defs;
  blocks = prepend d (phi_of x) st.blocks;
})

unfoldable pub place_all : Bytes → List ℕ → Placing → Placing
place_all x [] st = st
place_all x (d ∷ ds) st = place_all x ds (place_at x d st)

abbrev pub pop_work : Placing → Option (ℕ × Placing)
pop_work st = elim st.work [ [] ↦ none | b ∷ bs ↦ some (b, record st { work = bs }) ]

-- `while (!work.empty())`, on fuel; a block enters `work` at most once.
unfoldable pub place : ℕ → List (List ℕ) → Bytes → Placing → Placing
place zero df x st = st
place (suc k) df x st = elim (pop_work st) [
  | none ↦ st
  | some (b, st') ↦ place k df x (place_all x (row df b) st')
]

-- The loop over `defBlocks`.
unfoldable pub insert_phis : List (List ℕ) → DefBlocks → List MirBlock → List MirBlock
insert_phis df [] bs = bs
insert_phis df ((x, ds) ∷ rest) bs = insert_phis df rest (
    if many ds
    then (place (suc (length bs)) df x
        (record { work = ds; has_phi = []; defs = ds; blocks = bs })).blocks
    else bs)
