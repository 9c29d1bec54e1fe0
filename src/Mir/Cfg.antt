-- ===== src/Mir/Cfg.antt =====
-- `SsaBuilder::buildCFG` of compiler/src/mir/mir.cpp: the successors and the predecessors of each block,
-- by the numbers of the blocks.
use hphl.Base.{
  ℕ, zero, suc, ◌+◌, Option, none, some, List, [], ◌∷◌, ◌++◌, length, ◌==◌, if◌then◌else◌,
}
use hphl.Json.{Bytes, same_bytes}
use hphl.Mir.{MirInst, MirBlock, targets_of}

-- `preds_` and `succs_`
pub record Cfg : Type 0 where
  pub preds : List (List ℕ)
  pub succs : List (List ℕ)

-- `idx.find(l)`, where a later block with a label replaces an earlier one; the first number is `i`.
abbrev pub latest : Option ℕ → Option ℕ → Option ℕ
latest (some j) o = some j
latest none o = o

unfoldable pub index_of : ℕ → List MirBlock → Bytes → Option ℕ
index_of i [] l = none
index_of i (b ∷ bs) l =
    latest (index_of (suc i) bs l) (if same_bytes l b.label then some i else none)

-- `n` empty lists, and `v[k].push_back(x)`.
unfoldable pub empty_rows : ℕ → List (List ℕ)
empty_rows zero = []
empty_rows (suc n) = [] ∷ empty_rows n

unfoldable pub push_at : ℕ → ℕ → List (List ℕ) → List (List ℕ)
push_at k x [] = []
push_at zero x (r ∷ rs) = (r ++ x ∷ []) ∷ rs
push_at (suc k) x (r ∷ rs) = r ∷ push_at k x rs

-- `insts.back()`
abbrev pub last_inst : List MirInst → Option MirInst
last_inst [] = none
last_inst (i ∷ []) = some i
last_inst (i ∷ j ∷ is) = last_inst (j ∷ is)

-- The lambda `add`, in block `i`.
unfoldable pub add_edge : (Bytes → Option ℕ) → ℕ → Bytes → Cfg → Cfg
add_edge find i l cfg = elim (find l) [
  | none ↦ cfg
  | some j ↦ record { preds = push_at j i cfg.preds; succs = push_at i j cfg.succs }
]

-- The edges of an instruction at the end of block `i`.
unfoldable pub add_edges : (Bytes → Option ℕ) → ℕ → List Bytes → Cfg → Cfg
add_edges find i [] cfg = cfg
add_edges find i (l ∷ ls) cfg = add_edges find i ls (add_edge find i l cfg)

-- The labels that the end of a block goes to: that of a `Br`, or both of a `CondBr`.
abbrev pub jumps_of : List MirInst → List Bytes
jumps_of is = elim (last_inst is) [ none ↦ [] | some i ↦ targets_of i ]

unfoldable pub add_blocks : (Bytes → Option ℕ) → ℕ → List MirBlock → Cfg → Cfg
add_blocks find i [] cfg = cfg
add_blocks find i (b ∷ bs) cfg =
    add_blocks find (suc i) bs (add_edges find i (jumps_of b.insts) cfg)

-- `buildCFG`
unfoldable pub build_cfg : List MirBlock → Cfg
build_cfg bs =
    add_blocks (index_of 0 bs) 0 bs
      (record { preds = empty_rows (length bs); succs = empty_rows (length bs) })

-- The row of a number, and how often a number stands in a list.
unfoldable pub row : List (List ℕ) → ℕ → List ℕ
row [] i = []
row (r ∷ rs) zero = r
row (r ∷ rs) (suc i) = row rs i

unfoldable pub tally : ℕ → List ℕ → ℕ
tally x [] = 0
tally x (y ∷ ys) = (if x == y then 1 else 0) + tally x ys
