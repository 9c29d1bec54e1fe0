-- ===== src/Mir.antt =====
-- The MIR, basic blocks of three-address code: compiler/src/mir/mir.h. A string is the list of its
-- characters' codes, which are its bytes where it is ASCII.
pub mod Lower
pub mod Exprs
pub mod Stmts
mod Labels
mod Moves
mod ExprMoves
mod StmtMoves
mod Functions
mod Closed
pub mod Cfg
mod Mirror
mod Edges
mod Reach
pub mod Dominators
mod Nearest
mod Nearby
mod Settles
mod FirstPass
mod SecondPass
mod Candidates
mod Passes
mod Walks
mod Reduced
pub mod Phis
pub mod Ssa
mod Shape
mod Unchanged
mod Balance
mod SsaTests
pub mod Print
mod Builds
mod ExprBuilds
mod Temps
mod Tests
use Prim.Native.Char.{code}
use Prim.Native.String.{◌∷◌ as ◌∷ₛ◌, [] as []ₛ}
use hphl.Base.{ℕ, ◌+◌, String, Bool, true, false, ◌||◌, List, [], ◌∷◌, ◌++◌, if◌then◌else◌}
use hphl.Base.Int.{ℤ, pos}
use hphl.Types.{Ty}
use hphl.Hir.{Captures}
use hphl.Json.{Bytes, same_bytes}

abbrev pub codes : String → Bytes
codes []ₛ = []
codes (c ∷ₛ s) = code c ∷ codes s

-- `s.empty()` and `s.substr(1)`
abbrev pub no_bytes : Bytes → Bool
no_bytes [] = true
no_bytes (c ∷ s) = false

abbrev pub tail_of : Bytes → Bytes
tail_of [] = []
tail_of (c ∷ s) = s

pub data MirOp : Type 0 where
  imm f_imm s_imm local bin cmp unary call store ret br cond_br phi opaque : MirOp

pub record MirInst : Type 0 where
  pub op : MirOp
  pub dst : Bytes
  pub a : Bytes
  pub b : Bytes
  pub text : Bytes
  pub imm_value : ℤ
  pub args : List Bytes

pub record MirBlock : Type 0 where
  pub label : Bytes
  pub insts : List MirInst

pub record MirFunction : Type 0 where
  pub name : String
  pub return_type : Ty
  pub has_return_type : Bool
  pub params : Captures
  pub is_method : Bool
  pub owner_class : String
  pub blocks : List MirBlock

-- `MirInst i; i.op = …;`: the other fields are empty.
abbrev pub plain_inst : MirOp → MirInst
plain_inst o = record { op = o; dst = []; a = []; b = []; text = []; imm_value = pos 0; args = [] }

-- Does the instruction end its block?
abbrev pub is_terminator : MirInst → Bool
is_terminator i = elim i.op [ ret ↦ true | br ↦ true | cond_br ↦ true | _ ↦ false ]

-- Is the last instruction one that ends the block?
unfoldable pub is_terminated : List MirInst → Bool
is_terminated [] = false
is_terminated (i ∷ []) = is_terminator i
is_terminated (i ∷ j ∷ is) = is_terminated (j ∷ is)

-- The labels that an instruction may go to.
abbrev pub targets_of : MirInst → List Bytes
targets_of i = elim i.op [ br ↦ i.a ∷ [] | cond_br ↦ i.a ∷ i.b ∷ [] | _ ↦ [] ]

unfoldable pub inst_targets : List MirInst → List Bytes
inst_targets [] = []
inst_targets (i ∷ is) = targets_of i ++ inst_targets is

unfoldable pub block_targets : List MirBlock → List Bytes
unfolding inst_targets
block_targets [] = []
block_targets (b ∷ bs) = inst_targets b.insts ++ block_targets bs

unfoldable pub block_labels : List MirBlock → List Bytes
block_labels [] = []
block_labels (b ∷ bs) = b.label ∷ block_labels bs

unfoldable pub all_terminated : List MirBlock → Bool
all_terminated [] = true
all_terminated (b ∷ bs) = if is_terminated b.insts then all_terminated bs else false

-- How often a string stands in a list, and whether it does.
unfoldable pub occurs : Bytes → List Bytes → ℕ
occurs t [] = 0
occurs t (x ∷ xs) = (if same_bytes t x then 1 else 0) + occurs t xs

unfoldable pub listed : Bytes → List Bytes → Bool
listed t [] = false
listed t (x ∷ xs) = same_bytes t x || listed t xs
