-- ===== src/Mir/Lower.antt =====
-- The builder of `MirLower` in compiler/src/mir/mir.cpp: its state and the calls that change it. The
-- block `cur` is the last one of the function.
use hphl.Base.{ℕ, suc, String, Bool, List, [], ◌∷◌, ◌++◌, if◌then◌else◌}
use hphl.Json.{Bytes}
use hphl.Json.Text.{decimal}
use hphl.Mir
use hphl.Mir.{codes, MirOp, MirInst, MirBlock, plain_inst, is_terminated}

pub record Lower : Type 0 where
  pub temp_counter : ℕ
  pub block_counter : ℕ
  -- the blocks before `cur`
  pub done : List MirBlock
  pub cur_label : Bytes
  pub cur_insts : List MirInst

-- What generates code and answers an operand.
abbrev pub Gen : Type 0
Gen = Lower → Bytes × Lower

-- `newTemp`
abbrev pub new_temp : Gen
new_temp st =
    (codes "%t" ++ decimal st.temp_counter, record st { temp_counter = suc st.temp_counter })

-- `newBlockLabel`
abbrev pub new_block_label : String → Gen
new_block_label base st =
    (codes base ++ decimal st.block_counter, record st { block_counter = suc st.block_counter })

unfoldable pub emit : MirInst → Lower → Lower
emit i st = record st { cur_insts = st.cur_insts ++ i ∷ [] }

abbrev pub cur_terminated : Lower → Bool
cur_terminated st = is_terminated st.cur_insts

abbrev pub br_to : Bytes → MirInst
br_to l = record (plain_inst Mir.br) { a = l }

abbrev pub cond_br_to : Bytes → Bytes → Bytes → MirInst
cond_br_to c l r = record (plain_inst Mir.cond_br) { dst = c; a = l; b = r }

-- `if (!curTerminated()) emit(br)`
unfoldable pub close_with : MirInst → Lower → Lower
unfolding emit
close_with i st = if cur_terminated st then st else emit i st

-- The push of a new block, behind the current one.
unfoldable pub push_block : Bytes → Lower → Lower
push_block l st = record st {
  done = st.done ++ record { label = st.cur_label; insts = st.cur_insts } ∷ [];
  cur_label = l;
  cur_insts = [];
}

-- `startBlock`
abbrev pub start_block : Bytes → Lower → Lower
start_block l st = push_block l (close_with (br_to l) st)

-- `emitOpaque`
abbrev pub emit_opaque : Bytes → Lower → Lower
emit_opaque what = emit (record (plain_inst Mir.opaque) { text = what })

-- An instruction that writes a new temporary, which is the operand.
abbrev pub emit_temp : MirInst → Gen
emit_temp i st = let (t, st') = new_temp st in (t, emit (record i { dst = t }) st')

-- A store, and a load, of a variable.
abbrev pub store_to : Bytes → Bytes → MirInst
store_to x v = record (plain_inst Mir.store) { a = x; dst = v }

abbrev pub load_of : Bytes → MirInst
load_of x = record (plain_inst Mir.local) { a = x }
