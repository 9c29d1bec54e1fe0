-- ===== src/Mir/Print.antt =====
-- `mirToString` of compiler/src/mir/mir.cpp: the text that `--dump-mir` shows.
use hphl.Base.{List, [], ◌∷◌, ◌++◌, if◌then◌else◌}
use hphl.Hir.{Captures, no_captures, capture}
use hphl.Json.{Bytes}
use hphl.Json.Text.{to_string}
use hphl.Mir
use hphl.Mir.{codes, no_bytes, MirOp, MirInst, MirBlock, MirFunction}

-- The elements with `, ` between two of them.
unfoldable pub comma_list : List Bytes → Bytes
comma_list [] = []
comma_list (a ∷ []) = a
comma_list (a ∷ b ∷ xs) = a ++ codes ", " ++ comma_list (b ∷ xs)

abbrev pub param_names : Captures → List Bytes
param_names no_captures = []
param_names (capture x t ps) = (codes "%" ++ codes x) ∷ param_names ps

-- An instruction, without its indentation and its newline.
abbrev pub print_inst : MirInst → Bytes
print_inst i = elim i.op [
  | Mir.imm ↦ i.dst ++ codes " = " ++ to_string i.imm_value
  | Mir.f_imm ↦ i.dst ++ codes " = f:" ++ i.text
  | Mir.s_imm ↦ i.dst ++ codes " = s:" ++ i.text
  | Mir.local ↦ i.dst ++ codes " = " ++ i.a
  | Mir.bin ↦ i.dst ++ codes " = " ++ i.a ++ codes " " ++ i.text ++ codes " " ++ i.b
  | Mir.cmp ↦ i.dst ++ codes " = " ++ i.a ++ codes " " ++ i.text ++ codes " " ++ i.b
  | Mir.unary ↦ i.dst ++ codes " = " ++ i.text ++ i.a
  | Mir.call ↦
      i.dst
      ++ (if no_bytes i.dst then [] else codes " = ")
      ++ codes "call "
      ++ i.text
      ++ codes "("
      ++ comma_list i.args
      ++ codes ")"
  | Mir.store ↦ i.a ++ codes " = " ++ i.dst
  | Mir.ret ↦ codes "ret" ++ (if no_bytes i.dst then [] else codes " " ++ i.dst)
  | Mir.br ↦ codes "br " ++ i.a
  | Mir.cond_br ↦ codes "br " ++ i.dst ++ codes " ? " ++ i.a ++ codes " : " ++ i.b
  | Mir.phi ↦ i.dst ++ codes " = " ++ 207 ∷ 134 ∷ codes "(" ++ comma_list i.args ++ codes ")"
  | Mir.opaque ↦ codes "opaque /* " ++ i.text ++ codes " */"
]

unfoldable pub print_insts : List MirInst → Bytes
print_insts [] = []
print_insts (i ∷ is) = codes "    " ++ print_inst i ++ 10 ∷ print_insts is

unfoldable pub print_blocks : List MirBlock → Bytes
print_blocks [] = []
print_blocks (b ∷ bs) =
    codes "  " ++ b.label ++ codes ":" ++ 10 ∷ print_insts b.insts ++ print_blocks bs

abbrev pub print_function : MirFunction → Bytes
print_function f =
    codes "func "
    ++ codes f.name
    ++ codes "("
    ++ comma_list (param_names f.params)
    ++ codes ")"
    ++ codes " {"
    ++ 10 ∷ print_blocks f.blocks
    ++ codes "}"
    ++ 10 ∷ []

-- `mirToString`
unfoldable pub mir_to_string : List MirFunction → Bytes
mir_to_string [] = []
mir_to_string (f ∷ fs) = print_function f ++ mir_to_string fs
