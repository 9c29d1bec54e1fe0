-- ===== src/Hir.antt =====
-- The HIR, the compiler's desugared tree: compiler/src/hir/hir.h (and the operators of
-- compiler/src/ast/ast.h). A `std::unique_ptr` to a node is the node or a null constructor; a
-- pointer into the AST (`FunctionDecl *`, `VarDecl *`) is an address or `none`. A `double` is its
-- 64-bit pattern. A statement's source line, which only the debugger reads, is left out.
use hphl.Base.{ℕ, String, Bool, Option, List}
use hphl.Base.Int.{ℤ}
use hphl.Types.{Ty, StoragePolicy}

pub data BinOp : Type 0 where
  add sub mul div mod_op eq ne lt gt le ge and or bit_and bit_or bit_xor shl shr : BinOp

pub data UnOp : Type 0 where
  neg not_op bit_not pre_inc pre_dec post_inc post_dec : UnOp

pub data AssignOp : Type 0 where
  plain add_assign sub_assign mul_assign div_assign mod_assign : AssignOp

pub data CallKind : Type 0 where
  normal print clock_ns list_add list_new map_put map_get map_contains map_remove map_clear map_len
        wait task_cancel actor_call channel_send channel_receive prim_op async module_call enum_ctor
        from_int serialize str_eq str_cmp to_str addr_of runtime arena_reset sqrt result_is_ok
        result_is_err result_unwrap result_unwrap_err result_unwrap_or option_is_some option_is_none
        option_unwrap option_unwrap_or indirect :
      CallKind

-- The address of a declaration in the AST.
abbrev pub DeclRef : Type 0
DeclRef = Option ℕ

pub record VarAttrs : Type 0 where
  pub name : String
  pub is_global : Bool
  pub label : String
  pub is_const : Bool
  pub const_value : ℤ
  pub is_property : Bool
  pub prop_get : DeclRef
  pub prop_set : DeclRef
  pub is_this_field : Bool
  pub this_field_offset : ℤ
  pub atomic : Bool

pub record MemberAttrs : Type 0 where
  pub member : String
  pub field_offset : ℤ
  pub is_enum_const : Bool
  pub enum_value : ℤ
  pub is_array_length : Bool
  pub array_length : ℤ
  pub is_list_length : Bool
  pub is_map_length : Bool
  pub is_global_ref : Bool
  pub resolved_global : DeclRef
  pub is_module_type_ref : Bool
  pub is_enum_ctor : Bool
  pub enum_ctor_enum : String
  pub enum_ctor_index : ℤ
  pub is_property : Bool
  pub prop_type : Ty
  pub prop_get : DeclRef
  pub prop_set : DeclRef
  pub field_atomic : Bool
  pub is_wait : Bool
  pub is_task_cancelled : Bool
  pub is_result_is_ok : Bool
  pub is_result_is_error : Bool
  pub is_result_value : Bool
  pub is_result_error : Bool
  pub is_option_has_value : Bool
  pub is_option_is_none : Bool
  pub is_option_value : Bool

pub record CallAttrs : Type 0 where
  pub call_kind : CallKind
  pub resolved : DeclRef
  pub runtime_name : String
  pub is_base_call : Bool
  pub enum_canon : String
  pub folded : Bool
  pub fold_value : ℤ
  pub entry_name : String
  pub index : ℤ
  pub prim_op_code : ℤ
  pub is_result_is_ok : Bool
  pub is_result_is_err : Bool
  pub is_result_unwrap : Bool
  pub is_result_unwrap_err : Bool
  pub is_result_unwrap_or : Bool
  pub is_option_is_some : Bool
  pub is_option_is_none : Bool
  pub is_option_unwrap : Bool
  pub is_option_unwrap_or : Bool

pub record BinaryAttrs : Type 0 where
  pub derived_eq : DeclRef
  pub derived_cmp : DeclRef
  pub str_eq_bin : Bool

pub record NewAttrs : Type 0 where
  pub class_name : String
  pub ctor : DeclRef
  pub is_channel : Bool
  pub is_list : Bool
  pub is_array_new : Bool
  pub array_length : ℤ
  pub channel_capacity : ℤ
  pub has_named_args : Bool

pub data Captures : Type 0 where
  no_captures : Captures
  capture : String → Ty → Captures → Captures

pub record VarDeclAttrs : Type 0 where
  pub name : String
  pub decl_type : Ty
  pub storage : StoragePolicy
  pub atomic : Bool
  pub primitive_init : ℤ
  pub opaque_slot : Bool

pub record CatchAttrs : Type 0 where
  pub has_catch : Bool
  pub catch_type : Ty
  pub catch_var : String

pub record ForeachAttrs : Type 0 where
  pub item_name : String
  pub item_type : Ty
  pub batch_size : ℤ

pub record LambdaAttrs : Type 0 where
  pub params : Captures
  pub ret_type : Ty
  pub captures : Captures
  pub self_name : String

-- The type of an expression (`HirExpr::type`) is the first argument of its constructor.
mutual
  pub data HirExpr : Type 0 where
    null_expr : HirExpr
    int_lit : Ty → ℤ → Bool → HirExpr
    float_lit : Ty → ℕ → HirExpr
    string_lit : Ty → String → HirExpr
    char_lit : Ty → ℤ → HirExpr
    bool_lit : Ty → Bool → HirExpr
    null_lit : Ty → HirExpr
    var : Ty → VarAttrs → HirExpr
    member : Ty → MemberAttrs → HirExpr → HirExpr
    index : Ty → Bool → HirExpr → HirExpr → HirExpr
    array_lit : Ty → HirExprs → HirExpr
    tuple_lit : Ty → HirExprs → HirExpr
    -- the arguments, and `funcValue`
    call : Ty → CallAttrs → HirExprs → HirExpr → HirExpr
    binary : Ty → BinaryAttrs → BinOp → HirExpr → HirExpr → HirExpr
    unary : Ty → UnOp → HirExpr → HirExpr
    -- the target, then the value
    assign : Ty → AssignOp → HirExpr → HirExpr → HirExpr
    -- the type of the expression, then the target of the cast
    cast : Ty → Ty → HirExpr → HirExpr
    new : Ty → NewAttrs → HirExprs → HirExpr
    this : Ty → HirExpr
    cell_tag : Ty → HirExpr → HirExpr
    load_at : Ty → HirExpr → ℤ → HirExpr
    opt_ctor : Ty → String → HirExpr → HirExpr
    spawn_expr : Ty → HirBlock → Captures → HirExpr
    await : Ty → HirExpr → HirExpr
    lambda : Ty → LambdaAttrs → HirBlock → HirExpr

  pub data HirExprs : Type 0 where
    nil_exprs : HirExprs
    cons_exprs : HirExpr → HirExprs → HirExprs

  -- `scope` and the statements; `null_block` is a null pointer.
  pub data HirBlock : Type 0 where
    null_block : HirBlock
    body : Bool → HirStmts → HirBlock

  pub data HirStmt : Type 0 where
    null_stmt : HirStmt
    block : HirBlock → HirStmt
    var_decl : VarDeclAttrs → HirExpr → HirStmt
    expr_stmt : HirExpr → HirStmt
    return : HirExpr → HirStmt
    if_stmt : HirExpr → HirBlock → HirStmt → HirStmt
    while_stmt : HirExpr → HirBlock → HirStmt
    do_while : HirExpr → HirBlock → HirStmt
    -- init, cond, step, body
    for_stmt : HirStmt → HirExpr → HirExpr → HirBlock → HirStmt
    break : HirStmt
    continue : HirStmt
    panic : HirExpr → HirStmt
    assert : HirExpr → ℕ → HirStmt
    throw : HirExpr → HirStmt
    try_stmt : CatchAttrs → HirBlock → HirBlock → HirStmt
    lock : HirExpr → HirBlock → HirStmt
    spawn : HirBlock → Captures → HirStmt
    parallel : Bool → List Captures → HirBlocks → HirStmt
    parallel_foreach : ForeachAttrs → HirExpr → HirBlock → HirStmt

  pub data HirStmts : Type 0 where
    nil_stmts : HirStmts
    cons_stmts : HirStmt → HirStmts → HirStmts

  pub data HirBlocks : Type 0 where
    nil_blocks : HirBlocks
    cons_blocks : HirBlock → HirBlocks → HirBlocks

pub record HirFunction : Type 0 where
  pub name : String
  pub is_method : Bool
  pub owner_class : String
  pub return_type : Ty
  pub has_return_type : Bool
  pub params : Captures
  pub module_name : String
  pub file_path : String
  pub body_block : HirBlock

-- A `unique_ptr<HirBlock>` as a `unique_ptr<HirStmt>`: null stays null.
abbrev pub stmt_of_block : HirBlock → HirStmt
stmt_of_block null_block = null_stmt
stmt_of_block b = block b
