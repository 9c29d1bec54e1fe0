-- ===== src/Lib.antt =====
-- HPHL is a compiled language; its compiler, hphlc, is written in C++ (compiler/src). Source text
-- goes through a lexer and a parser (frontend), semantic analysis (semantic), a desugared tree, the
-- HIR (hir/hir.h, hir/hir.cpp), an optimiser of that tree (hir/hirOpt.cpp), an SSA form (mir), and one
-- of two backends (irgen for LLVM, codegen for x64). Beside it stand a package loader, a language
-- server and a debug adapter, which share a small JSON library (json).
--
-- What models what:
--   Base: shared names and tests; Base/Int the integers, C++'s quotient and remainder, and the
--     64-bit words that a `long long` wraps to.
--   Types: `Type` of compiler/src/types/types.h, as `Ty`; `operator==` is `same_ty`, `typeSize` is
--     `type_size`, `makeInt` is `make_int` and so on. Types/Makers has the makers with a condition.
--   Hir: the nodes of compiler/src/hir/hir.h, a constructor for each `struct`, with the operators of
--     compiler/src/ast/ast.h. The plain fields of a large node are a record (`HirVar`'s are
--     `VarAttrs`).
--   HirOpt/Fold: `pureExpr`, `tryFoldBinary` (by operands: `fold_ints`, `fold_floats`, `fold_bools`),
--     `tryFoldUnary` and `tryFoldCast` of compiler/src/hir/hirOpt.cpp.
--   HirOpt/Simplify: `foldExpr`, `simplifyStmt`, `simplifyList` and the loop of `hirOptimize`, which
--     pass the reference `changed` as a value that goes in and comes out.
--   HirOpt/Dce: `collectNamesExpr`, `collectNames`, `dceLocal`, `dceBlock`, `dceStmt`, `hirOptimize`.
--   HirOpt/Doubles: C++'s `double`, a parameter. The optimiser computes on the host, and the target
--     computes with the same operations.
--   HirOpt/Target, HirOpt/Exact, HirOpt/Fragment: what HIR means, by a target that gives every
--     construct that the optimiser does not compute with; the targets that compute constants as the
--     language does; and the code whose constants the optimiser computes so too.
--   HirOpt/Operands, Stable, Constants, Jumps, Steps, Sound, ExactFolds, Preserve, Rounds, Escape:
--     the folding and the branch elimination against that meaning. HirOpt/Arith and
--     HirOpt/Unsigned: the integer arithmetic. HirOpt/Names, Collect, Kept: the removal of unused
--     locals.
--   Json: `JsonValue` of compiler/src/json/json.h and json.cpp with its accessors; a string is its
--     bytes. Json/Text: `jsonEscape` and `serialize`. Json/Scan, Number, Parser: `JsonParser`, with an
--     exception as a result, and `parseJson`. How a `double` is written and read is a parameter.
--     Json/Members, Escapes, Digits, Steps, Fresh, RoundTrip, Inverse,
--     Total, Ends: the theorems.
--   SemVer: `SemVer`, `parseSemVer` and `compareSemVer` of compiler/src/loader/pkgfetch.cpp, and in
--     SemVer/Resolve `matchesRange` and `resolveVersion`. An exception of `std::stoll` on a long
--     numeric identifier is a result. SemVer/Order, Ranges, Chosen: the theorems.
--   Mir: `MirOp`, `MirInst`, `MirBlock` and `MirFunction` of compiler/src/mir/mir.h. Mir/Lower: the
--     builder `MirLower` of mir.cpp as a state that is passed on (`newTemp` is `new_temp`, `startBlock`
--     is `start_block`). Mir/Exprs: `lowerExpr` and `lowerShortCircuit`; Mir/Stmts: `lowerStmt` and
--     `loweringToMir`. A case of a long switch is a definition that takes what lowers its parts
--     (`lower_if`, `lower_call`); the pointer `loops` is an argument. Mir/Cfg: `buildCFG`. What
--     `std::to_string` writes for a `double`, and the names of the AST's functions, are parameters.
--     Mir/Dominators: `dominators`. Mir/Phis: `dominanceFrontiers` and the placing of phis. Mir/Ssa: the
--     renaming and `mirToSSA`. Mir/Print: `mirToString`.
--     Mir/Labels, Moves, ExprMoves, StmtMoves, Functions, Closed, Builds, ExprBuilds, Temps,
--     Mirror, Edges, Reach: the theorems on the lowering and its graph; Nearest, Nearby,
--     Settles, FirstPass, SecondPass, Candidates, Passes, Walks, Reduced: those on the dominators; Shape,
--     Unchanged, Balance: those on the SSA form.
--   Lsp: `utf16ToByte` and `byteToUtf16` of compiler/src/lsp/utf16.inc; Lsp/Lines `lineAt` and `wordAt`;
--     Lsp/Uri compiler/src/lsp/uri.inc, with `_WIN32` as an argument. Lsp/Frames: `readFrame` and
--     `writeFrame` of transport.inc; Lsp/Server: `LspServer::run`. Lsp/Columns, Joined, Words, Paths,
--     Streams, Sessions, Enough: the theorems.
--
-- How the pieces fit: `hirOptimize` folds the expressions of each function (HirOpt/Simplify applies
-- HirOpt/Fold at every node), drops the branches whose condition became constant, repeats this while
-- a statement changed, and then removes the locals that the remaining code does not name. From the
-- result (--dump-mir of compiler/src/main.cpp), `loweringToMir` builds blocks, and `mirToSSA` their
-- graph, its dominators and the SSA form.
--
-- Bounds and fuel: the meaning of a loop runs on fuel, any amount of it; the theorems hold for each
-- amount, so that the simplified code also runs out of fuel exactly where the code does. The rounds of
-- `hirOptimize` are counted down from 4, the bound of its loop; the theorem holds for any number.
-- The JSON parser runs on three calls for each byte of its text, and the loop of `LspServer::run` on one
-- frame for each byte of its input and one more. The loops of `dominators` that
-- need not end on every graph run on fuel, the same for the rounds and for the steps of an inner loop,
-- and answer `none` without it; twice the number of blocks and one is enough on the reducible graphs
-- (`IsReducible` of Mir/SecondPass).
--
-- Not modelled: null nodes where the parser builds none are kept as constructors and passed through,
-- where the C++ code would follow a null pointer. The source line of a statement, which only the
-- debugger reads. A pointer into the AST is an optional address. -INT64_MIN, undefined in C++, is taken
-- to wrap. The other parts of the compiler and the runtime.
pub mod Base
pub mod Types
pub mod Hir
pub mod HirOpt
pub mod Json
pub mod SemVer
pub mod Mir
pub mod Lsp
