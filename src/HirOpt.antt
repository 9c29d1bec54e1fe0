-- ===== src/HirOpt.antt =====
-- The HIR optimiser: compiler/src/hir/hirOpt.cpp.
pub mod Doubles
pub mod Fold
pub mod Simplify
pub mod Target
pub mod Exact
pub mod Arith
pub mod Unsigned
pub mod Fragment
pub mod Operands
pub mod Stable
pub mod Constants
pub mod Jumps
pub mod Steps
pub mod Sound
mod ExactFolds
pub mod Preserve
pub mod Rounds
pub mod Dce
pub mod Names
pub mod Collect
pub mod Kept
pub mod Escape
mod Toy
mod Tests
